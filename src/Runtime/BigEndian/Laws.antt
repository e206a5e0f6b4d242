-- ===== src/Runtime/BigEndian/Laws.antt =====
-- The operations of `BigEndian` in one form for all widths, and what that gives: they read back
-- what they wrote, they fail exactly outside the buffer, and a failed read changes nothing.
use stainless.Base.{
  ℕ, zero, suc, ◌+◌, ◌%◌, ◌<◌, leb, ◌==◌, if◌then◌else◌, List, [], ◌∷◌, ◌++◌, length, take, drop,
  get_elem?, ◌≡◌, refl, ap, ◌∙◌, arith, All, append_assoc,
}
use stainless.Runtime.Bytes.{
  big_endian, IoError, invalid_integer_width, invalid_integer_offset, usize_limit, Fits, size_of,
  IsByte, ok, err, ok_or, to_be_bytes, from_be_bytes, Width, u8, u16, u32, u64, u128, Cursor,
}
use stainless.Runtime.Bytes.Laws.{
  from_be_bytes-to_be_bytes, to_be_bytes-from_be_bytes, from_be_bytes-lt, length-to_be_bytes,
  read_at_of_checks, read_at_of_append,
}
use stainless.Runtime.BigEndian.{write, read, read_at, read_advance, store, width_error}

-- Every width is written as its big-endian bytes behind the buffer.
write-to_be_bytes :
    (w : Width) (output : List ℕ) (v : ℕ)
    → Fits w v
    → write w output v ≡ output ++ to_be_bytes (size_of w) v
unfolding write to_be_bytes
write-to_be_bytes u8 output v h = let e : v % 256 ≡ v = omega arith in rw e
write-to_be_bytes u16 output v h = refl
write-to_be_bytes u32 output v h = refl
write-to_be_bytes u64 output v h = refl
write-to_be_bytes u128 output v h = refl

read_lem :
    (w : Width) (bytes : List ℕ)
    → read w bytes ≡ (
        if length bytes == size_of w
        then ok (from_be_bytes bytes)
        else err (invalid_integer_width big_endian (size_of w) (length bytes)))
unfolding read
read_lem u8 [] = refl
read_lem u8 (b ∷ []) = unfold from_be_bytes in ap ok (omega arith)
read_lem u8 (b ∷ c ∷ bs) = ground arith
read_lem u16 bytes = refl
read_lem u32 bytes = refl
read_lem u64 bytes = refl
read_lem u128 bytes = refl

get_elem?_at :
    (bytes : List ℕ) (offset : ℕ) (e : IoError)
    → ok_or (get_elem? bytes offset) e ≡ (
        if leb (offset + 1) (length bytes)
        then ok (from_be_bytes (take 1 (drop offset bytes)))
        else err e)
get_elem?_at [] offset e = ground arith
get_elem?_at (b ∷ bs) zero e = unfold from_be_bytes in ground arith
get_elem?_at (b ∷ bs) (suc offset) e = ground (arith, get_elem?_at bs offset e)

-- A read at an offset, on every branch and for every width: the integer that the bytes there
-- hold if all of them lie inside the buffer, and the offset error otherwise.
pub read_at_lem :
    (w : Width) (bytes : List ℕ) (offset : ℕ)
    → length bytes < usize_limit
    → read_at w bytes offset ≡ (
        if leb (offset + size_of w) (length bytes)
        then ok (from_be_bytes (take (size_of w) (drop offset bytes)))
        else err (invalid_integer_offset big_endian offset (size_of w) (length bytes)))
unfolding read_at
read_at_lem u8 bytes offset h = get_elem?_at bytes offset _
read_at_lem u16 bytes offset h = read_at_of_checks from_be_bytes 2 bytes offset _ (width_error 2) h
read_at_lem u32 bytes offset h = read_at_of_checks from_be_bytes 4 bytes offset _ (width_error 4) h
read_at_lem u64 bytes offset h = read_at_of_checks from_be_bytes 8 bytes offset _ (width_error 8) h
read_at_lem u128 bytes offset h =
    read_at_of_checks from_be_bytes 16 bytes offset _ (width_error 16) h

-- What was written into a buffer is read back at the place where it was written, whatever is
-- written behind it.
pub read_at-write :
    (w : Width) (output rest : List ℕ) (v : ℕ)
    → Fits w v
    → length (write w output v ++ rest) < usize_limit
    → read_at w (write w output v ++ rest) (length output) ≡ ok v
read_at-write w output rest v fits h =
    rw (read_at_lem w _ (length output) h, write-to_be_bytes w output v fits, append_assoc)
      (read_at_of_append from_be_bytes (size_of w) output (to_be_bytes (size_of w) v) rest _
          (length-to_be_bytes (size_of w) v)
        ∙ ap ok (from_be_bytes-to_be_bytes (size_of w) v fits))

-- A buffer that reads as an integer is what writing that integer gives, and the integer is in
-- the range of its type.
pub write-read :
    (w : Width) (bytes : List ℕ) (v : ℕ)
    → All IsByte bytes
    → read w bytes ≡ ok v
    → (write w [] v ≡ bytes) × Fits w v
write-read w bytes v h e = ground (
  arith,
  read_lem w bytes,
  write-to_be_bytes w [] v,
  to_be_bytes-from_be_bytes bytes h,
  from_be_bytes-lt bytes h,
)

read_advance-store :
    (w : Width) (bytes : List ℕ) (cursor : Cursor)
    → read_advance w bytes cursor ≡ store cursor (size_of w) (read_at w bytes cursor.offset)
unfolding read_advance read_at
read_advance-store u8 bytes cursor = refl
read_advance-store u16 bytes cursor = refl
read_advance-store u32 bytes cursor = refl
read_advance-store u64 bytes cursor = refl
read_advance-store u128 bytes cursor = refl

-- An advancing read moves the cursor behind the integer and stores it if it lies inside the
-- buffer, and leaves the caller's variables alone otherwise.
pub read_advance_lem :
    (w : Width) (bytes : List ℕ) (cursor : Cursor)
    → length bytes < usize_limit
    → read_advance w bytes cursor ≡ (
        if leb (cursor.offset + size_of w) (length bytes)
        then (
          ok tt,
          record {
            offset = cursor.offset + size_of w;
            output = from_be_bytes (take (size_of w) (drop cursor.offset bytes));
          },
        )
        else (
          err (invalid_integer_offset big_endian cursor.offset (size_of w) (length bytes)),
          cursor,
        ))
unfolding store
read_advance_lem w bytes cursor h =
    rw (read_advance-store w bytes cursor, read_at_lem w bytes cursor.offset h) (ground arith)
