-- ===== src/Runtime/BigEndian.antt =====
-- The type `BigEndian` of crates/stainless-runtime/src/lib.rs. A `write_*` returns the buffer that its
-- `&mut` argument becomes, and a `read_*_advance` the caller's offset and variable with its result.
pub mod Laws
use stainless.Base.{
  ℕ, zero, suc, ◌+◌, ◌-◌, ◌*◌, ◌/◌, ◌%◌, ◌^◌, ◌<◌, ltb, leb, ◌==◌, if◌then◌else◌, List, [], ◌∷◌,
  ◌++◌, length, take, drop, Option, none, some, ◌&&◌, get_elem?,
}
use stainless.Runtime.Bytes.{
  big_endian, IoError, value_too_large, invalid_integer_width, invalid_integer_offset, Result, ok,
  err, ◌>>=◌, ok_or, checked_add, get_range, to_be_bytes, from_be_bytes, Width, u8, u16, u32, u64,
  u128, Cursor,
}

width_error : ℕ → List ℕ → IoError
width_error width bytes = invalid_integer_width big_endian width (length bytes)

offset_error : ℕ → ℕ → List ℕ → IoError
offset_error offset width bytes = invalid_integer_offset big_endian offset width (length bytes)

unfoldable pub write_u8 : List ℕ → ℕ → List ℕ
write_u8 output value = output ++ value ∷ []

unfoldable pub write_u16 : List ℕ → ℕ → List ℕ
write_u16 output value = output ++ to_be_bytes 2 value

unfoldable pub write_u32 : List ℕ → ℕ → List ℕ
write_u32 output value = output ++ to_be_bytes 4 value

unfoldable pub write_u64 : List ℕ → ℕ → List ℕ
write_u64 output value = output ++ to_be_bytes 8 value

unfoldable pub write_u128 : List ℕ → ℕ → List ℕ
write_u128 output value = output ++ to_be_bytes 16 value

-- On an error the buffer is as it was.
unfoldable pub write_usize_u32 : List ℕ → ℕ → Result (List ℕ)
unfolding write_u32
write_usize_u32 output value =
    if ltb value (2 ^ 32)
    then ok (write_u32 output value)
    else err (value_too_large big_endian value)

unfoldable pub write_usize_u64 : List ℕ → ℕ → List ℕ
unfolding write_u64
write_usize_u64 output value = write_u64 output value

unfoldable pub read_u8 : List ℕ → Result ℕ
unfolding width_error
read_u8 (value ∷ []) = ok value
read_u8 bytes = err (width_error 1 bytes)

unfoldable pub read_u8_at : List ℕ → ℕ → Result ℕ
unfolding offset_error
read_u8_at bytes offset = ok_or (get_elem? bytes offset) (offset_error offset 1 bytes)

unfoldable pub read_u16 : List ℕ → Result ℕ
unfolding width_error
read_u16 bytes = if length bytes == 2 then ok (from_be_bytes bytes) else err (width_error 2 bytes)

unfoldable pub read_u16_at : List ℕ → ℕ → Result ℕ
unfolding read_u16 offset_error
read_u16_at bytes offset = do
  end ← ok_or (checked_add offset 2) (offset_error offset 2 bytes)
  range ← ok_or (get_range bytes offset end) (offset_error offset 2 bytes)
  read_u16 range

unfoldable pub read_u32 : List ℕ → Result ℕ
unfolding width_error
read_u32 bytes = if length bytes == 4 then ok (from_be_bytes bytes) else err (width_error 4 bytes)

unfoldable pub read_u32_at : List ℕ → ℕ → Result ℕ
unfolding read_u32 offset_error
read_u32_at bytes offset = do
  end ← ok_or (checked_add offset 4) (offset_error offset 4 bytes)
  range ← ok_or (get_range bytes offset end) (offset_error offset 4 bytes)
  read_u32 range

unfoldable pub read_u64 : List ℕ → Result ℕ
unfolding width_error
read_u64 bytes = if length bytes == 8 then ok (from_be_bytes bytes) else err (width_error 8 bytes)

unfoldable pub read_u64_at : List ℕ → ℕ → Result ℕ
unfolding read_u64 offset_error
read_u64_at bytes offset = do
  end ← ok_or (checked_add offset 8) (offset_error offset 8 bytes)
  range ← ok_or (get_range bytes offset end) (offset_error offset 8 bytes)
  read_u64 range

unfoldable pub read_u128 : List ℕ → Result ℕ
unfolding width_error
read_u128 bytes =
    if length bytes == 16 then ok (from_be_bytes bytes) else err (width_error 16 bytes)

unfoldable pub read_u128_at : List ℕ → ℕ → Result ℕ
unfolding read_u128 offset_error
read_u128_at bytes offset = do
  end ← ok_or (checked_add offset 16) (offset_error offset 16 bytes)
  range ← ok_or (get_range bytes offset end) (offset_error offset 16 bytes)
  read_u128 range

-- What the advancing reads do with the result of the read at the cursor.
store : Cursor → ℕ → Result ℕ → Result (Unit {0}) × Cursor
store cursor width (ok value) = (ok tt, record { offset = cursor.offset + width; output = value })
store cursor width (err e) = (err e, cursor)

unfoldable pub read_u8_advance : List ℕ → Cursor → Result (Unit {0}) × Cursor
unfolding store read_u8_at
read_u8_advance bytes cursor = store cursor 1 (read_u8_at bytes cursor.offset)

unfoldable pub read_u16_advance : List ℕ → Cursor → Result (Unit {0}) × Cursor
unfolding store read_u16_at
read_u16_advance bytes cursor = store cursor 2 (read_u16_at bytes cursor.offset)

unfoldable pub read_u32_advance : List ℕ → Cursor → Result (Unit {0}) × Cursor
unfolding store read_u32_at
read_u32_advance bytes cursor = store cursor 4 (read_u32_at bytes cursor.offset)

unfoldable pub read_u64_advance : List ℕ → Cursor → Result (Unit {0}) × Cursor
unfolding store read_u64_at
read_u64_advance bytes cursor = store cursor 8 (read_u64_at bytes cursor.offset)

unfoldable pub read_u128_advance : List ℕ → Cursor → Result (Unit {0}) × Cursor
unfolding store read_u128_at
read_u128_advance bytes cursor = store cursor 16 (read_u128_at bytes cursor.offset)

-- The operations by the integer type.
unfoldable pub write : Width → List ℕ → ℕ → List ℕ
unfolding write_u8 write_u16 write_u32 write_u64 write_u128
write u8 output value = write_u8 output value
write u16 output value = write_u16 output value
write u32 output value = write_u32 output value
write u64 output value = write_u64 output value
write u128 output value = write_u128 output value

unfoldable pub read : Width → List ℕ → Result ℕ
unfolding read_u8 read_u16 read_u32 read_u64 read_u128
read u8 bytes = read_u8 bytes
read u16 bytes = read_u16 bytes
read u32 bytes = read_u32 bytes
read u64 bytes = read_u64 bytes
read u128 bytes = read_u128 bytes

unfoldable pub read_at : Width → List ℕ → ℕ → Result ℕ
unfolding read_u8_at read_u16_at read_u32_at read_u64_at read_u128_at
read_at u8 bytes offset = read_u8_at bytes offset
read_at u16 bytes offset = read_u16_at bytes offset
read_at u32 bytes offset = read_u32_at bytes offset
read_at u64 bytes offset = read_u64_at bytes offset
read_at u128 bytes offset = read_u128_at bytes offset

unfoldable pub read_advance : Width → List ℕ → Cursor → Result (Unit {0}) × Cursor
unfolding read_u8_advance read_u16_advance read_u32_advance read_u64_advance read_u128_advance
read_advance u8 bytes cursor = read_u8_advance bytes cursor
read_advance u16 bytes cursor = read_u16_advance bytes cursor
read_advance u32 bytes cursor = read_u32_advance bytes cursor
read_advance u64 bytes cursor = read_u64_advance bytes cursor
read_advance u128 bytes cursor = read_u128_advance bytes cursor
