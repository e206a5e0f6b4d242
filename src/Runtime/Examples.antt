-- ===== src/Runtime/Examples.antt =====
-- Small buffers, and the theorems about the codecs at them.
use stainless.Base.{
  ℕ, ◌+◌, ◌<◌, ◌≡◌, leb, refl, arith, List, [], ◌∷◌, ◌++◌, length, take, drop, if◌then◌else◌,
}
use stainless.Runtime.Bytes.{
  ok, err, u16, size_of, invalid_integer_offset, big_endian, Cursor, Fits, from_be_bytes,
  to_be_bytes, to_le_bytes, usize_limit,
}
use stainless.Runtime.BigEndian
use stainless.Runtime.BigEndian.Laws.{read_at_lem, read_at-write, write-read, read_advance_lem}
use stainless.Runtime.LittleEndian
use stainless.Runtime.LittleEndian.Laws.{read_at-write_little_endian}

abbrev buffer : List ℕ
buffer = 1 ∷ 2 ∷ 3 ∷ []

write_u16_runs : BigEndian.write_u16 buffer 0x1234 ≡ 1 ∷ 2 ∷ 3 ∷ 0x12 ∷ 0x34 ∷ []
unfolding BigEndian.write_u16 to_be_bytes
write_u16_runs = refl

write_u32_runs : LittleEndian.write_u32 [] 0x1234 ≡ 0x34 ∷ 0x12 ∷ 0 ∷ 0 ∷ []
unfolding LittleEndian.write_u32 to_le_bytes
write_u32_runs = refl

abbrev at_one : Cursor
at_one = record { offset = 1; output = 77 }

read_at_lem_example : BigEndian.read_at u16 buffer 2 ≡ (
    if leb (2 + size_of u16) (length buffer)
    then ok (from_be_bytes (take (size_of u16) (drop 2 buffer)))
    else err (invalid_integer_offset big_endian 2 (size_of u16) (length buffer)))
read_at_lem_example = read_at_lem u16 buffer 2 (omega arith)

length-write_u16 : length (BigEndian.write u16 buffer 0x1234 ++ (9 ∷ [])) < usize_limit
unfolding BigEndian.write to_be_bytes
length-write_u16 = omega arith

read_at-write_example :
    BigEndian.read_at u16 (BigEndian.write u16 buffer 0x1234 ++ (9 ∷ [])) 3 ≡ ok 0x1234
read_at-write_example = read_at-write u16 buffer (9 ∷ []) 0x1234 (omega arith) length-write_u16

read_u16_runs : BigEndian.read u16 (1 ∷ 2 ∷ []) ≡ ok 258
unfolding BigEndian.read from_be_bytes
read_u16_runs = refl

write-read_example : (BigEndian.write u16 [] 258 ≡ 1 ∷ 2 ∷ []) × Fits u16 258
write-read_example = write-read u16 (1 ∷ 2 ∷ []) 258 (omega arith) read_u16_runs

read_advance_lem_example : BigEndian.read_advance u16 buffer at_one ≡ (
    if leb (1 + size_of u16) (length buffer)
    then (
      ok tt,
      record {
        offset = 1 + size_of u16;
        output = from_be_bytes (take (size_of u16) (drop 1 buffer));
      },
    )
    else (err (invalid_integer_offset big_endian 1 (size_of u16) (length buffer)), at_one))
read_advance_lem_example = read_advance_lem u16 buffer at_one (omega arith)

length-write_u32 : length (LittleEndian.write_u32 buffer 7 ++ []) < usize_limit
unfolding LittleEndian.write_u32 to_le_bytes
length-write_u32 = omega arith

length-write_u64 : length (LittleEndian.write_u64 buffer 8 ++ []) < usize_limit
unfolding LittleEndian.write_u64 to_le_bytes
length-write_u64 = omega arith

read_at-write_little_endian_example :
    (LittleEndian.read_u32_at (LittleEndian.write_u32 buffer 7 ++ []) 3 ≡ ok 7)
    × (LittleEndian.read_u64_at (LittleEndian.write_u64 buffer 8 ++ []) 3 ≡ ok 8)
read_at-write_little_endian_example =
    read_at-write_little_endian buffer [] 7 8 (omega arith) (omega arith) length-write_u32
      length-write_u64
