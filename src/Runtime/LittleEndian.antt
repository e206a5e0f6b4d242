-- ===== src/Runtime/LittleEndian.antt =====
-- The type `LittleEndian` of crates/stainless-runtime/src/lib.rs. A `write_*` returns the buffer that its
-- `&mut` argument becomes.
pub mod Laws
use stainless.Base.{
  ℕ, zero, suc, ◌+◌, ◌-◌, ◌*◌, ◌/◌, ◌%◌, ◌^◌, ◌<◌, ltb, leb, ◌==◌, if◌then◌else◌, List, [], ◌∷◌,
  ◌++◌, length, take, drop, Option, none, some, ◌&&◌, get_elem?,
}
use stainless.Runtime.Bytes.{
  little_endian, IoError, value_too_large, invalid_integer_width, invalid_integer_offset, Result,
  ok, err, ◌>>=◌, ok_or, checked_add, get_range, to_le_bytes, from_le_bytes, Width, u8, u16, u32,
  u64, u128, Cursor,
}

width_error : ℕ → List ℕ → IoError
width_error width bytes = invalid_integer_width little_endian width (length bytes)

offset_error : ℕ → ℕ → List ℕ → IoError
offset_error offset width bytes = invalid_integer_offset little_endian offset width (length bytes)

unfoldable pub write_u32 : List ℕ → ℕ → List ℕ
write_u32 output value = output ++ to_le_bytes 4 value

unfoldable pub write_u64 : List ℕ → ℕ → List ℕ
write_u64 output value = output ++ to_le_bytes 8 value

-- On an error the buffer is as it was.
unfoldable pub write_usize_u32 : List ℕ → ℕ → Result (List ℕ)
unfolding write_u32
write_usize_u32 output value =
    if ltb value (2 ^ 32)
    then ok (write_u32 output value)
    else err (value_too_large little_endian value)

unfoldable pub write_usize_u64 : List ℕ → ℕ → List ℕ
unfolding write_u64
write_usize_u64 output value = write_u64 output value

unfoldable pub read_u8 : List ℕ → Result ℕ
unfolding width_error
read_u8 (value ∷ []) = ok value
read_u8 bytes = err (width_error 1 bytes)

unfoldable pub read_u8_at : List ℕ → ℕ → Result ℕ
unfolding offset_error
read_u8_at bytes offset = ok_or (get_elem? bytes offset) (offset_error offset 1 bytes)

unfoldable pub read_u32 : List ℕ → Result ℕ
unfolding width_error
read_u32 bytes = if length bytes == 4 then ok (from_le_bytes bytes) else err (width_error 4 bytes)

unfoldable pub read_u32_at : List ℕ → ℕ → Result ℕ
unfolding read_u32 offset_error
read_u32_at bytes offset = do
  end ← ok_or (checked_add offset 4) (offset_error offset 4 bytes)
  range ← ok_or (get_range bytes offset end) (offset_error offset 4 bytes)
  read_u32 range

unfoldable pub read_u64 : List ℕ → Result ℕ
unfolding width_error
read_u64 bytes = if length bytes == 8 then ok (from_le_bytes bytes) else err (width_error 8 bytes)

unfoldable pub read_u64_at : List ℕ → ℕ → Result ℕ
unfolding read_u64 offset_error
read_u64_at bytes offset = do
  end ← ok_or (checked_add offset 8) (offset_error offset 8 bytes)
  range ← ok_or (get_range bytes offset end) (offset_error offset 8 bytes)
  read_u64 range
