-- ===== src/Runtime/LittleEndian/Laws.antt =====
-- The operations of `LittleEndian` beside those of `BigEndian`: they write and read the same
-- bytes the other way round, and they read back what they wrote.
use stainless.Base.{ℕ, ◌^◌, ◌<◌, ltb, if◌then◌else◌, List, ◌++◌, length, append_assoc, ◌≡◌, ap, ◌∙◌}
use stainless.Runtime.Bytes.{
  little_endian, value_too_large, usize_limit, ok, err, Fits, from_le_bytes, to_le_bytes, u32, u64,
  to_be_bytes,
}
use stainless.Runtime.Bytes.Laws.{
  from_le_bytes-to_le_bytes, length-to_le_bytes, read_at_of_checks, read_at_of_append,
}
use stainless.Runtime.LittleEndian.{
  write_u32, write_u64, write_usize_u32, read_u32_at, read_u64_at, width_error,
}
use mathlib.Core.List.{reverse, reverse-reverse}

-- A four-byte or eight-byte integer written into a buffer is read back from the place where it
-- was written, whatever is written behind it.
pub read_at-write_little_endian :
    (output rest : List ℕ) (v w : ℕ)
    → Fits u32 v
    → Fits u64 w
    → length (write_u32 output v ++ rest) < usize_limit
    → length (write_u64 output w ++ rest) < usize_limit
    → (read_u32_at (write_u32 output v ++ rest) (length output) ≡ ok v)
      × (read_u64_at (write_u64 output w ++ rest) (length output) ≡ ok w)
unfolding write_u32 write_u64 read_u32_at read_u64_at
read_at-write_little_endian output rest v w fv fw h k = (
  rw append_assoc (
      read_at_of_checks from_le_bytes 4 _ _ _ (width_error 4) (rw append_assoc at h)
      ∙ read_at_of_append from_le_bytes 4 output (to_le_bytes 4 v) rest _ (length-to_le_bytes 4 v)
      ∙ ap ok (from_le_bytes-to_le_bytes 4 v fv)),
  rw append_assoc (
      read_at_of_checks from_le_bytes 8 _ _ _ (width_error 8) (rw append_assoc at k)
      ∙ read_at_of_append from_le_bytes 8 output (to_le_bytes 8 w) rest _ (length-to_le_bytes 8 w)
      ∙ ap ok (from_le_bytes-to_le_bytes 8 w fw)),
)

-- A length is written in four bytes exactly if it is below 2 ^ 32, and refused by the error that
-- names it otherwise; in either order the written bytes are those of the integer.
pub write_usize_u32_checks :
    (output : List ℕ) (value : ℕ)
    → (write_usize_u32 output value ≡ (
        if ltb value (2 ^ 32)
        then ok (output ++ reverse (to_be_bytes 4 value))
        else err (value_too_large little_endian value)))
unfolding write_usize_u32 to_be_bytes
write_usize_u32_checks output value = rw reverse-reverse
