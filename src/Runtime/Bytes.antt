-- ===== src/Runtime/Bytes.antt =====
-- What the integer codecs of crates/stainless-runtime/src/lib.rs share: the error values, the
-- slice access `get(offset..end)`, and the byte forms of an integer. A buffer is a list of
-- numbers below 256, an offset or a length a `usize` of 64 bits.
pub mod Laws
use stainless.Base.{
  ℕ, zero, suc, ◌+◌, ◌-◌, ◌*◌, ◌/◌, ◌%◌, ◌^◌, ◌<◌, ltb, leb, if◌then◌else◌, List, [], ◌∷◌, length,
  take, drop, Option, none, some, ◌&&◌,
}
use mathlib.Core.List.{reverse}

pub data ByteOrder : Type 0 where
  big_endian little_endian : ByteOrder

-- The `std::io::Error` values of this part of the file: of kind `InvalidInput` the first, of kind
-- `InvalidData` the others. The fields are what the messages print; the width stands for the name
-- of the integer type as well.
pub data IoError : Type 0 where
  value_too_large : ByteOrder → (value : ℕ) → IoError
  invalid_integer_width : ByteOrder → (expected actual : ℕ) → IoError
  invalid_integer_offset : ByteOrder → (offset width actual : ℕ) → IoError

pub data Result {ℓ} (A : Type ℓ) : Type ℓ where
  ok : A → Result A
  err : IoError → Result A

infixl 5 ◌>>=◌
abbrev pub ◌>>=◌ {ℓ κ} : {A : Type ℓ} {B : Type κ} → Result A → (A → Result B) → Result B
ok a >>= f = f a
err e >>= f = err e

-- `ok_or_else`
abbrev pub ok_or {ℓ} : {A : Type ℓ} → Option A → IoError → Result A
ok_or (some a) e = ok a
ok_or none e = err e

abbrev pub usize_limit : ℕ
usize_limit = 2 ^ 64

-- `offset.checked_add(width)`
abbrev pub checked_add : ℕ → ℕ → Option ℕ
checked_add offset width = if ltb (offset + width) usize_limit then some (offset + width) else none

-- `bytes.get(begin..end)`
abbrev pub get_range {ℓ} : {A : Type ℓ} → List A → ℕ → ℕ → Option (List A)
get_range values begin end =
    if leb begin end && leb end (length values)
    then some (take (end - begin) (drop begin values))
    else none

-- `to_le_bytes` of an integer of `k` bytes, and `from_le_bytes`; the other order reverses.
unfoldable pub to_le_bytes : ℕ → ℕ → List ℕ
to_le_bytes zero v = []
to_le_bytes (suc k) v = (v % 256) ∷ to_le_bytes k (v / 256)

unfoldable pub from_le_bytes : List ℕ → ℕ
from_le_bytes [] = 0
from_le_bytes (b ∷ bs) = b + 256 * from_le_bytes bs

unfoldable pub to_be_bytes : ℕ → ℕ → List ℕ
unfolding to_le_bytes
to_be_bytes k v = reverse (to_le_bytes k v)

unfoldable pub from_be_bytes : List ℕ → ℕ
unfolding from_le_bytes
from_be_bytes bs = from_le_bytes (reverse bs)

abbrev pub IsByte : ℕ → Type 0
IsByte b = b < 256

-- The integer types of the codecs, each with its size in bytes.
pub data Width : Type 0 where
  u8 u16 u32 u64 u128 : Width

abbrev pub size_of : Width → ℕ
size_of u8 = 1
size_of u16 = 2
size_of u32 = 4
size_of u64 = 8
size_of u128 = 16

-- The values of the integer type.
abbrev pub Fits : Width → ℕ → Type 0
Fits w v = v < 256 ^ size_of w

-- The caller's two variables that a `read_*_advance` call may assign.
pub record Cursor : Type 0 where
  pub offset : ℕ
  pub output : ℕ
