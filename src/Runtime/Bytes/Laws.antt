-- ===== src/Runtime/Bytes/Laws.antt =====
-- The byte forms are inverse to each other, and what an access to a slice returns.
use stainless.Base.{
  ℕ, zero, suc, ◌+◌, ◌-◌, ◌*◌, ◌/◌, ◌%◌, ◌^◌, ◌<◌, ◌≡◌, refl, ap, ◌∙◌, arith, List, [], ◌∷◌, ◌++◌,
  length, take, drop, All, length-append, length-take, length-drop, take-append, drop-append, some,
  none, leb, ◌==◌, if◌then◌else◌,
}
use stainless.Runtime.Bytes.{
  get_range, checked_add, ok_or, ok, err, IoError, ◌>>=◌, usize_limit, to_le_bytes, from_le_bytes,
  to_be_bytes, from_be_bytes, IsByte,
}
use mathlib.Core.List.{reverse, reverse-reverse, reverse-append}
use native.Mathlib.Nat.{pow-suc}

pub length-to_le_bytes : (k v : ℕ) → length (to_le_bytes k v) ≡ k
unfolding to_le_bytes
length-to_le_bytes zero v = refl
length-to_le_bytes (suc k) v = ap suc (length-to_le_bytes k (v / 256))

pub from_le_bytes-to_le_bytes : (k v : ℕ) → v < 256 ^ k → from_le_bytes (to_le_bytes k v) ≡ v
unfolding to_le_bytes from_le_bytes
from_le_bytes-to_le_bytes zero v h = omega arith
from_le_bytes-to_le_bytes (suc k) v h =
    omega (arith, from_le_bytes-to_le_bytes k (v / 256) (omega (arith, pow-suc 256 k)))

pub from_le_bytes-lt : (bs : List ℕ) → All IsByte bs → from_le_bytes bs < 256 ^ length bs
unfolding from_le_bytes
from_le_bytes-lt [] h = omega arith
from_le_bytes-lt (b ∷ bs) h = omega (arith, from_le_bytes-lt bs h.1, pow-suc 256 (length bs))

pub to_le_bytes-from_le_bytes :
    (bs : List ℕ) → All IsByte bs → to_le_bytes (length bs) (from_le_bytes bs) ≡ bs
unfolding to_le_bytes from_le_bytes
to_le_bytes-from_le_bytes [] h = refl
to_le_bytes-from_le_bytes (b ∷ bs) h =
    let low : (b + 256 * from_le_bytes bs) % 256 ≡ b = omega arith in
    let high : (b + 256 * from_le_bytes bs) / 256 ≡ from_le_bytes bs = omega arith in
    rw (low, high) (ap (λ l. b ∷ l) (to_le_bytes-from_le_bytes bs h.1))

pub to_le_bytes-IsByte : (k v : ℕ) → All IsByte (to_le_bytes k v)
unfolding to_le_bytes
to_le_bytes-IsByte zero v = tt
to_le_bytes-IsByte (suc k) v = (omega arith, to_le_bytes-IsByte k (v / 256))

pub All-append {ℓ κ} :
    {A : Type ℓ} (P : A → Type κ) (xs ys : List A) → All P xs → All P ys → All P (xs ++ ys)
All-append P [] ys hx hy = hy
All-append P (x ∷ xs) ys hx hy = (hx.0, All-append P xs ys hx.1 hy)

pub All-reverse {ℓ κ} : {A : Type ℓ} (P : A → Type κ) (xs : List A) → All P xs → All P (reverse xs)
All-reverse P [] h = tt
All-reverse P (x ∷ xs) h =
    rw (reverse-append (x ∷ []) xs)
      (All-append P (reverse xs) (x ∷ []) (All-reverse P xs h.1) (h.0, tt))

pub length-reverse {ℓ} : {A : Type ℓ} (xs : List A) → length (reverse xs) ≡ length xs
length-reverse [] = refl
length-reverse (x ∷ xs) =
    rw (reverse-append (x ∷ []) xs, length-append (reverse xs) (x ∷ []))
      (omega (arith, length-reverse xs))

pub length-to_be_bytes : (k v : ℕ) → length (to_be_bytes k v) ≡ k
unfolding to_be_bytes
length-to_be_bytes k v = length-reverse (to_le_bytes k v) ∙ length-to_le_bytes k v

pub from_be_bytes-to_be_bytes : (k v : ℕ) → v < 256 ^ k → from_be_bytes (to_be_bytes k v) ≡ v
unfolding to_be_bytes from_be_bytes
from_be_bytes-to_be_bytes k v h = rw reverse-reverse (from_le_bytes-to_le_bytes k v h)

pub from_be_bytes-lt : (bs : List ℕ) → All IsByte bs → from_be_bytes bs < 256 ^ length bs
unfolding from_be_bytes
from_be_bytes-lt bs h =
    rw (← length-reverse bs) (from_le_bytes-lt (reverse bs) (All-reverse IsByte bs h))

pub to_be_bytes-from_be_bytes :
    (bs : List ℕ) → All IsByte bs → to_be_bytes (length bs) (from_be_bytes bs) ≡ bs
unfolding to_be_bytes from_be_bytes
to_be_bytes-from_be_bytes bs h = rw (
  ← length-reverse bs,
  to_le_bytes-from_le_bytes (reverse bs) (All-reverse IsByte bs h),
  reverse-reverse bs,
)

-- The access by an offset and a width.
get_range_lem :
    (k offset : ℕ) (bytes : List ℕ)
    → get_range bytes offset (offset + k)
      ≡ (if leb (offset + k) (length bytes) then some (take k (drop offset bytes)) else none)
get_range_lem k offset bytes =
    let same : (offset + k) - offset ≡ k = omega arith in rw same (ground arith)

module _ (from : List ℕ → ℕ) where
  -- The checks of a `read_*_at` pass exactly when the integer lies inside the buffer.
  pub read_at_of_checks :
      (k : ℕ) (bytes : List ℕ) (offset : ℕ) (e : IoError) (width_error : List ℕ → IoError)
      → length bytes < usize_limit
      → (ok_or (checked_add offset k) e >>= λ end. ok_or (get_range bytes offset end) e >>= λ range.
          if length range == k then ok (from range) else err (width_error range))
        ≡ (if leb (offset + k) (length bytes)
            then ok (from (take k (drop offset bytes)))
            else err e)
  read_at_of_checks k bytes offset e width_error h = ground (
    arith,
    get_range_lem k offset bytes,
    length-drop offset bytes,
    length-take k (drop offset bytes),
  )

  -- Behind a prefix stands what was written there.
  pub read_at_of_append :
      (k : ℕ) (out written rest : List ℕ) (e : IoError)
      → length written ≡ k
      → (if leb (length out + k) (length (out ++ (written ++ rest)))
          then ok (from (take k (drop (length out) (out ++ (written ++ rest)))))
          else err e)
        ≡ ok (from written)
  read_at_of_append k out written rest e p = ground (
    arith,
    length-append out (written ++ rest),
    length-append written rest,
    drop-append out (written ++ rest),
    take-append written rest,
  )
