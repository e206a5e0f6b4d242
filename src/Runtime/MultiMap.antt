-- ===== src/Runtime/MultiMap.antt =====
-- `MultiMap` of crates/stainless-runtime/src/lib.rs. Its `BTreeMap` is a list of buckets in the
-- order of their keys, searched as far as the key may stand. Buckets has the laws of that list, Laws
-- those of the multimap.
pub mod Buckets
pub mod Laws
pub mod Valid
mod Examples
use stainless.Base.{
  ℕ, ◌+◌, ◌-◌, ◌≡◌, ◌==◌, if◌then◌else◌, Bool, true, false, Option, none, some, List, [], ◌∷◌, ◌++◌,
  length, is_some,
}

-- What `Ord` promises of the keys, and `PartialEq` as the values' test.
pub record Ordered (K : Type 0) : Type 0 where
  pub lt : K → K → Bool
  pub lt_irrefl : (a : K) → lt a a ≡ false
  pub lt_trans : (a b c : K) → lt a b ≡ true → lt b c ≡ true → lt a c ≡ true
  pub lt_total : (a b : K) → lt a b ≡ false → lt b a ≡ false → a ≡ b

abbrev pub keep {ℓ} : {A : Type ℓ} → (A → Bool) → List A → List A
keep p [] = []
keep p (a ∷ rest) = let kept = keep p rest in if p a then a ∷ kept else kept

abbrev pub Entries : Type 0 → Type 0 → Type 0
Entries K V = List (K × List V)

pub record MultiMap (K V : Type 0) : Type 0 where
  pub entries : Entries K V
  pub len : ℕ

abbrev pub or_default : {V : Type 0} → Option (List V) → List V
or_default none = []
or_default (some values) = values

-- The loop of `remove` over a bucket: what is retained, and whether a value was removed.
unfoldable pub remove_first : {V : Type 0} → (V → V → Bool) → V → List V → List V × Bool
remove_first same old [] = ([], false)
remove_first same old (candidate ∷ rest) =
    let (retained, removed) = remove_first same old rest in
    if same candidate old then (rest, true) else (candidate ∷ retained, removed)

-- `retained_len` over a bucket: one more for each value that the predicate accepts.
unfoldable pub count_kept : {V : Type 0} → (V → Bool) → List V → ℕ
count_kept accepts [] = 0
count_kept accepts (value ∷ rest) =
    let more = count_kept accepts rest in if accepts value then more + 1 else more

-- The loops of `with` and `with_mut`: the callback is called on one value after the other.
unfoldable pub visit_each : {S V : Type 0} → (S → V → S) → S → List V → S
visit_each callback start [] = start
visit_each callback start (value ∷ rest) = visit_each callback (callback start value) rest

unfoldable pub visit_each_mut : {S V : Type 0} → (S → V → S × V) → S → List V → S × List V
visit_each_mut callback start [] = (start, [])
visit_each_mut callback start (value ∷ rest) =
    let (next, changed) = callback start value in
    let (done, others) = visit_each_mut callback next rest in (done, changed ∷ others)

module _ {K V : Type 0} where
  abbrev pub new : MultiMap K V
  new = record { entries = []; len = 0 }

  abbrev pub key_len : MultiMap K V → ℕ
  key_len m = length m.entries

  abbrev pub is_empty : MultiMap K V → Bool
  is_empty m = m.len == 0

  abbrev pub clear : MultiMap K V → MultiMap K V
  clear m = record { entries = []; len = 0 }

  -- A bucket that nothing is left of goes.
  abbrev pub keep_bucket : K → List V → Entries K V → Entries K V
  keep_bucket key [] rest = rest
  keep_bucket key (first ∷ values) rest = (key, first ∷ values) ∷ rest

  unfoldable pub retain_entries : (K → V → Bool) → Entries K V → Entries K V
  retain_entries predicate [] = []
  retain_entries predicate ((k, values) ∷ rest) =
      keep_bucket k (keep (predicate k) values) (retain_entries predicate rest)

  unfoldable pub retained_len : (K → V → Bool) → Entries K V → ℕ
  retained_len predicate [] = 0
  retained_len predicate ((k, values) ∷ rest) =
      count_kept (predicate k) values + retained_len predicate rest

  unfoldable pub total : Entries K V → ℕ
  total [] = 0
  total ((k, values) ∷ rest) = length values + total rest

  unfoldable pub retain : (K → V → Bool) → MultiMap K V → MultiMap K V
  retain predicate m = record {
    entries = retain_entries predicate m.entries;
    len = retained_len predicate m.entries;
  }

module _ {K V : Type 0} (order : Ordered K) where
  -- The operations of the map.
  unfoldable pub get : K → Entries K V → Option (List V)
  get key [] = none
  get key ((k, values) ∷ rest) =
      let further = get key rest in
      if order.lt key k then none else (if order.lt k key then further else some values)

  unfoldable pub set : K → List V → Entries K V → Entries K V
  set key new [] = (key, new) ∷ []
  set key new ((k, values) ∷ rest) =
      let further = set key new rest in
      if order.lt key k
      then (key, new) ∷ ((k, values) ∷ rest)
      else (if order.lt k key then (k, values) ∷ further else (key, new) ∷ rest)

  unfoldable pub erase : K → Entries K V → Entries K V
  erase key [] = []
  erase key ((k, values) ∷ rest) =
      let further = erase key rest in
      if order.lt key k
      then (k, values) ∷ rest
      else (if order.lt k key then (k, values) ∷ further else rest)

  unfoldable pub insert : K → V → MultiMap K V → MultiMap K V
  insert key added m = record {
    entries = set key (or_default (get key m.entries) ++ (added ∷ [])) m.entries;
    len = m.len + 1;
  }

  unfoldable pub contains_key : K → MultiMap K V → Bool
  contains_key key m = is_some (get key m.entries)

  -- `with`: the callback, with what it keeps, sees the values of the key; their count comes back.
  unfoldable pub with_values : {S : Type 0} → K → (S → V → S) → S → MultiMap K V → S × ℕ
  with_values key callback start m =
      let values = or_default (get key m.entries) in
      (visit_each callback start values, length values)

  unfoldable pub with_mut_in :
      {S : Type 0} → Option (List V) → K → (S → V → S × V) → S → MultiMap K V → MultiMap K V × S × ℕ
  with_mut_in none key callback start m = (m, start, 0)
  with_mut_in (some values) key callback start m =
      let (done, changed) = visit_each_mut callback start values in
      (record m { entries = set key changed m.entries }, done, length values)

  unfoldable pub with_mut :
      {S : Type 0} → K → (S → V → S × V) → S → MultiMap K V → MultiMap K V × S × ℕ
  with_mut key callback start m = with_mut_in (get key m.entries) key callback start m

  unfoldable pub remove_all : K → MultiMap K V → MultiMap K V × ℕ
  remove_all key m =
      let removed = length (or_default (get key m.entries)) in
      (record { entries = erase key m.entries; len = m.len - removed }, removed)

  abbrev pub put_back : K → List V → Entries K V → Entries K V
  put_back key [] entries = erase key (set key [] entries)
  put_back key (first ∷ rest) entries = set key (first ∷ rest) entries

  unfoldable pub remove_from :
      Option (List V) → (V → V → Bool) → K → V → MultiMap K V → MultiMap K V × Bool
  remove_from none same key old m = (m, false)
  remove_from (some values) same key old m =
      let (retained, removed) = remove_first same old values in
      (
        record {
          entries = put_back key retained m.entries;
          len = if removed then m.len - 1 else m.len;
        },
        removed,
      )

  unfoldable pub remove : (V → V → Bool) → K → V → MultiMap K V → MultiMap K V × Bool
  remove same key old m = remove_from (get key m.entries) same key old m
