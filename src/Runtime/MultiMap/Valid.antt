-- ===== src/Runtime/MultiMap/Valid.antt =====
-- Every operation of a multimap keeps its buckets in order and full, and `len` right.
use stainless.Base.{
  ℕ, ◌+◌, ◌-◌, ◌≡◌, refl, sym, ap, ◌∙◌, arith, if◌then◌else◌, Bool, true, false, Option, none, some,
  List, [], ◌∷◌, ◌++◌, length, All, Bool-cases, inl, inr,
}
use stainless.Runtime.MultiMap.{
  Ordered, keep, Entries, MultiMap, new, get, set, erase, or_default, insert, remove_all,
  remove_first, put_back, remove_from, remove, keep_bucket, retain_entries, total, retain,
  count_kept, retained_len, visit_each_mut, with_mut, with_mut_in,
}
use stainless.Runtime.MultiMap.Buckets.{
  IsSorted, set-IsSorted, erase-IsSorted, total-set, total-erase,
}
use stainless.Runtime.MultiMap.Laws.{
  is_full, Operation, inserting, removing_all, removing, retaining, changing, clearing, remember,
  apply, run, values_at, run_promised, IsValid, retain-IsSorted, apply-promised,
}
use mathlib.Core.Option.{some-injective, none-ne-some}
use mathlib.Core.Path.{subst, fun_ext}

count_kept-length :
    {V : Type 0} (accepts : V → Bool) (values : List V)
    → count_kept accepts values ≡ length (keep accepts values)
unfolding count_kept
count_kept-length accepts [] = refl
count_kept-length accepts (v ∷ rest) = elim (Bool-cases (accepts v)) [
  | inl e ↦ let step = count_kept-length accepts rest in rw e (omega arith)
  | inr e ↦ rw e (count_kept-length accepts rest)
]

module _ {K V : Type 0} where
  abbrev IsFull : Entries K V → Type 0
  IsFull es = All (λ (e : K × List V). is_full e.1 ≡ true) es

  keep_bucket-IsFull :
      (k : K) (kept : List V) (rest : Entries K V) → IsFull rest → IsFull (keep_bucket k kept rest)
  keep_bucket-IsFull k [] rest full = full
  keep_bucket-IsFull k (v ∷ kept) rest full = (refl, full)

  retain-IsFull : (p : K → V → Bool) (es : Entries K V) → IsFull (retain_entries p es)
  unfolding retain_entries
  retain-IsFull p [] = tt
  retain-IsFull p ((k, values) ∷ rest) =
      keep_bucket-IsFull k (keep (p k) values) (retain_entries p rest) (retain-IsFull p rest)

  total-keep_bucket :
      (k : K) (kept : List V) (rest : Entries K V)
      → total (keep_bucket k kept rest) ≡ length kept + total rest
  unfolding total
  total-keep_bucket k [] rest = omega arith
  total-keep_bucket k (v ∷ kept) rest = refl

  retained_len-total :
      (p : K → V → Bool) (es : Entries K V) → retained_len p es ≡ total (retain_entries p es)
  unfolding retained_len retain_entries total
  retained_len-total p [] = refl
  retained_len-total p ((k, values) ∷ rest) =
      let counted = count_kept-length (p k) values in
      let step = retained_len-total p rest in
      let bucket = total-keep_bucket k (keep (p k) values) (retain_entries p rest) in omega arith

snoc_full : {V : Type 0} (values : List V) (v : V) → is_full (values ++ (v ∷ [])) ≡ true
snoc_full [] v = refl
snoc_full (a ∷ values) v = refl

visit_each_mut-full :
    {V : Type 0} (change : List V → V → V) (seen values : List V)
    → is_full values ≡ true
    → is_full (visit_each_mut (remember change) seen values).1 ≡ true
unfolding visit_each_mut
visit_each_mut-full change seen [] full = full
visit_each_mut-full change seen (v ∷ rest) full = refl

length-visit_each_mut :
    {V : Type 0} (change : List V → V → V) (seen values : List V)
    → length (visit_each_mut (remember change) seen values).1 ≡ length values
unfolding visit_each_mut
length-visit_each_mut change seen [] = refl
length-visit_each_mut change seen (v ∷ rest) =
    let step = length-visit_each_mut change (v ∷ seen) rest in omega arith

length_snoc :
    {V : Type 0} (values : List V) (v : V) → length (values ++ (v ∷ [])) ≡ length values + 1
length_snoc [] v = refl
length_snoc (a ∷ values) v = let step = length_snoc values v in omega arith

length-remove_first :
    {V : Type 0} (same : V → V → Bool) (old : V) (values : List V)
    → length (remove_first same old values).0 + (if (remove_first same old values).1 then 1 else 0)
      ≡ length values
unfolding remove_first
length-remove_first same old [] = refl
length-remove_first same old (v ∷ rest) = elim (Bool-cases (same v old)) [
  | inl e ↦ rw e (omega arith)
  | inr e ↦ let step = length-remove_first same old rest in rw e (omega arith)
]

removed_len :
    (removed : Bool) (len before after total : ℕ)
    → after + (if removed then 1 else 0) ≡ before
    → total + before ≡ len + after
    → (if removed then len - 1 else len) ≡ total
removed_len true len before after total h k = omega arith
removed_len false len before after total h k = omega arith

module _ {K V : Type 0} (order : Ordered K) where
  set-IsFull :
      (key : K) (values : List V) (es : Entries K V)
      → is_full values ≡ true
      → IsFull es
      → IsFull (set order key values es)
  unfolding set
  set-IsFull key values [] h full = (h, tt)
  set-IsFull key values ((k, old) ∷ rest) h (first, full) = elim (Bool-cases (order.lt key k)) [
    | inl e ↦ rw e (h, (first, full))
    | inr e ↦ elim (Bool-cases (order.lt k key)) [
      | inl f ↦ rw (e, f) (first, set-IsFull key values rest h full)
      | inr f ↦ rw (e, f) (h, full)
    ]
  ]

  erase-IsFull : (key : K) (es : Entries K V) → IsFull es → IsFull (erase order key es)
  unfolding erase
  erase-IsFull key [] full = tt
  erase-IsFull key ((k, old) ∷ rest) (first, full) = elim (Bool-cases (order.lt key k)) [
    | inl e ↦ rw e (first, full)
    | inr e ↦ elim (Bool-cases (order.lt k key)) [
      | inl f ↦ rw (e, f) (first, erase-IsFull key rest full)
      | inr f ↦ rw (e, f) full
    ]
  ]

  erase-set :
      (key : K) (values : List V) (es : Entries K V)
      → erase order key (set order key values es) ≡ erase order key es
  unfolding erase set
  erase-set key values [] = rw (order.lt_irrefl key) refl
  erase-set key values ((k, old) ∷ rest) = elim (Bool-cases (order.lt key k)) [
    | inl e ↦ rw e (rw (order.lt_irrefl key) refl)
    | inr e ↦ elim (Bool-cases (order.lt k key)) [
      | inl f ↦ rw (e, f) (rw (e, f) (ap (λ es. (k, old) ∷ es) (erase-set key values rest)))
      | inr f ↦ rw (e, f) (rw (order.lt_irrefl key) refl)
    ]
  ]

  put_back-IsFull :
      (key : K) (retained : List V) (es : Entries K V)
      → IsFull es
      → IsFull (put_back order key retained es)
  put_back-IsFull key [] es full =
      subst IsFull (sym (erase-set key [] es)) (erase-IsFull key es full)
  put_back-IsFull key (v ∷ rest) es full = set-IsFull key (v ∷ rest) es refl full

  put_back-IsSorted :
      (key : K) (retained : List V) (es : Entries K V)
      → IsSorted order es
      → IsSorted order (put_back order key retained es)
  put_back-IsSorted key [] es s =
      erase-IsSorted order key (set order key [] es) (set-IsSorted order key [] es s)
  put_back-IsSorted key (v ∷ rest) es s = set-IsSorted order key (v ∷ rest) es s

  total-put_back :
      (key : K) (retained : List V) (es : Entries K V)
      → total (put_back order key retained es) + length (or_default (get order key es))
        ≡ total es + length retained
  total-put_back key [] es =
      ap (λ kept. total kept + length (or_default (get order key es))) (erase-set key [] es)
      ∙ total-erase order key es
      ∙ omega arith
  total-put_back key (v ∷ rest) es = total-set order key (v ∷ rest) es

  get-full :
      (key : K) (es : Entries K V) (values : List V)
      → IsFull es
      → get order key es ≡ some values
      → is_full values ≡ true
  unfolding get
  get-full key [] values full at = absurd (none-ne-some values at)
  get-full key ((k, old) ∷ rest) values (first, full) at = elim (Bool-cases (order.lt key k)) [
    | inl e ↦ absurd (none-ne-some values (rw e at at))
    | inr e ↦ elim (Bool-cases (order.lt k key)) [
      | inl f ↦ get-full key rest values full (rw (e, f) at at)
      | inr f ↦ rw (← some-injective _ _ (rw (e, f) at at)) first
    ]
  ]

  with_mut_in-IsValid :
      (found : Option (List V)) (key : K) (change : List V → V → V) (m : MultiMap K V)
      → get order key m.entries ≡ found
      → IsValid order m
      → IsValid order (with_mut_in order found key (remember change) [] m).0
  unfolding with_mut_in
  with_mut_in-IsValid none key change m at h = h
  with_mut_in-IsValid (some values) key change m at h = record {
    sorted = set-IsSorted order key _ m.entries h.sorted;
    full =
        set-IsFull key _ m.entries
          (visit_each_mut-full change [] values (get-full key m.entries values h.full at)) h.full;
    len_eq =
        let changed = (visit_each_mut (remember change) [] values).1 in
        let size = total-set order key changed m.entries in
        let same = length-visit_each_mut change [] values in
        let old : length (or_default (get order key m.entries)) ≡ length values =
          ap (λ found. length (or_default found)) at in
        let len = h.len_eq in omega arith;
  }

  -- An operation on a multimap keeps its buckets in order and none of them empty, and its length right.
  apply-IsValid :
      (o : Operation K V) (m : MultiMap K V) → IsValid order m → IsValid order (apply order o m)
  unfolding insert remove_all remove retain remove_from total with_mut
  apply-IsValid (inserting key v) m h = record {
    sorted = set-IsSorted order key _ m.entries h.sorted;
    full = set-IsFull key _ m.entries (snoc_full _ v) h.full;
    len_eq =
        let old = or_default (get order key m.entries) in
        let size = total-set order key (old ++ (v ∷ [])) m.entries in
        let grown = length_snoc old v in let len = h.len_eq in omega arith;
  }
  apply-IsValid (removing_all key) m h = record {
    sorted = erase-IsSorted order key m.entries h.sorted;
    full = erase-IsFull key m.entries h.full;
    len_eq = let size = total-erase order key m.entries in let len = h.len_eq in omega arith;
  }
  apply-IsValid (removing same key old) m h = remove_from-IsValid (get order key m.entries) refl
    where
      remove_from-IsValid :
          (found : Option (List V))
          → get order key m.entries ≡ found
          → IsValid order (remove_from order found same key old m).0
      remove_from-IsValid none at = h
      remove_from-IsValid (some values) at = record {
        sorted = put_back-IsSorted key (remove_first same old values).0 m.entries h.sorted;
        full = put_back-IsFull key (remove_first same old values).0 m.entries h.full;
        len_eq =
            removed_len (remove_first same old values).1 m.len (length values)
              (length (remove_first same old values).0) _ (length-remove_first same old values)
              (subst
                (λ (found : Option (List V)).
                  total (put_back order key (remove_first same old values).0 m.entries)
                    + length (or_default found)
                  ≡ m.len + length (remove_first same old values).0)
                at (rw (h.len_eq) (total-put_back key (remove_first same old values).0 m.entries)));
      }
  apply-IsValid (retaining p) m h = record {
    sorted = retain-IsSorted order p m.entries h.sorted;
    full = retain-IsFull p m.entries;
    len_eq = retained_len-total p m.entries;
  }
  apply-IsValid (changing key change) m h =
      with_mut_in-IsValid (get order key m.entries) key change m refl h
  apply-IsValid clearing m h = record { sorted = tt; full = tt; len_eq = refl }

  new-IsValid : IsValid order (new {K = K} {V = V})
  unfolding total
  new-IsValid = record { sorted = tt; full = tt; len_eq = refl }

  run_from-IsValid :
      (operations : List (Operation K V)) (m : MultiMap K V)
      → IsValid order m
      → IsValid order (run order operations m)
  run_from-IsValid [] m h = h
  run_from-IsValid (o ∷ rest) m h = run_from-IsValid rest (apply order o m) (apply-IsValid o m h)

  -- After any sequence of operations on a new multimap its keys stand once each in ascending order,
  -- no bucket is empty, and `len` is the number of values.
  pub run-IsValid : (operations : List (Operation K V)) → IsValid order (run order operations new)
  run-IsValid operations = run_from-IsValid operations new new-IsValid

  run_from-promised :
      (operations : List (Operation K V)) (m : MultiMap K V) (k : K)
      → IsValid order m
      → values_at order (run order operations m) k
        ≡ run_promised order operations (values_at order m) k
  run_from-promised [] m k h = refl
  run_from-promised (o ∷ rest) m k h =
      run_from-promised rest (apply order o m) k (apply-IsValid o m h)
      ∙ ap (λ view. run_promised order rest view k)
          (fun_ext (λ a. apply-promised order o m a h.sorted))

  -- After any sequence of operations on a new multimap, the values of every key are those that the
  -- operations promise, one after the other, from no value at all: an insertion appends to its key's,
  -- a removal takes the first match or all, a retention keeps what is accepted, and a mutable visit
  -- changes the values of its key one after the other.
  pub run-promised :
      (operations : List (Operation K V)) (k : K)
      → values_at order (run order operations new) k ≡ run_promised order operations (λ a. []) k
  unfolding get
  run-promised operations k = run_from-promised operations new k new-IsValid
