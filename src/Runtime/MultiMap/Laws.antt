-- ===== src/Runtime/MultiMap/Laws.antt =====
-- A multimap is a list of values for each key: every operation does to those lists what it promises,
-- keeps the buckets in order and none of them empty, and `len` counts the values.
use stainless.Base.{
  ◌≡◌, ◌⊎◌, refl, sym, ap, ◌∙◌, if◌then◌else◌, Bool, true, false, not, ◌&&◌, Option, none, some,
  List, [], ◌∷◌, ◌++◌, All, Bool-cases, inl, inr,
}
use stainless.Runtime.MultiMap.{
  Ordered, keep, Entries, MultiMap, clear, get, set, or_default, insert, remove_all, remove_first,
  put_back, remove_from, remove, keep_bucket, retain_entries, total, retain, visit_each_mut,
  with_mut, with_mut_in,
}
use stainless.Runtime.MultiMap.Buckets.{
  IsAbove, IsSorted, get_above, IsAbove-trans, get-set_same, get-set_other, get-erase_same,
  get-erase_other, set-IsSorted,
}
use mathlib.Core.Path.{subst}

-- The first match goes.
abbrev pub erase_first : {V : Type 0} → (V → V → Bool) → V → List V → List V
erase_first same old [] = []
erase_first same old (v ∷ rest) =
    let erased = erase_first same old rest in if same v old then rest else v ∷ erased

abbrev pub is_full : {V : Type 0} → List V → Bool
is_full [] = false
is_full (v ∷ rest) = true

abbrev pub same_key : {K : Type 0} → Ordered K → K → K → Bool
same_key order a b = not (order.lt a b) && not (order.lt b a)

-- Each value changed by a function of the values before it, the latest first, and of itself: what
-- any callback of `with_mut` comes to, as it keeps nothing but what it made of these.
abbrev pub change_each : {V : Type 0} → (List V → V → V) → List V → List V → List V
change_each change seen [] = []
change_each change seen (v ∷ rest) = change seen v ∷ change_each change (v ∷ seen) rest

abbrev pub remember : {V : Type 0} → (List V → V → V) → List V → V → List V × V
remember change seen v = (v ∷ seen, change seen v)

visit_each_mut_lem :
    {V : Type 0} (change : List V → V → V) (seen values : List V)
    → (visit_each_mut (remember change) seen values).1 ≡ change_each change seen values
unfolding visit_each_mut
visit_each_mut_lem change seen [] = refl
visit_each_mut_lem change seen (v ∷ rest) =
    ap (λ vs. change seen v ∷ vs) (visit_each_mut_lem change (v ∷ seen) rest)

pub data Operation (K V : Type 0) : Type 0 where
  inserting : K → V → Operation K V
  removing_all : K → Operation K V
  removing : (V → V → Bool) → K → V → Operation K V
  retaining : (K → V → Bool) → Operation K V
  changing : K → (List V → V → V) → Operation K V
  clearing : Operation K V

module _ {K V : Type 0} (order : Ordered K) where
  abbrev pub apply : Operation K V → MultiMap K V → MultiMap K V
  apply (inserting key v) m = insert order key v m
  apply (removing_all key) m = (remove_all order key m).0
  apply (removing same key v) m = (remove order same key v m).0
  apply (retaining p) m = retain p m
  apply (changing key change) m = (with_mut order key (remember change) [] m).0
  apply clearing m = clear m

  abbrev pub run : List (Operation K V) → MultiMap K V → MultiMap K V
  run [] m = m
  run (o ∷ rest) m = run rest (apply o m)

  abbrev pub values_at : MultiMap K V → K → List V
  values_at m key = or_default (get order key m.entries)

  -- What the operations promise of the values of each key.
  abbrev pub promised : Operation K V → (K → List V) → K → List V
  promised (inserting key v) view k = if same_key order key k then view key ++ (v ∷ []) else view k
  promised (removing_all key) view k = if same_key order key k then [] else view k
  promised (removing same key v) view k =
      if same_key order key k then erase_first same v (view key) else view k
  promised (retaining p) view k = keep (p k) (view k)
  promised (changing key change) view k =
      if same_key order key k then change_each change [] (view key) else view k
  promised clearing view k = []

  abbrev pub run_promised : List (Operation K V) → (K → List V) → K → List V
  run_promised [] view = view
  run_promised (o ∷ rest) view = run_promised rest (promised o view)

  pub record IsValid (m : MultiMap K V) : Type 0 where
    pub sorted : IsSorted order m.entries
    pub full : All (λ (e : K × List V). is_full e.1 ≡ true) m.entries
    pub len_eq : m.len ≡ total m.entries

  -- A change of one bucket.
  at_key :
      (key k : K) (es es' : Entries K V) (x : List V)
      → or_default (get order key es') ≡ x
      → ((other : K)
          → (order.lt key other ≡ true) ⊎ (order.lt other key ≡ true)
          → get order other es' ≡ get order other es)
      → or_default (get order k es')
        ≡ (if same_key order key k then x else or_default (get order k es))
  at_key key k es es' x here others = elim (Bool-cases (order.lt key k)) [
    | inl e ↦ rw e (ap or_default (others k (inl e)))
    | inr e ↦ elim (Bool-cases (order.lt k key)) [
      | inl f ↦ rw (e, f) (ap or_default (others k (inr f)))
      | inr f ↦
          rw (e, f) (subst (λ a. or_default (get order a es') ≡ x) (order.lt_total key k e f) here)
    ]
  ]

  remove_first_lem :
      (same : V → V → Bool) (old : V) (values : List V)
      → (remove_first same old values).0 ≡ erase_first same old values
  unfolding remove_first
  remove_first_lem same old [] = refl
  remove_first_lem same old (v ∷ rest) = elim (Bool-cases (same v old)) [
    | inl e ↦ rw e refl
    | inr e ↦ rw e (ap (λ vs. v ∷ vs) (remove_first_lem same old rest))
  ]

  get-put_back :
      (key : K) (retained : List V) (es : Entries K V)
      → IsSorted order es
      → or_default (get order key (put_back order key retained es)) ≡ retained
  get-put_back key [] es v =
      ap or_default
        (get-erase_same order key (set order key [] es) (set-IsSorted order key [] es v))
  get-put_back key (a ∷ rest) es v = ap or_default (get-set_same order key (a ∷ rest) es)

  get-put_back_other :
      (key other : K) (retained : List V) (es : Entries K V)
      → (order.lt key other ≡ true) ⊎ (order.lt other key ≡ true)
      → IsSorted order es
      → get order other (put_back order key retained es) ≡ get order other es
  get-put_back_other key other [] es apart v =
      get-erase_other order key other (set order key [] es) apart (set-IsSorted order key [] es v)
      ∙ get-set_other order key other [] es apart v
  get-put_back_other key other (a ∷ rest) es apart v =
      get-set_other order key other (a ∷ rest) es apart v

  keep_bucket-IsAbove :
      (a k : K) (kept : List V) (rest : Entries K V)
      → order.lt a k ≡ true
      → IsAbove order a rest
      → IsAbove order a (keep_bucket k kept rest)
  keep_bucket-IsAbove a k [] rest low above = above
  keep_bucket-IsAbove a k (v ∷ kept) rest low above = (low, above)

  retain-IsAbove :
      (p : K → V → Bool) (a : K) (es : Entries K V)
      → IsAbove order a es
      → IsAbove order a (retain_entries p es)
  unfolding retain_entries
  retain-IsAbove p a [] above = tt
  retain-IsAbove p a ((k, values) ∷ rest) (low, above) =
      keep_bucket-IsAbove a k (keep (p k) values) (retain_entries p rest) low
        (retain-IsAbove p a rest above)

  keep_bucket-IsSorted :
      (k : K) (kept : List V) (rest : Entries K V)
      → IsAbove order k rest
      → IsSorted order rest
      → IsSorted order (keep_bucket k kept rest)
  keep_bucket-IsSorted k [] rest above v = v
  keep_bucket-IsSorted k (a ∷ kept) rest above v = (above, v)

  pub retain-IsSorted :
      (p : K → V → Bool) (es : Entries K V)
      → IsSorted order es
      → IsSorted order (retain_entries p es)
  unfolding retain_entries
  retain-IsSorted p [] v = tt
  retain-IsSorted p ((k, values) ∷ rest) (above, v) =
      keep_bucket-IsSorted k (keep (p k) values) (retain_entries p rest)
        (retain-IsAbove p k rest above) (retain-IsSorted p rest v)

  get-keep_bucket :
      (a k : K) (kept : List V) (rest : Entries K V)
      → IsAbove order k rest
      → or_default (get order a (keep_bucket k kept rest)) ≡ (
          if order.lt a k
          then []
          else (if order.lt k a then or_default (get order a rest) else kept))
  unfolding get
  get-keep_bucket a k [] rest above = elim (Bool-cases (order.lt a k)) [
    | inl e ↦ rw e (ap or_default (get_above order a rest (IsAbove-trans order a k rest e above)))
    | inr e ↦ elim (Bool-cases (order.lt k a)) [
      | inl f ↦ rw (e, f) refl
      | inr f ↦
          rw (e, f)
            (ap or_default (
              get_above order a rest
                (subst (λ b. IsAbove order b rest) (sym (order.lt_total a k e f)) above)))
    ]
  ]
  get-keep_bucket a k (v ∷ kept) rest above = elim (Bool-cases (order.lt a k)) [
    | inl e ↦ rw e refl
    | inr e ↦ elim (Bool-cases (order.lt k a)) [ inl f ↦ rw (e, f) refl | inr f ↦ rw (e, f) refl ]
  ]

  get-retain :
      (p : K → V → Bool) (a : K) (es : Entries K V)
      → IsSorted order es
      → or_default (get order a (retain_entries p es)) ≡ keep (p a) (or_default (get order a es))
  unfolding get retain_entries
  get-retain p a [] v = refl
  get-retain p a ((k, values) ∷ rest) (above, v) =
      get-keep_bucket a k (keep (p k) values) (retain_entries p rest)
        (retain-IsAbove p k rest above)
      ∙ elim (Bool-cases (order.lt a k)) [
        | inl e ↦ rw e refl
        | inr e ↦ elim (Bool-cases (order.lt k a)) [
          | inl f ↦ rw (e, f) (get-retain p a rest v)
          | inr f ↦ rw (e, f) (ap (λ b. keep (p b) values) (sym (order.lt_total a k e f)))
        ]
      ]

  with_mut_in-promised :
      (found : Option (List V)) (key : K) (change : List V → V → V) (m : MultiMap K V) (k : K)
      → IsSorted order m.entries
      → get order key m.entries ≡ found
      → values_at (with_mut_in order found key (remember change) [] m).0 k
        ≡ (if same_key order key k then change_each change [] (values_at m key) else values_at m k)
  unfolding with_mut_in
  with_mut_in-promised none key change m k s at =
      at_key key k m.entries m.entries _ (rw at refl) (λ other apart. refl)
  with_mut_in-promised (some values) key change m k s at =
      at_key key k m.entries _ _
        (ap or_default (get-set_same order key _ m.entries)
          ∙ visit_each_mut_lem change [] values
          ∙ rw at refl)
        (λ other apart. get-set_other order key other _ m.entries apart s)

  with_mut-promised :
      (key : K) (change : List V → V → V) (m : MultiMap K V) (k : K)
      → IsSorted order m.entries
      → values_at (with_mut order key (remember change) [] m).0 k
        ≡ (if same_key order key k then change_each change [] (values_at m key) else values_at m k)
  unfolding with_mut
  with_mut-promised key change m k s =
      with_mut_in-promised (get order key m.entries) key change m k s refl

  -- An operation on a valid multimap does to the values of every key what it promises.
  pub apply-promised :
      (o : Operation K V) (m : MultiMap K V) (k : K)
      → IsSorted order m.entries
      → values_at (apply o m) k ≡ promised o (values_at m) k
  unfolding get insert remove_all remove remove_from retain
  apply-promised (inserting key v) m k s =
      at_key key k m.entries _ _ (ap or_default (get-set_same order key _ m.entries))
        (λ other apart. get-set_other order key other _ m.entries apart s)
  apply-promised (removing_all key) m k s =
      at_key key k m.entries _ _ (ap or_default (get-erase_same order key m.entries s))
        (λ other apart. get-erase_other order key other m.entries apart s)
  apply-promised (removing same key old) m k s = remove_from-promised (get order key m.entries) refl
    where
      remove_from-promised :
          (found : Option (List V))
          → get order key m.entries ≡ found
          → values_at (remove_from order found same key old m).0 k ≡ (
              if same_key order key k
              then erase_first same old (values_at m key)
              else values_at m k)
      remove_from-promised none at =
          at_key key k m.entries m.entries _ (rw at refl) (λ other apart. refl)
      remove_from-promised (some values) at =
          at_key key k m.entries _ _
            (get-put_back key (remove_first same old values).0 m.entries s
              ∙ remove_first_lem same old values
              ∙ rw at refl)
            (λ other apart.
              get-put_back_other key other (remove_first same old values).0 m.entries apart s)
  apply-promised (retaining p) m k s = get-retain p k m.entries s
  apply-promised (changing key change) m k s = with_mut-promised key change m k s
  apply-promised clearing m k s = refl
