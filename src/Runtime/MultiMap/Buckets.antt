-- ===== src/Runtime/MultiMap/Buckets.antt =====
-- The laws of a list of buckets in the order of their keys.
use stainless.Base.{
  ◌⊎◌, ◌+◌, ◌≡◌, refl, sym, ◌∙◌, arith, true, false, none, some, List, [], ◌∷◌, length, All,
  Bool-cases, inl, inr,
}
use mathlib.Core.Path.{subst}
use mathlib.Core.Bool.{true≢false}
use stainless.Runtime.MultiMap.{Ordered, Entries, get, set, erase, or_default, total}

pub after :
    {K : Type 0} (order : Ordered K) (other key : K)
    → (order.lt key other ≡ true) ⊎ (order.lt other key ≡ true)
    → order.lt other key ≡ false
    → order.lt key other ≡ true
after order other key (inl low) e = low
after order other key (inr high) e = absurd (true≢false (sym high ∙ e))

module _ {K V : Type 0} (order : Ordered K) where
  abbrev pub IsAbove : K → Entries K V → Type 0
  IsAbove key es = All (λ (e : K × List V). order.lt key e.0 ≡ true) es

  -- Each key stands once, in ascending order.
  abbrev pub IsSorted : Entries K V → Type 0
  IsSorted [] = Unit {0}
  IsSorted (e ∷ rest) = IsAbove e.0 rest × IsSorted rest

  pub get_above : (key : K) (es : Entries K V) → IsAbove key es → get order key es ≡ none
  unfolding get
  get_above key [] above = refl
  get_above key ((k, values) ∷ rest) (low, above) = rw low refl

  pub IsAbove-trans :
      (a b : K) (es : Entries K V) → order.lt a b ≡ true → IsAbove b es → IsAbove a es
  IsAbove-trans a b [] low above = tt
  IsAbove-trans a b ((k, values) ∷ rest) low (first, above) =
      (order.lt_trans a b k low first, IsAbove-trans a b rest low above)

  pub get-set_same :
      (key : K) (new : List V) (es : Entries K V) → get order key (set order key new es) ≡ some new
  unfolding get set
  get-set_same key new [] = rw (order.lt_irrefl key) refl
  get-set_same key new ((k, values) ∷ rest) = elim (Bool-cases (order.lt key k)) [
    | inl low ↦ rw low (rw (order.lt_irrefl key) refl)
    | inr high ↦ elim (Bool-cases (order.lt k key)) [
      | inl above ↦ rw (high, above) (rw (high, above) (get-set_same key new rest))
      | inr level ↦ rw (high, level) (rw (order.lt_irrefl key) refl)
    ]
  ]

  pub get-set_other :
      (key other : K) (new : List V) (es : Entries K V)
      → (order.lt key other ≡ true) ⊎ (order.lt other key ≡ true)
      → IsSorted es
      → get order other (set order key new es) ≡ get order other es
  unfolding get set
  get-set_other key other new [] apart v = elim apart [
    | inl low ↦ elim (Bool-cases (order.lt other key)) [
      | inl e ↦ rw e refl
      | inr e ↦ rw (e, low) refl
    ]
    | inr high ↦ rw high refl
  ]
  get-set_other key other new ((k, values) ∷ rest) apart (above, v) =
      elim (Bool-cases (order.lt key k)) [
        | inl low ↦ elim (Bool-cases (order.lt other key)) [
          | inl e ↦ rw (low, e, order.lt_trans other key k e low) refl
          | inr e ↦ rw (low, e, after order other key apart e) refl
        ]
        | inr high ↦ elim (Bool-cases (order.lt k key)) [
          | inl beyond ↦ elim (Bool-cases (order.lt other k)) [
            | inl e ↦ rw (high, beyond, e) refl
            | inr e ↦ elim (Bool-cases (order.lt k other)) [
              | inl f ↦ rw (high, beyond, e, f) (get-set_other key other new rest apart v)
              | inr f ↦ rw (high, beyond, e, f) refl
            ]
          ]
          | inr level ↦
              let same = order.lt_total key k high level in
              elim (Bool-cases (order.lt other key)) [
                | inl e ↦
                    let e' = subst (λ a. order.lt other a ≡ true) same e in
                    rw (high, level, e, e') refl
                | inr e ↦
                    let e' = subst (λ a. order.lt other a ≡ false) same e in
                    let f = after order other key apart e in
                    let f' = subst (λ a. order.lt a other ≡ true) same f in
                    rw (high, level, e, e', f, f') refl
              ]
        ]
      ]

  pub get-erase_same :
      (key : K) (es : Entries K V) → IsSorted es → get order key (erase order key es) ≡ none
  unfolding get erase
  get-erase_same key [] v = refl
  get-erase_same key ((k, values) ∷ rest) (above, v) = elim (Bool-cases (order.lt key k)) [
    | inl low ↦ rw low (rw low refl)
    | inr high ↦ elim (Bool-cases (order.lt k key)) [
      | inl beyond ↦ rw (high, beyond) (rw (high, beyond) (get-erase_same key rest v))
      | inr level ↦
          rw (high, level)
            (get_above key rest
              (subst (λ a. IsAbove a rest) (sym (order.lt_total key k high level)) above))
    ]
  ]

  pub get-erase_other :
      (key other : K) (es : Entries K V)
      → (order.lt key other ≡ true) ⊎ (order.lt other key ≡ true)
      → IsSorted es
      → get order other (erase order key es) ≡ get order other es
  unfolding get erase
  get-erase_other key other [] apart v = refl
  get-erase_other key other ((k, values) ∷ rest) apart (above, v) =
      elim (Bool-cases (order.lt key k)) [
        | inl low ↦ rw low refl
        | inr high ↦ elim (Bool-cases (order.lt k key)) [
          | inl beyond ↦ elim (Bool-cases (order.lt other k)) [
            | inl e ↦ rw (high, beyond, e) refl
            | inr e ↦ elim (Bool-cases (order.lt k other)) [
              | inl f ↦ rw (high, beyond, e, f) (get-erase_other key other rest apart v)
              | inr f ↦ rw (high, beyond, e, f) refl
            ]
          ]
          | inr level ↦
              let same = order.lt_total key k high level in
              elim (Bool-cases (order.lt other k)) [
                | inl e ↦
                    rw (high, level, e) (get_above other rest (IsAbove-trans other k rest e above))
                | inr e ↦
                    let e' = subst (λ a. order.lt other a ≡ false) (sym same) e in
                    let f =
                      subst (λ a. order.lt a other ≡ true) same (after order other key apart e') in
                    rw (high, level, e, f) refl
              ]
        ]
      ]

  IsAbove-set :
      (a key : K) (new : List V) (es : Entries K V)
      → order.lt a key ≡ true
      → IsAbove a es
      → IsAbove a (set order key new es)
  unfolding set
  IsAbove-set a key new [] low above = (low, tt)
  IsAbove-set a key new ((k, values) ∷ rest) low (first, above) =
      elim (Bool-cases (order.lt key k)) [
        | inl e ↦ rw e (low, (first, above))
        | inr e ↦ elim (Bool-cases (order.lt k key)) [
          | inl f ↦ rw (e, f) (first, IsAbove-set a key new rest low above)
          | inr f ↦ rw (e, f) (low, above)
        ]
      ]

  pub set-IsSorted :
      (key : K) (new : List V) (es : Entries K V) → IsSorted es → IsSorted (set order key new es)
  unfolding set
  set-IsSorted key new [] v = (tt, tt)
  set-IsSorted key new ((k, values) ∷ rest) (above, v) = elim (Bool-cases (order.lt key k)) [
    | inl e ↦ rw e ((e, IsAbove-trans key k rest e above), (above, v))
    | inr e ↦ elim (Bool-cases (order.lt k key)) [
      | inl f ↦ rw (e, f) (IsAbove-set k key new rest f above, set-IsSorted key new rest v)
      | inr f ↦ rw (e, f) (subst (λ a. IsAbove a rest) (sym (order.lt_total key k e f)) above, v)
    ]
  ]

  IsAbove-erase : (a key : K) (es : Entries K V) → IsAbove a es → IsAbove a (erase order key es)
  unfolding erase
  IsAbove-erase a key [] above = tt
  IsAbove-erase a key ((k, values) ∷ rest) (first, above) = elim (Bool-cases (order.lt key k)) [
    | inl e ↦ rw e (first, above)
    | inr e ↦ elim (Bool-cases (order.lt k key)) [
      | inl f ↦ rw (e, f) (first, IsAbove-erase a key rest above)
      | inr f ↦ rw (e, f) above
    ]
  ]

  pub erase-IsSorted : (key : K) (es : Entries K V) → IsSorted es → IsSorted (erase order key es)
  unfolding erase
  erase-IsSorted key [] v = tt
  erase-IsSorted key ((k, values) ∷ rest) (above, v) = elim (Bool-cases (order.lt key k)) [
    | inl e ↦ rw e (above, v)
    | inr e ↦ elim (Bool-cases (order.lt k key)) [
      | inl f ↦ rw (e, f) (IsAbove-erase k key rest above, erase-IsSorted key rest v)
      | inr f ↦ rw (e, f) v
    ]
  ]

  pub total-set :
      (key : K) (new : List V) (es : Entries K V)
      → total (set order key new es) + length (or_default (get order key es))
        ≡ total es + length new
  unfolding set get total
  total-set key new [] = omega arith
  total-set key new ((k, values) ∷ rest) = elim (Bool-cases (order.lt key k)) [
    | inl e ↦ rw e (omega arith)
    | inr e ↦ elim (Bool-cases (order.lt k key)) [
      | inl f ↦ let step = total-set key new rest in rw (e, f) (omega arith)
      | inr f ↦ rw (e, f) (omega arith)
    ]
  ]

  pub total-erase :
      (key : K) (es : Entries K V)
      → total (erase order key es) + length (or_default (get order key es)) ≡ total es
  unfolding erase get total
  total-erase key [] = refl
  total-erase key ((k, values) ∷ rest) = elim (Bool-cases (order.lt key k)) [
    | inl e ↦ rw e (omega arith)
    | inr e ↦ elim (Bool-cases (order.lt k key)) [
      | inl f ↦ let step = total-erase key rest in rw (e, f) (omega arith)
      | inr f ↦ rw (e, f) (omega arith)
    ]
  ]
