-- ===== src/Compiler/Diagnostic/Order.antt =====
-- The sort of diagnostics by their places orders them and keeps, at each place, what was there.
use stainless.Base.{
  ◌∙◌, ◌==◌, ◌&&◌, ◌≡◌, refl, arith, Bool, true, false, List, [], ◌∷◌, Bool-cases, inl, inr, All,
  if◌then◌else◌,
}
use stainless.Compiler.Diagnostic.{Diagnostic, Span, span_leb, insert_by_span, sort_by_span}

span_leb_trans : (a b c : Span) → span_leb a b ≡ true → span_leb b c ≡ true → span_leb a c ≡ true
span_leb_trans a b c h k = ground arith

span_leb_total : (a b : Span) → span_leb a b ≡ false → span_leb b a ≡ true
span_leb_total a b h = ground arith

abbrev pub same_span : Span → Span → Bool
same_span a b = a.start == b.start && a.end == b.end

later_differs :
    (place a b : Span) → span_leb a b ≡ false → same_span place a ≡ true → same_span place b ≡ false
later_differs place a b h k = ground arith

module _ {M : Type 0} where
  -- No diagnostic stands before one that is earlier in the source.
  abbrev pub IsInOrder : List (Diagnostic M) → Type 0
  IsInOrder [] = Unit {0}
  IsInOrder (d ∷ ds) = All (λ e. span_leb d.span e.span ≡ true) ds × IsInOrder ds

  All-trans :
      (d e : Diagnostic M) (es : List (Diagnostic M))
      → span_leb d.span e.span ≡ true
      → All (λ f. span_leb e.span f.span ≡ true) es
      → All (λ f. span_leb d.span f.span ≡ true) es
  All-trans d e [] h all = tt
  All-trans d e (f ∷ es) h (first, rest) =
      (span_leb_trans d.span e.span f.span h first, All-trans d e es h rest)

  All-insert :
      (p d : Diagnostic M) (es : List (Diagnostic M))
      → span_leb p.span d.span ≡ true
      → All (λ f. span_leb p.span f.span ≡ true) es
      → All (λ f. span_leb p.span f.span ≡ true) (insert_by_span d es)
  unfolding insert_by_span
  All-insert p d [] h all = (h, tt)
  All-insert p d (e ∷ es) h (first, rest) = elim (Bool-cases (span_leb d.span e.span)) [
    | inl low ↦ rw low (h, (first, rest))
    | inr high ↦ rw high (first, All-insert p d es h rest)
  ]

  insert-IsInOrder :
      (d : Diagnostic M) (es : List (Diagnostic M)) → IsInOrder es → IsInOrder (insert_by_span d es)
  unfolding insert_by_span
  insert-IsInOrder d [] v = (tt, tt)
  insert-IsInOrder d (e ∷ es) (first, v) = elim (Bool-cases (span_leb d.span e.span)) [
    | inl low ↦ rw low ((low, All-trans d e es low first), (first, v))
    | inr high ↦
        let above = span_leb_total d.span e.span high in
        rw high (All-insert e d es above first, insert-IsInOrder d es v)
  ]

  pub sort-IsInOrder : (ds : List (Diagnostic M)) → IsInOrder (sort_by_span ds)
  unfolding sort_by_span
  sort-IsInOrder [] = tt
  sort-IsInOrder (d ∷ ds) = insert-IsInOrder d (sort_by_span ds) (sort-IsInOrder ds)

  -- The diagnostics at one place, in their order.
  abbrev pub at_span : Span → List (Diagnostic M) → List (Diagnostic M)
  at_span place [] = []
  at_span place (d ∷ ds) = if same_span place d.span then d ∷ at_span place ds else at_span place ds

  at_span-insert :
      (place : Span) (d : Diagnostic M) (es : List (Diagnostic M))
      → at_span place (insert_by_span d es) ≡ at_span place (d ∷ es)
  unfolding insert_by_span
  at_span-insert place d [] = refl
  at_span-insert place d (e ∷ es) = elim (Bool-cases (span_leb d.span e.span)) [
    | inl low ↦ rw low refl
    | inr high ↦ elim (Bool-cases (same_span place d.span)) [
      | inl here ↦
          rw (high, later_differs place d.span e.span high here, here)
            (at_span-insert place d es ∙ rw here refl)
      | inr there ↦
          let rest = at_span-insert place d es ∙ rw there refl in rw (high, there, rest) refl
    ]
  ]

  pub at_span-sort :
      (place : Span) (ds : List (Diagnostic M)) → at_span place (sort_by_span ds) ≡ at_span place ds
  unfolding sort_by_span
  at_span-sort place [] = refl
  at_span-sort place (d ∷ ds) =
      at_span-insert place d (sort_by_span ds) ∙ rw (at_span-sort place ds) refl
