-- ===== src/Compiler/Ownership/Accounting/Moves.antt =====
-- The single movements of a loan keep the books: it is lent, it comes back, a declared reference
-- takes it over, and a reference that ends hands it back.
use stainless.Base.{
  ℕ, suc, ◌+◌, ◌<◌, ◌≤◌, if◌then◌else◌, ◌≡◌, ◌≢◌, inl, inr, refl, ap, sym, ◌∙◌, arith, Bool, true,
  false, Option, none, some, List, [], ◌∷◌, ◌++◌, length, get_elem?, modify, All, count,
  count-append, count-modify, length-modify, length-append, get_elem?-lt, get_elem?-append_left,
  get_elem?-append_self, Option-cases, is_some,
}
use stainless.Compiler.Ownership.State.{Loan, Binding, returned, lent, deactivated}
use stainless.Compiler.Ownership.Analyzer.{conflicts, borrow_usage}
use stainless.Compiler.Ownership.Accounting.{
  weight, weight_of_option, active_weight, outstanding, IsAccounted, IsBalanced,
}
use stainless.Compiler.Ownership.Accounting.Single.{
  modify_cases, outstanding-modify, owner_lt-modify, weight_self, weight_ne, returned-IsAccounted,
  lent-IsAccounted,
}
use mathlib.Core.Option.{some-injective}
use native.Mathlib.Decide.{ℕ_discrete}
use native.Mathlib.Nat.{add-zero}

outstanding-cons :
    (m : Bool) (o : ℕ) (bs : List Binding) (loan : Loan) (held : List Loan)
    → outstanding m o bs (loan ∷ held) ≡ outstanding m o bs held + weight m o loan
outstanding-cons m o bs loan held = omega arith

-- The books of a held loan, at its owner and elsewhere.
with_loan :
    (bs : List Binding) (held : List Loan) (loan : Loan) (o : ℕ) (b : Binding)
    → IsAccounted (outstanding false o bs (loan ∷ held)) (outstanding true o bs (loan ∷ held)) b
      ≡ IsAccounted
          (outstanding false o bs held + weight false o loan)
          (outstanding true o bs held + weight true o loan)
          b
with_loan bs held loan o b =
    rw (outstanding-cons false o bs loan held, outstanding-cons true o bs loan held)

abbrev OwnersBelow : ℕ → List Loan → Type 0
OwnersBelow n held = All (λ loan. loan.owner < n) held

OwnersBelow-le : (n n' : ℕ) (held : List Loan) → n ≤ n' → OwnersBelow n held → OwnersBelow n' held
OwnersBelow-le n n' [] h v = tt
OwnersBelow-le n n' (loan ∷ held) h v = (omega arith, OwnersBelow-le n n' held h v.1)

OwnersBelow-modify :
    (bs : List Binding) (i : ℕ) (f : Binding → Binding) (held : List Loan)
    → OwnersBelow (length bs) held
    → OwnersBelow (length (modify bs i f)) held
OwnersBelow-modify bs i f held h = OwnersBelow-le _ _ held (omega (arith, length-modify bs i f)) h

-- A loan that is held and ends gives its owner the counters that it had before.
pub returned-IsBalanced :
    (bs : List Binding) (held : List Loan) (loan : Loan) (b : Binding)
    → get_elem? bs loan.owner ≡ some b
    → IsBalanced bs (loan ∷ held)
    → IsBalanced (modify bs loan.owner (returned loan)) held
returned-IsBalanced bs held loan b at v = record {
  accounted = λ o c at_o.
      let out_shared =
        outstanding-modify false o bs held loan.owner (returned loan) at (ground arith) in
      let out_mutable =
        outstanding-modify true o bs held loan.owner (returned loan) at (ground arith) in
      rw (out_shared, out_mutable)
        (elim (modify_cases bs loan.owner o (returned loan) c b at at_o) [
          | inl (p, q) ↦
              let old =
                rw
                  (
                    with_loan bs held loan loan.owner b,
                    weight_self false loan,
                    weight_self true loan,
                  )
                  at (v.accounted loan.owner b at) in
              rw (← p, q) (returned-IsAccounted loan _ _ b old)
          | inr (n, at_o') ↦
              let old =
                rw (with_loan bs held loan o c, weight_ne false o loan n, weight_ne true o loan n)
                  at (v.accounted o c at_o') in
              simp add-zero at old
        ]);
  owner_lt = owner_lt-modify bs held loan.owner (returned loan) b at (ground arith) v.owner_lt;
  held_lt = rw (length-modify bs loan.owner (returned loan)) (v.held_lt.1);
}

-- A loan that no use conflicts with may be taken, and is then held.
pub lent-IsBalanced :
    (bs : List Binding) (held : List Loan) (loan : Loan) (b : Binding)
    → get_elem? bs loan.owner ≡ some b
    → conflicts (borrow_usage loan.mutable) b ≡ false
    → IsBalanced bs held
    → IsBalanced (modify bs loan.owner (lent loan.mutable)) (loan ∷ held)
lent-IsBalanced bs held loan b at free v = record {
  accounted = λ o c at_o.
      let out_shared =
        outstanding-modify false o bs held loan.owner (lent loan.mutable) at (ground arith) in
      let out_mutable =
        outstanding-modify true o bs held loan.owner (lent loan.mutable) at (ground arith) in
      rw
        (
          with_loan (modify bs loan.owner (lent loan.mutable)) held loan o c,
          out_shared,
          out_mutable,
        )
        (elim (modify_cases bs loan.owner o (lent loan.mutable) c b at at_o) [
          | inl (p, q) ↦
              rw (← p, q, weight_self false loan, weight_self true loan)
                (lent-IsAccounted loan.mutable _ _ b free (v.accounted loan.owner b at))
          | inr (n, at_o') ↦
              rw (weight_ne false o loan n, weight_ne true o loan n)
                (simp add-zero (v.accounted o c at_o'))
        ]);
  owner_lt = owner_lt-modify bs held loan.owner (lent loan.mutable) b at (ground arith) v.owner_lt;
  held_lt =
      OwnersBelow-modify bs loan.owner (lent loan.mutable) (loan ∷ held)
        (get_elem?-lt bs loan.owner at, v.held_lt);
}

-- Lists of held loans that count the same have the same books.
pub held-IsBalanced :
    (bs : List Binding) (held held' : List Loan)
    → ((m : Bool) (o : ℕ) → count (weight m o) held ≡ count (weight m o) held')
    → All (λ loan. loan.owner < length bs) held'
    → IsBalanced bs held
    → IsBalanced bs held'
held-IsBalanced bs held held' same bound v = record {
  accounted = λ o b at. rw (← same false o, ← same true o) (v.accounted o b at);
  owner_lt = v.owner_lt;
  held_lt = bound;
}

-- Nothing is out from an id that no binding has yet.
weights_below :
    (m : Bool) (o : ℕ) (held : List Loan)
    → All (λ loan. loan.owner < o) held
    → count (weight m o) held ≡ 0
weights_below m o [] h = refl
weights_below m o (loan ∷ held) h =
    omega (arith, weight_ne m o loan (λ e. omega arith), weights_below m o held h.1)

active_weights_below :
    (m : Bool) (o : ℕ) (bs : List Binding)
    → ((i : ℕ) (b : Binding) (loan : Loan)
        → get_elem? bs i ≡ some b
        → b.reference_loan ≡ some loan
        → loan.owner < o)
    → count (active_weight m o) bs ≡ 0
active_weights_below m o [] h = refl
active_weights_below m o (b ∷ bs) h =
    omega (arith, first, active_weights_below m o bs (λ i. h (suc i)))
  where
    first : active_weight m o b ≡ 0
    first = elim (Option-cases (b.reference_loan)) [
      | inl e ↦ rw e (ground arith)
      | inr (loan, e) ↦
          let below = h 0 b loan refl e in
          rw (e, weight_ne m o loan (λ p. omega arith)) (ground arith)
    ]

abbrev pub to_list : Option Loan → List Loan
to_list none = []
to_list (some loan) = loan ∷ []

by_loan :
    (m : Bool) (o : ℕ) (loan : Option Loan)
    → (if is_some loan then weight_of_option m o loan else 0) ≡ count (weight m o) (to_list loan)
by_loan m o none = refl
by_loan m o (some loan) = omega arith

rest_below :
    (n : ℕ) (held : List Loan) (loan : Option Loan)
    → OwnersBelow n (to_list loan ++ held)
    → OwnersBelow n held
rest_below n held none h = h
rest_below n held (some loan) h = h.1

-- A new binding joins the books, and takes over the loan that it is declared with.
pub declared-IsBalanced :
    (bs : List Binding) (held : List Loan) (b : Binding) (loan : Option Loan)
    → b.reference_loan ≡ loan
    → b.reference_loan_active ≡ is_some loan
    → b.shared_borrows ≡ 0
    → b.mutably_borrowed ≡ false
    → IsBalanced bs (to_list loan ++ held)
    → IsBalanced (bs ++ b ∷ []) held
declared-IsBalanced bs held b loan e active s m v = record {
  accounted = λ o c at_o.
      rw (taken false o, taken true o)
        (elim (ℕ_discrete o (length bs)) [
          | yes p ↦
              let same : c ≡ b =
                some-injective _ _
                  (sym at_o ∙ ap (get_elem? (bs ++ b ∷ [])) p ∙ get_elem?-append_self bs b) in
              rw (same, none_out o p false, none_out o p true)
                (record { shared = s; mutable = rw m; exclusive = λ _. s })
          | no n ↦
              v.accounted o c (sym (get_elem?-append_left bs (b ∷ []) o (below o c n at_o)) ∙ at_o)
        ]);
  owner_lt = λ i c l at_i has. elim (ℕ_discrete i (length bs)) [
    | yes p ↦
        let same : c ≡ b =
          some-injective _ _
            (sym at_i ∙ ap (get_elem? (bs ++ b ∷ [])) p ∙ get_elem?-append_self bs b) in
        rw p (own l (sym e ∙ ap (λ (x : Binding). x.reference_loan) (sym same) ∙ has))
    | no n ↦
        v.owner_lt i c l (sym (get_elem?-append_left bs (b ∷ []) i (below i c n at_i)) ∙ at_i) has
  ];
  held_lt =
      OwnersBelow-le _ _ held (omega (arith, length-append bs (b ∷ [])))
        (rest_below _ held loan v.held_lt);
}
  where
    taken :
        (k : Bool) (o : ℕ)
        → outstanding k o (bs ++ b ∷ []) held ≡ outstanding k o bs (to_list loan ++ held)
    taken k o =
        let own_weight : active_weight k o b ≡ count (weight k o) (to_list loan) =
          rw (active, e) (by_loan k o loan) in
        omega (
          arith,
          count-append (active_weight k o) bs (b ∷ []),
          count-append (weight k o) (to_list loan) held,
        )

    none_out : (o : ℕ) → o ≡ length bs → (k : Bool) → outstanding k o bs (to_list loan ++ held) ≡ 0
    none_out o p k = rw p (
        omega (
          arith,
          active_weights_below k (length bs) bs
              (λ i c l at_i has. omega (arith, v.owner_lt i c l at_i has, get_elem?-lt bs i at_i)),
          weights_below k (length bs) (to_list loan ++ held) v.held_lt,
        ))

    below :
        (i : ℕ) (c : Binding) → i ≢ length bs → get_elem? (bs ++ b ∷ []) i ≡ some c → i < length bs
    below i c n at_i = omega (arith, get_elem?-lt (bs ++ b ∷ []) i at_i, length-append bs (b ∷ []))

    own : (l : Loan) → loan ≡ some l → l.owner < length bs
    own l q = (rw q at (v.held_lt)).0

-- A reference that ends hands its loan back, which is then held.
pub deactivated-IsBalanced :
    (bs : List Binding) (held : List Loan) (i : ℕ) (b : Binding) (loan : Loan)
    → get_elem? bs i ≡ some b
    → b.reference_loan ≡ some loan
    → b.reference_loan_active ≡ true
    → IsBalanced bs held
    → IsBalanced (modify bs i deactivated) (loan ∷ held)
deactivated-IsBalanced bs held i b loan at e active v = record {
  accounted = λ o c at_o.
      rw (handed false o, handed true o)
        (elim (modify_cases bs i o deactivated c b at at_o) [
          | inl (p, q) ↦
              let old = v.accounted i b at in
              rw (← p, q)
                (record { shared = old.shared; mutable = old.mutable; exclusive = old.exclusive })
          | inr (n, at_o') ↦ v.accounted o c at_o'
        ]);
  owner_lt = owner_lt-modify bs held i deactivated b at refl v.owner_lt;
  held_lt =
      OwnersBelow-modify bs i deactivated (loan ∷ held)
        (omega (arith, v.owner_lt i b loan at e, get_elem?-lt bs i at), v.held_lt);
}
  where
    handed :
        (m : Bool) (o : ℕ)
        → outstanding m o (modify bs i deactivated) (loan ∷ held) ≡ outstanding m o bs held
    handed m o =
        let before : active_weight m o b ≡ weight m o loan = rw (active, e) in
        omega (arith, count-modify (active_weight m o) bs i deactivated at)
