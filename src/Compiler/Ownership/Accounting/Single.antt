-- ===== src/Compiler/Ownership/Accounting/Single.antt =====
-- What an update of one binding does to the books, and the counters of an owner when a loan is
-- lent or comes back.
use stainless.Base.{
  ℕ, ◌+◌, ◌<◌, if◌then◌else◌, ◌≡◌, ◌≢◌, ◌⊎◌, inl, inr, sym, ◌∙◌, arith, Bool, true, false, not,
  some, List, get_elem?, modify, count-modify, length-modify, get_elem?-modify_self,
  get_elem?-modify_ne, Bool-cases,
}
use stainless.Compiler.Ownership.State.{Loan, Binding, returned, lent}
use stainless.Compiler.Ownership.Analyzer.{conflicts, borrow_usage}
use stainless.Compiler.Ownership.Accounting.{
  weight, active_weight, outstanding, to_nat, IsAccounted, IsBalanced,
}
use native.Mathlib.Decide.{ℕ_discrete}

-- What stands at an id after an update.
pub modify_cases :
    (bs : List Binding) (i o : ℕ) (f : Binding → Binding) (c b : Binding)
    → get_elem? bs i ≡ some b
    → get_elem? (modify bs i f) o ≡ some c
    → ((i ≡ o) × (c ≡ f b)) ⊎ ((i ≢ o) × (get_elem? bs o ≡ some c))
modify_cases bs i o f c b e h = elim (ℕ_discrete i o) [
  | yes p ↦ let at_i = get_elem?-modify_self bs i f e in inl (p, cc)
  | no n ↦ inr (n, sym (get_elem?-modify_ne bs i o f n) ∙ h)
]

-- An update that leaves the loan of the binding alone leaves what is out alone.
pub outstanding-modify :
    (m : Bool) (o : ℕ) (bs : List Binding) (held : List Loan) (i : ℕ) (f : Binding → Binding)
    {b : Binding}
    → get_elem? bs i ≡ some b
    → active_weight m o (f b) ≡ active_weight m o b
    → outstanding m o (modify bs i f) held ≡ outstanding m o bs held
outstanding-modify m o bs held i f e w = omega (arith, count-modify (active_weight m o) bs i f e)

module _ (bs : List Binding) (held : List Loan) where
  -- The parts of the books that no counter enters, after an update that keeps the loan.
  module _ (i : ℕ) (f : Binding → Binding) (b : Binding) (at_i : get_elem? bs i ≡ some b)
      (same_loan : (f b).reference_loan ≡ b.reference_loan) where
    pub owner_lt-modify :
        ((j : ℕ) (c : Binding) (loan : Loan)
          → get_elem? bs j ≡ some c
          → c.reference_loan ≡ some loan
          → loan.owner < j)
        → (j : ℕ) (c : Binding) (loan : Loan) → get_elem? (modify bs i f) j ≡ some c
        → c.reference_loan ≡ some loan
        → loan.owner < j
    owner_lt-modify before j c loan at_j has = elim (modify_cases bs i j f c b at_i at_j) [
      | inl (p, q) ↦ before j b loan (cc) (cc)
      | inr (_, old) ↦ before j c loan old has
    ]

  -- An update that keeps the loan and the counters of a binding keeps the books.
  pub modify-IsBalanced :
      (i : ℕ) (f : Binding → Binding) (b : Binding)
      → get_elem? bs i ≡ some b
      → (f b).reference_loan ≡ b.reference_loan
      → ((m : Bool) (o : ℕ) → active_weight m o (f b) ≡ active_weight m o b)
      → (f b).shared_borrows ≡ b.shared_borrows
      → (f b).mutably_borrowed ≡ b.mutably_borrowed
      → IsBalanced bs held
      → IsBalanced (modify bs i f) held
  modify-IsBalanced i f b at_i loan weights shared mutable v = record {
    accounted = λ o c at_o.
        let out_shared = outstanding-modify false o bs held i f at_i (weights false o) in
        let out_mutable = outstanding-modify true o bs held i f at_i (weights true o) in
        rw (out_shared, out_mutable)
          (elim (modify_cases bs i o f c b at_i at_o) [
            | inl (p, q) ↦
                let old = v.accounted o b (cc) in
                rw q (record {
                  shared = shared ∙ old.shared;
                  mutable = rw mutable (old.mutable);
                  exclusive = rw (mutable, shared) (old.exclusive);
                })
            | inr (_, at_o') ↦ v.accounted o c at_o'
          ]);
    owner_lt = owner_lt-modify i f b at_i loan v.owner_lt;
    held_lt = rw (length-modify bs i f) (v.held_lt);
  }

-- What a loan counts for its owner, and for another binding.
pub weight_self :
    (m : Bool) (loan : Loan)
    → weight m loan.owner loan ≡ (if m then to_nat loan.mutable else to_nat (not loan.mutable))
weight_self true loan = ground arith
weight_self false loan = ground arith

pub weight_ne : (m : Bool) (o : ℕ) (loan : Loan) → loan.owner ≢ o → weight m o loan ≡ 0
weight_ne true o loan n = ground arith
weight_ne false o loan n = ground arith

-- The counters of an owner when a loan comes back, and when it is lent.
pub returned-IsAccounted :
    (loan : Loan) (s m : ℕ) (b : Binding)
    → IsAccounted (s + to_nat (not loan.mutable)) (m + to_nat loan.mutable) b
    → IsAccounted s m (returned loan b)
returned-IsAccounted loan s m b v = elim (Bool-cases loan.mutable) [
  | inl e ↦
      rw e (record { shared = ground arith; mutable = ground arith; exclusive = ground arith })
  | inr e ↦
      rw e (record { shared = ground arith; mutable = ground arith; exclusive = ground arith })
]

pub lent-IsAccounted :
    (mutable : Bool) (s m : ℕ) (b : Binding)
    → conflicts (borrow_usage mutable) b ≡ false
    → IsAccounted s m b
    → IsAccounted (s + to_nat (not mutable)) (m + to_nat mutable) (lent mutable b)
lent-IsAccounted true s m b free v = record {
  shared = ground arith;
  mutable = ground arith;
  exclusive = ground arith;
}
lent-IsAccounted false s m b free v = record {
  shared = ground arith;
  mutable = ground arith;
  exclusive = ground arith;
}
