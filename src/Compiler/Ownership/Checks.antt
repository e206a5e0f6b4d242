-- ===== src/Compiler/Ownership/Checks.antt =====
-- What the checks of the analyzer report and change, on every branch.
use stainless.Base.{
  ℕ, if◌then◌else◌, ◌≡◌, ◌⊎◌, inl, inr, ap, sym, ◌∙◌, String, Bool, true, false, not, Option, none,
  some, get_elem?, modify, Bool-cases, >>=-eq-some,
}
use stainless.Compiler.Diagnostic.{Span}
use stainless.Compiler.Ownership.State.{Loan, Binding, FlowState, lent}
use stainless.Compiler.Ownership.Analyzer.{
  Usage, Message, conflicting_borrow, Analyzer, push, was_emitted, set_bindings, conflicts, action,
  check_borrow_conflict, borrow_usage, take_loan,
}
use mathlib.Core.Option.{some-injective}

-- Reporting touches nothing but the reports.
pub push-state :
    (code : String) (message : Message) (span : Span) (a : Analyzer)
    → (push code message span a).state ≡ a.state
unfolding push
push-state code message span a = elim (Bool-cases (was_emitted code span a.emitted)) [
  | inl e ↦ rw e
  | inr e ↦ rw e
]

-- The answer of the conflict check, with the binding that it looked at.
pub check_borrow_conflict_cases :
    (id : ℕ) (usage : Usage) (span : Span) (a a' : Analyzer) (free : Bool)
    → check_borrow_conflict id usage span a ≡ some (a', free)
    → (b : Binding) × (get_elem? a.state.bindings id ≡ some b)
      × (conflicts usage b ≡ not free)
      × (a'.state ≡ a.state)
unfolding check_borrow_conflict
check_borrow_conflict_cases id usage span a a' free h =
    let (b, at, h₁) = >>=-eq-some (get_elem? a.state.bindings id) _ h in
    elim (Bool-cases (conflicts usage b)) [
      | inl e ↦
          let r = some-injective _ _ (rw e at h₁) in
          (
            b,
            at,
            cc,
            ap (λ (p : Analyzer × Bool). p.0.state) (sym r)
                ∙ push-state "OWN003" (conflicting_borrow (action usage) b.name) span a,
          )
      | inr e ↦
          let r = some-injective _ _ (rw e at h₁) in
          (b, at, cc, ap (λ (p : Analyzer × Bool). p.0.state) (sym r))
    ]

abbrev pub Outcome : ℕ → Bool → Analyzer → Binding → Analyzer → Option Loan → Type 0
Outcome owner mutable a b a' loan =
    (conflicts (borrow_usage mutable) b ≡ false)
      × (loan ≡ some (record { owner = owner; mutable = mutable }))
      × (a'.state.bindings ≡ modify a.state.bindings owner (lent mutable))
    ⊎ (conflicts (borrow_usage mutable) b ≡ true) × (loan ≡ none) × (a'.state ≡ a.state)

take_loan_end :
    (owner : ℕ) (mutable : Bool) (a checked : Analyzer) (free : Bool) (b : Binding) (a' : Analyzer)
    (loan : Option Loan)
    → conflicts (borrow_usage mutable) b ≡ not free
    → checked.state ≡ a.state
    → ◌≡◌ {A = Analyzer × Option Loan}
        (if free
          then (
            set_bindings (modify checked.state.bindings owner (lent mutable)) checked,
            some (record { owner = owner; mutable = mutable }),
          )
          else (checked, none))
        (a', loan)
    → Outcome owner mutable a b a' loan
take_loan_end owner mutable a checked true b a' loan e same r = inl (
  e,
  sym (ap (λ (p : Analyzer × Option Loan). p.1) r),
  ap (λ (p : Analyzer × Option Loan). p.0.state.bindings) (sym r)
      ∙ ap (λ (st : FlowState). modify st.bindings owner (lent mutable)) same,
)
take_loan_end owner mutable a checked false b a' loan e same r = inr (
  e,
  sym (ap (λ (p : Analyzer × Option Loan). p.1) r),
  ap (λ (p : Analyzer × Option Loan). p.0.state) (sym r) ∙ same,
)

-- A loan is given exactly where no use conflicts with it, and the owner is then marked.
pub take_loan_cases :
    (owner : ℕ) (mutable : Bool) (span : Span) (a a' : Analyzer) (loan : Option Loan)
    → take_loan owner mutable span a ≡ some (a', loan)
    → (b : Binding) × (get_elem? a.state.bindings owner ≡ some b)
      × Outcome owner mutable a b a' loan
unfolding take_loan
take_loan_cases owner mutable span a a' loan h =
    let ((checked, free), ec, h₁) =
      >>=-eq-some (check_borrow_conflict owner (borrow_usage mutable) span a) _ h in
    let (b, at, e, same) =
      check_borrow_conflict_cases owner (borrow_usage mutable) span a checked free ec in
    let (c, at_c, h₂) = >>=-eq-some (get_elem? checked.state.bindings owner) _ h₁ in
    (b, at, take_loan_end owner mutable a checked free b a' loan e same (some-injective _ _ h₂))
