-- ===== src/Compiler/Ownership/Ledger.antt =====
-- The analysis as a sequence of steps. A ledger is an analyzer with the loans that the expression
-- or the loop under analysis holds and gives back later; a step is one call of an operation of
-- crates/stainless-compiler/src/ownership.rs that changes the flow state.
use stainless.Base.{
  ℕ, ◌≡◌, inl, inr, ap, String, Bool, ◌&&◌, Option, none, some, List, ◌∷◌, ◌++◌, get_elem?,
  Bool-cases, >>=-eq-some, if◌then◌else◌,
}
use stainless.Compiler.Diagnostic.{Span}
use stainless.Compiler.Types.{TypeRef}
use stainless.Compiler.Ownership.State.{
  Loan, Binding, FlowState, push_scope, pop_scope, declare, release, release_expired_loans,
  merge_states, root_origin, end_reference_loan,
}
use stainless.Compiler.Ownership.Analyzer.{
  Usage, Analyzer, unstable_source, set_bindings, check_usage, mark_moved, take_loan,
  acquire_persistent_loan, acquire_temporary_loan, ends_within,
}
use stainless.Compiler.Ownership.Checks.{push-state, take_loan_cases}
use stainless.Compiler.Ownership.Accounting.{IsBalanced}
use stainless.Compiler.Ownership.Accounting.Moves.{lent-IsBalanced, to_list}
use stainless.Compiler.Ownership.Accounting.Operations.{end_reference_loan-IsBalanced}
use mathlib.Core.Option.{some-injective}

pub record Ledger : Type 0 where
  pub analyzer : Analyzer
  pub held : List Loan

abbrev pub at_state : Analyzer → FlowState → Analyzer
at_state a st = record a { state = st }

abbrev pub ledger : Analyzer → List Loan → Ledger
ledger a held = record { analyzer = a; held = held }

pub data Step : Ledger → Ledger → Type 0 where
  enter :
      (a : Analyzer) (held : List Loan)
      → Step (ledger a held) (ledger (at_state a (push_scope a.state)) held)
  leave :
      (a : Analyzer) (held : List Loan) (st : FlowState)
      → pop_scope a.state ≡ some st
      → Step (ledger a held) (ledger (at_state a st) held)
  declare_value :
      (a : Analyzer) (held : List Loan) (name : String) (ty : TypeRef) (span : Span)
      (last_use : Option Span) (depth : ℕ) (r : FlowState × ℕ)
      → declare name ty none span last_use depth a.state ≡ some r
      → Step (ledger a held) (ledger (at_state a r.0) held)
  declare_reference :
      (a : Analyzer) (held : List Loan) (loan : Loan) (name : String) (ty : TypeRef) (span : Span)
      (last_use : Option Span) (depth : ℕ) (r : FlowState × ℕ)
      → declare name ty (some loan) span last_use depth a.state ≡ some r
      → Step (ledger a (loan ∷ held)) (ledger (at_state a r.0) held)
  borrow :
      (a : Analyzer) (held : List Loan) (origin : Option ℕ) (mutable : Bool) (span : Span)
      (a' : Analyzer) (loan : Option Loan)
      → acquire_persistent_loan origin mutable span a ≡ some (a', loan)
      → Step (ledger a held) (ledger a' (to_list loan ++ held))
  borrow_temporarily :
      (a : Analyzer) (held : List Loan) (origin : Option ℕ) (mutable : Bool) (span : Span)
      (a' : Analyzer) (loan : Option Loan)
      → acquire_temporary_loan origin mutable span a ≡ some (a', loan)
      → Step (ledger a held) (ledger a' (to_list loan ++ held))
  give_back :
      (a : Analyzer) (before : List Loan) (loan : Loan) (after : List Loan) (bs : List Binding)
      → release loan a.state.bindings ≡ some bs
      → Step (ledger a (before ++ (loan ∷ after))) (ledger (set_bindings bs a) (before ++ after))
  expire :
      (a : Analyzer) (held : List Loan) (depth position : ℕ) (st : FlowState)
      → release_expired_loans depth position a.state ≡ some st
      → Step (ledger a held) (ledger (at_state a st) held)
  check :
      (a : Analyzer) (held : List Loan) (id : ℕ) (usage : Usage) (span : Span) (a' : Analyzer)
      → check_usage id usage span a ≡ some a'
      → Step (ledger a held) (ledger a' held)
  move :
      (a : Analyzer) (held : List Loan) (id : ℕ) (span : Span) (a' : Analyzer)
      → mark_moved id span a ≡ some a'
      → Step (ledger a held) (ledger a' held)
  join :
      (a : Analyzer) (held : List Loan) (left right st : FlowState)
      → merge_states a.state left right ≡ some st
      → Step (ledger a held) (ledger (at_state a st) held)

pub data Reach (start : Ledger) : Ledger → Type 0 where
  here : Reach start start
  next : {l m : Ledger} → Reach start l → Step l m → Reach start m

abbrev pub Balanced : Ledger → Type 0
Balanced l = IsBalanced l.analyzer.state.bindings l.held

take_loan-IsBalanced :
    (owner : ℕ) (mutable : Bool) (span : Span) (a a' : Analyzer) (loan : Option Loan)
    (held : List Loan)
    → take_loan owner mutable span a ≡ some (a', loan)
    → IsBalanced a.state.bindings held
    → IsBalanced a'.state.bindings (to_list loan ++ held)
take_loan-IsBalanced owner mutable span a a' loan held h v =
    let (b, at, outcome) = take_loan_cases owner mutable span a a' loan h in
    elim outcome [
      | inl (free, given, same) ↦
          rw (same, given)
            (lent-IsBalanced a.state.bindings held (record { owner = owner; mutable = mutable }) b
              at free v)
      | inr (_, refused, same) ↦ rw (same, refused) v
    ]

pub acquire_temporary_loan-IsBalanced :
    (origin : Option ℕ) (mutable : Bool) (span : Span) (a a' : Analyzer) (loan : Option Loan)
    (held : List Loan)
    → acquire_temporary_loan origin mutable span a ≡ some (a', loan)
    → IsBalanced a.state.bindings held
    → IsBalanced a'.state.bindings (to_list loan ++ held)
unfolding acquire_temporary_loan
acquire_temporary_loan-IsBalanced none mutable span a a' loan held h v =
    let r = some-injective _ _ h in
    rw (← ap (λ (p : Analyzer × Option Loan). p.0) r, ← ap (λ (p : Analyzer × Option Loan). p.1) r)
      v
acquire_temporary_loan-IsBalanced (some owner) mutable span a a' loan held h v =
    take_loan-IsBalanced owner mutable span a a' loan held h v

pub acquire_persistent_loan-IsBalanced :
    (origin : Option ℕ) (mutable : Bool) (span : Span) (a a' : Analyzer) (loan : Option Loan)
    (held : List Loan)
    → acquire_persistent_loan origin mutable span a ≡ some (a', loan)
    → IsBalanced a.state.bindings held
    → IsBalanced a'.state.bindings (to_list loan ++ held)
unfolding acquire_persistent_loan
acquire_persistent_loan-IsBalanced none mutable span a a' loan held h v =
    let r = some-injective _ _ h in
    rw
      (
        ← ap (λ (p : Analyzer × Option Loan). p.0) r,
        ← ap (λ (p : Analyzer × Option Loan). p.1) r,
        push-state "OWN004" unstable_source span a,
      )
      v
acquire_persistent_loan-IsBalanced (some origin) mutable span a a' loan held h v =
    let (owner, _, h₁) = >>=-eq-some (root_origin a.state.bindings origin) _ h in
    let (b, _, h₂) = >>=-eq-some (get_elem? a.state.bindings origin) _ h₁ in
    let ends = b.reference_loan_active && ends_within span b.last_use in
    let (bs, eb, h₃) =
      >>=-eq-some
        (if ends then end_reference_loan origin a.state.bindings else some a.state.bindings) _ h₂ in
    take_loan-IsBalanced owner mutable span (set_bindings bs a) a' loan held h₃
      (elim (Bool-cases ends) [
        | inl e ↦ end_reference_loan-IsBalanced a.state.bindings held origin (rw e at eb) v
        | inr e ↦ rw (← some-injective _ _ (rw e at eb)) v
      ])
