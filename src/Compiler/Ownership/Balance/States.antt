-- ===== src/Compiler/Ownership/Balance/States.antt =====
-- What the operations of the flow state keep: the books, and how many scopes are open.
use stainless.Base.{
  ℕ, suc, ◌≡◌, refl, sym, ap, ◌∙◌, inl, inr, String, Bool, ◌&&◌, not, ◌==◌, Option, none, some,
  List, [], ◌∷◌, length, get_elem?, >>=-eq-some, Bool-cases, if◌then◌else◌, arith,
}
use stainless.Compiler.Diagnostic.{Span}
use stainless.Compiler.Types.{TypeRef}
use stainless.Compiler.Ownership.State.{
  Loan, FlowState, push_scope, pop_scope, pop_scope_bindings, end_scoped_loans, declare, tail,
  push_innermost, release_expired_loans, release_expired, in_scope, merge_states, merge_ids,
  end_reference_loan, root_origin,
}
use stainless.Compiler.Ownership.Analyzer.{
  mutate, Analyzer, check_usage, set_bindings, mark_moved, check_borrow_conflict, take_loan,
  acquire_persistent_loan, acquire_temporary_loan, borrow_usage, is_available, ends_within,
  unstable_source,
}
use stainless.Compiler.Ownership.Checks.{push-state, check_borrow_conflict_cases}
use stainless.Compiler.Ownership.Accounting.Moves.{to_list}
use stainless.Compiler.Ownership.Accounting.Operations.{
  pop_scope-IsBalanced, release_expired_loans-IsBalanced, declare-IsBalanced,
  merge_states-IsBalanced,
}
use stainless.Compiler.Ownership.Ledger.{
  acquire_persistent_loan-IsBalanced, acquire_temporary_loan-IsBalanced,
}
use stainless.Compiler.Ownership.Exclusive.{check_usage-state, mark_moved-IsBalanced}
use stainless.Compiler.Ownership.Balance.{Held, with_loans, deeper, Books, HasBooks}
use mathlib.Core.Option.{some-injective, none-ne-some}

pub push_scope-Books :
    (st : FlowState) {held : Held} → Books st held → Books (push_scope st) (deeper held)
unfolding push_scope
push_scope-Books st (b, at) = (b, ap suc at)

pop_scope_bindings-scopes :
    (ids : List (List ℕ)) (st st' : FlowState)
    → pop_scope_bindings ids st ≡ some st'
    → st'.scopes ≡ tail st.scopes
unfolding pop_scope_bindings
pop_scope_bindings-scopes [] st st' e = absurd (none-ne-some st' e)
pop_scope_bindings-scopes (ids ∷ rest) st st' e =
    let (bs, _, done) = >>=-eq-some (end_scoped_loans ids st.bindings) _ e in
    sym (ap (λ (s : FlowState). s.scopes) (some-injective _ _ done))

pop_scope-scopes : (st st' : FlowState) → pop_scope st ≡ some st' → st'.scopes ≡ tail st.scopes
unfolding pop_scope
pop_scope-scopes st st' e = pop_scope_bindings-scopes st.scope_bindings st st' e

length-tail {ℓ} : {A : Type ℓ} (xs : List A) (n : ℕ) → length xs ≡ suc n → length (tail xs) ≡ n
length-tail [] n e = cc
length-tail (x ∷ xs) n e = omega arith

pub pop_scope-Books :
    (st st' : FlowState) (held : Held)
    → pop_scope st ≡ some st'
    → Books st (deeper held)
    → Books st' held
pop_scope-Books st st' held e (b, at) = (
  pop_scope-IsBalanced st st' held.0 e b,
  ap length (pop_scope-scopes st st' e) ∙ length-tail st.scopes held.1 at,
)

pub pop_scope-HasBooks : (st st' : FlowState) → pop_scope st ≡ some st' → HasBooks st → HasBooks st'
pop_scope-HasBooks st st' e (held, b) =
    ((held.0, length st'.scopes), (pop_scope-IsBalanced st st' held.0 e b.0, refl))

push_innermost-length {ℓ} :
    {A : Type ℓ} (a : A) (xs ys : List (List A))
    → push_innermost a xs ≡ some ys
    → length ys ≡ length xs
push_innermost-length a [] ys e = absurd (none-ne-some ys e)
push_innermost-length a (x ∷ xs) ys e = sym (ap length (some-injective _ _ e))

pub declare-Books :
    (name : String) (ty : TypeRef) (loan : Option Loan) (span : Span) (last_use : Option Span)
    (depth : ℕ) (st : FlowState) (held : Held) {r : FlowState × ℕ}
    → declare name ty loan span last_use depth st ≡ some r
    → Books st (with_loans (to_list loan) held)
    → Books r.0 held
unfolding declare
declare-Books name ty loan span last_use depth st held {r} e (b, at) =
    let (scopes, pushed, e₁) =
      >>=-eq-some (push_innermost (name, length st.bindings) st.scopes) _ e in
    let (_, _, e₂) = >>=-eq-some (push_innermost (length st.bindings) st.scope_bindings) _ e₁ in
    (
      declare-IsBalanced name ty loan span last_use depth st held.0 e b,
      ap (λ (d : FlowState × ℕ). length (d.0).scopes) (sym (some-injective _ _ e₂))
          ∙ (push_innermost-length (name, length st.bindings) st.scopes scopes pushed ∙ at),
    )

pub release_expired_loans-Books :
    (depth position : ℕ) (st st' : FlowState) (held : Held)
    → release_expired_loans depth position st ≡ some st'
    → Books st held
    → Books st' held
unfolding release_expired_loans
release_expired_loans-Books depth position st st' held e (b, at) =
    let (bs, _, done) =
      >>=-eq-some (release_expired depth position (in_scope st) st.bindings) _ e in
    (
      release_expired_loans-IsBalanced depth position st st' held.0 e b,
      ap (λ (s : FlowState). length s.scopes) (sym (some-injective _ _ done)) ∙ at,
    )

pub merge_states-Books :
    (baseline left right m : FlowState) (held : Held)
    → merge_states baseline left right ≡ some m
    → Books baseline held
    → Books m held
unfolding merge_states
merge_states-Books baseline left right m held e (b, at) =
    let (bs, _, done) =
      >>=-eq-some (merge_ids (in_scope baseline) left.bindings right.bindings baseline.bindings) _
        e in
    (
      merge_states-IsBalanced baseline left right m held.0 e b,
      ap (λ (s : FlowState). length s.scopes) (sym (some-injective _ _ done)) ∙ at,
    )

mark_moved-scopes :
    (id : ℕ) (span : Span) (a a' : Analyzer)
    → mark_moved id span a ≡ some a'
    → a'.state.scopes ≡ a.state.scopes
unfolding mark_moved
mark_moved-scopes id span a a' e =
    let (checked, ec, e₁) = >>=-eq-some (check_usage id mutate span a) _ e in
    let (b, _, e₂) = >>=-eq-some (get_elem? checked.state.bindings id) _ e₁ in
    let same = ap (λ (s : FlowState). s.scopes) (check_usage-state id mutate span a checked ec) in
    let free = is_available b.availability && not b.mutably_borrowed && b.shared_borrows == 0 in
    elim (Bool-cases free) [
      | inl taken ↦ rw (← some-injective _ _ (rw taken at e₂)) same
      | inr refused ↦ rw (← some-injective _ _ (rw refused at e₂)) same
    ]

pub mark_moved-Books :
    (id : ℕ) (span : Span) (a a' : Analyzer) (held : Held)
    → mark_moved id span a ≡ some a'
    → Books a.state held
    → Books a'.state held
mark_moved-Books id span a a' held e (b, at) = (
  mark_moved-IsBalanced id span a a' held.0 e b,
  ap length (mark_moved-scopes id span a a' e) ∙ at,
)

take_loan-scopes :
    (owner : ℕ) (mutable : Bool) (span : Span) (a : Analyzer) (r : Analyzer × Option Loan)
    → take_loan owner mutable span a ≡ some r
    → r.0.state.scopes ≡ a.state.scopes
unfolding take_loan
take_loan-scopes owner mutable span a r e =
    let ((checked, free), ec, e₁) =
      >>=-eq-some (check_borrow_conflict owner (borrow_usage mutable) span a) _ e in
    let (b, _, e₂) = >>=-eq-some (get_elem? checked.state.bindings owner) _ e₁ in
    let (_, _, _, same) =
      check_borrow_conflict_cases owner (borrow_usage mutable) span a checked free ec in
    let kept = ap (λ (s : FlowState). s.scopes) same in
    elim (Bool-cases free) [
      | inl taken ↦ rw (← some-injective _ _ (rw taken at e₂)) kept
      | inr refused ↦ rw (← some-injective _ _ (rw refused at e₂)) kept
    ]

acquire_persistent_loan-scopes :
    (origin : Option ℕ) (mutable : Bool) (span : Span) (a : Analyzer) (r : Analyzer × Option Loan)
    → acquire_persistent_loan origin mutable span a ≡ some r
    → r.0.state.scopes ≡ a.state.scopes
unfolding acquire_persistent_loan
acquire_persistent_loan-scopes none mutable span a r e =
    rw (← some-injective _ _ e)
      (ap (λ (s : FlowState). s.scopes) (push-state "OWN004" unstable_source span a))
acquire_persistent_loan-scopes (some origin) mutable span a r e =
    let (owner, _, e₁) = >>=-eq-some (root_origin a.state.bindings origin) _ e in
    let (b, _, e₂) = >>=-eq-some (get_elem? a.state.bindings origin) _ e₁ in
    let (bs, _, e₃) =
      >>=-eq-some
        (if b.reference_loan_active && ends_within span b.last_use
          then end_reference_loan origin a.state.bindings
          else some a.state.bindings)
        _ e₂ in
    take_loan-scopes owner mutable span (set_bindings bs a) r e₃

acquire_temporary_loan-scopes :
    (origin : Option ℕ) (mutable : Bool) (span : Span) (a : Analyzer) (r : Analyzer × Option Loan)
    → acquire_temporary_loan origin mutable span a ≡ some r
    → r.0.state.scopes ≡ a.state.scopes
unfolding acquire_temporary_loan
acquire_temporary_loan-scopes none mutable span a r e = rw (← some-injective _ _ e) refl
acquire_temporary_loan-scopes (some owner) mutable span a r e =
    take_loan-scopes owner mutable span a r e

pub acquire_persistent_loan-Books :
    (origin : Option ℕ) (mutable : Bool) (span : Span) (a a' : Analyzer) (loan : Option Loan)
    (held : Held)
    → acquire_persistent_loan origin mutable span a ≡ some (a', loan)
    → Books a.state held
    → Books a'.state (with_loans (to_list loan) held)
acquire_persistent_loan-Books origin mutable span a a' loan held e (b, at) = (
  acquire_persistent_loan-IsBalanced origin mutable span a a' loan held.0 e b,
  ap length (acquire_persistent_loan-scopes origin mutable span a (a', loan) e) ∙ at,
)

pub acquire_temporary_loan-Books :
    (origin : Option ℕ) (mutable : Bool) (span : Span) (a a' : Analyzer) (loan : Option Loan)
    (held : Held)
    → acquire_temporary_loan origin mutable span a ≡ some (a', loan)
    → Books a.state held
    → Books a'.state (with_loans (to_list loan) held)
acquire_temporary_loan-Books origin mutable span a a' loan held e (b, at) = (
  acquire_temporary_loan-IsBalanced origin mutable span a a' loan held.0 e b,
  ap length (acquire_temporary_loan-scopes origin mutable span a (a', loan) e) ∙ at,
)
