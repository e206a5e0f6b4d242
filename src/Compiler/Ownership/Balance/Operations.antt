-- ===== src/Compiler/Ownership/Balance/Operations.antt =====
-- The operations of the walker keep the books.
use stainless.Base.{
  ℕ, ltb, length, ◌≡◌, sym, inl, inr, String, Bool, Option, none, some, List, [], ◌∷◌, >>=-eq-some,
  Bool-cases,
}
use stainless.Compiler.Diagnostic.{Span}
use stainless.Compiler.Types.{TypeRef}
use stainless.Compiler.Ownership.State.{
  Loan, FlowState, push_scope, pop_scope, declare, release, release_expired_loans,
}
use stainless.Compiler.Ownership.Analyzer.{
  Usage, Analyzer, set_bindings, check_usage, mark_moved, acquire_persistent_loan,
  acquire_temporary_loan,
}
use stainless.Compiler.Ownership.Accounting.Moves.{to_list}
use stainless.Compiler.Ownership.Accounting.Operations.{release-IsBalanced}
use stainless.Compiler.Ownership.Exclusive.{check_usage-state}
use stainless.Compiler.Ownership.Balance.States.{
  push_scope-Books, pop_scope-Books, pop_scope-HasBooks, mark_moved-Books,
  acquire_temporary_loan-Books, acquire_persistent_loan-Books, release_expired_loans-Books,
  declare-Books,
}
use stainless.Compiler.Ownership.Walk.{
  Walker, LastUses, last_use_of, state_of, enter_scope, leave_scope, use_binding, move_binding,
  lend_temporarily, lend, give_back, give_back_option, give_back_all, expire, declare_local,
  pop_scopes_to, on_analyzer,
}
use stainless.Compiler.Ownership.Balance.{
  Held, with_loans, deeper, Books, HasBooks, IsSound, Kept, Keeps, KeepsWith, some-Kept, bind-Kept,
  set_analyzer-IsSound, set_state-IsSound,
}
use mathlib.Core.Option.{some-injective}
use mathlib.Core.Path.{subst}

abbrev pub Lent : Held → Option (Walker × Option Loan) → Type 0
Lent held m = Kept (λ (r : Walker × Option Loan). r.0) (λ r. with_loans (to_list r.1) held) m

pub enter_scope-IsSound :
    (w : Walker) {held : Held} → IsSound w held → IsSound (enter_scope w) (deeper held)
enter_scope-IsSound w s =
    set_state-IsSound w (push_scope (state_of w)) s (push_scope-Books (state_of w) s.books)

pub leave_scope-Keeps :
    (w : Walker) {held : Held} → IsSound w (deeper held) → Keeps held (leave_scope w)
unfolding leave_scope
leave_scope-Keeps w {held} s = record {
  kept = λ w' e.
      let (st, at, done) = >>=-eq-some (pop_scope (state_of w)) _ e in
      subst (λ v. IsSound v held) (some-injective _ _ done)
        (set_state-IsSound w st s (pop_scope-Books (state_of w) st held at s.books));
}

pub on_analyzer-Keeps :
    (f : Analyzer → Option Analyzer) (w : Walker) {held : Held}
    → IsSound w held
    → ((a : Analyzer) → f w.analyzer ≡ some a → Books a.state held)
    → Keeps held (on_analyzer f w)
on_analyzer-Keeps f w {held} s h = record {
  kept = λ w' e.
      let (a, at, done) = >>=-eq-some (f w.analyzer) _ e in
      subst (λ v. IsSound v held) (some-injective _ _ done) (set_analyzer-IsSound w a s (h a at));
}

pub use_binding-Keeps :
    (id : ℕ) (usage : Usage) (span : Span) (w : Walker) {held : Held}
    → IsSound w held
    → Keeps held (use_binding id usage span w)
unfolding use_binding
use_binding-Keeps id usage span w {held} s =
    on_analyzer-Keeps (check_usage id usage span) w s (λ a at.
      subst (λ st. Books st held) (sym (check_usage-state id usage span w.analyzer a at)) s.books)

pub move_binding-Keeps :
    (id : ℕ) (span : Span) (w : Walker) {held : Held}
    → IsSound w held
    → Keeps held (move_binding id span w)
unfolding move_binding
move_binding-Keeps id span w {held} s =
    on_analyzer-Keeps (mark_moved id span) w s
      (λ a at. mark_moved-Books id span w.analyzer a held at s.books)

pub lend_temporarily-Lent :
    (origin : Option ℕ) (mutable : Bool) (span : Span) (w : Walker) {held : Held}
    → IsSound w held
    → Lent held (lend_temporarily origin mutable span w)
unfolding lend_temporarily
lend_temporarily-Lent origin mutable span w {held} s = record {
  kept = λ r e.
      let ((a, loan), at, done) =
        >>=-eq-some (acquire_temporary_loan origin mutable span w.analyzer) _ e in
      subst (λ (v : Walker × Option Loan). IsSound v.0 (with_loans (to_list v.1) held))
        (some-injective _ _ done)
        (set_analyzer-IsSound w a s
          (acquire_temporary_loan-Books origin mutable span w.analyzer a loan held at s.books));
}

pub lend-Lent :
    (origin : Option ℕ) (mutable : Bool) (span : Span) (w : Walker) {held : Held}
    → IsSound w held
    → Lent held (lend origin mutable span w)
unfolding lend
lend-Lent origin mutable span w {held} s = record {
  kept = λ r e.
      let ((a, loan), at, done) =
        >>=-eq-some (acquire_persistent_loan origin mutable span w.analyzer) _ e in
      subst (λ (v : Walker × Option Loan). IsSound v.0 (with_loans (to_list v.1) held))
        (some-injective _ _ done)
        (set_analyzer-IsSound w a s
          (acquire_persistent_loan-Books origin mutable span w.analyzer a loan held at s.books));
}

pub give_back-Keeps :
    (loan : Loan) (w : Walker) {held : Held}
    → IsSound w (with_loans (loan ∷ []) held)
    → Keeps held (give_back loan w)
unfolding give_back
give_back-Keeps loan w {held} s = record {
  kept = λ w' e.
      let (bs, at, done) = >>=-eq-some (release loan (state_of w).bindings) _ e in
      subst (λ v. IsSound v held) (some-injective _ _ done)
        (set_analyzer-IsSound w (set_bindings bs w.analyzer) s
          (release-IsBalanced (state_of w).bindings held.0 loan at s.books.0, s.books.1));
}

pub give_back_option-Keeps :
    (loan : Option Loan) (w : Walker) {held : Held}
    → IsSound w (with_loans (to_list loan) held)
    → Keeps held (give_back_option loan w)
unfolding give_back_option
give_back_option-Keeps none w s = some-Kept w s
give_back_option-Keeps (some loan) w s = give_back-Keeps loan w s

pub give_back_all-Keeps :
    (loans : List Loan) (w : Walker) {held : Held}
    → IsSound w (with_loans loans held)
    → Keeps held (give_back_all loans w)
unfolding give_back_all
give_back_all-Keeps [] w s = some-Kept w s
give_back_all-Keeps (loan ∷ loans) w s =
    bind-Kept (give_back loan w) _ (give_back-Keeps loan w s)
      (λ w' s'. give_back_all-Keeps loans w' s')

pub expire-Keeps :
    (position : ℕ) (w : Walker) {held : Held} → IsSound w held → Keeps held (expire position w)
unfolding expire
expire-Keeps position w {held} s = record {
  kept = λ w' e.
      let (st, at, done) =
        >>=-eq-some (release_expired_loans w.analyzer.loop_depth position (state_of w)) _ e in
      subst (λ v. IsSound v held) (some-injective _ _ done)
        (set_state-IsSound w st s (
          release_expired_loans-Books w.analyzer.loop_depth position (state_of w) st held at
            s.books));
}

pub declare_local-KeepsWith :
    (last_uses : LastUses) (name : String) (ty : TypeRef) (loan : Option Loan) (span : Span)
    (w : Walker) {held : Held}
    → IsSound w (with_loans (to_list loan) held)
    → KeepsWith held (declare_local last_uses name ty loan span w)
unfolding declare_local
declare_local-KeepsWith last_uses name ty loan span w {held} s = record {
  kept = λ r e.
      let ((st, id), at, done) =
        >>=-eq-some
          (declare name ty loan span (last_use_of last_uses span) w.analyzer.loop_depth
            (state_of w))
          _ e in
      subst (λ (v : Walker × ℕ). IsSound v.0 held) (some-injective _ _ done)
        (set_state-IsSound w st s (
          declare-Books name ty loan span (last_use_of last_uses span) w.analyzer.loop_depth
            (state_of w) held at s.books));
}

pub pop_scopes_to-HasBooks :
    (scopes : List (List (String × ℕ))) (depth : ℕ) (st : FlowState) {st' : FlowState}
    → pop_scopes_to scopes depth st ≡ some st'
    → HasBooks st
    → HasBooks st'
unfolding pop_scopes_to
pop_scopes_to-HasBooks [] depth st e h = subst HasBooks (some-injective _ _ e) h
pop_scopes_to-HasBooks (scope ∷ scopes) depth st e (held, h) =
    elim (Bool-cases (ltb depth (length (scope ∷ scopes)))) [
      | inl more ↦
          let (popped, at, rest) =
            >>=-eq-some (pop_scope st) (λ st'. pop_scopes_to scopes depth st') (rw more at e) in
          pop_scopes_to-HasBooks scopes depth popped rest
            (pop_scope-HasBooks st popped at (held, h))
      | inr done ↦ subst HasBooks (some-injective _ _ (rw done at e)) (held, h)
    ]
