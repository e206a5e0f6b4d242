-- ===== src/Compiler/Ownership/Exclusive.antt =====
-- Whatever the analysis does, its books of the loans are right: the counters of every binding
-- say which loans of it are out, and a mutable loan excludes every other one.
use stainless.Base.{
  ℕ, ◌==◌, ◌≡◌, ◌↔◌, ◌⊎◌, inl, inr, refl, arith, true, false, not, ◌&&◌, none, some, List, [], ◌∷◌,
  ◌++◌, get_elem?, Bool-cases, ◌>>=◌, >>=-eq-some, All, count, count-append,
}
use stainless.Compiler.Diagnostic.{Span}
use stainless.Compiler.Ownership.State.{
  Availability, Loan, Binding, empty, push_scope, available, moved, maybe_moved,
}
use stainless.Compiler.Ownership.Analyzer.{
  Usage, mutate, borrow_shared, borrow_mutable, Analyzer, push, conflicts, check_borrow_conflict,
  check_usage, mark_moved, is_available, use_of_moved, may_have_been_moved,
}
use stainless.Compiler.Ownership.Checks.{push-state, check_borrow_conflict_cases}
use stainless.Compiler.Ownership.Accounting.{weight, outstanding, IsBalanced, IsAccounted}
use stainless.Compiler.Ownership.Accounting.Single.{modify-IsBalanced}
use stainless.Compiler.Ownership.Accounting.Moves.{held-IsBalanced}
use stainless.Compiler.Ownership.Accounting.Operations.{
  release-IsBalanced, pop_scope-IsBalanced, release_expired_loans-IsBalanced,
  merge_states-IsBalanced, declare-IsBalanced,
}
use stainless.Compiler.Ownership.Ledger.{
  Ledger, ledger, Step, enter, leave, declare_value, declare_reference, borrow, borrow_temporarily,
  give_back, expire, check, move, join, Reach, here, next, Balanced,
  acquire_persistent_loan-IsBalanced, acquire_temporary_loan-IsBalanced,
}
use mathlib.Core.Option.{some-injective}

pub check_usage-state :
    (id : ℕ) (usage : Usage) (span : Span) (a a' : Analyzer)
    → check_usage id usage span a ≡ some a'
    → a'.state ≡ a.state
unfolding check_usage
check_usage-state id usage span a a' h =
    let (b, at, h₁) = >>=-eq-some (get_elem? a.state.bindings id) _ h in
    by_availability b b.availability h₁
  where
    by_availability :
        (b : Binding) (s : Availability)
        → (elim s [
          | available ↦ check_borrow_conflict id usage span a >>= λ r. some (r.0)
          | moved s ↦ some (push "OWN001" (use_of_moved b.name s.start) span a)
          | maybe_moved s ↦ some (push "OWN002" (may_have_been_moved b.name s.start) span a)
        ])
          ≡ some a'
        → a'.state ≡ a.state
    by_availability b available h =
        let ((c, free), ec, done) = >>=-eq-some (check_borrow_conflict id usage span a) _ h in
        let (_, _, _, same) = check_borrow_conflict_cases id usage span a c free ec in
        rw (← some-injective _ _ done) same
    by_availability b (moved s) h = rw (← some-injective _ _ h) (push-state "OWN001" _ span a)
    by_availability b (maybe_moved s) h = rw (← some-injective _ _ h) (push-state "OWN002" _ span a)

pub mark_moved-IsBalanced :
    (id : ℕ) (span : Span) (a a' : Analyzer) (held : List Loan)
    → mark_moved id span a ≡ some a'
    → IsBalanced a.state.bindings held
    → IsBalanced a'.state.bindings held
unfolding mark_moved
mark_moved-IsBalanced id span a a' held h v =
    let (checked, ec, h₁) = >>=-eq-some (check_usage id mutate span a) _ h in
    let same = check_usage-state id mutate span a checked ec in
    let (b, at, h₂) = >>=-eq-some (get_elem? checked.state.bindings id) _ h₁ in
    let kept : IsBalanced checked.state.bindings held = rw same v in
    let free = is_available b.availability && not b.mutably_borrowed && b.shared_borrows == 0 in
    elim (Bool-cases free) [
      | inl e ↦ rw (← some-injective _ _ (rw e at h₂)) (
          modify-IsBalanced checked.state.bindings held id _ b at refl (λ m o. refl) refl refl kept)
      | inr e ↦ rw (← some-injective _ _ (rw e at h₂)) kept
    ]

All-middle {ℓ κ} :
    {A : Type ℓ} (P : A → Type κ) (xs ys : List A) (x : A)
    → All P (xs ++ (x ∷ ys))
    → All P (x ∷ (xs ++ ys))
All-middle P [] ys x h = h
All-middle P (z ∷ xs) ys x h = let (hx, rest) = All-middle P xs ys x h.1 in (hx, (h.0, rest))

count-middle {ℓ} :
    {A : Type ℓ} (w : A → ℕ) (xs ys : List A) (x : A)
    → count w (xs ++ (x ∷ ys)) ≡ count w (x ∷ (xs ++ ys))
count-middle w xs ys x = omega (arith, count-append w xs (x ∷ ys), count-append w xs ys)

Step-Balanced : {l m : Ledger} → Step l m → Balanced l → Balanced m
Step-Balanced (enter a held) v = unfold push_scope in v
Step-Balanced (leave a held st h) v = pop_scope-IsBalanced a.state st held h v
Step-Balanced (declare_value a held name ty span last_use depth r h) v =
    declare-IsBalanced name ty none span last_use depth a.state held h v
Step-Balanced (declare_reference a held loan name ty span last_use depth r h) v =
    declare-IsBalanced name ty (some loan) span last_use depth a.state held h v
Step-Balanced (borrow a held origin mutable span a' loan h) v =
    acquire_persistent_loan-IsBalanced origin mutable span a a' loan held h v
Step-Balanced (borrow_temporarily a held origin mutable span a' loan h) v =
    acquire_temporary_loan-IsBalanced origin mutable span a a' loan held h v
Step-Balanced (give_back a before loan after bs h) v =
    release-IsBalanced a.state.bindings (before ++ after) loan h (
      held-IsBalanced a.state.bindings (before ++ (loan ∷ after)) (loan ∷ (before ++ after))
        (λ m o. count-middle (weight m o) before after loan)
        (All-middle _ before after loan v.held_lt) v)
Step-Balanced (expire a held depth position st h) v =
    release_expired_loans-IsBalanced depth position a.state st held h v
Step-Balanced (check a held id usage span a' h) v = rw (check_usage-state id usage span a a' h) v
Step-Balanced (move a held id span a' h) v = mark_moved-IsBalanced id span a a' held h v
Step-Balanced (join a held left right st h) v =
    merge_states-IsBalanced a.state left right st held h v

pub Reach-Balanced : {l m : Ledger} → Reach l m → Balanced l → Balanced m
Reach-Balanced here v = v
Reach-Balanced (next r s) v = Step-Balanced s (Reach-Balanced r v)

abbrev pub start : Ledger
start =
    ledger
      (record {
        state = empty;
        diagnostics = [];
        emitted = [];
        return_borrow = none;
        loop_depth = 0;
      })
      []

pub start-Balanced : Balanced start
start-Balanced = record { accounted = λ o b at. cc; owner_lt = λ i b loan at has. cc; held_lt = tt }

-- What is out of a binding whose books are right, and what the conflict test then says.
abbrev pub IsExclusive : ℕ → Binding → List Binding → List Loan → Type 0
IsExclusive o b bindings held =
    ((outstanding true o bindings held ≡ 0)
      ⊎ (outstanding true o bindings held ≡ 1) × (outstanding false o bindings held ≡ 0))
    × ((conflicts borrow_shared b ≡ false) ↔ (outstanding true o bindings held ≡ 0))
    × ((conflicts borrow_mutable b ≡ false)
        ↔ ((outstanding true o bindings held ≡ 0) × (outstanding false o bindings held ≡ 0)))

exclusive_of :
    (s m : ℕ) (b : Binding)
    → IsAccounted s m b
    → ((m ≡ 0) ⊎ (m ≡ 1) × (s ≡ 0))
      × ((conflicts borrow_shared b ≡ false) ↔ (m ≡ 0))
      × ((conflicts borrow_mutable b ≡ false) ↔ ((m ≡ 0) × (s ≡ 0)))
exclusive_of s m b v = elim (Bool-cases b.mutably_borrowed) [
  | inl e ↦ (inr (ground arith, ground arith), ground arith, ground arith)
  | inr e ↦ (inl (ground arith), ground arith, ground arith)
]

pub IsBalanced-IsExclusive :
    (bindings : List Binding) (held : List Loan) (o : ℕ) (b : Binding)
    → IsBalanced bindings held
    → get_elem? bindings o ≡ some b
    → IsExclusive o b bindings held
IsBalanced-IsExclusive bindings held o b v at = exclusive_of _ _ b (v.accounted o b at)

-- After any sequence of the analyzer's operations from an empty state, at most one mutable loan of
-- a binding is out, and then no shared one; and the conflict test of the analyzer lets a shared
-- borrow through exactly if no mutable loan is out, a mutable one exactly if no loan is out.
pub Reach-exclusive :
    (l : Ledger) (o : ℕ) (b : Binding)
    → Reach start l
    → get_elem? l.analyzer.state.bindings o ≡ some b
    → ((outstanding true o l.analyzer.state.bindings l.held ≡ 0)
        ⊎ (outstanding true o l.analyzer.state.bindings l.held ≡ 1)
          × (outstanding false o l.analyzer.state.bindings l.held ≡ 0))
      × ((conflicts borrow_shared b ≡ false)
          ↔ (outstanding true o l.analyzer.state.bindings l.held ≡ 0))
      × ((conflicts borrow_mutable b ≡ false) ↔ (
          (outstanding true o l.analyzer.state.bindings l.held ≡ 0)
          × (outstanding false o l.analyzer.state.bindings l.held ≡ 0)))
Reach-exclusive l o b r at =
    IsBalanced-IsExclusive l.analyzer.state.bindings l.held o b (Reach-Balanced r start-Balanced) at
