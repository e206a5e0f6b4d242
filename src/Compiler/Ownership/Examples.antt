-- ===== src/Compiler/Ownership/Examples.antt =====
-- Small states of the ownership analysis, and the theorems about it at them.
use stainless.Base.{
  ℕ, ◌≡◌, ◌↔◌, ◌⊎◌, refl, arith, Bool, true, false, none, some, [], ◌∷◌, modify, All, if◌then◌else◌,
}
use stainless.Compiler.Diagnostic.{Span}
use stainless.Compiler.Types
use stainless.Compiler.Ownership.State.{
  available, moved, maybe_moved, Binding, FlowState, push_scope, declare, merge_many_states,
  root_origin,
}
use stainless.Compiler.Ownership.Analyzer.{
  Analyzer, mutate, read, borrow_shared, borrow_mutable, conflicts, check_borrow_conflict,
  take_loan, acquire_persistent_loan, check_usage, mark_moved, was_emitted,
}
use mathlib.Core.List.{flatten}
use stainless.Compiler.Ownership.Accounting.{outstanding}
use stainless.Compiler.Ownership.Ledger.{ledger, Reach, here, next, enter, declare_value, borrow}
use stainless.Compiler.Ownership.Exclusive.{start, Reach-exclusive}
use stainless.Compiler.Ownership.Origin.{Found, root_origin_total}
use stainless.Compiler.Ownership.Merge.{Knows, IsAvailable, IsMoved, merge_many_states_iff}
use stainless.Compiler.Ownership.Reports.{
  Verdict, is_allowed, usage_code, IsConsistent, is_reported, check_usage-Verdict,
  mark_moved_verdict,
}

abbrev span : ℕ → ℕ → Span
span a b = record { start = a; end = b }

-- A binding `x` of a type that is moved, with the given counters.
abbrev x : Bool → Binding
x mutably_borrowed = record {
  name = "x";
  ty = Types.TypeRef.native "rust::String" Types.TypeRefs.nil;
  availability = available;
  shared_borrows = 0;
  mutably_borrowed = mutably_borrowed;
  reference_loan = none;
  reference_loan_active = false;
  declaration_span = span 0 5;
  last_use = none;
  declaration_loop_depth = 0;
}

abbrev moved_x : Binding
moved_x = record (x false) { availability = moved (span 7 8) }

abbrev maybe_x : Binding
maybe_x = record (x false) { availability = maybe_moved (span 7 8) }

abbrev one : Binding → FlowState
one b = record { bindings = b ∷ []; scopes = (("x", 0) ∷ []) ∷ []; scope_bindings = (0 ∷ []) ∷ [] }

abbrev analyzer : FlowState → Analyzer
analyzer st = record {
  state = st;
  diagnostics = [];
  emitted = [];
  return_borrow = none;
  loop_depth = 0;
}

-- `x` is declared, and a reference borrows it mutably.
borrowed :
    Reach start (ledger (analyzer (one (x true))) (record { owner = 0; mutable = true } ∷ []))
unfolding push_scope declare acquire_persistent_loan take_loan check_borrow_conflict root_origin
borrowed =
    next
      (next (next here (enter (analyzer _) [])) (
        declare_value _ [] "x" (Types.TypeRef.native "rust::String" Types.TypeRefs.nil) (span 0 5)
          none 0 (one (x false), 0) refl))
      (borrow (analyzer (one (x false))) [] (some 0) true (span 9 10) (analyzer (one (x true)))
        (some (record { owner = 0; mutable = true })) refl)

Reach-exclusive_example :
    ((outstanding true 0 (x true ∷ []) (record { owner = 0; mutable = true } ∷ []) ≡ 0)
      ⊎ (outstanding true 0 (x true ∷ []) (record { owner = 0; mutable = true } ∷ []) ≡ 1)
        × (outstanding false 0 (x true ∷ []) (record { owner = 0; mutable = true } ∷ []) ≡ 0))
    × ((conflicts borrow_shared (x true) ≡ false)
        ↔ (outstanding true 0 (x true ∷ []) (record { owner = 0; mutable = true } ∷ []) ≡ 0))
    × ((conflicts borrow_mutable (x true) ≡ false) ↔ (
        (outstanding true 0 (x true ∷ []) (record { owner = 0; mutable = true } ∷ []) ≡ 0)
        × (outstanding false 0 (x true ∷ []) (record { owner = 0; mutable = true } ∷ []) ≡ 0)))
Reach-exclusive_example = Reach-exclusive _ 0 (x true) borrowed refl

root_origin_total_example : Found (x true ∷ []) 0 (root_origin (x true ∷ []) 0)
root_origin_total_example = root_origin_total _ 0 borrowed (omega arith)

check_usage-Verdict_example :
    (a' : Analyzer) × (check_usage 0 read (span 9 10) (analyzer (one (x true))) ≡ some a')
    × Verdict
        (is_allowed read (x true))
        (usage_code (x true))
        (span 9 10)
        (analyzer (one (x true)))
        a'
    × IsConsistent a'
unfolding was_emitted
check_usage-Verdict_example =
    check_usage-Verdict 0 read (span 9 10) (analyzer (one (x true))) (x true) (λ code s. refl) refl

mark_moved_verdict_example :
    (a' : Analyzer) × (mark_moved 0 (span 7 8) (analyzer (one (x false))) ≡ some a')
    × (if is_allowed mutate (x false)
        then (a'.diagnostics ≡ [])
          × (a'.state.bindings
              ≡ modify (x false ∷ []) 0 (λ c. record c { availability = moved (span 7 8) }))
        else (is_reported (usage_code (x false)) (span 7 8) a' ≡ true) × (a'.state ≡ one (x false)))
unfolding was_emitted
mark_moved_verdict_example =
    mark_moved_verdict 0 (span 7 8) (analyzer (one (x false))) (x false) (λ code s. refl) refl

-- One path moves `x` and the other does not: afterwards it is neither available nor moved.
joined : merge_many_states (one (x false)) (one moved_x ∷ one (x false) ∷ []) ≡ some (one maybe_x)
unfolding merge_many_states flatten
joined = refl

merge_many_states_iff_example :
    (Knows IsAvailable 0 (one maybe_x)
      ↔ All (Knows IsAvailable 0) (one moved_x ∷ one (x false) ∷ []))
    × (Knows IsMoved 0 (one maybe_x) ↔ All (Knows IsMoved 0) (one moved_x ∷ one (x false) ∷ []))
unfolding flatten
merge_many_states_iff_example =
    merge_many_states_iff (one (x false)) (one moved_x) (one (x false) ∷ []) 0 _ joined refl
