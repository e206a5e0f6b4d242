-- ===== src/Compiler/Ownership/Origin.antt =====
-- The search for the origin of a reference ends, and finds a binding that borrows from nobody.
use stainless.Base.{
  ℕ, zero, suc, ◌<◌, ◌≤◌, ◌≡◌, ◌⊎◌, inl, inr, arith, true, Option, none, some, List, get_elem?,
  Bool-cases, Option-cases, length, get_elem?-some,
}
use stainless.Compiler.Types.{canonical_ref, is_guard}
use stainless.Compiler.Ownership.State.{Loan, Binding, root_origin, root_origin_loop}
use stainless.Compiler.Ownership.Accounting.{IsBalanced}
use stainless.Compiler.Ownership.Ledger.{Ledger, Reach}
use stainless.Compiler.Ownership.Exclusive.{start, start-Balanced, Reach-Balanced}

-- The binding ends the search: it is no reference, or it is a guard.
abbrev pub IsRoot : Binding → Type 0
IsRoot b = (b.reference_loan ≡ none) ⊎ (is_guard (canonical_ref b.ty) ≡ true)

abbrev pub Found : List Binding → ℕ → Option ℕ → Type 0
Found bs id answer =
    (r : ℕ) × (b : Binding) × (answer ≡ some r) × (r ≤ id) × (get_elem? bs r ≡ some b) × IsRoot b

root_origin_loop_total :
    (fuel : ℕ) (bs : List Binding) (held : List Loan) (id : ℕ)
    → IsBalanced bs held
    → id < fuel
    → id < length bs
    → Found bs id (root_origin_loop fuel bs id)
unfolding root_origin_loop
root_origin_loop_total zero bs held id v h inside = absurd (omega arith)
root_origin_loop_total (suc fuel) bs held id v h inside =
    let (b, at) = get_elem?-some bs id inside in
    elim (Option-cases b.reference_loan) [
      | inl e ↦ (id, b, ground arith, omega arith, at, inl e)
      | inr (loan, e) ↦ elim (Bool-cases (is_guard (canonical_ref b.ty))) [
        | inl g ↦ (id, b, ground arith, omega arith, at, inr g)
        | inr g ↦
            let below = v.owner_lt id b loan at e in
            let (r, c, er, le, at_r, root) =
              root_origin_loop_total fuel bs held loan.owner v (omega arith) (omega arith) in
            (r, c, ground arith, omega arith, at_r, root)
      ]
    ]

-- In every state that the analysis reaches, the origin of every binding is found: the chain of
-- loans ends at a binding declared no later that is no reference, or is a guard.
pub root_origin_total :
    (l : Ledger) (id : ℕ)
    → Reach start l
    → id < length l.analyzer.state.bindings
    → Found l.analyzer.state.bindings id (root_origin l.analyzer.state.bindings id)
unfolding root_origin
root_origin_total l id r inside =
    root_origin_loop_total (suc id) l.analyzer.state.bindings l.held id
      (Reach-Balanced r start-Balanced) (omega arith) inside
