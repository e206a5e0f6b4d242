-- ===== src/Compiler/Ownership/Accounting.antt =====
-- The books of the loans: what the counters of a binding say, against the loans that are out.
-- A loan is out while an active reference holds it (`reference_loan`), or while an expression or
-- a loop under analysis holds it (the list `held`).
pub mod Single
pub mod Moves
pub mod Operations
use stainless.Base.{
  ℕ, zero, suc, ◌+◌, ◌-◌, ◌<◌, ◌==◌, if◌then◌else◌, ◌≡◌, Bool, true, false, not, ◌&&◌, Option, none,
  some, List, length, get_elem?, All, count,
}
use stainless.Compiler.Ownership.State.{Loan, Binding}

-- One if the loan is of this kind (mutable or shared) and from this owner.
abbrev pub weight : Bool → ℕ → Loan → ℕ
weight true o loan = if loan.owner == o && loan.mutable then 1 else 0
weight false o loan = if loan.owner == o && not loan.mutable then 1 else 0

abbrev pub weight_of_option : Bool → ℕ → Option Loan → ℕ
weight_of_option m o none = 0
weight_of_option m o (some loan) = weight m o loan

abbrev pub active_weight : Bool → ℕ → Binding → ℕ
active_weight m o b = if b.reference_loan_active then weight_of_option m o b.reference_loan else 0

-- How many loans of this kind from this owner are out.
abbrev pub outstanding : Bool → ℕ → List Binding → List Loan → ℕ
outstanding m o bindings held = count (active_weight m o) bindings + count (weight m o) held

abbrev pub to_nat : Bool → ℕ
to_nat true = 1
to_nat false = 0

-- The counters of a binding are right when `s` shared and `m` mutable loans of it are out, and a
-- mutable borrow is exclusive.
pub record IsAccounted (s m : ℕ) (b : Binding) : Type 0 where
  pub shared : b.shared_borrows ≡ s
  pub mutable : to_nat b.mutably_borrowed ≡ m
  pub exclusive : b.mutably_borrowed ≡ true → b.shared_borrows ≡ 0

-- The books are right, and a loan comes from a binding declared before whatever holds it.
pub record IsBalanced (bindings : List Binding) (held : List Loan) : Type 0 where
  pub accounted :
      (o : ℕ) (b : Binding)
      → get_elem? bindings o ≡ some b
      → IsAccounted (outstanding false o bindings held) (outstanding true o bindings held) b
  pub owner_lt :
      (i : ℕ) (b : Binding) (loan : Loan)
      → get_elem? bindings i ≡ some b
      → b.reference_loan ≡ some loan
      → loan.owner < i
  pub held_lt : All (λ loan. loan.owner < length bindings) held
