-- ===== src/Compiler/Ownership/State.antt =====
-- The flow state of crates/stainless-compiler/src/ownership.rs: bindings, loans and scopes, and
-- the operations that only change that state. An index out of bounds and a failed `expect` panic
-- in the source and are `none` here. The innermost scope is the head of `scopes`, and in a scope
-- the latest binding is the head, so the source's iteration order is the reverse of the lists'.
use stainless.Base.{
  ℕ, zero, suc, ◌+◌, ◌-◌, leb, ◌==◌, if◌then◌else◌, String, Bool, true, false, ◌&&◌, ◌||◌, Option,
  none, some, List, [], ◌∷◌, ◌++◌, length, get_elem?, modify, ◌>>=◌, is_some,
}
use stainless.Compiler.Diagnostic.{Span}
use stainless.Compiler.Types.{TypeRef, canonical_ref, is_guard}
use mathlib.Core.List.{reverse, flatten}
use text.Mathlib.Text.{◌==◌ as str_eq}

pub data Availability : Type 0 where
  available : Availability
  moved maybe_moved : Span → Availability

pub record Loan : Type 0 where
  pub owner : ℕ
  pub mutable : Bool

pub record Binding : Type 0 where
  pub name : String
  pub ty : TypeRef
  pub availability : Availability
  pub shared_borrows : ℕ
  pub mutably_borrowed : Bool
  pub reference_loan : Option Loan
  pub reference_loan_active : Bool
  pub declaration_span : Span
  pub last_use : Option Span
  pub declaration_loop_depth : ℕ

pub record FlowState : Type 0 where
  pub bindings : List Binding
  pub scopes : List (List (String × ℕ))
  pub scope_bindings : List (List ℕ)

abbrev pub empty : FlowState
empty = record { bindings = []; scopes = []; scope_bindings = [] }

unfoldable pub push_scope : FlowState → FlowState
push_scope st = record st { scopes = [] ∷ st.scopes; scope_bindings = [] ∷ st.scope_bindings }

-- What a loan does to its owner when it ends, and when it is taken.
abbrev pub returned : Loan → Binding → Binding
returned loan owner =
    if loan.mutable
    then record owner { mutably_borrowed = false }
    else record owner { shared_borrows = owner.shared_borrows - 1 }

abbrev pub lent : Bool → Binding → Binding
lent mutable owner =
    if mutable
    then record owner { mutably_borrowed = true }
    else record owner { shared_borrows = owner.shared_borrows + 1 }

abbrev pub deactivated : Binding → Binding
deactivated b = record b { reference_loan_active = false }

unfoldable pub release : Loan → List Binding → Option (List Binding)
release loan bindings = do
  owner ← get_elem? bindings loan.owner
  some (modify bindings loan.owner (returned loan))

unfoldable pub end_reference_loan : ℕ → List Binding → Option (List Binding)
unfolding release
end_reference_loan id bindings = do
  b ← get_elem? bindings id
  if b.reference_loan_active
      then (elim (b.reference_loan) [ none ↦ some bindings | some loan ↦ release loan bindings ]
          >>= λ bindings'. some (modify bindings' id deactivated))
      else some bindings

-- The body of the loop of `pop_scope`.
unfoldable pub end_scoped_loan : ℕ → List Binding → Option (List Binding)
unfolding release
end_scoped_loan id bindings = do
  b ← get_elem? bindings id
  if b.reference_loan_active
      then elim (b.reference_loan) [
        | none ↦ some bindings
        | some loan ↦ release loan bindings >>= λ bindings'. some (modify bindings' id deactivated)
      ]
      else some bindings

unfoldable pub end_scoped_loans : List ℕ → List Binding → Option (List Binding)
unfolding end_scoped_loan
end_scoped_loans [] bindings = some bindings
end_scoped_loans (id ∷ ids) bindings =
    end_scoped_loan id bindings >>= λ bindings'. end_scoped_loans ids bindings'

abbrev pub tail {ℓ} : {A : Type ℓ} → List A → List A
tail [] = []
tail (x ∷ xs) = xs

unfoldable pub pop_scope_bindings : List (List ℕ) → FlowState → Option FlowState
unfolding end_scoped_loans
pop_scope_bindings [] st = none
pop_scope_bindings (ids ∷ rest) st = do
  bindings ← end_scoped_loans ids st.bindings
  some (record { bindings = bindings; scopes = tail st.scopes; scope_bindings = rest })

unfoldable pub pop_scope : FlowState → Option FlowState
unfolding pop_scope_bindings
pop_scope st = pop_scope_bindings st.scope_bindings st

-- Adds to the innermost scope.
abbrev pub push_innermost {ℓ} : {A : Type ℓ} → A → List (List A) → Option (List (List A))
push_innermost a [] = none
push_innermost a (scope ∷ rest) = some ((a ∷ scope) ∷ rest)

unfoldable pub declare :
    String → TypeRef → Option Loan → Span → Option Span → ℕ → FlowState → Option (FlowState × ℕ)
declare name ty reference_loan declaration_span last_use loop_depth st = do
  let id = length st.bindings
  let binding : Binding = record {
    name = name;
    ty = ty;
    availability = available;
    shared_borrows = 0;
    mutably_borrowed = false;
    reference_loan = reference_loan;
    reference_loan_active = is_some reference_loan;
    declaration_span = declaration_span;
    last_use = last_use;
    declaration_loop_depth = loop_depth;
  }
  scopes ← push_innermost (name, id) st.scopes
  scope_bindings ← push_innermost id st.scope_bindings
  some (
    record {
      bindings = st.bindings ++ binding ∷ [];
      scopes = scopes;
      scope_bindings = scope_bindings;
    },
    id,
  )

-- `scope.get(name)`, and the search from the innermost scope outwards.
unfoldable pub lookup_in : String → List (String × ℕ) → Option ℕ
lookup_in name [] = none
lookup_in name ((n, id) ∷ scope) = if str_eq n name then some id else lookup_in name scope

unfoldable pub lookup_scopes : String → List (List (String × ℕ)) → Option ℕ
unfolding lookup_in
lookup_scopes name [] = none
lookup_scopes name (scope ∷ rest) = elim (lookup_in name scope) [
  | some id ↦ some id
  | none ↦ lookup_scopes name rest
]

unfoldable pub lookup : String → FlowState → Option ℕ
unfolding lookup_scopes
lookup name st = lookup_scopes name st.scopes

-- `scope_bindings.iter().flatten()`, outermost scope first.
abbrev pub in_scope : FlowState → List ℕ
in_scope st = reverse (flatten st.scope_bindings)

abbrev pub is_expired : ℕ → ℕ → Binding → Bool
is_expired loop_depth position b =
    b.reference_loan_active
    && (loop_depth == 0 || leb loop_depth b.declaration_loop_depth)
    && elim (b.last_use) [
      | none ↦ leb (b.declaration_span.end) position
      | some last_use ↦ leb (last_use.end) position
    ]

unfoldable pub release_expired : ℕ → ℕ → List ℕ → List Binding → Option (List Binding)
unfolding end_reference_loan
release_expired loop_depth position [] bindings = some bindings
release_expired loop_depth position (id ∷ ids) bindings =
    (get_elem? bindings id >>= λ b.
    if is_expired loop_depth position b then end_reference_loan id bindings else some bindings)
    >>= λ bindings'. release_expired loop_depth position ids bindings'

unfoldable pub release_expired_loans : (loop_depth position : ℕ) → FlowState → Option FlowState
unfolding release_expired
release_expired_loans loop_depth position st = do
  bindings ← release_expired loop_depth position (in_scope st) st.bindings
  some (record st { bindings = bindings })

-- The binding that a chain of references leads to. The loop runs on fuel; `none` is also the
-- answer where the fuel runs out.
unfoldable pub root_origin_loop : (fuel : ℕ) → List Binding → ℕ → Option ℕ
root_origin_loop zero bindings id = none
root_origin_loop (suc fuel) bindings id = do
  b ← get_elem? bindings id
  elim (b.reference_loan) [
    | none ↦ some id
    | some loan ↦
        let rest = root_origin_loop fuel bindings (loan.owner) in
        if is_guard (canonical_ref b.ty) then some id else rest
  ]

-- Owners are declared before what borrows from them, so a chain from `id` has at most `id + 1`
-- bindings.
unfoldable pub root_origin : List Binding → ℕ → Option ℕ
unfolding root_origin_loop
root_origin bindings id = root_origin_loop (suc id) bindings id

unfoldable pub merge_availability : Availability → Availability → Availability
merge_availability available available = available
merge_availability (moved left) (moved _) = moved left
merge_availability (maybe_moved span) _ = maybe_moved span
merge_availability available (maybe_moved span) = maybe_moved span
merge_availability (moved _) (maybe_moved span) = maybe_moved span
merge_availability (moved span) available = maybe_moved span
merge_availability available (moved span) = maybe_moved span

-- The loop of `merge_states` over the ids in scope at the baseline.
unfoldable pub merge_ids :
    List ℕ → (left right : List Binding) → (merged : List Binding) → Option (List Binding)
unfolding merge_availability
merge_ids [] left right merged = some merged
merge_ids (id ∷ ids) left right merged = do
  l ← get_elem? left id
  r ← get_elem? right id
  m ← get_elem? merged id
  let availability = merge_availability l.availability r.availability
  merge_ids ids left right (modify merged id (λ b. record b { availability = availability }))

unfoldable pub merge_states : (baseline left right : FlowState) → Option FlowState
unfolding merge_ids
merge_states baseline left right = do
  bindings ← merge_ids (in_scope baseline) left.bindings right.bindings baseline.bindings
  some (record baseline { bindings = bindings })

unfoldable pub merge_from : (baseline merged : FlowState) → List FlowState → Option FlowState
unfolding merge_states
merge_from baseline merged [] = some merged
merge_from baseline merged (state ∷ states) =
    merge_states baseline merged state >>= λ merged'. merge_from baseline merged' states

unfoldable pub merge_many_states : FlowState → List FlowState → Option FlowState
unfolding merge_from
merge_many_states baseline [] = some baseline
merge_many_states baseline (first ∷ remaining) = merge_from baseline first remaining
