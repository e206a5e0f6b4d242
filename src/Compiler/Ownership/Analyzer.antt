-- ===== src/Compiler/Ownership/Analyzer.antt =====
-- The checks of `Analyzer` in crates/stainless-compiler/src/ownership.rs: whether a binding may
-- be used, moved or borrowed, and which diagnostics that gives. `none` is a panic, as in State.
use stainless.Base.{
  ℕ, leb, ◌==◌, if◌then◌else◌, String, Bool, true, false, not, ◌&&◌, ◌||◌, Option, none, some, List,
  [], ◌∷◌, ◌++◌, get_elem?, modify, ◌>>=◌,
}
use stainless.Compiler.Diagnostic.{Span, Diagnostic, ownership_error}
use stainless.Compiler.Ownership.State.{
  Availability, available, moved, maybe_moved, Loan, Binding, FlowState, lent, root_origin,
  end_reference_loan,
}
use text.Mathlib.Text.{◌==◌ as str_eq}

pub data Usage : Type 0 where
  read mutate borrow_shared borrow_mutable : Usage

-- One constructor for each format string, with its arguments.
pub data Message : Type 0 where
  use_of_moved : (name : String) → (start : ℕ) → Message
  may_have_been_moved : (name : String) → (start : ℕ) → Message
  conflicting_borrow : (action name : String) → Message
  unstable_source : Message
  no_single_reference_parameter : Message
  not_from_declared_borrow : Message
  not_from_reference_parameter : Message

-- The fields of `Analyzer` that these checks use; `emitted` is a set of pairs.
pub record Analyzer : Type 0 where
  pub state : FlowState
  pub diagnostics : List (Diagnostic Message)
  pub emitted : List (String × Span)
  pub return_borrow : Option ℕ
  pub loop_depth : ℕ

abbrev pub span_eq : Span → Span → Bool
span_eq a b = a.start == b.start && a.end == b.end

unfoldable pub was_emitted : String → Span → List (String × Span) → Bool
was_emitted code span [] = false
was_emitted code span ((c, s) ∷ emitted) =
    str_eq c code && span_eq s span || was_emitted code span emitted

unfoldable pub push : String → Message → Span → Analyzer → Analyzer
unfolding was_emitted
push code message span a = if was_emitted code span a.emitted then a else record a {
  emitted = (code, span) ∷ a.emitted;
  diagnostics = a.diagnostics ++ ownership_error code message span ∷ [];
}

abbrev pub set_bindings : List Binding → Analyzer → Analyzer
set_bindings bindings a = record a { state = record (a.state) { bindings = bindings } }

abbrev pub conflicts : Usage → Binding → Bool
conflicts read b = b.mutably_borrowed
conflicts borrow_shared b = b.mutably_borrowed
conflicts mutate b = b.mutably_borrowed || not (b.shared_borrows == 0)
conflicts borrow_mutable b = b.mutably_borrowed || not (b.shared_borrows == 0)

abbrev pub action : Usage → String
action read = "read"
action mutate = "mutate"
action borrow_shared = "borrow"
action borrow_mutable = "mutably borrow"

unfoldable pub check_borrow_conflict : ℕ → Usage → Span → Analyzer → Option (Analyzer × Bool)
unfolding push
check_borrow_conflict id usage span a = do
  b ← get_elem? a.state.bindings id
  if conflicts usage b
      then some (push "OWN003" (conflicting_borrow (action usage) b.name) span a, false)
      else some (a, true)

unfoldable pub check_usage : ℕ → Usage → Span → Analyzer → Option Analyzer
check_usage id usage span a = do
  b ← get_elem? a.state.bindings id
  elim (b.availability) [
    | available ↦ check_borrow_conflict id usage span a >>= λ r. some (r.0)
    | moved s ↦ some (push "OWN001" (use_of_moved b.name s.start) span a)
    | maybe_moved s ↦ some (push "OWN002" (may_have_been_moved b.name s.start) span a)
  ]

abbrev pub is_available : Availability → Bool
is_available available = true
is_available (moved _) = false
is_available (maybe_moved _) = false

unfoldable pub mark_moved : ℕ → Span → Analyzer → Option Analyzer
mark_moved id span a = do
  checked ← check_usage id mutate span a
  b ← get_elem? checked.state.bindings id
  some (
      if is_available b.availability && not b.mutably_borrowed && b.shared_borrows == 0
      then set_bindings
          (modify checked.state.bindings id (λ c. record c { availability = moved span })) checked
      else checked)

abbrev pub borrow_usage : Bool → Usage
borrow_usage mutable = if mutable then borrow_mutable else borrow_shared

-- The common end of both `acquire_*_loan` functions.
unfoldable pub take_loan : ℕ → Bool → Span → Analyzer → Option (Analyzer × Option Loan)
take_loan owner mutable span a = do
  (checked, free) ← check_borrow_conflict owner (borrow_usage mutable) span a
  b ← get_elem? checked.state.bindings owner
  some (
      if free
      then (
        set_bindings (modify checked.state.bindings owner (lent mutable)) checked,
        some (record { owner = owner; mutable = mutable }),
      )
      else (checked, none))

abbrev pub ends_within : Span → Option Span → Bool
ends_within span none = false
ends_within span (some last_use) =
    leb (span.start) (last_use.start) && leb (last_use.end) (span.end)

unfoldable pub acquire_persistent_loan :
    Option ℕ → Bool → Span → Analyzer → Option (Analyzer × Option Loan)
acquire_persistent_loan none mutable span a = some (push "OWN004" unstable_source span a, none)
acquire_persistent_loan (some origin) mutable span a = do
  owner ← root_origin a.state.bindings origin
  b ← get_elem? a.state.bindings origin
  bindings ←
      if b.reference_loan_active && ends_within span b.last_use
      then end_reference_loan origin a.state.bindings
      else some a.state.bindings
  take_loan owner mutable span (set_bindings bindings a)

unfoldable pub acquire_temporary_loan :
    Option ℕ → Bool → Span → Analyzer → Option (Analyzer × Option Loan)
acquire_temporary_loan none mutable span a = some (a, none)
acquire_temporary_loan (some owner) mutable span a = take_loan owner mutable span a

unfoldable pub validate_reference_return : Option ℕ → Span → Analyzer → Option Analyzer
unfolding push root_origin
validate_reference_return origin span a = elim (a.return_borrow) [
  | none ↦ some (push "OWN005" no_single_reference_parameter span a)
  | some expected ↦ elim origin [
    | none ↦ some (push "OWN005" not_from_declared_borrow span a)
    | some id ↦ root_origin a.state.bindings id >>= λ found.
        root_origin a.state.bindings expected >>= λ root.
        some (if found == root then a else push "OWN005" not_from_reference_parameter span a)
  ]
]
