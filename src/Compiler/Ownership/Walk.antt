-- ===== src/Compiler/Ownership/Walk.antt =====
-- The walk of `Analyzer` over a file in crates/stainless-compiler/src/ownership.rs. A walker is an
-- analyzer with the contexts of the walk; the innermost loop and the innermost `try` come first.
-- Arguments has the arguments of calls, Calls the calls themselves, Expressions, Statements and
-- Items the walks.
pub mod Arguments
pub mod Receivers
pub mod Calls
mod Examples
pub mod Expressions
pub mod Statements
pub mod Items
pub mod Loops
use stainless.Base.{
  ℕ, ltb, if◌then◌else◌, String, Bool, Option, none, some, List, [], ◌∷◌, ◌++◌, length, get_elem?,
  modify, ◌>>=◌,
}
use stainless.Compiler.Diagnostic.{Span}
use stainless.Compiler.Types.{TypeRef, is_reference}
use stainless.Compiler.Resolution.Model.{span_eq, find}
use stainless.Compiler.Ownership.State.{
  available, Loan, FlowState, push_scope, pop_scope, declare, release, release_expired_loans,
}
use stainless.Compiler.Ownership.Analyzer.{
  Usage, mutate, Analyzer, set_bindings, check_usage, check_borrow_conflict, mark_moved,
  acquire_persistent_loan, acquire_temporary_loan,
}

pub record LoopContext : Type 0 where
  pub scope_depth : ℕ
  pub break_states : List FlowState
  pub continue_states : List FlowState

pub record ExceptionContext : Type 0 where
  pub scope_depth : ℕ
  pub states : List FlowState

pub record Walker : Type 0 where
  pub analyzer : Analyzer
  pub receiver_binding : Option ℕ
  pub returns_reference : Bool
  pub loops : List LoopContext
  pub exceptions : List ExceptionContext

-- The spans of the last uses, by the span of the declaration.
abbrev pub LastUses : Type 0
LastUses = List (Span × Span)

abbrev pub last_use_of : LastUses → Span → Option Span
last_use_of last_uses span = elim (find (λ (entry : Span × Span). span_eq entry.0 span) last_uses) [
  | none ↦ none
  | some entry ↦ some entry.1
]

abbrev pub state_of : Walker → FlowState
state_of w = w.analyzer.state

abbrev pub set_analyzer : Walker → Analyzer → Walker
set_analyzer w a = record w { analyzer = a }

abbrev pub set_state : FlowState → Walker → Walker
set_state st w = record w { analyzer = record w.analyzer { state = st } }

-- The operations of the analyzer, on a walker.
abbrev pub on_analyzer : (Analyzer → Option Analyzer) → Walker → Option Walker
on_analyzer f w = f w.analyzer >>= λ a. some (set_analyzer w a)

abbrev pub enter_scope : Walker → Walker
enter_scope w = set_state (push_scope (state_of w)) w

unfoldable pub leave_scope : Walker → Option Walker
leave_scope w = pop_scope (state_of w) >>= λ st. some (set_state st w)

unfoldable pub use_binding : ℕ → Usage → Span → Walker → Option Walker
use_binding id usage span w = on_analyzer (check_usage id usage span) w

unfoldable pub move_binding : ℕ → Span → Walker → Option Walker
move_binding id span w = on_analyzer (mark_moved id span) w

unfoldable pub lend_temporarily :
    Option ℕ → (mutable : Bool) → Span → Walker → Option (Walker × Option Loan)
lend_temporarily origin mutable span w = do
  (a, loan) ← acquire_temporary_loan origin mutable span w.analyzer
  some (set_analyzer w a, loan)

unfoldable pub lend : Option ℕ → (mutable : Bool) → Span → Walker → Option (Walker × Option Loan)
lend origin mutable span w = do
  (a, loan) ← acquire_persistent_loan origin mutable span w.analyzer
  some (set_analyzer w a, loan)

unfoldable pub give_back : Loan → Walker → Option Walker
give_back loan w = do
  bindings ← release loan (state_of w).bindings
  some (set_analyzer w (set_bindings bindings w.analyzer))

-- `if let Some(loan) = loan { self.state.release(loan) }`
unfoldable pub give_back_option : Option Loan → Walker → Option Walker
give_back_option none w = some w
give_back_option (some loan) w = give_back loan w

-- Releases the loans, the newest first, as they are listed.
unfoldable pub give_back_all : List Loan → Walker → Option Walker
give_back_all [] w = some w
give_back_all (loan ∷ loans) w = give_back loan w >>= λ w'. give_back_all loans w'

unfoldable pub expire : (position : ℕ) → Walker → Option Walker
expire position w = do
  st ← release_expired_loans w.analyzer.loop_depth position (state_of w)
  some (set_state st w)

unfoldable pub declare_local :
    LastUses → String → TypeRef → Option Loan → Span → Walker → Option (Walker × ℕ)
declare_local last_uses name ty loan span w = do
  (st, id) ←
      declare name ty loan span (last_use_of last_uses span) w.analyzer.loop_depth (state_of w)
  some (set_state st w, id)

-- `while state.scopes.len() > scope_depth { state.pop_scope(); }`; the first argument is
-- `state.scopes`, of which `pop_scope` drops the first.
unfoldable pub pop_scopes_to : List (List (String × ℕ)) → ℕ → FlowState → Option FlowState
pop_scopes_to [] depth st = some st
pop_scopes_to (scope ∷ scopes) depth st =
    if ltb depth (length (scope ∷ scopes))
    then (pop_scope st >>= λ st'. pop_scopes_to scopes depth st')
    else some st

unfoldable pub capture_in : FlowState → List ExceptionContext → Option (List ExceptionContext)
capture_in st [] = some []
capture_in st (context ∷ contexts) = do
  captured ← pop_scopes_to st.scopes context.scope_depth st
  rest ← capture_in st contexts
  some (record context { states = context.states ++ captured ∷ [] } ∷ rest)

unfoldable pub capture_exception_state : Walker → Option Walker
capture_exception_state w = do
  exceptions ← capture_in (state_of w) w.exceptions
  some (record w { exceptions = exceptions })

unfoldable pub capture_exception_if : Bool → Walker → Option Walker
capture_exception_if throws w = if throws then capture_exception_state w else some w

abbrev pub capture_into : Bool → FlowState → LoopContext → LoopContext
capture_into is_continue st context =
    if is_continue
    then record context { continue_states = context.continue_states ++ st ∷ [] }
    else record context { break_states = context.break_states ++ st ∷ [] }

unfoldable pub capture_loop_exit_in : Bool → List LoopContext → Walker → Option Walker
capture_loop_exit_in is_continue [] w = some w
capture_loop_exit_in is_continue (context ∷ contexts) w = do
  st ← pop_scopes_to (state_of w).scopes context.scope_depth (state_of w)
  some (record w { loops = capture_into is_continue st context ∷ contexts })

unfoldable pub capture_loop_exit : (is_continue : Bool) → Walker → Option Walker
capture_loop_exit is_continue w = capture_loop_exit_in is_continue w.loops w

-- The common part of `write`: a name that stands for a binding is written whole.
unfoldable pub write_binding : ℕ → Span → Walker → Option Walker
write_binding id span w = do
  b ← get_elem? (state_of w).bindings id
  if is_reference b.ty
      then use_binding id mutate span w
      else (check_borrow_conflict id mutate span w.analyzer >>= λ r. some (
          set_analyzer w (
            if r.1
            then set_bindings
                (modify r.0.state.bindings id (λ c. record c { availability = available })) r.0
            else r.0)))
