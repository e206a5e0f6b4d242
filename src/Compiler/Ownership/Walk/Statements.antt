-- ===== src/Compiler/Ownership/Walk/Statements.antt =====
-- The walk of crates/stainless-compiler/src/ownership.rs over statements: branches, loops, which
-- are walked twice, and `try`. A walk says whether the end of its statement is reachable.
use stainless.Base.{
  ℕ, if◌then◌else◌, String, Bool, true, false, not, ◌&&◌, ◌||◌, Option, none, some, List, [], ◌∷◌,
  length, get_elem?, ◌>>=◌, is_some,
}
use stainless.Compiler.Diagnostic.{Span}
use stainless.Compiler.Types.{TypeRef, is_reference, is_copyable, is_guard, canonical_ref}
use stainless.Compiler.Syntax.Statements.{
  OptionalExpression, absent, present, braced, Statements, no_statement, and_statement, Statement,
  statement, OptionalStatement, no_else, else_statement, StatementKind, block, local, return, throw,
  try_statement, if_statement, while_statement, for_statement, break, continue,
  expression_statement, empty, malformed, CatchClauses, no_catch, and_catch, CatchClause,
  CatchBinding, catch_all, catch, LocalDeclaration, local_declaration, ForClause, range, classic,
  malformed_clause, OptionalForInitializer, no_initializer, local_initializer,
  expression_initializer,
}
use stainless.Compiler.Resolution.Calls.{ResolvedCall, call_throws}
use stainless.Compiler.Resolution.Model.{
  SemanticModel, BindingResolution, binding, rust_result_adaptation, call,
}
use stainless.Compiler.Ownership.State.{FlowState, Loan, merge_states, merge_many_states}
use stainless.Compiler.Ownership.Analyzer.{Usage, read, validate_reference_return}
use stainless.Compiler.Ownership.Walk.{
  Walker, ExceptionContext, LastUses, state_of, set_state, on_analyzer, enter_scope, leave_scope,
  move_binding, lend, expire, declare_local, capture_exception_state, capture_exception_if,
  capture_loop_exit,
}
use stainless.Compiler.Ownership.Walk.Arguments.{Walked, borrow_of, is_mutable_reference}
use stainless.Compiler.Ownership.Walk.Receivers.{has_throws}
use stainless.Compiler.Ownership.Walk.Expressions.{walked}
use stainless.Compiler.Ownership.Walk.Loops.{
  Run, enter_loop, leave_loop, while_walk, classic_walk, range_walk,
}

-- `mem::replace(&mut self.state, saved)` at the end of a branch.
abbrev pub restore : FlowState → Walker → Bool → Walker × (FlowState × Bool)
restore saved w reachable = (set_state saved w, (state_of w, reachable))

abbrev pub Branch : Type 0
Branch = FlowState → Walker → Option (Walker × (FlowState × Bool))

-- `analyze_branch`
unfoldable pub branch : Run → (end : ℕ) → Branch
branch run end st w = do
  (ran, reachable) ← run (enter_scope (set_state st w))
  expired ← expire end ran
  left ← leave_scope expired
  some (restore (state_of w) left reachable)

unfoldable pub declare_option : LastUses → Option BindingResolution → Walker → Option Walker
declare_option last_uses none w = some w
declare_option last_uses (some b) w =
    declare_local last_uses b.name b.ty none b.span w >>= λ r. some r.0

-- `analyze_block_branch`
unfoldable pub block_branch : LastUses → Option BindingResolution → Run → Branch
block_branch last_uses binding run st w = do
  declared ← declare_option last_uses binding (enter_scope (set_state st w))
  (ran, reachable) ← run declared
  left ← leave_scope ran
  some (restore (state_of w) left reachable)

unfoldable pub join_branches :
    (baseline : FlowState)
    → (then_branch else_branch : FlowState × Bool) → Walker
    → Option (Walker × Bool)
join_branches baseline (one, true) (other, true) w =
    merge_states baseline one other >>= λ merged. some (set_state merged w, true)
join_branches baseline (one, true) (other, false) w = some (set_state one w, true)
join_branches baseline (one, false) (other, true) w = some (set_state other w, true)
join_branches baseline (one, false) (other, false) w = some (set_state baseline w, false)

unfoldable pub else_walk : Option Branch → Branch
else_walk none st w = some (w, (st, true))
else_walk (some b) st w = b st w

-- `if_statement`
unfoldable pub if_walk : Branch → Option Branch → Run
if_walk then_branch else_branch w = do
  let baseline = state_of w
  (first, one) ← then_branch baseline w
  (second, other) ← else_walk else_branch baseline first
  join_branches baseline one other second

-- The states after the handlers whose ends are reachable.
unfoldable pub each_handler : List Branch → FlowState → Walker → Option (Walker × List FlowState)
each_handler [] baseline w = some (w, [])
each_handler (handler ∷ handlers) baseline w = do
  (walked, (st, reachable)) ← handler baseline w
  (done, states) ← each_handler handlers baseline walked
  some (done, (if reachable then st ∷ states else states))

unfoldable pub pop_exception_in : List ExceptionContext → Walker → Option (Walker × List FlowState)
pop_exception_in [] w = none
pop_exception_in (context ∷ contexts) w = some (record w { exceptions = contexts }, context.states)

-- `self.exceptions.pop()`
abbrev pub pop_exception_states : Walker → Option (Walker × List FlowState)
pop_exception_states w = pop_exception_in w.exceptions w

abbrev pub push_exception : Walker → Walker
push_exception w =
    let context : ExceptionContext = record {
      scope_depth = length (state_of w).scopes;
      states = [];
    } in
    record w { exceptions = context ∷ w.exceptions }

unfoldable pub join_continuing : FlowState → List FlowState → Run
join_continuing baseline [] w = some (set_state baseline w, false)
join_continuing baseline (st ∷ states) w =
    merge_many_states baseline (st ∷ states) >>= λ merged. some (set_state merged w, true)

abbrev pub reachable_first : FlowState × Bool → List FlowState → List FlowState
reachable_first (st, true) states = st ∷ states
reachable_first (st, false) states = states

unfoldable pub try_walk : LastUses → Run → List Branch → Run
try_walk last_uses body handlers w = do
  let baseline = state_of w
  (tried, outcome) ← block_branch last_uses none body baseline (push_exception w)
  (popped, states) ← pop_exception_states tried
  catch_baseline ← merge_many_states baseline states
  (handled, continuing) ← each_handler handlers catch_baseline popped
  join_continuing baseline (reachable_first outcome continuing) handled

-- A block: its statements, in a scope of their own or in the one at hand.
unfoldable pub scoped : Run → Run
scoped run w = do
  (ran, reachable) ← run (enter_scope w)
  left ← leave_scope ran
  some (left, reachable)

unfoldable pub followed_by : Run → (end : ℕ) → Run → Run
followed_by run end rest w = do
  (ran, reachable) ← run w
  expired ← expire end ran
  if reachable then rest expired else some (expired, false)

abbrev pub reaching : Option Walker → Option (Walker × Bool)
reaching walked = walked >>= λ w. some (w, true)

abbrev pub stopping : Option Walker → Option (Walker × Bool)
stopping walked = walked >>= λ w. some (w, false)

unfoldable pub throw_walk : Option Walked → Walker → Option Walker
throw_walk none w = capture_exception_state w
throw_walk (some value) w = value.walk read w >>= λ r. capture_exception_state r.0

unfoldable pub validate_return_if : Bool → Option ℕ → Span → Walker → Option Walker
validate_return_if false origin span w = some w
validate_return_if true origin span w = on_analyzer (validate_reference_return origin span) w

unfoldable pub return_value : Walked → Walker → Option Walker
return_value value w = do
  (walked, origin) ← value.walk read w
  validate_return_if walked.returns_reference origin value.span walked

-- A named binding that is returned by value moves.
unfoldable pub return_named : Option ℕ → Walked → Walker → Option Walker
return_named none value w = return_value value w
return_named (some id) value w = do
  b ← get_elem? (state_of w).bindings id
  if not (is_reference b.ty) && not (is_copyable b.ty)
      then move_binding id value.span w
      else return_value value w

unfoldable pub return_walk : Option Walked → Walker → Option Walker
return_walk none w = some w
return_walk (some value) w =
    if w.returns_reference
    then return_value value w
    else return_named (value.named (state_of w)) value w

unfoldable pub initialize_reference :
    (mutable : Bool) → Option Walked → Walker → Option (Walker × Option Loan)
initialize_reference mutable none w = some (w, none)
initialize_reference mutable (some initializer) w = do
  (walked, origin) ← initializer.walk (borrow_of mutable) w
  lend origin mutable initializer.span walked

abbrev pub call_may_throw : Option ResolvedCall → Bool
call_may_throw none = false
call_may_throw (some c) = has_throws (call_throws c)

module _ (semantics : SemanticModel) (last_uses : LastUses) where
  unfoldable pub initialize_value : Span → Option Walked → Walker → Option Walker
  initialize_value span none w = capture_exception_if (call_may_throw (call semantics span)) w
  initialize_value span (some initializer) w = do
    (walked, _) ← initializer.walk read w
    capture_exception_if (is_some (rust_result_adaptation semantics initializer.span)) walked

  abbrev pub holds_loan : TypeRef → Bool
  holds_loan ty = is_reference ty || is_guard (canonical_ref ty)

  unfoldable pub initialize_local :
      TypeRef → Span → Option Walked → Walker → Option (Walker × Option Loan)
  initialize_local ty span initializer w =
      if holds_loan ty
      then initialize_reference (is_mutable_reference ty) initializer w
      else (initialize_value span initializer w >>= λ w'. some (w', none))

  unfoldable pub declare_resolved :
      Option BindingResolution → String → Span → Option Walked → Walker → Option Walker
  declare_resolved none name span initializer w = some w
  declare_resolved (some b) name span initializer w = do
    (initialized, loan) ← initialize_local b.ty span initializer w
    (declared, _) ← declare_local last_uses name b.ty loan span initialized
    some declared

  abbrev pub walked_option : OptionalExpression → Option Walked
  walked_option absent = none
  walked_option (present e) = some (walked semantics e)

  unfoldable pub local_walk : LocalDeclaration → Walker → Option Walker
  local_walk (local_declaration _ name initializer span) w =
      declare_resolved (binding semantics span) name span (walked_option initializer) w

  unfoldable pub initializer_walk : OptionalForInitializer → Walker → Option Walker
  initializer_walk no_initializer w = some w
  initializer_walk (local_initializer declaration) w = local_walk declaration w
  initializer_walk (expression_initializer e) w = (walked semantics e).walk read w >>= λ r. some r.0

  abbrev pub walk_of : Option Walked → Option (Usage → Walker → Option (Walker × Option ℕ))
  walk_of none = none
  walk_of (some e) = some e.walk

  unfoldable pub clause_walk : ForClause → Run → Walker → Option Walker
  clause_walk (classic initializer condition update) run w = do
    initialized ← initializer_walk initializer w
    classic_walk (walk_of (walked_option condition)) (walk_of (walked_option update)) run
        initialized
  clause_walk (range _ bindings iterable) run w =
      range_walk semantics last_uses bindings (walked semantics iterable) run w
  clause_walk malformed_clause run w = some w

  -- `for_statement`
  unfoldable pub for_walk : ForClause → Run → (body_end : ℕ) → Walker → Option Walker
  for_walk clause run body_end w = do
    looped ← clause_walk clause run (enter_loop w)
    leave_loop body_end looped

  abbrev pub catch_binding : Option CatchBinding → Option BindingResolution
  catch_binding none = none
  catch_binding (some b) = binding semantics b.span

  abbrev pub end_of : Statement → ℕ
  end_of (statement _ span) = span.end

  unfoldable mutual
    pub statement_walk : Statement → Run
    statement_walk (statement kind span) = kind_walk kind

    pub kind_walk : StatementKind → Run
    kind_walk (block (braced statements _)) = scoped (statements_walk statements)
    kind_walk (local declaration) = λ w. reaching (local_walk declaration w)
    kind_walk (return value) = λ w. stopping (return_walk (walked_option value) w)
    kind_walk (throw value) = λ w. stopping (throw_walk (walked_option value) w)
    kind_walk (try_statement (braced statements _) catches) =
        try_walk last_uses (statements_walk statements) (handler_walks catches)
    kind_walk (if_statement condition then_branch else_branch) =
        let then_walk = branch (statement_walk then_branch) (end_of then_branch) in
        let other_walk = else_branch_walk else_branch in
        λ w. ((walked semantics condition).walk read w >>= λ r. if_walk then_walk other_walk r.0)
    kind_walk (while_statement condition body) =
        let run = statement_walk body in
        λ w. reaching (while_walk (walked semantics condition).walk run (end_of body) w)
    kind_walk (for_statement clause body) =
        let run = statement_walk body in λ w. reaching (for_walk clause run (end_of body) w)
    kind_walk break = λ w. stopping (capture_loop_exit false w)
    kind_walk continue = λ w. stopping (capture_loop_exit true w)
    kind_walk (expression_statement e) =
        λ w. reaching ((walked semantics e).walk read w >>= λ r. some r.0)
    kind_walk empty = λ w. some (w, true)
    kind_walk malformed = λ w. some (w, true)

    pub statements_walk : Statements → Run
    statements_walk no_statement = λ w. some (w, true)
    statements_walk (and_statement s rest) =
        followed_by (statement_walk s) (end_of s) (statements_walk rest)

    pub else_branch_walk : OptionalStatement → Option Branch
    else_branch_walk no_else = none
    else_branch_walk (else_statement s) = some (branch (statement_walk s) (end_of s))

    pub handler_walks : CatchClauses → List Branch
    handler_walks no_catch = []
    handler_walks (and_catch c rest) = handler_walk c ∷ handler_walks rest

    pub handler_walk : CatchClause → Branch
    handler_walk (catch b (braced statements _) _) =
        block_branch last_uses (catch_binding (some b)) (statements_walk statements)
    handler_walk (catch_all (braced statements _) _) =
        block_branch last_uses none (statements_walk statements)
