-- ===== src/Compiler/Ownership/Balance/Statements.antt =====
-- Every statement's walk ends in a sound walker: branches, loops, handlers and jumps included.
use stainless.Base.{
  ℕ, not, ◌&&◌, String, Bool, true, false, Option, none, some, All, ◌>>=◌, >>=-eq-some, get_elem?,
  is_some,
}
use stainless.Compiler.Diagnostic.{Span}
use stainless.Compiler.Types.{TypeRef, is_reference, is_copyable}
use stainless.Compiler.Syntax.Statements.{
  OptionalExpression, absent, present, braced, Statements, no_statement, and_statement, Statement,
  statement, OptionalStatement, no_else, else_statement, StatementKind, block, local, return, throw,
  try_statement, if_statement, while_statement, for_statement, break, continue,
  expression_statement, empty, malformed, CatchClauses, no_catch, and_catch, CatchClause, catch_all,
  catch, LocalDeclaration, local_declaration, ForClause, range, classic, malformed_clause,
  OptionalForInitializer, no_initializer, local_initializer, expression_initializer,
}
use stainless.Compiler.Resolution.Model.{
  SemanticModel, BindingResolution, binding, rust_result_adaptation, call,
}
use stainless.Compiler.Ownership.Analyzer.{read}
use stainless.Compiler.Ownership.Walk.{Walker, LastUses, state_of, declare_local, capture_loop_exit}
use stainless.Compiler.Ownership.Walk.Arguments.{Walked, borrow_of, is_mutable_reference}
use stainless.Compiler.Ownership.Walk.Expressions.{walked}
use stainless.Compiler.Ownership.Walk.Loops.{Run, enter_loop}
use stainless.Compiler.Ownership.Walk.Statements.{
  throw_walk, return_value, return_named, return_walk, initialize_reference, call_may_throw,
  initialize_value, holds_loan, initialize_local, declare_resolved, walked_option, local_walk,
  initializer_walk, walk_of, clause_walk, for_walk, catch_binding, end_of, statement_walk,
  kind_walk, statements_walk, else_branch_walk, handler_walks, handler_walk,
}
use stainless.Compiler.Ownership.Balance.{Held, deeper, IsSound, some-Kept, bind-Kept, if_Kept}
use stainless.Compiler.Ownership.Balance.Operations.{
  Lent, move_binding-Keeps, lend-Lent, declare_local-KeepsWith,
}
use stainless.Compiler.Ownership.Balance.Captures.{
  capture_exception_state-Keeps, capture_exception_if-Keeps, capture_loop_exit-Keeps,
  validate_return_if-Keeps,
}
use stainless.Compiler.Ownership.Balance.Arguments.{WriteKeeps, WalkedKeeps}
use stainless.Compiler.Ownership.Balance.Receivers.{OptionKeeps, drop-Kept, with-Kept}
use stainless.Compiler.Ownership.Balance.Expressions.{walked-Keeps}
use stainless.Compiler.Ownership.Balance.Loops.{
  enter_loop-IsSound, leave_loop-Keeps, while_walk-Keeps, classic_walk-Keeps, range_walk-Keeps,
}
use stainless.Compiler.Ownership.Balance.Ends.{
  some-Ends, bind-Ends, Kept-Ends, RunKeeps, OptionWalkKeeps,
}
use stainless.Compiler.Ownership.Balance.Branches.{
  BranchKeeps, OptionBranchKeeps, branch-Keeps, block_branch-Keeps, if_walk-Keeps, try_walk-Keeps,
  scoped-Keeps, followed_by-Keeps,
}

pub throw_walk-Keeps : (value : Option Walked) → OptionKeeps value → WriteKeeps (throw_walk value)
unfolding throw_walk
throw_walk-Keeps none k w held s = capture_exception_state-Keeps w s
throw_walk-Keeps (some value) k w held s =
    bind-Kept (value.walk read w) _ (k.walks read w held s)
      (λ r s'. capture_exception_state-Keeps r.0 s')

return_value-Keeps : (value : Walked) → WalkedKeeps value → WriteKeeps (return_value value)
unfolding return_value
return_value-Keeps value k w held s =
    bind-Kept (value.walk read w) _ (k.walks read w held s)
      (λ r s'. validate_return_if-Keeps r.0.returns_reference r.1 value.span r.0 s')

return_named-Keeps :
    (id : Option ℕ) (value : Walked) → WalkedKeeps value → WriteKeeps (return_named id value)
unfolding return_named
return_named-Keeps none value k w held s = return_value-Keeps value k w held s
return_named-Keeps (some id) value k w held s = record {
  kept = λ w' e.
      let (b, _, h) = >>=-eq-some (get_elem? (state_of w).bindings id) _ e in
      (if_Kept (not (is_reference b.ty) && not (is_copyable b.ty)) _ _
          (move_binding-Keeps id value.span w s) (return_value-Keeps value k w held s)).kept
        w' h;
}

pub return_walk-Keeps : (value : Option Walked) → OptionKeeps value → WriteKeeps (return_walk value)
unfolding return_walk
return_walk-Keeps none k w held s = some-Kept w s
return_walk-Keeps (some value) k w held s =
    if_Kept w.returns_reference _ _ (return_value-Keeps value k w held s)
      (return_named-Keeps (value.named (state_of w)) value k w held s)

initialize_reference-Lent :
    (mutable : Bool) (initializer : Option Walked)
    → OptionKeeps initializer
    → (w : Walker) (held : Held) → IsSound w held
    → Lent held (initialize_reference mutable initializer w)
unfolding initialize_reference
initialize_reference-Lent mutable none k w held s = some-Kept (w, none) s
initialize_reference-Lent mutable (some i) k w held s =
    bind-Kept (i.walk (borrow_of mutable) w) _ (k.walks (borrow_of mutable) w held s)
      (λ r s'. lend-Lent r.1 mutable i.span r.0 s')

module _ (semantics : SemanticModel) (last_uses : LastUses) where
  initialize_value-Keeps :
      (span : Span) (initializer : Option Walked)
      → OptionKeeps initializer
      → WriteKeeps (initialize_value semantics last_uses span initializer)
  unfolding initialize_value
  initialize_value-Keeps span none k w held s =
      capture_exception_if-Keeps (call_may_throw (call semantics span)) w s
  initialize_value-Keeps span (some i) k w held s =
      bind-Kept (i.walk read w) _ (k.walks read w held s) (λ r s'.
        capture_exception_if-Keeps (is_some (rust_result_adaptation semantics i.span)) r.0 s')

  initialize_local-Lent :
      (ty : TypeRef) (span : Span) (initializer : Option Walked)
      → OptionKeeps initializer
      → (w : Walker) (held : Held) → IsSound w held
      → Lent held (initialize_local semantics last_uses ty span initializer w)
  unfolding initialize_local
  initialize_local-Lent ty span initializer k w held s =
      if_Kept (holds_loan semantics last_uses ty) _ _
        (initialize_reference-Lent (is_mutable_reference ty) initializer k w held s)
        (bind-Kept (initialize_value semantics last_uses span initializer w) _
          (initialize_value-Keeps span initializer k w held s) (λ v s'. some-Kept (v, none) s'))

  declare_resolved-Keeps :
      (b : Option BindingResolution) (name : String) (span : Span) (initializer : Option Walked)
      → OptionKeeps initializer
      → WriteKeeps (declare_resolved semantics last_uses b name span initializer)
  unfolding declare_resolved
  declare_resolved-Keeps none name span initializer k w held s = some-Kept w s
  declare_resolved-Keeps (some b) name span initializer k w held s =
      bind-Kept (initialize_local semantics last_uses b.ty span initializer w) _
        (initialize_local-Lent b.ty span initializer k w held s)
        (λ r s'.
          drop-Kept (declare_local last_uses name b.ty r.1 span r.0)
            (declare_local-KeepsWith last_uses name b.ty r.1 span r.0 s'))

  pub walked_option-Keeps :
      (e : OptionalExpression) → OptionKeeps (walked_option semantics last_uses e)
  walked_option-Keeps absent = tt
  walked_option-Keeps (present e) = walked-Keeps semantics e

  walk_of-Keeps :
      (e : Option Walked) → OptionKeeps e → OptionWalkKeeps (walk_of semantics last_uses e)
  walk_of-Keeps none k = tt
  walk_of-Keeps (some e) k = k.walks

  pub local_walk-Keeps :
      (declaration : LocalDeclaration) → WriteKeeps (local_walk semantics last_uses declaration)
  unfolding local_walk
  local_walk-Keeps (local_declaration _ name initializer span) w held s =
      declare_resolved-Keeps (binding semantics span) name span
        (walked_option semantics last_uses initializer) (walked_option-Keeps initializer) w held s

  pub read-Keeps : (e : Walked) → WalkedKeeps e → WriteKeeps (λ w. e.walk read w >>= λ r. some r.0)
  read-Keeps e k w held s = drop-Kept (e.walk read w) (k.walks read w held s)

  initializer_walk-Keeps :
      (initializer : OptionalForInitializer)
      → WriteKeeps (initializer_walk semantics last_uses initializer)
  unfolding initializer_walk
  initializer_walk-Keeps no_initializer w held s = some-Kept w s
  initializer_walk-Keeps (local_initializer declaration) w held s =
      local_walk-Keeps declaration w held s
  initializer_walk-Keeps (expression_initializer e) w held s =
      read-Keeps (walked semantics e) (walked-Keeps semantics e) w held s

  clause_walk-Keeps :
      (clause : ForClause) (run : Run)
      → RunKeeps run
      → WriteKeeps (clause_walk semantics last_uses clause run)
  unfolding clause_walk
  clause_walk-Keeps (classic initializer condition update) run k w held s =
      bind-Kept (initializer_walk semantics last_uses initializer w) _
        (initializer_walk-Keeps initializer w held s)
        (λ v s'.
          classic_walk-Keeps _ _ run
            (walk_of-Keeps (walked_option semantics last_uses condition)
              (walked_option-Keeps condition))
            (walk_of-Keeps (walked_option semantics last_uses update) (walked_option-Keeps update))
            k v held s')
  clause_walk-Keeps (range _ bindings iterable) run k w held s =
      range_walk-Keeps semantics last_uses bindings (walked semantics iterable) run
        (walked-Keeps semantics iterable) k w held s
  clause_walk-Keeps malformed_clause run k w held s = some-Kept w s

  pub for_walk-Keeps :
      (clause : ForClause) (run : Run) (body_end : ℕ)
      → RunKeeps run
      → WriteKeeps (for_walk semantics last_uses clause run body_end)
  unfolding for_walk
  for_walk-Keeps clause run body_end k w held s =
      bind-Kept (clause_walk semantics last_uses clause run (enter_loop w)) _
        (clause_walk-Keeps clause run k (enter_loop w) (deeper held) (enter_loop-IsSound w s))
        (λ v s'. leave_loop-Keeps body_end v held s')

  -- What keeps the books exactly, as a statement that ends reachably or not.
  ending-Keeps :
      (reachable : Bool) (f : Walker → Option Walker)
      → WriteKeeps f
      → RunKeeps (λ w. f w >>= λ v. some (v, reachable))
  ending-Keeps reachable f k w (held, s) = Kept-Ends (with-Kept reachable (f w) (k w held s))

  mutual
    unfolding statement_walk kind_walk statements_walk else_branch_walk handler_walks handler_walk

    pub statement_walk-Keeps : (s : Statement) → RunKeeps (statement_walk semantics last_uses s)
    statement_walk-Keeps (statement kind span) = kind_walk-Keeps kind

    kind_walk-Keeps : (kind : StatementKind) → RunKeeps (kind_walk semantics last_uses kind)
    kind_walk-Keeps (block (braced statements _)) =
        scoped-Keeps (statements_walk semantics last_uses statements)
          (statements_walk-Keeps statements)
    kind_walk-Keeps (local declaration) =
        ending-Keeps true (local_walk semantics last_uses declaration)
          (local_walk-Keeps declaration)
    kind_walk-Keeps (return value) =
        ending-Keeps false _
          (return_walk-Keeps (walked_option semantics last_uses value) (walked_option-Keeps value))
    kind_walk-Keeps (throw value) =
        ending-Keeps false _
          (throw_walk-Keeps (walked_option semantics last_uses value) (walked_option-Keeps value))
    kind_walk-Keeps (try_statement (braced statements _) catches) =
        try_walk-Keeps last_uses (statements_walk semantics last_uses statements)
          (handler_walks semantics last_uses catches) (statements_walk-Keeps statements)
          (handler_walks-Keeps catches)
    kind_walk-Keeps (if_statement condition then_branch else_branch) = λ w (held, s).
        bind-Ends ((walked semantics condition).walk read w) _
          (Kept-Ends ((walked-Keeps semantics condition).walks read w held s))
          (λ r at p.
            if_walk-Keeps _ (else_branch_walk semantics last_uses else_branch)
              (branch-Keeps (statement_walk semantics last_uses then_branch)
                (end_of semantics last_uses then_branch) (statement_walk-Keeps then_branch))
              (else_branch_walk-Keeps else_branch) r.0 p)
    kind_walk-Keeps (while_statement condition body) = ending-Keeps true _ (
        while_walk-Keeps (walked semantics condition).walk (statement_walk semantics last_uses body)
          (end_of semantics last_uses body) (walked-Keeps semantics condition).walks
          (statement_walk-Keeps body))
    kind_walk-Keeps (for_statement clause body) = ending-Keeps true _ (
        for_walk-Keeps clause (statement_walk semantics last_uses body)
          (end_of semantics last_uses body) (statement_walk-Keeps body))
    kind_walk-Keeps break =
        ending-Keeps false (capture_loop_exit false) (λ w held s. capture_loop_exit-Keeps false w s)
    kind_walk-Keeps continue =
        ending-Keeps false (capture_loop_exit true) (λ w held s. capture_loop_exit-Keeps true w s)
    kind_walk-Keeps (expression_statement e) =
        ending-Keeps true _ (read-Keeps (walked semantics e) (walked-Keeps semantics e))
    kind_walk-Keeps empty = λ w h. some-Ends (w, true) h
    kind_walk-Keeps malformed = λ w h. some-Ends (w, true) h

    statements_walk-Keeps : (s : Statements) → RunKeeps (statements_walk semantics last_uses s)
    statements_walk-Keeps no_statement = λ w h. some-Ends (w, true) h
    statements_walk-Keeps (and_statement s rest) =
        followed_by-Keeps (statement_walk semantics last_uses s) (end_of semantics last_uses s)
          (statements_walk semantics last_uses rest) (statement_walk-Keeps s)
          (statements_walk-Keeps rest)

    else_branch_walk-Keeps :
        (s : OptionalStatement) → OptionBranchKeeps (else_branch_walk semantics last_uses s)
    else_branch_walk-Keeps no_else = tt
    else_branch_walk-Keeps (else_statement s) =
        branch-Keeps (statement_walk semantics last_uses s) (end_of semantics last_uses s)
          (statement_walk-Keeps s)

    handler_walks-Keeps :
        (catches : CatchClauses) → All BranchKeeps (handler_walks semantics last_uses catches)
    handler_walks-Keeps no_catch = tt
    handler_walks-Keeps (and_catch c rest) = (handler_walk-Keeps c, handler_walks-Keeps rest)

    handler_walk-Keeps : (c : CatchClause) → BranchKeeps (handler_walk semantics last_uses c)
    handler_walk-Keeps (catch b (braced statements _) _) =
        block_branch-Keeps last_uses (catch_binding semantics last_uses (some b))
          (statements_walk semantics last_uses statements) (statements_walk-Keeps statements)
    handler_walk-Keeps (catch_all (braced statements _) _) =
        block_branch-Keeps last_uses none (statements_walk semantics last_uses statements)
          (statements_walk-Keeps statements)
