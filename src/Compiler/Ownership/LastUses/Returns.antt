-- ===== src/Compiler/Ownership/LastUses/Returns.antt =====
-- A collection always returns: only its innermost scope grows, and what it opens it closes.
use stainless.Base.{Option, none, some, List, [], ◌∷◌, String, ◌≡◌, refl, ap, ◌∙◌, ◌>>=◌}
use stainless.Compiler.Diagnostic.{Span}
use stainless.Compiler.Syntax.Statements.{
  Expression, expression, Expressions, no_expression, and_expression, ExpressionKind, generic_name,
  literal, parenthesized, prefix, postfix, binary, switch, call, macro_call, aggregate, json_array,
  json_object, field, index, lambda, await, malformed_expression, SwitchArms, no_arm, and_arm,
  switch_arm, JsonMembers, no_member, and_member, LambdaCaptures, no_capture, and_capture,
  lambda_capture, copy, borrow, initialize, OptionalExpression, absent, present, braced, Statements,
  no_statement, and_statement, Statement, statement, OptionalStatement, no_else, else_statement,
  StatementKind, block, local, return, throw, try_statement, if_statement, while_statement,
  for_statement, break, continue, expression_statement, empty, malformed, CatchClauses, no_catch,
  and_catch, CatchClause, CatchBinding, catch_all, catch, LocalDeclaration, local_declaration,
  ForClause, range, classic, malformed_clause, OptionalForInitializer, no_initializer,
  local_initializer, expression_initializer, Parameter, RangeBinding,
}
use stainless.Compiler.Ownership.LastUses.{
  UseCollector, Collect, nothing, ◌thereafter◌, open_scope, close_scope, close_scope_in, declare_in,
  declare_use, declaration_of, record_use, use_name, scoped_collect, collect_path,
  declare_parameter_uses, declare_range, declare_captures, declare_catch, collect, collect_each,
  collect_arms, collect_members, collect_captures, collect_statement, collect_kind,
  collect_statements, collect_optional, collect_local, collect_else, collect_catches, collect_catch,
  collect_initializer, collect_clause,
}

abbrev Scopes : Type 0
Scopes = List (List (String × Span))

-- The computation returns a collector with these scopes, but for the innermost of them.
pub record Returns (outer : Scopes) (m : Option UseCollector) : Type 0 where
  pub collector : UseCollector
  pub returns : m ≡ some collector
  pub innermost : List (String × Span)
  pub scopes_eq : collector.scopes ≡ innermost ∷ outer

-- From any collector with a scope.
abbrev pub Collects : Collect → Type 0
Collects f =
    (c : UseCollector) (scope : List (String × Span)) (outer : Scopes)
    → c.scopes ≡ scope ∷ outer
    → Returns outer (f c)

pub nothing-Collects : Collects nothing
nothing-Collects c scope outer e = record {
  collector = c;
  returns = refl;
  innermost = scope;
  scopes_eq = e;
}

pub thereafter-Collects : (f g : Collect) → Collects f → Collects g → Collects (f thereafter g)
thereafter-Collects f g k k' c scope outer e =
    let first = k c scope outer e in
    let then = k' first.collector first.innermost outer first.scopes_eq in
    record {
      collector = then.collector;
      returns = ap (λ m. m >>= λ c'. g c') first.returns ∙ then.returns;
      innermost = then.innermost;
      scopes_eq = then.scopes_eq;
    }

-- The end of a scope.
closed :
    (c : UseCollector) (scope : List (String × Span)) (outer : Scopes)
    → c.scopes ≡ scope ∷ outer
    → close_scope c ≡ some (record c { scopes = outer })
unfolding close_scope close_scope_in
closed c scope outer e = ap (λ scopes. close_scope_in scopes c) e

-- From any collector at all it returns one with the same scopes.
abbrev pub Restores : Collect → Type 0
Restores f = (c : UseCollector) → (c' : UseCollector) × ((f c ≡ some c') × (c'.scopes ≡ c.scopes))

-- What runs in a scope of its own leaves all others as they were.
pub scoped_collect_lem : (f : Collect) → Collects f → Restores (scoped_collect f)
unfolding open_scope close_scope close_scope_in
scoped_collect_lem f k c =
    let inner = k (record c { scopes = [] ∷ c.scopes }) [] c.scopes refl in
    (
      record inner.collector { scopes = c.scopes },
      (
        ap (λ m. m >>= close_scope) inner.returns
            ∙ closed inner.collector inner.innermost c.scopes inner.scopes_eq,
        refl,
      ),
    )

scoped_collect-Collects : (f : Collect) → Collects f → Collects (scoped_collect f)
scoped_collect-Collects f k c scope outer e =
    let (c', (returned, same)) = scoped_collect_lem f k c in
    record { collector = c'; returns = returned; innermost = scope; scopes_eq = same ∙ e }

declare_use-Collects : (word : String) (span : Span) → Collects (declare_use word span)
unfolding declare_use declare_in
declare_use-Collects word span c scope outer e = record {
  collector = record c { scopes = ((word, span) ∷ scope) ∷ outer };
  returns = ap (λ scopes. declare_in scopes word span c) e;
  innermost = (word, span) ∷ scope;
  scopes_eq = refl;
}

record_use-Collects :
    (declaration : Option Span) (span : Span) → Collects (record_use declaration span)
unfolding record_use
record_use-Collects none span c scope outer e = nothing-Collects c scope outer e
record_use-Collects (some declaration) span c scope outer e = record {
  collector = record c { last_uses = (declaration, span) ∷ c.last_uses };
  returns = refl;
  innermost = scope;
  scopes_eq = e;
}

use_name-Collects : (word : String) (span : Span) → Collects (use_name word span)
unfolding use_name
use_name-Collects word span c scope outer e =
    record_use-Collects (declaration_of word c.scopes) span c scope outer e

collect_path-Collects :
    (segments : List String) (span : Span) → Collects (collect_path segments span)
unfolding collect_path
collect_path-Collects [] span = nothing-Collects
collect_path-Collects (segment ∷ []) span = use_name-Collects segment span
collect_path-Collects (segment ∷ (next ∷ rest)) span = nothing-Collects

pub declare_parameter_uses-Collects :
    (parameters : List Parameter) → Collects (declare_parameter_uses parameters)
unfolding declare_parameter_uses
declare_parameter_uses-Collects [] = nothing-Collects
declare_parameter_uses-Collects (p ∷ parameters) =
    thereafter-Collects _ _ (declare_use-Collects p.name p.span)
      (declare_parameter_uses-Collects parameters)

declare_range-Collects : (bindings : List RangeBinding) → Collects (declare_range bindings)
unfolding declare_range
declare_range-Collects [] = nothing-Collects
declare_range-Collects (b ∷ bindings) =
    thereafter-Collects _ _ (declare_use-Collects b.name b.span) (declare_range-Collects bindings)

declare_captures-Collects : (captures : LambdaCaptures) → Collects (declare_captures captures)
unfolding declare_captures
declare_captures-Collects no_capture = nothing-Collects
declare_captures-Collects (and_capture (lambda_capture word _ span) rest) =
    thereafter-Collects _ _ (declare_use-Collects word span) (declare_captures-Collects rest)

declare_catch-Collects : (b : Option CatchBinding) → Collects (declare_catch b)
unfolding declare_catch
declare_catch-Collects none = nothing-Collects
declare_catch-Collects (some b) = declare_use-Collects b.name b.span

mutual
  unfolding collect collect_each collect_arms collect_members collect_captures collect_statement
      collect_kind collect_statements collect_optional collect_local collect_else collect_catches
      collect_catch collect_initializer collect_clause

  pub collect-Collects : (x : Expression) → Collects (collect x)
  collect-Collects (expression (ExpressionKind.name path) span) =
      collect_path-Collects path.segments span
  collect-Collects (expression (generic_name _ _) span) = nothing-Collects
  collect-Collects (expression (literal _) span) = nothing-Collects
  collect-Collects (expression malformed_expression span) = nothing-Collects
  collect-Collects (expression (parenthesized inner) span) = collect-Collects inner
  collect-Collects (expression (await inner) span) = collect-Collects inner
  collect-Collects (expression (prefix _ operand) span) = collect-Collects operand
  collect-Collects (expression (postfix _ operand) span) = collect-Collects operand
  collect-Collects (expression (binary left _ right) span) =
      thereafter-Collects _ _ (collect-Collects left) (collect-Collects right)
  collect-Collects (expression (switch scrutinee arms) span) =
      thereafter-Collects _ _ (collect-Collects scrutinee) (collect_arms-Collects arms)
  collect-Collects (expression (call callee arguments) span) =
      thereafter-Collects _ _ (collect-Collects callee) (collect_each-Collects arguments)
  collect-Collects (expression (macro_call _ arguments) span) = collect_each-Collects arguments
  collect-Collects (expression (aggregate _ initializers) span) = collect_each-Collects initializers
  collect-Collects (expression (json_array elements) span) = collect_each-Collects elements
  collect-Collects (expression (json_object members) span) = collect_members-Collects members
  collect-Collects (expression (field receiver _) span) = collect-Collects receiver
  collect-Collects (expression (index receiver place) span) =
      thereafter-Collects _ _ (collect-Collects receiver) (collect-Collects place)
  collect-Collects (expression (lambda captures parameters _ _ (braced statements _)) span) =
      thereafter-Collects _ _ (collect_captures-Collects captures) (
        scoped_collect-Collects _ (
          thereafter-Collects _ _ (declare_captures-Collects captures) (
            thereafter-Collects _ _ (declare_parameter_uses-Collects parameters)
              (collect_statements-Collects statements))))

  collect_each-Collects : (x : Expressions) → Collects (collect_each x)
  collect_each-Collects no_expression = nothing-Collects
  collect_each-Collects (and_expression e rest) =
      thereafter-Collects _ _ (collect-Collects e) (collect_each-Collects rest)

  collect_arms-Collects : (x : SwitchArms) → Collects (collect_arms x)
  collect_arms-Collects no_arm = nothing-Collects
  collect_arms-Collects (and_arm (switch_arm _ value _) rest) =
      thereafter-Collects _ _ (collect-Collects value) (collect_arms-Collects rest)

  collect_members-Collects : (x : JsonMembers) → Collects (collect_members x)
  collect_members-Collects no_member = nothing-Collects
  collect_members-Collects (and_member _ value rest) =
      thereafter-Collects _ _ (collect-Collects value) (collect_members-Collects rest)

  collect_captures-Collects : (x : LambdaCaptures) → Collects (collect_captures x)
  collect_captures-Collects no_capture = nothing-Collects
  collect_captures-Collects (and_capture (lambda_capture name copy span) rest) =
      thereafter-Collects _ _ (use_name-Collects name span) (collect_captures-Collects rest)
  collect_captures-Collects (and_capture (lambda_capture name borrow span) rest) =
      thereafter-Collects _ _ (use_name-Collects name span) (collect_captures-Collects rest)
  collect_captures-Collects (and_capture (lambda_capture _ (initialize e) _) rest) =
      thereafter-Collects _ _ (collect-Collects e) (collect_captures-Collects rest)

  collect_statement-Collects : (x : Statement) → Collects (collect_statement x)
  collect_statement-Collects (statement kind _) = collect_kind-Collects kind

  collect_kind-Collects : (x : StatementKind) → Collects (collect_kind x)
  collect_kind-Collects (block (braced statements _)) =
      scoped_collect-Collects _ (collect_statements-Collects statements)
  collect_kind-Collects (local declaration) = collect_local-Collects declaration
  collect_kind-Collects (return value) = collect_optional-Collects value
  collect_kind-Collects (throw value) = collect_optional-Collects value
  collect_kind-Collects (try_statement (braced statements _) catches) =
      thereafter-Collects _ _ (scoped_collect-Collects _ (collect_statements-Collects statements))
        (collect_catches-Collects catches)
  collect_kind-Collects (if_statement condition then_branch else_branch) =
      thereafter-Collects _ _ (collect-Collects condition) (
        thereafter-Collects _ _ (scoped_collect-Collects _ (collect_statement-Collects then_branch))
          (collect_else-Collects else_branch))
  collect_kind-Collects (while_statement condition body) =
      thereafter-Collects _ _ (collect-Collects condition)
        (scoped_collect-Collects _ (collect_statement-Collects body))
  collect_kind-Collects (for_statement clause body) = scoped_collect-Collects _ (
      collect_clause-Collects clause _
        (scoped_collect-Collects _ (collect_statement-Collects body)))
  collect_kind-Collects break = nothing-Collects
  collect_kind-Collects continue = nothing-Collects
  collect_kind-Collects (expression_statement e) = collect-Collects e
  collect_kind-Collects empty = nothing-Collects
  collect_kind-Collects malformed = nothing-Collects

  pub collect_statements-Collects : (x : Statements) → Collects (collect_statements x)
  collect_statements-Collects no_statement = nothing-Collects
  collect_statements-Collects (and_statement s rest) =
      thereafter-Collects _ _ (collect_statement-Collects s) (collect_statements-Collects rest)

  collect_optional-Collects : (x : OptionalExpression) → Collects (collect_optional x)
  collect_optional-Collects absent = nothing-Collects
  collect_optional-Collects (present e) = collect-Collects e

  collect_local-Collects : (x : LocalDeclaration) → Collects (collect_local x)
  collect_local-Collects (local_declaration _ name initializer span) =
      thereafter-Collects _ _ (collect_optional-Collects initializer)
        (declare_use-Collects name span)

  collect_else-Collects : (x : OptionalStatement) → Collects (collect_else x)
  collect_else-Collects no_else = nothing-Collects
  collect_else-Collects (else_statement s) =
      scoped_collect-Collects _ (collect_statement-Collects s)

  collect_catches-Collects : (x : CatchClauses) → Collects (collect_catches x)
  collect_catches-Collects no_catch = nothing-Collects
  collect_catches-Collects (and_catch c rest) =
      thereafter-Collects _ _ (collect_catch-Collects c) (collect_catches-Collects rest)

  collect_catch-Collects : (x : CatchClause) → Collects (collect_catch x)
  collect_catch-Collects (catch b (braced statements _) _) = scoped_collect-Collects _ (
      thereafter-Collects _ _ (declare_catch-Collects (some b))
        (collect_statements-Collects statements))
  collect_catch-Collects (catch_all (braced statements _) _) =
      scoped_collect-Collects _ (collect_statements-Collects statements)

  collect_initializer-Collects : (x : OptionalForInitializer) → Collects (collect_initializer x)
  collect_initializer-Collects no_initializer = nothing-Collects
  collect_initializer-Collects (local_initializer declaration) = collect_local-Collects declaration
  collect_initializer-Collects (expression_initializer e) = collect-Collects e

  collect_clause-Collects :
      (x : ForClause) (body : Collect) → Collects body → Collects (collect_clause x body)
  collect_clause-Collects (classic initializer condition update) body k =
      thereafter-Collects _ _ (collect_initializer-Collects initializer) (
        thereafter-Collects _ _ (collect_optional-Collects condition)
          (thereafter-Collects _ _ (collect_optional-Collects update) k))
  collect_clause-Collects (range _ bindings iterable) body k =
      thereafter-Collects _ _ (collect-Collects iterable)
        (thereafter-Collects _ _ (declare_range-Collects bindings) k)
  collect_clause-Collects malformed_clause body k = nothing-Collects
