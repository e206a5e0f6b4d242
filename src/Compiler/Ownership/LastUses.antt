-- ===== src/Compiler/Ownership/LastUses.antt =====
-- `collect_last_uses` of crates/stainless-compiler/src/ownership.rs: the span of the last use of
-- every declared name, in the order of the text. The innermost scope is the head of `scopes`; a
-- declaration without a scope panics in the source and is `none` here. Returns has what a
-- collection leaves.
pub mod Restores
pub mod Returns
use stainless.Base.{
  if◌then◌else◌, String, Bool, true, false, ◌==◌, length, Option, none, some, List, [], ◌∷◌, ◌>>=◌,
  is_some,
}
use stainless.Compiler.Diagnostic.{Span}
use stainless.Compiler.Syntax.Statements.{
  Expression, expression, Expressions, no_expression, and_expression, ExpressionKind, generic_name,
  literal, parenthesized, prefix, postfix, binary, switch, call, macro_call, aggregate, json_array,
  json_object, field, index, lambda, await, malformed_expression, SwitchArms, no_arm, and_arm,
  switch_arm, JsonMembers, no_member, and_member, LambdaCaptures, no_capture, and_capture,
  LambdaCapture, lambda_capture, copy, borrow, initialize, OptionalExpression, absent, present,
  Block, braced, Statements, no_statement, and_statement, Statement, statement, OptionalStatement,
  no_else, else_statement, StatementKind, block, local, return, throw, try_statement, if_statement,
  while_statement, for_statement, break, continue, expression_statement, empty, malformed,
  CatchClauses, no_catch, and_catch, CatchClause, CatchBinding, catch_all, catch, LocalDeclaration,
  local_declaration, ForClause, range, classic, malformed_clause, OptionalForInitializer,
  no_initializer, local_initializer, expression_initializer, Parameter, RangeBinding,
}
use stainless.Compiler.Syntax.Items.{
  Item, Items, no_item, and_item, Constructor, ConstructorInitializer, Function, Struct,
}
use stainless.Compiler.Resolution.Model.{find}
use stainless.Compiler.Ownership.Walk.{LastUses}
use text.Mathlib.Text.{◌==◌ as str_eq}

pub record UseCollector : Type 0 where
  pub scopes : List (List (String × Span))
  pub last_uses : LastUses

abbrev pub Collect : Type 0
Collect = UseCollector → Option UseCollector

abbrev pub nothing : Collect
nothing c = some c

infixr 20 ◌thereafter◌
abbrev pub ◌thereafter◌ : Collect → Collect → Collect
(one thereafter other) c = one c >>= λ c'. other c'

unfoldable pub open_scope : Collect
open_scope c = some (record c { scopes = [] ∷ c.scopes })

unfoldable pub close_scope_in : List (List (String × Span)) → Collect
close_scope_in [] c = some c
close_scope_in (scope ∷ scopes) c = some (record c { scopes = scopes })

-- `self.scopes.pop()`
unfoldable pub close_scope : Collect
close_scope c = close_scope_in c.scopes c

unfoldable pub declare_in : List (List (String × Span)) → String → Span → Collect
declare_in [] name span c = none
declare_in (scope ∷ scopes) name span c =
    some (record c { scopes = ((name, span) ∷ scope) ∷ scopes })

-- `declare`
unfoldable pub declare_use : String → Span → Collect
declare_use name span c = declare_in c.scopes name span c

-- `lookup`
unfoldable pub declaration_of : String → List (List (String × Span)) → Option Span
declaration_of name [] = none
declaration_of name (scope ∷ scopes) =
    elim (find (λ (entry : String × Span). str_eq entry.0 name) scope) [
      | none ↦ declaration_of name scopes
      | some entry ↦ some entry.1
    ]

-- The latest entry of a declaration stands first.
unfoldable pub record_use : Option Span → Span → Collect
record_use none span c = some c
record_use (some declaration) span c =
    some (record c { last_uses = (declaration, span) ∷ c.last_uses })

unfoldable pub use_name : String → Span → Collect
use_name name span c = record_use (declaration_of name c.scopes) span c

abbrev pub scoped_collect : Collect → Collect
scoped_collect inner = open_scope thereafter inner thereafter close_scope

unfoldable pub collect_path : List String → Span → Collect
collect_path [] span = nothing
collect_path (segment ∷ []) span = use_name segment span
collect_path (segment ∷ (next ∷ rest)) span = nothing

unfoldable pub declare_parameter_uses : List Parameter → Collect
declare_parameter_uses [] = nothing
declare_parameter_uses (p ∷ parameters) =
    declare_use p.name p.span thereafter declare_parameter_uses parameters

unfoldable pub declare_range : List RangeBinding → Collect
declare_range [] = nothing
declare_range (b ∷ bindings) = declare_use b.name b.span thereafter declare_range bindings

unfoldable pub declare_captures : LambdaCaptures → Collect
declare_captures no_capture = nothing
declare_captures (and_capture (lambda_capture name _ span) rest) =
    declare_use name span thereafter declare_captures rest

unfoldable pub declare_catch : Option CatchBinding → Collect
declare_catch none = nothing
declare_catch (some b) = declare_use b.name b.span

unfoldable mutual
  pub collect : Expression → Collect
  collect (expression (ExpressionKind.name path) span) = collect_path path.segments span
  collect (expression (generic_name _ _) span) = nothing
  collect (expression (literal _) span) = nothing
  collect (expression malformed_expression span) = nothing
  collect (expression (parenthesized inner) span) = collect inner
  collect (expression (await inner) span) = collect inner
  collect (expression (prefix _ operand) span) = collect operand
  collect (expression (postfix _ operand) span) = collect operand
  collect (expression (binary left _ right) span) = collect left thereafter collect right
  collect (expression (switch scrutinee arms) span) = collect scrutinee thereafter collect_arms arms
  collect (expression (call callee arguments) span) =
      collect callee thereafter collect_each arguments
  collect (expression (macro_call _ arguments) span) = collect_each arguments
  collect (expression (aggregate _ initializers) span) = collect_each initializers
  collect (expression (json_array elements) span) = collect_each elements
  collect (expression (json_object members) span) = collect_members members
  collect (expression (field receiver _) span) = collect receiver
  collect (expression (index receiver place) span) = collect receiver thereafter collect place
  collect (expression (lambda captures parameters _ _ (braced statements _)) span) =
      collect_captures captures
      thereafter scoped_collect (
          declare_captures captures
          thereafter declare_parameter_uses parameters
          thereafter collect_statements statements)

  pub collect_each : Expressions → Collect
  collect_each no_expression = nothing
  collect_each (and_expression e rest) = collect e thereafter collect_each rest

  pub collect_arms : SwitchArms → Collect
  collect_arms no_arm = nothing
  collect_arms (and_arm (switch_arm _ value _) rest) = collect value thereafter collect_arms rest

  pub collect_members : JsonMembers → Collect
  collect_members no_member = nothing
  collect_members (and_member _ value rest) = collect value thereafter collect_members rest

  pub collect_captures : LambdaCaptures → Collect
  collect_captures no_capture = nothing
  collect_captures (and_capture (lambda_capture name copy span) rest) =
      use_name name span thereafter collect_captures rest
  collect_captures (and_capture (lambda_capture name borrow span) rest) =
      use_name name span thereafter collect_captures rest
  collect_captures (and_capture (lambda_capture _ (initialize e) _) rest) =
      collect e thereafter collect_captures rest

  pub collect_statement : Statement → Collect
  collect_statement (statement kind _) = collect_kind kind

  pub collect_kind : StatementKind → Collect
  collect_kind (block (braced statements _)) = scoped_collect (collect_statements statements)
  collect_kind (local declaration) = collect_local declaration
  collect_kind (return value) = collect_optional value
  collect_kind (throw value) = collect_optional value
  collect_kind (try_statement (braced statements _) catches) =
      scoped_collect (collect_statements statements) thereafter collect_catches catches
  collect_kind (if_statement condition then_branch else_branch) =
      collect condition
      thereafter scoped_collect (collect_statement then_branch)
      thereafter collect_else else_branch
  collect_kind (while_statement condition body) =
      collect condition thereafter scoped_collect (collect_statement body)
  collect_kind (for_statement clause body) =
      scoped_collect (collect_clause clause (scoped_collect (collect_statement body)))
  collect_kind break = nothing
  collect_kind continue = nothing
  collect_kind (expression_statement e) = collect e
  collect_kind empty = nothing
  collect_kind malformed = nothing

  pub collect_statements : Statements → Collect
  collect_statements no_statement = nothing
  collect_statements (and_statement s rest) = collect_statement s thereafter collect_statements rest

  pub collect_optional : OptionalExpression → Collect
  collect_optional absent = nothing
  collect_optional (present e) = collect e

  pub collect_local : LocalDeclaration → Collect
  collect_local (local_declaration _ name initializer span) =
      collect_optional initializer thereafter declare_use name span

  pub collect_else : OptionalStatement → Collect
  collect_else no_else = nothing
  collect_else (else_statement s) = scoped_collect (collect_statement s)

  pub collect_catches : CatchClauses → Collect
  collect_catches no_catch = nothing
  collect_catches (and_catch c rest) = collect_catch c thereafter collect_catches rest

  pub collect_catch : CatchClause → Collect
  collect_catch (catch b (braced statements _) _) =
      scoped_collect (declare_catch (some b) thereafter collect_statements statements)
  collect_catch (catch_all (braced statements _) _) = scoped_collect (collect_statements statements)

  pub collect_initializer : OptionalForInitializer → Collect
  collect_initializer no_initializer = nothing
  collect_initializer (local_initializer declaration) = collect_local declaration
  collect_initializer (expression_initializer e) = collect e

  pub collect_clause : ForClause → Collect → Collect
  collect_clause (classic initializer condition update) body =
      collect_initializer initializer
      thereafter collect_optional condition
      thereafter collect_optional update
      thereafter body
  collect_clause (range _ bindings iterable) body =
      collect iterable thereafter declare_range bindings thereafter body
  collect_clause malformed_clause body = nothing

unfoldable pub collect_expressions : List Expression → Collect
collect_expressions [] = nothing
collect_expressions (e ∷ rest) = collect e thereafter collect_expressions rest

unfoldable pub collect_initializers : List ConstructorInitializer → Collect
collect_initializers [] = nothing
collect_initializers (i ∷ rest) =
    collect_expressions i.arguments thereafter collect_initializers rest

-- A constructor and a function, which are visited if they have a body.
unfoldable pub collect_constructor : Option Block → Constructor → Collect
collect_constructor none c = nothing
collect_constructor (some (braced statements _)) c = scoped_collect (
    declare_parameter_uses c.parameters
    thereafter collect_initializers c.initializers
    thereafter collect_statements statements)

unfoldable pub collect_function : Option Block → Function → Collect
collect_function none f = nothing
collect_function (some (braced statements _)) f =
    scoped_collect (declare_parameter_uses f.parameters thereafter collect_statements statements)

unfoldable pub collect_constructors : List Constructor → Collect
collect_constructors [] = nothing
collect_constructors (c ∷ rest) = collect_constructor c.body c thereafter collect_constructors rest

unfoldable pub collect_functions : List Function → Collect
collect_functions [] = nothing
collect_functions (f ∷ rest) = collect_function f.body f thereafter collect_functions rest

unfoldable mutual
  pub collect_item : Item → Collect
  collect_item (Item.namespace _ items _) = collect_items items
  collect_item (Item.struct s) =
      collect_constructors s.constructors thereafter collect_functions s.functions
  collect_item (Item.constructor c) = collect_constructor c.body c
  collect_item (Item.function f) = collect_function f.body f
  collect_item (Item.enum _) = nothing
  collect_item (Item.import _) = nothing

  pub collect_items : Items → Collect
  collect_items no_item = nothing
  collect_items (and_item item rest) = collect_item item thereafter collect_items rest

unfoldable pub collect_last_uses : Items → Option LastUses
collect_last_uses items =
    collect_items items (record { scopes = []; last_uses = [] }) >>= λ c. some c.last_uses
