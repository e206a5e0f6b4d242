-- ===== src/Compiler/Semantics.antt =====
-- crates/stainless-compiler/src/semantics.rs: the structural checks of a lowered file. The methods
-- that take `&mut self` are functions to the new `Validator`; a method `f` of the source is
-- `check_f`, since the syntax has the same words. The depths have no upper bound here; in the
-- source they are `u32`, which 2 ^ 32 nested loops or handlers would overflow.
pub mod Complete
pub mod Examples
pub mod Extends
pub mod Order
pub mod Parts
pub mod Rules
pub mod Sound
pub mod Validate
use stainless.Base.{
  ℕ, zero, suc, ◌+◌, ◌-◌, ◌==◌, leb, ltb, if◌then◌else◌, String, Bool, true, false, not, ◌&&◌, ◌||◌,
  Option, none, some, is_some, List, [], ◌∷◌, ◌++◌, any,
}
use stainless.Compiler.Diagnostic.{Span, Diagnostic, semantic_error}
use stainless.Compiler.Syntax.Types.{
  SourceType, is_const, is_reference_type, type_span, is_void, is_inferred,
}
use stainless.Compiler.Syntax.Statements.{
  Parameter, CatchBinding, OptionalExpression, absent, present, Block, braced, Statements,
  no_statement, and_statement, Statement, statement, OptionalStatement, no_else, else_statement,
  StatementKind, block, local, return, throw, try_statement, if_statement, while_statement,
  for_statement, break, continue, expression_statement, empty, malformed, CatchClauses, no_catch,
  and_catch, CatchClause, catch_all, catch, LocalDeclaration, local_declaration, ForClause, range,
  classic, malformed_clause, OptionalForInitializer, no_initializer, local_initializer,
  expression_initializer,
}
use stainless.Compiler.Syntax.Items.{
  UserTypeKind, struct, class, interface, Constructor, Function, Struct, Item, namespace, import,
  enum, constructor, function, Items, no_item, and_item, SourceFile,
}
use text.Mathlib.Text.{◌==◌ as str_eq}

-- The messages, with the arguments of their formats.
pub data Message : Type 0 where
  interface_with_access_label interface_with_fields interface_with_constructor : Message
  constructor_in_body member_function_in_body : Message
  duplicate_parameter : (name : String) → Message
  void_returns_value value_not_returned bare_throw_outside_catch : Message
  catch_not_const_reference catch_all_not_final : Message
  break_outside_loop continue_outside_loop : Message
  inferred_without_initializer inferred_reference reference_without_initializer :
      (name : String) → Message

pub record Validator : Type 0 where
  pub diagnostics : List (Diagnostic Message)
  pub catch_depth : ℕ

abbrev pub push : String → Message → Span → Validator → Validator
push code message span v = record v {
  diagnostics = v.diagnostics ++ semantic_error code message span ∷ [];
}

unfoldable pub push_if : Bool → String → Message → Span → Validator → Validator
push_if b code message span v = if b then push code message span v else v

abbrev pub is_present : OptionalExpression → Bool
is_present absent = false
is_present (present _) = true

unfoldable pub check_local : LocalDeclaration → Validator → Validator
check_local (local_declaration ty name initializer span) v =
    let v₁ =
      push_if (is_inferred ty && not (is_present initializer)) "SEM002"
        (inferred_without_initializer name) span v in
    let v₂ =
      push_if (is_inferred ty && is_reference_type ty) "SEM003" (inferred_reference name)
        (type_span ty) v₁ in
    push_if (is_reference_type ty && not (is_present initializer)) "SEM004"
      (reference_without_initializer name) span v₂

unfoldable pub check_return : (returns_void has_value : Bool) → Span → Validator → Validator
check_return true true span v = push "SEM005" void_returns_value span v
check_return false false span v = push "SEM006" value_not_returned span v
check_return _ _ span v = v

unfoldable pub check_throw : OptionalExpression → Span → Validator → Validator
check_throw absent span v = push_if (v.catch_depth == 0) "SEM011" bare_throw_outside_catch span v
check_throw (present _) span v = v

unfoldable pub check_for_clause : ForClause → Validator → Validator
unfolding check_local
check_for_clause (classic (local_initializer declaration) _ _) v = check_local declaration v
check_for_clause _ v = v

abbrev pub is_last : CatchClauses → Bool
is_last no_catch = true
is_last (and_catch _ _) = false

abbrev pub enter_catch : Validator → Validator
enter_catch v = record v { catch_depth = v.catch_depth + 1 }

abbrev pub leave_catch : Validator → Validator
leave_catch v = record v { catch_depth = v.catch_depth - 1 }

unfoldable mutual
  pub check_block : Block → (loop_depth : ℕ) → (returns_void : Bool) → Validator → Validator
  check_block (braced statements _) depth void v = check_statements statements depth void v

  pub check_statements : Statements → ℕ → Bool → Validator → Validator
  check_statements no_statement depth void v = v
  check_statements (and_statement s rest) depth void v =
      check_statements rest depth void (check_statement s depth void v)

  pub check_statement : Statement → ℕ → Bool → Validator → Validator
  check_statement (statement kind span) depth void v = check_kind kind span depth void v

  pub check_kind : StatementKind → Span → ℕ → Bool → Validator → Validator
  check_kind (block b) span depth void v = check_block b depth void v
  check_kind (local declaration) span depth void v = check_local declaration v
  check_kind (return value) span depth void v = check_return void (is_present value) span v
  check_kind (throw value) span depth void v = check_throw value span v
  check_kind (try_statement body catches) span depth void v =
      check_catches catches depth void (check_block body depth void v)
  check_kind (if_statement _ then_branch else_branch) span depth void v =
      check_else else_branch depth void (check_statement then_branch depth void v)
  check_kind (while_statement _ body) span depth void v = check_statement body (depth + 1) void v
  check_kind (for_statement clause body) span depth void v =
      check_statement body (depth + 1) void (check_for_clause clause v)
  check_kind break span depth void v = push_if (depth == 0) "SEM007" break_outside_loop span v
  check_kind continue span depth void v = push_if (depth == 0) "SEM008" continue_outside_loop span v
  check_kind (expression_statement _) span depth void v = v
  check_kind empty span depth void v = v
  check_kind malformed span depth void v = v

  pub check_else : OptionalStatement → ℕ → Bool → Validator → Validator
  check_else no_else depth void v = v
  check_else (else_statement s) depth void v = check_statement s depth void v

  pub check_catches : CatchClauses → ℕ → Bool → Validator → Validator
  check_catches no_catch depth void v = v
  check_catches (and_catch c rest) depth void v =
      check_catches rest depth void (check_catch c (is_last rest) depth void v)

  pub check_catch : CatchClause → (last : Bool) → ℕ → Bool → Validator → Validator
  check_catch (catch binding body span) last depth void v =
      let v' =
        push_if (not (is_const binding.ty) || not (is_reference_type binding.ty)) "SEM012"
          catch_not_const_reference binding.span v in
      leave_catch (check_block body depth void (enter_catch v'))
  check_catch (catch_all body span) last depth void v =
      let v' = push_if (not last) "SEM013" catch_all_not_final span v in
      leave_catch (check_block body depth void (enter_catch v'))

-- `parameter_names` is the list of the names inserted.
unfoldable pub check_parameters_from : List String → List Parameter → Validator → Validator
check_parameters_from seen [] v = v
check_parameters_from seen (p ∷ ps) v =
    if str_eq p.name "<missing>"
    then check_parameters_from seen ps v
    else check_parameters_from (p.name ∷ seen) ps
        (push_if (any (str_eq p.name) seen) "SEM001" (duplicate_parameter p.name) p.span v)

unfoldable pub check_parameters : List Parameter → Validator → Validator
check_parameters parameters v = check_parameters_from [] parameters v

abbrev pub check_body : Option Block → (returns_void : Bool) → Validator → Validator
check_body none void v = v
check_body (some body) void v = check_block body 0 void v

unfoldable pub check_function : Function → Validator → Validator
check_function f v = check_body f.body (is_void f.return_type) (check_parameters f.parameters v)

unfoldable pub check_constructor : Constructor → Validator → Validator
check_constructor c v = check_body c.body true (check_parameters c.parameters v)
