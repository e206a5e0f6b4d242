-- ===== src/Compiler/Ownership/Walk/Examples.antt =====
-- Small bodies, walked, and the theorems about the walk at them.
use mathlib.Core.List.{flatten}
use stainless.Base.{
  ℕ, length, map, ◌≡◌, refl, Bool, true, false, Option, none, some, List, [], ◌∷◌, String,
}
use stainless.Compiler.Diagnostic.{Span, Diagnostic, sort_by_span, insert_by_span}
use stainless.Compiler.Diagnostic.Order.{IsInOrder, at_span}
use stainless.Compiler.Types.{TypeRef, TypeRefs}
use stainless.Compiler.Syntax.Types.{SourceType, TypeKind, source_type}
use stainless.Compiler.Syntax.Statements.{
  Expression, expression, ExpressionKind, Statement, statement, StatementKind, Statements, Block,
  OptionalExpression, LocalDeclaration, OptionalStatement, Literal, LiteralKind,
}
use stainless.Compiler.Syntax.Statements as Statements
use stainless.Compiler.Syntax.Items.{Items, Item, Function, SourceFile}
use stainless.Compiler.Resolution.Model.{SemanticModel, BindingResolution, FunctionSymbol}
use stainless.Compiler.Ownership.State.{Binding, available}
use stainless.Compiler.Ownership.Analyzer.{Message, read}
use stainless.Compiler.Ownership.Exclusive.{IsExclusive}
use stainless.Compiler.Ownership.LastUses.{
  collect_last_uses, collect_items, collect_item, collect_function, collect_statements,
  collect_statement, collect_kind, collect_local, collect_optional, collect, collect_path, use_name,
  record_use, declaration_of, declare_use, declare_in, open_scope, close_scope, close_scope_in,
  declare_parameter_uses,
}
use stainless.Compiler.Ownership.LastUses.Restores.{collect_last_uses_total}
use stainless.Compiler.Ownership.Walk.{Walker, LastUses, state_of}
use stainless.Compiler.Ownership.Walk.Items.{
  items_walk, item_walk, function_walk, function_body, declare_receiver_option, declare_parameters,
  body_walk, new_walker, fresh, validate,
}
use stainless.Compiler.Ownership.Balance.{IsSound}
use stainless.Compiler.Ownership.Balance.Items.{fresh-IsSound, new_walker-IsSound}
use stainless.Compiler.Ownership.Balance.Exact.{statement_walk-KeepsWith}
use stainless.Compiler.Ownership.Balance.Plain.{
  IsPlain, IsPlainKind, IsPlainBlock, IsPlainStatements, IsPlainItem, IsPlainItems,
}
use stainless.Compiler.Ownership.Balance.Exclusive.{
  statement_walk-IsExclusive, expression_walk-IsSound, items_walk-IsSound,
  ownership_validate-IsInOrder,
}
use stainless.Compiler.Ownership.State.{
  push_scope, release, end_reference_loan, end_scoped_loan, end_scoped_loans, pop_scope_bindings,
  pop_scope, declare, lookup_in, lookup_scopes, lookup, release_expired, release_expired_loans,
  root_origin_loop, root_origin, merge_availability, merge_ids, merge_states, merge_from,
  merge_many_states,
}
use stainless.Compiler.Ownership.Analyzer.{
  was_emitted, push, check_borrow_conflict, check_usage, mark_moved, take_loan,
  acquire_persistent_loan, acquire_temporary_loan, validate_reference_return,
}
use stainless.Compiler.Ownership.Walk.{
  leave_scope, use_binding, move_binding, lend_temporarily, lend, give_back, give_back_option,
  give_back_all, expire, declare_local, pop_scopes_to, capture_in, capture_exception_state,
  capture_exception_if, capture_loop_exit_in, capture_loop_exit, write_binding,
}
use stainless.Compiler.Ownership.Walk.Arguments.{
  copy_capture, initialize_capture, borrow_capture, capture_walk, captures_walk,
  callback_target_walk, resolved_callback_walk, callback_walk, reference_argument, plain_argument,
  one_argument, read_each, each_argument, construction_arguments, target_arguments,
  intrinsic_arguments, default_constructions, zipped_constructions,
}
use stainless.Compiler.Ownership.Walk.Expressions.{
  use_origin, each_arm, switch_walk, logical_walk, both_walk, write_macro_walk, macro_walk,
  index_walk, lambda_walk, write_name, name_walk, each_initializer, assign_walk, other_binary_walk,
  binary_walk, walked, callee_shape, walked_each, arm_walks, walked_members, capture_walks,
}
use stainless.Compiler.Ownership.Walk.Loops.{
  enter_loop, leave_loop, split_continues, body_pass, tail_part, loop_tail, each_tail, join_tails,
  loop_iteration, join_passes, repeat_pass, run_loop, while_walk, classic_walk, declare_each,
  range_iteration, lend_if, range_loop, range_walk,
}
use stainless.Compiler.Ownership.Walk.Statements.{
  initialize_value, branch, declare_option, block_branch, join_branches, else_walk, if_walk,
  each_handler, pop_exception_in, join_continuing, try_walk, scoped, followed_by, throw_walk,
  validate_return_if, return_value, return_named, return_walk, initialize_reference,
  initialize_local, declare_resolved, local_walk, initializer_walk, clause_walk, for_walk,
  statement_walk, kind_walk, statements_walk, else_branch_walk, handler_walks, handler_walk,
}

abbrev span : ℕ → ℕ → Span
span a b = record { start = a; end = b }

abbrev text : TypeRef
text = TypeRef.native "rust::String" TypeRefs.nil

abbrev a_binding : BindingResolution
a_binding = record { span = span 7 8; name = "a"; ty = text; mutable = true }

abbrev r_binding : BindingResolution
r_binding = record {
  span = span 18 19;
  name = "r";
  ty = TypeRef.reference true text;
  mutable = false;
}

abbrev f_symbol : FunctionSymbol
f_symbol = record {
  id = record { index = 0 };
  is_public = true;
  is_async = false;
  path = "f" ∷ [];
  parameters = [];
  return_type = TypeRef.void;
  throws = [];
  owner = none;
  receiver = none;
  mangled_name = "f";
  declarations = span 0 40 ∷ [];
  has_definition = true;
  has_member_declaration = false;
}

abbrev model : SemanticModel
model = record {
  native_types = [];
  structs = [];
  constructors = [];
  functions = f_symbol ∷ [];
  interface_implementations = [];
  expressions = [];
  static_constant_references = [];
  bindings = a_binding ∷ (r_binding ∷ []);
  calls = [];
  rust_result_adaptations = [];
  callbacks = [];
  json_struct_conversions = [];
}

abbrev some_type : SourceType
some_type = source_type false false TypeKind.inferred (span 0 6)

abbrev a_use : Expression
a_use = expression (ExpressionKind.name (record { segments = "a" ∷ [] })) (span 22 23)

-- `String a = "";`, `String& r = a;` and `a = a;`
abbrev declare_a : Statement
declare_a =
    statement
      (StatementKind.local (
        Statements.local_declaration some_type "a"
          (OptionalExpression.present (
            expression (ExpressionKind.literal (record { kind = LiteralKind.string; text = "" }))
              (span 11 13)))
          (span 7 8)))
      (span 0 14)

abbrev declare_r : Statement
declare_r =
    statement
      (StatementKind.local (
        Statements.local_declaration some_type "r" (OptionalExpression.present a_use) (span 18 19)))
      (span 15 24)

abbrev use_a : Statement
use_a = statement (StatementKind.expression_statement a_use) (span 25 27)

abbrev or_else {ℓ} : {A : Type ℓ} → Option A → A → A
or_else none other = other
or_else (some a) other = a

-- `r` is used after both.
abbrev later : LastUses
later = (span 18 19, span 35 36) ∷ []

abbrev body : Statement
body =
    statement
      (StatementKind.while_statement a_use (
        statement
          (StatementKind.block (
            Block.braced
              (Statements.and_statement declare_r
                (Statements.and_statement use_a Statements.no_statement))
              (span 15 30)))
          (span 15 30)))
      (span 14 30)

abbrev before : Walker
before = (or_else (statement_walk model later declare_a (fresh new_walker)) (new_walker, false)).0

abbrev after : Walker × Bool
after = or_else (statement_walk model later declare_r before) (new_walker, false)

abbrev after_loop : Walker × Bool
after_loop = or_else (statement_walk model later body before) (new_walker, false)

abbrev f : Function
f = record {
  is_public = true;
  is_static = false;
  is_async = false;
  name = record { segments = "f" ∷ [] };
  owner_arguments = [];
  return_type = some_type;
  parameters = [];
  is_const = false;
  throws = [];
  body = some (
      Block.braced
        (Statements.and_statement declare_a (Statements.and_statement body Statements.no_statement))
        (span 5 40));
  span = span 0 40;
}

abbrev file : Items
file = Items.and_item (Item.function f) Items.no_item

abbrev after_file : Walker
after_file = or_else (items_walk model later file new_walker) new_walker

abbrev codes : Walker → List String
codes w = map (λ (d : Diagnostic Message). d.code) w.analyzer.diagnostics

-- The mutable loan of `a` that `r` holds is out, and a use of `a` in the loop conflicts with it.
loop_reports_conflict : codes after_loop.0 ≡ "OWN003" ∷ []
unfolding push_scope release end_reference_loan end_scoped_loan end_scoped_loans pop_scope_bindings
    pop_scope declare lookup_in lookup_scopes lookup release_expired release_expired_loans
    root_origin_loop root_origin merge_availability merge_ids merge_states merge_from
    merge_many_states was_emitted push check_borrow_conflict check_usage mark_moved take_loan
    acquire_persistent_loan acquire_temporary_loan validate_reference_return leave_scope use_binding
    move_binding lend_temporarily lend give_back give_back_option give_back_all expire declare_local
    pop_scopes_to capture_in capture_exception_state capture_exception_if capture_loop_exit_in
    capture_loop_exit write_binding copy_capture initialize_capture borrow_capture capture_walk
    captures_walk callback_target_walk resolved_callback_walk callback_walk reference_argument
    plain_argument one_argument read_each each_argument construction_arguments target_arguments
    intrinsic_arguments default_constructions zipped_constructions use_origin each_arm switch_walk
    logical_walk both_walk write_macro_walk macro_walk index_walk lambda_walk write_name name_walk
    each_initializer assign_walk other_binary_walk binary_walk walked callee_shape walked_each
    arm_walks walked_members capture_walks enter_loop leave_loop split_continues body_pass tail_part
    loop_tail each_tail join_tails loop_iteration join_passes repeat_pass run_loop while_walk
    classic_walk declare_each range_iteration lend_if range_loop range_walk branch declare_option
    block_branch join_branches else_walk if_walk each_handler pop_exception_in join_continuing
    try_walk scoped followed_by throw_walk validate_return_if return_value return_named return_walk
    initialize_reference initialize_local declare_resolved local_walk initializer_walk clause_walk
    for_walk statement_walk kind_walk statements_walk else_branch_walk handler_walks handler_walk
    initialize_value flatten
loop_reports_conflict = refl

before-IsSound : IsSound before ([], 1)
unfolding IsPlain IsPlainKind push_scope release end_reference_loan end_scoped_loan end_scoped_loans
    pop_scope_bindings pop_scope declare lookup_in lookup_scopes lookup release_expired
    release_expired_loans root_origin_loop root_origin merge_availability merge_ids merge_states
    merge_from merge_many_states was_emitted push check_borrow_conflict check_usage mark_moved
    take_loan acquire_persistent_loan acquire_temporary_loan validate_reference_return leave_scope
    use_binding move_binding lend_temporarily lend give_back give_back_option give_back_all expire
    declare_local pop_scopes_to capture_in capture_exception_state capture_exception_if
    capture_loop_exit_in capture_loop_exit write_binding copy_capture initialize_capture
    borrow_capture capture_walk captures_walk callback_target_walk resolved_callback_walk
    callback_walk reference_argument plain_argument one_argument read_each each_argument
    construction_arguments target_arguments intrinsic_arguments default_constructions
    zipped_constructions use_origin each_arm switch_walk logical_walk both_walk write_macro_walk
    macro_walk index_walk lambda_walk write_name name_walk each_initializer assign_walk
    other_binary_walk binary_walk walked callee_shape walked_each arm_walks walked_members
    capture_walks enter_loop leave_loop split_continues body_pass tail_part loop_tail each_tail
    join_tails loop_iteration join_passes repeat_pass run_loop while_walk classic_walk declare_each
    range_iteration lend_if range_loop range_walk branch declare_option block_branch join_branches
    else_walk if_walk each_handler pop_exception_in join_continuing try_walk scoped followed_by
    throw_walk validate_return_if return_value return_named return_walk initialize_reference
    initialize_local declare_resolved local_walk initializer_walk clause_walk for_walk
    statement_walk kind_walk statements_walk else_branch_walk handler_walks handler_walk
    initialize_value flatten
before-IsSound =
    (statement_walk-KeepsWith model later declare_a tt (fresh new_walker) ([], 1)
        (fresh-IsSound new_walker new_walker-IsSound)).kept
      _ refl

abbrev lent_a : Binding
lent_a = record {
  name = "a";
  ty = a_binding.ty;
  availability = available;
  shared_borrows = 0;
  mutably_borrowed = true;
  reference_loan = none;
  reference_loan_active = false;
  declaration_span = a_binding.span;
  last_use = none;
  declaration_loop_depth = 0;
}

statement_walk-IsExclusive_example :
    IsExclusive 0 lent_a (state_of after.0).bindings []
    × (length (state_of after.0).scopes ≡ length (state_of before).scopes)
unfolding IsPlain IsPlainKind push_scope release end_reference_loan end_scoped_loan end_scoped_loans
    pop_scope_bindings pop_scope declare lookup_in lookup_scopes lookup release_expired
    release_expired_loans root_origin_loop root_origin merge_availability merge_ids merge_states
    merge_from merge_many_states was_emitted push check_borrow_conflict check_usage mark_moved
    take_loan acquire_persistent_loan acquire_temporary_loan validate_reference_return leave_scope
    use_binding move_binding lend_temporarily lend give_back give_back_option give_back_all expire
    declare_local pop_scopes_to capture_in capture_exception_state capture_exception_if
    capture_loop_exit_in capture_loop_exit write_binding copy_capture initialize_capture
    borrow_capture capture_walk captures_walk callback_target_walk resolved_callback_walk
    callback_walk reference_argument plain_argument one_argument read_each each_argument
    construction_arguments target_arguments intrinsic_arguments default_constructions
    zipped_constructions use_origin each_arm switch_walk logical_walk both_walk write_macro_walk
    macro_walk index_walk lambda_walk write_name name_walk each_initializer assign_walk
    other_binary_walk binary_walk walked callee_shape walked_each arm_walks walked_members
    capture_walks enter_loop leave_loop split_continues body_pass tail_part loop_tail each_tail
    join_tails loop_iteration join_passes repeat_pass run_loop while_walk classic_walk declare_each
    range_iteration lend_if range_loop range_walk branch declare_option block_branch join_branches
    else_walk if_walk each_handler pop_exception_in join_continuing try_walk scoped followed_by
    throw_walk validate_return_if return_value return_named return_walk initialize_reference
    initialize_local declare_resolved local_walk initializer_walk clause_walk for_walk
    statement_walk kind_walk statements_walk else_branch_walk handler_walks handler_walk
    initialize_value flatten
statement_walk-IsExclusive_example =
    statement_walk-IsExclusive model later declare_r before ([], 1) after 0 lent_a tt before-IsSound
      refl refl

expression_walk-IsSound_example : IsSound before ([], 1)
unfolding IsPlain IsPlainKind push_scope release end_reference_loan end_scoped_loan end_scoped_loans
    pop_scope_bindings pop_scope declare lookup_in lookup_scopes lookup release_expired
    release_expired_loans root_origin_loop root_origin merge_availability merge_ids merge_states
    merge_from merge_many_states was_emitted push check_borrow_conflict check_usage mark_moved
    take_loan acquire_persistent_loan acquire_temporary_loan validate_reference_return leave_scope
    use_binding move_binding lend_temporarily lend give_back give_back_option give_back_all expire
    declare_local pop_scopes_to capture_in capture_exception_state capture_exception_if
    capture_loop_exit_in capture_loop_exit write_binding copy_capture initialize_capture
    borrow_capture capture_walk captures_walk callback_target_walk resolved_callback_walk
    callback_walk reference_argument plain_argument one_argument read_each each_argument
    construction_arguments target_arguments intrinsic_arguments default_constructions
    zipped_constructions use_origin each_arm switch_walk logical_walk both_walk write_macro_walk
    macro_walk index_walk lambda_walk write_name name_walk each_initializer assign_walk
    other_binary_walk binary_walk walked callee_shape walked_each arm_walks walked_members
    capture_walks enter_loop leave_loop split_continues body_pass tail_part loop_tail each_tail
    join_tails loop_iteration join_passes repeat_pass run_loop while_walk classic_walk declare_each
    range_iteration lend_if range_loop range_walk branch declare_option block_branch join_branches
    else_walk if_walk each_handler pop_exception_in join_continuing try_walk scoped followed_by
    throw_walk validate_return_if return_value return_named return_walk initialize_reference
    initialize_local declare_resolved local_walk initializer_walk clause_walk for_walk
    statement_walk kind_walk statements_walk else_branch_walk handler_walks handler_walk
    initialize_value flatten
expression_walk-IsSound_example =
    expression_walk-IsSound model a_use read before ([], 1) (before, some 0) before-IsSound refl

items_walk-IsSound_example : IsSound after_file ([], 0)
unfolding IsPlain IsPlainKind IsPlainBlock IsPlainStatements IsPlainItem IsPlainItems items_walk
    item_walk function_walk function_body declare_receiver_option declare_parameters body_walk
    push_scope release end_reference_loan end_scoped_loan end_scoped_loans pop_scope_bindings
    pop_scope declare lookup_in lookup_scopes lookup release_expired release_expired_loans
    root_origin_loop root_origin merge_availability merge_ids merge_states merge_from
    merge_many_states was_emitted push check_borrow_conflict check_usage mark_moved take_loan
    acquire_persistent_loan acquire_temporary_loan validate_reference_return leave_scope use_binding
    move_binding lend_temporarily lend give_back give_back_option give_back_all expire declare_local
    pop_scopes_to capture_in capture_exception_state capture_exception_if capture_loop_exit_in
    capture_loop_exit write_binding copy_capture initialize_capture borrow_capture capture_walk
    captures_walk callback_target_walk resolved_callback_walk callback_walk reference_argument
    plain_argument one_argument read_each each_argument construction_arguments target_arguments
    intrinsic_arguments default_constructions zipped_constructions use_origin each_arm switch_walk
    logical_walk both_walk write_macro_walk macro_walk index_walk lambda_walk write_name name_walk
    each_initializer assign_walk other_binary_walk binary_walk walked callee_shape walked_each
    arm_walks walked_members capture_walks enter_loop leave_loop split_continues body_pass tail_part
    loop_tail each_tail join_tails loop_iteration join_passes repeat_pass run_loop while_walk
    classic_walk declare_each range_iteration lend_if range_loop range_walk branch declare_option
    block_branch join_branches else_walk if_walk each_handler pop_exception_in join_continuing
    try_walk scoped followed_by throw_walk validate_return_if return_value return_named return_walk
    initialize_reference initialize_local declare_resolved local_walk initializer_walk clause_walk
    for_walk statement_walk kind_walk statements_walk else_branch_walk handler_walks handler_walk
    initialize_value flatten
items_walk-IsSound_example =
    items_walk-IsSound model later file after_file ((tt, (tt, tt)), tt) refl

collect_last_uses_total_example : (uses : LastUses) × (collect_last_uses file ≡ some uses)
collect_last_uses_total_example = collect_last_uses_total file

abbrev source : SourceFile
source = record { items = file; span = span 0 40 }

abbrev found : List (Diagnostic Message)
found = or_else (validate source model) []

ownership_validate-IsInOrder_example :
    IsInOrder found
    × (uses : LastUses) × (w : Walker) × (collect_last_uses file ≡ some uses)
    × (items_walk model uses file new_walker ≡ some w)
    × ((place : Span) → at_span place found ≡ at_span place w.analyzer.diagnostics)
unfolding validate sort_by_span insert_by_span collect_last_uses collect_items collect_item
    collect_function collect_statements collect_statement collect_kind collect_local
    collect_optional collect collect_path use_name record_use declaration_of declare_use declare_in
    open_scope close_scope close_scope_in declare_parameter_uses items_walk item_walk function_walk
    function_body declare_receiver_option declare_parameters body_walk push_scope release
    end_reference_loan end_scoped_loan end_scoped_loans pop_scope_bindings pop_scope declare
    lookup_in lookup_scopes lookup release_expired release_expired_loans root_origin_loop
    root_origin merge_availability merge_ids merge_states merge_from merge_many_states was_emitted
    push check_borrow_conflict check_usage mark_moved take_loan acquire_persistent_loan
    acquire_temporary_loan validate_reference_return leave_scope use_binding move_binding
    lend_temporarily lend give_back give_back_option give_back_all expire declare_local
    pop_scopes_to capture_in capture_exception_state capture_exception_if capture_loop_exit_in
    capture_loop_exit write_binding copy_capture initialize_capture borrow_capture capture_walk
    captures_walk callback_target_walk resolved_callback_walk callback_walk reference_argument
    plain_argument one_argument read_each each_argument construction_arguments target_arguments
    intrinsic_arguments default_constructions zipped_constructions use_origin each_arm switch_walk
    logical_walk both_walk write_macro_walk macro_walk index_walk lambda_walk write_name name_walk
    each_initializer assign_walk other_binary_walk binary_walk walked callee_shape walked_each
    arm_walks walked_members capture_walks enter_loop leave_loop split_continues body_pass tail_part
    loop_tail each_tail join_tails loop_iteration join_passes repeat_pass run_loop while_walk
    classic_walk declare_each range_iteration lend_if range_loop range_walk branch declare_option
    block_branch join_branches else_walk if_walk each_handler pop_exception_in join_continuing
    try_walk scoped followed_by throw_walk validate_return_if return_value return_named return_walk
    initialize_reference initialize_local declare_resolved local_walk initializer_walk clause_walk
    for_walk statement_walk kind_walk statements_walk else_branch_walk handler_walks handler_walk
    initialize_value flatten
ownership_validate-IsInOrder_example = ownership_validate-IsInOrder source model found refl
