-- ===== src/Compiler/Ownership/Walk/Expressions.antt =====
-- `expression` of crates/stainless-compiler/src/ownership.rs with `binary`, `write` and
-- `named_binding`: every expression becomes the walk over it.
use stainless.Base.{
  ℕ, if◌then◌else◌, String, Bool, true, false, not, ◌&&◌, ◌||◌, Option, none, some, List, [], ◌∷◌,
  ◌>>=◌, is_some,
}
use stainless.Compiler.Diagnostic.{Span}
use stainless.Compiler.Types.{canonical_ref}
use stainless.Compiler.Syntax.Statements.{
  Expression, expression, Expressions, no_expression, and_expression, name, generic_name, literal,
  parenthesized, prefix, postfix, binary, switch, call, macro_call, aggregate, json_array,
  json_object, field, index, lambda, await, malformed_expression, SwitchArms, no_arm, and_arm,
  switch_arm, JsonMembers, no_member, and_member, LambdaCaptures, no_capture, and_capture,
  lambda_capture, copy, borrow, initialize, PrefixOperator, BinaryOperator, assign, add_assign,
  subtract_assign, multiply_assign, divide_assign, remainder_assign, logical_or, logical_and,
}
use stainless.Compiler.Resolution.Model.{
  SemanticModel, ExpressionResolution, expression_resolution, rust_result_adaptation,
}
use stainless.Compiler.Resolution.Model as Model
use stainless.Compiler.Ownership.State.{Loan, FlowState, lookup, merge_states, merge_many_states}
use stainless.Compiler.Ownership.Analyzer.{Usage, read, mutate, borrow_mutable}
use stainless.Compiler.Ownership.Walk.{
  Walker, state_of, set_state, use_binding, give_back_all, capture_exception_state,
  capture_exception_if, write_binding,
}
use stainless.Compiler.Ownership.Walk.Arguments.{
  Walk, Walked, CaptureWalk, is_json_type, resolved_callback_walk, read_each,
}
use stainless.Compiler.Ownership.Walk.Calls.{call_walk}
use stainless.Compiler.Ownership.Walk.Receivers.{
  CalleeShape, field_callee, qualified_name, other_callee, CallSyntax, first,
}
use text.Mathlib.Text.{◌==◌ as str_eq}

abbrev pub no_binding : Option Walker → Option (Walker × Option ℕ)
no_binding walked = walked >>= λ w. some (w, none)

-- An expression that is neither a name nor a lambda.
abbrev pub plain : Span → Walk → Walked
plain span walk = record {
  span = span;
  walk = walk;
  write = λ w. walk mutate w >>= λ r. some r.0;
  callback = λ w. some (w, []);
  named = λ st. none;
  json_place = false;
}

abbrev pub lookup_option : Option String → FlowState → Option ℕ
lookup_option none st = none
lookup_option (some segment) st = lookup segment st

unfoldable pub use_origin : Option ℕ → Usage → Span → Walker → Option (Walker × Option ℕ)
use_origin none usage span w = some (w, none)
use_origin (some id) usage span w = use_binding id usage span w >>= λ w'. some (w', some id)

abbrev pub or_else {ℓ} : {A : Type ℓ} → Option A → Option A → Option A
or_else none other = other
or_else (some a) other = some a

abbrev pub has_field : Option ExpressionResolution → Bool
has_field none = false
has_field (some e) = is_some e.field

abbrev pub lacks_field : Option ExpressionResolution → Bool
lacks_field none = false
lacks_field (some e) = not (is_some e.field)

abbrev pub has_json_type : Option ExpressionResolution → Bool
has_json_type none = false
has_json_type (some e) = is_json_type (canonical_ref e.ty)

abbrev pub single_segment : List String → Option String
single_segment [] = none
single_segment (segment ∷ []) = some segment
single_segment (segment ∷ (next ∷ rest)) = none

abbrev pub is_step : PrefixOperator → Bool
is_step PrefixOperator.increment = true
is_step PrefixOperator.decrement = true
is_step _ = false

abbrev pub is_compound_assignment : BinaryOperator → Bool
is_compound_assignment add_assign = true
is_compound_assignment subtract_assign = true
is_compound_assignment multiply_assign = true
is_compound_assignment divide_assign = true
is_compound_assignment remainder_assign = true
is_compound_assignment _ = false

abbrev pub is_logical : BinaryOperator → Bool
is_logical logical_or = true
is_logical logical_and = true
is_logical _ = false

abbrev pub last_segment : List String → Option String
last_segment [] = none
last_segment (segment ∷ []) = some segment
last_segment (segment ∷ (next ∷ rest)) = last_segment (next ∷ rest)

abbrev pub is_write_macro : Option String → Bool
is_write_macro none = false
is_write_macro (some macro) = str_eq macro "write" || str_eq macro "writeln"

-- The arms of a switch, each from the state before it, and the states after them.
unfoldable pub each_arm : List Walk → FlowState → Usage → Walker → Option (Walker × List FlowState)
each_arm [] baseline usage w = some (w, [])
each_arm (arm ∷ arms) baseline usage w = do
  (walked, _) ← arm usage (set_state baseline w)
  (done, states) ← each_arm arms baseline usage walked
  some (done, state_of walked ∷ states)

unfoldable pub switch_walk : Walk → List Walk → Walk
switch_walk scrutinee arms usage w = do
  (walked, _) ← scrutinee read w
  (done, states) ← each_arm arms (state_of walked) usage walked
  merged ← merge_many_states (state_of walked) states
  some (set_state merged done, none)

unfoldable pub logical_walk : Walk → Walk → Walker → Option Walker
logical_walk left right w = do
  (before, _) ← left read w
  (after, _) ← right read before
  merged ← merge_states (state_of before) (state_of before) (state_of after)
  some (set_state merged after)

unfoldable pub both_walk : Walk → Usage → Walk → Usage → Walker → Option Walker
both_walk one usage other usage' w = do
  (walked, _) ← one usage w
  (done, _) ← other usage' walked
  some done

unfoldable pub write_macro_walk : List Walked → Walker → Option Walker
write_macro_walk [] w = capture_exception_state w
write_macro_walk (destination ∷ arguments) w = do
  (walked, _) ← destination.walk borrow_mutable w
  done ← read_each arguments walked
  capture_exception_state done

unfoldable pub macro_walk : Bool → List Walked → Walker → Option Walker
macro_walk true arguments w = write_macro_walk arguments w
macro_walk false arguments w = read_each arguments w

unfoldable pub index_walk : Walk → Walk → Walk
index_walk receiver place usage w = do
  (walked, from) ← receiver usage w
  (done, _) ← place read walked
  some (done, from)

unfoldable pub lambda_walk : (Walker → Option (Walker × List Loan)) → Walk
lambda_walk callback usage w = do
  (walked, loans) ← callback w
  released ← give_back_all loans walked
  some (released, none)

unfoldable pub write_name : Option ℕ → Span → Walk → Walker → Option Walker
write_name none span walk w = walk mutate w >>= λ r. some r.0
write_name (some id) span walk w = write_binding id span w

module _ (semantics : SemanticModel) where
  -- The binding of a name, or the receiver if the name is that of a field.
  abbrev pub origin_of_name : List String → Span → Walker → Option ℕ
  origin_of_name segments span w =
      or_else (lookup_option (first segments) (state_of w))
        (if has_field (expression_resolution semantics span) then w.receiver_binding else none)

  unfoldable pub name_walk : List String → Span → Walk
  name_walk segments span usage w = use_origin (origin_of_name segments span w) usage span w

  abbrev pub name_walked : List String → Span → Walked
  name_walked segments span = record {
    span = span;
    walk = name_walk segments span;
    write = λ w.
        write_name (lookup_option (first segments) (state_of w)) span (name_walk segments span) w;
    callback = λ w. some (w, []);
    named = λ st. lookup_option (single_segment segments) st;
    json_place = false;
  }

  unfoldable pub each_initializer : List Walked → Walker → Option Walker
  each_initializer [] w = some w
  each_initializer (initializer ∷ initializers) w = do
    (walked, _) ← initializer.walk read w
    captured ←
        capture_exception_if (is_some (rust_result_adaptation semantics initializer.span)) walked
    each_initializer initializers captured

  unfoldable pub assign_walk : Walked → Walked → Walker → Option Walker
  assign_walk left right w = do
    (walked, _) ← right.walk read w
    adapted ← capture_exception_if (is_some (rust_result_adaptation semantics right.span)) walked
    captured ← capture_exception_if left.json_place adapted
    left.write captured

  unfoldable pub other_binary_walk :
      (compound logical : Bool) → Walked → Walked → Walker → Option Walker
  other_binary_walk true logical left right w = both_walk right.walk read left.walk mutate w
  other_binary_walk false true left right w = logical_walk left.walk right.walk w
  other_binary_walk false false left right w = both_walk left.walk read right.walk read w

  unfoldable pub binary_walk : Walked → BinaryOperator → Walked → Walker → Option Walker
  binary_walk left assign right w = assign_walk left right w
  binary_walk left operator right w =
      other_binary_walk (is_compound_assignment operator) (is_logical operator) left right w

  abbrev pub json_receiver : Span → Bool
  json_receiver span = has_json_type (expression_resolution semantics span)

  abbrev pub callee_name : List String → CalleeShape
  callee_name (segment ∷ (next ∷ rest)) = qualified_name
  callee_name (segment ∷ []) = other_callee
  callee_name [] = other_callee

  unfoldable mutual
    pub walked : Expression → Walked
    walked (expression (name path) span) = name_walked path.segments span
    walked (expression (generic_name _ _) span) = plain span (λ usage w. some (w, none))
    walked (expression (literal _) span) = plain span (λ usage w. some (w, none))
    walked (expression malformed_expression span) = plain span (λ usage w. some (w, none))
    walked (expression (lambda captures _ _ _ _) span) =
        let callback =
          resolved_callback_walk (Model.callback semantics span) (capture_walks captures) span in
        record (plain span (lambda_walk callback)) { callback = callback }
    walked (expression (parenthesized inner) span) =
        let e = walked inner in record (plain span e.walk) { write = e.write; named = e.named }
    walked (expression (await inner) span) = plain span (walked inner).walk
    walked (expression (prefix operator operand) span) =
        let e = walked operand in
        plain span (λ usage w.
          no_binding (e.walk (if is_step operator then mutate else read) w >>= λ r. some r.0))
    walked (expression (postfix _ operand) span) =
        let e = walked operand in
        plain span (λ usage w. no_binding (e.walk mutate w >>= λ r. some r.0))
    walked (expression (binary left operator right) span) =
        let l = walked left in
        let r = walked right in plain span (λ usage w. no_binding (binary_walk l operator r w))
    walked (expression (switch scrutinee arms) span) =
        plain span (switch_walk (walked scrutinee).walk (arm_walks arms))
    walked (expression (call callee arguments) span) =
        let e = walked callee in
        let syntax : CallSyntax = record {
          span = span;
          callee_span = e.span;
          callee_walk = e.walk;
          shape = callee_shape callee;
          arguments = walked_each arguments;
        } in
        plain span (λ usage w. call_walk semantics syntax w)
    walked (expression (macro_call callee arguments) span) =
        let each = walked_each arguments in
        plain span (λ usage w.
          no_binding (macro_walk (is_write_macro (last_segment callee.segments)) each w))
    walked (expression (aggregate _ initializers) span) =
        let each = walked_each initializers in
        plain span (λ usage w. no_binding (each_initializer each w))
    walked (expression (json_array elements) span) =
        let each = walked_each elements in plain span (λ usage w. no_binding (read_each each w))
    walked (expression (json_object members) span) =
        let each = walked_members members in plain span (λ usage w. no_binding (read_each each w))
    walked (expression (field receiver _) span) =
        let e = walked receiver in
        record (plain span e.walk) {
          json_place = lacks_field (expression_resolution semantics span) && json_receiver e.span;
        }
    walked (expression (index receiver place) span) =
        let e = walked receiver in
        record (plain span (index_walk e.walk (walked place).walk)) {
          json_place = json_receiver e.span;
        }

    pub callee_shape : Expression → CalleeShape
    callee_shape (expression (field receiver _) _) = field_callee (walked receiver)
    callee_shape (expression (name path) _) = callee_name path.segments
    callee_shape (expression _ _) = other_callee

    pub walked_each : Expressions → List Walked
    walked_each no_expression = []
    walked_each (and_expression e rest) = walked e ∷ walked_each rest

    pub arm_walks : SwitchArms → List Walk
    arm_walks no_arm = []
    arm_walks (and_arm (switch_arm _ value _) rest) = (walked value).walk ∷ arm_walks rest

    pub walked_members : JsonMembers → List Walked
    walked_members no_member = []
    walked_members (and_member _ value rest) = walked value ∷ walked_members rest

    pub capture_walks : LambdaCaptures → List CaptureWalk
    capture_walks no_capture = []
    capture_walks (and_capture (lambda_capture _ (initialize e) _) rest) =
        some (walked e).walk ∷ capture_walks rest
    capture_walks (and_capture (lambda_capture _ copy _) rest) = none ∷ capture_walks rest
    capture_walks (and_capture (lambda_capture _ borrow _) rest) = none ∷ capture_walks rest
