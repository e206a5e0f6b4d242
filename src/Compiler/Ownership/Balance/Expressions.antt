-- ===== src/Compiler/Ownership/Balance/Expressions.antt =====
-- Every expression's walk keeps the books, whatever it is used for.
use stainless.Base.{if◌then◌else◌, String, Bool, true, false, none, List, [], ◌∷◌, All, is_some}
use stainless.Compiler.Diagnostic.{Span}
use stainless.Compiler.Syntax.Statements.{
  Expression, expression, Expressions, no_expression, and_expression, name, generic_name, literal,
  parenthesized, prefix, postfix, binary, switch, call, macro_call, aggregate, json_array,
  json_object, field, index, lambda, await, malformed_expression, SwitchArms, no_arm, and_arm,
  switch_arm, JsonMembers, no_member, and_member, LambdaCaptures, no_capture, and_capture,
  lambda_capture, copy, borrow, initialize, BinaryOperator, assign,
}
use stainless.Compiler.Resolution.Model.{SemanticModel, rust_result_adaptation}
use stainless.Compiler.Resolution.Model as Model
use stainless.Compiler.Ownership.Analyzer.{read, mutate}
use stainless.Compiler.Ownership.Walk.{state_of, capture_exception_if}
use stainless.Compiler.Ownership.Walk.Arguments.{Walked}
use stainless.Compiler.Ownership.Walk.Receivers.{call_receiver, first}
use stainless.Compiler.Ownership.Walk.Expressions.{
  lookup_option, is_step, is_compound_assignment, is_logical, last_segment, is_write_macro,
  origin_of_name, name_walk, name_walked, each_initializer, assign_walk, other_binary_walk,
  binary_walk, callee_name, walked, callee_shape, walked_each, arm_walks, walked_members,
  capture_walks,
}
use stainless.Compiler.Ownership.Balance.{some-Kept, bind-Kept}
use stainless.Compiler.Ownership.Balance.Captures.{capture_exception_if-Keeps}
use stainless.Compiler.Ownership.Balance.Arguments.{
  WalkKeeps, WriteKeeps, WalkedKeeps, CaptureKeeps, resolved_callback_walk-Keeps, read_each-Keeps,
}
use stainless.Compiler.Ownership.Balance.Calls.{call_walk-Keeps}
use stainless.Compiler.Ownership.Balance.Receivers.{OptionKeeps}
use stainless.Compiler.Ownership.Balance.Operators.{
  both_walk-Keeps, discards, index_walk-Keeps, lambda_walk-Keeps, logical_walk-Keeps,
  macro_walk-Keeps, no_callback, plain-Keeps, silent-Keeps, switch_walk-Keeps, use_origin-Keeps,
  write_name-Keeps,
}

module _ (semantics : SemanticModel) where
  name_walk-Keeps :
      (segments : List String) (span : Span) → WalkKeeps (name_walk semantics segments span)
  unfolding name_walk
  name_walk-Keeps segments span usage w held s =
      use_origin-Keeps (origin_of_name semantics segments span w) usage span w held s

  name_walked-Keeps :
      (segments : List String) (span : Span) → WalkedKeeps (name_walked semantics segments span)
  name_walked-Keeps segments span = record {
    walks = name_walk-Keeps segments span;
    writes = λ w held s.
        write_name-Keeps (lookup_option (first segments) (state_of w)) span
          (name_walk semantics segments span) (name_walk-Keeps segments span) w held s;
    calls_back = no_callback;
  }

  each_initializer-Keeps :
      (initializers : List Walked)
      → All WalkedKeeps initializers
      → WriteKeeps (each_initializer semantics initializers)
  unfolding each_initializer
  each_initializer-Keeps [] k w held s = some-Kept w s
  each_initializer-Keeps (i ∷ initializers) (one, k) w held s =
      bind-Kept (i.walk read w) _ (one.walks read w held s) (λ r s'.
        bind-Kept (capture_exception_if (is_some (rust_result_adaptation semantics i.span)) r.0) _
          (capture_exception_if-Keeps (is_some (rust_result_adaptation semantics i.span)) r.0 s')
          (λ v s''. each_initializer-Keeps initializers k v held s''))

  assign_walk-Keeps :
      (left right : Walked)
      → WalkedKeeps left
      → WalkedKeeps right
      → WriteKeeps (assign_walk semantics left right)
  unfolding assign_walk
  assign_walk-Keeps left right l r w held s =
      bind-Kept (right.walk read w) _ (r.walks read w held s) (λ v s₁.
        bind-Kept (capture_exception_if (is_some (rust_result_adaptation semantics right.span)) v.0)
          _
          (capture_exception_if-Keeps (is_some (rust_result_adaptation semantics right.span)) v.0
            s₁)
          (λ a s₂.
            bind-Kept (capture_exception_if left.json_place a) _
              (capture_exception_if-Keeps left.json_place a s₂) (λ c s₃. l.writes c held s₃)))

  other_binary_walk-Keeps :
      (compound logical : Bool) (left right : Walked)
      → WalkedKeeps left
      → WalkedKeeps right
      → WriteKeeps (other_binary_walk semantics compound logical left right)
  unfolding other_binary_walk
  other_binary_walk-Keeps true logical left right l r w held s =
      both_walk-Keeps right.walk read left.walk mutate r.walks l.walks w held s
  other_binary_walk-Keeps false true left right l r w held s =
      logical_walk-Keeps left.walk right.walk l.walks r.walks w held s
  other_binary_walk-Keeps false false left right l r w held s =
      both_walk-Keeps left.walk read right.walk read l.walks r.walks w held s

  binary_walk-Keeps :
      (left : Walked) (operator : BinaryOperator) (right : Walked)
      → WalkedKeeps left
      → WalkedKeeps right
      → WriteKeeps (binary_walk semantics left operator right)
  unfolding binary_walk
  binary_walk-Keeps left assign right l r w held s = assign_walk-Keeps left right l r w held s
  binary_walk-Keeps left operator right l r w held s =
      other_binary_walk-Keeps (is_compound_assignment operator) (is_logical operator) left right l r
        w held s

  callee_name-Keeps :
      (segments : List String) → OptionKeeps (call_receiver (callee_name semantics segments))
  callee_name-Keeps (segment ∷ (next ∷ rest)) = tt
  callee_name-Keeps (segment ∷ []) = tt
  callee_name-Keeps [] = tt

  mutual
    unfolding walked callee_shape walked_each arm_walks walked_members capture_walks

    pub walked-Keeps : (e : Expression) → WalkedKeeps (walked semantics e)
    walked-Keeps (expression (name path) span) = name_walked-Keeps path.segments span
    walked-Keeps (expression (generic_name _ _) span) =
        plain-Keeps span _ (λ usage w held s. some-Kept (w, none) s)
    walked-Keeps (expression (literal _) span) =
        plain-Keeps span _ (λ usage w held s. some-Kept (w, none) s)
    walked-Keeps (expression malformed_expression span) =
        plain-Keeps span _ (λ usage w held s. some-Kept (w, none) s)
    walked-Keeps (expression (lambda captures _ _ _ _) span) =
        let k =
          resolved_callback_walk-Keeps (Model.callback semantics span)
            (capture_walks semantics captures) span (capture_walks-Keeps captures) in
        let l = lambda_walk-Keeps _ k in
        record { walks = l; writes = discards _ mutate l; calls_back = k }
    walked-Keeps (expression (parenthesized inner) span) =
        let k = walked-Keeps inner in
        record { walks = k.walks; writes = k.writes; calls_back = no_callback }
    walked-Keeps (expression (await inner) span) = plain-Keeps span _ (walked-Keeps inner).walks
    walked-Keeps (expression (prefix operator operand) span) = plain-Keeps span _ (
        silent-Keeps _ (λ usage.
          discards _ (if is_step operator then mutate else read) (walked-Keeps operand).walks))
    walked-Keeps (expression (postfix _ operand) span) =
        plain-Keeps span _
          (silent-Keeps _ (λ usage. discards _ mutate (walked-Keeps operand).walks))
    walked-Keeps (expression (binary left operator right) span) = plain-Keeps span _ (
        silent-Keeps _ (λ usage.
          binary_walk-Keeps (walked semantics left) operator (walked semantics right)
            (walked-Keeps left) (walked-Keeps right)))
    walked-Keeps (expression (switch scrutinee arms) span) =
        plain-Keeps span _
          (switch_walk-Keeps _ _ (walked-Keeps scrutinee).walks (arm_walks-Keeps arms))
    walked-Keeps (expression (call callee arguments) span) = plain-Keeps span _ (λ usage w held s.
        call_walk-Keeps semantics _
          (record {
            callee = (walked-Keeps callee).walks;
            receiver = callee_shape-Keeps callee;
            arguments = walked_each-Keeps arguments;
          })
          w held s)
    walked-Keeps (expression (macro_call callee arguments) span) = plain-Keeps span _ (
        silent-Keeps _ (λ usage.
          macro_walk-Keeps (is_write_macro (last_segment callee.segments))
            (walked_each semantics arguments) (walked_each-Keeps arguments)))
    walked-Keeps (expression (aggregate _ initializers) span) = plain-Keeps span _ (
        silent-Keeps _ (λ usage.
          each_initializer-Keeps (walked_each semantics initializers)
            (walked_each-Keeps initializers)))
    walked-Keeps (expression (json_array elements) span) = plain-Keeps span _ (
        silent-Keeps _
          (λ usage. read_each-Keeps (walked_each semantics elements) (walked_each-Keeps elements)))
    walked-Keeps (expression (json_object members) span) = plain-Keeps span _ (
        silent-Keeps _ (λ usage.
          read_each-Keeps (walked_members semantics members) (walked_members-Keeps members)))
    walked-Keeps (expression (field receiver _) span) =
        let k = (walked-Keeps receiver).walks in
        record { walks = k; writes = discards _ mutate k; calls_back = no_callback }
    walked-Keeps (expression (index receiver place) span) =
        let k = index_walk-Keeps _ _ (walked-Keeps receiver).walks (walked-Keeps place).walks in
        record { walks = k; writes = discards _ mutate k; calls_back = no_callback }

    callee_shape-Keeps : (e : Expression) → OptionKeeps (call_receiver (callee_shape semantics e))
    callee_shape-Keeps (expression (field receiver _) _) = walked-Keeps receiver
    callee_shape-Keeps (expression (name path) _) = callee_name-Keeps path.segments
    callee_shape-Keeps (expression _ _) = tt

    walked_each-Keeps : (es : Expressions) → All WalkedKeeps (walked_each semantics es)
    walked_each-Keeps no_expression = tt
    walked_each-Keeps (and_expression e rest) = (walked-Keeps e, walked_each-Keeps rest)

    arm_walks-Keeps : (arms : SwitchArms) → All WalkKeeps (arm_walks semantics arms)
    arm_walks-Keeps no_arm = tt
    arm_walks-Keeps (and_arm (switch_arm _ value _) rest) =
        ((walked-Keeps value).walks, arm_walks-Keeps rest)

    walked_members-Keeps :
        (members : JsonMembers) → All WalkedKeeps (walked_members semantics members)
    walked_members-Keeps no_member = tt
    walked_members-Keeps (and_member _ value rest) = (walked-Keeps value, walked_members-Keeps rest)

    capture_walks-Keeps :
        (captures : LambdaCaptures) → All CaptureKeeps (capture_walks semantics captures)
    capture_walks-Keeps no_capture = tt
    capture_walks-Keeps (and_capture (lambda_capture _ (initialize e) _) rest) =
        ((walked-Keeps e).walks, capture_walks-Keeps rest)
    capture_walks-Keeps (and_capture (lambda_capture _ copy _) rest) =
        (tt, capture_walks-Keeps rest)
    capture_walks-Keeps (and_capture (lambda_capture _ borrow _) rest) =
        (tt, capture_walks-Keeps rest)
