-- ===== src/Compiler/Ownership/Walk/Calls.antt =====
-- `call` of crates/stainless-compiler/src/ownership.rs, with one function for the targets that it
-- treats alike.
use stainless.Base.{ℕ, if◌then◌else◌, Bool, ◌&&◌, Option, none, some, List, [], ◌∷◌, ◌>>=◌, is_some}
use stainless.Compiler.Types.{TypeRef, function, is_reference, canonical_ref}
use stainless.Compiler.Resolution.Calls.{
  NativeCall, ResolvedCall, resolved_call, OptionalCall, absent, present, CallTarget,
  stainless_function, interface_method, intrinsic, Intrinsic,
}
use stainless.Compiler.Resolution.Model.{
  SemanticModel, FunctionSymbol, ConstructorSymbol, function_symbol, constructor_symbol,
  expression_resolution, rust_result_adaptation, ExpressionResolution,
}
use stainless.Compiler.Ownership.Analyzer.{read, mutate, borrow_shared, borrow_mutable}
use stainless.Compiler.Ownership.Walk.{Walker, give_back_option, capture_exception_if}
use stainless.Compiler.Ownership.Walk.Arguments.{
  Walked, borrow_of, types_list, call_arguments, arguments_walk, read_each, construction_arguments,
  intrinsic_arguments, zipped_constructions, parameter_types,
}
use stainless.Compiler.Ownership.Walk.Receivers.{
  Answer, CallSyntax, Outcome, borrow_and_return, call_receiver, callback_option, discard, first,
  has_throws, join_call, keep, move_call, native_receiver_loan, no_origin, origin, origin_at,
  receiver_loan, return_borrow_parameter, returned, walk_option, with_receiver_loan,
}

module _ (semantics : SemanticModel) where
  unfoldable pub native_call : NativeCall → CallSyntax → Walker → Option Walker
  native_call call syntax w = do
    (walked, loan) ← native_receiver_loan call.style call.receiver syntax.shape w
    done ← arguments_walk semantics syntax.arguments call.parameter_types walked
    give_back_option loan done

  unfoldable pub stainless_call : Option FunctionSymbol → CallSyntax → Walker → Answer
  stainless_call none syntax w = some (w, returned)
  stainless_call (some f) syntax w = do
    (walked, (loan, from)) ← receiver_loan f.receiver syntax.shape syntax.callee_span w
    (done, origins) ←
        call_arguments semantics syntax.arguments (parameter_types f.parameters) walked
    released ← give_back_option loan done
    some (
      released,
      origin (
          if is_some f.receiver && is_reference f.return_type
          then from
          else origin_at origins (return_borrow_parameter f)),
    )

  unfoldable pub constructor_call : Option ConstructorSymbol → CallSyntax → Walker → Answer
  constructor_call none syntax w = some (w, returned)
  constructor_call (some c) syntax w =
      no_origin (arguments_walk semantics syntax.arguments (parameter_types c.parameters) w)

  -- The parameters of a callable value, if the type is that of one.
  abbrev pub function_parameters : TypeRef → Option (List TypeRef)
  function_parameters (function _ parameters _) = some (types_list parameters)
  function_parameters _ = none

  abbrev pub callable_parameters : Option ExpressionResolution → Option (List TypeRef)
  callable_parameters none = none
  callable_parameters (some e) = function_parameters (canonical_ref e.ty)

  unfoldable pub stored_arguments : Option (List TypeRef) → List Walked → Walker → Answer
  stored_arguments none arguments w = some (w, returned)
  stored_arguments (some expected) arguments w =
      no_origin (arguments_walk semantics arguments expected w)

  unfoldable pub default_construction : OptionalCall → Walker → Option Walker
  default_construction absent w = some w
  default_construction (present call) w = construction_arguments semantics call [] w

  unfoldable pub initialize_value : Option Walked → Walker → Option Walker
  initialize_value none w = some w
  initialize_value (some argument) w = do
    (walked, _) ← argument.walk read w
    capture_exception_if (is_some (rust_result_adaptation semantics argument.span)) walked

  unfoldable pub intrinsic_call : Intrinsic → CallSyntax → Walker → Answer
  intrinsic_call Intrinsic.move c w = move_call (first c.arguments) c.span w
  intrinsic_call (Intrinsic.make_owner _ _ construction) c w =
      no_origin (construction_arguments semantics construction c.arguments w)
  intrinsic_call (Intrinsic.mutex_new _ construction) c w =
      no_origin (construction_arguments semantics construction c.arguments w)
  intrinsic_call (Intrinsic.rw_lock_new _ construction) c w =
      no_origin (construction_arguments semantics construction c.arguments w)
  intrinsic_call (Intrinsic.tuple_new constructions) c w =
      no_origin (intrinsic_arguments semantics (Intrinsic.tuple_new constructions) c.arguments w)
  intrinsic_call (Intrinsic.array_new constructions default) c w = no_origin (
      zipped_constructions semantics constructions c.arguments w >>= λ w'.
      default_construction default w')
  intrinsic_call Intrinsic.condition_new c w = some (w, origin none)
  intrinsic_call (Intrinsic.pointer_default _ _) c w = some (w, origin none)
  intrinsic_call (Intrinsic.default_value _) c w = some (w, origin none)
  intrinsic_call (Intrinsic.array_query _) c w =
      discard (walk_option borrow_shared (call_receiver c.shape) w)
  intrinsic_call (Intrinsic.array_fill element) c w = no_origin (
      walk_option borrow_mutable (call_receiver c.shape) w >>= λ r.
      arguments_walk semantics c.arguments (element ∷ []) r.0)
  intrinsic_call (Intrinsic.mutex_lock _) c w =
      keep (walk_option borrow_shared (call_receiver c.shape) w)
  intrinsic_call (Intrinsic.rw_lock_read _) c w =
      keep (walk_option borrow_shared (call_receiver c.shape) w)
  intrinsic_call (Intrinsic.rw_lock_write _) c w =
      keep (walk_option borrow_shared (call_receiver c.shape) w)
  intrinsic_call (Intrinsic.condition_wait _) c w =
      no_origin (with_receiver_loan mutate (call_receiver c.shape) c.arguments w)
  intrinsic_call (Intrinsic.condition_notify _) c w =
      no_origin (borrow_and_return (call_receiver c.shape) w)
  intrinsic_call (Intrinsic.atomic_load _ _) c w =
      no_origin (borrow_and_return (call_receiver c.shape) w)
  intrinsic_call (Intrinsic.downgrade_shared _) c w =
      no_origin (borrow_and_return (call_receiver c.shape) w)
  intrinsic_call (Intrinsic.lock_weak _) c w =
      no_origin (borrow_and_return (call_receiver c.shape) w)
  intrinsic_call Intrinsic.thread_spawn c w = no_origin (callback_option (first c.arguments) w)
  intrinsic_call Intrinsic.thread_scope c w = no_origin (callback_option (first c.arguments) w)
  intrinsic_call Intrinsic.thread_join c w = join_call (call_receiver c.shape) c.span w
  intrinsic_call Intrinsic.scoped_thread_join c w = join_call (call_receiver c.shape) c.span w
  intrinsic_call (Intrinsic.unwrap_rust_result _ _) c w = join_call (call_receiver c.shape) c.span w
  intrinsic_call Intrinsic.scoped_thread_spawn c w = no_origin (
      walk_option borrow_shared (call_receiver c.shape) w >>= λ r.
      callback_option (first c.arguments) r.0)
  intrinsic_call (Intrinsic.atomic_store _ _) c w =
      no_origin (with_receiver_loan read (call_receiver c.shape) c.arguments w)
  intrinsic_call (Intrinsic.atomic_swap _ _) c w =
      no_origin (with_receiver_loan read (call_receiver c.shape) c.arguments w)
  intrinsic_call (Intrinsic.stored_function_call is_mutable) c w =
      c.callee_walk (if is_mutable then mutate else read) w >>= λ r.
      stored_arguments (callable_parameters (expression_resolution semantics c.callee_span))
        c.arguments r.0
  intrinsic_call (Intrinsic.optional_value _ is_mutable _) c w =
      keep (walk_option (borrow_of is_mutable) (call_receiver c.shape) w)
  intrinsic_call (Intrinsic.primitive_cast _) c w = discard (walk_option read (first c.arguments) w)
  intrinsic_call Intrinsic.optional_to_bool c w = discard (walk_option read (first c.arguments) w)
  intrinsic_call (Intrinsic.enum_from_integer _) c w =
      discard (walk_option read (first c.arguments) w)
  intrinsic_call (Intrinsic.json_cast _) c w = discard (walk_option read (first c.arguments) w)
  intrinsic_call Intrinsic.json_wrap c w = discard (walk_option read (first c.arguments) w)
  intrinsic_call (Intrinsic.exception_root _) c w = discard (walk_option read (first c.arguments) w)
  intrinsic_call (Intrinsic.pointer_conversion _ _ _) c w =
      discard (walk_option read (first c.arguments) w)
  intrinsic_call (Intrinsic.enum_from_string _) c w =
      no_origin (borrow_and_return (first c.arguments) w)
  intrinsic_call (Intrinsic.enum_to_string _ receiver) c w =
      discard (walk_option read (if receiver then call_receiver c.shape else first c.arguments) w)
  intrinsic_call (Intrinsic.value_initialization _) c w =
      no_origin (initialize_value (first c.arguments) w)
  intrinsic_call (Intrinsic.struct_aggregate _) c w = no_origin (read_each c.arguments w)

  unfoldable pub target_call : CallTarget → CallSyntax → Walker → Answer
  target_call (intrinsic i) c w = intrinsic_call i c w
  target_call (stainless_function id) c w = stainless_call (function_symbol semantics id) c w
  target_call (interface_method id) c w = stainless_call (function_symbol semantics id) c w
  target_call (CallTarget.constructor id) c w =
      constructor_call (constructor_symbol semantics id) c w
  target_call (CallTarget.native call) c w = no_origin (native_call call c w)

  -- The end of `call`: the calls that return from inside the `match` do not reach it.
  unfoldable pub finish_call : (throws : Bool) → Walker → Outcome → Option (Walker × Option ℕ)
  finish_call throws w returned = some (w, none)
  finish_call throws w (origin from) = capture_exception_if throws w >>= λ w'. some (w', from)

  unfoldable pub resolved_call_walk :
      Option ResolvedCall → CallSyntax → Walker → Option (Walker × Option ℕ)
  resolved_call_walk none c w = some (w, none)
  resolved_call_walk (some (resolved_call _ target _ throws)) c w =
      target_call target c w >>= λ r. finish_call (has_throws throws) r.0 r.1

  abbrev pub call_of : Option ExpressionResolution → Option ResolvedCall
  call_of none = none
  call_of (some e) = e.call

  unfoldable pub call_walk : CallSyntax → Walker → Option (Walker × Option ℕ)
  call_walk c w = resolved_call_walk (call_of (expression_resolution semantics c.span)) c w
