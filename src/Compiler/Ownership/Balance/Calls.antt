-- ===== src/Compiler/Ownership/Balance/Calls.antt =====
-- Calls keep the books: the loan of a receiver is given back after the arguments are walked.
use stainless.Base.{
  if◌then◌else◌, Bool, true, false, Option, none, some, List, [], ◌∷◌, All, is_some,
}
use stainless.Compiler.Types.{TypeRef}
use stainless.Compiler.Resolution.Calls.{
  NativeCall, ResolvedCall, resolved_call, OptionalCall, absent, present, CallTarget,
  stainless_function, interface_method, intrinsic, Intrinsic,
}
use stainless.Compiler.Resolution.Model.{
  SemanticModel, FunctionSymbol, ConstructorSymbol, function_symbol, constructor_symbol,
  expression_resolution, rust_result_adaptation,
}
use stainless.Compiler.Ownership.Analyzer.{read, mutate, borrow_shared, borrow_mutable}
use stainless.Compiler.Ownership.Walk.{Walker, give_back_option, capture_exception_if}
use stainless.Compiler.Ownership.Walk.Arguments.{
  Walked, borrow_of, call_arguments, arguments_walk, parameter_types, zipped_constructions,
}
use stainless.Compiler.Ownership.Walk.Calls.{
  native_call, stainless_call, constructor_call, callable_parameters, stored_arguments,
  default_construction, initialize_value, intrinsic_call, target_call, finish_call,
  resolved_call_walk, call_of, call_walk,
}
use stainless.Compiler.Ownership.Walk.Receivers.{
  CallSyntax, call_receiver, Outcome, returned, origin, first, walk_option, receiver_loan,
  native_receiver_loan, has_throws,
}
use stainless.Compiler.Ownership.Balance.{Held, IsSound, KeepsWith, some-Kept, bind-Kept}
use stainless.Compiler.Ownership.Balance.Operations.{give_back_option-Keeps}
use stainless.Compiler.Ownership.Balance.Captures.{capture_exception_if-Keeps}
use stainless.Compiler.Ownership.Balance.Arguments.{
  WriteKeeps, WalkedKeeps, read_each-Keeps, call_arguments-Keeps, arguments_walk-Keeps,
  construction_arguments-Keeps, intrinsic_arguments-Keeps, zipped_constructions-Keeps,
}
use stainless.Compiler.Ownership.Balance.Receivers.{
  AnswerKeeps, OptionKeeps, SyntaxKeeps, borrow_and_return-Keeps, callback_option-Keeps,
  first-Keeps, join_call-Keeps, map-Kept, move_call-Keeps, native_receiver_loan-Lent,
  receiver_loan-Kept, walk_option-Keeps, with-Kept, with_receiver_loan-Keeps,
}

module _ (semantics : SemanticModel) where
  native_call-Keeps :
      (call : NativeCall) (c : CallSyntax)
      → SyntaxKeeps c
      → WriteKeeps (native_call semantics call c)
  unfolding native_call
  native_call-Keeps call c k w held s =
      bind-Kept (native_receiver_loan call.style call.receiver c.shape w) _
        (native_receiver_loan-Lent call.style call.receiver c.shape k.receiver w held s)
        (λ r s'.
          bind-Kept (arguments_walk semantics c.arguments call.parameter_types r.0) _
            (arguments_walk-Keeps semantics c.arguments call.parameter_types k.arguments r.0 _ s')
            (λ v s''. give_back_option-Keeps r.1 v s''))

  stainless_call-Keeps :
      (f : Option FunctionSymbol) (c : CallSyntax)
      → SyntaxKeeps c
      → AnswerKeeps (stainless_call semantics f c)
  unfolding stainless_call
  stainless_call-Keeps none c k w held s = some-Kept (w, returned) s
  stainless_call-Keeps (some f) c k w held s =
      bind-Kept (receiver_loan f.receiver c.shape c.callee_span w) _
        (receiver_loan-Kept f.receiver c.shape c.callee_span k.receiver w held s)
        (λ r s'.
          bind-Kept (call_arguments semantics c.arguments (parameter_types f.parameters) r.0) _
            (call_arguments-Keeps semantics c.arguments (parameter_types f.parameters) k.arguments
              r.0 _ s')
            (λ d s''.
              bind-Kept (give_back_option r.1.0 d.0) _ (give_back_option-Keeps r.1.0 d.0 s'')
                (λ v last. some-Kept _ last)))

  constructor_call-Keeps :
      (symbol : Option ConstructorSymbol) (c : CallSyntax)
      → SyntaxKeeps c
      → AnswerKeeps (constructor_call semantics symbol c)
  unfolding constructor_call
  constructor_call-Keeps none c k w held s = some-Kept (w, returned) s
  constructor_call-Keeps (some symbol) c k w held s = with-Kept (origin none) _ (
      arguments_walk-Keeps semantics c.arguments (parameter_types symbol.parameters) k.arguments w
        held s)

  stored_arguments-Keeps :
      (expected : Option (List TypeRef)) (arguments : List Walked)
      → All WalkedKeeps arguments
      → AnswerKeeps (stored_arguments semantics expected arguments)
  unfolding stored_arguments
  stored_arguments-Keeps none arguments k w held s = some-Kept (w, returned) s
  stored_arguments-Keeps (some expected) arguments k w held s =
      with-Kept (origin none) _ (arguments_walk-Keeps semantics arguments expected k w held s)

  default_construction-Keeps :
      (construction : OptionalCall) → WriteKeeps (default_construction semantics construction)
  unfolding default_construction
  default_construction-Keeps absent w held s = some-Kept w s
  default_construction-Keeps (present construction) w held s =
      construction_arguments-Keeps semantics construction [] tt w held s

  initialize_value-Keeps :
      (e : Option Walked) → OptionKeeps e → WriteKeeps (initialize_value semantics e)
  unfolding initialize_value
  initialize_value-Keeps none k w held s = some-Kept w s
  initialize_value-Keeps (some e) k w held s =
      bind-Kept (e.walk read w) _ (k.walks read w held s) (λ r s'.
        capture_exception_if-Keeps (is_some (rust_result_adaptation semantics e.span)) r.0 s')

  intrinsic_call-Keeps :
      (i : Intrinsic) (c : CallSyntax) → SyntaxKeeps c → AnswerKeeps (intrinsic_call semantics i c)
  unfolding intrinsic_call
  intrinsic_call-Keeps Intrinsic.move c k w held s =
      move_call-Keeps (first c.arguments) c.span w held s
  intrinsic_call-Keeps (Intrinsic.make_owner _ _ construction) c k w held s =
      with-Kept (origin none) _
        (construction_arguments-Keeps semantics construction c.arguments k.arguments w held s)
  intrinsic_call-Keeps (Intrinsic.mutex_new _ construction) c k w held s =
      with-Kept (origin none) _
        (construction_arguments-Keeps semantics construction c.arguments k.arguments w held s)
  intrinsic_call-Keeps (Intrinsic.rw_lock_new _ construction) c k w held s =
      with-Kept (origin none) _
        (construction_arguments-Keeps semantics construction c.arguments k.arguments w held s)
  intrinsic_call-Keeps (Intrinsic.tuple_new constructions) c k w held s =
      with-Kept (origin none) _ (
        intrinsic_arguments-Keeps semantics (Intrinsic.tuple_new constructions) c.arguments
          k.arguments w held s)
  intrinsic_call-Keeps (Intrinsic.array_new constructions default) c k w held s =
      with-Kept (origin none) _ (
        bind-Kept (zipped_constructions semantics constructions c.arguments w) _
          (zipped_constructions-Keeps semantics constructions c.arguments k.arguments w held s)
          (λ v s'. default_construction-Keeps default v held s'))
  intrinsic_call-Keeps Intrinsic.condition_new c k w held s = some-Kept (w, origin none) s
  intrinsic_call-Keeps (Intrinsic.pointer_default _ _) c k w held s = some-Kept (w, origin none) s
  intrinsic_call-Keeps (Intrinsic.default_value _) c k w held s = some-Kept (w, origin none) s
  intrinsic_call-Keeps (Intrinsic.array_query _) c k w held s =
      map-Kept (λ r. origin none) _
        (walk_option-Keeps borrow_shared (call_receiver c.shape) k.receiver w held s)
  intrinsic_call-Keeps (Intrinsic.array_fill element) c k w held s = with-Kept (origin none) _ (
      bind-Kept (walk_option borrow_mutable (call_receiver c.shape) w) _
        (walk_option-Keeps borrow_mutable (call_receiver c.shape) k.receiver w held s)
        (λ r s'. arguments_walk-Keeps semantics c.arguments (element ∷ []) k.arguments r.0 held s'))
  intrinsic_call-Keeps (Intrinsic.mutex_lock _) c k w held s =
      map-Kept (λ r. origin r) _
        (walk_option-Keeps borrow_shared (call_receiver c.shape) k.receiver w held s)
  intrinsic_call-Keeps (Intrinsic.rw_lock_read _) c k w held s =
      map-Kept (λ r. origin r) _
        (walk_option-Keeps borrow_shared (call_receiver c.shape) k.receiver w held s)
  intrinsic_call-Keeps (Intrinsic.rw_lock_write _) c k w held s =
      map-Kept (λ r. origin r) _
        (walk_option-Keeps borrow_shared (call_receiver c.shape) k.receiver w held s)
  intrinsic_call-Keeps (Intrinsic.condition_wait _) c k w held s = with-Kept (origin none) _ (
      with_receiver_loan-Keeps mutate (call_receiver c.shape) c.arguments k.receiver k.arguments w
        held s)
  intrinsic_call-Keeps (Intrinsic.condition_notify _) c k w held s =
      with-Kept (origin none) _
        (borrow_and_return-Keeps (call_receiver c.shape) k.receiver w held s)
  intrinsic_call-Keeps (Intrinsic.atomic_load _ _) c k w held s =
      with-Kept (origin none) _
        (borrow_and_return-Keeps (call_receiver c.shape) k.receiver w held s)
  intrinsic_call-Keeps (Intrinsic.downgrade_shared _) c k w held s =
      with-Kept (origin none) _
        (borrow_and_return-Keeps (call_receiver c.shape) k.receiver w held s)
  intrinsic_call-Keeps (Intrinsic.lock_weak _) c k w held s =
      with-Kept (origin none) _
        (borrow_and_return-Keeps (call_receiver c.shape) k.receiver w held s)
  intrinsic_call-Keeps Intrinsic.thread_spawn c k w held s =
      with-Kept (origin none) _
        (callback_option-Keeps (first c.arguments) (first-Keeps c.arguments k.arguments) w held s)
  intrinsic_call-Keeps Intrinsic.thread_scope c k w held s =
      with-Kept (origin none) _
        (callback_option-Keeps (first c.arguments) (first-Keeps c.arguments k.arguments) w held s)
  intrinsic_call-Keeps Intrinsic.thread_join c k w held s =
      join_call-Keeps (call_receiver c.shape) c.span k.receiver w held s
  intrinsic_call-Keeps Intrinsic.scoped_thread_join c k w held s =
      join_call-Keeps (call_receiver c.shape) c.span k.receiver w held s
  intrinsic_call-Keeps (Intrinsic.unwrap_rust_result _ _) c k w held s =
      join_call-Keeps (call_receiver c.shape) c.span k.receiver w held s
  intrinsic_call-Keeps Intrinsic.scoped_thread_spawn c k w held s = with-Kept (origin none) _ (
      bind-Kept (walk_option borrow_shared (call_receiver c.shape) w) _
        (walk_option-Keeps borrow_shared (call_receiver c.shape) k.receiver w held s)
        (λ r s'.
          callback_option-Keeps (first c.arguments) (first-Keeps c.arguments k.arguments) r.0 held
            s'))
  intrinsic_call-Keeps (Intrinsic.atomic_store _ _) c k w held s = with-Kept (origin none) _ (
      with_receiver_loan-Keeps read (call_receiver c.shape) c.arguments k.receiver k.arguments w
        held s)
  intrinsic_call-Keeps (Intrinsic.atomic_swap _ _) c k w held s = with-Kept (origin none) _ (
      with_receiver_loan-Keeps read (call_receiver c.shape) c.arguments k.receiver k.arguments w
        held s)
  intrinsic_call-Keeps (Intrinsic.stored_function_call is_mutable) c k w held s =
      bind-Kept (c.callee_walk (if is_mutable then mutate else read) w) _
        (k.callee (if is_mutable then mutate else read) w held s)
        (λ r s'.
          stored_arguments-Keeps
            (callable_parameters semantics (expression_resolution semantics c.callee_span))
            c.arguments k.arguments r.0 held s')
  intrinsic_call-Keeps (Intrinsic.optional_value _ is_mutable _) c k w held s =
      map-Kept (λ r. origin r) _
        (walk_option-Keeps (borrow_of is_mutable) (call_receiver c.shape) k.receiver w held s)
  intrinsic_call-Keeps (Intrinsic.primitive_cast _) c k w held s =
      map-Kept (λ r. origin none) _
        (walk_option-Keeps read (first c.arguments) (first-Keeps c.arguments k.arguments) w held s)
  intrinsic_call-Keeps Intrinsic.optional_to_bool c k w held s =
      map-Kept (λ r. origin none) _
        (walk_option-Keeps read (first c.arguments) (first-Keeps c.arguments k.arguments) w held s)
  intrinsic_call-Keeps (Intrinsic.enum_from_integer _) c k w held s =
      map-Kept (λ r. origin none) _
        (walk_option-Keeps read (first c.arguments) (first-Keeps c.arguments k.arguments) w held s)
  intrinsic_call-Keeps (Intrinsic.json_cast _) c k w held s =
      map-Kept (λ r. origin none) _
        (walk_option-Keeps read (first c.arguments) (first-Keeps c.arguments k.arguments) w held s)
  intrinsic_call-Keeps Intrinsic.json_wrap c k w held s =
      map-Kept (λ r. origin none) _
        (walk_option-Keeps read (first c.arguments) (first-Keeps c.arguments k.arguments) w held s)
  intrinsic_call-Keeps (Intrinsic.exception_root _) c k w held s =
      map-Kept (λ r. origin none) _
        (walk_option-Keeps read (first c.arguments) (first-Keeps c.arguments k.arguments) w held s)
  intrinsic_call-Keeps (Intrinsic.pointer_conversion _ _ _) c k w held s =
      map-Kept (λ r. origin none) _
        (walk_option-Keeps read (first c.arguments) (first-Keeps c.arguments k.arguments) w held s)
  intrinsic_call-Keeps (Intrinsic.enum_from_string _) c k w held s =
      with-Kept (origin none) _
        (borrow_and_return-Keeps (first c.arguments) (first-Keeps c.arguments k.arguments) w held s)
  intrinsic_call-Keeps (Intrinsic.enum_to_string _ true) c k w held s =
      map-Kept (λ r. origin none) _
        (walk_option-Keeps read (call_receiver c.shape) k.receiver w held s)
  intrinsic_call-Keeps (Intrinsic.enum_to_string _ false) c k w held s =
      map-Kept (λ r. origin none) _
        (walk_option-Keeps read (first c.arguments) (first-Keeps c.arguments k.arguments) w held s)
  intrinsic_call-Keeps (Intrinsic.value_initialization _) c k w held s =
      with-Kept (origin none) _
        (initialize_value-Keeps (first c.arguments) (first-Keeps c.arguments k.arguments) w held s)
  intrinsic_call-Keeps (Intrinsic.struct_aggregate _) c k w held s =
      with-Kept (origin none) _ (read_each-Keeps c.arguments k.arguments w held s)

  target_call-Keeps :
      (target : CallTarget) (c : CallSyntax)
      → SyntaxKeeps c
      → AnswerKeeps (target_call semantics target c)
  unfolding target_call
  target_call-Keeps (intrinsic i) c k w held s = intrinsic_call-Keeps i c k w held s
  target_call-Keeps (stainless_function id) c k w held s =
      stainless_call-Keeps (function_symbol semantics id) c k w held s
  target_call-Keeps (interface_method id) c k w held s =
      stainless_call-Keeps (function_symbol semantics id) c k w held s
  target_call-Keeps (CallTarget.constructor id) c k w held s =
      constructor_call-Keeps (constructor_symbol semantics id) c k w held s
  target_call-Keeps (CallTarget.native call) c k w held s =
      with-Kept (origin none) (native_call semantics call c w) (native_call-Keeps call c k w held s)

  finish_call-Keeps :
      (throws : Bool) (w : Walker) (outcome : Outcome) {held : Held}
      → IsSound w held
      → KeepsWith held (finish_call semantics throws w outcome)
  unfolding finish_call
  finish_call-Keeps throws w returned s = some-Kept (w, none) s
  finish_call-Keeps throws w (origin from) s =
      with-Kept from (capture_exception_if throws w) (capture_exception_if-Keeps throws w s)

  resolved_call_walk-Keeps :
      (call : Option ResolvedCall) (c : CallSyntax)
      → SyntaxKeeps c
      → (w : Walker) (held : Held) → IsSound w held
      → KeepsWith held (resolved_call_walk semantics call c w)
  unfolding resolved_call_walk
  resolved_call_walk-Keeps none c k w held s = some-Kept (w, none) s
  resolved_call_walk-Keeps (some (resolved_call _ target _ throws)) c k w held s =
      bind-Kept (target_call semantics target c w) _ (target_call-Keeps target c k w held s)
        (λ r s'. finish_call-Keeps (has_throws throws) r.0 r.1 s')

  pub call_walk-Keeps :
      (c : CallSyntax)
      → SyntaxKeeps c
      → (w : Walker) (held : Held) → IsSound w held
      → KeepsWith held (call_walk semantics c w)
  unfolding call_walk
  call_walk-Keeps c k w held s =
      resolved_call_walk-Keeps (call_of semantics (expression_resolution semantics c.span)) c k w
        held s
