-- ===== src/Compiler/Ownership/Walk/Arguments.antt =====
-- The arguments of calls in crates/stainless-compiler/src/ownership.rs. What the walk reads of an
-- expression is a `Walked`: its span, how it is named and written, and the walk over it as a
-- function, so that the methods that call each other through `expression` stand in order.
use stainless.Base.{
  ℕ, if◌then◌else◌, String, Bool, true, false, not, ◌&&◌, Option, none, some, List, [], ◌∷◌, ◌++◌,
  ◌>>=◌, map,
}
use stainless.Compiler.Diagnostic.{Span}
use stainless.Compiler.Types.{
  TypeRef, TypeRefs, callback, reference, nil, canonical_ref, var_type_path,
}
use stainless.Compiler.Resolution.Calls.{
  ResolvedCall, resolved_call, ResolvedCalls, no_call, and_call, CallTarget, stainless_function,
  interface_method, constructor, intrinsic, Intrinsic, tuple_new, mutex_new, rw_lock_new,
  value_initialization,
}
use stainless.Compiler.Resolution.Model.{
  SemanticModel, ParameterSymbol, ConstructorSymbol, ResolvedCallback, ResolvedLambdaCapture,
  LambdaCaptureMode, copy, initialize, borrow, CallbackTarget, function, lambda,
  expression_resolution, constructor_symbol,
}
use stainless.Compiler.Ownership.State.{Loan, FlowState, lookup}
use stainless.Compiler.Ownership.Analyzer.{Usage, read, borrow_shared, borrow_mutable}
use stainless.Compiler.Ownership.Walk.{
  Walker, state_of, use_binding, lend_temporarily, give_back_all,
}
use stainless.Compiler.Ownership.Accounting.Moves.{to_list}
use text.Mathlib.Text.{◌==◌ as str_eq}

-- A walk over an expression gives the binding that its value comes from.
abbrev pub Walk : Type 0
Walk = Usage → Walker → Option (Walker × Option ℕ)

-- `callback_argument`; the new loans, the newest first.
abbrev pub CallbackWalk : Type 0
CallbackWalk = Walker → Option (Walker × List Loan)

pub record Walked : Type 0 where
  pub span : Span
  pub walk : Walk
  pub write : Walker → Option Walker
  pub callback : CallbackWalk
  -- `named_binding`
  pub named : FlowState → Option ℕ
  -- `is_json_mutation_place`
  pub json_place : Bool

-- A capture of a lambda as it is written: the walk over its initializer, if it has one.
abbrev pub CaptureWalk : Type 0
CaptureWalk = Option Walk

abbrev pub types_list : TypeRefs → List TypeRef
types_list nil = []
types_list (TypeRefs.cons t ts) = t ∷ types_list ts

abbrev pub is_callback : TypeRef → Bool
is_callback (callback _ _ _ _ _) = true
is_callback _ = false

abbrev pub is_native_without_arguments : String → TypeRef → Bool
is_native_without_arguments path (TypeRef.native p nil) = str_eq p path
is_native_without_arguments path _ = false

abbrev pub is_json_type : TypeRef → Bool
is_json_type ty = is_native_without_arguments var_type_path ty

abbrev pub is_mutable_reference : TypeRef → Bool
is_mutable_reference (reference mutable _) = mutable
is_mutable_reference _ = false

abbrev pub is_json_string_binding : (expected actual : TypeRef) → Bool
is_json_string_binding expected actual =
    not (is_mutable_reference expected)
    && is_native_without_arguments "rust::String" (canonical_ref expected)
    && is_json_type (canonical_ref actual)

abbrev pub borrow_of : Bool → Usage
borrow_of mutable = if mutable then borrow_mutable else borrow_shared

unfoldable pub copy_capture : Option ℕ → Span → CallbackWalk
copy_capture none span w = some (w, [])
copy_capture (some id) span w = use_binding id read span w >>= λ w'. some (w', [])

unfoldable pub initialize_capture : CaptureWalk → CallbackWalk
initialize_capture none w = some (w, [])
initialize_capture (some walk) w = walk read w >>= λ r. some (r.0, [])

unfoldable pub borrow_capture : (mutable : Bool) → Option ℕ → Span → CallbackWalk
borrow_capture mutable none span w = some (w, [])
borrow_capture mutable (some id) span w = do
  used ← use_binding id (borrow_of mutable) span w
  (lent, loan) ← lend_temporarily (some id) mutable span used
  some (lent, to_list loan)

unfoldable pub capture_walk :
    LambdaCaptureMode → (name : String) → CaptureWalk → Span → CallbackWalk
capture_walk copy name syntax span w = copy_capture (lookup name (state_of w)) span w
capture_walk initialize name syntax span w = initialize_capture syntax w
capture_walk (borrow mutable) name syntax span w =
    borrow_capture mutable (lookup name (state_of w)) span w

-- `captures.iter().zip(syntax_captures)`
unfoldable pub captures_walk :
    List ResolvedLambdaCapture → List CaptureWalk → Span → List Loan → CallbackWalk
captures_walk [] syntax span loans w = some (w, loans)
captures_walk (capture ∷ captures) [] span loans w = some (w, loans)
captures_walk (capture ∷ captures) (s ∷ syntax) span loans w = do
  (walked, new) ← capture_walk capture.mode capture.name s span w
  captures_walk captures syntax span (new ++ loans) walked

unfoldable pub callback_target_walk : CallbackTarget → List CaptureWalk → Span → CallbackWalk
callback_target_walk (function _) syntax span w = some (w, [])
callback_target_walk (lambda captures) syntax span w = captures_walk captures syntax span [] w

unfoldable pub resolved_callback_walk :
    Option ResolvedCallback → List CaptureWalk → Span → CallbackWalk
resolved_callback_walk none syntax span w = some (w, [])
resolved_callback_walk (some resolved) syntax span w =
    callback_target_walk resolved.target syntax span w

-- Walks a callback and gives its loans back.
unfoldable pub callback_walk : Walked → Walker → Option Walker
callback_walk argument w = do (walked, loans) ← argument.callback w; give_back_all loans walked

-- One argument, and the loans that it takes.
unfoldable pub reference_argument :
    (mutable : Bool) → Walked → Walker → Option (Walker × (List Loan × Option ℕ))
reference_argument mutable argument w = do
  (walked, origin) ← argument.walk (borrow_of mutable) w
  (lent, loan) ← lend_temporarily origin mutable argument.span walked
  some (lent, (to_list loan, origin))

abbrev pub reference_of : TypeRef → Option Bool
reference_of (reference mutable _) = some mutable
reference_of _ = none

unfoldable pub plain_argument :
    Option Bool → Walked → Walker → Option (Walker × (List Loan × Option ℕ))
plain_argument (some mutable) argument w = reference_argument mutable argument w
plain_argument none argument w = argument.walk read w >>= λ r. some (r.0, ([], r.1))

unfoldable pub one_argument :
    (is_callback is_json_string : Bool)
    → Option Bool
    → Walked
    → Walker
    → Option (Walker × (List Loan × Option ℕ))
one_argument true is_json_string expected argument w =
    argument.callback w >>= λ r. some (r.0, (r.1, none))
one_argument false true expected argument w = argument.walk read w >>= λ r. some (r.0, ([], none))
one_argument false false expected argument w = plain_argument expected argument w

unfoldable pub read_each : List Walked → Walker → Option Walker
read_each [] w = some w
read_each (argument ∷ arguments) w = argument.walk read w >>= λ r. read_each arguments r.0

abbrev pub parameter_types : List ParameterSymbol → List TypeRef
parameter_types parameters = map (λ (p : ParameterSymbol). p.ty) parameters

module _ (semantics : SemanticModel) where
  abbrev pub is_json_string_argument : (expected : TypeRef) → Span → Bool
  is_json_string_argument expected span = elim (expression_resolution semantics span) [
    | none ↦ false
    | some actual ↦ is_json_string_binding expected actual.ty
  ]

  -- `arguments.iter().zip(expected)`, with the loans so far, the newest first.
  unfoldable pub each_argument :
      List Walked
      → List TypeRef
      → List Loan
      → Walker
      → Option (Walker × (List Loan × List (Option ℕ)))
  each_argument [] expected loans w = some (w, (loans, []))
  each_argument (argument ∷ arguments) [] loans w = some (w, (loans, []))
  each_argument (argument ∷ arguments) (ty ∷ expected) loans w = do
    (walked, (new, origin)) ←
        one_argument (is_callback ty) (is_json_string_argument ty argument.span) (reference_of ty)
          argument w
    (done, (all, origins)) ← each_argument arguments expected (new ++ loans) walked
    some (done, (all, origin ∷ origins))

  unfoldable pub call_arguments :
      List Walked → List TypeRef → Walker → Option (Walker × List (Option ℕ))
  call_arguments arguments expected w = do
    (walked, (loans, origins)) ← each_argument arguments expected [] w
    released ← give_back_all loans walked
    some (released, origins)

  unfoldable pub arguments_walk : List Walked → List TypeRef → Walker → Option Walker
  arguments_walk arguments expected w = call_arguments arguments expected w >>= λ r. some r.0

  unfoldable pub constructor_arguments :
      Option ConstructorSymbol → List Walked → Walker → Option Walker
  constructor_arguments none arguments w = some w
  constructor_arguments (some symbol) arguments w =
      arguments_walk arguments (parameter_types symbol.parameters) w

  unfoldable mutual
    pub construction_arguments : ResolvedCall → List Walked → Walker → Option Walker
    construction_arguments (resolved_call _ target _ _) arguments w =
        target_arguments target arguments w

    pub target_arguments : CallTarget → List Walked → Walker → Option Walker
    target_arguments (constructor id) arguments w =
        constructor_arguments (constructor_symbol semantics id) arguments w
    target_arguments (CallTarget.native call) arguments w =
        arguments_walk arguments call.parameter_types w
    target_arguments (intrinsic i) arguments w = intrinsic_arguments i arguments w
    target_arguments (stainless_function _) arguments w = read_each arguments w
    target_arguments (interface_method _) arguments w = read_each arguments w

    pub intrinsic_arguments : Intrinsic → List Walked → Walker → Option Walker
    intrinsic_arguments (value_initialization target) arguments w =
        arguments_walk arguments (target ∷ []) w
    intrinsic_arguments (mutex_new _ construction) arguments w =
        construction_arguments construction arguments w
    intrinsic_arguments (rw_lock_new _ construction) arguments w =
        construction_arguments construction arguments w
    intrinsic_arguments (tuple_new constructions) [] w = default_constructions constructions w
    intrinsic_arguments (tuple_new constructions) (a ∷ arguments) w =
        zipped_constructions constructions (a ∷ arguments) w
    intrinsic_arguments _ arguments w = read_each arguments w

    pub default_constructions : ResolvedCalls → Walker → Option Walker
    default_constructions no_call w = some w
    default_constructions (and_call construction rest) w =
        construction_arguments construction [] w >>= λ w'. default_constructions rest w'

    pub zipped_constructions : ResolvedCalls → List Walked → Walker → Option Walker
    zipped_constructions no_call arguments w = some w
    zipped_constructions (and_call construction rest) [] w = some w
    zipped_constructions (and_call construction rest) (argument ∷ arguments) w =
        construction_arguments construction (argument ∷ []) w >>= λ w'.
        zipped_constructions rest arguments w'
