-- ===== src/Compiler/Ownership/Balance/Arguments.antt =====
-- Walks over arguments keep the books: the loans of the arguments are out until they are given back.
use stainless.Base.{
  ℕ, String, Bool, true, false, Option, none, some, List, [], ◌∷◌, ◌++◌, append_assoc, All, sym,
}
use stainless.Compiler.Diagnostic.{Span}
use stainless.Compiler.Types.{TypeRef}
use stainless.Compiler.Resolution.Calls.{
  ResolvedCall, resolved_call, ResolvedCalls, no_call, and_call, CallTarget, stainless_function,
  interface_method, constructor, intrinsic, Intrinsic, tuple_new, mutex_new, rw_lock_new,
  value_initialization,
}
use stainless.Compiler.Resolution.Model.{
  SemanticModel, ConstructorSymbol, ResolvedCallback, ResolvedLambdaCapture, LambdaCaptureMode,
  copy, initialize, borrow, CallbackTarget, function, lambda, constructor_symbol,
}
use stainless.Compiler.Ownership.State.{Loan, lookup}
use stainless.Compiler.Ownership.Analyzer.{Usage, read}
use stainless.Compiler.Ownership.Accounting.Moves.{to_list}
use stainless.Compiler.Ownership.Walk.{
  Walker, state_of, use_binding, lend_temporarily, give_back_all,
}
use stainless.Compiler.Ownership.Walk.Arguments.{
  Walk, CallbackWalk, Walked, CaptureWalk, borrow_of, copy_capture, initialize_capture,
  borrow_capture, capture_walk, captures_walk, callback_target_walk, resolved_callback_walk,
  callback_walk, reference_argument, reference_of, plain_argument, one_argument, read_each,
  parameter_types, is_callback, is_json_string_argument, each_argument, call_arguments,
  arguments_walk, constructor_arguments, construction_arguments, target_arguments,
  intrinsic_arguments, default_constructions, zipped_constructions,
}
use stainless.Compiler.Ownership.Balance.{
  Held, with_loans, IsSound, Kept, Keeps, KeepsWith, some-Kept, bind-Kept,
}
use stainless.Compiler.Ownership.Balance.Operations.{
  use_binding-Keeps, lend_temporarily-Lent, give_back_all-Keeps,
}
use mathlib.Core.Path.{subst}

-- Each walk ends with the loans that it started with, a callback's with the new ones before them.
abbrev pub WalkKeeps : Walk → Type 0
WalkKeeps walk =
    (usage : Usage) (w : Walker) (held : Held) → IsSound w held → KeepsWith held (walk usage w)

abbrev pub WriteKeeps : (Walker → Option Walker) → Type 0
WriteKeeps write = (w : Walker) (held : Held) → IsSound w held → Keeps held (write w)

abbrev pub Borrowed {ℓ} : {R : Type ℓ} → (R → List Loan) → Held → Option (Walker × R) → Type ℓ
Borrowed {R = R} loans held m = Kept (λ (r : Walker × R). r.0) (λ r. with_loans (loans r.1) held) m

abbrev pub CallbackKeeps : CallbackWalk → Type 0
CallbackKeeps walk =
    (w : Walker) (held : Held) → IsSound w held → Borrowed (λ loans. loans) held (walk w)

pub record WalkedKeeps (e : Walked) : Type 0 where
  pub walks : WalkKeeps e.walk
  pub writes : WriteKeeps e.write
  pub calls_back : CallbackKeeps e.callback

abbrev pub CaptureKeeps : CaptureWalk → Type 0
CaptureKeeps none = Unit
CaptureKeeps (some walk) = WalkKeeps walk

copy_capture-Keeps : (origin : Option ℕ) (span : Span) → CallbackKeeps (copy_capture origin span)
unfolding copy_capture
copy_capture-Keeps none span w held s = some-Kept (w, []) s
copy_capture-Keeps (some id) span w held s =
    bind-Kept (use_binding id read span w) _ (use_binding-Keeps id read span w s)
      (λ w' s'. some-Kept (w', []) s')

initialize_capture-Keeps :
    (syntax : CaptureWalk) → CaptureKeeps syntax → CallbackKeeps (initialize_capture syntax)
unfolding initialize_capture
initialize_capture-Keeps none k w held s = some-Kept (w, []) s
initialize_capture-Keeps (some walk) k w held s =
    bind-Kept (walk read w) _ (k read w held s) (λ r s'. some-Kept (r.0, []) s')

borrow_capture-Keeps :
    (mutable : Bool) (origin : Option ℕ) (span : Span)
    → CallbackKeeps (borrow_capture mutable origin span)
unfolding borrow_capture
borrow_capture-Keeps mutable none span w held s = some-Kept (w, []) s
borrow_capture-Keeps mutable (some id) span w held s =
    bind-Kept (use_binding id (borrow_of mutable) span w) _
      (use_binding-Keeps id (borrow_of mutable) span w s)
      (λ w' s'.
        bind-Kept (lend_temporarily (some id) mutable span w') _
          (lend_temporarily-Lent (some id) mutable span w' s')
          (λ r s''. some-Kept (r.0, to_list r.1) s''))

capture_walk-Keeps :
    (mode : LambdaCaptureMode) (name : String) (syntax : CaptureWalk) (span : Span)
    → CaptureKeeps syntax
    → CallbackKeeps (capture_walk mode name syntax span)
unfolding capture_walk
capture_walk-Keeps copy name syntax span k w held s =
    copy_capture-Keeps (lookup name (state_of w)) span w held s
capture_walk-Keeps initialize name syntax span k w held s =
    initialize_capture-Keeps syntax k w held s
capture_walk-Keeps (borrow mutable) name syntax span k w held s =
    borrow_capture-Keeps mutable (lookup name (state_of w)) span w held s

captures_walk-Keeps :
    (captures : List ResolvedLambdaCapture) (syntax : List CaptureWalk) (span : Span)
    (loans : List Loan)
    → All CaptureKeeps syntax
    → (w : Walker) (held : Held) → IsSound w (with_loans loans held)
    → Borrowed (λ all. all) held (captures_walk captures syntax span loans w)
unfolding captures_walk
captures_walk-Keeps [] syntax span loans k w held s = some-Kept (w, loans) s
captures_walk-Keeps (c ∷ captures) [] span loans k w held s = some-Kept (w, loans) s
captures_walk-Keeps (c ∷ captures) (syn ∷ syntax) span loans (one, k) w held s =
    bind-Kept (capture_walk c.mode c.name syn span w) _
      (capture_walk-Keeps c.mode c.name syn span one w (with_loans loans held) s)
      (λ r s'.
        captures_walk-Keeps captures syntax span (r.1 ++ loans) k r.0 held
          (subst (λ all. IsSound r.0 (all, held.1)) (sym (append_assoc r.1 loans held.0)) s'))

callback_target_walk-Keeps :
    (target : CallbackTarget) (syntax : List CaptureWalk) (span : Span)
    → All CaptureKeeps syntax
    → CallbackKeeps (callback_target_walk target syntax span)
unfolding callback_target_walk
callback_target_walk-Keeps (function _) syntax span k w held s = some-Kept (w, []) s
callback_target_walk-Keeps (lambda captures) syntax span k w held s =
    captures_walk-Keeps captures syntax span [] k w held s

pub resolved_callback_walk-Keeps :
    (resolved : Option ResolvedCallback) (syntax : List CaptureWalk) (span : Span)
    → All CaptureKeeps syntax
    → CallbackKeeps (resolved_callback_walk resolved syntax span)
unfolding resolved_callback_walk
resolved_callback_walk-Keeps none syntax span k w held s = some-Kept (w, []) s
resolved_callback_walk-Keeps (some r) syntax span k w held s =
    callback_target_walk-Keeps r.target syntax span k w held s

pub callback_walk-Keeps :
    (argument : Walked) → WalkedKeeps argument → WriteKeeps (callback_walk argument)
unfolding callback_walk
callback_walk-Keeps argument k w held s =
    bind-Kept (argument.callback w) _ (k.calls_back w held s)
      (λ r s'. give_back_all-Keeps r.1 r.0 s')

abbrev ArgumentKeeps : (Walker → Option (Walker × (List Loan × Option ℕ))) → Type 0
ArgumentKeeps f =
    (w : Walker) (held : Held)
    → IsSound w held
    → Borrowed (λ (r : List Loan × Option ℕ). r.0) held (f w)

plain_argument-Keeps :
    (expected : Option Bool) (argument : Walked)
    → WalkedKeeps argument
    → ArgumentKeeps (plain_argument expected argument)
unfolding plain_argument reference_argument
plain_argument-Keeps (some mutable) argument k w held s =
    bind-Kept (argument.walk (borrow_of mutable) w) _ (k.walks (borrow_of mutable) w held s)
      (λ r s'.
        bind-Kept (lend_temporarily r.1 mutable argument.span r.0) _
          (lend_temporarily-Lent r.1 mutable argument.span r.0 s')
          (λ l s''. some-Kept (l.0, (to_list l.1, r.1)) s''))
plain_argument-Keeps none argument k w held s =
    bind-Kept (argument.walk read w) _ (k.walks read w held s)
      (λ r s'. some-Kept (r.0, ([], r.1)) s')

one_argument-Keeps :
    (is_callback is_json_string : Bool) (expected : Option Bool) (argument : Walked)
    → WalkedKeeps argument
    → ArgumentKeeps (one_argument is_callback is_json_string expected argument)
unfolding one_argument
one_argument-Keeps true json expected argument k w held s =
    bind-Kept (argument.callback w) _ (k.calls_back w held s)
      (λ r s'. some-Kept (r.0, (r.1, none)) s')
one_argument-Keeps false true expected argument k w held s =
    bind-Kept (argument.walk read w) _ (k.walks read w held s)
      (λ r s'. some-Kept (r.0, ([], none)) s')
one_argument-Keeps false false expected argument k w held s =
    plain_argument-Keeps expected argument k w held s

pub read_each-Keeps :
    (arguments : List Walked) → All WalkedKeeps arguments → WriteKeeps (read_each arguments)
unfolding read_each
read_each-Keeps [] k w held s = some-Kept w s
read_each-Keeps (argument ∷ arguments) (one, k) w held s =
    bind-Kept (argument.walk read w) _ (one.walks read w held s)
      (λ r s'. read_each-Keeps arguments k r.0 held s')

module _ (semantics : SemanticModel) where
  each_argument-Keeps :
      (arguments : List Walked) (expected : List TypeRef) (loans : List Loan)
      → All WalkedKeeps arguments
      → (w : Walker) (held : Held) → IsSound w (with_loans loans held)
      → Borrowed
          (λ (r : List Loan × List (Option ℕ)). r.0)
          held
          (each_argument semantics arguments expected loans w)
  unfolding each_argument
  each_argument-Keeps [] expected loans k w held s = some-Kept (w, (loans, [])) s
  each_argument-Keeps (argument ∷ arguments) [] loans k w held s = some-Kept (w, (loans, [])) s
  each_argument-Keeps (argument ∷ arguments) (ty ∷ expected) loans (one, k) w held s =
      bind-Kept
        (one_argument (is_callback ty) (is_json_string_argument semantics ty argument.span)
          (reference_of ty) argument w)
        _
        (one_argument-Keeps (is_callback ty) (is_json_string_argument semantics ty argument.span)
          (reference_of ty) argument one w (with_loans loans held) s)
        (λ r s'.
          bind-Kept (each_argument semantics arguments expected (r.1.0 ++ loans) r.0) _
            (each_argument-Keeps arguments expected (r.1.0 ++ loans) k r.0 held
              (subst (λ all. IsSound r.0 (all, held.1)) (sym (append_assoc r.1.0 loans held.0)) s'))
            (λ d s''. some-Kept (d.0, (d.1.0, r.1.1 ∷ d.1.1)) s''))

  pub call_arguments-Keeps :
      (arguments : List Walked) (expected : List TypeRef)
      → All WalkedKeeps arguments
      → (w : Walker) (held : Held) → IsSound w held
      → KeepsWith held (call_arguments semantics arguments expected w)
  unfolding call_arguments
  call_arguments-Keeps arguments expected k w held s =
      bind-Kept (each_argument semantics arguments expected [] w) _
        (each_argument-Keeps arguments expected [] k w held s)
        (λ r s'.
          bind-Kept (give_back_all r.1.0 r.0) _ (give_back_all-Keeps r.1.0 r.0 s')
            (λ v s''. some-Kept (v, r.1.1) s''))

  pub arguments_walk-Keeps :
      (arguments : List Walked) (expected : List TypeRef)
      → All WalkedKeeps arguments
      → WriteKeeps (arguments_walk semantics arguments expected)
  unfolding arguments_walk
  arguments_walk-Keeps arguments expected k w held s =
      bind-Kept (call_arguments semantics arguments expected w) _
        (call_arguments-Keeps arguments expected k w held s) (λ r s'. some-Kept r.0 s')

  constructor_arguments-Keeps :
      (symbol : Option ConstructorSymbol) (arguments : List Walked)
      → All WalkedKeeps arguments
      → WriteKeeps (constructor_arguments semantics symbol arguments)
  unfolding constructor_arguments
  constructor_arguments-Keeps none arguments k w held s = some-Kept w s
  constructor_arguments-Keeps (some c) arguments k w held s =
      arguments_walk-Keeps arguments (parameter_types c.parameters) k w held s

  mutual
    unfolding construction_arguments target_arguments intrinsic_arguments default_constructions
        zipped_constructions

    pub construction_arguments-Keeps :
        (construction : ResolvedCall) (arguments : List Walked)
        → All WalkedKeeps arguments
        → WriteKeeps (construction_arguments semantics construction arguments)
    construction_arguments-Keeps (resolved_call _ target _ _) arguments k w held s =
        target_arguments-Keeps target arguments k w held s

    target_arguments-Keeps :
        (target : CallTarget) (arguments : List Walked)
        → All WalkedKeeps arguments
        → WriteKeeps (target_arguments semantics target arguments)
    target_arguments-Keeps (constructor id) arguments k w held s =
        constructor_arguments-Keeps (constructor_symbol semantics id) arguments k w held s
    target_arguments-Keeps (CallTarget.native call) arguments k w held s =
        arguments_walk-Keeps arguments call.parameter_types k w held s
    target_arguments-Keeps (intrinsic i) arguments k w held s =
        intrinsic_arguments-Keeps i arguments k w held s
    target_arguments-Keeps (stainless_function _) arguments k w held s =
        read_each-Keeps arguments k w held s
    target_arguments-Keeps (interface_method _) arguments k w held s =
        read_each-Keeps arguments k w held s

    pub intrinsic_arguments-Keeps :
        (i : Intrinsic) (arguments : List Walked)
        → All WalkedKeeps arguments
        → WriteKeeps (intrinsic_arguments semantics i arguments)
    intrinsic_arguments-Keeps (value_initialization target) arguments k w held s =
        arguments_walk-Keeps arguments (target ∷ []) k w held s
    intrinsic_arguments-Keeps (mutex_new _ construction) arguments k w held s =
        construction_arguments-Keeps construction arguments k w held s
    intrinsic_arguments-Keeps (rw_lock_new _ construction) arguments k w held s =
        construction_arguments-Keeps construction arguments k w held s
    intrinsic_arguments-Keeps (tuple_new constructions) [] k w held s =
        default_constructions-Keeps constructions w held s
    intrinsic_arguments-Keeps (tuple_new constructions) (a ∷ arguments) k w held s =
        zipped_constructions-Keeps constructions (a ∷ arguments) k w held s
    intrinsic_arguments-Keeps _ arguments k w held s = read_each-Keeps arguments k w held s

    default_constructions-Keeps :
        (constructions : ResolvedCalls) → WriteKeeps (default_constructions semantics constructions)
    default_constructions-Keeps no_call w held s = some-Kept w s
    default_constructions-Keeps (and_call construction rest) w held s =
        bind-Kept (construction_arguments semantics construction [] w) _
          (construction_arguments-Keeps construction [] tt w held s)
          (λ v s'. default_constructions-Keeps rest v held s')

    pub zipped_constructions-Keeps :
        (constructions : ResolvedCalls) (arguments : List Walked)
        → All WalkedKeeps arguments
        → WriteKeeps (zipped_constructions semantics constructions arguments)
    zipped_constructions-Keeps no_call arguments k w held s = some-Kept w s
    zipped_constructions-Keeps (and_call construction rest) [] k w held s = some-Kept w s
    zipped_constructions-Keeps (and_call construction rest) (a ∷ arguments) (one, k) w held s =
        bind-Kept (construction_arguments semantics construction (a ∷ []) w) _
          (construction_arguments-Keeps construction (a ∷ []) (one, tt) w held s)
          (λ v s'. zipped_constructions-Keeps rest arguments k v held s')
