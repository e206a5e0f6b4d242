-- ===== src/Compiler/Resolution/Calls.antt =====
-- The targets of calls in crates/stainless-compiler/src/resolution/mod.rs, with what they use of
-- crates/stainless-compiler/src/interop/model.rs. A `Vec`, `Box` or `Option` of calls inside a call
-- is a type of the same block.
use stainless.Base.{ℕ, String, Bool, List, Option}
use stainless.Compiler.Diagnostic.{Span}
use stainless.Compiler.Types.{TypeRef, PointerKind}

pub data CallStyle : Type 0 where
  constructor associated_function method : CallStyle

pub data Receiver : Type 0 where
  shared mutable value : Receiver

pub data ArgumentAdaptation : Type 0 where
  identity string_ref_to_str : ArgumentAdaptation

pub data ReturnAdaptation : Type 0 where
  identity into : ReturnAdaptation

pub data WrapperTarget : Type 0 where
  function method : (rust_name : String) → WrapperTarget

pub data RustLowering : Type 0 where
  associated_function : (rust_path : String) → RustLowering
  method cloned_receiver_method : (rust_name : String) → RustLowering
  function_with_receiver : (rust_path : String) → RustLowering
  clone_argument : (index : ℕ) → RustLowering
  generated_wrapper :
      (wrapper_name : String)
      → WrapperTarget
      → (return_adaptation : ReturnAdaptation) → RustLowering

-- `FunctionId`, `StructId` and `ConstructorId`
pub record FunctionId : Type 0 where
  pub index : ℕ

pub record StructId : Type 0 where
  pub index : ℕ

pub record ConstructorId : Type 0 where
  pub index : ℕ

pub data RustErrorMessage : Type 0 where
  display debug fallback : RustErrorMessage

pub data NativeResultException : Type 0 where
  rust_error io_error json_error : NativeResultException

pub record NativeCallResultAdaptation : Type 0 where
  pub error_message : RustErrorMessage
  pub exception : NativeResultException

pub record ResolvedTraitRequirement : Type 0 where
  pub ty : TypeRef
  pub rust_trait : String

pub record NativeCall : Type 0 where
  pub type_path : String
  pub style : CallStyle
  pub source_name : String
  pub receiver : Option Receiver
  pub receiver_type : Option TypeRef
  pub parameter_types : List TypeRef
  pub adaptations : List ArgumentAdaptation
  pub is_async : Bool
  pub return_type : TypeRef
  pub result_adaptation : Option NativeCallResultAdaptation
  pub lowering : RustLowering
  pub requirements : List ResolvedTraitRequirement

mutual
  pub data ResolvedCall : Type 0 where
    resolved_call :
        Span → CallTarget → (return_type : TypeRef) → (throws : List StructId) → ResolvedCall

  pub data ResolvedCalls : Type 0 where
    no_call : ResolvedCalls
    and_call : ResolvedCall → ResolvedCalls → ResolvedCalls

  pub data OptionalCall : Type 0 where
    absent : OptionalCall
    present : ResolvedCall → OptionalCall

  pub data CallTarget : Type 0 where
    stainless_function interface_method : FunctionId → CallTarget
    constructor : ConstructorId → CallTarget
    native : NativeCall → CallTarget
    intrinsic : Intrinsic → CallTarget

  pub data Intrinsic : Type 0 where
    move : Intrinsic
    tuple_new : (constructions : ResolvedCalls) → Intrinsic
    array_new : (constructions : ResolvedCalls) → (default : OptionalCall) → Intrinsic
    default_value : (target : TypeRef) → Intrinsic
    array_query : (empty : Bool) → Intrinsic
    array_fill : (element : TypeRef) → Intrinsic
    make_owner : PointerKind → (target : TypeRef) → (construction : ResolvedCall) → Intrinsic
    pointer_default : PointerKind → (target : TypeRef) → Intrinsic
    pointer_conversion : (from to : PointerKind) → (target : TypeRef) → Intrinsic
    downgrade_shared lock_weak : (target : TypeRef) → Intrinsic
    atomic_load atomic_store atomic_swap : (nullable : Bool) → (target : TypeRef) → Intrinsic
    mutex_new : (target : TypeRef) → (construction : ResolvedCall) → Intrinsic
    condition_new : Intrinsic
    mutex_lock : (target : TypeRef) → Intrinsic
    rw_lock_new : (target : TypeRef) → (construction : ResolvedCall) → Intrinsic
    rw_lock_read rw_lock_write condition_wait : (target : TypeRef) → Intrinsic
    condition_notify : (all : Bool) → Intrinsic
    thread_spawn thread_join thread_scope scoped_thread_spawn scoped_thread_join : Intrinsic
    stored_function_call : (mutable : Bool) → Intrinsic
    primitive_cast : (target : TypeRef) → Intrinsic
    optional_to_bool : Intrinsic
    optional_value : (target : TypeRef) → (mutable checked : Bool) → Intrinsic
    enum_from_integer enum_from_string : StructId → Intrinsic
    enum_to_string : StructId → (receiver : Bool) → Intrinsic
    json_cast : (target : TypeRef) → Intrinsic
    json_wrap : Intrinsic
    struct_aggregate exception_root : StructId → Intrinsic
    value_initialization : (target : TypeRef) → Intrinsic
    unwrap_rust_result : RustErrorMessage → NativeResultException → Intrinsic

abbrev pub call_span : ResolvedCall → Span
call_span (resolved_call span _ _ _) = span

abbrev pub call_target : ResolvedCall → CallTarget
call_target (resolved_call _ target _ _) = target

abbrev pub call_throws : ResolvedCall → List StructId
call_throws (resolved_call _ _ _ throws) = throws
