-- ===== src/Compiler/Resolution/Model.antt =====
-- The tables of crates/stainless-compiler/src/resolution/mod.rs and the lookups of `SemanticModel`.
use stainless.Base.{
  ℕ, ◌==◌, if◌then◌else◌, String, Bool, ◌&&◌, Option, none, some, List, [], ◌∷◌, get_elem?, any,
}
use stainless.Compiler.Diagnostic.{Span}
use stainless.Compiler.Types.{TypeRef}
use stainless.Compiler.Syntax.Statements.{Expression}
use stainless.Compiler.Syntax.Items.{UserTypeKind}
use stainless.Compiler.Resolution.Calls.{
  FunctionId, StructId, ConstructorId, ResolvedCall, call_span, RustErrorMessage,
  NativeResultException,
}

pub record UserTypeBase : Type 0 where
  pub structure : StructId
  pub arguments : List TypeRef

pub record FieldSymbol : Type 0 where
  pub name : String
  pub is_public : Bool
  pub ty : TypeRef
  pub initializer : Option Expression
  pub span : Span

pub record StaticConstantSymbol : Type 0 where
  pub name : String
  pub is_public : Bool
  pub ty : TypeRef
  pub value : String
  pub span : Span

pub record StructSymbol : Type 0 where
  pub id : StructId
  pub path : List String
  pub type_parameters : List String
  pub const_parameters : List String
  pub kind : UserTypeKind
  pub enum_repr : Option TypeRef
  pub base : Option UserTypeBase
  pub interfaces : List StructId
  pub is_sealed : Bool
  pub fields : List FieldSymbol
  pub static_constants : List StaticConstantSymbol
  pub span : Span

pub record StructReceiver : Type 0 where
  pub structure : StructId
  pub mutable : Bool

pub record ParameterSymbol : Type 0 where
  pub name : String
  pub ty : TypeRef
  pub span : Span

pub data ConstructorInitializationSource : Type 0 where
  default : ConstructorInitializationSource
  constructor field : Span → ConstructorInitializationSource

pub record ConstructorFieldInitialization : Type 0 where
  pub rust_name : String
  pub ty : TypeRef
  pub source : ConstructorInitializationSource
  pub call : ResolvedCall

pub record ConstructorSymbol : Type 0 where
  pub id : ConstructorId
  pub is_public : Bool
  pub structure : StructId
  pub parameters : List ParameterSymbol
  pub throws : List StructId
  pub mangled_name : String
  pub declarations : List Span
  pub has_definition : Bool
  pub has_member_declaration : Bool
  pub is_deleted : Bool
  pub is_defaulted : Bool
  pub synthesized : Bool
  pub initializations : List ConstructorFieldInitialization

pub record FunctionSymbol : Type 0 where
  pub id : FunctionId
  pub is_public : Bool
  pub is_async : Bool
  pub path : List String
  pub parameters : List ParameterSymbol
  pub return_type : TypeRef
  pub throws : List StructId
  pub owner : Option StructId
  pub receiver : Option StructReceiver
  pub mangled_name : String
  pub declarations : List Span
  pub has_definition : Bool
  pub has_member_declaration : Bool

pub data ValueCategory : Type 0 where
  mutable_place shared_place temporary : ValueCategory

pub record ResolvedField : Type 0 where
  pub access_path : List String

pub record ExpressionResolution : Type 0 where
  pub span : Span
  pub ty : TypeRef
  pub category : ValueCategory
  pub call : Option ResolvedCall
  pub field : Option ResolvedField

pub record BindingResolution : Type 0 where
  pub span : Span
  pub name : String
  pub ty : TypeRef
  pub mutable : Bool

pub record RustResultAdaptation : Type 0 where
  pub span : Span
  pub error_message : RustErrorMessage
  pub exception : NativeResultException

pub data LambdaCaptureMode : Type 0 where
  copy initialize : LambdaCaptureMode
  borrow : (mutable : Bool) → LambdaCaptureMode

pub record ResolvedLambdaCapture : Type 0 where
  pub name : String
  pub ty : TypeRef
  pub mode : LambdaCaptureMode

pub data CallbackTarget : Type 0 where
  function : FunctionId → CallbackTarget
  lambda : List ResolvedLambdaCapture → CallbackTarget

pub record ResolvedCallback : Type 0 where
  pub span : Span
  pub ty : TypeRef
  pub target : CallbackTarget

pub record InterfaceImplementation : Type 0 where
  pub implementer : StructId
  pub interface : StructId
  pub methods : List (FunctionId × FunctionId)

pub record ResolvedNativeType : Type 0 where
  pub stainless_path : String
  pub rust_path : String

pub record ResolvedStaticConstant : Type 0 where
  pub span : Span
  pub structure : StructId
  pub constant : ℕ

pub record SemanticModel : Type 0 where
  pub native_types : List ResolvedNativeType
  pub structs : List StructSymbol
  pub constructors : List ConstructorSymbol
  pub functions : List FunctionSymbol
  pub interface_implementations : List InterfaceImplementation
  pub expressions : List ExpressionResolution
  pub static_constant_references : List ResolvedStaticConstant
  pub bindings : List BindingResolution
  pub calls : List ResolvedCall
  pub rust_result_adaptations : List RustResultAdaptation
  pub callbacks : List ResolvedCallback
  pub json_struct_conversions : List StructId

abbrev pub span_eq : Span → Span → Bool
span_eq a b = a.start == b.start && a.end == b.end

-- `iter().find(..)`
abbrev pub find {ℓ} : {A : Type ℓ} → (A → Bool) → List A → Option A
find p [] = none
find p (a ∷ rest) = if p a then some a else find p rest

module _ (semantics : SemanticModel) where
  abbrev pub callback : Span → Option ResolvedCallback
  callback span = find (λ c. span_eq c.span span) semantics.callbacks

  abbrev pub structure : StructId → Option StructSymbol
  structure id = get_elem? semantics.structs id.index

  abbrev pub constructor_symbol : ConstructorId → Option ConstructorSymbol
  constructor_symbol id = get_elem? semantics.constructors id.index

  abbrev pub constructor_at : Span → Option ConstructorSymbol
  constructor_at span = find (λ c. any (λ s. span_eq s span) c.declarations) semantics.constructors

  abbrev pub struct_at : Span → Option StructSymbol
  struct_at span = find (λ s. span_eq s.span span) semantics.structs

  abbrev pub function_symbol : FunctionId → Option FunctionSymbol
  function_symbol id = get_elem? semantics.functions id.index

  abbrev pub function_at : Span → Option FunctionSymbol
  function_at span = find (λ f. any (λ s. span_eq s span) f.declarations) semantics.functions

  abbrev pub expression_resolution : Span → Option ExpressionResolution
  expression_resolution span = find (λ e. span_eq e.span span) semantics.expressions

  abbrev pub static_constant : Span → Option ResolvedStaticConstant
  static_constant span = find (λ c. span_eq c.span span) semantics.static_constant_references

  abbrev pub binding : Span → Option BindingResolution
  binding span = find (λ b. span_eq b.span span) semantics.bindings

  abbrev pub call : Span → Option ResolvedCall
  call span = find (λ c. span_eq (call_span c) span) semantics.calls

  abbrev pub rust_result_adaptation : Span → Option RustResultAdaptation
  rust_result_adaptation span = find (λ a. span_eq a.span span) semantics.rust_result_adaptations
