-- ===== src/Compiler/Syntax/Types.antt =====
-- The types of crates/stainless-compiler/src/ast.rs. A `Vec` of types inside a type is the list
-- type `SourceTypes` of the same block; `SourceType` is the source's `Type`.
use stainless.Base.{String, List, [], ◌∷◌, Bool, true, false}
use stainless.Compiler.Diagnostic.{Span}
use text.Mathlib.Text.{◌==◌}

-- A name with its segments in source order, the source's `Path`.
pub record QualifiedName : Type 0 where
  pub segments : List String

mutual
  pub data SourceType : Type 0 where
    source_type : (is_const is_reference : Bool) → TypeKind → Span → SourceType

  pub data TypeKind : Type 0 where
    inferred : TypeKind
    named : NamedType → TypeKind
    function : (mutable : Bool) → (parameters : SourceTypes) → (return_type : SourceType) → TypeKind
    const_usize : String → TypeKind
    error : TypeKind

  pub data NamedType : Type 0 where
    named_type : QualifiedName → (arguments : SourceTypes) → NamedType

  pub data SourceTypes : Type 0 where
    nil : SourceTypes
    cons : SourceType → SourceTypes → SourceTypes

abbrev pub kind_of : SourceType → TypeKind
kind_of (source_type _ _ kind _) = kind

abbrev pub is_const : SourceType → Bool
is_const (source_type const _ _ _) = const

abbrev pub is_reference_type : SourceType → Bool
is_reference_type (source_type _ reference _ _) = reference

abbrev pub type_span : SourceType → Span
type_span (source_type _ _ _ span) = span

abbrev is_void_name : List String → Bool
is_void_name (segment ∷ []) = segment == "void"
is_void_name [] = false
is_void_name (_ ∷ (_ ∷ _)) = false

abbrev is_void_type : NamedType → Bool
is_void_type (named_type name nil) = is_void_name name.segments
is_void_type (named_type name (cons _ _)) = false

abbrev pub is_void : SourceType → Bool
is_void (source_type _ _ (named t) _) = is_void_type t
is_void (source_type _ _ _ _) = false

abbrev pub is_inferred : SourceType → Bool
is_inferred (source_type _ _ inferred _) = true
is_inferred (source_type _ _ _ _) = false
