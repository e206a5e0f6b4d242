-- ===== src/Compiler/Types.antt =====
-- `TypeRef` of crates/stainless-compiler/src/interop/model.rs with the types that it is built
-- from, and the classifications of types that ownership.rs makes. A `Vec` of types inside a type
-- is the list type `TypeRefs` of the same block.
use stainless.Base.{ℕ, String, List, Bool, true, false, if◌then◌else◌}
use text.Mathlib.Text.{◌==◌}

pub data PointerKind : Type 0 where
  unique unique_nullable shared shared_nullable weak atomic atomic_nullable : PointerKind

pub data StoredFunctionKind : Type 0 where
  shared mutable : StoredFunctionKind

pub data CallbackKind : Type 0 where
  fn fn_mut fn_once function_pointer : CallbackKind

pub data CallbackEscape : Type 0 where
  call static thread scoped : CallbackEscape

mutual
  pub data TypeRef : Type 0 where
    error void bool char i8 i16 i32 i64 i128 isize u8 u16 u32 u64 u128 usize f32 f64 : TypeRef
    parameter : String → TypeRef
    const_usize : ℕ → TypeRef
    const_parameter : String → TypeRef
    array : (element length : TypeRef) → TypeRef
    tuple : TypeRefs → TypeRef
    native : (path : String) → (arguments : TypeRefs) → TypeRef
    callback :
        (is_async : Bool)
        → CallbackKind
        → CallbackEscape
        → (parameters : TypeRefs) → (return_type : TypeRef) → TypeRef
    function : StoredFunctionKind → (parameters : TypeRefs) → (return_type : TypeRef) → TypeRef
    pointer : PointerKind → (target : TypeRef) → TypeRef
    mutex mutex_guard rw_lock rw_lock_read_guard rw_lock_write_guard : (target : TypeRef) → TypeRef
    condition : TypeRef
    thread_handle : (target : TypeRef) → TypeRef
    thread_scope : TypeRef
    scoped_thread_handle : (target : TypeRef) → TypeRef
    struct class interface : (path : List String) → (arguments : TypeRefs) → TypeRef
    reference : (mutable : Bool) → (target : TypeRef) → TypeRef

  pub data TypeRefs : Type 0 where
    nil : TypeRefs
    cons : TypeRef → TypeRefs → TypeRefs

abbrev pub is_reference : TypeRef → Bool
is_reference (reference _ _) = true
is_reference _ = false

-- Whether a value of the type can hold a borrow.
unfoldable mutual
  pub contains_reference : TypeRef → Bool
  contains_reference (native _ arguments) = any_contains_reference arguments
  contains_reference (struct _ arguments) = any_contains_reference arguments
  contains_reference (class _ arguments) = any_contains_reference arguments
  contains_reference (interface _ arguments) = any_contains_reference arguments
  contains_reference (tuple elements) = any_contains_reference elements
  contains_reference (array element _) = contains_reference element
  contains_reference (pointer _ target) = contains_reference target
  contains_reference (mutex target) = contains_reference target
  contains_reference (rw_lock target) = contains_reference target
  contains_reference (thread_handle target) = contains_reference target
  contains_reference (mutex_guard _) = true
  contains_reference (rw_lock_read_guard _) = true
  contains_reference (rw_lock_write_guard _) = true
  contains_reference thread_scope = true
  contains_reference (scoped_thread_handle _) = true
  contains_reference (reference _ _) = true
  contains_reference _ = false

  pub any_contains_reference : TypeRefs → Bool
  any_contains_reference nil = false
  any_contains_reference (cons t ts) =
      if contains_reference t then true else any_contains_reference ts

abbrev pub canonical_ref : TypeRef → TypeRef
canonical_ref (reference _ target) = target
canonical_ref ty = ty

abbrev pub is_guard : TypeRef → Bool
is_guard (mutex_guard _) = true
is_guard (rw_lock_read_guard _) = true
is_guard (rw_lock_write_guard _) = true
is_guard _ = false

-- `VAR_TYPE_PATH`
abbrev pub var_type_path : String
var_type_path = "rust::stainless_runtime::Var"

-- Whether reading a binding of the type leaves it available.
unfoldable mutual
  pub is_copyable : TypeRef → Bool
  is_copyable bool = true
  is_copyable char = true
  is_copyable i8 = true
  is_copyable i16 = true
  is_copyable i32 = true
  is_copyable i64 = true
  is_copyable i128 = true
  is_copyable isize = true
  is_copyable u8 = true
  is_copyable u16 = true
  is_copyable u32 = true
  is_copyable u64 = true
  is_copyable u128 = true
  is_copyable usize = true
  is_copyable f32 = true
  is_copyable f64 = true
  is_copyable (struct _ _) = true
  is_copyable (tuple elements) = all_copyable elements
  is_copyable (array element _) = is_copyable element
  is_copyable (native path nil) = path == var_type_path
  is_copyable (pointer PointerKind.shared _) = true
  is_copyable (pointer PointerKind.shared_nullable _) = true
  is_copyable (pointer PointerKind.weak _) = true
  is_copyable (function StoredFunctionKind.shared _ _) = true
  is_copyable _ = false

  pub all_copyable : TypeRefs → Bool
  all_copyable nil = true
  all_copyable (cons t ts) = if is_copyable t then all_copyable ts else false
