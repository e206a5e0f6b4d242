-- ===== src/Compiler/Semantics/Validate.antt =====
-- The walk over the declarations of a file, and `validate`, which sorts what was reported.
use stainless.Base.{Bool, true, false, ◌&&◌, is_some, List, [], ◌∷◌}
use stainless.Compiler.Diagnostic.{Diagnostic, sort_by_span}
use stainless.Compiler.Syntax.Items.{
  UserTypeKind, struct, class, interface, Field, Constructor, Function, Struct, Item, namespace,
  import, enum, constructor, function, Items, no_item, and_item, SourceFile,
}
use stainless.Compiler.Semantics.{
  Message, interface_with_access_label, interface_with_fields, interface_with_constructor,
  constructor_in_body, member_function_in_body, Validator, push_if, check_function,
  check_constructor,
}

abbrev pub is_interface : UserTypeKind → Bool
is_interface interface = true
is_interface struct = false
is_interface class = false

abbrev pub has_fields : List Field → Bool
has_fields [] = false
has_fields (f ∷ fs) = true

unfoldable pub check_constructors : (in_interface : Bool) → List Constructor → Validator → Validator
check_constructors in_interface [] v = v
check_constructors in_interface (c ∷ cs) v =
    let v₁ = push_if in_interface "SEM017" interface_with_constructor c.span v in
    let v₂ = push_if (is_some c.body) "SEM010" constructor_in_body c.span v₁ in
    check_constructors in_interface cs (check_constructor c v₂)

unfoldable pub check_functions : List Function → Validator → Validator
check_functions [] v = v
check_functions (f ∷ fs) v =
    let v' = push_if (is_some f.body) "SEM009" member_function_in_body f.span v in
    check_functions fs (check_function f v')

unfoldable pub check_struct : Struct → Validator → Validator
unfolding check_constructors check_functions
check_struct s v =
    let in_interface = is_interface s.kind in
    let v₁ =
      push_if (in_interface && s.has_access_specifier) "SEM015" interface_with_access_label s.span
        v in
    let v₂ =
      push_if (in_interface && has_fields s.fields) "SEM016" interface_with_fields s.span v₁ in
    check_functions s.functions (check_constructors in_interface s.constructors v₂)

unfoldable mutual
  pub check_item : Item → Validator → Validator
  check_item (namespace _ items _) v = check_items items v
  check_item (struct s) v = check_struct s v
  check_item (constructor c) v = check_constructor c v
  check_item (function f) v = check_function f v
  check_item (enum _) v = v
  check_item (import _) v = v

  pub check_items : Items → Validator → Validator
  check_items no_item v = v
  check_items (and_item item rest) v = check_items rest (check_item item v)

unfoldable pub validate : SourceFile → List (Diagnostic Message)
validate source =
    sort_by_span
      (check_items source.items (record { diagnostics = []; catch_depth = 0 })).diagnostics
