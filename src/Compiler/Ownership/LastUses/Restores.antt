-- ===== src/Compiler/Ownership/LastUses/Restores.antt =====
-- The collection over a file always returns, and it closes every scope that it opens.
use stainless.Base.{Option, none, some, List, [], ◌∷◌, ◌≡◌, refl, ap, ◌∙◌, ◌>>=◌}
use stainless.Compiler.Syntax.Statements.{Expression, Block, braced}
use stainless.Compiler.Syntax.Items.{
  Item, Items, no_item, and_item, Constructor, ConstructorInitializer, Function,
}
use stainless.Compiler.Ownership.LastUses.{
  Collect, nothing, ◌thereafter◌, collect_expressions, collect_initializers, collect_constructor,
  collect_function, collect_constructors, collect_functions, collect_item, collect_items,
  collect_last_uses,
}
use stainless.Compiler.Ownership.LastUses.Returns.{
  Collects, Restores, scoped_collect_lem, nothing-Collects, thereafter-Collects,
  declare_parameter_uses-Collects, collect-Collects, collect_statements-Collects,
}
use stainless.Compiler.Ownership.Walk.{LastUses}

collect_expressions-Collects : (es : List Expression) → Collects (collect_expressions es)
unfolding collect_expressions
collect_expressions-Collects [] = nothing-Collects
collect_expressions-Collects (e ∷ rest) =
    thereafter-Collects _ _ (collect-Collects e) (collect_expressions-Collects rest)

collect_initializers-Collects :
    (initializers : List ConstructorInitializer) → Collects (collect_initializers initializers)
unfolding collect_initializers
collect_initializers-Collects [] = nothing-Collects
collect_initializers-Collects (i ∷ rest) =
    thereafter-Collects _ _ (collect_expressions-Collects i.arguments)
      (collect_initializers-Collects rest)

nothing-Restores : Restores nothing
nothing-Restores c = (c, (refl, refl))

thereafter-Restores : (f g : Collect) → Restores f → Restores g → Restores (f thereafter g)
thereafter-Restores f g k k' c =
    let (c₁, (at, same)) = k c in
    let (c₂, (at', same')) = k' c₁ in (c₂, (ap (λ m. m >>= λ c'. g c') at ∙ at', same' ∙ same))

collect_constructor-Restores :
    (body : Option Block) (c : Constructor) → Restores (collect_constructor body c)
unfolding collect_constructor
collect_constructor-Restores none c = nothing-Restores
collect_constructor-Restores (some (braced statements _)) c = scoped_collect_lem _ (
    thereafter-Collects _ _ (declare_parameter_uses-Collects c.parameters) (
      thereafter-Collects _ _ (collect_initializers-Collects c.initializers)
        (collect_statements-Collects statements)))

collect_function-Restores :
    (body : Option Block) (f : Function) → Restores (collect_function body f)
unfolding collect_function
collect_function-Restores none f = nothing-Restores
collect_function-Restores (some (braced statements _)) f = scoped_collect_lem _ (
    thereafter-Collects _ _ (declare_parameter_uses-Collects f.parameters)
      (collect_statements-Collects statements))

collect_constructors-Restores : (cs : List Constructor) → Restores (collect_constructors cs)
unfolding collect_constructors
collect_constructors-Restores [] = nothing-Restores
collect_constructors-Restores (c ∷ rest) =
    thereafter-Restores _ _ (collect_constructor-Restores c.body c)
      (collect_constructors-Restores rest)

collect_functions-Restores : (fs : List Function) → Restores (collect_functions fs)
unfolding collect_functions
collect_functions-Restores [] = nothing-Restores
collect_functions-Restores (f ∷ rest) =
    thereafter-Restores _ _ (collect_function-Restores f.body f) (collect_functions-Restores rest)

mutual
  unfolding collect_item collect_items

  collect_item-Restores : (item : Item) → Restores (collect_item item)
  collect_item-Restores (Item.namespace _ items _) = collect_items-Restores items
  collect_item-Restores (Item.struct s) =
      thereafter-Restores _ _ (collect_constructors-Restores s.constructors)
        (collect_functions-Restores s.functions)
  collect_item-Restores (Item.constructor c) = collect_constructor-Restores c.body c
  collect_item-Restores (Item.function f) = collect_function-Restores f.body f
  collect_item-Restores (Item.enum _) = nothing-Restores
  collect_item-Restores (Item.import _) = nothing-Restores

  -- The collection of uses over any declarations returns, without a declaration outside a scope, and
  -- leaves the stack of scopes as it was.
  collect_items-Restores : (items : Items) → Restores (collect_items items)
  collect_items-Restores no_item = nothing-Restores
  collect_items-Restores (and_item item rest) =
      thereafter-Restores _ _ (collect_item-Restores item) (collect_items-Restores rest)

-- The last uses of any declarations are found: no name is declared outside a scope.
pub collect_last_uses_total :
    (items : Items) → (uses : LastUses) × (collect_last_uses items ≡ some uses)
unfolding collect_last_uses
collect_last_uses_total items =
    let (c, (at, _)) = collect_items-Restores items (record { scopes = []; last_uses = [] }) in
    (c.last_uses, ap (λ m. m >>= λ c'. some c'.last_uses) at)
