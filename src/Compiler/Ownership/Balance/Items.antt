-- ===== src/Compiler/Ownership/Balance/Items.antt =====
-- The walk over the declarations of a file keeps the books: each body starts with no loan out, in
-- one scope, and ends with neither.
use stainless.Base.{ℕ, refl, All, Bool, true, false, Option, none, some, List, [], ◌∷◌}
use stainless.Compiler.Diagnostic.{Span}
use stainless.Compiler.Types.{TypeRef, is_reference}
use stainless.Compiler.Syntax.Statements.{Expression, Block, braced, Parameter}
use stainless.Compiler.Syntax.Items.{
  Item, Items, no_item, and_item, Constructor, ConstructorInitializer, Function,
}
use stainless.Compiler.Resolution.Calls.{StructId}
use stainless.Compiler.Resolution.Model.{
  SemanticModel, StructReceiver, ParameterSymbol, ConstructorSymbol, FunctionSymbol, structure,
  constructor_at, function_at,
}
use stainless.Compiler.Ownership.State.{Loan, FlowState}
use stainless.Compiler.Ownership.State as State
use stainless.Compiler.Ownership.Analyzer.{read}
use stainless.Compiler.Ownership.Walk.{Walker, LastUses, set_state, leave_scope, declare_local}
use stainless.Compiler.Ownership.Walk.Expressions.{walked}
use stainless.Compiler.Ownership.Walk.Statements.{statements_walk}
use stainless.Compiler.Ownership.Walk.Items.{
  new_walker, receiver_name, receiver_target, fresh, set_receiver, set_returns, clear_exceptions,
  declare_parameters, return_origin, declare_receiver, declare_receiver_option, arguments_read,
  initializers_walk, body_walk, constructor_body, function_body, constructor_walk, function_walk,
  constructors_walk, functions_walk, item_walk, items_walk,
}
use stainless.Compiler.Ownership.Balance.{
  Held, deeper, IsSound, Keeps, KeepsWith, some-Kept, bind-Kept, set_state-IsSound,
}
use stainless.Compiler.Ownership.Balance.Operations.{
  enter_scope-IsSound, leave_scope-Keeps, declare_local-KeepsWith,
}
use stainless.Compiler.Ownership.Balance.Arguments.{WriteKeeps}
use stainless.Compiler.Ownership.Balance.Receivers.{map-Kept}
use stainless.Compiler.Ownership.Balance.Expressions.{walked-Keeps}
use stainless.Compiler.Ownership.Balance.Exact.{statements_walk-KeepsWith}
use stainless.Compiler.Ownership.Balance.Plain.{
  IsPlainBlock, IsPlainBody, IsPlainItem, IsPlainItems,
}
use stainless.Compiler.Ownership.Exclusive.{start-Balanced}

-- From no loan out and no scope open to no loan out and no scope open.
abbrev FileKeeps : (Walker → Option Walker) → Type 0
FileKeeps f = (w : Walker) → IsSound w ([], 0) → Keeps ([], 0) (f w)

pub new_walker-IsSound : IsSound new_walker ([], 0)
new_walker-IsSound = record { books = (start-Balanced, refl); exits = tt; throws = tt }

pub fresh-IsSound : (w : Walker) {held : Held} → IsSound w held → IsSound (fresh w) (deeper ([], 0))
fresh-IsSound w s =
    enter_scope-IsSound (set_state State.empty w) {held = ([], 0)}
      (set_state-IsSound w State.empty s (start-Balanced, refl))

clear-IsSound : (w : Walker) {held : Held} → IsSound w held → IsSound (clear_exceptions w) held
clear-IsSound w s = record { books = s.books; exits = s.exits; throws = tt }

set_receiver-IsSound :
    (id : Option ℕ) (w : Walker) {held : Held} → IsSound w held → IsSound (set_receiver id w) held
set_receiver-IsSound id w s = record { books = s.books; exits = s.exits; throws = s.throws }

set_returns-IsSound :
    (id : Option ℕ) (by_reference : Bool) (w : Walker) {held : Held}
    → IsSound w held
    → IsSound (set_returns id by_reference w) held
set_returns-IsSound id by_reference w s = record {
  books = s.books;
  exits = s.exits;
  throws = s.throws;
}

declare_parameters-Keeps :
    (last_uses : LastUses) (syntax : List Parameter) (resolved : List ParameterSymbol) (w : Walker)
    {held : Held}
    → IsSound w held
    → KeepsWith held (declare_parameters last_uses syntax resolved w)
unfolding declare_parameters
declare_parameters-Keeps last_uses [] resolved w s = some-Kept (w, []) s
declare_parameters-Keeps last_uses (p ∷ syntax) [] w s = some-Kept (w, []) s
declare_parameters-Keeps last_uses (p ∷ syntax) (r ∷ resolved) w s =
    bind-Kept (declare_local last_uses p.name r.ty none p.span w) _
      (declare_local-KeepsWith last_uses p.name r.ty none p.span w s)
      (λ d s'.
        map-Kept (λ ids. d.1 ∷ ids) (declare_parameters last_uses syntax resolved d.0)
          (declare_parameters-Keeps last_uses syntax resolved d.0 s'))

module _ (semantics : SemanticModel) (last_uses : LastUses) where
  declare_receiver-Keeps :
      (id : StructId) (mutable : Bool) (span : Span) (w : Walker) {held : Held}
      → IsSound w held
      → KeepsWith held (declare_receiver semantics last_uses id mutable span w)
  unfolding declare_receiver
  declare_receiver-Keeps id mutable span w s =
      declare_local-KeepsWith [] receiver_name
        (TypeRef.reference mutable (receiver_target (structure semantics id))) none span w s

  declare_receiver_option-Keeps :
      (receiver : Option StructReceiver) (span : Span) (w : Walker) {held : Held}
      → IsSound w held
      → KeepsWith held (declare_receiver_option semantics last_uses receiver span w)
  unfolding declare_receiver_option
  declare_receiver_option-Keeps none span w s = some-Kept (w, none) s
  declare_receiver_option-Keeps (some r) span w s =
      map-Kept (λ id. some id) (declare_receiver semantics last_uses r.structure r.mutable span w)
        (declare_receiver-Keeps r.structure r.mutable span w s)

  arguments_read-Keeps : (es : List Expression) → WriteKeeps (arguments_read semantics last_uses es)
  unfolding arguments_read
  arguments_read-Keeps [] w held s = some-Kept w s
  arguments_read-Keeps (e ∷ rest) w held s =
      bind-Kept ((walked semantics e).walk read w) _
        ((walked-Keeps semantics e).walks read w held s)
        (λ r s'. arguments_read-Keeps rest r.0 held s')

  initializers_walk-Keeps :
      (initializers : List ConstructorInitializer)
      → WriteKeeps (initializers_walk semantics last_uses initializers)
  unfolding initializers_walk
  initializers_walk-Keeps [] w held s = some-Kept w s
  initializers_walk-Keeps (i ∷ rest) w held s =
      bind-Kept (arguments_read semantics last_uses i.arguments w) _
        (arguments_read-Keeps i.arguments w held s) (λ v s'. initializers_walk-Keeps rest v held s')

  body_walk-Keeps :
      (body : Block)
      → IsPlainBlock body
      → (w : Walker) → IsSound w (deeper ([], 0))
      → Keeps ([], 0) (body_walk semantics last_uses body w)
  unfolding body_walk IsPlainBlock
  body_walk-Keeps (braced statements _) p w s =
      bind-Kept (statements_walk semantics last_uses statements w) _
        (statements_walk-KeepsWith semantics last_uses statements p w (deeper ([], 0)) s)
        (λ r s₁.
          bind-Kept (leave_scope r.0) _ (leave_scope-Keeps r.0 s₁)
            (λ left s₂. some-Kept _ (set_receiver-IsSound none left s₂)))

  constructor_body-Keeps :
      (symbol : Option ConstructorSymbol) (c : Constructor) (body : Block)
      → IsPlainBlock body
      → FileKeeps (constructor_body semantics last_uses symbol c body)
  unfolding constructor_body
  constructor_body-Keeps none c body p w s = some-Kept w s
  constructor_body-Keeps (some symbol) c body p w s =
      bind-Kept (declare_receiver semantics last_uses symbol.structure true c.span (fresh w)) _
        (declare_receiver-Keeps symbol.structure true c.span (fresh w) (fresh-IsSound w s))
        (λ r s₁.
          let received = set_receiver (some r.1) r.0 in
          bind-Kept (declare_parameters last_uses c.parameters symbol.parameters received) _
            (declare_parameters-Keeps last_uses c.parameters symbol.parameters received
              (set_receiver-IsSound (some r.1) r.0 s₁))
            (λ d s₂.
              bind-Kept (initializers_walk semantics last_uses c.initializers d.0) _
                (initializers_walk-Keeps c.initializers d.0 (deeper ([], 0)) s₂)
                (λ v s₃. body_walk-Keeps body p (clear_exceptions (set_returns none false v)) (
                  clear-IsSound (set_returns none false v) (set_returns-IsSound none false v s₃)))))

  function_body-Keeps :
      (symbol : Option FunctionSymbol) (f : Function) (body : Block)
      → IsPlainBlock body
      → FileKeeps (function_body semantics last_uses symbol f body)
  unfolding function_body
  function_body-Keeps none f body p w s = some-Kept w s
  function_body-Keeps (some symbol) f body p w s =
      bind-Kept (declare_receiver_option semantics last_uses symbol.receiver f.span (fresh w)) _
        (declare_receiver_option-Keeps symbol.receiver f.span (fresh w) (fresh-IsSound w s))
        (λ r s₁.
          let received = set_receiver r.1 r.0 in
          bind-Kept (declare_parameters last_uses f.parameters symbol.parameters received) _
            (declare_parameters-Keeps last_uses f.parameters symbol.parameters received
              (set_receiver-IsSound r.1 r.0 s₁))
            (λ d s₂.
              let by_reference = is_reference symbol.return_type in
              let ready = set_returns (return_origin symbol r.1 d.1) by_reference d.0 in
              bind-Kept (body_walk semantics last_uses body (clear_exceptions ready)) _
                (body_walk-Keeps body p (clear_exceptions ready) (
                  clear-IsSound ready
                    (set_returns-IsSound (return_origin symbol r.1 d.1) by_reference d.0 s₂)))
                (λ v s₃. some-Kept _ (set_returns-IsSound none false v s₃))))

  constructor_walk-Keeps :
      (body : Option Block) (c : Constructor)
      → IsPlainBody body
      → FileKeeps (constructor_walk semantics last_uses body c)
  unfolding constructor_walk
  constructor_walk-Keeps none c p w s = some-Kept w s
  constructor_walk-Keeps (some body) c p w s =
      constructor_body-Keeps (constructor_at semantics c.span) c body p w s

  function_walk-Keeps :
      (body : Option Block) (f : Function)
      → IsPlainBody body
      → FileKeeps (function_walk semantics last_uses body f)
  unfolding function_walk
  function_walk-Keeps none f p w s = some-Kept w s
  function_walk-Keeps (some body) f p w s =
      function_body-Keeps (function_at semantics f.span) f body p w s

  constructors_walk-Keeps :
      (cs : List Constructor)
      → All (λ (c : Constructor). IsPlainBody c.body) cs
      → FileKeeps (constructors_walk semantics last_uses cs)
  unfolding constructors_walk
  constructors_walk-Keeps [] p w s = some-Kept w s
  constructors_walk-Keeps (c ∷ rest) (one, p) w s =
      bind-Kept (constructor_walk semantics last_uses c.body c w) _
        (constructor_walk-Keeps c.body c one w s) (λ v s'. constructors_walk-Keeps rest p v s')

  functions_walk-Keeps :
      (fs : List Function)
      → All (λ (f : Function). IsPlainBody f.body) fs
      → FileKeeps (functions_walk semantics last_uses fs)
  unfolding functions_walk
  functions_walk-Keeps [] p w s = some-Kept w s
  functions_walk-Keeps (f ∷ rest) (one, p) w s =
      bind-Kept (function_walk semantics last_uses f.body f w) _
        (function_walk-Keeps f.body f one w s) (λ v s'. functions_walk-Keeps rest p v s')

  mutual
    unfolding item_walk items_walk IsPlainItem IsPlainItems

    item_walk-Keeps :
        (item : Item) → IsPlainItem item → FileKeeps (item_walk semantics last_uses item)
    item_walk-Keeps (Item.namespace _ items _) p w s = items_walk-Keeps items p w s
    item_walk-Keeps (Item.struct t) (p, q) w s =
        bind-Kept (constructors_walk semantics last_uses t.constructors w) _
          (constructors_walk-Keeps t.constructors p w s)
          (λ v s'. functions_walk-Keeps t.functions q v s')
    item_walk-Keeps (Item.constructor c) p w s = constructor_walk-Keeps c.body c p w s
    item_walk-Keeps (Item.function f) p w s = function_walk-Keeps f.body f p w s
    item_walk-Keeps (Item.enum _) p w s = some-Kept w s
    item_walk-Keeps (Item.import _) p w s = some-Kept w s

    pub items_walk-Keeps :
        (items : Items) → IsPlainItems items → FileKeeps (items_walk semantics last_uses items)
    items_walk-Keeps no_item p w s = some-Kept w s
    items_walk-Keeps (and_item item rest) (one, p) w s =
        bind-Kept (item_walk semantics last_uses item w) _ (item_walk-Keeps item one w s)
          (λ v s'. items_walk-Keeps rest p v s')
