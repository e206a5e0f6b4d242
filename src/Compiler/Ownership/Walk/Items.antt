-- ===== src/Compiler/Ownership/Walk/Items.antt =====
-- The walk over declarations in crates/stainless-compiler/src/ownership.rs, and `validate`.
use stainless.Base.{
  ℕ, if◌then◌else◌, String, Bool, true, false, Option, none, some, List, [], ◌∷◌, ◌>>=◌, any,
  get_elem?,
}
use stainless.Compiler.Diagnostic.{Span, Diagnostic, sort_by_span}
use stainless.Compiler.Types.{TypeRef, TypeRefs, is_reference}
use stainless.Compiler.Syntax.Statements.{Expression, Block, braced, Parameter}
use stainless.Compiler.Syntax.Items.{
  UserTypeKind, Item, Items, no_item, and_item, Constructor, ConstructorInitializer, Function,
  SourceFile,
}
use stainless.Compiler.Resolution.Calls.{StructId}
use stainless.Compiler.Resolution.Model.{
  SemanticModel, StructSymbol, StructReceiver, ParameterSymbol, ConstructorSymbol, FunctionSymbol,
  structure, constructor_at, function_at,
}
use stainless.Compiler.Ownership.State.{FlowState}
use stainless.Compiler.Ownership.State as State
use stainless.Compiler.Ownership.Analyzer.{Message, read}
use stainless.Compiler.Ownership.LastUses.{collect_last_uses}
use stainless.Compiler.Ownership.Walk.{
  Walker, LastUses, set_state, enter_scope, leave_scope, declare_local,
}
use stainless.Compiler.Ownership.Walk.Receivers.{return_borrow_parameter}
use stainless.Compiler.Ownership.Walk.Expressions.{walked}
use stainless.Compiler.Ownership.Walk.Statements.{statements_walk}
use text.Mathlib.Text.{◌==◌ as str_eq}

-- The name that no source file can spell.
abbrev pub receiver_name : String
receiver_name = "\0stainless_self"

unfoldable pub generic_parameter_type : StructSymbol → String → TypeRef
generic_parameter_type s parameter =
    if any (λ name. str_eq name parameter) s.const_parameters
    then TypeRef.const_parameter parameter
    else TypeRef.parameter parameter

unfoldable pub generic_arguments : StructSymbol → List String → TypeRefs
generic_arguments s [] = TypeRefs.nil
generic_arguments s (parameter ∷ rest) =
    TypeRefs.cons (generic_parameter_type s parameter) (generic_arguments s rest)

abbrev pub type_of_kind : UserTypeKind → List String → TypeRefs → TypeRef
type_of_kind UserTypeKind.struct path arguments = TypeRef.struct path arguments
type_of_kind UserTypeKind.class path arguments = TypeRef.class path arguments
type_of_kind UserTypeKind.interface path arguments = TypeRef.interface path arguments

abbrev pub receiver_target : Option StructSymbol → TypeRef
receiver_target none = TypeRef.error
receiver_target (some s) = type_of_kind s.kind s.path (generic_arguments s s.type_parameters)

-- The state of a new function: no binding, one scope.
abbrev pub fresh : Walker → Walker
fresh w = enter_scope (set_state State.empty w)

abbrev pub set_receiver : Option ℕ → Walker → Walker
set_receiver id w = record w { receiver_binding = id }

-- What a body may return.
abbrev pub set_returns : Option ℕ → Bool → Walker → Walker
set_returns origin by_reference w = record w {
  analyzer = record w.analyzer { return_borrow = origin };
  returns_reference = by_reference;
}

abbrev pub clear_exceptions : Walker → Walker
clear_exceptions w = record w { exceptions = [] }

-- `parameters.iter().zip(&symbol.parameters)`, with the bindings of the parameters.
unfoldable pub declare_parameters :
    LastUses → List Parameter → List ParameterSymbol → Walker → Option (Walker × List ℕ)
declare_parameters last_uses [] resolved w = some (w, [])
declare_parameters last_uses (p ∷ syntax) [] w = some (w, [])
declare_parameters last_uses (p ∷ syntax) (r ∷ resolved) w = do
  (declared, id) ← declare_local last_uses p.name r.ty none p.span w
  (done, ids) ← declare_parameters last_uses syntax resolved declared
  some (done, id ∷ ids)

abbrev pub parameter_at : List ℕ → Option ℕ → Option ℕ
parameter_at ids none = none
parameter_at ids (some index) = get_elem? ids index

-- The binding that a returned reference must come from.
abbrev pub return_origin : FunctionSymbol → (receiver : Option ℕ) → List ℕ → Option ℕ
return_origin f none ids = parameter_at ids (return_borrow_parameter f)
return_origin f (some receiver) ids =
    if is_reference f.return_type
    then some receiver
    else parameter_at ids (return_borrow_parameter f)

module _ (semantics : SemanticModel) (last_uses : LastUses) where
  unfoldable pub declare_receiver :
      StructId → (mutable : Bool) → Span → Walker → Option (Walker × ℕ)
  declare_receiver id mutable span w =
      declare_local [] receiver_name
        (TypeRef.reference mutable (receiver_target (structure semantics id))) none span w

  unfoldable pub declare_receiver_option :
      Option StructReceiver → Span → Walker → Option (Walker × Option ℕ)
  declare_receiver_option none span w = some (w, none)
  declare_receiver_option (some r) span w = do
    (declared, id) ← declare_receiver r.structure r.mutable span w
    some (declared, some id)

  unfoldable pub arguments_read : List Expression → Walker → Option Walker
  arguments_read [] w = some w
  arguments_read (e ∷ rest) w = (walked semantics e).walk read w >>= λ r. arguments_read rest r.0

  unfoldable pub initializers_walk : List ConstructorInitializer → Walker → Option Walker
  initializers_walk [] w = some w
  initializers_walk (i ∷ rest) w = arguments_read i.arguments w >>= λ w'. initializers_walk rest w'

  -- `self.block(body, false)` and the end of the scope of the parameters.
  unfoldable pub body_walk : Block → Walker → Option Walker
  body_walk (braced statements _) w = do
    (ran, _) ← statements_walk semantics last_uses statements w
    left ← leave_scope ran
    some (set_receiver none left)

  unfoldable pub constructor_body :
      Option ConstructorSymbol → Constructor → Block → Walker → Option Walker
  constructor_body none c body w = some w
  constructor_body (some symbol) c body w = do
    (received, id) ← declare_receiver symbol.structure true c.span (fresh w)
    (declared, _) ←
        declare_parameters last_uses c.parameters symbol.parameters
          (set_receiver (some id) received)
    initialized ← initializers_walk c.initializers declared
    body_walk body (clear_exceptions (set_returns none false initialized))

  unfoldable pub function_body : Option FunctionSymbol → Function → Block → Walker → Option Walker
  function_body none f body w = some w
  function_body (some symbol) f body w = do
    (received, id) ← declare_receiver_option symbol.receiver f.span (fresh w)
    (declared, ids) ←
        declare_parameters last_uses f.parameters symbol.parameters (set_receiver id received)
    let origin = return_origin symbol id ids
    walked_body ←
        body_walk body
          (clear_exceptions (set_returns origin (is_reference symbol.return_type) declared))
    some (set_returns none false walked_body)

  -- A declaration without a body is passed over.
  unfoldable pub constructor_walk : Option Block → Constructor → Walker → Option Walker
  constructor_walk none c w = some w
  constructor_walk (some body) c w = constructor_body (constructor_at semantics c.span) c body w

  unfoldable pub function_walk : Option Block → Function → Walker → Option Walker
  function_walk none f w = some w
  function_walk (some body) f w = function_body (function_at semantics f.span) f body w

  unfoldable pub constructors_walk : List Constructor → Walker → Option Walker
  constructors_walk [] w = some w
  constructors_walk (c ∷ rest) w = constructor_walk c.body c w >>= λ w'. constructors_walk rest w'

  unfoldable pub functions_walk : List Function → Walker → Option Walker
  functions_walk [] w = some w
  functions_walk (f ∷ rest) w = function_walk f.body f w >>= λ w'. functions_walk rest w'

  unfoldable mutual
    pub item_walk : Item → Walker → Option Walker
    item_walk (Item.namespace _ items _) w = items_walk items w
    item_walk (Item.struct s) w =
        constructors_walk s.constructors w >>= λ w'. functions_walk s.functions w'
    item_walk (Item.constructor c) w = constructor_walk c.body c w
    item_walk (Item.function f) w = function_walk f.body f w
    item_walk (Item.enum _) w = some w
    item_walk (Item.import _) w = some w

    pub items_walk : Items → Walker → Option Walker
    items_walk no_item w = some w
    items_walk (and_item item rest) w = item_walk item w >>= λ w'. items_walk rest w'

abbrev pub new_walker : Walker
new_walker = record {
  analyzer = record {
    state = State.empty;
    diagnostics = [];
    emitted = [];
    return_borrow = none;
    loop_depth = 0;
  };
  receiver_binding = none;
  returns_reference = false;
  loops = [];
  exceptions = [];
}

unfoldable pub validate : SourceFile → SemanticModel → Option (List (Diagnostic Message))
validate source semantics = do
  last_uses ← collect_last_uses source.items
  w ← items_walk semantics last_uses source.items new_walker
  some (sort_by_span w.analyzer.diagnostics)
