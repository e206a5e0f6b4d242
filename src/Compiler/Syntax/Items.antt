-- ===== src/Compiler/Syntax/Items.antt =====
-- The declarations of crates/stainless-compiler/src/ast.rs.
use stainless.Base.{String, List, Bool, Option}
use stainless.Compiler.Diagnostic.{Span}
use stainless.Compiler.Syntax.Types.{QualifiedName, SourceType}
use stainless.Compiler.Syntax.Statements.{Parameter, Expression, Block}

pub data UserTypeKind : Type 0 where
  struct class interface : UserTypeKind

pub record UseDeclaration : Type 0 where
  pub path : String
  pub span : Span

pub record ConstructorInitializer : Type 0 where
  pub target : QualifiedName
  pub arguments : List Expression
  pub span : Span

pub record Constructor : Type 0 where
  pub is_public : Bool
  pub name : QualifiedName
  pub owner_arguments : List SourceType
  pub parameters : List Parameter
  pub throws : List SourceType
  pub initializers : List ConstructorInitializer
  pub body : Option Block
  pub is_defaulted : Bool
  pub is_deleted : Bool
  pub span : Span

pub record Field : Type 0 where
  pub is_public : Bool
  pub ty : SourceType
  pub name : String
  pub initializer : Option Expression
  pub span : Span

pub record StaticConstant : Type 0 where
  pub is_public : Bool
  pub ty : SourceType
  pub name : String
  pub initializer : Expression
  pub span : Span

pub record Function : Type 0 where
  pub is_public : Bool
  pub is_static : Bool
  pub is_async : Bool
  pub name : QualifiedName
  pub owner_arguments : List SourceType
  pub return_type : SourceType
  pub parameters : List Parameter
  pub is_const : Bool
  pub throws : List SourceType
  pub body : Option Block
  pub span : Span

pub record Struct : Type 0 where
  pub kind : UserTypeKind
  pub name : String
  pub type_parameters : List String
  pub const_parameters : List String
  pub bases : List SourceType
  pub is_sealed : Bool
  pub has_access_specifier : Bool
  pub fields : List Field
  pub static_constants : List StaticConstant
  pub functions : List Function
  pub constructors : List Constructor
  pub span : Span

pub record EnumVariant : Type 0 where
  pub name : String
  pub value : String
  pub span : Span

pub record Enum : Type 0 where
  pub name : String
  pub representation : SourceType
  pub variants : List EnumVariant
  pub span : Span

mutual
  pub data Item : Type 0 where
    namespace : (name : String) → Items → Span → Item
    import : UseDeclaration → Item
    struct : Struct → Item
    enum : Enum → Item
    constructor : Constructor → Item
    function : Function → Item

  pub data Items : Type 0 where
    no_item : Items
    and_item : Item → Items → Items

pub record SourceFile : Type 0 where
  pub items : Items
  pub span : Span
