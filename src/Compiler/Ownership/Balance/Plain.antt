-- ===== src/Compiler/Ownership/Balance/Plain.antt =====
-- Bodies without a `try` that a loop does not surround, for the theorems on the walk.
use stainless.Base.{Option, none, some, All}
use stainless.Compiler.Syntax.Statements.{
  Block, braced, Statements, no_statement, and_statement, Statement, statement, OptionalStatement,
  no_else, else_statement, StatementKind, block, try_statement, if_statement,
}
use stainless.Compiler.Syntax.Items.{Item, Items, no_item, and_item, Constructor, Function}

-- A loop joins what its body leaves with the state before the loop, so its body is not looked into.
unfoldable mutual
  pub IsPlain : Statement → Type 0
  IsPlain (statement kind _) = IsPlainKind kind

  pub IsPlainKind : StatementKind → Type 0
  IsPlainKind (block body) = IsPlainBlock body
  IsPlainKind (try_statement _ _) = ⊥
  IsPlainKind (if_statement _ then_branch else_branch) =
      IsPlain then_branch × IsPlainElse else_branch
  IsPlainKind _ = Unit

  pub IsPlainBlock : Block → Type 0
  IsPlainBlock (braced statements _) = IsPlainStatements statements

  pub IsPlainStatements : Statements → Type 0
  IsPlainStatements no_statement = Unit
  IsPlainStatements (and_statement s rest) = IsPlain s × IsPlainStatements rest

  pub IsPlainElse : OptionalStatement → Type 0
  IsPlainElse no_else = Unit
  IsPlainElse (else_statement s) = IsPlain s

abbrev pub IsPlainBody : Option Block → Type 0
IsPlainBody none = Unit
IsPlainBody (some body) = IsPlainBlock body

unfoldable mutual
  pub IsPlainItem : Item → Type 0
  IsPlainItem (Item.namespace _ items _) = IsPlainItems items
  IsPlainItem (Item.struct s) =
      All (λ (c : Constructor). IsPlainBody c.body) s.constructors
      × All (λ (f : Function). IsPlainBody f.body) s.functions
  IsPlainItem (Item.constructor c) = IsPlainBody c.body
  IsPlainItem (Item.function f) = IsPlainBody f.body
  IsPlainItem _ = Unit

  pub IsPlainItems : Items → Type 0
  IsPlainItems no_item = Unit
  IsPlainItems (and_item item rest) = IsPlainItem item × IsPlainItems rest
