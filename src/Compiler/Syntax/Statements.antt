-- ===== src/Compiler/Syntax/Statements.antt =====
-- The expressions and statements of crates/stainless-compiler/src/ast.rs, which contain each other
-- through lambdas. A `Vec` or an `Option` of a type of the block is a type of the block.
use stainless.Base.{String, List, Bool}
use stainless.Compiler.Diagnostic.{Span}
use stainless.Compiler.Syntax.Types.{QualifiedName, SourceType}

pub data LiteralKind : Type 0 where
  integer float string character boolean null : LiteralKind

pub record Literal : Type 0 where
  pub kind : LiteralKind
  pub text : String

pub data PrefixOperator : Type 0 where
  plus negate not bitwise_not increment decrement : PrefixOperator

pub data PostfixOperator : Type 0 where
  increment decrement : PostfixOperator

pub data BinaryOperator : Type 0 where
  assign add_assign subtract_assign multiply_assign divide_assign remainder_assign : BinaryOperator
  logical_or logical_and bitwise_or bitwise_xor bitwise_and : BinaryOperator
  equal not_equal less less_equal greater greater_equal : BinaryOperator
  add subtract multiply divide remainder : BinaryOperator

pub data SwitchAlternative : Type 0 where
  literal : Literal → SwitchAlternative
  name : (path : QualifiedName) → Span → SwitchAlternative

pub data SwitchPattern : Type 0 where
  alternatives : List SwitchAlternative → SwitchPattern
  fallback : SwitchPattern

pub record Parameter : Type 0 where
  pub ty : SourceType
  pub name : String
  pub span : Span

pub record RangeBinding : Type 0 where
  pub name : String
  pub span : Span

pub record CatchBinding : Type 0 where
  pub ty : SourceType
  pub name : String
  pub span : Span

mutual
  pub data Expression : Type 0 where
    expression : ExpressionKind → Span → Expression

  pub data Expressions : Type 0 where
    no_expression : Expressions
    and_expression : Expression → Expressions → Expressions

  pub data OptionalExpression : Type 0 where
    absent : OptionalExpression
    present : Expression → OptionalExpression

  pub data ExpressionKind : Type 0 where
    name : QualifiedName → ExpressionKind
    generic_name : (path : QualifiedName) → (arguments : List SourceType) → ExpressionKind
    literal : Literal → ExpressionKind
    parenthesized : Expression → ExpressionKind
    prefix : PrefixOperator → (operand : Expression) → ExpressionKind
    postfix : PostfixOperator → (operand : Expression) → ExpressionKind
    binary : (left : Expression) → BinaryOperator → (right : Expression) → ExpressionKind
    switch : (scrutinee : Expression) → SwitchArms → ExpressionKind
    call : (callee : Expression) → (arguments : Expressions) → ExpressionKind
    macro_call : (callee : QualifiedName) → (arguments : Expressions) → ExpressionKind
    aggregate : SourceType → (initializers : Expressions) → ExpressionKind
    json_array : (elements : Expressions) → ExpressionKind
    json_object : JsonMembers → ExpressionKind
    field : (receiver : Expression) → (name : QualifiedName) → ExpressionKind
    index : (receiver index : Expression) → ExpressionKind
    lambda :
        LambdaCaptures
        → List Parameter
        → (is_mutable is_async : Bool) → (body : Block) → ExpressionKind
    await : Expression → ExpressionKind
    malformed_expression : ExpressionKind

  pub data SwitchArms : Type 0 where
    no_arm : SwitchArms
    and_arm : SwitchArm → SwitchArms → SwitchArms

  pub data SwitchArm : Type 0 where
    switch_arm : SwitchPattern → (value : Expression) → Span → SwitchArm

  pub data JsonMembers : Type 0 where
    no_member : JsonMembers
    and_member : (key : String) → (value : Expression) → JsonMembers → JsonMembers

  pub data LambdaCaptures : Type 0 where
    no_capture : LambdaCaptures
    and_capture : LambdaCapture → LambdaCaptures → LambdaCaptures

  pub data LambdaCapture : Type 0 where
    lambda_capture : (name : String) → LambdaCaptureKind → Span → LambdaCapture

  pub data LambdaCaptureKind : Type 0 where
    copy borrow : LambdaCaptureKind
    initialize : Expression → LambdaCaptureKind

  pub data Block : Type 0 where
    braced : Statements → Span → Block

  pub data Statements : Type 0 where
    no_statement : Statements
    and_statement : Statement → Statements → Statements

  pub data Statement : Type 0 where
    statement : StatementKind → Span → Statement

  pub data OptionalStatement : Type 0 where
    no_else : OptionalStatement
    else_statement : Statement → OptionalStatement

  pub data StatementKind : Type 0 where
    block : Block → StatementKind
    local : LocalDeclaration → StatementKind
    return throw : OptionalExpression → StatementKind
    try_statement : (body : Block) → CatchClauses → StatementKind
    if_statement :
        (condition : Expression)
        → (then_branch : Statement) → (else_branch : OptionalStatement) → StatementKind
    while_statement : (condition : Expression) → (body : Statement) → StatementKind
    for_statement : ForClause → (body : Statement) → StatementKind
    break continue : StatementKind
    expression_statement : Expression → StatementKind
    empty malformed : StatementKind

  pub data CatchClauses : Type 0 where
    no_catch : CatchClauses
    and_catch : CatchClause → CatchClauses → CatchClauses

  pub data CatchClause : Type 0 where
    catch_all : (body : Block) → Span → CatchClause
    catch : CatchBinding → (body : Block) → Span → CatchClause

  pub data LocalDeclaration : Type 0 where
    local_declaration :
        SourceType → (name : String) → (initializer : OptionalExpression) → Span → LocalDeclaration

  pub data ForClause : Type 0 where
    range : SourceType → List RangeBinding → (iterable : Expression) → ForClause
    classic : OptionalForInitializer → (condition update : OptionalExpression) → ForClause
    malformed_clause : ForClause

  pub data OptionalForInitializer : Type 0 where
    no_initializer : OptionalForInitializer
    local_initializer : LocalDeclaration → OptionalForInitializer
    expression_initializer : Expression → OptionalForInitializer
