-- ===== src/Compiler/Syntax.antt =====
-- crates/stainless-compiler/src/ast.rs: the compiler's own syntax. Types and declarations are in
-- the child modules Types and Items, expressions and statements in Statements.
pub mod Types
pub mod Statements
pub mod Items
