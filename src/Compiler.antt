-- ===== src/Compiler.antt =====
-- crates/stainless-compiler/src: the passes of the compiler.
pub mod Diagnostic
pub mod Types
pub mod Ownership
pub mod Resolution
pub mod Semantics
pub mod Syntax
