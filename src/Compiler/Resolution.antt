-- ===== src/Compiler/Resolution.antt =====
-- crates/stainless-compiler/src/resolution/mod.rs: what name and type resolution finds out of a
-- file, and how the later passes look it up. Model has the tables and Calls the resolved calls.
pub mod Calls
pub mod Model
