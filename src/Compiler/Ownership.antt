-- ===== src/Compiler/Ownership.antt =====
-- crates/stainless-compiler/src/ownership.rs: move, borrow and reference-return validation.
pub mod State
pub mod Analyzer
pub mod Checks
pub mod Reports
pub mod Balance
pub mod LastUses
pub mod Walk
pub mod Merge
pub mod Accounting
pub mod Ledger
pub mod Exclusive
pub mod Origin
mod Examples
