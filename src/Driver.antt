-- ===== src/Driver.antt =====
-- crates/stainlessc/src: the command.
pub mod Package
