-- ===== src/Runtime.antt =====
-- crates/stainless-runtime/src/lib.rs: the support library of generated programs.
pub mod Bytes
pub mod BigEndian
pub mod LittleEndian
pub mod MultiMap
mod Examples
