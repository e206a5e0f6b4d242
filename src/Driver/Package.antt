-- ===== src/Driver/Package.antt =====
-- crates/stainlessc/src/package.rs: the resolution of a package and of all packages that it
-- depends on.
pub mod Examples
pub mod Paths
pub mod Resolver
