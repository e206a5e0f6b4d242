-- ===== src/Lib.antt =====
-- Stainless: a compiler from Stainless source (`.stl`) to Rust, and the runtime library of the
-- generated programs.
--
-- The program's parts. `crates/stainless-syntax` turns text into a lossless token and syntax tree;
-- `crates/stainless-compiler` lowers the tree to its own syntax (`ast.rs`), validates its structure
-- (`semantics.rs`), resolves imports, names and types (`resolution/`), checks moves and borrows
-- (`ownership.rs`) and generates Rust; `crates/stainlessc` is the command, which resolves packages
-- first (`package.rs`); `crates/stainless-runtime` is linked into the generated program.
--
-- What is modelled, and where:
--
-- Base: numbers, tests, lists and options that the other modules share.
-- Compiler/Diagnostic, Compiler/Types: `Span`, the diagnostics of `diagnostic.rs` with their sort,
--   and `TypeRef` of `interop/model.rs` with the classifications of types that `ownership.rs`
--   makes.
-- Compiler/Ownership: `ownership.rs`. State is `FlowState` (bindings, loans, scopes) and its
--   operations, Analyzer the checks that report; Merge, Reports, Accounting, Ledger, Exclusive and
--   Origin prove what they do. A ledger is an analyzer with the loans that an expression or a loop
--   holds for a while; a step of it is one call of an operation. Ownership/LastUses is the
--   collector of last uses, and Ownership/Walk the walk itself: Arguments, Receivers, Calls,
--   Expressions, Loops, Statements and Items have the methods of `Analyzer` by what they walk. An
--   expression becomes its walk as a function (`Walked`: the walk, and how the expression is
--   written, named, or passed as a callback), and a statement becomes a run that says whether its
--   end is reachable, so the methods that call each other stand in order and no fuel is needed; a
--   loop's body is walked at most twice, as in the source. Ownership/Balance relates every walk to
--   the loans that are out and to the scopes that are open. In the states that jumps and exceptions
--   captured some loans are out; Balance/Plain names the bodies where the join after a `try` cannot
--   bring one of these back, those without a `try` outside of their loops, and Balance/Exact is
--   about them.
-- Compiler/Resolution: the resolved model of `resolution/mod.rs`, with the lookups by span and by
--   identifier. Its lowering enumerations come from `interop/model.rs`.
-- Compiler/Syntax: the compiler's own syntax, `ast.rs`. Types, Statements (with expressions) and Items.
-- Compiler/Semantics: `semantics.rs`. The parent has the walk over statements and functions,
--   Validate the one over declarations. Rules states the rules of the language without a walk:
--   where a statement stands (in loops, in handlers) and what is wrong there; Extends, Parts,
--   Sound and Complete relate the walk to it, Order is about the sort.
-- Driver/Package: `crates/stainlessc/src/package.rs`. Paths has the manifest, the checks of names
--   and paths and the errors, and the record `FileSystem`, a parameter: canonical paths, kinds of
--   files, and what reading and parsing a manifest comes to, its tables in the order of their
--   keys. Resolver is the depth-first visit, cut into the parts of the source's method. It runs on
--   fuel, one unit for each package on the way down; a directory is on it once, so more than the
--   number of directories is enough (Settles, Termination). Order proves the order of the
--   packages.
-- Runtime: the types `BigEndian`, `LittleEndian` and `MultiMap` of `crates/stainless-runtime/src/lib.rs`.
--   The keys of a multimap come with an order, a record of its test and its
--   laws; a `len` does not reach the bound of `usize`. A callback is a function with a
--   state of its own. The changes of values that `iter_mut` allows are left out.
--
-- How the state corresponds. A method that takes `&mut self` is a function to the new state; an index
-- out of bounds or a failed `expect`, which panic in Rust, are `none`. A `Vec` that is used as a stack
-- is a list with its top at the head. A set and a map are lists. A `usize` has 64 bits. A search that
-- runs on fuel has a theorem that its fuel is enough.
--
-- Not modelled: what only calls other libraries or the operating system (files, sockets, clocks),
-- generated text, and the passes that the list of components names as such.
pub mod Base
pub mod Compiler
pub mod Driver
pub mod Runtime
