-- ===== src/Driver/Package/Resolver.antt =====
-- `Resolver` of crates/stainlessc/src/package.rs: the depth-first visit of a package and its
-- dependencies. A set is a list of its members and a map a list of pairs, the newest first; the
-- recursion runs on fuel.
pub mod Frames
pub mod Order
pub mod Settles
pub mod Termination
use stainless.Base.{
  ℕ, zero, suc, ◌==◌, if◌then◌else◌, String, Bool, true, false, not, ◌&&◌, ◌||◌, Option, none, some,
  List, [], ◌∷◌, ◌++◌, any,
}
use stainless.Driver.Package.Paths.{
  FilePath, path_eq, join, file, package_manifest_filename, PackageManifest, Loaded, unreadable,
  invalid, parsed, FileSystem, PackageError, cyclic, manifest_unreadable, manifest_invalid,
  unsupported_schema, unexpected_name, package_at_two_roots, dependency_at_two_roots,
  native_at_two_roots, dependency_mismatch, no_cargo_toml, source_unresolved, source_not_file,
  out_of_fuel, canonical_directory, validate_name, validate_source_path,
}
use text.Mathlib.Text.{◌==◌ as str_eq}
use stainless.Base.Results.{
  Result, ok, err, ◌>>=◌, ◌>>◌, ensure, ok_or, >>=-eq-ok, ok-injective, ensure-eq-ok,
}

pub record Resolver : Type 0 where
  pub visiting : List FilePath
  pub visited : List FilePath
  pub package_names : List (String × FilePath)
  pub source_paths : List FilePath
  pub sources : List FilePath
  pub package_roots : List FilePath
  pub native_dependencies : List (String × FilePath)

abbrev pub fresh : Resolver
fresh = record {
  visiting = [];
  visited = [];
  package_names = [];
  source_paths = [];
  sources = [];
  package_roots = [];
  native_dependencies = [];
}

abbrev pub has_path : FilePath → List FilePath → Bool
has_path p [] = false
has_path p (q ∷ qs) = path_eq q p || has_path p qs

-- `visiting.remove(root)`
abbrev pub remove_path : FilePath → List FilePath → List FilePath
remove_path p [] = []
remove_path p (q ∷ qs) = if path_eq q p then remove_path p qs else q ∷ remove_path p qs

abbrev pub get_path : String → List (String × FilePath) → Option FilePath
get_path name [] = none
get_path name ((n, p) ∷ entries) = if str_eq n name then some p else get_path name entries

-- An entry for the name, if there is one, is for this path.
abbrev pub agrees : String → FilePath → List (String × FilePath) → Bool
agrees name path entries = elim (get_path name entries) [ none ↦ true | some p ↦ path_eq p path ]

abbrev pub entry_of : String → FilePath → List (String × FilePath) → FilePath
entry_of name default entries = elim (get_path name entries) [ none ↦ default | some p ↦ p ]

unfoldable pub validate_resolved_name :
    FilePath → String → Resolver → Result PackageError (Unit {0})
validate_resolved_name root expected_name st = elim (get_path expected_name st.package_names) [
  | none ↦ err (dependency_mismatch expected_name root)
  | some resolved ↦
      ensure (path_eq resolved root) (dependency_at_two_roots expected_name resolved root)
]

abbrev pub load_manifest : FileSystem → FilePath → Result PackageError PackageManifest
load_manifest fs root =
    let path = join root package_manifest_filename in
    elim (fs.load path) [
      | unreadable ↦ err (manifest_unreadable path)
      | invalid ↦ err (manifest_invalid path)
      | parsed manifest ↦ ok manifest
    ]

abbrev pub check_expected : Option String → String → FilePath → Result PackageError (Unit {0})
check_expected none name root = ok tt
check_expected (some expected) name root =
    ensure (str_eq expected name) (unexpected_name expected name root)

-- From the entry of `visit` to the entry of the package's name: the manifest, and the state.
unfoldable pub open_package :
    FileSystem
    → FilePath
    → Option String
    → Resolver
    → Result PackageError (PackageManifest × Resolver)
unfolding join
open_package fs root expected st = do
  ensure (not (has_path root st.visiting)) (cyclic root)
  manifest ← load_manifest fs root
  ensure (manifest.schema == 1)
      (unsupported_schema manifest.schema (join root package_manifest_filename))
  validate_name manifest.name "package name"
  check_expected expected manifest.name root
  ensure (agrees manifest.name root st.package_names)
      (package_at_two_roots manifest.name (entry_of manifest.name root st.package_names) root)
  ok (
    manifest,
    record st {
      visiting = root ∷ st.visiting;
      package_names = (manifest.name, root) ∷ st.package_names;
    },
  )

abbrev pub Visit : Type 0
Visit = FilePath → Option String → Bool → Resolver → Result PackageError Resolver

unfoldable pub visit_dependencies :
    Visit
    → FileSystem
    → FilePath
    → List (String × FilePath)
    → Resolver
    → Result PackageError Resolver
visit_dependencies visit fs root [] st = ok st
visit_dependencies visit fs root ((name, dependency) ∷ rest) st =
    validate_name name "dependency name"
    >> (canonical_directory fs (join root dependency) "dependency root" >>= λ dependency_root.
        visit dependency_root (some name) false st >>= λ st'.
        visit_dependencies visit fs root rest st')

unfoldable pub add_native_dependencies :
    FileSystem → FilePath → List (String × FilePath) → Resolver → Result PackageError Resolver
add_native_dependencies fs root [] st = ok st
add_native_dependencies fs root ((name, dependency) ∷ rest) st =
    validate_name name "native dependency name"
    >> (canonical_directory fs (join root dependency) "native dependency root" >>= λ path.
        ensure (fs.is_file (join path (file "Cargo" (some "toml")))) (no_cargo_toml name path)
        >> (ensure (agrees name path st.native_dependencies)
              (native_at_two_roots name (entry_of name path st.native_dependencies) path)
            >> add_native_dependencies fs root rest
                (record st { native_dependencies = (name, path) ∷ st.native_dependencies })))

unfoldable pub add_source :
    FileSystem → FilePath → FilePath → Resolver → Result PackageError Resolver
add_source fs root relative st = do
  validate_source_path relative
  source ← ok_or (fs.canonicalize (join root relative)) (source_unresolved (join root relative))
  ensure (fs.is_file source) (source_not_file source)
  ok (
      if has_path source st.source_paths then st else record st {
        source_paths = source ∷ st.source_paths;
        sources = st.sources ++ source ∷ [];
      })

unfoldable pub add_sources :
    FileSystem → FilePath → List FilePath → Resolver → Result PackageError Resolver
add_sources fs root [] st = ok st
add_sources fs root (source ∷ rest) st =
    add_source fs root source st >>= λ st'. add_sources fs root rest st'

abbrev pub main_of : Bool → Option FilePath → List FilePath
main_of true (some main) = main ∷ []
main_of true none = []
main_of false main = []

abbrev pub close_package : FilePath → Resolver → Resolver
close_package root st = record st {
  visiting = remove_path root st.visiting;
  visited = root ∷ st.visited;
  package_roots = st.package_roots ++ root ∷ [];
}

-- `visit` of a package that was not visited before.
unfoldable pub visit_new : Visit → FileSystem → Visit
visit_new visit fs root expected include_main st = do
  (manifest, opened) ← open_package fs root expected st
  with_dependencies ← visit_dependencies visit fs root manifest.dependencies opened
  with_natives ← add_native_dependencies fs root manifest.native_dependencies with_dependencies
  with_sources ← add_sources fs root manifest.sources with_natives
  with_main ← add_sources fs root (main_of include_main manifest.main) with_sources
  ok (close_package root with_main)

abbrev pub check_resolved : Option String → FilePath → Resolver → Result PackageError (Unit {0})
check_resolved none root st = ok tt
check_resolved (some expected) root st = validate_resolved_name root expected st

unfoldable pub visit : (fuel : ℕ) → FileSystem → Visit
visit zero fs root expected include_main st = err out_of_fuel
visit (suc fuel) fs root expected include_main st =
    if has_path root st.visited
    then check_resolved expected root st >> ok st
    else visit_new (visit fuel fs) fs root expected include_main st

unfoldable pub resolve : (fuel : ℕ) → FileSystem → FilePath → Result PackageError Resolver
resolve fuel fs path = do
  root ← canonical_directory fs path "package root"
  visit fuel fs root none true fresh
