-- ===== src/Driver/Package/Examples.antt =====
-- A package with two dependencies, of which one depends on the other, on a small file system; and
-- two packages that depend on each other.
use stainless.Base.{
  ◌<◌, arith, length, ◌≡◌, refl, true, false, Option, none, some, List, [], ◌∷◌, if◌then◌else◌,
  String,
}
use stainless.Driver.Package.Paths.{
  FilePath, Component, normal, parent_dir, join, package_manifest_filename, path_eq,
  PackageManifest, Loaded, unreadable, parsed, FileSystem, cyclic, canonical_directory,
  validate_name, validate_source_path,
}
use stainless.Driver.Package.Resolver.{
  Resolver, resolve, visit, visit_new, visit_dependencies, open_package, add_sources, add_source,
  add_native_dependencies, validate_resolved_name, has_path, fresh,
}
use stainless.Driver.Package.Resolver.Frames.{canonical_directory-is_dir}
use stainless.Driver.Package.Resolver.Order.{resolve-IsOrdered, IsOrdered}
use stainless.Driver.Package.Resolver.Settles.{is_exhausted}
use stainless.Driver.Package.Resolver.Termination.{resolve-Settles, Within}
use mathlib.Core.List.{reverse}
use stainless.Base.Results.{ok, err}

abbrev root_path : String → FilePath
root_path name = record { absolute = true; components = normal name none ∷ [] }

abbrev sibling : String → FilePath
sibling name = record { absolute = false; components = parent_dir ∷ normal name none ∷ [] }

abbrev source : String → FilePath
source name = record { absolute = false; components = normal name (some "stl") ∷ [] }

abbrev manifest : String → List String → Option FilePath → PackageManifest
manifest name dependencies main = record {
  schema = 1;
  name = name;
  sources = source "types" ∷ [];
  main = main;
  dependencies = entries dependencies;
  native_dependencies = [];
}
  where
    entries : List String → List (String × FilePath)
    entries [] = []
    entries (n ∷ ns) = (n, sibling n) ∷ entries ns

-- Drops what a parent directory takes back; the newest component first.
abbrev normalise : List Component → List Component → List Component
normalise seen [] = reverse seen
normalise [] (parent_dir ∷ cs) = normalise [] cs
normalise (s ∷ seen) (parent_dir ∷ cs) = normalise seen cs
normalise seen (c ∷ cs) = normalise (c ∷ seen) cs

abbrev load_from : List (FilePath × PackageManifest) → FilePath → Loaded
load_from [] p = unreadable
load_from ((root, m) ∷ rest) p =
    if path_eq (join root package_manifest_filename) p then parsed m else load_from rest p

abbrev directories : List (FilePath × PackageManifest) → List FilePath
directories [] = []
directories ((root, m) ∷ rest) = root ∷ directories rest

abbrev file_system : List (FilePath × PackageManifest) → FileSystem
file_system packages = record {
  canonicalize = λ p. some (record p { components = normalise [] p.components });
  is_dir = λ p. has_path p (directories packages);
  is_file = λ p. true;
  load = load_from packages;
}

abbrev packages : List (FilePath × PackageManifest)
packages =
    (root_path "app", manifest "app" ("core" ∷ "net" ∷ []) (some (source "main")))
    ∷ (root_path "core", manifest "core" [] (some (source "main")))
    ∷ (root_path "net", manifest "net" ("core" ∷ []) none)
    ∷ []

abbrev files : FileSystem
files = file_system packages

abbrev resolved : Resolver
resolved = elim (resolve 4 files (root_path "app")) [ ok st ↦ st | err e ↦ fresh ]

app-resolves : resolve 4 files (root_path "app") ≡ ok resolved
unfolding resolve canonical_directory path_eq visit visit_new open_package validate_name
    visit_dependencies add_native_dependencies add_sources add_source validate_source_path
    validate_resolved_name
app-resolves = refl

package_roots-resolved :
    resolved.package_roots ≡ root_path "core" ∷ root_path "net" ∷ root_path "app" ∷ []
unfolding resolve canonical_directory path_eq visit visit_new open_package validate_name
    visit_dependencies add_native_dependencies add_sources add_source validate_source_path
    validate_resolved_name
package_roots-resolved = refl

-- Only the package that is asked for adds its main source.
length-sources : length resolved.sources ≡ 4
unfolding resolve canonical_directory path_eq visit visit_new open_package validate_name
    visit_dependencies add_native_dependencies add_sources add_source validate_source_path
    validate_resolved_name
length-sources = refl

resolve-cycle :
    resolve 4
      (file_system (
        (root_path "a", manifest "a" ("b" ∷ []) none)
        ∷ (root_path "b", manifest "b" ("a" ∷ []) none)
        ∷ []))
      (root_path "a")
    ≡ err (cyclic (root_path "a"))
unfolding resolve canonical_directory path_eq visit visit_new open_package validate_name
    visit_dependencies add_native_dependencies add_sources add_source validate_source_path
    validate_resolved_name
resolve-cycle = refl

three_directories : length (directories packages) < 4
three_directories = omega arith

files-Within : Within files (directories packages)
files-Within path description q h = canonical_directory-is_dir files path description q h

resolve-IsOrdered_example :
    (root : FilePath) × (canonical_directory files (root_path "app") "package root" ≡ ok root)
    × (has_path root (reverse resolved.package_roots) ≡ true)
    × IsOrdered files (reverse resolved.package_roots)
resolve-IsOrdered_example = resolve-IsOrdered 4 files (root_path "app") resolved app-resolves

resolve-Settles_example : is_exhausted (resolve 4 files (root_path "app")) ≡ false
resolve-Settles_example =
    resolve-Settles files (directories packages) 4 (root_path "app") files-Within three_directories
