-- ===== src/Driver/Package/Resolver/Settles.antt =====
-- The parts of a visit that do not recurse never run out of fuel.
use stainless.Base.{
  if◌then◌else◌, ◌≡◌, refl, String, Bool, true, false, Option, none, some, List, [], ◌∷◌, arith,
}
use stainless.Driver.Package.Paths.{
  FilePath, join, FileSystem, PackageError, out_of_fuel, canonical_directory, validate_name,
  validate_source_path, package_manifest_filename,
}
use stainless.Driver.Package.Resolver.{
  Resolver, get_path, load_manifest, check_expected, open_package, add_native_dependencies,
  add_source, add_sources, check_resolved, validate_resolved_name,
}
use stainless.Base.Results.{Result, ok, err, ◌>>=◌, ensure, ok_or}

abbrev pub is_out_of_fuel : PackageError → Bool
is_out_of_fuel out_of_fuel = true
is_out_of_fuel _ = false

-- The run stopped for want of fuel.
abbrev pub is_exhausted {ℓ} : {A : Type ℓ} → Result PackageError A → Bool
is_exhausted (ok a) = false
is_exhausted (err e) = is_out_of_fuel e

pub record Settles {ℓ} {A : Type ℓ} (m : Result PackageError A) : Type 0 where
  pub settled : is_exhausted m ≡ false

pub bind-Settles {ℓ κ} :
    {A : Type ℓ} {B : Type κ} (m : Result PackageError A) (f : A → Result PackageError B)
    → Settles m
    → ((a : A) → m ≡ ok a → Settles (f a))
    → Settles (m >>= f)
bind-Settles (ok a) f h k = k a refl
bind-Settles (err e) f h k = record { settled = h.settled }

pub ok-Settles {ℓ} : {A : Type ℓ} (a : A) → Settles (ok a)
ok-Settles a = record { settled = refl }

ensure-Settles : (b : Bool) (e : PackageError) → is_out_of_fuel e ≡ false → Settles (ensure b e)
ensure-Settles true e h = record { settled = refl }
ensure-Settles false e h = record { settled = h }

ok_or-Settles {ℓ} :
    {A : Type ℓ} (o : Option A) (e : PackageError) → is_out_of_fuel e ≡ false → Settles (ok_or o e)
ok_or-Settles (some a) e h = record { settled = refl }
ok_or-Settles none e h = record { settled = h }

pub if-Settles {ℓ} :
    {A : Type ℓ} (b : Bool) (m n : Result PackageError A)
    → Settles m
    → Settles n
    → Settles (if b then m else n)
if-Settles true m n h k = h
if-Settles false m n h k = k

ruleset basic_rules = (bind-Settles, ok-Settles, ensure-Settles, ok_or-Settles, refl)

pub canonical_directory-Settles :
    (fs : FileSystem) (path : FilePath) (description : String)
    → Settles (canonical_directory fs path description)
unfolding canonical_directory
canonical_directory-Settles fs path description = search basic_rules

pub validate_name-Settles : (name description : String) → Settles (validate_name name description)
unfolding validate_name
validate_name-Settles name description = search basic_rules

load_manifest-Settles : (fs : FileSystem) (root : FilePath) → Settles (load_manifest fs root)
load_manifest-Settles fs root = record {
  settled =
      let path = join root package_manifest_filename in let loaded = fs.load path in ground arith;
}

check_expected-Settles :
    (expected : Option String) (name : String) (root : FilePath)
    → Settles (check_expected expected name root)
check_expected-Settles none name root = search basic_rules
check_expected-Settles (some expected) name root = search basic_rules

validate_resolved_name-Settles :
    (root : FilePath) (expected : String) (st : Resolver)
    → Settles (validate_resolved_name root expected st)
unfolding validate_resolved_name
validate_resolved_name-Settles root expected st = record {
  settled = let entry = get_path expected st.package_names in ground arith;
}

pub check_resolved-Settles :
    (expected : Option String) (root : FilePath) (st : Resolver)
    → Settles (check_resolved expected root st)
check_resolved-Settles none root st = search basic_rules
check_resolved-Settles (some expected) root st = validate_resolved_name-Settles root expected st

validate_source_path-Settles : (path : FilePath) → Settles (validate_source_path path)
unfolding validate_source_path
validate_source_path-Settles path = search basic_rules

ruleset settles_rules = (
  basic_rules, if-Settles, canonical_directory-Settles, validate_name-Settles,
  load_manifest-Settles, check_expected-Settles, check_resolved-Settles,
  validate_source_path-Settles,
)

pub open_package-Settles :
    (fs : FileSystem) (root : FilePath) (expected : Option String) (st : Resolver)
    → Settles (open_package fs root expected st)
unfolding open_package
open_package-Settles fs root expected st = search settles_rules depth 16

pub add_native_dependencies-Settles :
    (fs : FileSystem) (root : FilePath) (entries : List (String × FilePath)) (st : Resolver)
    → Settles (add_native_dependencies fs root entries st)
unfolding add_native_dependencies
add_native_dependencies-Settles fs root [] st = search settles_rules
add_native_dependencies-Settles fs root ((name, dependency) ∷ rest) st =
    search (settles_rules, add_native_dependencies-Settles fs root rest)

add_source-Settles :
    (fs : FileSystem) (root relative : FilePath) (st : Resolver)
    → Settles (add_source fs root relative st)
unfolding add_source
add_source-Settles fs root relative st = search settles_rules

pub add_sources-Settles :
    (fs : FileSystem) (root : FilePath) (sources : List FilePath) (st : Resolver)
    → Settles (add_sources fs root sources st)
unfolding add_sources
add_sources-Settles fs root [] st = search settles_rules
add_sources-Settles fs root (source ∷ rest) st =
    search (settles_rules, add_source-Settles fs root source, add_sources-Settles fs root rest)
