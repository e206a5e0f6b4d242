-- ===== src/Driver/Package/Paths.antt =====
-- What crates/stainlessc/src/package.rs reads: paths, manifests and the file system, and the
-- checks of names and source paths. The file system with the TOML parser behind it is a
-- parameter; a path is what `std::path` says of it, with a file name split as `extension` does.
use stainless.Base.{
  ℕ, ◌==◌, leb, if◌then◌else◌, String, Bool, true, false, not, ◌&&◌, ◌||◌, Option, none, some, List,
  [], ◌∷◌, ◌++◌, any,
}
use Prim.Native.Char.{code}
use text.Mathlib.Text.{◌==◌ as str_eq}
use stainless.Base.Results.{Result, ok, ◌>>=◌, ◌>>◌, ensure, ok_or}

pub data Component : Type 0 where
  normal : (stem : String) → (extension : Option String) → Component
  parent_dir cur_dir : Component

pub record FilePath : Type 0 where
  pub absolute : Bool
  pub components : List Component

abbrev pub option_eq : Option String → Option String → Bool
option_eq none none = true
option_eq (some a) (some b) = str_eq a b
option_eq _ _ = false

abbrev pub component_eq : Component → Component → Bool
component_eq (normal a x) (normal b y) = str_eq a b && option_eq x y
component_eq parent_dir parent_dir = true
component_eq cur_dir cur_dir = true
component_eq _ _ = false

abbrev pub components_eq : List Component → List Component → Bool
components_eq [] [] = true
components_eq (c ∷ cs) (d ∷ ds) = component_eq c d && components_eq cs ds
components_eq _ _ = false

abbrev pub bool_eq : Bool → Bool → Bool
bool_eq true b = b
bool_eq false b = not b

unfoldable pub path_eq : FilePath → FilePath → Bool
path_eq p q = bool_eq p.absolute q.absolute && components_eq p.components q.components

-- `root.join(relative)`
unfoldable pub join : FilePath → FilePath → FilePath
join root relative =
    if relative.absolute
    then relative
    else record root { components = root.components ++ relative.components }

abbrev pub file : String → Option String → FilePath
file stem extension = record { absolute = false; components = normal stem extension ∷ [] }

-- `PACKAGE_MANIFEST_FILENAME`
abbrev pub package_manifest_filename : FilePath
package_manifest_filename = file "stainless-package" (some "toml")

pub record PackageManifest : Type 0 where
  pub schema : ℕ
  pub name : String
  pub sources : List FilePath
  pub main : Option FilePath
  pub dependencies : List (String × FilePath)
  pub native_dependencies : List (String × FilePath)

-- What reading a manifest file and parsing it comes to.
pub data Loaded : Type 0 where
  unreadable invalid : Loaded
  parsed : PackageManifest → Loaded

pub record FileSystem : Type 0 where
  pub canonicalize : FilePath → Option FilePath
  pub is_dir : FilePath → Bool
  pub is_file : FilePath → Bool
  pub load : FilePath → Loaded

-- The errors, with the arguments of their messages. `out_of_fuel` is none of the program's.
pub data PackageError : Type 0 where
  unresolved not_a_directory : (description : String) → FilePath → PackageError
  cyclic : FilePath → PackageError
  manifest_unreadable manifest_invalid : FilePath → PackageError
  unsupported_schema : ℕ → FilePath → PackageError
  invalid_name : (description name : String) → PackageError
  unexpected_name : (expected name : String) → FilePath → PackageError
  package_at_two_roots dependency_at_two_roots native_at_two_roots :
      (name : String) → FilePath → FilePath → PackageError
  dependency_mismatch : (name : String) → FilePath → PackageError
  no_cargo_toml : (name : String) → FilePath → PackageError
  outside_package not_stl source_unresolved source_not_file : FilePath → PackageError
  out_of_fuel : PackageError

unfoldable pub canonical_directory : FileSystem → FilePath → String → Result PackageError FilePath
canonical_directory fs path description = do
  resolved ← ok_or (fs.canonicalize path) (unresolved description path)
  ensure (fs.is_dir resolved) (not_a_directory description resolved)
  ok resolved

-- `byte.is_ascii_alphanumeric() || matches!(byte, b'-' | b'_')`; the bytes of a character that is
-- not ASCII are none of these, and neither is its code point.
abbrev pub is_name_byte : ℕ → Bool
is_name_byte c =
    (leb b'0' c && leb c b'9')
    || (leb b'A' c && leb c b'Z')
    || (leb b'a' c && leb c b'z')
    || c == b'-'
    || c == b'_'

abbrev pub codes : String → List ℕ
codes String.[] = []
codes (String.◌∷◌ c s) = code c ∷ codes s

abbrev pub is_empty {ℓ} : {A : Type ℓ} → List A → Bool
is_empty [] = true
is_empty (x ∷ xs) = false

abbrev pub is_name : List ℕ → Bool
is_name [] = false
is_name (c ∷ cs) = is_name_byte c && (is_empty cs || is_name cs)

unfoldable pub validate_name : String → String → Result PackageError (Unit {0})
validate_name name description = ensure (is_name (codes name)) (invalid_name description name)

abbrev pub is_parent_dir : Component → Bool
is_parent_dir parent_dir = true
is_parent_dir _ = false

-- `path.extension()`: that of the file name, which is the last component.
abbrev pub extension : List Component → Option String
extension [] = none
extension (normal stem ext ∷ []) = ext
extension (parent_dir ∷ []) = none
extension (cur_dir ∷ []) = none
extension (c ∷ (d ∷ cs)) = extension (d ∷ cs)

unfoldable pub validate_source_path : FilePath → Result PackageError (Unit {0})
validate_source_path path = do
  ensure (not (is_empty path.components || path.absolute || any is_parent_dir path.components))
      (outside_package path)
  ensure (option_eq (extension path.components) (some "stl")) (not_stl path)
