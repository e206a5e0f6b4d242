-- ===== src/Driver/Package/Resolver/Frames.antt =====
-- What the parts of a visit leave alone, and what membership in the resolver's lists obeys.
use stainless.Base.{
  ◌==◌, ◌≡◌, inl, inr, refl, sym, ap, ◌∙◌, arith, String, true, false, not, Option, none, some,
  List, [], ◌∷◌, Bool-cases,
}
use stainless.Driver.Package.Paths.{
  FilePath, path_eq, Component, normal, parent_dir, cur_dir, option_eq, component_eq, components_eq,
  join, PackageManifest, FileSystem, canonical_directory, validate_name, validate_source_path,
}
use stainless.Driver.Package.Resolver.{
  Resolver, has_path, agrees, load_manifest, check_expected, open_package, add_native_dependencies,
  add_source, add_sources,
}
use text.Mathlib.Text.{◌==◌ as str_eq}
use text.Mathlib.TextEquality.{eq_iff}
use stainless.Base.Results.{ok, ensure, ok_or, >>=-eq-ok, ok-injective, ensure-eq-ok}

option_eq→eq : (a b : Option String) → option_eq a b ≡ true → a ≡ b
option_eq→eq none none h = refl
option_eq→eq (some a) (some b) h = ap some ((eq_iff a b).0 h)
option_eq→eq none (some b) h = cc
option_eq→eq (some a) none h = cc

component_eq→eq : (a b : Component) → component_eq a b ≡ true → a ≡ b
component_eq→eq (normal a x) (normal b y) h =
    let first : str_eq a b ≡ true = ground arith in
    let second : option_eq x y ≡ true = ground arith in
    let e = (eq_iff a b).0 first in let f = option_eq→eq x y second in cc
component_eq→eq parent_dir parent_dir h = refl
component_eq→eq cur_dir cur_dir h = refl
component_eq→eq (normal a x) parent_dir h = cc
component_eq→eq (normal a x) cur_dir h = cc
component_eq→eq parent_dir (normal a x) h = cc
component_eq→eq parent_dir cur_dir h = cc
component_eq→eq cur_dir (normal a x) h = cc
component_eq→eq cur_dir parent_dir h = cc

components_eq→eq : (a b : List Component) → components_eq a b ≡ true → a ≡ b
components_eq→eq [] [] h = refl
components_eq→eq (a ∷ as') (b ∷ bs) h =
    let e = component_eq→eq a b (ground arith) in
    let f = components_eq→eq as' bs (ground arith) in cc
components_eq→eq [] (b ∷ bs) h = cc
components_eq→eq (a ∷ as') [] h = cc

-- The comparison of paths is equality.
pub path_eq→eq : (p q : FilePath) → path_eq p q ≡ true → p ≡ q
unfolding path_eq
path_eq→eq p q h =
    let e : p.absolute ≡ q.absolute = ground arith in
    let f = components_eq→eq p.components q.components (ground arith) in ground arith

component_eq_refl : (c : Component) → component_eq c c ≡ true
component_eq_refl (normal a none) = let e = (eq_iff a a).1 refl in ground arith
component_eq_refl (normal a (some x)) =
    let e = (eq_iff a a).1 refl in let f = (eq_iff x x).1 refl in ground arith
component_eq_refl parent_dir = refl
component_eq_refl cur_dir = refl

components_eq_refl : (cs : List Component) → components_eq cs cs ≡ true
components_eq_refl [] = refl
components_eq_refl (c ∷ cs) = rw (component_eq_refl c, components_eq_refl cs) refl

pub path_eq_refl : (p : FilePath) → path_eq p p ≡ true
unfolding path_eq
path_eq_refl p = let e = components_eq_refl p.components in ground arith

pub canonical_directory-is_dir :
    (fs : FileSystem) (path : FilePath) (description : String) (q : FilePath)
    → canonical_directory fs path description ≡ ok q
    → fs.is_dir q ≡ true
unfolding canonical_directory
canonical_directory-is_dir fs path description q h =
    let (found, e₁, h₁) = >>=-eq-ok (ok_or (fs.canonicalize path) _) _ h in
    let (_, e₂, h₂) = >>=-eq-ok (ensure (fs.is_dir found) _) _ h₁ in
    ap fs.is_dir (sym (ok-injective h₂)) ∙ ensure-eq-ok (fs.is_dir found) _ e₂

-- The part of the state that orders the packages is the same.
pub record SameOrder (st st' : Resolver) : Type 0 where
  pub visiting : st'.visiting ≡ st.visiting
  pub visited : st'.visited ≡ st.visited
  pub package_roots : st'.package_roots ≡ st.package_roots

pub SameOrder-refl : (st : Resolver) → SameOrder st st
SameOrder-refl st = record { visiting = refl; visited = refl; package_roots = refl }

pub SameOrder-trans : {a b c : Resolver} → SameOrder a b → SameOrder b c → SameOrder a c
SameOrder-trans x y = record {
  visiting = y.visiting ∙ x.visiting;
  visited = y.visited ∙ x.visited;
  package_roots = y.package_roots ∙ x.package_roots;
}

add_source-SameOrder :
    (fs : FileSystem) (root relative : FilePath) (st : Resolver) {st' : Resolver}
    → add_source fs root relative st ≡ ok st'
    → SameOrder st st'
unfolding add_source
add_source-SameOrder fs root relative st h =
    let (checked, e₁, h₁) = >>=-eq-ok (validate_source_path relative) _ h in
    let (source, e₂, h₂) = >>=-eq-ok (ok_or (fs.canonicalize (join root relative)) _) _ h₁ in
    let (_, e₃, h₃) = >>=-eq-ok (ensure (fs.is_file source) _) _ h₂ in
    elim (Bool-cases (has_path source st.source_paths)) [
      | inl e ↦ rw (← ok-injective (rw e at h₃)) (SameOrder-refl st)
      | inr e ↦
          rw (← ok-injective (rw e at h₃))
            (record { visiting = refl; visited = refl; package_roots = refl })
    ]

pub add_sources-SameOrder :
    (fs : FileSystem) (root : FilePath) (sources : List FilePath) (st : Resolver) {st' : Resolver}
    → add_sources fs root sources st ≡ ok st'
    → SameOrder st st'
unfolding add_sources
add_sources-SameOrder fs root [] st h = rw (← ok-injective h) (SameOrder-refl st)
add_sources-SameOrder fs root (source ∷ rest) st h =
    let (next, e, h₁) = >>=-eq-ok (add_source fs root source st) _ h in
    SameOrder-trans (add_source-SameOrder fs root source st e)
      (add_sources-SameOrder fs root rest next h₁)

pub add_native_dependencies-SameOrder :
    (fs : FileSystem) (root : FilePath) (entries : List (String × FilePath)) (st : Resolver)
    {st' : Resolver}
    → add_native_dependencies fs root entries st ≡ ok st'
    → SameOrder st st'
unfolding add_native_dependencies
add_native_dependencies-SameOrder fs root [] st h = rw (← ok-injective h) (SameOrder-refl st)
add_native_dependencies-SameOrder fs root ((name, dependency) ∷ rest) st h =
    let (_, _, h₁) = >>=-eq-ok (validate_name name _) _ h in
    let (path, _, h₂) = >>=-eq-ok (canonical_directory fs (join root dependency) _) _ h₁ in
    let (_, _, h₃) = >>=-eq-ok (ensure (fs.is_file _) _) _ h₂ in
    let (_, _, h₄) = >>=-eq-ok (ensure (agrees name path st.native_dependencies) _) _ h₃ in
    let next = record st { native_dependencies = (name, path) ∷ st.native_dependencies } in
    SameOrder-trans (record { visiting = refl; visited = refl; package_roots = refl })
      (add_native_dependencies-SameOrder fs root rest next h₄)

-- What opening a package did, when it did not fail.
pub record Opened (fs : FileSystem) (root : FilePath) (st : Resolver) (manifest : PackageManifest)
    (st' : Resolver) : Type 0 where
  pub absent : has_path root st.visiting ≡ false
  pub loaded : load_manifest fs root ≡ ok manifest
  pub visiting : st'.visiting ≡ root ∷ st.visiting
  pub visited : st'.visited ≡ st.visited
  pub package_roots : st'.package_roots ≡ st.package_roots

pub open_package-Opened :
    (fs : FileSystem) (root : FilePath) (expected : Option String) (st : Resolver)
    {manifest : PackageManifest} {st' : Resolver}
    → open_package fs root expected st ≡ ok (manifest, st')
    → Opened fs root st manifest st'
unfolding open_package
open_package-Opened fs root expected st h =
    let (_, e₁, h₁) = >>=-eq-ok (ensure (not (has_path root st.visiting)) _) _ h in
    let (manifest, e₂, h₂) = >>=-eq-ok (load_manifest fs root) _ h₁ in
    let (_, _, h₃) = >>=-eq-ok (ensure (manifest.schema == 1) _) _ h₂ in
    let (_, _, h₄) = >>=-eq-ok (validate_name manifest.name _) _ h₃ in
    let (_, _, h₅) = >>=-eq-ok (check_expected expected manifest.name root) _ h₄ in
    let (_, _, h₆) = >>=-eq-ok (ensure (agrees manifest.name root st.package_names) _) _ h₅ in
    let done = ok-injective h₆ in
    let absent = ensure-eq-ok _ _ e₁ in
    let st_e = ap (λ x. x.1) done in
    let m_e = ap (λ x. x.0) done in
    rw (← m_e, ← st_e)
      (record {
        absent = ground arith;
        loaded = e₂;
        visiting = refl;
        visited = refl;
        package_roots = refl;
      })
