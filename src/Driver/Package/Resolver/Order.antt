-- ===== src/Driver/Package/Resolver/Order.antt =====
-- The order in which the resolver lists the packages.
use stainless.Base.{
  ℕ, zero, suc, ◌≡◌, refl, sym, ap, ◌∙◌, String, Bool, true, false, Option, none, some, List, [],
  ◌∷◌, ◌++◌, Bool-cases, All, inl, inr, arith,
}
use stainless.Driver.Package.Paths.{
  FilePath, path_eq, join, PackageManifest, FileSystem, canonical_directory, validate_name,
}
use stainless.Driver.Package.Resolver.{
  Resolver, fresh, has_path, remove_path, load_manifest, open_package, Visit, visit_dependencies,
  add_native_dependencies, add_sources, main_of, close_package, visit_new, check_resolved, visit,
  resolve,
}
use stainless.Driver.Package.Resolver.Frames.{
  path_eq→eq, path_eq_refl, SameOrder, SameOrder-trans, add_sources-SameOrder,
  add_native_dependencies-SameOrder, Opened, open_package-Opened,
}
use mathlib.Core.Path.{subst}
use mathlib.Core.List.{reverse, reverse-cons, reverse-reverse}
use stainless.Base.Results.{ok, >>=-eq-ok, ok-injective}

-- The dependency of a package at this root is among the roots seen.
abbrev pub IsSeen : FileSystem → FilePath → List FilePath → String × FilePath → Type 0
IsSeen fs root seen (name, dependency) =
    (q : FilePath) × (canonical_directory fs (join root dependency) "dependency root" ≡ ok q)
    × (has_path q seen ≡ true)

-- The package has a manifest, and all its dependencies are among the roots seen.
abbrev pub HasDependencies : FileSystem → FilePath → List FilePath → Type 0
HasDependencies fs root seen =
    (manifest : PackageManifest) × (load_manifest fs root ≡ ok manifest)
    × All (IsSeen fs root seen) manifest.dependencies

-- The newest first: no root is listed again, and each has its dependencies among the older ones.
abbrev pub IsOrdered : FileSystem → List FilePath → Type 0
IsOrdered fs [] = Unit {0}
IsOrdered fs (root ∷ seen) =
    (has_path root seen ≡ false) × HasDependencies fs root seen × IsOrdered fs seen

pub record Ordered (fs : FileSystem) (st : Resolver) : Type 0 where
  pub ordered : IsOrdered fs st.visited
  pub listed : st.package_roots ≡ reverse st.visited

-- What a visit that succeeds does to the state.
pub record Grown (st st' : Resolver) : Type 0 where
  pub visiting : st'.visiting ≡ st.visiting
  pub grows : (p : FilePath) → has_path p st.visited ≡ true → has_path p st'.visited ≡ true
  pub kept :
      (p : FilePath)
      → has_path p st.visiting ≡ true
      → has_path p st'.visited ≡ has_path p st.visited

pub Grown-refl : (st : Resolver) → Grown st st
Grown-refl st = record { visiting = refl; grows = λ p h. h; kept = λ p h. refl }

Grown-trans : {a b c : Resolver} → Grown a b → Grown b c → Grown a c
Grown-trans x y = record {
  visiting = y.visiting ∙ x.visiting;
  grows = λ p h. y.grows p (x.grows p h);
  kept = λ p h. y.kept p (ap (has_path p) x.visiting ∙ h) ∙ x.kept p h;
}

remove_path-absent :
    (p : FilePath) (ps : List FilePath) → has_path p ps ≡ false → remove_path p ps ≡ ps
remove_path-absent p [] h = refl
remove_path-absent p (q ∷ ps) h =
    let e : path_eq q p ≡ false = ground arith in
    let rest : has_path p ps ≡ false = ground arith in
    rw e (ap (λ l. q ∷ l) (remove_path-absent p ps rest))

-- A visit: of a root that was not visited, it lists the root, whatever lists its dependencies does.
abbrev pub Lists : FileSystem → Visit → Type 0
Lists fs visit =
    (root : FilePath) (expected : Option String) (include_main : Bool) (st st' : Resolver)
    → visit root expected include_main st ≡ ok st'
    → Ordered fs st
    → Ordered fs st' × Grown st st' × (has_path root st'.visited ≡ true)

pub visit_dependencies-Lists :
    (fs : FileSystem) (visit : Visit)
    → Lists fs visit
    → (root : FilePath) (entries : List (String × FilePath)) (st st' : Resolver)
    → visit_dependencies visit fs root entries st ≡ ok st'
    → Ordered fs st
    → Ordered fs st' × Grown st st' × All (IsSeen fs root st'.visited) entries
unfolding visit_dependencies
visit_dependencies-Lists fs visit lists root [] st st' h o =
    rw (← ok-injective h) (o, Grown-refl st, tt)
visit_dependencies-Lists fs visit lists root ((name, dependency) ∷ rest) st st' h o =
    let (_, _, h₁) = >>=-eq-ok (validate_name name _) _ h in
    let (q, at, h₂) = >>=-eq-ok (canonical_directory fs (join root dependency) _) _ h₁ in
    let (next, e, h₃) = >>=-eq-ok (visit q (some name) false st) _ h₂ in
    let (o₁, g₁, here) = lists q (some name) false st next e o in
    let (o₂, g₂, all) = visit_dependencies-Lists fs visit lists root rest next st' h₃ o₁ in
    (o₂, Grown-trans g₁ g₂, ((q, at, g₂.grows q here), all))

SameOrder-Ordered : {fs : FileSystem} {a b : Resolver} → SameOrder a b → Ordered fs a → Ordered fs b
SameOrder-Ordered {fs} s o = record {
  ordered = subst (IsOrdered fs) (sym s.visited) o.ordered;
  listed = s.package_roots ∙ o.listed ∙ ap reverse (sym s.visited);
}

pub Opened-Ordered :
    {fs : FileSystem} {root : FilePath} {manifest : PackageManifest} {st opened : Resolver}
    → Opened fs root st manifest opened
    → Ordered fs st
    → Ordered fs opened
Opened-Ordered {fs} o v = record {
  ordered = subst (IsOrdered fs) (sym o.visited) v.ordered;
  listed = o.package_roots ∙ v.listed ∙ ap reverse (sym o.visited);
}

SameOrder-Grown : {a b : Resolver} → SameOrder a b → Grown a b
SameOrder-Grown s = record {
  visiting = s.visiting;
  grows = λ p h. ap (has_path p) s.visited ∙ h;
  kept = λ p h. ap (has_path p) s.visited;
}

other_root :
    (p q : FilePath) (ps : List FilePath)
    → has_path p ps ≡ false
    → has_path q ps ≡ true
    → path_eq p q ≡ false
other_root p q ps h k = elim (Bool-cases (path_eq p q)) [
  | inl e ↦ let same = path_eq→eq p q e in let k' = rw (← same) at k in cc
  | inr e ↦ e
]

-- Opened, then grown, then closed.
close_package-Grown :
    (fs : FileSystem) (root : FilePath) (manifest : PackageManifest) (st opened grown : Resolver)
    → Opened fs root st manifest opened
    → Grown opened grown
    → Grown st (close_package root grown)
close_package-Grown fs root manifest st opened grown o g = record {
  visiting =
      rw (g.visiting, o.visiting, path_eq_refl root) (remove_path-absent root st.visiting o.absent);
  grows = λ p h. let old = g.grows p (ap (has_path p) o.visited ∙ h) in ground arith;
  kept = λ p h.
      let other = other_root root p st.visiting o.absent h in
      let is_open : has_path p opened.visiting ≡ true = ap (has_path p) o.visiting ∙ ground arith in
      rw other (g.kept p is_open ∙ ap (has_path p) o.visited);
}

close_package-Ordered :
    (fs : FileSystem) (root : FilePath) (manifest : PackageManifest) (st opened grown : Resolver)
    → Opened fs root st manifest opened
    → Grown opened grown
    → has_path root st.visited ≡ false
    → All (IsSeen fs root grown.visited) manifest.dependencies
    → Ordered fs grown
    → Ordered fs (close_package root grown)
close_package-Ordered fs root manifest st opened grown o g new seen v = record {
  ordered =
      let here : has_path root (root ∷ st.visiting) ≡ true = rw (path_eq_refl root) refl in
      let absent =
        g.kept root (ap (has_path root) o.visiting ∙ here) ∙ ap (has_path root) o.visited ∙ new in
      (absent, (manifest, o.loaded, seen), v.ordered);
  listed = ap (λ l. l ++ root ∷ []) v.listed ∙ sym (reverse-cons root grown.visited);
}

visit_new-Lists :
    (fs : FileSystem) (inner : Visit)
    → Lists fs inner
    → (root : FilePath) (expected : Option String) (include_main : Bool) (st st' : Resolver)
    → visit_new inner fs root expected include_main st ≡ ok st'
    → has_path root st.visited ≡ false
    → Ordered fs st
    → Ordered fs st' × Grown st st' × (has_path root st'.visited ≡ true)
unfolding visit_new
visit_new-Lists fs inner lists root expected include_main st st' h new v =
    let ((manifest, opened), e₁, h₁) = >>=-eq-ok (open_package fs root expected st) _ h in
    let (deps, e₂, h₂) =
      >>=-eq-ok (visit_dependencies inner fs root manifest.dependencies opened) _ h₁ in
    let (natives, e₃, h₃) =
      >>=-eq-ok (add_native_dependencies fs root manifest.native_dependencies deps) _ h₂ in
    let (sources, e₄, h₄) = >>=-eq-ok (add_sources fs root manifest.sources natives) _ h₃ in
    let (with_main, e₅, h₅) =
      >>=-eq-ok (add_sources fs root (main_of include_main manifest.main) sources) _ h₄ in
    let o = open_package-Opened fs root expected st e₁ in
    let start = Opened-Ordered o v in
    let (v₁, g₁, seen) =
      visit_dependencies-Lists fs inner lists root manifest.dependencies opened deps e₂ start in
    let same =
      SameOrder-trans
        (add_native_dependencies-SameOrder fs root manifest.native_dependencies deps e₃)
        (SameOrder-trans (add_sources-SameOrder fs root manifest.sources natives e₄)
          (add_sources-SameOrder fs root (main_of include_main manifest.main) sources e₅)) in
    let g = Grown-trans g₁ (SameOrder-Grown same) in
    let seen' = subst (λ l. All (IsSeen fs root l) manifest.dependencies) (sym same.visited) seen in
    rw (← ok-injective h₅) (
      close_package-Ordered fs root manifest st opened with_main o g new seen'
          (SameOrder-Ordered same v₁),
      close_package-Grown fs root manifest st opened with_main o g,
      rw (path_eq_refl root) refl,
    )

pub visit-Lists : (fuel : ℕ) (fs : FileSystem) → Lists fs (visit fuel fs)
unfolding visit
visit-Lists zero fs root expected include_main st st' h v = cc
visit-Lists (suc fuel) fs root expected include_main st st' h v =
    elim (Bool-cases (has_path root st.visited)) [
      | inl e ↦
          let (_, _, done) = >>=-eq-ok (check_resolved expected root st) (λ u. ok st) (rw e at h) in
          rw (← ok-injective done) (v, Grown-refl st, e)
      | inr e ↦
          visit_new-Lists fs (visit fuel fs) (visit-Lists fuel fs) root expected include_main st st'
            (rw e at h) e v
    ]

-- If a package resolves, then the root package is among the package roots, and in their order
-- no root comes twice and every package comes after all its dependencies.
pub resolve-IsOrdered :
    (fuel : ℕ) (fs : FileSystem) (path : FilePath) (st : Resolver)
    → resolve fuel fs path ≡ ok st
    → (root : FilePath) × (canonical_directory fs path "package root" ≡ ok root)
      × (has_path root (reverse st.package_roots) ≡ true)
      × IsOrdered fs (reverse st.package_roots)
unfolding resolve
resolve-IsOrdered fuel fs path st h =
    let (root, e, h₁) = >>=-eq-ok (canonical_directory fs path "package root") _ h in
    let start : Ordered fs fresh = record { ordered = tt; listed = refl } in
    let (v, _, here) = visit-Lists fuel fs root none true fresh st h₁ start in
    let back : reverse st.package_roots ≡ st.visited =
      ap reverse v.listed ∙ reverse-reverse st.visited in
    (root, e, ap (has_path root) back ∙ here, subst (IsOrdered fs) (sym back) v.ordered)
