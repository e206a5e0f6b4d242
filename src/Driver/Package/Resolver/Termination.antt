-- ===== src/Driver/Package/Resolver/Termination.antt =====
-- The recursion of the resolver ends: every package on the way down is a new directory.
use stainless.Base.{
  ℕ, zero, suc, ◌≤◌, ◌<◌, if◌then◌else◌, ◌≡◌, refl, String, Bool, true, false, Option, none, some,
  List, [], ◌∷◌, Bool-cases, inl, inr, arith, count, length,
}
use stainless.Driver.Package.Paths.{
  FilePath, path_eq, join, FileSystem, canonical_directory, validate_name,
}
use stainless.Driver.Package.Resolver.{
  Resolver, fresh, has_path, open_package, Visit, visit_dependencies, visit_new, check_resolved,
  visit, resolve,
}
use stainless.Driver.Package.Resolver.Frames.{path_eq→eq, path_eq_refl, open_package-Opened}
use stainless.Driver.Package.Resolver.Order.{Ordered, Opened-Ordered, Lists, visit-Lists}
use stainless.Base.Results.{ok, ◌>>◌}
use stainless.Driver.Package.Resolver.Settles.{
  bind-Settles, ok-Settles, if-Settles, canonical_directory-Settles, validate_name-Settles,
  open_package-Settles, add_native_dependencies-Settles, add_sources-Settles, is_exhausted, Settles,
  check_resolved-Settles,
}

-- How many of the directories are not on the way down.
abbrev left : List FilePath → List FilePath → ℕ
left dirs visiting = count (λ d. if has_path d visiting then 0 else 1) dirs

left-le :
    (dirs : List FilePath) (root : FilePath) (visiting : List FilePath)
    → left dirs (root ∷ visiting) ≤ left dirs visiting
left-le [] root visiting = omega arith
left-le (d ∷ dirs) root visiting = let rest = left-le dirs root visiting in ground arith

left-lt :
    (dirs : List FilePath) (root : FilePath) (visiting : List FilePath)
    → has_path root dirs ≡ true
    → has_path root visiting ≡ false
    → left dirs (root ∷ visiting) < left dirs visiting
left-lt [] root visiting h k = cc
left-lt (d ∷ dirs) root visiting h k = elim (Bool-cases (path_eq d root)) [
  | inl e ↦
      let same = path_eq→eq d root e in
      let rest = left-le dirs root visiting in
      let self = path_eq_refl root in rw same (rw (k, self) (omega (arith, rest)))
  | inr e ↦ let rest = left-lt dirs root visiting (ground arith) k in ground arith
]

left-length : (dirs : List FilePath) → left dirs [] ≤ length dirs
left-length [] = omega arith
left-length (d ∷ dirs) = omega (arith, left-length dirs)

-- Every directory that the file system resolves a path to is in the list.
abbrev pub Within : FileSystem → List FilePath → Type 0
Within fs dirs =
    (path : FilePath) (description : String) (q : FilePath)
    → canonical_directory fs path description ≡ ok q
    → has_path q dirs ≡ true

abbrev Visits : FileSystem → List FilePath → ℕ → Visit → Type 0
Visits fs dirs fuel visit =
    (root : FilePath) (expected : Option String) (include_main : Bool) (st : Resolver)
    → has_path root dirs ≡ true
    → left dirs st.visiting < fuel
    → Ordered fs st
    → Settles (visit root expected include_main st)

visit_dependencies-Settles :
    (fs : FileSystem) (dirs : List FilePath) (fuel : ℕ) (inner : Visit)
    → Within fs dirs
    → Lists fs inner
    → Visits fs dirs fuel inner
    → (root : FilePath) (entries : List (String × FilePath)) (st : Resolver)
    → left dirs st.visiting < fuel
    → Ordered fs st
    → Settles (visit_dependencies inner fs root entries st)
unfolding visit_dependencies
visit_dependencies-Settles fs dirs fuel inner w lists visits root [] st h v = ok-Settles st
visit_dependencies-Settles fs dirs fuel inner w lists visits root ((name, dependency) ∷ rest) st h
      v =
    bind-Settles (validate_name name _) _ (validate_name-Settles name _) (λ _ _.
      bind-Settles (canonical_directory fs (join root dependency) _) _
        (canonical_directory-Settles fs (join root dependency) _)
        (λ q at.
          bind-Settles (inner q (some name) false st) _
            (visits q (some name) false st (w _ _ q at) h v)
            (λ next e.
              let (o, g, _) = lists q (some name) false st next e v in
              visit_dependencies-Settles fs dirs fuel inner w lists visits root rest next
                (rw g.visiting h) o)))

visit_new-Settles :
    (fs : FileSystem) (dirs : List FilePath) (fuel : ℕ) (inner : Visit)
    → Within fs dirs
    → Lists fs inner
    → Visits fs dirs fuel inner
    → Visits fs dirs (suc fuel) (visit_new inner fs)
unfolding visit_new
visit_new-Settles fs dirs fuel inner w lists visits root expected include_main st at h v =
    bind-Settles (open_package fs root expected st) _ (open_package-Settles fs root expected st)
      (λ (manifest, opened) e.
        let o = open_package-Opened fs root expected st e in
        let less : left dirs opened.visiting < fuel =
          rw o.visiting (omega (arith, left-lt dirs root st.visiting at o.absent)) in
        bind-Settles (visit_dependencies inner fs root manifest.dependencies opened) _
          (visit_dependencies-Settles fs dirs fuel inner w lists visits root manifest.dependencies
            opened less (Opened-Ordered o v))
          (λ deps _.
            search (bind-Settles, ok-Settles, add_native_dependencies-Settles, add_sources-Settles)
              depth 16))

visit-Settles :
    (fs : FileSystem) (dirs : List FilePath)
    → Within fs dirs
    → (fuel : ℕ) → Visits fs dirs fuel (visit fuel fs)
unfolding visit
visit-Settles fs dirs w zero root expected include_main st at h v = absurd (omega arith)
visit-Settles fs dirs w (suc fuel) root expected include_main st at h v =
    if-Settles (has_path root st.visited) (check_resolved expected root st >> ok st) _
      (search (bind-Settles, ok-Settles, check_resolved-Settles))
      (visit_new-Settles fs dirs fuel (visit fuel fs) w (visit-Lists fuel fs)
        (visit-Settles fs dirs w fuel) root expected include_main st at h v)

-- Fuel above the number of the directories is enough: resolving ends with a package or with an
-- error of the program.
pub resolve-Settles :
    (fs : FileSystem) (dirs : List FilePath) (fuel : ℕ) (path : FilePath)
    → Within fs dirs
    → length dirs < fuel
    → is_exhausted (resolve fuel fs path) ≡ false
unfolding resolve
resolve-Settles fs dirs fuel path w h =
    (bind-Settles (canonical_directory fs path "package root") _
      (canonical_directory-Settles fs path _)
      (λ root at.
        visit-Settles fs dirs w fuel root none true fresh (w _ _ root at)
          (omega (arith, left-length dirs, h)) (record { ordered = tt; listed = refl }))).settled
