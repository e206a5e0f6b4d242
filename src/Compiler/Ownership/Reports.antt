-- ===== src/Compiler/Ownership/Reports.antt =====
-- The checks of the analyzer are silent exactly on what is allowed: a use, a move or a borrow
-- that is not is reported at its place, and changes no binding.
use stainless.Base.{
  ℕ, ◌==◌, if◌then◌else◌, ◌≡◌, inl, inr, refl, ap, sym, ◌∙◌, arith, String, Bool, true, false, not,
  ◌&&◌, ◌||◌, some, List, [], ◌∷◌, ◌++◌, get_elem?, modify, Bool-cases, any,
}
use stainless.Compiler.Diagnostic.{Span, Diagnostic, ownership_error}
use stainless.Compiler.Ownership.State.{Availability, available, moved, maybe_moved, Binding}
use stainless.Compiler.Ownership.Analyzer.{
  Usage, mutate, Message, use_of_moved, may_have_been_moved, conflicting_borrow, Analyzer, push,
  was_emitted, set_bindings, conflicts, action, check_borrow_conflict, check_usage, is_available,
  mark_moved, span_eq,
}
use stainless.Compiler.Ownership.Checks.{push-state}
use mathlib.Core.Option.{some-injective}
use text.Mathlib.Text.{◌==◌ as str_eq}
use text.Mathlib.TextPositions.{eq_refl}

-- A diagnostic with this code stands at this place.
abbrev pub is_reported : String → Span → Analyzer → Bool
is_reported code span a = any (λ d. str_eq d.code code && span_eq d.span span) a.diagnostics

-- What counts as emitted is what was reported.
abbrev pub IsConsistent : Analyzer → Type 0
IsConsistent a =
    (code : String) (span : Span) → was_emitted code span a.emitted ≡ is_reported code span a

any-append {ℓ} :
    {A : Type ℓ} (p : A → Bool) (xs ys : List A) → any p (xs ++ ys) ≡ (any p xs || any p ys)
any-append p [] ys = refl
any-append p (x ∷ xs) ys = rw (any-append p xs ys) (ground arith)

or_comm : (a b : Bool) → (a || b) ≡ (b || (a || false))
or_comm true true = refl
or_comm true false = refl
or_comm false true = refl
or_comm false false = refl

pub push-IsConsistent :
    (code : String) (message : Message) (span : Span) (a : Analyzer)
    → IsConsistent a
    → IsConsistent (push code message span a)
unfolding push
push-IsConsistent code message span a v c s = elim (Bool-cases (was_emitted code span a.emitted)) [
  | inl e ↦ rw e (v c s)
  | inr e ↦
      let d = ownership_error code message span in
      rw
        (
          e,
          any-append (λ (x : Diagnostic Message). str_eq x.code c && span_eq x.span s) a.diagnostics
              (d ∷ []),
          ← v c s,
        )
        (or_comm (str_eq code c && span_eq span s) (was_emitted c s a.emitted))
]

span_eq_refl : (s : Span) → span_eq s s ≡ true
span_eq_refl s = ground arith

-- What is pushed stands among the diagnostics, unless it stood there before.
pub push_reports :
    (code : String) (message : Message) (span : Span) (a : Analyzer)
    → IsConsistent a
    → is_reported code span (push code message span a) ≡ true
push_reports code message span a v =
    sym (push-IsConsistent code message span a v code span) ∙ emitted_now
  where
    emitted_now : was_emitted code span ((push code message span a).emitted) ≡ true
    emitted_now =
        unfold push in
        elim (Bool-cases (was_emitted code span a.emitted)) [
          | inl e ↦ rw e e
          | inr e ↦ rw (e, eq_refl code, span_eq_refl span)
        ]

-- How a check ends: silently, or with a report that leaves the flow state as it was.
abbrev pub Verdict : Bool → String → Span → Analyzer → Analyzer → Type 0
Verdict true code span a a' = a' ≡ a
Verdict false code span a a' = (is_reported code span a' ≡ true) × (a'.state ≡ a.state)

-- The code under which a use of the binding is refused.
abbrev pub code_of : Availability → String
code_of available = "OWN003"
code_of (moved _) = "OWN001"
code_of (maybe_moved _) = "OWN002"

abbrev pub usage_code : Binding → String
usage_code b = code_of b.availability

check_borrow_conflict-Verdict :
    (id : ℕ) (usage : Usage) (span : Span) (a a' : Analyzer) (free : Bool) (b : Binding)
    → IsConsistent a
    → get_elem? a.state.bindings id ≡ some b
    → check_borrow_conflict id usage span a ≡ some (a', free)
    → (free ≡ not (conflicts usage b))
      × Verdict (not (conflicts usage b)) "OWN003" span a a'
      × IsConsistent a'
unfolding check_borrow_conflict
check_borrow_conflict-Verdict id usage span a a' free b v at h =
    elim (Bool-cases (conflicts usage b)) [
      | inl e ↦
          let r = some-injective _ _ (rw (at, e) at h) in
          let out : push "OWN003" (conflicting_borrow (action usage) b.name) span a ≡ a' =
            ap (λ (p : Analyzer × Bool). p.0) r in
          rw e (
            sym (ap (λ (p : Analyzer × Bool). p.1) r),
            (
              rw (← out) (push_reports "OWN003" _ span a v),
              rw (← out) (push-state "OWN003" _ span a),
            ),
            rw (← out) (push-IsConsistent "OWN003" _ span a v),
          )
      | inr e ↦
          let r = some-injective _ _ (rw (at, e) at h) in
          let out : a ≡ a' = ap (λ (p : Analyzer × Bool). p.0) r in
          rw e (sym (ap (λ (p : Analyzer × Bool). p.1) r), sym out, rw (← out) v)
    ]

check_borrow_conflict_total :
    (id : ℕ) (usage : Usage) (span : Span) (a : Analyzer) (b : Binding)
    → get_elem? a.state.bindings id ≡ some b
    → (a' : Analyzer) × (free : Bool) × (check_borrow_conflict id usage span a ≡ some (a', free))
unfolding check_borrow_conflict
check_borrow_conflict_total id usage span a b at = elim (Bool-cases (conflicts usage b)) [
  | inl e ↦ (push "OWN003" (conflicting_borrow (action usage) b.name) span a, false, rw (at, e))
  | inr e ↦ (a, true, rw (at, e))
]

-- The binding is available, and no active borrow conflicts with the use.
abbrev pub is_allowed : Usage → Binding → Bool
is_allowed usage b = is_available b.availability && not (conflicts usage b)

-- A check of a use returns for every binding. It is silent exactly if the binding is available and
-- free of conflicting borrows; otherwise a diagnostic with the code of the reason stands at the
-- place of the use, and the flow state is unchanged.
pub check_usage-Verdict :
    (id : ℕ) (usage : Usage) (span : Span) (a : Analyzer) (b : Binding)
    → IsConsistent a
    → get_elem? a.state.bindings id ≡ some b
    → (a' : Analyzer) × (check_usage id usage span a ≡ some a')
      × Verdict (is_allowed usage b) (usage_code b) span a a'
      × IsConsistent a'
unfolding check_usage
check_usage-Verdict id usage span a b v at = on_availability b.availability refl
  where
    on_availability :
        (s : Availability)
        → b.availability ≡ s
        → (a' : Analyzer) × (check_usage id usage span a ≡ some a')
          × Verdict (is_allowed usage b) (usage_code b) span a a'
          × IsConsistent a'
    on_availability available e =
        let (a', free, ec) = check_borrow_conflict_total id usage span a b at in
        let (_, verdict, consistent) =
          check_borrow_conflict-Verdict id usage span a a' free b v at ec in
        let allowed : is_allowed usage b ≡ not (conflicts usage b) =
          ap (λ s. is_available s && not (conflicts usage b)) e in
        let code : usage_code b ≡ "OWN003" = ap code_of e in
        (a', rw (at, e, ec), rw (allowed, code) verdict, consistent)
    on_availability (moved s) e =
        let m = use_of_moved b.name s.start in
        (
          push "OWN001" m span a,
          rw (at, e),
          rw e (push_reports "OWN001" m span a v, push-state "OWN001" m span a),
          push-IsConsistent "OWN001" m span a v,
        )
    on_availability (maybe_moved s) e =
        let m = may_have_been_moved b.name s.start in
        (
          push "OWN002" m span a,
          rw (at, e),
          rw e (push_reports "OWN002" m span a v, push-state "OWN002" m span a),
          push-IsConsistent "OWN002" m span a v,
        )

abbrev is_free : Binding → Bool
is_free b = is_available b.availability && not b.mutably_borrowed && b.shared_borrows == 0

is_free-eq-is_allowed : (b : Binding) → is_free b ≡ is_allowed mutate b
is_free-eq-is_allowed b = ground arith

-- A move returns for every binding. Where the binding is available and nobody borrows it, the move
-- is silent and the binding is moved at this place from then on; otherwise a diagnostic stands at
-- the place, and no binding changes.
pub mark_moved_verdict :
    (id : ℕ) (span : Span) (a : Analyzer) (b : Binding)
    → IsConsistent a
    → get_elem? a.state.bindings id ≡ some b
    → (a' : Analyzer) × (mark_moved id span a ≡ some a')
      × (if is_allowed mutate b
          then (a'.diagnostics ≡ a.diagnostics)
            × (a'.state.bindings
                ≡ modify a.state.bindings id (λ c. record c { availability = moved span }))
          else (is_reported (usage_code b) span a' ≡ true) × (a'.state ≡ a.state))
unfolding mark_moved
mark_moved_verdict id span a b v at =
    let (a', ec, verdict, consistent) = check_usage-Verdict id mutate span a b v at in
    elim (Bool-cases (is_allowed mutate b)) [
      | inl e ↦
          let same : a' ≡ a = rw e at verdict in
          (
            set_bindings (modify a.state.bindings id (λ c. record c { availability = moved span }))
                a,
            rw (ec, same, at, is_free-eq-is_allowed b, e),
            rw e (refl, refl),
          )
      | inr e ↦
          let (reported, same) = rw e at verdict in
          (a', rw (ec, same, at, is_free-eq-is_allowed b, e), rw e (reported, same))
    ]
