-- ===== src/Compiler/Semantics/Parts.antt =====
-- The checks of one statement that do not descend: what they report is of a broken rule.
use stainless.Base.{ℕ, ◌≡◌, refl, sym, ◌∙◌, ◌⊎◌, inl, inr, Bool, true, false, not, ◌||◌, ==_iff}
use stainless.Compiler.Diagnostic.{Span, Diagnostic, semantic_error}
use stainless.Compiler.Syntax.Types.{is_const, is_reference_type}
use stainless.Compiler.Syntax.Statements.{
  OptionalExpression, absent, present, Block, braced, Statements, Statement, statement, return,
  throw, try_statement, for_statement, CatchClauses, CatchClause, catch_all, catch,
  LocalDeclaration, local_declaration, ForClause, range, classic, malformed_clause, no_initializer,
  local_initializer, expression_initializer,
}
use stainless.Compiler.Semantics.{
  Message, catch_not_const_reference, catch_all_not_final, Validator, check_local, check_return,
  check_throw, check_for_clause, is_present,
}
use stainless.Compiler.Semantics.Rules.{
  Place, in_catch, IsAmong, body_of, IsHandler, here, in_handler, Misdeclares, uninitialized,
  auto_reference, unbound_reference, Breaks, misdeclares_in_for, returns_value, returns_nothing,
  stray_throw, mutable_binding, catch_all_early, Violates,
}
use stainless.Compiler.Semantics.Extends.{push_if-cases}
use mathlib.Core.List.Memᴰ.{append_cases, Memᴰ, head, tail}

abbrev pub AmongViolates : Place → Statements → Diagnostic Message → Type 0
AmongViolates p ss d = (s : Statement) × IsAmong s ss × Violates p s d

abbrev pub BlockViolates : Place → Block → Diagnostic Message → Type 0
BlockViolates p (braced ss a) d = AmongViolates p ss d

-- What is wrong with a handler, its body aside.
abbrev pub CatchBreaks : CatchClause → (last : Bool) → Diagnostic Message → Type 0
CatchBreaks (catch b _ _) last d =
    (not (is_const b.ty) || not (is_reference_type b.ty) ≡ true)
    × (d ≡ semantic_error "SEM012" catch_not_const_reference b.span)
CatchBreaks (catch_all _ a) last d =
    (last ≡ false) × (d ≡ semantic_error "SEM013" catch_all_not_final a)

abbrev pub HandlerViolates : Place → CatchClause → (last : Bool) → Diagnostic Message → Type 0
HandlerViolates p c last d = CatchBreaks c last d ⊎ BlockViolates (in_catch p) (body_of c) d

abbrev pub HandlersViolate : Place → CatchClauses → Diagnostic Message → Type 0
HandlersViolate p cs d =
    (c : CatchClause) × (last : Bool) × IsHandler c last cs × HandlerViolates p c last d

pub local_sound :
    (l : LocalDeclaration) (v : Validator) (d : Diagnostic Message)
    → Memᴰ d (check_local l v).diagnostics
    → Memᴰ d v.diagnostics ⊎ Misdeclares l d
unfolding check_local
local_sound (local_declaration ty name value span) v d m = elim (push_if-cases _ _ _ _ _ d m) [
  | inr (h, e) ↦ inr (rw e (unbound_reference h))
  | inl m₁ ↦ elim (push_if-cases _ _ _ _ _ d m₁) [
    | inr (h, e) ↦ inr (rw e (auto_reference h))
    | inl m₂ ↦ elim (push_if-cases _ _ _ _ v d m₂) [
      | inr (h, e) ↦ inr (rw e (uninitialized h))
      | inl old ↦ inl old
    ]
  ]
]

pub itself : {p : Place} {s : Statement} {d : Diagnostic Message} → Breaks p s d → Violates p s d
itself {p} {s} b = (p, s, here, b)

pub return_sound :
    (p : Place) (e : OptionalExpression) (span : Span) (v : Validator) (d : Diagnostic Message)
    → Memᴰ d (check_return p.returns_void (is_present e) span v).diagnostics
    → Memᴰ d v.diagnostics ⊎ Violates p (statement (return e) span) d
unfolding check_return
return_sound p e span v d m = by_kind p.returns_void (is_present e) refl refl m
  where
    by_kind :
        (void value : Bool)
        → p.returns_void ≡ void
        → is_present e ≡ value
        → Memᴰ d (check_return void value span v).diagnostics
        → Memᴰ d v.diagnostics ⊎ Violates p (statement (return e) span) d
    by_kind true false h k m = inl m
    by_kind false true h k m = inl m
    by_kind true true h k m = elim (append_cases v.diagnostics m) [
      | inl old ↦ inl old
      | inr (head e') ↦ inr (rw e' (itself (returns_value h k)))
      | inr (tail none) ↦ elim none [ ]
    ]
    by_kind false false h k m = elim (append_cases v.diagnostics m) [
      | inl old ↦ inl old
      | inr (head e') ↦ inr (rw e' (itself (returns_nothing h k)))
      | inr (tail none) ↦ elim none [ ]
    ]

pub handler-Violates :
    (p : Place) (body : Block) (cs : CatchClauses) (a : Span) (d : Diagnostic Message)
    → HandlersViolate p cs d
    → Violates p (statement (try_statement body cs) a) d
handler-Violates p body cs a d (catch b handled c, last, at, inl (h, e)) =
    rw e (itself (mutable_binding at h))
handler-Violates p body cs a d (catch_all handled c, last, at, inl (h, e)) =
    rw e (itself (catch_all_early (rw h at at)))
handler-Violates p body cs a d
      (catch b (braced ss _) c, last, at, inr (s, among, (q, t, stands, broken))) =
    (q, t, in_handler at refl among stands, broken)
handler-Violates p body cs a d
      (catch_all (braced ss _) c, last, at, inr (s, among, (q, t, stands, broken))) =
    (q, t, in_handler at refl among stands, broken)

abbrev pub place : ℕ → ℕ → Bool → Place
place loops catches void = record { loop_depth = loops; catch_depth = catches; returns_void = void }

pub throw_sound :
    (p : Place) (e : OptionalExpression) (span : Span) (v : Validator) (d : Diagnostic Message)
    → v.catch_depth ≡ p.catch_depth
    → Memᴰ d (check_throw e span v).diagnostics
    → Memᴰ d v.diagnostics ⊎ Violates p (statement (throw e) span) d
unfolding check_throw
throw_sound p absent span v d same m = elim (push_if-cases _ _ _ _ v d m) [
  | inr (h, e') ↦ inr (rw e' (itself (stray_throw (sym same ∙ (==_iff v.catch_depth 0).0 h))))
  | inl old ↦ inl old
]
throw_sound p (present e) span v d same m = inl m

pub for_clause_sound :
    (p : Place) (f : ForClause) (s : Statement) (span : Span) (v : Validator)
    (d : Diagnostic Message)
    → Memᴰ d (check_for_clause f v).diagnostics
    → Memᴰ d v.diagnostics ⊎ Violates p (statement (for_statement f s) span) d
unfolding check_for_clause
for_clause_sound p (classic (local_initializer l) _ _) s span v d m = elim (local_sound l v d m) [
  | inr wrong ↦ inr (itself (misdeclares_in_for wrong))
  | inl old ↦ inl old
]
for_clause_sound p (classic no_initializer _ _) s span v d m = inl m
for_clause_sound p (classic (expression_initializer _) _ _) s span v d m = inl m
for_clause_sound p (range _ _ _) s span v d m = inl m
for_clause_sound p malformed_clause s span v d m = inl m
