-- ===== src/Compiler/Semantics/Complete.antt =====
-- Every rule that is broken in a statement is reported by the walk over it.
use stainless.Base.{
  ℕ, ◌+◌, ◌≡◌, refl, sym, ap, ◌∙◌, ◌↔◌, ◌⊎◌, inl, inr, Bool, false, not, ◌||◌, ==_iff,
}
use stainless.Compiler.Diagnostic.{Span, Diagnostic}
use stainless.Compiler.Syntax.Types.{is_const, is_reference_type}
use stainless.Compiler.Syntax.Statements.{
  braced, Statements, no_statement, and_statement, Statement, CatchClauses, no_catch, and_catch,
  CatchClause, catch_all, catch, LocalDeclaration, local_declaration,
}
use stainless.Compiler.Semantics.{
  Message, catch_not_const_reference, catch_all_not_final, Validator, push_if, check_local,
  check_return, check_throw, check_for_clause, is_last, enter_catch, check_block, check_statements,
  check_statement, check_catches, check_catch,
}
use stainless.Compiler.Semantics.Rules.{
  Place, in_loop, in_catch, IsAmong, first, later, body_of, IsHandler, first_handler, later_handler,
  Stands, here, in_block, in_body, in_handler, in_then, in_else, in_while, in_for, Misdeclares,
  uninitialized, auto_reference, unbound_reference, Breaks, misdeclares, misdeclares_in_for,
  returns_value, returns_nothing, stray_throw, stray_break, stray_continue, mutable_binding,
  catch_all_early, Violates,
}
use stainless.Compiler.Semantics.Extends.{
  push_if-Extends, push_if-reports, check_statements-Extends, check_catches-Extends,
  check_else-Extends, check_block-Extends, check_statement-Extends, check_for_clause-Extends,
  check_catch-Extends,
}
use stainless.Compiler.Semantics.Parts.{place}
use stainless.Compiler.Semantics.Sound.{statement_sound}
use mathlib.Core.Path.{subst}
use mathlib.Core.List.Memᴰ.{append_right, Memᴰ, head}

-- Run in so many handlers, the check reports the diagnostic, whatever was reported before.
abbrev Always : (Validator → Validator) → (catches : ℕ) → Diagnostic Message → Type 0
Always check n d = (v : Validator) → v.catch_depth ≡ n → Memᴰ d (check v).diagnostics

among_complete :
    (s : Statement) (ss : Statements) (depth n : ℕ) (void : Bool) (d : Diagnostic Message)
    → IsAmong s ss
    → Always (check_statement s depth void) n d
    → Always (check_statements ss depth void) n d
unfolding check_block
among_complete s no_statement depth n void d none all v e = elim none [ ]
among_complete s (and_statement _ rest) depth n void d first all v e =
    (check_statements-Extends rest depth void _).keeps d (all v e)
among_complete s (and_statement t rest) depth n void d (later at) all v e =
    among_complete s rest depth n void d at all _
      ((check_statement-Extends t depth void v).same ∙ e)

handler_complete :
    (c : CatchClause) (last : Bool) (cs : CatchClauses) (depth n : ℕ) (void : Bool)
    (d : Diagnostic Message)
    → IsHandler c last cs
    → Always (check_catch c last depth void) n d
    → Always (check_catches cs depth void) n d
unfolding check_block
handler_complete c last no_catch depth n void d none all v e = elim none [ ]
handler_complete c last (and_catch _ rest) depth n void d first_handler all v e =
    (check_catches-Extends rest depth void _).keeps d (all v e)
handler_complete c last (and_catch b rest) depth n void d (later_handler at) all v e =
    handler_complete c last rest depth n void d at all _
      ((check_catch-Extends b (is_last rest) depth void v).same ∙ e)

local_complete :
    (l : LocalDeclaration) (v : Validator) (d : Diagnostic Message)
    → Misdeclares l d
    → Memᴰ d (check_local l v).diagnostics
unfolding check_local
local_complete (local_declaration ty name value span) v d (uninitialized h) =
    (push_if-Extends _ _ _ _ _).keeps d
      ((push_if-Extends _ _ _ _ _).keeps d (push_if-reports _ _ _ _ v h))
local_complete (local_declaration ty name value span) v d (auto_reference h) =
    (push_if-Extends _ _ _ _ _).keeps d (push_if-reports _ _ _ _ _ h)
local_complete (local_declaration ty name value span) v d (unbound_reference h) =
    push_if-reports _ _ _ _ _ h

own_complete :
    (p : Place) (t : Statement) (d : Diagnostic Message)
    → Breaks p t d
    → Always (check_statement t p.loop_depth p.returns_void) p.catch_depth d
unfolding check_block check_return check_throw check_for_clause
own_complete p t d (misdeclares {l} wrong) v e = local_complete l v d wrong
own_complete p t d (misdeclares_in_for {l} {s = s} wrong) v e =
    (check_statement-Extends s (p.loop_depth + 1) p.returns_void _).keeps d
      (local_complete l v d wrong)
own_complete p t d (returns_value h k) v e = rw (h, k) (append_right v.diagnostics (head refl))
own_complete p t d (returns_nothing h k) v e = rw (h, k) (append_right v.diagnostics (head refl))
own_complete p t d (stray_throw h) v e = push_if-reports _ _ _ _ v ((==_iff _ 0).1 (e ∙ h))
own_complete p t d (stray_break h) v e = push_if-reports _ _ _ _ v ((==_iff _ 0).1 h)
own_complete p t d (stray_continue h) v e = push_if-reports _ _ _ _ v ((==_iff _ 0).1 h)
own_complete p t d (mutable_binding {b} {body} {handled} {cs} {last} {c = c} at h) v e =
    handler_complete (catch b handled c) last cs p.loop_depth p.catch_depth p.returns_void d at
      (λ w same.
        (check_block-Extends handled p.loop_depth p.returns_void _).keeps d
          (push_if-reports _ _ _ _ w h))
      _ ((check_block-Extends body p.loop_depth p.returns_void v).same ∙ e)
own_complete p t d (catch_all_early {body} {handled} {cs} {c = c} at) v e =
    handler_complete (catch_all handled c) false cs p.loop_depth p.catch_depth p.returns_void d at
      (λ w same.
        (check_block-Extends handled p.loop_depth p.returns_void _).keeps d
          (push_if-reports _ _ _ _ w refl))
      _ ((check_block-Extends body p.loop_depth p.returns_void v).same ∙ e)

-- The body of a handler is walked one handler deeper.
body_complete :
    (c : CatchClause) (last : Bool) (ss : Statements) (a : Span) (depth n : ℕ) (void : Bool)
    (d : Diagnostic Message)
    → body_of c ≡ braced ss a
    → Always (check_statements ss depth void) (n + 1) d
    → Always (check_catch c last depth void) n d
unfolding check_block
body_complete (catch b body _) last ss a depth n void d h all v e =
    subst
      (λ k.
        Memᴰ d
          (check_block k depth void (
            enter_catch (
              push_if (not (is_const b.ty) || not (is_reference_type b.ty)) "SEM012"
                catch_not_const_reference b.span v))).diagnostics)
      (sym h) (all _ (ap (λ k. k + 1) ((push_if-Extends _ _ _ _ v).same ∙ e)))
body_complete (catch_all body c) last ss a depth n void d h all v e =
    subst
      (λ k.
        Memᴰ d
          (check_block k depth void
            (enter_catch (push_if (not last) "SEM013" catch_all_not_final c v))).diagnostics)
      (sym h) (all _ (ap (λ k. k + 1) ((push_if-Extends _ _ _ _ v).same ∙ e)))

violation_complete :
    (p q : Place) (s t : Statement) (d : Diagnostic Message)
    → Stands p s q t
    → Breaks q t d
    → Always (check_statement s p.loop_depth p.returns_void) p.catch_depth d
unfolding check_block
violation_complete p q s t d here broken v e = own_complete p t d broken v e
violation_complete p q s t d (in_block {ss = ss} {s = u} at stands) broken v e =
    among_complete u ss p.loop_depth p.catch_depth p.returns_void d at
      (violation_complete p q u t d stands broken) v e
violation_complete p q s t d (in_body {ss = ss} {s = u} {cs = cs} at stands) broken v e =
    (check_catches-Extends cs p.loop_depth p.returns_void _).keeps d (
      among_complete u ss p.loop_depth p.catch_depth p.returns_void d at
        (violation_complete p q u t d stands broken) v e)
violation_complete p q s t d
      (in_handler {body = body} {ss = ss} {s = u} {c = c} {cs = cs} {last = last} {a = a} at is
        among stands)
      broken v e =
    handler_complete c last cs p.loop_depth p.catch_depth p.returns_void d at
      (body_complete c last ss a p.loop_depth p.catch_depth p.returns_void d is (
        among_complete u ss p.loop_depth (p.catch_depth + 1) p.returns_void d among
          (violation_complete (in_catch p) q u t d stands broken)))
      _ ((check_block-Extends body p.loop_depth p.returns_void v).same ∙ e)
violation_complete p q s t d (in_then {s = u} {o = o} stands) broken v e =
    (check_else-Extends o p.loop_depth p.returns_void _).keeps d
      (violation_complete p q u t d stands broken v e)
violation_complete p q s t d (in_else {s = u} {s' = w} stands) broken v e =
    violation_complete p q u t d stands broken _
      ((check_statement-Extends w p.loop_depth p.returns_void v).same ∙ e)
violation_complete p q s t d (in_while {s = u} stands) broken v e =
    violation_complete (in_loop p) q u t d stands broken v e
violation_complete p q s t d (in_for {f = f} {s = u} stands) broken v e =
    violation_complete (in_loop p) q u t d stands broken _ ((check_for_clause-Extends f v).same ∙ e)

-- The walk over a statement, started at a loop depth, in a number of handlers and in a function
-- that returns `void` or not, leaves the number of handlers as it was, and a diagnostic is reported
-- after it exactly if it was before, or a statement in this one breaks the rule of that diagnostic
-- at the place where it stands.
pub check_statement_iff :
    (s : Statement) (loop_depth : ℕ) (returns_void : Bool) (v : Validator) (d : Diagnostic Message)
    → ((check_statement s loop_depth returns_void v).catch_depth ≡ v.catch_depth)
      × (Memᴰ d (check_statement s loop_depth returns_void v).diagnostics
          ↔ (Memᴰ d v.diagnostics ⊎ Violates (place loop_depth v.catch_depth returns_void) s d))
check_statement_iff s loop_depth returns_void v d = (
  (check_statement-Extends s loop_depth returns_void v).same,
  (
    statement_sound s loop_depth v.catch_depth returns_void v d refl,
    λ reasons. elim reasons [
      | inl old ↦ (check_statement-Extends s loop_depth returns_void v).keeps d old
      | inr (q, t, stands, broken) ↦
          violation_complete (place loop_depth v.catch_depth returns_void) q s t d stands broken v
            refl
    ],
  ),
)
