-- ===== src/Compiler/Semantics/Sound.antt =====
-- Every diagnostic of the walk over a statement is of a rule that is broken there.
use stainless.Base.{ℕ, ◌+◌, ◌≡◌, ap, ◌∙◌, arith, ◌⊎◌, inl, inr, Bool, not, ◌||◌, ==_iff}
use stainless.Compiler.Diagnostic.{Span, Diagnostic}
use stainless.Compiler.Syntax.Types.{is_const, is_reference_type}
use stainless.Compiler.Syntax.Statements.{
  Block, braced, Statements, no_statement, and_statement, Statement, statement, no_else,
  else_statement, StatementKind, block, local, return, throw, try_statement, if_statement,
  while_statement, for_statement, break, continue, expression_statement, empty, malformed,
  CatchClauses, no_catch, and_catch, CatchClause, catch_all, catch,
}
use stainless.Compiler.Semantics.{
  Message, catch_not_const_reference, catch_all_not_final, Validator, push_if, check_for_clause,
  is_last, enter_catch, check_block, check_statements, check_statement, check_kind, check_catches,
  check_catch,
}
use stainless.Compiler.Semantics.Rules.{
  first, later, first_handler, later_handler, in_block, in_body, in_then, in_else, in_while, in_for,
  misdeclares, stray_break, stray_continue, Violates,
}
use stainless.Compiler.Semantics.Extends.{
  push_if-Extends, push_if-cases, check_block-Extends, check_statement-Extends,
  check_for_clause-Extends, check_catch-Extends,
}
use mathlib.Core.List.Memᴰ.{Memᴰ}
use stainless.Compiler.Semantics.Parts.{
  AmongViolates, BlockViolates, HandlerViolates, HandlersViolate, place, local_sound, itself,
  return_sound, handler-Violates, throw_sound, for_clause_sound,
}

mutual
  unfolding check_block

  pub block_sound :
      (b : Block) (depth n : ℕ) (void : Bool) (v : Validator) (d : Diagnostic Message)
      → v.catch_depth ≡ n
      → Memᴰ d (check_block b depth void v).diagnostics
      → Memᴰ d v.diagnostics ⊎ BlockViolates (place depth n void) b d
  block_sound (braced ss _) depth n void v d e m = statements_sound ss depth n void v d e m

  pub statements_sound :
      (ss : Statements) (depth n : ℕ) (void : Bool) (v : Validator) (d : Diagnostic Message)
      → v.catch_depth ≡ n
      → Memᴰ d (check_statements ss depth void v).diagnostics
      → Memᴰ d v.diagnostics ⊎ AmongViolates (place depth n void) ss d
  statements_sound no_statement depth n void v d e m = inl m
  statements_sound (and_statement s rest) depth n void v d e m =
      elim (statements_sound rest depth n void (check_statement s depth void v) d
        ((check_statement-Extends s depth void v).same ∙ e) m) [
          | inr (t, among, wrong) ↦ inr (t, later among, wrong)
          | inl m' ↦ elim (statement_sound s depth n void v d e m') [
            | inr wrong ↦ inr (s, first, wrong)
            | inl old ↦ inl old
          ]
        ]

  pub statement_sound :
      (s : Statement) (depth n : ℕ) (void : Bool) (v : Validator) (d : Diagnostic Message)
      → v.catch_depth ≡ n
      → Memᴰ d (check_statement s depth void v).diagnostics
      → Memᴰ d v.diagnostics ⊎ Violates (place depth n void) s d
  statement_sound (statement kind span) depth n void v d e m =
      kind_sound kind span depth n void v d e m

  pub kind_sound :
      (k : StatementKind) (span : Span) (depth n : ℕ) (void : Bool) (v : Validator)
      (d : Diagnostic Message)
      → v.catch_depth ≡ n
      → Memᴰ d (check_kind k span depth void v).diagnostics
      → Memᴰ d v.diagnostics ⊎ Violates (place depth n void) (statement k span) d
  kind_sound (block (braced ss a)) span depth n void v d e m =
      elim (block_sound (braced ss a) depth n void v d e m) [
        | inr (s, among, (q, t, stands, broken)) ↦ inr (q, t, in_block among stands, broken)
        | inl old ↦ inl old
      ]
  kind_sound (local l) span depth n void v d e m = elim (local_sound l v d m) [
    | inr wrong ↦ inr (itself (misdeclares wrong))
    | inl old ↦ inl old
  ]
  kind_sound (return value) span depth n void v d e m =
      return_sound (place depth n void) value span v d m
  kind_sound (throw value) span depth n void v d e m =
      throw_sound (place depth n void) value span v d e m
  kind_sound (try_statement (braced ss a) cs) span depth n void v d e m =
      elim (catches_sound cs depth n void (check_block (braced ss a) depth void v) d
        ((check_block-Extends (braced ss a) depth void v).same ∙ e) m) [
          | inr wrong ↦ inr (handler-Violates (place depth n void) (braced ss a) cs span d wrong)
          | inl m' ↦ elim (block_sound (braced ss a) depth n void v d e m') [
            | inr (s, among, (q, t, stands, broken)) ↦ inr (q, t, in_body among stands, broken)
            | inl old ↦ inl old
          ]
        ]
  kind_sound (if_statement c s no_else) span depth n void v d e m =
      elim (statement_sound s depth n void v d e m) [
        | inr (q, t, stands, broken) ↦ inr (q, t, in_then stands, broken)
        | inl old ↦ inl old
      ]
  kind_sound (if_statement c s (else_statement s')) span depth n void v d e m =
      elim (statement_sound s' depth n void (check_statement s depth void v) d
        ((check_statement-Extends s depth void v).same ∙ e) m) [
          | inr (q, t, stands, broken) ↦ inr (q, t, in_else stands, broken)
          | inl m' ↦ elim (statement_sound s depth n void v d e m') [
            | inr (q, t, stands, broken) ↦ inr (q, t, in_then stands, broken)
            | inl old ↦ inl old
          ]
        ]
  kind_sound (while_statement c s) span depth n void v d e m =
      elim (statement_sound s (depth + 1) n void v d e m) [
        | inr (q, t, stands, broken) ↦ inr (q, t, in_while stands, broken)
        | inl old ↦ inl old
      ]
  kind_sound (for_statement f s) span depth n void v d e m =
      elim (statement_sound s (depth + 1) n void (check_for_clause f v) d
        ((check_for_clause-Extends f v).same ∙ e) m) [
          | inr (q, t, stands, broken) ↦ inr (q, t, in_for stands, broken)
          | inl m' ↦ for_clause_sound (place depth n void) f s span v d m'
        ]
  kind_sound break span depth n void v d e m = elim (push_if-cases _ _ _ _ v d m) [
    | inr (h, e') ↦ inr (rw e' (itself (stray_break ((==_iff depth 0).0 h))))
    | inl old ↦ inl old
  ]
  kind_sound continue span depth n void v d e m = elim (push_if-cases _ _ _ _ v d m) [
    | inr (h, e') ↦ inr (rw e' (itself (stray_continue ((==_iff depth 0).0 h))))
    | inl old ↦ inl old
  ]
  kind_sound (expression_statement _) span depth n void v d e m = inl m
  kind_sound empty span depth n void v d e m = inl m
  kind_sound malformed span depth n void v d e m = inl m

  pub catches_sound :
      (cs : CatchClauses) (depth n : ℕ) (void : Bool) (v : Validator) (d : Diagnostic Message)
      → v.catch_depth ≡ n
      → Memᴰ d (check_catches cs depth void v).diagnostics
      → Memᴰ d v.diagnostics ⊎ HandlersViolate (place depth n void) cs d
  catches_sound no_catch depth n void v d e m = inl m
  catches_sound (and_catch c rest) depth n void v d e m =
      elim (catches_sound rest depth n void (check_catch c (is_last rest) depth void v) d
        ((check_catch-Extends c (is_last rest) depth void v).same ∙ e) m) [
          | inr (c', last, at, wrong) ↦ inr (c', last, later_handler at, wrong)
          | inl m' ↦ elim (catch_sound c (is_last rest) depth n void v d e m') [
            | inr wrong ↦ inr (c, is_last rest, first_handler, wrong)
            | inl old ↦ inl old
          ]
        ]

  pub catch_sound :
      (c : CatchClause) (last : Bool) (depth n : ℕ) (void : Bool) (v : Validator)
      (d : Diagnostic Message)
      → v.catch_depth ≡ n
      → Memᴰ d (check_catch c last depth void v).diagnostics
      → Memᴰ d v.diagnostics ⊎ HandlerViolates (place depth n void) c last d
  catch_sound (catch b body a) last depth n void v d e m =
      let bad = not (is_const b.ty) || not (is_reference_type b.ty) in
      let v' = push_if bad "SEM012" catch_not_const_reference b.span v in
      elim (block_sound body depth (n + 1) void (enter_catch v') d
        (ap (λ k. k + 1) ((push_if-Extends bad _ _ _ v).same ∙ e)) m) [
          | inr wrong ↦ inr (inr wrong)
          | inl m' ↦ elim (push_if-cases bad _ _ _ v d m') [
            | inr wrong ↦ inr (inl wrong)
            | inl old ↦ inl old
          ]
        ]
  catch_sound (catch_all body a) last depth n void v d e m =
      let v' = push_if (not last) "SEM013" catch_all_not_final a v in
      elim (block_sound body depth (n + 1) void (enter_catch v') d
        (ap (λ k. k + 1) ((push_if-Extends (not last) _ _ _ v).same ∙ e)) m) [
          | inr wrong ↦ inr (inr wrong)
          | inl m' ↦ elim (push_if-cases (not last) _ _ _ v d m') [
            | inr (h, e') ↦ inr (inl (ground arith, e'))
            | inl old ↦ inl old
          ]
        ]
