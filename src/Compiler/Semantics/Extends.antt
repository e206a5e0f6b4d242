-- ===== src/Compiler/Semantics/Extends.antt =====
-- A check adds diagnostics and leaves the rest of the validator as it was.
use stainless.Base.{
  ℕ, ◌+◌, ◌-◌, ◌≡◌, refl, ap, ◌∙◌, arith, ◌⊎◌, inl, inr, String, Bool, true, false,
}
use stainless.Compiler.Diagnostic.{Span, Diagnostic, semantic_error}
use stainless.Compiler.Syntax.Statements.{
  OptionalExpression, absent, present, Block, braced, Statements, no_statement, and_statement,
  Statement, statement, OptionalStatement, no_else, else_statement, StatementKind, block, local,
  return, throw, try_statement, if_statement, while_statement, for_statement, break, continue,
  expression_statement, empty, malformed, CatchClauses, no_catch, and_catch, CatchClause, catch_all,
  catch, LocalDeclaration, local_declaration, ForClause, range, classic, malformed_clause,
  no_initializer, local_initializer, expression_initializer,
}
use stainless.Compiler.Semantics.{
  Message, Validator, push, push_if, check_local, check_return, check_throw, check_for_clause,
  is_last, enter_catch, leave_catch, check_block, check_statements, check_statement, check_kind,
  check_else, check_catches, check_catch, is_present,
}
use mathlib.Core.List.Memᴰ.{append_left, append_right, append_cases, Memᴰ, head, tail}

pub record Extends (v v' : Validator) : Type 0 where
  pub same : v'.catch_depth ≡ v.catch_depth
  pub keeps : (d : Diagnostic Message) → Memᴰ d v.diagnostics → Memᴰ d v'.diagnostics

pub Extends-refl : (v : Validator) → Extends v v
Extends-refl v = record { same = refl; keeps = λ d m. m }

pub Extends-trans : {a b c : Validator} → Extends a b → Extends b c → Extends a c
Extends-trans x y = record { same = y.same ∙ x.same; keeps = λ d m. y.keeps d (x.keeps d m) }

pub push-Extends :
    (code : String) (message : Message) (span : Span) (v : Validator)
    → Extends v (push code message span v)
push-Extends code message span v = record { same = refl; keeps = λ d m. append_left _ m }

pub push_if-Extends :
    (b : Bool) (code : String) (message : Message) (span : Span) (v : Validator)
    → Extends v (push_if b code message span v)
unfolding push_if
push_if-Extends true code message span v = push-Extends code message span v
push_if-Extends false code message span v = Extends-refl v

-- What `push_if` adds.
pub push_if-cases :
    (b : Bool) (code : String) (message : Message) (span : Span) (v : Validator)
    (d : Diagnostic Message)
    → Memᴰ d (push_if b code message span v).diagnostics
    → Memᴰ d v.diagnostics ⊎ ((b ≡ true) × (d ≡ semantic_error code message span))
unfolding push_if
push_if-cases false code message span v d m = inl m
push_if-cases true code message span v d m = elim (append_cases v.diagnostics m) [
  | inl old ↦ inl old
  | inr (head e) ↦ inr (refl, e)
  | inr (tail none) ↦ elim none [ ]
]

pub push_if-reports :
    (b : Bool) (code : String) (message : Message) (span : Span) (v : Validator)
    → b ≡ true
    → Memᴰ (semantic_error code message span) (push_if b code message span v).diagnostics
unfolding push_if
push_if-reports true code message span v h = append_right v.diagnostics (head refl)
push_if-reports false code message span v h = cc

pub check_local-Extends : (l : LocalDeclaration) (v : Validator) → Extends v (check_local l v)
unfolding check_local
check_local-Extends (local_declaration ty name value span) v =
    Extends-trans (push_if-Extends _ _ _ _ v)
      (Extends-trans (push_if-Extends _ _ _ _ _) (push_if-Extends _ _ _ _ _))

pub check_for_clause-Extends : (f : ForClause) (v : Validator) → Extends v (check_for_clause f v)
unfolding check_for_clause
check_for_clause-Extends (classic (local_initializer l) _ _) v = check_local-Extends l v
check_for_clause-Extends (classic no_initializer _ _) v = Extends-refl v
check_for_clause-Extends (classic (expression_initializer _) _ _) v = Extends-refl v
check_for_clause-Extends (range _ _ _) v = Extends-refl v
check_for_clause-Extends malformed_clause v = Extends-refl v

pub check_return-Extends :
    (void value : Bool) (span : Span) (v : Validator) → Extends v (check_return void value span v)
unfolding check_return
check_return-Extends true true span v = push-Extends _ _ span v
check_return-Extends false false span v = push-Extends _ _ span v
check_return-Extends true false span v = Extends-refl v
check_return-Extends false true span v = Extends-refl v

pub check_throw-Extends :
    (e : OptionalExpression) (span : Span) (v : Validator) → Extends v (check_throw e span v)
unfolding check_throw
check_throw-Extends absent span v = push_if-Extends _ _ _ span v
check_throw-Extends (present e) span v = Extends-refl v

-- The body of a handler runs one handler deeper.
pub leave-Extends : {v w : Validator} → Extends (enter_catch v) w → Extends v (leave_catch w)
leave-Extends x = record { same = ap (λ n. n - 1) x.same ∙ omega arith; keeps = x.keeps }

mutual
  unfolding check_block

  pub check_block-Extends :
      (b : Block) (depth : ℕ) (void : Bool) (v : Validator) → Extends v (check_block b depth void v)
  check_block-Extends (braced ss _) depth void v = check_statements-Extends ss depth void v

  pub check_statements-Extends :
      (ss : Statements) (depth : ℕ) (void : Bool) (v : Validator)
      → Extends v (check_statements ss depth void v)
  check_statements-Extends no_statement depth void v = Extends-refl v
  check_statements-Extends (and_statement s rest) depth void v =
      Extends-trans (check_statement-Extends s depth void v)
        (check_statements-Extends rest depth void _)

  pub check_statement-Extends :
      (s : Statement) (depth : ℕ) (void : Bool) (v : Validator)
      → Extends v (check_statement s depth void v)
  check_statement-Extends (statement kind span) depth void v =
      check_kind-Extends kind span depth void v

  pub check_kind-Extends :
      (k : StatementKind) (span : Span) (depth : ℕ) (void : Bool) (v : Validator)
      → Extends v (check_kind k span depth void v)
  check_kind-Extends (block b) span depth void v = check_block-Extends b depth void v
  check_kind-Extends (local l) span depth void v = check_local-Extends l v
  check_kind-Extends (return e) span depth void v = check_return-Extends void (is_present e) span v
  check_kind-Extends (throw e) span depth void v = check_throw-Extends e span v
  check_kind-Extends (try_statement body cs) span depth void v =
      Extends-trans (check_block-Extends body depth void v) (check_catches-Extends cs depth void _)
  check_kind-Extends (if_statement _ s o) span depth void v =
      Extends-trans (check_statement-Extends s depth void v) (check_else-Extends o depth void _)
  check_kind-Extends (while_statement _ s) span depth void v =
      check_statement-Extends s (depth + 1) void v
  check_kind-Extends (for_statement f s) span depth void v =
      Extends-trans (check_for_clause-Extends f v) (check_statement-Extends s (depth + 1) void _)
  check_kind-Extends break span depth void v = push_if-Extends _ _ _ span v
  check_kind-Extends continue span depth void v = push_if-Extends _ _ _ span v
  check_kind-Extends (expression_statement _) span depth void v = Extends-refl v
  check_kind-Extends empty span depth void v = Extends-refl v
  check_kind-Extends malformed span depth void v = Extends-refl v

  pub check_else-Extends :
      (o : OptionalStatement) (depth : ℕ) (void : Bool) (v : Validator)
      → Extends v (check_else o depth void v)
  check_else-Extends no_else depth void v = Extends-refl v
  check_else-Extends (else_statement s) depth void v = check_statement-Extends s depth void v

  pub check_catches-Extends :
      (cs : CatchClauses) (depth : ℕ) (void : Bool) (v : Validator)
      → Extends v (check_catches cs depth void v)
  check_catches-Extends no_catch depth void v = Extends-refl v
  check_catches-Extends (and_catch c rest) depth void v =
      Extends-trans (check_catch-Extends c (is_last rest) depth void v)
        (check_catches-Extends rest depth void _)

  pub check_catch-Extends :
      (c : CatchClause) (last : Bool) (depth : ℕ) (void : Bool) (v : Validator)
      → Extends v (check_catch c last depth void v)
  check_catch-Extends (catch b body span) last depth void v =
      Extends-trans (push_if-Extends _ _ _ _ v)
        (leave-Extends (check_block-Extends body depth void _))
  check_catch-Extends (catch_all body span) last depth void v =
      Extends-trans (push_if-Extends _ _ _ _ v)
        (leave-Extends (check_block-Extends body depth void _))
