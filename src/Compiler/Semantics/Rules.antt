-- ===== src/Compiler/Semantics/Rules.antt =====
-- The rules of the language for statements, stated without a walk: which statement is where, and
-- what is wrong with a statement at a place.
use stainless.Base.{ℕ, ◌+◌, ◌≡◌, String, Bool, true, false, not, ◌&&◌, ◌||◌}
use stainless.Compiler.Diagnostic.{Span, Diagnostic, semantic_error}
use stainless.Compiler.Syntax.Types.{
  SourceType, is_const, is_reference_type, type_span, is_inferred,
}
use stainless.Compiler.Syntax.Statements.{
  Expression, OptionalExpression, absent, Block, braced, Statements, and_statement, Statement,
  statement, OptionalStatement, else_statement, block, local, return, throw, try_statement,
  if_statement, while_statement, for_statement, break, continue, CatchClauses, and_catch,
  CatchClause, CatchBinding, catch_all, catch, LocalDeclaration, local_declaration, ForClause,
  classic, local_initializer,
}
use stainless.Compiler.Semantics.{
  Message, void_returns_value, value_not_returned, bare_throw_outside_catch,
  catch_not_const_reference, catch_all_not_final, break_outside_loop, continue_outside_loop,
  inferred_without_initializer, inferred_reference, reference_without_initializer, is_present,
  is_last,
}

-- Where a statement stands: in how many loops and handlers, and in what kind of function.
pub record Place : Type 0 where
  pub loop_depth : ℕ
  pub catch_depth : ℕ
  pub returns_void : Bool

abbrev pub in_loop : Place → Place
in_loop p = record p { loop_depth = p.loop_depth + 1 }

abbrev pub in_catch : Place → Place
in_catch p = record p { catch_depth = p.catch_depth + 1 }

pub data IsAmong (s : Statement) : Statements → Type 0 where
  first : {rest : Statements} → IsAmong s (and_statement s rest)
  later : {t : Statement} {rest : Statements} → IsAmong s rest → IsAmong s (and_statement t rest)

abbrev pub body_of : CatchClause → Block
body_of (catch _ body _) = body
body_of (catch_all body _) = body

pub data IsHandler (c : CatchClause) : (last : Bool) → CatchClauses → Type 0 where
  first_handler : {rest : CatchClauses} → IsHandler c (is_last rest) (and_catch c rest)
  later_handler :
      {last : Bool} {d : CatchClause} {rest : CatchClauses}
      → IsHandler c last rest
      → IsHandler c last (and_catch d rest)

-- `Stands p s q t`: in the statement `s`, which stands at `p`, the statement `t` stands at `q`.
pub data Stands : Place → Statement → Place → Statement → Type 0 where
  here : {p : Place} {s : Statement} → Stands p s p s
  in_block :
      {p q : Place} {ss : Statements} {s t : Statement} {a b : Span}
      → IsAmong s ss
      → Stands p s q t
      → Stands p (statement (block (braced ss a)) b) q t
  in_body :
      {p q : Place} {ss : Statements} {s t : Statement} {cs : CatchClauses} {a b : Span}
      → IsAmong s ss
      → Stands p s q t
      → Stands p (statement (try_statement (braced ss a) cs) b) q t
  in_handler :
      {p q : Place} {body : Block} {ss : Statements} {s t : Statement} {c : CatchClause}
      {cs : CatchClauses} {last : Bool} {a b : Span}
      → IsHandler c last cs
      → body_of c ≡ braced ss a
      → IsAmong s ss
      → Stands (in_catch p) s q t
      → Stands p (statement (try_statement body cs) b) q t
  in_then :
      {p q : Place} {e : Expression} {s t : Statement} {o : OptionalStatement} {a : Span}
      → Stands p s q t
      → Stands p (statement (if_statement e s o) a) q t
  in_else :
      {p q : Place} {e : Expression} {s s' t : Statement} {a : Span}
      → Stands p s q t
      → Stands p (statement (if_statement e s' (else_statement s)) a) q t
  in_while :
      {p q : Place} {e : Expression} {s t : Statement} {a : Span}
      → Stands (in_loop p) s q t
      → Stands p (statement (while_statement e s) a) q t
  in_for :
      {p q : Place} {f : ForClause} {s t : Statement} {a : Span}
      → Stands (in_loop p) s q t
      → Stands p (statement (for_statement f s) a) q t

-- What is wrong with a local declaration.
pub data Misdeclares : LocalDeclaration → Diagnostic Message → Type 0 where
  uninitialized :
      {ty : SourceType} {name : String} {value : OptionalExpression} {span : Span}
      → is_inferred ty && not (is_present value) ≡ true
      → Misdeclares
          (local_declaration ty name value span)
          (semantic_error "SEM002" (inferred_without_initializer name) span)
  auto_reference :
      {ty : SourceType} {name : String} {value : OptionalExpression} {span : Span}
      → is_inferred ty && is_reference_type ty ≡ true
      → Misdeclares
          (local_declaration ty name value span)
          (semantic_error "SEM003" (inferred_reference name) (type_span ty))
  unbound_reference :
      {ty : SourceType} {name : String} {value : OptionalExpression} {span : Span}
      → is_reference_type ty && not (is_present value) ≡ true
      → Misdeclares
          (local_declaration ty name value span)
          (semantic_error "SEM004" (reference_without_initializer name) span)

-- What is wrong with a statement at a place, not with what stands in it.
pub data Breaks (p : Place) : Statement → Diagnostic Message → Type 0 where
  misdeclares :
      {l : LocalDeclaration} {a : Span} {d : Diagnostic Message}
      → Misdeclares l d
      → Breaks p (statement (local l) a) d
  misdeclares_in_for :
      {l : LocalDeclaration} {e f : OptionalExpression} {s : Statement} {a : Span}
      {d : Diagnostic Message}
      → Misdeclares l d
      → Breaks p (statement (for_statement (classic (local_initializer l) e f) s) a) d
  returns_value :
      {e : OptionalExpression} {a : Span}
      → p.returns_void ≡ true
      → is_present e ≡ true
      → Breaks p (statement (return e) a) (semantic_error "SEM005" void_returns_value a)
  returns_nothing :
      {e : OptionalExpression} {a : Span}
      → p.returns_void ≡ false
      → is_present e ≡ false
      → Breaks p (statement (return e) a) (semantic_error "SEM006" value_not_returned a)
  stray_throw :
      {a : Span}
      → p.catch_depth ≡ 0
      → Breaks p (statement (throw absent) a) (semantic_error "SEM011" bare_throw_outside_catch a)
  stray_break :
      {a : Span}
      → p.loop_depth ≡ 0
      → Breaks p (statement break a) (semantic_error "SEM007" break_outside_loop a)
  stray_continue :
      {a : Span}
      → p.loop_depth ≡ 0
      → Breaks p (statement continue a) (semantic_error "SEM008" continue_outside_loop a)
  mutable_binding :
      {b : CatchBinding} {body handled : Block} {cs : CatchClauses} {last : Bool} {a c : Span}
      → IsHandler (catch b handled c) last cs
      → not (is_const b.ty) || not (is_reference_type b.ty) ≡ true
      → Breaks p
          (statement (try_statement body cs) a)
          (semantic_error "SEM012" catch_not_const_reference b.span)
  catch_all_early :
      {body handled : Block} {cs : CatchClauses} {a c : Span}
      → IsHandler (catch_all handled c) false cs
      → Breaks p
          (statement (try_statement body cs) a)
          (semantic_error "SEM013" catch_all_not_final c)

-- A statement that stands in this one is wrong where it stands.
abbrev pub Violates : Place → Statement → Diagnostic Message → Type 0
Violates p s d = (q : Place) × (t : Statement) × Stands p s q t × Breaks q t d
