-- ===== src/Compiler/Diagnostic.antt =====
-- crates/stainless-compiler/src/diagnostic.rs, and `Span` of ast.rs. The text of a message is a
-- parameter: each pass has a data type with a constructor for each format string and the
-- arguments that the string is formatted with.
pub mod Order
use stainless.Base.{
  ℕ, ltb, leb, ◌==◌, ◌&&◌, ◌||◌, if◌then◌else◌, List, [], ◌∷◌, String, Bool, true, false,
}

-- A half-open range of bytes.
pub record Span : Type 0 where
  pub start : ℕ
  pub end : ℕ

pub data DiagnosticPhase : Type 0 where
  syntax semantic ownership hir codegen : DiagnosticPhase

pub data DiagnosticSeverity : Type 0 where
  error warning : DiagnosticSeverity

pub record Diagnostic (M : Type 0) : Type 0 where
  pub code : String
  pub phase : DiagnosticPhase
  pub severity : DiagnosticSeverity
  pub message : M
  pub span : Span

-- The derived order of spans: by their starts, then by their ends.
abbrev pub span_leb : Span → Span → Bool
span_leb a b = ltb a.start b.start || (a.start == b.start && leb a.end b.end)

module _ {M : Type 0} where
  abbrev pub semantic_error : String → M → Span → Diagnostic M
  semantic_error code message span = record {
    code = code;
    phase = semantic;
    severity = error;
    message = message;
    span = span;
  }

  abbrev pub ownership_error : String → M → Span → Diagnostic M
  ownership_error code message span = record {
    code = code;
    phase = ownership;
    severity = error;
    message = message;
    span = span;
  }

  abbrev pub is_error : Diagnostic M → Bool
  is_error d = elim (d.severity) [ error ↦ true | warning ↦ false ]

  -- `sort_by_key` by the span, which keeps the order of equal keys.
  unfoldable pub insert_by_span : Diagnostic M → List (Diagnostic M) → List (Diagnostic M)
  insert_by_span d [] = d ∷ []
  insert_by_span d (e ∷ es) =
      let rest = insert_by_span d es in if span_leb d.span e.span then d ∷ (e ∷ es) else e ∷ rest

  unfoldable pub sort_by_span : List (Diagnostic M) → List (Diagnostic M)
  sort_by_span [] = []
  sort_by_span (d ∷ ds) = insert_by_span d (sort_by_span ds)
