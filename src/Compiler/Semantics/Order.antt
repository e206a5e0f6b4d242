-- ===== src/Compiler/Semantics/Order.antt =====
-- The diagnostics that `validate` returns are those that the walk reported, in the order of the
-- source.
use stainless.Base.{◌≡◌, List, []}
use stainless.Compiler.Diagnostic.{Diagnostic, Span}
use stainless.Compiler.Diagnostic.Order.{IsInOrder, at_span, sort-IsInOrder, at_span-sort}
use stainless.Compiler.Syntax.Items.{SourceFile}
use stainless.Compiler.Semantics.{Message}
use stainless.Compiler.Semantics.Validate.{check_items, validate}

-- What the walk over the file reports, in the order of the walk.
abbrev pub reported : SourceFile → List (Diagnostic Message)
reported source =
    (check_items source.items (record { diagnostics = []; catch_depth = 0 })).diagnostics

-- The diagnostics of a file come in the order of their places, and at each place they are those
-- that the walk reported there, in the order in which it did.
pub validate-IsInOrder :
    (source : SourceFile)
    → IsInOrder (validate source)
      × ((place : Span) → at_span place (validate source) ≡ at_span place (reported source))
unfolding validate
validate-IsInOrder source =
    (sort-IsInOrder (reported source), λ place. at_span-sort place (reported source))
