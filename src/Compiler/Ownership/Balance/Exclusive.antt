-- ===== src/Compiler/Ownership/Balance/Exclusive.antt =====
-- What the walk of bodies, declarations and files means for loans, scopes and diagnostics.
use stainless.Base.{
  ℕ, length, ◌≡◌, sym, ap, ◌∙◌, >>=-eq-some, Bool, Option, some, List, [], get_elem?,
}
use stainless.Compiler.Syntax.Statements.{Expression, Statement}
use stainless.Compiler.Diagnostic.{Diagnostic, Span}
use stainless.Compiler.Diagnostic.Order.{IsInOrder, at_span, sort-IsInOrder, at_span-sort}
use stainless.Compiler.Syntax.Items.{Items, SourceFile}
use stainless.Compiler.Ownership.LastUses.{collect_last_uses}
use mathlib.Core.Option.{some-injective}
use mathlib.Core.Path.{subst}
use stainless.Compiler.Resolution.Model.{SemanticModel}
use stainless.Compiler.Ownership.State.{Binding}
use stainless.Compiler.Ownership.Analyzer.{Usage, Message}
use stainless.Compiler.Ownership.Exclusive.{IsExclusive, IsBalanced-IsExclusive}
use stainless.Compiler.Ownership.Walk.{Walker, LastUses, state_of}
use stainless.Compiler.Ownership.Walk.Expressions.{walked}
use stainless.Compiler.Ownership.Walk.Statements.{statement_walk}
use stainless.Compiler.Ownership.Walk.Items.{items_walk, new_walker, validate}
use stainless.Compiler.Ownership.Balance.{Held, IsSound}
use stainless.Compiler.Ownership.Balance.Expressions.{walked-Keeps}
use stainless.Compiler.Ownership.Balance.Exact.{statement_walk-KeepsWith}
use stainless.Compiler.Ownership.Balance.Plain.{IsPlain, IsPlainItems}
use stainless.Compiler.Ownership.Balance.Items.{items_walk-Keeps, new_walker-IsSound}

-- If the books of a walker are right for the loans that are out, and no `try` stands in a statement
-- outside of its loops, then after the statement was walked, reachable or not, as many scopes are
-- open as before, and with the same loans out, besides those of the bindings, every binding has
-- either no mutable loan out, or one and no shared loan; and the conflict test lets a shared borrow
-- of it through exactly if no mutable loan is out, a mutable one exactly if no loan is out.
pub statement_walk-IsExclusive :
    (semantics : SemanticModel) (last_uses : LastUses) (s : Statement) (w : Walker) (held : Held)
    (r : Walker × Bool) (o : ℕ) (b : Binding)
    → IsPlain s
    → IsSound w held
    → statement_walk semantics last_uses s w ≡ some r
    → get_elem? (state_of r.0).bindings o ≡ some b
    → IsExclusive o b (state_of r.0).bindings held.0
      × (length (state_of r.0).scopes ≡ length (state_of w).scopes)
statement_walk-IsExclusive semantics last_uses s w held r o b p sound e at =
    let ended = (statement_walk-KeepsWith semantics last_uses s p w held sound).kept r e in
    (
      IsBalanced-IsExclusive (state_of r.0).bindings held.0 o b ended.books.0 at,
      ended.books.1 ∙ sym sound.books.1,
    )

-- If the books of a walker are right for some loans that are out, then after any expression, used in
-- any way, they are right for the same loans, and as many scopes are open: what the expression
-- borrowed for itself is given back. In every state that a loop or a `try` around it captured the
-- books are right for some loans.
pub expression_walk-IsSound :
    (semantics : SemanticModel) (e : Expression) (usage : Usage) (w : Walker) (held : Held)
    (r : Walker × Option ℕ)
    → IsSound w held
    → (walked semantics e).walk usage w ≡ some r
    → IsSound r.0 held
expression_walk-IsSound semantics e usage w held r s at =
    ((walked-Keeps semantics e).walks usage w held s).kept r at

-- If in no body of a file a `try` stands outside of the loops, then a walk over the declarations of
-- the file that returns ends with no scope open, and its books are right with no loan out but those
-- of the bindings: what any body borrowed for a call or a loop is given back, and each scope that
-- was opened is left.
pub items_walk-IsSound :
    (semantics : SemanticModel) (last_uses : LastUses) (items : Items) (w : Walker)
    → IsPlainItems items
    → items_walk semantics last_uses items new_walker ≡ some w
    → IsSound w ([], 0)
items_walk-IsSound semantics last_uses items w p e =
    (items_walk-Keeps semantics last_uses items p new_walker new_walker-IsSound).kept w e

-- If the ownership validation of a file returns, its diagnostics come in the order of their places;
-- the last uses of the file were collected, the walk over its declarations with these last uses
-- returned, and at each place the diagnostics are those that this walk reported there, in its order.
pub ownership_validate-IsInOrder :
    (source : SourceFile) (semantics : SemanticModel) (ds : List (Diagnostic Message))
    → validate source semantics ≡ some ds
    → IsInOrder ds
      × (uses : LastUses) × (w : Walker) × (collect_last_uses source.items ≡ some uses)
      × (items_walk semantics uses source.items new_walker ≡ some w)
      × ((place : Span) → at_span place ds ≡ at_span place w.analyzer.diagnostics)
unfolding validate
ownership_validate-IsInOrder source semantics ds e =
    let (uses, collected, e₁) = >>=-eq-some (collect_last_uses source.items) _ e in
    let (w, at, e₂) = >>=-eq-some (items_walk semantics uses source.items new_walker) _ e₁ in
    let sorted = some-injective _ _ e₂ in
    (
      subst IsInOrder sorted (sort-IsInOrder w.analyzer.diagnostics),
      uses,
      w,
      collected,
      at,
      λ place. ap (at_span place) (sym sorted) ∙ at_span-sort place w.analyzer.diagnostics,
    )
