-- ===== src/Compiler/Ownership/Balance/Exact.antt =====
-- The walk of a body without a `try` outside its loops keeps the very loans that are out, and the
-- scopes that are open.
use stainless.Base.{ℕ, Bool, true, false, Option, none, some, inl, inr, Bool-cases, ◌>>=◌}
use stainless.Compiler.Syntax.Statements.{
  braced, Statements, no_statement, and_statement, Statement, statement, OptionalStatement, no_else,
  else_statement, StatementKind, block, local, return, throw, try_statement, if_statement,
  while_statement, for_statement, break, continue, expression_statement, empty, malformed,
}
use stainless.Compiler.Resolution.Model.{SemanticModel}
use stainless.Compiler.Ownership.State.{FlowState, merge_states}
use stainless.Compiler.Ownership.Analyzer.{read}
use stainless.Compiler.Ownership.Walk.{
  Walker, LastUses, state_of, set_state, enter_scope, leave_scope, expire, capture_loop_exit,
}
use stainless.Compiler.Ownership.Walk.Expressions.{walked}
use stainless.Compiler.Ownership.Walk.Loops.{Run}
use stainless.Compiler.Ownership.Walk.Statements.{
  Branch, branch, join_branches, else_walk, if_walk, scoped, followed_by, walked_option, local_walk,
  end_of, statement_walk, kind_walk, statements_walk, else_branch_walk,
}
use stainless.Compiler.Ownership.Balance.{
  Held, deeper, Books, IsSound, Kept, KeepsWith, some-Kept, bind-Kept, set_state-IsSound,
}
use stainless.Compiler.Ownership.Balance.Operations.{
  enter_scope-IsSound, leave_scope-Keeps, expire-Keeps,
}
use stainless.Compiler.Ownership.Balance.States.{merge_states-Books}
use stainless.Compiler.Ownership.Balance.Captures.{capture_loop_exit-Keeps}
use stainless.Compiler.Ownership.Balance.Arguments.{WriteKeeps}
use stainless.Compiler.Ownership.Balance.Receivers.{with-Kept}
use stainless.Compiler.Ownership.Balance.Expressions.{walked-Keeps}
use stainless.Compiler.Ownership.Balance.Loops.{while_walk-Keeps}
use stainless.Compiler.Ownership.Balance.Ends.{Ends, some-Ends, bind-Ends, anything}
use stainless.Compiler.Ownership.Balance.Plain.{
  IsPlain, IsPlainKind, IsPlainBlock, IsPlainStatements, IsPlainElse,
}
use stainless.Compiler.Ownership.Balance.Statements.{
  local_walk-Keeps, return_walk-Keeps, throw_walk-Keeps, for_walk-Keeps, read-Keeps,
  walked_option-Keeps, statement_walk-Keeps,
}

abbrev RunKeepsWith : Run → Type 0
RunKeepsWith run = (w : Walker) (held : Held) → IsSound w held → KeepsWith held (run w)

-- A branch from a state with right books: the walker and the state that the branch ends in have
-- the same loans out, and as many scopes open.
abbrev BranchKeepsWith : Branch → Type 0
BranchKeepsWith b =
    (st : FlowState) (w : Walker) (held : Held)
    → Books st held
    → IsSound w held
    → Ends (λ r. IsSound r.0 held × Books r.1.0 held) (b st w)

abbrev OptionBranchKeepsWith : Option Branch → Type 0
OptionBranchKeepsWith none = Unit
OptionBranchKeepsWith (some b) = BranchKeepsWith b

Kept-IsSound {ℓ} :
    {A : Type ℓ} {walker : A → Walker} {held : A → Held} {m : Option A}
    → Kept walker held m
    → Ends (λ a. IsSound (walker a) (held a)) m
Kept-IsSound k = record { ends = λ a e. k.kept a e }

branch-KeepsWith : (run : Run) (end : ℕ) → RunKeepsWith run → BranchKeepsWith (branch run end)
unfolding branch
branch-KeepsWith run end k st w held b s =
    let entered = enter_scope-IsSound (set_state st w) (set_state-IsSound w st s b) in
    bind-Ends (run (enter_scope (set_state st w))) _
      (Kept-IsSound (k (enter_scope (set_state st w)) (deeper held) entered))
      (λ ran at s₁.
        bind-Ends (expire end ran.0) _ (Kept-IsSound (expire-Keeps end ran.0 s₁)) (λ expired at₁ s₂.
          bind-Ends (leave_scope expired) _
            (Kept-IsSound (leave_scope-Keeps expired {held = held} s₂))
            (λ left at₂ s₃.
              some-Ends _ (set_state-IsSound left (state_of w) s₃ s.books, s₃.books))))

else_walk-KeepsWith : (b : Option Branch) → OptionBranchKeepsWith b → BranchKeepsWith (else_walk b)
unfolding else_walk
else_walk-KeepsWith none k st w held b s = some-Ends _ (s, b)
else_walk-KeepsWith (some other) k st w held b s = k st w held b s

join_branches-KeepsWith :
    (baseline : FlowState) (one other : FlowState × Bool) (w : Walker) (held : Held)
    → Books baseline held
    → Books one.0 held
    → Books other.0 held
    → IsSound w held
    → Ends (λ (r : Walker × Bool). IsSound r.0 held) (join_branches baseline one other w)
unfolding join_branches
join_branches-KeepsWith baseline (one, true) (other, true) w held b p q s =
    bind-Ends (merge_states baseline one other) _ (anything (merge_states baseline one other))
      (λ m at _.
        some-Ends _ (set_state-IsSound w m s (merge_states-Books baseline one other m held at b)))
join_branches-KeepsWith baseline (one, true) (other, false) w held b p q s =
    some-Ends _ (set_state-IsSound w one s p)
join_branches-KeepsWith baseline (one, false) (other, true) w held b p q s =
    some-Ends _ (set_state-IsSound w other s q)
join_branches-KeepsWith baseline (one, false) (other, false) w held b p q s =
    some-Ends _ (set_state-IsSound w baseline s b)

if_walk-KeepsWith :
    (then_branch : Branch) (else_branch : Option Branch)
    → BranchKeepsWith then_branch
    → OptionBranchKeepsWith else_branch
    → (w : Walker) (held : Held) → IsSound w held
    → Ends (λ (r : Walker × Bool). IsSound r.0 held) (if_walk then_branch else_branch w)
unfolding if_walk
if_walk-KeepsWith then_branch else_branch k k' w held s =
    bind-Ends (then_branch (state_of w) w) _ (k (state_of w) w held s.books s) (λ r at p.
      bind-Ends (else_walk else_branch (state_of w) r.0) _
        (else_walk-KeepsWith else_branch k' (state_of w) r.0 held s.books p.0)
        (λ r' at' q. join_branches-KeepsWith (state_of w) r.1 r'.1 r'.0 held s.books p.1 q.1 q.0))

scoped-KeepsWith : (run : Run) → RunKeepsWith run → RunKeepsWith (scoped run)
unfolding scoped
scoped-KeepsWith run k w held s =
    bind-Kept (run (enter_scope w)) _ (k (enter_scope w) (deeper held) (enter_scope-IsSound w s))
      (λ ran s₁.
        bind-Kept (leave_scope ran.0) _ (leave_scope-Keeps ran.0 {held = held} s₁)
          (λ left s₂. some-Kept _ s₂))

followed_by-KeepsWith :
    (run : Run) (end : ℕ) (rest : Run)
    → RunKeepsWith run
    → RunKeepsWith rest
    → RunKeepsWith (followed_by run end rest)
unfolding followed_by
followed_by-KeepsWith run end rest k k' w held s = bind-Kept (run w) _ (k w held s) (λ ran s₁.
    bind-Kept (expire end ran.0) _ (expire-Keeps end ran.0 s₁) (λ expired s₂.
      elim (Bool-cases ran.1) [
        | inl reachable ↦ rw reachable (k' expired held s₂)
        | inr unreachable ↦ rw unreachable (some-Kept (expired, false) s₂)
      ]))

-- What keeps the books, as a statement that ends reachably or not.
ending-KeepsWith :
    (reachable : Bool) (f : Walker → Option Walker)
    → WriteKeeps f
    → RunKeepsWith (λ w. f w >>= λ v. some (v, reachable))
ending-KeepsWith reachable f k w held s = with-Kept reachable (f w) (k w held s)

module _ (semantics : SemanticModel) (last_uses : LastUses) where
  mutual
    unfolding statement_walk kind_walk statements_walk else_branch_walk IsPlain IsPlainKind
        IsPlainBlock IsPlainStatements IsPlainElse

    pub statement_walk-KeepsWith :
        (s : Statement) → IsPlain s → RunKeepsWith (statement_walk semantics last_uses s)
    statement_walk-KeepsWith (statement kind span) p = kind_walk-KeepsWith kind p

    kind_walk-KeepsWith :
        (kind : StatementKind)
        → IsPlainKind kind
        → RunKeepsWith (kind_walk semantics last_uses kind)
    kind_walk-KeepsWith (block (braced statements _)) p =
        scoped-KeepsWith (statements_walk semantics last_uses statements)
          (statements_walk-KeepsWith statements p)
    kind_walk-KeepsWith (local declaration) p =
        ending-KeepsWith true (local_walk semantics last_uses declaration)
          (local_walk-Keeps semantics last_uses declaration)
    kind_walk-KeepsWith (return value) p = ending-KeepsWith false _ (
        return_walk-Keeps (walked_option semantics last_uses value)
          (walked_option-Keeps semantics last_uses value))
    kind_walk-KeepsWith (throw value) p = ending-KeepsWith false _ (
        throw_walk-Keeps (walked_option semantics last_uses value)
          (walked_option-Keeps semantics last_uses value))
    kind_walk-KeepsWith (try_statement body catches) p = absurd p
    kind_walk-KeepsWith (if_statement condition then_branch else_branch) (p, q) = λ w held s.
        bind-Kept ((walked semantics condition).walk read w) _
          ((walked-Keeps semantics condition).walks read w held s)
          (λ r s'. record {
            kept =
                (if_walk-KeepsWith _ (else_branch_walk semantics last_uses else_branch)
                  (branch-KeepsWith (statement_walk semantics last_uses then_branch)
                    (end_of semantics last_uses then_branch)
                    (statement_walk-KeepsWith then_branch p))
                  (else_branch_walk-KeepsWith else_branch q) r.0 held s').ends;
          })
    kind_walk-KeepsWith (while_statement condition body) p = ending-KeepsWith true _ (
        while_walk-Keeps (walked semantics condition).walk (statement_walk semantics last_uses body)
          (end_of semantics last_uses body) (walked-Keeps semantics condition).walks
          (statement_walk-Keeps semantics last_uses body))
    kind_walk-KeepsWith (for_statement clause body) p = ending-KeepsWith true _ (
        for_walk-Keeps semantics last_uses clause (statement_walk semantics last_uses body)
          (end_of semantics last_uses body) (statement_walk-Keeps semantics last_uses body))
    kind_walk-KeepsWith break p =
        ending-KeepsWith false (capture_loop_exit false)
          (λ w held s. capture_loop_exit-Keeps false w s)
    kind_walk-KeepsWith continue p =
        ending-KeepsWith false (capture_loop_exit true)
          (λ w held s. capture_loop_exit-Keeps true w s)
    kind_walk-KeepsWith (expression_statement e) p =
        ending-KeepsWith true _
          (read-Keeps semantics last_uses (walked semantics e) (walked-Keeps semantics e))
    kind_walk-KeepsWith empty p = λ w held s. some-Kept (w, true) s
    kind_walk-KeepsWith malformed p = λ w held s. some-Kept (w, true) s

    pub statements_walk-KeepsWith :
        (s : Statements)
        → IsPlainStatements s
        → RunKeepsWith (statements_walk semantics last_uses s)
    statements_walk-KeepsWith no_statement p = λ w held s. some-Kept (w, true) s
    statements_walk-KeepsWith (and_statement s rest) (p, q) =
        followed_by-KeepsWith (statement_walk semantics last_uses s) (end_of semantics last_uses s)
          (statements_walk semantics last_uses rest) (statement_walk-KeepsWith s p)
          (statements_walk-KeepsWith rest q)

    else_branch_walk-KeepsWith :
        (s : OptionalStatement)
        → IsPlainElse s
        → OptionBranchKeepsWith (else_branch_walk semantics last_uses s)
    else_branch_walk-KeepsWith no_else p = tt
    else_branch_walk-KeepsWith (else_statement s) p =
        branch-KeepsWith (statement_walk semantics last_uses s) (end_of semantics last_uses s)
          (statement_walk-KeepsWith s p)
