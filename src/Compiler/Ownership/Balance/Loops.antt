-- ===== src/Compiler/Ownership/Balance/Loops.antt =====
-- A loop ends with the books of the state before it: what its passes leave is joined with that state.
use stainless.Base.{
  ℕ, ◌==◌, ◌-◌, zero, suc, if◌then◌else◌, Bool, true, false, not, ◌&&◌, ◌||◌, any, Option, none,
  some, List, [], ◌∷◌, ◌++◌, length, take, drop, All, >>=-eq-some, ◌≡◌, inl, inr, Bool-cases,
}
use stainless.Compiler.Diagnostic.{Span}
use stainless.Compiler.Types.{is_reference}
use stainless.Compiler.Syntax.Statements.{RangeBinding}
use stainless.Compiler.Resolution.Model.{SemanticModel, BindingResolution, expression_resolution}
use stainless.Compiler.Ownership.State.{FlowState, merge_many_states}
use stainless.Compiler.Ownership.Analyzer.{read}
use stainless.Compiler.Ownership.Accounting.Moves.{to_list}
use stainless.Compiler.Ownership.Walk.{
  Walker, LoopContext, LastUses, state_of, set_state, enter_scope, leave_scope, declare_local,
}
use stainless.Compiler.Ownership.Walk.Arguments.{Walk, Walked, is_mutable_reference}
use stainless.Compiler.Ownership.Walk.Calls.{call_of}
use stainless.Compiler.Ownership.Walk.Expressions.{has_json_type}
use stainless.Compiler.Ownership.Walk.Loops.{
  Run, Pass, innermost, drop_loop, set_depth, enter_loop, leave_loop, split_continues, body_pass,
  tail_part, loop_tail, each_tail, join_tails, loop_iteration, join_passes, repeat_pass,
  optional_state, run_loop, while_walk, classic_walk, declare_each, range_iteration, is_move,
  lend_if, range_usage, range_loop, range_bindings, range_walk,
}
use stainless.Compiler.Ownership.Balance.{
  Keeps, HasExits, Held, with_loans, deeper, HasBooks, IsSound, some-Kept, bind-Kept,
  set_state-IsSound,
}
use stainless.Compiler.Ownership.Balance.Operations.{
  Lent, enter_scope-IsSound, leave_scope-Keeps, lend-Lent, give_back_option-Keeps, expire-Keeps,
  declare_local-KeepsWith,
}
use stainless.Compiler.Ownership.Balance.Captures.{merge_many_states-HasBooks, merge_baseline-Books}
use stainless.Compiler.Ownership.Balance.Arguments.{WalkKeeps, WriteKeeps, WalkedKeeps}
use mathlib.Core.Option.{some-injective, none-ne-some}
use mathlib.Core.Path.{subst}
use stainless.Compiler.Ownership.Balance.Ends.{
  leave_scope-Ends, Ends, HasSound, HasStates, Kept-Ends, OptionWalkKeeps, PassKeeps, RunKeeps,
  anything, bind-Ends, some-Ends,
}

pub set_state-HasSound :
    (st : FlowState) (w : Walker) → HasSound w → HasBooks st → HasSound (set_state st w)
set_state-HasSound st w (held, s) (held', b) = (held', set_state-IsSound w st s b)

pub HasSound-HasBooks : (w : Walker) → HasSound w → HasBooks (state_of w)
HasSound-HasBooks w (held, s) = (held, s.books)

All-take : (P : FlowState → Type 0) (n : ℕ) (xs : List FlowState) → All P xs → All P (take n xs)
All-take P zero xs all = tt
All-take P (suc n) [] all = tt
All-take P (suc n) (x ∷ xs) (p, all) = (p, All-take P n xs all)

All-drop : (P : FlowState → Type 0) (n : ℕ) (xs : List FlowState) → All P xs → All P (drop n xs)
All-drop P zero xs all = all
All-drop P (suc n) [] all = tt
All-drop P (suc n) (x ∷ xs) (p, all) = All-drop P n xs all

abbrev HasAllExits : List LoopContext → Type 0
HasAllExits contexts = All HasExits contexts

rest-HasAllExits :
    (contexts : List LoopContext) → HasAllExits contexts → HasAllExits (drop 1 contexts)
rest-HasAllExits [] all = tt
rest-HasAllExits (c ∷ contexts) (one, all) = all

innermost-HasAllExits :
    (contexts : List LoopContext) (context : LoopContext)
    → innermost contexts ≡ some context
    → HasAllExits contexts
    → HasExits context
innermost-HasAllExits [] context e all = absurd (none-ne-some context e)
innermost-HasAllExits (c ∷ contexts) context e (one, all) =
    subst HasExits (some-injective _ _ e) one

pub enter_loop-IsSound :
    (w : Walker) {held : Held} → IsSound w held → IsSound (enter_loop w) (deeper held)
unfolding enter_loop
enter_loop-IsSound w s =
    let entered = enter_scope-IsSound w s in
    record { books = entered.books; exits = ((tt, tt), s.exits); throws = s.throws }

pub leave_loop-Keeps :
    (position : ℕ) (w : Walker) (held : Held)
    → IsSound w (deeper held)
    → Keeps held (leave_loop position w)
unfolding leave_loop
leave_loop-Keeps position w held s =
    bind-Kept (leave_scope (set_depth (λ n. n - 1) (drop_loop w))) _
      (leave_scope-Keeps (set_depth (λ n. n - 1) (drop_loop w))
        (record { books = s.books; exits = rest-HasAllExits w.loops s.exits; throws = s.throws }))
      (λ v s'. expire-Keeps position v s')

split_continues-Ends :
    (start : ℕ) (w : Walker) → HasSound w → Ends HasStates (split_continues start w)
unfolding split_continues
split_continues-Ends start w (held, s) =
    bind-Ends (innermost w.loops) _ (anything (innermost w.loops)) (λ context at _.
      let all = innermost-HasAllExits w.loops context at s.exits in
      some-Ends _ (
        (
          held,
          record {
            books = s.books;
            exits = (
              (All-take HasBooks start context.continue_states all.0, all.1),
              rest-HasAllExits w.loops s.exits,
            );
            throws = s.throws;
          },
        ),
        All-drop HasBooks start context.continue_states all.0,
      ))

pub reachable-All :
    (reachable : Bool) (st : FlowState) (states : List FlowState)
    → HasBooks st
    → All HasBooks states
    → All HasBooks (if reachable then st ∷ states else states)
reachable-All true st states h all = (h, all)
reachable-All false st states h all = all

body_pass-Ends :
    (declare_bindings : Walker → Option Walker) (run : Run)
    → WriteKeeps declare_bindings
    → RunKeeps run
    → (w : Walker) → HasSound w
    → Ends HasStates (body_pass declare_bindings run w)
unfolding body_pass
body_pass-Ends declare_bindings run d k w (held, s) =
    bind-Ends (innermost w.loops) _ (anything (innermost w.loops)) (λ context at _.
      bind-Ends (declare_bindings (enter_scope w)) _
        (Kept-Ends (d (enter_scope w) (deeper held) (enter_scope-IsSound w s)))
        (λ v at₁ s₁. bind-Ends (run v) _ (k v s₁) (λ ran at₂ s₂.
          bind-Ends (leave_scope ran.0) _ (leave_scope-Ends ran.0 s₂) (λ left at₃ s₃.
            bind-Ends (split_continues (length context.continue_states) left) _
              (split_continues-Ends (length context.continue_states) left s₃)
              (λ split at₄ s₄. some-Ends _ (
                s₄.0,
                reachable-All ran.1 (state_of left) split.1 (HasSound-HasBooks left s₃) s₄.1,
              ))))))

tail_part-Keeps : (walk : Option Walk) → OptionWalkKeeps walk → WriteKeeps (tail_part walk)
unfolding tail_part
tail_part-Keeps none k w held s = some-Kept w s
tail_part-Keeps (some walk) k w held s =
    bind-Kept (walk read w) _ (k read w held s) (λ r s'. some-Kept r.0 s')

module _ (update condition : Option Walk) (u : OptionWalkKeeps update)
    (c : OptionWalkKeeps condition) where
  loop_tail-Ends :
      (st : FlowState) (w : Walker)
      → HasSound w
      → HasBooks st
      → Ends
          (λ (r : Walker × FlowState). HasSound r.0 × HasBooks r.1)
          (loop_tail update condition st w)
  unfolding loop_tail
  loop_tail-Ends st w (held', s) (held, b) =
      bind-Ends (tail_part update (set_state st w)) _
        (Kept-Ends (tail_part-Keeps update u (set_state st w) held (set_state-IsSound w st s b)))
        (λ v at s₁.
          bind-Ends (tail_part condition v) _ (Kept-Ends (tail_part-Keeps condition c v s₁.0 s₁.1))
            (λ tested at' s₂. some-Ends _ (
              set_state-HasSound (state_of w) tested s₂ (held', s.books),
              HasSound-HasBooks tested s₂,
            )))

  each_tail-Ends :
      (states : List FlowState) (w : Walker)
      → HasSound w
      → All HasBooks states
      → Ends HasStates (each_tail update condition states w)
  unfolding each_tail loop_tail
  each_tail-Ends [] w h all = some-Ends (w, []) (h, tt)
  each_tail-Ends (st ∷ states) w h ((held, b), all) =
      bind-Ends (loop_tail update condition st w) _ (loop_tail-Ends st w h (held, b)) (λ r at p.
        bind-Ends (each_tail update condition states r.0) _ (each_tail-Ends states r.0 p.0 all)
          (λ d at' q. some-Ends _ (q.0, (p.1, q.1))))

  join_tails-Ends :
      (states : List FlowState) (w : Walker)
      → HasSound w
      → All HasBooks states
      → Ends
          (λ (r : Walker × Option FlowState). HasStates (r.0, optional_state r.1))
          (join_tails update condition states w)
  unfolding join_tails
  join_tails-Ends [] w h all = some-Ends (w, none) (h, tt)
  join_tails-Ends (st ∷ states) w h all =
      bind-Ends (each_tail update condition (st ∷ states) w) _
        (each_tail-Ends (st ∷ states) w h all)
        (λ r at p.
          bind-Ends (merge_many_states st r.1) _ (anything (merge_many_states st r.1))
            (λ merged at' _.
              some-Ends _ (p.0, (merge_many_states-HasBooks st r.1 at' all.0 p.1, tt))))

  loop_iteration-Keeps :
      (run : Run) → RunKeeps run → PassKeeps (loop_iteration run update condition)
  unfolding loop_iteration
  loop_iteration-Keeps run k w h =
      bind-Ends (body_pass (λ v. some v) run w) _
        (body_pass-Ends (λ v. some v) run (λ v held s. some-Kept v s) k w h)
        (λ r at p. join_tails-Ends r.1 r.0 p.0 p.1)

join_passes-Ends :
    (states : List FlowState) (w : Walker)
    → HasSound w
    → All HasBooks states
    → Ends
        (λ (r : Walker × Option FlowState). HasStates (r.0, optional_state r.1))
        (join_passes states w)
unfolding join_passes
join_passes-Ends [] w h all = some-Ends (w, none) (h, tt)
join_passes-Ends (st ∷ states) w h all =
    bind-Ends (merge_many_states st (st ∷ states)) _ (anything (merge_many_states st (st ∷ states)))
      (λ merged at _.
        some-Ends _ (h, (merge_many_states-HasBooks st (st ∷ states) at all.0 all, tt)))

repeat_pass-Ends :
    (pass : Pass)
    → PassKeeps pass
    → (first : Option FlowState) (w : Walker) → HasStates (w, optional_state first)
    → Ends
        (λ (r : Walker × Option FlowState). HasStates (r.0, optional_state r.1))
        (repeat_pass pass first w)
unfolding repeat_pass
repeat_pass-Ends pass k none w (h, _) = some-Ends (w, none) (h, tt)
repeat_pass-Ends pass k (some st) w (h, all) = k (set_state st w) (set_state-HasSound st w h all.0)

run_loop-Keeps : (pass : Pass) → PassKeeps pass → WriteKeeps (run_loop pass)
unfolding run_loop
run_loop-Keeps pass k w held s = record {
  kept = λ w' e.
      let (once, at, e₁) = >>=-eq-some (pass w) _ e in
      let p = (k w (held, s)).ends once at in
      let (twice, at₁, e₂) = >>=-eq-some (repeat_pass pass once.1 once.0) _ e₁ in
      let q = (repeat_pass-Ends pass k once.1 once.0 p).ends twice at₁ in
      let (context, _, e₃) = >>=-eq-some (innermost twice.0.loops) _ e₂ in
      let (m, at₃, e₄) =
        >>=-eq-some
          (merge_many_states (state_of w) (
            state_of w
            ∷ (optional_state once.1 ++ (optional_state twice.1 ++ context.break_states))))
          _ e₃ in
      subst (λ v. IsSound v held) (some-injective _ _ e₄)
        (set_state-IsSound twice.0 m q.0.1 (merge_baseline-Books (state_of w) _ held at₃ s.books));
}

pub while_walk-Keeps :
    (condition : Walk) (run : Run) (body_end : ℕ)
    → WalkKeeps condition
    → RunKeeps run
    → WriteKeeps (while_walk condition run body_end)
unfolding while_walk
while_walk-Keeps condition run body_end c k w held s =
    bind-Kept (condition read (enter_loop w)) _
      (c read (enter_loop w) (deeper held) (enter_loop-IsSound w s))
      (λ r s₁.
        bind-Kept (run_loop (loop_iteration run none (some condition)) r.0) _
          (run_loop-Keeps (loop_iteration run none (some condition))
            (loop_iteration-Keeps none (some condition) tt c run k) r.0 (deeper held) s₁)
          (λ v s₂. leave_loop-Keeps body_end v held s₂))

pub classic_walk-Keeps :
    (condition update : Option Walk) (run : Run)
    → OptionWalkKeeps condition
    → OptionWalkKeeps update
    → RunKeeps run
    → WriteKeeps (classic_walk condition update run)
unfolding classic_walk
classic_walk-Keeps condition update run c u k w held s =
    bind-Kept (tail_part condition w) _ (tail_part-Keeps condition c w held s) (λ v s₁.
      run_loop-Keeps (loop_iteration run update condition)
        (loop_iteration-Keeps update condition u c run k) v held s₁)

declare_each-Keeps :
    (last_uses : LastUses) (bindings : List BindingResolution)
    → WriteKeeps (declare_each last_uses bindings)
unfolding declare_each
declare_each-Keeps last_uses [] w held s = some-Kept w s
declare_each-Keeps last_uses (b ∷ bindings) w held s =
    bind-Kept (declare_local last_uses b.name b.ty none b.span w) _
      (declare_local-KeepsWith last_uses b.name b.ty none b.span w s)
      (λ r s'. declare_each-Keeps last_uses bindings r.0 held s')

range_iteration-Keeps :
    (last_uses : LastUses) (bindings : List BindingResolution) (run : Run)
    → RunKeeps run
    → PassKeeps (range_iteration last_uses bindings run)
unfolding range_iteration
range_iteration-Keeps last_uses bindings run k w h =
    bind-Ends (body_pass (declare_each last_uses bindings) run w) _
      (body_pass-Ends (declare_each last_uses bindings) run (declare_each-Keeps last_uses bindings)
        k w h)
      (λ r at p. join_passes-Ends r.1 r.0 p.0 p.1)

lend_if-Lent :
    (borrowed : Bool) (from : Option ℕ) (mutable : Bool) (span : Span) (w : Walker) {held : Held}
    → IsSound w held
    → Lent held (lend_if borrowed from mutable span w)
unfolding lend_if
lend_if-Lent false from mutable span w s = some-Kept (w, none) s
lend_if-Lent true from mutable span w s = lend-Lent from mutable span w s

range_loop-Keeps :
    (last_uses : LastUses) (json_array moved_range : Bool) (bindings : List BindingResolution)
    (iterable : Walked) (run : Run)
    → WalkedKeeps iterable
    → RunKeeps run
    → WriteKeeps (range_loop last_uses json_array moved_range bindings iterable run)
unfolding range_loop
range_loop-Keeps last_uses json_array moved_range bindings iterable run i k w held s =
    let mutable = any (λ (b : BindingResolution). is_mutable_reference b.ty) bindings in
    let borrowed =
      not json_array
      && (any (λ (b : BindingResolution). is_reference b.ty) bindings || not moved_range) in
    bind-Kept (iterable.walk (range_usage (moved_range || json_array) mutable) w) _
      (i.walks (range_usage (moved_range || json_array) mutable) w held s)
      (λ r s₁.
        bind-Kept (lend_if borrowed r.1 mutable iterable.span r.0) _
          (lend_if-Lent borrowed r.1 mutable iterable.span r.0 s₁)
          (λ l s₂.
            bind-Kept (run_loop (range_iteration last_uses bindings run) l.0) _
              (run_loop-Keeps (range_iteration last_uses bindings run)
                (range_iteration-Keeps last_uses bindings run k) l.0 (with_loans (to_list l.1) held)
                s₂)
              (λ v s₃. give_back_option-Keeps l.1 v s₃)))

pub range_walk-Keeps :
    (semantics : SemanticModel) (last_uses : LastUses) (syntax : List RangeBinding)
    (iterable : Walked) (run : Run)
    → WalkedKeeps iterable
    → RunKeeps run
    → WriteKeeps (range_walk semantics last_uses syntax iterable run)
unfolding range_walk
range_walk-Keeps semantics last_uses syntax iterable run i k w held s =
    elim (Bool-cases (length (range_bindings semantics syntax) == length syntax)) [
      | inl resolved ↦ rw resolved (
          range_loop-Keeps last_uses (has_json_type (expression_resolution semantics iterable.span))
            (is_move (call_of semantics (expression_resolution semantics iterable.span)))
            (range_bindings semantics syntax) iterable run i k w held s)
      | inr missing ↦ rw missing (some-Kept w s)
    ]
