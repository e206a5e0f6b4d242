-- ===== src/Compiler/Ownership/Balance/Branches.antt =====
-- Branches, `try`, blocks and sequences of runs end in a sound walker where their parts do.
use stainless.Base.{
  ℕ, Bool, true, false, Option, none, some, List, [], ◌∷◌, All, ◌≡◌, inl, inr, Bool-cases,
}
use stainless.Compiler.Resolution.Model.{BindingResolution, binding}
use stainless.Compiler.Ownership.State.{FlowState, merge_states, merge_many_states}
use stainless.Compiler.Ownership.Walk.{
  Walker, ExceptionContext, LastUses, state_of, set_state, enter_scope, leave_scope, expire,
  declare_local,
}
use stainless.Compiler.Ownership.Walk.Loops.{Run}
use stainless.Compiler.Ownership.Walk.Statements.{
  Branch, branch, declare_option, block_branch, join_branches, else_walk, if_walk, each_handler,
  pop_exception_states, pop_exception_in, push_exception, join_continuing, reachable_first,
  try_walk, scoped, followed_by,
}
use stainless.Compiler.Ownership.Balance.{Held, deeper, HasBooks, IsSound, some-Kept}
use stainless.Compiler.Ownership.Balance.Operations.{
  enter_scope-IsSound, expire-Keeps, declare_local-KeepsWith,
}
use stainless.Compiler.Ownership.Balance.Captures.{merge_many_states-HasBooks}
use stainless.Compiler.Ownership.Balance.States.{merge_states-Books}
use stainless.Compiler.Ownership.Balance.Arguments.{WriteKeeps}
use stainless.Compiler.Ownership.Balance.Receivers.{drop-Kept}
use stainless.Compiler.Ownership.Balance.Loops.{
  set_state-HasSound, HasSound-HasBooks, reachable-All,
}
use stainless.Compiler.Ownership.Balance.Ends.{
  leave_scope-Ends, HasSound, Ends, some-Ends, bind-Ends, Kept-Ends, anything, RunKeeps, HasStates,
}
use mathlib.Core.Option.{none-ne-some}

abbrev pub BranchKeeps : Branch → Type 0
BranchKeeps b =
    (st : FlowState)
    → HasBooks st
    → (w : Walker) → HasSound w
    → Ends (λ r. HasSound r.0 × HasBooks r.1.0) (b st w)

abbrev pub OptionBranchKeeps : Option Branch → Type 0
OptionBranchKeeps none = Unit
OptionBranchKeeps (some b) = BranchKeeps b

enter-HasSound :
    (st : FlowState) (w : Walker)
    → HasBooks st
    → HasSound w
    → HasSound (enter_scope (set_state st w))
enter-HasSound st w b h =
    let (held, s) = set_state-HasSound st w h b in
    (deeper held, enter_scope-IsSound (set_state st w) s)

pub branch-Keeps : (run : Run) (end : ℕ) → RunKeeps run → BranchKeeps (branch run end)
unfolding branch
branch-Keeps run end k st b w h =
    bind-Ends (run (enter_scope (set_state st w))) _
      (k (enter_scope (set_state st w)) (enter-HasSound st w b h))
      (λ ran at s₁.
        bind-Ends (expire end ran.0) _ (Kept-Ends (expire-Keeps end ran.0 s₁.1)) (λ expired at₁ s₂.
          bind-Ends (leave_scope expired) _ (leave_scope-Ends expired s₂) (λ left at₂ s₃.
            some-Ends _ (
              set_state-HasSound (state_of w) left s₃ (HasSound-HasBooks w h),
              HasSound-HasBooks left s₃,
            ))))

declare_option-Keeps :
    (last_uses : LastUses) (b : Option BindingResolution) → WriteKeeps (declare_option last_uses b)
unfolding declare_option
declare_option-Keeps last_uses none w held s = some-Kept w s
declare_option-Keeps last_uses (some b) w held s =
    drop-Kept (declare_local last_uses b.name b.ty none b.span w)
      (declare_local-KeepsWith last_uses b.name b.ty none b.span w s)

pub block_branch-Keeps :
    (last_uses : LastUses) (binding : Option BindingResolution) (run : Run)
    → RunKeeps run
    → BranchKeeps (block_branch last_uses binding run)
unfolding block_branch
block_branch-Keeps last_uses binding run k st b w h =
    let (held, s) = enter-HasSound st w b h in
    bind-Ends (declare_option last_uses binding (enter_scope (set_state st w))) _
      (Kept-Ends (declare_option-Keeps last_uses binding (enter_scope (set_state st w)) held s))
      (λ declared at s₁. bind-Ends (run declared) _ (k declared s₁) (λ ran at₁ s₂.
        bind-Ends (leave_scope ran.0) _ (leave_scope-Ends ran.0 s₂) (λ left at₂ s₃. some-Ends _ (
          set_state-HasSound (state_of w) left s₃ (HasSound-HasBooks w h),
          HasSound-HasBooks left s₃,
        ))))

merge_states-HasBooks :
    (baseline l r m : FlowState)
    → merge_states baseline l r ≡ some m
    → HasBooks baseline
    → HasBooks m
merge_states-HasBooks baseline l r m at (held, b) =
    (held, merge_states-Books baseline l r m held at b)

join_branches-Ends :
    (baseline : FlowState) (one other : FlowState × Bool) (w : Walker)
    → HasBooks baseline
    → HasBooks one.0
    → HasBooks other.0
    → HasSound w
    → Ends (λ (r : Walker × Bool). HasSound r.0) (join_branches baseline one other w)
unfolding join_branches
join_branches-Ends baseline (one, true) (other, true) w b p q h =
    bind-Ends (merge_states baseline one other) _ (anything (merge_states baseline one other))
      (λ m at _.
        some-Ends _ (set_state-HasSound m w h (merge_states-HasBooks baseline one other m at b)))
join_branches-Ends baseline (one, true) (other, false) w b p q h =
    some-Ends _ (set_state-HasSound one w h p)
join_branches-Ends baseline (one, false) (other, true) w b p q h =
    some-Ends _ (set_state-HasSound other w h q)
join_branches-Ends baseline (one, false) (other, false) w b p q h =
    some-Ends _ (set_state-HasSound baseline w h b)

else_walk-Keeps : (b : Option Branch) → OptionBranchKeeps b → BranchKeeps (else_walk b)
unfolding else_walk
else_walk-Keeps none k st b w h = some-Ends _ (h, b)
else_walk-Keeps (some other) k st b w h = k st b w h

pub if_walk-Keeps :
    (then_branch : Branch) (else_branch : Option Branch)
    → BranchKeeps then_branch
    → OptionBranchKeeps else_branch
    → RunKeeps (if_walk then_branch else_branch)
unfolding if_walk
if_walk-Keeps then_branch else_branch k k' w h =
    let b = HasSound-HasBooks w h in
    bind-Ends (then_branch (state_of w) w) _ (k (state_of w) b w h) (λ r at p.
      bind-Ends (else_walk else_branch (state_of w) r.0) _
        (else_walk-Keeps else_branch k' (state_of w) b r.0 p.0)
        (λ r' at' q. join_branches-Ends (state_of w) r.1 r'.1 r'.0 b p.1 q.1 q.0))

each_handler-Ends :
    (handlers : List Branch)
    → All BranchKeeps handlers
    → (baseline : FlowState) → HasBooks baseline
    → (w : Walker) → HasSound w
    → Ends HasStates (each_handler handlers baseline w)
unfolding each_handler
each_handler-Ends [] k baseline b w h = some-Ends (w, []) (h, tt)
each_handler-Ends (handler ∷ handlers) (one, k) baseline b w h =
    bind-Ends (handler baseline w) _ (one baseline b w h) (λ r at p.
      bind-Ends (each_handler handlers baseline r.0) _
        (each_handler-Ends handlers k baseline b r.0 p.0)
        (λ d at' q. some-Ends _ (q.0, reachable-All r.1.1 r.1.0 d.1 p.1 q.1)))

push_exception-IsSound :
    (w : Walker) {held : Held} → IsSound w held → IsSound (push_exception w) held
push_exception-IsSound w s = record { books = s.books; exits = s.exits; throws = (tt, s.throws) }

-- The innermost context, taken off, with the states that were captured in it.
pop_exception_in-Ends :
    (contexts : List ExceptionContext) (w : Walker) {held : Held}
    → IsSound w held
    → All (λ (c : ExceptionContext). All HasBooks c.states) contexts
    → Ends HasStates (pop_exception_in contexts w)
unfolding pop_exception_in
pop_exception_in-Ends [] w s all = record { ends = λ r e. absurd (none-ne-some r e) }
pop_exception_in-Ends (context ∷ contexts) w {held} s (one, all) =
    some-Ends _ ((held, record { books = s.books; exits = s.exits; throws = all }), one)

join_continuing-Ends :
    (baseline : FlowState) (states : List FlowState) (w : Walker)
    → HasBooks baseline
    → All HasBooks states
    → HasSound w
    → Ends (λ (r : Walker × Bool). HasSound r.0) (join_continuing baseline states w)
unfolding join_continuing
join_continuing-Ends baseline [] w b all h = some-Ends _ (set_state-HasSound baseline w h b)
join_continuing-Ends baseline (st ∷ states) w b all h =
    bind-Ends (merge_many_states baseline (st ∷ states)) _
      (anything (merge_many_states baseline (st ∷ states)))
      (λ m at _.
        some-Ends _
          (set_state-HasSound m w h (merge_many_states-HasBooks baseline (st ∷ states) at b all)))

reachable_first-All :
    (outcome : FlowState × Bool) (states : List FlowState)
    → HasBooks outcome.0
    → All HasBooks states
    → All HasBooks (reachable_first outcome states)
reachable_first-All (st, true) states b all = (b, all)
reachable_first-All (st, false) states b all = all

pub try_walk-Keeps :
    (last_uses : LastUses) (body : Run) (handlers : List Branch)
    → RunKeeps body
    → All BranchKeeps handlers
    → RunKeeps (try_walk last_uses body handlers)
unfolding try_walk
try_walk-Keeps last_uses body handlers k all w (held, s) =
    let b = HasSound-HasBooks w (held, s) in
    bind-Ends (block_branch last_uses none body (state_of w) (push_exception w)) _
      (block_branch-Keeps last_uses none body k (state_of w) b (push_exception w)
        (held, push_exception-IsSound w s))
      (λ tried at p.
        bind-Ends (pop_exception_states tried.0) _
          (pop_exception_in-Ends tried.0.exceptions tried.0 p.0.1 p.0.1.throws)
          (λ popped at₁ q.
            bind-Ends (merge_many_states (state_of w) popped.1) _
              (anything (merge_many_states (state_of w) popped.1))
              (λ baseline at₂ _.
                bind-Ends (each_handler handlers baseline popped.0) _
                  (each_handler-Ends handlers all baseline
                    (merge_many_states-HasBooks (state_of w) popped.1 at₂ b q.1) popped.0 q.0)
                  (λ handled at₃ r.
                    join_continuing-Ends (state_of w) (reachable_first tried.1 handled.1) handled.0
                      b (reachable_first-All tried.1 handled.1 p.1 r.1) r.0))))

pub scoped-Keeps : (run : Run) → RunKeeps run → RunKeeps (scoped run)
unfolding scoped
scoped-Keeps run k w (held, s) =
    bind-Ends (run (enter_scope w)) _ (k (enter_scope w) (deeper held, enter_scope-IsSound w s))
      (λ ran at s₁.
        bind-Ends (leave_scope ran.0) _ (leave_scope-Ends ran.0 s₁) (λ left at₁ s₂. some-Ends _ s₂))

pub followed_by-Keeps :
    (run : Run) (end : ℕ) (rest : Run)
    → RunKeeps run
    → RunKeeps rest
    → RunKeeps (followed_by run end rest)
unfolding followed_by
followed_by-Keeps run end rest k k' w h = bind-Ends (run w) _ (k w h) (λ ran at s₁.
    bind-Ends (expire end ran.0) _ (Kept-Ends (expire-Keeps end ran.0 s₁.1)) (λ expired at₁ s₂.
      elim (Bool-cases ran.1) [
        | inl reachable ↦ rw reachable (k' expired s₂)
        | inr unreachable ↦ rw unreachable (some-Ends _ s₂)
      ]))
