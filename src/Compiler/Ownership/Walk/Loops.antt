-- ===== src/Compiler/Ownership/Walk/Loops.antt =====
-- The loops of crates/stainless-compiler/src/ownership.rs. A body is walked a second time from the
-- state that its first walk leaves, and the states of all ways out are joined.
use stainless.Base.{
  ℕ, ◌+◌, ◌-◌, if◌then◌else◌, Bool, true, false, not, ◌&&◌, ◌||◌, Option, none, some, List, [], ◌∷◌,
  ◌++◌, length, take, drop, ◌>>=◌, any, ◌==◌,
}
use stainless.Compiler.Diagnostic.{Span}
use stainless.Compiler.Types.{is_reference}
use stainless.Compiler.Syntax.Statements.{RangeBinding}
use stainless.Compiler.Resolution.Calls.{ResolvedCall, resolved_call, intrinsic, Intrinsic}
use stainless.Compiler.Resolution.Model.{
  SemanticModel, BindingResolution, binding, expression_resolution,
}
use stainless.Compiler.Ownership.State.{FlowState, Loan, merge_many_states}
use stainless.Compiler.Ownership.Analyzer.{Usage, read, borrow_shared, borrow_mutable}
use stainless.Compiler.Ownership.Walk.{
  Walker, LoopContext, LastUses, state_of, set_state, enter_scope, leave_scope, lend,
  give_back_option, expire, declare_local,
}
use stainless.Compiler.Ownership.Walk.Arguments.{Walk, Walked, is_mutable_reference}
use stainless.Compiler.Ownership.Walk.Calls.{call_of}
use stainless.Compiler.Ownership.Walk.Expressions.{has_json_type}

abbrev pub Run : Type 0
Run = Walker → Option (Walker × Bool)

-- `self.loops.last()`
abbrev pub innermost : List LoopContext → Option LoopContext
innermost [] = none
innermost (context ∷ contexts) = some context

abbrev pub drop_loop : Walker → Walker
drop_loop w = record w { loops = drop 1 w.loops }

abbrev pub set_depth : (ℕ → ℕ) → Walker → Walker
set_depth f w = record w { analyzer = record w.analyzer { loop_depth = f w.analyzer.loop_depth } }

-- What the three loops do before and after.
unfoldable pub enter_loop : Walker → Walker
enter_loop w =
    let entered = set_depth (λ n. n + 1) (enter_scope w) in
    let context : LoopContext = record {
      scope_depth = length (state_of entered).scopes;
      break_states = [];
      continue_states = [];
    } in
    record entered { loops = context ∷ entered.loops }

unfoldable pub leave_loop : (position : ℕ) → Walker → Option Walker
leave_loop position w =
    leave_scope (set_depth (λ n. n - 1) (drop_loop w)) >>= λ left. expire position left

-- `continue_states.split_off(continue_start)`
unfoldable pub split_continues : ℕ → Walker → Option (Walker × List FlowState)
split_continues start w = do
  context ← innermost w.loops
  let kept = record context { continue_states = take start context.continue_states }
  some (record w { loops = kept ∷ drop 1 w.loops }, drop start context.continue_states)

-- A pass over the body: the states from which the next pass starts, before the loop's tail.
unfoldable pub body_pass :
    (Walker → Option Walker) → Run → Walker → Option (Walker × List FlowState)
body_pass declare_bindings run w = do
  context ← innermost w.loops
  declared ← declare_bindings (enter_scope w)
  (ran, reachable) ← run declared
  left ← leave_scope ran
  (split, continues) ← split_continues (length context.continue_states) left
  some (split, (if reachable then state_of left ∷ continues else continues))

unfoldable pub tail_part : Option Walk → Walker → Option Walker
tail_part none w = some w
tail_part (some walk) w = walk read w >>= λ r. some r.0

-- `analyze_loop_tail`
unfoldable pub loop_tail :
    (update condition : Option Walk) → FlowState → Walker → Option (Walker × FlowState)
loop_tail update condition st w = do
  updated ← tail_part update (set_state st w)
  tested ← tail_part condition updated
  some (set_state (state_of w) tested, state_of tested)

unfoldable pub each_tail :
    (update condition : Option Walk) → List FlowState → Walker → Option (Walker × List FlowState)
each_tail update condition [] w = some (w, [])
each_tail update condition (st ∷ states) w = do
  (tested, after) ← loop_tail update condition st w
  (done, rest) ← each_tail update condition states tested
  some (done, after ∷ rest)

abbrev pub Pass : Type 0
Pass = Walker → Option (Walker × Option FlowState)

unfoldable pub join_tails :
    (update condition : Option Walk) → List FlowState → Walker → Option (Walker × Option FlowState)
join_tails update condition [] w = some (w, none)
join_tails update condition (st ∷ states) w = do
  (tested, continuing) ← each_tail update condition (st ∷ states) w
  merged ← merge_many_states st continuing
  some (tested, some merged)

unfoldable pub loop_iteration : Run → (update condition : Option Walk) → Pass
loop_iteration run update condition w = do
  (passed, continuing) ← body_pass (λ v. some v) run w
  join_tails update condition continuing passed

unfoldable pub join_passes : List FlowState → Walker → Option (Walker × Option FlowState)
join_passes [] w = some (w, none)
join_passes (st ∷ states) w = do merged ← merge_many_states st (st ∷ states); some (w, some merged)

unfoldable pub repeat_pass : Pass → Option FlowState → Walker → Option (Walker × Option FlowState)
repeat_pass pass none w = some (w, none)
repeat_pass pass (some st) w = pass (set_state st w)

abbrev pub optional_state : Option FlowState → List FlowState
optional_state none = []
optional_state (some st) = st ∷ []

-- Two passes over the body, and the join of all exits.
unfoldable pub run_loop : Pass → Walker → Option Walker
run_loop pass w = do
  (once, first) ← pass w
  (twice, repeated) ← repeat_pass pass first once
  context ← innermost twice.loops
  merged ←
      merge_many_states (state_of w)
        (state_of w ∷ (optional_state first ++ (optional_state repeated ++ context.break_states)))
  some (set_state merged twice)

unfoldable pub while_walk : Walk → Run → (body_end : ℕ) → Walker → Option Walker
while_walk condition run body_end w = do
  (tested, _) ← condition read (enter_loop w)
  looped ← run_loop (loop_iteration run none (some condition)) tested
  leave_loop body_end looped

-- `classic_for` after its initializer.
unfoldable pub classic_walk : (condition update : Option Walk) → Run → Walker → Option Walker
classic_walk condition update run w = do
  tested ← tail_part condition w
  run_loop (loop_iteration run update condition) tested

unfoldable pub declare_each : LastUses → List BindingResolution → Walker → Option Walker
declare_each last_uses [] w = some w
declare_each last_uses (b ∷ bindings) w = do
  (declared, _) ← declare_local last_uses b.name b.ty none b.span w
  declare_each last_uses bindings declared

unfoldable pub range_iteration : LastUses → List BindingResolution → Run → Pass
range_iteration last_uses bindings run w = do
  (passed, continuing) ← body_pass (declare_each last_uses bindings) run w
  join_passes continuing passed

-- `filter_map`
abbrev pub append_option {ℓ} : {A : Type ℓ} → Option A → List A → List A
append_option none rest = rest
append_option (some a) rest = a ∷ rest

abbrev pub is_move : Option ResolvedCall → Bool
is_move (some (resolved_call _ (intrinsic Intrinsic.move) _ _)) = true
is_move _ = false

unfoldable pub lend_if : Bool → Option ℕ → Bool → Span → Walker → Option (Walker × Option Loan)
lend_if false origin mutable span w = some (w, none)
lend_if true origin mutable span w = lend origin mutable span w

abbrev pub range_usage : (by_value mutable : Bool) → Usage
range_usage true mutable = read
range_usage false true = borrow_mutable
range_usage false false = borrow_shared

unfoldable pub range_loop :
    LastUses
    → (json_array moved_range : Bool) → List BindingResolution
    → Walked
    → Run
    → Walker
    → Option Walker
range_loop last_uses json_array moved_range bindings iterable run w =
    let mutable = any (λ (b : BindingResolution). is_mutable_reference b.ty) bindings in
    let borrowed =
      not json_array
      && (any (λ (b : BindingResolution). is_reference b.ty) bindings || not moved_range) in
    do
      (read_range, from) ← iterable.walk (range_usage (moved_range || json_array) mutable) w
      (lent, loan) ← lend_if borrowed from mutable iterable.span read_range
      looped ← run_loop (range_iteration last_uses bindings run) lent
      give_back_option loan looped

module _ (semantics : SemanticModel) where
  abbrev pub range_bindings : List RangeBinding → List BindingResolution
  range_bindings [] = []
  range_bindings (syntax ∷ rest) =
      append_option (binding semantics syntax.span) (range_bindings rest)

  unfoldable pub range_walk : LastUses → List RangeBinding → Walked → Run → Walker → Option Walker
  range_walk last_uses syntax iterable run w =
      let resolution = expression_resolution semantics iterable.span in
      if length (range_bindings syntax) == length syntax
      then range_loop last_uses (has_json_type resolution) (is_move (call_of semantics resolution))
          (range_bindings syntax) iterable run w
      else some w
