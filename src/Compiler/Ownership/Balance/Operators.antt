-- ===== src/Compiler/Ownership/Balance/Operators.antt =====
-- The walks that expressions are put together from keep the books.
use stainless.Base.{
  ℕ, Bool, true, false, Option, none, some, List, [], ◌∷◌, All, ◌>>=◌, >>=-eq-some, ◌≡◌,
}
use stainless.Compiler.Diagnostic.{Span}
use stainless.Compiler.Ownership.State.{FlowState, merge_states, merge_many_states}
use stainless.Compiler.Ownership.Analyzer.{Usage, read, mutate, borrow_mutable}
use stainless.Compiler.Ownership.Balance.States.{merge_states-Books}
use stainless.Compiler.Ownership.Walk.{Walker, state_of, set_state, use_binding, give_back_all}
use stainless.Compiler.Ownership.Walk.Arguments.{Walk, Walked, CallbackWalk, read_each}
use stainless.Compiler.Ownership.Walk.Expressions.{
  no_binding, plain, use_origin, each_arm, switch_walk, logical_walk, both_walk, write_macro_walk,
  macro_walk, index_walk, lambda_walk, write_name,
}
use stainless.Compiler.Ownership.Balance.{
  Held, Books, IsSound, KeepsWith, some-Kept, bind-Kept, set_state-IsSound,
}
use stainless.Compiler.Ownership.Balance.Operations.{use_binding-Keeps, give_back_all-Keeps}
use stainless.Compiler.Ownership.Balance.Captures.{
  capture_exception_state-Keeps, write_binding-Keeps, merge_many_states-Books,
}
use stainless.Compiler.Ownership.Balance.Arguments.{
  WalkKeeps, WriteKeeps, CallbackKeeps, WalkedKeeps, read_each-Keeps,
}
use stainless.Compiler.Ownership.Balance.Receivers.{map-Kept, with-Kept, drop-Kept}
use mathlib.Core.Option.{some-injective}
use mathlib.Core.Path.{subst}

pub no_callback : CallbackKeeps (λ w. some (w, []))
no_callback w held s = some-Kept (w, []) s

pub discards :
    (walk : Walk) (usage : Usage)
    → WalkKeeps walk
    → WriteKeeps (λ w. walk usage w >>= λ r. some r.0)
discards walk usage k w held s = drop-Kept (walk usage w) (k usage w held s)

pub plain-Keeps : (span : Span) (walk : Walk) → WalkKeeps walk → WalkedKeeps (plain span walk)
plain-Keeps span walk k = record {
  walks = k;
  writes = discards walk mutate k;
  calls_back = no_callback;
}

-- A walk that only changes the walker.
pub silent-Keeps :
    (run : Usage → Walker → Option Walker)
    → ((usage : Usage) → WriteKeeps (run usage))
    → WalkKeeps (λ usage w. no_binding (run usage w))
silent-Keeps run k usage w held s = with-Kept none (run usage w) (k usage w held s)

pub use_origin-Keeps :
    (id : Option ℕ) (usage : Usage) (span : Span) (w : Walker) (held : Held)
    → IsSound w held
    → KeepsWith held (use_origin id usage span w)
unfolding use_origin
use_origin-Keeps none usage span w held s = some-Kept (w, none) s
use_origin-Keeps (some id) usage span w held s =
    with-Kept (some id) (use_binding id usage span w) (use_binding-Keeps id usage span w s)

each_arm-Kept :
    (arms : List Walk)
    → All WalkKeeps arms
    → (baseline : FlowState) (usage : Usage) (w : Walker) (held : Held) → Books baseline held
    → IsSound w held
    → (r : Walker × List FlowState) → each_arm arms baseline usage w ≡ some r
    → IsSound r.0 held × All (λ st. Books st held) r.1
unfolding each_arm
each_arm-Kept [] k baseline usage w held b s r e =
    subst (λ (r : Walker × List FlowState). IsSound r.0 held × All (λ st. Books st held) r.1)
      (some-injective _ _ e) (s, tt)
each_arm-Kept (arm ∷ arms) (one, k) baseline usage w held b s r e =
    let (v, at, e₁) = >>=-eq-some (arm usage (set_state baseline w)) _ e in
    let (d, at', e₂) = >>=-eq-some (each_arm arms baseline usage v.0) _ e₁ in
    let s' = (one usage (set_state baseline w) held (set_state-IsSound w baseline s b)).kept v at in
    let (s'', all) = each_arm-Kept arms k baseline usage v.0 held b s' d at' in
    subst (λ (r : Walker × List FlowState). IsSound r.0 held × All (λ st. Books st held) r.1)
      (some-injective _ _ e₂) (s'', (s'.books, all))

pub switch_walk-Keeps :
    (scrutinee : Walk) (arms : List Walk)
    → WalkKeeps scrutinee
    → All WalkKeeps arms
    → WalkKeeps (switch_walk scrutinee arms)
unfolding switch_walk
switch_walk-Keeps scrutinee arms k all usage w held s = record {
  kept = λ r e.
      let (v, at, e₁) = >>=-eq-some (scrutinee read w) _ e in
      let s' = (k read w held s).kept v at in
      let (d, at', e₂) = >>=-eq-some (each_arm arms (state_of v.0) usage v.0) _ e₁ in
      let (s'', states) = each_arm-Kept arms all (state_of v.0) usage v.0 held s'.books s' d at' in
      let (m, at'', e₃) = >>=-eq-some (merge_many_states (state_of v.0) d.1) _ e₂ in
      subst (λ (r : Walker × Option ℕ). IsSound r.0 held) (some-injective _ _ e₃)
        (set_state-IsSound d.0 m s''
          (merge_many_states-Books (state_of v.0) d.1 held at'' s'.books states));
}

pub logical_walk-Keeps :
    (left right : Walk) → WalkKeeps left → WalkKeeps right → WriteKeeps (logical_walk left right)
unfolding logical_walk
logical_walk-Keeps left right l r w held s = record {
  kept = λ w' e.
      let (before, at, e₁) = >>=-eq-some (left read w) _ e in
      let s' = (l read w held s).kept before at in
      let (after, at', e₂) = >>=-eq-some (right read before.0) _ e₁ in
      let s'' = (r read before.0 held s').kept after at' in
      let (m, at'', e₃) =
        >>=-eq-some (merge_states (state_of before.0) (state_of before.0) (state_of after.0)) _
          e₂ in
      subst (λ v. IsSound v held) (some-injective _ _ e₃)
        (set_state-IsSound after.0 m s'' (
          merge_states-Books (state_of before.0) (state_of before.0) (state_of after.0) m held at''
            s'.books));
}

pub both_walk-Keeps :
    (one : Walk) (usage : Usage) (other : Walk) (usage' : Usage)
    → WalkKeeps one
    → WalkKeeps other
    → WriteKeeps (both_walk one usage other usage')
unfolding both_walk
both_walk-Keeps one usage other usage' k k' w held s =
    bind-Kept (one usage w) _ (k usage w held s) (λ r s'. discards other usage' k' r.0 held s')

pub macro_walk-Keeps :
    (is_write : Bool) (arguments : List Walked)
    → All WalkedKeeps arguments
    → WriteKeeps (macro_walk is_write arguments)
unfolding macro_walk write_macro_walk
macro_walk-Keeps true [] k w held s = capture_exception_state-Keeps w s
macro_walk-Keeps true (destination ∷ arguments) (one, k) w held s =
    bind-Kept (destination.walk borrow_mutable w) _ (one.walks borrow_mutable w held s) (λ r s'.
      bind-Kept (read_each arguments r.0) _ (read_each-Keeps arguments k r.0 held s')
        (λ v s''. capture_exception_state-Keeps v s''))
macro_walk-Keeps false arguments k w held s = read_each-Keeps arguments k w held s

pub index_walk-Keeps :
    (receiver place : Walk)
    → WalkKeeps receiver
    → WalkKeeps place
    → WalkKeeps (index_walk receiver place)
unfolding index_walk
index_walk-Keeps receiver place k k' usage w held s =
    bind-Kept (receiver usage w) _ (k usage w held s)
      (λ r s'. map-Kept (λ _. r.1) (place read r.0) (k' read r.0 held s'))

pub lambda_walk-Keeps :
    (callback : CallbackWalk) → CallbackKeeps callback → WalkKeeps (lambda_walk callback)
unfolding lambda_walk
lambda_walk-Keeps callback k usage w held s =
    bind-Kept (callback w) _ (k w held s)
      (λ r s'. with-Kept none (give_back_all r.1 r.0) (give_back_all-Keeps r.1 r.0 s'))

pub write_name-Keeps :
    (id : Option ℕ) (span : Span) (walk : Walk)
    → WalkKeeps walk
    → WriteKeeps (write_name id span walk)
unfolding write_name
write_name-Keeps none span walk k w held s = discards walk mutate k w held s
write_name-Keeps (some id) span walk k w held s = write_binding-Keeps id span w s
