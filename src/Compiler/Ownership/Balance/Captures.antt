-- ===== src/Compiler/Ownership/Balance/Captures.antt =====
-- Captured states, joins, and the checks of writes and returns keep the books.
use stainless.Base.{
  ℕ, if◌then◌else◌, ◌≡◌, refl, sym, ◌∙◌, inl, inr, Bool, true, false, ◌==◌, Option, none, some,
  List, [], ◌∷◌, ◌++◌, get_elem?, modify, All, ◌>>=◌, >>=-eq-some, Bool-cases,
}
use stainless.Compiler.Diagnostic.{Span}
use stainless.Compiler.Types.{is_reference}
use stainless.Compiler.Ownership.State.{
  FlowState, available, merge_states, merge_from, merge_many_states, root_origin,
}
use stainless.Compiler.Ownership.Analyzer.{
  mutate, Analyzer, push, set_bindings, check_borrow_conflict, validate_reference_return,
  no_single_reference_parameter, not_from_declared_borrow, not_from_reference_parameter,
}
use stainless.Compiler.Ownership.Checks.{push-state, check_borrow_conflict_cases}
use stainless.Compiler.Ownership.Accounting.Single.{modify-IsBalanced}
use stainless.Compiler.Ownership.Balance.States.{merge_states-Books}
use stainless.Compiler.Ownership.Walk.{
  Walker, LoopContext, ExceptionContext, state_of, pop_scopes_to, capture_in, capture_into,
  capture_exception_state, capture_exception_if, capture_loop_exit, capture_loop_exit_in,
  write_binding,
}
use stainless.Compiler.Ownership.Walk.Statements.{validate_return_if}
use stainless.Compiler.Ownership.Balance.{
  HasExits, Held, Books, HasBooks, IsSound, Keeps, some-Kept, set_analyzer-IsSound,
}
use stainless.Compiler.Ownership.Balance.Operations.{
  on_analyzer-Keeps, use_binding-Keeps, pop_scopes_to-HasBooks,
}
use mathlib.Core.Option.{some-injective}
use mathlib.Core.Path.{subst}

pub All-append {ℓ κ} :
    {A : Type ℓ} (P : A → Type κ) (xs ys : List A) → All P xs → All P ys → All P (xs ++ ys)
All-append P [] ys all rest = rest
All-append P (x ∷ xs) ys (p, all) rest = (p, All-append P xs ys all rest)

capture_in-All :
    (st : FlowState) (contexts : List ExceptionContext) {captured : List ExceptionContext}
    → capture_in st contexts ≡ some captured
    → HasBooks st
    → All (λ (c : ExceptionContext). All HasBooks c.states) contexts
    → All (λ (c : ExceptionContext). All HasBooks c.states) captured
unfolding capture_in
capture_in-All st [] e h all =
    subst (All (λ (c : ExceptionContext). All HasBooks c.states)) (some-injective _ _ e) tt
capture_in-All st (context ∷ contexts) e h (first, rest) =
    let (popped, at, e₁) = >>=-eq-some (pop_scopes_to st.scopes context.scope_depth st) _ e in
    let (others, at', e₂) = >>=-eq-some (capture_in st contexts) _ e₁ in
    subst (All (λ (c : ExceptionContext). All HasBooks c.states)) (some-injective _ _ e₂) (
      All-append HasBooks context.states (popped ∷ []) first
          (pop_scopes_to-HasBooks st.scopes context.scope_depth st at h, tt),
      capture_in-All st contexts at' h rest,
    )

pub capture_exception_state-Keeps :
    (w : Walker) {held : Held} → IsSound w held → Keeps held (capture_exception_state w)
unfolding capture_exception_state
capture_exception_state-Keeps w {held} s = record {
  kept = λ w' e.
      let (captured, at, done) = >>=-eq-some (capture_in (state_of w) w.exceptions) _ e in
      subst (λ v. IsSound v held) (some-injective _ _ done)
        (record {
          books = s.books;
          exits = s.exits;
          throws = capture_in-All (state_of w) w.exceptions at (held, s.books) s.throws;
        });
}

pub capture_exception_if-Keeps :
    (throws : Bool) (w : Walker) {held : Held}
    → IsSound w held
    → Keeps held (capture_exception_if throws w)
unfolding capture_exception_if
capture_exception_if-Keeps true w s = capture_exception_state-Keeps w s
capture_exception_if-Keeps false w s = some-Kept w s

capture_into-All :
    (is_continue : Bool) (st : FlowState) (context : LoopContext)
    → HasBooks st
    → HasExits context
    → HasExits (capture_into is_continue st context)
capture_into-All true st context h (continues, breaks) =
    (All-append HasBooks context.continue_states (st ∷ []) continues (h, tt), breaks)
capture_into-All false st context h (continues, breaks) =
    (continues, All-append HasBooks context.break_states (st ∷ []) breaks (h, tt))

capture_loop_exit_in-Keeps :
    (is_continue : Bool) (contexts : List LoopContext) (w : Walker) {held : Held}
    → All HasExits contexts
    → IsSound w held
    → Keeps held (capture_loop_exit_in is_continue contexts w)
unfolding capture_loop_exit_in
capture_loop_exit_in-Keeps is_continue [] w all s = some-Kept w s
capture_loop_exit_in-Keeps is_continue (context ∷ contexts) w {held} (first, rest) s = record {
  kept = λ w' e.
      let (popped, at, done) =
        >>=-eq-some (pop_scopes_to (state_of w).scopes context.scope_depth (state_of w)) _ e in
      let has =
        pop_scopes_to-HasBooks (state_of w).scopes context.scope_depth (state_of w) at
          (held, s.books) in
      subst (λ v. IsSound v held) (some-injective _ _ done)
        (record {
          books = s.books;
          exits = (capture_into-All is_continue popped context has first, rest);
          throws = s.throws;
        });
}

pub capture_loop_exit-Keeps :
    (is_continue : Bool) (w : Walker) {held : Held}
    → IsSound w held
    → Keeps held (capture_loop_exit is_continue w)
unfolding capture_loop_exit
capture_loop_exit-Keeps is_continue w s = capture_loop_exit_in-Keeps is_continue w.loops w s.exits s

write_if-Books :
    (id : ℕ) (span : Span) (a a' : Analyzer) (free : Bool) (held : Held)
    → check_borrow_conflict id mutate span a ≡ some (a', free)
    → Books a.state held
    → Books
        (if free
          then set_bindings
              (modify a'.state.bindings id (λ c. record c { availability = available }))
              a'
          else a').state
        held
write_if-Books id span a a' true held at v =
    let (b, here, _, same) = check_borrow_conflict_cases id mutate span a a' true at in
    subst
      (λ (st : FlowState).
        Books
          (record st {
            bindings = modify st.bindings id (λ c. record c { availability = available });
          })
          held)
      (sym same)
      (
        modify-IsBalanced a.state.bindings held.0 id (λ c. record c { availability = available }) b
            here refl (λ m o. refl) refl refl v.0,
        v.1,
      )
write_if-Books id span a a' false held at v =
    let (b, here, _, same) = check_borrow_conflict_cases id mutate span a a' false at in
    subst (λ st. Books st held) (sym same) v

pub write_binding-Keeps :
    (id : ℕ) (span : Span) (w : Walker) {held : Held}
    → IsSound w held
    → Keeps held (write_binding id span w)
unfolding write_binding
write_binding-Keeps id span w {held} s = record {
  kept = λ w' e.
      let (b, at, h) = >>=-eq-some (get_elem? (state_of w).bindings id) _ e in
      elim (Bool-cases (is_reference b.ty)) [
        | inl by_reference ↦ (use_binding-Keeps id mutate span w s).kept w' (rw by_reference at h)
        | inr by_value ↦
            let ((a, free), at', done) =
              >>=-eq-some (check_borrow_conflict id mutate span w.analyzer) _ (rw by_value at h) in
            subst (λ v. IsSound v held) (some-injective _ _ done)
              (set_analyzer-IsSound w _ s
                (write_if-Books id span w.analyzer a free held at' s.books))
      ];
}

-- The verdict on the root of a returned reference, given the one that is expected.
abbrev root_verdict : (found expected : ℕ) → Span → Analyzer → Analyzer
root_verdict found expected span a =
    if found == expected then a else push "OWN005" not_from_reference_parameter span a

root_verdict-state :
    (found expected : ℕ) (span : Span) (a : Analyzer)
    → (root_verdict found expected span a).state ≡ a.state
root_verdict-state found expected span a = elim (Bool-cases (found == expected)) [
  | inl same ↦ rw same
  | inr other ↦ rw other (push-state "OWN005" not_from_reference_parameter span a)
]

abbrev borrow_verdict : (expected origin : Option ℕ) → Span → Analyzer → Option Analyzer
borrow_verdict none origin span a = some (push "OWN005" no_single_reference_parameter span a)
borrow_verdict (some expected) none span a = some (push "OWN005" not_from_declared_borrow span a)
borrow_verdict (some expected) (some id) span a = do
  found ← root_origin a.state.bindings id
  root ← root_origin a.state.bindings expected
  some (root_verdict found root span a)

borrow_verdict-state :
    (expected origin : Option ℕ) (span : Span) (a a' : Analyzer)
    → borrow_verdict expected origin span a ≡ some a'
    → a'.state ≡ a.state
borrow_verdict-state none origin span a a' e =
    subst (λ (o : Analyzer). o.state ≡ a.state) (some-injective _ _ e)
      (push-state "OWN005" no_single_reference_parameter span a)
borrow_verdict-state (some expected) none span a a' e =
    subst (λ (o : Analyzer). o.state ≡ a.state) (some-injective _ _ e)
      (push-state "OWN005" not_from_declared_borrow span a)
borrow_verdict-state (some expected) (some id) span a a' e =
    let (found, _, e₁) = >>=-eq-some (root_origin a.state.bindings id) _ e in
    let (root, _, e₂) = >>=-eq-some (root_origin a.state.bindings expected) _ e₁ in
    subst (λ (o : Analyzer). o.state ≡ a.state) (some-injective _ _ e₂)
      (root_verdict-state found root span a)

borrow_verdict_lem :
    (expected origin : Option ℕ) (span : Span) (a : Analyzer)
    → a.return_borrow ≡ expected
    → validate_reference_return origin span a ≡ borrow_verdict expected origin span a
unfolding validate_reference_return
borrow_verdict_lem none origin span a e = rw e
borrow_verdict_lem (some expected) none span a e = rw e
borrow_verdict_lem (some expected) (some id) span a e = rw e

-- A check of a returned reference leaves the state alone.
validate_reference_return-state :
    (origin : Option ℕ) (span : Span) (a a' : Analyzer)
    → validate_reference_return origin span a ≡ some a'
    → a'.state ≡ a.state
validate_reference_return-state origin span a a' e =
    borrow_verdict-state a.return_borrow origin span a a'
      (sym (borrow_verdict_lem a.return_borrow origin span a refl) ∙ e)

pub validate_return_if-Keeps :
    (returns : Bool) (origin : Option ℕ) (span : Span) (w : Walker) {held : Held}
    → IsSound w held
    → Keeps held (validate_return_if returns origin span w)
unfolding validate_return_if
validate_return_if-Keeps false origin span w s = some-Kept w s
validate_return_if-Keeps true origin span w {held} s =
    on_analyzer-Keeps (validate_reference_return origin span) w s (λ a at.
      subst (λ st. Books st held)
        (sym (validate_reference_return-state origin span w.analyzer a at)) s.books)

-- A property that the baseline and what is merged with it have holds of the merge of many states.
merge_from-All :
    (P : FlowState → Type 0) (baseline merged : FlowState) (states : List FlowState) {m : FlowState}
    → merge_from baseline merged states ≡ some m
    → ((l r m : FlowState) → merge_states baseline l r ≡ some m → P m)
    → P merged
    → P m
unfolding merge_from
merge_from-All P baseline merged [] e step h = subst P (some-injective _ _ e) h
merge_from-All P baseline merged (st ∷ states) e step h =
    let (next, at, rest) = >>=-eq-some (merge_states baseline merged st) _ e in
    merge_from-All P baseline next states rest step (step merged st next at)

pub merge_many_states-All :
    (P : FlowState → Type 0) (baseline : FlowState) (states : List FlowState) {m : FlowState}
    → merge_many_states baseline states ≡ some m
    → ((l r m : FlowState) → merge_states baseline l r ≡ some m → P m)
    → P baseline
    → All P states
    → P m
unfolding merge_many_states
merge_many_states-All P baseline [] e step h all = subst P (some-injective _ _ e) h
merge_many_states-All P baseline (first ∷ states) e step h (one, all) =
    merge_from-All P baseline first states e step one

pub merge_many_states-Books :
    (baseline : FlowState) (states : List FlowState) (held : Held) {m : FlowState}
    → merge_many_states baseline states ≡ some m
    → Books baseline held
    → All (λ st. Books st held) states
    → Books m held
merge_many_states-Books baseline states held e h all =
    merge_many_states-All (λ st. Books st held) baseline states e
      (λ l r m at. merge_states-Books baseline l r m held at h) h all

pub merge_many_states-HasBooks :
    (baseline : FlowState) (states : List FlowState) {m : FlowState}
    → merge_many_states baseline states ≡ some m
    → HasBooks baseline
    → All HasBooks states
    → HasBooks m
merge_many_states-HasBooks baseline states e (held, h) all =
    merge_many_states-All HasBooks baseline states e
      (λ l r m at. (held, merge_states-Books baseline l r m held at h)) (held, h) all

-- The baseline itself merged with any states: only its own books matter.
pub merge_baseline-Books :
    (baseline : FlowState) (states : List FlowState) (held : Held) {m : FlowState}
    → merge_many_states baseline (baseline ∷ states) ≡ some m
    → Books baseline held
    → Books m held
unfolding merge_many_states
merge_baseline-Books baseline states held e h =
    merge_from-All (λ st. Books st held) baseline baseline states e
      (λ l r m at. merge_states-Books baseline l r m held at h) h
