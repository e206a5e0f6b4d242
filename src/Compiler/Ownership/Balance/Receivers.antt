-- ===== src/Compiler/Ownership/Balance/Receivers.antt =====
-- Receivers of calls, and calls without the resolved model, keep the books.
use stainless.Base.{
  ℕ, true, false, Option, none, some, List, [], ◌∷◌, All, ◌>>=◌, >>=-eq-some, get_elem?, inl, inr,
  Bool-cases,
}
use stainless.Compiler.Diagnostic.{Span}
use stainless.Compiler.Types.{is_copyable}
use stainless.Compiler.Resolution.Calls.{CallStyle, method, Receiver, shared, mutable, value}
use stainless.Compiler.Resolution.Model.{StructReceiver}
use stainless.Compiler.Ownership.State.{Loan}
use stainless.Compiler.Ownership.Analyzer.{Usage, read, borrow_shared, borrow_mutable}
use stainless.Compiler.Ownership.Accounting.Moves.{to_list}
use stainless.Compiler.Ownership.Walk.{
  Walker, state_of, use_binding, move_binding, lend_temporarily,
}
use stainless.Compiler.Ownership.Walk.Arguments.{Walked, borrow_of}
use stainless.Compiler.Ownership.Walk.Receivers.{
  CalleeShape, field_callee, qualified_name, other_callee, CallSyntax, call_receiver, returned,
  origin, Answer, first, walk_option, move_named, move_call, join_named, join_call, borrow_option,
  borrow_and_return, with_receiver_loan, callback_option, use_option, receiver_walk, receiver_loan,
  native_receiver, receiver_mode, native_receiver_loan,
}
use stainless.Compiler.Ownership.Balance.{
  Held, with_loans, IsSound, Kept, Keeps, KeepsWith, some-Kept, bind-Kept,
}
use stainless.Compiler.Ownership.Balance.Operations.{
  Lent, use_binding-Keeps, move_binding-Keeps, lend_temporarily-Lent, give_back_option-Keeps,
}
use stainless.Compiler.Ownership.Balance.Arguments.{
  WalkKeeps, WriteKeeps, WalkedKeeps, callback_walk-Keeps,
}

abbrev pub OptionKeeps : Option Walked → Type 0
OptionKeeps none = Unit
OptionKeeps (some e) = WalkedKeeps e

pub record SyntaxKeeps (c : CallSyntax) : Type 0 where
  pub callee : WalkKeeps c.callee_walk
  pub receiver : OptionKeeps (call_receiver c.shape)
  pub arguments : All WalkedKeeps c.arguments

pub first-Keeps :
    (arguments : List Walked) → All WalkedKeeps arguments → OptionKeeps (first arguments)
first-Keeps [] k = tt
first-Keeps (a ∷ rest) (one, k) = one

-- A walk whose answer is the origin, none or the same.
pub map-Kept {ℓ κ} :
    {R : Type ℓ} {S : Type κ} (f : R → S) (m : Option (Walker × R)) {held : Held}
    → KeepsWith held m
    → KeepsWith held (m >>= λ r. some (r.0, f r.1))
map-Kept f m k = bind-Kept m _ k (λ r s. some-Kept (r.0, f r.1) s)

pub with-Kept {κ} :
    {S : Type κ} (x : S) (m : Option Walker) {held : Held}
    → Keeps held m
    → KeepsWith held (m >>= λ w. some (w, x))
with-Kept x m k = bind-Kept m _ k (λ w s. some-Kept (w, x) s)

pub drop-Kept {ℓ} :
    {R : Type ℓ} (m : Option (Walker × R)) {held : Held}
    → KeepsWith held m
    → Keeps held (m >>= λ r. some r.0)
drop-Kept m k = bind-Kept m _ k (λ r s. some-Kept r.0 s)

pub walk_option-Keeps :
    (usage : Usage) (e : Option Walked)
    → OptionKeeps e
    → (w : Walker) (held : Held) → IsSound w held
    → KeepsWith held (walk_option usage e w)
unfolding walk_option
walk_option-Keeps usage none k w held s = some-Kept (w, none) s
walk_option-Keeps usage (some e) k w held s = k.walks usage w held s

abbrev pub AnswerKeeps : (Walker → Answer) → Type 0
AnswerKeeps f = (w : Walker) (held : Held) → IsSound w held → KeepsWith held (f w)

move_named-Keeps :
    (id : Option ℕ) (argument span : Span) → AnswerKeeps (move_named id argument span)
unfolding move_named
move_named-Keeps none argument span w held s = some-Kept (w, returned) s
move_named-Keeps (some id) argument span w held s = record {
  kept = λ r e.
      let (b, _, h) = >>=-eq-some (get_elem? (state_of w).bindings id) _ e in
      elim (Bool-cases (is_copyable b.ty)) [
        | inl copied ↦
            (with-Kept (origin none) (use_binding id read argument w)
                (use_binding-Keeps id read argument w s)).kept
              r (rw copied at h)
        | inr moved ↦
            (with-Kept (origin none) (move_binding id span w) (move_binding-Keeps id span w s)).kept
              r (rw moved at h)
      ];
}

pub move_call-Keeps :
    (argument : Option Walked) (span : Span) → AnswerKeeps (move_call argument span)
unfolding move_call
move_call-Keeps none span w held s = some-Kept (w, returned) s
move_call-Keeps (some e) span w held s =
    move_named-Keeps (e.named (state_of w)) e.span span w held s

join_named-Keeps :
    (id : Option ℕ) (receiver : Walked) (span : Span)
    → WalkedKeeps receiver
    → AnswerKeeps (join_named id receiver span)
unfolding join_named
join_named-Keeps none receiver span k w held s =
    map-Kept (λ r. origin none) (receiver.walk read w) (k.walks read w held s)
join_named-Keeps (some id) receiver span k w held s =
    with-Kept (origin none) (move_binding id span w) (move_binding-Keeps id span w s)

pub join_call-Keeps :
    (receiver : Option Walked) (span : Span)
    → OptionKeeps receiver
    → AnswerKeeps (join_call receiver span)
unfolding join_call
join_call-Keeps none span k w held s = some-Kept (w, returned) s
join_call-Keeps (some e) span k w held s = join_named-Keeps (e.named (state_of w)) e span k w held s

borrow_option-Lent :
    (e : Option Walked)
    → OptionKeeps e
    → (w : Walker) (held : Held) → IsSound w held
    → Lent held (borrow_option e w)
unfolding borrow_option
borrow_option-Lent none k w held s = some-Kept (w, none) s
borrow_option-Lent (some e) k w held s =
    bind-Kept (e.walk borrow_shared w) _ (k.walks borrow_shared w held s)
      (λ r s'. lend_temporarily-Lent r.1 false e.span r.0 s')

pub borrow_and_return-Keeps : (e : Option Walked) → OptionKeeps e → WriteKeeps (borrow_and_return e)
unfolding borrow_and_return
borrow_and_return-Keeps e k w held s =
    bind-Kept (borrow_option e w) _ (borrow_option-Lent e k w held s)
      (λ r s'. give_back_option-Keeps r.1 r.0 s')

pub with_receiver_loan-Keeps :
    (usage : Usage) (e : Option Walked) (arguments : List Walked)
    → OptionKeeps e
    → All WalkedKeeps arguments
    → WriteKeeps (with_receiver_loan usage e arguments)
unfolding with_receiver_loan
with_receiver_loan-Keeps usage e arguments k all w held s =
    bind-Kept (borrow_option e w) _ (borrow_option-Lent e k w held s) (λ r s'.
      bind-Kept (walk_option usage (first arguments) r.0) _
        (walk_option-Keeps usage (first arguments) (first-Keeps arguments all) r.0 _ s')
        (λ v s''. give_back_option-Keeps r.1 v.0 s''))

pub callback_option-Keeps : (e : Option Walked) → OptionKeeps e → WriteKeeps (callback_option e)
unfolding callback_option
callback_option-Keeps none k w held s = some-Kept w s
callback_option-Keeps (some e) k w held s = callback_walk-Keeps e k w held s

use_option-Keeps :
    (id : Option ℕ) (usage : Usage) (span : Span) → WriteKeeps (use_option id usage span)
unfolding use_option
use_option-Keeps none usage span w held s = some-Kept w s
use_option-Keeps (some id) usage span w held s = use_binding-Keeps id usage span w s

receiver_walk-Keeps :
    (usage : Usage) (shape : CalleeShape) (span : Span)
    → OptionKeeps (call_receiver shape)
    → (w : Walker) (held : Held) → IsSound w held
    → KeepsWith held (receiver_walk usage shape span w)
unfolding receiver_walk
receiver_walk-Keeps usage (field_callee e) span k w held s =
    map-Kept (λ o. (o, e.span)) (e.walk usage w) (k.walks usage w held s)
receiver_walk-Keeps usage qualified_name span k w held s =
    with-Kept (w.receiver_binding, span) (use_option w.receiver_binding usage span w)
      (use_option-Keeps w.receiver_binding usage span w held s)
receiver_walk-Keeps usage other_callee span k w held s = some-Kept (w, (none, span)) s

pub receiver_loan-Kept :
    (receiver : Option StructReceiver) (shape : CalleeShape) (span : Span)
    → OptionKeeps (call_receiver shape)
    → (w : Walker) (held : Held) → IsSound w held
    → Kept
        (λ (r : Walker × (Option Loan × Option ℕ)). r.0)
        (λ r. with_loans (to_list r.1.0) held)
        (receiver_loan receiver shape span w)
unfolding receiver_loan
receiver_loan-Kept none shape span k w held s = some-Kept (w, (none, none)) s
receiver_loan-Kept (some receiver) shape span k w held s =
    bind-Kept (receiver_walk (borrow_of receiver.mutable) shape span w) _
      (receiver_walk-Keeps (borrow_of receiver.mutable) shape span k w held s)
      (λ r s'.
        bind-Kept (lend_temporarily r.1.0 receiver.mutable r.1.1 r.0) _
          (lend_temporarily-Lent r.1.0 receiver.mutable r.1.1 r.0 s')
          (λ l s''. some-Kept (l.0, (l.1, r.1.0)) s''))

native_receiver-Lent :
    (mode : Receiver) (e : Walked)
    → WalkedKeeps e
    → (w : Walker) (held : Held) → IsSound w held
    → Lent held (native_receiver mode e w)
unfolding native_receiver
native_receiver-Lent shared e k w held s =
    bind-Kept (e.walk borrow_shared w) _ (k.walks borrow_shared w held s)
      (λ r s'. lend_temporarily-Lent r.1 false e.span r.0 s')
native_receiver-Lent mutable e k w held s =
    bind-Kept (e.walk borrow_mutable w) _ (k.walks borrow_mutable w held s)
      (λ r s'. lend_temporarily-Lent r.1 true e.span r.0 s')
native_receiver-Lent value e k w held s =
    bind-Kept (e.walk read w) _ (k.walks read w held s) (λ r s'. some-Kept (r.0, none) s')

pub native_receiver_loan-Lent :
    (style : CallStyle) (mode : Option Receiver) (shape : CalleeShape)
    → OptionKeeps (call_receiver shape)
    → (w : Walker) (held : Held) → IsSound w held
    → Lent held (native_receiver_loan style mode shape w)
unfolding native_receiver_loan
native_receiver_loan-Lent method mode (field_callee e) k w held s =
    native_receiver-Lent (receiver_mode mode) e k w held s
native_receiver_loan-Lent _ mode _ k w held s = some-Kept (w, none) s
