-- ===== src/Compiler/Ownership/Walk/Receivers.antt =====
-- Receivers of calls in `call` of crates/stainless-compiler/src/ownership.rs, and what it does for
-- the targets that need no resolved model.
use stainless.Base.{
  ℕ, ◌+◌, if◌then◌else◌, Bool, true, false, Option, none, some, List, [], ◌∷◌, get_elem?, ◌>>=◌,
}
use stainless.Compiler.Diagnostic.{Span}
use stainless.Compiler.Types.{is_reference, is_copyable}
use stainless.Compiler.Resolution.Calls.{
  CallStyle, method, Receiver, shared, mutable, value, StructId,
}
use stainless.Compiler.Resolution.Model.{ParameterSymbol, FunctionSymbol, StructReceiver}
use stainless.Compiler.Ownership.State.{Loan}
use stainless.Compiler.Ownership.Analyzer.{Usage, read, borrow_shared, borrow_mutable}
use stainless.Compiler.Ownership.Walk.{
  Walker, state_of, use_binding, move_binding, lend_temporarily, give_back_option,
}
use stainless.Compiler.Ownership.Walk.Arguments.{Walk, Walked, borrow_of, callback_walk}

-- The callee as `call` looks at it: `receiver.name`, a name of several segments, or else.
pub data CalleeShape : Type 0 where
  field_callee : (receiver : Walked) → CalleeShape
  qualified_name other_callee : CalleeShape

pub record CallSyntax : Type 0 where
  pub span : Span
  pub callee_span : Span
  pub callee_walk : Walk
  pub shape : CalleeShape
  pub arguments : List Walked

-- `call_receiver`
abbrev pub call_receiver : CalleeShape → Option Walked
call_receiver (field_callee receiver) = some receiver
call_receiver qualified_name = none
call_receiver other_callee = none

-- The value of the `match` in `call`, unless the method returns from inside it.
pub data Outcome : Type 0 where
  returned : Outcome
  origin : Option ℕ → Outcome

abbrev pub Answer : Type 0
Answer = Option (Walker × Outcome)

abbrev pub no_origin : Option Walker → Answer
no_origin walked = walked >>= λ w. some (w, origin none)

abbrev pub first {ℓ} : {A : Type ℓ} → List A → Option A
first [] = none
first (a ∷ rest) = some a

-- `if let Some(value) = value { self.expression(value, usage) }`
unfoldable pub walk_option : Usage → Option Walked → Walker → Option (Walker × Option ℕ)
walk_option usage none w = some (w, none)
walk_option usage (some syntax) w = syntax.walk usage w

abbrev pub discard : Option (Walker × Option ℕ) → Answer
discard walked = walked >>= λ r. some (r.0, origin none)

abbrev pub keep : Option (Walker × Option ℕ) → Answer
keep walked = walked >>= λ r. some (r.0, origin r.1)

unfoldable pub move_named : Option ℕ → (argument call : Span) → Walker → Answer
move_named none argument span w = some (w, returned)
move_named (some id) argument span w = do
  b ← get_elem? (state_of w).bindings id
  no_origin (if is_copyable b.ty then use_binding id read argument w else move_binding id span w)

unfoldable pub move_call : Option Walked → Span → Walker → Answer
move_call none span w = some (w, returned)
move_call (some argument) span w = move_named (argument.named (state_of w)) argument.span span w

-- `thread.join()` and the like: a named receiver moves.
unfoldable pub join_named : Option ℕ → Walked → Span → Walker → Answer
join_named none receiver span w = discard (receiver.walk read w)
join_named (some id) receiver span w = no_origin (move_binding id span w)

unfoldable pub join_call : Option Walked → Span → Walker → Answer
join_call none span w = some (w, returned)
join_call (some receiver) span w = join_named (receiver.named (state_of w)) receiver span w

-- A value that is borrowed while it is walked, and the loan.
unfoldable pub borrow_option : Option Walked → Walker → Option (Walker × Option Loan)
borrow_option none w = some (w, none)
borrow_option (some syntax) w = do
  (walked, from) ← syntax.walk borrow_shared w
  lend_temporarily from false syntax.span walked

unfoldable pub borrow_and_return : Option Walked → Walker → Option Walker
borrow_and_return syntax w = borrow_option syntax w >>= λ r. give_back_option r.1 r.0

unfoldable pub with_receiver_loan : Usage → Option Walked → List Walked → Walker → Option Walker
with_receiver_loan usage receiver arguments w = do
  (borrowed, loan) ← borrow_option receiver w
  (walked, _) ← walk_option usage (first arguments) borrowed
  give_back_option loan walked

unfoldable pub callback_option : Option Walked → Walker → Option Walker
callback_option none w = some w
callback_option (some callback) w = callback_walk callback w

-- The only reference among the parameters, by its index.
unfoldable pub reference_parameters : ℕ → List ParameterSymbol → List ℕ
reference_parameters index [] = []
reference_parameters index (p ∷ parameters) =
    let rest = reference_parameters (index + 1) parameters in
    if is_reference p.ty then index ∷ rest else rest

abbrev pub only {ℓ} : {A : Type ℓ} → List A → Option A
only [] = none
only (a ∷ []) = some a
only (a ∷ (b ∷ rest)) = none

unfoldable pub return_borrow_parameter : FunctionSymbol → Option ℕ
return_borrow_parameter f =
    if is_reference f.return_type then only (reference_parameters 0 f.parameters) else none

abbrev pub flatten_option {ℓ} : {A : Type ℓ} → Option (Option A) → Option A
flatten_option none = none
flatten_option (some a) = a

abbrev pub origin_at : List (Option ℕ) → Option ℕ → Option ℕ
origin_at origins none = none
origin_at origins (some index) = flatten_option (get_elem? origins index)

-- The receiver of a call of a function with a receiver: its origin and its span.
unfoldable pub use_option : Option ℕ → Usage → Span → Walker → Option Walker
use_option none usage span w = some w
use_option (some id) usage span w = use_binding id usage span w

unfoldable pub receiver_walk :
    Usage → CalleeShape → Span → Walker → Option (Walker × (Option ℕ × Span))
receiver_walk usage (field_callee receiver) span w =
    receiver.walk usage w >>= λ r. some (r.0, (r.1, receiver.span))
receiver_walk usage qualified_name span w =
    use_option w.receiver_binding usage span w >>= λ w'. some (w', (w.receiver_binding, span))
receiver_walk usage other_callee span w = some (w, (none, span))

unfoldable pub receiver_loan :
    Option StructReceiver → CalleeShape → Span → Walker → Option (Walker × (Option Loan × Option ℕ))
receiver_loan none shape span w = some (w, (none, none))
receiver_loan (some receiver) shape span w = do
  (walked, (from, at)) ← receiver_walk (borrow_of receiver.mutable) shape span w
  (lent, loan) ← lend_temporarily from receiver.mutable at walked
  some (lent, (loan, from))

abbrev pub receiver_usage : Receiver → Usage
receiver_usage shared = borrow_shared
receiver_usage mutable = borrow_mutable
receiver_usage value = read

-- The receiver of a native method by its mode, and the loan of it unless it is taken by value.
unfoldable pub native_receiver : Receiver → Walked → Walker → Option (Walker × Option Loan)
native_receiver shared receiver w = do
  (walked, from) ← receiver.walk borrow_shared w
  lend_temporarily from false receiver.span walked
native_receiver mutable receiver w = do
  (walked, from) ← receiver.walk borrow_mutable w
  lend_temporarily from true receiver.span walked
native_receiver value receiver w = receiver.walk read w >>= λ r. some (r.0, none)

abbrev pub receiver_mode : Option Receiver → Receiver
receiver_mode none = shared
receiver_mode (some mode) = mode

unfoldable pub native_receiver_loan :
    CallStyle → Option Receiver → CalleeShape → Walker → Option (Walker × Option Loan)
native_receiver_loan method mode (field_callee receiver) w =
    native_receiver (receiver_mode mode) receiver w
native_receiver_loan _ mode _ w = some (w, none)

abbrev pub has_throws : List StructId → Bool
has_throws [] = false
has_throws (_ ∷ _) = true
