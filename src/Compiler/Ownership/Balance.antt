-- ===== src/Compiler/Ownership/Balance.antt =====
-- What every operation of the walk keeps: in the state at hand the books are right for the loans
-- that are out, with the same scopes open; in every captured state they are right for some loans.
pub mod Arguments
pub mod Branches
pub mod Receivers
pub mod Calls
pub mod Captures
pub mod Exact
pub mod Exclusive
pub mod Plain
pub mod Operators
pub mod Expressions
pub mod Items
pub mod Ends
pub mod Loops
pub mod Operations
pub mod Statements
pub mod States
use stainless.Base.{
  ℕ, suc, length, Bool, true, false, if◌then◌else◌, ◌≡◌, refl, Option, none, some, List, [], ◌++◌,
  All, ◌>>=◌, >>=-eq-some,
}
use stainless.Compiler.Ownership.State.{Loan, FlowState}
use stainless.Compiler.Ownership.Analyzer.{Analyzer}
use stainless.Compiler.Ownership.Accounting.{IsBalanced}
use stainless.Compiler.Ownership.Walk.{
  LoopContext, ExceptionContext, Walker, state_of, set_analyzer, set_state,
}
use mathlib.Core.Path.{subst}
use mathlib.Core.Option.{some-injective}

-- The loans that are out, and how many scopes are open.
abbrev pub Held : Type 0
Held = List Loan × ℕ

-- With more loans out, and inside one more scope.
abbrev pub with_loans : List Loan → Held → Held
with_loans loans held = (loans ++ held.0, held.1)

abbrev pub deeper : Held → Held
deeper held = (held.0, suc held.1)

-- The books are right if these loans are out, and this many scopes are open.
abbrev pub Books : FlowState → Held → Type 0
Books st held = IsBalanced st.bindings held.0 × (length st.scopes ≡ held.1)

-- The books are right for some loans and some number of scopes.
abbrev pub HasBooks : FlowState → Type 0
HasBooks st = (held : Held) × Books st held

-- The states that a loop captured, those of `continue` and those of `break`.
abbrev pub HasExits : LoopContext → Type 0
HasExits c = All HasBooks c.continue_states × All HasBooks c.break_states

pub record IsSound (w : Walker) (held : Held) : Type 0 where
  pub books : Books (state_of w) held
  pub exits : All HasExits w.loops
  pub throws : All (λ (c : ExceptionContext). All HasBooks c.states) w.exceptions

-- Where the computation gives a value, the walker in it is sound for the loans that it says.
pub record Kept {ℓ} {A : Type ℓ} (walker : A → Walker) (held : A → Held) (m : Option A)
    : Type ℓ where
  pub kept : (a : A) → m ≡ some a → IsSound (walker a) (held a)

-- The walker alone, or with a result, for the same loans; and with a loan that was taken.
abbrev pub Keeps : Held → Option Walker → Type 0
Keeps held m = Kept (λ w. w) (λ w. held) m

abbrev pub KeepsWith {ℓ} : {R : Type ℓ} → Held → Option (Walker × R) → Type ℓ
KeepsWith {R = R} held m = Kept (λ (r : Walker × R). r.0) (λ r. held) m

module _ {ℓ} {A : Type ℓ} {walker : A → Walker} {held : A → Held} where
  pub some-Kept : (a : A) → IsSound (walker a) (held a) → Kept walker held (some a)
  some-Kept a s = record {
    kept = λ b e. subst (λ c. IsSound (walker c) (held c)) (some-injective _ _ e) s;
  }

  pub bind-Kept {κ} :
      {B : Type κ} {walker' : B → Walker} {held' : B → Held} (m : Option A) (f : A → Option B)
      → Kept walker held m
      → ((a : A) → IsSound (walker a) (held a) → Kept walker' held' (f a))
      → Kept walker' held' (m >>= f)
  bind-Kept m f k next = record {
    kept = λ b e. let (a, at, done) = >>=-eq-some m f e in (next a (k.kept a at)).kept b done;
  }

  pub if_Kept :
      (b : Bool) (m n : Option A)
      → Kept walker held m
      → Kept walker held n
      → Kept walker held (if b then m else n)
  if_Kept true m n k k' = k
  if_Kept false m n k k' = k'

-- A change of the analyzer alone.
pub set_analyzer-IsSound :
    (w : Walker) (a : Analyzer) {held held' : Held}
    → IsSound w held
    → Books a.state held'
    → IsSound (set_analyzer w a) held'
set_analyzer-IsSound w a s b = record { books = b; exits = s.exits; throws = s.throws }

pub set_state-IsSound :
    (w : Walker) (st : FlowState) {held held' : Held}
    → IsSound w held
    → Books st held'
    → IsSound (set_state st w) held'
set_state-IsSound w st s b = record { books = b; exits = s.exits; throws = s.throws }
