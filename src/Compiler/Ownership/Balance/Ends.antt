-- ===== src/Compiler/Ownership/Balance/Ends.antt =====
-- What a computation ends with, if it gives a value: a sound walker, and states that were captured.
use stainless.Base.{Bool, Option, none, some, List, All, ◌>>=◌, >>=-eq-some, ◌≡◌}
use stainless.Compiler.Ownership.State.{FlowState, pop_scope}
use stainless.Compiler.Ownership.Walk.{Walker, state_of, leave_scope}
use stainless.Compiler.Ownership.Walk.Arguments.{Walk}
use stainless.Compiler.Ownership.Walk.Loops.{Run, Pass, optional_state}
use stainless.Compiler.Ownership.Balance.{set_state-IsSound, Held, HasBooks, IsSound, Kept}
use stainless.Compiler.Ownership.Balance.Arguments.{WalkKeeps}
use mathlib.Core.Option.{some-injective}
use stainless.Compiler.Ownership.Balance.States.{pop_scope-HasBooks}
use mathlib.Core.Path.{subst}

-- Sound for some loans.
abbrev pub HasSound : Walker → Type 0
HasSound w = (held : Held) × IsSound w held

-- Where the computation gives a value, the value has the property.
pub record Ends {ℓ} {A : Type ℓ} (P : A → Type 0) (m : Option A) : Type ℓ where
  pub ends : (a : A) → m ≡ some a → P a

module _ {ℓ} {A : Type ℓ} {P : A → Type 0} where
  pub some-Ends : (a : A) → P a → Ends P (some a)
  some-Ends a p = record { ends = λ b e. subst P (some-injective _ _ e) p }

  pub bind-Ends {κ} :
      {B : Type κ} {Q : B → Type 0} (m : Option A) (f : A → Option B)
      → Ends P m
      → ((a : A) → m ≡ some a → P a → Ends Q (f a))
      → Ends Q (m >>= f)
  bind-Ends m f k next = record {
    ends = λ b e. let (a, at, done) = >>=-eq-some m f e in (next a at (k.ends a at)).ends b done;
  }

pub Kept-Ends {ℓ} :
    {A : Type ℓ} {walker : A → Walker} {held : A → Held} {m : Option A}
    → Kept walker held m
    → Ends (λ a. HasSound (walker a)) m
Kept-Ends {held = held} k = record { ends = λ a e. (held a, k.kept a e) }

pub anything {ℓ} : {A : Type ℓ} (m : Option A) → Ends (λ a. Unit) m
anything m = record { ends = λ a e. tt }

abbrev pub RunKeeps : Run → Type 0
RunKeeps run = (w : Walker) → HasSound w → Ends (λ (r : Walker × Bool). HasSound r.0) (run w)

-- A walker and states that were captured.
abbrev pub HasStates : Walker × List FlowState → Type 0
HasStates (w, states) = HasSound w × All HasBooks states

abbrev pub PassKeeps : Pass → Type 0
PassKeeps pass =
    (w : Walker)
    → HasSound w
    → Ends (λ (r : Walker × Option FlowState). HasStates (r.0, optional_state r.1)) (pass w)

abbrev pub OptionWalkKeeps : Option Walk → Type 0
OptionWalkKeeps none = Unit
OptionWalkKeeps (some walk) = WalkKeeps walk

pub leave_scope-Ends : (w : Walker) → HasSound w → Ends HasSound (leave_scope w)
unfolding leave_scope
leave_scope-Ends w (held, s) =
    bind-Ends (pop_scope (state_of w)) _ (anything (pop_scope (state_of w))) (λ st at _.
      let (held', b) = pop_scope-HasBooks (state_of w) st at (held, s.books) in
      some-Ends _ (held', set_state-IsSound w st s b))
