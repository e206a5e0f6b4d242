-- ===== src/Base/Results.antt =====
-- `std::result::Result`: the error comes first among the parameters, and `?` is `>>=`.
use mathlib.Core.Path.{◌≡◌, refl}
use mathlib.Core.Bool.{Bool, true, false}
use mathlib.Core.Option.{Option, none, some}
use stainless.Base.Tests.{if◌then◌else◌}

pub data Result {κ ℓ} (E : Type κ) (V : Type ℓ) : Type (κ ⊔ ℓ) where
  ok : (value : V) → Result E V
  err : (cause : E) → Result E V

module _ {κ} {E : Type κ} where
  module _ {ℓ ℓ'} {V : Type ℓ} {W : Type ℓ'} where
    infixl 5 ◌>>=◌ ◌>>◌
    abbrev pub ◌>>=◌ : Result E V → (V → Result E W) → Result E W
    outcome >>= next = elim outcome [ err cause ↦ err cause | ok value ↦ next value ]

    abbrev pub ◌>>◌ : Result E V → Result E W → Result E W
    outcome >> next = outcome >>= λ value. next

    -- Where a chain gives a value, its first step gave one.
    pub >>=-eq-ok :
        (outcome : Result E V) (next : V → Result E W) {w : W}
        → (outcome >>= next) ≡ ok w
        → (v : V) × (outcome ≡ ok v) × (next v ≡ ok w)
    >>=-eq-ok (err cause) next done = cc
    >>=-eq-ok (ok value) next done = (value, refl, done)

  module _ {ℓ} {V : Type ℓ} where
    -- `Option::ok_or`
    abbrev pub ok_or : Option V → E → Result E V
    ok_or found cause = elim found [ some value ↦ ok value | none ↦ err cause ]

    pub ok-injective : {v w : V} → ◌≡◌ {A = Result E V} (ok v) (ok w) → v ≡ w
    ok-injective same = cc

  -- An early return of the error where the condition fails.
  abbrev pub ensure : Bool → E → Result E (Unit {0})
  ensure holds cause = if holds then ok tt else err cause

  pub ensure-eq-ok :
      (holds : Bool) (cause : E) {u : Unit {0}} → ensure holds cause ≡ ok u → holds ≡ true
  ensure-eq-ok false cause done = cc
  ensure-eq-ok true cause done = refl
