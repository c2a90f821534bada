-- ===== src/Prelude/Results.antt =====
-- A call that returns or raises.
use mathlib.Core.Path.{◌≡◌, refl}
use mathlib.Core.Bool.{Bool, true, false}
use ai_native_governed_data.Prelude.Tests.{if◌then◌else◌}

pub data Result {ℓ κ} (Failure : Type ℓ) (Value : Type κ) : Type (ℓ ⊔ κ) where
  err : Failure → Result Failure Value
  ok : Value → Result Failure Value

module _ {ℓ κ μ} {Failure : Type ℓ} {Value : Type κ} {Next : Type μ} where
  infixl 5 ◌>>=◌
  -- An exception ends the calls that follow.
  abbrev pub ◌>>=◌ : Result Failure Value → (Value → Result Failure Next) → Result Failure Next
  err failure >>= next = err failure
  ok v >>= next = next v

  pub >>=-eq-ok :
      (first : Result Failure Value) (next : Value → Result Failure Next) {last : Next}
      → (first >>= next) ≡ ok last
      → (v : Value) × (first ≡ ok v) × (next v ≡ ok last)
  >>=-eq-ok (err failure) next returned = cc
  >>=-eq-ok (ok v) next returned = (v, refl, returned)

module _ {ℓ κ} {Failure : Type ℓ} {Value : Type κ} {v : Value} where
  pub ok-inj : {w : Value} → ◌≡◌ {A = Result Failure Value} (ok v) (ok w) → v ≡ w
  ok-inj same = cc same

  -- `if test: raise`, and on.
  pub raise_if :
      (test : Bool) (failure : Failure) (rest : Result Failure Value)
      → (if test then err failure else rest) ≡ ok v
      → (test ≡ false) × (rest ≡ ok v)
  raise_if true failure rest returned = cc
  raise_if false failure rest returned = (refl, returned)

  pub raise_unless :
      (test : Bool) (failure : Failure) (rest : Result Failure Value)
      → (if test then rest else err failure) ≡ ok v
      → (test ≡ true) × (rest ≡ ok v)
  raise_unless true failure rest returned = (refl, returned)
  raise_unless false failure rest returned = cc
