-- ===== src/Prelude/Search.antt =====
-- The first element of a list that has a property, said without a search, and `find_first`.
use ai_native_governed_data.Prelude.Lists.{find_first}
use ai_native_governed_data.Prelude.Tests.{Bool-cases}
use mathlib.Core.Path.{◌≡◌, subst}
use mathlib.Core.Logic.{◌↔◌, inl, inr}
use mathlib.Core.Bool.{Bool, true}
use mathlib.Core.List.{List, [], ◌∷◌}
use mathlib.Core.Option.{some}
use native.Mathlib.Omega.{arith}

-- `x` is the first element with the property.
pub data FirstWith {A : Type 0} (P : A → Type 0) (x : A) : List A → Type 0 where
  here : {xs : List A} → P x → FirstWith P x (x ∷ xs)
  there : {y : A} {xs : List A} → ¬ P y → FirstWith P x xs → FirstWith P x (y ∷ xs)

module _ {A : Type 0} (test : A → Bool) (P : A → Type 0)
    (decides : (x : A) → (test x ≡ true) ↔ P x) where
  found : (xs : List A) (x : A) → find_first test xs ≡ some x → FirstWith P x xs
  found [] x h = cc
  found (y ∷ ys) x h = elim (Bool-cases (test y)) [
    | inl e ↦ subst (λ z. FirstWith P z (y ∷ ys)) (ground arith) (here ((decides y).0 e))
    | inr e ↦ there (λ p. ground (arith, (decides y).1 p)) (found ys x (ground arith))
  ]

  first_found : (xs : List A) (x : A) → FirstWith P x xs → find_first test xs ≡ some x
  first_found [] x seen = elim seen [ ]
  first_found (_ ∷ xs) x (here p) = ground (arith, (decides x).1 p)
  first_found (y ∷ xs) x (there skip rest) = elim (Bool-cases (test y)) [
    | inl e ↦ absurd (skip ((decides y).0 e))
    | inr e ↦ ground (arith, first_found xs x rest)
  ]

  pub find_first_iff : (xs : List A) (x : A) → (find_first test xs ≡ some x) ↔ FirstWith P x xs
  find_first_iff xs x = (found xs x, first_found xs x)
