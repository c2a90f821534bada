-- ===== src/Prelude/Lists.antt =====
-- Lists over the native numbers, under the library's names, and predicates on all elements.
use Prim.Native.Nat.{ℕ, suc, ◌+◌, ◌≤◌}
use mathlib.Core.Path.{◌≡◌}
use mathlib.Core.Bool.{Bool, true, false}
use mathlib.Core.List.{List, [], ◌∷◌, ◌++◌}
use mathlib.Core.Option.{Option, none, some}
use native.Mathlib.Omega.{arith}

module _ {ℓ} {A : Type ℓ} where
  abbrev pub length : List A → ℕ
  length [] = 0
  length (x ∷ xs) = suc (length xs)

  pub length-append : (xs ys : List A) → length (xs ++ ys) ≡ length xs + length ys
  length-append [] ys = omega arith
  length-append (x ∷ xs) ys = omega (arith, length-append xs ys)

  -- `next((x for x in xs if test(x)), None)`
  abbrev pub find_first : (A → Bool) → List A → Option A
  find_first test [] = none
  find_first test (x ∷ xs) = elim (test x) [ true ↦ some x | false ↦ find_first test xs ]

  -- `[x for x in xs if test(x)]`
  abbrev pub keep : (A → Bool) → List A → List A
  keep test [] = []
  keep test (x ∷ xs) = let rest = keep test xs in elim (test x) [ true ↦ x ∷ rest | false ↦ rest ]

  -- `any(test(x) for x in xs)`
  abbrev pub any : (A → Bool) → List A → Bool
  any test [] = false
  any test (x ∷ xs) = elim (test x) [ true ↦ true | false ↦ any test xs ]

  abbrev pub null : List A → Bool
  null [] = true
  null (x ∷ xs) = false

  pub null-eq : (xs : List A) → null xs ≡ true → xs ≡ []
  null-eq [] h = ground arith
  null-eq (x ∷ xs) h = ground arith

  pub length-keep-le : (test : A → Bool) (xs : List A) → length (keep test xs) ≤ length xs
  length-keep-le test [] = omega arith
  length-keep-le test (x ∷ xs) = ground (arith, length-keep-le test xs)

  -- A predicate on every element, by recursion.
  abbrev pub All {κ} : (A → Type κ) → List A → Type κ
  All P [] = Unit
  All P (x ∷ xs) = P x × All P xs

  pub All-append {κ} : (P : A → Type κ) (xs ys : List A) → All P xs → All P ys → All P (xs ++ ys)
  All-append P [] ys hx hy = hy
  All-append P (x ∷ xs) ys hx hy = (hx.0, All-append P xs ys hx.1 hy)
