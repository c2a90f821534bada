-- ===== src/Prelude/Sorting.antt =====
-- `sorted(set(xs))` of texts, which Python orders by their code points.
use Prim.Native.Nat.{compare, Ordering}
use Prim.Native.Char.{code}
use Prim.Native.String.{String}
use mathlib.Core.Path.{◌≡◌, refl}
use mathlib.Core.Bool.{Bool, true, false}
use mathlib.Core.List.{List, [], ◌∷◌}
use native.Mathlib.Omega.{arith}
use ai_native_governed_data.Prelude.Lists.{null}
use ai_native_governed_data.Prelude.Tests.{if◌then◌else◌}
use ai_native_governed_data.Prelude.Words.{member, distinct_after}

-- `s < t`
unfoldable pub text_lt : String → String → Bool
text_lt String.[] String.[] = false
text_lt String.[] (String.◌∷◌ d t) = true
text_lt (String.◌∷◌ c s) String.[] = false
text_lt (String.◌∷◌ c s) (String.◌∷◌ d t) = elim (compare (code c) (code d)) [
  | Ordering.lt ↦ true
  | Ordering.eq ↦ text_lt s t
  | Ordering.gt ↦ false
]

unfoldable pub insert_sorted : String → List String → List String
insert_sorted x [] = x ∷ []
insert_sorted x (y ∷ ys) =
    let rest = insert_sorted x ys in if text_lt y x then (y ∷ rest) else (x ∷ y ∷ ys)

unfoldable pub sorted : List String → List String
sorted [] = []
sorted (x ∷ xs) = insert_sorted x (sorted xs)

unfoldable pub sorted_set : List String → List String
sorted_set xs = sorted (distinct_after [] xs)

null-insert_sorted : (x : String) (xs : List String) → null (insert_sorted x xs) ≡ false
unfolding insert_sorted
null-insert_sorted x [] = refl
null-insert_sorted x (y ∷ ys) = ground arith

pub null-sorted_set : (xs : List String) → null (sorted_set xs) ≡ null xs
unfolding sorted_set sorted distinct_after member
null-sorted_set [] = refl
null-sorted_set (x ∷ xs) = null-insert_sorted x (sorted (distinct_after (x ∷ []) xs))
