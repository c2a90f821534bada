-- ===== src/Prelude/Dict.antt =====
-- A Python dictionary as an association list in insertion order, over keys with a decidable
-- equality: `d.get(k)`, `d[k] = v`, `d.pop(k, None)`, and the laws that the components share.
use Prim.Native.Nat.{◌+◌, ◌≤◌}
use mathlib.Core.Path.{◌≡◌, refl}
use mathlib.Core.Logic.{ite}
use mathlib.Core.List.{List, [], ◌∷◌}
use mathlib.Core.Option.{Option, none, some}
use native.Mathlib.Omega.{arith}
use ai_native_governed_data.Prelude.Lists.{length}

module _ {ℓ} {K V : Type ℓ} (dec : Discrete K) where
  unfoldable pub lookup : K → List (K × V) → Option V
  lookup k [] = none
  lookup k ((j, v) ∷ d) = ite (dec k j) (some v) (lookup k d)

  unfoldable pub insert : K → V → List (K × V) → List (K × V)
  insert k v [] = (k, v) ∷ []
  insert k v ((j, w) ∷ d) = ite (dec k j) ((j, v) ∷ d) ((j, w) ∷ insert k v d)

  unfoldable pub pop : K → List (K × V) → List (K × V)
  pop k [] = []
  pop k ((j, w) ∷ d) = ite (dec k j) d ((j, w) ∷ pop k d)

  -- No key twice.
  abbrev pub IsDict : List (K × V) → Type ℓ
  IsDict [] = Unit
  IsDict ((j, w) ∷ d) = (lookup j d ≡ none) × IsDict d

  pub lookup-insert :
      (j k : K) (v : V) (d : List (K × V))
      → lookup j (insert k v d) ≡ ite (dec j k) (some v) (lookup j d)
  unfolding lookup insert
  lookup-insert j k v [] = refl
  lookup-insert j k v ((i, w) ∷ d) = ground (arith, lookup-insert j k v d)

  pub lookup-pop :
      (j k : K) (d : List (K × V)) → IsDict d → lookup j (pop k d) ≡ ite (dec j k) none (lookup j d)
  unfolding lookup pop
  lookup-pop j k [] h = ground arith
  lookup-pop j k ((i, w) ∷ d) h = ground (arith, lookup-pop j k d h.1)

  pub insert-IsDict : (k : K) (v : V) (d : List (K × V)) → IsDict d → IsDict (insert k v d)
  unfolding insert lookup
  insert-IsDict k v [] h = (refl, tt)
  insert-IsDict k v ((i, w) ∷ d) h = ground (arith, insert-IsDict k v d h.1, lookup-insert i k v d)

  pub pop-IsDict : (k : K) (d : List (K × V)) → IsDict d → IsDict (pop k d)
  unfolding pop lookup
  pop-IsDict k [] h = tt
  pop-IsDict k ((i, w) ∷ d) h = ground (arith, pop-IsDict k d h.1, lookup-pop i k d h.1)

  pub length-insert-le : (k : K) (v : V) (d : List (K × V)) → length (insert k v d) ≤ length d + 1
  unfolding insert
  length-insert-le k v [] = omega arith
  length-insert-le k v ((i, w) ∷ d) = ground (arith, length-insert-le k v d)

  -- A write to a key that is there adds no entry.
  pub length-insert_old :
      (k : K) (v : V) (w : V) (d : List (K × V))
      → lookup k d ≡ some w
      → length (insert k v d) ≡ length d
  unfolding insert lookup
  length-insert_old k v w [] h = cc
  length-insert_old k v w ((i, u) ∷ d) h = ground (arith, length-insert_old k v w d)
