-- ===== src/Prelude/Words.antt =====
-- Collections of texts: membership, `dict.fromkeys`, `split(",")`, and allow-lists with "*".
use Prim.Native.Char.{code}
use Prim.Native.String.{String}
use mathlib.Core.Path.{◌≡◌, refl}
use mathlib.Core.Bool.{Bool, true, false, not, ◌||◌}
use mathlib.Core.List.{List, [], ◌∷◌, ◌++◌}
use native.Mathlib.Omega.{arith}
use ai_native_governed_data.Prelude.Lists.{keep, All}
use ai_native_governed_data.Prelude.Tests.{if◌then◌else◌, ◌==◌}
use ai_native_governed_data.Prelude.Text.{says, says_refl, says_sound, is_empty}

-- `x in xs`
unfoldable pub member : String → List String → Bool
member x [] = false
member x (y ∷ ys) = says x y || member x ys

-- The elements of `xs` that are not in `ys`.
abbrev pub except : List String → List String → List String
except xs ys = keep (λ x. not (member x ys)) xs

-- `list(dict.fromkeys(xs))`, after those already seen.
unfoldable pub distinct_after : List String → List String → List String
distinct_after seen [] = []
distinct_after seen (x ∷ xs) =
    let old = distinct_after seen xs in
    let fresh = distinct_after (x ∷ seen) xs in if member x seen then old else (x ∷ fresh)

-- An allow-list lets a collection pass.
abbrev pub Within : List String → List String → Type 0
Within allowed xs = All (λ x. (member "*" allowed || member x allowed) ≡ true) xs

module _ (allowed : List String) where
  pub except-Within : (xs : List String) → except xs allowed ≡ [] → Within allowed xs
  unfolding member
  except-Within [] h = tt
  except-Within (x ∷ xs) h = ground (arith, except-Within xs)

  pub Within-of_star : (xs : List String) → member "*" allowed ≡ true → Within allowed xs
  Within-of_star [] h = tt
  Within-of_star (x ∷ xs) h = (ground arith, Within-of_star xs h)

  pub Within-except :
      (xs : List String) → member "*" allowed ≡ false → Within allowed xs → except xs allowed ≡ []
  Within-except [] h w = ground arith
  Within-except (x ∷ xs) h w = ground (arith, Within-except xs h w.1)

-- Every element of `xs` is in `ys`.
abbrev pub Subset : List String → List String → Type 0
Subset xs ys = All (λ x. member x ys ≡ true) xs

pub except-Subset : (xs ys : List String) → except xs ys ≡ [] → Subset xs ys
except-Subset [] ys h = tt
except-Subset (x ∷ xs) ys h = ground (arith, except-Subset xs ys)

pub Subset-except : (xs ys : List String) → Subset xs ys → except xs ys ≡ []
Subset-except [] ys h = ground arith
Subset-except (x ∷ xs) ys h = ground (arith, Subset-except xs ys h.1)

-- No text twice.
abbrev pub Distinct : List String → Type 0
Distinct [] = Unit
Distinct (x ∷ xs) = (member x xs ≡ false) × Distinct xs

pub member-append :
    (x y : String) (xs : List String)
    → member x xs ≡ false
    → says x y ≡ false
    → member x (xs ++ y ∷ []) ≡ false
unfolding member
member-append x y [] h e = ground arith
member-append x y (z ∷ zs) h e = ground (arith, member-append x y zs)

pub Distinct-append :
    (x : String) (xs : List String) → Distinct xs → member x xs ≡ false → Distinct (xs ++ x ∷ [])
unfolding member
Distinct-append x [] d h = (refl, tt)
Distinct-append x (y ∷ ys) d h = (
  member-append y x ys d.0 (ground (arith, says_sound y x, says_refl y)),
  Distinct-append x ys d.1 (ground arith),
)

pub distinct_after-new :
    (x : String) (seen xs : List String)
    → member x seen ≡ true
    → member x (distinct_after seen xs) ≡ false
unfolding member distinct_after
distinct_after-new x seen [] h = ground arith
distinct_after-new x seen (y ∷ ys) h =
    ground
      (arith, distinct_after-new x seen ys h, distinct_after-new x (y ∷ seen) ys, says_sound x y)

pub distinct_after-Distinct : (seen xs : List String) → Distinct (distinct_after seen xs)
unfolding member distinct_after
distinct_after-Distinct seen [] = tt
distinct_after-Distinct seen (y ∷ ys) = ground (
  arith,
  distinct_after-Distinct seen ys,
  distinct_after-Distinct (y ∷ seen) ys,
  distinct_after-new y (y ∷ seen) ys,
  says_refl y,
)

-- `s.split(",")`
unfoldable pub split_commas : String → List String
split_commas String.[] = String.[] ∷ []
split_commas (String.◌∷◌ c s) =
    let rest = split_commas s in
    elim (code c == 44) [
      | true ↦ String.[] ∷ rest
      | false ↦ elim rest [ [] ↦ String.◌∷◌ c String.[] ∷ [] | w ∷ ws ↦ String.◌∷◌ c w ∷ ws ]
    ]

-- `tuple(x for x in s.split(",") if x)`
abbrev pub comma_words : String → List String
comma_words s = keep (λ w. not (is_empty w)) (split_commas s)
