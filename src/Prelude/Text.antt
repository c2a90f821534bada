-- ===== src/Prelude/Text.antt =====
-- Texts: their decidable equality, and `str.strip`.
use Prim.Native.Nat.{ℕ, compare, Ordering}
use Prim.Native.Char.{Char, code}
use Prim.Native.String.{String}
use mathlib.Core.Path.{◌≡◌, refl}
use mathlib.Core.Logic.{◌↔◌, ite}
use mathlib.Core.Bool.{Bool, true, false, ◌&&◌, ◌||◌}
use text.Mathlib.Text.{◌==◌ as str_eq}
use text.Mathlib.TextEquality.{eq_iff}
use native.Mathlib.Omega.{arith}

-- A Boolean test that is right for a statement decides it.
unfoldable pub dec_by {ℓ} : {P : Type ℓ} (b : Bool) → ((b ≡ true) ↔ P) → Dec P
dec_by true e = yes (e.0 refl)
dec_by false e = no (λ p. cc (e.1 p))

unfoldable pub string_discrete : Discrete String
unfolding dec_by
string_discrete s t = dec_by (str_eq s t) (eq_iff s t)

abbrev pub is_empty : String → Bool
is_empty String.[] = true
is_empty (String.◌∷◌ c s) = false

abbrev between : ℕ → ℕ → ℕ → Bool
between lo hi c = elim (compare c lo) [
  | Ordering.lt ↦ false
  | _ ↦ elim (compare c hi) [ Ordering.gt ↦ false | _ ↦ true ]
]

-- `str.isspace` of one character.
unfoldable pub is_space : Char → Bool
is_space c =
    between 0x09 0x0d (code c)
    || between 0x1c 0x20 (code c)
    || between 0x85 0x85 (code c)
    || between 0xa0 0xa0 (code c)
    || between 0x1680 0x1680 (code c)
    || between 0x2000 0x200a (code c)
    || between 0x2028 0x2029 (code c)
    || between 0x202f 0x202f (code c)
    || between 0x205f 0x205f (code c)
    || between 0x3000 0x3000 (code c)

lstrip : String → String
lstrip String.[] = String.[]
lstrip (String.◌∷◌ c s) = elim (is_space c) [ true ↦ lstrip s | false ↦ String.◌∷◌ c s ]

rstrip : String → String
rstrip String.[] = String.[]
rstrip (String.◌∷◌ c s) =
    let rest = rstrip s in
    elim (is_empty rest && is_space c) [ true ↦ String.[] | false ↦ String.◌∷◌ c rest ]

-- `s.strip()`
unfoldable pub strip : String → String
unfolding is_space lstrip rstrip
strip s = rstrip (lstrip s)

-- `text == literal`
abbrev pub says : String → String → Bool
says text literal = ite (string_discrete text literal) true false

pub says_refl : (s : String) → says s s ≡ true
says_refl s = ground arith

pub says_sound : (s t : String) → says s t ≡ true → s ≡ t
says_sound s t h = ground arith
