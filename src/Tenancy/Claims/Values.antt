-- ===== src/Tenancy/Claims/Values.antt =====
-- The texts of a claim are normalised and bounded, and so are the dimension scopes.
use ai_native_governed_data.Prelude.{
  ℕ, suc, ◌≤◌, String, false, Option, none, some, List, [], ◌∷◌, ◌++◌, ◌≡◌, subst, All-append, inl,
  inr, refl, length, ltb, ◌==◌, arith, strip, is_empty, All, Bool-cases,
}
use ai_native_governed_data.Prelude.Words.{Distinct-append, member, Distinct}
use ai_native_governed_data.Prelude.Results.{ok, >>=-eq-ok, ok-inj, raise_if, raise_unless}
use ai_native_governed_data.Tenancy.{DimensionScope}
use ai_native_governed_data.Tenancy.Claims.{
  Value, null_value, text, array, other, Claim, value, object, too_many, not_one_value,
  empty_dimension, IdentityPolicy, add_word, collect, one_scope, at_most, string_values,
  dimension_scope, scopes_loop, dimension_scopes_of,
}

-- No text twice and none blank.
pub record Clean (values : List String) : Type 0 where
  distinct : Distinct values
  filled : All (λ s. is_empty s ≡ false) values

add_word-Clean :
    (word : String) (values : List String) → Clean values → Clean (add_word word values)
unfolding add_word
add_word-Clean word values c = elim (Bool-cases (is_empty word)) [
  | inl empty ↦ subst Clean (ground arith) c
  | inr filled ↦ elim (Bool-cases (member word values)) [
    | inl old ↦ subst Clean (ground arith) c
    | inr fresh ↦
        let c' : Clean (values ++ word ∷ []) = record {
          distinct = Distinct-append word values c.distinct fresh;
          filled = All-append (λ s. is_empty s ≡ false) values (word ∷ []) c.filled (filled, tt);
        } in
        subst Clean (ground arith) c'
  ]
]

collect-Clean :
    (candidates : List (Option String)) (values : List String) {out : List String}
    → Clean values
    → collect candidates values ≡ ok out
    → Clean out
unfolding collect
collect-Clean [] values c h = subst Clean (ok-inj h) c
collect-Clean (none ∷ candidates) values c h = cc
collect-Clean (some candidate ∷ candidates) values c h =
    collect-Clean candidates (add_word (strip candidate) values)
      (add_word-Clean (strip candidate) values c) h

abbrev pub Bounded : ℕ → List String → Type 0
Bounded n values = Clean values × (length values ≤ n)

at_most-Bounded :
    (n : ℕ) (values : List String) {out : List String}
    → Clean values
    → at_most n values ≡ ok out
    → Bounded n out
at_most-Bounded n values {out} c h =
    let (fits, o) = raise_if (ltb n (length values)) (too_many n) (ok values) h in
    subst (Bounded n) (ok-inj o) (c, ground arith)

no_words : Clean []
no_words = record { distinct = tt; filled = tt }

pub string_values-Bounded :
    (v : Value) (n : ℕ) {out : List String} → string_values v n ≡ ok out → Bounded n out
unfolding string_values
string_values-Bounded null_value n h = subst (Bounded n) (ok-inj h) (no_words, ground arith)
string_values-Bounded (text s) n h =
    let (values, c, a) = >>=-eq-ok (collect (some s ∷ []) []) _ h in
    at_most-Bounded n values (collect-Clean (some s ∷ []) [] no_words c) a
string_values-Bounded (array shown items) n h =
    let (values, c, a) = >>=-eq-ok (collect items []) _ h in
    at_most-Bounded n values (collect-Clean items [] no_words c) a
string_values-Bounded (other shown) n h = cc

-- A dimension scope with a name and one value.
pub record OneValue (scope : DimensionScope) : Type 0 where
  named : is_empty scope.dimension ≡ false
  single : length scope.values ≡ 1
  filled : All (λ s. is_empty s ≡ false) scope.values

one_scope-OneValue :
    (name : String) (values : List String) {scope : DimensionScope}
    → is_empty name ≡ false
    → Clean values
    → one_scope name values ≡ ok scope
    → OneValue scope
one_scope-OneValue name values {scope} f c h =
    let made : DimensionScope = record { dimension = name; values = values } in
    let (one, o) = raise_unless (length values == 1) (not_one_value name) (ok made) h in
    subst OneValue (ok-inj o) (record { named = f; single = ground arith; filled = c.filled })

dimension_scope-OneValue :
    (dimension : String) (v : Value) {scope : DimensionScope}
    → dimension_scope dimension v ≡ ok scope
    → OneValue scope
unfolding dimension_scope
dimension_scope-OneValue dimension v {scope} h =
    let name = strip dimension in
    let (named, rest) = raise_if (is_empty name) empty_dimension _ h in
    let (values, s, o) = >>=-eq-ok (string_values v 1) _ rest in
    one_scope-OneValue name values named (string_values-Bounded v 1 s).0 o

scopes_loop-OneValue :
    (entries : List (String × Value)) {scopes : List DimensionScope}
    → scopes_loop entries ≡ ok scopes
    → All OneValue scopes × (length scopes ≡ length entries)
unfolding scopes_loop
scopes_loop-OneValue [] h = subst (λ ss. All OneValue ss × (length ss ≡ 0)) (ok-inj h) (tt, refl)
scopes_loop-OneValue ((dimension, v) ∷ entries) h =
    let (scope, d, rest) = >>=-eq-ok (dimension_scope dimension v) _ h in
    let (scopes, l, o) = >>=-eq-ok (scopes_loop entries) _ rest in
    let (ones, count) = scopes_loop-OneValue entries l in
    subst (λ ss. All OneValue ss × (length ss ≡ suc (length entries))) (ok-inj o)
      ((dimension_scope-OneValue dimension v d, ones), omega (arith, count))

pub dimension_scopes_of-OneValue :
    (policy : IdentityPolicy) (claim : Claim) {scopes : List DimensionScope}
    → dimension_scopes_of policy claim ≡ ok scopes
    → All OneValue scopes × (length scopes ≤ policy.max_dimension_scopes)
unfolding dimension_scopes_of
dimension_scopes_of-OneValue policy (value null_value) h =
    subst (λ ss. All OneValue ss × (length ss ≤ policy.max_dimension_scopes)) (ok-inj h)
      (tt, ground arith)
dimension_scopes_of-OneValue policy (value (text _)) h = cc
dimension_scopes_of-OneValue policy (value (array _ _)) h = cc
dimension_scopes_of-OneValue policy (value (other _)) h = cc
dimension_scopes_of-OneValue policy (object shown entries) {scopes} h =
    let (few, l) =
      raise_if (ltb policy.max_dimension_scopes (length entries)) _ (scopes_loop entries) h in
    let (ones, count) = scopes_loop-OneValue entries l in (ones, ground (arith, count))
