-- ===== src/Tenancy/Claims.antt =====
-- agent/tenancy/claims.py: verified identity claims to a request context. A claim that is no text
-- carries the text that Python's `str(value or "")` makes of it; the policy file is a record.
pub mod Values
pub mod Admitted
use ai_native_governed_data.Prelude.{
  ℕ, String, Bool, true, false, not, ◌||◌, ◌&&◌, Option, none, some, List, [], ◌∷◌, ◌++◌, null,
  length, keep, map, ltb, ◌==◌, if◌then◌else◌, string_discrete, says, strip, is_empty,
}
use ai_native_governed_data.Prelude.Dict.{lookup}
use ai_native_governed_data.Prelude.Words.{member, distinct_after}
use ai_native_governed_data.Prelude.Results.{Result, ok, err, ◌>>=◌}
use ai_native_governed_data.Tenancy.{RequestContext, DimensionScope}

-- A claim that holds no dictionary: an array has `none` for an element that is no text.
pub data Value : Type 0 where
  null_value : Value
  text : String → Value
  array : String → List (Option String) → Value
  other : String → Value

pub data Claim : Type 0 where
  value : Value → Claim
  object : String → List (String × Value) → Claim

abbrev pub Claims : Type 0
Claims = List (String × Claim)

pub data TrustedIdentityError : Type 0 where
  subject_required : TrustedIdentityError
  subject_mismatch : TrustedIdentityError
  tenant_required : TrustedIdentityError
  not_texts : TrustedIdentityError
  texts_only : TrustedIdentityError
  too_many : ℕ → TrustedIdentityError
  scopes_not_object : TrustedIdentityError
  too_many_scopes : ℕ → TrustedIdentityError
  empty_dimension : TrustedIdentityError
  not_one_value : String → TrustedIdentityError

-- `identity_claims` and `limits` of the policy.
pub record IdentityPolicy : Type 0 where
  pub tenant_claim : String
  pub roles_claim : String
  pub metrics_claim : String
  pub datasets_claim : String
  pub entities_claim : String
  pub dimensions_claim : String
  pub knowledge_claim : String
  pub scopes_claim : String
  pub max_roles : ℕ
  pub max_object_allowlist_items : ℕ
  pub max_dimension_scopes : ℕ

-- `claims.get(name)`; a missing claim is `None`.
unfoldable pub claim_at : Claims → String → Claim
claim_at claims name = elim (lookup string_discrete name claims) [
  | none ↦ value null_value
  | some claim ↦ claim
]

-- `str(claims.get(name) or "").strip()`
unfoldable pub text_at : Claims → String → String
text_at claims name = elim (claim_at claims name) [
  | value null_value ↦ strip ""
  | value (text s) ↦ strip s
  | value (array shown items) ↦ strip shown
  | value (other shown) ↦ strip shown
  | object shown entries ↦ strip shown
]

-- `if value and value not in values: values.append(value)`
unfoldable pub add_word : String → List String → List String
add_word word values =
    if not (is_empty word) && not (member word values) then values ++ word ∷ [] else values

-- The loop of `_string_values`.
unfoldable pub collect :
    List (Option String) → List String → Result TrustedIdentityError (List String)
collect [] values = ok values
collect (none ∷ candidates) values = err texts_only
collect (some candidate ∷ candidates) values =
    collect candidates (add_word (strip candidate) values)

abbrev pub at_most : ℕ → List String → Result TrustedIdentityError (List String)
at_most max_items values =
    if ltb max_items (length values) then err (too_many max_items) else ok values

unfoldable pub string_values : Value → ℕ → Result TrustedIdentityError (List String)
string_values null_value max_items = ok []
string_values (text s) max_items = do values ← collect (some s ∷ []) []; at_most max_items values
string_values (array shown items) max_items = do values ← collect items []; at_most max_items values
string_values (other shown) max_items = err not_texts

abbrev pub value_of_claim : Claim → Value
value_of_claim (value v) = v
value_of_claim (object shown entries) = other shown

unfoldable pub object_allowlist :
    IdentityPolicy → Claims → String → Result TrustedIdentityError (List String)
object_allowlist policy claims name =
    string_values (value_of_claim (claim_at claims name)) policy.max_object_allowlist_items

abbrev pub one_scope : String → List String → Result TrustedIdentityError DimensionScope
one_scope name values =
    if length values == 1
    then ok (record { dimension = name; values = values })
    else err (not_one_value name)

-- One entry of the dimension scopes.
unfoldable pub dimension_scope : String → Value → Result TrustedIdentityError DimensionScope
dimension_scope dimension v =
    let name = strip dimension in
    if is_empty name
    then err empty_dimension
    else do values ← string_values v 1; one_scope name values

unfoldable pub scopes_loop :
    List (String × Value) → Result TrustedIdentityError (List DimensionScope)
scopes_loop [] = ok []
scopes_loop ((dimension, v) ∷ entries) = do
  scope ← dimension_scope dimension v
  scopes ← scopes_loop entries
  ok (scope ∷ scopes)

unfoldable pub dimension_scopes_of :
    IdentityPolicy → Claim → Result TrustedIdentityError (List DimensionScope)
dimension_scopes_of policy (value null_value) = ok []
dimension_scopes_of policy (value _) = err scopes_not_object
dimension_scopes_of policy (object shown entries) =
    if ltb policy.max_dimension_scopes (length entries)
    then err (too_many_scopes policy.max_dimension_scopes)
    else scopes_loop entries

-- The subject, once it is there and agrees with the `sub` claim.
unfoldable pub check_subject : String → Claims → Result TrustedIdentityError String
check_subject subject claims =
    let normalized = strip subject in
    let claim_subject = text_at claims "sub" in
    if is_empty normalized
    then err subject_required
    else if not (is_empty claim_subject) && not (says claim_subject normalized)
    then err subject_mismatch
    else ok normalized

unfoldable pub check_tenant : IdentityPolicy → Claims → Result TrustedIdentityError String
check_tenant policy claims =
    let tenant_id = text_at claims policy.tenant_claim in
    if is_empty tenant_id then err tenant_required else ok tenant_id

-- `frozenset(value for value in (str(item).strip() for item in scopes) if value)`
abbrev pub normalized_scopes : List String → List String
normalized_scopes scopes = distinct_after [] (keep (λ s. not (is_empty s)) (map strip scopes))

unfoldable pub map_claims :
    IdentityPolicy → String → List String → Claims → Result TrustedIdentityError RequestContext
map_claims policy subject scopes claims = do
  normalized_subject ← check_subject subject claims
  tenant_id ← check_tenant policy claims
  roles ← string_values (value_of_claim (claim_at claims policy.roles_claim)) policy.max_roles
  dimension_scopes ← dimension_scopes_of policy (claim_at claims policy.scopes_claim)
  allowed_metrics ← object_allowlist policy claims policy.metrics_claim
  allowed_datasets ← object_allowlist policy claims policy.datasets_claim
  allowed_entities ← object_allowlist policy claims policy.entities_claim
  allowed_dimensions ← object_allowlist policy claims policy.dimensions_claim
  allowed_knowledge_scopes ← object_allowlist policy claims policy.knowledge_claim
  ok (record {
    tenant_id = tenant_id;
    subject = normalized_subject;
    scopes = normalized_scopes scopes;
    roles = roles;
    allowed_metrics = allowed_metrics;
    allowed_datasets = allowed_datasets;
    allowed_entities = allowed_entities;
    allowed_dimensions = allowed_dimensions;
    allowed_knowledge_scopes = allowed_knowledge_scopes;
    dimension_scopes = dimension_scopes;
    implicit_local = false;
  })
