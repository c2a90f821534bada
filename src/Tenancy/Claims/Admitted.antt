-- ===== src/Tenancy/Claims/Admitted.antt =====
-- What a request context that the claims mapper returns satisfies.
use ai_native_governed_data.Prelude.{
  ◌≤◌, String, false, not, ◌&&◌, List, ◌≡◌, subst, refl, length, says, strip, is_empty, All,
}
use ai_native_governed_data.Prelude.Results.{ok, >>=-eq-ok, ok-inj, raise_if}
use ai_native_governed_data.Tenancy.{RequestContext}
use ai_native_governed_data.Tenancy.Claims.{
  Claims, subject_required, subject_mismatch, tenant_required, IdentityPolicy, claim_at, text_at,
  string_values, value_of_claim, object_allowlist, dimension_scopes_of, check_subject, check_tenant,
  map_claims,
}
use ai_native_governed_data.Tenancy.Claims.Values.{
  Bounded, OneValue, string_values-Bounded, dimension_scopes_of-OneValue,
}

check_subject-ok :
    (subject : String) (claims : Claims) {normalized : String}
    → check_subject subject claims ≡ ok normalized
    → (normalized ≡ strip subject)
      × (is_empty normalized ≡ false)
      × (not (is_empty (text_at claims "sub")) && not (says (text_at claims "sub") normalized)
          ≡ false)
unfolding check_subject
check_subject-ok subject claims h =
    let (filled, rest) = raise_if (is_empty (strip subject)) subject_required _ h in
    let (agrees, o) =
      raise_if
        (not (is_empty (text_at claims "sub")) && not (says (text_at claims "sub") (strip subject)))
        subject_mismatch _ rest in
    subst
      (λ n.
        (n ≡ strip subject)
        × (is_empty n ≡ false)
        × (not (is_empty (text_at claims "sub")) && not (says (text_at claims "sub") n) ≡ false))
      (ok-inj o) (refl, filled, agrees)

check_tenant-ok :
    (policy : IdentityPolicy) (claims : Claims) {tenant : String}
    → check_tenant policy claims ≡ ok tenant
    → (tenant ≡ text_at claims policy.tenant_claim) × (is_empty tenant ≡ false)
unfolding check_tenant
check_tenant-ok policy claims h =
    let t = text_at claims policy.tenant_claim in
    let (filled, o) = raise_if (is_empty t) tenant_required _ h in
    subst (λ n. (n ≡ t) × (is_empty n ≡ false)) (ok-inj o) (refl, filled)

object_allowlist-Bounded :
    (policy : IdentityPolicy) (claims : Claims) (name : String) {out : List String}
    → object_allowlist policy claims name ≡ ok out
    → Bounded policy.max_object_allowlist_items out
unfolding object_allowlist
object_allowlist-Bounded policy claims name h =
    string_values-Bounded (value_of_claim (claim_at claims name)) policy.max_object_allowlist_items
      h

-- A context that the mapper may return for a subject and claims.
pub record Admitted (policy : IdentityPolicy) (subject : String) (claims : Claims)
    (context : RequestContext) : Type 0 where
  tenant_from_claim : context.tenant_id ≡ text_at claims policy.tenant_claim
  tenant_filled : is_empty context.tenant_id ≡ false
  subject_from_identity : context.subject ≡ strip subject
  subject_filled : is_empty context.subject ≡ false
  subject_agrees :
      not (is_empty (text_at claims "sub")) && not (says (text_at claims "sub") context.subject)
      ≡ false
  roles_bounded : Bounded policy.max_roles context.roles
  pub metrics_read :
      object_allowlist policy claims policy.metrics_claim ≡ ok context.allowed_metrics
  metrics_bounded : Bounded policy.max_object_allowlist_items context.allowed_metrics
  datasets_bounded : Bounded policy.max_object_allowlist_items context.allowed_datasets
  entities_bounded : Bounded policy.max_object_allowlist_items context.allowed_entities
  dimensions_bounded : Bounded policy.max_object_allowlist_items context.allowed_dimensions
  knowledge_bounded : Bounded policy.max_object_allowlist_items context.allowed_knowledge_scopes
  scopes_single : All OneValue context.dimension_scopes
  scopes_bounded : length context.dimension_scopes ≤ policy.max_dimension_scopes
  explicit : context.implicit_local ≡ false

-- A context that `map` returns has the tenant of the tenant claim, which is not blank; the
-- stripped subject, which is not blank and is the `sub` claim where there is one; roles and
-- allow-lists of distinct, non-empty texts within the policy's limits; dimension scopes within
-- theirs, each with a name and exactly one non-empty value; and is not the implicit local one.
pub map_claims-Admitted :
    (policy : IdentityPolicy) (subject : String) (scopes : List String) (claims : Claims)
    (context : RequestContext)
    → map_claims policy subject scopes claims ≡ ok context
    → Admitted policy subject claims context
unfolding map_claims
map_claims-Admitted policy subject scopes claims context h =
    let (normalized, hs, h1) = >>=-eq-ok (check_subject subject claims) _ h in
    let (tenant, ht, h2) = >>=-eq-ok (check_tenant policy claims) _ h1 in
    let (roles, hr, h3) =
      >>=-eq-ok
        (string_values (value_of_claim (claim_at claims policy.roles_claim)) policy.max_roles) _
        h2 in
    let (dims, hd, h4) =
      >>=-eq-ok (dimension_scopes_of policy (claim_at claims policy.scopes_claim)) _ h3 in
    let (metrics, a1, h5) = >>=-eq-ok (object_allowlist policy claims policy.metrics_claim) _ h4 in
    let (datasets, a2, h6) =
      >>=-eq-ok (object_allowlist policy claims policy.datasets_claim) _ h5 in
    let (entities, a3, h7) =
      >>=-eq-ok (object_allowlist policy claims policy.entities_claim) _ h6 in
    let (dimensions, a4, h8) =
      >>=-eq-ok (object_allowlist policy claims policy.dimensions_claim) _ h7 in
    let (knowledge, a5, o) =
      >>=-eq-ok (object_allowlist policy claims policy.knowledge_claim) _ h8 in
    let (named, filled, agrees) = check_subject-ok subject claims hs in
    let (from_claim, tenant_filled) = check_tenant-ok policy claims ht in
    let (ones, few) = dimension_scopes_of-OneValue policy _ hd in
    subst (Admitted policy subject claims) (ok-inj o) (record {
      tenant_from_claim = from_claim;
      tenant_filled = tenant_filled;
      subject_from_identity = named;
      subject_filled = filled;
      subject_agrees = agrees;
      roles_bounded = string_values-Bounded _ policy.max_roles hr;
      metrics_read = a1;
      metrics_bounded = object_allowlist-Bounded policy claims policy.metrics_claim a1;
      datasets_bounded = object_allowlist-Bounded policy claims policy.datasets_claim a2;
      entities_bounded = object_allowlist-Bounded policy claims policy.entities_claim a3;
      dimensions_bounded = object_allowlist-Bounded policy claims policy.dimensions_claim a4;
      knowledge_bounded = object_allowlist-Bounded policy claims policy.knowledge_claim a5;
      scopes_single = ones;
      scopes_bounded = few;
      explicit = refl;
    })
