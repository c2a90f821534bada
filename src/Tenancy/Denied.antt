-- ===== src/Tenancy/Denied.antt =====
-- The claims mapper and the authorizer together: what no claim allows is refused.
use ai_native_governed_data.Prelude.{
  String, false, some, List, [], ◌∷◌, ◌≡◌, refl, sym, subst, null, inl, inr, arith, Bool-cases, All,
  is_empty,
}
use ai_native_governed_data.Prelude.Words.{Within, member, comma_words, split_commas}
use ai_native_governed_data.Prelude.Results.{ok, ok-inj}
use ai_native_governed_data.Tenancy.{RequestContext}
use ai_native_governed_data.Tenancy.Claims.{
  Claims, value, null_value, IdentityPolicy, claim_at, string_values, value_of_claim,
  object_allowlist, map_claims,
}
use ai_native_governed_data.Tenancy.Claims.Admitted.{Admitted, map_claims-Admitted}
use ai_native_governed_data.Tenancy.Authorize.{Route, authorize}
use ai_native_governed_data.Tenancy.Authorize.Exact.{Met, target_demands, authorize-exact}

metrics_absent :
    (policy : IdentityPolicy) (subject : String) (claims : Claims) (context : RequestContext)
    → Admitted policy subject claims context
    → claim_at claims policy.metrics_claim ≡ value null_value
    → context.allowed_metrics ≡ []
unfolding object_allowlist string_values
metrics_absent policy subject claims context a absent =
    let read = a.metrics_read in
    sym (
      ok-inj (
        subst
          (λ c.
            string_values (value_of_claim c) policy.max_object_allowlist_items
            ≡ ok context.allowed_metrics)
          absent read))

not_Within : (xs : List String) → null xs ≡ false → ¬ Within [] xs
unfolding member
not_Within [] h w = ground arith
not_Within (x ∷ xs) h w = ground (arith, w.0)

words_filled : (target : String) → null (comma_words target) ≡ false → is_empty target ≡ false
unfolding split_commas
words_filled String.[] h = ground arith
words_filled (String.◌∷◌ c s) h = refl

metric_demand :
    (route : Route) (context : RequestContext)
    → route.target_kind ≡ "metric"
    → null (comma_words route.target_id) ≡ false
    → All Met (target_demands route context)
    → Within context.allowed_metrics (comma_words route.target_id)
metric_demand route context k w met = ground (arith, words_filled route.target_id w, met)

-- Where the claims hold no metric allow-list, a context that `map` makes of them is refused every
-- metric route that names a metric, whatever its scopes and the policy.
pub absent_allowlist-denied :
    (policy : IdentityPolicy) (subject : String) (scopes : List String) (claims : Claims)
    (context : RequestContext) (table : List (String × List String)) (route : Route)
    → map_claims policy subject scopes claims ≡ ok context
    → claim_at claims policy.metrics_claim ≡ value null_value
    → route.target_kind ≡ "metric"
    → null (comma_words route.target_id) ≡ false
    → (authorize table route (some context)).allowed ≡ false
absent_allowlist-denied policy subject scopes claims context table route h absent k w =
    let a = map_claims-Admitted policy subject scopes claims context h in
    let none_allowed = metrics_absent policy subject claims context a absent in
    elim (Bool-cases (authorize table route (some context)).allowed) [
      | inr refused ↦ refused
      | inl allowed ↦
          let g = (authorize-exact table route context).0 allowed in
          let within = metric_demand route context k w g.targets_met in
          elim (not_Within (comma_words route.target_id) w
            (subst (λ allow. Within allow (comma_words route.target_id)) none_allowed within)) [ ]
    ]
