-- ===== src/Tenancy/Scope/Enforced.antt =====
-- A ready plan that passes `apply` carries every mandatory scope of its request context.
use mathlib.Core.List.{append-nil, append_assoc}
use ai_native_governed_data.Prelude.{
  String, Bool, true, false, ◌&&◌, List, [], ◌∷◌, ◌++◌, ◌≡◌, ap, ◌∙◌, sym, subst, ◌⊎◌, inl, inr,
  refl, arith, says, says_sound, says_refl, All, any, null, Bool-cases,
}
use ai_native_governed_data.Prelude.Results.{ok, >>=-eq-ok, ok-inj}
use ai_native_governed_data.Tenancy.{DimensionScope}
use ai_native_governed_data.SemanticQuery.{SemanticDimensionFilter}
use ai_native_governed_data.Tenancy.Scope.{
  ScopePolicy, scope_filter, on_dimension, has_other_value, add_value, add_single, add_scope,
  merge_scopes,
}

abbrev pub is_filter_on : String → String → SemanticDimensionFilter → Bool
is_filter_on dimension value item = says item.dimension dimension && says item.value value

-- A scope holds of filters: one of them is on its dimension, and all that are have its one value.
pub record Enforced (filters : List SemanticDimensionFilter) (scope : DimensionScope) : Type 0 where
  scope_value : String
  only_value : scope.values ≡ scope_value ∷ []
  present : any (is_filter_on scope.dimension scope_value) filters ≡ true
  unopposed : has_other_value scope_value (on_dimension scope.dimension filters) ≡ false

-- A filter added on a dimension that has none does not touch another's scope.
add-other :
    (dimension value source d v : String) (filters : List SemanticDimensionFilter)
    → null (on_dimension d filters) ≡ true
    → any (is_filter_on dimension value) filters ≡ true
    → says d dimension ≡ false
add-other dimension value source d v [] h p = ground arith
add-other dimension value source d v (f ∷ fs) h p =
    ground (arith, add-other dimension value source d v fs, says_sound d dimension)

any-append {ℓ} :
    {A : Type ℓ} (test : A → Bool) (xs ys : List A)
    → any test xs ≡ true
    → any test (xs ++ ys) ≡ true
any-append test [] ys h = ground arith
any-append test (x ∷ xs) ys h = ground (arith, any-append test xs ys)

any-append_last {ℓ} :
    {A : Type ℓ} (test : A → Bool) (xs : List A) (y : A)
    → test y ≡ true
    → any test (xs ++ y ∷ []) ≡ true
any-append_last test [] y h = ground arith
any-append_last test (x ∷ xs) y h = ground (arith, any-append_last test xs y)

unopposed-append_other :
    (dimension value : String) (filters : List SemanticDimensionFilter)
    (f : SemanticDimensionFilter)
    → says f.dimension dimension ≡ false
    → has_other_value value (on_dimension dimension filters) ≡ false
    → has_other_value value (on_dimension dimension (filters ++ f ∷ [])) ≡ false
unopposed-append_other dimension value [] f e h = ground arith
unopposed-append_other dimension value (g ∷ gs) f e h =
    ground (arith, unopposed-append_other dimension value gs f e)

unopposed-append_fresh :
    (dimension value source : String) (filters : List SemanticDimensionFilter)
    → null (on_dimension dimension filters) ≡ true
    → has_other_value value
        (on_dimension dimension (filters ++ scope_filter source dimension value ∷ []))
      ≡ false
unopposed-append_fresh dimension value source [] h = ground (arith, says_refl value)
unopposed-append_fresh dimension value source (g ∷ gs) h =
    ground (arith, unopposed-append_fresh dimension value source gs)

present-of_unopposed :
    (dimension value : String) (filters : List SemanticDimensionFilter)
    → null (on_dimension dimension filters) ≡ false
    → has_other_value value (on_dimension dimension filters) ≡ false
    → any (is_filter_on dimension value) filters ≡ true
present-of_unopposed dimension value [] h u = ground arith
present-of_unopposed dimension value (g ∷ gs) h u =
    ground (arith, present-of_unopposed dimension value gs)

-- What one successful turn of the loop did: the filter was added, or it was there.
pub record Added (source dimension value : String) (filters more : List SemanticDimensionFilter)
    : Type 0 where
  grown : more ≡ filters ++ scope_filter source dimension value ∷ []
  absent : null (on_dimension dimension filters) ≡ true

pub record Found (dimension value : String) (filters more : List SemanticDimensionFilter)
    : Type 0 where
  same : more ≡ filters
  there : null (on_dimension dimension filters) ≡ false
  agreed : has_other_value value (on_dimension dimension filters) ≡ false

module _ (policy : ScopePolicy) (source : String) where
  add_value-cases :
      (dimension value : String) (filters : List SemanticDimensionFilter)
      {more : List SemanticDimensionFilter}
      → add_value policy source dimension value filters ≡ ok more
      → Added source dimension value filters more ⊎ Found dimension value filters more
  unfolding add_value
  add_value-cases dimension value filters {more} h =
      elim (Bool-cases (null (on_dimension dimension filters))) [
        | inl absent ↦ inl (record { grown = ground arith; absent = absent })
        | inr there ↦ inr (record { same = ground arith; there = there; agreed = ground arith })
      ]

  -- A successful turn keeps what the filters enforce,
  add_value-keeps :
      (dimension value : String) (filters : List SemanticDimensionFilter)
      {more : List SemanticDimensionFilter} (scope : DimensionScope)
      → Added source dimension value filters more ⊎ Found dimension value filters more
      → Enforced filters scope
      → Enforced more scope
  add_value-keeps dimension value filters scope (inr f) e =
      subst (λ fs. Enforced fs scope) (sym f.same) e
  add_value-keeps dimension value filters scope (inl a) e =
      let fresh = scope_filter source dimension value in
      let d = scope.dimension in
      let v = e.scope_value in
      let apart = add-other d v source dimension value filters a.absent e.present in
      subst (λ fs. Enforced fs scope) (sym a.grown)
        (record {
          scope_value = v;
          only_value = e.only_value;
          present = any-append (is_filter_on d v) filters (fresh ∷ []) e.present;
          unopposed = unopposed-append_other d v filters fresh apart e.unopposed;
        })

  -- and enforces its own scope.
  add_value-enforces :
      (value : String) (filters : List SemanticDimensionFilter)
      {more : List SemanticDimensionFilter} (scope : DimensionScope)
      → scope.values ≡ value ∷ []
      → Added source scope.dimension value filters more ⊎ Found scope.dimension value filters more
      → Enforced more scope
  add_value-enforces value filters scope only (inr f) =
      subst (λ fs. Enforced fs scope) (sym f.same)
        (record {
          scope_value = value;
          only_value = only;
          present = present-of_unopposed scope.dimension value filters f.there f.agreed;
          unopposed = f.agreed;
        })
  add_value-enforces value filters scope only (inl a) =
      let d = scope.dimension in
      let fresh = scope_filter source d value in
      subst (λ fs. Enforced fs scope) (sym a.grown)
        (record {
          scope_value = value;
          only_value = only;
          present =
              any-append_last (is_filter_on d value) filters fresh
                (ground (arith, says_refl d, says_refl value));
          unopposed = unopposed-append_fresh d value source filters a.absent;
        })

  add_single-keeps :
      (dimension : String) (values : List String) (filters : List SemanticDimensionFilter)
      {more : List SemanticDimensionFilter} (scope : DimensionScope)
      → add_single policy source dimension values filters ≡ ok more
      → Enforced filters scope
      → Enforced more scope
  unfolding add_single
  add_single-keeps dimension [] filters scope h e = cc
  add_single-keeps dimension (value ∷ []) filters scope h e =
      add_value-keeps dimension value filters scope (add_value-cases dimension value filters h) e
  add_single-keeps dimension (_ ∷ _ ∷ _) filters scope h e = cc

  add_single-enforces :
      (values : List String) (filters : List SemanticDimensionFilter)
      {more : List SemanticDimensionFilter} (scope : DimensionScope)
      → scope.values ≡ values
      → add_single policy source scope.dimension values filters ≡ ok more
      → Enforced more scope
  unfolding add_single
  add_single-enforces [] filters scope e h = cc
  add_single-enforces (value ∷ []) filters scope e h =
      add_value-enforces value filters scope e (add_value-cases scope.dimension value filters h)
  add_single-enforces (_ ∷ _ ∷ _) filters scope e h = cc

  add_scope-single :
      (scope : DimensionScope) (filters : List SemanticDimensionFilter)
      {more : List SemanticDimensionFilter}
      → add_scope policy source scope filters ≡ ok more
      → add_single policy source scope.dimension scope.values filters ≡ ok more
  unfolding add_scope
  add_scope-single scope filters h = ground arith

  merge_scopes-keeps :
      (scopes : List DimensionScope) (filters : List SemanticDimensionFilter)
      {more : List SemanticDimensionFilter} (scope : DimensionScope)
      → merge_scopes policy source scopes filters ≡ ok more
      → Enforced filters scope
      → Enforced more scope
  unfolding merge_scopes
  merge_scopes-keeps [] filters {more} scope h e = subst (λ fs. Enforced fs scope) (ok-inj h) e
  merge_scopes-keeps (next ∷ scopes) filters scope h e =
      let (step, s, rest) = >>=-eq-ok (add_scope policy source next filters) _ h in
      merge_scopes-keeps scopes step scope rest (
        add_single-keeps next.dimension next.values filters scope (add_scope-single next filters s)
          e)

  pub merge_scopes-Enforced :
      (scopes : List DimensionScope) (filters : List SemanticDimensionFilter)
      {more : List SemanticDimensionFilter}
      → merge_scopes policy source scopes filters ≡ ok more
      → All (Enforced more) scopes
  unfolding merge_scopes
  merge_scopes-Enforced [] filters h = tt
  merge_scopes-Enforced (next ∷ scopes) filters h =
      let (step, s, rest) = >>=-eq-ok (add_scope policy source next filters) _ h in
      let now =
        add_single-enforces next.values filters next refl (add_scope-single next filters s) in
      (merge_scopes-keeps scopes step next rest now, merge_scopes-Enforced scopes step rest)

  add_single-extends :
      (dimension : String) (values : List String) (filters : List SemanticDimensionFilter)
      {more : List SemanticDimensionFilter}
      → add_single policy source dimension values filters ≡ ok more
      → (added : List SemanticDimensionFilter) × (more ≡ filters ++ added)
  unfolding add_single
  add_single-extends dimension [] filters h = cc
  add_single-extends dimension (value ∷ []) filters h =
      elim (add_value-cases dimension value filters h) [
        | inl a ↦ (scope_filter source dimension value ∷ [], a.grown)
        | inr f ↦ ([], f.same ∙ sym (append-nil filters))
      ]
  add_single-extends dimension (_ ∷ _ ∷ _) filters h = cc

  -- The filters of the plan stay, in order, before the added ones.
  pub merge_scopes-extends :
      (scopes : List DimensionScope) (filters : List SemanticDimensionFilter)
      {more : List SemanticDimensionFilter}
      → merge_scopes policy source scopes filters ≡ ok more
      → (added : List SemanticDimensionFilter) × (more ≡ filters ++ added)
  unfolding merge_scopes
  merge_scopes-extends [] filters h = ([], sym (ok-inj h) ∙ sym (append-nil filters))
  merge_scopes-extends (next ∷ scopes) filters h =
      let (step, s, rest) = >>=-eq-ok (add_scope policy source next filters) _ h in
      let (first, e) =
        add_single-extends next.dimension next.values filters (add_scope-single next filters s) in
      let (others, f) = merge_scopes-extends scopes step rest in
      (first ++ others, f ∙ ap (λ fs. fs ++ others) e ∙ append_assoc filters first others)
