-- ===== src/Sessions/Filters.antt =====
-- agent/analysis_session/session.py: a delta replaces a filter on a dimension, and never doubles it.
use ai_native_governed_data.Prelude.{
  String, Bool, true, false, Option, none, some, List, [], ◌∷◌, ◌++◌, ◌≡◌, refl, sym, subst, ap,
  ◌∙◌, ◌⊎◌, or_else, if◌then◌else◌, arith, says, says_sound, says_refl, inl, inr, Bool-cases,
  Option-cases,
}
use ai_native_governed_data.Prelude.Words.{
  member, except, distinct_after, Distinct, Distinct-append,
}
use ai_native_governed_data.Tenancy.Scope.{dimensions_of}
use ai_native_governed_data.SemanticQuery.{
  SemanticDimensionFilter, eq, SemanticQuerySpec, metric_names,
}
use ai_native_governed_data.Sessions.Deltas.{
  Delta, Resolved, Reading, only, metric_delta, add_metric_to, without_dimension, has_dimension,
  remove_dimension, remove_filter_delta, replaced, set_filter, filter_delta, delta_of,
}

-- No two filters of a specification are on one dimension.
pub record OneEach (spec : SemanticQuerySpec) : Type 0 where
  pub distinct : Distinct (dimensions_of spec.filters)

member-has :
    (dimension : String) (filters : List SemanticDimensionFilter)
    → has_dimension dimension filters ≡ false
    → member dimension (dimensions_of filters) ≡ false
unfolding member
member-has dimension [] h = refl
member-has dimension (f ∷ fs) h =
    ground (arith, member-has dimension fs, says_sound dimension f.dimension, says_refl dimension)

member-without :
    (d dimension : String) (filters : List SemanticDimensionFilter)
    → member d (dimensions_of filters) ≡ false
    → member d (dimensions_of (without_dimension dimension filters)) ≡ false
unfolding member
member-without d dimension [] h = refl
member-without d dimension (f ∷ fs) h = ground (arith, member-without d dimension fs)

Distinct-without :
    (dimension : String) (filters : List SemanticDimensionFilter)
    → Distinct (dimensions_of filters)
    → Distinct (dimensions_of (without_dimension dimension filters))
Distinct-without dimension [] h = tt
Distinct-without dimension (f ∷ fs) h =
    let rest = without_dimension dimension fs in
    let go = Distinct-without dimension fs h.1 in
    elim (Bool-cases (says f.dimension dimension)) [
      | inl gone ↦
          let e : without_dimension dimension (f ∷ fs) ≡ rest = ground (arith, gone) in
          subst (λ xs. Distinct (dimensions_of xs)) (sym e) go
      | inr kept ↦
          let e : without_dimension dimension (f ∷ fs) ≡ f ∷ rest = ground (arith, kept) in
          subst (λ xs. Distinct (dimensions_of xs)) (sym e)
            (member-without f.dimension dimension fs h.0, go)
    ]

same_dimension :
    (f filter : SemanticDimensionFilter) (test : Bool)
    → says f.dimension filter.dimension ≡ test
    → (if test then filter else f).dimension ≡ f.dimension
same_dimension f filter true h = sym (says_sound f.dimension filter.dimension h)
same_dimension f filter false h = refl

dimensions-replaced :
    (filter : SemanticDimensionFilter) (filters : List SemanticDimensionFilter)
    → dimensions_of (replaced filter filters) ≡ dimensions_of filters
dimensions-replaced filter [] = refl
dimensions-replaced filter (f ∷ fs) =
    ap (λ d. d ∷ dimensions_of (replaced filter fs))
      (same_dimension f filter (says f.dimension filter.dimension) refl)
    ∙ ap (λ ds. f.dimension ∷ ds) (dimensions-replaced filter fs)

dimensions-append :
    (filters : List SemanticDimensionFilter) (f : SemanticDimensionFilter)
    → dimensions_of (filters ++ f ∷ []) ≡ dimensions_of filters ++ f.dimension ∷ []
dimensions-append [] f = refl
dimensions-append (g ∷ gs) f = ap (λ ds. g.dimension ∷ ds) (dimensions-append gs f)

abbrev filter_of : Resolved → SemanticDimensionFilter
filter_of r = record { dimension = r.dimension; operator = eq; value = r.value; source = r.source }

set_filter-OneEach :
    (spec : SemanticQuerySpec) (r : Resolved) → OneEach spec → OneEach (set_filter spec r).spec
unfolding set_filter
set_filter-OneEach spec r one =
    let after = (set_filter spec r).spec.filters in
    elim (Bool-cases (has_dimension r.dimension spec.filters)) [
      | inl there ↦
          let e : after ≡ replaced (filter_of r) spec.filters = ground (arith, there) in
          record {
            distinct =
                subst Distinct
                  (sym (ap dimensions_of e ∙ dimensions-replaced (filter_of r) spec.filters))
                  one.distinct;
          }
      | inr absent ↦
          let e : after ≡ spec.filters ++ filter_of r ∷ [] = ground (arith, absent) in
          record {
            distinct =
                subst Distinct
                  (sym (ap dimensions_of e ∙ dimensions-append spec.filters (filter_of r)))
                  (Distinct-append r.dimension (dimensions_of spec.filters) one.distinct
                    (member-has r.dimension spec.filters absent));
          }
    ]

or_else-cases :
    {A : Type 0} (first rest : Option A) {a : A}
    → or_else first rest ≡ some a
    → (first ≡ some a) ⊎ (rest ≡ some a)
or_else-cases none rest h = inr h
or_else-cases (some b) rest h = inl h

metric_delta-filters :
    (spec : SemanticQuerySpec) (reading : Reading) (delta : Delta)
    → metric_delta spec reading ≡ some delta
    → delta.spec.filters ≡ spec.filters
unfolding metric_delta
metric_delta-filters spec reading delta h =
    let found = except (distinct_after [] reading.metrics_named) (metric_names spec) in
    elim (Option-cases (only found)) [
      | inl many ↦ ground arith
      | inr (metric, one) ↦
          let e : add_metric_to spec metric ≡ delta = ground (arith, h, one) in
          sym (ap (λ (d : Delta). d.spec.filters) e)
    ]

remove_filter_delta-filters :
    (spec : SemanticQuerySpec) (reading : Reading) (delta : Delta)
    → remove_filter_delta spec reading ≡ some delta
    → (dimension : String) × (delta.spec.filters ≡ without_dimension dimension spec.filters)
unfolding remove_filter_delta
remove_filter_delta-filters spec reading delta h =
    elim (Option-cases (only (distinct_after [] reading.dimensions_named))) [
      | inl many ↦ ground arith
      | inr (dimension, one) ↦
          let e : remove_dimension spec dimension ≡ delta = ground (arith, h, one) in
          (dimension, sym (ap (λ (d : Delta). d.spec.filters) e))
    ]

filter_delta-OneEach :
    (spec : SemanticQuerySpec) (reading : Reading) (delta : Delta)
    → OneEach spec
    → filter_delta spec reading ≡ some delta
    → OneEach delta.spec
unfolding filter_delta
filter_delta-OneEach spec reading delta one h = elim (Option-cases reading.resolved) [
  | inl unresolved ↦ ground arith
  | inr (r, there) ↦
      let e : set_filter spec r ≡ delta = ground (arith, h, there) in
      subst (λ (d : Delta). OneEach d.spec) e (set_filter-OneEach spec r one)
]

-- Whatever a follow-up reads as, the delta that it makes of a specification with at most one
-- filter on each dimension is such a specification: a filter on a filtered dimension replaces.
pub delta_of-OneEach :
    (spec : SemanticQuerySpec) (reading : Reading) (delta : Delta)
    → OneEach spec
    → delta_of spec reading ≡ some delta
    → OneEach delta.spec
unfolding delta_of
delta_of-OneEach spec reading delta one h = elim (or_else-cases (metric_delta spec reading) _ h) [
  | inl m ↦ record {
    distinct =
        subst (λ fs. Distinct (dimensions_of fs)) (sym (metric_delta-filters spec reading delta m))
          one.distinct;
  }
  | inr later ↦ elim (or_else-cases (remove_filter_delta spec reading) _ later) [
    | inl removed ↦
        let (dimension, e) = remove_filter_delta-filters spec reading delta removed in
        record {
          distinct =
              subst (λ fs. Distinct (dimensions_of fs)) (sym e)
                (Distinct-without dimension spec.filters one.distinct);
        }
    | inr set ↦ filter_delta-OneEach spec reading delta one set
  ]
]
