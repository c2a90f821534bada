-- ===== src/Incident/Drilldown.antt =====
-- agent/incident_drilldown/drilldown.py: the gate around the runtime provider. The first and the
-- last day of the query are numbers of days, as the provider counts its daily partitions; a text
-- that is no time raises before and is left out.
use Prim.Native.String
use ai_native_governed_data.Prelude.{
  ℕ, ◌+◌, ◌-◌, ◌≤◌, String, Bool, true, false, not, ◌||◌, Option, none, some, List, [], ◌∷◌, ◌≡◌,
  refl, sym, subst, ap, ◌∙◌, ltb, if◌then◌else◌, arith, All, inl, inr, Bool-cases,
}
use ai_native_governed_data.Prelude.Words.{member}
use ai_native_governed_data.Recovery.Failure.{FailureClass, value_of}
use ai_native_governed_data.Recovery.Policy.{decimal}
use ai_native_governed_data.Incident.{
  IncidentDrilldownStatus, PartitionIncidentEvidence, IncidentDrilldownResult,
}

abbrev pub recognised_classes : List String
recognised_classes =
    "none" ∷ "transient_runtime" ∷ "infrastructure_unavailable" ∷ "deterministic_code"
    ∷ "data_contract" ∷ "unknown" ∷ []

abbrev pub is_settled : IncidentDrilldownStatus → Bool
is_settled status = elim status [
  | IncidentDrilldownStatus.complete ↦ true
  | IncidentDrilldownStatus.no_incident ↦ true
  | _ ↦ false
]

-- Whether a partition's failed run, where it has one, has a class that the contract knows.
unfoldable pub is_recognised : PartitionIncidentEvidence → Bool
is_recognised partition = elim partition.latest_failed_run [
  | none ↦ true
  | some failed ↦ member failed.failure_class recognised_classes
]

abbrev pub class_text : PartitionIncidentEvidence → String
class_text partition = elim partition.latest_failed_run [
  | none ↦ ""
  | some failed ↦ failed.failure_class
]

-- The loop over the partitions: the first class that is not known.
unfoldable pub first_unrecognised : List PartitionIncidentEvidence → Option String
first_unrecognised [] = none
first_unrecognised (partition ∷ partitions) =
    let rest = first_unrecognised partitions in
    if is_recognised partition then rest else some (class_text partition)

abbrev pub over_partition_limit : ℕ → IncidentDrilldownResult
over_partition_limit max_partitions = record {
  status = IncidentDrilldownStatus.blocked;
  evidence = "STATIC_CONTRACT";
  partitions = [];
  warnings =
      String.◌++◌ "Incident drilldown supports at most "
        (String.◌++◌ (decimal max_partitions) " daily partitions per request.")
      ∷ [];
  validation = "INCIDENT_PARTITION_LIMIT_EXCEEDED";
}

abbrev pub unrecognised_class : List PartitionIncidentEvidence → String → IncidentDrilldownResult
unrecognised_class partitions failure_class = record {
  status = IncidentDrilldownStatus.blocked;
  evidence = "RUNTIME_VERIFIED";
  partitions = partitions;
  warnings = String.◌++◌ "Unrecognized structured failure class: " failure_class ∷ [];
  validation = "UNRECOGNIZED_FAILURE_CLASS";
}

-- After the provider's inspection.
unfoldable pub check_classes : IncidentDrilldownResult → IncidentDrilldownResult
check_classes result =
    if not (is_settled result.status) then result else elim (first_unrecognised result.partitions) [
      | none ↦ result
      | some failure_class ↦ unrecognised_class result.partitions failure_class
    ]

-- `execute`, given what the provider's `inspect` answers for the query.
unfoldable pub execute : ℕ → ℕ → ℕ → IncidentDrilldownResult → IncidentDrilldownResult
execute max_partitions first last inspected =
    if ltb last first || ltb max_partitions (last - first + 1)
    then over_partition_limit max_partitions
    else check_classes inspected

-- A settled drilldown of a window.
pub record Settled (max_partitions first last : ℕ) (inspected result : IncidentDrilldownResult)
    : Type 0 where
  ordered : first ≤ last
  within_limit : last - first + 1 ≤ max_partitions
  passed_on : result ≡ inspected
  recognised : All (λ p. is_recognised p ≡ true) result.partitions

first_unrecognised-All :
    (partitions : List PartitionIncidentEvidence)
    → first_unrecognised partitions ≡ none
    → All (λ p. is_recognised p ≡ true) partitions
unfolding first_unrecognised
first_unrecognised-All [] h = tt
first_unrecognised-All (p ∷ ps) h = elim (Bool-cases (is_recognised p)) [
  | inl known ↦ (known, first_unrecognised-All ps (sym (rw known) ∙ h))
  | inr unknown ↦ ground arith
]

-- Every class that the failure classifier can give a run is one that the drilldown recognises.
pub value_of-recognised : (c : FailureClass) → member (value_of c) recognised_classes ≡ true
unfolding value_of member
value_of-recognised c = ground arith

abbrev answer_by : IncidentDrilldownResult → Bool → Option String → IncidentDrilldownResult
answer_by inspected settled class = if not settled then inspected else elim class [
  | none ↦ inspected
  | some failure_class ↦ unrecognised_class inspected.partitions failure_class
]

answer_by-settled :
    (inspected : IncidentDrilldownResult) (settled : Bool) (class : Option String)
    → is_settled inspected.status ≡ settled
    → is_settled (answer_by inspected settled class).status ≡ true
    → (answer_by inspected settled class ≡ inspected) × (class ≡ none)
answer_by-settled inspected false class e h = cc
answer_by-settled inspected true none e h = (refl, refl)
answer_by-settled inspected true (some c) e h = cc

check_classes-settled :
    (inspected : IncidentDrilldownResult)
    → is_settled (check_classes inspected).status ≡ true
    → (check_classes inspected ≡ inspected) × All (λ p. is_recognised p ≡ true) inspected.partitions
unfolding check_classes
check_classes-settled inspected h =
    let (same, known) =
      answer_by-settled inspected (is_settled inspected.status)
        (first_unrecognised inspected.partitions) refl h in
    (same, first_unrecognised-All inspected.partitions known)

-- A drilldown that comes to a settled result (complete, or no incident) was asked for at least one
-- day and at most the policy's number; it passes the provider's result on unchanged, and every
-- failed run in it has a failure class that the contract knows.
pub execute-Settled :
    (max_partitions first last : ℕ) (inspected : IncidentDrilldownResult)
    → is_settled (execute max_partitions first last inspected).status ≡ true
    → Settled max_partitions first last inspected (execute max_partitions first last inspected)
unfolding execute
execute-Settled max_partitions first last inspected h =
    elim (Bool-cases (ltb last first || ltb max_partitions (last - first + 1))) [
      | inl outside ↦ ground arith
      | inr inside ↦
          let e : execute max_partitions first last inspected ≡ check_classes inspected =
            rw inside in
          let (same, known) =
            check_classes-settled inspected
              (sym (ap (λ (r : IncidentDrilldownResult). is_settled r.status) e) ∙ h) in
          let passed = e ∙ same in
          record {
            ordered = ground arith;
            within_limit = ground arith;
            passed_on = passed;
            recognised =
                subst
                  (λ (r : IncidentDrilldownResult). All (λ p. is_recognised p ≡ true) r.partitions)
                  (sym passed) known;
          }
    ]
