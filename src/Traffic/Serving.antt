-- ===== src/Traffic/Serving.antt =====
-- agent/api/traffic.py: a guard in use. Requests arrive at the readings of a clock that does not
-- run backwards, and leases are released in any order, also twice. The history of admissions is
-- kept beside the program's state, for the statements only.
use ai_native_governed_data.Prelude.{
  ℕ, zero, suc, ◌≤◌, String, true, false, Option, none, some, List, [], ◌∷◌, ◌++◌, ite, strip,
  string_discrete,
}
use ai_native_governed_data.Traffic.{
  TrafficLimits, TrafficGuard, SubjectKey, subject_key_discrete, Admission, admitted, rejected,
  AdmissionLease, acquire, release, init,
}

-- The tenant, the subject and the time of an admission.
pub record Entry : Type 0 where
  pub tenant_id : String
  pub subject : String
  pub time : ℕ

pub record World : Type 0 where
  pub guard : TrafficGuard
  pub leases : List AdmissionLease
  pub history : List Entry
  pub clock : ℕ

pub data Event : Type 0 where
  request : String → String → ℕ → Event
  release_lease : ℕ → Event

abbrev pub get_elem? : List AdmissionLease → ℕ → Option AdmissionLease
get_elem? [] i = none
get_elem? (x ∷ xs) zero = some x
get_elem? (x ∷ xs) (suc i) = get_elem? xs i

abbrev pub set : List AdmissionLease → ℕ → AdmissionLease → List AdmissionLease
set [] i v = []
set (x ∷ xs) zero v = v ∷ xs
set (x ∷ xs) (suc i) v = x ∷ set xs i v

unfoldable pub on_answer : World → String → String → ℕ → TrafficGuard → Admission → World
on_answer w tenant subject now guard (admitted tenant_id) = record {
  guard = guard;
  leases = w.leases ++ record { tenant_id = tenant_id; released = false } ∷ [];
  history =
      w.history ++ record { tenant_id = strip tenant; subject = strip subject; time = now } ∷ [];
  clock = now;
}
on_answer w tenant subject now guard (rejected r) = record w { guard = guard; clock = now }

unfoldable pub on_release : World → ℕ → Option AdmissionLease → World
on_release w i none = w
on_release w i (some lease) =
    let (guard, lease') = release w.guard lease in
    record w { guard = guard; leases = set w.leases i lease' }

unfoldable pub step : World → Event → World
unfolding on_answer on_release
step w (request tenant subject now) =
    let (guard, answer) = acquire w.guard tenant subject now in
    on_answer w tenant subject now guard answer
step w (release_lease i) = on_release w i (get_elem? w.leases i)

unfoldable pub run : World → List Event → World
unfolding step
run w [] = w
run w (e ∷ events) = run (step w e) events

abbrev pub start : TrafficLimits → World
start limits = record { guard = init limits; leases = []; history = []; clock = 0 }

-- The clock readings of the requests never fall.
abbrev pub InOrder : ℕ → List Event → Type 0
InOrder clock [] = Unit
InOrder clock (request tenant subject now ∷ events) = (clock ≤ now) × InOrder now events
InOrder clock (release_lease i ∷ events) = InOrder clock events

-- The leases that a tenant still holds, and those that are held at all.
abbrev pub held_by : String → List AdmissionLease → ℕ
held_by t [] = 0
held_by t (lease ∷ leases) = elim lease.released [
  | true ↦ held_by t leases
  | false ↦ ite (string_discrete t lease.tenant_id) (suc (held_by t leases)) (held_by t leases)
]

abbrev pub held : List AdmissionLease → ℕ
held [] = 0
held (lease ∷ leases) = elim lease.released [ true ↦ held leases | false ↦ suc (held leases) ]

-- The admissions of one subject, and of one tenant, oldest first.
abbrev pub times_of_subject : SubjectKey → List Entry → List ℕ
times_of_subject key [] = []
times_of_subject key (e ∷ history) =
    let rest = times_of_subject key history in
    ite (subject_key_discrete key (e.tenant_id, e.subject)) (e.time ∷ rest) rest

abbrev pub times_of_tenant : String → List Entry → List ℕ
times_of_tenant t [] = []
times_of_tenant t (e ∷ history) =
    let rest = times_of_tenant t history in ite (string_discrete t e.tenant_id) (e.time ∷ rest) rest
