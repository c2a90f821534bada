-- ===== src/Recovery/Sensor/Bounded.antt =====
-- sensors.py with recovery_state_current.py and recovery_policy.py: the life of one partition, in
-- which the sensor is evaluated again and again over the runs that Dagster has recorded.
use ai_native_governed_data.Prelude.{
  ℕ, zero, suc, ◌+◌, ◌≤◌, ◌<◌, ◌≡◌, refl, String, Bool, true, false, Option, none, some, List, [],
  ◌∷◌, All, arith, keep, length, string_discrete, Option-cases, Bool-cases, inl, inr,
}
use ai_native_governed_data.Prelude.Dict.{lookup}
use ai_native_governed_data.Recovery.Policy.{
  RecoveryDecision, decide_recovery, should_auto_replay, auto_replay,
}
use ai_native_governed_data.Recovery.Policy.Replay.{MayReplay, decide_recovery-auto_replay_iff}
use ai_native_governed_data.Recovery.State.{
  RunStatus, queued, DagsterRun, is_auto, Facts, RecoveryRuntimeState, state_of,
  collect_partition_recovery_state,
}
use ai_native_governed_data.Recovery.Sensor.{
  Evaluation, launch, skip, failed, request_of, launch_or_fail, evaluate_from,
  shopify_daily_recovery_sensor,
}

-- The recorded runs of the partition, newest first, and how many of them the sensor launched.
pub record History : Type 0 where
  pub runs : List DagsterRun
  pub launches : ℕ

-- What the outside world contributes: an evaluation at some verdicts, a run that is no automatic
-- recovery, or a new status of a run.
pub data Happening : Type 0 where
  evaluate : (is_materialized : String → Bool) (overdue healthy eligible : Bool) → Happening
  other_run : DagsterRun → Happening
  new_status : ℕ → RunStatus → Happening

abbrev pub facts_of : String → List DagsterRun → (String → Bool) → Bool → Bool → Bool → Facts
facts_of partition_key runs is_materialized overdue healthy eligible = record {
  partition_key = partition_key;
  is_materialized = is_materialized;
  runs = runs;
  freshness_overdue = overdue;
  infrastructure_healthy = healthy;
  missed_schedule_eligible = eligible;
}

-- Dagster records the run that was requested, with the request's tags.
unfoldable pub on_evaluation : History → Evaluation → History
on_evaluation h (launch request) = record {
  runs = record { run_id = request.run_key; status = queued; tags = request.tags } ∷ h.runs;
  launches = h.launches + 1;
}
on_evaluation h (skip summaries) = h
on_evaluation h failed = h

abbrev set_status : ℕ → RunStatus → List DagsterRun → List DagsterRun
set_status i status [] = []
set_status zero status (run ∷ runs) = record run { status = status } ∷ runs
set_status (suc i) status (run ∷ runs) = run ∷ set_status i status runs

unfoldable pub happen : String → History → Happening → History
unfolding on_evaluation
happen partition_key h (evaluate is_materialized overdue healthy eligible) = on_evaluation h (
    shopify_daily_recovery_sensor
      (facts_of partition_key h.runs is_materialized overdue healthy eligible ∷ []))
happen partition_key h (other_run run) = record h { runs = run ∷ h.runs }
happen partition_key h (new_status i status) = record h { runs = set_status i status h.runs }

unfoldable pub live : String → History → List Happening → History
unfolding happen
live partition_key h [] = h
live partition_key h (x ∷ xs) = live partition_key (happen partition_key h x) xs

-- A run from elsewhere does not carry the tag of an automatic recovery.
abbrev pub IsForeign : Happening → Type 0
IsForeign (other_run run) = is_auto run ≡ false
IsForeign _ = Unit

abbrev autos : List DagsterRun → ℕ
autos runs = length (keep is_auto runs)

is_auto_status :
    (run : DagsterRun) (status : RunStatus) → is_auto (record run { status = status }) ≡ is_auto run
unfolding is_auto
is_auto_status run status = refl

autos-set_status :
    (i : ℕ) (status : RunStatus) (runs : List DagsterRun)
    → autos (set_status i status runs) ≡ autos runs
autos-set_status i status [] = refl
autos-set_status zero status (run ∷ runs) = ground (arith, is_auto_status run status)
autos-set_status (suc i) status (run ∷ runs) = ground (arith, autos-set_status i status runs)

record IsBounded (h : History) : Type 0 where
  recorded : h.launches ≤ autos h.runs
  bounded : autos h.runs ≤ 1

-- A request of the sensor is tagged as an automatic recovery.
request-is_auto :
    (run_key key : String) (attempt : ℕ) (decision : RecoveryDecision)
    → is_auto (record {
      run_id = run_key;
      status = queued;
      tags = (request_of run_key key attempt decision).tags;
    })
      ≡ true
unfolding is_auto lookup string_discrete
request-is_auto run_key key attempt decision = refl

should_auto_replay_lem :
    (d : RecoveryDecision) → should_auto_replay d ≡ true → d.action ≡ auto_replay
unfolding should_auto_replay
should_auto_replay_lem d h = ground arith

on_launch :
    (h : History) (key : String) (attempt : ℕ) (decision : RecoveryDecision)
    (run_key : Option String)
    → autos h.runs < 1
    → IsBounded h
    → IsBounded (on_evaluation h (launch_or_fail key attempt decision run_key))
unfolding on_evaluation
on_launch h key attempt decision none free b = b
on_launch h key attempt decision (some run_key) free b =
    ground (arith, request-is_auto run_key key attempt decision)

collect_some :
    (facts : Facts) (state : RecoveryRuntimeState)
    → collect_partition_recovery_state facts ≡ some state
    → state ≡ state_of facts
unfolding collect_partition_recovery_state
collect_some facts state e = ground arith

-- One evaluation for one partition: it fails, it skips, or it launches within the budget.
data Evaluated (facts : Facts) : Evaluation → Type 0 where
  fails : Evaluated facts failed
  skips : (summaries : List (String × String)) → Evaluated facts (skip summaries)
  launches_one :
      (attempt : ℕ) (decision : RecoveryDecision) (run_key : Option String)
      → MayReplay (state_of facts).observation 1
      → Evaluated facts (launch_or_fail facts.partition_key attempt decision run_key)

sensor_cases : (facts : Facts) → Evaluated facts (shopify_daily_recovery_sensor (facts ∷ []))
unfolding shopify_daily_recovery_sensor
sensor_cases facts = elim (Option-cases (collect_partition_recovery_state facts)) [
  | inl e ↦ rw (e, evaluate_from) fails
  | inr (state, e) ↦
      let decision = decide_recovery state.observation 1 in
      elim (Bool-cases (should_auto_replay decision)) [
        | inr stays ↦ rw (e, evaluate_from, stays) (skips _)
        | inl replays ↦
            rw (e, evaluate_from, replays)
              (launches_one _ decision _ (
                rw (collect_some facts state e) at (
                  (decide_recovery-auto_replay_iff state.observation 1).0
                    (should_auto_replay_lem decision replays))))
      ]
]

attempts_of : (facts : Facts) → (state_of facts).observation.auto_replay_attempts ≡ autos facts.runs
unfolding state_of
attempts_of facts = refl

on_evaluation-IsBounded :
    (h : History) (facts : Facts) (e : Evaluation)
    → Evaluated facts e
    → facts.runs ≡ h.runs
    → IsBounded h
    → IsBounded (on_evaluation h e)
unfolding on_evaluation
on_evaluation-IsBounded h facts _ fails same b = b
on_evaluation-IsBounded h facts _ (skips summaries) same b = b
on_evaluation-IsBounded h facts _ (launches_one attempt decision run_key may) same b =
    on_launch h facts.partition_key attempt decision run_key
      (rw (← same) (omega (arith, may.budget, attempts_of facts))) b

happen-IsBounded :
    (key : String) (h : History) (x : Happening)
    → IsForeign x
    → IsBounded h
    → IsBounded (happen key h x)
unfolding happen
happen-IsBounded key h (evaluate is_materialized overdue healthy eligible) foreign b =
    let facts = facts_of key h.runs is_materialized overdue healthy eligible in
    on_evaluation-IsBounded h facts (shopify_daily_recovery_sensor (facts ∷ []))
      (sensor_cases facts) refl b
happen-IsBounded key h (other_run run) foreign b = ground arith
happen-IsBounded key h (new_status i status) foreign b =
    ground (arith, autos-set_status i status h.runs)

live-IsBounded :
    (key : String) (xs : List Happening) (h : History)
    → All IsForeign xs
    → IsBounded h
    → IsBounded (live key h xs)
unfolding live
live-IsBounded key [] h foreign b = b
live-IsBounded key (x ∷ xs) h foreign b =
    live-IsBounded key xs (happen key h x) foreign.1 (happen-IsBounded key h x foreign.0 b)

abbrev pub unborn : History
unborn = record { runs = []; launches = 0 }

-- However often the sensor is evaluated for a partition, with whatever verdicts, and whatever
-- becomes of the runs, it launches at most one recovery run for it, provided that Dagster records
-- each launched run with its tags and that no other run carries the tag of automatic recovery.
pub launches-le_one :
    (key : String) (xs : List Happening) → All IsForeign xs → (live key unborn xs).launches ≤ 1
launches-le_one key xs foreign =
    let b =
      live-IsBounded key xs unborn foreign
        (record { recorded = omega arith; bounded = omega arith }) in
    omega (arith, b.recorded, b.bounded)
