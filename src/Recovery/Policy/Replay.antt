-- ===== src/Recovery/Policy/Replay.antt =====
-- recovery_policy.py: exactly when the policy allows an automatic replay.
use ai_native_governed_data.Prelude.{ℕ, ◌<◌, ◌≡◌, ◌↔◌, ◌⊎◌, true, false, arith}
use ai_native_governed_data.Recovery.Failure.{
  FailureClass, transient_runtime, infrastructure_unavailable,
}
use ai_native_governed_data.Recovery.Policy.{
  auto_replay, RecoveryObservation, decide_recovery, decide_by_class,
}

-- The conditions of a replay, as the policy's documentation lists them.
pub record MayReplay (o : RecoveryObservation) (max_auto_replays : ℕ) : Type 0 where
  pub incomplete : o.materialized ≡ false
  pub overdue : o.freshness_overdue ≡ true
  pub unowned : o.active_run ≡ false
  pub healthy : o.infrastructure_healthy ≡ true
  pub budget : o.auto_replay_attempts < max_auto_replays
  pub no_success : o.successful_run ≡ false
  pub cause :
      (o.failed_run ≡ false) × (o.missed_schedule_eligible ≡ true)
      ⊎ (o.failed_run ≡ true) × (o.failure_class ≡ transient_runtime)
      ⊎ (o.failed_run ≡ true) × (o.failure_class ≡ infrastructure_unavailable)

decide_by_class-replays :
    (c : FailureClass)
    → (decide_by_class c).action ≡ auto_replay
    → (c ≡ transient_runtime) ⊎ (c ≡ infrastructure_unavailable)
unfolding decide_by_class
decide_by_class-replays c h = ground arith

only_if :
    (o : RecoveryObservation) (max_auto_replays : ℕ)
    → (decide_recovery o max_auto_replays).action ≡ auto_replay
    → MayReplay o max_auto_replays
unfolding decide_recovery
only_if o max_auto_replays h = ground (arith, decide_by_class-replays o.failure_class)

if_only :
    (o : RecoveryObservation) (max_auto_replays : ℕ)
    → MayReplay o max_auto_replays
    → (decide_recovery o max_auto_replays).action ≡ auto_replay
unfolding decide_recovery decide_by_class
if_only o max_auto_replays h = ground arith

-- The policy answers AUTO_REPLAY exactly when the partition is incomplete and overdue, no run owns
-- it, the infrastructure is healthy, the replay budget is not used up, no run has succeeded, and
-- either no run has failed and a missed schedule is eligible, or the failure is of one of the two
-- classes that are proven to be safe.
pub decide_recovery-auto_replay_iff :
    (o : RecoveryObservation) (max_auto_replays : ℕ)
    → ((decide_recovery o max_auto_replays).action ≡ auto_replay) ↔ MayReplay o max_auto_replays
decide_recovery-auto_replay_iff o max_auto_replays =
    (only_if o max_auto_replays, if_only o max_auto_replays)
