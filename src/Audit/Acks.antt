-- ===== src/Audit/Acks.antt =====
-- agent/audit/writer.py: an acknowledged record is durable, whatever the threads' interleaving.
use ai_native_governed_data.Prelude.{
  ℕ, ◌≤◌, ◌≡◌, ◌≢◌, refl, ◌∙◌, sym, Bool, true, false, Option, none, some, List, [], ◌∷◌, length,
  ℕ_discrete, arith, Bool-cases, inl, inr, if_pos, if_neg,
}
use ai_native_governed_data.Prelude.Dict.{lookup}
use ai_native_governed_data.Audit.{
  BatchReceipt, Sink, Pc, idle, awaiting, coalescing, syncing, publishing, returned, raised,
  closing, finished, init, append, write_record, await_durable, take_receipt, capture, sync,
  publish, close, close_loop,
}
use ai_native_governed_data.Audit.Schedule.{
  Move, call_append, call_close, go_on, System, enter, advance, update, step, run, start,
}
use ai_native_governed_data.Audit.Invariant.{IsBatch, IsOrdered, Holds, waits_for, is_leader}
use ai_native_governed_data.Audit.Keeps.{Safe, Differ, advance-Safe, written_of, flag_of}

-- All threads together: one leader at most, and no generation that two threads wait for.
pub record Inv (s : System) : Type 0 where
  pub ordered : IsOrdered s.sink
  pub threads : (i : ℕ) → Holds s.sink (s.pcs i)
  pub leader : (i j : ℕ) → is_leader (s.pcs i) ≡ true → is_leader (s.pcs j) ≡ true → i ≡ j
  pub apart : (i j g : ℕ) → waits_for (s.pcs i) ≡ some g → waits_for (s.pcs j) ≡ some g → i ≡ j

module _ (s : System) (i : ℕ) (inv : Inv s) where
  Differ-others : (j : ℕ) → j ≢ i → Differ (s.pcs i) (s.pcs j)
  Differ-others j other = record {
    one_leader = λ own. elim (Bool-cases (is_leader (s.pcs j))) [
      | inl l ↦ absurd (other (inv.leader j i l own))
      | inr l ↦ l
    ];
    apart = λ g own theirs. other (inv.apart j i g theirs own);
  }

  module _ (sink : Sink) (pc : Pc) (safe : Safe s.sink (s.pcs i) sink pc) where
    abbrev after : System
    after = record { sink = sink; pcs = update s.pcs i pc }

    after_own : after.pcs i ≡ pc
    after_own = if_pos (ℕ_discrete i i) refl _ _

    after_other : (j : ℕ) → j ≢ i → after.pcs j ≡ s.pcs j
    after_other j other = if_neg (ℕ_discrete j i) other _ _

    after-threads : (j : ℕ) → Holds sink (after.pcs j)
    after-threads j = elim (ℕ_discrete j i) [
      | yes same ↦ rw (same, after_own) safe.holds
      | no other ↦
          rw (after_other j other) (safe.frame (s.pcs j) (Differ-others j other) (inv.threads j))
    ]

    -- A thread that has become the leader was it before, or there was none.
    new_leader : (j : ℕ) → j ≢ i → is_leader pc ≡ true → is_leader (s.pcs j) ≡ true → ⊥
    new_leader j other mine theirs = elim (safe.leader mine) [
      | inl own ↦ other (inv.leader j i theirs own)
      | inr down ↦ let up = (flag_of s.sink (s.pcs j) (inv.threads j) theirs).0 in cc
    ]

    new_waits : (j g : ℕ) → j ≢ i → waits_for pc ≡ some g → waits_for (s.pcs j) ≡ some g → ⊥
    new_waits j g other mine theirs = elim (safe.waits g mine) [
      | inl own ↦ other (inv.apart j i g theirs own)
      | inr fresh ↦ omega (arith, fresh, written_of s.sink (s.pcs j) g (inv.threads j) theirs)
    ]

    after-Inv : Inv after
    after-Inv = record {
      ordered = safe.ordered;
      threads = after-threads;
      leader = λ j k l m. elim (ℕ_discrete j i) [
        | yes p ↦ elim (ℕ_discrete k i) [
          | yes q ↦ p ∙ sym q
          | no q ↦ absurd (new_leader k q (rw (p, after_own) at l) (rw (after_other k q) at m))
        ]
        | no p ↦ elim (ℕ_discrete k i) [
          | yes q ↦ absurd (new_leader j p (rw (q, after_own) at m) (rw (after_other j p) at l))
          | no q ↦ inv.leader j k (rw (after_other j p) at l) (rw (after_other k q) at m)
        ]
      ];
      apart = λ j k g l m. elim (ℕ_discrete j i) [
        | yes p ↦ elim (ℕ_discrete k i) [
          | yes q ↦ p ∙ sym q
          | no q ↦ absurd (new_waits k g q (rw (p, after_own) at l) (rw (after_other k q) at m))
        ]
        | no p ↦ elim (ℕ_discrete k i) [
          | yes q ↦ absurd (new_waits j g p (rw (q, after_own) at m) (rw (after_other j p) at l))
          | no q ↦ inv.apart j k g (rw (after_other j p) at l) (rw (after_other k q) at m)
        ]
      ];
    }

pub step-Inv : (s : System) (i : ℕ) (move : Move) → Inv s → Inv (step s i move)
unfolding step
step-Inv s i move inv =
    after-Inv s i inv (advance s.sink (s.pcs i) move).0 (advance s.sink (s.pcs i) move).1
      (advance-Safe s.sink (s.pcs i) move inv.ordered (inv.threads i))

run_from-Inv : (schedule : List (ℕ × Move)) (s : System) → Inv s → Inv (run s schedule)
unfolding run
run_from-Inv [] s inv = inv
run_from-Inv ((i, move) ∷ schedule) s inv =
    run_from-Inv schedule (step s i move) (step-Inv s i move inv)

pub run-Inv : (durable : Bool) (schedule : List (ℕ × Move)) → Inv (run (start durable) schedule)
unfolding init
run-Inv durable schedule = run_from-Inv schedule (start durable) (record {
  ordered = omega arith;
  threads = λ i. tt;
  leader = λ i j l m. cc;
  apart = λ i j g l m. cc;
})

durable_sync-take_receipt :
    (sink : Sink) (g : ℕ) (found : Option BatchReceipt)
    → (take_receipt sink g found).0.durable_sync ≡ sink.durable_sync
durable_sync-take_receipt sink g none = refl
durable_sync-take_receipt sink g (some r) = refl

durable_sync-close_loop : (sink : Sink) → (close_loop sink).0.durable_sync ≡ sink.durable_sync
unfolding close_loop
durable_sync-close_loop sink = ground arith

durable_sync-enter :
    (sink : Sink) (pc : Pc) (move : Move) → (enter sink pc move).0.durable_sync ≡ sink.durable_sync
unfolding enter append write_record close
durable_sync-enter sink pc (call_append payload event_type written) = ground arith
durable_sync-enter sink pc call_close = ground (arith, durable_sync-close_loop sink)
durable_sync-enter sink pc (go_on success) = refl

durable_sync-advance :
    (sink : Sink) (pc : Pc) (move : Move)
    → (advance sink pc move).0.durable_sync ≡ sink.durable_sync
unfolding advance await_durable capture sync publish
durable_sync-advance sink (awaiting g) move =
    ground (arith, durable_sync-take_receipt sink g (lookup ℕ_discrete g sink.batch_receipts))
durable_sync-advance sink (coalescing g) move = ground arith
durable_sync-advance sink (syncing g previous target types) move = ground arith
durable_sync-advance sink (publishing g previous target types) move = refl
durable_sync-advance sink closing move = durable_sync-close_loop sink
durable_sync-advance sink idle move = durable_sync-enter sink idle move
durable_sync-advance sink (returned g r) move = durable_sync-enter sink (returned g r) move
durable_sync-advance sink raised move = durable_sync-enter sink raised move
durable_sync-advance sink finished move = durable_sync-enter sink finished move

durable_sync-run :
    (schedule : List (ℕ × Move)) (s : System)
    → (run s schedule).sink.durable_sync ≡ s.sink.durable_sync
unfolding run step
durable_sync-run [] s = refl
durable_sync-run ((i, move) ∷ schedule) s =
    durable_sync-run schedule (step s i move) ∙ durable_sync-advance s.sink (s.pcs i) move

-- Whatever the interleaving of the threads and whatever the operating system answers: when a call
-- to a sink that syncs has returned for generation `g`, at least `g` records of the file are
-- durable, the file has that many, and the counts of the receipt add up to a batch of at least
-- one record.
pub returned-durable :
    (schedule : List (ℕ × Move)) (i g : ℕ) (r : BatchReceipt)
    → (run (start true) schedule).pcs i ≡ returned g r
    → (g ≤ (run (start true) schedule).sink.synced)
      × ((run (start true) schedule).sink.synced ≤ length (run (start true) schedule).sink.file)
      × IsBatch r
unfolding init
returned-durable schedule i g r e =
    let s = run (start true) schedule in
    let inv = run-Inv true schedule in
    let syncs = durable_sync-run schedule (start true) in
    let acknowledged = rw e at (inv.threads i) in
    (
      omega (arith, acknowledged.durable syncs, inv.ordered.durable_synced),
      omega (arith, inv.ordered.synced_written, inv.ordered.written),
      acknowledged.batch syncs,
    )

await_durable_found :
    (sink : Sink) (g : ℕ) (r : BatchReceipt)
    → sink.failure ≡ false
    → sink.closed ≡ false
    → g ≤ sink.durable_generation
    → lookup ℕ_discrete g sink.batch_receipts ≡ some r
    → ((await_durable sink g).1 ≡ returned g r) × ((await_durable sink g).0.failure ≡ false)
unfolding await_durable
await_durable_found sink g r ready opened le found = ground arith

-- In a run, a thread that waits for a generation which is durable by now finds its receipt there,
-- as long as the sink has not failed and is not closed: the error for a missing receipt is never
-- raised.
pub await_durable-returned :
    (durable : Bool) (schedule : List (ℕ × Move)) (i g : ℕ)
    → (run (start durable) schedule).pcs i ≡ awaiting g
    → (run (start durable) schedule).sink.failure ≡ false
    → (run (start durable) schedule).sink.closed ≡ false
    → g ≤ (run (start durable) schedule).sink.durable_generation
    → (r : BatchReceipt) × IsBatch r
      × ((await_durable (run (start durable) schedule).sink g).1 ≡ returned g r)
      × ((await_durable (run (start durable) schedule).sink g).0.failure ≡ false)
await_durable-returned durable schedule i g e ready opened le =
    let s = run (start durable) schedule in
    let (r, found, batch) = (rw e at ((run-Inv durable schedule).threads i)).1 le in
    let (answer, sound) = await_durable_found s.sink g r ready opened le found in
    (r, batch, answer, sound)
