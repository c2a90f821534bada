-- ===== src/Audit/Orphans.antt =====
-- agent/audit/writer.py: a leader that finds, after its coalescing window, that the sink has failed
-- meanwhile raises and leaves `_sync_in_progress` set. Nothing clears the flag after that.
use ai_native_governed_data.Prelude.{
  ℕ, ◌≡◌, ◌≢◌, refl, ◌∙◌, ap, Bool, true, false, List, [], ◌∷◌, ℕ_discrete, arith, Bool-cases, inl,
  inr, if_pos, if_neg,
}
use ai_native_governed_data.Audit.{
  Sink, Pc, coalescing, syncing, publishing, raised, closing, append, await_durable, capture, close,
  close_loop,
}
use ai_native_governed_data.Audit.Schedule.{
  Move, call_append, call_close, go_on, System, enter, advance, step, run, start,
}
use ai_native_governed_data.Audit.Invariant.{is_leader}
use ai_native_governed_data.Audit.Keeps.{flag_of}
use ai_native_governed_data.Audit.Acks.{Inv, run-Inv}

-- The flag is up, and no thread is there to take it down.
pub record IsOrphaned (s : System) : Type 0 where
  pub flag : s.sink.sync_in_progress ≡ true
  pub failed : s.sink.failure ≡ true
  pub opened : s.sink.closed ≡ false
  pub leaderless : (i : ℕ) → is_leader (s.pcs i) ≡ false

-- In such a state no move changes the sink, and a thread in the loop of `close` stays there.
advance_orphaned :
    (sink : Sink) (pc : Pc) (move : Move)
    → sink.sync_in_progress ≡ true
    → sink.failure ≡ true
    → sink.closed ≡ false
    → is_leader pc ≡ false
    → ((advance sink pc move).0 ≡ sink)
      × (is_leader (advance sink pc move).1 ≡ false)
      × (pc ≡ closing → (advance sink pc move).1 ≡ closing)
unfolding advance enter append await_durable close close_loop
advance_orphaned sink (coalescing g) move f d c l = cc
advance_orphaned sink (syncing g previous target types) move f d c l = cc
advance_orphaned sink (publishing g previous target types) move f d c l = cc
advance_orphaned sink pc (call_append payload event_type written) f d c l = ground arith
advance_orphaned sink pc call_close f d c l = ground arith
advance_orphaned sink pc (go_on success) f d c l = ground arith

module _ (s : System) (orphaned : IsOrphaned s) (i : ℕ) (move : Move) where
  abbrev moved : (Sink × Pc)
  moved = advance s.sink (s.pcs i) move

  orphaned_move :
      (moved.0 ≡ s.sink) × (is_leader moved.1 ≡ false) × (s.pcs i ≡ closing → moved.1 ≡ closing)
  orphaned_move =
      advance_orphaned s.sink (s.pcs i) move orphaned.flag orphaned.failed orphaned.opened
        (orphaned.leaderless i)

  step_pc : (j : ℕ) → j ≢ i → (step s i move).pcs j ≡ s.pcs j
  unfolding step
  step_pc j other = if_neg (ℕ_discrete j i) other _ _

  step_own : (step s i move).pcs i ≡ moved.1
  unfolding step
  step_own = if_pos (ℕ_discrete i i) refl _ _

  step_sink : (step s i move).sink ≡ s.sink
  unfolding step
  step_sink = orphaned_move.0

  step-IsOrphaned : IsOrphaned (step s i move)
  step-IsOrphaned = record {
    flag = rw step_sink orphaned.flag;
    failed = rw step_sink orphaned.failed;
    opened = rw step_sink orphaned.opened;
    leaderless = λ j. elim (ℕ_discrete j i) [
      | yes same ↦ rw (same, step_own) orphaned_move.1
      | no other ↦ rw (step_pc j other) (orphaned.leaderless j)
    ];
  }

  step_closing : (j : ℕ) → s.pcs j ≡ closing → (step s i move).pcs j ≡ closing
  step_closing j waits = elim (ℕ_discrete j i) [
    | yes same ↦ rw (same, step_own) (orphaned_move.2 (rw same at waits))
    | no other ↦ rw (step_pc j other) waits
  ]

run_orphaned :
    (schedule : List (ℕ × Move)) (s : System)
    → IsOrphaned s
    → ((run s schedule).sink ≡ s.sink)
      × ((j : ℕ) → s.pcs j ≡ closing → (run s schedule).pcs j ≡ closing)
unfolding run
run_orphaned [] s orphaned = (refl, λ j e. e)
run_orphaned ((i, move) ∷ schedule) s orphaned =
    let (same, stays) = run_orphaned schedule (step s i move) (step-IsOrphaned s orphaned i move) in
    (
      same ∙ step_sink s orphaned i move,
      λ j waits. stays j (step_closing s orphaned i move j waits),
    )

capture_failed : (sink : Sink) (g : ℕ) → sink.failure ≡ true → capture sink g ≡ (sink, raised)
unfolding capture
capture_failed sink g failed = ground arith

-- The leader's second block in a failed sink.
leader_raises :
    (s : System) (i g : ℕ) (move : Move)
    → Inv s
    → s.pcs i ≡ coalescing g
    → s.sink.failure ≡ true
    → IsOrphaned (step s i move)
      × ((step s i move).sink ≡ s.sink)
      × ((j : ℕ) → s.pcs j ≡ closing → (step s i move).pcs j ≡ closing)
unfolding step advance
leader_raises s i g move inv at_work failed =
    let lead : is_leader (s.pcs i) ≡ true = ap is_leader at_work in
    let (up, opened) = flag_of s.sink (s.pcs i) (inv.threads i) lead in
    rw (at_work, advance, capture_failed s.sink g failed)
      (
        record {
          flag = up;
          failed = failed;
          opened = opened;
          leaderless = λ j. elim (ℕ_discrete j i) [
            | yes same ↦ rw (if_pos (ℕ_discrete j i) same raised (s.pcs j)) refl
            | no other ↦
                rw (if_neg (ℕ_discrete j i) other raised (s.pcs j))
                  (elim (Bool-cases (is_leader (s.pcs j))) [
                    | inl l ↦ absurd (other (inv.leader j i l lead))
                    | inr l ↦ l
                  ])
          ];
        },
        refl,
        λ j waits. elim (ℕ_discrete j i) [
          | yes same ↦ absurd (cc)
          | no other ↦ rw (if_neg (ℕ_discrete j i) other raised (s.pcs j)) waits
        ],
      )

-- Suppose that in some run the sink fails while the sync leader is in its coalescing window. When
-- the leader goes on, it leaves `_sync_in_progress` set, and from then on, whatever any thread
-- does, the flag stays set, the sink is never closed, and a thread that waits in `close` waits
-- for ever.
pub leader_failure-hangs_close :
    (durable : Bool) (before after : List (ℕ × Move)) (i g : ℕ) (move : Move)
    → (run (start durable) before).pcs i ≡ coalescing g
    → (run (start durable) before).sink.failure ≡ true
    → ((run (step (run (start durable) before) i move) after).sink.sync_in_progress ≡ true)
      × ((run (step (run (start durable) before) i move) after).sink.closed ≡ false)
      × ((j : ℕ)
          → (run (start durable) before).pcs j ≡ closing
          → (run (step (run (start durable) before) i move) after).pcs j ≡ closing)
leader_failure-hangs_close durable before after i g move at_work failed =
    let s = run (start durable) before in
    let (orphaned, same, stays) =
      leader_raises s i g move (run-Inv durable before) at_work failed in
    let (sink, waits) = run_orphaned after (step s i move) orphaned in
    (rw sink orphaned.flag, rw sink orphaned.opened, λ j e. waits j (stays j e))
