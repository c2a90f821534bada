-- ===== src/Audit/Tests.antt =====
-- agent/audit/writer.py: small interleavings, and the theorems at concrete inputs.
use ai_native_governed_data.Prelude.{
  ℕ, ◌≤◌, ◌≡◌, refl, String, true, false, some, List, [], ◌∷◌, ◌++◌, length, string_discrete,
  ℕ_discrete, arith,
}
use ai_native_governed_data.Prelude.Dict.{lookup, insert, pop}
use ai_native_governed_data.Audit.{
  BatchReceipt, returned, raised, closing, init, append, write_record, await_durable, capture,
  event_types, sync, batch_of, hand_out, forget, publish, close, close_loop, volatile_receipt,
}
use ai_native_governed_data.Audit.Schedule.{
  Move, call_append, call_close, go_on, enter, advance, step, run, start,
}
use ai_native_governed_data.Audit.Invariant.{IsBatch}
use ai_native_governed_data.Audit.Acks.{returned-durable, await_durable-returned}
use ai_native_governed_data.Audit.Orphans.{leader_failure-hangs_close}

program : Unit {0}
unfolding run step advance enter append write_record await_durable capture event_types sync batch_of
    hand_out forget publish close close_loop volatile_receipt init lookup insert pop string_discrete
    ℕ_discrete
program = tt

abbrev write : ℕ → String → ℕ × Move
write i event_type = (i, call_append (1 ∷ 2 ∷ []) event_type (some 2))

abbrev go : ℕ → ℕ × Move
go i = (i, go_on true)

-- Thread 0 leads; thread 1 appends in the coalescing window and shares the sync.
abbrev shared : List (ℕ × Move)
shared = write 0 "RUNTIME" ∷ go 0 ∷ write 1 "API_GUARD" ∷ go 1 ∷ go 0 ∷ go 0 ∷ go 0 ∷ []

abbrev receipt : BatchReceipt
receipt = record {
  batch_id = 1;
  total_records = 2;
  runtime_records = 1;
  api_guard_records = 1;
  api_timing_records = 0;
  other_records = 0;
}

shared-receipt :
    ((run (start true) (shared ++ go 0 ∷ go 1 ∷ [])).pcs 0 ≡ returned 1 receipt)
    × ((run (start true) (shared ++ go 0 ∷ go 1 ∷ [])).pcs 1 ≡ returned 2 receipt)
    × ((run (start true) (shared ++ go 0 ∷ go 1 ∷ [])).sink.synced ≡ 2)
unfolding program
shared-receipt = (refl, refl, refl)

sync_error :
    (run (start true) (write 0 "RUNTIME" ∷ go 0 ∷ go 0 ∷ (0, go_on false) ∷ [])).pcs 0 ≡ raised
unfolding program
sync_error = refl

returned-durable_example :
    (2 ≤ (run (start true) (shared ++ go 0 ∷ go 1 ∷ [])).sink.synced)
    × ((run (start true) (shared ++ go 0 ∷ go 1 ∷ [])).sink.synced
        ≤ length (run (start true) (shared ++ go 0 ∷ go 1 ∷ [])).sink.file)
    × IsBatch receipt
unfolding program
returned-durable_example = returned-durable (shared ++ go 0 ∷ go 1 ∷ []) 1 2 receipt refl

await_durable-returned_example :
    (r : BatchReceipt) × IsBatch r
    × ((await_durable (run (start true) shared).sink 2).1 ≡ returned 2 r)
    × ((await_durable (run (start true) shared).sink 2).0.failure ≡ false)
unfolding program
await_durable-returned_example = await_durable-returned true shared 1 2 refl refl refl (omega arith)

-- Thread 1's partial append fails the sink while thread 0 is in its coalescing window.
abbrev partial : List (ℕ × Move)
partial =
    write 0 "RUNTIME"
    ∷ go 0
    ∷ (1, call_append (1 ∷ 2 ∷ []) "RUNTIME" (some 1))
    ∷ (2, call_close)
    ∷ []

leader_failure-hangs_close_example :
    ((run (step (run (start true) partial) 0 (go_on true)) (go 2 ∷ [])).sink.sync_in_progress
      ≡ true)
    × ((run (step (run (start true) partial) 0 (go_on true)) (go 2 ∷ [])).sink.closed ≡ false)
    × ((j : ℕ)
        → (run (start true) partial).pcs j ≡ closing
        → (run (step (run (start true) partial) 0 (go_on true)) (go 2 ∷ [])).pcs j ≡ closing)
unfolding program
leader_failure-hangs_close_example =
    leader_failure-hangs_close true partial (go 2 ∷ []) 0 1 (go_on true) refl refl
