-- ===== src/Audit.antt =====
-- agent/audit/writer.py: the process-wide durable sink with group commit. Each block under the
-- condition's lock is a function from the state before to the state after and to the place where
-- the thread goes on; what the operating system answers is an argument. Timings are left out.
pub mod Schedule
pub mod Invariant
pub mod Keeps
pub mod Acks
pub mod Orphans
mod Tests
use ai_native_governed_data.Prelude.{
  ℕ, zero, suc, ◌+◌, ◌-◌, max, String, Bool, true, false, not, ◌||◌, Option, none, some, List, [],
  ◌∷◌, ◌++◌, leb, ◌==◌, if◌then◌else◌, length, is_empty, string_discrete, ℕ_discrete, ite,
}
use ai_native_governed_data.Prelude.Dict.{lookup, insert, pop}

-- `_DurableBatchReceipt`, without its timings.
pub record BatchReceipt : Type 0 where
  pub batch_id : ℕ
  pub total_records : ℕ
  pub runtime_records : ℕ
  pub api_guard_records : ℕ
  pub api_timing_records : ℕ
  pub other_records : ℕ

-- `_ProcessDurableAuditSink`. `file` is what `os.write` has appended in full, and `synced` how
-- many of these records the operating system has promised to be durable.
pub record Sink : Type 0 where
  pub durable_sync : Bool
  pub write_generation : ℕ
  pub durable_generation : ℕ
  pub sync_in_progress : Bool
  pub failure : Bool
  pub closed : Bool
  pub sync_count : ℕ
  pub append_count : ℕ
  pub generation_event_types : List (ℕ × String)
  pub batch_receipts : List (ℕ × BatchReceipt)
  pub file : List (List ℕ)
  pub synced : ℕ

-- Where a thread stands: outside, in the loop of `_await_durable`, as the sync leader (before the
-- capture, before the sync, before the publication), at the end of a call, or in `close`.
pub data Pc : Type 0 where
  idle : Pc
  awaiting : (generation : ℕ) → Pc
  coalescing : (generation : ℕ) → Pc
  syncing : (generation previous target : ℕ) → List String → Pc
  publishing : (generation previous target : ℕ) → List String → Pc
  returned : (generation : ℕ) → BatchReceipt → Pc
  raised : Pc
  closing : Pc
  finished : Pc

-- The constructor.
unfoldable pub init : Bool → Sink
init durable = record {
  durable_sync = durable;
  write_generation = 0;
  durable_generation = 0;
  sync_in_progress = false;
  failure = false;
  closed = false;
  sync_count = 0;
  append_count = 0;
  generation_event_types = [];
  batch_receipts = [];
  file = [];
  synced = 0;
}

-- `_raise_if_unavailable_locked` raises.
abbrev pub is_unavailable : Sink → Bool
is_unavailable sink = sink.failure || sink.closed

abbrev pub fail : Sink → Sink
fail sink = record sink { failure = true }

abbrev pub count : String → List String → ℕ
count name [] = 0
count name (x ∷ xs) = ite (string_discrete name x) (suc (count name xs)) (count name xs)

abbrev one_if : Bool → ℕ
one_if true = 1
one_if false = 0

-- The receipt of a sink that does not sync.
unfoldable pub volatile_receipt : String → BatchReceipt
volatile_receipt event_type =
    let runtime = count "RUNTIME" (event_type ∷ []) in
    let guard = count "API_GUARD" (event_type ∷ []) in
    let timing = count "API_TIMING" (event_type ∷ []) in
    record {
      batch_id = 0;
      total_records = 1;
      runtime_records = runtime;
      api_guard_records = guard;
      api_timing_records = timing;
      other_records = 1 - (runtime + guard + timing);
    }

abbrev or_runtime : String → String
or_runtime event_type = if is_empty event_type then "RUNTIME" else event_type

unfoldable pub write_record : Sink → List ℕ → String → Sink
write_record sink payload event_type = record sink {
  append_count = sink.append_count + 1;
  write_generation = sink.write_generation + 1;
  generation_event_types =
      insert ℕ_discrete (sink.write_generation + 1) (or_runtime event_type)
        sink.generation_event_types;
  file = sink.file ++ payload ∷ [];
}

-- `append` up to the end of its locked block; `written` is the result of `os.write`, if it returns.
unfoldable pub append : Sink → List ℕ → String → Option ℕ → Sink × Pc
append sink payload event_type written =
    if is_unavailable sink then (sink, raised) else elim written [
      | none ↦ (fail sink, raised)
      | some n ↦
          if n == length payload
          then (
            write_record sink payload event_type,
            if sink.durable_sync
                then awaiting (sink.write_generation + 1)
                else returned (sink.write_generation + 1) (volatile_receipt event_type),
          )
          else (fail sink, raised)
    ]

abbrev take_receipt : Sink → ℕ → Option BatchReceipt → Sink × Pc
take_receipt sink generation none = (fail sink, raised)
take_receipt sink generation (some receipt) = (
  record sink { batch_receipts = pop ℕ_discrete generation sink.batch_receipts },
  returned generation receipt,
)

-- The first locked block of a round of `_await_durable`.
unfoldable pub await_durable : Sink → ℕ → Sink × Pc
await_durable sink generation =
    if is_unavailable sink
    then (sink, raised)
    else if leb generation sink.durable_generation
    then take_receipt sink generation (lookup ℕ_discrete generation sink.batch_receipts)
    else if sink.sync_in_progress
    then (sink, awaiting generation)
    else (record sink { sync_in_progress = true }, coalescing generation)

abbrev or_other : Option String → String
or_other none = "OTHER"
or_other (some event_type) = event_type

-- The event types of the `n` generations after `previous`.
unfoldable pub event_types : List (ℕ × String) → ℕ → ℕ → List String
event_types types previous zero = []
event_types types previous (suc n) =
    or_other (lookup ℕ_discrete (previous + 1) types) ∷ event_types types (previous + 1) n

-- The leader's second locked block, after the coalescing window.
unfoldable pub capture : Sink → ℕ → Sink × Pc
capture sink generation = if is_unavailable sink then (sink, raised) else (
  sink,
  syncing generation sink.durable_generation sink.write_generation (
      event_types sink.generation_event_types sink.durable_generation
        (sink.write_generation - sink.durable_generation)),
)

-- `fdatasync`: it covers at least the records that were written before it was called.
unfoldable pub sync : Sink → Bool → ℕ → ℕ → ℕ → List String → Sink × Pc
sync sink success generation previous target types =
    if success
    then (
      record sink { synced = max sink.synced target },
      publishing generation previous target types,
    )
    else (record sink { failure = true; sync_in_progress = false }, raised)

unfoldable pub batch_of : ℕ → List String → BatchReceipt
batch_of batch_id types =
    let runtime = count "RUNTIME" types in
    let guard = count "API_GUARD" types in
    let timing = count "API_TIMING" types in
    record {
      batch_id = batch_id;
      total_records = length types;
      runtime_records = runtime;
      api_guard_records = guard;
      api_timing_records = timing;
      other_records = length types - (runtime + guard + timing);
    }

-- The loop over the generations of the batch: `n` of them after `previous`.
unfoldable pub hand_out : ℕ → ℕ → BatchReceipt → List (ℕ × BatchReceipt) → List (ℕ × BatchReceipt)
hand_out previous zero batch receipts = receipts
hand_out previous (suc n) batch receipts =
    hand_out (previous + 1) n batch (insert ℕ_discrete (previous + 1) batch receipts)

unfoldable pub forget : ℕ → ℕ → List (ℕ × String) → List (ℕ × String)
forget previous zero types = types
forget previous (suc n) types = forget (previous + 1) n (pop ℕ_discrete (previous + 1) types)

-- The leader's last locked block; then it goes round the loop again.
unfoldable pub publish : Sink → ℕ → ℕ → ℕ → List String → Sink × Pc
publish sink generation previous target types = (
  record sink {
    sync_count = sink.sync_count + 1;
    batch_receipts =
        hand_out previous (target - previous) (batch_of (sink.sync_count + 1) types)
          sink.batch_receipts;
    generation_event_types = forget previous (target - previous) sink.generation_event_types;
    durable_generation = max sink.durable_generation target;
    sync_in_progress = false;
  },
  awaiting generation,
)

-- The loop of `close`, and its entry.
unfoldable pub close_loop : Sink → Sink × Pc
close_loop sink =
    if sink.sync_in_progress then (sink, closing) else (record sink { closed = true }, finished)

unfoldable pub close : Sink → Sink × Pc
unfolding close_loop
close sink = if sink.closed then (sink, finished) else close_loop sink
