-- ===== src/Audit/Invariant.antt =====
-- agent/audit/writer.py: what holds of the sink and of each thread between two locked blocks.
use ai_native_governed_data.Prelude.{
  ℕ, zero, suc, ◌+◌, ◌-◌, ◌≤◌, ◌<◌, ◌≡◌, ◌≢◌, refl, ap, ◌∙◌, String, Bool, true, false, Option,
  none, some, List, [], ◌∷◌, length, ℕ_discrete, arith, if_pos, if_neg,
}
use text.Mathlib.TextEquality.{eq_iff}
use ai_native_governed_data.Prelude.Dict.{lookup, insert, IsDict, lookup-insert, insert-IsDict}
use ai_native_governed_data.Audit.{
  BatchReceipt, Sink, Pc, awaiting, coalescing, syncing, publishing, returned, count, event_types,
  batch_of, hand_out,
}

-- The counts of a batch add up to its records, of which there is at least one.
pub record IsBatch (r : BatchReceipt) : Type 0 where
  pub positive : 1 ≤ r.total_records
  pub adds_up :
      r.runtime_records + r.api_guard_records + r.api_timing_records + r.other_records
      ≡ r.total_records

abbrev pub HasReceipt : Sink → ℕ → Type 0
HasReceipt sink g =
    (r : BatchReceipt) × (lookup ℕ_discrete g sink.batch_receipts ≡ some r) × IsBatch r

-- Of the sink alone: generations count the records of the file, and only synced ones are durable.
pub record IsOrdered (sink : Sink) : Type 0 where
  pub written : sink.write_generation ≡ length sink.file
  pub durable_synced : sink.durable_generation ≤ sink.synced
  pub synced_written : sink.synced ≤ sink.write_generation
  pub dict : IsDict ℕ_discrete sink.batch_receipts

-- Of a sync leader, which works for generation `g`.
pub record Leads (sink : Sink) (g : ℕ) : Type 0 where
  pub pending : sink.durable_generation < g
  pub written : g ≤ sink.write_generation
  pub flag : sink.sync_in_progress ≡ true
  pub opened : sink.closed ≡ false

-- Of a batch that the leader has captured.
pub record Captured (sink : Sink) (g previous target : ℕ) (types : List String) : Type 0 where
  pub leads : Leads sink g
  pub covers : g ≤ target
  pub written : target ≤ sink.write_generation
  pub from : previous ≡ sink.durable_generation
  pub sized : length types ≡ target - previous

-- Of a call that has returned from a sink that syncs.
pub record Acknowledged (sink : Sink) (g : ℕ) (r : BatchReceipt) : Type 0 where
  pub durable : sink.durable_sync ≡ true → g ≤ sink.durable_generation
  pub batch : sink.durable_sync ≡ true → IsBatch r

abbrev pub Holds : Sink → Pc → Type 0
Holds sink (awaiting g) =
    (g ≤ sink.write_generation) × (g ≤ sink.durable_generation → HasReceipt sink g)
Holds sink (coalescing g) = Leads sink g
Holds sink (syncing g previous target types) = Captured sink g previous target types
Holds sink (publishing g previous target types) =
    Captured sink g previous target types × (target ≤ sink.synced)
Holds sink (returned g r) = Acknowledged sink g r
Holds sink _ = Unit

-- The generation that a thread waits for, and whether it is the leader.
abbrev pub waits_for : Pc → Option ℕ
waits_for (awaiting g) = some g
waits_for (coalescing g) = some g
waits_for (syncing g previous target types) = some g
waits_for (publishing g previous target types) = some g
waits_for _ = none

abbrev pub is_leader : Pc → Bool
is_leader (coalescing g) = true
is_leader (syncing g previous target types) = true
is_leader (publishing g previous target types) = true
is_leader _ = false

pub length-event_types :
    (types : List (ℕ × String)) (previous n : ℕ) → length (event_types types previous n) ≡ n
unfolding event_types
length-event_types types previous zero = refl
length-event_types types previous (suc n) = ap suc (length-event_types types (previous + 1) n)

runtime_ne_guard : ◌≢◌ {A = String} "RUNTIME" "API_GUARD"
runtime_ne_guard = ground (arith, eq_iff "RUNTIME" "API_GUARD")

runtime_ne_timing : ◌≢◌ {A = String} "RUNTIME" "API_TIMING"
runtime_ne_timing = ground (arith, eq_iff "RUNTIME" "API_TIMING")

guard_ne_timing : ◌≢◌ {A = String} "API_GUARD" "API_TIMING"
guard_ne_timing = ground (arith, eq_iff "API_GUARD" "API_TIMING")

-- Three different names are counted apart.
counts-le_length :
    (types : List String)
    → count "RUNTIME" types + count "API_GUARD" types + count "API_TIMING" types ≤ length types
counts-le_length [] = omega arith
counts-le_length (x ∷ types) =
    ground (arith, counts-le_length types, runtime_ne_guard, runtime_ne_timing, guard_ne_timing)

pub batch_of-IsBatch :
    (batch_id : ℕ) (types : List String) → 1 ≤ length types → IsBatch (batch_of batch_id types)
unfolding batch_of
batch_of-IsBatch batch_id types h = record {
  positive = h;
  adds_up = omega (arith, counts-le_length types);
}

-- The loop gives the receipt to the generations of the batch.
pub hand_out_old :
    (previous n : ℕ) (b : BatchReceipt) (receipts : List (ℕ × BatchReceipt)) (g : ℕ)
    → g ≤ previous
    → lookup ℕ_discrete g (hand_out previous n b receipts) ≡ lookup ℕ_discrete g receipts
unfolding hand_out
hand_out_old previous zero b receipts g h = refl
hand_out_old previous (suc n) b receipts g h =
    hand_out_old (previous + 1) n b (insert ℕ_discrete (previous + 1) b receipts) g (omega arith)
    ∙ lookup-insert ℕ_discrete g (previous + 1) b receipts
    ∙ if_neg (ℕ_discrete g (previous + 1)) (λ e. omega arith) _ _

pub hand_out_new :
    (previous n : ℕ) (b : BatchReceipt) (receipts : List (ℕ × BatchReceipt)) (g : ℕ)
    → previous < g
    → g ≤ previous + n
    → lookup ℕ_discrete g (hand_out previous n b receipts) ≡ some b
unfolding hand_out
hand_out_new previous zero b receipts g h k = absurd (omega arith)
hand_out_new previous (suc n) b receipts g h k = elim (ℕ_discrete g (previous + 1)) [
  | yes e ↦
      hand_out_old (previous + 1) n b (insert ℕ_discrete (previous + 1) b receipts) g (omega arith)
      ∙ lookup-insert ℕ_discrete g (previous + 1) b receipts
      ∙ if_pos (ℕ_discrete g (previous + 1)) e _ _
  | no e ↦
      hand_out_new (previous + 1) n b (insert ℕ_discrete (previous + 1) b receipts) g (omega arith)
        (omega arith)
]

pub hand_out-IsDict :
    (previous n : ℕ) (b : BatchReceipt) (receipts : List (ℕ × BatchReceipt))
    → IsDict ℕ_discrete receipts
    → IsDict ℕ_discrete (hand_out previous n b receipts)
unfolding hand_out
hand_out-IsDict previous zero b receipts h = h
hand_out-IsDict previous (suc n) b receipts h =
    hand_out-IsDict (previous + 1) n b (insert ℕ_discrete (previous + 1) b receipts)
      (insert-IsDict ℕ_discrete (previous + 1) b receipts h)
