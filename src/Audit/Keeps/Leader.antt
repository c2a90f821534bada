-- ===== src/Audit/Keeps/Leader.antt =====
-- agent/audit/writer.py: the blocks of the sync leader, and the step of a thread at any place.
use ai_native_governed_data.Prelude.{
  ℕ, ◌+◌, ◌-◌, ◌≤◌, refl, ◌∙◌, max, String, Bool, true, false, List, arith, Bool-cases, inl, inr,
  dec_le,
}
use ai_native_governed_data.Audit.{
  Sink, Pc, idle, awaiting, coalescing, syncing, publishing, returned, raised, closing, finished,
  is_unavailable, capture, event_types, sync, batch_of, publish,
}
use ai_native_governed_data.Audit.Schedule.{
  Move, call_append, call_close, go_on, success_of, enter, advance,
}
use ai_native_governed_data.Audit.Invariant.{
  HasReceipt, IsOrdered, Leads, Captured, Holds, length-event_types, batch_of-IsBatch, hand_out_old,
  hand_out_new, hand_out-IsDict,
}
use ai_native_governed_data.Audit.Keeps.Frames.{other_frame}
use ai_native_governed_data.Audit.Keeps.Blocks.{
  SafeResult, by_result, stay, leave, append-Safe, close_loop-Safe, close-Safe,
}
use ai_native_governed_data.Audit.Keeps.Waits.{await_durable-Safe}

module _ (sink : Sink) (g : ℕ) (o : IsOrdered sink) where
  captures :
      Leads sink g
      → SafeResult sink (coalescing g) (
        sink,
        syncing g sink.durable_generation sink.write_generation (
            event_types sink.generation_event_types sink.durable_generation
              (sink.write_generation - sink.durable_generation)),
      )
  captures h = record {
    ordered = o;
    holds = record {
      leads = h;
      covers = h.written;
      written = omega arith;
      from = refl;
      sized = length-event_types sink.generation_event_types sink.durable_generation _;
    };
    frame = λ pc differ k. k;
    leader = λ e. inl refl;
    waits = λ k e. inl e;
  }

  capture-Safe : Holds sink (coalescing g) → SafeResult sink (coalescing g) (capture sink g)
  unfolding capture
  capture-Safe h = elim (Bool-cases (is_unavailable sink)) [
    | inl gone ↦
        by_result sink (coalescing g) o (ground arith)
          (leave sink (coalescing g) o raised tt refl refl)
    | inr there ↦ by_result sink (coalescing g) o (ground arith) (captures h)
  ]

  module _ (previous target : ℕ) (types : List String) where
    abbrev at_sync : Pc
    at_sync = syncing g previous target types

    abbrev at_publish : Pc
    at_publish = publishing g previous target types

    synced_up :
        Captured sink g previous target types
        → SafeResult sink at_sync (record sink { synced = max sink.synced target }, at_publish)
    synced_up h = record {
      ordered = record {
        written = o.written;
        durable_synced = omega (arith, o.durable_synced);
        synced_written = omega (arith, o.synced_written, h.written);
        dict = o.dict;
      };
      holds = (
        record {
          leads = record {
            pending = h.leads.pending;
            written = h.leads.written;
            flag = h.leads.flag;
            opened = h.leads.opened;
          };
          covers = h.covers;
          written = h.written;
          from = h.from;
          sized = h.sized;
        },
        omega arith,
      );
      frame = λ pc differ k.
          other_frame sink (record sink { synced = max sink.synced target }) (omega arith) pc
            (differ.one_leader refl) (omega arith) refl (λ x w had le. had le) k;
      leader = λ e. inl refl;
      waits = λ x e. inl e;
    }

    sync_failed :
        SafeResult sink at_sync (record sink { failure = true; sync_in_progress = false }, raised)
    sync_failed = record {
      ordered = record {
        written = o.written;
        durable_synced = o.durable_synced;
        synced_written = o.synced_written;
        dict = o.dict;
      };
      holds = tt;
      frame = λ pc differ k.
          other_frame sink (record sink { failure = true; sync_in_progress = false }) (omega arith)
            pc (differ.one_leader refl) (omega arith) refl (λ x w had le. had le) k;
      leader = λ e. cc;
      waits = λ x e. cc;
    }

    sync-Safe :
        (success : Bool)
        → Captured sink g previous target types
        → SafeResult sink at_sync (sync sink success g previous target types)
    unfolding sync
    sync-Safe true h = synced_up h
    sync-Safe false h = sync_failed

    -- The batch's generations have its receipt now, and older ones keep theirs.
    published :
        (k : ℕ)
        → Captured sink g previous target types
        → (k ≤ sink.durable_generation → HasReceipt sink k)
        → k ≤ max sink.durable_generation target
        → HasReceipt (publish sink g previous target types).0 k
    unfolding publish
    published k h had le =
        let n = target - previous in
        let batch = batch_of (sink.sync_count + 1) types in
        elim (dec_le k previous) [
          | yes old ↦
              let (r, found, ok_r) = had (omega (arith, h.from, old)) in
              (r, hand_out_old previous n batch sink.batch_receipts k old ∙ found, ok_r)
          | no new ↦ (
            batch,
            hand_out_new previous n batch sink.batch_receipts k (omega (arith, new))
                (omega (arith, le, h.from, new)),
            batch_of-IsBatch (sink.sync_count + 1) types (omega (arith, h.sized, le, h.from, new)),
          )
        ]

    publish-Safe :
        Holds sink at_publish → SafeResult sink at_publish (publish sink g previous target types)
    unfolding publish
    publish-Safe (h, synced) =
        let sink' : Sink = (publish sink g previous target types).0 in
        record {
          ordered = record {
            written = o.written;
            durable_synced = omega (arith, o.durable_synced, synced);
            synced_written = o.synced_written;
            dict =
                hand_out-IsDict previous (target - previous) (batch_of (sink.sync_count + 1) types)
                  sink.batch_receipts o.dict;
          };
          holds = (
            h.leads.written,
            λ le. published g h (λ old. absurd (omega (arith, h.leads.pending, old))) le,
          );
          frame = λ pc differ k.
              other_frame sink sink' (omega arith) pc (differ.one_leader refl) (omega arith) refl
                (λ x w had le. published x h had le) k;
          leader = λ e. cc;
          waits = λ x e. inl e;
        }

enter-Safe :
    (sink : Sink) (pc : Pc) (move : Move)
    → IsOrdered sink
    → Holds sink pc
    → SafeResult sink pc (enter sink pc move)
unfolding enter
enter-Safe sink pc (call_append payload event_type written) o h =
    append-Safe sink pc o payload event_type written
enter-Safe sink pc call_close o h = close-Safe sink pc o
enter-Safe sink pc (go_on success) o h = stay sink pc o h

-- Every block of every thread keeps what holds.
pub advance-Safe :
    (sink : Sink) (pc : Pc) (move : Move)
    → IsOrdered sink
    → Holds sink pc
    → SafeResult sink pc (advance sink pc move)
unfolding advance
advance-Safe sink (awaiting g) move o h = await_durable-Safe sink g o h
advance-Safe sink (coalescing g) move o h = capture-Safe sink g o h
advance-Safe sink (syncing g previous target types) move o h =
    sync-Safe sink g o previous target types (success_of move) h
advance-Safe sink (publishing g previous target types) move o h =
    publish-Safe sink g o previous target types h
advance-Safe sink closing move o h = close_loop-Safe sink closing o
advance-Safe sink idle move o h = enter-Safe sink idle move o h
advance-Safe sink (returned g r) move o h = enter-Safe sink (returned g r) move o h
advance-Safe sink raised move o h = enter-Safe sink raised move o h
advance-Safe sink finished move o h = enter-Safe sink finished move o h
