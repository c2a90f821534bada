-- ===== src/Audit/Keeps/Waits.antt =====
-- agent/audit/writer.py: the block in which a thread waits for its receipt or becomes the leader.
use ai_native_governed_data.Prelude.{
  ℕ, ◌≤◌, ◌<◌, ◌≡◌, refl, ◌∙◌, true, false, inl, inr, some, ℕ_discrete, arith, if_neg, leb, leb→le,
  leb→lt, Bool-cases,
}
use ai_native_governed_data.Prelude.Dict.{lookup, pop, lookup-pop, pop-IsDict}
use ai_native_governed_data.Audit.{
  BatchReceipt, Sink, awaiting, coalescing, returned, raised, is_unavailable, await_durable,
}
use ai_native_governed_data.Audit.Invariant.{IsBatch, IsOrdered, Holds}
use ai_native_governed_data.Audit.Keeps.Frames.{other_frame}
use ai_native_governed_data.Audit.Keeps.Blocks.{
  SafeResult, steady_frame, no_leader, stay, leave, by_result,
}

module _ (sink : Sink) (g : ℕ) (o : IsOrdered sink) where
  -- The thread fetches its receipt.
  fetches :
      (r : BatchReceipt)
      → lookup ℕ_discrete g sink.batch_receipts ≡ some r
      → IsBatch r
      → g ≤ sink.durable_generation
      → SafeResult sink
          (awaiting g)
          (record sink { batch_receipts = pop ℕ_discrete g sink.batch_receipts }, returned g r)
  fetches r found batch le =
      let sink' : Sink = record sink { batch_receipts = pop ℕ_discrete g sink.batch_receipts } in
      record {
        ordered = record {
          written = o.written;
          durable_synced = o.durable_synced;
          synced_written = o.synced_written;
          dict = pop-IsDict ℕ_discrete g sink.batch_receipts o.dict;
        };
        holds = record { durable = λ e. le; batch = λ e. batch };
        frame = λ pc differ h.
            steady_frame sink (awaiting g) o sink' (omega arith) refl refl refl (omega arith) refl
              pc
              (λ k w (x, e, b). (
                x,
                lookup-pop ℕ_discrete k g sink.batch_receipts o.dict
                    ∙ if_neg (ℕ_discrete k g) (λ same. differ.apart k (ground arith) w) _ _
                    ∙ e,
                b,
              ))
              h;
        leader = λ e. cc;
        waits = λ k e. cc;
      }

  leads :
      sink.closed ≡ false
      → sink.sync_in_progress ≡ false
      → sink.durable_generation < g
      → g ≤ sink.write_generation
      → SafeResult sink (awaiting g) (record sink { sync_in_progress = true }, coalescing g)
  leads opened down pending written = record {
    ordered = record {
      written = o.written;
      durable_synced = o.durable_synced;
      synced_written = o.synced_written;
      dict = o.dict;
    };
    holds = record { pending = pending; written = written; flag = refl; opened = opened };
    frame = λ pc differ h.
        other_frame sink (record sink { sync_in_progress = true }) (omega arith) pc
          (no_leader sink (awaiting g) o down pc h) (omega arith) refl (λ k w had le. had le) h;
    leader = λ e. inr down;
    waits = λ k e. inl e;
  }

  pub await_durable-Safe :
      Holds sink (awaiting g) → SafeResult sink (awaiting g) (await_durable sink g)
  unfolding await_durable
  await_durable-Safe h = elim (Bool-cases (is_unavailable sink)) [
    | inl gone ↦
        by_result sink (awaiting g) o (ground arith) (leave sink (awaiting g) o raised tt refl refl)
    | inr there ↦ elim (Bool-cases (leb g sink.durable_generation)) [
      | inl le ↦
          let (r, found, batch) = h.1 (leb→le _ _ le) in
          by_result sink (awaiting g) o (ground arith) (fetches r found batch (leb→le _ _ le))
      | inr lt ↦ elim (Bool-cases sink.sync_in_progress) [
        | inl busy ↦ by_result sink (awaiting g) o (ground arith) (stay sink (awaiting g) o h)
        | inr down ↦
            by_result sink (awaiting g) o (ground arith)
              (leads (ground arith) down (leb→lt _ _ lt) h.0)
      ]
    ]
  ]
