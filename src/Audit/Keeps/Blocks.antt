-- ===== src/Audit/Keeps/Blocks.antt =====
-- agent/audit/writer.py: each locked block keeps what holds of the sink and of all threads.
use ai_native_governed_data.Prelude.{
  ℕ, ◌+◌, ◌≤◌, ◌<◌, ◌≡◌, refl, sym, subst, String, true, false, ◌⊎◌, inl, inr, Option, none, some,
  List, [], ◌∷◌, ◌==◌, length, length-append, arith, Bool-cases,
}
use ai_native_governed_data.Audit.{
  Sink, Pc, awaiting, returned, raised, closing, finished, fail, is_unavailable, write_record,
  append, volatile_receipt, close_loop, close,
}
use ai_native_governed_data.Audit.Invariant.{HasReceipt, IsOrdered, Holds, waits_for, is_leader}
use ai_native_governed_data.Audit.Keeps.Frames.{flag_of, other_frame, leader_frame}

-- Two threads: not both are leaders, and they wait for different generations.
pub record Differ (own pc : Pc) : Type 0 where
  pub one_leader : is_leader own ≡ true → is_leader pc ≡ false
  pub apart : (g : ℕ) → waits_for own ≡ some g → waits_for pc ≡ some g → ⊥

-- The block of a thread at `own` that ends with the sink `sink'`, and the thread at `new`.
pub record Safe (sink : Sink) (own : Pc) (sink' : Sink) (new : Pc) : Type 0 where
  pub ordered : IsOrdered sink'
  pub holds : Holds sink' new
  pub frame : (pc : Pc) → Differ own pc → Holds sink pc → Holds sink' pc
  pub leader : is_leader new ≡ true → (is_leader own ≡ true) ⊎ (sink.sync_in_progress ≡ false)
  pub waits :
      (g : ℕ) → waits_for new ≡ some g → (waits_for own ≡ some g) ⊎ (sink.write_generation < g)

abbrev pub SafeResult : Sink → Pc → Sink × Pc → Type 0
SafeResult sink own result = Safe sink own result.0 result.1

module _ (sink : Sink) (own : Pc) (o : IsOrdered sink) where
  pub by_result :
      {result result' : Sink × Pc}
      → result ≡ result'
      → SafeResult sink own result'
      → SafeResult sink own result
  by_result e = subst (SafeResult sink own) (sym e)

  -- A block that leaves the sink as it is, and the thread at a place of no account or its own.
  pub stay : Holds sink own → SafeResult sink own (sink, own)
  stay h = record {
    ordered = o;
    holds = h;
    frame = λ pc differ k. k;
    leader = λ e. inl e;
    waits = λ g e. inl e;
  }

  pub leave :
      (new : Pc)
      → Holds sink new
      → is_leader new ≡ false
      → waits_for new ≡ none
      → SafeResult sink own (sink, new)
  leave new h l w = record {
    ordered = o;
    holds = h;
    frame = λ pc differ k. k;
    leader = λ e. cc;
    waits = λ g e. cc;
  }

  pub steady_frame :
      (sink' : Sink)
      → sink.write_generation ≤ sink'.write_generation
      → sink'.durable_generation ≡ sink.durable_generation
      → sink'.sync_in_progress ≡ sink.sync_in_progress
      → sink'.closed ≡ sink.closed
      → sink.synced ≤ sink'.synced
      → sink'.durable_sync ≡ sink.durable_sync
      → (pc : Pc) → ((g : ℕ) → waits_for pc ≡ some g → HasReceipt sink g → HasReceipt sink' g)
      → Holds sink pc
      → Holds sink' pc
  steady_frame sink' more d f c s durable pc r h = elim (Bool-cases (is_leader pc)) [
    | inl l ↦ leader_frame sink sink' more d f c s pc l h
    | inr l ↦
        other_frame sink sink' more pc l (omega (arith, d)) durable
          (λ g w had le. r g w (had (omega (arith, d, le)))) h
  ]

  pub fails : SafeResult sink own (fail sink, raised)
  fails = record {
    ordered = record {
      written = o.written;
      durable_synced = o.durable_synced;
      synced_written = o.synced_written;
      dict = o.dict;
    };
    holds = tt;
    frame = λ pc differ h.
        steady_frame (fail sink) (omega arith) refl refl refl (omega arith) refl pc (λ g w r. r) h;
    leader = λ e. cc;
    waits = λ g e. cc;
  }

  writes :
      (payload : List ℕ) (event_type : String) (new : Pc)
      → Holds (write_record sink payload event_type) new
      → is_leader new ≡ false
      → ((g : ℕ) → waits_for new ≡ some g → g ≡ sink.write_generation + 1)
      → SafeResult sink own (write_record sink payload event_type, new)
  unfolding write_record
  writes payload event_type new h l w = record {
    ordered = record {
      written = omega (arith, o.written, length-append {0} sink.file (payload ∷ []));
      durable_synced = o.durable_synced;
      synced_written = omega (arith, o.synced_written);
      dict = o.dict;
    };
    holds = h;
    frame = λ pc differ k.
        steady_frame (write_record sink payload event_type) (omega arith) refl refl refl
          (omega arith) refl pc (λ g w r. r) k;
    leader = λ e. cc;
    waits = λ g e. inr (omega (arith, w g e));
  }

  -- The durable sink: the thread waits. The other one: it returns.
  writes_durable :
      (payload : List ℕ) (event_type : String)
      → SafeResult sink own
          (write_record sink payload event_type, awaiting (sink.write_generation + 1))
  unfolding write_record
  writes_durable payload event_type =
      writes payload event_type (awaiting (sink.write_generation + 1))
        (omega arith, λ le. absurd (omega (arith, o.durable_synced, o.synced_written, le))) refl
        (λ g e. ground arith)

  writes_volatile :
      (payload : List ℕ) (event_type : String)
      → sink.durable_sync ≡ false
      → SafeResult sink own (
        write_record sink payload event_type,
        returned (sink.write_generation + 1) (volatile_receipt event_type),
      )
  unfolding write_record
  writes_volatile payload event_type v =
      writes payload event_type (returned (sink.write_generation + 1) (volatile_receipt event_type))
        (record { durable = λ e. cc; batch = λ e. cc }) refl (λ g e. cc)

  append_there :
      (payload : List ℕ) (event_type : String) (written : Option ℕ)
      → is_unavailable sink ≡ false
      → SafeResult sink own (append sink payload event_type written)
  unfolding append
  append_there payload event_type none there = rw (there, append) fails
  append_there payload event_type (some n) there = elim (Bool-cases (n == length payload)) [
    | inr short ↦ rw (there, short, append) fails
    | inl full ↦ elim (Bool-cases sink.durable_sync) [
      | inl durable ↦ by_result (ground arith) (writes_durable payload event_type)
      | inr volatile ↦ by_result (ground arith) (writes_volatile payload event_type volatile)
    ]
  ]

  pub append-Safe :
      (payload : List ℕ) (event_type : String) (written : Option ℕ)
      → SafeResult sink own (append sink payload event_type written)
  unfolding append
  append-Safe payload event_type written = elim (Bool-cases (is_unavailable sink)) [
    | inl gone ↦ rw (gone, append) (leave raised tt refl refl)
    | inr there ↦ append_there payload event_type written there
  ]

  -- While the flag is down there is no leader.
  pub no_leader : sink.sync_in_progress ≡ false → (pc : Pc) → Holds sink pc → is_leader pc ≡ false
  no_leader down pc h = elim (Bool-cases (is_leader pc)) [
    | inl l ↦ let up = (flag_of sink pc h l).0 in cc
    | inr l ↦ l
  ]

  pub close_loop-Safe : SafeResult sink own (close_loop sink)
  unfolding close_loop
  close_loop-Safe = elim (Bool-cases sink.sync_in_progress) [
    | inl busy ↦ by_result (ground arith) (leave closing tt refl refl)
    | inr down ↦
        by_result {result' = (record sink { closed = true }, finished)} (ground arith) (record {
          ordered = record {
            written = o.written;
            durable_synced = o.durable_synced;
            synced_written = o.synced_written;
            dict = o.dict;
          };
          holds = tt;
          frame = λ pc differ h.
              other_frame sink (record sink { closed = true }) (omega arith) pc
                (no_leader down pc h) (omega arith) refl (λ g w had le. had le) h;
          leader = λ e. cc;
          waits = λ g e. cc;
        })
  ]

  pub close-Safe : SafeResult sink own (close sink)
  unfolding close
  close-Safe = elim (Bool-cases sink.closed) [
    | inl done ↦ by_result (ground arith) (leave finished tt refl refl)
    | inr open_still ↦ by_result (ground arith) close_loop-Safe
  ]
