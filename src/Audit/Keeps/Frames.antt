-- ===== src/Audit/Keeps/Frames.antt =====
-- agent/audit/writer.py: what holds of a thread goes on holding while others change the sink.
use ai_native_governed_data.Prelude.{ℕ, ◌≤◌, ◌≡◌, refl, ◌∙◌, true, false, String, some, List, arith}
use ai_native_governed_data.Audit.{Sink, Pc, awaiting, coalescing, syncing, publishing, returned}
use ai_native_governed_data.Audit.Invariant.{
  HasReceipt, Leads, Captured, Holds, waits_for, is_leader,
}

-- A thread waits for a generation that was written, and a leader keeps the flag up and the sink open.
pub written_of :
    (sink : Sink) (pc : Pc) (g : ℕ)
    → Holds sink pc
    → waits_for pc ≡ some g
    → g ≤ sink.write_generation
written_of sink (awaiting x) g h e = ground arith
written_of sink (coalescing x) g h e = ground (arith, h.written)
written_of sink (syncing x previous target types) g h e = ground (arith, h.leads.written)
written_of sink (publishing x previous target types) g h e = ground (arith, h.0.leads.written)
written_of sink _ g h e = cc

pub flag_of :
    (sink : Sink) (pc : Pc)
    → Holds sink pc
    → is_leader pc ≡ true
    → (sink.sync_in_progress ≡ true) × (sink.closed ≡ false)
flag_of sink (coalescing x) h e = (h.flag, h.opened)
flag_of sink (syncing x previous target types) h e = (h.leads.flag, h.leads.opened)
flag_of sink (publishing x previous target types) h e = (h.0.leads.flag, h.0.leads.opened)
flag_of sink _ h e = cc

module _ (sink sink' : Sink) (more : sink.write_generation ≤ sink'.write_generation) where
  -- A thread that is no leader: what it may find in the receipts has to be shown.
  pub other_frame :
      (pc : Pc)
      → is_leader pc ≡ false
      → sink.durable_generation ≤ sink'.durable_generation
      → sink'.durable_sync ≡ sink.durable_sync
      → ((g : ℕ)
          → waits_for pc ≡ some g
          → (g ≤ sink.durable_generation → HasReceipt sink g)
          → g ≤ sink'.durable_generation
          → HasReceipt sink' g)
      → Holds sink pc
      → Holds sink' pc
  other_frame (awaiting g) l d s r h = (omega arith, r g refl h.1)
  other_frame (returned g x) l d s r h = record {
    durable = λ e. omega (arith, h.durable (rw (← s) e), d);
    batch = λ e. h.batch (rw (← s) e);
  }
  other_frame (coalescing g) l d s r h = cc
  other_frame (syncing g previous target types) l d s r h = cc
  other_frame (publishing g previous target types) l d s r h = cc
  other_frame _ l d s r h = tt

  module _ (d : sink'.durable_generation ≡ sink.durable_generation)
      (f : sink'.sync_in_progress ≡ sink.sync_in_progress) (c : sink'.closed ≡ sink.closed)
      (s : sink.synced ≤ sink'.synced) where
    Leads-frame : (g : ℕ) → Leads sink g → Leads sink' g
    Leads-frame g h = record {
      pending = omega (arith, h.pending, d);
      written = omega (arith, h.written, more);
      flag = f ∙ h.flag;
      opened = c ∙ h.opened;
    }

    Captured-frame :
        (g previous target : ℕ) (types : List String)
        → Captured sink g previous target types
        → Captured sink' g previous target types
    Captured-frame g previous target types h = record {
      leads = Leads-frame g h.leads;
      covers = h.covers;
      written = omega (arith, h.written, more);
      from = omega (arith, h.from, d);
      sized = h.sized;
    }

    -- The leader, while others append, fail or fetch their receipts.
    pub leader_frame : (pc : Pc) → is_leader pc ≡ true → Holds sink pc → Holds sink' pc
    leader_frame (coalescing g) l h = Leads-frame g h
    leader_frame (syncing g previous target types) l h = Captured-frame g previous target types h
    leader_frame (publishing g previous target types) l h =
        (Captured-frame g previous target types h.0, omega (arith, h.1, s))
    leader_frame _ l h = cc
