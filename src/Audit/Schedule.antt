-- ===== src/Audit/Schedule.antt =====
-- agent/audit/writer.py: threads that share one sink. A schedule says which thread moves next, what
-- it calls, and what the operating system answers it.
use ai_native_governed_data.Prelude.{ℕ, String, Bool, Option, List, [], ◌∷◌, ℕ_discrete, ite}
use ai_native_governed_data.Audit.{
  Sink, Pc, idle, awaiting, coalescing, syncing, publishing, closing, init, append, await_durable,
  capture, sync, publish, close, close_loop,
}

-- What a thread does when it moves: outside of a call it begins one; inside it goes on, and
-- `success` is the answer of `fdatasync` where it is called.
pub data Move : Type 0 where
  call_append : (payload : List ℕ) → (event_type : String) → (written : Option ℕ) → Move
  call_close : Move
  go_on : (success : Bool) → Move

pub record System : Type 0 where
  pub sink : Sink
  pub pcs : ℕ → Pc

-- A call that begins.
unfoldable pub enter : Sink → Pc → Move → Sink × Pc
enter sink pc (call_append payload event_type written) = append sink payload event_type written
enter sink pc call_close = close sink
enter sink pc (go_on success) = (sink, pc)

abbrev pub success_of : Move → Bool
success_of (go_on success) = success
success_of _ = Bool.false

unfoldable pub advance : Sink → Pc → Move → Sink × Pc
unfolding enter
advance sink (awaiting g) move = await_durable sink g
advance sink (coalescing g) move = capture sink g
advance sink (syncing g previous target types) move =
    sync sink (success_of move) g previous target types
advance sink (publishing g previous target types) move = publish sink g previous target types
advance sink closing move = close_loop sink
advance sink pc move = enter sink pc move

abbrev pub update : (ℕ → Pc) → ℕ → Pc → ℕ → Pc
update pcs i pc j = ite (ℕ_discrete j i) pc (pcs j)

unfoldable pub step : System → ℕ → Move → System
unfolding advance
step s i move =
    let (sink, pc) = advance s.sink (s.pcs i) move in
    record { sink = sink; pcs = update s.pcs i pc }

unfoldable pub run : System → List (ℕ × Move) → System
unfolding step
run s [] = s
run s ((i, move) ∷ schedule) = run (step s i move) schedule

abbrev pub start : Bool → System
start durable = record { sink = init durable; pcs = λ i. idle }
