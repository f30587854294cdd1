-- ===== src/Connection/Pump.antt =====
-- writePump of signaling/connection/connection.go. Select takes any case that is ready, so what it
-- takes is given, with what other goroutines do in between; Write and WriteMessage may fail.
use kwmserver.Base.{
  ℕ, Bool, true, false, Option, none, some, List, [], ◌∷◌, ◌++◌, if◌then◌else◌, Outcome, ok, fail,
  panic, blocked,
}
use kwmserver.Connection.Defs.{Connection, next_payload, ping_tick, raw_send, close}

-- The context is done; a receive from `send`, and whether its write works; a tick, and whether its
-- ping is written; and RawSend and Close by others.
pub data Choice (P : Type 0) : Type 0 where
  done : Choice P
  receives : Bool → Choice P
  ticks : Bool → Choice P
  queues : P → Choice P
  closes : ℕ → Choice P

-- The pump goes on, has returned nil, or the write of a payload or of a ping failed.
pub data Pump (P : Type 0) : Type 0 where
  running stopped ping_failed : Pump P
  write_failed : P → Pump P

pub record Turn (P C T B : Type 0) : Type 0 where
  pub pump : Pump P
  pub written : List P
  pub connection : Connection P C T B

abbrev pub goes_on : {P : Type 0} → Pump P → Bool
goes_on running = true
goes_on _ = false

module _ {P C T B : Type 0} where
  abbrev pub turn : Pump P → List P → Connection P C T B → Turn P C T B
  turn r out c = record { pump = r; written = out; connection = c }

  abbrev received : Bool → Outcome (Option P) × Connection P C T B → Turn P C T B
  received b (ok none, c) = turn running [] c
  received true (ok (some p), c) = turn running (p ∷ []) c
  received false (ok (some p), c) = turn (write_failed p) [] c
  received b (fail e, c) = turn stopped [] c
  received b (panic, c) = turn stopped [] c
  received b (blocked, c) = turn stopped [] c

  -- A ping that is still pending ends the pump.
  abbrev ticked : Bool → Bool × Connection P C T B → Turn P C T B
  ticked b (false, c) = turn stopped [] c
  ticked true (true, c) = turn running [] c
  ticked false (true, c) = turn ping_failed [] c

  -- One turn of the loop
  unfoldable pub take_turn : Choice P → Connection P C T B → Turn P C T B
  take_turn done c = turn stopped [] c
  take_turn (receives b) c = received b (next_payload c)
  take_turn (ticks b) c = ticked b (ping_tick c)
  take_turn (queues p) c = turn running [] (raw_send p c).1
  take_turn (closes now) c = turn running [] (close now c).0

  -- writePump
  unfoldable pub write_pump : List (Choice P) → Connection P C T B → Turn P C T B
  write_pump [] c = turn running [] c
  write_pump (x ∷ xs) c =
      let t = take_turn x c in
      let rest = write_pump xs t.connection in
      if goes_on t.pump then turn rest.pump (t.written ++ rest.written) rest.connection else t
