-- ===== src/Connection/Writing.antt =====
-- What writePump of signaling/connection/connection.go writes.
use kwmserver.Base.{
  ℕ, true, false, List, [], ◌∷◌, ◌++◌, if◌then◌else◌, Outcome, ok, ◌≡◌, refl, ◌∙◌, ap, sym, arith,
  append_assoc, append-nil,
}
use kwmserver.Connection.Defs.{Connection, next_payload, ping_tick, raw_send, close}
use kwmserver.Connection.Pump.{
  Choice, done, receives, ticks, queues, closes, Pump, running, stopped, ping_failed, write_failed,
  Turn, turn, goes_on, take_turn, write_pump,
}

-- The payloads that others put into the queue while the pump runs.
abbrev pub accepted : {P : Type 0} → Outcome (Unit {0}) → P → List P
accepted (ok u) p = p ∷ []
accepted _ p = []

-- The payload whose write failed.
abbrev pub dropped : {P : Type 0} → Pump P → List P
dropped (write_failed p) = p ∷ []
dropped _ = []

-- As many receives, all written, as there are payloads, and one more.
unfoldable pub receive_all : {P : Type 0} → List P → List (Choice P)
receive_all [] = receives true ∷ []
receive_all (p ∷ ps) = receives true ∷ receive_all ps

module _ {P C T B : Type 0} where
  abbrev pub put_in : Choice P → Connection P C T B → List P
  put_in (queues p) c = accepted (raw_send p c).0 p
  put_in _ c = []

  unfoldable pub queued : List (Choice P) → Connection P C T B → List P
  queued [] c = []
  queued (x ∷ xs) c =
      let t = take_turn x c in
      let rest = queued xs t.connection in put_in x c ++ (if goes_on t.pump then rest else [])

  turn_order :
      (x : Choice P) (c : Connection P C T B)
      → let t = take_turn x c in
        t.written ++ (dropped t.pump ++ t.connection.send) ≡ c.send ++ put_in x c
  unfolding take_turn next_payload ping_tick raw_send close
  turn_order done c = sym (append-nil c.send)
  turn_order (receives true) c = ground (arith, append-nil c.send)
  turn_order (receives false) c = ground (arith, append-nil c.send)
  turn_order (ticks true) c = ground (arith, append-nil c.send)
  turn_order (ticks false) c = ground (arith, append-nil c.send)
  turn_order (queues p) c = ground (arith, append-nil c.send)
  turn_order (closes now) c = ground (arith, append-nil c.send)

  join_order :
      (r : Pump P) (out : List P) (c : Connection P C T B) (rest : Turn P C T B)
      (before add later : List P)
      → out ++ (dropped r ++ c.send) ≡ before ++ add
      → rest.written ++ (dropped rest.pump ++ rest.connection.send) ≡ c.send ++ later
      → let t =
          if goes_on r
          then turn rest.pump (out ++ rest.written) rest.connection
          else turn r out c in
        t.written ++ (dropped t.pump ++ t.connection.send)
        ≡ before ++ (add ++ (if goes_on r then later else []))
  join_order running out c rest before add later h g =
      append_assoc out rest.written (dropped rest.pump ++ rest.connection.send)
      ∙ ap (λ l. out ++ l) g
      ∙ sym (append_assoc out c.send later)
      ∙ ap (λ l. l ++ later) h
      ∙ append_assoc before add later
  join_order stopped out c rest before add later h g =
      h ∙ ap (λ l. before ++ l) (sym (append-nil add))
  join_order ping_failed out c rest before add later h g =
      h ∙ ap (λ l. before ++ l) (sym (append-nil add))
  join_order (write_failed p) out c rest before add later h g =
      h ∙ ap (λ l. before ++ l) (sym (append-nil add))

  -- However the pump is scheduled, what it has written, a payload whose write failed, and what is
  -- left in the queue are, in this order, the payloads of the queue at the start followed by those
  -- that were queued since: none is lost, doubled or overtaken.
  pub write_pump-queued :
      (xs : List (Choice P)) (c : Connection P C T B)
      → (write_pump xs c).written
          ++ (dropped (write_pump xs c).pump ++ (write_pump xs c).connection.send)
        ≡ c.send ++ queued xs c
  unfolding write_pump queued
  write_pump-queued [] c = sym (append-nil c.send)
  write_pump-queued (x ∷ xs) c =
      let t = take_turn x c in
      join_order t.pump t.written t.connection (write_pump xs t.connection) c.send (put_in x c)
        (queued xs t.connection) (turn_order x c) (write_pump-queued xs t.connection)

  closed_drains :
      (ps : List P) (c : Connection P C T B)
      → c.closed ≡ true
      → c.send ≡ ps
      → (((write_pump (receive_all ps) c).pump ≡ stopped)
          × ((write_pump (receive_all ps) c).written ≡ ps))
  unfolding write_pump receive_all take_turn next_payload
  closed_drains [] c l e = ground arith
  closed_drains (p ∷ ps) c l e = ground (arith, closed_drains ps (record c { send = ps }) l refl)

  -- A connection that is closed writes everything that is still queued, in order, and then its pump
  -- ends, if the pump does nothing but receive and every write works.
  pub close_drains :
      (now : ℕ) (c : Connection P C T B)
      → ((write_pump (closes now ∷ receive_all c.send) c).pump ≡ stopped)
        × ((write_pump (closes now ∷ receive_all c.send) c).written ≡ c.send)
  unfolding write_pump take_turn close
  close_drains now c = ground (arith, closed_drains c.send (close now c).0)
