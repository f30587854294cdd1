-- ===== src/Connection/Laws.antt =====
-- What holds of a connection over any history of the calls of connection.go.
use kwmserver.Base.{
  ℕ, ◌≤◌, String, Bool, true, false, Option, none, some, List, [], ◌∷◌, ◌++◌, length, length-append,
  ◌≡◌, ◌≢◌, refl, ap, ◌∙◌, sym, eq_iff, arith, Dict, dict_laws, lookup-insert, lookup-remove,
  lookup, ok, append_assoc, append-nil, string_eq_refl, Bool-cases, inl, inr, ltb,
}
use kwmserver.Connection.Defs.{
  Connection, close, on_closed, raw_send, send_transaction, transaction, bind, next_payload,
  ping_tick, pong,
}

-- One call on a connection.
pub data Call (P C T B : Type 0) : Type 0 where
  closes : ℕ → Call P C T B
  registers : C → Call P C T B
  sends : P → Call P C T B
  sends_transaction : String → T → P → Call P C T B
  looks_up : String → Call P C T B
  binds : B → Call P C T B
  receives : Call P C T B
  ticks : Call P C T B
  pongs : ℕ → List ℕ → Call P C T B

module _ {P C T B : Type 0} where
  -- The connection after the call, and the close callbacks that the call hands out to be run.
  unfoldable pub step : Connection P C T B → Call P C T B → Connection P C T B × List C
  step c (closes now) = close now c
  step c (registers cb) = (on_closed cb c, [])
  step c (sends p) = ((raw_send p c).1, [])
  step c (sends_transaction tid cb p) = ((send_transaction tid cb p c).1, [])
  step c (looks_up tid) = ((transaction tid none c).1, [])
  step c (binds b) = (bind b c, [])
  step c receives = ((next_payload c).1, [])
  step c ticks = ((ping_tick c).1, [])
  step c (pongs now bytes) = ((pong now bytes c).1, [])

  unfoldable pub run : Connection P C T B → List (Call P C T B) → Connection P C T B × List C
  run c [] = (c, [])
  run c (x ∷ xs) = let rest = run (step c x).0 xs in (rest.0, (step c x).1 ++ rest.1)

  -- The callbacks that a history registers, in order.
  abbrev pub registered : List (Call P C T B) → List C
  registered [] = []
  registered (registers cb ∷ xs) = cb ∷ registered xs
  registered (_ ∷ xs) = registered xs

  abbrev pub registered_by : Call P C T B → List C
  registered_by (registers cb) = cb ∷ []
  registered_by _ = []

  registered-cons :
      (x : Call P C T B) (xs : List (Call P C T B))
      → registered (x ∷ xs) ≡ registered_by x ++ registered xs
  registered-cons (registers cb) xs = refl
  registered-cons (closes now) xs = refl
  registered-cons _ xs = refl

  step-callbacks :
      (c : Connection P C T B) (x : Call P C T B)
      → (step c x).1 ++ (step c x).0.on_closed_callbacks ≡ c.on_closed_callbacks ++ registered_by x
  unfolding step close on_closed raw_send send_transaction transaction bind next_payload ping_tick
      pong
  step-callbacks c (closes now) = ground (arith, append-nil c.on_closed_callbacks)
  step-callbacks c (registers cb) = refl
  step-callbacks c _ = ground (arith, append-nil c.on_closed_callbacks)

  -- Whatever the history, the callbacks handed out, followed by those still waiting, are those
  -- that waited at the start followed by those registered: each is handed out once, in order.
  pub run-callbacks :
      (c : Connection P C T B) (xs : List (Call P C T B))
      → (run c xs).1 ++ (run c xs).0.on_closed_callbacks ≡ c.on_closed_callbacks ++ registered xs
  unfolding run
  run-callbacks c [] = sym (append-nil c.on_closed_callbacks)
  run-callbacks c (x ∷ xs) = rw registered-cons (
      append_assoc (step c x).1 (run (step c x).0 xs).1 _
      ∙ ap (◌++◌ (step c x).1) (run-callbacks (step c x).0 xs)
      ∙ sym (append_assoc (step c x).1 _ (registered xs))
      ∙ ap (λ l. l ++ registered xs) (step-callbacks c x)
      ∙ append_assoc c.on_closed_callbacks (registered_by x) (registered xs))

  step-closed :
      (c : Connection P C T B) (x : Call P C T B)
      → c.closed ≡ true
      → ((step c x).0.closed ≡ true) × ((step c x).1 ≡ [])
  unfolding step close on_closed raw_send send_transaction transaction bind next_payload ping_tick
      pong
  step-closed c (closes now) h = ground arith
  step-closed c _ h = ground arith

  -- A closed connection stays closed, and no later call hands out a callback: one that is
  -- registered after the close is never run.
  pub run-closed :
      (c : Connection P C T B) (xs : List (Call P C T B))
      → c.closed ≡ true
      → ((run c xs).0.closed ≡ true) × ((run c xs).1 ≡ [])
  unfolding run
  run-closed c [] h = (h, refl)
  run-closed c (x ∷ xs) h =
      let s = step-closed c x h in let r = run-closed (step c x).0 xs s.0 in (r.0, rw (s.1, r.1))

  -- A transaction id that was sent, not empty, is answered by its callback once; the next message
  -- with that id gets the fallback.
  pub transaction-send_transaction :
      (tid : String) (cb : T) (p : P) (other : Option T) (c : Connection P C T B)
      → tid ≢ ""
      → let sent = (send_transaction tid cb p c).1 in
        ((transaction tid other sent).0 ≡ some cb)
        × ((transaction tid other (transaction tid other sent).1).0 ≡ other)
  unfolding send_transaction raw_send transaction
  transaction-send_transaction tid cb p other c h = (
    ground (arith, eq_iff tid "", string_eq_refl tid, lookup-insert tid tid cb c.transactions),
    ground (
      arith,
      eq_iff tid "",
      string_eq_refl tid,
      lookup-insert tid tid cb c.transactions,
      lookup-remove tid tid (kwmserver.Base.insert tid cb c.transactions),
    ),
  )
