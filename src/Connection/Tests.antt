-- ===== src/Connection/Tests.antt =====
-- Runs of the connection's operations, and its laws at concrete inputs.
use kwmserver.Base.{
  ℕ, true, false, none, some, List, [], ◌∷◌, ◌++◌, length, ◌≡◌, refl, arith, ok, panic, string_ne,
}
use kwmserver.Connection.Defs.{
  Connection, close, on_closed, next_payload, raw_send, send_transaction, transaction, ping_tick,
  pong, put_uint64,
}
use kwmserver.Connection.Laws.{
  Call, closes, registers, sends, sends_transaction, receives, run, step, run-callbacks, run-closed,
  transaction-send_transaction,
}
use kwmserver.Connection.Ping.{pong-ping_tick, pong_short_panics, ticks_hang_up}
use kwmserver.Connection.Ping

abbrev example_connection : Connection ℕ ℕ ℕ ℕ
example_connection = record {
  id = "c1";
  closed = false;
  send = 5 ∷ [];
  start = 100;
  duration = 0;
  ping = 1 ∷ [];
  pings = 1;
  read_deadline = 160;
  binder = 0;
  on_closed_callbacks = 8 ∷ [];
  transactions = ("t1", 4) ∷ [];
}

abbrev closed_connection : Connection ℕ ℕ ℕ ℕ
closed_connection = record example_connection { closed = true; on_closed_callbacks = [] }

abbrev idle_connection : Connection ℕ ℕ ℕ ℕ
idle_connection = record example_connection { ping = [] }

abbrev history : List (Call ℕ ℕ ℕ ℕ)
history =
    registers 9
    ∷ sends 6
    ∷ sends_transaction "t2" 3 7
    ∷ closes 130
    ∷ registers 10
    ∷ sends 7
    ∷ receives
    ∷ []

-- The callbacks 8 and 9 are run by the close, and 10 never is.
history_test : (run example_connection history).1 ≡ 8 ∷ 9 ∷ []
unfolding run step close on_closed raw_send send_transaction next_payload
history_test = refl

run-callbacks_example :
    (run example_connection history).1 ++ (run example_connection history).0.on_closed_callbacks
    ≡ 8 ∷ 9 ∷ 10 ∷ []
run-callbacks_example = run-callbacks example_connection history

run-closed_example :
    ((run closed_connection history).0.closed ≡ true) × ((run closed_connection history).1 ≡ [])
run-closed_example = run-closed closed_connection history refl

transaction-send_transaction_example :
    let sent = (send_transaction "t2" 3 7 example_connection).1 in
    ((transaction "t2" none sent).0 ≡ some 3)
    × ((transaction "t2" none (transaction "t2" none sent).1).0 ≡ none)
transaction-send_transaction_example =
    transaction-send_transaction "t2" 3 7 none example_connection (string_ne "t2" "" refl)

pong-ping_tick_example :
    let d = (ping_tick example_connection).1 in
    pong 150 (put_uint64 8 d.pings) d ≡ (ok tt, record d { ping = []; read_deadline = 210 })
pong-ping_tick_example = pong-ping_tick 150 example_connection (unfold ping_tick in refl)

pong_short_panics_example : (pong 150 (1 ∷ []) example_connection).0 ≡ panic
pong_short_panics_example =
    pong_short_panics 150 (1 ∷ []) example_connection (λ e. ground arith) (omega arith)
      λ e. ground arith

ticks_hang_up_example :
    (length (Ping.ticks 5 idle_connection).ping ≡ 5)
    × ((ping_tick (Ping.ticks 5 idle_connection)).0 ≡ false)
ticks_hang_up_example = ticks_hang_up idle_connection refl
