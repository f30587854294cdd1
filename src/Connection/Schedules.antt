-- ===== src/Connection/Schedules.antt =====
-- Runs of the write pump at concrete inputs.
use kwmserver.Base.{ℕ, true, false, List, [], ◌∷◌, ◌++◌, ◌≡◌, refl}
use kwmserver.Connection.Defs.{Connection, next_payload, ping_tick, raw_send}
use kwmserver.Connection.Pump.{
  Choice, receives, ticks, queues, closes, stopped, take_turn, write_pump,
}
use kwmserver.Connection.Writing.{dropped, queued, receive_all, write_pump-queued, close_drains}

-- Two payloads wait, a third is queued while the pump runs, the second write fails.
abbrev busy_connection : Connection ℕ ℕ ℕ ℕ
busy_connection = record {
  id = "c1";
  closed = false;
  send = 5 ∷ 6 ∷ [];
  start = 100;
  duration = 0;
  ping = [];
  pings = 1;
  read_deadline = 160;
  binder = 0;
  on_closed_callbacks = 8 ∷ [];
  transactions = [];
}

abbrev schedule : List (Choice ℕ)
schedule = queues 7 ∷ receives true ∷ ticks true ∷ receives false ∷ receives true ∷ []

schedule_test :
    ((write_pump schedule busy_connection).written ≡ 5 ∷ [])
    × ((write_pump schedule busy_connection).connection.send ≡ 7 ∷ [])
unfolding write_pump take_turn next_payload ping_tick raw_send
schedule_test = (refl, refl)

write_pump-queued_example :
    (write_pump schedule busy_connection).written
      ++ (dropped (write_pump schedule busy_connection).pump
          ++ (write_pump schedule busy_connection).connection.send)
    ≡ 5 ∷ 6 ∷ queued schedule busy_connection
write_pump-queued_example = write_pump-queued schedule busy_connection

close_drains_example :
    ((write_pump (closes 130 ∷ receive_all (5 ∷ 6 ∷ [])) busy_connection).pump ≡ stopped)
    × ((write_pump (closes 130 ∷ receive_all (5 ∷ 6 ∷ [])) busy_connection).written ≡ 5 ∷ 6 ∷ [])
close_drains_example = close_drains 130 busy_connection
