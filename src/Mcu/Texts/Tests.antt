-- ===== src/Mcu/Texts/Tests.antt =====
-- Text messages of the media server at concrete inputs.
use kwmserver.Base.{ℕ, true, false, Option, some, [], ◌∷◌, ◌≡◌, refl, lookup, remove}
use kwmserver.Connection
use kwmserver.Connection.{Connection}
use kwmserver.Mcu.Manager.{AttachedRecord}
use kwmserver.Mcu.Texts.{to_record, to_callback, on_text}

-- A connection of a pipeline with one open transaction.
abbrev attached_connection : Connection ℕ ℕ ℕ (Option AttachedRecord)
attached_connection = record {
  id = "1";
  closed = false;
  send = [];
  start = 900;
  duration = 0;
  ping = [];
  pings = 0;
  read_deadline = 0;
  binder = some (record { since = 900; connection = 5; on_connect = false; on_text = true });
  on_closed_callbacks = [];
  transactions = ("t1", 4) ∷ [];
}

-- The first reply goes to the callback, the second one with the same id to the pipeline.
routes_test :
    ((on_text (some "t1") attached_connection).0 ≡ to_callback 4)
    × ((on_text (some "t1") (on_text (some "t1") attached_connection).1).0 ≡ to_record)
unfolding on_text Connection.transaction lookup remove
routes_test = (refl, refl)
