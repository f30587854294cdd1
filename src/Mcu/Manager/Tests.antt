-- ===== src/Mcu/Manager/Tests.antt =====
-- The media server's connections at concrete inputs.
use kwmserver.Base.{nil, true, none, some, [], ◌∷◌, ◌≡◌, refl, string_ne, lookup}
use kwmserver.Mcu.Manager.{Manager, handle_websocket_connect, not_found}
use kwmserver.Mcu.Manager.Rounds.{chosen, chosen_in_turn, attached_once}

abbrev example_manager : Manager
example_manager = record {
  count = 3;
  handles = 1;
  connections = 4 ∷ 5 ∷ 6 ∷ [];
  current = none;
  attached =
      ("t1", record { since = 90; connection = nil; on_connect = true; on_text = true }) ∷ [];
}

chosen_in_turn_example : chosen 3 example_manager ≡ some 4 ∷ some 5 ∷ some 6 ∷ []
chosen_in_turn_example = chosen_in_turn example_manager refl refl

attached_once_example :
    (handle_websocket_connect 8 true "t1"
      (handle_websocket_connect 7 true "t1" example_manager).1).0
    ≡ not_found
attached_once_example =
    attached_once 7 8 true true "t1" example_manager (string_ne "t1" "" refl)
      (unfold handle_websocket_connect lookup in refl)
