-- ===== src/Rtm/Sessions/Tests.antt =====
-- Sessions at concrete inputs.
use kwmserver.Base.{
  Bool, ◌==◌, ℕ, String, ◌≡◌, refl, ok, panic, some, none, [], ◌∷◌, ◌++◌, arith, eq_iff, lookup,
  nat_eq, string_eq, string_ne, update, if◌then◌else◌,
}
use kwmserver.Api.{AdminAuthToken}
use kwmserver.Admin.Tokens.{new_manager}
use kwmserver.Rtm.World.{World}
use kwmserver.Rtm.Webrtc.{lookup_connections}
use kwmserver.Rtm.Sessions.{
  Server, upgraded, not_found, serving, handle_websocket_connect, connect, new_user, on_connect,
  on_disconnect, still_valid, purge_expired_keys, purge_inactive_users,
}
use kwmserver.Rtm.Sessions.Users.{
  IsDirectory, members_of, connects_and_leaves, stranger_leaves_panics,
}
use kwmserver.Rtm.Sessions.Keys.{key_used_once, IsGranted, serving-IsGranted, connect_opens}
use kwmserver.Rtm.Sessions.Purge.{unexpired_key, offline_at, purge_keys-lookup, purge_users-lookup}
use kwmserver.Rtm.Example.{example_world, example_auth, example_connection, example_user}

-- alice comes in with a second connection, 15, whose key had the fresh record 3.
abbrev second_world : World
second_world = record example_world {
  conns = update example_world.conns 15 (example_connection 3 []);
  user_records =
      update example_world.user_records 3 (example_user "alice" (some (example_auth none)) []);
  keys = ("k1", record { since = 970; user = 3 }) ∷ ("k2", record { since = 960; user = 1 }) ∷ [];
}

second-IsDirectory : IsDirectory second_world
unfolding lookup
second-IsDirectory = record {
  named = λ id u e. ground (arith, eq_iff "alice" id, eq_iff "bob" id);
  real = λ id u e. ground arith;
}

connects_and_leaves_example :
    let inside = (on_connect 1000 15 second_world).1 in
    (members_of inside "alice" ≡ members_of second_world "alice" ++ 15 ∷ [])
    × ((on_disconnect 1010 15 inside).0 ≡ ok tt)
    × (members_of (on_disconnect 1010 15 inside).1 "alice" ≡ members_of second_world "alice")
connects_and_leaves_example =
    connects_and_leaves 1000 1010 15 second_world second-IsDirectory (λ e. ground arith) refl
      (unfold lookup in λ e. ground arith) (unfold lookup_connections lookup in refl)

stranger_leaves_panics_example : on_disconnect 1000 15 second_world ≡ (panic, second_world)
stranger_leaves_panics_example =
    stranger_leaves_panics 1000 15 1 second_world (λ e. ground arith) (unfold lookup in refl) refl

-- A Basic auth is not checked again.
abbrev basic_auth : AdminAuthToken
basic_auth = record (example_auth none) { type = "Basic" }

abbrev example_server : Server
example_server = record { admin = new_manager; rtm = second_world }

abbrev basic_server : Server
basic_server = record {
  admin = new_manager;
  rtm = connect 1000 "k3" "dora" (some basic_auth) example_world;
}

abbrev digits : ℕ → String
digits n = "4"

key_used_once_example :
    (handle_websocket_connect none 1002 digits "k1" upgraded
      (handle_websocket_connect none 1001 digits "k1" upgraded example_server).1).0
    ≡ not_found
key_used_once_example = key_used_once none 1001 1002 digits "k1" upgraded upgraded example_server

connect_opens_example :
    ((handle_websocket_connect none 1001 digits "k3" upgraded basic_server).0 ≡ serving 31)
    × (((handle_websocket_connect none 1001 digits "k3" upgraded basic_server).1.rtm.conns
          31).binder
        ≡ 30)
    × ((handle_websocket_connect none 1001 digits "k3" upgraded basic_server).1.rtm.user_records 30
        ≡ new_user "dora" (some basic_auth))
connect_opens_example =
    connect_opens none 1000 1001 digits "k3" "dora" basic_auth
      (record { admin = new_manager; rtm = example_world }) (string_ne "dora" "" refl)
      (λ e. ground arith) (unfold still_valid in refl)

-- A bearer token that the provider validates.
abbrev bearer_auth : AdminAuthToken
bearer_auth = record basic_auth { type = "Bearer"; value = "good" }

abbrev bearer_server : Server
bearer_server = record {
  admin = new_manager;
  rtm = connect 1000 "k3" "dora" (some bearer_auth) example_world;
}

abbrev validate_good : String → Bool
validate_good s = s == "good"

bearer_opens :
    (handle_websocket_connect (some validate_good) 1001 digits "k3" upgraded bearer_server).0
    ≡ serving 31
bearer_opens =
    (connect_opens (some validate_good) 1000 1001 digits "k3" "dora" bearer_auth
      (record { admin = new_manager; rtm = example_world }) (string_ne "dora" "" refl)
      (λ e. ground arith) (unfold still_valid in refl)).0

serving-IsGranted_example :
    IsGranted
      (some validate_good)
      "k3"
      31
      bearer_server
      (handle_websocket_connect (some validate_good) 1001 digits "k3" upgraded bearer_server).1
serving-IsGranted_example =
    serving-IsGranted (some validate_good) 1001 digits "k3" upgraded 31 bearer_server bearer_opens

purge_keys-lookup_example :
    lookup "k2" (purge_expired_keys 1000 second_world).keys
    ≡ unexpired_key 1000 (lookup "k2" second_world.keys)
purge_keys-lookup_example =
    purge_keys-lookup 1000 "k2" second_world (unfold lookup in (refl, (refl, tt)))

purge_users-lookup_example : lookup "bob" (purge_inactive_users 1000 second_world).users ≡ (
    if offline_at 1000 second_world (lookup "bob" second_world.users)
    then none
    else lookup "bob" second_world.users)
purge_users-lookup_example =
    purge_users-lookup 1000 "bob" second_world (unfold lookup in (refl, (refl, tt)))
      second-IsDirectory
