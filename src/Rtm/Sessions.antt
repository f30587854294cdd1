-- ===== src/Rtm/Sessions.antt =====
-- signaling/rtm/manager.go, events.go and handlers.go: connect keys, the users with their
-- connections, what happens when a connection comes and goes, and the periodic purges. The token
-- table of signaling/admin is part of the state; OpenID Connect and the websocket upgrade are
-- parameters.
pub mod Users
pub mod Keys
pub mod Purge
mod Tests
use kwmserver.Base.{
  ℕ, zero, suc, ◌+◌, ◌-◌, String, Bool, true, false, not, ◌&&◌, Option, none, some, List, [], ◌∷◌,
  ◌++◌, ◌==◌, nat_eq, string_eq, if◌then◌else◌, Dict, lookup, insert, remove, keep, length, ltb,
  Ptr, nil, update, count_ptr, map, Outcome, ok, fail, panic, blocked, ◌>>=◌, ◌>>◌, pure, throw,
  panics, gets, modify, Error, rtm, plain, Action, ignore_error,
}
use kwmserver.Api.{
  AdminAuthToken, token_name, Hello, hello, error, pong, Self, ServerStatus, Payload,
}
use kwmserver.Connection
use kwmserver.Admin.Tokens.{Manager}
use kwmserver.Admin.Auth.{
  Jwt, is_valid_admin_auth_token, refresh_admin_auth_token, sign_admin_auth_token,
}
use kwmserver.Rtm.World.{World, Call, Conn, UserRecord, KeyRecord, ChannelRecord, send, send_all}
use kwmserver.Rtm.Group.{lock}
use kwmserver.Rtm.Channel.{can_be_cleaned_up, cleanup}

-- connectExpiration, channelExpiration
abbrev pub connect_expiration : ℕ
connect_expiration = 30

abbrev pub channel_expiration : ℕ
channel_expiration = 60

abbrev pub new_user : String → Option AdminAuthToken → UserRecord
new_user id auth = record { id = id; auth = auth; since = 0; exit = 0; connections = [] }

-- Connect: the random key is given, and is the result.
unfoldable pub connect : ℕ → String → String → Option AdminAuthToken → World → World
connect now key user_id auth w =
    if user_id == ""
    then record w { keys = insert key (record { since = now; user = nil }) w.keys }
    else record w {
      keys = insert key (record { since = now; user = w.fresh }) w.keys;
      user_records = update w.user_records w.fresh (new_user user_id auth);
      fresh = suc w.fresh;
    }

abbrev pub self_of : UserRecord → AdminAuthToken → Self
self_of u auth = record { id = u.id; name = token_name auth; auth = auth.auth }

abbrev pub hello_message : World → Option Self → Payload
hello_message w self =
    hello (record { type = "hello"; self = self; server_status = some w.server_status })

-- The end of OnConnect: a user record without auth is read through nil.
unfoldable pub greet : Ptr → Ptr → Option AdminAuthToken → Call (Unit {0})
greet conn ur none w = (panic, w)
greet conn ur (some auth) w =
    send conn (hello_message w (some (self_of (w.user_records ur) auth))) w

abbrev pub add_connection : Ptr → Ptr → World → World
add_connection conn ur w = record w {
  user_records =
      update w.user_records ur
        (record (w.user_records ur) { connections = (w.user_records ur).connections ++ conn ∷ [] });
}

-- The first connection of a user: its record becomes the user's.
unfoldable pub first_connection : ℕ → Ptr → Ptr → World → World
first_connection now conn nur w = record w {
  user_records = update w.user_records nur (record (w.user_records nur) {
    connections = (w.user_records nur).connections ++ conn ∷ [];
    since = now;
  });
  users = insert (w.user_records nur).id nur w.users;
}

-- A further connection joins the record that the user has, and is bound to it.
unfoldable pub further_connection : Ptr → Ptr → World → World
further_connection conn ur w = record (add_connection conn ur w) {
  conns = update w.conns conn (Connection.bind ur (w.conns conn));
}

-- OnConnect for a connection that is bound to a user. Locking a record twice blocks.
unfoldable pub enter : ℕ → Ptr → Ptr → Option Ptr → Call (Unit {0})
enter now conn nur none w =
    greet conn nur (w.user_records nur).auth (first_connection now conn nur w)
enter now conn nur (some ur) w =
    if ur == nur
    then (blocked, w)
    else greet conn ur (w.user_records ur).auth (further_connection conn ur w)

-- OnConnect
unfoldable pub on_connect : ℕ → Ptr → Call (Unit {0})
on_connect now conn w =
    let nur = (w.conns conn).binder in
    if nur == nil
    then send conn (hello_message w none) w
    else enter now conn nur (lookup (w.user_records nur).id w.users) w

abbrev pub nils : ℕ → List Ptr
nils zero = []
nils (suc n) = nil ∷ nils n

abbrev pub without : Ptr → List Ptr → List Ptr
without conn = keep λ p. not (p == conn)

-- The new slice is one shorter; the other connections are copied into it. Without the connection
-- in the old slice they do not fit, and more than one of it leaves nil pointers at the end.
unfoldable pub drop_connection : Ptr → List Ptr → Option (List Ptr)
drop_connection conn conns = elim (count_ptr conn conns) [
  | zero ↦ none
  | suc n ↦ some (without conn conns ++ nils n)
]

abbrev pub exit_at : ℕ → List Ptr → ℕ → ℕ
exit_at now [] old = now
exit_at now (c ∷ cs) old = old

abbrev pub leave_record : ℕ → Ptr → Option (List Ptr) → Call (Unit {0})
leave_record now ur none w = (panic, w)
leave_record now ur (some conns) w = (
  ok tt,
  record w {
    user_records = update w.user_records ur (record (w.user_records ur) {
      connections = conns;
      exit = exit_at now conns (w.user_records ur).exit;
    });
  },
)

unfoldable pub leave : ℕ → Ptr → Ptr → Option Ptr → Call (Unit {0})
leave now conn bound none w = (
  ok tt,
  record w {
    user_records = update w.user_records w.fresh (new_user (w.conns conn).id none);
    users = insert (w.user_records bound).id w.fresh w.users;
    fresh = suc w.fresh;
  },
)
leave now conn bound (some ur) w =
    leave_record now ur (drop_connection conn (w.user_records ur).connections) w

-- OnDisconnect
unfoldable pub on_disconnect : ℕ → Ptr → Call (Unit {0})
on_disconnect now conn w =
    let bound = (w.conns conn).binder in
    if bound == nil
    then (ok tt, w)
    else leave now conn bound (lookup (w.user_records bound).id w.users) w

-- OnBeforeDisconnect
unfoldable pub on_before_disconnect : Ptr → Option Error → Call (Unit {0})
on_before_disconnect conn none =
    send conn (hello (record { type = "goodbye"; self = none; server_status = none }))
on_before_disconnect conn (some e) = pure tt

-- OnError: what is returned closes the connection.
unfoldable pub on_error : Ptr → Error → Call (Unit {0})
on_error conn (rtm code msg ref) = ignore_error (send conn (error (rtm code msg ref)))
on_error conn (plain msg) = throw (plain msg)

-- OnServerStatus, with ServerStatus.Equal. RawSend to every connection of the table.
unfoldable pub on_server_status : ServerStatus → World → World
on_server_status status w =
    if w.server_status.kustomer == status.kustomer
    then w
    else send_all (map (λ c. c.1) w.connections)
        (hello (record { type = "server"; self = none; server_status = some status }))
        (record w { server_status = status })

-- The keys that purgeExpiredKeys removes.
unfoldable pub expired_keys : ℕ → Dict KeyRecord → List String
expired_keys now [] = []
expired_keys now ((key, r) ∷ m) =
    let rest = expired_keys now m in
    if ltb (r.since + connect_expiration) now then key ∷ rest else rest

abbrev pub remove_all {ℓ} : {V : Type ℓ} → List String → Dict V → Dict V
remove_all [] m = m
remove_all (k ∷ ks) m = remove_all ks (remove k m)

-- purgeExpiredKeys
unfoldable pub purge_expired_keys : ℕ → World → World
purge_expired_keys now w = record w { keys = remove_all (expired_keys now w.keys) w.keys }

abbrev pub no_connections : UserRecord → Bool
no_connections u = length u.connections == 0

-- The ids of the records that purgeInactiveUsers removes, with no connection made meanwhile.
unfoldable pub inactive_ids : ℕ → World → Dict Ptr → List String
inactive_ids now w [] = []
inactive_ids now w ((key, p) ∷ m) =
    let rest = inactive_ids now w m in
    if no_connections (w.user_records p) && ltb ((w.user_records p).exit + channel_expiration) now
    then (w.user_records p).id ∷ rest
    else rest

-- purgeInactiveUsers
unfoldable pub purge_inactive_users : ℕ → World → World
purge_inactive_users now w = record w { users = remove_all (inactive_ids now w w.users) w.users }

-- The first loop of purgeEmptyChannels; CanBeCleanedUp takes the lock.
unfoldable pub empty_channels : ℕ → Dict ChannelRecord → Call (Dict ChannelRecord)
empty_channels now [] = pure []
empty_channels now ((key, r) ∷ m) = do
  c ← lock r.channel
  rest ← empty_channels now m
  pure (
      if can_be_cleaned_up c && ltb (r.since + channel_expiration) now
      then (key, r) ∷ rest
      else rest)

abbrev pub remove_channel_if : Bool → String → World → World
remove_channel_if false key w = w
remove_channel_if true key w = record w { channels = remove key w.channels }

-- Its second loop
unfoldable pub cleanup_all : Dict ChannelRecord → Call (Unit {0})
cleanup_all [] = pure tt
cleanup_all ((key, r) ∷ m) = do
  done ← cleanup r.channel
  modify (remove_channel_if done key)
  cleanup_all m

-- purgeEmptyChannels
unfoldable pub purge_empty_channels : ℕ → Call (Unit {0})
purge_empty_channels now = do
  table ← gets (λ w. w.channels)
  empty ← empty_channels now table
  cleanup_all empty

-- The manager with the token table that it shares with the admin API.
pub record Server : Type 0 where
  pub admin : Manager
  pub rtm : World

-- What HandleWebsocketConnect answers. A websocket is served in a goroutine of its own.
pub data Connected : Type 0 where
  not_found forbidden handshake_failed upgrade_failed : Connected
  serving : Ptr → Connected

-- The websocket upgrade: it works, or fails with a HandshakeError or another error.
pub data Upgraded : Type 0 where
  upgraded handshake_error upgrade_error : Upgraded

abbrev pub bearer_valid : Option (String → Bool) → String → Bool
bearer_valid none value = false
bearer_valid (some validate) value = validate value

-- Is the cached auth still valid? `provider` is the validation of the OpenID provider, if it is
-- enabled. Any other type of auth is not checked again.
unfoldable pub still_valid : Option (String → Bool) → Manager → AdminAuthToken → Bool
still_valid provider admin auth =
    if auth.type == "Token"
    then is_valid_admin_auth_token admin auth
    else if auth.type == "Bearer"
    then bearer_valid provider auth.value
    else true

-- The new connection, bound to the user of the key, in the table of the connections. `text` is the
-- decimal text of the count.
unfoldable pub serve : ℕ → (ℕ → String) → Ptr → World → World
serve now text user w = record w {
  conns =
      update w.conns w.fresh (Connection.bind user (Connection.new (text (w.count + 1)) now nil));
  connections = insert (text (w.count + 1)) w.fresh w.connections;
  count = w.count + 1;
  fresh = suc w.fresh;
}

abbrev pub after_upgrade :
    ℕ → (ℕ → String) → Ptr → AdminAuthToken → Upgraded → Server → Connected × Server
after_upgrade now text user auth handshake_error s = (handshake_failed, s)
after_upgrade now text user auth upgrade_error s = (upgrade_failed, s)
after_upgrade now text user auth upgraded s = (
  serving s.rtm.fresh,
  record { admin = (refresh_admin_auth_token now s.admin auth).1; rtm = serve now text user s.rtm },
)

abbrev pub with_auth :
    Option (String → Bool)
    → ℕ
    → (ℕ → String)
    → Ptr
    → Option AdminAuthToken
    → Upgraded
    → Server
    → Connected × Server
with_auth provider now text user none up s = (forbidden, s)
with_auth provider now text user (some auth) up s =
    if still_valid provider s.admin auth
    then after_upgrade now text user auth up s
    else (forbidden, s)

abbrev pub with_key :
    Option (String → Bool)
    → ℕ
    → (ℕ → String)
    → Option KeyRecord
    → Upgraded
    → Server
    → Connected × Server
with_key provider now text none up s = (not_found, s)
with_key provider now text (some kr) up s =
    if kr.user == nil
    then (forbidden, s)
    else with_auth provider now text kr.user (s.rtm.user_records kr.user).auth up s

-- HandleWebsocketConnect: the key is taken out of the table, whatever comes next.
unfoldable pub handle_websocket_connect :
    Option (String → Bool) → ℕ → (ℕ → String) → String → Upgraded → Server → Connected × Server
handle_websocket_connect provider now text key up s =
    with_key provider now text (lookup key s.rtm.keys) up
      (record s { rtm = record s.rtm { keys = remove key s.rtm.keys } })

abbrev pub soon : ℕ → AdminAuthToken → Bool
soon now auth = ltb auth.expires_at (now + 900)

abbrev pub send_pong : Ptr → String → Outcome (Option String) → Server → Outcome (Unit {0}) × Server
send_pong conn ping (ok token) s =
    let r = send conn (pong ping token) s.rtm in (r.0, record s { rtm = r.1 })
send_pong conn ping (fail e) s = (fail (plain "failed to create new signed token on ping reply"), s)
send_pong conn ping panic s = (panic, s)
send_pong conn ping blocked s = (blocked, s)

abbrev pub as_some : Outcome String → Outcome (Option String)
as_some (ok s) = ok (some s)
as_some (fail e) = fail e
as_some panic = panic
as_some blocked = blocked

abbrev pub answer_ping :
    Jwt → ℕ → Ptr → String → Option AdminAuthToken → Server → Outcome (Unit {0}) × Server
answer_ping j now conn ping none s = (ok tt, s)
answer_ping j now conn ping (some auth) s =
    let (refreshed, admin) = refresh_admin_auth_token now s.admin auth in
    send_pong conn ping
      (if refreshed && soon now auth
        then as_some (sign_admin_auth_token j now admin auth)
        else ok none)
      (record s { admin = admin })

-- processTextMessage, the case ping
unfoldable pub process_ping : Jwt → ℕ → Ptr → String → Server → Outcome (Unit {0}) × Server
process_ping j now conn ping s =
    let ur = (s.rtm.conns conn).binder in
    if ur == nil then (ok tt, s) else answer_ping j now conn ping (s.rtm.user_records ur).auth s
