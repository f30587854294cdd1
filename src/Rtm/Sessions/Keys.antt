-- ===== src/Rtm/Sessions/Keys.antt =====
-- Connect keys: what a key is good for, and how often.
use kwmserver.Base.{
  ℕ, suc, ◌+◌, String, Bool, true, false, Option, none, some, List, [], ◌==◌, nat_eq, string_eq,
  if◌then◌else◌, lookup, insert, lookup-insert, lookup-remove, Ptr, nil, ◌≡◌, ◌≢◌, refl, sym, ap,
  ◌∙◌, arith, eq_iff, string_eq_refl, Option-cases, Bool-cases, inl, inr, update,
}
use kwmserver.Api.{AdminAuthToken}
use kwmserver.Admin.Tokens.{Manager, get_token}
use kwmserver.Admin.Auth.{is_valid_admin_auth_token, record_id}
use kwmserver.Connection
use kwmserver.Rtm.World.{KeyRecord}
use kwmserver.Rtm.Sessions.{
  Server, Upgraded, upgraded, not_found, serving, handle_websocket_connect, with_key, with_auth,
  after_upgrade, serve, still_valid, bearer_valid, connect, new_user,
}

after_upgrade-keys :
    (now : ℕ) (text : ℕ → String) (user : Ptr) (auth : AdminAuthToken) (up : Upgraded) (s : Server)
    → (after_upgrade now text user auth up s).1.rtm.keys ≡ s.rtm.keys
unfolding serve
after_upgrade-keys now text user auth up s = ground arith

with_key-keys :
    (provider : Option (String → Bool)) (now : ℕ) (text : ℕ → String) (kr : Option KeyRecord)
    (up : Upgraded) (s : Server)
    → (with_key provider now text kr up s).1.rtm.keys ≡ s.rtm.keys
with_key-keys provider now text none up s = refl
with_key-keys provider now text (some kr) up s =
    elim (Option-cases (s.rtm.user_records kr.user).auth) [
      | inl e ↦ rw e (ground arith)
      | inr (auth, e) ↦ rw e (ground (arith, after_upgrade-keys now text kr.user auth up s))
    ]

-- A key is good for one request: whatever the first request with it led to, the next one with the
-- same key, at any time, is answered as not found.
pub key_used_once :
    (provider : Option (String → Bool)) (now later : ℕ) (text : ℕ → String) (key : String)
    (up again : Upgraded) (s : Server)
    → (handle_websocket_connect provider later text key again
        (handle_websocket_connect provider now text key up s).1).0
      ≡ not_found
unfolding handle_websocket_connect
key_used_once provider now later text key up again s =
    let t : Server = record s {
      rtm = record s.rtm { keys = kwmserver.Base.remove key s.rtm.keys };
    } in
    let gone : lookup key (with_key provider now text (lookup key s.rtm.keys) up t).1.rtm.keys
        ≡ none =
      ap (lookup key) (with_key-keys provider now text (lookup key s.rtm.keys) up t)
      ∙ lookup-remove key key s.rtm.keys
      ∙ ground (arith, string_eq_refl key) in
    rw gone refl

still_valid-Token :
    (provider : Option (String → Bool)) (m : Manager) (a : AdminAuthToken)
    → a.type ≡ "Token"
    → still_valid provider m a ≡ true
    → is_valid_admin_auth_token m a ≡ true
unfolding still_valid
still_valid-Token provider m a e v = ground (arith, eq_iff a.type "Token")

still_valid-Bearer :
    (provider : Option (String → Bool)) (m : Manager) (a : AdminAuthToken)
    → a.type ≡ "Bearer"
    → still_valid provider m a ≡ true
    → bearer_valid provider a.value ≡ true
unfolding still_valid
still_valid-Bearer provider m a e v =
    ground (arith, ap (λ x. x == "Token") e, eq_iff a.type "Bearer")

token-known :
    (m : Manager) (a : AdminAuthToken)
    → a.type ≡ "Token"
    → is_valid_admin_auth_token m a ≡ true
    → (t : AdminAuthToken) × (get_token (record_id a) m ≡ some (some t))
unfolding is_valid_admin_auth_token
token-known m a e v = elim (Option-cases (get_token (record_id a) m)) [
  | inl n ↦ absurd (ground (arith, n))
  | inr (none, n) ↦ absurd (ground (arith, n))
  | inr (some t, n) ↦ (t, n)
]

bearer-checked :
    (provider : Option (String → Bool)) (a : AdminAuthToken)
    → bearer_valid provider a.value ≡ true
    → (validate : String → Bool) × (provider ≡ some validate) × (validate a.value ≡ true)
bearer-checked none a v = absurd (ground arith)
bearer-checked (some validate) a v = (validate, refl, v)

-- What a served websocket was granted on. A token is in the token table, and a bearer token is one
-- that the provider validates; the auth of another type is not looked at again.
pub record IsGranted (provider : Option (String → Bool)) (key : String) (p : Ptr) (s t : Server)
    : Type 0 where
  pub kr : KeyRecord
  pub auth : AdminAuthToken
  pub known : lookup key s.rtm.keys ≡ some kr
  pub user : kr.user ≢ nil
  pub has_auth : (s.rtm.user_records kr.user).auth ≡ some auth
  pub token_known :
      auth.type ≡ "Token"
      → (t : AdminAuthToken) × (get_token (record_id auth) s.admin ≡ some (some t))
  pub bearer_checked :
      auth.type ≡ "Bearer"
      → (validate : String → Bool) × (provider ≡ some validate) × (validate auth.value ≡ true)
  pub bound : (t.rtm.conns p).binder ≡ kr.user
  pub fresh_open : (t.rtm.conns p).closed ≡ false

IsBound : Ptr → Ptr → Server → Type 0
IsBound p user t = ((t.rtm.conns p).binder ≡ user) × ((t.rtm.conns p).closed ≡ false)

after_upgrade-IsBound :
    (now : ℕ) (text : ℕ → String) (user : Ptr) (auth : AdminAuthToken) (up : Upgraded) (p : Ptr)
    (t : Server)
    → (after_upgrade now text user auth up t).0 ≡ serving p
    → IsBound p user (after_upgrade now text user auth up t).1
unfolding serve IsBound Connection.bind Connection.new
after_upgrade-IsBound now text user auth upgraded p t h = ground arith
after_upgrade-IsBound now text user auth _ p t h = absurd (ground arith)

with_auth-IsBound :
    (provider : Option (String → Bool)) (now : ℕ) (text : ℕ → String) (user : Ptr)
    (a : Option AdminAuthToken) (up : Upgraded) (p : Ptr) (t : Server)
    → (with_auth provider now text user a up t).0 ≡ serving p
    → (auth : AdminAuthToken) × (a ≡ some auth)
      × (still_valid provider t.admin auth ≡ true)
      × IsBound p user (with_auth provider now text user a up t).1
with_auth-IsBound provider now text user none up p t h = absurd (ground arith)
with_auth-IsBound provider now text user (some auth) up p t h =
    elim (Bool-cases (still_valid provider t.admin auth)) [
      | inl v ↦
          let served : (after_upgrade now text user auth up t).0 ≡ serving p = ground arith in
          (auth, refl, v, rw v (after_upgrade-IsBound now text user auth up p t served))
      | inr v ↦ absurd (ground arith)
    ]

with_key-IsBound :
    (provider : Option (String → Bool)) (now : ℕ) (text : ℕ → String) (k : Option KeyRecord)
    (up : Upgraded) (p : Ptr) (t : Server)
    → (with_key provider now text k up t).0 ≡ serving p
    → (kr : KeyRecord) × (auth : AdminAuthToken) × (k ≡ some kr)
      × (kr.user ≢ nil)
      × ((t.rtm.user_records kr.user).auth ≡ some auth)
      × (still_valid provider t.admin auth ≡ true)
      × IsBound p kr.user (with_key provider now text k up t).1
with_key-IsBound provider now text none up p t h = absurd (ground arith)
with_key-IsBound provider now text (some kr) up p t h = elim (Bool-cases (kr.user == nil)) [
  | inl n ↦ absurd (ground arith)
  | inr n ↦
      let (auth, has, valid, bound) =
        with_auth-IsBound provider now text kr.user (t.rtm.user_records kr.user).auth up p t
          (ground arith) in
      (kr, auth, refl, ground arith, has, valid, rw n bound)
]

-- A websocket is served only for a key that is in the table and has a user with an auth. A token of
-- the admin API is then in the token table, and a bearer token is one that the provider, which there
-- is, validates at that time. The new connection is open and bound to that user.
pub serving-IsGranted :
    (provider : Option (String → Bool)) (now : ℕ) (text : ℕ → String) (key : String) (up : Upgraded)
    (p : Ptr) (s : Server)
    → (handle_websocket_connect provider now text key up s).0 ≡ serving p
    → IsGranted provider key p s (handle_websocket_connect provider now text key up s).1
unfolding handle_websocket_connect IsBound
serving-IsGranted provider now text key up p s h =
    let t : Server = record s {
      rtm = record s.rtm { keys = kwmserver.Base.remove key s.rtm.keys };
    } in
    let (kr, auth, known, user, has, valid, bound) =
      with_key-IsBound provider now text (lookup key s.rtm.keys) up p t h in
    record {
      kr = kr;
      auth = auth;
      known = known;
      user = user;
      has_auth = has;
      token_known =
          λ e. token-known s.admin auth e (still_valid-Token provider s.admin auth e valid);
      bearer_checked =
          λ e. bearer-checked provider auth (still_valid-Bearer provider s.admin auth e valid);
      bound = bound.0;
      fresh_open = bound.1;
    }

-- A key that Connect handed out for a user with a valid auth opens a websocket, if the upgrade
-- works: the new connection is bound to a record of that user which has no connections yet.
pub connect_opens :
    (provider : Option (String → Bool)) (now later : ℕ) (text : ℕ → String) (key user_id : String)
    (auth : AdminAuthToken) (s : Server)
    → user_id ≢ ""
    → s.rtm.fresh ≢ nil
    → still_valid provider s.admin auth ≡ true
    → let issued : Server = record s { rtm = connect now key user_id (some auth) s.rtm } in
      let r = handle_websocket_connect provider later text key upgraded issued in
      (r.0 ≡ serving (suc s.rtm.fresh))
      × ((r.1.rtm.conns (suc s.rtm.fresh)).binder ≡ s.rtm.fresh)
      × (r.1.rtm.user_records s.rtm.fresh ≡ new_user user_id (some auth))
unfolding handle_websocket_connect connect serve Connection.bind
connect_opens provider now later text key user_id auth s filled real valid = ground (
  arith,
  eq_iff user_id "",
  string_eq_refl key,
  lookup-insert key key (record { since = now; user = s.rtm.fresh }) s.rtm.keys,
)
