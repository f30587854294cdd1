-- ===== src/Turn/Expiry.antt =====
-- Who may use the credentials of turn/sharedecret.go, and until when; and what turn/serverauth.go
-- lets through.
use kwmserver.Base.{
  ℕ, ◌+◌, ◌%◌, ◌^◌, ◌≤◌, ◌<◌, String, ◌+++◌, Bool, false, ◌&&◌, Option, none, some, List, length,
  leb, ◌==◌, nat_eq, string_eq, if◌then◌else◌, Outcome, ok, Option-cases, Bool-cases, inl, inr, ◌∙◌,
  ◌≡◌, ◌≢◌, refl, ap, arith, eq_iff, string_eq_refl,
}
use kwmserver.Turn.{
  ClientConfig, new_sharedsecret_server, Crypto, get_config, generate_username,
  generate_turn_password, Web, ServerAuthServer, ServerResponse, ServiceReply, get_service_config,
  client_config, replied, service_request,
}

-- The check that a TURN server makes of credentials by draft-uberti-behave-turn-rest: the time in
-- front of the colon has not passed, and the password is the MAC of the name under the secret.
abbrev pub not_passed : ℕ → Option ℕ → Bool
not_passed now none = false
not_passed now (some t) = leb now t

unfoldable pub turn_accepts : Crypto → (String → Option ℕ) → List ℕ → ℕ → String → String → Bool
turn_accepts c read secret now username password =
    not_passed now (read username) && (c.encode64 (c.hmac secret username) == password)

abbrev pub accepts_config : Crypto → (String → Option ℕ) → List ℕ → ℕ → Outcome ClientConfig → Bool
accepts_config c read secret now (ok r) = turn_accepts c read secret now r.username r.password
accepts_config c read secret now _ = false

-- If the time can be read back from a user name, and the times fit into 63 bits, a TURN server with
-- the same secret accepts the credentials exactly until the end of the time to live, which is an hour if none is configured.
pub get_config-accepted :
    (c : Crypto) (read : String → Option ℕ)
    → ((n : ℕ) (u : String) → read (c.decimal n +++ (":" +++ u)) ≡ some n)
    → (uris : List String) (secret : List ℕ) (ttl now later : ℕ) (user : String)
    → now + 3600 + ttl < 2 ^ 63
    → accepts_config c read secret later
        (get_config c now (new_sharedsecret_server uris secret ttl) user)
      ≡ leb later (now + (if ttl == 0 then 3600 else ttl))
unfolding get_config generate_username generate_turn_password turn_accepts new_sharedsecret_server
get_config-accepted c read back uris secret ttl now later user small =
    let t = (now + (if ttl == 0 then 3600 else ttl)) % 2 ^ 64 in
    let name = c.decimal t +++ (":" +++ user) in
    ground (arith, back t user, string_eq_refl (c.encode64 (c.hmac secret name)))

-- What the program may hand on of a service's answer.
pub record IsUsable (web : Web) (s : ServerAuthServer) (user : String) (r : ClientConfig)
    : Type 0 where
  pub sent : ServerResponse
  pub answer :
      web.send (service_request web s user) ≡ some (record { status = 200; body = some sent })
  pub named : r.username ≢ ""
  pub same_name : r.username ≡ sent.username
  pub same_password : r.password ≡ sent.password
  pub same_uris : r.uris ≡ sent.uris
  pub has_uris : 0 < length r.uris
  pub long_enough : 60 ≤ r.ttl
  pub positive : r.ttl < 2 ^ 63

config_of : Outcome ClientConfig → Option ClientConfig
config_of (ok r) = some r
config_of _ = none

-- A configuration that is made of an answer is usable.
client_config-IsUsable :
    (web : Web) (s : ServerAuthServer) (user : String) (sent : ServerResponse) (r : ClientConfig)
    → web.send (service_request web s user) ≡ some (record { status = 200; body = some sent })
    → client_config sent ≡ ok r
    → IsUsable web s user r
unfolding client_config config_of
client_config-IsUsable web s user sent r answer e =
    ground (arith, ap config_of e, eq_iff sent.username "")

replied-IsUsable :
    (web : Web) (s : ServerAuthServer) (user : String) (a : Option ServiceReply) (r : ClientConfig)
    → web.send (service_request web s user) ≡ a
    → replied a ≡ ok r
    → IsUsable web s user r
unfolding config_of
replied-IsUsable web s user none r sent e = absurd (ground (arith, ap config_of e))
replied-IsUsable web s user (some a) r sent e = elim (Bool-cases (a.status == 200)) [
  | inr n ↦ absurd (ground (arith, ap config_of e))
  | inl y ↦ elim (Option-cases a.body) [
    | inl b ↦ absurd (ground (arith, b, ap config_of e))
    | inr (body, b) ↦
        client_config-IsUsable web s user body r (sent ∙ ground (arith, b))
          (ground (arith, b, ap config_of e))
  ]
]

-- A configuration that comes from the TURN service is the one of an answer with status 200 to the
-- request for that user, with its name, which is not empty, its password and its URIs, of which
-- there is at least one, and with a time to live of a minute or more.
pub get_service_config-IsUsable :
    (web : Web) (s : ServerAuthServer) (user : String) (r : ClientConfig)
    → get_service_config web s user ≡ ok r
    → IsUsable web s user r
unfolding get_service_config config_of
get_service_config-IsUsable web s user r e = elim (Bool-cases (web.valid_url s.url)) [
  | inl y ↦ replied-IsUsable web s user _ r refl (ground (arith, y, e))
  | inr n ↦ absurd (ground (arith, n, ap config_of e))
]
