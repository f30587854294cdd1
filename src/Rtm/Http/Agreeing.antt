-- ===== src/Rtm/Http/Agreeing.antt =====
-- signaling/rtm/http.go: the two handlers that hand out TURN credentials side by side.
use kwmserver.Base.{ℕ, String, Option, none, some, Outcome, ok, fail, panic, blocked, ◌≡◌, refl}
use kwmserver.Admin.Tokens.{Manager}
use kwmserver.Admin.Auth.{Jwt, Reply, http_json}
use kwmserver.Turn.{ClientConfig}
use kwmserver.Rtm.Sessions.{Server}
use kwmserver.Rtm.Http.{Settings, Request, Granted, is_request_with_valid_auth}
use kwmserver.Rtm.Http.Serve.{
  Access, refused, admitted, check_user, ConnectResponse, key_issued, connect_admitted,
  connect_checked, connect_handler, turn_response, turn_admitted, turn_checked, turn_handler,
  some_config, connect_response,
}

-- The credentials in a reply of either handler, if there are any.
abbrev pub credentials : Outcome (Reply ClientConfig) → Option ClientConfig
credentials (ok (http_json c)) = some c
credentials _ = none

abbrev pub connect_credentials : Outcome (Reply ConnectResponse) → Option ClientConfig
connect_credentials (ok (http_json r)) = r.turn
connect_credentials _ = none

-- Two runs with the same credentials and the same token table.
abbrev pub Agrees :
    Outcome (Reply ClientConfig) × Manager → Outcome (Reply ConnectResponse) × Server → Type 0
Agrees t c = (credentials t.0 ≡ connect_credentials c.0) × (t.1 ≡ c.1.admin)

module _ (now : ℕ) (s : Settings) (route : String → Option String) (key url : String)
    (get : String → Outcome ClientConfig) (has_turn : s.turn ≡ some get)
    (routed : route key ≡ some url) where
  responses_agree :
      (g : Granted) (srv : Server) (o : Outcome ClientConfig)
      → credentials (turn_response o)
        ≡ connect_credentials (connect_response g url srv.rtm.server_status (some_config o))
  responses_agree g srv (ok c) = refl
  responses_agree g srv (fail e) = refl
  responses_agree g srv panic = refl
  responses_agree g srv blocked = refl

  admitted_agree :
      (a : Access) (srv : Server)
      → Agrees (turn_admitted now get a srv.admin) (connect_admitted now s route key a srv)
  unfolding key_issued
  admitted_agree (refused code text) srv = (refl, refl)
  admitted_agree (admitted g) srv =
      (rw (has_turn, routed) (responses_agree g srv (get g.user)), refl)

  checked_agree :
      (srv : Server) (c : Outcome (Option Granted) × Manager)
      → Agrees (turn_checked now s get c) (connect_checked now s route key srv c)
  checked_agree srv (ok none, m) = (refl, refl)
  checked_agree srv (ok (some g), m) =
      admitted_agree (check_user s.insecure "" (some g)) (record srv { admin = m })
  checked_agree srv (fail e, m) = (refl, refl)
  checked_agree srv (panic, m) = (refl, refl)
  checked_agree srv (blocked, m) = (refl, refl)

  -- On a server with a TURN server, whose route gives the new key a URL, the TURN handler gives
  -- the credentials that the connect handler gives for the same request, none if that gives none,
  -- and leaves the token table as that does.
  pub turn-connect :
      (j : Jwt) (req : Request) (srv : Server)
      → Agrees (turn_handler j now s req srv.admin) (connect_handler j now s route key req srv)
  unfolding turn_handler connect_handler
  turn-connect j req srv =
      simp has_turn (checked_agree srv (is_request_with_valid_auth j now s req srv.admin))
