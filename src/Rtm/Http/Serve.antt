-- ===== src/Rtm/Http/Serve.antt =====
-- signaling/rtm/http.go: the handlers of rtm.connect, rtm.turn and the websocket. The route that a
-- key gets, the TURN server and the websocket upgrade are parameters.
use kwmserver.Base.{
  ℕ, String, Bool, true, false, not, ◌&&◌, Option, none, some, ◌==◌, string_eq, if◌then◌else◌,
  Outcome, ok, fail, panic, blocked, Ptr,
}
use kwmserver.Api.{Self, token_name, ServerStatus}
use kwmserver.Admin.Tokens.{Manager}
use kwmserver.Admin.Auth.{Jwt, refresh_admin_auth_token, Reply, http_error, http_json}
use kwmserver.Turn.{ClientConfig}
use kwmserver.Rtm.Sessions.{
  Server, Connected, Upgraded, connect, not_found, forbidden, handshake_failed, upgrade_failed,
  serving, handle_websocket_connect,
}
use kwmserver.Rtm.Http.{
  Settings, Request, Granted, Provider, TokenError, no_error, is_request_with_valid_auth,
}

-- What the checks of a handler lead to: a refusal with status and text, or a grant.
pub data Access : Type 0 where
  refused : ℕ → String → Access
  admitted : Granted → Access

abbrev pub check_user : Bool → String → Option Granted → Access
check_user insecure text none = refused 403 text
check_user insecure text (some g) =
    if g.user == ""
    then refused 400 "missing user parameter"
    else if not insecure && not (g.user == g.auth.subject)
    then refused 403 "user does not match auth"
    else admitted g

-- RTMConnectResponse
pub record ConnectResponse : Type 0 where
  pub url : String
  pub self : Self
  pub turn : Option ClientConfig
  pub server_status : ServerStatus

abbrev pub some_config : Outcome ClientConfig → Outcome (Option ClientConfig)
some_config (ok c) = ok (some c)
some_config (fail e) = fail e
some_config panic = panic
some_config blocked = blocked

abbrev pub turn_config :
    Option (String → Outcome ClientConfig) → String → Outcome (Option ClientConfig)
turn_config none user = ok none
turn_config (some get) user = some_config (get user)

abbrev pub connect_response :
    Granted
    → String
    → ServerStatus
    → Outcome (Option ClientConfig)
    → Outcome (Reply ConnectResponse)
connect_response g url status (ok turn) = ok (
    http_json (record {
      url = url;
      self = record { id = g.user; name = token_name g.auth; auth = g.auth.auth };
      turn = turn;
      server_status = status;
    }))
connect_response g url status (fail e) = ok (http_error 503 "TURN config failed")
connect_response g url status panic = panic
connect_response g url status blocked = blocked

-- The end of the connect handler, with the URL of the key, if the route gives one.
abbrev pub connect_reply :
    Settings → Granted → ServerStatus → Option String → Outcome (Reply ConnectResponse)
connect_reply s g status none = ok (http_error 500 "request failed")
connect_reply s g status (some url) = connect_response g url status (turn_config s.turn g.user)

-- The manager after RefreshAdminAuthToken and Connect.
unfoldable pub key_issued : ℕ → String → Granted → Server → Server
key_issued now key g srv = record {
  admin = (refresh_admin_auth_token now srv.admin g.auth).1;
  rtm = connect now key g.user (some g.auth) srv.rtm;
}

abbrev pub connect_admitted :
    ℕ
    → Settings
    → (String → Option String)
    → String
    → Access
    → Server
    → Outcome (Reply ConnectResponse) × Server
connect_admitted now s route key (refused code text) srv = (ok (http_error code text), srv)
connect_admitted now s route key (admitted g) srv =
    (connect_reply s g srv.rtm.server_status (route key), key_issued now key g srv)

abbrev pub connect_checked :
    ℕ
    → Settings
    → (String → Option String)
    → String
    → Server
    → Outcome (Option Granted) × Manager
    → Outcome (Reply ConnectResponse) × Server
connect_checked now s route key srv (ok g, m) =
    connect_admitted now s route key (check_user s.insecure "auth failed" g)
      (record srv { admin = m })
connect_checked now s route key srv (fail e, m) = (fail e, record srv { admin = m })
connect_checked now s route key srv (panic, m) = (panic, record srv { admin = m })
connect_checked now s route key srv (blocked, m) = (blocked, record srv { admin = m })

-- The handler of MakeHTTPConnectHandler; `key` is a random text.
unfoldable pub connect_handler :
    Jwt
    → ℕ
    → Settings
    → (String → Option String)
    → String
    → Request
    → Server
    → Outcome (Reply ConnectResponse) × Server
connect_handler j now s route key req srv =
    connect_checked now s route key srv (is_request_with_valid_auth j now s req srv.admin)

abbrev pub turn_response : Outcome ClientConfig → Outcome (Reply ClientConfig)
turn_response (ok c) = ok (http_json c)
turn_response (fail e) = ok (http_error 500 "TURN config failed")
turn_response panic = panic
turn_response blocked = blocked

abbrev pub turn_admitted :
    ℕ → (String → Outcome ClientConfig) → Access → Manager → Outcome (Reply ClientConfig) × Manager
turn_admitted now get (refused code text) m = (ok (http_error code text), m)
turn_admitted now get (admitted g) m =
    (turn_response (get g.user), (refresh_admin_auth_token now m g.auth).1)

abbrev pub turn_checked :
    ℕ
    → Settings
    → (String → Outcome ClientConfig)
    → Outcome (Option Granted) × Manager
    → Outcome (Reply ClientConfig) × Manager
turn_checked now s get (ok g, m) = turn_admitted now get (check_user s.insecure "" g) m
turn_checked now s get (fail e, m) = (fail e, m)
turn_checked now s get (panic, m) = (panic, m)
turn_checked now s get (blocked, m) = (blocked, m)

abbrev pub turn_served :
    Jwt
    → ℕ
    → Settings
    → Request
    → Option (String → Outcome ClientConfig)
    → Manager
    → Outcome (Reply ClientConfig) × Manager
turn_served j now s req none m = (ok (http_error 404 "404 page not found"), m)
turn_served j now s req (some get) m =
    turn_checked now s get (is_request_with_valid_auth j now s req m)

-- The handler of MakeHTTPTURNHandler; without a TURN server it is http.NotFound.
unfoldable pub turn_handler :
    Jwt → ℕ → Settings → Request → Manager → Outcome (Reply ClientConfig) × Manager
turn_handler j now s req m = turn_served j now s req s.turn m

-- The check of a cached bearer token, which the websocket makes with the same provider at its time.
abbrev pub no_failure : TokenError → Bool
no_failure no_error = true
no_failure _ = false

abbrev pub revalidate : ℕ → Option Provider → Option (String → Bool)
revalidate now none = none
revalidate now (some provider) = some (λ value. no_failure (provider now value).error)

-- What a client of the websocket gets: a status, or a websocket; the upgrader answers a failed
-- handshake itself.
pub data Answer : Type 0 where
  answered : ℕ → Answer
  answered_by_upgrader : Answer
  websocket : Ptr → Answer

abbrev pub answer_of : Connected → Answer
answer_of not_found = answered 404
answer_of forbidden = answered 403
answer_of handshake_failed = answered_by_upgrader
answer_of upgrade_failed = answered 500
answer_of (serving p) = websocket p

abbrev pub answer_with : Connected × Server → Answer × Server
answer_with (c, srv) = (answer_of c, srv)

abbrev pub websocket_with :
    Option (String → Bool) → ℕ → (ℕ → String) → Option String → Upgraded → Server → Answer × Server
websocket_with provider now text none up srv = (answered 404, srv)
websocket_with provider now text (some key) up srv =
    answer_with (handle_websocket_connect provider now text key up srv)

-- HTTPWebsocketHandler, with the method and the key of the route
unfoldable pub http_websocket_handler :
    Option Provider
    → ℕ
    → (ℕ → String)
    → String
    → Option String
    → Upgraded
    → Server
    → Answer × Server
http_websocket_handler provider now text method key up srv =
    if not (method == "GET")
    then (answered 405, srv)
    else websocket_with (revalidate now provider) now text key up srv
