-- ===== src/Rtm/Http/Journey.antt =====
-- signaling/rtm/http.go and handlers.go: from a connect request to its websocket.
use kwmserver.Base.{ℕ, String, Option, string_eq, nat_eq, ok, Ptr, [], ◌≡◌, inl, inr}
use kwmserver.Admin.Auth.{Jwt, http_json}
use kwmserver.Rtm.Sessions.{Server}
use kwmserver.Rtm.Http.{Settings, Request}
use kwmserver.Rtm.Http.Serve.{ConnectResponse, connect_handler, Answer, websocket}
use kwmserver.Rtm.Http.Opening.{IsKeyed, connect-IsKeyed}

-- A request that was answered with a connect response has its key in the table.
pub response-IsKeyed :
    (j : Jwt) (now : ℕ) (s : Settings) (route : String → Option String) (key : String)
    (req : Request) (srv : Server) (t : ConnectResponse)
    → (connect_handler j now s route key req srv).0 ≡ ok (http_json t)
    → IsKeyed j now s route key req srv (connect_handler j now s route key req srv)
response-IsKeyed j now s route key req srv t h = elim (connect-IsKeyed j now s route key req srv) [
  | inl (same, never) ↦ absurd (never t h)
  | inr k ↦ k
]

-- Where a client gets from a connect response: a websocket of its user.
pub record IsConnected (user : String) (conn record_of : Ptr) (r : Answer × Server) : Type 0 where
  pub served : r.0 ≡ websocket conn
  pub bound : (r.1.rtm.conns conn).binder ≡ record_of
  pub user_id : (r.1.rtm.user_records record_of).id ≡ user
  pub alone : (r.1.rtm.user_records record_of).connections ≡ []
