-- ===== src/Rtm/Dispatch/Hidden.antt =====
-- Errors of text messages (signaling/rtm/events.go, webrtc.go and chats.go).
use kwmserver.Base.{
  ℕ, String, Bool, true, false, Option, none, some, ◌==◌, string_eq, if◌then◌else◌, Ptr, ◌≡◌, ◌≢◌,
  refl, arith, Outcome, ok, fail, panic, blocked, Error, plain, rtm, ErrorId, server_error,
  bad_message, no_session_for_user, access_restricted, create_restricted, Bool-cases, inl, inr, [],
  lookup-empty, nat_eq,
}
use kwmserver.Connection
use kwmserver.Admin.Auth.{Jwt}
use kwmserver.Rtm.World.{World, Env, Input, send}
use kwmserver.Rtm.Webrtc.{hide_unknown_session, on_webrtc}
use kwmserver.Rtm.Chats.{on_chats}
use kwmserver.Rtm.Sessions.{Server, process_ping, answer_ping, send_pong}
use kwmserver.Rtm.Dispatch.{Text, ServerCall, process_text, with_decoded, on_text}

-- Does an outcome tell that a user has no session?
abbrev pub tells : Outcome (Unit {0}) → Bool
tells (fail (rtm no_session_for_user m r)) = true
tells _ = false

hidden_tells : (r : Outcome (Unit {0}) × World) → tells (hide_unknown_session r).0 ≡ false
hidden_tells (fail (rtm no_session_for_user m k), v) = refl
hidden_tells (fail (rtm bad_message m k), v) = refl
hidden_tells (fail (rtm access_restricted m k), v) = refl
hidden_tells (fail (rtm create_restricted m k), v) = refl
hidden_tells (fail (rtm server_error m k), v) = refl
hidden_tells (fail (plain m), v) = refl
hidden_tells (ok u, v) = refl
hidden_tells (panic, v) = refl
hidden_tells (blocked, v) = refl

send_pong-tells :
    (conn : Ptr) (ping : String) (o : Outcome (Option String)) (s : Server)
    → tells (send_pong conn ping o s).0 ≡ false
unfolding send Connection.raw_send
send_pong-tells conn ping (ok token) s = ground arith
send_pong-tells conn ping (fail e) s = refl
send_pong-tells conn ping panic s = refl
send_pong-tells conn ping blocked s = refl

ping_tells :
    (j : Jwt) (now : ℕ) (conn : Ptr) (ping : String) (o : Option kwmserver.Api.AdminAuthToken)
    (s : Server)
    → tells (answer_ping j now conn ping o s).0 ≡ false
ping_tells j now conn ping none s = refl
ping_tells j now conn ping (some auth) s = send_pong-tells conn ping _ _

decoded_tells :
    {A : Type 0} (f : A → ServerCall) (o : Option A) (s : Server)
    → ((a : A) → tells (f a s).0 ≡ false)
    → tells (with_decoded f o s).0 ≡ false
decoded_tells f none s h = refl
decoded_tells f (some a) s h = h a

process_tells :
    (j : Jwt) (e : Env) (i : Input) (conn : Ptr) (msg : Text) (s : Server)
    → tells (process_text j e i conn msg s).0 ≡ false
unfolding process_text process_ping on_webrtc on_chats
process_tells j e i conn msg s = elim (Bool-cases (msg.type == "ping")) [
  | inl p ↦ rw p (decoded_tells _ msg.ping s λ ping. ping_case ping)
  | inr p ↦ elim (Bool-cases (msg.type == "webrtc")) [
    | inl q ↦ rw (p, q) (decoded_tells _ msg.webrtc s λ m. hidden_tells _)
    | inr q ↦ elim (Bool-cases (msg.type == "chats")) [
      | inl c ↦ rw (p, q, c) (decoded_tells _ msg.chats s λ m. hidden_tells _)
      | inr c ↦ rw (p, q, c) refl
    ]
  ]
]
  where
    ping_case : (ping : String) → tells (process_ping j i.now conn ping s).0 ≡ false
    ping_case ping =
        unfold process_ping in
        elim (Bool-cases ((s.rtm.conns conn).binder == kwmserver.Base.nil)) [
          | inl n ↦ rw n refl
          | inr n ↦
              rw n
                (ping_tells j i.now conn ping (s.rtm.user_records (s.rtm.conns conn).binder).auth s)
        ]

no_callback :
    (tid : String) (c : kwmserver.Rtm.World.Conn)
    → c.transactions ≡ []
    → (Connection.transaction tid none c).0 ≡ none
unfolding Connection.transaction
no_callback tid c h = ground (arith, h, lookup-empty {V = ℕ} tid)

-- Whatever text a client sends on a connection with no transaction of its own, OnText does not
-- return the error that a user has no session.
pub text_hides_sessions :
    (reply : ℕ → ServerCall) (j : Jwt) (e : Env) (i : Input) (conn : Ptr) (msg : Option Text)
    (s : Server)
    → (s.rtm.conns conn).transactions ≡ []
    → tells (on_text reply j e i conn msg s).0 ≡ false
unfolding on_text
text_hides_sessions reply j e i conn none s h = refl
text_hides_sessions reply j e i conn (some msg) s h =
    rw (no_callback msg.transaction (s.rtm.conns conn) h) (process_tells j e i conn msg _)
