-- ===== src/Rtm/Dispatch.antt =====
-- OnText and processTextMessage of signaling/rtm/events.go, and what readPump of
-- signaling/connection/connection.go does with the error. Decoding is done before: a part that does
-- not decode is `none`.
pub mod Hidden
mod Tests
use kwmserver.Base.{
  ℕ, String, Option, none, some, ◌==◌, string_eq, if◌then◌else◌, Ptr, update, Outcome, ok, fail,
  panic, blocked, Error, plain,
}
use kwmserver.Api.{WebRtc, Chats}
use kwmserver.Connection
use kwmserver.Admin.Auth.{Jwt}
use kwmserver.Rtm.World.{World, Call, Env, Input}
use kwmserver.Rtm.Webrtc.{on_webrtc}
use kwmserver.Rtm.Chats.{on_chats}
use kwmserver.Rtm.Sessions.{Server, process_ping, on_error}

-- A text message: transaction id and type, and the message that it is decoded to by its type.
pub record Text : Type 0 where
  pub transaction : String
  pub type : String
  pub ping : Option String
  pub webrtc : Option WebRtc
  pub chats : Option Chats

abbrev pub ServerCall : Type 0
ServerCall = Server → Outcome (Unit {0}) × Server

abbrev pub on_rtm : Call (Unit {0}) → ServerCall
on_rtm f s = let r = f s.rtm in (r.0, record s { rtm = r.1 })

abbrev pub with_decoded : {A : Type 0} → (A → ServerCall) → Option A → ServerCall
with_decoded f none s = (fail (plain "json"), s)
with_decoded f (some a) s = f a s

-- processTextMessage
unfoldable pub process_text : Jwt → Env → Input → Ptr → Text → ServerCall
process_text j e i conn msg =
    if msg.type == "ping"
    then with_decoded (λ ping. process_ping j i.now conn ping) msg.ping
    else if msg.type == "webrtc"
    then with_decoded (λ m. on_rtm (on_webrtc e i conn m)) msg.webrtc
    else if msg.type == "chats"
    then with_decoded (λ m. on_rtm (on_chats e i conn m)) msg.chats
    else λ s. (fail (plain "unknown incoming type"), s)

abbrev pub after_transaction : (ℕ → ServerCall) → ServerCall → Option ℕ → ServerCall
after_transaction reply otherwise none = otherwise
after_transaction reply otherwise (some cb) = reply cb

abbrev pub set_connection : Ptr → kwmserver.Rtm.World.Conn → Server → Server
set_connection conn c s = record s { rtm = record s.rtm { conns = update s.rtm.conns conn c } }

-- OnText. `reply` runs a transaction callback.
unfoldable pub on_text : (ℕ → ServerCall) → Jwt → Env → Input → Ptr → Option Text → ServerCall
on_text reply j e i conn none s = (fail (plain "json"), s)
on_text reply j e i conn (some msg) s =
    let r = Connection.transaction msg.transaction none (s.rtm.conns conn) in
    after_transaction reply (process_text j e i conn msg) r.0 (set_connection conn r.1 s)

abbrev pub report : Ptr → Outcome (Unit {0}) × Server → Outcome (Unit {0}) × Server
report conn (ok u, s) = (ok u, s)
report conn (fail e, s) = on_rtm (on_error conn e) s
report conn (panic, s) = (panic, s)
report conn (blocked, s) = (blocked, s)

-- A text message in the loop of readPump: what is left of an error ends the loop.
unfoldable pub read_text : (ℕ → ServerCall) → Jwt → Env → Input → Ptr → Option Text → ServerCall
read_text reply j e i conn msg s = report conn (on_text reply j e i conn msg s)
