-- ===== src/Rtm/Lifetime.antt =====
-- The life of a connection: readPump of signaling/connection/connection.go with the handlers of the
-- rtm manager, and serveWebsocketConnection of signaling/rtm/handlers.go from ServeWS on. What the
-- websocket delivers is a list of events, decoded, and then its end. What other goroutines do in
-- between is an event too.
pub mod Calls
pub mod Handlers
pub mod Messages
pub mod Events
pub mod Loop
pub mod Ends
mod Tests
use kwmserver.Base.{
  ℕ, ◌+◌, String, Option, none, some, List, [], ◌∷◌, Ptr, update, remove, Outcome, ok, fail, panic,
  blocked, Error, Action, ◌>>=◌, ◌>>◌, pure, throw, modify, ignore_error,
}
use kwmserver.Connection
use kwmserver.Admin.Auth.{Jwt}
use kwmserver.Rtm.World.{World, Call, Conn, Env, Input}
use kwmserver.Rtm.Close.{close_connection}
use kwmserver.Rtm.Sessions.{Server, on_connect, on_disconnect}
use kwmserver.Rtm.Dispatch.{Text, ServerCall, on_rtm, read_text}

-- A text message, one whose reader fails, a message of another kind, a pong with its payload, for
-- which NextReader calls the handler, and what other goroutines do.
pub data Frame : Type 0 where
  text : Input → Option Text → Frame
  broken : Error → Frame
  other_kind : Frame
  pong : ℕ → List ℕ → Frame
  meanwhile : (Server → Server) → Frame

-- websocketPongWait
abbrev pub pong_wait : ℕ
pong_wait = 60

-- SetReadDeadline at the start of readPump
abbrev pub set_deadline : ℕ → Ptr → World → World
set_deadline now conn w = record w {
  conns = update w.conns conn (record (w.conns conn) { read_deadline = now + pong_wait });
}

-- The pong handler on the connection
abbrev pub on_pong : ℕ → List ℕ → Ptr → Call (Unit {0})
on_pong now payload conn w =
    let r = Connection.pong now payload (w.conns conn) in
    (r.0, record w { conns = update w.conns conn r.1 })

abbrev pub elsewhere : (Server → Server) → ServerCall
elsewhere f s = (ok tt, f s)

abbrev pub read_frame : (ℕ → ServerCall) → Jwt → Env → Ptr → Frame → ServerCall
read_frame reply j e conn (text i msg) = read_text reply j e i conn msg
read_frame reply j e conn (broken err) = throw err
read_frame reply j e conn other_kind = pure tt
read_frame reply j e conn (pong now payload) = on_rtm (on_pong now payload conn)
read_frame reply j e conn (meanwhile f) = elsewhere f

-- The error of NextReader that ends the loop; an expected close, `none`, is no error of the pump.
abbrev pub lost_end : Option Error → ServerCall
lost_end none = pure tt
lost_end (some err) = throw err

-- The loop of readPump. An error of a message ends it early.
unfoldable pub read_loop :
    (ℕ → ServerCall) → Jwt → Env → Ptr → List Frame → Option Error → ServerCall
read_loop reply j e conn [] lost = lost_end lost
read_loop reply j e conn (f ∷ fs) lost =
    read_frame reply j e conn f >> read_loop reply j e conn fs lost

-- The deferred function: Close, and OnDisconnect, whose results are dropped.
abbrev pub deferred : ℕ → Ptr → Call (Unit {0})
deferred now conn =
    ignore_error (close_connection now conn) >> ignore_error (on_disconnect now conn)

-- What a function returned, after its deferred function ran.
abbrev pub keep_result :
    Outcome (Unit {0}) → Outcome (Unit {0}) × Server → Outcome (Unit {0}) × Server
keep_result r (ok u, s) = (r, s)
keep_result r (fail e, s) = (r, s)
keep_result r (panic, s) = (panic, s)
keep_result r (blocked, s) = (blocked, s)

-- A panic runs the deferred function too, and then ends the process; nothing is left to look at.
abbrev pub with_deferred :
    Call (Unit {0}) → Outcome (Unit {0}) × Server → Outcome (Unit {0}) × Server
with_deferred d (ok u, s) = keep_result (ok u) (on_rtm d s)
with_deferred d (fail e, s) = keep_result (fail e) (on_rtm d s)
with_deferred d (panic, s) = (panic, s)
with_deferred d (blocked, s) = (blocked, s)

-- readPump from its start to the end of its loop
unfoldable pub read_all :
    (ℕ → ServerCall) → Jwt → Env → ℕ → Ptr → List Frame → Option Error → ServerCall
read_all reply j e start conn frames lost =
    on_rtm (modify (set_deadline start conn))
    >> on_rtm (ignore_error (on_connect start conn))
    >> read_loop reply j e conn frames lost

-- readPump, which starts and ends at the given times
unfoldable pub read_pump :
    (ℕ → ServerCall) → Jwt → Env → ℕ → ℕ → Ptr → List Frame → Option Error → ServerCall
read_pump reply j e start end_ conn frames lost s =
    with_deferred (deferred end_ conn) (read_all reply j e start conn frames lost s)

abbrev pub forget_connection : String → World → World
forget_connection id w = record w { connections = remove id w.connections }

-- serveWebsocketConnection from ServeWS on, which only logs the error of the pump
unfoldable pub serve_websocket_connection :
    (ℕ → ServerCall) → Jwt → Env → ℕ → ℕ → Ptr → String → List Frame → Option Error → ServerCall
serve_websocket_connection reply j e start end_ conn id frames lost =
    ignore_error (read_pump reply j e start end_ conn frames lost)
    >> on_rtm (modify (forget_connection id))
