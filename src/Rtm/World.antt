-- ===== src/Rtm/World.antt =====
-- The state of the RTM manager (signaling/rtm/manager.go, channel.go) with the objects that its
-- tables share: connections, user records, channels and MCU pipelines, each behind pointers.
-- Goroutines that a handler starts with `go` wait in `tasks` until they run.
use kwmserver.Base.{
  ℕ, String, Bool, false, Option, none, some, List, [], ◌∷◌, ◌++◌, Dict, lookup, Heap, Ptr, update,
  Action, rtm, Error, ErrorId, bad_message, server_error, no_session_for_user, access_restricted,
  create_restricted,
}
use kwmserver.Api.{AdminAuthToken, Payload, ServerStatus, Accept, ChatsMessage, Json}
use kwmserver.Connection
use kwmserver.Connection.{Connection}
use kwmserver.Mcu.State.{Pipeline}

-- The functions registered with Connection.OnClosed: Channel.Add's, and Pipeline.onConnect's.
pub data ClosedFunc : Type 0 where
  channel_remove : Ptr → String → Ptr → ClosedFunc
  pipeline_closed : Ptr → ClosedFunc

-- The binder of an RTM connection is its user record. No code of the server registers a
-- transaction, so the type of transaction callbacks is a plain number.
abbrev pub Conn : Type 0
Conn = Connection Payload ClosedFunc ℕ Ptr

-- userRecord; `since` is its `when`.
pub record UserRecord : Type 0 where
  pub id : String
  pub auth : Option AdminAuthToken
  pub since : ℕ
  pub exit : ℕ
  pub connections : List Ptr

-- ChannelOp
pub data ChannelOp : Type 0 where
  op_add op_remove op_reset : ChannelOp

-- The handlers that the source stores in a ChannelConfig: a nil handler is `none`.
pub data Replace : Type 0 where
  on_group_replace : Replace

pub data AfterAddOrRemove : Type 0 where
  on_after_group_add_or_remove : AfterAddOrRemove

pub data AfterReset : Type 0 where
  on_after_group_channel_reset : AfterReset

pub record ChannelConfig : Type 0 where
  pub group : String
  pub replace : Option Replace
  pub after_add_or_remove : Option AfterAddOrRemove
  pub after_reset : Option AfterReset

-- ChannelDefaultConfig
abbrev pub channel_default_config : ChannelConfig
channel_default_config = record {
  group = "";
  replace = none;
  after_add_or_remove = none;
  after_reset = none;
}

-- Channel. `locked` says that its mutex was left locked by a call that has returned. A nil
-- pipeline or config is `none`.
pub record Channel : Type 0 where
  pub locked : Bool
  pub closed : Bool
  pub id : String
  pub config : Option ChannelConfig
  pub connections : Dict Ptr
  pub pipeline : Option Ptr

-- keyRecord; `user` is nil for a key without user.
pub record KeyRecord : Type 0 where
  pub since : ℕ
  pub user : Ptr

-- channelRecord
pub record ChannelRecord : Type 0 where
  pub since : ℕ
  pub channel : Ptr

-- The calls that the source starts in goroutines.
pub data Task : Type 0 where
  emit_chats_add_or_remove : Ptr → Ptr → ChannelOp → String → Task
  after_add_or_remove : Ptr → ChannelOp → String → Task
  after_reset : Ptr → Task
  pipeline_connect : Ptr → Ptr → Task
  pipeline_close : Ptr → Task
  pipeline_reconnect : Ptr → Task

-- The Manager and the objects behind the pointers. `fresh` is the next pointer. `mcum` says that
-- an MCU manager is set; `mcu_handles` is its handle counter.
pub record World : Type 0 where
  pub conns : Heap Conn
  pub user_records : Heap UserRecord
  pub channel_objects : Heap Channel
  pub pipelines : Heap Pipeline
  pub fresh : Ptr
  pub keys : Dict KeyRecord
  pub users : Dict Ptr
  pub channels : Dict ChannelRecord
  pub connections : Dict Ptr
  pub count : ℕ
  pub server_status : ServerStatus
  pub mcum : Bool
  pub mcu_handles : ℕ
  pub tasks : List Task

abbrev pub Call : Type 0 → Type 0
Call A = Action World A

-- What the program does not implement: the HMAC-SHA256 under the key of the process, the JSON
-- decoder, and the pattern of forced pipelines. `null` is the decoder's result on the text "null",
-- which leaves a nil pointer and no error.
pub data Decoded (A : Type 0) : Type 0 where
  invalid null : Decoded A
  value : A → Decoded A

pub record Env : Type 0 where
  pub hmac : String → List ℕ
  pub encode64 : List ℕ → String
  pub decode64 : String → Option (List ℕ)
  pub decode_accept : Json → Decoded Accept
  pub decode_chats : Json → Decoded ChatsMessage
  pub pipeline_forced : Option (String → Bool)

-- What one event is given: the clock in seconds, and a text from the random generator.
pub record Input : Type 0 where
  pub now : ℕ
  pub random : String

-- connection.Send and RawSend through a pointer
unfoldable pub send : Ptr → Payload → Call (Unit {0})
send p msg w =
    let r = Connection.raw_send msg (w.conns p) in (r.0, record w { conns = update w.conns p r.1 })

-- Sends one payload to each connection; an error is logged and the loop goes on.
unfoldable pub send_all : List Ptr → Payload → World → World
send_all [] msg w = w
send_all (p ∷ ps) msg w = send_all ps msg (send p msg w).1

abbrev pub spawn : Task → World → World
spawn t w = record w { tasks = w.tasks ++ t ∷ [] }

abbrev pub set_channel : Ptr → Channel → World → World
set_channel p c w = record w { channel_objects = update w.channel_objects p c }

-- c.connections[id] of a channel
abbrev pub in_channel : World → Ptr → String → Option Ptr
in_channel w p id = lookup id (w.channel_objects p).connections

abbrev pub bad : String → ℕ → Error
bad msg id = rtm bad_message msg id

-- The value of a key of a map[string]bool, false if it is missing.
abbrev pub flag : Option Bool → Bool
flag none = false
flag (some b) = b

-- The text of the RTMErrorID constants, which RTMTypeError.Error returns
abbrev pub code_text : ErrorId → String
code_text server_error = "server_error"
code_text bad_message = "bad_message"
code_text no_session_for_user = "no_session_for_user"
code_text access_restricted = "access_restricted"
code_text create_restricted = "create_restricted"

-- Decodes the data of a message; the callers have refused a message without data.
abbrev pub decode_payload : {A : Type 0} → (Json → Decoded A) → Option Json → Decoded A
decode_payload f none = invalid
decode_payload f (some j) = f j
