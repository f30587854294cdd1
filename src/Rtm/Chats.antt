-- ===== src/Rtm/Chats.antt =====
-- signaling/rtm/chats.go: chat messages to the members of a channel, and the system messages on
-- who joined and who left. The mutex for the order of the chats of a channel is held within one
-- step of the model.
pub mod Members
mod Tests
use Prim.Native.Char.{Char, code}
use Prim.Native.String
use kwmserver.Base.{
  ℕ, zero, suc, ◌+◌, String, ◌+++◌, Bool, true, false, not, ◌&&◌, ◌||◌, Option, none, some, List,
  [], ◌∷◌, ◌==◌, nat_eq, string_eq, if◌then◌else◌, lookup, ltb, leb, Ptr, nil, keep, map, is_some,
  is_none, Outcome, ok, fail, panic, blocked, ◌>>=◌, ◌>>◌, pure, throw, panics, gets, modify,
  refuse_if, plain, trim_space, rtm, no_session_for_user, ignore_error,
}
use kwmserver.Api.{
  AdminAuthToken, token_name, Profile, ChatsMessage, Json, chats_message, Chats, chats, ChatsReply,
  chats_reply, Payload,
}
use kwmserver.Rtm.World.{
  World, Call, UserRecord, ChannelOp, op_add, op_remove, op_reset, Env, Input, Decoded, invalid,
  null, value, decode_payload, send, send_all, bad,
}
use kwmserver.Rtm.Group.{connections_of}
use kwmserver.Rtm.Channel.{get}

-- currentChatsPayloadVersion and the limits of the texts
abbrev pub current_chats_payload_version : ℕ
current_chats_payload_version = 20201201

abbrev pub maximal_text_size : ℕ
maximal_text_size = 16384

abbrev pub maximal_rich_text_size : ℕ
maximal_rich_text_size = 18022

-- len of a Go string: its bytes in UTF-8
abbrev pub char_bytes : ℕ → ℕ
char_bytes c = if ltb c 128 then 1 else if ltb c 2048 then 2 else if ltb c 65536 then 3 else 4

unfoldable pub byte_length : String → ℕ
byte_length String.[] = 0
byte_length (String.◌∷◌ c s) = char_bytes (code c) + byte_length s

-- The message of a client, with trimmed texts.
unfoldable pub check_text : ℕ → ChatsMessage → Call ChatsMessage
unfolding trim_space
check_text id extra = do
  refuse_if (not (extra.sender == "")) (bad "message sender must be empty" id)
  refuse_if (not (extra.target == "")) (bad "message target must be empty" id)
  refuse_if (not (extra.kind == "")) (bad "unknown message kind" id)
  refuse_if (ltb maximal_text_size (byte_length extra.text))
      (bad "message text size limit exceeded" id)
  refuse_if (ltb maximal_rich_text_size (byte_length extra.rich_text))
      (bad "message rich text size limit exceeded" id)
  refuse_if (trim_space extra.text == "") (bad "message text is empty" id)
  refuse_if (is_some extra.extra) (bad "message contains unexpected extra data" id)
  pure (record extra { text = trim_space extra.text; rich_text = trim_space extra.rich_text })

abbrev pub decoded_chats : ℕ → Decoded ChatsMessage → Call ChatsMessage
decoded_chats id invalid = throw (bad "message data parse error" id)
decoded_chats id null = panics
decoded_chats id (value extra) = pure extra

abbrev pub sender_profile : Option AdminAuthToken → Profile
sender_profile none = record { name = "" }
sender_profile (some auth) = record { name = token_name auth }

abbrev pub chats_payload : String → String → Option Profile → ChatsMessage → Payload
chats_payload subtype channel profile extra = chats (record {
  id = 0;
  type = "chats";
  subtype = subtype;
  channel = channel;
  profile = profile;
  group = "";
  version = current_chats_payload_version;
  payload = some (chats_message extra);
})

abbrev pub chats_answer : ℕ → String → ChatsMessage → Payload
chats_answer reply_to channel extra = chats_reply (record {
  type = "chats";
  subtype = "chats_message";
  reply_to = reply_to;
  channel = channel;
  group = "";
  version = current_chats_payload_version;
  payload = some (chats_message extra);
})

-- The message that tells the sender that its message is queued.
abbrev pub queued : String → ChatsMessage
queued id = record {
  kind = "delivery_queued";
  sender = "";
  target = "";
  ts = 0;
  text = "";
  rich_text = "";
  id = id;
  extra = none;
}

-- The connections of a channel, but the given one.
abbrev pub others_than : Ptr → List (String × Ptr) → List Ptr
others_than conn members = keep (λ p. not (p == conn)) (map (λ m. m.1) members)

-- To all members of the channel but `conn`, in one piece.
unfoldable pub to_others : Ptr → Ptr → Payload → Call (Unit {0})
to_others p conn msg = do
  members ← connections_of p
  modify (send_all (others_than conn members) msg)

-- From the checked text on: the reply, the message to the others, and the delivery report.
unfoldable pub deliver_chat : Input → Ptr → ℕ → Ptr → Ptr → ChatsMessage → Call (Unit {0})
unfolding to_others
deliver_chat i conn ref ur p extra = do
  c ← gets (λ w. w.channel_objects p)
  user ← gets (λ w. w.user_records ur)
  let message : ChatsMessage = record extra { ts = i.now; id = i.random; sender = user.id }
  send conn (chats_answer ref c.id message)
  to_others p conn (chats_payload "chats_message" c.id (some (sender_profile user.auth)) message)
  ignore_error (send conn (chats_payload "chats_system" c.id none (queued i.random)))

-- The checks before the channel is looked up.
unfoldable pub chat_guards : Chats → Ptr → Call (Unit {0})
chat_guards msg ur = do
  refuse_if (ur == nil) (bad "connection has no user" msg.id)
  refuse_if (msg.channel == "" || is_none msg.payload) (bad "channel or data is empty" msg.id)

-- The channel of a message: the pointer in the channels table.
unfoldable pub chat_channel : Chats → Call Ptr
chat_channel msg w = elim (lookup msg.channel w.channels) [
  | none ↦ (fail (bad "channel not found" msg.id), w)
  | some r ↦ (ok r.channel, w)
]

-- Only a connection that is in the channel may send to it.
unfoldable pub check_member : Ptr → Chats → Ptr → Ptr → Call (Unit {0})
check_member conn msg ur p = do
  user ← gets (λ w. (w.user_records ur).id)
  cc ← get p user
  refuse_if (not (cc.0 == conn)) (bad "connection not in channel" msg.id)

-- processChatsMessage. minimalChatsPayloadVersion is 0, and validateRestrictedChatsMessage
-- restricts nothing.
unfoldable pub process_chats : Env → Input → Ptr → Chats → Call (Unit {0})
process_chats e i conn msg = do
  refuse_if (ltb msg.version 0) (bad "outdated Chats payload version" msg.id)
  ur ← gets (λ w. (w.conns conn).binder)
  refuse_if (not (msg.subtype == "chats_message")) (bad "unknown subtype" msg.id)
  chat_guards msg ur
  p ← chat_channel msg
  check_member conn msg ur p
  extra ← decoded_chats msg.id (decode_payload e.decode_chats msg.payload)
  text ← check_text msg.id extra
  deliver_chat i conn msg.id ur p text

-- onChats
unfoldable pub on_chats : Env → Input → Ptr → Chats → Call (Unit {0})
on_chats e i conn msg w = kwmserver.Rtm.Webrtc.hide_unknown_session (process_chats e i conn msg w)

abbrev pub display_name : Option AdminAuthToken → String
display_name none = "Unknown user"
display_name (some auth) = token_name auth

abbrev pub event_text : ChannelOp → String → String
event_text op_add name = name +++ " has joined the meeting."
event_text op_remove name = name +++ " has left the meeting."
event_text op_reset name = ""

abbrev pub event_id : ChannelOp → Option String
event_id op_add = some "joined"
event_id op_remove = some "left"
event_id op_reset = none

abbrev pub event_message : Input → ChannelOp → String → Option AdminAuthToken → ChatsMessage
event_message i op id auth = record {
  kind = "system";
  sender = id;
  target = "";
  ts = i.now;
  text = event_text op (display_name auth);
  rich_text = "";
  id = i.random;
  extra = event_id op;
}

-- emitChannelChatsAddOrRemove; the user record of the connection is read through nil if there is
-- none.
unfoldable pub emit_chats : Input → Ptr → Ptr → ChannelOp → String → Call (Unit {0})
unfolding to_others
emit_chats i conn p op id = do
  ur ← gets (λ w. (w.conns conn).binder)
  if ur == nil then panics else pure tt
  user ← gets (λ w. w.user_records ur)
  c ← gets (λ w. w.channel_objects p)
  to_others p conn (
      chats_payload "chats_system" c.id (some (sender_profile user.auth))
        (event_message i op id user.auth))
