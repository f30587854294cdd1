-- ===== src/Rtm/Webrtc.antt =====
-- signaling/rtm/webrtc.go: the handling of webrtc messages. Each case of the switch over the
-- subtype in processWebRTCMessage is a function of its own, and so are the two halves of a call.
pub mod Delivery
pub mod Rules
pub mod Request
pub mod Answer
pub mod Response
pub mod Hangup
mod Tests
use kwmserver.Base.{
  ℕ, zero, suc, ◌+◌, ◌<◌, String, Bool, true, false, not, ◌&&◌, ◌||◌, Option, none, some, List, [],
  ◌∷◌, ◌++◌, ◌==◌, nat_eq, string_eq, if◌then◌else◌, ◌+++◌, Dict, lookup, insert, remove, has,
  length, ltb, Ptr, nil, update, is_some, is_none, Outcome, ok, fail, panic, blocked, Action, ◌>>=◌,
  ◌>>◌, pure, throw, panics, gets, modify, plain, rtm, Error, ErrorId, no_session_for_user,
  access_restricted, create_restricted, refuse_if, ignore_error,
}
use kwmserver.Api.{
  AdminAuthToken, token_name, Profile, WebRtc, webrtc, webrtc_reply, Accept, Json, channel_extra,
  ChannelExtra, ChannelPipeline, no_extra, Payload,
}
use kwmserver.Connection
use kwmserver.Rtm.World.{
  World, Call, UserRecord, Channel, ChannelConfig, Env, Input, Decoded, invalid, null, value, send,
  send_all, bad, on_group_replace, on_after_group_add_or_remove, on_after_group_channel_reset,
}
use kwmserver.Rtm.Hash.{compute_hash, check_webrtc_message}
use kwmserver.Rtm.Group.{
  current_webrtc_payload_version, named_group_channel_id, connections_of, member_ids,
}
use kwmserver.Rtm.Channel.{new_channel, add, get, size, remove_id, forward}

-- The subtypes that the switch names.
pub data Subtype : Type 0 where
  group_subtype call_subtype hangup_subtype signal_subtype unknown_subtype : Subtype

unfoldable pub subtype_of : String → Subtype
subtype_of s =
    if s == "webrtc_group"
    then group_subtype
    else if s == "webrtc_call"
    then call_subtype
    else if s == "webrtc_hangup"
    then hangup_subtype
    else if s == "webrtc_signal"
    then signal_subtype
    else unknown_subtype

-- The auth of a connection's user record; nil record or nil auth: `none`.
abbrev pub auth_of : World → Ptr → Option AdminAuthToken
auth_of w ur = if ur == nil then none else (w.user_records ur).auth

abbrev pub in_restriction : Option (Dict Bool) → String → Bool
in_restriction none group = true
in_restriction (some groups) group = kwmserver.Rtm.World.flag (lookup group groups)

abbrev pub passes_restriction : Option AdminAuthToken → String → Bool
passes_restriction none group = true
passes_restriction (some auth) group = in_restriction auth.group_restriction group

-- validateRestrictedWebRTCMessage
unfoldable pub validate_restricted : Option AdminAuthToken → WebRtc → Call (Option AdminAuthToken)
validate_restricted auth msg =
    if passes_restriction auth msg.group
    then pure auth
    else throw (rtm access_restricted "access denied" msg.id)

abbrev pub may_create : Option AdminAuthToken → Bool
may_create none = true
may_create (some auth) = auth.can_create_channels

-- The profile of a sender: the name of the auth, if there is one.
abbrev pub profile_of : Option AdminAuthToken → Profile
profile_of none = record { name = "" }
profile_of (some auth) = record { name = token_name auth }

abbrev pub pipeline_extra : World → Option Ptr → Option ChannelPipeline
pipeline_extra w none = none
pipeline_extra w (some p) = some (record { pipeline = (w.pipelines p).id; mode = "mcu-forward" })

-- The reply to the sender, with channel, hash and data.
abbrev pub reply_channel : ℕ → String → String → Option Json → Payload
reply_channel reply_to channel hash extra = webrtc_reply (record {
  type = "webrtc";
  subtype = "webrtc_channel";
  reply_to = reply_to;
  state = "";
  channel = channel;
  hash = hash;
  version = current_webrtc_payload_version;
  payload = extra;
})

-- The error of an Add is sent on as a bad message.
abbrev pub as_bad_message : ℕ → Outcome (Unit {0}) × World → Outcome (Unit {0}) × World
as_bad_message id (fail (plain msg), w) = (fail (bad msg id), w)
as_bad_message id (fail (rtm code msg ref), w) =
    (fail (bad (kwmserver.Rtm.World.code_text code) id), w)
as_bad_message id (ok u, w) = (ok u, w)
as_bad_message id (panic, w) = (panic, w)
as_bad_message id (blocked, w) = (blocked, w)

unfoldable pub add_user : ℕ → Ptr → String → Ptr → Call (Unit {0})
add_user id p user conn w = as_bad_message id (add p user conn w)

-- The checks at the top of the case webrtc_group.
unfoldable pub check_group : Ptr → WebRtc → Call (Unit {0})
check_group ur msg = do
  refuse_if (ur == nil) (bad "connection has no user" msg.id)
  refuse_if (msg.target == "") (bad "target is empty" msg.id)
  refuse_if (not (msg.target == msg.group)) (bad "target and group mismatch" msg.id)
  refuse_if (msg.state == "") (bad "state is empty" msg.id)
  refuse_if (not (msg.source == "")) (bad "source must be empty" msg.id)

abbrev pub group_config : String → ChannelConfig
group_config group = record {
  group = group;
  replace = some on_group_replace;
  after_add_or_remove = some on_after_group_add_or_remove;
  after_reset = some on_after_group_channel_reset;
}

-- m.channels.Upsert: the channel of the id, created if it is not there.
unfoldable pub upsert_channel : Env → ℕ → String → ChannelConfig → Call Ptr
upsert_channel e now id config w = elim (lookup id w.channels) [
  | some r ↦ (ok r.channel, w)
  | none ↦
      let (p, w') = new_channel e id (some config) w in
      (ok p, record w' { channels = insert id (record { since = now; channel = p }) w'.channels })
]

-- The case webrtc_group.
unfoldable pub process_group :
    Env → Input → Ptr → WebRtc → Ptr → Option AdminAuthToken → Call (Unit {0})
process_group e i conn msg ur auth = do
  check_group ur msg
  p ← upsert_channel e i.now (named_group_channel_id msg.group) (group_config msg.group)
  n ← if not (may_create auth) then size p else pure 1
  refuse_if (n == 0) (rtm create_restricted "access denied" msg.id)
  user ← gets (λ w. (w.user_records ur).id)
  add_user msg.id p user conn
  c ← gets (λ w. w.channel_objects p)
  members ← connections_of p
  pipe ← gets (λ w. pipeline_extra w c.pipeline)
  ignore_error (
      send conn (
        reply_channel msg.id c.id (e.encode64 (compute_hash e msg.type user msg.group c.id)) (
          some (
            channel_extra (record {
              group =
                  some (record { group = msg.group; members = member_ids members; reset = true });
              pipeline = pipe;
              replaced = false;
            })))))

-- The checks at the top of the case webrtc_call.
unfoldable pub check_call : Ptr → WebRtc → Call (Unit {0})
check_call ur msg = do
  refuse_if (ur == nil) (bad "connection has no user" msg.id)
  refuse_if (msg.target == "") (bad "target is empty" msg.id)
  user ← gets (λ w. (w.user_records ur).id)
  refuse_if (msg.target == user) (bad "target same as source" msg.id)
  refuse_if (msg.state == "") (bad "state is empty" msg.id)
  refuse_if (not (msg.source == "")) (bad "source must be empty" msg.id)

abbrev pub user_connections : World → Option Ptr → Option (List Ptr)
user_connections w none = none
user_connections w (some ur) = some (w.user_records ur).connections

-- LookupConnectionsByID of manager.go
unfoldable pub lookup_connections : World → String → Option (List Ptr)
lookup_connections w id = user_connections w (lookup id w.users)

-- Sends to all connections of a user. `ref` is the message id in the error.
unfoldable pub send_to_user : String → ℕ → Payload → Call (Unit {0})
unfolding lookup_connections
send_to_user user ref msg w = elim (lookup_connections w user) [
  | none ↦ (fail (rtm no_session_for_user "target not found" ref), w)
  | some conns ↦ (ok tt, send_all conns msg w)
]

unfoldable pub check_request : WebRtc → Option AdminAuthToken → Call (Unit {0})
check_request msg auth = do
  refuse_if (not (msg.channel == "") || not (msg.hash == ""))
      (bad "channel and hash must be empty" msg.id)
  refuse_if (is_some msg.payload) (bad "data must be empty" msg.id)
  refuse_if (not (may_create auth)) (rtm create_restricted "access denied" msg.id)

-- m.channels.SetIfAbsent
abbrev pub set_channel_if_absent : String → ℕ → Ptr → World → World
set_channel_if_absent id now p w =
    if has id w.channels
    then w
    else record w { channels = insert id (record { since = now; channel = p }) w.channels }

abbrev pub extra_of : Option ChannelPipeline → Option Json
extra_of none = none
extra_of (some p) =
    some (channel_extra (record { group = none; pipeline = some p; replaced = false }))

-- A call request: a new channel with the caller in it, the caller is told, the target is called.
unfoldable pub process_request :
    Env → Input → Ptr → WebRtc → Ptr → Option AdminAuthToken → Call (Unit {0})
process_request e i conn msg ur auth = do
  check_request msg auth
  p ← λ w. let (p, w') = new_channel e ("*" +++ i.random) none w in (ok p, w')
  user ← gets (λ w. (w.user_records ur).id)
  add_user msg.id p user conn
  c ← gets (λ w. w.channel_objects p)
  modify (set_channel_if_absent c.id i.now p)
  pipe ← gets (λ w. pipeline_extra w c.pipeline)
  let hash = e.encode64 (compute_hash e msg.type user msg.target c.id)
  ignore_error (send conn (reply_channel msg.id c.id hash (extra_of pipe)))
  send_to_user msg.target 0 (
      webrtc (record msg {
        id = 0;
        source = user;
        channel = c.id;
        hash = hash;
        payload = extra_of pipe;
        profile = some (profile_of auth);
      }))

-- json.Unmarshal of the accept data. A nil pointer is read by what follows.
abbrev pub decoded : {A : Type 0} → Decoded A → Call A
decoded invalid = throw (plain "json")
decoded null = panics
decoded (value a) = pure a

-- The other connections of the user: those that are not `conn`.
abbrev pub except : Ptr → List Ptr → List Ptr
except conn = kwmserver.Base.keep λ p. not (p == conn)

-- The message that tells them that the call was taken.
abbrev pub cleared_message : WebRtc → Payload
cleared_message msg = webrtc (record {
  id = 0;
  type = "webrtc";
  subtype = "webrtc_call";
  target = "";
  source = msg.target;
  profile = none;
  initiator = true;
  state = "";
  channel = msg.channel;
  group = "";
  hash = "";
  version = current_webrtc_payload_version;
  transaction = "";
  pcid = "";
  payload = none;
})

-- Is a busy reply dropped because the user has other connections?
abbrev pub ignored_busy : Accept → Option (List Ptr) → Bool
ignored_busy extra none = false
ignored_busy extra (some conns) =
    not extra.accept && (extra.reason == "reject_busy" && ltb 1 (length conns))

abbrev pub notify_others : Ptr → Payload → Option (List Ptr) → World → World
notify_others conn msg none w = w
notify_others conn msg (some conns) w = send_all (except conn conns) msg w

-- The last step of a response: source and profile are set and the target gets the message.
unfoldable pub answer_target : Ptr → String → WebRtc → Option AdminAuthToken → Call (Unit {0})
answer_target p user msg auth = do
  r ← get p msg.target
  if not r.1 || r.0 == nil
      then throw (rtm no_session_for_user "target not found" 0)
      else ignore_error (
          send r.0
            (webrtc (record msg { source = user; id = 0; profile = some (profile_of auth) })))

-- A response to a normal call, from the accepted data on.
unfoldable pub process_accept :
    Ptr → WebRtc → Option AdminAuthToken → Ptr → String → Accept → Call (Unit {0})
process_accept conn msg auth p user extra = do
  if extra.accept then add_user msg.id p user conn else pure tt
  conns ← gets (λ w. lookup_connections w user)
  if ignored_busy extra conns
      then pure tt
      else modify (notify_others conn (cleared_message msg) conns) >> answer_target p user msg auth

-- A response in a group: the hash is replaced by that of the target.
unfoldable pub process_group_accept :
    Env → WebRtc → Option AdminAuthToken → Ptr → String → Accept → Call (Unit {0})
process_group_accept e msg auth p user extra = do
  refuse_if (not extra.accept) (bad "accept required for group call" msg.id)
  c ← gets (λ w. w.channel_objects p)
  answer_target p user
      (record msg { hash = e.encode64 (compute_hash e msg.type user msg.target c.id) }) auth

-- The channel of a message: the pointer in the channels table.
unfoldable pub find_channel : WebRtc → Call Ptr
find_channel msg w = elim (lookup msg.channel w.channels) [
  | none ↦ (fail (bad "channel not found" msg.id), w)
  | some r ↦ (ok r.channel, w)
]

abbrev pub run_check : Outcome (Unit {0}) → Call (Unit {0})
run_check r w = (r, w)

-- A call response.
unfoldable pub process_response : Env → Ptr → WebRtc → Ptr → Option AdminAuthToken → Call (Unit {0})
process_response e conn msg ur auth = do
  refuse_if (msg.channel == "" || (msg.hash == "" || is_none msg.payload))
      (bad "channel, hash or data is empty" msg.id)
  p ← find_channel msg
  c ← gets (λ w. w.channel_objects p)
  user ← gets (λ w. (w.user_records ur).id)
  run_check (check_webrtc_message e c user msg)
  extra ← decoded (kwmserver.Rtm.World.decode_payload e.decode_accept msg.payload)
  if not (msg.group == "")
      then process_group_accept e msg auth p user extra
      else process_accept conn msg auth p user extra

unfoldable pub process_call :
    Env → Input → Ptr → WebRtc → Ptr → Option AdminAuthToken → Call (Unit {0})
process_call e i conn msg ur auth = do
  check_call ur msg
  if msg.initiator
      then process_request e i conn msg ur auth
      else process_response e conn msg ur auth

-- The checks at the top of the cases webrtc_hangup and webrtc_signal.
unfoldable pub check_signal : Ptr → WebRtc → Call (Unit {0})
check_signal ur msg = do
  refuse_if (ur == nil) (bad "connection has no user" msg.id)
  refuse_if (msg.state == "") (bad "state is empty" msg.id)
  refuse_if (not (msg.source == "")) (bad "source must be empty" msg.id)
  refuse_if (msg.channel == "" || (msg.hash == "" || is_none msg.payload))
      (bad "channel hash or data is empty" msg.id)

-- The target of a signal: nil in group mode, the connection in the channel, or nothing.
unfoldable pub signal_target : Ptr → WebRtc → Call (Ptr × Bool)
signal_target p msg =
    if not (msg.group == "") && msg.target == msg.group
    then pure (nil, true)
    else if not (msg.target == "")
    then get p msg.target
    else pure (nil, false)

abbrev pub is_hangup : Subtype → Bool
is_hangup hangup_subtype = true
is_hangup _ = false

-- The end of a signal: forwarded with a target or a permission, refused without.
unfoldable pub forward_signal : Ptr → String → WebRtc → Ptr × Bool → Call (Unit {0})
forward_signal p user msg (target, found) =
    if found || not (target == nil)
    then forward p user msg.target target msg
    else throw (rtm no_session_for_user "target not found" msg.id)

-- A hangup leaves the channel first. With no target in the channel all connections of the target
-- user get it.
unfoldable pub process_hangup : Ptr → String → WebRtc → Ptr × Bool → Call (Unit {0})
process_hangup p user msg (target, found) = do
  ignore_error (remove_id p user)
  if not found
      then send_to_user msg.target msg.id (webrtc (record msg { source = user; id = 0 }))
      else forward_signal p user msg (target, found)

unfoldable pub process_signal : Env → Subtype → Ptr → WebRtc → Ptr → Call (Unit {0})
process_signal e subtype conn msg ur = do
  check_signal ur msg
  p ← find_channel msg
  c ← gets (λ w. w.channel_objects p)
  user ← gets (λ w. (w.user_records ur).id)
  run_check (check_webrtc_message e c user msg)
  target ← signal_target p msg
  if is_hangup subtype then process_hangup p user msg target else forward_signal p user msg target

abbrev pub dispatch :
    Env → Input → Ptr → WebRtc → Ptr → Option AdminAuthToken → Subtype → Call (Unit {0})
dispatch e i conn msg ur auth group_subtype = process_group e i conn msg ur auth
dispatch e i conn msg ur auth call_subtype = process_call e i conn msg ur auth
dispatch e i conn msg ur auth hangup_subtype = process_signal e hangup_subtype conn msg ur
dispatch e i conn msg ur auth signal_subtype = process_signal e signal_subtype conn msg ur
dispatch e i conn msg ur auth unknown_subtype = throw (bad "unknown subtype" msg.id)

-- processWebRTCMessage. minimalWebRTCPayloadVersion is 0, so no version is outdated.
unfoldable pub process_webrtc : Env → Input → Ptr → WebRtc → Call (Unit {0})
unfolding validate_restricted
process_webrtc e i conn msg = do
  refuse_if (ltb msg.version 0) (bad "outdated WebRTC payload version" msg.id)
  refuse_if (is_some msg.profile) (bad "profile cannot be set by client" msg.id)
  ur ← gets (λ w. (w.conns conn).binder)
  bound_auth ← gets (λ w. auth_of w ur)
  auth ← validate_restricted bound_auth msg
  dispatch e i conn msg ur auth (subtype_of msg.subtype)

-- onWebRTC: an unknown session is not told to the client.
abbrev pub hide_unknown_session : Outcome (Unit {0}) × World → Outcome (Unit {0}) × World
hide_unknown_session (fail (rtm no_session_for_user msg id), w) = (ok tt, w)
hide_unknown_session (fail (rtm code msg id), w) = (fail (rtm code msg id), w)
hide_unknown_session (fail (plain msg), w) = (fail (plain msg), w)
hide_unknown_session (ok u, w) = (ok u, w)
hide_unknown_session (panic, w) = (panic, w)
hide_unknown_session (blocked, w) = (blocked, w)

unfoldable pub on_webrtc : Env → Input → Ptr → WebRtc → Call (Unit {0})
on_webrtc e i conn msg w = hide_unknown_session (process_webrtc e i conn msg w)
