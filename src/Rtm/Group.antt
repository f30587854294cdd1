-- ===== src/Rtm/Group.antt =====
-- signaling/rtm/group.go: the handlers of group channels, and Channel.Connections of channel.go,
-- which they call.
use kwmserver.Base.{
  ℕ, String, Bool, true, false, Option, none, some, List, [], ◌∷◌, ◌==◌, nat_eq, string_eq,
  if◌then◌else◌, ◌+++◌, Dict, map, Ptr, ok, blocked, ◌>>=◌, pure, gets, modify, ignore_error,
}
use kwmserver.Api.{ChannelExtra, webrtc_reply, channel_extra, no_extra, Payload}
use kwmserver.Rtm.World.{
  Call, Channel, ChannelConfig, ChannelOp, op_add, op_remove, op_reset, send, send_all,
}

-- currentWebRTCPayloadVersion
abbrev pub current_webrtc_payload_version : ℕ
current_webrtc_payload_version = 20180703

-- CreateNamedGroupChannelID, which returns no error
unfoldable pub named_group_channel_id : String → String
named_group_channel_id id = "@" +++ id

-- Takes the lock of a channel and reads the channel. A lock that was left locked blocks for good.
abbrev pub if_unlocked : Channel → Call Channel
if_unlocked c w = if c.locked then (blocked, w) else (ok c, w)

unfoldable pub lock : Ptr → Call Channel
lock p w = if_unlocked (w.channel_objects p) w

-- Channel.Connections
unfoldable pub connections_of : Ptr → Call (Dict Ptr)
unfolding lock
connections_of p = do c ← lock p; pure c.connections

-- The reply that tells a client about a channel.
abbrev pub channel_reply : String → ChannelExtra → Payload
channel_reply channel extra = webrtc_reply (record {
  type = "webrtc";
  subtype = "webrtc_channel";
  reply_to = 0;
  state = "";
  channel = channel;
  hash = "";
  version = current_webrtc_payload_version;
  payload = some (channel_extra extra);
})

-- onGroupReplace: the replaced connection is told, and a failed send is only logged.
unfoldable pub on_group_replace : String → Ptr → Call (Unit {0})
on_group_replace channel old =
    ignore_error (send old (channel_reply channel (record no_extra { replaced = true })))

abbrev pub group_of : Option ChannelConfig → String
group_of none = ""
group_of (some config) = config.group

abbrev pub is_reset : ChannelOp → Bool
is_reset op_reset = true
is_reset op_add = false
is_reset op_remove = false

-- The connections of all members but the one with the given id.
unfoldable pub others : String → Dict Ptr → List Ptr
others id [] = []
others id ((cid, conn) ∷ members) =
    let rest = others id members in if cid == id then rest else conn ∷ rest

abbrev pub member_ids : Dict Ptr → List String
member_ids = map λ m. m.0

-- onAfterGroupAddOrRemove: all members but `id` get the list of the members.
unfoldable pub on_after_group_add_or_remove : Ptr → ChannelOp → String → Call (Unit {0})
on_after_group_add_or_remove p op id = do
  members ← connections_of p
  c ← gets (λ w. w.channel_objects p)
  modify (
      send_all (others id members) (
        channel_reply c.id (record no_extra {
          group = some (record {
            group = group_of c.config;
            members = member_ids members;
            reset = is_reset op;
          });
        })))

-- onAfterGroupChannelReset
unfoldable pub on_after_group_channel_reset : Ptr → Call (Unit {0})
on_after_group_channel_reset p = on_after_group_add_or_remove p op_reset ""
