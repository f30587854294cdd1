-- ===== src/Rtm/Webrtc/Response.antt =====
-- Call responses of signaling/rtm/webrtc.go.
use kwmserver.Base.{
  ℕ, Bool, true, false, not, ◌&&◌, ◌||◌, String, Ptr, nil, ◌==◌, nat_eq, string_eq, if◌then◌else◌,
  Option, none, some, List, [], lookup, ◌≡◌, ◌≢◌, refl, ap, ◌∙◌, arith, eq_iff, Outcome, ok, fail,
  panic, plain, is_none, is_some, continue_with,
}
use kwmserver.Api.{AdminAuthToken, WebRtc, Accept, Json}
use kwmserver.Rtm.World.{World, Env, ChannelConfig, ChannelRecord, null, value, in_channel, bad}
use kwmserver.Rtm.Hash.{check_webrtc_message}
use kwmserver.Rtm.Channel.{add}
use kwmserver.Rtm.Channel.Locked.{LockersBlock, add_taken_blocks}
use kwmserver.Rtm.Webrtc.{
  process_response, process_accept, process_group_accept, find_channel, add_user, as_bad_message,
}

pub find_channel_lem :
    (msg : WebRtc) (w : World) (r : ChannelRecord)
    → lookup msg.channel w.channels ≡ some r
    → find_channel msg w ≡ (ok r.channel, w)
unfolding find_channel
find_channel_lem msg w r e = rw (e, find_channel)

module _ (e : Env) (conn : Ptr) (msg : WebRtc) (ur : Ptr) (auth : Option AdminAuthToken)
    (w : World) where
  abbrev pub user_of : String
  user_of = (w.user_records ur).id

  -- How a response goes on once its channel is found and the message is checked against it.
  abbrev pub with_extra : Ptr → Outcome Accept × World → Outcome (Unit {0}) × World
  with_extra p = continue_with λ extra.
      if not (msg.group == "")
      then process_group_accept e msg auth p user_of extra
      else process_accept conn msg auth p user_of extra

  response_lem :
      (r : ChannelRecord) (j : Json)
      → msg.channel ≢ ""
      → msg.hash ≢ ""
      → msg.payload ≡ some j
      → lookup msg.channel w.channels ≡ some r
      → check_webrtc_message e (w.channel_objects r.channel) user_of msg ≡ ok tt
      → process_response e conn msg ur auth w
        ≡ with_extra r.channel (kwmserver.Rtm.Webrtc.decoded (e.decode_accept j) w)
  unfolding process_response
  response_lem r j c h d found checked =
      ground (arith, eq_iff msg.channel "", eq_iff msg.hash "", find_channel_lem msg w r found)

  -- A response whose data is the JSON text null, on a channel and with a hash that the server
  -- gave out, is decoded to a nil pointer with no error, and reading it is a run-time panic.
  pub null_data_panics :
      (r : ChannelRecord) (j : Json)
      → msg.channel ≢ ""
      → msg.hash ≢ ""
      → msg.payload ≡ some j
      → lookup msg.channel w.channels ≡ some r
      → check_webrtc_message e (w.channel_objects r.channel) user_of msg ≡ ok tt
      → e.decode_accept j ≡ null
      → (process_response e conn msg ur auth w).0 ≡ panic
  null_data_panics r j c h d found checked n = rw (response_lem r j c h d found checked, n)

  accept_lem :
      (p : Ptr) (extra : Accept) (x : kwmserver.Base.Error) (v : World)
      → extra.accept ≡ true
      → add_user msg.id p user_of conn w ≡ (fail x, v)
      → process_accept conn msg auth p user_of extra w ≡ (fail x, v)
  unfolding process_accept
  accept_lem p extra x v yes_ e = rw (yes_, e)

  add_user_taken :
      (p : Ptr)
      → (add p user_of conn w).0 ≡ fail (plain "id already exists")
      → add_user msg.id p user_of conn w
        ≡ (fail (bad "id already exists" msg.id), (add p user_of conn w).1)
  unfolding add_user
  add_user_taken p e = go (add p user_of conn w) e
    where
      go :
          (r : Outcome (Unit {0}) × World)
          → r.0 ≡ fail (plain "id already exists")
          → as_bad_message msg.id r ≡ (fail (bad "id already exists" msg.id), r.1)
      go (fail (plain m), v) h = ground arith
      go (fail (kwmserver.Base.rtm a b c), v) h = cc
      go (ok u, v) h = cc
      go (panic, v) h = cc
      go (kwmserver.Base.blocked, v) h = cc

  -- A user who accepts a call from a second connection, while the first is in the channel of the
  -- call, is refused, and the channel stays locked: Add, Remove, the close callback, Get, Size,
  -- Cleanup and Connections of it then block, for whatever id and connection.
  pub second_accept_blocks :
      (r : ChannelRecord) (j : Json) (extra : Accept) (existing : Ptr) (f : ChannelConfig)
      → msg.channel ≢ ""
      → msg.hash ≢ ""
      → msg.payload ≡ some j
      → msg.group ≡ ""
      → lookup msg.channel w.channels ≡ some r
      → check_webrtc_message e (w.channel_objects r.channel) user_of msg ≡ ok tt
      → e.decode_accept j ≡ value extra
      → extra.accept ≡ true
      → (w.channel_objects r.channel).config ≡ some f
      → f.replace ≡ none
      → (w.channel_objects r.channel).locked ≡ false
      → (w.channel_objects r.channel).closed ≡ false
      → in_channel w r.channel user_of ≡ some existing
      → existing ≢ conn
      → let result = process_response e conn msg ur auth w in
        (result.0 ≡ fail (bad "id already exists" msg.id)) × LockersBlock r.channel result.1
  second_accept_blocks r j extra existing f c h d g found checked val yes_ set nr l o here other =
      let taken = add_taken_blocks r.channel user_of conn existing w f set nr l o here other in
      let all =
        response_lem r j c h d found checked
        ∙ ap (with_extra r.channel) (ap (λ x. kwmserver.Rtm.Webrtc.decoded x w) val)
        ∙ rw ((eq_iff msg.group "").1 g)
            (accept_lem r.channel extra _ _ yes_ (add_user_taken r.channel taken.0)) in
      rw all (refl, taken.1)
