-- ===== src/Rtm/Lifetime/Messages.antt =====
-- The signals and hangups of signaling/rtm/webrtc.go, the chats of chats.go, and whole messages, as
-- histories.
use kwmserver.Base.{
  ℕ, Bool, String, Ptr, nil, Option, lookup, if◌then◌else◌, ◌==◌, nat_eq, throw, ◌>>=◌, Outcome, ok,
  fail, panic, blocked, plain, rtm, server_error, bad_message, no_session_for_user,
  access_restricted, create_restricted, Option-cases, inl, inr,
}
use kwmserver.Api.{AdminAuthToken, WebRtc, webrtc, Payload, Chats, ChatsMessage}
use kwmserver.Rtm.World.{World, Env, Input, Decoded, invalid, null, value, send}
use kwmserver.Rtm.Channel.{forward, pipeline_send, target_of}
use kwmserver.Rtm.Webrtc.{
  check_signal, signal_target, forward_signal, process_hangup, process_signal, dispatch, Subtype,
  group_subtype, call_subtype, hangup_subtype, signal_subtype, unknown_subtype, validate_restricted,
  process_webrtc, hide_unknown_session, on_webrtc,
}
use kwmserver.Rtm.Chats.{
  process_chats, on_chats, chat_guards, chat_channel, check_member, decoded_chats, check_text,
  deliver_chat, to_others,
}
use kwmserver.Rtm.Lifetime.Calls.{IsHistory, Goes, stays, histories}
use kwmserver.Rtm.Lifetime.Handlers.{
  call_parts, get-IsHistory, process_group-IsHistory, process_call-IsHistory,
}

pipeline_send-IsHistory : (p : Ptr) (msg : WebRtc) → IsHistory (pipeline_send p msg)
unfolding pipeline_send
pipeline_send-IsHistory p msg = search histories depth 30

-- Channel.Forward without a pipeline
direct-IsHistory :
    (p : Ptr) (source target : String) (conn : Ptr) (msg : WebRtc)
    → IsHistory {A = Unit {0}} (
        target_of p target conn >>= λ found.
        if found == nil
        then throw (rtm no_session_for_user "target not found" msg.id)
        else send found (webrtc (record msg { source = source; id = 0 })))
direct-IsHistory p source target conn msg = search (histories, get-IsHistory) depth 30

forward-IsHistory :
    (p : Ptr) (source target : String) (conn : Ptr) (msg : WebRtc)
    → IsHistory (forward p source target conn msg)
unfolding forward
forward-IsHistory p source target conn msg = record {
  history = λ w. elim (Option-cases (w.channel_objects p).pipeline) [
    | inl missing ↦ rw (missing, forward) ((direct-IsHistory p source target conn msg).history w)
    | inr (pipe, has) ↦
        rw (has, forward)
          ((pipeline_send-IsHistory pipe (record msg { source = source })).history w)
  ];
}

check_signal-IsHistory : (ur : Ptr) (msg : WebRtc) → IsHistory (check_signal ur msg)
unfolding check_signal
check_signal-IsHistory ur msg = search call_parts depth 30

signal_target-IsHistory : (p : Ptr) (msg : WebRtc) → IsHistory (signal_target p msg)
unfolding signal_target
signal_target-IsHistory p msg = search call_parts depth 30

forward_signal-IsHistory :
    (p : Ptr) (user : String) (msg : WebRtc) (target : Ptr × Bool)
    → IsHistory (forward_signal p user msg target)
unfolding forward_signal
forward_signal-IsHistory p user msg (target, found) =
    search (call_parts, forward-IsHistory) depth 30

process_hangup-IsHistory :
    (p : Ptr) (user : String) (msg : WebRtc) (target : Ptr × Bool)
    → IsHistory (process_hangup p user msg target)
unfolding process_hangup
process_hangup-IsHistory p user msg (target, found) =
    search (call_parts, forward_signal-IsHistory) depth 30

process_signal-IsHistory :
    (e : Env) (subtype : Subtype) (conn : Ptr) (msg : WebRtc) (ur : Ptr)
    → IsHistory (process_signal e subtype conn msg ur)
unfolding process_signal
process_signal-IsHistory e subtype conn msg ur =
    search
      (
        call_parts, check_signal-IsHistory, signal_target-IsHistory, process_hangup-IsHistory,
        forward_signal-IsHistory,
      )
      depth 30

dispatch-IsHistory :
    (e : Env) (i : Input) (conn : Ptr) (msg : WebRtc) (ur : Ptr) (auth : Option AdminAuthToken)
    (s : Subtype)
    → IsHistory (dispatch e i conn msg ur auth s)
dispatch-IsHistory e i conn msg ur auth group_subtype = process_group-IsHistory e i conn msg ur auth
dispatch-IsHistory e i conn msg ur auth call_subtype = process_call-IsHistory e i conn msg ur auth
dispatch-IsHistory e i conn msg ur auth hangup_subtype = process_signal-IsHistory e _ conn msg ur
dispatch-IsHistory e i conn msg ur auth signal_subtype = process_signal-IsHistory e _ conn msg ur
dispatch-IsHistory e i conn msg ur auth unknown_subtype = search histories

process_webrtc-IsHistory :
    (e : Env) (i : Input) (conn : Ptr) (msg : WebRtc) → IsHistory (process_webrtc e i conn msg)
unfolding process_webrtc validate_restricted
process_webrtc-IsHistory e i conn msg = search (call_parts, dispatch-IsHistory) depth 30

hide-Goes :
    (w : World) (r : Outcome (Unit {0}) × World) → Goes w r.1 → Goes w (hide_unknown_session r).1
hide-Goes w (fail (rtm no_session_for_user m k), v) h = h
hide-Goes w (fail (rtm bad_message m k), v) h = h
hide-Goes w (fail (rtm access_restricted m k), v) h = h
hide-Goes w (fail (rtm create_restricted m k), v) h = h
hide-Goes w (fail (rtm server_error m k), v) h = h
hide-Goes w (fail (plain m), v) h = h
hide-Goes w (ok u, v) h = h
hide-Goes w (panic, v) h = h
hide-Goes w (blocked, v) h = h

-- Whatever a webrtc message leads to is a history.
pub on_webrtc-IsHistory :
    (e : Env) (i : Input) (conn : Ptr) (msg : WebRtc) → IsHistory (on_webrtc e i conn msg)
unfolding on_webrtc
on_webrtc-IsHistory e i conn msg = record {
  history = λ w. hide-Goes w _ ((process_webrtc-IsHistory e i conn msg).history w);
}

chat_guards-IsHistory : (msg : Chats) (ur : Ptr) → IsHistory (chat_guards msg ur)
unfolding chat_guards
chat_guards-IsHistory msg ur = search call_parts depth 30

chat_channel-IsHistory : (msg : Chats) → IsHistory (chat_channel msg)
unfolding chat_channel
chat_channel-IsHistory msg = record {
  history = λ w. elim (Option-cases (lookup msg.channel w.channels)) [
    | inl missing ↦ rw (missing, chat_channel) stays
    | inr (r, found) ↦ rw (found, chat_channel) stays
  ];
}

check_member-IsHistory :
    (conn : Ptr) (msg : Chats) (ur p : Ptr) → IsHistory (check_member conn msg ur p)
unfolding check_member
check_member-IsHistory conn msg ur p = search call_parts depth 30

check_text-IsHistory : (id : ℕ) (extra : ChatsMessage) → IsHistory (check_text id extra)
unfolding check_text
check_text-IsHistory id extra = search call_parts depth 30

decoded_chats-IsHistory : (id : ℕ) (d : Decoded ChatsMessage) → IsHistory (decoded_chats id d)
decoded_chats-IsHistory id invalid = search histories
decoded_chats-IsHistory id null = search histories
decoded_chats-IsHistory id (value extra) = search histories

to_others-IsHistory : (p conn : Ptr) (msg : Payload) → IsHistory (to_others p conn msg)
unfolding to_others
to_others-IsHistory p conn msg = search call_parts depth 30

deliver_chat-IsHistory :
    (i : Input) (conn : Ptr) (ref : ℕ) (ur p : Ptr) (extra : ChatsMessage)
    → IsHistory (deliver_chat i conn ref ur p extra)
unfolding deliver_chat
deliver_chat-IsHistory i conn ref ur p extra = search (call_parts, to_others-IsHistory) depth 30

process_chats-IsHistory :
    (e : Env) (i : Input) (conn : Ptr) (msg : Chats) → IsHistory (process_chats e i conn msg)
unfolding process_chats
process_chats-IsHistory e i conn msg =
    search
      (
        call_parts, chat_guards-IsHistory, chat_channel-IsHistory, check_member-IsHistory,
        decoded_chats-IsHistory, check_text-IsHistory, deliver_chat-IsHistory,
      )
      depth 30

-- Whatever a chats message leads to is a history.
pub on_chats-IsHistory :
    (e : Env) (i : Input) (conn : Ptr) (msg : Chats) → IsHistory (on_chats e i conn msg)
unfolding on_chats
on_chats-IsHistory e i conn msg = record {
  history = λ w. hide-Goes w _ ((process_chats-IsHistory e i conn msg).history w);
}
