-- ===== src/Rtm/Webrtc/Hangup.antt =====
-- Signals and hangups of signaling/rtm/webrtc.go.
use kwmserver.Base.{
  ℕ, Heap, Bool, true, false, not, ◌&&◌, String, Ptr, nil, ◌==◌, nat_eq, string_eq, if◌then◌else◌,
  none, some, List, [], ◌∷◌, ◌++◌, ◌⊎◌, Bool-cases, lookup, ◌≡◌, ◌≢◌, inl, inr, refl, ap, ◌∙◌,
  arith, eq_iff, Outcome, ok, fail, panic, blocked, nat_beq, quiet, Option-cases,
}
use kwmserver.Api.{WebRtc, Payload, webrtc}
use kwmserver.Rtm.World.{World, Env, Channel, ChannelRecord, in_channel, send, send_all}
use kwmserver.Rtm.Group.{lock}
use kwmserver.Rtm.Hash.{check_webrtc_message}
use kwmserver.Rtm.Channel.{forward, remove_id, get, pipeline_send}
use kwmserver.Rtm.Channel.Adding.{remove_id-in_channel, send-objects}
use kwmserver.Rtm.Webrtc.Delivery.{IsReady, send-delivers, send-others}
use kwmserver.Rtm.Webrtc.Response.{find_channel_lem}
use kwmserver.Rtm.Webrtc.{
  Subtype, hangup_subtype, signal_subtype, process_signal, process_hangup, forward_signal,
  signal_target, check_signal, find_channel, send_to_user, user_connections, is_hangup,
}

send_all-objects :
    (to : List Ptr) (msg : Payload) (w : World)
    → (send_all to msg w).channel_objects ≡ w.channel_objects
unfolding send_all
send_all-objects [] msg w = refl
send_all-objects (p ∷ ps) msg w = send_all-objects ps msg (send p msg w).1 ∙ send-objects p msg w

send_to_user-objects :
    (user : String) (ref : ℕ) (msg : Payload) (w : World)
    → (send_to_user user ref msg w).1.channel_objects ≡ w.channel_objects
unfolding send_to_user
send_to_user-objects user ref msg w =
    elim (Option-cases (kwmserver.Rtm.Webrtc.lookup_connections w user)) [
      | inl e ↦ rw (e, send_to_user)
      | inr (conns, e) ↦ rw (e, send_to_user) (send_all-objects conns msg w)
    ]

get-objects : (p : Ptr) (id : String) (w : World) → (get p id w).1 ≡ w
unfolding get lock
get-objects p id w = ground arith

pipeline_send-objects :
    (p : Ptr) (msg : WebRtc) (w : World)
    → (pipeline_send p msg w).1.channel_objects ≡ w.channel_objects
unfolding pipeline_send
pipeline_send-objects p msg w =
    ground (arith, send-objects (w.pipelines p).connection (webrtc msg) w)

forward-objects :
    (p : Ptr) (source target : String) (conn : Ptr) (msg : WebRtc) (w : World)
    → (forward p source target conn msg w).1.channel_objects ≡ w.channel_objects
unfolding forward get lock send
forward-objects p source target conn msg w = elim (Option-cases (w.channel_objects p).pipeline) [
  | inl e ↦ rw (e, forward) (ground arith)
  | inr (pipe, e) ↦ rw (e, forward) (pipeline_send-objects pipe (record msg { source = source }) w)
]

forward_signal-objects :
    (p : Ptr) (user : String) (msg : WebRtc) (target : Ptr × Bool) (w : World)
    → (forward_signal p user msg target w).1.channel_objects ≡ w.channel_objects
unfolding forward_signal
forward_signal-objects p user msg (target, found) w =
    ground (arith, forward-objects p user msg.target target msg w)

quiet_ok : (r : Outcome (Unit {0}) × World) → r.0 ≡ ok tt → quiet r ≡ (ok tt, r.1)
quiet_ok (ok tt, w) h = refl
quiet_ok (fail e, w) h = cc
quiet_ok (panic, w) h = cc
quiet_ok (blocked, w) h = cc

hangup_end-objects :
    (p : Ptr) (user : String) (msg : WebRtc) (target : Ptr) (found : Bool) (w : World)
    → ((if not found
          then send_to_user msg.target msg.id (webrtc (record msg { source = user; id = 0 }))
          else forward_signal p user msg (target, found))
        w).1.channel_objects
      ≡ w.channel_objects
hangup_end-objects p user msg target true w = forward_signal-objects p user msg (target, true) w
hangup_end-objects p user msg target false w = send_to_user-objects msg.target msg.id _ w

-- A hangup in a channel that is not left locked takes the user out of the channel and changes no
-- other entry of any channel, whether or not the message then reaches its target.
pub hangup_leaves :
    (p : Ptr) (user : String) (msg : WebRtc) (target : Ptr × Bool) (w : World) (q : Ptr)
    (j : String)
    → (w.channel_objects p).locked ≡ false
    → in_channel (process_hangup p user msg target w).1 q j
      ≡ (if nat_beq p q && user == j then none else in_channel w q j)
unfolding process_hangup
hangup_leaves p user msg (target, found) w q j l =
    let removed = remove_id-in_channel p user w q j l in
    rw (quiet_ok (remove_id p user w) removed.0) (
      ap (λ (h : Heap Channel). lookup j (h q).connections)
        (hangup_end-objects p user msg target found (remove_id p user w).1)
      ∙ removed.1)

check_signal_lem :
    (ur : Ptr) (msg : WebRtc) (w : World)
    → ur ≢ nil
    → msg.state ≢ ""
    → msg.source ≡ ""
    → msg.channel ≢ ""
    → msg.hash ≢ ""
    → msg.payload ≢ none
    → check_signal ur msg w ≡ (ok tt, w)
unfolding check_signal
check_signal_lem ur msg w u st so c h d =
    ground
      (arith, eq_iff msg.state "", eq_iff msg.source "", eq_iff msg.channel "", eq_iff msg.hash "")

-- The target of a signal to a member: its connection, or in group mode nil.
signal_target_lem :
    (p : Ptr) (msg : WebRtc) (w : World) (x : Ptr)
    → msg.target ≢ ""
    → (w.channel_objects p).locked ≡ false
    → in_channel w p msg.target ≡ some x
    → (signal_target p msg w ≡ (ok (x, true), w)) ⊎ (signal_target p msg w ≡ (ok (nil, true), w))
unfolding signal_target get lock
signal_target_lem p msg w x t l m =
    elim (Bool-cases (not (msg.group == "") && msg.target == msg.group)) [
      | inl g ↦ inr (ground (arith, g))
      | inr g ↦ inl (ground (arith, g, eq_iff msg.target ""))
    ]

forward_signal_lem :
    (p : Ptr) (user : String) (msg : WebRtc) (w : World) (x : Ptr)
    → (w.channel_objects p).pipeline ≡ none
    → x ≢ nil
    → forward_signal p user msg (x, true) w
      ≡ send x (webrtc (record msg { source = user; id = 0 })) w
unfolding forward_signal forward
forward_signal_lem p user msg w x nopipe real = rw (nopipe, forward) (ground arith)

-- In group mode the channel is asked for the target.
forward_group_lem :
    (p : Ptr) (user : String) (msg : WebRtc) (w : World) (x : Ptr)
    → (w.channel_objects p).pipeline ≡ none
    → (w.channel_objects p).locked ≡ false
    → in_channel w p msg.target ≡ some x
    → x ≢ nil
    → forward_signal p user msg (nil, true) w
      ≡ send x (webrtc (record msg { source = user; id = 0 })) w
unfolding forward_signal forward get lock
forward_group_lem p user msg w x nopipe l m real = rw (nopipe, forward) (ground arith)

-- A signal, in a group or not, from a sender who passes the check, to a member of the channel of the
-- message, which has no pipeline: if the connection of that member is open and its queue has room,
-- the message is put at the end of that queue, with the sender as its source, and nothing changes of
-- any other connection.
pub signal_delivers :
    (e : Env) (conn : Ptr) (msg : WebRtc) (ur : Ptr) (w : World) (r : ChannelRecord) (x : Ptr)
    → ur ≢ nil
    → msg.state ≢ ""
    → msg.source ≡ ""
    → msg.channel ≢ ""
    → msg.hash ≢ ""
    → msg.payload ≢ none
    → msg.target ≢ ""
    → lookup msg.channel w.channels ≡ some r
    → (w.channel_objects r.channel).pipeline ≡ none
    → (w.channel_objects r.channel).locked ≡ false
    → check_webrtc_message e (w.channel_objects r.channel) (w.user_records ur).id msg ≡ ok tt
    → in_channel w r.channel msg.target ≡ some x
    → x ≢ nil
    → IsReady (w.conns x)
    → let t = process_signal e signal_subtype conn msg ur w in
      let sent = webrtc (record msg { source = (w.user_records ur).id; id = 0 }) in
      (t.0 ≡ ok tt)
      × ((t.1.conns x).send ≡ (w.conns x).send ++ sent ∷ [])
      × ((q : Ptr) → q ≢ x → t.1.conns q ≡ w.conns q)
unfolding process_signal
signal_delivers e conn msg ur w r x u st so c h d t found nopipe l checked member real ready =
    let user = (w.user_records ur).id in
    let sent = webrtc (record msg { source = user; id = 0 }) in
    let same : process_signal e signal_subtype conn msg ur w ≡ send x sent w =
      elim (signal_target_lem r.channel msg w x t l member) [
        | inl is ↦
            rw
              (check_signal_lem ur msg w u st so c h d, find_channel_lem msg w r found, checked, is)
              (forward_signal_lem r.channel user msg w x nopipe real)
        | inr is ↦
            rw
              (check_signal_lem ur msg w u st so c h d, find_channel_lem msg w r found, checked, is)
              (forward_group_lem r.channel user msg w x nopipe l member real)
      ] in
    let there = send-delivers x sent w ready in
    (
      ap (λ y. y.0) same ∙ there.0,
      ap (λ y. (y.1.conns x).send) same ∙ there.1,
      λ q other. ap (λ y. y.1.conns q) same ∙ send-others x q sent w other,
    )
