-- ===== src/Rtm/Lifetime/Handlers.antt =====
-- The handlers of text messages (signaling/rtm/webrtc.go, chats.go) as histories.
use kwmserver.Base.{
  ℕ, List, String, Ptr, Option, none, some, lookup, refl, arith, modify, Outcome, ok, fail, panic,
  blocked, plain, rtm, Option-cases, inl, inr,
}
use kwmserver.Api.{AdminAuthToken, WebRtc, Payload, Accept}
use kwmserver.Rtm.World.{World, ChannelConfig, Env, Input, Decoded, invalid, null, value}
use kwmserver.Rtm.Group.{connections_of}
use kwmserver.Rtm.Channel.{size, get, new_channel}
use kwmserver.Rtm.Webrtc.{
  check_group, upsert_channel, as_bad_message, add_user, process_group, check_call, send_to_user,
  check_request, process_request, decoded, notify_others, answer_target, process_accept,
  process_group_accept, find_channel, run_check, process_response, process_call, lookup_connections,
  set_channel_if_absent,
}
use kwmserver.Rtm.Lifetime.Calls.{
  IsHistory, Goes, stays, creates-Goes, histories, send_all-Goes, Goes-trans, calm-Goes,
  add-IsHistory, send-IsHistory, lock-IsHistory,
}

pub connections_of-IsHistory : (p : Ptr) → IsHistory (connections_of p)
unfolding connections_of
connections_of-IsHistory p = search histories

pub size-IsHistory : (p : Ptr) → IsHistory (size p)
unfolding size
size-IsHistory p = search histories

pub get-IsHistory : (p : Ptr) (id : String) → IsHistory (get p id)
unfolding get
get-IsHistory p id = search histories

as_bad_message-Goes :
    (id : ℕ) (w : World) (r : Outcome (Unit {0}) × World)
    → Goes w r.1
    → Goes w (as_bad_message id r).1
as_bad_message-Goes id w (fail (plain msg), v) h = h
as_bad_message-Goes id w (fail (rtm code msg ref), v) h = h
as_bad_message-Goes id w (ok u, v) h = h
as_bad_message-Goes id w (panic, v) h = h
as_bad_message-Goes id w (blocked, v) h = h

pub add_user-IsHistory :
    (id : ℕ) (p : Ptr) (user : String) (conn : Ptr) → IsHistory (add_user id p user conn)
unfolding add_user
add_user-IsHistory id p user conn = record {
  history = λ w. as_bad_message-Goes id w _ ((add-IsHistory p user conn).history w);
}

pub upsert_channel-IsHistory :
    (e : Env) (now : ℕ) (id : String) (config : ChannelConfig)
    → IsHistory (upsert_channel e now id config)
unfolding upsert_channel
upsert_channel-IsHistory e now id config = record {
  history = λ w. elim (Option-cases (lookup id w.channels)) [
    | inl missing ↦
        rw (missing, upsert_channel)
          (Goes-trans (creates-Goes w e id (some config)) (
            calm-Goes _ _ (record {
              same_members = λ p j. refl;
              same_closed = λ p. refl;
              same_callbacks = λ p. refl;
            })))
    | inr (r, found) ↦ rw (found, upsert_channel) stays
  ];
}

pub ruleset parts = (
  histories, connections_of-IsHistory, size-IsHistory, get-IsHistory, add_user-IsHistory,
  upsert_channel-IsHistory,
)

pub check_group-IsHistory : (ur : Ptr) (msg : WebRtc) → IsHistory (check_group ur msg)
unfolding check_group
check_group-IsHistory ur msg = search parts

pub process_group-IsHistory :
    (e : Env) (i : Input) (conn : Ptr) (msg : WebRtc) (ur : Ptr) (auth : Option AdminAuthToken)
    → IsHistory (process_group e i conn msg ur auth)
unfolding process_group
process_group-IsHistory e i conn msg ur auth = search (parts, check_group-IsHistory) depth 30

-- A request makes a channel, which is put into the table.
pub new_channel-IsHistory :
    (e : Env) (id : String) (config : Option ChannelConfig)
    → IsHistory {A = Ptr} (λ w. let (p, w') = new_channel e id config w in (ok p, w'))
new_channel-IsHistory e id config = record { history = λ w. creates-Goes w e id config }

pub set_channel_if_absent-IsHistory :
    (id : String) (now : ℕ) (p : Ptr) → IsHistory (modify (set_channel_if_absent id now p))
set_channel_if_absent-IsHistory id now p = record {
  history = λ w. calm-Goes _ _ (record {
    same_members = λ q j. ground arith;
    same_closed = λ q. ground arith;
    same_callbacks = λ q. ground arith;
  });
}

pub send_to_user-IsHistory :
    (user : String) (ref : ℕ) (msg : Payload) → IsHistory (send_to_user user ref msg)
unfolding send_to_user
send_to_user-IsHistory user ref msg = record {
  history = λ w. elim (Option-cases (lookup_connections w user)) [
    | inl missing ↦ rw (missing, send_to_user) stays
    | inr (conns, found) ↦ rw (found, send_to_user) (send_all-Goes conns msg w)
  ];
}

pub notify_others-IsHistory :
    (conn : Ptr) (msg : Payload) (conns : Option (List Ptr))
    → IsHistory (modify (notify_others conn msg conns))
notify_others-IsHistory conn msg none = record { history = λ w. stays }
notify_others-IsHistory conn msg (some conns) = record { history = λ w. send_all-Goes _ msg w }

pub decoded-IsHistory : {A : Type 0} (d : Decoded A) → IsHistory (decoded d)
decoded-IsHistory invalid = search histories
decoded-IsHistory null = search histories
decoded-IsHistory (value a) = search histories

pub find_channel-IsHistory : (msg : WebRtc) → IsHistory (find_channel msg)
unfolding find_channel
find_channel-IsHistory msg = record {
  history = λ w. elim (Option-cases (lookup msg.channel w.channels)) [
    | inl missing ↦ rw (missing, find_channel) stays
    | inr (r, found) ↦ rw (found, find_channel) stays
  ];
}

pub run_check-IsHistory : (r : Outcome (Unit {0})) → IsHistory (run_check r)
run_check-IsHistory r = record { history = λ w. stays }

pub ruleset call_parts = (
  parts, new_channel-IsHistory, set_channel_if_absent-IsHistory, send_to_user-IsHistory,
  notify_others-IsHistory, decoded-IsHistory, find_channel-IsHistory, run_check-IsHistory,
)

pub check_call-IsHistory : (ur : Ptr) (msg : WebRtc) → IsHistory (check_call ur msg)
unfolding check_call
check_call-IsHistory ur msg = search call_parts depth 30

pub check_request-IsHistory :
    (msg : WebRtc) (auth : Option AdminAuthToken) → IsHistory (check_request msg auth)
unfolding check_request
check_request-IsHistory msg auth = search call_parts depth 30

pub process_request-IsHistory :
    (e : Env) (i : Input) (conn : Ptr) (msg : WebRtc) (ur : Ptr) (auth : Option AdminAuthToken)
    → IsHistory (process_request e i conn msg ur auth)
unfolding process_request
process_request-IsHistory e i conn msg ur auth =
    search (call_parts, check_request-IsHistory) depth 30

pub answer_target-IsHistory :
    (p : Ptr) (user : String) (msg : WebRtc) (auth : Option AdminAuthToken)
    → IsHistory (answer_target p user msg auth)
unfolding answer_target
answer_target-IsHistory p user msg auth = search call_parts depth 30

pub process_accept-IsHistory :
    (conn : Ptr) (msg : WebRtc) (auth : Option AdminAuthToken) (p : Ptr) (user : String)
    (extra : Accept)
    → IsHistory (process_accept conn msg auth p user extra)
unfolding process_accept
process_accept-IsHistory conn msg auth p user extra =
    search (call_parts, answer_target-IsHistory) depth 30

pub process_group_accept-IsHistory :
    (e : Env) (msg : WebRtc) (auth : Option AdminAuthToken) (p : Ptr) (user : String)
    (extra : Accept)
    → IsHistory (process_group_accept e msg auth p user extra)
unfolding process_group_accept
process_group_accept-IsHistory e msg auth p user extra =
    search (call_parts, answer_target-IsHistory) depth 30

pub process_response-IsHistory :
    (e : Env) (conn : Ptr) (msg : WebRtc) (ur : Ptr) (auth : Option AdminAuthToken)
    → IsHistory (process_response e conn msg ur auth)
unfolding process_response
process_response-IsHistory e conn msg ur auth =
    search (call_parts, process_accept-IsHistory, process_group_accept-IsHistory) depth 30

pub process_call-IsHistory :
    (e : Env) (i : Input) (conn : Ptr) (msg : WebRtc) (ur : Ptr) (auth : Option AdminAuthToken)
    → IsHistory (process_call e i conn msg ur auth)
unfolding process_call
process_call-IsHistory e i conn msg ur auth =
    search (call_parts, check_call-IsHistory, process_request-IsHistory, process_response-IsHistory)
      depth 30
