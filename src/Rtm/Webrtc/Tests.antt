-- ===== src/Rtm/Webrtc/Tests.antt =====
-- The theorems on webrtc messages at concrete inputs.
use kwmserver.Base.{
  String, Ptr, ◌≡◌, ◌≢◌, refl, inr, Outcome, ok, fail, panic, rtm, no_session_for_user, some, none,
  true, [], ◌∷◌, ◌++◌, count_ptr, arith, lookup, nat_eq, string_eq, string_ne, if◌then◌else◌, ◌==◌,
}
use kwmserver.Api.{WebRtc, Accept, webrtc, raw}
use kwmserver.Rtm.World.{channel_default_config, in_channel, World, bad, Env, value}
use kwmserver.Rtm.Hash.{compute_hash, check_webrtc_message}
use kwmserver.Rtm.Hash.Messages.{Lawful, check-issued_direct}
use kwmserver.Rtm.Channel.Locked.{LockersBlock}
use kwmserver.Rtm.Webrtc.{
  process_webrtc, process_request, process_response, process_hangup, process_signal, signal_subtype,
  on_webrtc, profile_of, reply_channel,
}
use kwmserver.Rtm.Webrtc.Rules.{Refused, source-Refused, anonymous-Refused, on_webrtc_hides}
use kwmserver.Rtm.Webrtc.Request.{request_rings}
use kwmserver.Rtm.Webrtc.Answer.{answer_passes}
use kwmserver.Rtm.Webrtc.Delivery.{IsReady}
use kwmserver.Rtm.Webrtc.Response.{null_data_panics, second_accept_blocks}
use kwmserver.Rtm.Webrtc.Hangup.{hangup_leaves, signal_delivers}
use kwmserver.Rtm.Example.{
  encode, example_env, example_Lawful, example_world, example_channel, example_message,
  example_members, example_input,
}

-- What bob sends to alice, with the hash that was issued for the two.
abbrev from_bob : WebRtc
from_bob = record example_message {
  hash = encode (compute_hash example_env "webrtc" "alice" "bob" "*room");
}

from_bob_passes :
    check_webrtc_message example_env
      (example_channel channel_default_config example_members)
      "bob"
      from_bob
    ≡ ok tt
from_bob_passes =
    check-issued_direct example_Lawful (example_channel channel_default_config example_members)
      "bob" "alice" from_bob refl refl (string_ne "alice" "" refl) (inr refl)

abbrev spoofed : WebRtc
spoofed = record from_bob { source = "alice" }

source-Refused_example :
    Refused (process_webrtc example_env example_input 12 spoofed example_world) example_world
source-Refused_example =
    source-Refused example_env example_input 12 spoofed example_world (string_ne "alice" "" refl)

anonymous-Refused_example :
    Refused (process_webrtc example_env example_input 14 from_bob example_world) example_world
anonymous-Refused_example =
    anonymous-Refused example_env example_input 14 from_bob example_world refl

on_webrtc_hides_example :
    (on_webrtc example_env example_input 12 from_bob example_world).0
    ≢ fail (rtm no_session_for_user "target not found" 0)
on_webrtc_hides_example =
    on_webrtc_hides example_env example_input 12 from_bob example_world "target not found" 0

abbrev request : WebRtc
request = record example_message {
  subtype = "webrtc_call";
  target = "bob";
  initiator = true;
  channel = "";
  payload = none;
}

abbrev called_bob : WebRtc
called_bob = record request {
  id = 0;
  source = "alice";
  channel = "*r1";
  hash = example_env.encode64 (compute_hash example_env "webrtc" "alice" "bob" "*r1");
  payload = none;
  profile = some (profile_of none);
}

abbrev rung : Outcome (Unit {0}) × World
rung = process_request example_env example_input 11 request 1 none example_world

request_rings_example :
    (rung.0 ≡ ok tt)
    × (lookup "*r1" rung.1.channels ≡ some (record { since = 1000; channel = 30 }))
    × ((j : String) → in_channel rung.1 30 j ≡ (if "alice" == j then some 11 else none))
    × ((q : Ptr)
        → count_ptr q (12 ∷ 13 ∷ []) ≡ 1
        → q ≢ 11
        → IsReady (example_world.conns q)
        → (rung.1.conns q).send ≡ (example_world.conns q).send ++ webrtc called_bob ∷ [])
    × (count_ptr 11 (12 ∷ 13 ∷ []) ≡ 0
        → IsReady (example_world.conns 11)
        → (rung.1.conns 11).send ≡ reply_channel 7 "*r1" called_bob.hash none ∷ [])
    × ((q : Ptr) → count_ptr q (12 ∷ 13 ∷ []) ≡ 0 → q ≢ 11 → rung.1.conns q ≡ example_world.conns q)
request_rings_example =
    request_rings example_env example_input 11 request 1 none example_world 2 refl refl refl refl
      refl (unfold lookup in refl) (unfold lookup in refl)

-- Both connections of bob get the request.
bob_is_rung :
    ((rung.1.conns 12).send ≡ webrtc called_bob ∷ [])
    × ((rung.1.conns 13).send ≡ webrtc called_bob ∷ [])
bob_is_rung =
    let rings = request_rings_example.3 in
    (
      rings 12 refl (λ e. ground arith) (record { open_ = refl; room = refl }),
      rings 13 refl (λ e. ground arith) (record { open_ = refl; room = refl }),
    )

abbrev answer : WebRtc
answer = record request { target = "alice"; channel = "*r1"; hash = called_bob.hash }

answer_passes_example :
    check_webrtc_message example_env (example_channel channel_default_config []) "bob" answer
    ≡ ok tt
answer_passes_example =
    answer_passes example_env example_input 11 request 1 none example_world 2 12 refl refl refl refl
      refl (unfold lookup in refl) refl (λ e. ground arith) (record { open_ = refl; room = refl })
      example_Lawful (example_channel channel_default_config []) called_bob answer bob_is_rung.0
      refl refl refl refl (string_ne "alice" "" refl) refl

hash_filled : encode (compute_hash example_env "webrtc" "alice" "bob" "*room") ≢ ""
hash_filled = example_Lawful.encode-filled _ (unfold compute_hash in λ e. ground arith)

null_data_panics_example : (process_response example_env 12 from_bob 2 none example_world).0 ≡ panic
null_data_panics_example =
    null_data_panics example_env 12 from_bob 2 none example_world
      (record { since = 900; channel = 21 }) (raw "null") (string_ne "*room" "" refl) hash_filled
      refl (unfold lookup in refl) from_bob_passes refl

abbrev accepted : Accept
accepted = record { accept = true; state = ""; reason = "" }

abbrev accepting_env : Env
accepting_env = record example_env { decode_accept = λ j. value accepted }

accepting_Lawful : Lawful accepting_env
accepting_Lawful = record {
  decode-encode = example_Lawful.decode-encode;
  encode-filled = example_Lawful.encode-filled;
  hmac-filled = example_Lawful.hmac-filled;
}

second_accept_blocks_example :
    ((process_response accepting_env 13 from_bob 2 none example_world).0
      ≡ fail (bad "id already exists" 7))
    × LockersBlock 21 (process_response accepting_env 13 from_bob 2 none example_world).1
second_accept_blocks_example =
    second_accept_blocks accepting_env 13 from_bob 2 none example_world
      (record { since = 900; channel = 21 }) (raw "null") accepted 12 channel_default_config
      (string_ne "*room" "" refl) hash_filled refl refl (unfold lookup in refl)
      (check-issued_direct accepting_Lawful (example_channel channel_default_config example_members)
        "bob" "alice" from_bob refl refl (string_ne "alice" "" refl)
        (inr (unfold compute_hash in refl)))
      refl refl refl refl refl refl (unfold lookup in refl) λ e. ground arith

hangup_leaves_example :
    in_channel (process_hangup 21 "bob" from_bob (11, true) example_world).1 21 "bob" ≡ none
hangup_leaves_example = hangup_leaves 21 "bob" from_bob (11, true) example_world 21 "bob" refl

signal_delivers_example :
    let t = process_signal example_env signal_subtype 12 from_bob 2 example_world in
    (t.0 ≡ ok tt)
    × ((t.1.conns 11).send ≡ webrtc (record from_bob { source = "bob"; id = 0 }) ∷ [])
    × ((q : Ptr) → q ≢ 11 → t.1.conns q ≡ example_world.conns q)
signal_delivers_example =
    signal_delivers example_env 12 from_bob 2 example_world (record { since = 900; channel = 21 })
      11 (λ e. ground arith) (string_ne "s" "" refl) refl (string_ne "*room" "" refl) hash_filled
      (λ e. cc) (string_ne "alice" "" refl) (unfold lookup in refl) refl refl from_bob_passes
      (unfold lookup in refl) (λ e. ground arith) (record { open_ = refl; room = refl })
