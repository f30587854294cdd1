-- ===== src/Rtm/Hash/Tests.antt =====
-- The laws of the channel hash at concrete inputs.
use kwmserver.Base.{ℕ, ◌≡◌, ◌⊎◌, refl, inr, ok, some, true, false, List, string_lt, string_ne}
use kwmserver.Api.{WebRtc}
use kwmserver.Rtm.World.{channel_default_config}
use kwmserver.Rtm.Hash.{compute_hash, check_webrtc_message, wrong_group, has_pipeline}
use kwmserver.Rtm.Hash.Laws.{compute_hash_comm, compute_hash_splice}
use kwmserver.Rtm.Hash.Messages.{check-issued_direct, check-issued_group, check_sound}
use kwmserver.Rtm.Example.{
  encode, decode, example_env, example_Lawful, example_channel, example_message, example_members,
  example_group,
}

compute_hash_comm_example :
    compute_hash example_env "webrtc" "alice" "bob" "*room"
    ≡ compute_hash example_env "webrtc" "bob" "alice" "*room"
compute_hash_comm_example = compute_hash_comm example_env "webrtc" "alice" "bob" "*room"

-- "ab" with "cd", and "abc" with "d"
compute_hash_splice_example :
    compute_hash example_env "webrtc" "ab" "cd" "*room"
    ≡ compute_hash example_env "webrtc" "abc" "d" "*room"
compute_hash_splice_example =
    compute_hash_splice example_env "webrtc" "ab" "c" "d" "*room" (unfold string_lt in refl)
      (unfold string_lt in refl)

-- What bob sends to alice, with the hash that was issued for the two.
abbrev from_bob : WebRtc
from_bob = record example_message {
  hash = encode (compute_hash example_env "webrtc" "alice" "bob" "*room");
}

abbrev from_group : WebRtc
from_group = record example_message {
  group = "team";
  channel = "@team";
  hash = encode (compute_hash example_env "webrtc" "bob" "team" "@team");
}

check-issued_direct_example :
    check_webrtc_message example_env
      (example_channel channel_default_config example_members)
      "bob"
      from_bob
    ≡ ok tt
check-issued_direct_example =
    check-issued_direct example_Lawful (example_channel channel_default_config example_members)
      "bob" "alice" from_bob refl refl (string_ne "alice" "" refl) (inr refl)

check-issued_group_example :
    check_webrtc_message example_env
      (example_channel example_group example_members)
      "bob"
      from_group
    ≡ ok tt
check-issued_group_example =
    check-issued_group example_Lawful (example_channel example_group example_members) example_group
      "bob" from_group refl refl (string_ne "team" "" refl) refl

check_sound_example :
    ((from_bob.group ≡ "") ⊎ (wrong_group (some channel_default_config) from_bob.group ≡ false))
    × ((bytes : List ℕ) × (decode from_bob.hash ≡ some bytes)
        × ((bytes ≡ compute_hash example_env "webrtc" "bob" "" "*room")
            ⊎ ((bytes ≡ compute_hash example_env "webrtc" "bob" "alice" "*room")
                ⊎ ((from_bob.group ≡ "")
                    × (has_pipeline (example_channel channel_default_config example_members)
                        ≡ true)))))
check_sound_example =
    check_sound example_env (example_channel channel_default_config example_members) "bob" from_bob
      check-issued_direct_example
