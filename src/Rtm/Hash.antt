-- ===== src/Rtm/Hash.antt =====
-- Channel hashes: computeWebRTCChannelHash and checkWebRTCChannelHash of signaling/rtm/webrtc.go,
-- Channel.checkWebRTCMessage of signaling/rtm/channel.go.
pub mod Laws
pub mod Messages
mod Tests
use kwmserver.Base.{
  ℕ, String, Bool, true, false, not, ◌&&◌, ◌||◌, Option, none, some, List, [], ◌∷◌, ◌==◌, nat_eq,
  string_eq, if◌then◌else◌, ◌+++◌, string_lt, Outcome, ok, fail, Error,
}
use kwmserver.Api.{WebRtc}
use kwmserver.Rtm.World.{Env, Channel, ChannelConfig, bad}

-- The smaller of source and target is written first.
unfoldable pub compute_hash : Env → String → String → String → String → List ℕ
compute_hash e msg_type source target channel = e.hmac (
    msg_type
    +++ ((if string_lt source target then source +++ target else target +++ source) +++ channel))

-- hmac.Equal
unfoldable pub bytes_equal : List ℕ → List ℕ → Bool
bytes_equal [] [] = true
bytes_equal [] (y ∷ ys) = false
bytes_equal (x ∷ xs) [] = false
bytes_equal (x ∷ xs) (y ∷ ys) = x == y && bytes_equal xs ys

unfoldable pub check_hash : Env → List ℕ → String → String → String → String → Bool
check_hash e hash msg_type source target channel =
    bytes_equal hash (compute_hash e msg_type source target channel)

-- Is the group of a message another one than the channel's?
abbrev pub wrong_group : Option ChannelConfig → String → Bool
wrong_group none group = true
wrong_group (some config) group = not (config.group == group)

abbrev pub has_pipeline : Channel → Bool
has_pipeline c = kwmserver.Base.is_some c.pipeline

-- The last part of checkWebRTCMessage, with the decoded hash and the target to validate.
unfoldable pub check_targets : Env → String → String → WebRtc → List ℕ → Outcome (Unit {0})
check_targets e source target msg hash =
    if check_hash e hash msg.type source target msg.channel
    then ok tt
    else if check_hash e hash msg.type source msg.target msg.channel
    then ok tt
    else fail (bad "invalid hash" msg.id)

abbrev pub check_decoded : Env → Channel → String → WebRtc → Option (List ℕ) → Outcome (Unit {0})
check_decoded e c source msg none = fail (bad "hash decode error" msg.id)
check_decoded e c source msg (some hash) =
    if not (msg.group == "")
    then check_targets e source msg.group msg hash
    else if msg.target == ""
    then fail (bad "missing target" msg.id)
    else if has_pipeline c
    then ok tt
    else check_targets e source msg.target msg hash

unfoldable pub check_webrtc_message : Env → Channel → String → WebRtc → Outcome (Unit {0})
check_webrtc_message e c source msg =
    if not (msg.group == "") && wrong_group c.config msg.group
    then fail (bad "invalid channel for group" msg.id)
    else if msg.hash == ""
    then fail (bad "missing hash" msg.id)
    else check_decoded e c source msg (e.decode64 msg.hash)
