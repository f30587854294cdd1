-- ===== src/Rtm/Hash/Messages.antt =====
-- Which messages checkWebRTCMessage lets pass.
use kwmserver.Base.{
  ℕ, String, true, false, List, [], string_eq, some, ◌≡◌, ◌≢◌, ◌⊎◌, arith, eq_iff, ok, inl, inr,
  Option-cases,
}
use kwmserver.Api.{WebRtc}
use kwmserver.Rtm.World.{Env, Channel, ChannelConfig}
use kwmserver.Rtm.Hash.{
  compute_hash, check_targets, check_decoded, check_webrtc_message, wrong_group, has_pipeline,
}
use kwmserver.Rtm.Hash.Laws.{check_hash_iff, compute_hash_comm}

-- What the program relies on of encoding/base64 and crypto/hmac: decoding gives back what was
-- encoded, a MAC has bytes, and only no bytes are encoded as the empty text.
pub record Lawful (e : Env) : Type 0 where
  pub decode-encode : (bytes : List ℕ) → e.decode64 (e.encode64 bytes) ≡ some bytes
  pub encode-filled : (bytes : List ℕ) → bytes ≢ [] → e.encode64 bytes ≢ ""
  pub hmac-filled : (text : String) → e.hmac text ≢ []

issued-filled :
    {e : Env} (l : Lawful e) (msg_type s t channel : String)
    → e.encode64 (compute_hash e msg_type s t channel) ≢ ""
unfolding compute_hash
issued-filled l msg_type s t channel = l.encode-filled _ (l.hmac-filled _)

-- A message to a single target passes if its hash is the one that the server issued for the two
-- parties, in either order, on the channel that the message names.
pub check-issued_direct :
    {e : Env} (l : Lawful e) (c : Channel) (user peer : String) (msg : WebRtc)
    → msg.group ≡ ""
    → msg.target ≡ peer
    → peer ≢ ""
    → (msg.hash ≡ e.encode64 (compute_hash e msg.type user peer msg.channel))
      ⊎ (msg.hash ≡ e.encode64 (compute_hash e msg.type peer user msg.channel))
    → check_webrtc_message e c user msg ≡ ok tt
unfolding check_webrtc_message check_targets
check-issued_direct {e} l c user peer msg g t p h = ground (
  arith,
  eq_iff msg.group "",
  eq_iff msg.target "",
  eq_iff msg.hash "",
  issued-filled l msg.type user peer msg.channel,
  issued-filled l msg.type peer user msg.channel,
  l.decode-encode (compute_hash e msg.type user peer msg.channel),
  l.decode-encode (compute_hash e msg.type peer user msg.channel),
  compute_hash_comm e msg.type user peer msg.channel,
  check_hash_iff e (compute_hash e msg.type user peer msg.channel) msg.type user peer msg.channel,
)

-- A message to a group passes on the channel of that group, whatever its target, if its hash is
-- the one that the server issued for the sender and the group.
pub check-issued_group :
    {e : Env} (l : Lawful e) (c : Channel) (config : ChannelConfig) (user : String) (msg : WebRtc)
    → c.config ≡ some config
    → config.group ≡ msg.group
    → msg.group ≢ ""
    → msg.hash ≡ e.encode64 (compute_hash e msg.type user msg.group msg.channel)
    → check_webrtc_message e c user msg ≡ ok tt
unfolding check_webrtc_message check_targets
check-issued_group {e} l c config user msg cfg g filled h = ground (
  arith,
  eq_iff msg.group "",
  eq_iff config.group msg.group,
  eq_iff msg.hash "",
  issued-filled l msg.type user msg.group msg.channel,
  l.decode-encode (compute_hash e msg.type user msg.group msg.channel),
  check_hash_iff e (compute_hash e msg.type user msg.group msg.channel) msg.type user msg.group
      msg.channel,
)

-- Nothing else passes: the hash of a message that passes decodes to the issued hash of the sender
-- with the group or with the target, unless the message has no group and a pipeline validates it;
-- and a message with a group passes only on the channel of that group.
pub check_sound :
    (e : Env) (c : Channel) (user : String) (msg : WebRtc)
    → check_webrtc_message e c user msg ≡ ok tt
    → ((msg.group ≡ "") ⊎ (wrong_group c.config msg.group ≡ false))
      × ((bytes : List ℕ) × (e.decode64 msg.hash ≡ some bytes)
          × ((bytes ≡ compute_hash e msg.type user msg.group msg.channel)
              ⊎ ((bytes ≡ compute_hash e msg.type user msg.target msg.channel)
                  ⊎ ((msg.group ≡ "") × (has_pipeline c ≡ true)))))
unfolding check_webrtc_message
check_sound e c user msg h = elim (Option-cases (e.decode64 msg.hash)) [
  | inl bad ↦ absurd (ground (arith, eq_iff msg.group ""))
  | inr (bytes, good) ↦
      (ground (arith, eq_iff msg.group ""), (bytes, good, targets bytes (ground arith)))
]
  where
    targets :
        (bytes : List ℕ)
        → check_decoded e c user msg (some bytes) ≡ ok tt
        → (bytes ≡ compute_hash e msg.type user msg.group msg.channel)
          ⊎ ((bytes ≡ compute_hash e msg.type user msg.target msg.channel)
              ⊎ ((msg.group ≡ "") × (has_pipeline c ≡ true)))
    targets bytes k =
        unfold check_targets in
        ground (
          arith,
          eq_iff msg.group "",
          check_hash_iff e bytes msg.type user msg.group msg.channel,
          check_hash_iff e bytes msg.type user msg.target msg.channel,
        )
