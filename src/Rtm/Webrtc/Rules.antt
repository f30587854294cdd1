-- ===== src/Rtm/Webrtc/Rules.antt =====
-- The checks of processWebRTCMessage and onWebRTC in signaling/rtm/webrtc.go.
use kwmserver.Base.{
  ℕ, Bool, true, false, not, ◌&&◌, ◌||◌, String, Ptr, nil, ◌==◌, nat_eq, string_eq, if◌then◌else◌,
  Option, none, some, Dict, lookup, ◌≡◌, ◌≢◌, refl, arith, eq_iff, Outcome, ok, fail, panic,
  blocked, Error, plain, rtm, ErrorId, no_session_for_user, access_restricted, create_restricted,
  bad_message, continue_with, Action, refuse_if, string_ne, is_some, Bool-cases, inl, inr,
}
use kwmserver.Api.{AdminAuthToken, WebRtc}
use kwmserver.Rtm.World.{World, Env, Input, bad}
use kwmserver.Rtm.Webrtc.{
  process_webrtc, process_group, process_call, process_signal, check_group, check_call,
  check_signal, dispatch, subtype_of, Subtype, group_subtype, call_subtype, hangup_subtype,
  signal_subtype, unknown_subtype, validate_restricted, auth_of, on_webrtc, hide_unknown_session,
}

abbrev pub is_fail {ℓ} : {A : Type ℓ} → Outcome A → Bool
is_fail (fail e) = true
is_fail (ok a) = false
is_fail panic = false
is_fail blocked = false

-- An error, and the state as it was.
abbrev pub Refused : {S A : Type 0} → Outcome A × S → S → Type 0
Refused r s = (is_fail r.0 ≡ true) × (r.1 ≡ s)

pub continue-Refused :
    {S A B : Type 0} (f : A → Action S B) (r : Outcome A × S) (s : S)
    → Refused r s
    → Refused (continue_with f r) s
continue-Refused f (ok a, t) s h = cc (h.0)
continue-Refused f (fail e, t) s h = (refl, h.1)
continue-Refused f (panic, t) s h = cc (h.0)
continue-Refused f (blocked, t) s h = cc (h.0)

module _ (e : Env) (i : Input) (conn : Ptr) (msg : WebRtc) (ur : Ptr) (w : World) where
  spoofed_dispatch :
      (auth : Option AdminAuthToken) (t : Subtype)
      → (msg.source == "") ≡ false
      → Refused (dispatch e i conn msg ur auth t w) w
  unfolding process_group process_call process_signal
  spoofed_dispatch auth group_subtype h =
      continue-Refused _ (check_group ur msg w) w (unfold check_group in ground arith)
  spoofed_dispatch auth call_subtype h =
      continue-Refused _ (check_call ur msg w) w (unfold check_call in ground arith)
  spoofed_dispatch auth hangup_subtype h =
      continue-Refused _ (check_signal ur msg w) w (unfold check_signal in ground arith)
  spoofed_dispatch auth signal_subtype h =
      continue-Refused _ (check_signal ur msg w) w (unfold check_signal in ground arith)
  spoofed_dispatch auth unknown_subtype h = (refl, refl)

  anonymous_dispatch :
      (auth : Option AdminAuthToken) (t : Subtype)
      → ur ≡ nil
      → Refused (dispatch e i conn msg ur auth t w) w
  unfolding process_group process_call process_signal
  anonymous_dispatch auth group_subtype h =
      continue-Refused _ (check_group ur msg w) w (unfold check_group in ground arith)
  anonymous_dispatch auth call_subtype h =
      continue-Refused _ (check_call ur msg w) w (unfold check_call in ground arith)
  anonymous_dispatch auth hangup_subtype h =
      continue-Refused _ (check_signal ur msg w) w (unfold check_signal in ground arith)
  anonymous_dispatch auth signal_subtype h =
      continue-Refused _ (check_signal ur msg w) w (unfold check_signal in ground arith)
  anonymous_dispatch auth unknown_subtype h = (refl, refl)

module _ (e : Env) (i : Input) (conn : Ptr) (msg : WebRtc) (w : World) where
  -- What processWebRTCMessage does after the version and the profile are checked.
  abbrev pub accepted : Outcome (Option AdminAuthToken) × World → Outcome (Unit {0}) × World
  accepted r =
      continue_with
        (λ auth. dispatch e i conn msg (w.conns conn).binder auth (subtype_of msg.subtype)) r

  process_webrtc_lem : process_webrtc e i conn msg w ≡ (
      if is_some msg.profile
      then (fail (bad "profile cannot be set by client" msg.id), w)
      else accepted (validate_restricted (auth_of w (w.conns conn).binder) msg w))
  unfolding process_webrtc validate_restricted
  process_webrtc_lem = ground arith

  process-Refused :
      ((auth : Option AdminAuthToken) (t : Subtype)
        → Refused (dispatch e i conn msg (w.conns conn).binder auth t w) w)
      → Refused (process_webrtc e i conn msg w) w
  unfolding validate_restricted
  process-Refused h =
      ground
        (arith, process_webrtc_lem, h (auth_of w (w.conns conn).binder) (subtype_of msg.subtype))

  -- A client cannot speak for another user: a message that names a source is refused.
  pub source-Refused : msg.source ≢ "" → Refused (process_webrtc e i conn msg w) w
  source-Refused h = process-Refused λ auth t.
      spoofed_dispatch e i conn msg (w.conns conn).binder w auth t
        (ground (arith, eq_iff msg.source ""))

  -- A connection without a user record gets nothing done.
  pub anonymous-Refused : (w.conns conn).binder ≡ nil → Refused (process_webrtc e i conn msg w) w
  anonymous-Refused h =
      process-Refused λ auth t. anonymous_dispatch e i conn msg (w.conns conn).binder w auth t h

  -- onWebRTC never tells a client that a user has no session.
  pub on_webrtc_hides :
      (text : String) (ref : ℕ)
      → (on_webrtc e i conn msg w).0 ≢ fail (rtm no_session_for_user text ref)
  unfolding on_webrtc
  on_webrtc_hides text ref = go (process_webrtc e i conn msg w)
    where
      go :
          (r : Outcome (Unit {0}) × World)
          → (hide_unknown_session r).0 ≢ fail (rtm no_session_for_user text ref)
      go (fail (rtm no_session_for_user m k), v) = λ p. cc
      go (fail (rtm bad_message m k), v) = λ p. cc
      go (fail (rtm access_restricted m k), v) = λ p. cc
      go (fail (rtm create_restricted m k), v) = λ p. cc
      go (fail (rtm kwmserver.Base.server_error m k), v) = λ p. cc
      go (fail (plain m), v) = λ p. cc
      go (ok u, v) = λ p. cc
      go (panic, v) = λ p. cc
      go (blocked, v) = λ p. cc
