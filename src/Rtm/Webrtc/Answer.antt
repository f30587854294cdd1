-- ===== src/Rtm/Webrtc/Answer.antt =====
-- Answers to call requests of signaling/rtm/webrtc.go.
use kwmserver.Base.{
  true, false, Ptr, nat_eq, string_eq, Option, none, some, List, [], ◌∷◌, ◌++◌, count_ptr, subst,
  sym, ◌∙◌, lookup, ◌≡◌, ◌≢◌, ap, ok, inr,
}
use kwmserver.Api.{AdminAuthToken, WebRtc, webrtc, Payload}
use kwmserver.Rtm.World.{World, Env, Input, Channel, Conn}
use kwmserver.Rtm.Hash.{check_webrtc_message}
use kwmserver.Rtm.Hash.Messages.{Lawful, check-issued_direct}
use kwmserver.Rtm.Webrtc.Delivery.{IsReady, send_all-delivers}
use kwmserver.Rtm.Webrtc.{process_request, may_create}
use kwmserver.Rtm.Webrtc.Request.{call_message, called, called_conns, rung_lem}

webrtc-inj : {a b : WebRtc} → ◌≡◌ {A = Payload} (webrtc a) (webrtc b) → a ≡ b
webrtc-inj h = cc

last-inj : (xs : List Payload) (a b : Payload) → xs ++ a ∷ [] ≡ xs ++ b ∷ [] → a ≡ b
last-inj [] a b h = cc
last-inj (x ∷ xs) a b h = last-inj xs a b cc

module _ (e : Env) (i : Input) (conn : Ptr) (msg : WebRtc) (ur : Ptr) (auth : Option AdminAuthToken)
    (w : World) where
  -- What a call request puts into the queue of a connection of its target carries a hash that lets the
  -- target answer the source that it names, on the channel that it names, under the conditions under
  -- which the request rings that connection.
  pub answer_passes :
      (tr q : Ptr)
      → w.mcum ≡ false
      → msg.channel ≡ ""
      → msg.hash ≡ ""
      → msg.payload ≡ none
      → may_create auth ≡ true
      → lookup msg.target w.users ≡ some tr
      → count_ptr q (w.user_records tr).connections ≡ 1
      → q ≢ conn
      → IsReady (w.conns q)
      → (l : Lawful e) (c : Channel) (got answer : WebRtc)
      → ((process_request e i conn msg ur auth w).1.conns q).send
        ≡ (w.conns q).send ++ webrtc got ∷ []
      → answer.type ≡ got.type
      → answer.channel ≡ got.channel
      → answer.hash ≡ got.hash
      → answer.target ≡ got.source
      → (w.user_records ur).id ≢ ""
      → answer.group ≡ ""
      → check_webrtc_message e c msg.target answer ≡ ok tt
  answer_passes tr q off ch hh d m known once other ready l c got answer queued t k g p f n =
      let targets = (w.user_records tr).connections in
      let sent = webrtc (call_message e i conn msg ur auth w) in
      let put : ((process_request e i conn msg ur auth w).1.conns q).send
          ≡ (w.conns q).send ++ sent ∷ [] =
        ap (λ y. (y.1.conns q).send) (rung_lem e i conn msg ur auth w tr off ch hh d m known)
        ∙ send_all-delivers targets q sent (called e i conn msg ur auth w) once
            (subst IsReady (sym (called_conns e i conn msg ur auth w q other)) ready)
        ∙ ap (λ (x : Conn). x.send ++ sent ∷ []) (called_conns e i conn msg ur auth w q other) in
      let same : got ≡ call_message e i conn msg ur auth w =
        webrtc-inj (last-inj (w.conns q).send (webrtc got) sent (sym queued ∙ put)) in
      check-issued_direct l c msg.target (w.user_records ur).id answer n
        (p ∙ ap (λ (x : WebRtc). x.source) same) f
        (inr (
          rw (t ∙ ap (λ (x : WebRtc). x.type) same, k ∙ ap (λ (x : WebRtc). x.channel) same)
            (g ∙ ap (λ (x : WebRtc). x.hash) same)))
