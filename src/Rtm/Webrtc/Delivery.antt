-- ===== src/Rtm/Webrtc/Delivery.antt =====
-- What connection.Send of signaling/connection/connection.go leaves in the queues.
use kwmserver.Base.{
  true, false, List, [], ◌∷◌, ◌++◌, length, ltb, Ptr, nat_eq, nat_beq, count_ptr, ◌≡◌, ◌≢◌, refl,
  ap, ◌∙◌, arith, ok, Bool-cases, inl, inr,
}
use kwmserver.Api.{Payload}
use kwmserver.Connection
use kwmserver.Rtm.World.{World, Conn, send, send_all}

-- An open connection whose queue has room.
pub record IsReady (c : Conn) : Type 0 where
  pub open_ : c.closed ≡ false
  pub room : ltb (length c.send) 256 ≡ true

pub send-delivers :
    (x : Ptr) (msg : Payload) (w : World)
    → IsReady (w.conns x)
    → ((send x msg w).0 ≡ ok tt) × (((send x msg w).1.conns x).send ≡ (w.conns x).send ++ msg ∷ [])
unfolding send Connection.raw_send
send-delivers x msg w ready = ground (arith, ready.open_, ready.room)

pub send-others :
    (x q : Ptr) (msg : Payload) (w : World) → q ≢ x → (send x msg w).1.conns q ≡ w.conns q
unfolding send
send-others x q msg w other = ground arith

pub send_all-others :
    (ps : List Ptr) (q : Ptr) (msg : Payload) (w : World)
    → count_ptr q ps ≡ 0
    → (send_all ps msg w).conns q ≡ w.conns q
unfolding send_all
send_all-others [] q msg w n = refl
send_all-others (p ∷ ps) q msg w n = elim (Bool-cases (nat_beq p q)) [
  | inl e ↦ absurd (ground arith)
  | inr e ↦
      send_all-others ps q msg (send p msg w).1 (ground arith)
      ∙ send-others p q msg w λ same. ground arith
]

pub send_all-delivers :
    (ps : List Ptr) (q : Ptr) (msg : Payload) (w : World)
    → count_ptr q ps ≡ 1
    → IsReady (w.conns q)
    → ((send_all ps msg w).conns q).send ≡ (w.conns q).send ++ msg ∷ []
unfolding send_all
send_all-delivers [] q msg w n ready = absurd (ground arith)
send_all-delivers (p ∷ ps) q msg w n ready = elim (Bool-cases (nat_beq p q)) [
  | inl e ↦
      let same : p ≡ q = ground arith in
      ap (λ (c : Conn). c.send)
        (send_all-others ps q msg (send p msg w).1 (ground arith)
          ∙ ap (λ x. (send x msg w).1.conns q) same)
      ∙ (send-delivers q msg w ready).1
  | inr e ↦
      let kept = send-others p q msg w λ same. ground arith in
      send_all-delivers ps q msg (send p msg w).1 (ground arith) (record {
        open_ = ap (λ (c : Conn). c.closed) kept ∙ ready.open_;
        room = ap (λ (c : Conn). ltb (length c.send) 256) kept ∙ ready.room;
      })
      ∙ ap (λ (c : Conn). c.send ++ msg ∷ []) kept
]

pub send_all-tables :
    (ps : List Ptr) (msg : Payload) (w : World)
    → ((send_all ps msg w).channels ≡ w.channels)
      × ((send_all ps msg w).channel_objects ≡ w.channel_objects)
unfolding send_all send
send_all-tables [] msg w = (refl, refl)
send_all-tables (p ∷ ps) msg w = send_all-tables ps msg (send p msg w).1
