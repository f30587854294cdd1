-- ===== src/Rtm/Chats/Members.antt =====
-- Chats (signaling/rtm/chats.go) and the members of their channel.
use kwmserver.Base.{
  ℕ, Heap, Bool, true, false, not, ◌&&◌, ◌||◌, String, Ptr, nil, ◌==◌, nat_eq, string_eq,
  if◌then◌else◌, Option, none, some, List, [], ◌∷◌, Dict, lookup, keep, map, mem_ptr, nat_beq,
  is_some, is_none, ltb, ◌≡◌, ◌≢◌, refl, sym, ap, ◌∙◌, arith, eq_iff, Outcome, ok, fail, panic,
  blocked, Action, continue_with, panics, pure, refuse_if, ◌>>◌, ignore_error, quiet, Option-cases,
  inl, inr,
}
use kwmserver.Api.{Chats, ChatsMessage, Payload}
use kwmserver.Rtm.World.{
  World, Channel, ChannelRecord, ChannelOp, Env, Input, Decoded, invalid, null, value,
  decode_payload, send, send_all, in_channel,
}
use kwmserver.Rtm.Group.{lock, connections_of}
use kwmserver.Rtm.Channel.{get}
use kwmserver.Rtm.Webrtc.Rules.{Refused, continue-Refused}
use kwmserver.Rtm.Chats.{
  process_chats, chat_guards, check_member, chat_channel, check_text, decoded_chats, deliver_chat,
  to_others, others_than, emit_chats,
}

-- Is a connection no member of a channel?
abbrev pub is_outside : World → Ptr → Ptr → Bool
is_outside w p x = not (mem_ptr x (map (λ m. m.1) (w.channel_objects p).connections))

module _ (x : Ptr) where
  -- The connection `x` is as in `w`, and so are the channels.
  record Untouched (w v : World) : Type 0 where
    same : v.conns x ≡ w.conns x
    objects : v.channel_objects ≡ w.channel_objects

  Untouched-trans : {u v w : World} → Untouched u v → Untouched v w → Untouched u w
  Untouched-trans a b = record { same = b.same ∙ a.same; objects = b.objects ∙ a.objects }

  send-Untouched :
      (to : Ptr) (msg : Payload) (w : World) → nat_beq to x ≡ false → Untouched w (send to msg w).1
  unfolding send
  send-Untouched to msg w h = record { same = ground arith; objects = refl }

  send_all-Untouched :
      (to : List Ptr) (msg : Payload) (w : World)
      → mem_ptr x to ≡ false
      → Untouched w (send_all to msg w)
  unfolding send_all
  send_all-Untouched [] msg w h = record { same = refl; objects = refl }
  send_all-Untouched (p ∷ ps) msg w h =
      Untouched-trans (send-Untouched p msg w (ground arith))
        (send_all-Untouched ps msg (send p msg w).1 (ground arith))

  mem_ptr-keep :
      (f : Ptr → Bool) (xs : List Ptr) → mem_ptr x xs ≡ false → mem_ptr x (keep f xs) ≡ false
  mem_ptr-keep f [] h = refl
  mem_ptr-keep f (y ∷ ys) h = ground (arith, mem_ptr-keep f ys)

  to_others-Untouched :
      (p conn : Ptr) (msg : Payload) (w : World)
      → is_outside w p x ≡ true
      → Untouched w (to_others p conn msg w).1
  unfolding to_others connections_of lock
  to_others-Untouched p conn msg w h =
      elim (kwmserver.Base.Bool-cases (w.channel_objects p).locked) [
        | inl l ↦ rw l (record { same = refl; objects = refl })
        | inr l ↦
            let members = (w.channel_objects p).connections in
            rw l (
              send_all-Untouched (others_than conn members) msg w
                (mem_ptr-keep (λ q. not (q == conn)) (map (λ m. m.1) members) (ground arith)))
      ]

  -- To go on after a call that touched nothing.
  continue-Untouched :
      {A B : Type 0} (f : A → Action World B) (w : World) (r : Outcome A × World)
      → Untouched w r.1
      → ((a : A) → r.0 ≡ ok a → Untouched r.1 (f a r.1).1)
      → Untouched w (continue_with f r).1
  continue-Untouched f w (ok a, v) u k = Untouched-trans u (k a refl)
  continue-Untouched f w (fail e, v) u k = u
  continue-Untouched f w (panic, v) u k = u
  continue-Untouched f w (blocked, v) u k = u

  nothing : (w v : World) → v ≡ w → Untouched w v
  nothing w v e = record { same = ap (λ z. z.conns x) e; objects = ap (λ z. z.channel_objects) e }

  quiet-same : {A : Type 0} (r : Outcome A × World) → (quiet r).1 ≡ r.1
  quiet-same (ok a, v) = refl
  quiet-same (fail e, v) = refl
  quiet-same (panic, v) = refl
  quiet-same (blocked, v) = refl

  sends-Untouched :
      (conn p : Ptr) (a b c : Payload) (w : World)
      → nat_beq conn x ≡ false
      → is_outside w p x ≡ true
      → Untouched w ((send conn a >> (to_others p conn b >> ignore_error (send conn c))) w).1
  sends-Untouched conn p a b c w ne out =
      let one = send-Untouched conn a w ne in
      let v = (send conn a w).1 in
      let inside : is_outside v p x ≡ true =
        ap (λ (h : Heap Channel). not (mem_ptr x (map (λ m. m.1) (h p).connections))) one.objects
        ∙ out in
      continue-Untouched (λ _. to_others p conn b >> ignore_error (send conn c)) w (send conn a w)
        one
        λ _ _.
          continue-Untouched (λ _. ignore_error (send conn c)) v (to_others p conn b v)
            (to_others-Untouched p conn b v inside)
            λ _ _.
              let u = (to_others p conn b v).1 in
              Untouched-trans (send-Untouched conn c u ne)
                (nothing (send conn c u).1 _ (quiet-same (send conn c u)))

  deliver-Untouched :
      (i : Input) (conn : Ptr) (ref : ℕ) (ur p : Ptr) (extra : ChatsMessage) (w : World)
      → nat_beq conn x ≡ false
      → is_outside w p x ≡ true
      → Untouched w (deliver_chat i conn ref ur p extra w).1
  unfolding deliver_chat
  deliver-Untouched i conn ref ur p extra w ne out = sends-Untouched conn p _ _ _ w ne out

  -- What only looks leaves the state as it is.
  refuse-same :
      (b : Bool) (e : kwmserver.Base.Error) (w : World) → (kwmserver.Base.refuse_if b e w).1 ≡ w
  refuse-same true e w = refl
  refuse-same false e w = refl

  guards-same : (msg : Chats) (ur : Ptr) (w : World) → (chat_guards msg ur w).1 ≡ w
  unfolding chat_guards
  guards-same msg ur w = ground arith

  member-same :
      (conn : Ptr) (msg : Chats) (ur p : Ptr) (w : World) → (check_member conn msg ur p w).1 ≡ w
  unfolding check_member get lock
  member-same conn msg ur p w = ground arith

  decoded-same : (id : ℕ) (d : Decoded ChatsMessage) (w : World) → (decoded_chats id d w).1 ≡ w
  decoded-same id invalid w = refl
  decoded-same id null w = refl
  decoded-same id (value extra) w = refl

  text-same : (id : ℕ) (extra : ChatsMessage) (w : World) → (check_text id extra w).1 ≡ w
  unfolding check_text
  text-same id extra w = ground arith

  -- The channel that a message names, and whether `x` is no member of it; a channel that is not
  -- there has no members.
  abbrev pub outside_at : World → Option ChannelRecord → Bool
  outside_at w none = true
  outside_at w (some r) = is_outside w r.channel x

  channel-outside :
      (msg : Chats) (w : World)
      → outside_at w (lookup msg.channel w.channels) ≡ true
      → ((chat_channel msg w).1 ≡ w)
        × ((p : Ptr) → (chat_channel msg w).0 ≡ ok p → is_outside w p x ≡ true)
  unfolding chat_channel
  channel-outside msg w h = elim (Option-cases (lookup msg.channel w.channels)) [
    | inl e ↦ rw (e, chat_channel) (refl, λ p k. cc)
    | inr (r, e) ↦ rw (e, chat_channel) (refl, λ p k. ground arith)
  ]

  look-Untouched :
      {A B : Type 0} (f : A → Action World B) (w : World) (r : Outcome A × World)
      → r.1 ≡ w
      → ((a : A) → r.0 ≡ ok a → Untouched w (f a w).1)
      → Untouched w (continue_with f r).1
  look-Untouched f w (ok a, v) e k = rw e (k a refl)
  look-Untouched f w (fail x', v) e k = nothing w v e
  look-Untouched f w (panic, v) e k = nothing w v e
  look-Untouched f w (blocked, v) e k = nothing w v e

  process-Untouched :
      (e : Env) (i : Input) (conn : Ptr) (msg : Chats) (w : World)
      → nat_beq conn x ≡ false
      → outside_at w (lookup msg.channel w.channels) ≡ true
      → Untouched w (process_chats e i conn msg w).1
  unfolding process_chats
  process-Untouched e i conn msg w ne out =
      let ur = (w.conns conn).binder in
      let found = channel-outside msg w out in
      look-Untouched _ w (refuse_if (ltb msg.version 0) _ w) (refuse-same _ _ w) λ _ _.
        look-Untouched _ w (refuse_if (not (msg.subtype == "chats_message")) _ w)
          (refuse-same _ _ w)
          λ _ _. look-Untouched _ w (chat_guards msg ur w) (guards-same msg ur w) λ _ _.
            look-Untouched _ w (chat_channel msg w) found.0 λ p here.
              look-Untouched _ w (check_member conn msg ur p w) (member-same conn msg ur p w) λ _ _.
                look-Untouched _ w
                  (decoded_chats msg.id (decode_payload e.decode_chats msg.payload) w)
                  (decoded-same _ _ w)
                  λ extra _.
                    look-Untouched _ w (check_text msg.id extra w) (text-same msg.id extra w)
                      λ text _. deliver-Untouched i conn msg.id ur p text w ne (found.1 p here)

-- A chats message changes nothing of a connection that is neither its sender nor in the channel that
-- the message names: nobody outside the channel is sent anything, whatever the message is.
pub chats_confined :
    (e : Env) (i : Input) (conn x : Ptr) (msg : Chats) (w : World)
    → nat_beq conn x ≡ false
    → outside_at x w (lookup msg.channel w.channels) ≡ true
    → (process_chats e i conn msg w).1.conns x ≡ w.conns x
chats_confined e i conn x msg w ne out = (process-Untouched x e i conn msg w ne out).same

-- The system message on who joined or left a channel changes nothing of a connection that is not
-- in the channel.
pub emit_confined :
    (i : Input) (conn p x : Ptr) (op : ChannelOp) (id : String) (w : World)
    → is_outside w p x ≡ true
    → (emit_chats i conn p op id w).1.conns x ≡ w.conns x
unfolding emit_chats
emit_confined i conn p x op id w out =
    (look-Untouched x _ w ((if (w.conns conn).binder == nil then panics else pure tt) w)
      (ground arith) λ _ _. to_others-Untouched x p conn _ w out).same

refuse-Refused :
    {A : Type 0} (b : Bool) (e : kwmserver.Base.Error) (f : Unit {0} → Action World A) (w : World)
    → Refused (f tt w) w
    → Refused (continue_with f (refuse_if b e w)) w
refuse-Refused true e f w h = (refl, refl)
refuse-Refused false e f w h = h

guards-Refused :
    {A : Type 0} (msg : Chats) (ur : Ptr) (f : Unit {0} → Action World A) (w : World)
    → Refused (f tt w) w
    → Refused (continue_with f (chat_guards msg ur w)) w
unfolding chat_guards
guards-Refused msg ur f w h = elim (kwmserver.Base.Bool-cases (ur == nil)) [
  | inl a ↦ rw a (refl, refl)
  | inr a ↦ rw a (refuse-Refused (msg.channel == "" || is_none msg.payload) _ f w h)
]

member-Refused :
    (conn : Ptr) (msg : Chats) (ur p : Ptr) (w : World)
    → (w.channel_objects p).locked ≡ false
    → in_channel w p (w.user_records ur).id ≢ some conn
    → conn ≢ nil
    → Refused (check_member conn msg ur p w) w
unfolding check_member get lock
member-Refused conn msg ur p w l out real = ground arith

chat_channel_lem :
    (msg : Chats) (w : World) (r : ChannelRecord)
    → lookup msg.channel w.channels ≡ some r
    → chat_channel msg w ≡ (ok r.channel, w)
unfolding chat_channel
chat_channel_lem msg w r e = rw (e, chat_channel) refl

-- A connection that is not the one of its user in the channel, which exists and is not left locked,
-- is refused with an error, and nothing changes.
pub stranger-Refused :
    (e : Env) (i : Input) (conn : Ptr) (msg : Chats) (w : World) (r : ChannelRecord)
    → lookup msg.channel w.channels ≡ some r
    → (w.channel_objects r.channel).locked ≡ false
    → in_channel w r.channel (w.user_records (w.conns conn).binder).id ≢ some conn
    → conn ≢ nil
    → Refused (process_chats e i conn msg w) w
unfolding process_chats
stranger-Refused e i conn msg w r found l out real =
    let ur = (w.conns conn).binder in
    refuse-Refused (ltb msg.version 0) _ _ w (
      refuse-Refused (not (msg.subtype == "chats_message")) _ _ w (
        guards-Refused msg ur _ w (
          rw (chat_channel_lem msg w r found) (
            continue-Refused _ (check_member conn msg ur r.channel w) w
              (member-Refused conn msg ur r.channel w l out real)))))
