-- ===== src/Rtm/Channel/Laws.antt =====
-- The branches of Channel.Add, and what they do to a channel.
use kwmserver.Base.{
  true, false, String, Ptr, ◌==◌, nat_eq, string_eq, Option, none, some, lookup, ◌≡◌, ◌≢◌, sym,
  subst, ap, ◌∙◌, arith, Outcome, ok, fail, blocked, panic, plain, Bool-cases, Option-cases, inl,
  inr,
}
use kwmserver.Api.{Payload, no_extra}
use kwmserver.Connection
use kwmserver.Rtm.World.{
  World, Channel, ChannelConfig, on_group_replace as group_handler, send, set_channel,
}
use kwmserver.Rtm.Group.{lock, on_group_replace, channel_reply}
use kwmserver.Rtm.Channel.{add, add_to, add_replacing, store}

abbrev pub replaced_message : String → Payload
replaced_message channel = channel_reply channel (record no_extra { replaced = true })

on_group_replace_lem :
    (channel : String) (old : Ptr) (w : World)
    → on_group_replace channel old w ≡ (ok tt, (send old (replaced_message channel) w).1)
unfolding on_group_replace send Connection.raw_send
on_group_replace_lem channel old w = ground arith

module _ (p : Ptr) (id : String) (conn : Ptr) (w : World) where
  add_locked : (w.channel_objects p).locked ≡ true → add p id conn w ≡ (blocked, w)
  unfolding add lock
  add_locked l = ground arith

  add_unlocked :
      (w.channel_objects p).locked ≡ false
      → (w.channel_objects p).closed ≡ false
      → add p id conn w ≡ add_to p (w.channel_objects p) id conn w
  unfolding add lock
  add_unlocked l d = ground arith

  add_closed :
      (w.channel_objects p).locked ≡ false
      → (w.channel_objects p).closed ≡ true
      → add p id conn w ≡ (fail (plain "channel is closed"), w)
  unfolding add lock
  add_closed l d = ground arith

  module _ (c : Channel) where
    add_to_fresh : lookup id c.connections ≡ none → add_to p c id conn w ≡ store false p c id conn w
    unfolding add_to
    add_to_fresh e = rw (e, add_to)

    add_to_same :
        (existing : Ptr)
        → lookup id c.connections ≡ some existing
        → (conn == existing) ≡ true
        → add_to p c id conn w ≡ (ok tt, w)
    unfolding add_to
    add_to_same existing e s = rw (e, s, add_to)

    add_to_taken :
        (existing : Ptr)
        → lookup id c.connections ≡ some existing
        → (conn == existing) ≡ false
        → add_to p c id conn w ≡ add_replacing c.config p c id existing conn w
    unfolding add_to
    add_to_taken existing e s = rw (e, s, add_to)

  refused_lem :
      (existing : Ptr) (f : ChannelConfig) (c : Channel)
      → f.replace ≡ none
      → add_replacing (some f) p c id existing conn w
        ≡ (fail (plain "id already exists"), set_channel p (record c { locked = true }) w)
  unfolding add_replacing
  refused_lem existing f c e = rw (e, add_replacing)

  replaced_lem :
      (existing : Ptr) (f : ChannelConfig) (c : Channel)
      → f.replace ≡ some group_handler
      → add_replacing (some f) p c id existing conn w
        ≡ store true p c id conn (send existing (replaced_message c.id) w).1
  unfolding add_replacing
  replaced_lem existing f c e = rw (e, add_replacing, on_group_replace_lem c.id existing w)

-- Add on a channel that is open and does not have the id.
pub add_fresh :
    (p : Ptr) (id : String) (conn : Ptr) (w : World) (c : Channel)
    → w.channel_objects p ≡ c
    → c.locked ≡ false
    → c.closed ≡ false
    → lookup id c.connections ≡ none
    → add p id conn w ≡ store false p c id conn w
add_fresh p id conn w c here l d e =
    add_unlocked p id conn w (rw here l) (rw here d)
    ∙ ap (λ (x : Channel). add_to p x id conn w) here
    ∙ add_to_fresh p id conn w c e

module _ {ℓ} (P : Outcome (Unit {0}) × World → Type ℓ) (p : Ptr) (id : String) (conn : Ptr)
    (w : World) where
  to : {a b : Outcome (Unit {0}) × World} → a ≡ b → P b → P a
  to e h = subst P (sym e) h

  pub replace_rule :
      (existing : Ptr) (f : ChannelConfig) (c : Channel)
      → (f.replace ≡ none
          → P (fail (plain "id already exists"), set_channel p (record c { locked = true }) w))
      → (f.replace ≡ some group_handler
          → P (store true p c id conn (send existing (replaced_message c.id) w).1))
      → P (add_replacing (some f) p c id existing conn w)
  replace_rule existing f c refused replaced = elim (Option-cases f.replace) [
    | inl e ↦ to (refused_lem p id conn w existing f c e) (refused e)
    | inr (group_handler, e) ↦ to (replaced_lem p id conn w existing f c e) (replaced e)
  ]

  -- To prove something of Add: its branches.
  pub add_cases :
      (c : Channel)
      → w.channel_objects p ≡ c
      → (c.locked ≡ true → P (blocked, w))
      → (c.closed ≡ true → P (fail (plain "channel is closed"), w))
      → (lookup id c.connections ≡ some conn → P (ok tt, w))
      → (lookup id c.connections ≡ none → P (store false p c id conn w))
      → ((existing : Ptr)
          → lookup id c.connections ≡ some existing
          → conn ≢ existing
          → P (add_replacing c.config p c id existing conn w))
      → P (add p id conn w)
  add_cases c here stuck shut same fresh taken = elim (Bool-cases c.locked) [
    | inl l ↦ to (add_locked p id conn w (rw here l)) (stuck l)
    | inr l ↦ elim (Bool-cases c.closed) [
      | inl d ↦ to (add_closed p id conn w (rw here l) (rw here d)) (shut d)
      | inr d ↦
          to
            (add_unlocked p id conn w (rw here l) (rw here d)
              ∙ ap (λ (x : Channel). add_to p x id conn w) here)
            (elim (Option-cases (lookup id c.connections)) [
              | inl e ↦ to (add_to_fresh p id conn w c e) (fresh e)
              | inr (existing, e) ↦ elim (Bool-cases (conn == existing)) [
                | inl s ↦ to (add_to_same p id conn w c existing e s) (same (ground arith))
                | inr s ↦
                    to (add_to_taken p id conn w c existing e s) (taken existing e (ground arith))
              ]
            ])
    ]
  ]

  -- Where a channel has no configuration, Add reads through nil.
  unset_rule :
      (existing : Ptr) (c : Channel)
      → c.config ≡ none
      → P (panic, w)
      → P (add_replacing c.config p c id existing conn w)
  unfolding add_replacing
  unset_rule existing c e h =
      to (ap (λ (x : Option ChannelConfig). add_replacing x p c id existing conn w) e) h

  pub with_config :
      (existing : Ptr) (c : Channel) (f : ChannelConfig)
      → c.config ≡ some f
      → P (add_replacing (some f) p c id existing conn w)
      → P (add_replacing c.config p c id existing conn w)
  with_config existing c f set =
      to (ap (λ (x : Option ChannelConfig). add_replacing x p c id existing conn w) set)

  -- Its branches with those of a replacement.
  pub add_rule :
      (c : Channel)
      → w.channel_objects p ≡ c
      → (c.locked ≡ true → P (blocked, w))
      → (c.closed ≡ true → P (fail (plain "channel is closed"), w))
      → (lookup id c.connections ≡ some conn → P (ok tt, w))
      → (lookup id c.connections ≡ none → P (store false p c id conn w))
      → P (panic, w)
      → ((existing : Ptr)
          → lookup id c.connections ≡ some existing
          → conn ≢ existing
          → P (fail (plain "id already exists"), set_channel p (record c { locked = true }) w))
      → ((existing : Ptr)
          → lookup id c.connections ≡ some existing
          → conn ≢ existing
          → P (store true p c id conn (send existing (replaced_message c.id) w).1))
      → P (add p id conn w)
  add_rule c here stuck shut same fresh unset refused replaced =
      add_cases c here stuck shut same fresh λ existing e other. elim (Option-cases c.config) [
        | inl n ↦ unset_rule existing c n unset
        | inr (f, set) ↦ with_config existing c f set (
            replace_rule existing f c (λ _. refused existing e other)
              (λ _. replaced existing e other))
      ]
