-- ===== src/Rtm/Channel/Adding.antt =====
-- What Channel.Add and Channel.Remove do to the connections of the channels.
use kwmserver.Base.{
  ℕ, Bool, true, false, not, ◌&&◌, ◌||◌, String, Ptr, nil, update, ◌==◌, nat_eq, string_eq,
  if◌then◌else◌, Option, none, some, lookup, lookup-insert, lookup-remove, ◌≡◌, ◌≢◌, ◌⊎◌, inl, inr,
  refl, arith, eq_iff, Outcome, ok, fail, blocked, string_eq_refl,
}
use kwmserver.Api.{Payload}
use kwmserver.Rtm.World.{World, Channel, in_channel, send}
use kwmserver.Rtm.Group.{lock}
use kwmserver.Rtm.Channel.{add, store, register, remove_id, remove_from}
use kwmserver.Rtm.Channel.Laws.{add_rule, replaced_message}

-- The connections of channel `q` under `j` once `conn` is stored in channel `p` under `id`.
abbrev pub with_member : World → Ptr → String → Ptr → Ptr → String → Option Ptr
with_member w p id conn q j =
    if kwmserver.Base.nat_beq p q && id == j then some conn else in_channel w q j

store-in_channel :
    (replacing : Bool) (p : Ptr) (c : Channel) (id : String) (conn : Ptr) (w : World) (q : Ptr)
    (j : String)
    → c.connections ≡ (w.channel_objects p).connections
    → in_channel (store replacing p c id conn w).1 q j ≡ with_member w p id conn q j
unfolding store register
store-in_channel true p c id conn w q j e = ground (arith, lookup-insert id j conn c.connections)
store-in_channel false p c id conn w q j e = ground (arith, lookup-insert id j conn c.connections)

pub send-objects :
    (to : Ptr) (msg : Payload) (w : World) → (send to msg w).1.channel_objects ≡ w.channel_objects
unfolding send
send-objects to msg w = refl

same-in_channel :
    (w : World) (p : Ptr) (id : String) (conn q : Ptr) (j : String)
    → in_channel w p id ≡ some conn
    → in_channel w q j ≡ with_member w p id conn q j
same-in_channel w p id conn q j e = ground (arith, eq_iff id j)

-- The outcome of Add and what it means for the channels: added, or refused.
abbrev pub AddSpec : World → Ptr → String → Ptr → Outcome (Unit {0}) × World → Type 0
AddSpec w p id conn (ok u, w') =
    (q : Ptr) (j : String) → in_channel w' q j ≡ with_member w p id conn q j
AddSpec w p id conn (_, w') = (q : Ptr) (j : String) → in_channel w' q j ≡ in_channel w q j

store-AddSpec :
    (replacing : Bool) (p : Ptr) (c : Channel) (id : String) (conn : Ptr) (v w : World)
    → c.connections ≡ (w.channel_objects p).connections
    → v.channel_objects ≡ w.channel_objects
    → AddSpec w p id conn (store replacing p c id conn v)
unfolding store register
store-AddSpec true p c id conn v w e o =
    λ q j. ground (arith, lookup-insert id j conn c.connections, kwmserver.Base.ap (λ h. h q) o)
store-AddSpec false p c id conn v w e o =
    λ q j. ground (arith, lookup-insert id j conn c.connections, kwmserver.Base.ap (λ h. h q) o)

-- Add that returns no error puts the connection under the id, replacing what was there, and
-- changes no other entry of any channel; on every other outcome the entries of all channels stay.
pub add-AddSpec :
    (p : Ptr) (id : String) (conn : Ptr) (w : World) → AddSpec w p id conn (add p id conn w)
add-AddSpec p id conn w =
    let c = w.channel_objects p in
    add_rule (AddSpec w p id conn) p id conn w c refl (λ _ q j. refl) (λ _ q j. refl)
      (λ e q j. same-in_channel w p id conn q j e)
      (λ _. store-AddSpec false p c id conn w w refl refl) (λ q j. refl)
      (λ existing _ _ q j. ground arith)
      λ existing _ _.
        store-AddSpec true p c id conn _ w refl (send-objects existing (replaced_message c.id) w)

-- Remove of an unlocked channel takes out the id and nothing else.
pub remove_id-in_channel :
    (p : Ptr) (id : String) (w : World) (q : Ptr) (j : String)
    → (w.channel_objects p).locked ≡ false
    → ((remove_id p id w).0 ≡ ok tt)
      × (in_channel (remove_id p id w).1 q j
          ≡ (if kwmserver.Base.nat_beq p q && id == j then none else in_channel w q j))
unfolding remove_id remove_from lock
remove_id-in_channel p id w q j l =
    ground (arith, lookup-remove id j (w.channel_objects p).connections)
