-- ===== src/Rtm/Channel/Locked.antt =====
-- Channel.Add of signaling/rtm/channel.go without a replace handler, and its mutex.
use kwmserver.Base.{
  true, false, String, Ptr, Outcome, none, some, ◌≡◌, ◌≢◌, refl, arith, fail, blocked, plain,
}
use kwmserver.Rtm.World.{World, ChannelConfig, in_channel}
use kwmserver.Rtm.Group.{lock, connections_of}
use kwmserver.Rtm.Channel.{add, get, size, remove_id, remove_closed, cleanup}
use kwmserver.Rtm.Channel.Laws.{add_cases, with_config, replace_rule}

-- The operations that take the lock of a channel: on one that was left locked they wait for good and
-- change nothing. Pipeline, Forward to a connection that is given or a pipeline, and the check of a
-- message take no lock.
abbrev pub LockersBlock : Ptr → World → Type 0
LockersBlock p w =
    (id : String) (conn : Ptr)
    → (add p id conn w ≡ (blocked, w))
      × (remove_id p id w ≡ (blocked, w))
      × (remove_closed p id conn w ≡ (blocked, w))
      × (get p id w ≡ (blocked, w))
      × (size p w ≡ (blocked, w))
      × (cleanup p w ≡ (blocked, w))
      × (connections_of p w ≡ (blocked, w))

locked-LockersBlock : (p : Ptr) (w : World) → (w.channel_objects p).locked ≡ true → LockersBlock p w
unfolding add remove_id remove_closed get size cleanup connections_of lock
locked-LockersBlock p w l id conn = ground arith

abbrev IsJammed : Ptr → Outcome (Unit {0}) × World → Type 0
IsJammed p r = (r.0 ≡ fail (plain "id already exists")) × LockersBlock p r.1

-- On an open channel whose configuration has no replace handler, adding under an id that another
-- connection holds fails, and then Add, Remove, the close callback, Get, Size, Cleanup and Connections
-- of that channel block.
pub add_taken_blocks :
    (p : Ptr) (id : String) (conn existing : Ptr) (w : World) (f : ChannelConfig)
    → (w.channel_objects p).config ≡ some f
    → f.replace ≡ none
    → (w.channel_objects p).locked ≡ false
    → (w.channel_objects p).closed ≡ false
    → in_channel w p id ≡ some existing
    → existing ≢ conn
    → ((add p id conn w).0 ≡ fail (plain "id already exists")) × LockersBlock p (add p id conn w).1
add_taken_blocks p id conn existing w f set no_replace l d e other =
    let c = w.channel_objects p in
    let P = IsJammed p in
    add_cases P p id conn w c refl (λ h. cc (h, l)) (λ h. cc (h, d))
      (λ h. absurd (other (ground arith))) (λ h. cc (h, e))
      λ found _ _. with_config P p id conn w found c f set (
        replace_rule P p id conn w found f c (λ _. (refl, locked-LockersBlock p _ (ground arith)))
          λ h. cc (h, no_replace))
