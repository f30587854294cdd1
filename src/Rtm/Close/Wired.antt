-- ===== src/Rtm/Close/Wired.antt =====
-- The close callbacks that Channel.Add registers, and the operations of signaling/rtm/channel.go.
use kwmserver.Base.{
  ℕ, Bool, true, false, not, ◌&&◌, ◌||◌, List, [], ◌∷◌, ◌++◌, String, Ptr, nil, update, ◌==◌,
  nat_eq, string_eq, if◌then◌else◌, Option, none, some, Dict, lookup, lookup-insert, lookup-remove,
  ◌≡◌, ◌≢◌, ◌⊎◌, refl, arith, eq_iff, Outcome, ok, ignore_error, fail, quiet, continue_with,
  Bool-cases, Option-cases, inl, inr,
}
use kwmserver.Api.{Payload}
use kwmserver.Connection
use kwmserver.Rtm.World.{
  World, Channel, ClosedFunc, channel_remove, pipeline_closed, send, set_channel, in_channel,
}
use kwmserver.Rtm.Group.{lock}
use kwmserver.Rtm.Channel.Laws.{add_rule, replaced_message}
use kwmserver.Rtm.Channel.{add, store, register, remove_from, remove_closed, delete_from}

abbrev pub has_callback : Ptr → String → Ptr → List ClosedFunc → Bool
has_callback p id conn [] = false
has_callback p id conn (channel_remove q j c ∷ cbs) =
    (p == q && (id == j && conn == c)) || has_callback p id conn cbs
has_callback p id conn (pipeline_closed pipe ∷ cbs) = has_callback p id conn cbs

-- Each open connection that is in a channel will be removed from it when it closes.
pub record IsWired (w : World) : Type 0 where
  pub wired :
      (p : Ptr) (id : String) (conn : Ptr)
      → in_channel w p id ≡ some conn
      → (w.conns conn).closed ≡ false
      → has_callback p id conn (w.conns conn).on_closed_callbacks ≡ true

has_callback-append :
    (p : Ptr) (id : String) (conn : Ptr) (xs ys : List ClosedFunc)
    → has_callback p id conn (xs ++ ys) ≡ (has_callback p id conn xs || has_callback p id conn ys)
has_callback-append p id conn [] ys = refl
has_callback-append p id conn (channel_remove q j c ∷ xs) ys =
    ground (arith, has_callback-append p id conn xs ys)
has_callback-append p id conn (pipeline_closed pipe ∷ xs) ys = has_callback-append p id conn xs ys

-- Sending changes neither the callbacks of a connection nor whether it is closed.
pub send_keeps :
    (q : Ptr) (msg : Payload) (w : World) (p : Ptr)
    → (((send q msg w).1.conns p).on_closed_callbacks ≡ (w.conns p).on_closed_callbacks)
      × (((send q msg w).1.conns p).closed ≡ (w.conns p).closed)
      × ((send q msg w).1.channel_objects ≡ w.channel_objects)
unfolding send Connection.raw_send
send_keeps q msg w p = ground arith

pub send-IsWired : (q : Ptr) (msg : Payload) (w : World) → IsWired w → IsWired (send q msg w).1
send-IsWired q msg w g = record {
  wired = λ p id conn here open_. ground (arith, send_keeps q msg w conn, g.wired p id conn);
}

store_objects :
    (replacing : Bool) (p : Ptr) (c : Channel) (id : String) (conn : Ptr) (w : World) (q : Ptr)
    → ((store replacing p c id conn w).1.channel_objects q
        ≡ update w.channel_objects p
            (record c { connections = kwmserver.Base.insert id conn c.connections })
            q)
      × ((store replacing p c id conn w).1.conns q
          ≡ update w.conns conn (Connection.on_closed (channel_remove p id conn) (w.conns conn)) q)
unfolding store register
store_objects true p c id conn w q = ground arith
store_objects false p c id conn w q = ground arith

store-IsWired :
    (replacing : Bool) (p : Ptr) (c : Channel) (id : String) (conn : Ptr) (w : World)
    → c.connections ≡ (w.channel_objects p).connections
    → IsWired w
    → IsWired (store replacing p c id conn w).1
unfolding Connection.on_closed
store-IsWired replacing p c id conn w same g = record {
  wired = λ q j d here open_. ground (
    arith,
    store_objects replacing p c id conn w q,
    store_objects replacing p c id conn w d,
    lookup-insert id j conn c.connections,
    has_callback-append q j d (w.conns conn).on_closed_callbacks (channel_remove p id conn ∷ []),
    eq_iff id j,
    g.wired q j d,
  );
}

locked-IsWired :
    (p : Ptr) (c : Channel) (w : World)
    → c.connections ≡ (w.channel_objects p).connections
    → IsWired w
    → IsWired (set_channel p (record c { locked = true }) w)
locked-IsWired p c w same g = record { wired = λ q j d here open_. ground (arith, g.wired q j d) }

-- Add keeps every open connection wired, on each of its branches.
pub add-IsWired :
    (p : Ptr) (id : String) (conn : Ptr) (w : World) → IsWired w → IsWired (add p id conn w).1
add-IsWired p id conn w g =
    let c = w.channel_objects p in
    add_rule (λ r. IsWired r.1) p id conn w c refl (λ _. g) (λ _. g) (λ _. g)
      (λ _. store-IsWired false p c id conn w refl g) g
      (λ existing _ _. locked-IsWired p c w refl g)
      λ existing _ _.
        store-IsWired true p c id conn _
          (ground (arith, send_keeps existing (replaced_message c.id) w conn))
          (send-IsWired existing (replaced_message c.id) w g)

-- What Channel.remove leaves behind, with the lock held.
delete_from_keeps :
    (p : Ptr) (c : Channel) (id : String) (w : World) (q : Ptr)
    → ((delete_from p c id w).conns q ≡ w.conns q)
      × ((delete_from p c id w).channel_objects q
          ≡ update w.channel_objects p
              (record c { connections = kwmserver.Base.remove id c.connections })
              q)
delete_from_keeps p c id w q = ground arith

module _ (p : Ptr) (id : String) (d : Ptr) (w : World) where
  pub remove_from_keeps :
      (q : Ptr) (j : String) (x : Ptr)
      → let r = remove_from p (w.channel_objects p) id d w in
        (r.1.conns q ≡ w.conns q)
        × ((r.1.channel_objects q).locked ≡ (w.channel_objects q).locked)
        × (in_channel r.1 q j ≡ some x
            → (in_channel w q j ≡ some x) × ((p == q && (id == j && d == x)) ≡ false))
  unfolding remove_from
  remove_from_keeps q j x = ground (
    arith,
    delete_from_keeps p (w.channel_objects p) id w q,
    lookup-remove id j (w.channel_objects p).connections,
    eq_iff id j,
  )

  pub remove_closed_unlocked :
      (w.channel_objects p).locked ≡ false
      → ignore_error (remove_closed p id d) w
        ≡ (ok tt, (remove_from p (w.channel_objects p) id d w).1)
  unfolding remove_closed lock remove_from
  remove_closed_unlocked l = ground arith

-- A removal, of Channel.Remove or of a close callback, keeps every open connection wired.
pub remove_from-IsWired :
    (p : Ptr) (id : String) (d : Ptr) (w : World)
    → IsWired w
    → IsWired (remove_from p (w.channel_objects p) id d w).1
remove_from-IsWired p id d w g = record {
  wired = λ q j x here open_.
      ground
        (arith, remove_from_keeps p id d w q j x, remove_from_keeps p id d w x j x, g.wired q j x);
}
