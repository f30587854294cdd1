-- ===== src/Rtm/Close/Histories.antt =====
-- Connections and channels over any history: connections open, send and close, channels are made,
-- connections are added to them and removed, and other steps touch neither.
use kwmserver.Base.{
  ℕ, Bool, true, false, not, ◌&&◌, ◌||◌, List, [], ◌∷◌, String, Ptr, nil, Heap, update, ◌==◌,
  nat_eq, string_eq, if◌then◌else◌, Option, none, some, lookup, lookup-empty, ◌≡◌, ◌≢◌, refl, ap,
  ◌∙◌, arith, Outcome, ok, fail, panic, blocked, ignore_error, Bool-cases, inl, inr,
}
use kwmserver.Api.{Payload}
use kwmserver.Connection
use kwmserver.Rtm.World.{
  World, Conn, ChannelConfig, ClosedFunc, channel_remove, pipeline_closed, Env, send, in_channel,
}
use kwmserver.Rtm.Group.{lock}
use kwmserver.Rtm.Channel.{add, new_channel, remove_id, remove_from, remove_closed}
use kwmserver.Rtm.Close.{close_connection, run_callback, run_callbacks, marked_closed}
use kwmserver.Rtm.Close.Wired.{
  IsWired, has_callback, add-IsWired, remove_from-IsWired, send-IsWired, remove_closed_unlocked,
}
use kwmserver.Rtm.Close.Leaves.{IsUnlocked, close_leaves_channels}

-- A step that touches neither who is in which channel, nor whether a connection is closed and what
-- it runs then.
pub record IsCalm (w v : World) : Type 0 where
  pub same_members : (p : Ptr) (id : String) → in_channel v p id ≡ in_channel w p id
  pub same_closed : (p : Ptr) → (v.conns p).closed ≡ (w.conns p).closed
  pub same_callbacks : (p : Ptr) → (v.conns p).on_closed_callbacks ≡ (w.conns p).on_closed_callbacks

-- One step. A new connection is one that no channel has.
pub data Step : World → World → Type 0 where
  opens :
      (w : World) (conn : Ptr) (c : Conn)
      → ((p : Ptr) (id : String) → in_channel w p id ≢ some conn)
      → Step w (record w { conns = update w.conns conn c })
  sends : (w : World) (conn : Ptr) (msg : Payload) → Step w (send conn msg w).1
  creates :
      (w : World) (e : Env) (id : String) (config : Option ChannelConfig)
      → Step w (new_channel e id config w).1
  calms : (w v : World) → IsCalm w v → Step w v
  adds : (w : World) (p : Ptr) (id : String) (conn : Ptr) → Step w (add p id conn w).1
  removes : (w : World) (p : Ptr) (id : String) → Step w (remove_id p id w).1
  closes : (w : World) (now : ℕ) (conn : Ptr) → Step w (close_connection now conn w).1

pub data Reach (w : World) : World → Type 0 where
  here : Reach w w
  next : {u v : World} → Reach w u → Step u v → Reach w v

opens-IsWired :
    (w : World) (conn : Ptr) (c : Conn)
    → ((p : Ptr) (id : String) → in_channel w p id ≢ some conn)
    → IsWired w
    → IsWired (record w { conns = update w.conns conn c })
opens-IsWired w conn c unused g = record {
  wired = λ q j x here open_. ground (arith, g.wired q j x, unused q j);
}

calms-IsWired : (w v : World) → IsCalm w v → IsWired w → IsWired v
calms-IsWired w v c g = record {
  wired = λ q j x here open_. ground (
    arith,
    c.same_members q j,
    c.same_closed x,
    ap (has_callback q j x) (c.same_callbacks x),
    g.wired q j x,
  );
}

creates-IsWired :
    (w : World) (e : Env) (id : String) (config : Option ChannelConfig)
    → IsWired w
    → IsWired (new_channel e id config w).1
unfolding new_channel
creates-IsWired w e id config g = record {
  wired = λ q j x here open_. ground (arith, g.wired q j x, lookup-empty {V = Ptr} j);
}

remove_id_unlocked :
    (w : World) (p : Ptr) (id : String)
    → (w.channel_objects p).locked ≡ false
    → remove_id p id w ≡ remove_from p (w.channel_objects p) id nil w
unfolding remove_id lock
remove_id_unlocked w p id l = ground arith

pub remove_id_locked :
    (w : World) (p : Ptr) (id : String)
    → (w.channel_objects p).locked ≡ true
    → remove_id p id w ≡ (blocked, w)
unfolding remove_id lock
remove_id_locked w p id l = ground arith

removes-IsWired : (w : World) (p : Ptr) (id : String) → IsWired w → IsWired (remove_id p id w).1
removes-IsWired w p id g = elim (Bool-cases (w.channel_objects p).locked) [
  | inl l ↦ rw (remove_id_locked w p id l) g
  | inr l ↦ rw (remove_id_unlocked w p id l) (remove_from-IsWired p id nil w g)
]

callback-IsWired :
    (conn : Ptr) (cb : ClosedFunc) (w : World) → IsWired w → IsWired (run_callback conn cb w).1
unfolding run_callback remove_closed lock
callback-IsWired conn (channel_remove p id d) w g = elim (Bool-cases (w.channel_objects p).locked) [
  | inl l ↦ rw l g
  | inr l ↦ rw (remove_closed_unlocked p id d w l) (remove_from-IsWired p id d w g)
]
callback-IsWired conn (pipeline_closed pipe) w g = record { wired = g.wired }

after_callback-IsWired :
    (f : Unit {0} → World → Outcome (Unit {0}) × World) (r : Outcome (Unit {0}) × World)
    → IsWired r.1
    → ((v : World) → IsWired v → IsWired (f tt v).1)
    → IsWired (kwmserver.Base.continue_with f r).1
after_callback-IsWired f (ok tt, v) h k = k v h
after_callback-IsWired f (fail e, v) h k = h
after_callback-IsWired f (panic, v) h k = h
after_callback-IsWired f (blocked, v) h k = h

callbacks-IsWired :
    (conn : Ptr) (cbs : List ClosedFunc) (w : World)
    → IsWired w
    → IsWired (run_callbacks conn cbs w).1
unfolding run_callbacks
callbacks-IsWired conn [] w g = g
callbacks-IsWired conn (cb ∷ cbs) w g =
    after_callback-IsWired _ (run_callback conn cb w) (callback-IsWired conn cb w g)
      λ v h. callbacks-IsWired conn cbs v h

closes-IsWired :
    (w : World) (now : ℕ) (conn : Ptr) → IsWired w → IsWired (close_connection now conn w).1
unfolding close_connection Connection.close
closes-IsWired w now conn g =
    callbacks-IsWired conn (Connection.close now (w.conns conn)).1 (marked_closed now conn w)
      (record { wired = λ q j x here open_. ground (arith, g.wired q j x) })

-- Every step, of opening, sending, making a channel, adding, removing and closing, or one that touches
-- neither channels nor closings, keeps for each open connection that is in a channel the callback that
-- removes it when it closes.
pub Step-IsWired : {v w : World} → Step v w → IsWired v → IsWired w
Step-IsWired (opens w conn c unused) g = opens-IsWired w conn c unused g
Step-IsWired (sends w conn msg) g = send-IsWired conn msg w g
Step-IsWired (creates w e id config) g = creates-IsWired w e id config g
Step-IsWired (calms w v c) g = calms-IsWired w v c g
Step-IsWired (adds w p id conn) g = add-IsWired p id conn w g
Step-IsWired (removes w p id) g = removes-IsWired w p id g
Step-IsWired (closes w now conn) g = closes-IsWired w now conn g

Reach-IsWired : {v w : World} → IsWired v → Reach v w → IsWired w
Reach-IsWired g here = g
Reach-IsWired g (next r s) = Step-IsWired s (Reach-IsWired g r)

empty-IsWired : (w : World) → ((p : Ptr) (id : String) → in_channel w p id ≡ none) → IsWired w
empty-IsWired w e = record { wired = λ q j x here open_. ground (arith, e q j) }

-- After any history from a server whose channels are empty, an open connection that is closed is,
-- once Close has returned, in no channel, and Close does return, if no channel was left locked.
pub reached_close_leaves :
    {v w : World} (now : ℕ) (conn : Ptr)
    → ((p : Ptr) (id : String) → in_channel v p id ≡ none)
    → Reach v w
    → IsUnlocked w
    → (w.conns conn).closed ≡ false
    → ((close_connection now conn w).0 ≡ ok tt)
      × ((p : Ptr) (id : String) → in_channel (close_connection now conn w).1 p id ≢ some conn)
reached_close_leaves {v} {w} now conn empty r u open_ =
    close_leaves_channels now conn w (Reach-IsWired (empty-IsWired v empty) r) u open_
