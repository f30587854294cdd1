-- ===== src/Rtm/Close/Leaves.antt =====
-- What closing a connection does to the channels.
use kwmserver.Base.{
  ℕ, true, false, List, [], ◌∷◌, String, Ptr, nat_eq, string_eq, some, ◌≡◌, ◌≢◌, refl, arith,
  eq_iff, ok,
}
use kwmserver.Connection
use kwmserver.Rtm.World.{in_channel, World, ClosedFunc, channel_remove, pipeline_closed}
use kwmserver.Rtm.Channel.{remove_from}
use kwmserver.Rtm.Close.{
  close_connection, run_callback, run_callbacks, pipeline_lost, marked_closed,
}
use kwmserver.Rtm.Close.Wired.{IsWired, has_callback, remove_from_keeps, remove_closed_unlocked}

-- No channel was left locked.
pub record IsUnlocked (w : World) : Type 0 where
  pub unlocked : (p : Ptr) → (w.channel_objects p).locked ≡ false

-- The callbacks that are left will remove the connection from each channel that still has it.
abbrev pub Covered : Ptr → List ClosedFunc → World → Type 0
Covered conn cbs w =
    (p : Ptr) (id : String) → in_channel w p id ≡ some conn → has_callback p id conn cbs ≡ true

-- What one callback leaves: no lock, and in the channels less than before.
pub record Runs (conn : Ptr) (cb : ClosedFunc) (w : World) : Type 0 where
  pub after : World
  pub runs : run_callback conn cb w ≡ (ok tt, after)
  pub unlocked : IsUnlocked after
  pub leaves :
      (q : Ptr) (j : String)
      → in_channel after q j ≡ some conn
      → (in_channel w q j ≡ some conn) × (has_callback q j conn (cb ∷ []) ≡ false)

callback-Runs : (conn : Ptr) (cb : ClosedFunc) (w : World) → IsUnlocked w → Runs conn cb w
unfolding run_callback
callback-Runs conn (channel_remove p id d) w u = record {
  after = (remove_from p (w.channel_objects p) id d w).1;
  runs = remove_closed_unlocked p id d w (u.unlocked p);
  unlocked = record {
    unlocked = λ q. ground (arith, remove_from_keeps p id d w q id conn, u.unlocked q);
  };
  leaves =
      λ q j here. ground (arith, remove_from_keeps p id d w q j conn, eq_iff id j, eq_iff j id);
}
callback-Runs conn (pipeline_closed pipe) w u = record {
  after = pipeline_lost pipe conn w;
  runs = refl;
  unlocked = record { unlocked = λ q. u.unlocked q };
  leaves = λ q j here. (here, refl);
}

callbacks_leave :
    (conn : Ptr) (cbs : List ClosedFunc) (w : World)
    → IsUnlocked w
    → Covered conn cbs w
    → ((run_callbacks conn cbs w).0 ≡ ok tt)
      × ((p : Ptr) (id : String) → in_channel (run_callbacks conn cbs w).1 p id ≢ some conn)
unfolding run_callbacks
callbacks_leave conn [] w u c = (refl, λ p id here. cc (c p id here))
callbacks_leave conn (cb ∷ cbs) w u c =
    let r = callback-Runs conn cb w u in
    rw r.runs (
      callbacks_leave conn cbs r.after r.unlocked
        λ p id here. ground (arith, r.leaves p id here, c p id))

-- A connection that was wired and open is, once Close has returned, in no channel, and Close does
-- return: as long as no channel was left locked.
pub close_leaves_channels :
    (now : ℕ) (conn : Ptr) (w : World)
    → IsWired w
    → IsUnlocked w
    → (w.conns conn).closed ≡ false
    → ((close_connection now conn w).0 ≡ ok tt)
      × ((p : Ptr) (id : String) → in_channel (close_connection now conn w).1 p id ≢ some conn)
unfolding close_connection Connection.close
close_leaves_channels now conn w g u open_ =
    callbacks_leave conn (Connection.close now (w.conns conn)).1 (marked_closed now conn w)
      (record { unlocked = λ p. u.unlocked p })
      λ p id here. ground (arith, g.wired p id conn here open_)
