-- ===== src/Rtm/Close.antt =====
-- Connection.Close with the callbacks that it runs: those of Channel.Add and of
-- Pipeline.onConnect. Close runs them one after the other in the closing goroutine.
pub mod Wired
pub mod Leaves
pub mod Histories
pub mod Membership
pub mod Simulates
mod Tests
use kwmserver.Base.{
  ℕ, List, [], ◌∷◌, ◌++◌, String, Ptr, update, Outcome, ok, ◌>>=◌, ◌>>◌, pure, modify, ignore_error,
  map,
}
use kwmserver.Connection
use kwmserver.Mcu.Pipeline.{Effect, reconnects, watches, resets, on_closed}
use kwmserver.Rtm.World.{
  World, Call, ClosedFunc, channel_remove, pipeline_closed, Task, pipeline_reconnect,
}
use kwmserver.Rtm.Channel.{remove_closed}

abbrev pub reconnect_tasks : Ptr → List Effect → List Task
reconnect_tasks pipe [] = []
reconnect_tasks pipe (reconnects ∷ es) = pipeline_reconnect pipe ∷ reconnect_tasks pipe es
reconnect_tasks pipe (watches ∷ es) = reconnect_tasks pipe es
reconnect_tasks pipe (resets ∷ es) = reconnect_tasks pipe es

unfoldable pub pipeline_lost : Ptr → Ptr → World → World
pipeline_lost pipe conn w =
    let r = on_closed conn (w.pipelines pipe) in
    record w {
      pipelines = update w.pipelines pipe r.1;
      tasks = w.tasks ++ reconnect_tasks pipe r.0;
    }

-- cb(c) for the connection `closing`
unfoldable pub run_callback : Ptr → ClosedFunc → Call (Unit {0})
unfolding pipeline_lost
run_callback closing (channel_remove p id conn) = ignore_error (remove_closed p id conn)
run_callback closing (pipeline_closed pipe) = modify (pipeline_lost pipe closing)

unfoldable pub run_callbacks : Ptr → List ClosedFunc → Call (Unit {0})
run_callbacks closing [] = pure tt
run_callbacks closing (cb ∷ cbs) = run_callback closing cb >> run_callbacks closing cbs

-- The world with the connection marked closed and its callbacks taken.
abbrev pub marked_closed : ℕ → Ptr → World → World
marked_closed now conn w = record w {
  conns = update w.conns conn (Connection.close now (w.conns conn)).0;
}

unfoldable pub close_connection : ℕ → Ptr → Call (Unit {0})
close_connection now conn w =
    run_callbacks conn (Connection.close now (w.conns conn)).1 (marked_closed now conn w)
