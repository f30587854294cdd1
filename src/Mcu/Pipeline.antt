-- ===== src/Mcu/Pipeline.antt =====
-- signaling/mcu/pipeline.go: the control connection of a pipeline with its watcher and reconnect
-- timers. Each function is one critical section. The goroutines that it starts with `go` are
-- returned as tasks; whether Manager.Attach succeeds is an argument.
pub mod Steps
pub mod Settles
pub mod Recovers
mod Tests
use kwmserver.Base.{
  Bool, true, false, not, ◌&&◌, ◌||◌, List, [], ◌∷◌, ◌++◌, ◌==◌, nat_eq, if◌then◌else◌, Ptr, nil,
  Outcome, ok, fail, plain,
}
use kwmserver.Mcu.State.{Pipeline, Timer, unset, armed, stopped}

-- go p.reconnect(), go p.watch(), and the call of the reset handler
pub data Effect : Type 0 where
  reconnects watches resets : Effect

abbrev pub attached_or_reconnects : Bool → List Effect
attached_or_reconnects true = []
attached_or_reconnects false = reconnects ∷ []

-- Connect. `attached` says that Attach returned no error.
unfoldable pub connect : Bool → Pipeline → Outcome (List Effect) × Pipeline
connect attached p =
    if p.closed
    then (fail (plain "pipeline is closed"), p)
    else (ok (attached_or_reconnects attached ++ watches ∷ []), record p { registered = true })

-- onConnect, called by the manager with the new connection
unfoldable pub on_connect : Ptr → Pipeline → Pipeline
on_connect conn p = record p { connecting = false; connection = conn }

-- onClosed, registered with the connection
unfoldable pub on_closed : Ptr → Pipeline → List Effect × Pipeline
on_closed conn p =
    if not (conn == p.connection)
    then ([], p)
    else if p.connecting || p.closed
    then ([], p)
    else (reconnects ∷ [], record p { connection = nil })

-- watch: the old timer is stopped and a new one of 10 seconds set.
unfoldable pub watch : Pipeline → Pipeline
watch p = record p { watcher = armed }

-- The function of the watcher timer
unfoldable pub watcher_fires : Pipeline → List Effect × Pipeline
watcher_fires p = if p.closed then ([], record p { watcher = unset }) else (
  (if p.connection == nil && not p.connecting then reconnects ∷ [] else []) ++ watches ∷ [],
  record p { watcher = unset },
)

-- reconnect: schedules an attach in 3 seconds.
unfoldable pub reconnect : Pipeline → Pipeline
reconnect p = if p.connecting then p else record p { connecting = true; reconnector = armed }

-- p.watcher.Stop() leaves the field set.
abbrev pub stop_set : Timer → Timer
stop_set unset = unset
stop_set armed = stopped
stop_set stopped = stopped

abbrev pub watches_if_set : Timer → List Effect
watches_if_set unset = []
watches_if_set armed = watches ∷ []
watches_if_set stopped = watches ∷ []

-- The function of the reconnect timer
unfoldable pub reconnector_fires : Bool → Pipeline → List Effect × Pipeline
reconnector_fires attached p =
    if not p.connecting || p.closed
    then ([], record p { reconnector = unset })
    else if attached
    then (
      watches_if_set p.watcher ++ (if p.registered then resets ∷ [] else []),
      record p { reconnector = unset; connecting = false; watcher = stop_set p.watcher },
    )
    else (reconnects ∷ [], record p { reconnector = unset; connecting = false })

-- onText: whether the data goes to the text handler
unfoldable pub on_text : Ptr → Pipeline → Bool
on_text conn p = conn == p.connection && not p.closed

-- Close, and the connection that the caller detaches and closes next, or nil
unfoldable pub close : Pipeline → Ptr × Pipeline
close p = (
  p.connection,
  record p { connection = nil; closed = true; reconnector = unset; watcher = unset },
)
