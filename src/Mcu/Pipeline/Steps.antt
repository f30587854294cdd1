-- ===== src/Mcu/Pipeline/Steps.antt =====
-- A pipeline with its pending goroutines, its timers and the environment as a step relation, and
-- its reachable states.
use kwmserver.Base.{
  ℕ, Bool, true, false, List, [], ◌∷◌, ◌++◌, ◌==◌, nat_eq, String, Ptr, nil, ◌≡◌, ◌≢◌, ◌⊎◌, inl,
  inr, refl, arith, ◌||◌, Outcome, ok, fail,
}
use kwmserver.Mcu.State.{Pipeline, armed}
use kwmserver.Mcu.Pipeline.{
  Effect, reconnects, watches, resets, connect, on_connect, on_closed, watch, watcher_fires,
  reconnect, reconnector_fires, close,
}

pub record System : Type 0 where
  pub pipe : Pipeline
  pub tasks : List Effect

abbrev pub started : List Effect × Pipeline → List Effect → System
started (new, p) tasks = record { pipe = p; tasks = tasks ++ new }

abbrev pub connected : Outcome (List Effect) × Pipeline → List Effect → System
connected (ok new, p) tasks = record { pipe = p; tasks = tasks ++ new }
connected (_, p) tasks = record { pipe = p; tasks = tasks }

-- One goroutine runs: the rest of the tasks stay.
abbrev pub run_task : Effect → Pipeline → Pipeline
run_task reconnects p = reconnect p
run_task watches p = watch p
run_task resets p = p

-- What the server does by itself: a pending goroutine runs, or an armed timer fires.
pub data Internal : System → System → Type 0 where
  runs :
      (s : System) (before after : List Effect) (t : Effect)
      → s.tasks ≡ before ++ t ∷ after
      → Internal s (record { pipe = run_task t s.pipe; tasks = before ++ after })
  watcher_timer :
      (s : System) → s.pipe.watcher ≡ armed → Internal s (started (watcher_fires s.pipe) s.tasks)
  reconnector_timer :
      (s : System) (attached : Bool)
      → s.pipe.reconnector ≡ armed
      → Internal s (started (reconnector_fires attached s.pipe) s.tasks)

-- What others do: the channel connects or closes the pipeline, the MCU connects, or a connection
-- closes.
pub data Step : System → System → Type 0 where
  internal : {s t : System} → Internal s t → Step s t
  connects : (s : System) (attached : Bool) → Step s (connected (connect attached s.pipe) s.tasks)
  mcu_connects :
      (s : System) (conn : Ptr) → Step s (record { pipe = on_connect conn s.pipe; tasks = s.tasks })
  connection_closes : (s : System) (conn : Ptr) → Step s (started (on_closed conn s.pipe) s.tasks)
  closes : (s : System) → Step s (record { pipe = (close s.pipe).1; tasks = s.tasks })

pub data Reach (s : System) : System → Type 0 where
  here : Reach s s
  next : {t u : System} → Reach s t → Step t u → Reach s u

abbrev pub has_watches : List Effect → Bool
has_watches [] = false
has_watches (watches ∷ ts) = true
has_watches (reconnects ∷ ts) = has_watches ts
has_watches (resets ∷ ts) = has_watches ts

pub has_watches-append :
    (xs ys : List Effect) → has_watches (xs ++ ys) ≡ (has_watches xs || has_watches ys)
has_watches-append [] ys = refl
has_watches-append (watches ∷ xs) ys = refl
has_watches-append (reconnects ∷ xs) ys = has_watches-append xs ys
has_watches-append (resets ∷ xs) ys = has_watches-append xs ys

-- An open pipeline that was connected is watched, and one that is connecting has its timer set.
pub record IsGuarded (s : System) : Type 0 where
  pub watched :
      s.pipe.registered ≡ true
      → s.pipe.closed ≡ false
      → (s.pipe.watcher ≡ armed) ⊎ (has_watches s.tasks ≡ true)
  pub timed : s.pipe.connecting ≡ true → s.pipe.closed ≡ false → s.pipe.reconnector ≡ armed

runs-IsGuarded :
    (s : System) (before after : List Effect) (t : Effect)
    → s.tasks ≡ before ++ t ∷ after
    → IsGuarded s
    → IsGuarded (record { pipe = run_task t s.pipe; tasks = before ++ after })
unfolding reconnect watch
runs-IsGuarded s before after reconnects e g = ground (
  arith,
  has_watches-append before (reconnects ∷ after),
  has_watches-append before after,
  kwmserver.Base.ap has_watches e,
)
runs-IsGuarded s before after watches e g = ground arith
runs-IsGuarded s before after resets e g = ground (
  arith,
  has_watches-append before (resets ∷ after),
  has_watches-append before after,
  kwmserver.Base.ap has_watches e,
)

Internal-IsGuarded : {s t : System} → Internal s t → IsGuarded s → IsGuarded t
unfolding watcher_fires reconnector_fires
Internal-IsGuarded (runs s before after t e) g = runs-IsGuarded s before after t e g
Internal-IsGuarded (watcher_timer s e) g = ground (
  arith,
  has_watches-append s.tasks (reconnects ∷ watches ∷ []),
  has_watches-append s.tasks (watches ∷ []),
)
Internal-IsGuarded (reconnector_timer s attached e) g = ground (
  arith,
  has_watches-append s.tasks (reconnects ∷ []),
  has_watches-append s.tasks (watches ∷ resets ∷ []),
  has_watches-append s.tasks (watches ∷ []),
  has_watches-append s.tasks (resets ∷ []),
  has_watches-append s.tasks [],
)

-- Every step, of the server or of its environment, keeps the pipeline guarded.
pub Step-IsGuarded : {s t : System} → Step s t → IsGuarded s → IsGuarded t
unfolding connect on_connect on_closed close
Step-IsGuarded (internal i) g = Internal-IsGuarded i g
Step-IsGuarded (connects s attached) g = ground (
  arith,
  has_watches-append s.tasks (reconnects ∷ watches ∷ []),
  has_watches-append s.tasks (watches ∷ []),
)
Step-IsGuarded (mcu_connects s conn) g = ground arith
Step-IsGuarded (connection_closes s conn) g =
    ground (arith, has_watches-append s.tasks (reconnects ∷ []), has_watches-append s.tasks [])
Step-IsGuarded (closes s) g = ground arith

-- So it is guarded in whatever state it reaches from a guarded one.
pub Reach-IsGuarded : {s t : System} → IsGuarded s → Reach s t → IsGuarded t
Reach-IsGuarded g here = g
Reach-IsGuarded g (next r st) = Step-IsGuarded st (Reach-IsGuarded g r)
