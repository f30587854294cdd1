-- ===== src/Mcu/Pipeline/Settles.antt =====
-- The goroutines and timers of a closed pipeline (signaling/mcu/pipeline.go).
use kwmserver.Base.{
  ℕ, zero, suc, ◌+◌, ◌*◌, ◌≤◌, ◌<◌, true, [], ◌∷◌, length, length-append, ◌≡◌, refl, arith, ap, ◌∙◌,
}
use kwmserver.Mcu.State.{Pipeline, Timer, unset, armed, stopped}
use kwmserver.Mcu.Pipeline.{
  Effect, reconnects, watches, resets, watch, watcher_fires, reconnect, reconnector_fires,
}
use kwmserver.Mcu.Pipeline.Steps.{
  System, Internal, runs, watcher_timer, reconnector_timer, run_task,
}

abbrev pub weight : Timer → ℕ
weight unset = 0
weight armed = 1
weight stopped = 0

-- Two for each pending goroutine, one for each armed timer.
abbrev pub work : System → ℕ
work s = 2 * length s.tasks + weight s.pipe.reconnector + weight s.pipe.watcher

-- A run of `n` internal steps
pub data Runs : ℕ → System → System → Type 0 where
  stop : (s : System) → Runs zero s s
  step : {n : ℕ} {s t u : System} → Internal s t → Runs n t u → Runs (suc n) s u

weight-le : (t : Timer) → weight t ≤ 1
weight-le unset = omega arith
weight-le armed = omega arith
weight-le stopped = omega arith

run_task-weight :
    (t : Effect) (p : Pipeline)
    → weight (run_task t p).reconnector + weight (run_task t p).watcher
      ≤ weight p.reconnector + weight p.watcher + 1
unfolding reconnect watch
run_task-weight reconnects p = ground (arith, weight-le p.reconnector)
run_task-weight watches p = ground (arith, weight-le p.watcher)
run_task-weight resets p = omega arith

run_task-closed : (t : Effect) (p : Pipeline) → (run_task t p).closed ≡ p.closed
unfolding reconnect watch
run_task-closed reconnects p = ground arith
run_task-closed watches p = refl
run_task-closed resets p = refl

closed_step :
    {s t : System}
    → Internal s t
    → s.pipe.closed ≡ true
    → (t.pipe.closed ≡ true) × (work t < work s)
unfolding watcher_fires reconnector_fires
closed_step (runs s before after t e) c = (
  run_task-closed t s.pipe ∙ c,
  omega (
    arith,
    run_task-weight t s.pipe,
    ap length e,
    length-append before after,
    length-append before (t ∷ after),
  ),
)
closed_step (watcher_timer s e) c = ground (arith, length-append s.tasks [])
closed_step (reconnector_timer s attached e) c = ground (arith, length-append s.tasks [])

-- However the goroutines and timers of a closed pipeline are scheduled, they take at most `work`
-- steps, and the pipeline stays closed.
pub closed_settles :
    {n : ℕ} {s t : System}
    → Runs n s t
    → s.pipe.closed ≡ true
    → (t.pipe.closed ≡ true) × (n + work t ≤ work s)
closed_settles (stop s) c = (c, omega arith)
closed_settles (step i r) c =
    let one = closed_step i c in
    let rest = closed_settles r one.0 in (rest.0, omega (arith, one.1, rest.1))
