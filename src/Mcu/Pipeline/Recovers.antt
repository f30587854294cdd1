-- ===== src/Mcu/Pipeline/Recovers.antt =====
-- An open pipeline without connection (signaling/mcu/pipeline.go).
use kwmserver.Base.{
  Bool, true, false, List, [], ◌∷◌, ◌++◌, nil, ◌≡◌, inl, inr, refl, arith, ap, Bool-cases, ◌||◌,
}
use kwmserver.Mcu.State.{armed}
use kwmserver.Mcu.Pipeline.{
  Effect, reconnects, watches, resets, watch, watcher_fires, reconnect, reconnector_fires,
}
use kwmserver.Mcu.Pipeline.Steps.{
  System, Internal, runs, watcher_timer, reconnector_timer, started, has_watches, IsGuarded,
}

pub data Internals (s : System) : System → Type 0 where
  here : Internals s s
  then : {t u : System} → Internals s t → Internal t u → Internals s u

abbrev pub has_resets : List Effect → Bool
has_resets [] = false
has_resets (resets ∷ ts) = true
has_resets (reconnects ∷ ts) = has_resets ts
has_resets (watches ∷ ts) = has_resets ts

has_resets-append : (xs ys : List Effect) → has_resets (xs ++ ys) ≡ (has_resets xs || has_resets ys)
has_resets-append [] ys = refl
has_resets-append (resets ∷ xs) ys = refl
has_resets-append (reconnects ∷ xs) ys = has_resets-append xs ys
has_resets-append (watches ∷ xs) ys = has_resets-append xs ys

-- A state whose pipeline is open, connected once, and has its reset handler about to run.
abbrev pub Recovered : System → Type 0
Recovered s = (u : System) × Internals s u × (has_resets u.tasks ≡ true) × (u.pipe.closed ≡ false)

attaches :
    (r s : System)
    → Internals r s
    → s.pipe.registered ≡ true
    → s.pipe.closed ≡ false
    → s.pipe.connecting ≡ true
    → s.pipe.reconnector ≡ armed
    → Recovered r
unfolding reconnector_fires
attaches r s path reg open_ busy due = (
  started (reconnector_fires true s.pipe) s.tasks,
  then path (reconnector_timer s true due),
  ground (
    arith,
    has_resets-append s.tasks (watches ∷ resets ∷ []),
    has_resets-append s.tasks (resets ∷ []),
  ),
  ground arith,
)

reconnect_runs :
    (r s : System) (before after : List Effect)
    → Internals r s
    → s.tasks ≡ before ++ reconnects ∷ after
    → s.pipe.registered ≡ true
    → s.pipe.closed ≡ false
    → s.pipe.connecting ≡ false
    → Recovered r
unfolding reconnect
reconnect_runs r s before after path e reg open_ idle =
    attaches r _ (then path (runs s before after reconnects e)) (ground arith) (ground arith)
      (ground arith) (ground arith)

watcher_due :
    (r s : System)
    → Internals r s
    → s.pipe.watcher ≡ armed
    → s.pipe.registered ≡ true
    → s.pipe.closed ≡ false
    → s.pipe.connecting ≡ false
    → s.pipe.connection ≡ nil
    → Recovered r
unfolding watcher_fires
watcher_due r s path due reg open_ idle lost =
    reconnect_runs r _ s.tasks (watches ∷ []) (then path (watcher_timer s due)) (ground arith)
      (ground arith) (ground arith) (ground arith)

split_watches :
    (ts : List Effect)
    → has_watches ts ≡ true
    → (before : List Effect) × (after : List Effect) × (ts ≡ before ++ watches ∷ after)
split_watches [] h = cc
split_watches (watches ∷ ts) h = ([], ts, refl)
split_watches (reconnects ∷ ts) h =
    let (b, a, e) = split_watches ts h in (reconnects ∷ b, a, ap (◌∷◌ reconnects) e)
split_watches (resets ∷ ts) h =
    let (b, a, e) = split_watches ts h in (resets ∷ b, a, ap (◌∷◌ resets) e)

-- From a guarded state in which the pipeline is open, was connected and has no connection, the
-- server alone reaches, by goroutines and timers and one successful attach, a state in which the
-- channel is about to be reset.
pub recovers :
    (s : System)
    → IsGuarded s
    → s.pipe.registered ≡ true
    → s.pipe.closed ≡ false
    → s.pipe.connection ≡ nil
    → Recovered s
unfolding watch
recovers s g reg open_ lost = elim (Bool-cases s.pipe.connecting) [
  | inl busy ↦ attaches s s here reg open_ busy (g.timed busy open_)
  | inr idle ↦ elim (g.watched reg open_) [
    | inl due ↦ watcher_due s s here due reg open_ idle lost
    | inr pending ↦
        let (before, after, e) = split_watches s.tasks pending in
        watcher_due s _ (then here (runs s before after watches e)) refl reg open_ idle lost
  ]
]
