-- ===== src/Mcu/Pipeline/Tests.antt =====
-- The pipeline at concrete states.
use kwmserver.Base.{true, false, [], ◌∷◌, nil, ◌≡◌, ◌≤◌, ◌+◌, refl, arith, inl}
use kwmserver.Mcu.State.{Pipeline, unset, armed}
use kwmserver.Mcu.Pipeline.{reconnects, watches, connect, watch, reconnect}
use kwmserver.Mcu.Pipeline.Steps.{
  System, Internal, runs, Step, internal, connects, here, next, IsGuarded, Step-IsGuarded,
  Reach-IsGuarded,
}
use kwmserver.Mcu.Pipeline.Settles.{Runs, stop, step, work, closed_settles}
use kwmserver.Mcu.Pipeline.Recovers.{Recovered, recovers}

abbrev example_pipeline : Pipeline
example_pipeline = record {
  plugin = "kwm.rtm.channel";
  handle = 1;
  id = "p1";
  registered = false;
  connecting = false;
  closed = false;
  reconnector = unset;
  watcher = unset;
  connection = nil;
}

abbrev new_system : System
new_system = record { pipe = example_pipeline; tasks = [] }

new_system-IsGuarded : IsGuarded new_system
new_system-IsGuarded = record { watched = λ r c. ground arith; timed = λ b c. ground arith }

-- The first attach fails.
abbrev first_connect : System
first_connect = record {
  pipe = record example_pipeline { registered = true };
  tasks = reconnects ∷ watches ∷ [];
}

connect-Step : Step new_system first_connect
unfolding connect
connect-Step = connects new_system false

Step-IsGuarded_example : IsGuarded first_connect
Step-IsGuarded_example = Step-IsGuarded connect-Step new_system-IsGuarded

-- The watcher goroutine runs before the reconnect goroutine.
abbrev watched_system : System
watched_system = record {
  pipe = record example_pipeline { registered = true; watcher = armed };
  tasks = reconnects ∷ [];
}

watch_step : Internal first_connect watched_system
unfolding watch
watch_step = runs first_connect (reconnects ∷ []) [] watches refl

Reach-IsGuarded_example : IsGuarded watched_system
Reach-IsGuarded_example =
    Reach-IsGuarded new_system-IsGuarded (next (next here connect-Step) (internal watch_step))

recovers_example : Recovered watched_system
recovers_example =
    recovers watched_system (record { watched = λ r c. inl refl; timed = λ b c. ground arith }) refl
      refl refl

-- Closed while the reconnect goroutine is pending: it arms the timer once more.
abbrev closed_system : System
closed_system = record {
  pipe = record example_pipeline { registered = true; closed = true };
  tasks = reconnects ∷ [];
}

abbrev closed_waiting : System
closed_waiting = record {
  pipe = record example_pipeline {
    registered = true;
    closed = true;
    connecting = true;
    reconnector = armed;
  };
  tasks = [];
}

closed_run : Runs 1 closed_system closed_waiting
unfolding reconnect
closed_run = step (runs closed_system [] [] reconnects refl) (stop closed_waiting)

closed_settles_example :
    (closed_waiting.pipe.closed ≡ true) × (1 + work closed_waiting ≤ work closed_system)
closed_settles_example = closed_settles closed_run refl
