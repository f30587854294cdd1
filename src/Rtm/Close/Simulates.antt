-- ===== src/Rtm/Close/Simulates.antt =====
-- The channels of signaling/rtm/channel.go with the connections that close, against the abstract
-- machine of who is in which channel.
use kwmserver.Base.{
  true, ◌&&◌, ◌||◌, List, [], ◌∷◌, String, Ptr, nil, ◌==◌, nat_beq, nat_eq, string_eq,
  if◌then◌else◌, Option, none, some, lookup-empty, lookup-remove, ◌≡◌, inl, inr, refl, sym, ap, ◌∙◌,
  arith, eq_iff, Bool-cases, Option-cases, Outcome, ok, fail, panic, blocked, continue_with,
}
use kwmserver.Connection
use kwmserver.Rtm.World.{
  World, ChannelConfig, ClosedFunc, channel_remove, pipeline_closed, Env, send, in_channel,
}
use kwmserver.Rtm.Group.{lock}
use kwmserver.Rtm.Channel.{add, new_channel, remove_id, remove_from, remove_closed, or_nil}
use kwmserver.Rtm.Channel.Adding.{AddSpec, add-AddSpec, remove_id-in_channel}
use kwmserver.Rtm.Close.{close_connection, run_callback, run_callbacks, marked_closed}
use kwmserver.Rtm.Close.Wired.{remove_closed_unlocked}
use kwmserver.Rtm.Close.Histories.{
  Step, opens, sends, creates, calms, adds, removes, closes, Reach, here, next, remove_id_locked,
}
use kwmserver.Rtm.Close.Membership.{
  Event, keeps, made, joins, leaves, gone, Moves, Taken, takes, Runs, start, then_moves, has_joined,
  Runs-joined,
}

-- The event of a step.
unfoldable pub event_of : {v w : World} → Step v w → Event
event_of (opens w conn c unused) = keeps
event_of (sends w conn msg) = keeps
event_of (creates w e id config) = made w.fresh
event_of (calms w v c) = keeps
event_of (adds w p id conn) = joins p id conn
event_of (removes w p id) = leaves p id
event_of (closes w now conn) = gone (Connection.close now (w.conns conn)).1

add-Moves :
    (w : World) (p : Ptr) (id : String) (conn : Ptr) (r : Outcome (Unit {0}) × World)
    → AddSpec w p id conn r
    → Moves (joins p id conn) (in_channel w) (in_channel r.1)
add-Moves w p id conn (ok u, v) spec = inr spec
add-Moves w p id conn (fail e, v) spec = inl spec
add-Moves w p id conn (panic, v) spec = inl spec
add-Moves w p id conn (blocked, v) spec = inl spec

remove-Moves :
    (w : World) (p : Ptr) (id : String)
    → Moves (leaves p id) (in_channel w) (in_channel (remove_id p id w).1)
remove-Moves w p id = elim (Bool-cases (w.channel_objects p).locked) [
  | inl l ↦ inl (λ q j. ap (λ r. in_channel r.1 q j) (remove_id_locked w p id l))
  | inr l ↦ inr (λ q j. (remove_id-in_channel p id w q j l).1)
]

new_channel-Moves :
    (w : World) (e : Env) (id : String) (config : Option ChannelConfig)
    → Moves (made w.fresh) (in_channel w) (in_channel (new_channel e id config w).1)
unfolding new_channel
new_channel-Moves w e id config q j = ground (arith, lookup-empty {V = Ptr} j)

-- The entries after a removal by the connection d.
removal-in_channel :
    (p : Ptr) (id : String) (d : Ptr) (w : World) (q : Ptr) (j : String)
    → in_channel (remove_from p (w.channel_objects p) id d w).1 q j ≡ (
        if nat_beq p q && (id == j && (d == nil || or_nil (in_channel w p id) == d))
        then none
        else in_channel w q j)
unfolding remove_from
removal-in_channel p id d w q j =
    ground (arith, lookup-remove id j (w.channel_objects p).connections, eq_iff id j)

-- What one callback does to one entry.
removal-Taken :
    (p : Ptr) (id : String) (d : Ptr) (w : World) (q : Ptr) (j : String)
    → Taken
        (channel_remove p id d ∷ [])
        q
        j
        (in_channel w q j)
        (in_channel (remove_from p (w.channel_objects p) id d w).1 q j)
removal-Taken p id d w q j =
    let e = removal-in_channel p id d w q j in
    elim (Option-cases (in_channel w q j)) [
      | inl missing ↦ inl (e ∙ ground (arith, missing))
      | inr (x, is) ↦
          elim (Bool-cases
            (nat_beq p q && (id == j && (d == nil || or_nil (in_channel w p id) == d)))) [
              | inl t ↦
                  let same_channel : p ≡ q = ground arith in
                  let same_id : id ≡ j = (eq_iff id j).0 (ground arith) in
                  let at : in_channel w p id ≡ some x =
                    ap (λ a. in_channel w a id) same_channel ∙ ap (in_channel w q) same_id ∙ is in
                  inr (
                    e ∙ ground (arith, t),
                    (x, (is, ground (arith, t, at, same_channel, eq_iff id j, eq_iff j id))),
                  )
              | inr t ↦ inl (e ∙ ground (arith, t))
            ]
    ]

callback-Taken :
    (conn : Ptr) (cb : ClosedFunc) (w : World) (q : Ptr) (j : String)
    → Taken (cb ∷ []) q j (in_channel w q j) (in_channel (run_callback conn cb w).1 q j)
unfolding run_callback remove_closed lock
callback-Taken conn (channel_remove p id d) w q j = elim (Bool-cases (w.channel_objects p).locked) [
  | inl l ↦ inl (ground (arith, l))
  | inr l ↦ rw (remove_closed_unlocked p id d w l) (removal-Taken p id d w q j)
]
callback-Taken conn (pipeline_closed pipe) w q j = inl refl

takes_later :
    (cb : ClosedFunc) (cbs : List ClosedFunc) (q : Ptr) (j : String) (d : Ptr)
    → takes q j d (cb ∷ cbs) ≡ (takes q j d (cb ∷ []) || takes q j d cbs)
takes_later (channel_remove p id c) cbs q j d = ground arith
takes_later (pipeline_closed pipe) cbs q j d = refl

Taken-trans :
    (cb : ClosedFunc) (cbs : List ClosedFunc) (q : Ptr) (j : String) (x y z : Option Ptr)
    → Taken (cb ∷ []) q j x y
    → Taken cbs q j y z
    → Taken (cb ∷ cbs) q j x z
Taken-trans cb cbs q j x y z (inl a) (inl b) = inl (b ∙ a)
Taken-trans cb cbs q j x y z (inl a) (inr (out, (d, (was, by)))) =
    inr (out, (d, (sym a ∙ was, ground (arith, takes_later cb cbs q j d))))
Taken-trans cb cbs q j x y z (inr (out, (d, (was, by)))) (inl b) =
    inr (b ∙ out, (d, (was, ground (arith, takes_later cb cbs q j d))))
Taken-trans cb cbs q j x y z (inr (out, rest)) (inr (left, (d, (was, by)))) =
    absurd (ground (arith, was, out))

after_callback-Taken :
    (f : Unit {0} → World → Outcome (Unit {0}) × World) (r : Outcome (Unit {0}) × World)
    (cb : ClosedFunc) (cbs : List ClosedFunc) (q : Ptr) (j : String) (x : Option Ptr)
    → Taken (cb ∷ []) q j x (in_channel r.1 q j)
    → ((v : World) → Taken cbs q j (in_channel v q j) (in_channel (f tt v).1 q j))
    → Taken (cb ∷ cbs) q j x (in_channel (continue_with f r).1 q j)
after_callback-Taken f (ok tt, v) cb cbs q j x h k = Taken-trans cb cbs q j x _ _ h (k v)
after_callback-Taken f (fail e, v) cb cbs q j x h k = Taken-trans cb cbs q j x _ _ h (inl refl)
after_callback-Taken f (panic, v) cb cbs q j x h k = Taken-trans cb cbs q j x _ _ h (inl refl)
after_callback-Taken f (blocked, v) cb cbs q j x h k = Taken-trans cb cbs q j x _ _ h (inl refl)

callbacks-Taken :
    (conn : Ptr) (cbs : List ClosedFunc) (w : World) (q : Ptr) (j : String)
    → Taken cbs q j (in_channel w q j) (in_channel (run_callbacks conn cbs w).1 q j)
unfolding run_callbacks
callbacks-Taken conn [] w q j = inl refl
callbacks-Taken conn (cb ∷ cbs) w q j =
    after_callback-Taken _ (run_callback conn cb w) cb cbs q j (in_channel w q j)
      (callback-Taken conn cb w q j) λ v. callbacks-Taken conn cbs v q j

-- Each step of the program is the move of its event.
pub Step-Moves : {v w : World} (s : Step v w) → Moves (event_of s) (in_channel v) (in_channel w)
unfolding event_of close_connection send
Step-Moves (opens w conn c unused) = λ q j. refl
Step-Moves (sends w conn msg) = λ q j. refl
Step-Moves (creates w e id config) = new_channel-Moves w e id config
Step-Moves (calms w v c) = c.same_members
Step-Moves (adds w p id conn) = add-Moves w p id conn (add p id conn w) (add-AddSpec p id conn w)
Step-Moves (removes w p id) = remove-Moves w p id
Step-Moves (closes w now conn) = λ q j.
    callbacks-Taken conn (Connection.close now (w.conns conn)).1 (marked_closed now conn w) q j

unfoldable pub events_of : {v w : World} → Reach v w → List Event
events_of here = []
events_of (next r s) = event_of s ∷ events_of r

-- Every history of the program, of connections that open, send and close, of channels that are made,
-- of Add and Remove, and of steps that touch neither channels nor closings, is a run of the abstract machine by the events of its steps.
pub Reach-Runs : {v w : World} (r : Reach v w) → Runs (in_channel v) (events_of r) (in_channel w)
unfolding events_of
Reach-Runs here = start
Reach-Runs (next r s) = then_moves (event_of s) (Reach-Runs r) (Step-Moves s)

-- After any history from a server whose channels are empty, a connection is in a channel under an id
-- only if an Add of that connection under that id to that channel is in the history.
pub Reach-joined :
    {v w : World} (p : Ptr) (id : String) (conn : Ptr) (r : Reach v w)
    → in_channel v p id ≡ none
    → in_channel w p id ≡ some conn
    → has_joined p id conn (events_of r) ≡ true
Reach-joined p id conn r empty inside = Runs-joined p id conn (Reach-Runs r) empty inside
