-- ===== src/Rtm/Lifetime/Calls.antt =====
-- Calls of the rtm manager as histories: rules that build the history of a call from those of its
-- parts.
use kwmserver.Base.{
  ℕ, Bool, true, false, List, [], ◌∷◌, String, Ptr, Option, none, some, if◌then◌else◌, nat_eq,
  string_eq, ◌≡◌, refl, ◌∙◌, arith, Outcome, ok, fail, panic, blocked, Error, Action, ◌>>=◌, ◌>>◌,
  pure, throw, panics, gets, modify, refuse_if, ignore_error, quiet, continue_with,
}
use kwmserver.Api.{Payload}
use kwmserver.Connection
use kwmserver.Rtm.World.{World, Call, Channel, ChannelConfig, Env, send, send_all}
use kwmserver.Rtm.Group.{lock}
use kwmserver.Rtm.Channel.{add, remove_id, remove_from, new_channel, store, register}
use kwmserver.Rtm.Channel.Laws.{add_rule, replaced_message}
use kwmserver.Rtm.Close.Histories.{sends, creates, calms, adds, removes, IsCalm, Reach, here, next}

pub Reach-trans : {u v w : World} → Reach u v → Reach v w → Reach u w
Reach-trans r here = r
Reach-trans r (next q s) = next (Reach-trans r q) s

-- A history in which no connection opens or closes.
pub record Goes (w v : World) : Type 0 where
  pub reach : Reach w v
  pub same_closed : (p : Ptr) → (v.conns p).closed ≡ (w.conns p).closed

pub stays : {w : World} → Goes w w
stays = record { reach = here; same_closed = λ p. refl }

pub Goes-trans : {u v w : World} → Goes u v → Goes v w → Goes u w
Goes-trans g h = record {
  reach = Reach-trans g.reach h.reach;
  same_closed = λ p. h.same_closed p ∙ g.same_closed p;
}

sends-Goes : (w : World) (conn : Ptr) (msg : Payload) → Goes w (send conn msg w).1
unfolding send Connection.raw_send
sends-Goes w conn msg = record {
  reach = next here (sends w conn msg);
  same_closed = λ p. ground arith;
}

pub creates-Goes :
    (w : World) (e : Env) (id : String) (config : Option ChannelConfig)
    → Goes w (new_channel e id config w).1
unfolding new_channel
creates-Goes w e id config = record {
  reach = next here (creates w e id config);
  same_closed = λ p. ground arith;
}

pub calm-Goes : (w v : World) → IsCalm w v → Goes w v
calm-Goes w v c = record { reach = next here (calms w v c); same_closed = c.same_closed }

removes-Goes : (w : World) (p : Ptr) (id : String) → Goes w (remove_id p id w).1
unfolding remove_id remove_from lock
removes-Goes w p id = record { reach = next here (removes w p id); same_closed = λ q. ground arith }

-- No connection opens or closes on the way to the state of a result.
abbrev SameClosed : World → Outcome (Unit {0}) × World → Type 0
SameClosed w r = (q : Ptr) → (r.1.conns q).closed ≡ (w.conns q).closed

store-SameClosed :
    (replacing : Bool) (p : Ptr) (c : Channel) (id : String) (conn : Ptr) (w : World)
    → SameClosed w (store replacing p c id conn w)
unfolding store register Connection.on_closed
store-SameClosed replacing p c id conn w q = ground arith

pub adds-Goes : (w : World) (p : Ptr) (id : String) (conn : Ptr) → Goes w (add p id conn w).1
adds-Goes w p id conn = record {
  reach = next here (adds w p id conn);
  same_closed =
      let c = w.channel_objects p in
      add_rule (SameClosed w) p id conn w c refl (λ _ q. refl) (λ _ q. refl) (λ _ q. refl)
        (λ _. store-SameClosed false p c id conn w) (λ q. refl) (λ _ _ _ q. refl)
        λ existing _ _ q.
          store-SameClosed true p c id conn _ q
          ∙ (sends-Goes w existing (replaced_message c.id)).same_closed q;
}

-- What a call does is such a history, on whatever state it is called.
pub record IsHistory {A : Type 0} (m : Call A) : Type 0 where
  pub history : (w : World) → Goes w (m w).1

module _ {A B : Type 0} where
  continue_with-Goes :
      (f : A → Call B) (w : World) (r : Outcome A × World)
      → Goes w r.1
      → ((a : A) → IsHistory (f a))
      → Goes w (continue_with f r).1
  continue_with-Goes f w (ok a, v) h k = Goes-trans h ((k a).history v)
  continue_with-Goes f w (fail e, v) h k = h
  continue_with-Goes f w (panic, v) h k = h
  continue_with-Goes f w (blocked, v) h k = h

  pub bind-IsHistory :
      (m : Call A) (f : A → Call B)
      → IsHistory m
      → ((a : A) → IsHistory (f a))
      → IsHistory (m >>= f)
  bind-IsHistory m f h k = record { history = λ w. continue_with-Goes f w (m w) (h.history w) k }

  pub then-IsHistory : (m : Call A) (k : Call B) → IsHistory m → IsHistory k → IsHistory (m >> k)
  then-IsHistory m k h g = bind-IsHistory m (λ _. k) h λ _. g

module _ {A : Type 0} where
  pub pure-IsHistory : (a : A) → IsHistory (pure {S = World} a)
  pure-IsHistory a = record { history = λ w. stays }

  pub throw-IsHistory : (e : Error) → IsHistory (throw {S = World} {A = A} e)
  throw-IsHistory e = record { history = λ w. stays }

  pub panics-IsHistory : IsHistory (panics {S = World} {A = A})
  panics-IsHistory = record { history = λ w. stays }

  pub gets-IsHistory : (f : World → A) → IsHistory (gets f)
  gets-IsHistory f = record { history = λ w. stays }

  pub if-IsHistory :
      (b : Bool) (m k : Call A) → IsHistory m → IsHistory k → IsHistory (if b then m else k)
  if-IsHistory true m k g h = g
  if-IsHistory false m k g h = h

  quiet-Goes : (w : World) (r : Outcome A × World) → Goes w r.1 → Goes w (quiet r).1
  quiet-Goes w (ok a, v) h = h
  quiet-Goes w (fail e, v) h = h
  quiet-Goes w (panic, v) h = h
  quiet-Goes w (blocked, v) h = h

  pub ignore_error-IsHistory : (m : Call A) → IsHistory m → IsHistory (ignore_error m)
  ignore_error-IsHistory m h = record { history = λ w. quiet-Goes w (m w) (h.history w) }

pub refuse_if-IsHistory : (b : Bool) (e : Error) → IsHistory (refuse_if {S = World} b e)
refuse_if-IsHistory true e = record { history = λ w. stays }
refuse_if-IsHistory false e = record { history = λ w. stays }

pub lock-IsHistory : (p : Ptr) → IsHistory (lock p)
unfolding lock
lock-IsHistory p = record { history = λ w. lock-Goes w (w.channel_objects p) }
  where
    lock-Goes : (w : World) (c : Channel) → Goes w (kwmserver.Rtm.Group.if_unlocked c w).1
    lock-Goes w c = elim (kwmserver.Base.Bool-cases c.locked) [
      | kwmserver.Base.inl l ↦ rw l stays
      | kwmserver.Base.inr l ↦ rw l stays
    ]

pub send-IsHistory : (conn : Ptr) (msg : Payload) → IsHistory (send conn msg)
send-IsHistory conn msg = record { history = λ w. sends-Goes w conn msg }

pub send_all-Goes : (ps : List Ptr) (msg : Payload) (w : World) → Goes w (send_all ps msg w)
unfolding send_all
send_all-Goes [] msg w = stays
send_all-Goes (p ∷ ps) msg w =
    Goes-trans (sends-Goes w p msg) (send_all-Goes ps msg (send p msg w).1)

pub modify-IsHistory : (f : World → World) → ((w : World) → Goes w (f w)) → IsHistory (modify f)
modify-IsHistory f h = record { history = h }

pub add-IsHistory : (p : Ptr) (id : String) (conn : Ptr) → IsHistory (add p id conn)
add-IsHistory p id conn = record { history = λ w. adds-Goes w p id conn }

pub remove_id-IsHistory : (p : Ptr) (id : String) → IsHistory (remove_id p id)
remove_id-IsHistory p id = record { history = λ w. removes-Goes w p id }

pub ruleset histories = (
  bind-IsHistory, then-IsHistory, pure-IsHistory, throw-IsHistory, panics-IsHistory, gets-IsHistory,
  if-IsHistory, ignore_error-IsHistory, refuse_if-IsHistory, lock-IsHistory, send-IsHistory,
  add-IsHistory, remove_id-IsHistory, modify-IsHistory, send_all-Goes,
)
