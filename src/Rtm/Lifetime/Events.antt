-- ===== src/Rtm/Lifetime/Events.antt =====
-- OnConnect, OnError and the pong handler as histories.
use kwmserver.Base.{
  ℕ, Bool, true, false, List, [], ◌∷◌, String, Ptr, nil, Option, none, some, lookup, ◌==◌, nat_eq,
  string_eq, if◌then◌else◌, not, ◌≡◌, refl, ◌∙◌, arith, modify, pure, throw, ignore_error, Outcome,
  ok, fail, panic, blocked, plain, rtm, Error, ErrorId, Option-cases, Bool-cases, inl, inr,
  continue_with, ◌>>=◌, ◌>>◌, panics,
}
use kwmserver.Api.{AdminAuthToken}
use kwmserver.Connection
use kwmserver.Connection.{Connection}
use kwmserver.Rtm.World.{World, Conn}
use kwmserver.Rtm.Sessions.{
  on_connect, enter, greet, first_connection, further_connection, on_error,
}
use kwmserver.Rtm.Lifetime.{set_deadline, on_pong}
use kwmserver.Rtm.Lifetime.Calls.{
  IsHistory, Goes, stays, calm-Goes, Goes-trans, histories, send-IsHistory,
}

-- A change of a connection that keeps whether it is closed and what it runs then.
pub on_connection-Goes :
    (conn : Ptr) (c : Conn) (w : World)
    → c.closed ≡ (w.conns conn).closed
    → c.on_closed_callbacks ≡ (w.conns conn).on_closed_callbacks
    → Goes w (record w { conns = kwmserver.Base.update w.conns conn c })
on_connection-Goes conn c w same_closed same_callbacks = calm-Goes _ _ (record {
  same_members = λ p j. refl;
  same_closed = λ p. ground arith;
  same_callbacks = λ p. ground arith;
})

pub set_deadline-IsHistory : (now : ℕ) (conn : Ptr) → IsHistory (modify (set_deadline now conn))
set_deadline-IsHistory now conn = record { history = λ w. on_connection-Goes conn _ w refl refl }

pong_keeps :
    (now : ℕ) (payload : List ℕ) (c : Conn)
    → ((Connection.pong now payload c).1.closed ≡ c.closed)
      × ((Connection.pong now payload c).1.on_closed_callbacks ≡ c.on_closed_callbacks)
unfolding Connection.pong
pong_keeps now payload c = ground arith

pub on_pong-IsHistory :
    (now : ℕ) (payload : List ℕ) (conn : Ptr) → IsHistory (on_pong now payload conn)
on_pong-IsHistory now payload conn = record {
  history =
      λ w. let k = pong_keeps now payload (w.conns conn) in on_connection-Goes conn _ w k.0 k.1;
}

first_connection-Goes :
    (now : ℕ) (conn nur : Ptr) (w : World) → Goes w (first_connection now conn nur w)
unfolding first_connection
first_connection-Goes now conn nur w =
    calm-Goes _ _
      (record { same_members = λ p j. refl; same_closed = λ p. refl; same_callbacks = λ p. refl })

further_connection-Goes : (conn ur : Ptr) (w : World) → Goes w (further_connection conn ur w)
unfolding further_connection Connection.bind
further_connection-Goes conn ur w = calm-Goes _ _ (record {
  same_members = λ p j. refl;
  same_closed = λ p. ground arith;
  same_callbacks = λ p. ground arith;
})

greet-IsHistory : (conn ur : Ptr) (auth : Option AdminAuthToken) → IsHistory (greet conn ur auth)
unfolding greet
greet-IsHistory conn ur none = record { history = λ w. stays }
greet-IsHistory conn ur (some auth) = record { history = λ w. (send-IsHistory conn _).history w }

enter-IsHistory : (now : ℕ) (conn nur : Ptr) (old : Option Ptr) → IsHistory (enter now conn nur old)
unfolding enter
enter-IsHistory now conn nur none = record {
  history = λ w.
      Goes-trans (first_connection-Goes now conn nur w) ((greet-IsHistory conn nur _).history _);
}
enter-IsHistory now conn nur (some ur) = record {
  history = λ w. elim (Bool-cases (ur == nur)) [
    | inl s ↦ rw (s, enter) stays
    | inr s ↦
        rw (s, enter)
          (Goes-trans (further_connection-Goes conn ur w) ((greet-IsHistory conn ur _).history _))
  ];
}

pub on_connect-IsHistory : (now : ℕ) (conn : Ptr) → IsHistory (on_connect now conn)
unfolding on_connect
on_connect-IsHistory now conn = record {
  history = λ w. elim (Bool-cases ((w.conns conn).binder == nil)) [
    | inl s ↦ rw (s, on_connect) ((send-IsHistory conn _).history w)
    | inr s ↦
        rw (s, on_connect)
          ((enter-IsHistory now conn (w.conns conn).binder
              (lookup (w.user_records (w.conns conn).binder).id w.users)).history
            w)
  ];
}

pub on_error-IsHistory : (conn : Ptr) (e : Error) → IsHistory (on_error conn e)
unfolding on_error
on_error-IsHistory conn (rtm code m k) = search histories
on_error-IsHistory conn (plain m) = search histories
