-- ===== src/Rtm/Lifetime/Loop.antt =====
-- The loop of readPump as a history, with what other goroutines do in between.
use kwmserver.Base.{
  ℕ, Bool, true, false, List, [], ◌∷◌, String, Ptr, nil, Option, none, some, ◌==◌, nat_eq,
  string_eq, if◌then◌else◌, ◌&&◌, ◌≡◌, refl, ◌∙◌, arith, throw, Outcome, ok, fail, panic, blocked,
  Error, Bool-cases, inl, inr, continue_with, ◌>>◌,
}
use kwmserver.Api.{AdminAuthToken, pong as pong_message}
use kwmserver.Connection
use kwmserver.Admin.Tokens.{Manager}
use kwmserver.Admin.Auth.{Jwt, refresh_admin_auth_token, sign_admin_auth_token}
use kwmserver.Rtm.World.{Call, Env, Input, Conn}
use kwmserver.Rtm.Close.Histories.{Reach, here}
use kwmserver.Rtm.Sessions.{Server, process_ping, answer_ping, send_pong, as_some, soon}
use kwmserver.Rtm.Dispatch.{
  Text, ServerCall, on_rtm, with_decoded, process_text, after_transaction, set_connection, on_text,
  report, read_text,
}
use kwmserver.Rtm.Lifetime.{
  Frame, text, broken, other_kind, pong, meanwhile, elsewhere, lost_end, read_loop, read_all,
}
use kwmserver.Rtm.Lifetime.Calls.{
  IsHistory, Goes, Reach-trans, send-IsHistory, ignore_error-IsHistory,
}
use kwmserver.Rtm.Lifetime.Messages.{on_webrtc-IsHistory, on_chats-IsHistory}
use kwmserver.Rtm.Lifetime.Events.{
  on_connection-Goes, set_deadline-IsHistory, on_pong-IsHistory, on_connect-IsHistory,
  on_error-IsHistory,
}

-- A history in which the connection does not open or close; others may.
pub record Spares (conn : Ptr) (s t : Server) : Type 0 where
  pub reach : Reach s.rtm t.rtm
  pub same_closed : (t.rtm.conns conn).closed ≡ (s.rtm.conns conn).closed

-- What a call does is such a history.
pub record IsSparing (conn : Ptr) (m : ServerCall) : Type 0 where
  pub spares : (s : Server) → Spares conn s (m s).1

module _ (conn : Ptr) where
  idle : {s : Server} → Spares conn s s
  idle = record { reach = here; same_closed = refl }

  Spares-trans : {s t u : Server} → Spares conn s t → Spares conn t u → Spares conn s u
  Spares-trans g h = record {
    reach = Reach-trans g.reach h.reach;
    same_closed = h.same_closed ∙ g.same_closed;
  }

  Goes-Spares : {s t : Server} → Goes s.rtm t.rtm → Spares conn s t
  Goes-Spares g = record { reach = g.reach; same_closed = g.same_closed conn }

  on_rtm-IsSparing : (m : Call (Unit {0})) → IsHistory m → IsSparing conn (on_rtm m)
  on_rtm-IsSparing m h = record { spares = λ s. Goes-Spares (h.history s.rtm) }

  continue_with-Spares :
      (k : ServerCall) (s : Server) (r : Outcome (Unit {0}) × Server)
      → Spares conn s r.1
      → IsSparing conn k
      → Spares conn s (continue_with (λ _. k) r).1
  continue_with-Spares k s (ok u, t) h g = Spares-trans h (g.spares t)
  continue_with-Spares k s (fail e, t) h g = h
  continue_with-Spares k s (panic, t) h g = h
  continue_with-Spares k s (blocked, t) h g = h

  then-IsSparing :
      (m k : ServerCall) → IsSparing conn m → IsSparing conn k → IsSparing conn (m >> k)
  then-IsSparing m k h g = record { spares = λ s. continue_with-Spares k s (m s) (h.spares s) g }

  if-IsSparing :
      (b : Bool) (m k : ServerCall)
      → IsSparing conn m
      → IsSparing conn k
      → IsSparing conn (if b then m else k)
  if-IsSparing true m k h g = h
  if-IsSparing false m k h g = g

  throw-IsSparing : (e : Error) → IsSparing conn (throw e)
  throw-IsSparing e = record { spares = λ s. idle }

  decoded-IsSparing :
      {A : Type 0} (f : A → ServerCall) (o : Option A)
      → ((a : A) → IsSparing conn (f a))
      → IsSparing conn (with_decoded f o)
  decoded-IsSparing f none h = record { spares = λ s. idle }
  decoded-IsSparing f (some a) h = h a

  send_pong-Spares :
      (c : Ptr) (ping : String) (o : Outcome (Option String)) (admin : Manager) (s : Server)
      → Spares conn s (send_pong c ping o (record s { admin = admin })).1
  send_pong-Spares c ping (ok token) admin s =
      Goes-Spares ((send-IsHistory c (pong_message ping token)).history s.rtm)
  send_pong-Spares c ping (fail e) admin s = record { reach = here; same_closed = refl }
  send_pong-Spares c ping panic admin s = record { reach = here; same_closed = refl }
  send_pong-Spares c ping blocked admin s = record { reach = here; same_closed = refl }

  answer_ping-Spares :
      (j : Jwt) (now : ℕ) (c : Ptr) (ping : String) (auth : Option AdminAuthToken) (s : Server)
      → Spares conn s (answer_ping j now c ping auth s).1
  answer_ping-Spares j now c ping none s = idle
  answer_ping-Spares j now c ping (some auth) s =
      let r = refresh_admin_auth_token now s.admin auth in
      let signed = as_some (sign_admin_auth_token j now r.1 auth) in
      send_pong-Spares c ping (if r.0 && soon now auth then signed else ok none) r.1 s

  process_ping-IsSparing :
      (j : Jwt) (now : ℕ) (c : Ptr) (ping : String) → IsSparing conn (process_ping j now c ping)
  unfolding process_ping
  process_ping-IsSparing j now c ping = record {
    spares = λ s. elim (Bool-cases ((s.rtm.conns c).binder == nil)) [
      | inl n ↦ rw (n, process_ping) idle
      | inr n ↦ rw (n, process_ping) (answer_ping-Spares j now c ping _ s)
    ];
  }

  process_text-IsSparing :
      (j : Jwt) (e : Env) (i : Input) (c : Ptr) (msg : Text)
      → IsSparing conn (process_text j e i c msg)
  unfolding process_text
  process_text-IsSparing j e i c msg =
      search
        (
          if-IsSparing, decoded-IsSparing, on_rtm-IsSparing, process_ping-IsSparing,
          throw-IsSparing, on_webrtc-IsHistory, on_chats-IsHistory,
        )
        depth 30

  -- What other goroutines and the transaction callbacks do must spare the connection.
  unfoldable pub AllSpare : List Frame → Type 0
  AllSpare [] = Unit {0}
  AllSpare (meanwhile f ∷ fs) = ((s : Server) → Spares conn s (f s)) × AllSpare fs
  AllSpare (text i msg ∷ fs) = AllSpare fs
  AllSpare (broken e ∷ fs) = AllSpare fs
  AllSpare (other_kind ∷ fs) = AllSpare fs
  AllSpare (pong now payload ∷ fs) = AllSpare fs

  module _ (reply : ℕ → ServerCall) (replies : (cb : ℕ) → IsSparing conn (reply cb)) (j : Jwt)
      (e : Env) (c : Ptr) where
    transaction_keeps :
        (tid : String) (k : Conn)
        → ((Connection.transaction tid none k).1.closed ≡ k.closed)
          × ((Connection.transaction tid none k).1.on_closed_callbacks ≡ k.on_closed_callbacks)
    unfolding Connection.transaction
    transaction_keeps tid k = ground arith

    after-IsSparing :
        (m : ServerCall) (o : Option ℕ)
        → IsSparing conn m
        → IsSparing conn (after_transaction reply m o)
    after-IsSparing m none h = h
    after-IsSparing m (some cb) h = replies cb

    on_text-IsSparing : (i : Input) (msg : Option Text) → IsSparing conn (on_text reply j e i c msg)
    unfolding on_text
    on_text-IsSparing i none = record { spares = λ s. idle }
    on_text-IsSparing i (some msg) = record {
      spares = λ s.
          let r = Connection.transaction msg.transaction none (s.rtm.conns c) in
          let k = transaction_keeps msg.transaction (s.rtm.conns c) in
          Spares-trans {t = set_connection c r.1 s}
            (Goes-Spares (on_connection-Goes c r.1 s.rtm k.0 k.1))
            ((after-IsSparing _ r.0 (process_text-IsSparing j e i c msg)).spares
              (set_connection c r.1 s));
    }

    report-Spares :
        (s : Server) (r : Outcome (Unit {0}) × Server)
        → Spares conn s r.1
        → Spares conn s (report c r).1
    report-Spares s (ok u, t) h = h
    report-Spares s (fail err, t) h =
        Spares-trans h ((on_rtm-IsSparing _ (on_error-IsHistory c err)).spares t)
    report-Spares s (panic, t) h = h
    report-Spares s (blocked, t) h = h

    read_text-IsSparing :
        (i : Input) (msg : Option Text) → IsSparing conn (read_text reply j e i c msg)
    unfolding read_text
    read_text-IsSparing i msg = record {
      spares = λ s. report-Spares s _ ((on_text-IsSparing i msg).spares s);
    }

    lost_end-IsSparing : (lost : Option Error) → IsSparing conn (lost_end lost)
    lost_end-IsSparing none = record { spares = λ s. idle }
    lost_end-IsSparing (some err) = throw-IsSparing err

    read_loop-IsSparing :
        (frames : List Frame) (lost : Option Error)
        → AllSpare frames
        → IsSparing conn (read_loop reply j e c frames lost)
    unfolding read_loop AllSpare
    read_loop-IsSparing [] lost a = lost_end-IsSparing lost
    read_loop-IsSparing (text i msg ∷ fs) lost a =
        then-IsSparing _ _ (read_text-IsSparing i msg) (read_loop-IsSparing fs lost a)
    read_loop-IsSparing (broken err ∷ fs) lost a = throw-IsSparing err
    read_loop-IsSparing (other_kind ∷ fs) lost a = read_loop-IsSparing fs lost a
    read_loop-IsSparing (pong now payload ∷ fs) lost a =
        then-IsSparing _ _ (on_rtm-IsSparing _ (on_pong-IsHistory now payload c))
          (read_loop-IsSparing fs lost a)
    read_loop-IsSparing (meanwhile f ∷ fs) lost a =
        then-IsSparing (elsewhere f) _ (record { spares = a.0 }) (read_loop-IsSparing fs lost a.1)

    -- readPump up to the end of its loop, whatever it reads, is a history that spares the connection.
    pub read_all-IsSparing :
        (start : ℕ) (frames : List Frame) (lost : Option Error)
        → AllSpare frames
        → IsSparing conn (read_all reply j e start c frames lost)
    unfolding read_all
    read_all-IsSparing start frames lost a =
        then-IsSparing _ _
          (then-IsSparing _ _ (on_rtm-IsSparing _ (set_deadline-IsHistory start c))
            (on_rtm-IsSparing _ (ignore_error-IsHistory _ (on_connect-IsHistory start c))))
          (read_loop-IsSparing frames lost a)
