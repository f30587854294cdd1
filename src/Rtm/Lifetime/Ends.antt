-- ===== src/Rtm/Lifetime/Ends.antt =====
-- How a connection ends: whatever readPump has read, it leaves all channels and the table.
use kwmserver.Base.{
  ℕ, Bool, true, false, List, String, Ptr, nil, Option, none, some, lookup, lookup-remove,
  string_eq, nat_eq, ◌==◌, ◌≡◌, ◌≢◌, refl, ◌∙◌, arith, Outcome, ok, fail, panic, blocked, Error,
  ignore_error, quiet, inl, inr, ◌⊎◌, modify, continue_with, eq_iff, Bool-cases,
}
use kwmserver.Admin.Auth.{Jwt}
use kwmserver.Rtm.World.{World, Env, in_channel}
use kwmserver.Rtm.Close.{close_connection}
use kwmserver.Rtm.Close.Histories.{Reach, reached_close_leaves}
use kwmserver.Rtm.Close.Leaves.{IsUnlocked}
use kwmserver.Rtm.Sessions.{Server, on_disconnect, leave, leave_record}
use kwmserver.Rtm.Dispatch.{ServerCall, on_rtm}
use kwmserver.Rtm.Lifetime.{
  Frame, read_all, read_pump, serve_websocket_connection, with_deferred, deferred,
  forget_connection, keep_result,
}
use kwmserver.Rtm.Lifetime.Calls.{Reach-trans}
use kwmserver.Rtm.Lifetime.Loop.{IsSparing, AllSpare, read_all-IsSparing}

-- Does a call return, with or without an error?
abbrev pub returns : Outcome (Unit {0}) → Bool
returns (ok u) = true
returns (fail e) = true
returns panic = false
returns blocked = false

-- The state after OnDisconnect: it returns nil or panics, and the channels are as they were.
record IsLeft (w : World) (r : Outcome (Unit {0}) × World) : Type 0 where
  how : (r.0 ≡ ok tt) ⊎ (r.0 ≡ panic)
  same_members : (p : Ptr) (id : String) → in_channel r.1 p id ≡ in_channel w p id

leave_record-IsLeft :
    (now : ℕ) (ur : Ptr) (conns : Option (List Ptr)) (w : World)
    → IsLeft w (leave_record now ur conns w)
leave_record-IsLeft now ur none w = record { how = inr refl; same_members = λ p id. refl }
leave_record-IsLeft now ur (some conns) w = record { how = inl refl; same_members = λ p id. refl }

leave-IsLeft :
    (now : ℕ) (conn bound : Ptr) (old : Option Ptr) (w : World)
    → IsLeft w (leave now conn bound old w)
unfolding leave
leave-IsLeft now conn bound none w = record { how = inl refl; same_members = λ p id. refl }
leave-IsLeft now conn bound (some ur) w = leave_record-IsLeft now ur _ w

on_disconnect-IsLeft : (now : ℕ) (conn : Ptr) (w : World) → IsLeft w (on_disconnect now conn w)
unfolding on_disconnect
on_disconnect-IsLeft now conn w = elim (Bool-cases ((w.conns conn).binder == nil)) [
  | inl n ↦ rw (n, on_disconnect) (record { how = inl refl; same_members = λ p id. refl })
  | inr n ↦ rw (n, on_disconnect) (leave-IsLeft now conn (w.conns conn).binder _ w)
]

-- A connection that is gone: it is in no channel, and if the process did not panic, its id is no
-- longer in the table of the connections.
pub record IsGone (conn : Ptr) (id : String) (r : Outcome (Unit {0}) × Server) : Type 0 where
  pub ends : (r.0 ≡ panic) ⊎ ((r.0 ≡ ok tt) × (lookup id r.1.rtm.connections ≡ none))
  pub left : (p : Ptr) (j : String) → in_channel r.1.rtm p j ≢ some conn

-- The state after the deferred function of readPump.
record IsOut (conn : Ptr) (r : Outcome (Unit {0}) × World) : Type 0 where
  how : (r.0 ≡ ok tt) ⊎ (r.0 ≡ panic)
  left : (p : Ptr) (id : String) → in_channel r.1 p id ≢ some conn

quiet-IsOut : (conn : Ptr) (r : Outcome (Unit {0}) × World) → IsOut conn r → IsOut conn (quiet r)
quiet-IsOut conn (ok u, w) o = record { how = inl refl; left = o.left }
quiet-IsOut conn (fail e, w) o = record { how = inl refl; left = o.left }
quiet-IsOut conn (panic, w) o = record { how = inr refl; left = o.left }
quiet-IsOut conn (blocked, w) o = record { how = o.how; left = o.left }

module _ (end_ : ℕ) (conn : Ptr) where
  after_close-IsOut :
      (c : Outcome (Unit {0}) × World)
      → c.0 ≡ ok tt
      → ((p : Ptr) (id : String) → in_channel c.1 p id ≢ some conn)
      → IsOut conn (continue_with (λ _. ignore_error (on_disconnect end_ conn)) (quiet c))
  after_close-IsOut (ok u, w) h out =
      let d = on_disconnect-IsLeft end_ conn w in
      quiet-IsOut conn (on_disconnect end_ conn w)
        (record { how = d.how; left = λ p id i. out p id (cc (i, d.same_members p id)) })
  after_close-IsOut (fail e, w) h out = absurd (ground arith)
  after_close-IsOut (panic, w) h out = absurd (ground arith)
  after_close-IsOut (blocked, w) h out = absurd (ground arith)

  -- The end of serveWebsocketConnection.
  forgotten-IsGone :
      (id : String) (r : Outcome (Unit {0})) (s : Server) (d : Outcome (Unit {0}) × World)
      → returns r ≡ true
      → IsOut conn d
      → IsGone conn id (
          continue_with
            (λ _. on_rtm (modify (forget_connection id)))
            (quiet (keep_result r (d.0, record s { rtm = d.1 }))))
  forgotten-IsGone id (ok u) s (ok v, w) t o = record {
    ends = inr (refl, ground (arith, lookup-remove id id w.connections, eq_iff id id));
    left = o.left;
  }
  forgotten-IsGone id (fail e) s (ok v, w) t o = record {
    ends = inr (refl, ground (arith, lookup-remove id id w.connections, eq_iff id id));
    left = o.left;
  }
  forgotten-IsGone id (ok u) s (panic, w) t o = record { ends = inl refl; left = o.left }
  forgotten-IsGone id (fail e) s (panic, w) t o = record { ends = inl refl; left = o.left }
  forgotten-IsGone id r s (fail e, w) t o =
      absurd (elim o.how [ inl h ↦ ground arith | inr h ↦ ground arith ])
  forgotten-IsGone id r s (blocked, w) t o =
      absurd (elim o.how [ inl h ↦ ground arith | inr h ↦ ground arith ])
  forgotten-IsGone id panic s d t o = absurd (ground arith)
  forgotten-IsGone id blocked s d t o = absurd (ground arith)

  finished-IsGone :
      (id : String) (r : Outcome (Unit {0}) × Server)
      → returns r.0 ≡ true
      → ((close_connection end_ conn r.1.rtm).0 ≡ ok tt)
        × ((p : Ptr) (j : String)
            → in_channel (close_connection end_ conn r.1.rtm).1 p j ≢ some conn)
      → IsGone conn id (
          continue_with
            (λ _. on_rtm (modify (forget_connection id)))
            (quiet (with_deferred (deferred end_ conn) r)))
  finished-IsGone id (ok u, s) t c =
      forgotten-IsGone id (ok u) s _ t
        (after_close-IsOut (close_connection end_ conn s.rtm) c.0 c.1)
  finished-IsGone id (fail e, s) t c =
      forgotten-IsGone id (fail e) s _ t
        (after_close-IsOut (close_connection end_ conn s.rtm) c.0 c.1)
  finished-IsGone id (panic, s) t c = absurd (ground arith)
  finished-IsGone id (blocked, s) t c = absurd (ground arith)

-- A connection is served from a state that is reached from a server whose channels are empty, while
-- it is open. If what other goroutines and transaction callbacks do is a history in which it does
-- not close, the loop of readPump ends, after whatever messages, with or without an error, and no
-- channel was left locked, then the serving ends, by a panic or a return; the connection is then in
-- no channel, and after a return its id is not in the table of the connections.
pub served-IsGone :
    {v : World} (reply : ℕ → ServerCall) (j : Jwt) (e : Env) (start end_ : ℕ) (conn : Ptr)
    (id : String) (frames : List Frame) (lost : Option Error) (s : Server)
    → ((p : Ptr) (k : String) → in_channel v p k ≡ none)
    → Reach v s.rtm
    → (s.rtm.conns conn).closed ≡ false
    → ((cb : ℕ) → IsSparing conn (reply cb))
    → AllSpare conn frames
    → returns (read_all reply j e start conn frames lost s).0 ≡ true
    → IsUnlocked (read_all reply j e start conn frames lost s).1.rtm
    → IsGone conn id (serve_websocket_connection reply j e start end_ conn id frames lost s)
unfolding serve_websocket_connection read_pump
served-IsGone reply j e start end_ conn id frames lost s empty past open_ replies spare r u =
    let g = (read_all-IsSparing conn reply replies j e conn start frames lost spare).spares s in
    finished-IsGone end_ conn id (read_all reply j e start conn frames lost s) r
      (reached_close_leaves end_ conn empty (Reach-trans past g.reach) u (g.same_closed ∙ open_))
