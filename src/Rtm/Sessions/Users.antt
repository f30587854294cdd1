-- ===== src/Rtm/Sessions/Users.antt =====
-- The users and their connections: a connection that comes and goes.
use kwmserver.Base.{
  ℕ, String, Option, none, some, List, [], ◌∷◌, ◌++◌, nat_eq, string_eq, lookup, lookup-insert, Ptr,
  nil, count_ptr, count_ptr-append, append-nil, ◌≡◌, ◌≢◌, refl, ap, ◌∙◌, arith, string_eq_refl, ok,
  panic, Option-cases, inl, inr,
}
use kwmserver.Api.{AdminAuthToken}
use kwmserver.Connection
use kwmserver.Rtm.World.{World, send}
use kwmserver.Rtm.Webrtc.{lookup_connections}
use kwmserver.Rtm.Sessions.{
  on_connect, on_disconnect, enter, greet, first_connection, further_connection, leave,
  drop_connection, without,
}

abbrev pub or_empty : Option (List Ptr) → List Ptr
or_empty none = []
or_empty (some conns) = conns

-- The connections of a user id; none for an id that is not in the table.
abbrev pub members_of : World → String → List Ptr
members_of w id = or_empty (lookup_connections w id)

without-append : (p : Ptr) (xs : List Ptr) → count_ptr p xs ≡ 0 → without p (xs ++ p ∷ []) ≡ xs
without-append p [] h = ground arith
without-append p (x ∷ xs) h = ground (arith, without-append p xs)

-- A connection that was added to a list that did not have it is dropped from it again.
drop_connection-append :
    (p : Ptr) (xs : List Ptr) → count_ptr p xs ≡ 0 → drop_connection p (xs ++ p ∷ []) ≡ some xs
unfolding drop_connection
drop_connection-append p xs h =
    ground (arith, without-append p xs h, count_ptr-append p xs (p ∷ []), append-nil xs)

-- What OnConnect leaves of a user, before and after the hello is sent.
greet_keeps :
    (conn ur : Ptr) (auth : Option AdminAuthToken) (w : World)
    → ((greet conn ur auth w).1.users ≡ w.users)
      × ((greet conn ur auth w).1.user_records ≡ w.user_records)
      × (((greet conn ur auth w).1.conns conn).binder ≡ (w.conns conn).binder)
unfolding greet send Connection.raw_send
greet_keeps conn ur auth w = ground arith

-- The connection is one more of the record `ur`, which is the record of the user and the one that
-- the connection is bound to.
record Joined (w : World) (conn ur : Ptr) (id : String) (old : List Ptr) : Type 0 where
  found : lookup id w.users ≡ some ur
  named : (w.user_records ur).id ≡ id
  bound : (w.conns conn).binder ≡ ur
  members : (w.user_records ur).connections ≡ old ++ conn ∷ []

first-Joined :
    (now : ℕ) (conn nur : Ptr) (w : World)
    → (w.conns conn).binder ≡ nur
    → (w.user_records nur).connections ≡ []
    → Joined (enter now conn nur none w).1 conn nur (w.user_records nur).id []
unfolding enter first_connection
first-Joined now conn nur w b e =
    let id = (w.user_records nur).id in
    let v = first_connection now conn nur w in
    let k = greet_keeps conn nur (w.user_records nur).auth v in
    record {
      found =
          ap (lookup id) k.0 ∙ lookup-insert id id nur w.users ∙ ground (arith, string_eq_refl id);
      named = ap (λ h. (h nur).id) k.1 ∙ ground arith;
      bound = k.2 ∙ b;
      members = ap (λ h. (h nur).connections) k.1 ∙ ground arith;
    }

further-Joined :
    (now : ℕ) (conn nur ur : Ptr) (w : World) (id : String)
    → lookup id w.users ≡ some ur
    → (w.user_records ur).id ≡ id
    → ur ≢ nur
    → Joined (enter now conn nur (some ur) w).1 conn ur id (w.user_records ur).connections
unfolding enter further_connection Connection.bind
further-Joined now conn nur ur w id f n other =
    let v = further_connection conn ur w in
    let k = greet_keeps conn ur (w.user_records ur).auth v in
    let e : (enter now conn nur (some ur) w) ≡ greet conn ur (w.user_records ur).auth v =
      ground arith in
    rw e (record {
      found = ap (lookup id) k.0 ∙ f;
      named = ap (λ h. (h ur).id) k.1 ∙ ground arith;
      bound = k.2 ∙ ground arith;
      members = ap (λ h. (h ur).connections) k.1 ∙ ground arith;
    })

-- The user table: each record stands under its own id.
pub record IsDirectory (w : World) : Type 0 where
  pub named : (id : String) (u : Ptr) → lookup id w.users ≡ some u → (w.user_records u).id ≡ id
  pub real : (id : String) (u : Ptr) → lookup id w.users ≡ some u → u ≢ nil

-- The state of the user with the id `id` after OnConnect.
abbrev JoinedTo : World → Ptr → String → List Ptr → Type 0
JoinedTo w conn id old = (ur : Ptr) × (ur ≢ nil) × Joined w conn ur id old

on_connect-Joined :
    (now : ℕ) (conn : Ptr) (w : World)
    → IsDirectory w
    → (w.conns conn).binder ≢ nil
    → (w.user_records (w.conns conn).binder).connections ≡ []
    → lookup (w.user_records (w.conns conn).binder).id w.users ≢ some (w.conns conn).binder
    → JoinedTo
        (on_connect now conn w).1
        conn
        (w.user_records (w.conns conn).binder).id
        (members_of w (w.user_records (w.conns conn).binder).id)
unfolding on_connect lookup_connections
on_connect-Joined now conn w d b e other =
    let nur = (w.conns conn).binder in
    let id = (w.user_records nur).id in
    let enters : on_connect now conn w ≡ enter now conn nur (lookup id w.users) w = ground arith in
    rw enters (elim (Option-cases (lookup id w.users)) [
      | inl none_ ↦ rw none_ (nur, b, first-Joined now conn nur w refl e)
      | inr (ur, some_) ↦ rw some_ (
        ur,
        d.real id ur some_,
        further-Joined now conn nur ur w id some_ (d.named id ur some_)
            (λ same. other (some_ ∙ ap some same)),
      )
    ])

Joined-members :
    (w : World) (conn ur : Ptr) (id : String) (old : List Ptr)
    → Joined w conn ur id old
    → members_of w id ≡ old ++ conn ∷ []
unfolding lookup_connections
Joined-members w conn ur id old g = rw g.found g.members

Joined-leaves :
    (now : ℕ) (w : World) (conn ur : Ptr) (id : String) (old : List Ptr)
    → Joined w conn ur id old
    → ur ≢ nil
    → count_ptr conn old ≡ 0
    → ((on_disconnect now conn w).0 ≡ ok tt) × (members_of (on_disconnect now conn w).1 id ≡ old)
unfolding on_disconnect leave lookup_connections
Joined-leaves now w conn ur id old g real new =
    rw (g.bound, g.named, g.found, g.members, drop_connection-append conn old new)
      (ground (arith, g.found))

-- A connection that is bound to a user, and comes and goes with nothing in between: after
-- OnConnect the connections of the user are those of before and the new one, last; after
-- OnDisconnect, which does not fail, they are those of before. The user record of the connection
-- is fresh, and the connection is not yet one of the user.
pub connects_and_leaves :
    (now later : ℕ) (conn : Ptr) (w : World)
    → IsDirectory w
    → (w.conns conn).binder ≢ nil
    → (w.user_records (w.conns conn).binder).connections ≡ []
    → lookup (w.user_records (w.conns conn).binder).id w.users ≢ some (w.conns conn).binder
    → count_ptr conn (members_of w (w.user_records (w.conns conn).binder).id) ≡ 0
    → let id = (w.user_records (w.conns conn).binder).id in
      let inside = (on_connect now conn w).1 in
      (members_of inside id ≡ members_of w id ++ conn ∷ [])
      × ((on_disconnect later conn inside).0 ≡ ok tt)
      × (members_of (on_disconnect later conn inside).1 id ≡ members_of w id)
connects_and_leaves now later conn w d b e other new =
    let id = (w.user_records (w.conns conn).binder).id in
    let (ur, real, g) = on_connect-Joined now conn w d b e other in
    let out =
      Joined-leaves later (on_connect now conn w).1 conn ur id (members_of w id) g real new in
    (Joined-members (on_connect now conn w).1 conn ur id (members_of w id) g, out.0, out.1)

drop_stranger : (p : Ptr) (xs : List Ptr) → count_ptr p xs ≡ 0 → drop_connection p xs ≡ none
unfolding drop_connection
drop_stranger p xs h = ground arith

-- OnDisconnect of a connection that its user's record does not have is a run-time panic.
pub stranger_leaves_panics :
    (now : ℕ) (conn ur : Ptr) (w : World)
    → (w.conns conn).binder ≢ nil
    → lookup (w.user_records (w.conns conn).binder).id w.users ≡ some ur
    → count_ptr conn (w.user_records ur).connections ≡ 0
    → on_disconnect now conn w ≡ (panic, w)
unfolding on_disconnect leave
stranger_leaves_panics now conn ur w b f n =
    rw f (ground (arith, drop_stranger conn (w.user_records ur).connections n))
