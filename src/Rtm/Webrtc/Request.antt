-- ===== src/Rtm/Webrtc/Request.antt =====
-- Call requests of signaling/rtm/webrtc.go.
use kwmserver.Base.{
  true, false, String, ◌+++◌, Ptr, ◌==◌, nat_eq, string_eq, if◌then◌else◌, Option, none, some, [],
  ◌∷◌, ◌++◌, Heap, count_ptr, subst, sym, ◌∙◌, lookup, insert, lookup-insert, has, ◌≡◌, ◌≢◌, refl,
  ap, arith, eq_iff, string_eq_refl, ok, quiet, lookup-empty, update_self,
}
use kwmserver.Api.{AdminAuthToken, WebRtc, webrtc, Payload}
use kwmserver.Connection
use kwmserver.Rtm.World.{
  World, Env, Input, Channel, Conn, in_channel, send, send_all, channel_default_config,
}
use kwmserver.Rtm.Hash.{compute_hash}
use kwmserver.Rtm.Channel.{
  store, register, new_channel, new_channel_object, with_channel, wants_pipeline,
}
use kwmserver.Rtm.Channel.Laws.{add_fresh}
use kwmserver.Rtm.Webrtc.Delivery.{IsReady, send_all-others, send_all-delivers, send_all-tables}
use kwmserver.Rtm.Webrtc.{
  process_request, check_request, add_user, send_to_user, may_create, profile_of, reply_channel,
  set_channel_if_absent, lookup_connections,
}

quiet-send :
    (to : Ptr) (msg : Payload) (w : World) → quiet (send to msg w) ≡ (ok tt, (send to msg w).1)
unfolding send Connection.raw_send
quiet-send to msg w = ground arith

module _ (e : Env) (i : Input) (conn : Ptr) (msg : WebRtc) (ur : Ptr) (auth : Option AdminAuthToken)
    (w : World) where
  abbrev pub new_id : String
  new_id = "*" +++ i.random

  abbrev pub caller : String
  caller = (w.user_records ur).id

  abbrev pub issued_hash : String
  issued_hash = e.encode64 (compute_hash e msg.type caller msg.target new_id)

  -- What the target of a call without pipeline gets.
  abbrev pub call_message : WebRtc
  call_message = record msg {
    id = 0;
    source = caller;
    channel = new_id;
    hash = issued_hash;
    payload = none;
    profile = some (profile_of auth);
  }

  -- The state when the target is looked up.
  abbrev pub created : World
  created = (with_channel new_id channel_default_config w).1

  abbrev pub joined : World
  joined =
      (store false w.fresh (new_channel_object new_id channel_default_config none) caller conn
        created).1

  abbrev pub called : World
  called =
      (send conn (reply_channel msg.id new_id issued_hash none)
        (set_channel_if_absent new_id i.now w.fresh joined)).1

  add_user_lem : add_user msg.id w.fresh caller conn created ≡ (ok tt, joined)
  unfolding add_user store
  add_user_lem = ap (kwmserver.Rtm.Webrtc.as_bad_message msg.id) (
      add_fresh w.fresh caller conn created (new_channel_object new_id channel_default_config none)
        (update_self w.channel_objects w.fresh _) refl refl (lookup-empty caller))

  new_channel_lem : w.mcum ≡ false → new_channel e new_id none w ≡ (w.fresh, created)
  unfolding new_channel wants_pipeline
  new_channel_lem off = rw off

  check_request_lem :
      msg.channel ≡ ""
      → msg.hash ≡ ""
      → msg.payload ≡ none
      → may_create auth ≡ true
      → check_request msg auth w ≡ (ok tt, w)
  unfolding check_request
  check_request_lem c h d m = ground (arith, eq_iff msg.channel "", eq_iff msg.hash "")

  joined_object :
      joined.channel_objects w.fresh
      ≡ record (new_channel_object new_id channel_default_config none) {
        connections = insert caller conn [];
      }
  unfolding store register
  joined_object = ground arith

  request_lem :
      w.mcum ≡ false
      → msg.channel ≡ ""
      → msg.hash ≡ ""
      → msg.payload ≡ none
      → may_create auth ≡ true
      → process_request e i conn msg ur auth w
        ≡ send_to_user msg.target 0 (webrtc call_message) called
  unfolding process_request
  request_lem off c h d m =
      rw (check_request_lem c h d m, new_channel_lem off, add_user_lem, joined_object, quiet-send)

  joined_members :
      (j : String) → in_channel called w.fresh j ≡ (if caller == j then some conn else none)
  unfolding send Connection.raw_send
  joined_members j =
      ground (arith, joined_object, lookup-insert caller j conn [], lookup-empty {V = Ptr} j)

  joined_table :
      lookup new_id w.channels ≡ none
      → lookup new_id called.channels ≡ some (record { since = i.now; channel = w.fresh })
  unfolding send store register has
  joined_table new = ground (
    arith,
    string_eq_refl new_id,
    lookup-insert new_id new_id (record { since = i.now; channel = w.fresh }) w.channels,
  )

  called_target :
      (tr : Ptr)
      → lookup msg.target w.users ≡ some tr
      → lookup_connections called msg.target ≡ some (w.user_records tr).connections
  unfolding lookup_connections send store register
  called_target tr known = ground (arith, known)

  pub called_conns : (q : Ptr) → q ≢ conn → called.conns q ≡ w.conns q
  unfolding send store register
  called_conns q other = ground arith

  called_caller :
      IsReady (w.conns conn)
      → (called.conns conn).send
        ≡ (w.conns conn).send ++ reply_channel msg.id new_id issued_hash none ∷ []
  unfolding send Connection.raw_send store register Connection.on_closed
  called_caller ready = ground (arith, ready.open_, ready.room)

  -- The state once the target user is called.
  pub rung_lem :
      (tr : Ptr)
      → w.mcum ≡ false
      → msg.channel ≡ ""
      → msg.hash ≡ ""
      → msg.payload ≡ none
      → may_create auth ≡ true
      → lookup msg.target w.users ≡ some tr
      → process_request e i conn msg ur auth w
        ≡ (ok tt, send_all (w.user_records tr).connections (webrtc call_message) called)
  unfolding send_to_user
  rung_lem tr off c h d m known =
      request_lem off c h d m ∙ rw (called_target tr known, send_to_user) refl

  -- A call request that passes the checks, to a user whom the server knows, on a server without MCU
  -- and under a channel id that is not in use: it succeeds, and the new channel is in the table with
  -- the caller as its only member. Each connection that the target user has once, other than that
  -- of the caller, which is open and has room in its queue, gets the request with the caller as its
  -- source, and the channel and its hash, at the end of its queue. If the connection of the caller
  -- is not one of the target, is open and has room, it gets channel and hash. Nothing changes of any
  -- other connection.
  pub request_rings :
      (tr : Ptr)
      → w.mcum ≡ false
      → msg.channel ≡ ""
      → msg.hash ≡ ""
      → msg.payload ≡ none
      → may_create auth ≡ true
      → lookup new_id w.channels ≡ none
      → lookup msg.target w.users ≡ some tr
      → let r = process_request e i conn msg ur auth w in
        let targets = (w.user_records tr).connections in
        (r.0 ≡ ok tt)
        × (lookup new_id r.1.channels ≡ some (record { since = i.now; channel = w.fresh }))
        × ((j : String) → in_channel r.1 w.fresh j ≡ (if caller == j then some conn else none))
        × ((q : Ptr)
            → count_ptr q targets ≡ 1
            → q ≢ conn
            → IsReady (w.conns q)
            → (r.1.conns q).send ≡ (w.conns q).send ++ webrtc call_message ∷ [])
        × (count_ptr conn targets ≡ 0
            → IsReady (w.conns conn)
            → (r.1.conns conn).send
              ≡ (w.conns conn).send ++ reply_channel msg.id new_id issued_hash none ∷ [])
        × ((q : Ptr) → count_ptr q targets ≡ 0 → q ≢ conn → r.1.conns q ≡ w.conns q)
  request_rings tr off c h d m new known =
      let targets = (w.user_records tr).connections in
      let sent = webrtc call_message in
      let same = rung_lem tr off c h d m known in
      let kept = send_all-tables targets sent called in
      (
        ap (λ y. y.0) same,
        ap (λ y. lookup new_id y.1.channels) same ∙ ap (lookup new_id) kept.0 ∙ joined_table new,
        λ j.
            ap (λ y. in_channel y.1 w.fresh j) same
            ∙ ap (λ (o : Heap Channel). lookup j (o w.fresh).connections) kept.1
            ∙ joined_members j,
        λ q once other ready.
            ap (λ y. (y.1.conns q).send) same
            ∙ send_all-delivers targets q sent called once
                (subst IsReady (sym (called_conns q other)) ready)
            ∙ ap (λ (k : Conn). k.send ++ sent ∷ []) (called_conns q other),
        λ never ready.
            ap (λ y. (y.1.conns conn).send) same
            ∙ ap (λ (k : Conn). k.send) (send_all-others targets conn sent called never)
            ∙ called_caller ready,
        λ q never other.
            ap (λ y. y.1.conns q) same
            ∙ send_all-others targets q sent called never
            ∙ called_conns q other,
      )
