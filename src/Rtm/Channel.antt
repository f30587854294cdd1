-- ===== src/Rtm/Channel.antt =====
-- signaling/rtm/channel.go: the operations of a channel, and Manager.Pipeline of manager.go, which
-- decides whether a new channel gets a pipeline.
pub mod Laws
pub mod Adding
pub mod Locked
pub mod Cleaning
mod Tests
use kwmserver.Base.{
  ℕ, zero, suc, ◌+◌, ◌<◌, String, Bool, true, false, not, ◌&&◌, ◌||◌, Option, none, some, List, [],
  ◌∷◌, ◌++◌, ◌==◌, nat_eq, string_eq, if◌then◌else◌, ◌+++◌, Dict, lookup, insert, remove, length,
  leb, Ptr, nil, update, Heap, is_some, Outcome, ok, fail, panic, blocked, Action, ◌>>=◌, ◌>>◌,
  pure, throw, panics, gets, modify, plain, rtm, no_session_for_user,
}
use kwmserver.Api.{WebRtc, webrtc}
use kwmserver.Connection
use kwmserver.Mcu.State.{Pipeline}
use kwmserver.Rtm.World.{
  World, Call, Conn, Channel, ChannelConfig, ChannelOp, op_add, op_remove, Env, ClosedFunc,
  channel_remove, Task, emit_chats_add_or_remove, after_add_or_remove, pipeline_connect,
  pipeline_close, channel_default_config, send, spawn, set_channel, Replace,
}
use kwmserver.Rtm.Group.{lock, on_group_replace}

abbrev pub default_config : Option ChannelConfig → ChannelConfig
default_config none = channel_default_config
default_config (some config) = config

-- Does Manager.Pipeline return a pipeline for the channel id?
abbrev pub forced : Option (String → Bool) → String → Bool
forced none id = false
forced (some pattern) id = pattern id

unfoldable pub wants_pipeline : Env → World → String → Bool
wants_pipeline e w id = w.mcum && forced e.pipeline_forced id

abbrev pub new_channel_object : String → ChannelConfig → Option Ptr → Channel
new_channel_object id config pipeline = record {
  locked = false;
  closed = false;
  id = id;
  config = some config;
  connections = [];
  pipeline = pipeline;
}

-- mcu.Manager.Pipeline
abbrev pub new_pipeline : ℕ → String → Pipeline
new_pipeline handle id = record {
  plugin = "kwm.rtm.channel";
  handle = handle;
  id = id;
  registered = false;
  connecting = false;
  closed = false;
  reconnector = kwmserver.Mcu.State.unset;
  watcher = kwmserver.Mcu.State.unset;
  connection = nil;
}

abbrev pub with_channel : String → ChannelConfig → World → Ptr × World
with_channel id config w = (
  w.fresh,
  record w {
    channel_objects = update w.channel_objects w.fresh (new_channel_object id config none);
    fresh = suc w.fresh;
  },
)

abbrev pub with_pipeline : String → ChannelConfig → World → Ptr × World
with_pipeline id config w = (
  w.fresh,
  spawn (pipeline_connect (suc w.fresh) w.fresh) (record w {
    channel_objects =
        update w.channel_objects w.fresh (new_channel_object id config (some (suc w.fresh)));
    pipelines = update w.pipelines (suc w.fresh) (new_pipeline (w.mcu_handles + 1) id);
    mcu_handles = w.mcu_handles + 1;
    fresh = suc (suc w.fresh);
  }),
)

-- NewChannel. Connecting the pipeline runs in a goroutine.
unfoldable pub new_channel : Env → String → Option ChannelConfig → World → Ptr × World
new_channel e id config w =
    if wants_pipeline e w id
    then with_pipeline id (default_config config) w
    else with_channel id (default_config config) w

-- What follows the locked part of Add.
abbrev pub emit_if_new : Bool → Ptr → Ptr → String → World → World
emit_if_new true p conn id w = w
emit_if_new false p conn id w = spawn (emit_chats_add_or_remove conn p op_add id) w

-- The source reads the configuration without a test; NewChannel has set one, so the case `none` does
-- not occur there.
abbrev pub after_if_set : Option ChannelConfig → Ptr → ChannelOp → String → World → World
after_if_set none p op id w = w
after_if_set (some config) p op id w =
    if is_some config.after_add_or_remove then spawn (after_add_or_remove p op id) w else w

unfoldable pub register : Ptr → Ptr → String → World → World
register p conn id w = record w {
  conns = update w.conns conn (Connection.on_closed (channel_remove p id conn) (w.conns conn));
}

-- c.connections[id] = conn, Unlock, and the rest of Add
unfoldable pub store : Bool → Ptr → Channel → String → Ptr → Call (Unit {0})
unfolding register
store replacing p c id conn w = (
  ok tt,
  after_if_set c.config p op_add id (
      emit_if_new replacing p conn id (
        register p conn id
          (set_channel p (record c { connections = insert id conn c.connections }) w))),
)

-- Add where the id is taken by another connection. Without a replace handler the source returns
-- while it holds the lock.
unfoldable pub add_replacing :
    Option ChannelConfig → Ptr → Channel → String → Ptr → Ptr → Call (Unit {0})
add_replacing none p c id existing conn = panics
add_replacing (some config) p c id existing conn = elim config.replace [
  | none ↦ λ w. (fail (plain "id already exists"), set_channel p (record c { locked = true }) w)
  | some handler ↦ on_group_replace c.id existing >> store true p c id conn
]

unfoldable pub add_to : Ptr → Channel → String → Ptr → Call (Unit {0})
unfolding store add_replacing
add_to p c id conn = elim (lookup id c.connections) [
  | none ↦ store false p c id conn
  | some existing ↦
      if conn == existing then pure tt else add_replacing c.config p c id existing conn
]

-- Channel.Add
unfoldable pub add : Ptr → String → Ptr → Call (Unit {0})
unfolding add_to lock
add p id conn = do
  c ← lock p
  if c.closed then throw (plain "channel is closed") else add_to p c id conn

-- The pointer in the map, or nil.
abbrev pub or_nil : Option Ptr → Ptr
or_nil none = nil
or_nil (some p) = p

abbrev pub emit_if_present : Ptr → Ptr → String → World → World
emit_if_present existing p id w =
    if existing == nil then w else spawn (emit_chats_add_or_remove existing p op_remove id) w

abbrev pub delete_from : Ptr → Channel → String → World → World
delete_from p c id w = after_if_set c.config p op_remove id (
    emit_if_present (or_nil (lookup id c.connections)) p id
      (set_channel p (record c { connections = remove id c.connections }) w))

-- Channel.remove, with the lock held
unfoldable pub remove_from : Ptr → Channel → String → Ptr → Call (Unit {0})
remove_from p c id conn w =
    if not (conn == nil) && not (or_nil (lookup id c.connections) == conn)
    then (fail (plain "conn does not match"), w)
    else (ok tt, delete_from p c id w)

-- Channel.Remove
unfoldable pub remove_id : Ptr → String → Call (Unit {0})
unfolding remove_from lock
remove_id p id = do c ← lock p; remove_from p c id nil

-- The function that Add registers with OnClosed
unfoldable pub remove_closed : Ptr → String → Ptr → Call (Unit {0})
unfolding remove_from lock
remove_closed p id conn = do c ← lock p; remove_from p c id conn

-- Channel.Get: the connection or nil, and whether the caller may go on.
unfoldable pub get : Ptr → String → Call (Ptr × Bool)
unfolding lock
get p id = do
  c ← lock p
  pure (or_nil (lookup id c.connections), is_some (lookup id c.connections) || is_some c.pipeline)

-- Channel.Size
unfoldable pub size : Ptr → Call ℕ
unfolding lock
size p = do c ← lock p; pure (length c.connections)

-- Channel.canBeCleanedUp
unfoldable pub can_be_cleaned_up : Channel → Bool
can_be_cleaned_up c =
    if is_some c.config then leb (length c.connections) 0 else leb (length c.connections) 1

abbrev pub close_pipeline : Option Ptr → World → World
close_pipeline none w = w
close_pipeline (some pipe) w = spawn (pipeline_close pipe) w

-- Channel.Cleanup
unfoldable pub cleanup : Ptr → Call Bool
unfolding lock can_be_cleaned_up
cleanup p = do
  c ← lock p
  if can_be_cleaned_up c
      then (λ w. (
        ok true,
        close_pipeline c.pipeline (set_channel p (record c { closed = true; pipeline = none }) w),
      ))
      else pure false

-- Pipeline.Send of signaling/mcu/pipeline.go
abbrev pub pipeline_send_to : Pipeline → WebRtc → Call (Unit {0})
pipeline_send_to pipe msg =
    if pipe.closed
    then pure tt
    else if pipe.connection == nil
    then pure tt
    else send pipe.connection (webrtc msg)

unfoldable pub pipeline_send : Ptr → WebRtc → Call (Unit {0})
pipeline_send p msg = do pipe ← gets (λ w. w.pipelines p); pipeline_send_to pipe msg

abbrev pub target_of : Ptr → String → Ptr → Call Ptr
target_of p target conn = if conn == nil then (do r ← get p target; pure r.0) else pure conn

-- Channel.Forward
unfoldable pub forward : Ptr → String → String → Ptr → WebRtc → Call (Unit {0})
unfolding pipeline_send get
forward p source target conn msg = do
  c ← gets (λ w. w.channel_objects p)
  elim c.pipeline [
    | some pipe ↦ pipeline_send pipe (record msg { source = source })
    | none ↦ do
      found ← target_of p target conn
      if found == nil
          then throw (rtm no_session_for_user "target not found" msg.id)
          else send found (webrtc (record msg { source = source; id = 0 }))
  ]

-- Channel.deliver, for messages that come in from the pipeline
unfoldable pub deliver : Ptr → WebRtc → Call (Unit {0})
unfolding get
deliver p msg =
    if msg.source == "" || msg.target == ""
    then throw (rtm no_session_for_user "invalid target" msg.id)
    else do
      r ← get p msg.target
      if r.0 == nil
          then throw (rtm no_session_for_user "target not found" msg.id)
          else send r.0 (webrtc msg)
