-- ===== src/Rtm/Example.antt =====
-- A small server for the tests: two users, their connections, and a channel. The parameters of the
-- model are concrete functions here, which stand for the encoder and the MAC in the tests only.
use Prim.Native.Char.{code}
use Prim.Native.String.{len}
use kwmserver.Base.{
  ℕ, zero, suc, ◌+◌, String, Bool, true, false, Option, none, some, List, [], ◌∷◌, Dict, Ptr, nil,
  Heap, ◌==◌, nat_eq, if◌then◌else◌, nat_beq, ◌≡◌, refl, sym, ap, ◌∙◌, arith,
}
use kwmserver.Api.{AdminAuthToken, WebRtc, raw}
use kwmserver.Mcu.State.{Pipeline, unset, armed}
use kwmserver.Rtm.World.{
  World, Env, Input, Conn, UserRecord, Channel, ChannelConfig, null, channel_default_config,
  ClosedFunc, channel_remove, on_group_replace,
}
use kwmserver.Rtm.Hash.Messages.{Lawful}

put_number : ℕ → String → String
put_number zero s = String.◌∷◌ "|" s
put_number (suc n) s = String.◌∷◌ "1" (put_number n s)

unfoldable pub encode : List ℕ → String
unfolding put_number
encode [] = ""
encode (b ∷ bs) = put_number b (encode bs)

numbers : ℕ → String → List ℕ
numbers k String.[] = []
numbers k (String.◌∷◌ c s) = elim (nat_beq (code c) 49) [
  | true ↦ numbers (suc k) s
  | false ↦ k ∷ numbers 0 s
]

unfoldable pub decode : String → Option (List ℕ)
unfolding numbers
decode s = some (numbers 0 s)

numbers-put_number : (k n : ℕ) (s : String) → numbers k (put_number n s) ≡ (k + n) ∷ numbers 0 s
unfolding numbers put_number
numbers-put_number k zero s = ground arith
numbers-put_number k (suc n) s = numbers-put_number (suc k) n s ∙ ground arith

numbers-encode : (bs : List ℕ) → numbers 0 (encode bs) ≡ bs
unfolding encode numbers
numbers-encode [] = refl
numbers-encode (b ∷ bs) = numbers-put_number 0 b (encode bs) ∙ ground (arith, numbers-encode bs)

abbrev pub example_env : Env
example_env = record {
  hmac = λ s. suc (len s) ∷ [];
  encode64 = encode;
  decode64 = decode;
  decode_accept = λ j. null;
  decode_chats = λ j. null;
  pipeline_forced = none;
}

pub example_Lawful : Lawful example_env
unfolding decode encode numbers
example_Lawful = record {
  decode-encode = λ bs. ap some (numbers-encode bs);
  encode-filled = λ bs filled e. filled (sym (numbers-encode bs) ∙ ap (numbers 0) e);
  hmac-filled = λ s e. ground arith;
}

abbrev pub example_input : Input
example_input = record { now = 1000; random = "r1" }

-- alice has connection 11, bob has 12 and 13.
abbrev pub example_connection : Ptr → List ClosedFunc → Conn
example_connection user callbacks = record {
  id = "conn";
  closed = false;
  send = [];
  start = 900;
  duration = 0;
  ping = [];
  pings = 0;
  read_deadline = 0;
  binder = user;
  on_closed_callbacks = callbacks;
  transactions = [];
}

abbrev pub example_connections : Heap Conn
example_connections p =
    if p == 11
    then example_connection 1 (channel_remove 21 "alice" 11 ∷ [])
    else if p == 12
    then example_connection 2 (channel_remove 21 "bob" 12 ∷ [])
    else if p == 13
    then example_connection 2 []
    else example_connection nil []

abbrev pub example_auth : Option (Dict Bool) → AdminAuthToken
example_auth groups = record {
  subject = "alice";
  type = "Token";
  value = "";
  expires_at = 0;
  claims = none;
  auth = "";
  group_restriction = groups;
  can_create_channels = true;
}

abbrev pub example_user : String → Option AdminAuthToken → List Ptr → UserRecord
example_user id auth conns = record {
  id = id;
  auth = auth;
  since = 900;
  exit = 0;
  connections = conns;
}

abbrev pub example_users : Option (Dict Bool) → Heap UserRecord
example_users groups p =
    if p == 1
    then example_user "alice" (some (example_auth groups)) (11 ∷ [])
    else if p == 2
    then example_user "bob" none (12 ∷ 13 ∷ [])
    else example_user "" none []

-- Channel 21 has alice and bob as its members, through connections 11 and 12.
abbrev pub example_channel : ChannelConfig → Dict Ptr → Channel
example_channel config members = record {
  locked = false;
  closed = false;
  id = "*room";
  config = some config;
  connections = members;
  pipeline = none;
}

abbrev pub example_members : Dict Ptr
example_members = ("alice", 11) ∷ ("bob", 12) ∷ []

abbrev pub example_channels : ChannelConfig → Dict Ptr → Heap Channel
example_channels config members p =
    if p == 21 then example_channel config members else example_channel config []

abbrev pub example_pipeline : Bool → Bool → Ptr → Pipeline
example_pipeline registered closed conn = record {
  plugin = "kwm.rtm.channel";
  handle = 1;
  id = "p1";
  registered = registered;
  connecting = false;
  closed = closed;
  reconnector = unset;
  watcher = armed;
  connection = conn;
}

abbrev pub example_world_with : Option (Dict Bool) → ChannelConfig → Dict Ptr → World
example_world_with groups config members = record {
  conns = example_connections;
  user_records = example_users groups;
  channel_objects = example_channels config members;
  pipelines = λ p. example_pipeline false false nil;
  fresh = 30;
  keys = [];
  users = ("alice", 1) ∷ ("bob", 2) ∷ [];
  channels = ("*room", record { since = 900; channel = 21 }) ∷ [];
  connections = ("c11", 11) ∷ ("c12", 12) ∷ ("c13", 13) ∷ [];
  count = 3;
  server_status = record { kustomer = nil };
  mcum = false;
  mcu_handles = 0;
  tasks = [];
}

abbrev pub example_world : World
example_world = example_world_with none channel_default_config example_members

-- A message on the channel of alice and bob.
abbrev pub example_message : WebRtc
example_message = record {
  id = 7;
  type = "webrtc";
  subtype = "webrtc_signal";
  target = "alice";
  source = "";
  profile = none;
  initiator = false;
  state = "s";
  channel = "*room";
  group = "";
  hash = "";
  version = 20180703;
  transaction = "";
  pcid = "";
  payload = some (raw "null");
}

-- A group as upsert_channel configures it, as far as Add reads it.
abbrev pub example_group : ChannelConfig
example_group = record {
  group = "team";
  replace = some on_group_replace;
  after_add_or_remove = none;
  after_reset = none;
}
