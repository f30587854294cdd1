-- ===== src/Rtm/Chats/Tests.antt =====
-- Chats at concrete inputs.
use kwmserver.Base.{
  trim_space, trim_left, trim_right, none, some, ◌≡◌, refl, arith, lookup, nat_eq, string_eq,
}
use kwmserver.Api.{Chats, ChatsMessage, raw}
use kwmserver.Rtm.World.{Env, value}
use kwmserver.Rtm.Webrtc.Rules.{Refused}
use kwmserver.Rtm.Chats.{process_chats, byte_length}
use kwmserver.Rtm.Chats.Members.{chats_confined, stranger-Refused}
use kwmserver.Rtm.Example.{example_env, example_input, example_world}

abbrev greeting : ChatsMessage
greeting = record {
  kind = "";
  sender = "";
  target = "";
  ts = 0;
  text = " hi ";
  rich_text = "";
  id = "";
  extra = none;
}

abbrev chatting_env : Env
chatting_env = record example_env { decode_chats = λ j. value greeting }

abbrev to_room : Chats
to_room = record {
  id = 5;
  type = "chats";
  subtype = "chats_message";
  channel = "*room";
  profile = none;
  group = "";
  version = 20201201;
  payload = some (raw "{}");
}

trim_space_test : trim_space " hi there " ≡ "hi there"
unfolding trim_space trim_left trim_right
trim_space_test = refl

byte_length_test : byte_length "hé" ≡ 3
unfolding byte_length
byte_length_test = refl

-- bob writes through 12, and 13, which is not in the channel, gets nothing.
chats_confined_example :
    (process_chats chatting_env example_input 12 to_room example_world).1.conns 13
    ≡ example_world.conns 13
chats_confined_example =
    chats_confined chatting_env example_input 12 13 to_room example_world refl
      (unfold lookup in refl)

stranger-Refused_example :
    Refused (process_chats chatting_env example_input 13 to_room example_world) example_world
stranger-Refused_example =
    stranger-Refused chatting_env example_input 13 to_room example_world
      (record { since = 900; channel = 21 }) (unfold lookup in refl) refl
      (unfold lookup in λ e. ground arith) λ e. ground arith
