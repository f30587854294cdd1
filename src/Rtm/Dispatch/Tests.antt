-- ===== src/Rtm/Dispatch/Tests.antt =====
-- Text messages at concrete inputs.
use kwmserver.Base.{ℕ, none, some, true, false, ◌≡◌, refl, ok}
use kwmserver.Admin.Tokens.{new_manager}
use kwmserver.Admin.Auth.{Jwt}
use kwmserver.Rtm.Sessions.{Server}
use kwmserver.Rtm.Dispatch.{Text, ServerCall, on_text}
use kwmserver.Rtm.Dispatch.Hidden.{tells, text_hides_sessions}
use kwmserver.Rtm.Example.{example_env, example_input, example_world, example_message}

abbrev example_server : Server
example_server = record { admin = new_manager; rtm = example_world }

abbrev example_jwt : Jwt
example_jwt = record {
  sign = λ key kid c. none;
  header = λ s. none;
  parse = λ kf s. record { error = some true; claims = none };
}

-- alice calls somebody who is not there.
abbrev call_text : Text
call_text = record {
  transaction = "";
  type = "webrtc";
  ping = none;
  webrtc = some (record example_message {
    subtype = "webrtc_call";
    target = "nobody";
    initiator = true;
    channel = "";
    payload = none;
  });
  chats = none;
}

abbrev no_reply : ℕ → ServerCall
no_reply cb s = (ok tt, s)

text_hides_sessions_example :
    tells
      (on_text no_reply example_jwt example_env example_input 11 (some call_text) example_server).0
    ≡ false
text_hides_sessions_example =
    text_hides_sessions no_reply example_jwt example_env example_input 11 (some call_text)
      example_server refl
