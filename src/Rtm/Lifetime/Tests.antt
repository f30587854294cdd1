-- ===== src/Rtm/Lifetime/Tests.antt =====
-- The life of a connection at concrete inputs.
use kwmserver.Base.{
  ℕ, String, Ptr, none, some, [], ◌∷◌, false, true, List, ◌≡◌, refl, ap, ok, fail, plain, arith,
  lookup, insert, nat_eq, string_eq,
}
use kwmserver.Admin.Tokens.{new_manager}
use kwmserver.Admin.Auth.{Jwt}
use kwmserver.Connection
use kwmserver.Rtm.World.{channel_default_config, in_channel, send}
use kwmserver.Rtm.Group.{lock}
use kwmserver.Rtm.Channel.{add, add_to, store, register}
use kwmserver.Rtm.Close.Histories.{here}
use kwmserver.Rtm.Close.Leaves.{IsUnlocked}
use kwmserver.Rtm.Sessions.{Server, on_connect, on_error}
use kwmserver.Rtm.Dispatch.{ServerCall, on_text, read_text}
use kwmserver.Rtm.Example.{example_env, example_input, example_world_with}
use kwmserver.Rtm.Lifetime.{
  Frame, text, other_kind, pong, meanwhile, read_all, read_loop, serve_websocket_connection,
}
use kwmserver.Rtm.Lifetime.Calls.{adds-Goes}
use kwmserver.Rtm.Lifetime.Loop.{AllSpare, Spares, IsSparing}
use kwmserver.Rtm.Lifetime.Ends.{IsGone, returns, served-IsGone}

abbrev no_jwt : Jwt
no_jwt = record {
  sign = λ key kid c. none;
  header = λ s. none;
  parse = λ kf s. record { error = some true; claims = none };
}

abbrev no_reply : ℕ → ServerCall
no_reply cb s = (ok tt, s)

abbrev empty_server : Server
empty_server = record {
  admin = new_manager;
  rtm = example_world_with none channel_default_config [];
}

-- Somebody puts connection 15 into the channel while its reader waits.
abbrev joined : Server → Server
joined s = record s { rtm = (add 21 "carol" 15 s.rtm).1 }

-- A pong, a message that is no text, the join, and a text that does not decode, which ends the loop.
abbrev frames : List Frame
frames = pong 1000 [] ∷ other_kind ∷ meanwhile joined ∷ text example_input none ∷ []

abbrev after_reading : kwmserver.Base.Outcome (Unit {0}) × Server
after_reading = read_all no_reply no_jwt example_env 1000 15 frames none empty_server

after_reading_lem :
    (after_reading.0 ≡ fail (plain "json")) × (in_channel after_reading.1.rtm 21 "carol" ≡ some 15)
unfolding read_all read_loop read_text on_text on_error on_connect send add add_to store register
    lock lookup insert Connection.on_closed Connection.pong Connection.raw_send
after_reading_lem = (refl, refl)

empty_lem : (p : Ptr) (id : String) → in_channel empty_server.rtm p id ≡ none
unfolding lookup
empty_lem p id = ground arith

no_reply-IsSparing : (cb : ℕ) → IsSparing 15 (no_reply cb)
no_reply-IsSparing cb = record { spares = λ s. record { reach = here; same_closed = refl } }

joined-Spares : (s : Server) → Spares 15 s (joined s)
joined-Spares s =
    let g = adds-Goes s.rtm 21 "carol" 15 in
    record { reach = g.reach; same_closed = g.same_closed 15 }

frames-AllSpare : AllSpare 15 frames
unfolding AllSpare
frames-AllSpare = (joined-Spares, tt)

after_reading-IsUnlocked : IsUnlocked after_reading.1.rtm
unfolding read_all read_loop read_text on_text on_error on_connect send add add_to store register
    lock lookup insert Connection.on_closed Connection.pong Connection.raw_send
after_reading-IsUnlocked = record { unlocked = λ p. ground arith }

served-IsGone_example : IsGone 15 "c15" (
    serve_websocket_connection no_reply no_jwt example_env 1000 1060 15 "c15" frames none
      empty_server)
served-IsGone_example =
    served-IsGone no_reply no_jwt example_env 1000 1060 15 "c15" frames none empty_server empty_lem
      here refl no_reply-IsSparing frames-AllSpare (ap returns after_reading_lem.0)
      after_reading-IsUnlocked
