-- ===== src/Guest/Tests.antt =====
-- Guests at concrete inputs.
use kwmserver.Base.{
  String, Option, if◌then◌else◌, arith, eq_iff, refl, true, trim_space, trim_left, trim_right,
  lookup, ok, ◌==◌, string_eq, false, none, some, [], ◌∷◌, Dict, ◌≡◌,
}
use kwmserver.Api.{text}
use kwmserver.Rtm.Webrtc.{passes_restriction, may_create}
use kwmserver.Rtm.Example.{example_auth}
use kwmserver.Clients.{ClientRegistration, Registry, lookup_client, validate}
use kwmserver.Clients.Keys.{private, find_key_by_kid, key_with}
use kwmserver.Guest.Logon.{LogonEnv, LogonRequest, LogonResponse, logon, error_text}
use kwmserver.Guest.Answers.{answer_of, response_of}
use kwmserver.Guest.Admitted.{
  IsAdmitted, logon-IsAdmitted, logon_confines, passed_through, ReadsBack,
}
use kwmserver.Guest.{
  Claims, is_valid_public_path, Outer, outer_map, inner_map, apply_restrictions, guest_claim,
}
use kwmserver.Guest.Confined.{admitted, guest_confined}

abbrev example_claims : Dict Outer
example_claims =
    (
      "passthru",
      outer_map (
          ("kopano/kwm/guest", inner_map (("type", text "1") ∷ ("path", text "public/x") ∷ []))
          ∷ []),
    )
    ∷ []

guest_confined_example :
    (passes_restriction
        (some (apply_restrictions false (some example_claims) (example_auth none)).1)
        "team"
      ≡ admitted (guest_claim (some example_claims)) "team")
    × (may_create (some (apply_restrictions false (some example_claims) (example_auth none)).1)
        ≡ false)
guest_confined_example = guest_confined false (some example_claims) (example_auth none) "team"

-- A client with two keys, of which the default one signs.
abbrev example_client : ClientRegistration
example_client = record {
  id = "meet";
  secret = "";
  name = "Meet";
  application_type = "web";
  trusted = true;
  insecure = false;
  origins = [];
  trusted_scopes = [];
  jwks = some (
      record { kid = "a"; use_of = "enc"; public_part = none; private_part = none }
      ∷ record {
        kid = "default";
        use_of = "sig";
        public_part = some "pub";
        private_part = some "priv";
      }
      ∷ []);
  request_object_signing_alg = "ES256";
}

abbrev example_clients : Registry
example_clients = record { trusted_uri = none; clients = ("meet", example_client) ∷ [] }

-- The signature is the key id here.
abbrev example_logon_env : LogonEnv
example_logon_env = record {
  pattern = some (λ s. s == "public/x");
  parse = λ s. none;
  known_alg = λ s. s == "ES256";
  sign = λ alg kid key o. some kid;
  sanitize = λ s. s;
  random_name = "Ann";
  random = "r";
}

abbrev example_logon : LogonRequest
example_logon = record {
  method = "POST";
  form_error = none;
  client_id = "meet";
  response_type = "token";
  scope = "openid";
  guest = "1";
  name = "";
  path = " public/x ";
  token = "";
}

abbrev example_logon_response : LogonResponse
example_logon_response = record { request = "default"; id = "r@1.kwmguest"; name = "" }

example_logon_answer :
    answer_of (logon example_logon_env (some example_clients) example_logon)
    ≡ some example_logon_response
unfolding logon response_of trim_space trim_left trim_right lookup_client lookup validate private
    find_key_by_kid key_with is_valid_public_path
example_logon_answer = refl

logon-IsAdmitted_example :
    IsAdmitted example_logon_env (some example_clients) example_logon example_logon_response
logon-IsAdmitted_example =
    logon-IsAdmitted example_logon_env (some example_clients) example_logon example_logon_response
      example_logon_answer

-- This provider signs for simple guests only, with the path as the token.
abbrev reading_env : LogonEnv
reading_env = record example_logon_env {
  sign =
      λ alg kid key o. if o.claims.passthru.type == "1" then some o.claims.passthru.path else none;
}

abbrev read_path : String → Option Claims
read_path s = some (record { type = "1"; path = s })

reading_env-ReadsBack : ReadsBack reading_env read_path
reading_env-ReadsBack alg kid key o token h = ground (arith, eq_iff o.claims.passthru.type "1")

abbrev reading_response : LogonResponse
reading_response = record example_logon_response { request = "public/x" }

reading_answer :
    answer_of (logon reading_env (some example_clients) example_logon) ≡ some reading_response
unfolding logon response_of trim_space trim_left trim_right lookup_client lookup validate private
    find_key_by_kid key_with is_valid_public_path
reading_answer = refl

logon_confines_example :
    (c : Claims) × (read_path "public/x" ≡ some c)
    × ((group : String)
        → passes_restriction
            (some (apply_restrictions false (some (passed_through c)) (example_auth none)).1)
            group
          ≡ (trim_space " public/x " == group))
    × (is_valid_public_path reading_env.pattern (trim_space " public/x ") ≡ true)
logon_confines_example =
    logon_confines reading_env read_path (some example_clients) example_logon reading_response false
      (example_auth none) reading_env-ReadsBack reading_answer

-- Without a client id two errors are written, and the status is that of the first.
no_client_id_continues :
    logon example_logon_env (some example_clients) (record example_logon { client_id = "" })
    ≡ ok (record {
      status = some 400;
      body = error_text "client_id is empty" ∷ error_text "guest access denied" ∷ [];
    })
unfolding logon trim_space trim_left trim_right lookup_client is_valid_public_path
no_client_id_continues = refl
