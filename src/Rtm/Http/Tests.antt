-- ===== src/Rtm/Http/Tests.antt =====
-- Runs of the HTTP handlers, with a guest who asks for a connect key by a bearer token.
use kwmserver.Base.{
  String, true, false, Option, none, some, [], ◌∷◌, lookup, insert, remove, ◌==◌, string_eq,
  if◌then◌else◌, ltb, ◌||◌, ok, ◌≡◌, ◌⊎◌, refl,
}
use kwmserver.Api.{text}
use kwmserver.Turn.{ClientConfig}
use kwmserver.Admin.Tokens.{new_manager}
use kwmserver.Admin.Auth.{Jwt, http_json, http_error, is_valid_basic_auth_request, check_basic_auth}
use kwmserver.Guest.{inner_map, outer_map, apply_restrictions, new_claims_from_map}
use kwmserver.Rtm.Example.{example_world}
use kwmserver.Rtm.Sessions.{Server}
use kwmserver.Rtm.Http.{
  Settings, Request, Granted, Provider, ExtraClaims, no_error, expired, is_request_with_valid_auth,
  bearer_auth,
}
use kwmserver.Rtm.Http.Verified.{IsVerified, granted-IsVerified}
use kwmserver.Rtm.Http.Serve.{
  ConnectResponse, connect_handler, turn_handler, http_websocket_handler, answered,
}
use kwmserver.Rtm.Http.Opening.{IsKeyed, IsRefused, connect-IsKeyed}
use kwmserver.Rtm.Http.Agreeing.{Agrees, turn-connect}
use kwmserver.Rtm.Http.Guests.{IsGuestKey, guest-IsGuestKey}
use kwmserver.Rtm.Sessions.{upgraded}

abbrev example_jwt : Jwt
example_jwt = record {
  sign = λ key kid claims. none;
  header = λ s. none;
  parse = λ f s. record { error = some true; claims = none };
}

-- A guest of the group "team", with an id token that has expired.
abbrev example_claims : ExtraClaims
example_claims = record {
  is_access = true;
  is_valid = true;
  has_scopes = λ scopes. true;
  is_guest = true;
  texts = ("name", text "Guest") ∷ [];
  identity = none;
  authorized = some (
      (
        "passthru",
        outer_map (
            ("kopano/kwm/guest", inner_map (("type", text "1") ∷ ("path", text "team") ∷ [])) ∷ []),
      )
      ∷ []);
}

-- The token is valid until its time.
abbrev example_validate : Provider
example_validate now s = record {
  user_id = "g1";
  std = some (record { subject = "sub"; issuer = "iss"; expires_at = 9000 });
  extra = some example_claims;
  error = if (s == "old") || ltb 9000 now then expired else no_error;
}

abbrev example_config : ClientConfig
example_config = record { username = "u"; password = "p"; ttl = 60; uris = "turn:a" ∷ [] }

abbrev example_settings : Settings
example_settings = record {
  insecure = false;
  required_scopes = "kwm" ∷ [];
  provider = some example_validate;
  guests = some false;
  turn = some (λ user. ok example_config);
}

abbrev example_request : Request
example_request = record {
  header = some ("Bearer", "token");
  user = "";
  id_token = "old";
  auth = "1";
}

abbrev example_route : String → Option String
example_route key = some "/api/v1/websocket/key1"

abbrev example_server : Server
example_server = record { admin = new_manager; rtm = example_world }

abbrev example_response : ConnectResponse
example_response = record {
  url = "/api/v1/websocket/key1";
  self = record { id = "g1"; name = "Guest"; auth = "1" };
  turn = some example_config;
  server_status = example_world.server_status;
}

example_answer :
    (connect_handler example_jwt 1000 example_settings example_route "key1" example_request
      example_server).0
    ≡ ok (http_json example_response)
unfolding connect_handler is_request_with_valid_auth bearer_auth apply_restrictions
    new_claims_from_map lookup
example_answer = refl

guest-IsGuestKey_example :
    IsGuestKey example_settings "key1" example_claims.authorized
      (connect_handler example_jwt 1000 example_settings example_route "key1" example_request
        example_server).1.rtm
guest-IsGuestKey_example =
    guest-IsGuestKey example_jwt 1000 example_settings example_validate example_route "key1" "token"
      example_request example_server example_claims example_response refl refl refl refl
      example_answer

abbrev example_granted : Granted
example_granted = record {
  auth = record {
    subject = "g1";
    type = "Bearer";
    value = "token";
    expires_at = 9000;
    claims = some (("name", text "Guest") ∷ []);
    auth = "1";
    group_restriction = some (("team", true) ∷ []);
    can_create_channels = false;
  };
  user = "g1";
}

granted-IsVerified_example :
    IsVerified example_settings (example_validate 1000) example_request "token" example_granted.auth
    × ("g1" ≡ example_granted.auth.subject)
granted-IsVerified_example =
    granted-IsVerified example_settings example_validate example_request "token" example_jwt 1000
      new_manager example_granted refl refl
      (unfold is_request_with_valid_auth bearer_auth apply_restrictions new_claims_from_map lookup
          insert remove in
        refl)

turn-connect_example :
    Agrees (turn_handler example_jwt 1000 example_settings example_request new_manager) (
      connect_handler example_jwt 1000 example_settings example_route "key1" example_request
        example_server)
turn-connect_example =
    turn-connect 1000 example_settings example_route "key1" "/api/v1/websocket/key1"
      (λ user. ok example_config) refl refl example_jwt example_request example_server

connect-IsKeyed_example :
    IsRefused example_server (
      connect_handler example_jwt 1000 example_settings example_route "key1" example_request
        example_server)
    ⊎ IsKeyed example_jwt 1000 example_settings example_route "key1" example_request example_server
        (connect_handler example_jwt 1000 example_settings example_route "key1" example_request
          example_server)
connect-IsKeyed_example =
    connect-IsKeyed example_jwt 1000 example_settings example_route "key1" example_request
      example_server

-- Basic auth needs a user.
abbrev basic_server : Server
basic_server = record example_server {
  admin = record new_manager {
    auth_basic_enabled = true;
    auth_basic_allowed_values = ("dXNlcg==", true) ∷ [];
  };
}

no_user_refused :
    (connect_handler example_jwt 1000 example_settings example_route "key1"
      (record example_request { header = some ("Basic", "dXNlcg=="); user = "" })
      basic_server).0
    ≡ ok (http_error 403 "auth failed")
unfolding connect_handler is_request_with_valid_auth is_valid_basic_auth_request check_basic_auth
    lookup
no_user_refused = refl

post_refused :
    (http_websocket_handler none 1005 (λ n. "c4") "POST" (some "key1") upgraded example_server).0
    ≡ answered 405
unfolding http_websocket_handler
post_refused = refl
