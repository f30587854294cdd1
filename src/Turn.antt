-- ===== src/Turn.antt =====
-- turn/config.go, turn.go, sharedecret.go and serverauth.go: credentials for a TURN server, made
-- from a shared secret, or fetched from a web service. An int64 is kept as its 64 bits, a number
-- below 2 ^ 64. HMAC-SHA1, base64, SHA-256, decimal numbers and the web service are parameters.
pub mod Expiry
mod Tests
use kwmserver.Base.{
  ℕ, ◌+◌, ◌%◌, ◌^◌, String, ◌+++◌, Bool, true, false, not, ◌||◌, Option, none, some, List, length,
  ltb, ◌==◌, nat_eq, string_eq, if◌then◌else◌, Outcome, ok, fail, panic, blocked, plain,
}

-- DefaultServerTTL
abbrev pub default_server_ttl : ℕ
default_server_ttl = 3600

-- ClientConfig
pub record ClientConfig : Type 0 where
  pub username : String
  pub password : String
  pub ttl : ℕ
  pub uris : List String

-- Is an int64 less than the number n, which is below 2 ^ 63?
abbrev pub int64_ltb : ℕ → ℕ → Bool
int64_ltb x n = not (ltb x (2 ^ 63)) || ltb x n

-- SharedsecretServer
pub record SharedsecretServer : Type 0 where
  pub ttl : ℕ
  pub shared_secret : List ℕ
  pub uris : List String

-- NewSharedsecretServer
unfoldable pub new_sharedsecret_server : List String → List ℕ → ℕ → SharedsecretServer
new_sharedsecret_server uris secret ttl = record {
  ttl = if ttl == 0 then default_server_ttl else ttl;
  shared_secret = secret;
  uris = uris;
}

-- What the credentials are made with: fmt's %d of an int64, HMAC-SHA1 with a key, and base64.
pub record Crypto : Type 0 where
  pub decimal : ℕ → String
  pub hmac : List ℕ → String → List ℕ
  pub encode64 : List ℕ → String

-- GenerateUsername
unfoldable pub generate_username : Crypto → ℕ → SharedsecretServer → String → String
generate_username c now s user = c.decimal ((now + s.ttl) % 2 ^ 64) +++ (":" +++ user)

-- GenerateTURNPassword
unfoldable pub generate_turn_password : Crypto → SharedsecretServer → String → String
generate_turn_password c s user = c.encode64 (c.hmac s.shared_secret user)

-- SharedsecretServer.GetConfig
unfoldable pub get_config : Crypto → ℕ → SharedsecretServer → String → Outcome ClientConfig
unfolding generate_username generate_turn_password
get_config c now s user = ok (record {
  username = generate_username c now s user;
  password = generate_turn_password c s (generate_username c now s user);
  ttl = s.ttl;
  uris = s.uris;
})

-- serverResponse
pub record ServerResponse : Type 0 where
  pub username : String
  pub password : String
  pub ttl : ℕ
  pub uris : List String

-- serverResponse.ClientConfig
unfoldable pub client_config : ServerResponse → Outcome ClientConfig
client_config r =
    if (r.username == "") || (length r.uris == 0)
    then fail (plain "TURN service data not available")
    else ok (record {
      username = r.username;
      password = r.password;
      ttl = if int64_ltb r.ttl 60 then 60 else r.ttl;
      uris = r.uris;
    })

-- ServerAuthServer
pub record ServerAuthServer : Type 0 where
  pub url : String
  pub username : String
  pub password : String

-- The request to the service: a GET with a header for the user and with basic auth.
pub record ServiceRequest : Type 0 where
  pub url : String
  pub user_header : String
  pub username : String
  pub password : String

-- What the service answers: a status, and the body if it decodes.
pub record ServiceReply : Type 0 where
  pub status : ℕ
  pub body : Option ServerResponse

-- The web: SHA-256 in URL base64, whether a request can be made for a URL, and the HTTP client,
-- whose error is `none`.
pub record Web : Type 0 where
  pub hash : String → String
  pub valid_url : String → Bool
  pub send : ServiceRequest → Option ServiceReply

abbrev pub decoded_config : Option ServerResponse → Outcome ClientConfig
decoded_config none = fail (plain "decode")
decoded_config (some r) = client_config r

abbrev pub replied : Option ServiceReply → Outcome ClientConfig
replied none = fail (plain "request")
replied (some r) =
    if not (r.status == 200)
    then fail (plain "TURN service unexpected response status")
    else decoded_config r.body

abbrev pub service_request : Web → ServerAuthServer → String → ServiceRequest
service_request web s user = record {
  url = s.url;
  user_header = web.hash user;
  username = s.username;
  password = s.password;
}

-- ServerAuthServer.GetConfig
unfoldable pub get_service_config : Web → ServerAuthServer → String → Outcome ClientConfig
get_service_config web s user =
    if not (web.valid_url s.url)
    then fail (plain "invalid url")
    else replied (web.send (service_request web s user))
