-- ===== src/Guest/Logon.antt =====
-- signaling/guest/http.go, guest.go and utils.go: the logon of a guest, which answers with a signed
-- request object for the OpenID provider. Parameters are the regular expression, the parsing of
-- URLs, the JWT library, the cleaning of names, and the random texts.
use kwmserver.Base.{
  ℕ, String, ◌+++◌, Bool, true, false, not, Option, none, some, List, [], ◌∷◌, ◌++◌, Dict, ◌==◌,
  string_eq, if◌then◌else◌, Outcome, ok, fail, panic, blocked, trim_space,
}
use kwmserver.Guest.{Claims, is_valid_public_path}
use kwmserver.Clients.{ClientRegistration, Registry, Url, Found, lookup_client}
use kwmserver.Clients.Keys.{Secured, private}

-- ClaimsRequestValue
pub record ClaimsRequestValue : Type 0 where
  pub essential : Bool
  pub value : String

-- ClaimsRequest, as the logon fills it; the pass thru claims are kept as the value that is encoded.
pub record ClaimsRequest : Type 0 where
  pub id_token : Dict ClaimsRequestValue
  pub passthru : Claims

-- RequestObjectClaims
pub record RequestObject : Type 0 where
  pub client_id : String
  pub response_type : String
  pub scope : String
  pub claims : ClaimsRequest

-- GuestLogonResponse; `request` is the value of that extra query parameter.
pub record LogonResponse : Type 0 where
  pub request : String
  pub id : String
  pub name : String

-- What has been written of a reply. The status is that of the first write.
pub data Part : Type 0 where
  error_text : String → Part
  response : LogonResponse → Part

pub record Written : Type 0 where
  pub status : Option ℕ
  pub body : List Part

abbrev pub first_status : Option ℕ → ℕ → Option ℕ
first_status none code = some code
first_status (some c) code = some c

abbrev pub write : ℕ → Part → Written → Written
write code p w = record { status = first_status w.status code; body = w.body ++ p ∷ [] }

-- http.Error
abbrev pub write_error : ℕ → String → Written → Outcome Written
write_error code text w = ok (write code (error_text text) w)

-- A request, with an error of ParseForm if there is one, and the form values.
pub record LogonRequest : Type 0 where
  pub method : String
  pub form_error : Option String
  pub client_id : String
  pub response_type : String
  pub scope : String
  pub guest : String
  pub name : String
  pub path : String
  pub token : String

pub record LogonEnv : Type 0 where
  pub pattern : Option (String → Bool)
  pub parse : String → Option Url
  pub known_alg : String → Bool
  pub sign : String → String → Option String → RequestObject → Option String
  pub sanitize : String → String
  pub random_name : String
  pub random : String

abbrev pub or_random : LogonEnv → String → String
or_random env name = if name == "" then env.random_name else name

-- guestDisplayName
unfoldable pub guest_display_name : LogonEnv → String → String
guest_display_name env name = "(Guest)" +++ or_random env (env.sanitize (trim_space name))

abbrev pub guest_id : LogonEnv → LogonRequest → String
guest_id env req = env.random +++ ("@" +++ (req.guest +++ ".kwmguest"))

abbrev pub request_object : LogonEnv → LogonRequest → String → RequestObject
request_object env req path = record {
  client_id = req.client_id;
  response_type = req.response_type;
  scope = req.scope;
  claims = record {
    id_token =
        ("guest", record { essential = true; value = guest_id env req })
        ∷ ("name", record { essential = false; value = guest_display_name env req.name })
        ∷ [];
    passthru = record { type = req.guest; path = path };
  };
}

-- A request object that cannot be signed is a panic.
abbrev pub respond : LogonEnv → LogonRequest → Option String → Written → Outcome Written
respond env req none w = panic
respond env req (some token) w =
    ok (write 200 (response (record { request = token; id = guest_id env req; name = req.name })) w)

abbrev pub sign_with :
    LogonEnv
    → LogonRequest
    → String
    → ClientRegistration
    → Outcome Secured
    → Written
    → Outcome Written
sign_with env req path c (ok s) w =
    respond env req
      (env.sign c.request_object_signing_alg s.kid s.private_key (request_object env req path)) w
sign_with env req path c (fail e) w = write_error 403 "guest access denied" w
sign_with env req path c panic w = panic
sign_with env req path c blocked w = blocked

-- The client that Lookup found signs the request object.
abbrev pub with_client : LogonEnv → LogonRequest → String → Found → Written → Outcome Written
with_client env req path (ok (details, none)) w = write_error 403 "guest access denied" w
with_client env req path (ok (details, some c)) w =
    if not (env.known_alg c.request_object_signing_alg)
    then write_error 403 "guest access denied" w
    else sign_with env req path c (private c none) w
with_client env req path (fail e) w = write_error 403 "guest access denied" w
with_client env req path panic w = panic
with_client env req path blocked w = blocked

-- The case of a simple guest, with its trimmed path
abbrev pub with_path : LogonEnv → Registry → LogonRequest → String → Written → Outcome Written
with_path env r req path w =
    if path == ""
    then write_error 400 "empty path" w
    else if not (req.token == "")
    then write_error 501 "token validation not implemented" w
    else if not (is_valid_public_path env.pattern path)
    then write_error 403 "guest access denied" w
    else with_client env req path (lookup_client env.parse r req.client_id "" "" true) w

abbrev pub with_guest : LogonEnv → Registry → LogonRequest → Written → Outcome Written
with_guest env r req w =
    if req.guest == "1"
    then with_path env r req (trim_space req.path) w
    else write_error 400 "unknown guest type" w

-- An empty client id writes an error, and the handler goes on.
abbrev pub client_id_written : LogonRequest → Written → Written
client_id_written req w =
    if req.client_id == "" then write 400 (error_text "client_id is empty") w else w

abbrev pub nothing_written : Written
nothing_written = record { status = none; body = [] }

abbrev pub with_form : LogonEnv → Registry → LogonRequest → Option String → Outcome Written
with_form env r req (some e) = write_error 400 e nothing_written
with_form env r req none = with_guest env r req (client_id_written req nothing_written)

abbrev pub with_registry : LogonEnv → Option Registry → LogonRequest → Outcome Written
with_registry env none req = write_error 404 "guest access is not set up" nothing_written
with_registry env (some r) req = with_form env r req req.form_error

-- The handler of MakeHTTPLogonHandler; without a registration file the registry is `none`.
unfoldable pub logon : LogonEnv → Option Registry → LogonRequest → Outcome Written
logon env clients req =
    if not (req.method == "POST")
    then write_error 405 "" nothing_written
    else with_registry env clients req
