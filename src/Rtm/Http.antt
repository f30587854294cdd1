-- ===== src/Rtm/Http.antt =====
-- signaling/rtm/http.go: who may ask for a connect key or for TURN credentials. The OpenID provider
-- is a parameter, and the JWT library that the admin API checks its tokens with.
pub mod Serve
pub mod Granting
pub mod Verified
pub mod Opening
pub mod Agreeing
pub mod Lasting
pub mod Journey
pub mod Guests
mod Tests
use kwmserver.Base.{
  ℕ, String, Bool, true, false, not, ◌&&◌, ◌||◌, Option, none, some, List, length, Dict, lookup,
  ◌==◌, nat_eq, string_eq, if◌then◌else◌, Outcome, ok, fail, panic, blocked, plain, Action, ◌>>=◌,
  ◌>>◌, pure, throw, panics,
}
use kwmserver.Api.{AdminAuthToken, Claim, claim_text, Self, ServerStatus}
use kwmserver.Admin.Tokens.{Manager}
use kwmserver.Admin.Auth.{
  Jwt, Checked, is_valid_admin_auth_token_request, is_valid_basic_auth_request,
  refresh_admin_auth_token, Reply, http_error, http_json,
}
use kwmserver.Guest.{Inner, inner_map, Outer, apply_restrictions}
use kwmserver.Turn.{ClientConfig}
use kwmserver.Rtm.World.{World}
use kwmserver.Rtm.Sessions.{
  Server, Connected, Upgraded, connect, self_of, not_found, forbidden, handshake_failed,
  upgrade_failed, serving, handle_websocket_connect,
}

-- The standard claims of a token, as far as they are read.
pub record StandardClaims : Type 0 where
  pub subject : String
  pub issuer : String
  pub expires_at : ℕ

-- The other claims, as the OpenID library reads them: is the type that of an access token, are they
-- valid, do they have the scopes, is the user a guest; the texts among them, the identity claim, and
-- the authorized claims.
pub record ExtraClaims : Type 0 where
  pub is_access : Bool
  pub is_valid : Bool
  pub has_scopes : List String → Bool
  pub is_guest : Bool
  pub texts : Dict Claim
  pub identity : Option Inner
  pub authorized : Option (Dict Outer)

pub data TokenError : Type 0 where
  no_error expired other_error : TokenError

-- What ValidateTokenString returns; a nil pointer is `none`.
pub record Validated : Type 0 where
  pub user_id : String
  pub std : Option StandardClaims
  pub extra : Option ExtraClaims
  pub error : TokenError

-- The provider, whose ValidateTokenString reads the clock: a token that expires is valid until then.
abbrev pub Provider : Type 0
Provider = ℕ → String → Validated

-- What the manager is set up with; a nil provider, guest manager or TURN server is `none`. Of the
-- guest manager allowGuestOnlyChannels counts.
pub record Settings : Type 0 where
  pub insecure : Bool
  pub required_scopes : List String
  pub provider : Option Provider
  pub guests : Option Bool
  pub turn : Option (String → Outcome ClientConfig)

-- A request: its Authorization header as strings.SplitN makes two parts of it, or `none`, and the
-- form values, which are empty where they are missing.
pub record Request : Type 0 where
  pub header : Option (String × String)
  pub user : String
  pub id_token : String
  pub auth : String

-- The auth of a request with the form value `user` as it is then.
pub record Granted : Type 0 where
  pub auth : AdminAuthToken
  pub user : String

abbrev pub Check : Type 0 → Type 0
Check A = Action Manager A

abbrev pub deref : {A : Type 0} → Option A → Check A
deref none = panics
deref (some a) = pure a

abbrev pub scopes_ok : List String → ExtraClaims → Bool
scopes_ok scopes c = if length scopes == 0 then true else c.has_scopes scopes

abbrev pub check_claims : List String → Option ExtraClaims → Check ExtraClaims
check_claims scopes none = throw (plain "missing access token claim")
check_claims scopes (some c) =
    if c.is_access && (c.is_valid && scopes_ok scopes c)
    then pure c
    else throw (plain "rtm connect bearer auth failed")

abbrev pub check_access : List String → TokenError → Option ExtraClaims → Check ExtraClaims
check_access scopes no_error extra = check_claims scopes extra
check_access scopes expired extra = throw (plain "rtm connect bearer auth failed")
check_access scopes other_error extra = throw (plain "rtm connect bearer auth failed")

abbrev pub match_claims : Option StandardClaims → Option StandardClaims → Check (Unit {0})
match_claims none std = panics
match_claims (some i) none = panics
match_claims (some i) (some s) =
    if (i.subject == s.subject) && (i.issuer == s.issuer)
    then pure tt
    else throw (plain "id token does not match access token")

-- An id token may have expired.
abbrev pub check_id_error : TokenError → Check (Unit {0})
check_id_error no_error = pure tt
check_id_error expired = pure tt
check_id_error other_error = throw (plain "rtm connect bearer auth with id token failed")

abbrev pub id_token_claims : Option StandardClaims → Validated → Check (Option (Dict Claim))
id_token_claims std v = do
  check_id_error v.error
  match_claims v.std std
  extra ← deref v.extra
  pure (some extra.texts)

abbrev pub user_claims :
    (String → Validated) → Option StandardClaims → String → Check (Option (Dict Claim))
user_claims validate std id_token =
    if id_token == "" then pure none else id_token_claims std (validate id_token)

abbrev pub identity_user : Option Inner → String
identity_user (some (inner_map m)) = claim_text (lookup "kc.i.un" m)
identity_user _ = ""

abbrev pub identified : Option Inner → AdminAuthToken → AdminAuthToken
identified i auth =
    if identity_user i == "" then auth else record auth { subject = identity_user i }

abbrev pub by_mode : Option Inner → AdminAuthToken → Check AdminAuthToken
by_mode i auth =
    if (auth.auth == "") || (auth.auth == "0")
    then pure auth
    else if auth.auth == "1"
    then pure (identified i auth)
    else throw (plain "unsupported auth mode")

abbrev pub restricted : Outcome (Unit {0}) × AdminAuthToken → Check AdminAuthToken
restricted (ok u, auth) = pure auth
restricted (fail e, auth) = throw e
restricted (panic, auth) = panics
restricted (blocked, auth) = λ m. (blocked, m)

abbrev pub guest_auth : Option Bool → ExtraClaims → AdminAuthToken → Check AdminAuthToken
guest_auth none c auth = throw (plain "rtm connect as guest but guest support is disabled")
guest_auth (some allow) c auth = restricted (apply_restrictions allow c.authorized auth)

abbrev pub as_guest : Option Bool → ExtraClaims → AdminAuthToken → Check AdminAuthToken
as_guest guests c auth = if c.is_guest then guest_auth guests c auth else pure auth

abbrev pub bearer_token :
    Request → String → String → Option (Dict Claim) → StandardClaims → AdminAuthToken
bearer_token req value user values std = record {
  subject = user;
  type = "Bearer";
  value = value;
  expires_at = std.expires_at;
  claims = values;
  auth = req.auth;
  group_restriction = none;
  can_create_channels = true;
}

-- isRequestWithValidAuth, the case of a bearer token
unfoldable pub bearer_auth :
    Settings → (String → Validated) → Request → String → Check AdminAuthToken
bearer_auth s validate req value = do
  claims ← check_access s.required_scopes (validate value).error (validate value).extra
  values ← user_claims validate (validate value).std req.id_token
  std ← deref (validate value).std
  auth ← by_mode claims.identity (bearer_token req value (validate value).user_id values std)
  as_guest s.guests claims auth

-- A bearer token that is refused is no auth; else the user is the subject.
abbrev pub bearer_granted : Outcome AdminAuthToken × Manager → Outcome (Option Granted) × Manager
bearer_granted (ok auth, m) = (ok (some (record { auth = auth; user = auth.subject })), m)
bearer_granted (fail e, m) = (ok none, m)
bearer_granted (panic, m) = (panic, m)
bearer_granted (blocked, m) = (blocked, m)

-- The auth of the admin API, which may create channels. The field is set in the shared token; no
-- code reads it in the token table.
abbrev pub admin_granted : String → Checked → Outcome (Option Granted) × Manager
admin_granted user (ok none, m) = (ok none, m)
admin_granted user (ok (some auth), m) =
    (ok (some (record { auth = record auth { can_create_channels = true }; user = user })), m)
admin_granted user (fail e, m) = (fail e, m)
admin_granted user (panic, m) = (panic, m)
admin_granted user (blocked, m) = (blocked, m)

abbrev pub with_provider :
    ℕ → Settings → Option Provider → Request → String → Check (Option Granted)
with_provider now s none req value m = (ok none, m)
with_provider now s (some provider) req value m =
    bearer_granted (bearer_auth s (provider now) req value m)

abbrev pub as_checked : Option AdminAuthToken × Manager → Checked
as_checked (auth, m) = (ok auth, m)

abbrev pub with_header :
    Jwt → ℕ → Settings → Request → Option (String × String) → Check (Option Granted)
with_header j now s req none m = (ok none, m)
with_header j now s req (some (type, value)) m =
    if type == "Token"
    then admin_granted req.user (is_valid_admin_auth_token_request j now m (some (type, value)))
    else if type == "Bearer"
    then with_provider now s s.provider req value m
    else if type == "Basic"
    then admin_granted req.user
        (as_checked (is_valid_basic_auth_request now m (some (type, value)) req.user))
    else (ok none, m)

-- isRequestWithValidAuth
unfoldable pub is_request_with_valid_auth : Jwt → ℕ → Settings → Request → Check (Option Granted)
is_request_with_valid_auth j now s req = with_header j now s req req.header
