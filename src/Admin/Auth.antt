-- ===== src/Admin/Auth.antt =====
-- signaling/admin/auth.go: signing and checking of tokens, basic auth, and the handlers of the
-- tokens endpoint. The JWT library is a parameter.
use kwmserver.Base.{
  ℕ, zero, suc, ◌+◌, ◌*◌, String, ◌+++◌, Bool, true, false, not, ◌&&◌, ◌||◌, Option, none, some,
  List, [], ◌∷◌, ◌++◌, Dict, lookup, insert, ltb, ◌==◌, string_eq, nat_eq, if◌then◌else◌, Outcome,
  ok, fail, panic, plain, starts_with,
}
use kwmserver.Api.{AdminAuthToken}
use kwmserver.Admin.Tokens.{Manager, TokenRecord, get_token, set_token, refresh_token, pop_token}

-- jwt.StandardClaims, as far as the server sets and reads them
pub record JwtClaims : Type 0 where
  pub subject : String
  pub expires_at : ℕ
  pub issued_at : ℕ

-- The header fields that the key function reads: is the method an HMAC, and the key id.
pub record JwtHeader : Type 0 where
  pub is_hmac : Bool
  pub kid : Option String

-- What Parser.ParseWithClaims returns: no error, or a ValidationError with or without the flag
-- ValidationErrorSignatureInvalid; and the claims, unless the token is nil.
pub record Parsed : Type 0 where
  pub error : Option Bool
  pub claims : Option JwtClaims

-- The JWT library: signing with a key under a key id, the header of a token string, and parsing
-- with a key function.
pub record Jwt : Type 0 where
  pub sign : List ℕ → String → JwtClaims → Option String
  pub header : String → Option JwtHeader
  pub parse : (JwtHeader → Option (List ℕ)) → String → Parsed

-- getAdminAuthTokenTokensRecordID
abbrev pub record_id : AdminAuthToken → String
record_id token = "admin-" +++ (token.type +++ ("-" +++ token.subject))

abbrev pub signed : Option String → Outcome String
signed none = fail (plain "sign")
signed (some s) = ok s

abbrev pub sign_with : Jwt → ℕ → String → AdminAuthToken → Option (List ℕ) → Outcome String
sign_with j now kid token none = fail (plain "unknown key id")
sign_with j now kid token (some key) = signed (
    j.sign key kid
      (record { subject = token.subject; expires_at = token.expires_at; issued_at = now }))

-- SignAdminAuthToken
unfoldable pub sign_admin_auth_token : Jwt → ℕ → Manager → AdminAuthToken → Outcome String
sign_admin_auth_token j now m token =
    sign_with j now m.tokens_signing_key_id token (lookup m.tokens_signing_key_id m.tokens_keys)

abbrev pub key_of : Manager → Option String → Option (List ℕ)
key_of m none = none
key_of m (some kid) = lookup kid m.tokens_keys

-- The key function that ValidateAdminAuthTokenString gives to the parser; `none` is an error.
unfoldable pub key_function : Manager → JwtHeader → Option (List ℕ)
key_function m h = if h.is_hmac then key_of m h.kid else none

abbrev pub token_of_claims : Option JwtClaims → Outcome AdminAuthToken
token_of_claims none = panic
token_of_claims (some c) = ok (record {
  subject = c.subject;
  type = "";
  value = "";
  expires_at = c.expires_at;
  claims = none;
  auth = "";
  group_restriction = none;
  can_create_channels = false;
})

abbrev pub token_of_parsed : Option Bool → Option JwtClaims → Outcome AdminAuthToken
token_of_parsed none claims = token_of_claims claims
token_of_parsed (some true) claims = fail (plain "token signature invalid failed")
token_of_parsed (some false) claims = token_of_claims claims

-- ValidateAdminAuthTokenString
unfoldable pub validate_admin_auth_token_string : Jwt → Manager → String → Outcome AdminAuthToken
validate_admin_auth_token_string j m s =
    let p = j.parse (key_function m) s in token_of_parsed p.error p.claims

abbrev pub is_token : Option (Option AdminAuthToken) → Bool
is_token none = false
is_token (some none) = false
is_token (some (some t)) = true

-- IsValidAdminAuthToken
unfoldable pub is_valid_admin_auth_token : Manager → AdminAuthToken → Bool
is_valid_admin_auth_token m token =
    if not (token.type == "Token") then false else is_token (get_token (record_id token) m)

-- What is returned with a request: a token, or nil; a panic is `panic`.
abbrev pub Checked : Type 0
Checked = Outcome (Option AdminAuthToken) × Manager

abbrev pub resurrect : ℕ → Manager → AdminAuthToken → Checked
resurrect now m token =
    if is_valid_admin_auth_token m token
    then (ok (some token), m)
    else if ltb now token.expires_at
    then (ok (some token), set_token now (record_id token) (some token) m)
    else (ok none, m)

abbrev pub check_validated : ℕ → Manager → String → Outcome AdminAuthToken → Checked
check_validated now m type (ok t) = resurrect now m (record t { type = type })
check_validated now m type (fail e) = (ok none, m)
check_validated now m type panic = (panic, m)
check_validated now m type kwmserver.Base.blocked = (kwmserver.Base.blocked, m)

-- IsValidAdminAuthTokenRequest. The header is what strings.SplitN made of it: `none` if it has
-- no space.
unfoldable pub is_valid_admin_auth_token_request :
    Jwt → ℕ → Manager → Option (String × String) → Checked
is_valid_admin_auth_token_request j now m none = (ok none, m)
is_valid_admin_auth_token_request j now m (some (type, value)) =
    if not (type == "Token")
    then (ok none, m)
    else check_validated now m type (validate_admin_auth_token_string j m value)

-- SetBasicAuth with values; without, nothing changes.
abbrev pub allowed : List String → Dict Bool
allowed [] = []
allowed (v ∷ vs) = insert v true (allowed vs)

unfoldable pub set_basic_auth : Option (List String) → Manager → Manager
set_basic_auth none m = m
set_basic_auth (some values) m = record m {
  auth_basic_enabled = true;
  auth_basic_allowed_values = allowed values;
}

abbrev pub flag_set : Option Bool → Bool
flag_set none = false
flag_set (some b) = b

-- CheckBasicAuth
unfoldable pub check_basic_auth : Manager → String → Bool
check_basic_auth m value = flag_set (lookup value m.auth_basic_allowed_values)

abbrev pub basic_token : String → AdminAuthToken
basic_token subject = record {
  subject = subject;
  type = "Basic";
  value = "";
  expires_at = 0;
  claims = none;
  auth = "";
  group_restriction = none;
  can_create_channels = false;
}

abbrev pub remember : ℕ → Manager → AdminAuthToken → Manager
remember now m token =
    if is_valid_admin_auth_token m token then m else set_token now (record_id token) (some token) m

-- IsValidBasicAuthRequest, with the header and the form value `user`
unfoldable pub is_valid_basic_auth_request :
    ℕ → Manager → Option (String × String) → String → Option AdminAuthToken × Manager
is_valid_basic_auth_request now m none user = (none, m)
is_valid_basic_auth_request now m (some (type, value)) user =
    if not m.auth_basic_enabled || (not (type == "Basic") || not (check_basic_auth m value))
    then (none, m)
    else if user == ""
    then (none, m)
    else (some (basic_token user), remember now m (basic_token user))

-- RefreshAdminAuthToken
unfoldable pub refresh_admin_auth_token : ℕ → Manager → AdminAuthToken → Bool × Manager
refresh_admin_auth_token now m token =
    if not (token.type == "Token")
    then (false, m)
    else (true, refresh_token now (record_id token) m)

-- An HTTP reply: an error status, a JSON body, or an empty success.
pub data Reply (A : Type 0) : Type 0 where
  http_error : ℕ → String → Reply A
  http_json : A → Reply A
  http_status : ℕ → Reply A

-- adminAuthTokenDuration, one year in seconds
abbrev pub token_duration : ℕ
token_duration = 31536000

abbrev pub issued : ℕ → Manager → AdminAuthToken → Outcome String → Reply AdminAuthToken × Manager
issued now m token (ok value) =
    let t = record token { value = value } in (http_json t, set_token now (record_id t) (some t) m)
issued now m token _ = (http_error 500 "failed to sign token", m)

abbrev pub with_subject : String → AdminAuthToken → AdminAuthToken
with_subject random token = if token.subject == "" then record token { subject = random } else token

-- The body of a request: it cannot be read, it is no JSON of the type, or it has a value.
pub data Body (A : Type 0) : Type 0 where
  unreadable unparsable : Body A
  parsed : A → Body A

-- createAuthToken; `random` is a generated text.
unfoldable pub create_auth_token :
    Jwt → ℕ → String → Manager → Body AdminAuthToken → Reply AdminAuthToken × Manager
create_auth_token j now random m unreadable = (http_error 400 "failed to read request", m)
create_auth_token j now random m unparsable = (http_error 400 "failed to parse", m)
create_auth_token j now random m (parsed token) =
    if token.type == ""
    then (http_error 400 "type cannot be empty", m)
    else if not (token.type == "Token")
    then (http_error 400 "unknown token type", m)
    else if not (token.value == "")
    then (http_error 400 "value must be empty", m)
    else if not (token.expires_at == 0)
    then (http_error 400 "exp must be 0", m)
    else let t = record (with_subject random token) { expires_at = now + token_duration } in
      issued now m t (sign_admin_auth_token j now m t)

abbrev pub listed :
    Option AdminAuthToken → Outcome (List AdminAuthToken) → Outcome (List AdminAuthToken)
listed none rest = panic
listed (some t) (ok ts) = ok (t ∷ ts)
listed (some t) (fail e) = fail e
listed (some t) panic = panic
listed (some t) kwmserver.Base.blocked = kwmserver.Base.blocked

-- The loop of listValidAuthTokens: at most `left` tokens. A nil token fails the type assertion.
unfoldable pub list_tokens : ℕ → Dict TokenRecord → Outcome (List AdminAuthToken)
list_tokens zero m = ok []
list_tokens (suc left) [] = ok []
list_tokens (suc left) ((id, r) ∷ m) = elim (starts_with id "admin-") [
  | true ↦ listed r.token (list_tokens left m)
  | false ↦ list_tokens (suc left) m
]

-- listValidAuthTokens
unfoldable pub list_valid_auth_tokens : Manager → Outcome (List AdminAuthToken)
list_valid_auth_tokens m = list_tokens 5000 m.tokens

abbrev pub removed : Option (Option AdminAuthToken) × Manager → Reply (Unit {0}) × Manager
removed (none, m) = (http_error 404 "404 page not found", m)
removed (some t, m) = (http_status 204, m)

-- removeAuthToken
unfoldable pub remove_auth_token : Manager → Body AdminAuthToken → Reply (Unit {0}) × Manager
remove_auth_token m unreadable = (http_error 400 "failed to read request", m)
remove_auth_token m unparsable = (http_error 400 "failed to parse", m)
remove_auth_token m (parsed token) =
    if token.type == "" || token.subject == ""
    then (http_error 400 "type or value cannot be empty", m)
    else removed (pop_token (record_id token) m)
