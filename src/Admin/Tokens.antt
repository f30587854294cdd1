-- ===== src/Admin/Tokens.antt =====
-- signaling/admin/manager.go: the token table and the signing keys. Times are in seconds; the zero
-- time of Go is 0, which is before every deadline of a running server.
use kwmserver.Base.{
  ℕ, ◌+◌, String, Bool, false, Option, none, some, List, [], ◌∷◌, Dict, lookup, insert, remove, has,
  ltb, if◌then◌else◌,
}
use kwmserver.Api.{AdminAuthToken}

-- tokenExpiration
abbrev pub token_expiration : ℕ
token_expiration = 60

-- tokenRecord; a nil token is `none`.
pub record TokenRecord : Type 0 where
  pub since : ℕ
  pub token : Option AdminAuthToken

pub record Manager : Type 0 where
  pub tokens : Dict TokenRecord
  pub tokens_keys : Dict (List ℕ)
  pub tokens_signing_key_id : String
  pub auth_basic_enabled : Bool
  pub auth_basic_allowed_values : Dict Bool

-- NewManager
abbrev pub new_manager : Manager
new_manager = record {
  tokens = [];
  tokens_keys = [];
  tokens_signing_key_id = "";
  auth_basic_enabled = false;
  auth_basic_allowed_values = [];
}

abbrev pub is_expired : ℕ → TokenRecord → Bool
is_expired now r = ltb (r.since + token_expiration) now

-- The first loop of purgeExpiredTokens: the ids of the records that expired.
unfoldable pub expired_ids : ℕ → Dict TokenRecord → List String
expired_ids now [] = []
expired_ids now ((id, r) ∷ m) =
    let rest = expired_ids now m in if is_expired now r then id ∷ rest else rest

-- RemoveToken
unfoldable pub remove_token : String → Manager → Manager
remove_token id m = record m { tokens = remove id m.tokens }

unfoldable pub remove_tokens : List String → Manager → Manager
remove_tokens [] m = m
remove_tokens (id ∷ ids) m = remove_tokens ids (remove_token id m)

-- purgeExpiredTokens
unfoldable pub purge_expired_tokens : ℕ → Manager → Manager
purge_expired_tokens now m = remove_tokens (expired_ids now m.tokens) m

-- AddTokenKey, AddTokenSigningKey
unfoldable pub add_token_key : String → List ℕ → Manager → Manager
add_token_key id value m = record m { tokens_keys = insert id value m.tokens_keys }

unfoldable pub add_token_signing_key : String → List ℕ → Manager → Manager
unfolding add_token_key
add_token_signing_key id value m = record (add_token_key id value m) { tokens_signing_key_id = id }

-- SetToken
unfoldable pub set_token : ℕ → String → Option AdminAuthToken → Manager → Manager
set_token now id token m = record m {
  tokens = insert id (record { since = now; token = token }) m.tokens;
}

abbrev pub record_token : Option TokenRecord → Option (Option AdminAuthToken)
record_token none = none
record_token (some r) = some r.token

-- GetToken: `none` if the id is not known.
unfoldable pub get_token : String → Manager → Option (Option AdminAuthToken)
get_token id m = record_token (lookup id m.tokens)

-- HasToken
unfoldable pub has_token : String → Manager → Bool
has_token id m = has id m.tokens

-- PopToken
unfoldable pub pop_token : String → Manager → Option (Option AdminAuthToken) × Manager
pop_token id m = (record_token (lookup id m.tokens), record m { tokens = remove id m.tokens })

abbrev pub refreshed : ℕ → Option TokenRecord → TokenRecord
refreshed now none = record { since = 0; token = none }
refreshed now (some r) = record r { since = now }

-- RefreshToken: an id that is not known gets an empty record.
unfoldable pub refresh_token : ℕ → String → Manager → Manager
refresh_token now id m = record m {
  tokens = insert id (refreshed now (lookup id m.tokens)) m.tokens;
}
