-- ===== src/Admin/Table.antt =====
-- The token table of signaling/admin/manager.go over time, and the tokens endpoint of auth.go.
use kwmserver.Base.{
  ℕ, ◌+◌, ◌≤◌, String, Bool, true, false, Option, none, some, List, [], ◌∷◌, Dict, lookup,
  lookup-insert, lookup-remove, IsMap, insert-IsMap, mem_text, ◌==◌, string_eq, nat_eq,
  if◌then◌else◌, ◌≡◌, ◌≢◌, refl, ap, ◌∙◌, arith, eq_iff, string_eq_refl, ok, Outcome, fail, panic,
  blocked,
}
use kwmserver.Api.{AdminAuthToken}
use kwmserver.Admin.Tokens.{
  Manager, TokenRecord, is_expired, expired_ids, remove_token, remove_tokens, purge_expired_tokens,
  set_token, get_token, refresh_token, pop_token, refreshed,
}
use kwmserver.Admin.Auth.{
  Jwt, record_id, is_valid_admin_auth_token, create_auth_token, remove_auth_token, parsed,
  http_json, http_status, sign_admin_auth_token, issued, with_subject, token_duration, Reply,
  http_error,
}

remove_tokens-lookup :
    (id : String) (ids : List String) (m : Manager)
    → lookup id (remove_tokens ids m).tokens
      ≡ (if mem_text id ids then none else lookup id m.tokens)
unfolding remove_tokens remove_token
remove_tokens-lookup id [] m = refl
remove_tokens-lookup id (x ∷ xs) m =
    ground (arith, remove_tokens-lookup id xs (remove_token x m), lookup-remove x id m.tokens)

-- The record of an id, unless it has expired.
abbrev pub unexpired : ℕ → Option TokenRecord → Option TokenRecord
unexpired now none = none
unexpired now (some r) = if is_expired now r then none else some r

abbrev pub expired_at : ℕ → Option TokenRecord → Bool
expired_at now none = false
expired_at now (some r) = is_expired now r

mem_text-expired_ids :
    (now : ℕ) (id : String) (m : Dict TokenRecord)
    → IsMap m
    → mem_text id (expired_ids now m) ≡ expired_at now (lookup id m)
unfolding expired_ids lookup
mem_text-expired_ids now id [] h = refl
mem_text-expired_ids now id ((k, r) ∷ m) h =
    ground (arith, mem_text-expired_ids now id m h.1, eq_iff k id)

-- The purge removes exactly the records that were last refreshed more than a minute ago.
pub purge-lookup :
    (now : ℕ) (id : String) (m : Manager)
    → IsMap m.tokens
    → lookup id (purge_expired_tokens now m).tokens ≡ unexpired now (lookup id m.tokens)
unfolding purge_expired_tokens
purge-lookup now id m h = ground (
  arith,
  remove_tokens-lookup id (expired_ids now m.tokens) m,
  mem_text-expired_ids now id m.tokens h,
)

-- A token that is known stays valid through every purge of the minute after its refresh.
pub refresh_keeps_valid :
    (t now : ℕ) (token : AdminAuthToken) (m : Manager)
    → IsMap m.tokens
    → is_valid_admin_auth_token m token ≡ true
    → now ≤ t + 60
    → is_valid_admin_auth_token
        (purge_expired_tokens now (refresh_token t (record_id token) m))
        token
      ≡ true
unfolding is_valid_admin_auth_token get_token refresh_token
refresh_keeps_valid t now token m h v young =
    let id = record_id token in
    let r = refreshed t (lookup id m.tokens) in
    ground (
      arith,
      purge-lookup now id (refresh_token t id m) (insert-IsMap id r m.tokens h),
      lookup-insert id id r m.tokens,
      string_eq_refl id,
    )

IsIssued : ℕ → ℕ → Manager → AdminAuthToken → Manager → Type 0
IsIssued now end m token m' =
    (token.type ≡ "Token")
    × (token.expires_at ≡ end)
    × (m' ≡ set_token now (record_id token) (some token) m)

json_of : Reply AdminAuthToken → Option AdminAuthToken
json_of (http_error c s) = none
json_of (http_json t) = some t
json_of (http_status c) = none

issued-IsIssued :
    (now : ℕ) (m : Manager) (t token : AdminAuthToken) (m' : Manager) (o : Outcome String)
    → t.type ≡ "Token"
    → issued now m t o ≡ (http_json token, m')
    → IsIssued now t.expires_at m token m'
unfolding IsIssued json_of set_token
issued-IsIssued now m t token m' (ok v) typed e =
    ground (arith, ap (λ r. json_of r.0) e, ap (λ r. r.1) e)
issued-IsIssued now m t token m' (fail x) typed e = absurd (ground (arith, ap (λ r. json_of r.0) e))
issued-IsIssued now m t token m' panic typed e = absurd (ground (arith, ap (λ r. json_of r.0) e))
issued-IsIssued now m t token m' blocked typed e = absurd (ground (arith, ap (λ r. json_of r.0) e))

create-IsIssued :
    (j : Jwt) (now : ℕ) (random : String) (m : Manager) (request token : AdminAuthToken)
    (m' : Manager)
    → create_auth_token j now random m (parsed request) ≡ (http_json token, m')
    → IsIssued now (now + token_duration) m token m'
unfolding create_auth_token json_of
create-IsIssued j now random m request token m' e =
    let t = record (with_subject random request) { expires_at = now + token_duration } in
    ground (
      arith,
      eq_iff request.type "Token",
      issued-IsIssued now m t token m' (sign_admin_auth_token j now m t),
      ap (λ r. json_of r.0) e,
    )

-- The token that the tokens endpoint hands out is known afterwards, carries the requested type
-- and expires a year later; a delete request for it takes it out again, and answers 204.
pub created_then_removed :
    (j : Jwt) (now : ℕ) (random : String) (m : Manager) (request token : AdminAuthToken)
    (m' : Manager)
    → create_auth_token j now random m (parsed request) ≡ (http_json token, m')
    → token.subject ≢ ""
    → (is_valid_admin_auth_token m' token ≡ true)
      × (token.expires_at ≡ now + token_duration)
      × ((remove_auth_token m' (parsed token)).0 ≡ http_status 204)
      × (is_valid_admin_auth_token (remove_auth_token m' (parsed token)).1 token ≡ false)
unfolding IsIssued is_valid_admin_auth_token get_token set_token remove_auth_token pop_token
created_then_removed j now random m request token m' e filled =
    let i = create-IsIssued j now random m request token m' e in
    let id = record_id token in
    let r : TokenRecord = record { since = now; token = some token } in
    let found : lookup id m'.tokens ≡ some r =
      ap (λ x. lookup id x.tokens) i.2
      ∙ lookup-insert id id r m.tokens
      ∙ ground (arith, string_eq_refl id) in
    ground (
      arith,
      i.0,
      ap (λ x. x == "") i.0,
      i.1,
      found,
      eq_iff token.type "",
      eq_iff token.type "Token",
      eq_iff token.subject "",
      string_eq_refl id,
      lookup-remove id id m'.tokens,
    )
