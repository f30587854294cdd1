-- ===== src/Admin/Listing.antt =====
-- The list of the tokens (signaling/admin/auth.go) and records without token.
use text.Mathlib.TextPositions.{starts_with-append}
use kwmserver.Base.{
  ℕ, zero, suc, ◌≤◌, ◌<◌, String, ◌+++◌, Bool, true, false, Option, none, some, List, [], ◌∷◌, Dict,
  lookup, insert, remove, ◌==◌, string_eq, if◌then◌else◌, ◌≡◌, ◌≢◌, refl, arith, eq_iff, ok, panic,
  Outcome, length, lookup-insert, string_eq_refl, starts_with, fail, blocked, lookup-remove,
}
use kwmserver.Api.{AdminAuthToken}
use kwmserver.Admin.Tokens.{Manager, TokenRecord, refresh_token}
use kwmserver.Admin.Auth.{list_tokens, list_valid_auth_tokens, record_id, refresh_admin_auth_token}

abbrev pub is_nil : Option TokenRecord → Bool
is_nil none = false
is_nil (some r) = kwmserver.Base.is_none r.token

length-remove : {V : Type 0} → (k : String) (m : Dict V) → length (remove k m) ≤ length m
unfolding remove
length-remove k [] = omega arith
length-remove k ((j, v) ∷ m) = ground (arith, length-remove k m)

length-insert :
    {V : Type 0} → (k : String) (v : V) (m : Dict V) → length (insert k v m) ≤ suc (length m)
unfolding insert
length-insert k v m = ground (arith, length-remove k m)

list_tokens_panics :
    (left : ℕ) (m : Dict TokenRecord) (id : String)
    → starts_with id "admin-" ≡ true
    → is_nil (lookup id m) ≡ true
    → length m ≤ left
    → list_tokens left m ≡ panic
unfolding list_tokens lookup
list_tokens_panics zero [] id p n l = cc
list_tokens_panics zero (x ∷ m) id p n l = absurd (omega arith)
list_tokens_panics (suc left) [] id p n l = cc
list_tokens_panics (suc left) ((k, r) ∷ m) id p n l =
    ground
      (arith, eq_iff k id, list_tokens_panics left m id p, list_tokens_panics (suc left) m id p)

-- A refresh of a token that the table does not know stores a record without token under its id;
-- the list of the tokens fails from then on, while the table has at most 5000 records.
pub refresh_unknown_breaks_list :
    (now : ℕ) (m : Manager) (token : AdminAuthToken)
    → token.type ≡ "Token"
    → lookup (record_id token) m.tokens ≡ none
    → length m.tokens < 5000
    → (list_valid_auth_tokens (refresh_admin_auth_token now m token).1 ≡ panic)
unfolding list_valid_auth_tokens refresh_admin_auth_token refresh_token
refresh_unknown_breaks_list now m token typed unknown small =
    let id = record_id token in
    let r : TokenRecord = record { since = 0; token = none } in
    ground (
      arith,
      eq_iff token.type "Token",
      lookup-insert id id r m.tokens,
      string_eq_refl id,
      starts_with-append "admin-" (token.type +++ ("-" +++ token.subject)),
      length-insert id r m.tokens,
      list_tokens_panics 5000 (insert id r m.tokens) id,
    )
