-- ===== src/Admin/Accepted.antt =====
-- signaling/admin/auth.go: the token of a request that was accepted, in the token table.
use kwmserver.Base.{
  ℕ, String, true, some, lookup, lookup-insert, ltb, string_eq, Outcome, ok, fail, panic, blocked,
  ◌≡◌, refl, arith, eq_iff, string_eq_refl, Bool-cases, inl, inr, subst,
}
use kwmserver.Api.{AdminAuthToken}
use kwmserver.Admin.Tokens.{Manager, get_token, set_token, refresh_token, refreshed}
use kwmserver.Admin.Auth.{
  Jwt, record_id, is_valid_admin_auth_token, resurrect, check_validated,
  is_valid_admin_auth_token_request, refresh_admin_auth_token, validate_admin_auth_token_string,
}

-- A token that the table knows, and would let in again.
abbrev pub IsKnown : Manager → AdminAuthToken → Type 0
IsKnown m a = (a.type ≡ "Token") × (is_valid_admin_auth_token m a ≡ true)

set_token-IsKnown :
    (now : ℕ) (m : Manager) (t : AdminAuthToken)
    → t.type ≡ "Token"
    → IsKnown (set_token now (record_id t) (some t) m) t
unfolding is_valid_admin_auth_token get_token set_token
set_token-IsKnown now m t typed = (
  typed,
  ground (
    arith,
    eq_iff t.type "Token",
    lookup-insert (record_id t) (record_id t) (record { since = now; token = some t }) m.tokens,
    string_eq_refl (record_id t),
  ),
)

resurrect-IsKnown :
    (now : ℕ) (m : Manager) (t a : AdminAuthToken)
    → t.type ≡ "Token"
    → (resurrect now m t).0 ≡ ok (some a)
    → IsKnown (resurrect now m t).1 a
resurrect-IsKnown now m t a typed h = elim (Bool-cases (is_valid_admin_auth_token m t)) [
  | inl v ↦ let same : t ≡ a = ground arith in rw v (subst (IsKnown m) (same) (typed, v))
  | inr v ↦ elim (Bool-cases (ltb now t.expires_at)) [
    | inl f ↦
        let same : t ≡ a = ground arith in
        let known = set_token-IsKnown now m t typed in
        rw (v, f) (subst (IsKnown (set_token now (record_id t) (some t) m)) (same) known)
    | inr f ↦ absurd (ground arith)
  ]
]

check_validated-IsKnown :
    (now : ℕ) (m : Manager) (o : Outcome AdminAuthToken) (a : AdminAuthToken)
    → (check_validated now m "Token" o).0 ≡ ok (some a)
    → IsKnown (check_validated now m "Token" o).1 a
check_validated-IsKnown now m (ok t) a h =
    resurrect-IsKnown now m (record t { type = "Token" }) a refl h
check_validated-IsKnown now m (fail e) a h = absurd (ground arith)
check_validated-IsKnown now m panic a h = absurd (ground arith)
check_validated-IsKnown now m blocked a h = absurd (ground arith)

-- The token of a request that is let in is known from then on.
pub request-IsKnown :
    (j : Jwt) (now : ℕ) (m : Manager) (value : String) (a : AdminAuthToken)
    → (is_valid_admin_auth_token_request j now m (some ("Token", value))).0 ≡ ok (some a)
    → IsKnown (is_valid_admin_auth_token_request j now m (some ("Token", value))).1 a
unfolding is_valid_admin_auth_token_request
request-IsKnown j now m value a h =
    check_validated-IsKnown now m (validate_admin_auth_token_string j m value) a h

-- A refresh keeps what is known.
pub refresh-IsKnown :
    (now : ℕ) (m : Manager) (a : AdminAuthToken)
    → IsKnown m a
    → IsKnown (refresh_admin_auth_token now m a).1 a
unfolding refresh_admin_auth_token refresh_token is_valid_admin_auth_token get_token
refresh-IsKnown now m a known = (
  known.0,
  ground (
    arith,
    known.1,
    eq_iff a.type "Token",
    lookup-insert (record_id a) (record_id a) (refreshed now (lookup (record_id a) m.tokens))
        m.tokens,
    string_eq_refl (record_id a),
  ),
)
