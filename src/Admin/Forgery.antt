-- ===== src/Admin/Forgery.antt =====
-- Admin tokens of requests (signaling/admin/auth.go): signatures and keys.
use kwmserver.Base.{
  ℕ, ◌<◌, String, Bool, true, false, Option, none, some, List, ◌≡◌, refl, arith, eq_iff, ok,
  lookup-insert, string_eq_refl,
}
use kwmserver.Api.{AdminAuthToken}
use kwmserver.Admin.Tokens.{Manager, get_token, set_token}
use kwmserver.Admin.Auth.{
  Jwt, JwtClaims, JwtHeader, key_function, validate_admin_auth_token_string,
  is_valid_admin_auth_token, is_valid_admin_auth_token_request, record_id, resurrect,
}

-- What the JWT library documents of ParseWithClaims: if the key function returns an error, the
-- token is returned with its claims and an error that has not the flag for a bad signature; if it
-- returns a key that does not fit the signature, the error has that flag.
pub record JwtLaws (j : Jwt) (fits : List ℕ → String → Bool) (claims : String → JwtClaims)
    : Type 0 where
  pub unverifiable :
      (kf : JwtHeader → Option (List ℕ)) (s : String) (h : JwtHeader)
      → j.header s ≡ some h
      → kf h ≡ none
      → j.parse kf s ≡ record { error = some false; claims = some (claims s) }
  pub bad_signature :
      (kf : JwtHeader → Option (List ℕ)) (s : String) (h : JwtHeader) (key : List ℕ)
      → j.header s ≡ some h
      → kf h ≡ some key
      → fits key s ≡ false
      → j.parse kf s ≡ record { error = some true; claims = some (claims s) }

resurrect-valid :
    (now : ℕ) (m : Manager) (t : AdminAuthToken)
    → t.type ≡ "Token"
    → now < t.expires_at
    → ((resurrect now m t).0 ≡ ok (some t))
      × (is_valid_admin_auth_token (resurrect now m t).1 t ≡ true)
unfolding is_valid_admin_auth_token get_token set_token
resurrect-valid now m t typed future = ground (
  arith,
  eq_iff t.type "Token",
  lookup-insert (record_id t) (record_id t) (record { since = now; token = some t }) m.tokens,
  string_eq_refl (record_id t),
)

module _ {j : Jwt} {fits : List ℕ → String → Bool} {claims : String → JwtClaims}
    (l : JwtLaws j fits claims) where
  -- A token string that names a known key and is not signed with it is refused.
  pub bad_signature_refused :
      (now : ℕ) (m : Manager) (s : String) (h : JwtHeader) (key : List ℕ)
      → j.header s ≡ some h
      → key_function m h ≡ some key
      → fits key s ≡ false
      → is_valid_admin_auth_token_request j now m (some ("Token", s)) ≡ (ok none, m)
  unfolding is_valid_admin_auth_token_request validate_admin_auth_token_string
  bad_signature_refused now m s h key hd k f =
      rw (l.bad_signature (key_function m) s h key hd k f) (ground (arith, eq_iff "Token" "Token"))

  -- A token string that names no known key, or another method than an HMAC, is accepted with
  -- whatever subject and expiry it states, as long as that expiry is in the future: no signature
  -- was checked. In the state right after it counts as valid.
  pub unknown_key_accepted :
      (now : ℕ) (m : Manager) (s : String) (h : JwtHeader)
      → j.header s ≡ some h
      → key_function m h ≡ none
      → now < (claims s).expires_at
      → (t : AdminAuthToken) × ((is_valid_admin_auth_token_request j now m (some ("Token", s))).0
          ≡ ok (some t))
        × (t.subject ≡ (claims s).subject)
        × (is_valid_admin_auth_token
              (is_valid_admin_auth_token_request j now m (some ("Token", s))).1
              t
            ≡ true)
  unfolding is_valid_admin_auth_token_request validate_admin_auth_token_string
  unknown_key_accepted now m s h hd k future =
      let t : AdminAuthToken = record {
        subject = (claims s).subject;
        type = "Token";
        value = "";
        expires_at = (claims s).expires_at;
        claims = none;
        auth = "";
        group_restriction = none;
        can_create_channels = false;
      } in
      let r = resurrect-valid now m t refl future in
      rw (l.unverifiable (key_function m) s h hd k) (t, r.0, refl, r.1)
