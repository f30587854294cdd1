-- ===== src/Rtm/Http/Lasting.antt =====
-- signaling/rtm/http.go and handlers.go: the auth of a request, as the websocket checks it again.
use kwmserver.Base.{
  ℕ, String, Bool, true, Option, none, some, ◌==◌, string_eq, nat_eq, Outcome, ok, fail, panic,
  blocked, ◌≡◌, inl, inr, refl, sym, subst, ap, ◌∙◌, arith, eq_iff, Bool-cases,
}
use kwmserver.Api.{AdminAuthToken}
use kwmserver.Admin.Tokens.{Manager}
use kwmserver.Admin.Auth.{
  Jwt, Checked, is_valid_admin_auth_token, is_valid_admin_auth_token_request,
  is_valid_basic_auth_request, refresh_admin_auth_token,
}
use kwmserver.Admin.Accepted.{IsKnown, request-IsKnown, refresh-IsKnown}
use kwmserver.Rtm.Sessions.{still_valid, bearer_valid}
use kwmserver.Rtm.Http.{
  Settings, Request, Granted, Provider, is_request_with_valid_auth, with_header, admin_granted,
  as_checked, with_provider, bearer_auth,
}
use kwmserver.Rtm.Http.Verified.{bearer-IsVerified, bearer_granted-ok}
use kwmserver.Rtm.Http.Serve.{revalidate, no_failure}

-- The provider does not refuse a token later that it did not refuse before.
abbrev pub Lasts : Option Provider → ℕ → ℕ → String → Type 0
Lasts p now later value =
    bearer_valid (revalidate now p) value ≡ true → bearer_valid (revalidate later p) value ≡ true

-- What the websocket checks later of an auth that was granted on this state.
abbrev pub IsStillValid : ℕ → ℕ → Settings → Outcome (Option Granted) × Manager → Granted → Type 0
IsStillValid now later s r g =
    still_valid (revalidate later s.provider) (refresh_admin_auth_token now r.1 g.auth).1 g.auth
    ≡ true

still_valid-known :
    (provider : Option (String → Bool)) (m : Manager) (a : AdminAuthToken)
    → IsKnown m a
    → still_valid provider m a ≡ true
unfolding still_valid
still_valid-known provider m a known = ground (arith, known.0, known.1, eq_iff a.type "Token")

still_valid-basic :
    (provider : Option (String → Bool)) (m : Manager) (a : AdminAuthToken)
    → a.type ≡ "Basic"
    → still_valid provider m a ≡ true
unfolding still_valid
still_valid-basic provider m a e =
    ground (arith, ap (λ x. x == "Token") e, ap (λ x. x == "Bearer") e)

still_valid-bearer :
    (provider : Option (String → Bool)) (m : Manager) (a : AdminAuthToken)
    → a.type ≡ "Bearer"
    → bearer_valid provider a.value ≡ true
    → still_valid provider m a ≡ true
unfolding still_valid
still_valid-bearer provider m a e v =
    ground (arith, ap (λ x. x == "Token") e, ap (λ x. x == "Bearer") e, v)

creating-IsKnown :
    (m : Manager) (a : AdminAuthToken)
    → IsKnown m a
    → IsKnown m (record a { can_create_channels = true })
unfolding is_valid_admin_auth_token
creating-IsKnown m a known = known

token-IsStillValid :
    (now later : ℕ) (s : Settings) (user : String) (c : Checked) (g : Granted)
    → ((a : AdminAuthToken) → c.0 ≡ ok (some a) → IsKnown c.1 a)
    → (admin_granted user c).0 ≡ ok (some g)
    → IsStillValid now later s (admin_granted user c) g
token-IsStillValid now later s user (ok none, m) g known h = absurd (ground arith)
token-IsStillValid now later s user (ok (some a), m) g known h =
    let b = record a { can_create_channels = true } in
    let same : b ≡ g.auth = ground arith in
    let there = subst (IsKnown m) (same) (creating-IsKnown m a (known a refl)) in
    still_valid-known _ _ g.auth (refresh-IsKnown now m g.auth there)
token-IsStillValid now later s user (fail e, m) g known h = absurd (ground arith)
token-IsStillValid now later s user (panic, m) g known h = absurd (ground arith)
token-IsStillValid now later s user (blocked, m) g known h = absurd (ground arith)

basic-IsStillValid :
    (now later : ℕ) (s : Settings) (m : Manager) (value user : String) (g : Granted)
    → let c = as_checked (is_valid_basic_auth_request now m (some ("Basic", value)) user) in
      (admin_granted user c).0 ≡ ok (some g) → IsStillValid now later s (admin_granted user c) g
unfolding is_valid_basic_auth_request
basic-IsStillValid now later s m value user g h = still_valid-basic _ _ g.auth (ground (arith, h))

bearer-IsStillValid :
    (now later : ℕ) (s : Settings) (req : Request) (value : String) (m : Manager) (g : Granted)
    (provider : Option Provider)
    → s.provider ≡ provider
    → Lasts s.provider now later value
    → (with_provider now s provider req value m).0 ≡ ok (some g)
    → IsStillValid now later s (with_provider now s provider req value m) g
bearer-IsStillValid now later s req value m g none p lasts h = absurd (ground arith)
bearer-IsStillValid now later s req value m g (some validate) p lasts h =
    let (accepted, own) = bearer_granted-ok (bearer_auth s (validate now) req value m) g h in
    let v = bearer-IsVerified s (validate now) req value m accepted in
    let same : bearer_valid (revalidate now s.provider) value ≡ true =
      ap (λ x. bearer_valid (revalidate now x) value) p ∙ ap no_failure v.access.no_failure in
    still_valid-bearer (revalidate later s.provider) _ g.auth v.typed
      (ap (bearer_valid (revalidate later s.provider)) v.valued ∙ lasts same)

header-IsStillValid :
    (j : Jwt) (now later : ℕ) (s : Settings) (req : Request) (m : Manager) (g : Granted)
    (header : Option (String × String))
    → ((value : String) → header ≡ some ("Bearer", value) → Lasts s.provider now later value)
    → (with_header j now s req header m).0 ≡ ok (some g)
    → IsStillValid now later s (with_header j now s req header m) g
header-IsStillValid j now later s req m g none lasts h = absurd (ground arith)
header-IsStillValid j now later s req m g (some (type, value)) lasts h =
    let P : String → Type 0 = λ t.
      (with_header j now s req (some (t, value)) m).0 ≡ ok (some g)
      → IsStillValid now later s (with_header j now s req (some (t, value)) m) g in
    elim (Bool-cases (type == "Token")) [
      | inl e ↦
          subst P (sym ((eq_iff type "Token").0 e))
            (token-IsStillValid now later s req.user
              (is_valid_admin_auth_token_request j now m (some ("Token", value))) g
              (request-IsKnown j now m value))
            h
      | inr e ↦ elim (Bool-cases (type == "Bearer")) [
        | inl b ↦
            subst P (sym ((eq_iff type "Bearer").0 b))
              (λ k.
                bearer-IsStillValid now later s req value m g s.provider refl
                  (lasts value (ap (λ x. some (x, value)) ((eq_iff type "Bearer").0 b))) k)
              h
        | inr b ↦ elim (Bool-cases (type == "Basic")) [
          | inl c ↦
              subst P (sym ((eq_iff type "Basic").0 c))
                (basic-IsStillValid now later s m value req.user g) h
          | inr c ↦ absurd (ground arith)
        ]
      ]
    ]

pub granted-IsStillValid :
    (j : Jwt) (now later : ℕ) (s : Settings) (req : Request) (m : Manager) (g : Granted)
    → ((value : String) → req.header ≡ some ("Bearer", value) → Lasts s.provider now later value)
    → (is_request_with_valid_auth j now s req m).0 ≡ ok (some g)
    → IsStillValid now later s (is_request_with_valid_auth j now s req m) g
unfolding is_request_with_valid_auth
granted-IsStillValid j now later s req m g lasts h =
    header-IsStillValid j now later s req m g req.header lasts h
