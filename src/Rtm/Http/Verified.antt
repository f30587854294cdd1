-- ===== src/Rtm/Http/Verified.antt =====
-- signaling/rtm/http.go: whom a bearer token lets in, and as whom.
use kwmserver.Base.{
  ℕ, String, Bool, true, false, not, ◌&&◌, Option, none, some, ◌==◌, string_eq, if◌then◌else◌, Dict,
  Outcome, ok, fail, panic, blocked, ◌≡◌, ◌≢◌, ◌⊎◌, inl, inr, refl, sym, ap, ◌∙◌, arith,
}
use kwmserver.Api.{AdminAuthToken, Claim}
use kwmserver.Admin.Tokens.{Manager}
use kwmserver.Admin.Auth.{Jwt}
use kwmserver.Guest.{Outer, apply_restrictions, guest_claim, restrict_by, new_claims_from_map}
use kwmserver.Guest.Confined.{admitted, guest_confined}
use kwmserver.Rtm.Webrtc.{passes_restriction, may_create}
use kwmserver.Rtm.Http.{
  StandardClaims, ExtraClaims, Validated, Provider, Settings, bearer_token, Request, Granted, deref,
  check_access, user_claims, identity_user, identified, by_mode, as_guest, bearer_auth,
  bearer_granted, with_provider, with_header, is_request_with_valid_auth,
}
use kwmserver.Rtm.Http.Granting.{
  continue-ok, IsAccess, check_access-IsAccess, IsSamePerson, user_claims-IsSamePerson, by_mode-ok,
  as_guest-ok,
}

-- The user of a bearer token: the identity claim counts in mode 1 only.
abbrev pub subject_by : String → String → String → String
subject_by mode identity user = if (mode == "1") && not (identity == "") then identity else user

-- An auth that a bearer token gives.
pub record IsVerified (s : Settings) (validate : String → Validated) (req : Request)
    (value : String) (auth : AdminAuthToken) : Type 0 where
  pub claims : ExtraClaims
  pub access : IsAccess s.required_scopes (validate value) claims
  pub same_person : req.id_token ≢ "" → IsSamePerson (validate value).std (validate req.id_token)
  pub mode : (req.auth ≡ "") ⊎ ((req.auth ≡ "0") ⊎ (req.auth ≡ "1"))
  pub subject :
      auth.subject ≡ subject_by req.auth (identity_user claims.identity) (validate value).user_id
  pub typed : auth.type ≡ "Bearer"
  pub valued : auth.value ≡ value
  pub free :
      claims.is_guest ≡ false → (auth.group_restriction ≡ none) × (auth.can_create_channels ≡ true)
  pub confined :
      claims.is_guest ≡ true
      → (allow : Bool) × ((s.guests ≡ some allow)
          × (((group : String)
                → passes_restriction (some auth) group
                  ≡ admitted (guest_claim claims.authorized) group)
              × (may_create (some auth) ≡ allow)))

-- Two tokens of the same user from the same text.
abbrev IsSameToken : AdminAuthToken → AdminAuthToken → Type 0
IsSameToken b a = (b.subject ≡ a.subject) × (b.type ≡ a.type) × (b.value ≡ a.value)

-- Restricting a guest leaves the token the same.
restrict_by-IsSameToken :
    (allow : Bool) (claim : Option (Dict Claim)) (a : AdminAuthToken)
    → IsSameToken (restrict_by a allow claim).1 a
unfolding new_claims_from_map
restrict_by-IsSameToken allow none a = (refl, refl, refl)
restrict_by-IsSameToken allow (some m) a = ground arith

apply_restrictions-IsSameToken :
    (allow : Bool) (authorized : Option (Dict Outer)) (a : AdminAuthToken)
    → IsSameToken (apply_restrictions allow authorized a).1 a
unfolding apply_restrictions
apply_restrictions-IsSameToken allow authorized a =
    restrict_by-IsSameToken allow (guest_claim authorized) a

pub bearer_granted-ok :
    (r : Outcome AdminAuthToken × Manager) (g : Granted)
    → (bearer_granted r).0 ≡ ok (some g)
    → (r.0 ≡ ok g.auth) × (g.user ≡ g.auth.subject)
bearer_granted-ok (ok a, m) g h = ground arith
bearer_granted-ok (fail e, m) g h = absurd (ground arith)
bearer_granted-ok (panic, m) g h = absurd (ground arith)
bearer_granted-ok (blocked, m) g h = absurd (ground arith)

module _ (s : Settings) (validate : String → Validated) (req : Request) (value : String) where
  -- The auth before the guest is restricted has the right subject, and is free.
  moded-subject :
      (c : ExtraClaims) (values : Option (Dict Claim)) (std : StandardClaims)
      → let t = bearer_token req value (validate value).user_id values std in
        let a = if req.auth == "1" then identified c.identity t else t in
        (a.subject ≡ subject_by req.auth (identity_user c.identity) (validate value).user_id)
        × (a.group_restriction ≡ none)
        × (a.can_create_channels ≡ true)
        × (a.type ≡ "Bearer")
        × (a.value ≡ value)
  moded-subject c values std = ground arith

  finished-IsVerified :
      (c : ExtraClaims) (values : Option (Dict Claim)) (std : StandardClaims)
      (a auth : AdminAuthToken) (m m' : Manager)
      → IsAccess s.required_scopes (validate value) c
      → (req.id_token ≢ "" → IsSamePerson (validate value).std (validate req.id_token))
      → (by_mode c.identity (bearer_token req value (validate value).user_id values std) m).0 ≡ ok a
      → (as_guest s.guests c a m').0 ≡ ok auth
      → IsVerified s validate req value auth
  finished-IsVerified c values std a auth m m' access same moded guest =
      let t = bearer_token req value (validate value).user_id values std in
      let (mode, is) = by_mode-ok c.identity t a m moded in
      let (named, unbound, creating, typed, valued) = moded-subject c values std in
      let subject = ap (λ (x : AdminAuthToken). x.subject) is ∙ named in
      elim (as_guest-ok s.guests c a auth m' guest) [
        | inl (no_guest, e) ↦ record {
          claims = c;
          access = access;
          same_person = same;
          mode = mode;
          subject = ap (λ (x : AdminAuthToken). x.subject) e ∙ subject;
          typed = ap (λ (x : AdminAuthToken). x.type) (e ∙ is) ∙ typed;
          valued = ap (λ (x : AdminAuthToken). x.value) (e ∙ is) ∙ valued;
          free = λ n. (
            ap (λ (x : AdminAuthToken). x.group_restriction) (e ∙ is) ∙ unbound,
            ap (λ (x : AdminAuthToken). x.can_create_channels) (e ∙ is) ∙ creating,
          );
          confined = λ g. absurd (ground arith);
        }
        | inr (is_guest, (allow, set, e)) ↦ record {
          claims = c;
          access = access;
          same_person = same;
          mode = mode;
          subject =
              ap (λ (x : AdminAuthToken). x.subject) e
              ∙ (apply_restrictions-IsSameToken allow c.authorized a).0
              ∙ subject;
          typed =
              ap (λ (x : AdminAuthToken). x.type) e
              ∙ (apply_restrictions-IsSameToken allow c.authorized a).1
              ∙ ap (λ (x : AdminAuthToken). x.type) is
              ∙ typed;
          valued =
              ap (λ (x : AdminAuthToken). x.value) e
              ∙ (apply_restrictions-IsSameToken allow c.authorized a).2
              ∙ ap (λ (x : AdminAuthToken). x.value) is
              ∙ valued;
          free = λ n. absurd (ground arith);
          confined = λ g. (
            allow,
            (
              set,
              (
                λ group.
                    ap (λ (x : AdminAuthToken). passes_restriction (some x) group) e
                    ∙ (guest_confined allow c.authorized a group).0,
                ap (λ (x : AdminAuthToken). may_create (some x)) e
                    ∙ (guest_confined allow c.authorized a "").1,
              ),
            ),
          );
        }
      ]

  pub bearer-IsVerified :
      (m : Manager) {auth : AdminAuthToken}
      → (bearer_auth s validate req value m).0 ≡ ok auth
      → IsVerified s validate req value auth
  unfolding bearer_auth
  bearer-IsVerified m {auth} h =
      let v = validate value in
      let (claims, checked, h1) =
        continue-ok _ (check_access s.required_scopes v.error v.extra m) auth h in
      let (values, matched, h2) =
        continue-ok _ (user_claims validate v.std req.id_token _) auth h1 in
      let (std, got, h3) = continue-ok _ (deref v.std _) auth h2 in
      let (a, moded, h4) =
        continue-ok _ (by_mode claims.identity (bearer_token req value v.user_id values std) _) auth
          h3 in
      finished-IsVerified claims values std a auth _ _
        (check_access-IsAccess s.required_scopes v claims m v.error v.extra refl refl checked)
        (λ filled. user_claims-IsSamePerson validate v.std req.id_token _ matched filled) moded h4

-- A bearer token is accepted only if the provider validates it at that time as an access token with
-- valid claims and the required scopes, if an id token that comes with it is of the same subject and
-- issuer, and in mode 0 or 1 or none. The user is the provider's, or in mode 1 that of the
-- identity claim, if there is one. A guest is accepted only by a server with guests, and its
-- groups are then those that its guest claim admits; any other user is free of restrictions.
pub granted-IsVerified :
    (s : Settings) (provider : Provider) (req : Request) (value : String) (j : Jwt) (now : ℕ)
    (m : Manager) (g : Granted)
    → s.provider ≡ some provider
    → req.header ≡ some ("Bearer", value)
    → (is_request_with_valid_auth j now s req m).0 ≡ ok (some g)
    → IsVerified s (provider now) req value g.auth × (g.user ≡ g.auth.subject)
unfolding is_request_with_valid_auth
granted-IsVerified s provider req value j now m g p r h =
    let run : (with_provider now s (some provider) req value m).0 ≡ ok (some g) =
      ap (λ x. (with_provider now s x req value m).0) (sym p)
      ∙ ap (λ x. (with_header j now s req x m).0) (sym r)
      ∙ h in
    let (accepted, own) = bearer_granted-ok (bearer_auth s (provider now) req value m) g run in
    (bearer-IsVerified s (provider now) req value m accepted, own)
