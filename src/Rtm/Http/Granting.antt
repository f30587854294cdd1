-- ===== src/Rtm/Http/Granting.antt =====
-- signaling/rtm/http.go: what the auth of a request rests on.
use kwmserver.Base.{
  String, Bool, true, false, ◌&&◌, Option, none, some, List, Dict, ◌==◌, nat_eq, string_eq,
  if◌then◌else◌, Outcome, ok, fail, panic, blocked, Action, continue_with, ◌≡◌, ◌≢◌, ◌⊎◌, inl, inr,
  refl, subst, ap, arith, eq_iff, Bool-cases, [], ◌∷◌,
}
use kwmserver.Api.{AdminAuthToken, Claim}
use kwmserver.Admin.Tokens.{Manager}
use kwmserver.Guest.{Inner, apply_restrictions}
use kwmserver.Rtm.Http.{
  StandardClaims, ExtraClaims, Validated, TokenError, no_error, expired, other_error, scopes_ok,
  check_access, match_claims, check_id_error, id_token_claims, user_claims, identified, by_mode,
  restricted, as_guest,
}

module _ {S A B : Type 0} where
  -- A chain of calls that returns has a first call that returned.
  pub continue-ok :
      (f : A → Action S B) (r : Outcome A × S) (b : B)
      → (continue_with f r).0 ≡ ok b
      → (a : A) × (r.0 ≡ ok a) × ((f a r.1).0 ≡ ok b)
  continue-ok f (ok a, s) b e = (a, refl, e)
  continue-ok f (fail x, s) b e = absurd (ground arith)
  continue-ok f (panic, s) b e = absurd (ground arith)
  continue-ok f (blocked, s) b e = absurd (ground arith)

-- An access token that was checked.
pub record IsAccess (scopes : List String) (v : Validated) (c : ExtraClaims) : Type 0 where
  pub no_failure : v.error ≡ no_error
  pub has_claims : v.extra ≡ some c
  pub access : c.is_access ≡ true
  pub valid : c.is_valid ≡ true
  pub scoped : scopes ≢ [] → c.has_scopes scopes ≡ true

scopes_ok-filled :
    (scopes : List String) (c : ExtraClaims)
    → scopes_ok scopes c ≡ true
    → scopes ≢ []
    → c.has_scopes scopes ≡ true
scopes_ok-filled [] c t filled = absurd (filled refl)
scopes_ok-filled (x ∷ xs) c t filled = ground arith

pub check_access-IsAccess :
    (scopes : List String) (v : Validated) (c : ExtraClaims) (m : Manager) (e : TokenError)
    (x : Option ExtraClaims)
    → v.error ≡ e
    → v.extra ≡ x
    → (check_access scopes e x m).0 ≡ ok c
    → IsAccess scopes v c
check_access-IsAccess scopes v c m no_error none ve vx h = absurd (ground arith)
check_access-IsAccess scopes v c m no_error (some d) ve vx h =
    elim (Bool-cases (d.is_access && (d.is_valid && scopes_ok scopes d))) [
      | inl t ↦
          let e : d ≡ c = cc in
          subst (IsAccess scopes v) (e) (record {
            no_failure = ve;
            has_claims = vx;
            access = ground arith;
            valid = ground arith;
            scoped = scopes_ok-filled scopes d (ground arith);
          })
      | inr t ↦ absurd (ground arith)
    ]
check_access-IsAccess scopes v c m expired x ve vx h = absurd (ground arith)
check_access-IsAccess scopes v c m other_error x ve vx h = absurd (ground arith)

-- An id token that belongs to the access token; it may have expired.
pub record IsSamePerson (std : Option StandardClaims) (v : Validated) : Type 0 where
  pub access_claims : StandardClaims
  pub id_claims : StandardClaims
  pub has_access : std ≡ some access_claims
  pub has_id : v.std ≡ some id_claims
  pub same_subject : id_claims.subject ≡ access_claims.subject
  pub same_issuer : id_claims.issuer ≡ access_claims.issuer
  pub no_failure : v.error ≢ other_error

match_claims-IsSamePerson :
    (v : Validated) (m : Manager) (i std : Option StandardClaims)
    → v.std ≡ i
    → v.error ≢ other_error
    → (match_claims i std m).0 ≡ ok tt
    → IsSamePerson std v
match_claims-IsSamePerson v m none std vi n h = absurd (ground arith)
match_claims-IsSamePerson v m (some i) none vi n h = absurd (ground arith)
match_claims-IsSamePerson v m (some i) (some s) vi n h = record {
  access_claims = s;
  id_claims = i;
  has_access = refl;
  has_id = vi;
  same_subject = ground (arith, eq_iff i.subject s.subject);
  same_issuer = ground (arith, eq_iff i.issuer s.issuer);
  no_failure = n;
}

check_id_error-ok :
    (e : TokenError) (m : Manager) → (check_id_error e m).0 ≡ ok tt → e ≢ other_error
check_id_error-ok e m h = ground arith

pub user_claims-IsSamePerson :
    (validate : String → Validated) (std : Option StandardClaims) (id_token : String) (m : Manager)
    {values : Option (Dict Claim)}
    → (user_claims validate std id_token m).0 ≡ ok values
    → id_token ≢ ""
    → IsSamePerson std (validate id_token)
user_claims-IsSamePerson validate std id_token m {values} h filled =
    let v = validate id_token in
    let run : (id_token_claims std v m).0 ≡ ok values = ground (arith, eq_iff id_token "") in
    let (u, id_ok, rest) = continue-ok _ (check_id_error v.error m) values run in
    let (w, matched, end) = continue-ok _ (match_claims v.std std _) values rest in
    match_claims-IsSamePerson v _ v.std std refl (check_id_error-ok v.error m id_ok) matched

pub by_mode-ok :
    (i : Option Inner) (a b : AdminAuthToken) (m : Manager)
    → (by_mode i a m).0 ≡ ok b
    → ((a.auth ≡ "") ⊎ ((a.auth ≡ "0") ⊎ (a.auth ≡ "1")))
      × (b ≡ (if a.auth == "1" then identified i a else a))
by_mode-ok i a b m h = elim (Bool-cases (a.auth == "")) [
  | inl e ↦
      let t : a.auth ≡ "" = (eq_iff a.auth "").0 e in (inl t, ground (arith, ap (λ x. x == "1") t))
  | inr e ↦ elim (Bool-cases (a.auth == "0")) [
    | inl z ↦
        let t : a.auth ≡ "0" = (eq_iff a.auth "0").0 z in
        (inr (inl t), ground (arith, ap (λ x. x == "1") t))
    | inr z ↦ elim (Bool-cases (a.auth == "1")) [
      | inl o ↦ (inr (inr ((eq_iff a.auth "1").0 o)), ground arith)
      | inr o ↦ absurd (ground arith)
    ]
  ]
]

restricted-ok :
    (r : Outcome (Unit {0}) × AdminAuthToken) (b : AdminAuthToken) (m : Manager)
    → (restricted r m).0 ≡ ok b
    → b ≡ r.1
restricted-ok (ok u, a) b m h = cc
restricted-ok (fail e, a) b m h = absurd (ground arith)
restricted-ok (panic, a) b m h = absurd (ground arith)
restricted-ok (blocked, a) b m h = absurd (ground arith)

-- What a guest's auth is, and that of any other user.
pub as_guest-ok :
    (guests : Option Bool) (c : ExtraClaims) (a b : AdminAuthToken) (m : Manager)
    → (as_guest guests c a m).0 ≡ ok b
    → ((c.is_guest ≡ false) × (b ≡ a))
      ⊎ ((c.is_guest ≡ true)
          × ((allow : Bool) × (guests ≡ some allow)
              × (b ≡ (apply_restrictions allow c.authorized a).1)))
as_guest-ok none c a b m h = elim (Bool-cases c.is_guest) [
  | inl g ↦ absurd (ground arith)
  | inr g ↦ inl (g, cc)
]
as_guest-ok (some allow) c a b m h = elim (Bool-cases c.is_guest) [
  | inl g ↦ inr (g, (allow, refl, restricted-ok (apply_restrictions allow c.authorized a) b m (cc)))
  | inr g ↦ inl (g, cc)
]
