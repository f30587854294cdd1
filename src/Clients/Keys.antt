-- ===== src/Clients/Keys.antt =====
-- clients/models.go: the key of a client that a request is signed with.
use kwmserver.Base.{
  String, not, Option, none, some, List, [], ◌∷◌, ◌==◌, string_eq, if◌then◌else◌, Outcome, ok, fail,
  panic, blocked, plain, ◌≡◌, ◌≢◌, ◌⊎◌, inl, inr, refl, sym, subst, ap, ◌∙◌, Option-cases, arith,
  eq_iff, Bool-cases,
}
use kwmserver.Clients.{ClientRegistration, Key}

-- Secured; the private key is `none` where Secure leaves it nil.
pub record Secured : Type 0 where
  pub id : String
  pub display_name : String
  pub application_type : String
  pub kid : String
  pub public_key : String
  pub private_key : Option String
  pub trusted_scopes : List String

-- The loop of findKeyByKid
unfoldable pub key_with : String → List Key → Option Key
key_with kid [] = none
key_with kid (k ∷ ks) = let rest = key_with kid ks in if kid == k.kid then some k else rest

-- The key id that is asked for: `none` is a value that is no text.
abbrev pub wanted : Option String → String
wanted none = "default"
wanted (some kid) = if kid == "" then "default" else kid

abbrev pub chosen : Option String → List Key → Option Key
chosen raw [] = none
chosen raw (k ∷ []) = some k
chosen raw (k ∷ l ∷ ks) = key_with (wanted raw) (k ∷ l ∷ ks)

abbrev pub usable : Option Key → Outcome Key
usable none = fail (plain "unknown kid")
usable (some k) =
    if not (k.use_of == "sig") then fail (plain "unsupported key use value - must be sig") else ok k

abbrev pub find_in : Option String → Option (List Key) → Outcome Key
find_in raw none = fail (plain "no jwks")
find_in raw (some ks) = usable (chosen raw ks)

-- findKeyByKid
unfoldable pub find_key_by_kid : ClientRegistration → Option String → Outcome Key
find_key_by_kid c raw = find_in raw c.jwks

abbrev pub secured_of : ClientRegistration → Key → String → Option String → Secured
secured_of c k public private = record {
  id = c.id;
  display_name = c.name;
  application_type = c.application_type;
  kid = k.kid;
  public_key = public;
  private_key = private;
  trusted_scopes = c.trusted_scopes;
}

abbrev pub secured_with : ClientRegistration → Key → Option String → Option String → Outcome Secured
secured_with c k none private = fail (plain "failed to decode public key")
secured_with c k (some public) private = ok (secured_of c k public private)

abbrev pub secure_by : ClientRegistration → Outcome Key → Outcome Secured
secure_by c (ok k) = secured_with c k k.public_part none
secure_by c (fail e) = fail e
secure_by c panic = panic
secure_by c blocked = blocked

-- Secure
unfoldable pub secure : ClientRegistration → Option String → Outcome Secured
secure c raw = secure_by c (find_key_by_kid c raw)

abbrev pub with_private : ClientRegistration → Key → Option String → Outcome Secured
with_private c k none = fail (plain "failed to decode private key")
with_private c k (some private) = secured_with c k k.public_part (some private)

abbrev pub private_by : ClientRegistration → Outcome Key → Outcome Secured
private_by c (ok k) = with_private c k k.private_part
private_by c (fail e) = fail e
private_by c panic = panic
private_by c blocked = blocked

-- Private
unfoldable pub private : ClientRegistration → Option String → Outcome Secured
private c raw = private_by c (find_key_by_kid c raw)

-- A key that stands in a list of keys.
abbrev pub In : Key → List Key → Type 0
In k [] = ⊥
In k (l ∷ ks) = (k ≡ l) ⊎ In k ks

-- What a client is secured with: a signing key of the client.
pub record IsSigning (c : ClientRegistration) (s : Secured) : Type 0 where
  pub keys : List Key
  pub key : Key
  pub has_keys : c.jwks ≡ some keys
  pub own : In key keys
  pub for_signing : key.use_of ≡ "sig"
  pub same_kid : s.kid ≡ key.kid
  pub same_private : s.private_key ≡ key.private_part
  pub has_private : s.private_key ≢ none

key_with-In : (kid : String) (ks : List Key) (k : Key) → key_with kid ks ≡ some k → In k ks
unfolding key_with
key_with-In kid [] k h = absurd (ground arith)
key_with-In kid (l ∷ ks) k h = elim (Bool-cases (kid == l.kid)) [
  | inl e ↦ inl (ground arith)
  | inr e ↦ inr (key_with-In kid ks k (ground arith))
]

chosen-In : (raw : Option String) (ks : List Key) (k : Key) → chosen raw ks ≡ some k → In k ks
chosen-In raw [] k h = absurd (ground arith)
chosen-In raw (l ∷ []) k h = inl (ground arith)
chosen-In raw (l ∷ m ∷ ks) k h = key_with-In (wanted raw) (l ∷ m ∷ ks) k h

usable-ok : (o : Option Key) (k : Key) → usable o ≡ ok k → (o ≡ some k) × (k.use_of ≡ "sig")
usable-ok none k h = absurd (ground arith)
usable-ok (some l) k h = elim (Bool-cases (l.use_of == "sig")) [
  | inl e ↦
      let same : l ≡ k = ground arith in
      (ap some same, ap (λ (x : Key). x.use_of) (sym same) ∙ (eq_iff l.use_of "sig").0 e)
  | inr e ↦ absurd (ground arith)
]

find_in-ok :
    (raw : Option String) (jwks : Option (List Key)) (k : Key)
    → find_in raw jwks ≡ ok k
    → (ks : List Key) × (jwks ≡ some ks) × In k ks × (k.use_of ≡ "sig")
find_in-ok raw none k h = absurd (ground arith)
find_in-ok raw (some ks) k h =
    let (found, kind) = usable-ok (chosen raw ks) k h in (ks, refl, chosen-In raw ks k found, kind)

private_of-IsSigning :
    (c : ClientRegistration) (k : Key) (s : Secured) (ks : List Key)
    → c.jwks ≡ some ks
    → In k ks
    → k.use_of ≡ "sig"
    → private_by c (ok k) ≡ ok s
    → IsSigning c s
private_of-IsSigning c k s ks has own kind h = elim (Option-cases k.private_part) [
  | inl p ↦ absurd (ground (arith, p))
  | inr (private, p) ↦ elim (Option-cases k.public_part) [
    | inl q ↦ absurd (ground (arith, p, q))
    | inr (public, q) ↦
        let same : secured_of c k public (some private) ≡ s = ground (arith, p, q) in
        subst (IsSigning c) (same) (record {
          keys = ks;
          key = k;
          has_keys = has;
          own = own;
          for_signing = kind;
          same_kid = refl;
          same_private = sym p;
          has_private = λ e. absurd (ground arith);
        })
  ]
]

private_by-IsSigning :
    (c : ClientRegistration) (raw : Option String) (o : Outcome Key) (s : Secured)
    → find_in raw c.jwks ≡ o
    → private_by c o ≡ ok s
    → IsSigning c s
private_by-IsSigning c raw (ok k) s found h =
    let (ks, has, own, kind) = find_in-ok raw c.jwks k found in
    private_of-IsSigning c k s ks has own kind h
private_by-IsSigning c raw (fail e) s found h = absurd (ground arith)
private_by-IsSigning c raw panic s found h = absurd (ground arith)
private_by-IsSigning c raw blocked s found h = absurd (ground arith)

-- Private gives a key of the client that is for signing, with its key id and its private part.
pub private-IsSigning :
    (c : ClientRegistration) (raw : Option String) (s : Secured)
    → private c raw ≡ ok s
    → IsSigning c s
unfolding private find_key_by_kid
private-IsSigning c raw s h = private_by-IsSigning c raw (find_in raw c.jwks) s refl h
