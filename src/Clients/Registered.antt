-- ===== src/Clients/Registered.antt =====
-- What is in the registry, and whom Lookup lets in.
use kwmserver.Base.{
  String, Bool, true, false, not, ◌&&◌, ◌||◌, Option, none, some, List, [], ◌∷◌, Dict, lookup,
  lookup-insert, lookup-empty, insert, mem_text, length, ltb, ◌==◌, string_eq, if◌then◌else◌,
  Outcome, ok, fail, panic, ◌≡◌, ◌≢◌, ◌⊎◌, ◌↔◌, inl, inr, refl, arith, eq_iff, is_some, Bool-cases,
}
use kwmserver.Clients.{
  ClientRegistration, Registry, Url, register, register_all, new_registry, validate, lookup_client,
  found, implicit_trust, put,
}

-- Each registration stands under its own id, which is not empty, and is a web client.
pub record IsRegistry (r : Registry) : Type 0 where
  pub sound :
      (id : String) (c : ClientRegistration)
      → lookup id r.clients ≡ some c
      → (c.id ≡ id) × (id ≢ "") × (c.application_type ≡ "web")

put-IsRegistry :
    (c : ClientRegistration) (r : Registry)
    → c.id ≢ ""
    → c.application_type ≡ "web"
    → IsRegistry r
    → IsRegistry (put c r)
put-IsRegistry c r filled web g = record {
  sound = λ id d e. ground (arith, lookup-insert c.id id c r.clients, eq_iff c.id id, g.sound id d);
}

register-IsRegistry :
    (c : ClientRegistration) (r : Registry) → IsRegistry r → IsRegistry (register c r).1
unfolding register
register-IsRegistry c r g = elim (Bool-cases (c.id == "")) [
  | inl e ↦ rw e g
  | inr e ↦ elim (Bool-cases (c.application_type == "")) [
    | inl t ↦
        rw (e, t)
          (put-IsRegistry (record c { application_type = "web" }) r (ground (arith, eq_iff c.id ""))
            refl g)
    | inr t ↦ elim (Bool-cases (c.application_type == "web")) [
      | inl web ↦
          rw (e, t, web)
            (put-IsRegistry c r (ground (arith, eq_iff c.id ""))
              (ground (arith, eq_iff c.application_type "web")) g)
      | inr other ↦ rw (e, t, other) g
    ]
  ]
]

register_all-IsRegistry :
    (cs : List ClientRegistration) (r : Registry) → IsRegistry r → IsRegistry (register_all cs r)
unfolding register_all
register_all-IsRegistry [] r g = g
register_all-IsRegistry (c ∷ cs) r g =
    register_all-IsRegistry cs (register c r).1 (register-IsRegistry c r g)

-- Whatever the registry file says, the registry that is made of it is sound.
pub new_registry-IsRegistry :
    (trusted : Option Url) (cs : List ClientRegistration) → IsRegistry (new_registry trusted cs)
unfolding new_registry
new_registry-IsRegistry trusted cs =
    register_all-IsRegistry cs _ (record {
      sound = λ id c e. absurd (ground (arith, lookup-empty {V = ClientRegistration} id));
    })

-- The origin is among those of the client, or is not checked.
abbrev pub origin_ok : ClientRegistration → String → Bool
origin_ok c origin =
    origin == "" || ((c.insecure && not (ltb 0 (length c.origins))) || mem_text origin c.origins)

abbrev pub secret_ok : ClientRegistration → String → Bool → Bool
secret_ok c secret without = without || ((c.secret == "") || (secret == c.secret))

abbrev pub lets_in {ℓ} : {A : Type ℓ} → Outcome A → Bool
lets_in (ok a) = true
lets_in _ = false

-- A registered client is let in exactly if its origin and its secret are right, whether or not it
-- comes from the server's own origin; and what is told about it is what was registered.
pub lookup_registered :
    (parse : String → Option Url) (r : Registry) (id secret origin : String) (without : Bool)
    (c : ClientRegistration) (u : Url)
    → IsRegistry r
    → lookup id r.clients ≡ some c
    → parse origin ≡ some u
    → lookup_client parse r id secret origin without ≡ (
        if not (origin_ok c origin)
        then fail (kwmserver.Base.plain "invalid origin")
        else if not (secret_ok c secret without)
        then fail (kwmserver.Base.plain "invalid client_secret")
        else ok (record { id = id; display_name = c.name; trusted = c.trusted }, some c))
unfolding lookup_client validate
lookup_registered parse r id secret origin without c u g here p =
    ground (arith, eq_iff id "", g.sound id c here, eq_iff c.application_type "web")

-- Is a client without a registration trusted?
abbrev pub trusted_origin : Option Url → Option Url → Bool
trusted_origin (some t) (some u) =
    (u.scheme == "") || ((t.scheme == u.scheme) && (t.host == u.host))
trusted_origin _ _ = false

lets_in-found :
    (id secret origin : String) (without : Bool) (t u : Option Url)
    → lets_in (found id secret origin without (implicit_trust t u) none) ≡ trusted_origin t u
lets_in-found id secret origin without none none = refl
lets_in-found id secret origin without none (some u) = refl
lets_in-found id secret origin without (some t) none = refl
lets_in-found id secret origin without (some t) (some u) = ground arith

-- A client id that is not registered is let in exactly if it is not empty, and the server has a
-- trusted URI, and the origin has no scheme, or scheme and host of that URI.
pub lookup_unknown :
    (parse : String → Option Url) (r : Registry) (id secret origin : String) (without : Bool)
    → lookup id r.clients ≡ none
    → lets_in (lookup_client parse r id secret origin without)
      ≡ (not (id == "") && trusted_origin r.trusted_uri (parse origin))
unfolding lookup_client
lookup_unknown parse r id secret origin without missing =
    ground (arith, missing, lets_in-found id secret origin without r.trusted_uri (parse origin))

-- On a server with a trusted URI, an origin that does not parse as a URL is a run-time panic, for
-- every client id that is not empty.
pub bad_origin_panics :
    (parse : String → Option Url) (r : Registry) (id secret origin : String) (without : Bool)
    (t : Url)
    → id ≢ ""
    → r.trusted_uri ≡ some t
    → parse origin ≡ none
    → lookup_client parse r id secret origin without ≡ panic
unfolding lookup_client
bad_origin_panics parse r id secret origin without t filled trusted bad =
    rw (trusted, bad) (ground (arith, eq_iff id ""))
