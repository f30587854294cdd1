-- ===== src/Clients.antt =====
-- clients/registry.go and models.go: the registry of the OpenID clients. Parsing of URLs is an
-- argument, and so is the registry file as the YAML library reads it.
pub mod Registered
pub mod Keys
mod Tests
use kwmserver.Base.{
  String, Bool, true, false, not, ◌&&◌, ◌||◌, Option, none, some, List, [], ◌∷◌, Dict, lookup,
  insert, mem_text, length, ltb, ◌==◌, string_eq, if◌then◌else◌, Outcome, ok, fail, panic, blocked,
  plain,
}

-- gojwk.Key, as far as it is read: a key part that does not decode is `none`.
pub record Key : Type 0 where
  pub kid : String
  pub use_of : String
  pub public_part : Option String
  pub private_part : Option String

-- ClientRegistration; `jwks` holds the keys, and is `none` for a nil pointer.
pub record ClientRegistration : Type 0 where
  pub id : String
  pub secret : String
  pub name : String
  pub application_type : String
  pub trusted : Bool
  pub insecure : Bool
  pub origins : List String
  pub trusted_scopes : List String
  pub jwks : Option (List Key)
  pub request_object_signing_alg : String

-- Details
pub record Details : Type 0 where
  pub id : String
  pub display_name : String
  pub trusted : Bool

-- url.URL, as far as it is compared
pub record Url : Type 0 where
  pub scheme : String
  pub host : String

-- Registry
pub record Registry : Type 0 where
  pub trusted_uri : Option Url
  pub clients : Dict ClientRegistration

abbrev pub put : ClientRegistration → Registry → Registry
put c r = record r { clients = insert c.id c r.clients }

-- Register
unfoldable pub register : ClientRegistration → Registry → Outcome (Unit {0}) × Registry
register c r =
    if c.id == ""
    then (fail (plain "invalid client_id"), r)
    else if c.application_type == ""
    then (ok tt, put (record c { application_type = "web" }) r)
    else if c.application_type == "web"
    then (ok tt, put c r)
    else (fail (plain "unknown application_type"), r)

-- The loop of NewRegistry: an invalid registration is skipped.
unfoldable pub register_all : List ClientRegistration → Registry → Registry
register_all [] r = r
register_all (c ∷ cs) r = register_all cs (register c r).1

-- NewRegistry, with the registrations of the file
unfoldable pub new_registry : Option Url → List ClientRegistration → Registry
unfolding register_all
new_registry trusted cs = register_all cs (record { trusted_uri = trusted; clients = [] })

-- Validate
unfoldable pub validate : ClientRegistration → String → String → Bool → Outcome (Unit {0})
validate c secret origin without_secret =
    if c.application_type == "web"
      && ((not (origin == "") && (not c.insecure || ltb 0 (length c.origins)))
          && not (mem_text origin c.origins))
    then fail (plain "invalid origin")
    else if not without_secret && (not (c.secret == "") && not (secret == c.secret))
    then fail (plain "invalid client_secret")
    else ok tt

-- Is a client at this origin implicitly trusted? An origin that does not parse is read through nil.
abbrev pub same_origin : Url → Option Url → Outcome Bool
same_origin t none = panic
same_origin t (some o) = ok ((o.scheme == "") || ((t.scheme == o.scheme) && (t.host == o.host)))

abbrev pub implicit_trust : Option Url → Option Url → Outcome Bool
implicit_trust none origin = ok false
implicit_trust (some t) origin = same_origin t origin

abbrev pub Found : Type 0
Found = Outcome (Details × Option ClientRegistration)

abbrev pub found_registered : String → ClientRegistration → Outcome (Unit {0}) → Found
found_registered id c (ok u) =
    ok (record { id = id; display_name = c.name; trusted = c.trusted }, some c)
found_registered id c (fail e) = fail e
found_registered id c panic = panic
found_registered id c blocked = blocked

abbrev pub found :
    String → String → String → Bool → Outcome Bool → Option ClientRegistration → Found
found id secret origin without (ok trusted) (some c) =
    found_registered id c (validate c secret origin without)
found id secret origin without (ok true) none =
    ok (record { id = id; display_name = ""; trusted = true }, none)
found id secret origin without (ok false) none = fail (plain "unknown client_id")
found id secret origin without (fail e) _ = fail e
found id secret origin without panic _ = panic
found id secret origin without blocked _ = blocked

-- Lookup
unfoldable pub lookup_client :
    (String → Option Url) → Registry → String → String → String → Bool → Found
lookup_client parse r id secret origin without =
    if id == ""
    then fail (plain "invalid client_id")
    else found id secret origin without (implicit_trust r.trusted_uri (parse origin))
        (lookup id r.clients)

-- Get
unfoldable pub get : Registry → String → Option ClientRegistration
get r id = lookup id r.clients
