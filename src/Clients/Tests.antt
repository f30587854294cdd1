-- ===== src/Clients/Tests.antt =====
-- The registry at concrete inputs.
use kwmserver.Base.{
  String, true, false, Option, none, some, [], ◌∷◌, fail, plain, panic, lookup, insert, remove, ◌≡◌,
  refl, string_ne, ◌==◌, string_eq, if◌then◌else◌, not, ◌&&◌,
}
use kwmserver.Clients.{
  ClientRegistration, Registry, Url, new_registry, register, register_all, lookup_client,
}
use kwmserver.Clients.Registered.{
  IsRegistry, new_registry-IsRegistry, lets_in, trusted_origin, lookup_registered, lookup_unknown,
  bad_origin_panics,
}

abbrev meet : ClientRegistration
meet = record {
  id = "meet";
  secret = "s";
  name = "Meet";
  application_type = "";
  trusted = true;
  insecure = false;
  origins = "https://meet" ∷ [];
  trusted_scopes = [];
  jwks = none;
  request_object_signing_alg = "";
}

abbrev own_uri : Url
own_uri = record { scheme = "https"; host = "kwm" }

-- Texts with no host, as "https", parse to a scheme here.
abbrev parse_uri : String → Option Url
parse_uri s = if s == "%" then none else some (record { scheme = s; host = "kwm" })

abbrev example_registry : Registry
example_registry = new_registry (some own_uri) (meet ∷ [])

new_registry-IsRegistry_example : IsRegistry example_registry
new_registry-IsRegistry_example = new_registry-IsRegistry (some own_uri) (meet ∷ [])

lookup_registered_example :
    lookup_client parse_uri example_registry "meet" "x" "https://meet" false
    ≡ fail (plain "invalid client_secret")
lookup_registered_example =
    lookup_registered parse_uri example_registry "meet" "x" "https://meet" false
      (record meet { application_type = "web" }) (record { scheme = "https://meet"; host = "kwm" })
      new_registry-IsRegistry_example
      (unfold new_registry register_all register insert lookup remove in refl) refl

abbrev other : String
other = "other"

lookup_unknown_example :
    lets_in (lookup_client parse_uri example_registry other "" "https" true)
    ≡ (not (other == "") && trusted_origin example_registry.trusted_uri (parse_uri "https"))
lookup_unknown_example =
    lookup_unknown parse_uri example_registry other "" "https" true
      (unfold new_registry register_all register insert lookup remove in refl)

bad_origin_panics_example : lookup_client parse_uri example_registry "meet" "s" "%" false ≡ panic
bad_origin_panics_example =
    bad_origin_panics parse_uri example_registry "meet" "s" "%" false own_uri
      (string_ne "meet" "" refl) (unfold new_registry register_all register in refl) refl
