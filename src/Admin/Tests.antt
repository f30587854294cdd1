-- ===== src/Admin/Tests.antt =====
-- The tokens endpoint at concrete inputs. The JWT library is a concrete function here.
use kwmserver.Base.{
  ℕ, String, Bool, true, false, Option, none, some, List, [], ◌∷◌, lookup, insert, remove, length,
  IsMap, ◌≡◌, refl, arith, ok, panic, string_ne, nat_beq, ap, ◌∙◌,
}
use kwmserver.Api.{AdminAuthToken}
use kwmserver.Admin.Tokens.{
  Manager, new_manager, set_token, get_token, purge_expired_tokens, refresh_token,
}
use kwmserver.Admin.Auth.{
  Jwt, JwtClaims, JwtHeader, Parsed, parsed, http_json, http_status, create_auth_token,
  sign_admin_auth_token, remove_auth_token, is_valid_admin_auth_token,
  is_valid_admin_auth_token_request, refresh_admin_auth_token, list_valid_auth_tokens, record_id,
  key_function,
}
use kwmserver.Admin.Table.{unexpired, purge-lookup, refresh_keeps_valid, created_then_removed}
use kwmserver.Admin.Forgery.{JwtLaws, bad_signature_refused, unknown_key_accepted}
use kwmserver.Admin.Tended.{tended, run-tended}
use kwmserver.Admin.Lives.{Op, set, refresh, pop, purge, run, life, lived, run-life}
use kwmserver.Admin.Listing.{refresh_unknown_breaks_list}

-- A token string is its key id, and a key of three bytes fits.
abbrev example_claims : String → JwtClaims
example_claims s = record { subject = "eve"; expires_at = 2000; issued_at = 0 }

abbrev example_header : String → JwtHeader
example_header s = record { is_hmac = true; kid = some s }

abbrev example_fits : List ℕ → String → Bool
example_fits key s = nat_beq (length key) 3

abbrev verdict : Bool → Option Bool
verdict true = none
verdict false = some true

abbrev example_parsed : JwtClaims → String → Option (List ℕ) → Parsed
example_parsed c s none = record { error = some false; claims = some c }
example_parsed c s (some key) = record { error = verdict (example_fits key s); claims = some c }

abbrev example_jwt : Jwt
example_jwt = record {
  sign = λ key kid c. some kid;
  header = λ s. some (example_header s);
  parse = λ kf s. example_parsed (example_claims s) s (kf (example_header s));
}

abbrev header_of : Option JwtHeader → JwtHeader
header_of none = example_header ""
header_of (some h) = h

example-JwtLaws : JwtLaws example_jwt example_fits example_claims
example-JwtLaws = record {
  unverifiable =
      λ kf s h e n. ap (example_parsed (example_claims s) s) (ap (λ x. kf (header_of x)) e ∙ n);
  bad_signature = λ kf s h key e k f.
      ap (example_parsed (example_claims s) s) (ap (λ x. kf (header_of x)) e ∙ k)
      ∙ ap (λ b. record { error = verdict b; claims = some (example_claims s) }) f;
}

abbrev token_of : String → AdminAuthToken
token_of subject = record {
  subject = subject;
  type = "Token";
  value = "";
  expires_at = 0;
  claims = none;
  auth = "";
  group_restriction = none;
  can_create_channels = false;
}

abbrev example_manager : Manager
example_manager = record new_manager {
  tokens =
      ("admin-Token-alice", record { since = 100; token = some (token_of "alice") })
      ∷ ("admin-Token-bob", record { since = 190; token = some (token_of "bob") })
      ∷ [];
  tokens_keys = ("k1", 1 ∷ 2 ∷ []) ∷ [];
  tokens_signing_key_id = "k1";
}

purge-lookup_example :
    lookup "admin-Token-alice" (purge_expired_tokens 200 example_manager).tokens
    ≡ unexpired 200 (lookup "admin-Token-alice" example_manager.tokens)
purge-lookup_example =
    purge-lookup 200 "admin-Token-alice" example_manager (unfold lookup in (refl, (refl, tt)))

refresh_keeps_valid_example :
    is_valid_admin_auth_token
      (purge_expired_tokens 240 (refresh_token 200 (record_id (token_of "alice")) example_manager))
      (token_of "alice")
    ≡ true
refresh_keeps_valid_example =
    refresh_keeps_valid 200 240 (token_of "alice") example_manager
      (unfold lookup in (refl, (refl, tt)))
      (unfold is_valid_admin_auth_token get_token lookup in refl) (omega arith)

abbrev carol : AdminAuthToken
carol = record (token_of "carol") { value = "k1"; expires_at = 31536200 }

abbrev after_creation : Manager
after_creation = record example_manager {
  tokens =
      ("admin-Token-carol", record { since = 200; token = some carol }) ∷ example_manager.tokens;
}

created :
    create_auth_token example_jwt 200 "r" example_manager (parsed (token_of "carol"))
    ≡ (http_json carol, after_creation)
unfolding create_auth_token sign_admin_auth_token set_token insert remove lookup
created = refl

created_then_removed_example :
    (is_valid_admin_auth_token after_creation carol ≡ true)
    × (carol.expires_at ≡ 31536200)
    × ((remove_auth_token after_creation (parsed carol)).0 ≡ http_status 204)
    × (is_valid_admin_auth_token (remove_auth_token after_creation (parsed carol)).1 carol ≡ false)
created_then_removed_example =
    created_then_removed example_jwt 200 "r" example_manager (token_of "carol") carol after_creation
      created (string_ne "carol" "" refl)

bad_signature_refused_example :
    is_valid_admin_auth_token_request example_jwt 200 example_manager (some ("Token", "k1"))
    ≡ (ok none, example_manager)
bad_signature_refused_example =
    bad_signature_refused example-JwtLaws 200 example_manager "k1" (example_header "k1")
      (1 ∷ 2 ∷ []) refl (unfold key_function lookup in refl) refl

-- Nobody gave out a key "k2", and eve comes in.
unknown_key_accepted_example :
    (t : AdminAuthToken) × ((is_valid_admin_auth_token_request example_jwt 200 example_manager
        (some ("Token", "k2"))).0
      ≡ ok (some t))
    × (t.subject ≡ "eve")
    × (is_valid_admin_auth_token
          (is_valid_admin_auth_token_request example_jwt 200 example_manager
            (some ("Token", "k2"))).1
          t
        ≡ true)
unknown_key_accepted_example =
    unknown_key_accepted example-JwtLaws 200 example_manager "k2" (example_header "k2") refl
      (unfold key_function lookup in refl) (omega arith)

refresh_unknown_breaks_list_example :
    list_valid_auth_tokens (refresh_admin_auth_token 200 example_manager (token_of "carol")).1
    ≡ panic
refresh_unknown_breaks_list_example =
    refresh_unknown_breaks_list 200 example_manager (token_of "carol") refl (unfold lookup in refl)
      (omega arith)

-- A token that is set, refreshed and then purged in time, with another one that expires.
abbrev example_calls : List Op
example_calls =
    set 1000 "admin-Token-a" (some (token_of "a"))
    ∷ set 1010 "admin-Token-b" none
    ∷ refresh 1050 "admin-Token-a"
    ∷ purge 1100
    ∷ []

run-life_example :
    (lookup "admin-Token-b" (run example_calls new_manager).tokens
      ≡ life "admin-Token-b" example_calls none)
    × IsMap (run example_calls new_manager).tokens
run-life_example = unfold lookup in run-life "admin-Token-b" example_calls new_manager tt

life_ends : life "admin-Token-b" example_calls none ≡ none
unfolding life lived
life_ends = refl

-- A token that is refreshed in time, while another one comes and goes.
abbrev tended_calls : List Op
tended_calls =
    refresh 1050 "admin-Token-a"
    ∷ purge 1100
    ∷ set 1100 "admin-Token-b" none
    ∷ purge 1110
    ∷ pop "admin-Token-b"
    ∷ []

abbrev one_token : Manager
one_token = record new_manager {
  tokens = ("admin-Token-a", record { since = 1000; token = some (token_of "a") }) ∷ [];
}

run-tended_example :
    get_token "admin-Token-a" (run tended_calls one_token) ≡ some (some (token_of "a"))
run-tended_example =
    run-tended "admin-Token-a" tended_calls 1000 (some (token_of "a")) one_token
      (unfold lookup in (refl, tt)) (unfold lookup in refl) (unfold tended in refl)
