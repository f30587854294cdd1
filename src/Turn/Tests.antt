-- ===== src/Turn/Tests.antt =====
-- Runs of the TURN credentials. The parameters are concrete functions here, for the tests only.
use Prim.Native.Char.{code}
use text.Mathlib.TextLemmas.{nil-append, cons-append}
use kwmserver.Base.{
  ℕ, zero, suc, ◌+◌, String, ◌+++◌, Bool, true, false, Option, none, some, List, [], ◌∷◌, length,
  ◌==◌, nat_eq, nat_beq, if◌then◌else◌, leb, ◌≡◌, refl, ap, ◌∙◌, arith, Outcome, ok,
}
use kwmserver.Turn.{
  Crypto, Web, ServerAuthServer, ClientConfig, ServerResponse, get_config, new_sharedsecret_server,
  get_service_config, client_config,
}
use kwmserver.Turn.Expiry.{
  get_config-accepted, accepts_config, get_service_config-IsUsable, IsUsable,
}

-- A number as so many ones, up to the colon.
ones : ℕ → String
ones zero = ""
ones (suc n) = String.◌∷◌ "1" (ones n)

count_ones : ℕ → String → Option ℕ
count_ones k String.[] = none
count_ones k (String.◌∷◌ c s) = elim (nat_beq (code c) 49) [
  | true ↦ count_ones (suc k) s
  | false ↦ some k
]

count_ones-ones : (k n : ℕ) (u : String) → count_ones k (ones n +++ (":" +++ u)) ≡ some (k + n)
unfolding count_ones ones
count_ones-ones k zero u = simp nil-append (rw (cons-append ":" "" u) (ground arith))
count_ones-ones k (suc n) u = simp cons-append (count_ones-ones (suc k) n u ∙ ground arith)

abbrev example_crypto : Crypto
example_crypto = record { decimal = ones; hmac = λ key s. length key ∷ []; encode64 = λ bs. "mac" }

get_config-accepted_example :
    accepts_config example_crypto
      (count_ones 0)
      (7 ∷ [])
      5
      (get_config example_crypto 3 (new_sharedsecret_server ("turn:a" ∷ []) (7 ∷ []) 2) "alice")
    ≡ leb 5 (3 + 2)
get_config-accepted_example =
    get_config-accepted example_crypto (count_ones 0) (λ n u. count_ones-ones 0 n u ∙ ground arith)
      ("turn:a" ∷ []) (7 ∷ []) 2 3 5 "alice" (omega arith)

abbrev example_response : ServerResponse
example_response = record { username = "u1"; password = "p1"; ttl = 10; uris = "turn:a" ∷ [] }

abbrev example_web : Web
example_web = record {
  hash = λ s. s;
  valid_url = λ s. true;
  send = λ r. some (record { status = 200; body = some example_response });
}

abbrev example_service : ServerAuthServer
example_service = record { url = "https://turn"; username = "kwm"; password = "secret" }

abbrev example_config : ClientConfig
example_config = record { username = "u1"; password = "p1"; ttl = 60; uris = "turn:a" ∷ [] }

get_service_config-IsUsable_example : IsUsable example_web example_service "alice" example_config
unfolding get_service_config client_config
get_service_config-IsUsable_example =
    get_service_config-IsUsable example_web example_service "alice" example_config refl

-- A service that answers without URIs gives no configuration.
abbrev silent_web : Web
silent_web = record example_web {
  send = λ r. some (record { status = 200; body = some (record example_response { uris = [] }) });
}

silent_fails :
    get_service_config silent_web example_service "alice"
    ≡ kwmserver.Base.fail (kwmserver.Base.plain "TURN service data not available")
unfolding get_service_config client_config
silent_fails = refl
