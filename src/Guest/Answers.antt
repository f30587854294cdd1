-- ===== src/Guest/Answers.antt =====
-- signaling/guest/http.go: what a reply to a logon holds; and the clients that Lookup finds for it.
use kwmserver.Base.{
  ℕ, String, Bool, true, false, Option, none, some, List, [], ◌∷◌, ◌++◌, lookup, ◌==◌, string_eq,
  Outcome, ok, fail, panic, blocked, ◌≡◌, ◌≢◌, refl, ap, arith, eq_iff, Bool-cases, inl, inr,
}
use kwmserver.Clients.{
  ClientRegistration, Registry, Url, Details, lookup_client, found, found_registered, validate,
  implicit_trust,
}
use kwmserver.Guest.Logon.{LogonResponse, Part, error_text, response, Written, write_error}

-- The first response in a reply.
unfoldable pub response_of : List Part → Option LogonResponse
response_of [] = none
response_of (error_text s ∷ ps) = response_of ps
response_of (response r ∷ ps) = some r

abbrev pub answer_of : Outcome Written → Option LogonResponse
answer_of (ok w) = response_of w.body
answer_of _ = none

pub response_of-append :
    (ps qs : List Part) → response_of ps ≡ none → response_of (ps ++ qs) ≡ response_of qs
unfolding response_of
response_of-append [] qs h = refl
response_of-append (error_text s ∷ ps) qs h = response_of-append ps qs h
response_of-append (response r ∷ ps) qs h = absurd (ground arith)

-- A reply that has no response yet.
abbrev pub IsClean : Written → Type 0
IsClean w = response_of w.body ≡ none

-- After an error there is none either.
pub write_error-none :
    (code : ℕ) (s : String) (w : Written) → IsClean w → answer_of (write_error code s w) ≡ none
unfolding response_of
write_error-none code s w clean = response_of-append w.body (error_text s ∷ []) clean

found_registered-same :
    (id : String) (d : Details) (b c : ClientRegistration) (o : Outcome (Unit {0}))
    → found_registered id b o ≡ ok (d, some c)
    → b ≡ c
found_registered-same id d b c (ok u) h = ground arith
found_registered-same id d b c (fail e) h = absurd (ground arith)
found_registered-same id d b c panic h = absurd (ground arith)
found_registered-same id d b c blocked h = absurd (ground arith)

found-registered :
    (id : String) (t : Outcome Bool) (o : Option ClientRegistration) (d : Details)
    (c : ClientRegistration)
    → found id "" "" true t o ≡ ok (d, some c)
    → o ≡ some c
found-registered id (ok t) (some b) d c h =
    ap some (found_registered-same id d b c (validate b "" "" true) (ground arith))
found-registered id (ok true) none d c h = absurd (ground arith)
found-registered id (ok false) none d c h = absurd (ground arith)
found-registered id (fail e) o d c h = absurd (ground arith)
found-registered id panic o d c h = absurd (ground arith)
found-registered id blocked o d c h = absurd (ground arith)

pub lookup_client-registered :
    (parse : String → Option Url) (r : Registry) (id : String) (d : Details)
    (c : ClientRegistration)
    → lookup_client parse r id "" "" true ≡ ok (d, some c)
    → (id ≢ "") × (lookup id r.clients ≡ some c)
unfolding lookup_client
lookup_client-registered parse r id d c h = elim (Bool-cases (id == "")) [
  | inl e ↦ absurd (ground arith)
  | inr e ↦ (
    ground (arith, eq_iff id ""),
    found-registered id (implicit_trust r.trusted_uri (parse "")) (lookup id r.clients) d c
        (ground arith),
  )
]
