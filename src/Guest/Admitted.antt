-- ===== src/Guest/Admitted.antt =====
-- signaling/guest/http.go and manager.go: from the logon of a guest to what its token lets it do.
use kwmserver.Base.{
  ℕ, String, Bool, true, Option, none, some, [], ◌∷◌, Dict, lookup, ◌==◌, string_eq, Outcome, ok,
  fail, panic, blocked, trim_space, ◌≡◌, ◌≢◌, refl, sym, ◌∙◌, arith, eq_iff, Bool-cases,
  Option-cases, inl, inr,
}
use kwmserver.Api.{AdminAuthToken, text}
use kwmserver.Rtm.Webrtc.{passes_restriction}
use kwmserver.Clients.{ClientRegistration, Registry, Found, lookup_client}
use kwmserver.Clients.Keys.{Secured, private, IsSigning, private-IsSigning}
use kwmserver.Guest.{
  Claims, Outer, outer_map, inner_map, is_valid_public_path, apply_restrictions, guest_claim,
}
use kwmserver.Guest.Confined.{admitted, guest_confined}
use kwmserver.Guest.Logon.{
  LogonResponse, response, Written, write_error, LogonRequest, LogonEnv, RequestObject, guest_id,
  request_object, respond, sign_with, with_client, with_guest, client_id_written, nothing_written,
  logon,
}
use kwmserver.Guest.Answers.{
  response_of, answer_of, response_of-append, IsClean, write_error-none, lookup_client-registered,
}

-- What the OpenID provider makes of pass thru claims in the tokens that it gives: they are passed
-- through, as the JSON that they are encoded to.
abbrev pub passed_through : Claims → Dict Outer
passed_through c =
    (
      "passthru",
      outer_map (
          ("kopano/kwm/guest", inner_map (("type", text c.type) ∷ ("path", text c.path) ∷ []))
          ∷ []),
    )
    ∷ []

-- A client that may sign for guests.
pub record IsClient (env : LogonEnv) (r : Registry) (req : LogonRequest) (path : String)
    (resp : LogonResponse) : Type 0 where
  pub client : ClientRegistration
  pub named : req.client_id ≢ ""
  pub registered : lookup req.client_id r.clients ≡ some client
  pub secured : Secured
  pub signing : IsSigning client secured
  pub signed :
      env.sign client.request_object_signing_alg secured.kid secured.private_key
        (request_object env req path)
      ≡ some resp.request
  pub same_id : resp.id ≡ guest_id env req
  pub same_name : resp.name ≡ req.name

-- A guest who was let in by a logon.
pub record IsAdmitted (env : LogonEnv) (clients : Option Registry) (req : LogonRequest)
    (resp : LogonResponse) : Type 0 where
  pub registry : Registry
  pub has_registry : clients ≡ some registry
  pub posted : req.method ≡ "POST"
  pub simple : req.guest ≡ "1"
  pub no_token : req.token ≡ ""
  pub has_path : trim_space req.path ≢ ""
  pub public : is_valid_public_path env.pattern (trim_space req.path) ≡ true
  pub client : IsClient env registry req (trim_space req.path) resp

module _ (env : LogonEnv) (r : Registry) (req : LogonRequest) (resp : LogonResponse) (w : Written)
    (clean : IsClean w) where
  respond-ok :
      (o : Option String)
      → answer_of (respond env req o w) ≡ some resp
      → (o ≡ some resp.request) × (resp.id ≡ guest_id env req) × (resp.name ≡ req.name)
  unfolding response_of
  respond-ok none h = absurd (ground arith)
  respond-ok (some token) h =
      let answer : LogonResponse = record {
        request = token;
        id = guest_id env req;
        name = req.name;
      } in
      let same : ◌≡◌ {A = Option LogonResponse} (some answer) (some resp) =
        sym (response_of-append w.body (response answer ∷ []) clean) ∙ h in
      ground (arith, same)

  -- An error is no answer.
  no_answer : (code : ℕ) (s : String) → answer_of (write_error code s w) ≢ some resp
  no_answer code s h = absurd (ground (arith, write_error-none code s w clean))

  sign_with-IsClient :
      (path : String) (c : ClientRegistration) (o : Outcome Secured)
      → private c none ≡ o
      → req.client_id ≢ ""
      → lookup req.client_id r.clients ≡ some c
      → answer_of (sign_with env req path c o w) ≡ some resp
      → IsClient env r req path resp
  sign_with-IsClient path c (ok s) got named known h =
      let (signed, same_id, same_name) = respond-ok _ h in
      record {
        client = c;
        named = named;
        registered = known;
        secured = s;
        signing = private-IsSigning c none s got;
        signed = signed;
        same_id = same_id;
        same_name = same_name;
      }
  sign_with-IsClient path c (fail e) got named known h =
      absurd (no_answer 403 "guest access denied" h)
  sign_with-IsClient path c panic got named known h = absurd (ground arith)
  sign_with-IsClient path c blocked got named known h = absurd (ground arith)

  with_client-IsClient :
      (path : String) (o : Found)
      → lookup_client env.parse r req.client_id "" "" true ≡ o
      → answer_of (with_client env req path o w) ≡ some resp
      → IsClient env r req path resp
  with_client-IsClient path (ok (d, none)) got h = absurd (no_answer 403 "guest access denied" h)
  with_client-IsClient path (ok (d, some c)) got h =
      let (named, known) = lookup_client-registered env.parse r req.client_id d c got in
      elim (Bool-cases (env.known_alg c.request_object_signing_alg)) [
        | inl e ↦ sign_with-IsClient path c (private c none) refl named known (ground arith)
        | inr e ↦ absurd (no_answer 403 "guest access denied" (ground arith))
      ]
  with_client-IsClient path (fail e) got h = absurd (no_answer 403 "guest access denied" h)
  with_client-IsClient path panic got h = absurd (ground arith)
  with_client-IsClient path blocked got h = absurd (ground arith)

  with_guest-IsAdmitted :
      req.method ≡ "POST"
      → req.form_error ≡ none
      → answer_of (with_guest env r req w) ≡ some resp
      → IsAdmitted env (some r) req resp
  with_guest-IsAdmitted posted formed h =
      let path = trim_space req.path in
      elim (Bool-cases (req.guest == "1")) [
        | inr e ↦ absurd (no_answer 400 "unknown guest type" (ground arith))
        | inl e ↦ elim (Bool-cases (path == "")) [
          | inl f ↦ absurd (no_answer 400 "empty path" (ground arith))
          | inr f ↦ elim (Bool-cases (req.token == "")) [
            | inr g ↦ absurd (no_answer 501 "token validation not implemented" (ground arith))
            | inl g ↦ elim (Bool-cases (is_valid_public_path env.pattern path)) [
              | inr p ↦ absurd (no_answer 403 "guest access denied" (ground arith))
              | inl p ↦ record {
                registry = r;
                has_registry = refl;
                posted = posted;
                simple = (eq_iff req.guest "1").0 e;
                no_token = (eq_iff req.token "").0 g;
                has_path = ground (arith, eq_iff path "");
                public = p;
                client = with_client-IsClient path _ refl (ground arith);
              }
            ]
          ]
        ]
      ]

client_id_written-IsClean : (req : LogonRequest) → IsClean (client_id_written req nothing_written)
unfolding response_of
client_id_written-IsClean req = ground arith

-- A logon that is answered with a request token was a POST of a simple guest without token, for a
-- path that is not empty and that the public pattern of the server accepts, by a registered client,
-- and the token is the request object for that path, signed with a signing key of that client.
pub logon-IsAdmitted :
    (env : LogonEnv) (clients : Option Registry) (req : LogonRequest) (resp : LogonResponse)
    → answer_of (logon env clients req) ≡ some resp
    → IsAdmitted env clients req resp
unfolding logon response_of
logon-IsAdmitted env none req resp h = absurd (ground arith)
logon-IsAdmitted env (some r) req resp h = elim (Bool-cases (req.method == "POST")) [
  | inr e ↦ absurd (ground arith)
  | inl e ↦ elim (Option-cases req.form_error) [
    | inr (reason, f) ↦ absurd (ground (arith, f))
    | inl f ↦
        with_guest-IsAdmitted env r req resp (client_id_written req nothing_written)
          (client_id_written-IsClean req) ((eq_iff req.method "POST").0 e) f (ground (arith, f))
  ]
]

admitted-passed_through :
    (c : Claims) (group : String)
    → c.type ≡ "1"
    → admitted (guest_claim (some (passed_through c))) group ≡ (c.path == group)
unfolding lookup
admitted-passed_through c group simple = ground (arith, eq_iff c.type "1")

-- The provider reads the pass thru claims back from a request object that was signed.
abbrev pub ReadsBack : LogonEnv → (String → Option Claims) → Type 0
ReadsBack env read =
    (alg kid : String) (key : Option String) (o : RequestObject) (token : String)
    → env.sign alg kid key o ≡ some token
    → read token ≡ some o.claims.passthru

-- If the provider reads the pass thru claims of the request objects that were signed, and passes
-- them through, then it reads claims from the token of the answer to a logon, and these let the guest
-- pass the group check exactly for the path of its logon, without the space around it, and that
-- is a path that the public pattern accepts.
pub logon_confines :
    (env : LogonEnv) (read : String → Option Claims) (clients : Option Registry)
    (req : LogonRequest) (resp : LogonResponse) (allow : Bool) (auth : AdminAuthToken)
    → ReadsBack env read
    → answer_of (logon env clients req) ≡ some resp
    → (c : Claims) × (read resp.request ≡ some c)
      × ((group : String)
          → passes_restriction
              (some (apply_restrictions allow (some (passed_through c)) auth).1)
              group
            ≡ (trim_space req.path == group))
      × (is_valid_public_path env.pattern (trim_space req.path) ≡ true)
logon_confines env read clients req resp allow auth reads h =
    let a = logon-IsAdmitted env clients req resp h in
    let o = request_object env req (trim_space req.path) in
    let claims = o.claims.passthru in
    (
      claims,
      reads _ _ _ o resp.request a.client.signed,
      λ group.
          (guest_confined allow (some (passed_through claims)) auth group).0
          ∙ admitted-passed_through claims group a.simple,
      a.public,
    )
