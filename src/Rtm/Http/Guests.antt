-- ===== src/Rtm/Http/Guests.antt =====
-- signaling/rtm/http.go with signaling/guest/manager.go: the connect key of a guest.
use kwmserver.Base.{
  ℕ, String, Bool, true, Option, some, string_eq, Dict, lookup, lookup-insert, nat_eq, ok, ◌≡◌, ◌≢◌,
  sym, subst, ap, ◌∙◌, arith, eq_iff, string_eq_refl,
}
use kwmserver.Api.{AdminAuthToken}
use kwmserver.Admin.Auth.{Jwt, http_json}
use kwmserver.Guest.{Outer, guest_claim}
use kwmserver.Guest.Confined.{admitted}
use kwmserver.Rtm.World.{World, KeyRecord}
use kwmserver.Rtm.Webrtc.{passes_restriction, may_create}
use kwmserver.Rtm.Sessions.{Server, connect}
use kwmserver.Rtm.Http.{Settings, Request, Provider, ExtraClaims}
use kwmserver.Rtm.Http.Verified.{granted-IsVerified}
use kwmserver.Rtm.Http.Serve.{ConnectResponse, connect_handler}
use kwmserver.Rtm.Http.Journey.{response-IsKeyed}

-- What a connect key stands for when it was handed to a guest.
pub record IsGuestKey (s : Settings) (key : String) (authorized : Option (Dict Outer)) (w : World)
    : Type 0 where
  pub allow : Bool
  pub enabled : s.guests ≡ some allow
  pub kr : KeyRecord
  pub known : lookup key w.keys ≡ some kr
  pub groups :
      (group : String)
      → passes_restriction (w.user_records kr.user).auth group
        ≡ admitted (guest_claim authorized) group
  pub creating : may_create (w.user_records kr.user).auth ≡ allow

-- The record of a new key holds the auth that it was made for.
connect-known :
    (now : ℕ) (key user : String) (auth : AdminAuthToken) (w : World)
    → user ≢ ""
    → (lookup key (connect now key user (some auth) w).keys
        ≡ some (record { since = now; user = w.fresh }))
      × (((connect now key user (some auth) w).user_records w.fresh).auth ≡ some auth)
unfolding connect
connect-known now key user auth w filled = ground (
  arith,
  eq_iff user "",
  string_eq_refl key,
  lookup-insert key key (record { since = now; user = w.fresh }) w.keys,
)

-- A guest who gets a connect response from a bearer token gets it from a server with guests, and
-- the user behind the new key passes the group check of the webrtc messages exactly for the group
-- that the guest claim of the token admits, and may create channels exactly if the server lets
-- guests do so.
pub guest-IsGuestKey :
    (j : Jwt) (now : ℕ) (s : Settings) (provider : Provider) (route : String → Option String)
    (key value : String) (req : Request) (srv : Server) (c : ExtraClaims) (t : ConnectResponse)
    → s.provider ≡ some provider
    → req.header ≡ some ("Bearer", value)
    → (provider now value).extra ≡ some c
    → c.is_guest ≡ true
    → (connect_handler j now s route key req srv).0 ≡ ok (http_json t)
    → IsGuestKey s key c.authorized (connect_handler j now s route key req srv).1.rtm
guest-IsGuestKey j now s provider route key value req srv c t p hd x guest h =
    let k = response-IsKeyed j now s route key req srv t h in
    let g = k.granted in
    let (v, own) = granted-IsVerified s provider req value j now srv.admin g p hd k.valid in
    let same : v.claims ≡ c = ground (arith, v.access.has_claims) in
    let (allow, (enabled, (groups, creating))) =
      v.confined (ap (λ (y : ExtraClaims). y.is_guest) same ∙ guest) in
    let (known, has) = connect-known now key g.user g.auth srv.rtm k.usable.named in
    subst (IsGuestKey s key c.authorized) (sym k.issued) (record {
      allow = allow;
      enabled = enabled;
      kr = record { since = now; user = srv.rtm.fresh };
      known = known;
      groups = λ group.
          ap (λ a. passes_restriction a group) has
          ∙ groups group
          ∙ ap (λ (y : ExtraClaims). admitted (guest_claim y.authorized) group) same;
      creating = ap may_create has ∙ creating;
    })
