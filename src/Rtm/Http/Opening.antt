-- ===== src/Rtm/Http/Opening.antt =====
-- signaling/rtm/http.go: what the connect handler hands out, and to whom; and that the TURN handler
-- decides as it does.
use kwmserver.Base.{
  ℕ, String, Bool, false, not, ◌&&◌, Option, none, some, ◌==◌, string_eq, Outcome, ok, fail, panic,
  blocked, ◌≡◌, ◌≢◌, ◌⊎◌, inl, inr, refl, sym, subst, ap, ◌∙◌, arith, eq_iff, Bool-cases,
}
use kwmserver.Admin.Tokens.{Manager}
use kwmserver.Admin.Auth.{Jwt, Reply, http_json, refresh_admin_auth_token}
use kwmserver.Rtm.Sessions.{Server, connect}
use kwmserver.Rtm.Http.{Settings, Request, Granted, is_request_with_valid_auth}
use kwmserver.Rtm.Http.Serve.{
  Access, refused, admitted, check_user, ConnectResponse, connect_reply, key_issued,
  connect_admitted, connect_checked, connect_handler,
}

-- What an auth must be for its user.
pub record IsUsable (insecure : Bool) (g : Granted) : Type 0 where
  pub named : g.user ≢ ""
  pub own : insecure ≡ false → g.user ≡ g.auth.subject

check_user-IsUsable :
    (insecure : Bool) (text : String) (og : Option Granted) (g : Granted)
    → check_user insecure text og ≡ admitted g
    → (og ≡ some g) × IsUsable insecure g
check_user-IsUsable insecure text none g e = absurd (ground arith)
check_user-IsUsable insecure text (some d) g e = elim (Bool-cases (d.user == "")) [
  | inl x ↦ absurd (ground arith)
  | inr x ↦ elim (Bool-cases (not insecure && not (d.user == d.auth.subject))) [
    | inl y ↦ absurd (ground arith)
    | inr y ↦
        let same : d ≡ g = ground arith in
        (
          ap some same,
          subst (IsUsable insecure) (same) (record {
            named = ground (arith, eq_iff d.user "");
            own = λ z. ground (arith, eq_iff d.user d.auth.subject);
          }),
        )
  ]
]

-- What a request has led to when its key is in the table.
pub record IsKeyed (j : Jwt) (now : ℕ) (s : Settings) (route : String → Option String)
    (key : String) (req : Request) (srv : Server) (r : Outcome (Reply ConnectResponse) × Server)
    : Type 0 where
  pub granted : Granted
  pub valid : (is_request_with_valid_auth j now s req srv.admin).0 ≡ ok (some granted)
  pub usable : IsUsable s.insecure granted
  pub replied : r.0 ≡ connect_reply s granted srv.rtm.server_status (route key)
  pub issued : r.1.rtm ≡ connect now key granted.user (some granted.auth) srv.rtm
  pub refreshed :
      r.1.admin
      ≡ (refresh_admin_auth_token now
          (is_request_with_valid_auth j now s req srv.admin).1
          granted.auth).1

-- A request that was refused, and changed nothing of the sessions.
abbrev pub IsRefused : Server → Outcome (Reply ConnectResponse) × Server → Type 0
IsRefused srv r = (r.1.rtm ≡ srv.rtm) × ((t : ConnectResponse) → r.0 ≢ ok (http_json t))

admitted-IsKeyed :
    (j : Jwt) (now : ℕ) (s : Settings) (route : String → Option String) (key : String)
    (req : Request) (srv : Server) (og : Option Granted) (m : Manager) (a : Access)
    → is_request_with_valid_auth j now s req srv.admin ≡ (ok og, m)
    → check_user s.insecure "auth failed" og ≡ a
    → let r = connect_admitted now s route key a (record srv { admin = m }) in
      IsRefused srv r ⊎ IsKeyed j now s route key req srv r
unfolding key_issued
admitted-IsKeyed j now s route key req srv og m (refused code text) valid e =
    inl (refl, λ t h. absurd (ground arith))
admitted-IsKeyed j now s route key req srv og m (admitted g) valid e =
    let (is, usable) = check_user-IsUsable s.insecure "auth failed" og g e in
    inr (record {
      granted = g;
      valid = ap (λ x. x.0) valid ∙ ap ok is;
      usable = usable;
      replied = refl;
      issued = refl;
      refreshed = ap (λ x. (refresh_admin_auth_token now x.1 g.auth).1) (sym valid);
    })

checked-IsKeyed :
    (j : Jwt) (now : ℕ) (s : Settings) (route : String → Option String) (key : String)
    (req : Request) (srv : Server) (c : Outcome (Option Granted) × Manager)
    → is_request_with_valid_auth j now s req srv.admin ≡ c
    → let r = connect_checked now s route key srv c in
      IsRefused srv r ⊎ IsKeyed j now s route key req srv r
checked-IsKeyed j now s route key req srv (ok og, m) e =
    admitted-IsKeyed j now s route key req srv og m (check_user s.insecure "auth failed" og) e refl
checked-IsKeyed j now s route key req srv (fail x, m) e = inl (refl, λ t h. absurd (ground arith))
checked-IsKeyed j now s route key req srv (panic, m) e = inl (refl, λ t h. absurd (ground arith))
checked-IsKeyed j now s route key req srv (blocked, m) e = inl (refl, λ t h. absurd (ground arith))

-- The connect handler either gives no connect response and changes nothing of the sessions, or
-- the request has a valid auth and a user, which is the subject of the auth unless the server is
-- insecure, and the sessions are those after Connect with the new key for that user and auth.
-- The reply is then made of the URL of the key and the answer of the TURN server for that user.
pub connect-IsKeyed :
    (j : Jwt) (now : ℕ) (s : Settings) (route : String → Option String) (key : String)
    (req : Request) (srv : Server)
    → let r = connect_handler j now s route key req srv in
      IsRefused srv r ⊎ IsKeyed j now s route key req srv r
unfolding connect_handler
connect-IsKeyed j now s route key req srv = checked-IsKeyed j now s route key req srv _ refl
