-- ===== src/Guest/Confined.antt =====
-- Guests (signaling/guest/manager.go) and the group check of signaling/rtm/webrtc.go.
use kwmserver.Base.{
  String, Bool, true, false, Option, none, some, [], Dict, lookup, lookup-insert, lookup-empty,
  ◌==◌, string_eq, if◌then◌else◌, ◌≡◌, refl, ap, arith, eq_iff,
}
use kwmserver.Api.{AdminAuthToken, Claim, claim_text}
use kwmserver.Rtm.Webrtc.{passes_restriction, may_create}
use kwmserver.Guest.{Outer, apply_restrictions, guest_claim, restrict_by, new_claims_from_map}

-- The groups that the claims admit: the path of a guest claim of type "1".
abbrev pub admitted : Option (Dict Claim) → String → Bool
admitted none group = false
admitted (some m) group =
    if claim_text (lookup "type" m) == "1" then claim_text (lookup "path" m) == group else false

one_filled : (s : String) → (s == "1") ≡ true → (s == "") ≡ false
one_filled s h = ap (λ x. x == "") ((eq_iff s "1").0 h)

restrict_by-admitted :
    (allow : Bool) (claim : Option (Dict Claim)) (auth : AdminAuthToken) (group : String)
    → passes_restriction (some (restrict_by auth allow claim).1) group ≡ admitted claim group
unfolding new_claims_from_map
restrict_by-admitted allow none auth group = ground (arith, lookup-empty {V = Bool} group)
restrict_by-admitted allow (some m) auth group = ground (
  arith,
  lookup-empty {V = Bool} group,
  lookup-insert (claim_text (lookup "path" m)) group true [],
  one_filled (claim_text (lookup "type" m)),
)

restrict_by-may_create :
    (allow : Bool) (claim : Option (Dict Claim)) (auth : AdminAuthToken)
    → may_create (some (restrict_by auth allow claim).1) ≡ allow
unfolding new_claims_from_map
restrict_by-may_create allow none auth = refl
restrict_by-may_create allow (some m) auth = ground arith

-- Whatever its claims are, and also where applying them fails, a guest passes the group check of
-- the webrtc messages exactly for the group that is the path of its guest claim of type "1", and
-- may create channels exactly if the server allows that to guests.
pub guest_confined :
    (allow : Bool) (authorized : Option (Dict Outer)) (auth : AdminAuthToken) (group : String)
    → (passes_restriction (some (apply_restrictions allow authorized auth).1) group
        ≡ admitted (guest_claim authorized) group)
      × (may_create (some (apply_restrictions allow authorized auth).1) ≡ allow)
unfolding apply_restrictions
guest_confined allow authorized auth group = (
  restrict_by-admitted allow (guest_claim authorized) auth group,
  restrict_by-may_create allow (guest_claim authorized) auth,
)
