-- ===== src/Guest.antt =====
-- signaling/guest/manager.go and guest.go: what a guest may do, from the claims of its token. The
-- claims are nested maps, of which the program reads texts; the OpenID library, which takes the
-- authorized claims out of a token, is an argument.
pub mod Confined
pub mod Logon
pub mod Answers
pub mod Admitted
mod Tests
use kwmserver.Base.{
  String, Bool, true, false, Option, none, some, List, [], Dict, lookup, insert, ◌==◌, string_eq,
  if◌then◌else◌, Outcome, ok, fail, panic, blocked, plain,
}
use kwmserver.Api.{AdminAuthToken, Claim, text, claim_text}

-- A value that is a map of claims, or something else; and one level further out.
pub data Inner : Type 0 where
  inner_map : Dict Claim → Inner
  inner_other : Inner

pub data Outer : Type 0 where
  outer_map : Dict Inner → Outer
  outer_other : Outer

-- Claims of guest.go
pub record Claims : Type 0 where
  pub type : String
  pub path : String

-- newClaimsFromMap
unfoldable pub new_claims_from_map : Dict Claim → Outcome Claims
new_claims_from_map m =
    let c : Claims = record {
      type = claim_text (lookup "type" m);
      path = claim_text (lookup "path" m);
    } in
    if c.type == "" then fail (plain "no type in guest claims") else ok c

abbrev pub outer_at : Option Outer → Option (Dict Inner)
outer_at (some (outer_map m)) = some m
outer_at _ = none

abbrev pub inner_at : Option Inner → Option (Dict Claim)
inner_at (some (inner_map m)) = some m
inner_at _ = none

-- The guest claim in the passthru map, if both are maps.
abbrev pub in_passthru : Option (Dict Inner) → Option (Dict Claim)
in_passthru none = none
in_passthru (some passthru) = inner_at (lookup "kopano/kwm/guest" passthru)

abbrev pub guest_claim : Option (Dict Outer) → Option (Dict Claim)
guest_claim none = none
guest_claim (some authorized) = in_passthru (outer_at (lookup "passthru" authorized))

abbrev pub restrict : AdminAuthToken → Bool → Dict Bool → AdminAuthToken
restrict auth allow groups = record auth {
  group_restriction = some groups;
  can_create_channels = allow;
}

abbrev pub restrict_to :
    AdminAuthToken → Bool → Outcome Claims → Outcome (Unit {0}) × AdminAuthToken
restrict_to auth allow (ok c) =
    if c.type == "1"
    then (ok tt, restrict auth allow (insert c.path true []))
    else (fail (plain "unknown guest type in guest claims"), restrict auth allow [])
restrict_to auth allow (fail e) = (fail e, restrict auth allow [])
restrict_to auth allow panic = (panic, restrict auth allow [])
restrict_to auth allow blocked = (blocked, restrict auth allow [])

abbrev pub restrict_by :
    AdminAuthToken → Bool → Option (Dict Claim) → Outcome (Unit {0}) × AdminAuthToken
restrict_by auth allow none = (ok tt, restrict auth allow [])
restrict_by auth allow (some m) = restrict_to auth allow (new_claims_from_map m)

-- ApplyRestrictions, with allowGuestOnlyChannels and the authorized claims. The token is changed
-- in place, also where an error is returned.
unfoldable pub apply_restrictions :
    Bool → Option (Dict Outer) → AdminAuthToken → Outcome (Unit {0}) × AdminAuthToken
apply_restrictions allow authorized auth = restrict_by auth allow (guest_claim authorized)

-- isValidPublicPath, with the pattern
unfoldable pub is_valid_public_path : Option (String → Bool) → String → Bool
is_valid_public_path none path = false
is_valid_public_path (some pattern) path = pattern path
