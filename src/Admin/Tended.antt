-- ===== src/Admin/Tended.antt =====
-- signaling/admin/manager.go: how long a token stays in the table.
use kwmserver.Base.{
  ℕ, ◌+◌, String, Bool, true, false, ◌&&◌, Option, some, List, [], ◌∷◌, lookup, IsMap, leb, ◌==◌,
  string_eq, if◌then◌else◌, ◌≡◌, ◌∙◌, arith, Bool-cases, inl, inr,
}
use kwmserver.Api.{AdminAuthToken}
use kwmserver.Admin.Tokens.{Manager, get_token}
use kwmserver.Admin.Lives.{
  Op, set, refresh, remove, pop, purge, call, run, lived, call-IsMap, call-lived,
}

-- Is a token that was set or refreshed at `last` neither set again nor removed, and refreshed in time
-- before each purge?
unfoldable pub tended : String → ℕ → List Op → Bool
tended id last [] = true
tended id last (set now j token ∷ ops) =
    let rest = tended id last ops in if j == id then false else rest
tended id last (refresh now j ∷ ops) =
    let renewed = tended id now ops in
    let rest = tended id last ops in if j == id then renewed else rest
tended id last (remove j ∷ ops) = let rest = tended id last ops in if j == id then false else rest
tended id last (pop j ∷ ops) = let rest = tended id last ops in if j == id then false else rest
tended id last (purge now ∷ ops) = let rest = tended id last ops in leb now (last + 60) && rest

abbrev pub HasToken : String → ℕ → Option AdminAuthToken → Manager → Type 0
HasToken id last t m = lookup id m.tokens ≡ some (record { since = last; token = t })

-- One call keeps a token that is tended, and says when it was touched last.
kept_once :
    (id : String) (op : Op) (ops : List Op) (last : ℕ) (t : Option AdminAuthToken) (m : Manager)
    → IsMap m.tokens
    → HasToken id last t m
    → tended id last (op ∷ ops) ≡ true
    → (next : ℕ) × HasToken id next t (call op m) × (tended id next ops ≡ true)
unfolding tended lived
kept_once id (set now j token) ops last t m h has ok_ =
    (last, call-lived id (set now j token) m h ∙ ground arith, ground arith)
kept_once id (refresh now j) ops last t m h has ok_ = elim (Bool-cases (j == id)) [
  | inl e ↦ (now, call-lived id (refresh now j) m h ∙ ground (arith, e), ground (arith, e))
  | inr e ↦ (last, call-lived id (refresh now j) m h ∙ ground (arith, e), ground (arith, e))
]
kept_once id (remove j) ops last t m h has ok_ =
    (last, call-lived id (remove j) m h ∙ ground arith, ground arith)
kept_once id (pop j) ops last t m h has ok_ =
    (last, call-lived id (pop j) m h ∙ ground arith, ground arith)
kept_once id (purge now) ops last t m h has ok_ =
    (last, call-lived id (purge now) m h ∙ ground arith, ground arith)

-- A token that is in the table stays there, through any history of calls and purges in which its id
-- is neither set nor removed and is refreshed no more than 60 seconds before each purge: GetToken
-- then still gives that token.
pub run-tended :
    (id : String) (ops : List Op) (last : ℕ) (t : Option AdminAuthToken) (m : Manager)
    → IsMap m.tokens
    → HasToken id last t m
    → tended id last ops ≡ true
    → get_token id (run ops m) ≡ some t
unfolding run get_token
run-tended id [] last t m h has ok_ = ground arith
run-tended id (op ∷ ops) last t m h has ok_ =
    let (next, has', ok') = kept_once id op ops last t m h has ok_ in
    run-tended id ops next t (call op m) (call-IsMap op m h) has' ok'
