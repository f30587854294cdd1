-- ===== src/Admin/Lives.antt =====
-- signaling/admin/manager.go: the token table as its callers see it. Each id has a life of its own,
-- which calls for other ids do not touch; the purge, which ranges over the whole table, ends the
-- lives that have expired.
use kwmserver.Base.{
  ℕ, String, Option, none, some, List, [], ◌∷◌, lookup, lookup-insert, lookup-remove, IsMap,
  insert-IsMap, remove-IsMap, ◌==◌, string_eq, if◌then◌else◌, ◌≡◌, ltb, ◌+◌, refl, ap, ◌∙◌, arith,
  eq_iff,
}
use kwmserver.Api.{AdminAuthToken}
use kwmserver.Admin.Tokens.{
  Manager, TokenRecord, refreshed, set_token, refresh_token, remove_token, remove_tokens, pop_token,
  purge_expired_tokens, expired_ids,
}
use kwmserver.Admin.Table.{unexpired, purge-lookup}

-- The calls that change the table.
pub data Op : Type 0 where
  set : ℕ → String → Option AdminAuthToken → Op
  refresh : ℕ → String → Op
  remove : String → Op
  pop : String → Op
  purge : ℕ → Op

unfoldable pub call : Op → Manager → Manager
call (set now id token) m = set_token now id token m
call (refresh now id) m = refresh_token now id m
call (remove id) m = remove_token id m
call (pop id) m = (pop_token id m).1
call (purge now) m = purge_expired_tokens now m

unfoldable pub run : List Op → Manager → Manager
run [] m = m
run (op ∷ ops) m = run ops (call op m)

-- A refresh sets the time and keeps the token; an id that is not known gets an empty record.
abbrev pub touched : ℕ → Option TokenRecord → TokenRecord
touched now none = record { since = 0; token = none }
touched now (some r) = record { since = now; token = r.token }

-- A record is dropped once it is older than 60 seconds.
abbrev pub lapsed : ℕ → Option TokenRecord → Option TokenRecord
lapsed now none = none
lapsed now (some r) = if ltb (r.since + 60) now then none else some r

-- One call in the life of an id; `none` is an id that is not known.
unfoldable pub lived : String → Op → Option TokenRecord → Option TokenRecord
lived id (set now j token) r = if j == id then some (record { since = now; token = token }) else r
lived id (refresh now j) r = if j == id then some (touched now r) else r
lived id (remove j) r = if j == id then none else r
lived id (pop j) r = if j == id then none else r
lived id (purge now) r = lapsed now r

unfoldable pub life : String → List Op → Option TokenRecord → Option TokenRecord
life id [] r = r
life id (op ∷ ops) r = life id ops (lived id op r)

remove_tokens-IsMap :
    (ids : List String) (m : Manager) → IsMap m.tokens → IsMap (remove_tokens ids m).tokens
unfolding remove_tokens remove_token
remove_tokens-IsMap [] m h = h
remove_tokens-IsMap (id ∷ ids) m h =
    remove_tokens-IsMap ids (remove_token id m) (remove-IsMap id m.tokens h)

pub call-IsMap : (op : Op) (m : Manager) → IsMap m.tokens → IsMap (call op m).tokens
unfolding call set_token refresh_token remove_token pop_token purge_expired_tokens
call-IsMap (set now id token) m h =
    insert-IsMap id (record { since = now; token = token }) m.tokens h
call-IsMap (refresh now id) m h = insert-IsMap id (refreshed now (lookup id m.tokens)) m.tokens h
call-IsMap (remove id) m h = remove-IsMap id m.tokens h
call-IsMap (pop id) m h = remove-IsMap id m.tokens h
call-IsMap (purge now) m h = remove_tokens-IsMap (expired_ids now m.tokens) m h

refreshed-touched : (now : ℕ) (r : Option TokenRecord) → refreshed now r ≡ touched now r
refreshed-touched now none = refl
refreshed-touched now (some r) = refl

unexpired-lapsed : (now : ℕ) (r : Option TokenRecord) → unexpired now r ≡ lapsed now r
unexpired-lapsed now none = refl
unexpired-lapsed now (some r) = refl

pub call-lived :
    (id : String) (op : Op) (m : Manager)
    → IsMap m.tokens
    → lookup id (call op m).tokens ≡ lived id op (lookup id m.tokens)
unfolding call lived set_token refresh_token remove_token pop_token
call-lived id (set now j token) m h =
    lookup-insert j id (record { since = now; token = token }) m.tokens
call-lived id (refresh now j) m h =
    lookup-insert j id (refreshed now (lookup j m.tokens)) m.tokens
    ∙ ground (arith, eq_iff j id, refreshed-touched now (lookup j m.tokens))
call-lived id (remove j) m h = lookup-remove j id m.tokens
call-lived id (pop j) m h = lookup-remove j id m.tokens
call-lived id (purge now) m h = purge-lookup now id m h ∙ unexpired-lapsed now (lookup id m.tokens)

-- Over any history of calls, with the purges anywhere among them, the table holds for each id
-- exactly what the calls for that id and the purges alone make of it: a set starts a life, a refresh
-- renews its time and keeps its token, a removal ends it, and so does a purge more than 60 seconds
-- after its last time.
pub run-life :
    (id : String) (ops : List Op) (m : Manager)
    → IsMap m.tokens
    → (lookup id (run ops m).tokens ≡ life id ops (lookup id m.tokens)) × IsMap (run ops m).tokens
unfolding run life
run-life id [] m h = (refl, h)
run-life id (op ∷ ops) m h =
    let (same, map) = run-life id ops (call op m) (call-IsMap op m h) in
    (same ∙ ap (life id ops) (call-lived id op m h), map)
