-- ===== src/Rtm/Sessions/Purge.antt =====
-- What the periodic purges remove.
use kwmserver.Base.{
  ℕ, ◌+◌, String, Bool, false, ◌&&◌, Option, none, some, List, [], ◌∷◌, Dict, lookup, remove,
  lookup-remove, IsMap, mem_text, ltb, nat_eq, string_eq, if◌then◌else◌, Ptr, ◌≡◌, refl, arith,
  eq_iff,
}
use kwmserver.Rtm.World.{World, KeyRecord, UserRecord}
use kwmserver.Rtm.Sessions.{
  purge_expired_keys, purge_inactive_users, expired_keys, inactive_ids, remove_all, no_connections,
}
use kwmserver.Rtm.Sessions.Users.{IsDirectory}

remove_all-lookup :
    {V : Type 0}
    → (id : String) (ids : List String) (m : Dict V)
    → lookup id (remove_all ids m) ≡ (if mem_text id ids then none else lookup id m)
remove_all-lookup id [] m = refl
remove_all-lookup id (x ∷ xs) m =
    ground (arith, remove_all-lookup id xs (remove x m), lookup-remove x id m)

-- The key record, unless it is older than 30 seconds.
abbrev pub unexpired_key : ℕ → Option KeyRecord → Option KeyRecord
unexpired_key now none = none
unexpired_key now (some r) = if ltb (r.since + 30) now then none else some r

abbrev pub key_expired : ℕ → Option KeyRecord → Bool
key_expired now none = false
key_expired now (some r) = ltb (r.since + 30) now

mem_text-expired_keys :
    (now : ℕ) (key : String) (m : Dict KeyRecord)
    → IsMap m
    → mem_text key (expired_keys now m) ≡ key_expired now (lookup key m)
unfolding expired_keys lookup
mem_text-expired_keys now key [] h = refl
mem_text-expired_keys now key ((k, r) ∷ m) h =
    ground (arith, mem_text-expired_keys now key m h.1, eq_iff k key)

-- The purge of the keys removes exactly those that are older than 30 seconds.
pub purge_keys-lookup :
    (now : ℕ) (key : String) (w : World)
    → IsMap w.keys
    → lookup key (purge_expired_keys now w).keys ≡ unexpired_key now (lookup key w.keys)
unfolding purge_expired_keys
purge_keys-lookup now key w h = ground (
  arith,
  remove_all-lookup key (expired_keys now w.keys) w.keys,
  mem_text-expired_keys now key w.keys h,
)

-- Has a user no connection, and had none for more than a minute?
abbrev pub is_offline : ℕ → UserRecord → Bool
is_offline now u = no_connections u && ltb (u.exit + 60) now

abbrev pub offline_at : ℕ → World → Option Ptr → Bool
offline_at now w none = false
offline_at now w (some u) = is_offline now (w.user_records u)

mem_text-inactive_ids :
    (now : ℕ) (id : String) (w : World) (m : Dict Ptr)
    → IsMap m
    → ((j : String) (u : Ptr) → lookup j m ≡ some u → (w.user_records u).id ≡ j)
    → mem_text id (inactive_ids now w m) ≡ offline_at now w (lookup id m)
unfolding inactive_ids lookup
mem_text-inactive_ids now id w [] h n = refl
mem_text-inactive_ids now id w ((k, p) ∷ m) h n =
    let later : (j : String) (u : Ptr) → lookup j m ≡ some u → (w.user_records u).id ≡ j =
      λ j u e. ground (arith, eq_iff k j, n j u) in
    ground (
      arith,
      mem_text-inactive_ids now id w m h.1 later,
      n k p (ground (arith, eq_iff k k)),
      eq_iff k id,
    )

-- The purge of the users removes exactly those who have no connection and left more than a minute
-- ago.
pub purge_users-lookup :
    (now : ℕ) (id : String) (w : World)
    → IsMap w.users
    → IsDirectory w
    → lookup id (purge_inactive_users now w).users
      ≡ (if offline_at now w (lookup id w.users) then none else lookup id w.users)
unfolding purge_inactive_users
purge_users-lookup now id w h d = ground (
  arith,
  remove_all-lookup id (inactive_ids now w w.users) w.users,
  mem_text-inactive_ids now id w w.users h (λ j u e. d.named j u e),
)
