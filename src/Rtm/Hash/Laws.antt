-- ===== src/Rtm/Hash/Laws.antt =====
-- Laws of the channel hash.
use kwmserver.Base.{
  ℕ, String, true, List, [], ◌∷◌, nat_eq, if◌then◌else◌, ◌+++◌, string_lt, string_lt_total,
  string_lt_asymm, append_assoc_text, ◌≡◌, ◌↔◌, ap, arith, Bool-cases, inl, inr,
}
use kwmserver.Rtm.World.{Env}
use kwmserver.Rtm.Hash.{compute_hash, check_hash, bytes_equal}

abbrev pub ordered : String → String → String
ordered s t = if string_lt s t then s +++ t else t +++ s

ordered_comm : (s t : String) → ordered s t ≡ ordered t s
ordered_comm s t = elim (Bool-cases (string_lt s t)) [
  | inl lt ↦ rw (lt, string_lt_asymm s t lt)
  | inr ge ↦ elim (Bool-cases (string_lt t s)) [
    | inl gt ↦ rw (ge, gt)
    | inr le ↦ rw (string_lt_total s t ge le)
  ]
]

ordered_splice :
    (s m t : String)
    → string_lt s (m +++ t) ≡ true
    → string_lt (s +++ m) t ≡ true
    → ordered s (m +++ t) ≡ ordered (s +++ m) t
ordered_splice s m t h k = ground (arith, append_assoc_text s m t)

-- The hash does not depend on which of the two parties is the source: what one was given, the
-- other may use.
pub compute_hash_comm :
    (e : Env) (msg_type s t channel : String)
    → compute_hash e msg_type s t channel ≡ compute_hash e msg_type t s channel
unfolding compute_hash
compute_hash_comm e msg_type s t channel =
    ap (λ p. e.hmac (msg_type +++ (p +++ channel))) (ordered_comm s t)

-- The two names are joined with nothing between them, so the hash of the parties `s` and
-- `m +++ t` is also that of `s +++ m` and `t`, wherever the first name of each pair is the smaller.
pub compute_hash_splice :
    (e : Env) (msg_type s m t channel : String)
    → string_lt s (m +++ t) ≡ true
    → string_lt (s +++ m) t ≡ true
    → compute_hash e msg_type s (m +++ t) channel ≡ compute_hash e msg_type (s +++ m) t channel
unfolding compute_hash
compute_hash_splice e msg_type s m t channel h k =
    ap (λ p. e.hmac (msg_type +++ (p +++ channel))) (ordered_splice s m t h k)

pub bytes_equal_iff : (xs ys : List ℕ) → (bytes_equal xs ys ≡ true) ↔ (xs ≡ ys)
unfolding bytes_equal
bytes_equal_iff [] [] = ground arith
bytes_equal_iff [] (y ∷ ys) = ground arith
bytes_equal_iff (x ∷ xs) [] = ground arith
bytes_equal_iff (x ∷ xs) (y ∷ ys) = ground (arith, bytes_equal_iff xs ys)

pub check_hash_iff :
    (e : Env) (hash : List ℕ) (msg_type s t channel : String)
    → (check_hash e hash msg_type s t channel ≡ true) ↔ (hash ≡ compute_hash e msg_type s t channel)
unfolding check_hash
check_hash_iff e hash msg_type s t channel =
    bytes_equal_iff hash (compute_hash e msg_type s t channel)
