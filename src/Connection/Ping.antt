-- ===== src/Connection/Ping.antt =====
-- Pings and pongs: the pong handler that readPump sets, the ping of writePump.
use kwmserver.Base.{
  ℕ, zero, suc, ◌+◌, ◌*◌, ◌/◌, ◌%◌, ◌^◌, ◌<◌, ◌≤◌, ◌≡◌, ◌≢◌, refl, List, [], ◌∷◌, ◌++◌, length,
  length-append, none, some, true, false, arith, ok, panic,
}
use kwmserver.Connection.Defs.{
  Connection, ping_size, little_endian, put_uint64, pong, ping_tick, last_ping, is_empty,
}

-- The bytes below 2^(8 n), without exponents.
abbrev pub byte_limit : ℕ → ℕ
byte_limit zero = 1
byte_limit (suc n) = 256 * byte_limit n

little_endian-put_uint64 : (n v : ℕ) → v < byte_limit n → little_endian n (put_uint64 n v) ≡ some v
unfolding little_endian put_uint64
little_endian-put_uint64 zero v h = ground arith
little_endian-put_uint64 (suc n) v h =
    ground (arith, little_endian-put_uint64 n (v / 256) (omega arith))

little_endian_short : (n : ℕ) (bs : List ℕ) → length bs < n → little_endian n bs ≡ none
unfolding little_endian
little_endian_short zero bs h = absurd (omega arith)
little_endian_short (suc n) [] h = refl
little_endian_short (suc n) (b ∷ bs) h = ground (arith, little_endian_short n bs)

put_uint64-filled : (v : ℕ) → is_empty (put_uint64 8 v) ≡ false
unfolding put_uint64
put_uint64-filled v = refl

last_ping-append : (xs : List ℕ) (x : ℕ) → last_ping (xs ++ x ∷ []) ≡ some x
last_ping-append [] x = refl
last_ping-append (y ∷ []) x = refl
last_ping-append (y ∷ z ∷ xs) x = last_ping-append (z ∷ xs) x

module _ {P C T B : Type 0} where
  -- After a tick that wrote a ping, a pong that repeats the payload of that ping extends the read
  -- deadline to a minute after it and leaves no ping pending.
  pub pong-ping_tick :
      (now : ℕ) (c : Connection P C T B)
      → (ping_tick c).0 ≡ true
      → let d = (ping_tick c).1 in
        pong now (put_uint64 8 d.pings) d
        ≡ (ok tt, record d { ping = []; read_deadline = now + 60 })
  unfolding pong ping_tick
  pong-ping_tick now c h = ground (
    arith,
    last_ping-append c.ping ((c.pings + 1) % 2 ^ 64),
    little_endian-put_uint64 8 ((c.pings + 1) % 2 ^ 64) (omega arith),
    put_uint64-filled ((c.pings + 1) % 2 ^ 64),
  )

  -- While a ping is pending, a pong whose payload has between one and seven bytes makes the
  -- handler read past the end of the payload: a panic, whatever the rest of the state.
  pub pong_short_panics :
      (now : ℕ) (bs : List ℕ) (c : Connection P C T B)
      → bs ≢ []
      → length bs < 8
      → c.ping ≢ []
      → (pong now bs c).0 ≡ panic
  unfolding pong
  pong_short_panics now bs c filled short pending =
      ground (arith, little_endian_short 8 bs short, pending_last c.ping pending)
    where
      pending_last : (xs : List ℕ) → xs ≢ [] → last_ping xs ≢ none
      pending_last [] h = absurd (h refl)
      pending_last (x ∷ []) h = λ e. ground arith
      pending_last (x ∷ y ∷ xs) h = pending_last (y ∷ xs) (λ e. ground arith)

  -- Ticks with no pong between them.
  unfoldable pub ticks : ℕ → Connection P C T B → Connection P C T B
  ticks zero c = c
  ticks (suc n) c = ticks n (ping_tick c).1

  ticks-ping :
      (n : ℕ) (c : Connection P C T B)
      → length c.ping + n ≤ ping_size
      → length (ticks n c).ping ≡ length c.ping + n
  unfolding ticks ping_tick
  ticks-ping zero c h = omega arith
  ticks-ping (suc n) c h =
      ground
        (arith, ticks-ping n (ping_tick c).1, length-append c.ping (((c.pings + 1) % 2 ^ 64) ∷ []))

  -- A peer that answers no ping has five of them pending after five ticks, and the next tick
  -- hangs up.
  pub ticks_hang_up :
      (c : Connection P C T B)
      → c.ping ≡ []
      → (length (ticks 5 c).ping ≡ ping_size) × ((ping_tick (ticks 5 c)).0 ≡ false)
  unfolding ping_tick
  ticks_hang_up c h =
      let full : length (ticks 5 c).ping ≡ 5 = ground (arith, ticks-ping 5 c) in
      (full, ground arith)
