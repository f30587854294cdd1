-- ===== src/Connection/Defs.antt =====
-- The record and the operations of connection.go.
use kwmserver.Base.{
  ℕ, zero, suc, ◌+◌, ◌-◌, ◌*◌, ◌/◌, ◌%◌, ◌^◌, String, Bool, true, false, Option, none, some, List,
  [], ◌∷◌, ◌++◌, length, ltb, ◌==◌, nat_eq, string_eq, if◌then◌else◌, Dict, lookup, insert, remove,
  Outcome, ok, fail, panic, plain,
}

-- make(chan []byte, 256), make(chan *pingRecord, 5)
abbrev pub queue_size : ℕ
queue_size = 256

abbrev pub ping_size : ℕ
ping_size = 5

-- `send` and `ping` are the buffered channels, oldest first. `pings` is the id of the last ping.
pub record Connection (P C T B : Type 0) : Type 0 where
  pub id : String
  pub closed : Bool
  pub send : List P
  pub start : ℕ
  pub duration : ℕ
  pub ping : List ℕ
  pub pings : ℕ
  pub read_deadline : ℕ
  pub binder : B
  pub on_closed_callbacks : List C
  pub transactions : Dict T

abbrev pub Callbacks : Type 0 → Type 0
Callbacks C = List C

module _ {P C T B : Type 0} where
  -- New
  unfoldable pub new : String → ℕ → B → Connection P C T B
  new id now nobody = record {
    id = id;
    closed = false;
    send = [];
    start = now;
    duration = 0;
    ping = [];
    pings = 0;
    read_deadline = 0;
    binder = nobody;
    on_closed_callbacks = [];
    transactions = [];
  }

  -- Close: the connection, and the callbacks that the caller runs next.
  unfoldable pub close : ℕ → Connection P C T B → Connection P C T B × Callbacks C
  close now c = if c.closed then (c, []) else (
    record c { closed = true; duration = now - c.start; on_closed_callbacks = [] },
    c.on_closed_callbacks,
  )

  -- OnClosed
  unfoldable pub on_closed : C → Connection P C T B → Connection P C T B
  on_closed cb c = record c { on_closed_callbacks = c.on_closed_callbacks ++ cb ∷ [] }

  -- Duration
  unfoldable pub duration_at : ℕ → Connection P C T B → ℕ
  duration_at now c = if ltb 0 c.duration then c.duration else now - c.start

  -- RawSend, and Send of a message that is encoded
  unfoldable pub raw_send : P → Connection P C T B → Outcome (Unit {0}) × Connection P C T B
  raw_send p c =
      if c.closed
      then (fail (plain "send to closed connection"), c)
      else if ltb (length c.send) queue_size
      then (ok tt, record c { send = c.send ++ p ∷ [] })
      else (fail (plain "queue full"), c)

  -- SendTransaction
  unfoldable pub send_transaction :
      String → T → P → Connection P C T B → Outcome (Unit {0}) × Connection P C T B
  unfolding raw_send
  send_transaction tid cb p c =
      if tid == ""
      then raw_send p c
      else raw_send p (record c { transactions = insert tid cb c.transactions })

  -- Transaction. `fallback` is what the caller's fallback function returns.
  unfoldable pub transaction :
      String → Option T → Connection P C T B → Option T × Connection P C T B
  transaction tid fallback c = if tid == "" then (none, c) else elim (lookup tid c.transactions) [
    | none ↦ (fallback, c)
    | some cb ↦ (some cb, record c { transactions = remove tid c.transactions })
  ]

  -- Bind
  unfoldable pub bind : B → Connection P C T B → Connection P C T B
  bind b c = record c { binder = b }

  -- One receive from `send` by writePump: the next payload to write. On an empty queue it waits,
  -- or, if the queue is closed, it ends: `fail`.
  unfoldable pub next_payload : Connection P C T B → Outcome (Option P) × Connection P C T B
  next_payload c = elim c.send [
    | [] ↦ if c.closed then (fail (plain "send channel closed"), c) else (ok none, c)
    | p ∷ rest ↦ (ok (some p), record c { send = rest })
  ]

  -- writePump on a tick: whether the pump goes on, and the ping that it wrote.
  unfoldable pub ping_tick : Connection P C T B → Bool × Connection P C T B
  ping_tick c =
      let id = (c.pings + 1) % 2 ^ 64 in
      if ltb (length c.ping) ping_size
      then (true, record c { pings = id; ping = c.ping ++ id ∷ [] })
      else (false, record c { pings = id })

-- binary.LittleEndian.PutUint64, and Uint64, which panics on fewer than 8 bytes
unfoldable pub put_uint64 : ℕ → ℕ → List ℕ
put_uint64 zero v = []
put_uint64 (suc n) v = (v % 256) ∷ put_uint64 n (v / 256)

unfoldable pub little_endian : ℕ → List ℕ → Option ℕ
little_endian zero bs = some 0
little_endian (suc n) [] = none
little_endian (suc n) (b ∷ bs) = elim (little_endian n bs) [
  | none ↦ none
  | some v ↦ some (b + 256 * v)
]

-- The last of the pings that the drained channel held.
abbrev pub last_ping : List ℕ → Option ℕ
last_ping [] = none
last_ping (x ∷ []) = some x
last_ping (x ∷ y ∷ xs) = last_ping (y ∷ xs)

abbrev pub is_empty : List ℕ → Bool
is_empty [] = true
is_empty (x ∷ xs) = false

module _ {P C T B : Type 0} where
  -- What the pong handler does once it has a ping to compare with.
  abbrev pub answer :
      ℕ → ℕ → Option ℕ → Connection P C T B → Outcome (Unit {0}) × Connection P C T B
  answer now last none c = (panic, c)
  answer now last (some got) c =
      if got == last then (ok tt, record c { read_deadline = now + 60 }) else (ok tt, c)

  -- The pong handler that readPump sets. Seconds; the payload is what the peer sent.
  unfoldable pub pong : ℕ → List ℕ → Connection P C T B → Outcome (Unit {0}) × Connection P C T B
  pong now payload c = if is_empty payload then (ok tt, c) else elim (last_ping c.ping) [
    | none ↦ (ok tt, record c { ping = [] })
    | some last ↦ answer now last (little_endian 8 payload) (record c { ping = [] })
  ]
