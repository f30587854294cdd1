-- ===== src/Mcu/Manager.antt =====
-- signaling/mcu/manager.go, events.go and handlers.go: the connections of the media server
-- and the attach transactions of the pipelines. An attached record is known by its
-- transaction, under which it stands in the table. What Connection.Send and the upgrade give is an
-- argument.
pub mod Rounds
mod Tests
use kwmserver.Base.{
  ℕ, zero, suc, ◌+◌, String, Bool, true, false, not, ◌&&◌, ◌||◌, Option, none, some, List, [], ◌∷◌,
  ◌++◌, Dict, lookup, insert, remove, keep, ltb, ◌==◌, nat_eq, string_eq, if◌then◌else◌, Ptr, nil,
  Outcome, ok, fail, plain,
}
use kwmserver.Api.{McuMessage}

-- attachedRecord; `on_connect` and `on_text` say that the functions are set.
pub record AttachedRecord : Type 0 where
  pub since : ℕ
  pub connection : Ptr
  pub on_connect : Bool
  pub on_text : Bool

-- Manager. `current` is the element of the list that was chosen last, by its connection; a removed
-- element has no successor.
pub record Manager : Type 0 where
  pub count : ℕ
  pub handles : ℕ
  pub connections : List Ptr
  pub current : Option Ptr
  pub attached : Dict AttachedRecord

abbrev pub front : List Ptr → Option Ptr
front [] = none
front (x ∷ xs) = some x

-- Element.Next
abbrev pub successor : Ptr → List Ptr → Option Ptr
successor c [] = none
successor c (x ∷ xs) = let rest = successor c xs in if x == c then front xs else rest

abbrev pub or_else : Option Ptr → Option Ptr → Option Ptr
or_else none q = q
or_else (some p) q = some p

abbrev pub choose : Option Ptr → List Ptr → Option Ptr
choose none xs = front xs
choose (some c) xs = or_else (successor c xs) (front xs)

-- GetConnection
unfoldable pub get_connection : Manager → Option Ptr × Manager
get_connection m = let p = choose m.current m.connections in (p, record m { current = p })

-- NewHandle
unfoldable pub new_handle : Manager → ℕ × Manager
new_handle m = (m.handles + 1, record m { handles = m.handles + 1 })

abbrev pub attach_message : String → String → ℕ → McuMessage
attach_message transaction plugin handle = record {
  type = "attach";
  transaction = transaction;
  plugin = plugin;
  handle = handle;
}

-- Attach: the connection and the message that is sent on it.
abbrev pub attach_to :
    ℕ → String → String → ℕ → Option Ptr → Manager → Outcome (Ptr × McuMessage) × Manager
attach_to now transaction plugin handle none m =
    (fail (plain "no mcu connection available for attaching"), m)
attach_to now transaction plugin handle (some c) m = (
  ok (c, attach_message transaction plugin handle),
  record m {
    attached =
        insert transaction
          (record { since = now; connection = nil; on_connect = true; on_text = true }) m.attached;
  },
)

unfoldable pub attach : ℕ → String → String → ℕ → Manager → Outcome (Ptr × McuMessage) × Manager
unfolding get_connection
attach now transaction plugin handle m =
    attach_to now transaction plugin handle (get_connection m).0 (get_connection m).1

-- Detach
abbrev pub detach_from : String → ℕ → Option Ptr → Outcome (Ptr × McuMessage)
detach_from plugin handle none = fail (plain "no mcu connection available for detaching")
detach_from plugin handle (some c) =
    ok (c, record { type = "detach"; transaction = ""; plugin = plugin; handle = handle })

unfoldable pub detach : String → ℕ → Manager → Outcome (Ptr × McuMessage) × Manager
unfolding get_connection
detach plugin handle m = (detach_from plugin handle (get_connection m).0, (get_connection m).1)

-- connectExpiration of mcu.go
abbrev pub connect_expiration : ℕ
connect_expiration = 30

abbrev pub is_stale : ℕ → AttachedRecord → Bool
is_stale now r = r.connection == nil && ltb (r.since + connect_expiration) now

-- purgeExpiredAttached
unfoldable pub purge_expired_attached : ℕ → Dict AttachedRecord → Dict AttachedRecord
purge_expired_attached now [] = []
purge_expired_attached now ((k, r) ∷ m) =
    let rest = purge_expired_attached now m in if is_stale now r then rest else (k, r) ∷ rest

-- What HandleWebsocketConnect answers; `refused` is a failed upgrade or a wrong subprotocol.
pub data Accepted : Type 0 where
  not_found refused : Accepted
  control : Ptr → Accepted
  attached_to : Ptr → String → Accepted

abbrev pub attach_record : Ptr → AttachedRecord → AttachedRecord
attach_record conn r = record r { connection = conn; on_connect = false }

abbrev pub accept_record :
    Ptr → Bool → String → Option AttachedRecord → Manager → Accepted × Manager
accept_record conn upgraded transaction none m = (not_found, m)
accept_record conn upgraded transaction (some r) m =
    if not (r.connection == nil) || not r.on_connect
    then (not_found, m)
    else if not upgraded
    then (refused, m)
    else (
      attached_to conn transaction,
      record m {
        count = m.count + 1;
        attached = insert transaction (attach_record conn r) m.attached;
      },
    )

-- HandleWebsocketConnect for a new connection `conn`; without a transaction it joins the list when
-- it is served.
unfoldable pub handle_websocket_connect : Ptr → Bool → String → Manager → Accepted × Manager
handle_websocket_connect conn upgraded transaction m =
    if transaction == ""
    then if not upgraded then (refused, m) else (
      control conn,
      record m { count = m.count + 1; connections = m.connections ++ conn ∷ [] },
    )
    else accept_record conn upgraded transaction (lookup transaction m.attached) m

-- The end of serveWebsocketConnection
unfoldable pub remove_connection : Ptr → Manager → Manager
remove_connection conn m = record m { connections = keep (λ p. not (p == conn)) m.connections }
