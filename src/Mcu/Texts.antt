-- ===== src/Mcu/Texts.antt =====
-- OnText of signaling/mcu/events.go: where a text message of the media server goes. The message is
-- decoded as far as its transaction, and the binder of a connection is its attached record.
mod Tests
use kwmserver.Base.{
  ℕ, String, Bool, true, false, Option, none, some, [], ◌∷◌, if◌then◌else◌, ◌≡◌, refl, nil, lookup,
  remove,
}
use kwmserver.Connection
use kwmserver.Connection.{Connection}
use kwmserver.Mcu.Manager.{AttachedRecord}

-- A decoding error, the callback of a transaction, the onText function of the record, or nothing.
pub data Route (T : Type 0) : Type 0 where
  not_decoded to_record nowhere : Route T
  to_callback : T → Route T

abbrev pub bound_route : {T : Type 0} → Option AttachedRecord → Route T
bound_route none = nowhere
bound_route (some r) = if r.on_text then to_record else nowhere

abbrev pub route : {T : Type 0} → Option T → Option AttachedRecord → Route T
route none bound = bound_route bound
route (some cb) bound = to_callback cb

module _ {P C T : Type 0} where
  -- OnText
  unfoldable pub on_text :
      Option String
      → Connection P C T (Option AttachedRecord)
      → Route T × Connection P C T (Option AttachedRecord)
  on_text none c = (not_decoded, c)
  on_text (some tid) c = let r = Connection.transaction tid none c in (route r.0 c.binder, r.1)
