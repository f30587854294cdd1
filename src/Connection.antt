-- ===== src/Connection.antt =====
-- signaling/connection/connection.go: the send queue, the close callbacks, the bound value, the
-- transactions and the ping bookkeeping of one websocket connection. The writer goroutine
-- is Pump; of the reader goroutine this has the function that it runs for a pong. The queue holds the messages that
-- `Send` encodes; encoding cannot fail for them. Parameters: the payloads `P`, the close
-- callbacks `C`, the transaction callbacks `T` and the binder `B`.
mod Defs
pub mod Laws
pub mod Ping
pub mod Pump
pub mod Writing
mod Schedules
mod Tests
pub use Defs.{Connection, Callbacks, queue_size, ping_size}
unfoldable pub use Defs.{
  new, close, on_closed, raw_send, send_transaction, transaction, bind, ping_tick, pong,
  little_endian, put_uint64, duration_at, next_payload,
}
