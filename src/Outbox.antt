-- ===== src/Outbox.antt =====
-- The transactional outbox (src/ibvap/events/outbox.py).
-- Event dictionaries and `OutboxEntry` objects are shared between the deques, the indexes and the
-- callers, so both stand on a heap and are known by their addresses: `is` compares addresses. The lock
-- makes each operation one step. `uuid4` and `time.time` are arguments; the webhook task that a write
-- starts once the lock is released is not modelled.
mod Defs
pub mod Eviction
pub mod Consistency
pub mod Idempotence
pub mod Delivery
mod Tests
pub use Defs.{Event, Entry, Store, Limits, Draw}
unfoldable pub use Defs.{
  write, transactional_write, list_events, list_outbox, mark_delivered, clear_events, clear_all,
}
