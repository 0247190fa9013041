-- ===== src/FrameQueue.antt =====
-- `BoundedQueue` (src/ibvap/core/queue.py): the latest-frame queue that drops old frames.
-- The deque is a list, the oldest entry first; `time.monotonic() * 1000` is an argument in
-- milliseconds.
mod Defs
pub mod Freshness
pub mod Accounting
mod Tests
pub use Defs.{Queue, Metrics, Result}
unfoldable pub use Defs.{init, put, get_latest, get, depth, metrics}
