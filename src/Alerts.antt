-- ===== src/Alerts.antt =====
-- The alert workflow (src/ibvap/core/alerts.py): `Alert`, its methods, and the registry of alerts.
-- `time.time` and `uuid.uuid4` are arguments; a method that raises ValueError changes nothing.
mod Defs
pub mod Workflow
pub mod Registry
mod Tests
pub use Defs.{AlertState, Severity, Entry, Alert, Op, Result}
unfoldable pub use Defs.{apply, create_alert, get_alert, update_alert}
