-- ===== src/CameraState.antt =====
-- The camera runtime state machine (src/ibvap/core/camera_state.py): the table of allowed
-- transitions, `CameraStateMachine` and its methods.
-- Times are in milliseconds: `time.monotonic` and `datetime.now` are arguments. A method returns the
-- new machine beside its result, or the exception that it raises.
mod Defs
pub mod Transition
pub mod Runs
pub mod Retry
mod Tests
pub use Defs.{
  CameraState, allowed, can_transition, RetryStatus, StateTransition, Machine, Request, Error,
  Result, Jitter,
}
unfoldable pub use Defs.{transition, disable, is_disabled, should_auto_restart, compute_retry_delay}
