-- ===== src/Tracker.antt =====
-- The camera-scoped tracker (src/ibvap/core/tracker.py): tracks with their watchlist identities, and
-- `CentroidTracker.update`, stage by stage.
-- Coordinates, confidences, scores and times are floats of the platform (Common/Float). A track is
-- known by its key in the dictionary, so the list of tracks and the dictionary share their objects.
pub mod Tracks
mod Latch
pub mod Lock
pub mod Precedence
mod Detections
pub mod Matching
mod Stages
mod Update
pub mod Greedy
mod Claimed
pub mod Maximal
mod Passing
pub mod Exclusive
mod Numbered
pub mod Ids
pub mod Boxes
pub mod Purge
mod LatchTests
mod Tests
pub use Tracks.{Box, Identity, Match, Track}
unfoldable pub use Tracks.{center, footpoint, prev_footpoint, iou}
unfoldable pub use Latch.{record_biometric_match}
