-- ===== src/Pipeline.antt =====
-- The presence of tracks in the zone of a camera (src/ibvap/core/pipeline.py).
mod Defs
mod Frames
mod Counts
mod Continuity
mod Tests
