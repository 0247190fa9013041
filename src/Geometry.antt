-- ===== src/Geometry.antt =====
-- Image geometry (src/ibvap/core/geometry.py) and the fence check (src/ibvap/core/zone_engine.py):
-- segments, polygons, their validation, and intrusion into a zone.
pub mod Segments
pub mod Polygons
mod Zones
pub mod Letterbox
pub mod Validation
pub mod Crossing
mod Tests
