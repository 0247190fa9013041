-- ===== src/Anpr.antt =====
-- Number plates (src/ibvap/core/anpr.py): the votes of a vehicle's reads, their consensus and their
-- eviction, and the store of plate sightings. Times are milliseconds, given to each call.
mod Defs
pub mod Majority
pub mod Windows
pub mod Eviction
pub mod Sightings
pub mod Store
mod Tests
mod StoreTests
