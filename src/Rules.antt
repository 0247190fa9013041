-- ===== src/Rules.antt =====
-- The rule engine (src/ibvap/core/rules.py): tripwires, loitering and the cooldown of their events.
mod Defs
mod Stays
pub mod Tripwires
pub mod Loitering
mod Tests
mod WireTests
