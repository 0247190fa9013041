-- ===== src/Handover.antt =====
-- Handover of subjects between cameras (src/ibvap/core/handover.py).
mod Defs
mod Updates
mod Entries
mod Soundness
mod Preservation
mod Sorting
mod Pruning
mod Following
mod Tests
