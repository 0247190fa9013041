-- ===== src/Watchlist.antt =====
-- The watchlist (src/ibvap/core/watchlist.py).
mod Defs
mod Persistence
mod Reload
mod Matching
mod Verdicts
mod Best
mod Tests
