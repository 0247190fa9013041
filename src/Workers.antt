-- ===== src/Workers.antt =====
-- The threads of the cameras (src/ibvap/services/stream_worker.py).
mod Defs
mod Single
mod Tests
