-- ===== src/Ocr.antt =====
-- Plate recognition beside the capture loop (src/ibvap/core/ocr_worker.py, src/ibvap/services/stream_worker.py).
mod Defs
mod Drain
mod Owner
mod Tests
