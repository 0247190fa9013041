-- ===== src/Dispatcher.antt =====
-- Settings and the webhook (src/ibvap/core/dispatcher.py).
mod Defs
mod Dispatch
mod Egress
mod Tests
