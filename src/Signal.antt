-- ===== src/Signal.antt =====
-- Signals (signal.c): what was caught and not yet delivered, the effects, and the names.
pub mod State
pub mod Names
mod Deliver
mod Reach
mod Tests
