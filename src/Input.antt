-- ===== src/Input.antt =====
-- Where the shell reads its input from (input.c): the buffer, the refills and the pushback.
pub mod State
pub mod Refine
mod Get
mod Unget
mod Tests
