-- ===== src/Split.antt =====
-- split.c: strings are split at separators, in one piece or as they come in.
pub mod State
pub mod Fields
pub mod Laws
mod Tests
