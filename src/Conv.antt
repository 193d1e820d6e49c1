-- ===== src/Conv.antt =====
-- conv.c: the conversions between the shell's data and its text.
pub mod Names
pub mod Quote
mod Tests
