-- ===== src/Heredoc.antt =====
-- heredoc.c: here documents.
pub mod Snarf
pub mod Quoted
mod Tests
