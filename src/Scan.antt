-- ===== src/Scan.antt =====
-- token.c: the scanner.
pub mod State
pub mod Redirect
pub mod Words
pub mod Lex
pub mod Printed
pub mod Lengths
pub mod Progress
mod Tests
