-- ===== src/Print.antt =====
-- Formatted printing (print.c): the buffer of a format, numbers, and the conversions.
pub mod State
pub mod Convert
pub mod Buffer
pub mod Digits
mod Number
mod Tests
