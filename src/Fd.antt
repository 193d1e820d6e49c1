-- ===== src/Fd.antt =====
-- The descriptors that the shell holds for itself, and the redirections it puts off (fd.c).
pub mod State
pub mod Store
pub mod Defer
pub mod Own
pub mod Release
pub mod Moves
pub mod Step
pub mod Remap
mod Map
mod Tests
