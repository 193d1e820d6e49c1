-- ===== src/Vars.antt =====
-- var.c: the shell's variables, over the dictionaries of dict.c; and the part of except.c that unwinds
-- them.
pub mod State
pub mod Access
pub mod Counters
pub mod Values
pub mod Lookup
mod Tests
