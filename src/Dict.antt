-- ===== src/Dict.antt =====
-- dict.c: hash tables with open addressing. `Table` has the operations, `Hash` the hash function.
pub mod Hash
pub mod Table
pub mod Probe
pub mod Inv
pub mod Store
pub mod Insert
pub mod Remove
pub mod Grow
pub mod Refine
mod Tests
pub mod Room
