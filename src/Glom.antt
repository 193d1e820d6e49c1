-- ===== src/Glom.antt =====
-- glom.c: from parse trees to lists of terms.
pub mod Int
pub mod Mul
pub mod Concat
pub mod Number
pub mod Eval
pub mod Words
pub mod Operations
pub mod Subscript
mod Sample
mod Tests
