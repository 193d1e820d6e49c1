-- ===== src/Syntax.antt =====
-- es.h, term.c, tree.c and syntax.c: terms, parse trees and what the parser builds of them.
pub mod Tree
pub mod Rewrite
pub mod Redirections
pub mod Sequence
mod Tests
