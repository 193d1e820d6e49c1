-- ===== src/Eval.antt =====
-- eval.c, with the handlers of except.c and the bindings of closure.c that it uses.
pub mod Base
pub mod Bind
pub mod Walk
pub mod Dispatch
pub mod Steady
pub mod Loops
pub mod Walks
pub mod Depth
pub mod Deal
pub mod Rounds
mod Tests
