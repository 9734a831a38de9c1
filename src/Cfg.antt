-- ===== src/Cfg.antt =====
-- src/backend/c_cfg.c: the control-flow graph of a function, from which the C backend cuts blocks.
pub mod Classes
pub mod Movable
pub mod Graph
pub mod Build
pub mod Leaders
pub mod Whole
pub mod Cycles
pub mod Budget
pub mod Loops
pub mod LoopEnds
pub mod Raises
pub mod Counter
mod Tests
