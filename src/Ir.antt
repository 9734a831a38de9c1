-- ===== src/Ir.antt =====
-- src/ir: the intermediate representation and the analysis of its addresses.
pub mod Types
pub mod Values
pub mod Sound
pub mod Refine
pub mod Binary
pub mod Classify
pub mod Addresses
pub mod Windows
pub mod Forget
mod Tests
