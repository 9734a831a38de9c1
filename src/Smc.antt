-- ===== src/Smc.antt =====
-- src/analysis/smc.c: the search for stores that may hit code, by constant propagation through
-- the registers of a code section.
pub mod Known
pub mod Stores
pub mod Update
pub mod Machine
pub mod Sound
pub mod Overlooked
pub mod Ranges
pub mod Cover
pub mod Reports
pub mod Written
pub mod Exact
pub mod Trace
mod Tests
