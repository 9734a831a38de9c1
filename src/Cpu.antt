-- ===== src/Cpu.antt =====
-- src/cpu/cpu.c and src/cpu/cpu.h: the state of the processor and the helpers of the generated code.
pub mod State
pub mod Memory
pub mod Exceptions
pub mod Registers
pub mod Operations
pub mod Bounds
pub mod Stored
pub mod ReadBack
pub mod Reserve
pub mod Return
pub mod Own
pub mod User
pub mod Overflow
mod Tests
