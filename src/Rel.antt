-- ===== src/Rel.antt =====
-- src/frontend/container/rel.c: the relocatable modules of GameCube and Wii.
pub mod File
pub mod Patch
pub mod Relocate
pub mod Load
pub mod Placed
pub mod Image
pub mod Local
pub mod Word
pub mod Branch
pub mod Halves
pub mod Frame
pub mod Preserve
pub mod Places
pub mod Inside
mod Tests
