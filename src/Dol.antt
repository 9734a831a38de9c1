-- ===== src/Dol.antt =====
-- src/frontend/container/dol.c: the executable format of GameCube and Wii.
pub mod File
pub mod Layout
pub mod Valid
pub mod Loaded
mod Tests
