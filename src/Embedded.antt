-- ===== src/Embedded.antt =====
-- src/analysis/embedded_data.c: which words of a code section are taken for data.
pub mod Words
pub mod Sound
mod Tests
