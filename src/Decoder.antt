-- ===== src/Decoder.antt =====
-- src/frontend/decoder.c
pub mod Opcode
pub mod Inst
pub mod Forms
pub mod Paired
pub mod Branch
pub mod Extended
pub mod Float
pub mod Decode
pub mod Fits
pub mod FormFits
pub mod GroupFits
pub mod Legal
pub mod StringLegal
pub mod GroupLegal
pub mod Assemble
pub mod RoundTrip
pub mod Laws
mod Tests
