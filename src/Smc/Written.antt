-- ===== src/Smc/Written.antt =====
-- The bytes that a store writes, from the PowerPC architecture: a description by opcode that does
-- not look at the tables of src/analysis/smc.c.
use dol_recomp.Base.{ℕ, ◌+◌, ◌*◌, ◌-◌, ◌%◌, ◌≤◌, ◌<◌, ◌==◌, ◌≡◌, if◌then◌else◌, u32}
use dol_recomp.Decoder.Opcode.{PpcOpcode}
use dol_recomp.Decoder.Inst.{PpcInst}
use dol_recomp.Smc.Machine.{Machine, base_value, dform_address, indexed_address}

-- The bytes from `ea` on, `size` of them.
abbrev pub From : ℕ → ℕ → ℕ → Type 0
From ea size b = (ea ≤ b) × (b < ea + size)

-- The bytes that an instruction stores to. A conditional store does so if it keeps its reservation;
-- clearing a cache block clears the aligned block around the address. What a quantized store and
-- `stswx` write depends on registers that are not described here.
abbrev pub Stores : PpcOpcode → PpcInst → Machine → ℕ → Type 0
Stores PpcOpcode.stb inst gpr = From (dform_address inst gpr) 1
Stores PpcOpcode.stbu inst gpr = From (dform_address inst gpr) 1
Stores PpcOpcode.stbx inst gpr = From (indexed_address inst gpr) 1
Stores PpcOpcode.stbux inst gpr = From (indexed_address inst gpr) 1
Stores PpcOpcode.sth inst gpr = From (dform_address inst gpr) 2
Stores PpcOpcode.sthu inst gpr = From (dform_address inst gpr) 2
Stores PpcOpcode.sthx inst gpr = From (indexed_address inst gpr) 2
Stores PpcOpcode.sthux inst gpr = From (indexed_address inst gpr) 2
Stores PpcOpcode.sthbrx inst gpr = From (indexed_address inst gpr) 2
Stores PpcOpcode.stw inst gpr = From (dform_address inst gpr) 4
Stores PpcOpcode.stwu inst gpr = From (dform_address inst gpr) 4
Stores PpcOpcode.stwx inst gpr = From (indexed_address inst gpr) 4
Stores PpcOpcode.stwux inst gpr = From (indexed_address inst gpr) 4
Stores PpcOpcode.stwbrx inst gpr = From (indexed_address inst gpr) 4
Stores PpcOpcode.stwcx inst gpr = From (indexed_address inst gpr) 4
Stores PpcOpcode.stfiwx inst gpr = From (indexed_address inst gpr) 4
Stores PpcOpcode.stfs inst gpr = From (dform_address inst gpr) 4
Stores PpcOpcode.stfsu inst gpr = From (dform_address inst gpr) 4
Stores PpcOpcode.stfsx inst gpr = From (indexed_address inst gpr) 4
Stores PpcOpcode.stfsux inst gpr = From (indexed_address inst gpr) 4
Stores PpcOpcode.stfd inst gpr = From (dform_address inst gpr) 8
Stores PpcOpcode.stfdu inst gpr = From (dform_address inst gpr) 8
Stores PpcOpcode.stfdx inst gpr = From (indexed_address inst gpr) 8
Stores PpcOpcode.stfdux inst gpr = From (indexed_address inst gpr) 8
Stores PpcOpcode.stmw inst gpr = From (dform_address inst gpr) (4 * (32 - inst.r_s))
Stores PpcOpcode.stswi inst gpr =
    From (u32 (base_value inst gpr)) (if inst.nb == 0 then 32 else inst.nb)
Stores PpcOpcode.dcbz inst gpr = From (indexed_address inst gpr - indexed_address inst gpr % 32) 32
Stores PpcOpcode.dcbz_l inst gpr =
    From (indexed_address inst gpr - indexed_address inst gpr % 32) 32
Stores _ inst gpr = λ b. ⊥

-- The instructions for which the analysis counts the bytes as the machine does: not the quantized
-- stores and `stswx`; the clearing of a block where the address is that of the block; the decoder
-- gives a register number and no displacement to the two others that are named.
abbrev pub IsExact : PpcOpcode → PpcInst → Machine → Type 0
IsExact PpcOpcode.psq_st inst gpr = ⊥
IsExact PpcOpcode.psq_stu inst gpr = ⊥
IsExact PpcOpcode.psq_stx inst gpr = ⊥
IsExact PpcOpcode.psq_stux inst gpr = ⊥
IsExact PpcOpcode.stswx inst gpr = ⊥
IsExact PpcOpcode.dcbz inst gpr = indexed_address inst gpr % 32 ≡ 0
IsExact PpcOpcode.dcbz_l inst gpr = indexed_address inst gpr % 32 ≡ 0
IsExact PpcOpcode.stmw inst gpr = inst.r_s < 32
IsExact PpcOpcode.stswi inst gpr = inst.simm ≡ 0
IsExact _ inst gpr = Unit
