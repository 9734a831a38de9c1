-- ===== src/Smc/Machine.antt =====
-- The general registers of the processor, from the PowerPC architecture: what each instruction
-- may write, and what it leaves in the registers that the analysis of src/analysis/smc.c follows.
use dol_recomp.Base.{
  ℕ, ◌+◌, ◌*◌, ◌^◌, ◌≤◌, ◌<◌, ◌==◌, ◌≡◌, ◌⊎◌, if◌then◌else◌, Bool, true, false, bit_or, bit_xor,
  u32,
}
use dol_recomp.Decoder.Opcode.{PpcOpcode}
use dol_recomp.Decoder.Inst.{PpcInst}
use dol_recomp.Smc.Known.{extend_simm}
use dol_recomp.Smc.Update.{high_simm}

abbrev pub Machine : Type 0
Machine = ℕ → ℕ

-- A base of 0 stands for the number 0.
abbrev pub base_value : PpcInst → Machine → ℕ
base_value inst gpr = if inst.r_a == 0 then 0 else gpr inst.r_a

abbrev pub dform_address : PpcInst → Machine → ℕ
dform_address inst gpr = u32 (base_value inst gpr + extend_simm inst.simm)

abbrev pub indexed_address : PpcInst → Machine → ℕ
indexed_address inst gpr = u32 (base_value inst gpr + gpr inst.r_b)

-- The registers that an instruction may write.
abbrev pub Writes : PpcOpcode → PpcInst → ℕ → Type 0
Writes PpcOpcode.mulli inst r = r ≡ inst.r_d
Writes PpcOpcode.subfic inst r = r ≡ inst.r_d
Writes PpcOpcode.add inst r = r ≡ inst.r_d
Writes PpcOpcode.addo inst r = r ≡ inst.r_d
Writes PpcOpcode.addc inst r = r ≡ inst.r_d
Writes PpcOpcode.addco inst r = r ≡ inst.r_d
Writes PpcOpcode.adde inst r = r ≡ inst.r_d
Writes PpcOpcode.addeo inst r = r ≡ inst.r_d
Writes PpcOpcode.addme inst r = r ≡ inst.r_d
Writes PpcOpcode.addmeo inst r = r ≡ inst.r_d
Writes PpcOpcode.addze inst r = r ≡ inst.r_d
Writes PpcOpcode.addzeo inst r = r ≡ inst.r_d
Writes PpcOpcode.subf inst r = r ≡ inst.r_d
Writes PpcOpcode.subfo inst r = r ≡ inst.r_d
Writes PpcOpcode.subfc inst r = r ≡ inst.r_d
Writes PpcOpcode.subfco inst r = r ≡ inst.r_d
Writes PpcOpcode.subfe inst r = r ≡ inst.r_d
Writes PpcOpcode.subfeo inst r = r ≡ inst.r_d
Writes PpcOpcode.subfme inst r = r ≡ inst.r_d
Writes PpcOpcode.subfmeo inst r = r ≡ inst.r_d
Writes PpcOpcode.subfze inst r = r ≡ inst.r_d
Writes PpcOpcode.subfzeo inst r = r ≡ inst.r_d
Writes PpcOpcode.neg inst r = r ≡ inst.r_d
Writes PpcOpcode.nego inst r = r ≡ inst.r_d
Writes PpcOpcode.mullw inst r = r ≡ inst.r_d
Writes PpcOpcode.mullwo inst r = r ≡ inst.r_d
Writes PpcOpcode.mulhw inst r = r ≡ inst.r_d
Writes PpcOpcode.mulhwu inst r = r ≡ inst.r_d
Writes PpcOpcode.divw inst r = r ≡ inst.r_d
Writes PpcOpcode.divwo inst r = r ≡ inst.r_d
Writes PpcOpcode.divwu inst r = r ≡ inst.r_d
Writes PpcOpcode.divwuo inst r = r ≡ inst.r_d
Writes PpcOpcode.addi inst r = r ≡ inst.r_d
Writes PpcOpcode.addis inst r = r ≡ inst.r_d
Writes PpcOpcode.addic inst r = r ≡ inst.r_d
Writes PpcOpcode.addic_dot inst r = r ≡ inst.r_d
Writes PpcOpcode.lwz inst r = r ≡ inst.r_d
Writes PpcOpcode.lbz inst r = r ≡ inst.r_d
Writes PpcOpcode.lhz inst r = r ≡ inst.r_d
Writes PpcOpcode.lha inst r = r ≡ inst.r_d
Writes PpcOpcode.lwzx inst r = r ≡ inst.r_d
Writes PpcOpcode.lbzx inst r = r ≡ inst.r_d
Writes PpcOpcode.lhzx inst r = r ≡ inst.r_d
Writes PpcOpcode.lhax inst r = r ≡ inst.r_d
Writes PpcOpcode.lwbrx inst r = r ≡ inst.r_d
Writes PpcOpcode.lhbrx inst r = r ≡ inst.r_d
Writes PpcOpcode.lwarx inst r = r ≡ inst.r_d
Writes PpcOpcode.eciwx inst r = r ≡ inst.r_d
Writes PpcOpcode.mfcr inst r = r ≡ inst.r_d
Writes PpcOpcode.mfspr inst r = r ≡ inst.r_d
Writes PpcOpcode.mftb inst r = r ≡ inst.r_d
Writes PpcOpcode.mfmsr inst r = r ≡ inst.r_d
Writes PpcOpcode.mfsr inst r = r ≡ inst.r_d
Writes PpcOpcode.mfsrin inst r = r ≡ inst.r_d
Writes PpcOpcode.and inst r = r ≡ inst.r_a
Writes PpcOpcode.andc inst r = r ≡ inst.r_a
Writes PpcOpcode.or inst r = r ≡ inst.r_a
Writes PpcOpcode.orc inst r = r ≡ inst.r_a
Writes PpcOpcode.xor inst r = r ≡ inst.r_a
Writes PpcOpcode.nand inst r = r ≡ inst.r_a
Writes PpcOpcode.nor inst r = r ≡ inst.r_a
Writes PpcOpcode.eqv inst r = r ≡ inst.r_a
Writes PpcOpcode.cntlzw inst r = r ≡ inst.r_a
Writes PpcOpcode.extsb inst r = r ≡ inst.r_a
Writes PpcOpcode.extsh inst r = r ≡ inst.r_a
Writes PpcOpcode.slw inst r = r ≡ inst.r_a
Writes PpcOpcode.srw inst r = r ≡ inst.r_a
Writes PpcOpcode.sraw inst r = r ≡ inst.r_a
Writes PpcOpcode.srawi inst r = r ≡ inst.r_a
Writes PpcOpcode.rlwinm inst r = r ≡ inst.r_a
Writes PpcOpcode.rlwnm inst r = r ≡ inst.r_a
Writes PpcOpcode.rlwimi inst r = r ≡ inst.r_a
Writes PpcOpcode.ori inst r = r ≡ inst.r_a
Writes PpcOpcode.oris inst r = r ≡ inst.r_a
Writes PpcOpcode.xori inst r = r ≡ inst.r_a
Writes PpcOpcode.xoris inst r = r ≡ inst.r_a
Writes PpcOpcode.andi inst r = r ≡ inst.r_a
Writes PpcOpcode.andis inst r = r ≡ inst.r_a
Writes PpcOpcode.stwu inst r = r ≡ inst.r_a
Writes PpcOpcode.stbu inst r = r ≡ inst.r_a
Writes PpcOpcode.sthu inst r = r ≡ inst.r_a
Writes PpcOpcode.stfsu inst r = r ≡ inst.r_a
Writes PpcOpcode.stfdu inst r = r ≡ inst.r_a
Writes PpcOpcode.lfsu inst r = r ≡ inst.r_a
Writes PpcOpcode.lfdu inst r = r ≡ inst.r_a
Writes PpcOpcode.psq_lu inst r = r ≡ inst.r_a
Writes PpcOpcode.psq_stu inst r = r ≡ inst.r_a
Writes PpcOpcode.stwux inst r = r ≡ inst.r_a
Writes PpcOpcode.stbux inst r = r ≡ inst.r_a
Writes PpcOpcode.sthux inst r = r ≡ inst.r_a
Writes PpcOpcode.stfsux inst r = r ≡ inst.r_a
Writes PpcOpcode.stfdux inst r = r ≡ inst.r_a
Writes PpcOpcode.lfsux inst r = r ≡ inst.r_a
Writes PpcOpcode.lfdux inst r = r ≡ inst.r_a
Writes PpcOpcode.psq_lux inst r = r ≡ inst.r_a
Writes PpcOpcode.psq_stux inst r = r ≡ inst.r_a
Writes PpcOpcode.lwzu inst r = (r ≡ inst.r_a) ⊎ (r ≡ inst.r_d)
Writes PpcOpcode.lbzu inst r = (r ≡ inst.r_a) ⊎ (r ≡ inst.r_d)
Writes PpcOpcode.lhzu inst r = (r ≡ inst.r_a) ⊎ (r ≡ inst.r_d)
Writes PpcOpcode.lhau inst r = (r ≡ inst.r_a) ⊎ (r ≡ inst.r_d)
Writes PpcOpcode.lwzux inst r = (r ≡ inst.r_a) ⊎ (r ≡ inst.r_d)
Writes PpcOpcode.lbzux inst r = (r ≡ inst.r_a) ⊎ (r ≡ inst.r_d)
Writes PpcOpcode.lhzux inst r = (r ≡ inst.r_a) ⊎ (r ≡ inst.r_d)
Writes PpcOpcode.lhaux inst r = (r ≡ inst.r_a) ⊎ (r ≡ inst.r_d)
Writes PpcOpcode.lmw inst r = (inst.r_d ≤ r) × (r < 32)
Writes PpcOpcode.lswi inst r = Unit
Writes PpcOpcode.lswx inst r = Unit
Writes _ inst r = ⊥

-- The value that is left in a register, for the instructions whose value is followed.
abbrev pub Leaves : PpcOpcode → PpcInst → Machine → Machine → Type 0
Leaves PpcOpcode.addi inst gpr after =
    after inst.r_d ≡ u32 (base_value inst gpr + extend_simm inst.simm)
Leaves PpcOpcode.addis inst gpr after =
    after inst.r_d ≡ u32 (base_value inst gpr + high_simm inst.simm)
Leaves PpcOpcode.ori inst gpr after = after inst.r_a ≡ bit_or (gpr inst.r_s) inst.uimm
Leaves PpcOpcode.oris inst gpr after = after inst.r_a ≡ bit_or (gpr inst.r_s) (inst.uimm * 2 ^ 16)
Leaves PpcOpcode.xori inst gpr after = after inst.r_a ≡ bit_xor (gpr inst.r_s) inst.uimm
Leaves PpcOpcode.xoris inst gpr after = after inst.r_a ≡ bit_xor (gpr inst.r_s) (inst.uimm * 2 ^ 16)
Leaves PpcOpcode.lwzu inst gpr after = after inst.r_a ≡ dform_address inst gpr
Leaves PpcOpcode.lbzu inst gpr after = after inst.r_a ≡ dform_address inst gpr
Leaves PpcOpcode.lhzu inst gpr after = after inst.r_a ≡ dform_address inst gpr
Leaves PpcOpcode.lhau inst gpr after = after inst.r_a ≡ dform_address inst gpr
Leaves PpcOpcode.stwu inst gpr after = after inst.r_a ≡ dform_address inst gpr
Leaves PpcOpcode.stbu inst gpr after = after inst.r_a ≡ dform_address inst gpr
Leaves PpcOpcode.sthu inst gpr after = after inst.r_a ≡ dform_address inst gpr
Leaves PpcOpcode.stfsu inst gpr after = after inst.r_a ≡ dform_address inst gpr
Leaves PpcOpcode.stfdu inst gpr after = after inst.r_a ≡ dform_address inst gpr
Leaves PpcOpcode.lfsu inst gpr after = after inst.r_a ≡ dform_address inst gpr
Leaves PpcOpcode.lfdu inst gpr after = after inst.r_a ≡ dform_address inst gpr
Leaves PpcOpcode.psq_lu inst gpr after = after inst.r_a ≡ dform_address inst gpr
Leaves PpcOpcode.psq_stu inst gpr after = after inst.r_a ≡ dform_address inst gpr
Leaves PpcOpcode.lwzux inst gpr after = after inst.r_a ≡ indexed_address inst gpr
Leaves PpcOpcode.lbzux inst gpr after = after inst.r_a ≡ indexed_address inst gpr
Leaves PpcOpcode.lhzux inst gpr after = after inst.r_a ≡ indexed_address inst gpr
Leaves PpcOpcode.lhaux inst gpr after = after inst.r_a ≡ indexed_address inst gpr
Leaves PpcOpcode.stwux inst gpr after = after inst.r_a ≡ indexed_address inst gpr
Leaves PpcOpcode.stbux inst gpr after = after inst.r_a ≡ indexed_address inst gpr
Leaves PpcOpcode.sthux inst gpr after = after inst.r_a ≡ indexed_address inst gpr
Leaves PpcOpcode.stfsux inst gpr after = after inst.r_a ≡ indexed_address inst gpr
Leaves PpcOpcode.stfdux inst gpr after = after inst.r_a ≡ indexed_address inst gpr
Leaves PpcOpcode.lfsux inst gpr after = after inst.r_a ≡ indexed_address inst gpr
Leaves PpcOpcode.lfdux inst gpr after = after inst.r_a ≡ indexed_address inst gpr
Leaves PpcOpcode.psq_lux inst gpr after = after inst.r_a ≡ indexed_address inst gpr
Leaves PpcOpcode.psq_stux inst gpr after = after inst.r_a ≡ indexed_address inst gpr
Leaves _ inst gpr after = Unit

-- One step of the machine, as far as its general registers go.
pub record Executes (inst : PpcInst) (gpr after : Machine) : Type 0 where
  pub keeps : (r : ℕ) → ¬ Writes inst.op inst r → after r ≡ gpr r
  pub leaves : Leaves inst.op inst gpr after

-- The instructions that write a general register and that `update_known_regs` does not mention.
unfoldable pub is_overlooked : PpcOpcode → Bool
is_overlooked PpcOpcode.addic = true
is_overlooked PpcOpcode.addic_dot = true
is_overlooked PpcOpcode.andi = true
is_overlooked PpcOpcode.andis = true
is_overlooked PpcOpcode.lswi = true
is_overlooked PpcOpcode.lswx = true
is_overlooked PpcOpcode.lfsu = true
is_overlooked PpcOpcode.lfdu = true
is_overlooked PpcOpcode.lfsux = true
is_overlooked PpcOpcode.lfdux = true
is_overlooked PpcOpcode.stfsu = true
is_overlooked PpcOpcode.stfdu = true
is_overlooked PpcOpcode.psq_lu = true
is_overlooked PpcOpcode.psq_stu = true
is_overlooked PpcOpcode.psq_lux = true
is_overlooked PpcOpcode.eciwx = true
is_overlooked _ = false
