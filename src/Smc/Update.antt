-- ===== src/Smc/Update.antt =====
-- src/analysis/smc.c: the effect of one instruction on what is known of the registers.
use dol_recomp.Base.{
  ℕ, zero, suc, ◌+◌, ◌*◌, ◌-◌, ◌^◌, ◌==◌, if◌then◌else◌, Option, none, some, bit_or, bit_xor, u32,
}
use dol_recomp.Decoder.Opcode.{PpcOpcode}
use dol_recomp.Decoder.Inst.{PpcInst}
use dol_recomp.Smc.Known.{
  Regs, ◌>>=◌, clear_reg, set_reg, extend_simm, known_dform_ea, known_indexed_ea,
}

-- The register is set where the value is known, and cleared where it is not.
abbrev pub set_or_clear : Regs → ℕ → Option ℕ → Regs
set_or_clear regs reg none = clear_reg regs reg
set_or_clear regs reg (some value) = set_reg regs reg value

-- `((u32)inst->simm) << 16`.
abbrev pub high_simm : ℕ → ℕ
high_simm simm = u32 (extend_simm simm * 2 ^ 16)

-- The loop of `lmw`: `left` registers from `reg` on.
unfoldable pub clear_from : ℕ → ℕ → Regs → Regs
clear_from zero reg regs = regs
clear_from (suc left) reg regs = clear_from left (reg + 1) (clear_reg regs reg)

-- The source clears or sets by hand on each branch of the first six; the rest is as written.
unfoldable pub update_by_op : PpcOpcode → PpcInst → Regs → Regs
unfolding clear_from
update_by_op PpcOpcode.addi inst regs =
    if inst.r_a == 0
    then set_reg regs inst.r_d (extend_simm inst.simm)
    else set_or_clear regs inst.r_d (regs inst.r_a >>= λ v. some (u32 (v + extend_simm inst.simm)))
update_by_op PpcOpcode.addis inst regs =
    if inst.r_a == 0
    then set_reg regs inst.r_d (high_simm inst.simm)
    else set_or_clear regs inst.r_d (regs inst.r_a >>= λ v. some (u32 (v + high_simm inst.simm)))
update_by_op PpcOpcode.ori inst regs =
    set_or_clear regs inst.r_a (regs inst.r_s >>= λ v. some (bit_or v inst.uimm))
update_by_op PpcOpcode.oris inst regs =
    set_or_clear regs inst.r_a (regs inst.r_s >>= λ v. some (bit_or v (inst.uimm * 2 ^ 16)))
update_by_op PpcOpcode.xori inst regs =
    set_or_clear regs inst.r_a (regs inst.r_s >>= λ v. some (bit_xor v inst.uimm))
update_by_op PpcOpcode.xoris inst regs =
    set_or_clear regs inst.r_a (regs inst.r_s >>= λ v. some (bit_xor v (inst.uimm * 2 ^ 16)))
update_by_op PpcOpcode.lwz inst regs = clear_reg regs inst.r_d
update_by_op PpcOpcode.lbz inst regs = clear_reg regs inst.r_d
update_by_op PpcOpcode.lhz inst regs = clear_reg regs inst.r_d
update_by_op PpcOpcode.lha inst regs = clear_reg regs inst.r_d
update_by_op PpcOpcode.lwzx inst regs = clear_reg regs inst.r_d
update_by_op PpcOpcode.lbzx inst regs = clear_reg regs inst.r_d
update_by_op PpcOpcode.lhzx inst regs = clear_reg regs inst.r_d
update_by_op PpcOpcode.lhax inst regs = clear_reg regs inst.r_d
update_by_op PpcOpcode.lwbrx inst regs = clear_reg regs inst.r_d
update_by_op PpcOpcode.lhbrx inst regs = clear_reg regs inst.r_d
update_by_op PpcOpcode.lwarx inst regs = clear_reg regs inst.r_d
update_by_op PpcOpcode.lwzu inst regs =
    clear_reg (set_or_clear regs inst.r_a (known_dform_ea regs inst)) inst.r_d
update_by_op PpcOpcode.lbzu inst regs =
    clear_reg (set_or_clear regs inst.r_a (known_dform_ea regs inst)) inst.r_d
update_by_op PpcOpcode.lhzu inst regs =
    clear_reg (set_or_clear regs inst.r_a (known_dform_ea regs inst)) inst.r_d
update_by_op PpcOpcode.lhau inst regs =
    clear_reg (set_or_clear regs inst.r_a (known_dform_ea regs inst)) inst.r_d
update_by_op PpcOpcode.lwzux inst regs =
    clear_reg (set_or_clear regs inst.r_a (known_indexed_ea regs inst)) inst.r_d
update_by_op PpcOpcode.lbzux inst regs =
    clear_reg (set_or_clear regs inst.r_a (known_indexed_ea regs inst)) inst.r_d
update_by_op PpcOpcode.lhzux inst regs =
    clear_reg (set_or_clear regs inst.r_a (known_indexed_ea regs inst)) inst.r_d
update_by_op PpcOpcode.lhaux inst regs =
    clear_reg (set_or_clear regs inst.r_a (known_indexed_ea regs inst)) inst.r_d
update_by_op PpcOpcode.stwu inst regs = set_or_clear regs inst.r_a (known_dform_ea regs inst)
update_by_op PpcOpcode.stbu inst regs = set_or_clear regs inst.r_a (known_dform_ea regs inst)
update_by_op PpcOpcode.sthu inst regs = set_or_clear regs inst.r_a (known_dform_ea regs inst)
update_by_op PpcOpcode.stwux inst regs = set_or_clear regs inst.r_a (known_indexed_ea regs inst)
update_by_op PpcOpcode.stbux inst regs = set_or_clear regs inst.r_a (known_indexed_ea regs inst)
update_by_op PpcOpcode.sthux inst regs = set_or_clear regs inst.r_a (known_indexed_ea regs inst)
update_by_op PpcOpcode.stfsux inst regs = set_or_clear regs inst.r_a (known_indexed_ea regs inst)
update_by_op PpcOpcode.stfdux inst regs = set_or_clear regs inst.r_a (known_indexed_ea regs inst)
update_by_op PpcOpcode.psq_stux inst regs = set_or_clear regs inst.r_a (known_indexed_ea regs inst)
update_by_op PpcOpcode.mfcr inst regs = clear_reg regs inst.r_d
update_by_op PpcOpcode.mfspr inst regs = clear_reg regs inst.r_d
update_by_op PpcOpcode.mftb inst regs = clear_reg regs inst.r_d
update_by_op PpcOpcode.mfmsr inst regs = clear_reg regs inst.r_d
update_by_op PpcOpcode.mfsr inst regs = clear_reg regs inst.r_d
update_by_op PpcOpcode.mfsrin inst regs = clear_reg regs inst.r_d
update_by_op PpcOpcode.mulli inst regs = clear_reg regs inst.r_d
update_by_op PpcOpcode.subfic inst regs = clear_reg regs inst.r_d
update_by_op PpcOpcode.add inst regs = clear_reg regs inst.r_d
update_by_op PpcOpcode.addo inst regs = clear_reg regs inst.r_d
update_by_op PpcOpcode.addc inst regs = clear_reg regs inst.r_d
update_by_op PpcOpcode.addco inst regs = clear_reg regs inst.r_d
update_by_op PpcOpcode.adde inst regs = clear_reg regs inst.r_d
update_by_op PpcOpcode.addeo inst regs = clear_reg regs inst.r_d
update_by_op PpcOpcode.addme inst regs = clear_reg regs inst.r_d
update_by_op PpcOpcode.addmeo inst regs = clear_reg regs inst.r_d
update_by_op PpcOpcode.addze inst regs = clear_reg regs inst.r_d
update_by_op PpcOpcode.addzeo inst regs = clear_reg regs inst.r_d
update_by_op PpcOpcode.subf inst regs = clear_reg regs inst.r_d
update_by_op PpcOpcode.subfo inst regs = clear_reg regs inst.r_d
update_by_op PpcOpcode.subfc inst regs = clear_reg regs inst.r_d
update_by_op PpcOpcode.subfco inst regs = clear_reg regs inst.r_d
update_by_op PpcOpcode.subfe inst regs = clear_reg regs inst.r_d
update_by_op PpcOpcode.subfeo inst regs = clear_reg regs inst.r_d
update_by_op PpcOpcode.subfme inst regs = clear_reg regs inst.r_d
update_by_op PpcOpcode.subfmeo inst regs = clear_reg regs inst.r_d
update_by_op PpcOpcode.subfze inst regs = clear_reg regs inst.r_d
update_by_op PpcOpcode.subfzeo inst regs = clear_reg regs inst.r_d
update_by_op PpcOpcode.neg inst regs = clear_reg regs inst.r_d
update_by_op PpcOpcode.nego inst regs = clear_reg regs inst.r_d
update_by_op PpcOpcode.mullw inst regs = clear_reg regs inst.r_d
update_by_op PpcOpcode.mullwo inst regs = clear_reg regs inst.r_d
update_by_op PpcOpcode.mulhw inst regs = clear_reg regs inst.r_d
update_by_op PpcOpcode.mulhwu inst regs = clear_reg regs inst.r_d
update_by_op PpcOpcode.divw inst regs = clear_reg regs inst.r_d
update_by_op PpcOpcode.divwo inst regs = clear_reg regs inst.r_d
update_by_op PpcOpcode.divwu inst regs = clear_reg regs inst.r_d
update_by_op PpcOpcode.divwuo inst regs = clear_reg regs inst.r_d
update_by_op PpcOpcode.and inst regs = clear_reg regs inst.r_a
update_by_op PpcOpcode.andc inst regs = clear_reg regs inst.r_a
update_by_op PpcOpcode.or inst regs = clear_reg regs inst.r_a
update_by_op PpcOpcode.orc inst regs = clear_reg regs inst.r_a
update_by_op PpcOpcode.xor inst regs = clear_reg regs inst.r_a
update_by_op PpcOpcode.nand inst regs = clear_reg regs inst.r_a
update_by_op PpcOpcode.nor inst regs = clear_reg regs inst.r_a
update_by_op PpcOpcode.eqv inst regs = clear_reg regs inst.r_a
update_by_op PpcOpcode.cntlzw inst regs = clear_reg regs inst.r_a
update_by_op PpcOpcode.extsb inst regs = clear_reg regs inst.r_a
update_by_op PpcOpcode.extsh inst regs = clear_reg regs inst.r_a
update_by_op PpcOpcode.slw inst regs = clear_reg regs inst.r_a
update_by_op PpcOpcode.srw inst regs = clear_reg regs inst.r_a
update_by_op PpcOpcode.sraw inst regs = clear_reg regs inst.r_a
update_by_op PpcOpcode.srawi inst regs = clear_reg regs inst.r_a
update_by_op PpcOpcode.rlwinm inst regs = clear_reg regs inst.r_a
update_by_op PpcOpcode.rlwnm inst regs = clear_reg regs inst.r_a
update_by_op PpcOpcode.rlwimi inst regs = clear_reg regs inst.r_a
update_by_op PpcOpcode.lmw inst regs = clear_from (32 - inst.r_d) inst.r_d regs
update_by_op _ inst regs = regs

unfoldable pub update_known_regs : PpcInst → Regs → Regs
unfolding update_by_op
update_known_regs inst regs = update_by_op inst.op inst regs
