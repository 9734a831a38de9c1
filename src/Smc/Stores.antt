-- ===== src/Smc/Stores.antt =====
-- src/analysis/smc.c: how many bytes an instruction stores, and how it addresses them.
use dol_recomp.Base.{
  ℕ, ◌+◌, ◌*◌, ◌-◌, ◌==◌, ◌&&◌, Bool, true, false, not, if◌then◌else◌, ltb, Option, none, some,
  List, [], ◌∷◌,
}
use dol_recomp.Decoder.Opcode.{PpcOpcode}
use dol_recomp.Decoder.Inst.{PpcInst}
use dol_recomp.Smc.Known.{Regs, known_dform_ea, known_indexed_ea}

-- `none` is the return value 0. A register number is below 32, so the subtraction of `stmw` does
-- not wrap.
unfoldable pub store_size : PpcOpcode → PpcInst → Option ℕ
store_size PpcOpcode.stb inst = some 1
store_size PpcOpcode.stbu inst = some 1
store_size PpcOpcode.stbx inst = some 1
store_size PpcOpcode.stbux inst = some 1
store_size PpcOpcode.sth inst = some 2
store_size PpcOpcode.sthu inst = some 2
store_size PpcOpcode.sthx inst = some 2
store_size PpcOpcode.sthux inst = some 2
store_size PpcOpcode.sthbrx inst = some 2
store_size PpcOpcode.stw inst = some 4
store_size PpcOpcode.stwu inst = some 4
store_size PpcOpcode.stwx inst = some 4
store_size PpcOpcode.stwux inst = some 4
store_size PpcOpcode.stwbrx inst = some 4
store_size PpcOpcode.stwcx inst = some 4
store_size PpcOpcode.stfiwx inst = some 4
store_size PpcOpcode.stfs inst = some 4
store_size PpcOpcode.stfsu inst = some 4
store_size PpcOpcode.stfsx inst = some 4
store_size PpcOpcode.stfsux inst = some 4
store_size PpcOpcode.psq_st inst = some 4
store_size PpcOpcode.psq_stu inst = some 4
store_size PpcOpcode.psq_stx inst = some 4
store_size PpcOpcode.psq_stux inst = some 4
store_size PpcOpcode.stfd inst = some 8
store_size PpcOpcode.stfdu inst = some 8
store_size PpcOpcode.stfdx inst = some 8
store_size PpcOpcode.stfdux inst = some 8
store_size PpcOpcode.stmw inst = some ((32 - inst.r_s) * 4)
store_size PpcOpcode.stswi inst = some (if inst.nb == 0 then 32 else inst.nb)
store_size PpcOpcode.stswx inst = some 1
store_size PpcOpcode.dcbz inst = some 32
store_size PpcOpcode.dcbz_l inst = some 32
store_size _ inst = none

unfoldable pub store_size_for_inst : PpcInst → Option ℕ
store_size_for_inst inst = store_size inst.op inst

unfoldable pub inst_has_dform_ea : PpcOpcode → Bool
inst_has_dform_ea PpcOpcode.stw = true
inst_has_dform_ea PpcOpcode.stwu = true
inst_has_dform_ea PpcOpcode.stb = true
inst_has_dform_ea PpcOpcode.stbu = true
inst_has_dform_ea PpcOpcode.sth = true
inst_has_dform_ea PpcOpcode.sthu = true
inst_has_dform_ea PpcOpcode.stmw = true
inst_has_dform_ea PpcOpcode.stswi = true
inst_has_dform_ea PpcOpcode.stfs = true
inst_has_dform_ea PpcOpcode.stfsu = true
inst_has_dform_ea PpcOpcode.stfd = true
inst_has_dform_ea PpcOpcode.stfdu = true
inst_has_dform_ea PpcOpcode.psq_st = true
inst_has_dform_ea PpcOpcode.psq_stu = true
inst_has_dform_ea _ = false

unfoldable pub inst_has_indexed_ea : PpcOpcode → Bool
inst_has_indexed_ea PpcOpcode.stwx = true
inst_has_indexed_ea PpcOpcode.stwux = true
inst_has_indexed_ea PpcOpcode.stbx = true
inst_has_indexed_ea PpcOpcode.stbux = true
inst_has_indexed_ea PpcOpcode.sthx = true
inst_has_indexed_ea PpcOpcode.sthux = true
inst_has_indexed_ea PpcOpcode.stwbrx = true
inst_has_indexed_ea PpcOpcode.sthbrx = true
inst_has_indexed_ea PpcOpcode.stswx = true
inst_has_indexed_ea PpcOpcode.stwcx = true
inst_has_indexed_ea PpcOpcode.stfiwx = true
inst_has_indexed_ea PpcOpcode.stfsx = true
inst_has_indexed_ea PpcOpcode.stfsux = true
inst_has_indexed_ea PpcOpcode.stfdx = true
inst_has_indexed_ea PpcOpcode.stfdux = true
inst_has_indexed_ea PpcOpcode.psq_stx = true
inst_has_indexed_ea PpcOpcode.psq_stux = true
inst_has_indexed_ea PpcOpcode.dcbz = true
inst_has_indexed_ea PpcOpcode.dcbz_l = true
inst_has_indexed_ea _ = false

pub data EmbeddedDataMode : Type 0 where
  none_mode dol_mode rpx_mode : EmbeddedDataMode

-- The fields of LoadedCodeSection (src/analysis/code_section.h) that the analysis reads.
pub record CodeSection : Type 0 where
  pub address : ℕ
  pub size : ℕ
  pub embedded_data_mode : EmbeddedDataMode

unfoldable pub is_dol_mode : EmbeddedDataMode → Bool
is_dol_mode EmbeddedDataMode.dol_mode = true
is_dol_mode _ = false

-- One round of the loop: a section that is skipped or misses gives false. The ends are 64-bit
-- sums in the source, so they do not wrap.
unfoldable pub section_overlaps : CodeSection → ℕ → ℕ → Bool
unfolding is_dol_mode
section_overlaps section address size =
    let end = address + (if size == 0 then 1 else size) in
    is_dol_mode section.embedded_data_mode
    && not (section.size == 0)
    && ltb address (section.address + section.size)
    && ltb section.address end

unfoldable pub code_range_overlaps : List CodeSection → ℕ → ℕ → Bool
code_range_overlaps [] address size = false
code_range_overlaps (section ∷ sections) address size =
    let rest = code_range_overlaps sections address size in
    if section_overlaps section address size then true else rest

-- The effective address of a store, if its form has one and its registers are known.
unfoldable pub known_store_ea : Regs → PpcInst → Option ℕ
known_store_ea regs inst =
    if inst_has_dform_ea inst.op
    then known_dform_ea regs inst
    else if inst_has_indexed_ea inst.op
    then known_indexed_ea regs inst
    else none

unfoldable pub smc_inst_targets_code : List CodeSection → PpcInst → Regs → Bool
unfolding known_store_ea
smc_inst_targets_code sections inst regs = elim (store_size_for_inst inst) [
  | none ↦ false
  | some size ↦ elim (known_store_ea regs inst) [
    | none ↦ false
    | some ea ↦ code_range_overlaps sections ea size
  ]
]
