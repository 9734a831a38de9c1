-- ===== src/Smc/Ranges.antt =====
-- src/analysis/smc.c: `smc_note`, the list of address ranges with possible patching
-- instructions, and `analyze_smc_section`.
use dol_recomp.Base.{
  ℕ, ◌+◌, ◌*◌, ◌≤◌, ◌==◌, ◌&&◌, ◌||◌, ◌⊎◌, Bool, true, false, if◌then◌else◌, leb, ltb, List, [],
  ◌∷◌, length, u32, none,
}
use dol_recomp.Decoder.Opcode.{PpcOpcode, op_eq}
use dol_recomp.Decoder.Inst.{PpcInst}
use dol_recomp.Smc.Known.{Regs}
use dol_recomp.Smc.Stores.{CodeSection, smc_inst_targets_code}
use dol_recomp.Smc.Update.{update_known_regs}

-- The first and the last address of a range.
pub record SmcRange : Type 0 where
  pub start : ℕ
  pub end : ℕ

-- `ranges[0 .. range_count)`, the newest first.
pub record SmcAnalysis : Type 0 where
  pub possible : Bool
  pub allocation_failed : Bool
  pub range_capacity : ℕ
  pub ranges : List SmcRange

abbrev pub no_ranges : SmcAnalysis
no_ranges = record { possible = false; allocation_failed = false; range_capacity = 0; ranges = [] }

-- `realloc n` says whether the allocator gives room for `n` ranges.
module _ (realloc : ℕ → Bool) where
  unfoldable pub append_range : SmcAnalysis → ℕ → SmcAnalysis
  append_range smc addr =
      let added = record { start = addr; end = addr } ∷ smc.ranges in
      let new_capacity = if smc.range_capacity == 0 then 16 else u32 (smc.range_capacity * 2) in
      if leb smc.range_capacity (length smc.ranges)
      then if realloc new_capacity
        then record smc { range_capacity = new_capacity; ranges = added }
        else record smc { allocation_failed = true }
      else record smc { ranges = added }

  unfoldable pub note_ranges : List SmcRange → SmcAnalysis → ℕ → SmcAnalysis
  unfolding append_range
  note_ranges [] smc addr = append_range smc addr
  note_ranges (last ∷ older) smc addr =
      if leb last.start addr && leb addr (u32 (last.end + 4))
      then if ltb last.end addr
        then record smc { ranges = record last { end = addr } ∷ older }
        else smc
      else append_range smc addr

  unfoldable pub smc_note : SmcAnalysis → ℕ → SmcAnalysis
  unfolding note_ranges
  smc_note smc addr = note_ranges smc.ranges (record smc { possible = true }) addr

  module _ (sections : List CodeSection) where
    -- The loop of `analyze_smc_section`, with what is known of the registers so far.
    unfoldable pub analyze_from : List PpcInst → Regs → SmcAnalysis → SmcAnalysis
    analyze_from [] regs smc = smc
    analyze_from (inst ∷ insts) regs smc =
        let skipped = inst.embedded_data || op_eq inst.op PpcOpcode.unknown in
        let suspect = op_eq inst.op PpcOpcode.icbi || smc_inst_targets_code sections inst regs in
        analyze_from insts (if skipped then regs else update_known_regs inst regs)
          (if skipped then smc else if suspect then smc_note smc inst.address else smc)

    unfoldable pub analyze_smc_section : List PpcInst → SmcAnalysis → SmcAnalysis
    unfolding analyze_from
    analyze_smc_section insts smc = analyze_from insts (λ r. none) smc

-- An address lies in one of the ranges.
abbrev pub Covered : List SmcRange → ℕ → Type 0
Covered [] a = ⊥
Covered (range ∷ ranges) a = ((range.start ≤ a) × (a ≤ range.end)) ⊎ Covered ranges a
