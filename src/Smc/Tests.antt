-- ===== src/Smc/Tests.antt =====
-- The analysis of src/analysis/smc.c at concrete inputs.
use dol_recomp.Base.{
  ℕ, ◌==◌, ◌≡◌, ◌⊎◌, ◌↔◌, inl, inr, Bool, true, false, if◌then◌else◌, none, some, List, [], ◌∷◌,
  refl, sign_extend, arith, Bool-cases,
}
use dol_recomp.Decoder.Opcode.{PpcOpcode, op_eq}
use dol_recomp.Decoder.Inst.{PpcInst, blank_inst}
use dol_recomp.Smc.Known.{Regs, set_reg, extend_simm, known_dform_ea, known_indexed_ea}
use dol_recomp.Smc.Stores.{CodeSection, EmbeddedDataMode, code_range_overlaps, section_overlaps}
use dol_recomp.Smc.Stores.{
  smc_inst_targets_code, store_size_for_inst, store_size, inst_has_dform_ea, inst_has_indexed_ea,
  known_store_ea,
}
use dol_recomp.Smc.Update.{update_known_regs}
use dol_recomp.Smc.Machine.{Machine, Executes, is_overlooked}
use dol_recomp.Smc.Sound.{Agrees, update_known_regs-Agrees}
use dol_recomp.Smc.Overlooked.{is_float_update, float_update_stale}
use dol_recomp.Smc.Ranges.{SmcAnalysis, Covered, no_ranges, smc_note, analyze_smc_section}
use dol_recomp.Smc.Cover.{
  IsWellFormed, smc_note-Covered, smc_note-Covered_old, smc_note-IsWellFormed,
}
use dol_recomp.Smc.Reports.{InCode, Touches, code_range_overlaps_iff}
use dol_recomp.Smc.Written.{Stores}
use dol_recomp.Smc.Exact.{smc_inst_targets_code_iff}
use dol_recomp.Smc.Trace.{Run, analyze_store_report, analyze_icbi}

abbrev at : ℕ → PpcOpcode → PpcInst
at address op = record (blank_inst 0 address) { op = op }

-- `lis r4, 0x8000`.
abbrev load_base : PpcInst
load_base = record (at 0x80003100 PpcOpcode.addis) { r_d = 4; simm = 0x8000 }

-- `stw r3, 0x3100(r4)`.
abbrev patch_store : PpcInst
patch_store = record (at 0x80003104 PpcOpcode.stw) { r_s = 3; r_a = 4; simm = 0x3100 }

abbrev text : List CodeSection
text =
    record { address = 0x80003100; size = 0x20; embedded_data_mode = EmbeddedDataMode.dol_mode }
    ∷ []

abbrev idle : Machine
idle r = 0

abbrev based : Machine
based r = if r == 4 then 0x80000000 else 0

abbrev granted : ℕ → Bool
granted n = true

load_base-Executes : Executes load_base idle based
unfolding extend_simm sign_extend
load_base-Executes = record { keeps = λ r h. ground arith; leaves = refl }

update_known_regs-Agrees_example : Agrees (update_known_regs load_base (λ r. none)) based
unfolding is_overlooked
update_known_regs-Agrees_example =
    update_known_regs-Agrees load_base (λ r. none) idle based refl tt (λ r. tt) load_base-Executes

-- `stfsu f1, 8(r4)`.
abbrev float_store : PpcInst
float_store = record (at 0x80003104 PpcOpcode.stfsu) { r_s = 1; r_a = 4; simm = 8 }

abbrev advanced : Machine
advanced r = if r == 4 then 0x80000008 else 0

float_store-Executes : Executes float_store based advanced
unfolding extend_simm sign_extend
float_store-Executes = record { keeps = λ r h. ground arith; leaves = refl }

abbrev base_known : Regs
base_known r = if r == 4 then some 0x80000000 else none

base_known-Agrees : Agrees base_known based
base_known-Agrees r = elim (Bool-cases (r == 4)) [ inl e ↦ rw e refl | inr e ↦ rw e tt ]

float_update_stale_example : ¬ Agrees (update_known_regs float_store base_known) advanced
unfolding is_float_update extend_simm sign_extend
float_update_stale_example =
    float_update_stale float_store base_known based advanced 0x80000000 refl (omega arith)
      (omega arith) (omega arith) refl base_known-Agrees float_store-Executes

abbrev one_range : SmcAnalysis
one_range = record {
  possible = true;
  allocation_failed = false;
  range_capacity = 16;
  ranges = record { start = 0x80003100; end = 0x80003104 } ∷ [];
}

smc_note-Covered_example :
    Covered (smc_note granted one_range 0x80003108).ranges 0x80003108
    ⊎ ((smc_note granted one_range 0x80003108).allocation_failed ≡ true)
smc_note-Covered_example = smc_note-Covered granted one_range 0x80003108

smc_note-Covered_old_example : Covered (smc_note granted one_range 0x80003200).ranges 0x80003104
smc_note-Covered_old_example =
    smc_note-Covered_old granted one_range 0x80003200 0x80003104 (inl (omega arith))

smc_note-IsWellFormed_example :
    ((smc_note granted one_range 0x80003200).possible ≡ true)
    × IsWellFormed (smc_note granted one_range 0x80003200)
smc_note-IsWellFormed_example =
    smc_note-IsWellFormed granted one_range 0x80003200 (omega arith)
      (record { forwards = omega arith; room = omega arith; seen = inl refl })

code_range_overlaps_iff_example :
    (code_range_overlaps text 0x800030fe 4 ≡ true)
    ↔ ((b : ℕ) × Touches 0x800030fe 4 b × InCode text b)
code_range_overlaps_iff_example = code_range_overlaps_iff text 0x800030fe 4

smc_inst_targets_code_iff_example :
    (smc_inst_targets_code text patch_store base_known ≡ true)
    ↔ ((b : ℕ) × Stores PpcOpcode.stw patch_store based b × InCode text b)
unfolding inst_has_dform_ea known_dform_ea known_store_ea extend_simm sign_extend
smc_inst_targets_code_iff_example =
    smc_inst_targets_code_iff text patch_store base_known based 0x80003100 base_known-Agrees tt refl

-- The clearing of a block is taken to begin at the address: the block of the address 0x80003115,
-- which begins at 0x80003100, holds the code, and no store is seen.
abbrev block_clear : PpcInst
block_clear = record (at 0x80003200 PpcOpcode.dcbz) { r_a = 4; r_b = 5 }

abbrev low_text : List CodeSection
low_text =
    record { address = 0x80003100; size = 4; embedded_data_mode = EmbeddedDataMode.dol_mode } ∷ []

abbrev both_known : Regs
both_known r = if r == 4 then some 0x80003115 else if r == 5 then some 0 else none

abbrev block_base : Machine
block_base r = if r == 4 then 0x80003115 else 0

block_clear_missed :
    (smc_inst_targets_code low_text block_clear both_known ≡ false)
    × Stores PpcOpcode.dcbz block_clear block_base 0x80003100
    × InCode low_text 0x80003100
unfolding smc_inst_targets_code store_size_for_inst store_size inst_has_dform_ea inst_has_indexed_ea
    known_indexed_ea code_range_overlaps section_overlaps
block_clear_missed = (refl, (omega arith, omega arith), inl (refl, omega arith, omega arith))

load_base-Run : Run (load_base ∷ []) idle based
unfolding op_eq is_overlooked
load_base-Run = Run.step (refl, refl, refl, tt) load_base-Executes Run.stop

-- The store that follows is reported.
patch_store_reported :
    (analyze_smc_section granted text (load_base ∷ patch_store ∷ []) no_ranges).ranges
    ≡ record { start = 0x80003104; end = 0x80003104 } ∷ []
unfolding analyze_smc_section smc_note op_eq smc_inst_targets_code store_size_for_inst store_size
    inst_has_dform_ea known_dform_ea extend_simm sign_extend code_range_overlaps section_overlaps
    update_known_regs set_reg
patch_store_reported = refl

analyze_store_report_example :
    let seen = analyze_smc_section granted text (load_base ∷ []) no_ranges in
    let all = analyze_smc_section granted text (load_base ∷ patch_store ∷ []) no_ranges in
    (all ≡ seen)
    ⊎ ((all ≡ smc_note granted seen 0x80003104)
        × ((b : ℕ) × Stores PpcOpcode.stw patch_store based b × InCode text b))
unfolding op_eq
analyze_store_report_example =
    analyze_store_report granted text (load_base ∷ []) patch_store no_ranges idle based
      load_base-Run refl refl tt

analyze_icbi_example :
    let all =
      analyze_smc_section granted text (load_base ∷ at 0x80003104 PpcOpcode.icbi ∷ []) no_ranges in
    Covered all.ranges 0x80003104 ⊎ (all.allocation_failed ≡ true)
analyze_icbi_example =
    analyze_icbi granted text (load_base ∷ []) (at 0x80003104 PpcOpcode.icbi) [] no_ranges refl refl
