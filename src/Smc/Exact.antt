-- ===== src/Smc/Exact.antt =====
-- The tables of src/analysis/smc.c against the bytes that the stores write.
use dol_recomp.Base.{
  ℕ, ◌*◌, ◌-◌, ◌==◌, ◌≡◌, ◌↔◌, true, if◌then◌else◌, inl, inr, none, some, List, refl, sym, subst,
  u32, sign_extend, arith, Option-cases,
}
use dol_recomp.Decoder.Opcode.{PpcOpcode}
use dol_recomp.Decoder.Inst.{PpcInst}
use dol_recomp.Smc.Known.{Regs, extend_simm}
use dol_recomp.Smc.Stores.{
  CodeSection, store_size, store_size_for_inst, inst_has_dform_ea, known_store_ea,
  code_range_overlaps, smc_inst_targets_code,
}
use dol_recomp.Smc.Machine.{Machine, base_value, dform_address, indexed_address}
use dol_recomp.Smc.Written.{Stores, IsExact}
use dol_recomp.Smc.Sound.{Agrees}
use dol_recomp.Smc.Reports.{
  InCode, Touches, overlaps_sound, overlaps_complete, known_store_ea_sound,
}

-- The bytes that the tables count for an instruction.
abbrev Counts : PpcOpcode → PpcInst → Machine → ℕ → Type 0
Counts op inst gpr b =
    (size : ℕ) × (store_size op inst ≡ some size)
    × Touches (if inst_has_dform_ea op then dform_address inst gpr else indexed_address inst gpr)
        size b

no_displacement :
    (inst : PpcInst) (gpr : Machine)
    → inst.simm ≡ 0
    → dform_address inst gpr ≡ u32 (base_value inst gpr)
unfolding extend_simm sign_extend
no_displacement inst gpr h = rw h (ground arith)

Counts→Stores :
    (op : PpcOpcode) (inst : PpcInst) (gpr : Machine) (b : ℕ)
    → IsExact op inst gpr
    → Counts op inst gpr b
    → Stores op inst gpr b
unfolding store_size inst_has_dform_ea
Counts→Stores PpcOpcode.stb inst gpr b exact h = ground arith
Counts→Stores PpcOpcode.stbu inst gpr b exact h = ground arith
Counts→Stores PpcOpcode.sth inst gpr b exact h = ground arith
Counts→Stores PpcOpcode.sthu inst gpr b exact h = ground arith
Counts→Stores PpcOpcode.stw inst gpr b exact h = ground arith
Counts→Stores PpcOpcode.stwu inst gpr b exact h = ground arith
Counts→Stores PpcOpcode.stfs inst gpr b exact h = ground arith
Counts→Stores PpcOpcode.stfsu inst gpr b exact h = ground arith
Counts→Stores PpcOpcode.stfd inst gpr b exact h = ground arith
Counts→Stores PpcOpcode.stfdu inst gpr b exact h = ground arith
Counts→Stores PpcOpcode.stbx inst gpr b exact h = ground arith
Counts→Stores PpcOpcode.stbux inst gpr b exact h = ground arith
Counts→Stores PpcOpcode.sthx inst gpr b exact h = ground arith
Counts→Stores PpcOpcode.sthux inst gpr b exact h = ground arith
Counts→Stores PpcOpcode.sthbrx inst gpr b exact h = ground arith
Counts→Stores PpcOpcode.stwx inst gpr b exact h = ground arith
Counts→Stores PpcOpcode.stwux inst gpr b exact h = ground arith
Counts→Stores PpcOpcode.stwbrx inst gpr b exact h = ground arith
Counts→Stores PpcOpcode.stwcx inst gpr b exact h = ground arith
Counts→Stores PpcOpcode.stfiwx inst gpr b exact h = ground arith
Counts→Stores PpcOpcode.stfsx inst gpr b exact h = ground arith
Counts→Stores PpcOpcode.stfsux inst gpr b exact h = ground arith
Counts→Stores PpcOpcode.stfdx inst gpr b exact h = ground arith
Counts→Stores PpcOpcode.stfdux inst gpr b exact h = ground arith
Counts→Stores PpcOpcode.stmw inst gpr b exact h = ground arith
Counts→Stores PpcOpcode.stswi inst gpr b exact h = ground (arith, no_displacement inst gpr exact)
Counts→Stores PpcOpcode.dcbz inst gpr b exact h = ground arith
Counts→Stores PpcOpcode.dcbz_l inst gpr b exact h = ground arith
Counts→Stores PpcOpcode.psq_st inst gpr b exact h = elim exact [ ]
Counts→Stores PpcOpcode.psq_stu inst gpr b exact h = elim exact [ ]
Counts→Stores PpcOpcode.psq_stx inst gpr b exact h = elim exact [ ]
Counts→Stores PpcOpcode.psq_stux inst gpr b exact h = elim exact [ ]
Counts→Stores PpcOpcode.stswx inst gpr b exact h = elim exact [ ]
Counts→Stores _ inst gpr b exact h = cc (h.1)

Stores→Counts :
    (op : PpcOpcode) (inst : PpcInst) (gpr : Machine) (b : ℕ)
    → IsExact op inst gpr
    → Stores op inst gpr b
    → Counts op inst gpr b
unfolding store_size inst_has_dform_ea
Stores→Counts PpcOpcode.stb inst gpr b exact h = (1, refl, h)
Stores→Counts PpcOpcode.stbu inst gpr b exact h = (1, refl, h)
Stores→Counts PpcOpcode.sth inst gpr b exact h = (2, refl, h)
Stores→Counts PpcOpcode.sthu inst gpr b exact h = (2, refl, h)
Stores→Counts PpcOpcode.stw inst gpr b exact h = (4, refl, h)
Stores→Counts PpcOpcode.stwu inst gpr b exact h = (4, refl, h)
Stores→Counts PpcOpcode.stfs inst gpr b exact h = (4, refl, h)
Stores→Counts PpcOpcode.stfsu inst gpr b exact h = (4, refl, h)
Stores→Counts PpcOpcode.stfd inst gpr b exact h = (8, refl, h)
Stores→Counts PpcOpcode.stfdu inst gpr b exact h = (8, refl, h)
Stores→Counts PpcOpcode.stbx inst gpr b exact h = (1, refl, h)
Stores→Counts PpcOpcode.stbux inst gpr b exact h = (1, refl, h)
Stores→Counts PpcOpcode.sthx inst gpr b exact h = (2, refl, h)
Stores→Counts PpcOpcode.sthux inst gpr b exact h = (2, refl, h)
Stores→Counts PpcOpcode.sthbrx inst gpr b exact h = (2, refl, h)
Stores→Counts PpcOpcode.stwx inst gpr b exact h = (4, refl, h)
Stores→Counts PpcOpcode.stwux inst gpr b exact h = (4, refl, h)
Stores→Counts PpcOpcode.stwbrx inst gpr b exact h = (4, refl, h)
Stores→Counts PpcOpcode.stwcx inst gpr b exact h = (4, refl, h)
Stores→Counts PpcOpcode.stfiwx inst gpr b exact h = (4, refl, h)
Stores→Counts PpcOpcode.stfsx inst gpr b exact h = (4, refl, h)
Stores→Counts PpcOpcode.stfsux inst gpr b exact h = (4, refl, h)
Stores→Counts PpcOpcode.stfdx inst gpr b exact h = (8, refl, h)
Stores→Counts PpcOpcode.stfdux inst gpr b exact h = (8, refl, h)
Stores→Counts PpcOpcode.stmw inst gpr b exact h = ((32 - inst.r_s) * 4, refl, ground arith)
Stores→Counts PpcOpcode.stswi inst gpr b exact h =
    (if inst.nb == 0 then 32 else inst.nb, refl, ground (arith, no_displacement inst gpr exact))
Stores→Counts PpcOpcode.dcbz inst gpr b exact h = (32, refl, ground arith)
Stores→Counts PpcOpcode.dcbz_l inst gpr b exact h = (32, refl, ground arith)
Stores→Counts PpcOpcode.psq_st inst gpr b exact h = elim exact [ ]
Stores→Counts PpcOpcode.psq_stu inst gpr b exact h = elim exact [ ]
Stores→Counts PpcOpcode.psq_stx inst gpr b exact h = elim exact [ ]
Stores→Counts PpcOpcode.psq_stux inst gpr b exact h = elim exact [ ]
Stores→Counts PpcOpcode.stswx inst gpr b exact h = elim exact [ ]
Stores→Counts _ inst gpr b exact h = elim h [ ]

-- What the analysis reports is a store to code, for an instruction that it counts as the machine
-- does.
pub smc_inst_targets_code_sound :
    (sections : List CodeSection) (inst : PpcInst) (regs : Regs) (gpr : Machine)
    → Agrees regs gpr
    → IsExact inst.op inst gpr
    → smc_inst_targets_code sections inst regs ≡ true
    → (b : ℕ) × Stores inst.op inst gpr b × InCode sections b
smc_inst_targets_code_sound sections inst regs gpr agrees exact h =
    elim (Option-cases (store_size_for_inst inst)) [
      | inl e ↦ absurd (no_size e)
      | inr (size, e) ↦ elim (Option-cases (known_store_ea regs inst)) [
        | inl f ↦ absurd (no_ea size e f)
        | inr (ea, f) ↦
            let (b, touched, code) = overlaps_sound sections ea size (hit size ea e f) in
            let at = known_store_ea_sound inst regs gpr ea agrees f in
            let touches = subst (λ (a : ℕ). Touches a size b) (sym at) touched in
            (b, Counts→Stores inst.op inst gpr b exact (size, counted size e, touches), code)
      ]
    ]
  where
    no_size : store_size_for_inst inst ≡ none → ⊥
    no_size e = unfold smc_inst_targets_code in ground arith

    no_ea : (size : ℕ) → store_size_for_inst inst ≡ some size → known_store_ea regs inst ≡ none → ⊥
    no_ea size e f = unfold smc_inst_targets_code in ground arith

    hit :
        (size ea : ℕ)
        → store_size_for_inst inst ≡ some size
        → known_store_ea regs inst ≡ some ea
        → code_range_overlaps sections ea size ≡ true
    hit size ea e f = unfold smc_inst_targets_code in ground arith

    counted :
        (size : ℕ) → store_size_for_inst inst ≡ some size → store_size inst.op inst ≡ some size
    counted size e = unfold store_size_for_inst in e

-- Where the address is known, from registers of which all that is known is true of the machine,
-- the answer of the analysis is yes exactly when the instruction stores to a byte of a code
-- section. The instruction is neither a quantized store nor `stswx`; the clearing of a cache block
-- only at the address of a block; `stmw` and `stswi` with operands as the decoder gives them.
pub smc_inst_targets_code_iff :
    (sections : List CodeSection) (inst : PpcInst) (regs : Regs) (gpr : Machine) (ea : ℕ)
    → Agrees regs gpr
    → IsExact inst.op inst gpr
    → known_store_ea regs inst ≡ some ea
    → (smc_inst_targets_code sections inst regs ≡ true)
      ↔ ((b : ℕ) × Stores inst.op inst gpr b × InCode sections b)
smc_inst_targets_code_iff sections inst regs gpr ea agrees exact known = (
  smc_inst_targets_code_sound sections inst regs gpr agrees exact,
  λ hit.
      let (size, counted, touched) = Stores→Counts inst.op inst gpr hit.0 exact hit.1 in
      let at = known_store_ea_sound inst regs gpr ea agrees known in
      found size (unfold store_size_for_inst in counted) (
        overlaps_complete sections ea size hit.0
          (subst (λ (a : ℕ). Touches a size hit.0) at touched) hit.2),
)
  where
    found :
        (size : ℕ)
        → store_size_for_inst inst ≡ some size
        → code_range_overlaps sections ea size ≡ true
        → smc_inst_targets_code sections inst regs ≡ true
    found size e f = unfold smc_inst_targets_code in ground arith
