-- ===== src/Smc/Trace.antt =====
-- `analyze_smc_section` of src/analysis/smc.c over the instructions that a machine executes from
-- the start of a section, one after the other.
use dol_recomp.Base.{
  ℕ, ◌≡◌, ◌⊎◌, inl, inr, ◌∙◌, Bool, true, false, ◌||◌, if◌then◌else◌, none, List, [], ◌∷◌, ◌++◌,
  refl, sym, subst, Bool-cases, arith,
}
use dol_recomp.Decoder.Opcode.{PpcOpcode, op_eq}
use dol_recomp.Decoder.Inst.{PpcInst}
use dol_recomp.Decoder.Legal.{IsForm}
use dol_recomp.Smc.Known.{Regs}
use dol_recomp.Smc.Stores.{CodeSection, smc_inst_targets_code}
use dol_recomp.Smc.Update.{update_known_regs}
use dol_recomp.Smc.Machine.{Machine, Executes, is_overlooked}
use dol_recomp.Smc.Sound.{Agrees, update_known_regs-Agrees}
use dol_recomp.Smc.Ranges.{SmcAnalysis, Covered, smc_note, analyze_from, analyze_smc_section}
use dol_recomp.Smc.Cover.{smc_note-Covered, smc_note-Covered_old, smc_note_failed}
use dol_recomp.Smc.Reports.{InCode}
use dol_recomp.Smc.Written.{Stores, IsExact}
use dol_recomp.Smc.Exact.{smc_inst_targets_code_sound}

-- An instruction that the analysis follows in full.
abbrev pub IsFollowed : PpcInst → Type 0
IsFollowed inst =
    (inst.embedded_data ≡ false)
    × (op_eq inst.op PpcOpcode.unknown ≡ false)
    × (is_overlooked inst.op ≡ false)
    × IsForm inst.op inst

-- The machine goes through the instructions in order.
pub data Run : List PpcInst → Machine → Machine → Type 0 where
  stop : {gpr : Machine} → Run [] gpr gpr
  step :
      {inst : PpcInst} {insts : List PpcInst} {gpr mid after : Machine}
      → IsFollowed inst
      → Executes inst gpr mid
      → Run insts mid after
      → Run (inst ∷ insts) gpr after

abbrev pub is_skipped : PpcInst → Bool
is_skipped inst = inst.embedded_data || op_eq inst.op PpcOpcode.unknown

-- The registers that the loop knows after some instructions.
regs_after : List PpcInst → Regs → Regs
regs_after [] regs = regs
regs_after (inst ∷ insts) regs =
    regs_after insts (if is_skipped inst then regs else update_known_regs inst regs)

module _ (realloc : ℕ → Bool) (sections : List CodeSection) where
  analyze_from-append :
      (before rest : List PpcInst) (regs : Regs) (smc : SmcAnalysis)
      → analyze_from realloc sections (before ++ rest) regs smc
        ≡ analyze_from realloc sections rest
            (regs_after before regs)
            (analyze_from realloc sections before regs smc)
  unfolding analyze_from regs_after
  analyze_from-append [] rest regs smc = refl
  analyze_from-append (inst ∷ before) rest regs smc = analyze_from-append before rest _ _

regs_after-Agrees :
    {insts : List PpcInst} {gpr after : Machine} (regs : Regs)
    → Run insts gpr after
    → Agrees regs gpr
    → Agrees (regs_after insts regs) after
unfolding regs_after
regs_after-Agrees regs stop agrees = agrees
regs_after-Agrees regs (step {inst} {insts} {gpr} {mid} {after} followed executes rest) agrees =
    let not_skipped : is_skipped inst ≡ false = ground arith in
    rw not_skipped (
      regs_after-Agrees (update_known_regs inst regs) rest
        (update_known_regs-Agrees inst regs gpr mid followed.2 followed.3 agrees executes))

module _ (realloc : ℕ → Bool) (sections : List CodeSection) where
  -- Every report of a store is true. Take a section that begins with instructions which the
  -- machine has executed in order, from any state of its registers, and goes on with an
  -- instruction that is neither data nor unknown nor `icbi`, and whose bytes the analysis counts
  -- as the machine does: that is, neither a quantized store nor `stswx`, the clearing of a cache
  -- block only at the address of a block, and `stmw` and `stswi` with operands as the decoder
  -- gives them. Then `analyze_smc_section` either does not report this instruction, or it notes
  -- the instruction's address and, in the state the machine has reached, the instruction stores
  -- to a byte of a DOL code section.
  pub analyze_store_report :
      (before : List PpcInst) (inst : PpcInst) (smc : SmcAnalysis) (gpr after : Machine)
      → Run before gpr after
      → is_skipped inst ≡ false
      → op_eq inst.op PpcOpcode.icbi ≡ false
      → IsExact inst.op inst after
      → let seen = analyze_smc_section realloc sections before smc in
        let all = analyze_smc_section realloc sections (before ++ inst ∷ []) smc in
        (all ≡ seen)
        ⊎ ((all ≡ smc_note realloc seen inst.address)
            × ((b : ℕ) × Stores inst.op inst after b × InCode sections b))
  unfolding analyze_smc_section
  analyze_store_report before inst smc gpr after run here not_icbi exact =
      let regs = regs_after before (λ r. none) in
      let seen = analyze_from realloc sections before (λ r. none) smc in
      let agrees : Agrees regs after = regs_after-Agrees (λ r. none) run (λ r. tt) in
      elim (Bool-cases (smc_inst_targets_code sections inst regs)) [
        | inl e ↦ inr (
          analyze_from-append realloc sections before (inst ∷ []) (λ r. none) smc
              ∙ rw (here, not_icbi, e),
          smc_inst_targets_code_sound sections inst regs after agrees exact e,
        )
        | inr e ↦ inl (
            analyze_from-append realloc sections before (inst ∷ []) (λ r. none) smc
            ∙ rw (here, not_icbi, e))
      ]

  analyze_from-Covered :
      (insts : List PpcInst) (regs : Regs) (smc : SmcAnalysis) (a : ℕ)
      → Covered smc.ranges a
      → Covered (analyze_from realloc sections insts regs smc).ranges a
  unfolding analyze_from
  analyze_from-Covered [] regs smc a c = c
  analyze_from-Covered (inst ∷ insts) regs smc a c = analyze_from-Covered insts _ _ a (
      kept (is_skipped inst)
        (op_eq inst.op PpcOpcode.icbi || smc_inst_targets_code sections inst regs))
    where
      kept :
          (skipped suspect : Bool)
          → Covered
              (if skipped
                then smc
                else if suspect
                then smc_note realloc smc inst.address
                else smc).ranges
              a
      kept true suspect = c
      kept false true = smc_note-Covered_old realloc smc inst.address a c
      kept false false = c

  analyze_from_failed :
      (insts : List PpcInst) (regs : Regs) (smc : SmcAnalysis)
      → smc.allocation_failed ≡ true
      → (analyze_from realloc sections insts regs smc).allocation_failed ≡ true
  unfolding analyze_from
  analyze_from_failed [] regs smc c = c
  analyze_from_failed (inst ∷ insts) regs smc c = analyze_from_failed insts _ _ (
      kept (is_skipped inst)
        (op_eq inst.op PpcOpcode.icbi || smc_inst_targets_code sections inst regs))
    where
      kept :
          (skipped suspect : Bool)
          → (if skipped
              then smc
              else if suspect
              then smc_note realloc smc inst.address
              else smc).allocation_failed
            ≡ true
      kept true suspect = c
      kept false true = smc_note_failed realloc smc inst.address c
      kept false false = c

  analyze_from-noted :
      (inst : PpcInst) (rest : List PpcInst) (regs : Regs) (smc : SmcAnalysis)
      → is_skipped inst ≡ false
      → op_eq inst.op PpcOpcode.icbi ≡ true
      → analyze_from realloc sections (inst ∷ rest) regs smc
        ≡ analyze_from realloc sections rest
            (update_known_regs inst regs)
            (smc_note realloc smc inst.address)
  unfolding analyze_from
  analyze_from-noted inst rest regs smc here icbi = rw (here, icbi)

  -- The instruction cache is invalidated only for a reason: every `icbi` that is not data lies in
  -- a range of the result, wherever it stands in the section and whatever surrounds it, unless
  -- the allocator has failed.
  pub analyze_icbi :
      (before : List PpcInst) (inst : PpcInst) (rest : List PpcInst) (smc : SmcAnalysis)
      → inst.op ≡ PpcOpcode.icbi
      → inst.embedded_data ≡ false
      → let all = analyze_smc_section realloc sections (before ++ inst ∷ rest) smc in
        Covered all.ranges inst.address ⊎ (all.allocation_failed ≡ true)
  unfolding analyze_smc_section op_eq
  analyze_icbi before inst rest smc icbi code =
      let seen = analyze_from realloc sections before (λ r. none) smc in
      let path =
        analyze_from-append realloc sections before (inst ∷ rest) (λ r. none) smc
        ∙ analyze_from-noted inst rest (regs_after before (λ r. none)) seen (rw (code, icbi))
            (rw icbi) in
      subst (λ s. Covered s.ranges inst.address ⊎ (s.allocation_failed ≡ true)) (sym path)
        (elim (smc_note-Covered realloc seen inst.address) [
          | inl c ↦ inl (analyze_from-Covered rest _ _ inst.address c)
          | inr f ↦ inr (analyze_from_failed rest _ _ f)
        ])
