-- ===== src/Smc/Sound.antt =====
-- What `update_known_regs` of src/analysis/smc.c says of the registers is true of the machine.
use dol_recomp.Base.{
  ℕ, zero, suc, ◌+◌, ◌-◌, ◌*◌, ◌^◌, ◌≤◌, ◌<◌, ◌==◌, ◌≡◌, ◌≢◌, ◌⊎◌, inl, inr, ◌∙◌, if◌then◌else◌,
  false, Option, none, some, bit_or, bit_xor, u32, refl, subst, arith, Option-cases, Bool-cases,
}
use dol_recomp.Decoder.Opcode.{PpcOpcode}
use dol_recomp.Decoder.Inst.{PpcInst}
use dol_recomp.Decoder.Legal.{IsForm}
use dol_recomp.Decoder.Fits.{sign_extend-lt}
use dol_recomp.Smc.Known.{
  Regs, ◌>>=◌, clear_reg, set_reg, write_reg, extend_simm, known_dform_ea, known_indexed_ea,
}
use dol_recomp.Smc.Update.{set_or_clear, high_simm, clear_from, update_by_op, update_known_regs}
use dol_recomp.Smc.Machine.{
  Machine, Executes, Writes, Leaves, is_overlooked, dform_address, indexed_address, base_value,
}

-- A value that is claimed is the right one.
abbrev pub Claims : Option ℕ → ℕ → Type 0
Claims none x = Unit
Claims (some v) x = x ≡ v

-- Every register that is known holds the known value.
abbrev pub Agrees : Regs → Machine → Type 0
Agrees regs gpr = (r : ℕ) → Claims (regs r) (gpr r)

-- The same as an implication, for the proofs.
abbrev pub Knows : Regs → Machine → Type 0
Knows regs gpr = (r v : ℕ) → regs r ≡ some v → gpr r ≡ v

pub Agrees→Knows : (regs : Regs) (gpr : Machine) → Agrees regs gpr → Knows regs gpr
Agrees→Knows regs gpr agrees r v h = subst (λ o. Claims o (gpr r)) h (agrees r)

Claims-intro : (o : Option ℕ) (x : ℕ) → ((v : ℕ) → o ≡ some v → x ≡ v) → Claims o x
Claims-intro none x h = tt
Claims-intro (some v) x h = h v refl

Knows→Agrees : (regs : Regs) (gpr : Machine) → Knows regs gpr → Agrees regs gpr
Knows→Agrees regs gpr knows r = Claims-intro (regs r) (gpr r) (knows r)

-- A write of one register, whose value is right or not claimed.
Knows-write :
    (regs : Regs) (gpr after : Machine) (reg : ℕ) (value : Option ℕ)
    → Knows regs gpr
    → ((r : ℕ) → r ≢ reg → after r ≡ gpr r)
    → ((v : ℕ) → value ≡ some v → after reg ≡ v)
    → Knows (write_reg regs reg value) after
Knows-write regs gpr after reg value agrees keeps right r v h =
    ground (arith, agrees r v, keeps r, right v)

Knows-set_or_clear :
    (regs : Regs) (gpr after : Machine) (reg : ℕ) (value : Option ℕ)
    → Knows regs gpr
    → ((r : ℕ) → r ≢ reg → after r ≡ gpr r)
    → ((v : ℕ) → value ≡ some v → after reg ≡ v)
    → Knows (set_or_clear regs reg value) after
unfolding set_reg clear_reg
Knows-set_or_clear regs gpr after reg none agrees keeps right =
    Knows-write regs gpr after reg none agrees keeps right
Knows-set_or_clear regs gpr after reg (some x) agrees keeps right =
    Knows-write regs gpr after reg (some x) agrees keeps right

Knows-clear :
    (regs : Regs) (gpr after : Machine) (reg : ℕ)
    → Knows regs gpr
    → ((r : ℕ) → r ≢ reg → after r ≡ gpr r)
    → Knows (clear_reg regs reg) after
unfolding clear_reg
Knows-clear regs gpr after reg agrees keeps =
    Knows-write regs gpr after reg none agrees keeps (λ v e. cc)

pub extend_simm-lt : (simm : ℕ) → extend_simm simm < 2 ^ 32
unfolding extend_simm
extend_simm-lt simm = sign_extend-lt simm 16

-- A known effective address is the machine's.
pub known_dform_ea_sound :
    (regs : Regs) (gpr : Machine) (inst : PpcInst) (ea : ℕ)
    → Knows regs gpr
    → known_dform_ea regs inst ≡ some ea
    → dform_address inst gpr ≡ ea
unfolding known_dform_ea extend_simm
known_dform_ea_sound regs gpr inst ea agrees h = elim (Option-cases (regs inst.r_a)) [
  | inl e ↦ ground (arith, sign_extend-lt inst.simm 16)
  | inr (v, e) ↦ ground (arith, sign_extend-lt inst.simm 16, agrees inst.r_a v e)
]

pub known_indexed_ea_sound :
    (regs : Regs) (gpr : Machine) (inst : PpcInst) (ea : ℕ)
    → Knows regs gpr
    → known_indexed_ea regs inst ≡ some ea
    → indexed_address inst gpr ≡ ea
unfolding known_indexed_ea
known_indexed_ea_sound regs gpr inst ea agrees h = elim (Option-cases (regs inst.r_a)) [
  | inl e ↦ elim (Option-cases (regs inst.r_b)) [
    | inl f ↦ ground arith
    | inr (w, f) ↦ ground (arith, agrees inst.r_b w f)
  ]
  | inr (v, e) ↦ elim (Option-cases (regs inst.r_b)) [
    | inl f ↦ ground arith
    | inr (w, f) ↦ ground (arith, agrees inst.r_a v e, agrees inst.r_b w f)
  ]
]

-- Nothing is written.
Knows-same :
    (regs : Regs) (gpr after : Machine)
    → Knows regs gpr
    → ((r : ℕ) → ¬ ⊥ → after r ≡ gpr r)
    → Knows regs after
Knows-same regs gpr after agrees keeps r v h = keeps r (λ e. e) ∙ agrees r v h

module _ (regs : Regs) (gpr after : Machine) (inst : PpcInst) (agrees : Knows regs gpr) where
  -- One register, with the value of an immediate operation on another.
  Knows-operation :
      (target source : ℕ) (f : ℕ → ℕ)
      → ((r : ℕ) → ¬ (r ≡ target) → after r ≡ gpr r)
      → after target ≡ f (gpr source)
      → Knows (set_or_clear regs target (regs source >>= λ v. some (f v))) after
  Knows-operation target source f keeps leaves =
      Knows-set_or_clear regs gpr after target (regs source >>= λ v. some (f v)) agrees keeps
        (λ v h. elim (Option-cases (regs source)) [
          | inl e ↦ ground arith
          | inr (x, e) ↦ ground (arith, agrees source x e)
        ])

  -- The base of a store that writes it back.
  Knows-base :
      (address : Option ℕ) (actual : ℕ)
      → ((ea : ℕ) → address ≡ some ea → actual ≡ ea)
      → ((r : ℕ) → ¬ (r ≡ inst.r_a) → after r ≡ gpr r)
      → after inst.r_a ≡ actual
      → Knows (set_or_clear regs inst.r_a address) after
  Knows-base address actual right keeps leaves =
      Knows-set_or_clear regs gpr after inst.r_a address agrees keeps (λ v h. leaves ∙ right v h)

  -- A load that writes its base back and clears its target.
  Knows-load_update :
      (address : Option ℕ) (actual : ℕ)
      → ((ea : ℕ) → address ≡ some ea → actual ≡ ea)
      → ((r : ℕ) → ¬ ((r ≡ inst.r_a) ⊎ (r ≡ inst.r_d)) → after r ≡ gpr r)
      → after inst.r_a ≡ actual
      → Knows (clear_reg (set_or_clear regs inst.r_a address) inst.r_d) after
  unfolding clear_reg set_reg
  Knows-load_update none actual right keeps leaves r v h = ground (arith, agrees r v, keeps r)
  Knows-load_update (some ea) actual right keeps leaves r v h =
      ground (arith, agrees r v, keeps r, right ea)

  -- The sum of a base register and an immediate.
  Knows-add_immediate :
      (amount : ℕ)
      → amount < 2 ^ 32
      → ((r : ℕ) → ¬ (r ≡ inst.r_d) → after r ≡ gpr r)
      → after inst.r_d ≡ u32 (base_value inst gpr + amount)
      → Knows
          (if inst.r_a == 0
            then set_reg regs inst.r_d amount
            else set_or_clear regs inst.r_d (regs inst.r_a >>= λ v. some (u32 (v + amount))))
          after
  unfolding set_reg clear_reg
  Knows-add_immediate amount fits keeps leaves = elim (Bool-cases (inst.r_a == 0)) [
    | inl e ↦
        rw e (Knows-write regs gpr after inst.r_d (some amount) agrees keeps (λ v h. ground arith))
    | inr e ↦ rw e (Knows-operation inst.r_d inst.r_a (λ v. u32 (v + amount)) keeps (ground arith))
  ]

-- The loop of `lmw` clears what it passes.
Knows-clear_from :
    (left reg : ℕ) (regs : Regs) (after : Machine)
    → ((r v : ℕ) → (r < reg) ⊎ (reg + left ≤ r) → regs r ≡ some v → after r ≡ v)
    → Knows (clear_from left reg regs) after
unfolding clear_from clear_reg
Knows-clear_from zero reg regs after h = λ r v e. h r v (ground arith) e
Knows-clear_from (suc left) reg regs after h =
    Knows-clear_from left (reg + 1) (write_reg regs reg none) after
      (λ r v out e. ground (arith, h r v))

-- One opcode at a time.
pub update_by_op-Knows :
    (op : PpcOpcode) (inst : PpcInst) (regs : Regs) (gpr after : Machine)
    → is_overlooked op ≡ false
    → Knows regs gpr
    → ((r : ℕ) → ¬ Writes op inst r → after r ≡ gpr r)
    → Leaves op inst gpr after
    → IsForm op inst
    → Knows (update_by_op op inst regs) after
unfolding update_by_op is_overlooked
update_by_op-Knows PpcOpcode.addi inst regs gpr after o agrees keeps leaves form =
    Knows-add_immediate regs gpr after inst agrees (extend_simm inst.simm)
      (extend_simm-lt inst.simm) keeps leaves
update_by_op-Knows PpcOpcode.addis inst regs gpr after o agrees keeps leaves form =
    Knows-add_immediate regs gpr after inst agrees (high_simm inst.simm) (omega arith) keeps leaves
update_by_op-Knows PpcOpcode.ori inst regs gpr after o agrees keeps leaves form =
    Knows-operation regs gpr after inst agrees inst.r_a inst.r_s (λ v. bit_or v inst.uimm) keeps
      leaves
update_by_op-Knows PpcOpcode.oris inst regs gpr after o agrees keeps leaves form =
    Knows-operation regs gpr after inst agrees inst.r_a inst.r_s
      (λ v. bit_or v (inst.uimm * 2 ^ 16)) keeps leaves
update_by_op-Knows PpcOpcode.xori inst regs gpr after o agrees keeps leaves form =
    Knows-operation regs gpr after inst agrees inst.r_a inst.r_s (λ v. bit_xor v inst.uimm) keeps
      leaves
update_by_op-Knows PpcOpcode.xoris inst regs gpr after o agrees keeps leaves form =
    Knows-operation regs gpr after inst agrees inst.r_a inst.r_s
      (λ v. bit_xor v (inst.uimm * 2 ^ 16)) keeps leaves
update_by_op-Knows PpcOpcode.lwzu inst regs gpr after o agrees keeps leaves form =
    Knows-load_update regs gpr after inst agrees (known_dform_ea regs inst) (dform_address inst gpr)
      (λ ea. known_dform_ea_sound regs gpr inst ea agrees) keeps leaves
update_by_op-Knows PpcOpcode.lbzu inst regs gpr after o agrees keeps leaves form =
    Knows-load_update regs gpr after inst agrees (known_dform_ea regs inst) (dform_address inst gpr)
      (λ ea. known_dform_ea_sound regs gpr inst ea agrees) keeps leaves
update_by_op-Knows PpcOpcode.lhzu inst regs gpr after o agrees keeps leaves form =
    Knows-load_update regs gpr after inst agrees (known_dform_ea regs inst) (dform_address inst gpr)
      (λ ea. known_dform_ea_sound regs gpr inst ea agrees) keeps leaves
update_by_op-Knows PpcOpcode.lhau inst regs gpr after o agrees keeps leaves form =
    Knows-load_update regs gpr after inst agrees (known_dform_ea regs inst) (dform_address inst gpr)
      (λ ea. known_dform_ea_sound regs gpr inst ea agrees) keeps leaves
update_by_op-Knows PpcOpcode.lwzux inst regs gpr after o agrees keeps leaves form =
    Knows-load_update regs gpr after inst agrees (known_indexed_ea regs inst)
      (indexed_address inst gpr) (λ ea. known_indexed_ea_sound regs gpr inst ea agrees) keeps leaves
update_by_op-Knows PpcOpcode.lbzux inst regs gpr after o agrees keeps leaves form =
    Knows-load_update regs gpr after inst agrees (known_indexed_ea regs inst)
      (indexed_address inst gpr) (λ ea. known_indexed_ea_sound regs gpr inst ea agrees) keeps leaves
update_by_op-Knows PpcOpcode.lhzux inst regs gpr after o agrees keeps leaves form =
    Knows-load_update regs gpr after inst agrees (known_indexed_ea regs inst)
      (indexed_address inst gpr) (λ ea. known_indexed_ea_sound regs gpr inst ea agrees) keeps leaves
update_by_op-Knows PpcOpcode.lhaux inst regs gpr after o agrees keeps leaves form =
    Knows-load_update regs gpr after inst agrees (known_indexed_ea regs inst)
      (indexed_address inst gpr) (λ ea. known_indexed_ea_sound regs gpr inst ea agrees) keeps leaves
update_by_op-Knows PpcOpcode.stwu inst regs gpr after o agrees keeps leaves form =
    Knows-base regs gpr after inst agrees (known_dform_ea regs inst) (dform_address inst gpr)
      (λ ea. known_dform_ea_sound regs gpr inst ea agrees) keeps leaves
update_by_op-Knows PpcOpcode.stbu inst regs gpr after o agrees keeps leaves form =
    Knows-base regs gpr after inst agrees (known_dform_ea regs inst) (dform_address inst gpr)
      (λ ea. known_dform_ea_sound regs gpr inst ea agrees) keeps leaves
update_by_op-Knows PpcOpcode.sthu inst regs gpr after o agrees keeps leaves form =
    Knows-base regs gpr after inst agrees (known_dform_ea regs inst) (dform_address inst gpr)
      (λ ea. known_dform_ea_sound regs gpr inst ea agrees) keeps leaves
update_by_op-Knows PpcOpcode.stwux inst regs gpr after o agrees keeps leaves form =
    Knows-base regs gpr after inst agrees (known_indexed_ea regs inst) (indexed_address inst gpr)
      (λ ea. known_indexed_ea_sound regs gpr inst ea agrees) keeps leaves
update_by_op-Knows PpcOpcode.stbux inst regs gpr after o agrees keeps leaves form =
    Knows-base regs gpr after inst agrees (known_indexed_ea regs inst) (indexed_address inst gpr)
      (λ ea. known_indexed_ea_sound regs gpr inst ea agrees) keeps leaves
update_by_op-Knows PpcOpcode.sthux inst regs gpr after o agrees keeps leaves form =
    Knows-base regs gpr after inst agrees (known_indexed_ea regs inst) (indexed_address inst gpr)
      (λ ea. known_indexed_ea_sound regs gpr inst ea agrees) keeps leaves
update_by_op-Knows PpcOpcode.stfsux inst regs gpr after o agrees keeps leaves form =
    Knows-base regs gpr after inst agrees (known_indexed_ea regs inst) (indexed_address inst gpr)
      (λ ea. known_indexed_ea_sound regs gpr inst ea agrees) keeps leaves
update_by_op-Knows PpcOpcode.stfdux inst regs gpr after o agrees keeps leaves form =
    Knows-base regs gpr after inst agrees (known_indexed_ea regs inst) (indexed_address inst gpr)
      (λ ea. known_indexed_ea_sound regs gpr inst ea agrees) keeps leaves
update_by_op-Knows PpcOpcode.psq_stux inst regs gpr after o agrees keeps leaves form =
    Knows-base regs gpr after inst agrees (known_indexed_ea regs inst) (indexed_address inst gpr)
      (λ ea. known_indexed_ea_sound regs gpr inst ea agrees) keeps leaves
update_by_op-Knows PpcOpcode.lmw inst regs gpr after o agrees keeps leaves form =
    Knows-clear_from (32 - inst.r_d) inst.r_d regs after
      (λ r v out e. keeps r (λ w. ground arith) ∙ agrees r v e)
update_by_op-Knows op inst regs gpr after o agrees keeps leaves form =
    first_of (search (Knows-clear, Knows-same), cc)

-- What is known of the registers stays true of the machine, for every instruction that is in a
-- legal form and not one of those that `update_known_regs` overlooks: after the instruction
-- every register that is still known holds the known value.
pub update_known_regs-Agrees :
    (inst : PpcInst) (regs : Regs) (gpr after : Machine)
    → is_overlooked inst.op ≡ false
    → IsForm inst.op inst
    → Agrees regs gpr
    → Executes inst gpr after
    → Agrees (update_known_regs inst regs) after
unfolding update_known_regs
update_known_regs-Agrees inst regs gpr after o form agrees step =
    Knows→Agrees (update_by_op inst.op inst regs) after (
      update_by_op-Knows inst.op inst regs gpr after o (Agrees→Knows regs gpr agrees) step.keeps
        step.leaves form)
