-- ===== src/Smc/Overlooked.antt =====
-- What `update_known_regs` of src/analysis/smc.c leaves out: the floating-point accesses that
-- write their base back in D-form.
use dol_recomp.Base.{ℕ, ◌^◌, ◌<◌, ◌≡◌, ◌≢◌, Bool, true, false, some, refl, arith}
use dol_recomp.Decoder.Opcode.{PpcOpcode}
use dol_recomp.Decoder.Inst.{PpcInst}
use dol_recomp.Smc.Known.{Regs, extend_simm}
use dol_recomp.Smc.Update.{update_by_op, update_known_regs}
use dol_recomp.Smc.Machine.{Machine, Executes, Leaves, dform_address}
use dol_recomp.Smc.Sound.{Agrees, Agrees→Knows, extend_simm-lt}

unfoldable pub is_float_update : PpcOpcode → Bool
is_float_update PpcOpcode.lfsu = true
is_float_update PpcOpcode.lfdu = true
is_float_update PpcOpcode.stfsu = true
is_float_update PpcOpcode.stfdu = true
is_float_update PpcOpcode.psq_lu = true
is_float_update PpcOpcode.psq_stu = true
is_float_update _ = false

float_update-same :
    (op : PpcOpcode) (inst : PpcInst) (regs : Regs)
    → is_float_update op ≡ true
    → update_by_op op inst regs ≡ regs
unfolding update_by_op is_float_update
float_update-same PpcOpcode.lfsu inst regs h = refl
float_update-same op inst regs h = first_of (search refl, cc)

float_update-Leaves :
    (op : PpcOpcode) (inst : PpcInst) (gpr after : Machine)
    → is_float_update op ≡ true
    → Leaves op inst gpr after
    → after inst.r_a ≡ dform_address inst gpr
unfolding is_float_update
float_update-Leaves PpcOpcode.lfsu inst gpr after h leaves = leaves
float_update-Leaves op inst gpr after h leaves = first_of (assumption, cc)

-- A known base register is wrong after a floating-point access with update and a displacement
-- other than 0: the analysis keeps the value from before the instruction.
pub float_update_stale :
    (inst : PpcInst) (regs : Regs) (gpr after : Machine) (v : ℕ)
    → is_float_update inst.op ≡ true
    → inst.r_a ≢ 0
    → extend_simm inst.simm ≢ 0
    → gpr inst.r_a < 2 ^ 32
    → regs inst.r_a ≡ some v
    → Agrees regs gpr
    → Executes inst gpr after
    → ¬ Agrees (update_known_regs inst regs) after
unfolding update_known_regs
float_update_stale inst regs gpr after v h base step_size fits known agrees step claims =
    let before : gpr inst.r_a ≡ v = Agrees→Knows regs gpr agrees inst.r_a v known in
    let same : update_by_op inst.op inst regs ≡ regs = float_update-same inst.op inst regs h in
    let stale : after inst.r_a ≡ v = Agrees→Knows regs after (rw same at claims) inst.r_a v known in
    ground (
      arith,
      before,
      stale,
      float_update-Leaves inst.op inst gpr after h step.leaves,
      extend_simm-lt inst.simm,
    )
