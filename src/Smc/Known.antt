-- ===== src/Smc/Known.antt =====
-- src/analysis/smc.c: what is known of the 32 general registers, and the effective addresses that
-- it gives. The array `KnownReg regs[32]` is a function of the register's number.
use dol_recomp.Base.{ℕ, ◌+◌, ◌==◌, if◌then◌else◌, Option, none, some, u32, sign_extend}
use dol_recomp.Decoder.Inst.{PpcInst}

-- `none` is `known == 0`: the value beside it is 0 and never read.
abbrev pub Regs : Type 0
Regs = ℕ → Option ℕ

abbrev pub write_reg : Regs → ℕ → Option ℕ → Regs
write_reg regs reg value r = if r == reg then value else regs r

unfoldable pub clear_reg : Regs → ℕ → Regs
clear_reg regs reg = write_reg regs reg none

unfoldable pub set_reg : Regs → ℕ → ℕ → Regs
set_reg regs reg value = write_reg regs reg (some value)

-- The cast `(u32)(s32)inst->simm` of a 16-bit pattern.
unfoldable pub extend_simm : ℕ → ℕ
extend_simm simm = sign_extend simm 16

-- The sum of a base that may be known and an offset that may be known.
infixl 5 ◌>>=◌
abbrev pub ◌>>=◌ : Option ℕ → (ℕ → Option ℕ) → Option ℕ
none >>= k = none
some x >>= k = k x

-- `none` is the return value 0, at which `*ea` is not written.
unfoldable pub known_dform_ea : Regs → PpcInst → Option ℕ
known_dform_ea regs inst =
    if inst.r_a == 0
    then some (extend_simm inst.simm)
    else regs inst.r_a >>= λ base. some (u32 (base + extend_simm inst.simm))

unfoldable pub known_indexed_ea : Regs → PpcInst → Option ℕ
known_indexed_ea regs inst = do
  base ← (if inst.r_a == 0 then some 0 else regs inst.r_a)
  index ← regs inst.r_b
  some (u32 (base + index))
