-- ===== src/Base/Word.antt =====
-- Machine words as native numbers: casts and wrapping operations keep their `%`.
-- `sign_extend` is that of src/common/types.h.
use Prim.Native.Nat.{ℕ, ◌+◌, ◌-◌, ◌/◌, ◌%◌, ◌^◌, bit_xor}
use mathlib.Core.Bool.{Bool, not}
use dol_recomp.Base.Tests.{◌==◌}

abbrev pub u8 : ℕ → ℕ
u8 n = n % 2 ^ 8

abbrev pub u16 : ℕ → ℕ
u16 n = n % 2 ^ 16

abbrev pub u32 : ℕ → ℕ
u32 n = n % 2 ^ 32

abbrev pub shr : ℕ → ℕ → ℕ
shr x k = x / 2 ^ k

-- `x & mask` for a mask of the `k` low bits: the remainder.
abbrev pub low_bits : ℕ → ℕ → ℕ
low_bits x k = x % 2 ^ k

-- A number stored into a `bool`.
abbrev pub to_bool : ℕ → Bool
to_bool n = not (n == 0)

-- The pattern of the `s32` that the C function returns, with the sign bit at `bits - 1`.
unfoldable pub sign_extend : ℕ → ℕ → ℕ
sign_extend value bits = let mask = u32 (2 ^ (bits - 1)) in u32 (bit_xor value mask + 2 ^ 32 - mask)
