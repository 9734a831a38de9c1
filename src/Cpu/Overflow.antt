-- ===== src/Cpu/Overflow.antt =====
-- src/cpu/cpu.c: `ppc_add_overflowed` and `ppc_trap_condition` against signed arithmetic.
use dol_recomp.Base.{
  ℕ, zero, suc, ◌+◌, ◌/◌, ◌^◌, ◌≤◌, ◌<◌, ◌==◌, u32, ◌≡◌, ◌≢◌, ◌↔◌, ◌⊎◌, refl, ◌∙◌, true, not,
  bit_and, bit_xor, arith,
}
use dol_recomp.Base.Shifts.{bit_and_shr, bit_xor_shr}
use dol_recomp.Cpu.Operations.{ppc_add_overflowed}

-- The signed value of a pattern of 32 bits, plus 2 ^ 31.
abbrev pub signed : ℕ → ℕ
signed a = u32 (a + 2 ^ 31)

-- On one bit each.
bit_cases :
    (x y z : ℕ)
    → x < 2
    → y < 2
    → z < 2
    → ((bit_and (bit_xor x z) (bit_xor y z)) ≢ 0) ↔ ((x ≡ y) × (x ≢ z))
bit_cases zero zero zero p q r = ((λ h. absurd (h refl)), λ h e. h.1 refl)
bit_cases zero zero (suc zero) p q r =
    ((λ h. (refl, λ e. absurd (omega (arith, e)))), λ h e. absurd (omega (arith, e)))
bit_cases zero (suc zero) zero p q r = ((λ h. absurd (h refl)), λ h e. h.1 refl)
bit_cases zero (suc zero) (suc zero) p q r =
    ((λ h. absurd (h refl)), λ h e. absurd (omega (arith, h.0)))
bit_cases (suc zero) zero zero p q r = ((λ h. absurd (h refl)), λ h e. absurd (omega (arith, h.0)))
bit_cases (suc zero) zero (suc zero) p q r = ((λ h. absurd (h refl)), λ h e. h.1 refl)
bit_cases (suc zero) (suc zero) zero p q r =
    ((λ h. (refl, λ e. absurd (omega (arith, e)))), λ h e. absurd (omega (arith, e)))
bit_cases (suc zero) (suc zero) (suc zero) p q r = ((λ h. absurd (h refl)), λ h e. h.1 refl)
bit_cases (suc (suc x)) y z p q r = absurd (omega arith)
bit_cases zero (suc (suc y)) z p q r = absurd (omega arith)
bit_cases (suc zero) (suc (suc y)) z p q r = absurd (omega arith)
bit_cases zero zero (suc (suc z)) p q r = absurd (omega arith)
bit_cases zero (suc zero) (suc (suc z)) p q r = absurd (omega arith)
bit_cases (suc zero) zero (suc (suc z)) p q r = absurd (omega arith)
bit_cases (suc zero) (suc zero) (suc (suc z)) p q r = absurd (omega arith)

nonzero_iff : (n : ℕ) → (not (n == 0) ≡ true) ↔ (n ≢ 0)
nonzero_iff n = ground arith

fits :
    (a b : ℕ)
    → a < 2 ^ 32
    → b < 2 ^ 32
    → a / 2 ^ 31 ≡ b / 2 ^ 31
    → a / 2 ^ 31 ≢ u32 (a + b) / 2 ^ 31
    → (signed a + signed b < 2 ^ 31) ⊎ (2 ^ 32 + 2 ^ 31 ≤ signed a + signed b)
fits a b p q same other = ground arith

overflows :
    (a b : ℕ)
    → a < 2 ^ 32
    → b < 2 ^ 32
    → (signed a + signed b < 2 ^ 31) ⊎ (2 ^ 32 + 2 ^ 31 ≤ signed a + signed b)
    → (a / 2 ^ 31 ≡ b / 2 ^ 31) × (a / 2 ^ 31 ≢ u32 (a + b) / 2 ^ 31)
overflows a b p q h = ground arith

-- The test is true exactly when the sum of two numbers of 32 bits, taken as signed, does not fit 32 bits.
pub ppc_add_overflowed_iff :
    (a b : ℕ)
    → a < 2 ^ 32
    → b < 2 ^ 32
    → (ppc_add_overflowed a b (u32 (a + b)) ≡ true)
      ↔ ((signed a + signed b < 2 ^ 31) ⊎ (2 ^ 32 + 2 ^ 31 ≤ signed a + signed b))
unfolding ppc_add_overflowed
ppc_add_overflowed_iff a b p q =
    let r = u32 (a + b) in
    let e = bit_and_shr 31 (bit_xor a r) (bit_xor b r) in
    let x = bit_xor_shr 31 a r in
    let y = bit_xor_shr 31 b r in
    let bits =
      bit_cases (a / 2 ^ 31) (b / 2 ^ 31) (r / 2 ^ 31) (omega arith) (omega arith) (omega arith) in
    let top : bit_and (bit_xor a r) (bit_xor b r) / 2 ^ 31
        ≡ bit_and (bit_xor (a / 2 ^ 31) (r / 2 ^ 31)) (bit_xor (b / 2 ^ 31) (r / 2 ^ 31)) =
      e ∙ rw x (rw y refl) in
    let test =
      nonzero_iff
        (bit_and (bit_xor (a / 2 ^ 31) (r / 2 ^ 31)) (bit_xor (b / 2 ^ 31) (r / 2 ^ 31))) in
    rw top (
      (λ h. let (same, other) = bits.0 (test.0 h) in fits a b p q same other),
      λ h. test.1 (bits.1 (overflows a b p q h)),
    )
