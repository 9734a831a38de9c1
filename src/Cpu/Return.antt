-- ===== src/Cpu/Return.antt =====
-- src/cpu/cpu.c: the return from an exception.
use dol_recomp.Base.{
  ℕ, ◌-◌, ◌%◌, ◌≡◌, refl, ap, ◌∙◌, inl, inr, Bool, true, false, if◌then◌else◌, Bool-cases, bit_and,
  bit_or, arith,
}
use dol_recomp.Base.Bits.{bit_and_mask, bit_or-zero}
use dol_recomp.Base.Masks.{bit_and_assoc, bit_and-bit_or, bit_or-masks}
use dol_recomp.Cpu.State.{CpuState}
use dol_recomp.Cpu.Exceptions.{
  has_bit, bit_not, exception_msr, exception_clear, ppc_take_exception, ppc_rfi, ppc_msr_pr,
  ppc_msr_le, ppc_msr_me, ppc_msr_ile, ppc_msr_rfi_mask, ppc_msr_pow, ppc_exc_machine_check,
  ppc_program_fp, ppc_program_illegal, ppc_program_priv, ppc_program_trap, ppc_bit,
}

bit_and-none : (x : ℕ) → bit_and x 0 ≡ 0
bit_and-none x = omega (arith, bit_and_mask 0 x)

-- A mask of a mask.
masked : (x a b c : ℕ) → bit_and a b ≡ c → bit_and (bit_and x a) b ≡ bit_and x c
masked x a b c e = bit_and_assoc x a b ∙ ap (λ (t : ℕ). bit_and x t) e

-- The value that `exception_msr` gives, with the mask and the bit that it sets.
abbrev cleared : (msr clear : ℕ) → Bool → ℕ
cleared msr clear little =
    if little then bit_or (bit_and msr (bit_not clear)) ppc_msr_le else bit_and msr (bit_not clear)

exception_msr-cases :
    (msr exception : ℕ) (P : ℕ → Type 0)
    → ((little : Bool) → P (cleared msr exception_clear little))
    → ((little : Bool) → P (cleared msr (bit_or exception_clear ppc_msr_me) little))
    → P (exception_msr msr exception)
unfolding exception_msr
exception_msr-cases msr exception P h k =
    elim (Bool-cases (has_bit exception ppc_exc_machine_check)) [
      | inl e ↦ rw e (k (has_bit msr ppc_msr_ile))
      | inr e ↦ rw e (h (has_bit msr ppc_msr_ile))
    ]

cleared-user :
    (msr clear : ℕ) (little : Bool)
    → bit_and (bit_not clear) ppc_msr_pr ≡ 0
    → bit_and (cleared msr clear little) ppc_msr_pr ≡ 0
cleared-user msr clear false e = masked msr (bit_not clear) ppc_msr_pr 0 e ∙ bit_and-none msr
cleared-user msr clear true e =
    bit_and-bit_or (bit_and msr (bit_not clear)) ppc_msr_le ppc_msr_pr
    ∙ (bit_or-zero (bit_and (bit_and msr (bit_not clear)) ppc_msr_pr)
        ∙ (masked msr (bit_not clear) ppc_msr_pr 0 e ∙ bit_and-none msr))

-- What is left outside the bits that the return restores.
cleared-outside :
    (msr clear : ℕ) (little : Bool)
    → bit_and (cleared msr clear little) (bit_not ppc_msr_rfi_mask)
      ≡ bit_and msr (bit_and (bit_not clear) (bit_not ppc_msr_rfi_mask))
cleared-outside msr clear false = bit_and_assoc msr (bit_not clear) (bit_not ppc_msr_rfi_mask)
cleared-outside msr clear true =
    bit_and-bit_or (bit_and msr (bit_not clear)) ppc_msr_le (bit_not ppc_msr_rfi_mask)
    ∙ (bit_or-zero (bit_and (bit_and msr (bit_not clear)) (bit_not ppc_msr_rfi_mask))
        ∙ bit_and_assoc msr (bit_not clear) (bit_not ppc_msr_rfi_mask))

-- The value that the return gives to MSR.
returned : ℕ → ℕ → ℕ
returned now srr1 =
    bit_and (bit_or (bit_and now (bit_not ppc_msr_rfi_mask)) (bit_and srr1 ppc_msr_rfi_mask))
      (bit_not ppc_msr_pow)

-- What SRR1 keeps of MSR is left by the information that an exception adds.
kept_part :
    (msr info : ℕ)
    → bit_and info ppc_msr_rfi_mask ≡ 0
    → bit_and (bit_or (bit_and msr ppc_msr_rfi_mask) info) ppc_msr_rfi_mask
      ≡ bit_and msr ppc_msr_rfi_mask
kept_part msr info e =
    bit_and-bit_or (bit_and msr ppc_msr_rfi_mask) info ppc_msr_rfi_mask
    ∙ ap (λ (t : ℕ). bit_or (bit_and (bit_and msr ppc_msr_rfi_mask) ppc_msr_rfi_mask) t) e
    ∙ bit_or-zero (bit_and (bit_and msr ppc_msr_rfi_mask) ppc_msr_rfi_mask)
    ∙ masked msr ppc_msr_rfi_mask ppc_msr_rfi_mask ppc_msr_rfi_mask refl

returned-cleared :
    (msr clear info : ℕ) (little : Bool)
    → bit_and info ppc_msr_rfi_mask ≡ 0
    → bit_and
        (bit_or (bit_and (bit_not clear) (bit_not ppc_msr_rfi_mask)) ppc_msr_rfi_mask)
        (bit_not ppc_msr_pow)
      ≡ bit_not ppc_msr_pow
    → returned (cleared msr clear little) (bit_or (bit_and msr ppc_msr_rfi_mask) info)
      ≡ bit_and msr (bit_not ppc_msr_pow)
unfolding returned
returned-cleared msr clear info little none_kept e = rw (cleared-outside msr clear little) (
    rw (kept_part msr info none_kept) (
      rw (bit_or-masks msr (bit_and (bit_not clear) (bit_not ppc_msr_rfi_mask)) ppc_msr_rfi_mask)
        (masked msr _ (bit_not ppc_msr_pow) (bit_not ppc_msr_pow) e)))

pub supervisor_after :
    (msr exception : ℕ) → has_bit (exception_msr msr exception) ppc_msr_pr ≡ false
supervisor_after msr exception =
    exception_msr-cases msr exception (λ m. has_bit m ppc_msr_pr ≡ false)
      (λ little. rw (cleared-user msr exception_clear little refl) refl)
      (λ little. rw (cleared-user msr (bit_or exception_clear ppc_msr_me) little refl) refl)

msr_after :
    (msr exception info : ℕ)
    → bit_and info ppc_msr_rfi_mask ≡ 0
    → returned (exception_msr msr exception) (bit_or (bit_and msr ppc_msr_rfi_mask) info)
      ≡ bit_and msr (bit_not ppc_msr_pow)
msr_after msr exception info none_kept =
    exception_msr-cases msr exception
      (λ m.
        returned m (bit_or (bit_and msr ppc_msr_rfi_mask) info) ≡ bit_and msr (bit_not ppc_msr_pow))
      (λ little. returned-cleared msr exception_clear info little none_kept refl)
      (λ little.
        returned-cleared msr (bit_or exception_clear ppc_msr_me) info little none_kept refl)

-- A return straight after an exception restores MSR, but for its bit POW, and goes to the word of
-- the address that was saved; of the rest only SRR0, SRR1 and the record of exceptions have
-- changed. The information that the exception puts into SRR1 has none of the bits of MSR that the
-- return restores.
pub ppc_rfi-ppc_take_exception :
    (cpu : CpuState) (exception vector srr0 info cia : ℕ)
    → bit_and info ppc_msr_rfi_mask ≡ 0
    → ppc_rfi (ppc_take_exception cpu exception vector srr0 info) cia ≡ record cpu {
      srr0 = srr0;
      srr1 = bit_or (bit_and cpu.msr ppc_msr_rfi_mask) info;
      exception = bit_or cpu.exception exception;
      msr = bit_and cpu.msr (bit_not ppc_msr_pow);
      pc = srr0 - srr0 % 4;
    }
unfolding ppc_rfi ppc_take_exception returned
ppc_rfi-ppc_take_exception cpu exception vector srr0 info cia none_kept =
    rw (supervisor_after cpu.msr exception) (
      ap
        (λ (m : ℕ). record cpu {
          srr0 = srr0;
          srr1 = bit_or (bit_and cpu.msr ppc_msr_rfi_mask) info;
          exception = bit_or cpu.exception exception;
          msr = m;
          pc = srr0 - srr0 % 4;
        })
        (msr_after cpu.msr exception info none_kept))

-- None of the information that src/cpu/cpu.c passes has such a bit: the four causes of a program
-- exception, bit 10 of the machine check of `dcbz_l`, and 0 for the other exceptions.
no_kept_bits :
    (bit_and ppc_program_fp ppc_msr_rfi_mask ≡ 0)
    × (bit_and ppc_program_illegal ppc_msr_rfi_mask ≡ 0)
    × (bit_and ppc_program_priv ppc_msr_rfi_mask ≡ 0)
    × (bit_and ppc_program_trap ppc_msr_rfi_mask ≡ 0)
    × (bit_and (ppc_bit 10) ppc_msr_rfi_mask ≡ 0)
    × (bit_and 0 ppc_msr_rfi_mask ≡ 0)
no_kept_bits = (refl, refl, refl, refl, refl, refl)
