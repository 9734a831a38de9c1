-- ===== src/Cpu/Exceptions.antt =====
-- src/cpu/cpu.c: exceptions, and the registers that only the system reads and writes.
use dol_recomp.Base.{
  ℕ, ◌+◌, ◌-◌, ◌^◌, ◌==◌, u32, low_bits, bit_and, bit_or, Bool, true, false, not, if◌then◌else◌,
}
use dol_recomp.Cpu.State.{CpuState}

abbrev pub ppc_exc_program : ℕ
ppc_exc_program = 0x1

abbrev pub ppc_exc_dsi : ℕ
ppc_exc_dsi = 0x2

abbrev pub ppc_exc_alignment : ℕ
ppc_exc_alignment = 0x4

abbrev pub ppc_exc_system_call : ℕ
ppc_exc_system_call = 0x8

abbrev pub ppc_exc_machine_check : ℕ
ppc_exc_machine_check = 0x10

abbrev pub ppc_exc_fp_unavailable : ℕ
ppc_exc_fp_unavailable = 0x20

abbrev pub ppc_program_fp : ℕ
ppc_program_fp = 0x100000

abbrev pub ppc_program_illegal : ℕ
ppc_program_illegal = 0x80000

abbrev pub ppc_program_priv : ℕ
ppc_program_priv = 0x40000

abbrev pub ppc_program_trap : ℕ
ppc_program_trap = 0x20000

abbrev pub ppc_dsi_ear_disabled : ℕ
ppc_dsi_ear_disabled = 0x100000

abbrev pub ppc_vector_machine_check : ℕ
ppc_vector_machine_check = 0x200

abbrev pub ppc_vector_dsi : ℕ
ppc_vector_dsi = 0x300

abbrev pub ppc_vector_alignment : ℕ
ppc_vector_alignment = 0x600

abbrev pub ppc_vector_program : ℕ
ppc_vector_program = 0x700

abbrev pub ppc_vector_fp_unavailable : ℕ
ppc_vector_fp_unavailable = 0x800

abbrev pub ppc_vector_system_call : ℕ
ppc_vector_system_call = 0xc00

abbrev pub ppc_hid2_lsqe : ℕ
ppc_hid2_lsqe = 0x80000000

abbrev pub ppc_hid2_pse : ℕ
ppc_hid2_pse = 0x20000000

abbrev pub ppc_hid2_lce : ℕ
ppc_hid2_lce = 0x10000000

abbrev pub ppc_hid2_dcherr : ℕ
ppc_hid2_dcherr = 0x800000

abbrev pub ppc_hid2_dchee : ℕ
ppc_hid2_dchee = 0x80000

abbrev pub ppc_gekko_pvr : ℕ
ppc_gekko_pvr = 0x83214

-- `PPC_BIT(n)`: bit 0 is the highest.
abbrev pub ppc_bit : ℕ → ℕ
ppc_bit n = 2 ^ (31 - n)

abbrev pub ppc_msr_pow : ℕ
ppc_msr_pow = ppc_bit 13

abbrev pub ppc_msr_ile : ℕ
ppc_msr_ile = ppc_bit 15

abbrev pub ppc_msr_ee : ℕ
ppc_msr_ee = ppc_bit 16

abbrev pub ppc_msr_pr : ℕ
ppc_msr_pr = ppc_bit 17

abbrev pub ppc_msr_fp : ℕ
ppc_msr_fp = ppc_bit 18

abbrev pub ppc_msr_me : ℕ
ppc_msr_me = ppc_bit 19

abbrev pub ppc_msr_fe0 : ℕ
ppc_msr_fe0 = ppc_bit 20

abbrev pub ppc_msr_se : ℕ
ppc_msr_se = ppc_bit 21

abbrev pub ppc_msr_be : ℕ
ppc_msr_be = ppc_bit 22

abbrev pub ppc_msr_fe1 : ℕ
ppc_msr_fe1 = ppc_bit 23

abbrev pub ppc_msr_ip : ℕ
ppc_msr_ip = ppc_bit 25

abbrev pub ppc_msr_ir : ℕ
ppc_msr_ir = ppc_bit 26

abbrev pub ppc_msr_dr : ℕ
ppc_msr_dr = ppc_bit 27

abbrev pub ppc_msr_pm : ℕ
ppc_msr_pm = ppc_bit 29

abbrev pub ppc_msr_ri : ℕ
ppc_msr_ri = ppc_bit 30

abbrev pub ppc_msr_le : ℕ
ppc_msr_le = ppc_bit 31

abbrev pub ppc_msr_rfi_mask : ℕ
ppc_msr_rfi_mask = 0x87c0ffff

abbrev pub ppc_ear_enable : ℕ
ppc_ear_enable = 0x80000000

abbrev pub ppc_srr1_machine_check_dcbzl : ℕ
ppc_srr1_machine_check_dcbzl = ppc_bit 10

-- `~mask` of 32 bits.
abbrev pub bit_not : ℕ → ℕ
bit_not mask = 0xffffffff - mask

-- `x & mask` as a condition.
abbrev pub has_bit : ℕ → ℕ → Bool
has_bit x mask = not (bit_and x mask == 0)

unfoldable pub exception_vector_address : ℕ → ℕ → ℕ
exception_vector_address msr vector =
    u32 ((if has_bit msr ppc_msr_ip then 0xfff00000 else 0) + vector)

-- The bits that every exception clears.
abbrev pub exception_clear : ℕ
exception_clear =
    ppc_msr_pow + ppc_msr_ee + ppc_msr_pr + ppc_msr_fp + ppc_msr_fe0 + ppc_msr_se + ppc_msr_be
    + ppc_msr_fe1 + ppc_msr_ir + ppc_msr_dr + ppc_msr_pm + ppc_msr_ri + ppc_msr_le

unfoldable pub exception_msr : ℕ → ℕ → ℕ
exception_msr old_msr exception =
    let clear =
      if has_bit exception ppc_exc_machine_check
      then bit_or exception_clear ppc_msr_me
      else exception_clear in
    let next = bit_and old_msr (bit_not clear) in
    if has_bit old_msr ppc_msr_ile then bit_or next ppc_msr_le else next

unfoldable pub ppc_take_exception : CpuState → ℕ → ℕ → ℕ → ℕ → CpuState
ppc_take_exception cpu exception vector srr0 srr1_info =
    let msr = exception_msr cpu.msr exception in
    record cpu {
      srr0 = srr0;
      srr1 = bit_or (bit_and cpu.msr ppc_msr_rfi_mask) srr1_info;
      exception = bit_or cpu.exception exception;
      msr = msr;
      pc = exception_vector_address msr vector;
    }

unfoldable pub ppc_program_exception : CpuState → ℕ → ℕ → CpuState
ppc_program_exception cpu cause cia =
    ppc_take_exception (record cpu { program_exception = bit_or cpu.program_exception cause })
      ppc_exc_program ppc_vector_program cia cause

unfoldable pub ppc_fp_available : CpuState → ℕ → CpuState × Bool
ppc_fp_available cpu cia =
    if has_bit cpu.msr ppc_msr_fp
    then (cpu, true)
    else (ppc_take_exception cpu ppc_exc_fp_unavailable ppc_vector_fp_unavailable cia 0, false)

unfoldable pub ppc_system_call_exception : CpuState → ℕ → CpuState
ppc_system_call_exception cpu cia =
    ppc_take_exception cpu ppc_exc_system_call ppc_vector_system_call (u32 (cia + 4)) 0

unfoldable pub ppc_dsi_exception : CpuState → ℕ → ℕ → ℕ → CpuState
ppc_dsi_exception cpu ea cia dsisr =
    ppc_take_exception (record cpu { dar = ea; dsisr = dsisr }) ppc_exc_dsi ppc_vector_dsi cia 0

unfoldable pub ppc_alignment_exception : CpuState → ℕ → ℕ → CpuState
ppc_alignment_exception cpu ea cia =
    ppc_take_exception (record cpu { dar = ea }) ppc_exc_alignment ppc_vector_alignment cia 0

unfoldable pub ppc_rfi : CpuState → ℕ → CpuState
ppc_rfi cpu cia =
    if has_bit cpu.msr ppc_msr_pr
    then ppc_program_exception cpu ppc_program_priv cia
    else (let msr =
          bit_or (bit_and cpu.msr (bit_not ppc_msr_rfi_mask)) (bit_and cpu.srr1 ppc_msr_rfi_mask) in
        record cpu { msr = bit_and msr (bit_not ppc_msr_pow); pc = cpu.srr0 - low_bits cpu.srr0 2 })
