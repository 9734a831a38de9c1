-- ===== src/Cpu/User.antt =====
-- src/cpu/cpu.c: what user code can do with the operations on the registers of the system.
use dol_recomp.Base.{ℕ, ◌≡◌, ◌⊎◌, true, false}
use dol_recomp.Cpu.State.{CpuState, Callbacks}
use dol_recomp.Cpu.Exceptions.{has_bit, ppc_msr_pr, ppc_system_call_exception, ppc_rfi}
use dol_recomp.Cpu.Registers.{ppc_mfspr, ppc_mtspr, ppc_mftb}
use dol_recomp.Cpu.Operations.{ppc_tlbie, ppc_dcbz_l, ppc_cache_control}

-- An operation on the system's registers, with whatever operands.
pub data SystemStep (callbacks : Callbacks) : CpuState → CpuState → Type 0 where
  mtspr :
      {cpu : CpuState} (spr value cia : ℕ)
      → SystemStep callbacks cpu (ppc_mtspr callbacks cpu spr value cia)
  mfspr :
      {cpu : CpuState} (spr cia : ℕ) → SystemStep callbacks cpu (ppc_mfspr callbacks cpu spr cia).0
  mftb : {cpu : CpuState} (tbr cia : ℕ) → SystemStep callbacks cpu (ppc_mftb cpu tbr cia).0
  rfi : {cpu : CpuState} (cia : ℕ) → SystemStep callbacks cpu (ppc_rfi cpu cia)
  sc : {cpu : CpuState} (cia : ℕ) → SystemStep callbacks cpu (ppc_system_call_exception cpu cia)
  tlbie : {cpu : CpuState} (ea cia : ℕ) → SystemStep callbacks cpu (ppc_tlbie cpu ea cia)
  dcbi :
      {cpu : CpuState} (ea cia : ℕ)
      → SystemStep callbacks cpu (ppc_cache_control callbacks cpu 2 ea cia)
  dcbz_l :
      {cpu : CpuState} (ea cia : ℕ) → SystemStep callbacks cpu (ppc_dcbz_l callbacks cpu ea cia)

-- Such operations one after the other, each begun in user state.
pub data UserRun (callbacks : Callbacks) : CpuState → CpuState → Type 0 where
  stop : {cpu : CpuState} → UserRun callbacks cpu cpu
  step :
      {cpu mid after : CpuState}
      → has_bit cpu.msr ppc_msr_pr ≡ true
      → SystemStep callbacks cpu mid
      → UserRun callbacks mid after
      → UserRun callbacks cpu after

-- A state without the registers of user code, XER, LR, CTR and the program counter, and those that
-- an exception sets.
abbrev pub outside : CpuState → CpuState
outside cpu = record cpu {
  xer = 0;
  lr = 0;
  ctr = 0;
  pc = 0;
  msr = 0;
  srr0 = 0;
  srr1 = 0;
  exception = 0;
  program_exception = 0;
}

-- The addresses of the handlers of a program exception and of a system call.
abbrev pub AtHandler : ℕ → Type 0
AtHandler pc = (pc ≡ 0x700) ⊎ (pc ≡ 0xc00) ⊎ (pc ≡ 0xfff00700) ⊎ (pc ≡ 0xfff00c00)

-- Nothing else is changed, and MSR and the saved registers are either as they were or those of an
-- exception, which is in supervisor state at a handler.
abbrev pub IsConfined : CpuState → CpuState → Type 0
IsConfined cpu after =
    (outside after ≡ outside cpu)
    × (((after.msr ≡ cpu.msr) × (after.srr0 ≡ cpu.srr0) × (after.srr1 ≡ cpu.srr1))
        ⊎ ((has_bit after.msr ppc_msr_pr ≡ false) × AtHandler after.pc))
