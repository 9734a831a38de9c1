-- ===== src/Cpu/State.antt =====
-- src/cpu/cpu.h: the state of the processor. A floating-point register is kept as its 64 bits, a signed
-- number as its pattern, an array as a list.
use dol_recomp.Base.{ℕ, Bool, List, Option}

-- The struct CPUState, without its callbacks, which are an argument of the operations. `journal` holds the
-- calls of `g_mem_write_journal`, offset and size, the newest first.
pub record CpuState : Type 0 where
  pub gpr : List ℕ
  pub fpr : List ℕ
  pub ps1 : List ℕ
  pub pc : ℕ
  pub lr : ℕ
  pub ctr : ℕ
  pub cr : ℕ
  pub xer : ℕ
  pub fpscr : ℕ
  pub msr : ℕ
  pub srr0 : ℕ
  pub srr1 : ℕ
  pub dar : ℕ
  pub dsisr : ℕ
  pub ear : ℕ
  pub hid2 : ℕ
  pub timebase : ℕ
  pub sr : List ℕ
  pub gqr : List ℕ
  pub exception : ℕ
  pub program_exception : ℕ
  pub tlb_last_vps : ℕ
  pub tlb_last_index : ℕ
  pub tlb_invalidate_count : ℕ
  pub external_addr : ℕ
  pub external_value : ℕ
  pub external_rid : ℕ
  pub external_read_count : ℕ
  pub external_write_count : ℕ
  pub reserve_addr : ℕ
  pub reserve_valid : Bool
  pub locked_cache_tag : List ℕ
  pub locked_cache_valid : List Bool
  pub ram : List ℕ
  pub ram_size : ℕ
  pub downcount : ℕ
  pub cycle_budget : ℕ
  pub mem2 : Option (List ℕ)
  pub mem2_size : ℕ
  pub journal : List (ℕ × ℕ)

-- The callbacks that a host installs, or null: each may change the state. `journaled` says whether
-- `g_mem_write_journal` is set.
pub record Callbacks : Type 0 where
  pub external_read : Option (CpuState → ℕ → ℕ → CpuState × ℕ)
  pub external_write : Option (CpuState → ℕ → ℕ → ℕ → CpuState)
  pub external_read32 : Option (CpuState → ℕ → ℕ → CpuState × ℕ)
  pub external_write32 : Option (CpuState → ℕ → ℕ → ℕ → CpuState)
  pub instruction_fallback : Option (CpuState → ℕ → ℕ → CpuState)
  pub host_call : Option (CpuState → ℕ → CpuState × Bool)
  pub spr_read : Option (CpuState → ℕ → ℕ → CpuState × ℕ)
  pub spr_write : Option (CpuState → ℕ → ℕ → ℕ → CpuState)
  pub cache_control : Option (CpuState → ℕ → ℕ → ℕ → CpuState)
  pub journaled : Bool
