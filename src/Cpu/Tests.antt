-- ===== src/Cpu/Tests.antt =====
-- A processor with 64 bytes of each memory, in supervisor state, with a reservation, and no host.
use dol_recomp.Base.{
  ℕ, ◌+◌, ◌-◌, ◌%◌, ◌^◌, ◌≤◌, ◌<◌, ◌≡◌, ◌≢◌, ◌↔◌, ◌⊎◌, refl, true, false, List, [], ◌∷◌, none, some,
  some-injective, length, replicate, set, u8, u16, u32, bit_and, bit_or, write_be32, arith, ap, sym,
}
use dol_recomp.Cpu.State.{CpuState, Callbacks}
use dol_recomp.Cpu.Memory.{
  Region, Place, in_window, resolve_addr, resolve_access, resolve_mem2, clear_matching_reservation,
  bytes_of, with_bytes, note_write, store_at, mem_read8, mem_write8, mem_read16, mem_write16,
  mem_read32, mem_write32, mem_read64, mem_write64, read_external, gc_ram_base, gc_ram_uncached,
}
use dol_recomp.Cpu.Exceptions.{bit_not, ppc_msr_pow, ppc_msr_rfi_mask, ppc_take_exception, ppc_rfi}
use dol_recomp.Cpu.Operations.{
  ppc_add_overflowed, ppc_trap_condition, ppc_stwcx_op, ppc_lswx, load_string, load_string_byte,
  wrapped_register_range_contains, register_range_from,
}
use dol_recomp.Cpu.Bounds.{IsSized}
use dol_recomp.Cpu.ReadBack.{mem_read-mem_write}
use dol_recomp.Cpu.Reserve.{line_of, mem_write32-reserve, resolve_addr-uncached}
use dol_recomp.Cpu.Return.{ppc_rfi-ppc_take_exception}
use dol_recomp.Cpu.Own.{own_sprs, Each, ReadsBack, ppc_mfspr-ppc_mtspr}
use dol_recomp.Cpu.Overflow.{signed, ppc_add_overflowed_iff}

abbrev small_cpu : CpuState
small_cpu = record {
  gpr = replicate 32 0;
  fpr = replicate 32 0;
  ps1 = replicate 32 0;
  pc = 0;
  lr = 0;
  ctr = 0;
  cr = 0;
  xer = 0;
  fpscr = 0;
  msr = 0x9032;
  srr0 = 0;
  srr1 = 0;
  dar = 0;
  dsisr = 0;
  ear = 0;
  hid2 = 0;
  timebase = 0;
  sr = replicate 16 0;
  gqr = replicate 8 0;
  exception = 0;
  program_exception = 0;
  tlb_last_vps = 0;
  tlb_last_index = 0;
  tlb_invalidate_count = 0;
  external_addr = 0;
  external_value = 0;
  external_rid = 0;
  external_read_count = 0;
  external_write_count = 0;
  reserve_addr = 0x80000008;
  reserve_valid = true;
  locked_cache_tag = replicate 512 0;
  locked_cache_valid = replicate 512 false;
  ram = replicate 64 0;
  ram_size = 64;
  downcount = 0;
  cycle_budget = 0;
  mem2 = some (replicate 64 0);
  mem2_size = 64;
  journal = [];
}

abbrev user_cpu : CpuState
user_cpu = record small_cpu { msr = 0xd032 }

abbrev no_host : Callbacks
no_host = record {
  external_read = none;
  external_write = none;
  external_read32 = none;
  external_write32 = none;
  instruction_fallback = none;
  host_call = none;
  spr_read = none;
  spr_write = none;
  cache_control = none;
  journaled = true;
}

abbrev eighth : Place
eighth = record { region = Region.main; offset = 8; avail = 56 }

small_cpu-IsSized : IsSized small_cpu
small_cpu-IsSized = record {
  main_length = refl;
  second_length =
      λ bytes e. sym (ap (λ (b : List ℕ). length b) (some-injective (replicate 64 0) bytes e));
}

cached_place : resolve_addr small_cpu 0x80000008 ≡ some eighth
unfolding resolve_addr in_window
cached_place = refl

uncached_place : resolve_addr small_cpu 0xc0000008 ≡ some eighth
unfolding resolve_addr in_window
uncached_place = refl

-- An address without memory has no place.
unmapped_place : resolve_addr small_cpu 0x80000040 ≡ none
unfolding resolve_addr resolve_mem2 in_window
unmapped_place = refl

-- A word at the end of the memory that does not fit reads as 0 without a host.
split-word_reads : mem_read32 no_host small_cpu 0x8000003e ≡ (small_cpu, 0)
unfolding mem_read32 resolve_access resolve_addr in_window read_external
split-word_reads = refl

stored_word :
    (mem_write32 no_host small_cpu 0x80000008 0x12345678).ram
    ≡ write_be32 (replicate 64 0) 8 0x12345678
unfolding mem_write32 resolve_access resolve_addr in_window store_at note_write
    clear_matching_reservation bytes_of with_bytes
stored_word = refl

noted_word : (mem_write32 no_host small_cpu 0x80000008 0x12345678).journal ≡ (8, 4) ∷ []
unfolding mem_write32 resolve_access resolve_addr in_window store_at note_write
    clear_matching_reservation bytes_of with_bytes
noted_word = refl

-- A conditional store with the reservation sets EQ, a second one does not.
conditional_store : (ppc_stwcx_op no_host small_cpu 0 0x80000008 0).cr ≡ 0x20000000
unfolding ppc_stwcx_op mem_write32 resolve_access resolve_addr in_window store_at note_write
    clear_matching_reservation bytes_of with_bytes write_be32
conditional_store = refl

no_reservation :
    (ppc_stwcx_op no_host (record small_cpu { reserve_valid = false }) 0 0x80000008 0).cr ≡ 0
unfolding ppc_stwcx_op
no_reservation = refl

-- A string of five bytes ends in the highest byte of the second register.
loaded_string :
    (ppc_lswx no_host
      (record small_cpu {
        xer = 5;
        gpr = set (replicate 32 0) 4 0x80000000;
        ram = 1 ∷ 2 ∷ 3 ∷ 4 ∷ 5 ∷ replicate 59 0;
      })
      30
      0
      4
      0).gpr
    ≡ set (set (set (replicate 32 0) 4 0x80000000) 30 0x01020304) 31 0x05000000
unfolding ppc_lswx load_string load_string_byte wrapped_register_range_contains register_range_from
    mem_read8 resolve_addr in_window bytes_of
loaded_string = refl

trapped : ppc_trap_condition 0x10 0xffffffff 0 ≡ true
unfolding ppc_trap_condition
trapped = refl

mem_read-mem_write_example :
    (mem_read8 no_host (mem_write8 no_host small_cpu 0x80000008 (u8 0x12345678)) 0xc0000008
      ≡ (mem_write8 no_host small_cpu 0x80000008 (u8 0x12345678), u8 0x12345678))
    × (mem_read16 no_host (mem_write16 no_host small_cpu 0x80000008 (u16 0x12345678)) 0xc0000008
        ≡ (mem_write16 no_host small_cpu 0x80000008 (u16 0x12345678), u16 0x12345678))
    × (mem_read32 no_host (mem_write32 no_host small_cpu 0x80000008 (u32 0x12345678)) 0xc0000008
        ≡ (mem_write32 no_host small_cpu 0x80000008 (u32 0x12345678), u32 0x12345678))
    × (mem_read64 no_host
          (mem_write64 no_host small_cpu 0x80000008 (0x12345678 % 2 ^ 64))
          0xc0000008
        ≡ (mem_write64 no_host small_cpu 0x80000008 (0x12345678 % 2 ^ 64), 0x12345678 % 2 ^ 64))
mem_read-mem_write_example =
    mem_read-mem_write no_host small_cpu 0x80000008 0xc0000008 0x12345678 eighth small_cpu-IsSized
      cached_place uncached_place (omega arith)

mem_write32-reserve_example :
    ((mem_write32 no_host small_cpu 0xc0000008 5).reserve_valid ≡ true)
    ↔ ((true ≡ true) × (line_of 0x80000008 ≢ line_of 0xc0000008))
mem_write32-reserve_example =
    mem_write32-reserve no_host small_cpu 0xc0000008 5 eighth (omega arith) (omega arith)
      uncached_place (omega arith)

resolve_addr-uncached_example :
    resolve_addr small_cpu (gc_ram_uncached + 8) ≡ resolve_addr small_cpu (gc_ram_base + 8)
resolve_addr-uncached_example = resolve_addr-uncached small_cpu 8 (omega arith) (omega arith)

ppc_rfi-ppc_take_exception_example :
    ppc_rfi (ppc_take_exception small_cpu 0x40 0x700 0x80003104 0x20000) 0 ≡ record small_cpu {
      srr0 = 0x80003104;
      srr1 = bit_or (bit_and 0x9032 ppc_msr_rfi_mask) 0x20000;
      exception = bit_or 0 0x40;
      msr = bit_and 0x9032 (bit_not ppc_msr_pow);
      pc = 0x80003104 - 0x80003104 % 4;
    }
ppc_rfi-ppc_take_exception_example =
    ppc_rfi-ppc_take_exception small_cpu 0x40 0x700 0x80003104 0x20000 0 refl

ppc_mfspr-ppc_mtspr_example : Each (ReadsBack no_host small_cpu 7 0) own_sprs
ppc_mfspr-ppc_mtspr_example = ppc_mfspr-ppc_mtspr no_host small_cpu 7 0 refl refl

ppc_add_overflowed_iff_example :
    (ppc_add_overflowed 0x7fffffff 1 (u32 (0x7fffffff + 1)) ≡ true)
    ↔ ((signed 0x7fffffff + signed 1 < 2 ^ 31) ⊎ (2 ^ 32 + 2 ^ 31 ≤ signed 0x7fffffff + signed 1))
ppc_add_overflowed_iff_example = ppc_add_overflowed_iff 0x7fffffff 1 (omega arith) (omega arith)
