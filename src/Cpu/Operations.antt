-- ===== src/Cpu/Operations.antt =====
-- src/cpu/cpu.c: the operations that the generated code calls for the system's instructions.
use dol_recomp.Base.{
  ℕ, zero, suc, ◌+◌, ◌-◌, ◌*◌, ◌/◌, ◌%◌, ◌^◌, ◌==◌, ltb, u8, u32, shr, low_bits, bit_and, bit_or,
  bit_xor, Bool, true, false, not, ◌&&◌, ◌||◌, if◌then◌else◌, Option, none, some, get_or, set,
}
use dol_recomp.Cpu.State.{CpuState, Callbacks}
use dol_recomp.Cpu.Memory.{mem_read8, mem_write32}
use dol_recomp.Cpu.Exceptions.{
  bit_not, has_bit, ppc_take_exception, ppc_program_exception, ppc_dsi_exception,
  ppc_alignment_exception, ppc_program_illegal, ppc_program_priv, ppc_msr_pr, ppc_msr_ee,
  ppc_msr_me, ppc_hid2_lce, ppc_hid2_dcherr, ppc_hid2_dchee, ppc_hid2_pse, ppc_hid2_lsqe,
  ppc_exc_machine_check, ppc_vector_machine_check, ppc_srr1_machine_check_dcbzl, ppc_ear_enable,
  ppc_dsi_ear_disabled,
}

unfoldable pub ppc_add_overflowed : ℕ → ℕ → ℕ → Bool
ppc_add_overflowed a b result = not (shr (bit_and (bit_xor a result) (bit_xor b result)) 31 == 0)

unfoldable pub ppc_set_xer_ov : CpuState → Bool → CpuState
ppc_set_xer_ov cpu ov =
    let xer = bit_or (bit_and cpu.xer (bit_not 0x40000000)) (if ov then 0x40000000 else 0) in
    record cpu { xer = if ov then bit_or xer 0x80000000 else xer }

-- `(s32)a < (s32)b`, on patterns.
abbrev pub signed_lt : ℕ → ℕ → Bool
signed_lt a b = ltb (u32 (a + 2 ^ 31)) (u32 (b + 2 ^ 31))

unfoldable pub ppc_trap_condition : ℕ → ℕ → ℕ → Bool
ppc_trap_condition to a b =
    (signed_lt a b && has_bit to 0x10)
    || ((signed_lt b a && has_bit to 0x08)
        || (((a == b) && has_bit to 0x04)
            || ((ltb a b && has_bit to 0x02) || (ltb b a && has_bit to 0x01))))

unfoldable pub ppc_fallback_instruction : Callbacks → CpuState → ℕ → ℕ → CpuState
ppc_fallback_instruction callbacks cpu raw cia = elim callbacks.instruction_fallback [
  | none ↦ ppc_program_exception cpu ppc_program_illegal cia
  | some fallback ↦ fallback cpu raw cia
]

unfoldable pub ppc_host_call : Callbacks → CpuState → ℕ → CpuState × Bool
ppc_host_call callbacks cpu address = elim callbacks.host_call [
  | none ↦ (cpu, false)
  | some call ↦ call cpu address
]

-- A null `cpu` gives true and is no value of the model.
unfoldable pub ppc_native_region_available : Callbacks → CpuState → ℕ → ℕ → CpuState × Bool
ppc_native_region_available callbacks cpu start end = elim callbacks.host_call [
  | none ↦ (cpu, true)
  | some call ↦
      let asked = record cpu { external_addr = start; external_value = end; external_rid = 0xfe } in
      let (answered, blocked) = call asked 0xfffffffc in
      (
        record answered {
          external_addr = cpu.external_addr;
          external_value = cpu.external_value;
          external_rid = cpu.external_rid;
        },
        (answered.external_rid == 0xff) && not blocked,
      )
]

-- The registers from `first` on, from index `i` for the rounds left.
unfoldable pub register_range_from : ℕ → ℕ → ℕ → ℕ → Bool
register_range_from first i zero reg = false
register_range_from first i (suc rounds) reg =
    (u32 (first + i) % 32 == reg) || register_range_from first (suc i) rounds reg

unfoldable pub wrapped_register_range_contains : ℕ → ℕ → ℕ → Bool
wrapped_register_range_contains first count reg = register_range_from first 0 count reg

-- One byte of `ppc_lswx`: the register it goes to starts at 0. C leaves open whether the register is
-- read before or after the byte, which matters only to a callback; here it is after.
unfoldable pub load_string_byte : Callbacks → CpuState → ℕ → ℕ → ℕ → CpuState
load_string_byte callbacks cpu r_d ea n =
    let reg = (r_d + n / 4) % 32 in
    let cleared = if n % 4 == 0 then record cpu { gpr = set cpu.gpr reg 0 } else cpu in
    let (read, byte) = mem_read8 callbacks cleared (u32 (ea + n)) in
    record read {
      gpr = set read.gpr reg (bit_or (get_or read.gpr reg 0) (byte * 2 ^ (24 - 8 * (n % 4))));
    }

unfoldable pub load_string : Callbacks → CpuState → ℕ → ℕ → ℕ → ℕ → CpuState
load_string callbacks cpu r_d ea n zero = cpu
load_string callbacks cpu r_d ea n (suc rounds) =
    load_string callbacks (load_string_byte callbacks cpu r_d ea n) r_d ea (suc n) rounds

unfoldable pub ppc_lswx : Callbacks → CpuState → ℕ → ℕ → ℕ → ℕ → CpuState
ppc_lswx callbacks cpu r_d r_a r_b cia =
    let count = low_bits cpu.xer 7 in
    let reg_count = (count + 3) / 4 in
    if wrapped_register_range_contains r_d reg_count r_a
      || wrapped_register_range_contains r_d reg_count r_b
    then ppc_program_exception cpu ppc_program_illegal cia
    else (let base = if r_a == 0 then 0 else get_or cpu.gpr r_a 0 in
        load_string callbacks cpu r_d (u32 (base + get_or cpu.gpr r_b 0)) 0 count)

-- The operations of the cache: `PPC_CACHE_DCBI` is 2.
unfoldable pub ppc_cache_control : Callbacks → CpuState → ℕ → ℕ → ℕ → CpuState
ppc_cache_control callbacks cpu operation ea cia =
    if (operation == 2) && has_bit cpu.msr ppc_msr_pr
    then ppc_program_exception cpu ppc_program_priv cia
    else elim callbacks.cache_control [ none ↦ cpu | some control ↦ control cpu operation ea cia ]

unfoldable pub psq_check_enabled : CpuState → Bool → ℕ → CpuState × Bool
psq_check_enabled cpu indexed cia =
    if not (has_bit cpu.hid2 ppc_hid2_pse) || (not indexed && not (has_bit cpu.hid2 ppc_hid2_lsqe))
    then (ppc_program_exception cpu ppc_program_illegal cia, false)
    else (cpu, true)

unfoldable pub psq_type_size : ℕ → ℕ
psq_type_size type =
    if type == 0
    then 4
    else if type == 4 || type == 6
    then 1
    else if type == 5 || type == 7
    then 2
    else 0

unfoldable pub psq_access_is_valid : CpuState → ℕ → ℕ → ℕ → CpuState × Bool
psq_access_is_valid cpu type ea cia =
    if psq_type_size type == 0
    then (ppc_program_exception cpu ppc_program_illegal cia, false)
    else if (type == 0) && not (low_bits ea 2 == 0)
    then (ppc_alignment_exception cpu ea cia, false)
    else (cpu, true)

-- The locked cache before the block is cleared.
unfoldable pub lock_block : CpuState → ℕ → ℕ → CpuState
lock_block cpu block cia =
    let slot = block / 32 % 512 in
    let hit =
      get_or cpu.locked_cache_valid slot false && (get_or cpu.locked_cache_tag slot 0 == block) in
    let marked = record cpu { hid2 = bit_or cpu.hid2 ppc_hid2_dcherr } in
    if hit
    then (if not (has_bit cpu.hid2 ppc_hid2_dcherr)
          && (has_bit marked.hid2 ppc_hid2_dchee
              && (has_bit cpu.msr ppc_msr_ee && has_bit cpu.msr ppc_msr_me))
        then ppc_take_exception marked ppc_exc_machine_check ppc_vector_machine_check cia
            ppc_srr1_machine_check_dcbzl
        else marked)
    else record cpu {
      locked_cache_valid = set cpu.locked_cache_valid slot true;
      locked_cache_tag = set cpu.locked_cache_tag slot block;
    }

-- The loop that clears a block, from byte `i` for the rounds left.
unfoldable pub clear_block : Callbacks → CpuState → ℕ → ℕ → ℕ → CpuState
clear_block callbacks cpu block i zero = cpu
clear_block callbacks cpu block i (suc rounds) =
    clear_block callbacks (mem_write32 callbacks cpu (u32 (block + i)) 0) block (i + 4) rounds

unfoldable pub ppc_dcbz_l : Callbacks → CpuState → ℕ → ℕ → CpuState
ppc_dcbz_l callbacks cpu ea cia =
    if has_bit cpu.msr ppc_msr_pr
    then ppc_program_exception cpu ppc_program_priv cia
    else if not (has_bit cpu.hid2 ppc_hid2_lce)
    then ppc_program_exception cpu ppc_program_illegal cia
    else (let block = ea - low_bits ea 5 in
        clear_block callbacks (lock_block cpu block cia) block 0 8)

-- The tests that `ppc_eciwx` and `ppc_ecowx` begin with: the exception, if there is one.
unfoldable pub external_refused : CpuState → ℕ → ℕ → Option CpuState
external_refused cpu ea cia =
    if not (has_bit cpu.ear ppc_ear_enable)
    then some (ppc_dsi_exception cpu ea cia ppc_dsi_ear_disabled)
    else if not (low_bits ea 2 == 0)
    then some (ppc_alignment_exception cpu ea cia)
    else none

unfoldable pub ppc_eciwx : Callbacks → CpuState → ℕ → ℕ → CpuState × ℕ
ppc_eciwx callbacks cpu ea cia = elim (external_refused cpu ea cia) [
  | some refused ↦ (refused, 0)
  | none ↦
      let rid = low_bits cpu.ear 4 in
      let asked = record cpu {
        external_addr = ea;
        external_rid = rid;
        external_read_count = u8 (cpu.external_read_count + 1);
      } in
      elim callbacks.external_read32 [ none ↦ (asked, 0) | some read ↦ read asked ea rid ]
]

unfoldable pub ppc_ecowx : Callbacks → CpuState → ℕ → ℕ → ℕ → CpuState
ppc_ecowx callbacks cpu ea value cia = elim (external_refused cpu ea cia) [
  | some refused ↦ refused
  | none ↦
      let rid = low_bits cpu.ear 4 in
      let asked = record cpu {
        external_addr = ea;
        external_value = value;
        external_rid = rid;
        external_write_count = u8 (cpu.external_write_count + 1);
      } in
      elim callbacks.external_write32 [ none ↦ asked | some write ↦ write asked ea value rid ]
]

unfoldable pub ppc_tlbie : CpuState → ℕ → ℕ → CpuState
ppc_tlbie cpu ea cia =
    if has_bit cpu.msr ppc_msr_pr
    then ppc_program_exception cpu ppc_program_priv cia
    else record cpu {
      tlb_last_vps = low_bits (shr ea 12) 16;
      tlb_last_index = low_bits (shr ea 12) 6;
      tlb_invalidate_count = u32 (cpu.tlb_invalidate_count + 1);
    }

-- The field of CR that tells of the store: EQ if it was made, and SO.
abbrev pub set_stwcx_cr : CpuState → ℕ → Bool → CpuState
set_stwcx_cr cpu so success = record cpu {
  cr = bit_or (low_bits cpu.cr 28) (bit_or (if success then 2 else 0) so * 2 ^ 28);
}

unfoldable pub ppc_stwcx_op : Callbacks → CpuState → ℕ → ℕ → ℕ → CpuState
ppc_stwcx_op callbacks cpu s ea cia =
    let so = low_bits (shr cpu.xer 31) 1 in
    if not (low_bits ea 2 == 0)
    then ppc_alignment_exception cpu ea cia
    else if cpu.reserve_valid && (ea == cpu.reserve_addr)
    then set_stwcx_cr
        (record (mem_write32 callbacks cpu ea (get_or cpu.gpr s 0)) { reserve_valid = false }) so
        true
    else set_stwcx_cr cpu so false
