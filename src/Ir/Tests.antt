-- ===== src/Ir/Tests.antt =====
-- Small instructions and ranges, and a block that stores at an address in memory.
use dol_recomp.Base.{
  ℕ, ◌≡◌, refl, inr, true, false, List, [], ◌∷◌, none, some, replicate, map, arith,
}
use dol_recomp.Cpu.State.{CpuState}
use dol_recomp.Cpu.Memory.{Region, Place, resolve_addr}
use dol_recomp.Ir.Types.{
  DolIrType, DolIrOp, DolIrAddressDomain, DolIrTerminatorKind, DolIrInstruction, DolIrBlock,
}
use dol_recomp.Ir.Values.{
  AbstractValue, unknown_value, type_width, truncate_bits, range_value, known_value, exact_value,
  exact_op, exact_binary, range_op, is_and, binary_op, unary_op, unary_value, binary_value,
  leading_zeros,
}
use dol_recomp.Ir.Sound.{eval_binary, InRange, IsWithin, operand_width}
use dol_recomp.Ir.Binary.{binary_value-InRange}
use dol_recomp.Ir.Classify.{classify_address, classify_range, range_in_window, gc_main_ram_size}
use dol_recomp.Ir.Forget.{analyze_instruction-state}
use dol_recomp.Ir.Windows.{classify_range-mem1}
use dol_recomp.Ir.Addresses.{
  value_at, dolir_state_mask_test, terminator_target_count, is_fallback, is_fallthrough,
  mark_targets, mark_block, mark_blocks, find_region_leaders, operands_value, instruction_value,
  classify_access, is_access, is_state_write, forget_slots, analyze_instruction,
  analyze_instructions, analyze_blocks, dolir_analyze_addresses,
}

abbrev plain : DolIrOp → ℕ → List ℕ → ℕ → ℕ → DolIrInstruction
plain op result operands operand_count immediate = record {
  op = op;
  type = DolIrType.i32;
  result = result;
  operands = operands;
  operand_count = operand_count;
  aux = 0;
  immediate = immediate;
  guest_pc = 0;
  effects = 0;
  state_uses = replicate 3 0;
  state_defs = replicate 3 0;
  address_domain = DolIrAddressDomain.unknown;
  address_lower = 0;
  address_upper = 0;
  exact_fp = false;
}

abbrev ranged : ℕ → ℕ → AbstractValue
ranged lower upper = record { lower = lower; upper = upper; bounded = true }

-- A sum that may wrap is not known.
wrapping_sum :
    (binary_value (plain DolIrOp.add 1 [] 2 0) (ranged 0 0xffffffff) (ranged 0 1)).bounded ≡ false
unfolding binary_value type_width binary_op is_and range_op exact_binary exact_value
wrapping_sum = refl

counted_zeros : unary_value (plain DolIrOp.clz 1 [] 1 0) (ranged 0x00800000 0x00800000) ≡ ranged 8 8
unfolding unary_value type_width unary_op exact_value leading_zeros known_value truncate_bits
    range_value
counted_zeros = refl

-- The end of the first memory, and what follows it.
end_of_memory : classify_range 0x817ffffc 0x817fffff ≡ DolIrAddressDomain.mem1
unfolding classify_range range_in_window
end_of_memory = refl

past_memory : classify_range 0x817ffffc 0x81800000 ≡ DolIrAddressDomain.unknown
unfolding classify_range range_in_window
past_memory = refl

abbrev storing_block : DolIrBlock
storing_block = record {
  guest_address = 0x80003100;
  raw = 0;
  cycle_cost = 1;
  instructions =
      plain DolIrOp.constant 1 [] 0 0x80000010
      ∷ plain DolIrOp.constant 2 [] 0 8
      ∷ plain DolIrOp.add 3 (1 ∷ 2 ∷ []) 2 0
      ∷ plain DolIrOp.guest_store 0 (3 ∷ 2 ∷ []) 2 0
      ∷ [];
  terminator = record {
    kind = DolIrTerminatorKind.return;
    condition = 0;
    target_value = 0;
    targets = [];
    target_addresses = [];
    guest_pc = 0;
    raw = 0;
    linked = false;
  };
}

-- The store is found to be at one address of the first memory.
stored_address :
    map
      (λ (b : DolIrBlock). map (λ (i : DolIrInstruction). i.address_lower) b.instructions)
      (dolir_analyze_addresses (storing_block ∷ []) 4 true)
    ≡ (0 ∷ 0 ∷ 0 ∷ 0x80000018 ∷ []) ∷ []
unfolding dolir_analyze_addresses find_region_leaders mark_blocks mark_block is_fallback
    is_fallthrough mark_targets terminator_target_count analyze_blocks analyze_instructions
    analyze_instruction instruction_value operands_value type_width known_value truncate_bits
    range_value binary_value binary_op is_and range_op exact_binary exact_op exact_value is_access
    classify_access classify_range classify_address is_state_write forget_slots
    dolir_state_mask_test
stored_address = refl

binary_value-InRange_example :
    InRange
      (binary_value (plain DolIrOp.add 1 [] 2 0) (ranged 0x80000000 0x80000010) (ranged 4 8))
      0x8000000a
unfolding type_width eval_binary InRange IsWithin operand_width
binary_value-InRange_example =
    binary_value-InRange (plain DolIrOp.add 1 [] 2 0) (ranged 0x80000000 0x80000010) (ranged 4 8)
      0x80000004 6 0x8000000a (λ e. absurd (omega (arith, e))) (omega arith) (omega arith)
      (inr (omega arith, omega arith)) (inr (omega arith, omega arith)) (inr (omega arith))
      (inr (omega arith)) refl

-- A processor of the size of a GameCube's: what its memory holds does not matter here.
abbrev gamecube : CpuState
gamecube = record {
  gpr = replicate 32 0;
  fpr = replicate 32 0;
  ps1 = replicate 32 0;
  pc = 0;
  lr = 0;
  ctr = 0;
  cr = 0;
  xer = 0;
  fpscr = 0;
  msr = 0x9032;
  srr0 = 0;
  srr1 = 0;
  dar = 0;
  dsisr = 0;
  ear = 0;
  hid2 = 0;
  timebase = 0;
  sr = replicate 16 0;
  gqr = replicate 8 0;
  exception = 0;
  program_exception = 0;
  tlb_last_vps = 0;
  tlb_last_index = 0;
  tlb_invalidate_count = 0;
  external_addr = 0;
  external_value = 0;
  external_rid = 0;
  external_read_count = 0;
  external_write_count = 0;
  reserve_addr = 0x80000008;
  reserve_valid = true;
  locked_cache_tag = replicate 512 0;
  locked_cache_valid = replicate 512 false;
  ram = [];
  ram_size = gc_main_ram_size;
  downcount = 0;
  cycle_budget = 0;
  mem2 = none;
  mem2_size = 0;
  journal = [];
}

classify_range-mem1_example :
    (place : Place) × (resolve_addr gamecube 0x80000014 ≡ some place) × (place.region ≡ Region.main)
unfolding classify_range range_in_window
classify_range-mem1_example =
    classify_range-mem1 gamecube 0x80000010 0x80000018 0x80000014 refl (omega arith) refl
      (omega arith) (omega arith)

abbrev calling : DolIrInstruction
calling = record (plain DolIrOp.helper_call 0 [] 0 0) { state_defs = 0x10 ∷ 0 ∷ 0 ∷ [] }

analyze_instruction-state_example :
    value_at
      (analyze_instruction calling
        (record { values = []; state = replicate 150 (ranged 1 2) })).1.state
      4
    ≡ unknown_value
unfolding dolir_state_mask_test is_state_write
analyze_instruction-state_example =
    analyze_instruction-state calling (record { values = []; state = replicate 150 (ranged 1 2) }) 4
      (omega arith) refl
