-- ===== src/Ir/Addresses.antt =====
-- src/ir/dolir_address.c: `dolir_analyze_addresses`. The numbers of values, blocks and slots in the
-- instructions are taken to be in range.
use dol_recomp.Base.{
  ℕ, zero, suc, ◌+◌, ◌/◌, ◌%◌, ◌^◌, ◌==◌, ltb, leb, Bool, true, false, not, ◌&&◌, ◌||◌,
  if◌then◌else◌, List, [], ◌∷◌, get_or, set, replicate, length,
}
use dol_recomp.Ir.Types.{
  DolIrOp, DolIrAddressDomain, DolIrTerminatorKind, DolIrInstruction, DolIrTerminator, DolIrBlock,
}
use dol_recomp.Ir.Values.{
  AbstractValue, type_width, unknown_value, range_value, known_value, exact_value, unary_value,
  binary_value,
}
use dol_recomp.Ir.Classify.{classify_range}

-- The number of state slots.
abbrev pub dolir_state_count : ℕ
dolir_state_count = 150

unfoldable pub dolir_state_mask_test : List ℕ → ℕ → Bool
dolir_state_mask_test mask slot = not (get_or mask (slot / 64) 0 / 2 ^ (slot % 64) % 2 == 0)

unfoldable pub terminator_target_count : DolIrTerminatorKind → ℕ
terminator_target_count DolIrTerminatorKind.cond_branch = 2
terminator_target_count DolIrTerminatorKind.indirect = 2
terminator_target_count DolIrTerminatorKind.branch = 1
terminator_target_count _ = 0

abbrev pub dolir_no_block : ℕ
dolir_no_block = 0xffffffff

unfoldable pub is_fallback : DolIrTerminatorKind → Bool
is_fallback DolIrTerminatorKind.fallback = true
is_fallback _ = false

unfoldable pub is_fallthrough : DolIrTerminatorKind → Bool
is_fallthrough DolIrTerminatorKind.fallthrough = true
is_fallthrough _ = false

-- The loop over the targets, from `slot` on for the rounds left.
unfoldable pub mark_targets : List ℕ → List Bool → ℕ → ℕ → List Bool
mark_targets targets leaders slot zero = leaders
mark_targets targets leaders slot (suc rounds) =
    let goal = get_or targets slot dolir_no_block in
    mark_targets targets (if goal == dolir_no_block then leaders else set leaders goal true)
      (suc slot) rounds

-- A round of the loop over the blocks.
unfoldable pub mark_block : ℕ → DolIrTerminator → ℕ → List Bool → List Bool
mark_block block_count term index leaders =
    let own = if is_fallback term.kind then set leaders index true else leaders in
    let next =
      if ltb (index + 1) block_count && not (is_fallthrough term.kind)
      then set own (index + 1) true
      else own in
    mark_targets term.targets next 0 (terminator_target_count term.kind)

unfoldable pub mark_blocks : ℕ → List DolIrBlock → ℕ → List Bool → List Bool
mark_blocks block_count [] index leaders = leaders
mark_blocks block_count (block ∷ blocks) index leaders =
    mark_blocks block_count blocks (suc index)
      (mark_block block_count block.terminator index leaders)

unfoldable pub find_region_leaders : List DolIrBlock → List Bool
find_region_leaders blocks =
    mark_blocks (length blocks) blocks 0 (set (replicate (length blocks) false) 0 true)

abbrev pub value_at : List AbstractValue → ℕ → AbstractValue
value_at values i = get_or values i unknown_value

abbrev pub operand : DolIrInstruction → ℕ → ℕ
operand instruction k = get_or instruction.operands k 0

unfoldable pub select_value : ℕ → AbstractValue → AbstractValue → AbstractValue → AbstractValue
select_value width condition chosen other =
    if exact_value condition
    then (if condition.lower == 0 then other else chosen)
    else if chosen.bounded && other.bounded
    then range_value (if ltb chosen.lower other.lower then chosen.lower else other.lower)
        (if ltb other.upper chosen.upper then chosen.upper else other.upper) width
    else unknown_value

-- What the number of operands says, where the operation has not decided.
unfoldable pub operands_value : DolIrInstruction → List AbstractValue → AbstractValue
operands_value instruction values =
    let value = λ (k : ℕ). value_at values (operand instruction k) in
    if instruction.operand_count == 1
    then unary_value instruction (value 0)
    else if instruction.operand_count == 2
    then binary_value instruction (value 0) (value 1)
    else elim instruction.op [
      | DolIrOp.select ↦
          if instruction.operand_count == 3
          then select_value (type_width instruction.type) (value 0) (value 1) (value 2)
          else unknown_value
      | _ ↦ unknown_value
    ]

unfoldable pub instruction_value :
    DolIrInstruction → List AbstractValue → List AbstractValue → AbstractValue
instruction_value instruction values state = elim instruction.op [
  | DolIrOp.constant ↦
      if type_width instruction.type == 0
      then operands_value instruction values
      else known_value instruction.immediate (type_width instruction.type)
  | DolIrOp.state_read ↦ value_at state instruction.aux
  | _ ↦ operands_value instruction values
]

-- The domain and the bounds of the address of an access.
unfoldable pub classify_access : DolIrInstruction → AbstractValue → DolIrInstruction
classify_access instruction address =
    if address.bounded && leb address.upper 0xffffffff
    then elim (classify_range address.lower address.upper) [
      | DolIrAddressDomain.unknown ↦ instruction
      | domain ↦ record instruction {
        address_domain = domain;
        address_lower = address.lower;
        address_upper = address.upper;
      }
    ]
    else instruction

unfoldable pub is_access : DolIrOp → Bool
is_access DolIrOp.guest_load = true
is_access DolIrOp.guest_store = true
is_access _ = false

unfoldable pub is_state_write : DolIrOp → Bool
is_state_write DolIrOp.state_write = true
is_state_write _ = false

-- The loop that forgets the slots that an instruction defines, from `slot` for the rounds left.
unfoldable pub forget_slots : DolIrInstruction → List AbstractValue → ℕ → ℕ → List AbstractValue
forget_slots instruction state slot zero = state
forget_slots instruction state slot (suc rounds) =
    let forgotten =
      dolir_state_mask_test instruction.state_defs slot
      && not (is_state_write instruction.op && (instruction.aux == slot)) in
    forget_slots instruction (if forgotten then set state slot unknown_value else state) (suc slot)
      rounds

-- What is known of the values and of the state.
pub record Known : Type 0 where
  pub values : List AbstractValue
  pub state : List AbstractValue

unfoldable pub analyze_instruction : DolIrInstruction → Known → DolIrInstruction × Known
analyze_instruction instruction known =
    let blank = record instruction {
      address_domain = DolIrAddressDomain.unknown;
      address_lower = 0;
      address_upper = 0;
    } in
    let classified =
      if is_access instruction.op
      then classify_access blank (value_at known.values (operand instruction 0))
      else blank in
    let result = instruction_value instruction known.values known.state in
    let values =
      if instruction.result == 0
      then known.values
      else set known.values instruction.result result in
    let state =
      if is_state_write instruction.op
      then set known.state instruction.aux (value_at values (operand instruction 0))
      else known.state in
    (
      classified,
      record { values = values; state = forget_slots instruction state 0 dolir_state_count },
    )

unfoldable pub analyze_instructions : List DolIrInstruction → Known → List DolIrInstruction × Known
analyze_instructions [] known = ([], known)
analyze_instructions (instruction ∷ instructions) known =
    let (first, next) = analyze_instruction instruction known in
    let (rest, last) = analyze_instructions instructions next in (first ∷ rest, last)

unfoldable pub analyze_blocks : List Bool → List DolIrBlock → ℕ → Known → List DolIrBlock
analyze_blocks leaders [] index known = []
analyze_blocks leaders (block ∷ blocks) index known =
    let start =
      if get_or leaders index false
      then record known { state = replicate dolir_state_count unknown_value }
      else known in
    let (instructions, next) = analyze_instructions block.instructions start in
    record block { instructions = instructions } ∷ analyze_blocks leaders blocks (suc index) next

-- The function is its blocks and the number of its values; `allocated` says whether both calls of
-- `calloc` succeed. A null function is no value of the model.
unfoldable pub dolir_analyze_addresses : List DolIrBlock → ℕ → Bool → List DolIrBlock
dolir_analyze_addresses blocks value_count allocated =
    if length blocks == 0 || (value_count == 0 || not allocated)
    then blocks
    else analyze_blocks (find_region_leaders blocks) blocks 0 (record {
      values = replicate value_count unknown_value;
      state = replicate dolir_state_count unknown_value;
    })
