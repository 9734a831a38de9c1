-- ===== src/Cfg/Graph.antt =====
-- src/backend/c_cfg.c: the graph's state, its tests and its construction. `calloc` and `malloc`
-- are outside; their joint success is a parameter of the construction. An array of `count`
-- elements is a list, and the instructions are a list of `count` members.
use dol_recomp.Base.{
  ℕ, suc, ◌+◌, ◌*◌, ◌-◌, ◌/◌, ◌==◌, ltb, leb, u32, low_bits, Bool, true, false, not, ◌&&◌, ◌||◌,
  List, [], ◌∷◌, none, some, get_elem?, take, drop, replicate,
}
use dol_recomp.Decoder.Opcode.{PpcOpcode, op_eq}
use dol_recomp.Decoder.Inst.{PpcInst}

pub record CFunctionCfg : Type 0 where
  pub count : ℕ
  pub leaders : List Bool
  pub block_cycles : List ℕ
  pub materialize_pc : List Bool
  pub return_targets : List Bool
  pub loop_ends : List ℕ

abbrev pub uint32_max : ℕ
uint32_max = 0xffffffff

-- The sum and the product are of type u32. The test of the low bits comes after the order.
unfoldable pub cfg_contains : ℕ → ℕ → ℕ → Bool
cfg_contains count function_address address =
    let end = u32 (function_address + u32 (count * 4)) in
    leb function_address address
    && ltb address end
    && (low_bits (address - function_address) 2 == 0)

-- The index of a branch's target, used only where `cfg_contains` holds.
unfoldable pub target_index : ℕ → PpcInst → ℕ
target_index function_address inst = (inst.branch_target - function_address) / 4

unfoldable pub is_direct_branch : PpcInst → Bool
is_direct_branch inst = op_eq inst.op PpcOpcode.b || op_eq inst.op PpcOpcode.bc

unfoldable pub reads_time_base : PpcInst → Bool
reads_time_base inst =
    op_eq inst.op PpcOpcode.mftb
    || (op_eq inst.op PpcOpcode.mfspr && (inst.spr == 268 || inst.spr == 269))

-- The members from index `first` up to, and without, index `end`: the rounds of a loop.
abbrev pub span : List PpcInst → ℕ → ℕ → List PpcInst
span insts first end = take (end - first) (drop first insts)

-- A loop that stops, or clears a flag, at the first member with a property.
unfoldable pub any_inst : (PpcInst → Bool) → List PpcInst → Bool
any_inst p [] = false
any_inst p (inst ∷ insts) = p inst || any_inst p insts

-- The `if` that returns false first, for the branch itself.
unfoldable pub is_backward_branch : ℕ → ℕ → PpcInst → Bool
is_backward_branch count function_address branch =
    is_direct_branch branch
    && not branch.lk
    && cfg_contains count function_address branch.branch_target
    && leb branch.branch_target branch.address

-- A `branch_index` past the end, which no caller passes, gives false.
unfoldable pub can_loop_directly : ℕ → List PpcInst → ℕ → ℕ → Bool
can_loop_directly count insts function_address branch_index = elim (get_elem? insts branch_index) [
  | none ↦ false
  | some branch ↦
      is_backward_branch count function_address branch
      && not (
          any_inst reads_time_base
            (span insts (target_index function_address branch) (suc branch_index)))
]

-- The state after the allocations and the loop that fills `loop_ends`.
abbrev pub blank_cfg : ℕ → CFunctionCfg
blank_cfg count = record {
  count = count;
  leaders = replicate count false;
  block_cycles = replicate count 0;
  materialize_pc = replicate count true;
  return_targets = replicate count false;
  loop_ends = replicate count uint32_max;
}
