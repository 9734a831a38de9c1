-- ===== src/Cfg/Tests.antt =====
-- A count-down loop and a return, decoded from their words, and the graph of that function.
use dol_recomp.Base.{
  ℕ, zero, suc, ◌+◌, ◌*◌, ◌<◌, ◌≡◌, refl, ◌↔◌, true, false, List, [], ◌∷◌, none, some,
  some-injective, get_elem?, get_or, switch, sign_extend, arith, ap, sym,
}
use dol_recomp.Decoder.Inst.{PpcInst}
use dol_recomp.Decoder.Opcode.{op_eq}
use dol_recomp.Decoder.Forms.{decode_d_rt_ra}
use dol_recomp.Decoder.Branch.{decode_bc, decode_cr}
use dol_recomp.Decoder.Decode.{ppc_decode, decode_immediate, decode_memory}
use dol_recomp.Cfg.Classes.{
  instruction_ends_block, op_ends_block, instruction_uses_fallback, op_uses_fallback, is_listed_spr,
  instruction_cycles, op_cycles,
}
use dol_recomp.Cfg.Movable.{
  instruction_is_pc_transparent, op_is_pc_transparent, instruction_is_outlinable, op_is_outlinable,
}
use dol_recomp.Cfg.Graph.{
  CFunctionCfg, cfg_contains, uint32_max, can_loop_directly, is_backward_branch, is_direct_branch,
  any_inst, target_index, reads_time_base,
}
use dol_recomp.Cfg.Build.{
  cfg_build, note_loops, note_round, note_loop, build_blocks, mark_leaders, mark_round, mark_next,
  mark_target, mark_returns, mark_return, sum_cycles, sum_round, sum_block, clear_pc,
  is_straight_line, is_outlinable_span,
}
use dol_recomp.Cfg.Leaders.{IsLeader, cfg_contains_iff}
use dol_recomp.Cfg.Whole.{cfg_build-leaders}
use dol_recomp.Cfg.Cycles.{sum_list, total_cycles}
use dol_recomp.Cfg.Budget.{cfg_build-cycles}
use dol_recomp.Cfg.Loops.{IsLoop}
use dol_recomp.Cfg.LoopEnds.{cfg_build-IsLoop}
use dol_recomp.Cfg.Raises.{needs_counter}
use dol_recomp.Cfg.Counter.{InLoop, cfg_build-materialize_pc}

-- addi r3, r3, -1; cmpwi r3, 0; bne -8; blr
abbrev count_down : List PpcInst
count_down =
    ppc_decode 0x3863ffff 0x80003000
    ∷ ppc_decode 0x2c030000 0x80003004
    ∷ ppc_decode 0x4082fff8 0x80003008
    ∷ ppc_decode 0x4e800020 0x8000300c
    ∷ []

abbrev count_down_cfg : CFunctionCfg
count_down_cfg = record {
  count = 4;
  leaders = true ∷ false ∷ false ∷ true ∷ [];
  block_cycles = 3 ∷ 0 ∷ 0 ∷ 1 ∷ [];
  materialize_pc = false ∷ false ∷ false ∷ true ∷ [];
  return_targets = false ∷ false ∷ false ∷ false ∷ [];
  loop_ends = 2 ∷ uint32_max ∷ uint32_max ∷ uint32_max ∷ [];
}

count_down_built : cfg_build true count_down 4 0x80003000 ≡ some count_down_cfg
unfolding cfg_build ppc_decode switch decode_immediate decode_d_rt_ra decode_bc decode_cr
    sign_extend op_eq note_loops note_round note_loop can_loop_directly is_backward_branch
    is_direct_branch cfg_contains build_blocks any_inst target_index reads_time_base mark_leaders
    mark_round mark_next mark_target mark_returns mark_return sum_cycles sum_round sum_block
    clear_pc is_straight_line is_outlinable_span instruction_ends_block op_ends_block
    instruction_uses_fallback op_uses_fallback is_listed_spr instruction_cycles op_cycles
    instruction_is_pc_transparent op_is_pc_transparent instruction_is_outlinable op_is_outlinable
count_down_built = refl

-- A data word, then addi r3, r3, -1 and blr: the word ends its block, but what follows is no leader,
-- so no block has the cycles of the two instructions.
abbrev after_data : List PpcInst
after_data =
    record (ppc_decode 0 0x80003000) { embedded_data = true }
    ∷ ppc_decode 0x3863ffff 0x80003004
    ∷ ppc_decode 0x4e800020 0x80003008
    ∷ []

after_data_uncharged :
    cfg_build true after_data 3 0x80003000
    ≡ some (record {
      count = 3;
      leaders = true ∷ false ∷ false ∷ [];
      block_cycles = 0 ∷ 0 ∷ 0 ∷ [];
      materialize_pc = true ∷ true ∷ true ∷ [];
      return_targets = false ∷ false ∷ false ∷ [];
      loop_ends = uint32_max ∷ uint32_max ∷ uint32_max ∷ [];
    })
unfolding cfg_build ppc_decode switch decode_immediate decode_memory decode_d_rt_ra decode_bc
    decode_cr sign_extend op_eq note_loops note_round note_loop can_loop_directly is_backward_branch
    is_direct_branch cfg_contains build_blocks any_inst target_index reads_time_base mark_leaders
    mark_round mark_next mark_target mark_returns mark_return sum_cycles sum_round sum_block
    clear_pc is_straight_line is_outlinable_span instruction_ends_block op_ends_block
    instruction_uses_fallback op_uses_fallback is_listed_spr instruction_cycles op_cycles
    instruction_is_pc_transparent op_is_pc_transparent instruction_is_outlinable op_is_outlinable
after_data_uncharged = refl

no_memory : cfg_build false count_down 4 0x80003000 ≡ none
unfolding cfg_build
no_memory = refl

-- The end of a function that fills the address space wraps to 0, and nothing is inside.
wrapped_end : cfg_contains 4 0xfffffff0 0xfffffff0 ≡ false
unfolding cfg_contains
wrapped_end = refl

count_down-code :
    (n : ℕ) (inst : PpcInst) → get_elem? count_down n ≡ some inst → inst.embedded_data ≡ false
unfolding ppc_decode switch decode_immediate decode_d_rt_ra decode_bc decode_cr
count_down-code zero inst e = ap (λ x. x.embedded_data) (sym (some-injective _ inst e))
count_down-code (suc zero) inst e = ap (λ x. x.embedded_data) (sym (some-injective _ inst e))
count_down-code (suc (suc zero)) inst e = ap (λ x. x.embedded_data) (sym (some-injective _ inst e))
count_down-code (suc (suc (suc zero))) inst e =
    ap (λ x. x.embedded_data) (sym (some-injective _ inst e))
count_down-code (suc (suc (suc (suc n)))) inst e = cc

cfg_contains_iff_example :
    (cfg_contains 4 0x80003000 0x80003008 ≡ true)
    ↔ ((k : ℕ) × (k < 4) × (0x80003008 ≡ 0x80003000 + 4 * k))
cfg_contains_iff_example = cfg_contains_iff 4 0x80003000 0x80003008 (omega arith)

cfg_build-leaders_example :
    (cfg : CFunctionCfg) × (cfg_build true count_down 4 0x80003000 ≡ some cfg)
    × ((k : ℕ) → (get_or cfg.leaders k false ≡ true) ↔ IsLeader 4 0x80003000 count_down k)
cfg_build-leaders_example = cfg_build-leaders count_down 4 0x80003000 (omega arith)

cfg_build-cycles_example :
    (cfg : CFunctionCfg) × (cfg_build true count_down 4 0x80003000 ≡ some cfg)
    × (sum_list cfg.block_cycles ≡ total_cycles count_down)
cfg_build-cycles_example =
    cfg_build-cycles count_down 4 0x80003000 refl (omega arith) (omega arith) count_down-code

cfg_build-IsLoop_example : IsLoop count_down 0x80003000 0 2
cfg_build-IsLoop_example =
    cfg_build-IsLoop count_down 4 0x80003000 count_down_cfg 0 2 (omega arith) count_down_built refl
      (omega arith)

cfg_build-materialize_pc_example :
    ((inst : PpcInst) × (get_elem? count_down 0 ≡ some inst) × (needs_counter inst.op ≡ false))
    × InLoop count_down 0x80003000 0
cfg_build-materialize_pc_example =
    cfg_build-materialize_pc count_down 4 0x80003000 count_down_cfg 0 (omega arith) count_down_built
      refl
