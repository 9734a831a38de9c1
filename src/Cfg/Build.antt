-- ===== src/Cfg/Build.antt =====
-- src/backend/c_cfg.c: the three loops of `c_function_cfg_build`, each a recursion on the
-- instructions that are left, with the index of the first of them. An index stays below `count`,
-- so its u32 does not wrap.
use dol_recomp.Base.{
  ℕ, suc, ◌+◌, ◌==◌, ltb, u32, Bool, true, false, not, ◌&&◌, ◌||◌, if◌then◌else◌, List, [], ◌∷◌,
  Option, none, some, get_or, set,
}
use dol_recomp.Decoder.Inst.{PpcInst}
use dol_recomp.Cfg.Classes.{instruction_ends_block, instruction_cycles}
use dol_recomp.Cfg.Movable.{instruction_is_pc_transparent, instruction_is_outlinable}
use dol_recomp.Cfg.Graph.{
  CFunctionCfg, blank_cfg, cfg_contains, target_index, is_direct_branch, any_inst, span,
  can_loop_directly,
}

-- The three `if`s of the first loop, on the arrays that they write. It writes two arrays and
-- reads neither, so each is a recursion of its own.
unfoldable pub mark_next : ℕ → ℕ → PpcInst → List Bool → List Bool
mark_next count i inst leaders =
    if instruction_ends_block inst && ltb (suc i) count then set leaders (suc i) true else leaders

unfoldable pub mark_return : ℕ → ℕ → PpcInst → List Bool → List Bool
mark_return count i inst return_targets =
    if inst.lk && ltb (suc i) count then set return_targets (suc i) true else return_targets

unfoldable pub mark_target : ℕ → ℕ → PpcInst → List Bool → List Bool
mark_target count function_address inst leaders =
    if is_direct_branch inst && cfg_contains count function_address inst.branch_target
    then set leaders (target_index function_address inst) true
    else leaders

-- A round of the first loop on the leaders, the early `continue` included.
unfoldable pub mark_round : ℕ → ℕ → ℕ → PpcInst → List Bool → List Bool
mark_round count function_address i inst leaders =
    if inst.embedded_data
    then leaders
    else mark_target count function_address inst (mark_next count i inst leaders)

unfoldable pub mark_leaders : ℕ → ℕ → ℕ → List PpcInst → List Bool → List Bool
mark_leaders count function_address i [] leaders = leaders
mark_leaders count function_address i (inst ∷ insts) leaders =
    mark_leaders count function_address (suc i) insts
      (mark_round count function_address i inst leaders)

unfoldable pub mark_returns : ℕ → ℕ → List PpcInst → List Bool → List Bool
mark_returns count i [] return_targets = return_targets
mark_returns count i (inst ∷ insts) return_targets =
    mark_returns count (suc i) insts
      (if inst.embedded_data then return_targets else mark_return count i inst return_targets)

-- The loop over `j`, with the sum so far.
unfoldable pub sum_block : ℕ → List Bool → ℕ → List PpcInst → ℕ → ℕ
sum_block count leaders j [] sum = sum
sum_block count leaders j (inst ∷ insts) sum =
    let next = u32 (sum + instruction_cycles inst) in
    let rest = sum_block count leaders (suc j) insts next in
    if instruction_ends_block inst || (suc j == count || get_or leaders (suc j) false)
    then next
    else rest

-- The round of the second loop at index `i`, where `insts` starts.
unfoldable pub sum_round : ℕ → List Bool → ℕ → List PpcInst → List ℕ → List ℕ
sum_round count leaders i insts block_cycles =
    if get_or leaders i false
    then set block_cycles i (sum_block count leaders i insts (get_or block_cycles i 0))
    else block_cycles

unfoldable pub sum_cycles : ℕ → List Bool → ℕ → List PpcInst → List ℕ → List ℕ
sum_cycles count leaders i [] block_cycles = block_cycles
sum_cycles count leaders i (inst ∷ insts) block_cycles =
    sum_cycles count leaders (suc i) insts (sum_round count leaders i (inst ∷ insts) block_cycles)

-- `materialize_pc[i] = 0` for the transparent members of a span.
unfoldable pub clear_pc : ℕ → List PpcInst → List Bool → List Bool
clear_pc i [] materialize_pc = materialize_pc
clear_pc i (inst ∷ insts) materialize_pc =
    clear_pc (suc i) insts
      (if instruction_is_pc_transparent inst then set materialize_pc i false else materialize_pc)

unfoldable pub is_straight_line : List PpcInst → ℕ → ℕ → Bool
is_straight_line insts first last = not (any_inst instruction_ends_block (span insts first last))

unfoldable pub is_outlinable_span : List PpcInst → ℕ → ℕ → Bool
is_outlinable_span insts first last =
    not (any_inst (λ inst. not (instruction_is_outlinable inst)) (span insts first (suc last)))

-- One round of the last loop, for a branch that can loop directly.
unfoldable pub note_loop : List PpcInst → ℕ → ℕ → CFunctionCfg → CFunctionCfg
note_loop insts first last cfg = record cfg {
  materialize_pc = clear_pc first (span insts first (suc last)) cfg.materialize_pc;
  loop_ends =
      if is_straight_line insts first last
        && (is_outlinable_span insts first last && ltb first last)
      then set cfg.loop_ends first last
      else cfg.loop_ends;
}

-- A round of the last loop, the early `continue` included.
unfoldable pub note_round : ℕ → List PpcInst → ℕ → PpcInst → CFunctionCfg → CFunctionCfg
note_round function_address insts last inst cfg =
    if can_loop_directly cfg.count insts function_address last
    then note_loop insts (target_index function_address inst) last cfg
    else cfg

unfoldable pub note_loops : ℕ → List PpcInst → ℕ → List PpcInst → CFunctionCfg → CFunctionCfg
note_loops function_address insts last [] cfg = cfg
note_loops function_address insts last (inst ∷ rest) cfg =
    note_loops function_address insts (suc last) rest
      (note_round function_address insts last inst cfg)

-- The first two loops, after `leaders[0] = 1`; on no instruction that store changes nothing.
unfoldable pub build_blocks : ℕ → List PpcInst → ℕ → CFunctionCfg
build_blocks count insts function_address =
    let cfg = blank_cfg count in
    let leaders = mark_leaders count function_address 0 insts (set cfg.leaders 0 true) in
    record cfg {
      leaders = leaders;
      return_targets = mark_returns count 0 insts cfg.return_targets;
      block_cycles = sum_cycles count leaders 0 insts cfg.block_cycles;
    }

-- `none` is the return value false.
unfoldable pub cfg_build : Bool → List PpcInst → ℕ → ℕ → Option CFunctionCfg
cfg_build allocated insts count function_address =
    if allocated
    then some
        (note_loops function_address insts 0 insts (build_blocks count insts function_address))
    else none
