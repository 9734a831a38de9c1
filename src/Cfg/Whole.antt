-- ===== src/Cfg/Whole.antt =====
-- src/backend/c_cfg.c: the leaders of the graph that `c_function_cfg_build` returns.
use dol_recomp.Base.{
  ℕ, suc, ◌+◌, ◌*◌, ◌^◌, ◌<◌, ◌≡◌, refl, sym, ◌∙◌, ◌↔◌, inl, inr, subst, true, false, List, [], ◌∷◌,
  some, length-set, length-replicate, get_or, get_or-replicate, set, replicate, arith,
}
use dol_recomp.Decoder.Inst.{PpcInst}
use dol_recomp.Cfg.Graph.{CFunctionCfg}
use dol_recomp.Cfg.Build.{note_loop, note_round, note_loops, build_blocks, cfg_build}
use dol_recomp.Cfg.Leaders.{
  IsLeader, Marks, mark_leaders_iff, Marks-IsLeader, IsLeader-Marks, get_or-set,
}

note_round-same :
    (function_address : ℕ) (insts : List PpcInst) (last : ℕ) (inst : PpcInst) (cfg : CFunctionCfg)
    → ((note_round function_address insts last inst cfg).leaders ≡ cfg.leaders)
      × ((note_round function_address insts last inst cfg).block_cycles ≡ cfg.block_cycles)
unfolding note_round note_loop
note_round-same function_address insts last inst cfg = ground arith

-- The last loop keeps the leaders and the cycles.
pub note_loops-same :
    (function_address : ℕ) (insts : List PpcInst) (last : ℕ) (rest : List PpcInst)
    (cfg : CFunctionCfg)
    → ((note_loops function_address insts last rest cfg).leaders ≡ cfg.leaders)
      × ((note_loops function_address insts last rest cfg).block_cycles ≡ cfg.block_cycles)
unfolding note_loops
note_loops-same function_address insts last [] cfg = (refl, refl)
note_loops-same function_address insts last (inst ∷ rest) cfg =
    let here = note_round-same function_address insts last inst cfg in
    let after =
      note_loops-same function_address insts (suc last) rest
        (note_round function_address insts last inst cfg) in
    (after.0 ∙ here.0, after.1 ∙ here.1)

-- The first two loops mark exactly the leaders.
pub build_blocks-leaders :
    (insts : List PpcInst) (count function_address k : ℕ)
    → function_address + 4 * count < 2 ^ 32
    → (get_or (build_blocks count insts function_address).leaders k false ≡ true)
      ↔ IsLeader count function_address insts k
unfolding build_blocks IsLeader
build_blocks-leaders insts count function_address k bound =
    let start = set (replicate count false) 0 true in
    let marks =
      mark_leaders_iff count function_address 0 insts start k
        (length-set (replicate count false) 0 true ∙ length-replicate count false) in
    let first = get_or-set (replicate count false) 0 k in
    let len = length-replicate count false in
    let blank = get_or-replicate count k false in
    (
      λ h. elim (marks.0 h) [
        | inl q ↦ ground arith
        | inr (n, inst, e, m) ↦
            let (before, code, why) =
              Marks-IsLeader count function_address n inst k bound
                (subst (λ j. Marks count function_address j inst k) (omega arith) m) in
            (before, inr (n, inst, e, code, why))
      ],
      λ h. elim h.1 [
        | inl z ↦ marks.1 (inl (first.1 (inr (z, omega arith))))
        | inr (n, inst, e, code, why) ↦
            let m = IsLeader-Marks count function_address n inst k bound h.0 code why in
            marks.1
              (inr (n, inst, e, subst (λ j. Marks count function_address j inst k) (omega arith) m))
      ],
    )

-- Where the allocations succeed and the function lies in the address space, the graph is built,
-- and its leaders are the first instruction, those after an instruction that ends a block, and the
-- targets of the direct branches, where data words count for nothing.
pub cfg_build-leaders :
    (insts : List PpcInst) (count function_address : ℕ)
    → function_address + 4 * count < 2 ^ 32
    → (cfg : CFunctionCfg) × (cfg_build true insts count function_address ≡ some cfg)
      × ((k : ℕ) → (get_or cfg.leaders k false ≡ true) ↔ IsLeader count function_address insts k)
unfolding cfg_build
cfg_build-leaders insts count function_address bound =
    let blocks = build_blocks count insts function_address in
    let same = (note_loops-same function_address insts 0 insts blocks).0 in
    (
      note_loops function_address insts 0 insts blocks,
      refl,
      λ k.
          subst
            (λ leaders. (get_or leaders k false ≡ true) ↔ IsLeader count function_address insts k)
            (sym same) (build_blocks-leaders insts count function_address k bound),
    )
