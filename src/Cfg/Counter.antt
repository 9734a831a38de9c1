-- ===== src/Cfg/Counter.antt =====
-- src/backend/c_cfg.c: where `materialize_pc` is cleared, the program counter is not needed.
use dol_recomp.Base.{
  ℕ, zero, suc, ◌+◌, ◌-◌, ◌*◌, ◌^◌, ◌≤◌, ◌<◌, ◌≡◌, refl, sym, ap, subst, ◌∙◌, ◌⊎◌, inl, inr, Bool,
  true, false, Bool-cases, List, [], ◌∷◌, some, some-injective, get_elem?, get_or, set, take, drop,
  get_or-replicate, arith,
}
use dol_recomp.Decoder.Inst.{PpcInst}
use dol_recomp.Cfg.Movable.{instruction_is_pc_transparent}
use dol_recomp.Cfg.Raises.{needs_counter, transparent_lem}
use dol_recomp.Cfg.Graph.{CFunctionCfg, span, target_index, is_direct_branch, can_loop_directly}
use dol_recomp.Cfg.Loops.{can_loop_directly_split, backward_branch}
use dol_recomp.Cfg.LoopEnds.{note_round-count}
use dol_recomp.Cfg.Build.{clear_pc, note_loop, note_round, note_loops, build_blocks, cfg_build}

-- An instruction that needs no program counter stands at an index.
Transparent : List PpcInst → ℕ → Type 0
Transparent insts i =
    (inst : PpcInst) × (get_elem? insts i ≡ some inst) × (instruction_is_pc_transparent inst ≡ true)

-- The index lies in a loop that a direct jump closes, one that does not link.
pub record InLoop (insts : List PpcInst) (function_address i : ℕ) : Type 0 where
  pub first : ℕ
  pub last : ℕ
  pub branch : PpcInst
  pub at : get_elem? insts last ≡ some branch
  pub direct : is_direct_branch branch ≡ true
  pub no_link : branch.lk ≡ false
  pub target : branch.branch_target ≡ function_address + 4 * first
  pub from : first ≤ i
  pub to : i ≤ last

-- A cleared flag belongs to such an instruction, at an index that the loops have gone through.
IsClear : List PpcInst → ℕ → List Bool → Type 0
IsClear insts function_address flags =
    (i : ℕ) → get_or flags i true ≡ false → Transparent insts i × InLoop insts function_address i

get_or-set_clear :
    (flags : List Bool) (i j : ℕ)
    → get_or (set flags i false) j true ≡ false
    → (get_or flags j true ≡ false) ⊎ (i ≡ j)
get_or-set_clear [] i j h = inl h
get_or-set_clear (x ∷ flags) zero zero h = inr refl
get_or-set_clear (x ∷ flags) zero (suc j) h = inl h
get_or-set_clear (x ∷ flags) (suc i) zero h = inl h
get_or-set_clear (x ∷ flags) (suc i) (suc j) h = elim (get_or-set_clear flags i j h) [
  | inl old ↦ inl old
  | inr e ↦ inr (ap suc e)
]

get_elem?-take :
    (n : ℕ) (insts : List PpcInst) (i : ℕ) (inst : PpcInst)
    → get_elem? (take n insts) i ≡ some inst
    → (get_elem? insts i ≡ some inst) × (i < n)
get_elem?-take zero insts i inst h = cc
get_elem?-take (suc n) [] i inst h = cc
get_elem?-take (suc n) (x ∷ insts) zero inst h = (h, omega arith)
get_elem?-take (suc n) (x ∷ insts) (suc i) inst h =
    let (at, lt) = get_elem?-take n insts i inst h in (at, omega arith)

get_elem?-drop :
    (n : ℕ) (insts : List PpcInst) (i : ℕ) → get_elem? (drop n insts) i ≡ get_elem? insts (n + i)
get_elem?-drop zero insts i = ap (λ j. get_elem? insts j) (omega arith)
get_elem?-drop (suc n) [] i = refl
get_elem?-drop (suc n) (x ∷ insts) i =
    get_elem?-drop n insts i
    ∙ ap (λ j. get_elem? (x ∷ insts) j) (let e : suc (n + i) ≡ suc n + i = omega arith in e)

module _ (insts : List PpcInst) (function_address : ℕ) where
  set-IsClear :
      (i : ℕ) (inst : PpcInst) (flags : List Bool)
      → get_elem? insts i ≡ some inst
      → instruction_is_pc_transparent inst ≡ true
      → InLoop insts function_address i
      → IsClear insts function_address flags
      → IsClear insts function_address (set flags i false)
  unfolding IsClear Transparent
  set-IsClear i inst flags at ok loop clear j h = elim (get_or-set_clear flags i j h) [
    | inl old ↦ clear j old
    | inr e ↦
        subst
          (λ k.
            ((x : PpcInst) × (get_elem? insts k ≡ some x)
              × (instruction_is_pc_transparent x ≡ true))
            × InLoop insts function_address k)
          e ((inst, at, ok), loop)
  ]

  -- The loop over members that stand in the function from index `i` on.
  clear_pc-IsClear :
      (i : ℕ) (members : List PpcInst) (flags : List Bool)
      → ((n : ℕ) (inst : PpcInst)
          → get_elem? members n ≡ some inst
          → (get_elem? insts (i + n) ≡ some inst) × InLoop insts function_address (i + n))
      → IsClear insts function_address flags
      → IsClear insts function_address (clear_pc i members flags)
  unfolding clear_pc
  clear_pc-IsClear i [] flags at clear = clear
  clear_pc-IsClear i (inst ∷ members) flags at clear =
      let later : (n : ℕ) (found : PpcInst)
          → get_elem? members n ≡ some found
          → (get_elem? insts (suc i + n) ≡ some found) × InLoop insts function_address (suc i + n) =
        λ n found e.
          subst (λ j. (get_elem? insts j ≡ some found) × InLoop insts function_address j)
            (let shift : i + suc n ≡ suc i + n = omega arith in shift) (at (suc n) found e) in
      let (here, loop) =
        subst (λ j. (get_elem? insts j ≡ some inst) × InLoop insts function_address j)
          (let first : i + 0 ≡ i = omega arith in first) (at 0 inst refl) in
      elim (Bool-cases (instruction_is_pc_transparent inst)) [
        | inl ok ↦ rw ok (
            clear_pc-IsClear (suc i) members (set flags i false) later
              (set-IsClear i inst flags here ok loop clear))
        | inr no_need ↦ rw no_need (clear_pc-IsClear (suc i) members flags later clear)
      ]

  note_loop-IsClear :
      (first last : ℕ) (cfg : CFunctionCfg)
      → ((i : ℕ) → first ≤ i → i ≤ last → InLoop insts function_address i)
      → IsClear insts function_address cfg.materialize_pc
      → IsClear insts function_address (note_loop insts first last cfg).materialize_pc
  unfolding note_loop
  note_loop-IsClear first last cfg loop clear =
      clear_pc-IsClear first (span insts first (suc last)) cfg.materialize_pc
        (λ n inst e.
          let (at, lt) = get_elem?-take (suc last - first) (drop first insts) n inst e in
          (sym (get_elem?-drop first insts n) ∙ at, loop (first + n) (omega arith) (omega arith)))
        clear

  note_round-IsClear :
      (last : ℕ) (inst : PpcInst) (cfg : CFunctionCfg)
      → function_address + 4 * cfg.count < 2 ^ 32
      → get_elem? insts last ≡ some inst
      → IsClear insts function_address cfg.materialize_pc
      → IsClear insts function_address
          (note_round function_address insts last inst cfg).materialize_pc
  unfolding note_round
  note_round-IsClear last inst cfg bound at clear =
      elim (Bool-cases (can_loop_directly cfg.count insts function_address last)) [
        | inl e ↦
            let (back, clock) =
              can_loop_directly_split cfg.count insts function_address last inst at e in
            let (direct, no_link, lt, target) =
              backward_branch cfg.count function_address inst bound back in
            rw e (
              note_loop-IsClear (target_index function_address inst) last cfg
                (λ i from to. record {
                  first = target_index function_address inst;
                  last = last;
                  branch = inst;
                  at = at;
                  direct = direct;
                  no_link = no_link;
                  target = target;
                  from = from;
                  to = to;
                })
                clear)
        | inr e ↦ rw e clear
      ]

  note_loops-IsClear :
      (last : ℕ) (rest : List PpcInst) (cfg : CFunctionCfg)
      → function_address + 4 * cfg.count < 2 ^ 32
      → ((n : ℕ) (inst : PpcInst)
          → get_elem? rest n ≡ some inst
          → get_elem? insts (last + n) ≡ some inst)
      → IsClear insts function_address cfg.materialize_pc
      → IsClear insts function_address
          (note_loops function_address insts last rest cfg).materialize_pc
  unfolding note_loops
  note_loops-IsClear last [] cfg bound at clear = clear
  note_loops-IsClear last (inst ∷ rest) cfg bound at clear =
      let here = subst (λ j. get_elem? insts j ≡ some inst) (omega arith) (at 0 inst refl) in
      note_loops-IsClear (suc last) rest (note_round function_address insts last inst cfg)
        (omega (arith, note_round-count function_address insts last inst cfg))
        (λ n found e.
          subst (λ j. get_elem? insts j ≡ some found) (omega arith) (at (suc n) found e))
        (note_round-IsClear last inst cfg bound here clear)

-- In the graph of a function inside the address space, an instruction whose flag in
-- `materialize_pc` is cleared is one of the function that can neither raise an exception nor
-- branch to LR or CTR, and it lies in a loop: between the target of a direct jump of the function
-- that does not link and that jump, both included.
pub cfg_build-materialize_pc :
    (insts : List PpcInst) (count function_address : ℕ) (cfg : CFunctionCfg) (i : ℕ)
    → function_address + 4 * count < 2 ^ 32
    → cfg_build true insts count function_address ≡ some cfg
    → get_or cfg.materialize_pc i true ≡ false
    → ((inst : PpcInst) × (get_elem? insts i ≡ some inst) × (needs_counter inst.op ≡ false))
      × InLoop insts function_address i
unfolding cfg_build build_blocks IsClear Transparent instruction_is_pc_transparent
cfg_build-materialize_pc insts count function_address cfg i bound built cleared =
    let blocks = build_blocks count insts function_address in
    let whole = note_loops function_address insts 0 insts blocks in
    let found =
      note_loops-IsClear insts function_address 0 insts blocks bound
        (λ n inst e. subst (λ j. get_elem? insts j ≡ some inst) (omega arith) e)
        (λ j no_flag. cc (get_or-replicate count j true)) i
        (ap (λ (g : CFunctionCfg). get_or g.materialize_pc i true) (some-injective whole cfg built)
          ∙ cleared) in
    let (inst, at, ok) = found.0 in ((inst, at, transparent_lem inst.op ok), found.1)
