-- ===== src/Cfg/LoopEnds.antt =====
-- src/backend/c_cfg.c: every entry of the array `loop_ends` is the end of a loop.
use dol_recomp.Base.{
  ap, some-injective, ℕ, zero, suc, ◌+◌, ◌*◌, ◌^◌, ◌<◌, ltb, ◌≡◌, ◌≢◌, refl, sym, subst, ◌∙◌, ◌⊎◌,
  inl, inr, true, ◌&&◌, Bool-cases, List, [], ◌∷◌, some, get_elem?, get_or, set, get_or-replicate,
  arith,
}
use dol_recomp.Decoder.Inst.{PpcInst}
use dol_recomp.Cfg.Graph.{CFunctionCfg, target_index, can_loop_directly, uint32_max}
use dol_recomp.Cfg.Build.{
  is_straight_line, is_outlinable_span, note_loop, note_round, note_loops, build_blocks, cfg_build,
}
use dol_recomp.Cfg.Loops.{IsLoop, round-IsLoop}

get_or-set_cases :
    (xs : List ℕ) (i j v d : ℕ)
    → (get_or (set xs i v) j d ≡ get_or xs j d) ⊎ ((i ≡ j) × (get_or (set xs i v) j d ≡ v))
get_or-set_cases [] i j v d = inl refl
get_or-set_cases (x ∷ xs) zero zero v d = inr (refl, refl)
get_or-set_cases (x ∷ xs) zero (suc j) v d = inl refl
get_or-set_cases (x ∷ xs) (suc i) zero v d = inl refl
get_or-set_cases (x ∷ xs) (suc i) (suc j) v d = elim (get_or-set_cases xs i j v d) [
  | inl e ↦ inl e
  | inr (e, q) ↦ inr (omega arith, q)
]

-- Every entry that is not the mark UINT32_MAX is the end of a loop.
IsSound : List PpcInst → ℕ → List ℕ → Type 0
IsSound insts function_address loop_ends =
    (first last : ℕ)
    → get_or loop_ends first uint32_max ≡ last
    → last ≢ uint32_max
    → IsLoop insts function_address first last

set-IsSound :
    (insts : List PpcInst) (function_address : ℕ) (loop_ends : List ℕ) (i v : ℕ)
    → IsLoop insts function_address i v
    → IsSound insts function_address loop_ends
    → IsSound insts function_address (set loop_ends i v)
unfolding IsSound
set-IsSound insts function_address loop_ends i v loop sound first last e ne =
    elim (get_or-set_cases loop_ends i first v uint32_max) [
      | inl same ↦ sound first last (sym same ∙ e) ne
      | inr (at, new) ↦
          subst (λ f. IsLoop insts function_address f last) at
            (subst (λ l. IsLoop insts function_address i l) (sym new ∙ e) loop)
    ]

note_loop-IsSound :
    (insts : List PpcInst) (function_address first last : ℕ) (cfg : CFunctionCfg)
    → ((is_straight_line insts first last
            && (is_outlinable_span insts first last && ltb first last))
          ≡ true
        → IsLoop insts function_address first last)
    → IsSound insts function_address cfg.loop_ends
    → IsSound insts function_address (note_loop insts first last cfg).loop_ends
unfolding note_loop
note_loop-IsSound insts function_address first last cfg found sound =
    elim (Bool-cases (
      is_straight_line insts first last
      && (is_outlinable_span insts first last && ltb first last))) [
        | inl e ↦ rw e (set-IsSound insts function_address cfg.loop_ends first last (found e) sound)
        | inr e ↦ rw e sound
      ]

pub note_round-count :
    (function_address : ℕ) (insts : List PpcInst) (last : ℕ) (inst : PpcInst) (cfg : CFunctionCfg)
    → (note_round function_address insts last inst cfg).count ≡ cfg.count
unfolding note_round note_loop
note_round-count function_address insts last inst cfg = ground arith

note_round-IsSound :
    (insts : List PpcInst) (function_address last : ℕ) (inst : PpcInst) (cfg : CFunctionCfg)
    → function_address + 4 * cfg.count < 2 ^ 32
    → get_elem? insts last ≡ some inst
    → IsSound insts function_address cfg.loop_ends
    → IsSound insts function_address (note_round function_address insts last inst cfg).loop_ends
unfolding note_round
note_round-IsSound insts function_address last inst cfg bound at sound =
    elim (Bool-cases (can_loop_directly cfg.count insts function_address last)) [
      | inl e ↦ rw e (
          note_loop-IsSound insts function_address (target_index function_address inst) last cfg
            (round-IsLoop insts cfg.count function_address last inst bound at e) sound)
      | inr e ↦ rw e sound
    ]

note_loops-IsSound :
    (insts : List PpcInst) (function_address last : ℕ) (rest : List PpcInst) (cfg : CFunctionCfg)
    → function_address + 4 * cfg.count < 2 ^ 32
    → ((n : ℕ) (inst : PpcInst)
        → get_elem? rest n ≡ some inst
        → get_elem? insts (last + n) ≡ some inst)
    → IsSound insts function_address cfg.loop_ends
    → IsSound insts function_address (note_loops function_address insts last rest cfg).loop_ends
unfolding note_loops
note_loops-IsSound insts function_address last [] cfg bound at sound = sound
note_loops-IsSound insts function_address last (inst ∷ rest) cfg bound at sound =
    let here = subst (λ j. get_elem? insts j ≡ some inst) (omega arith) (at 0 inst refl) in
    note_loops-IsSound insts function_address (suc last) rest
      (note_round function_address insts last inst cfg)
      (omega (arith, note_round-count function_address insts last inst cfg))
      (λ n found e. subst (λ j. get_elem? insts j ≡ some found) (omega arith) (at (suc n) found e))
      (note_round-IsSound insts function_address last inst cfg bound here sound)

-- In the graph of a function inside the address space, an entry of `loop_ends` other than
-- UINT32_MAX is the end of a loop as `IsLoop` says.
pub cfg_build-IsLoop :
    (insts : List PpcInst) (count function_address : ℕ) (cfg : CFunctionCfg) (first last : ℕ)
    → function_address + 4 * count < 2 ^ 32
    → cfg_build true insts count function_address ≡ some cfg
    → get_or cfg.loop_ends first uint32_max ≡ last
    → last ≢ uint32_max
    → IsLoop insts function_address first last
unfolding cfg_build build_blocks IsSound
cfg_build-IsLoop insts count function_address cfg first last bound built entry ne =
    let blocks = build_blocks count insts function_address in
    let whole = note_loops function_address insts 0 insts blocks in
    note_loops-IsSound insts function_address 0 insts blocks bound
      (λ n inst e. subst (λ j. get_elem? insts j ≡ some inst) (omega arith) e)
      (λ f l e other. absurd (other (sym e ∙ get_or-replicate count f uint32_max))) first last
      (ap (λ (g : CFunctionCfg). get_or g.loop_ends first uint32_max)
          (some-injective whole cfg built)
        ∙ entry)
      ne
