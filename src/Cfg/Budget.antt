-- ===== src/Cfg/Budget.antt =====
-- src/backend/c_cfg.c: the cycles that the graph of a function without data words gives to blocks.
use dol_recomp.Base.{
  ℕ, zero, suc, ◌+◌, ◌*◌, ◌^◌, ◌<◌, ◌≡◌, refl, ap, ◌∙◌, inl, inr, ◌⊎◌, subst, Bool, true, false,
  List, [], ◌∷◌, some, length, length-replicate, get_elem?, get_or, get_or-replicate, replicate,
  arith,
}
use dol_recomp.Decoder.Inst.{PpcInst}
use dol_recomp.Cfg.Classes.{instruction_ends_block}
use dol_recomp.Cfg.Graph.{CFunctionCfg}
use dol_recomp.Cfg.Build.{note_loops, build_blocks, cfg_build}
use dol_recomp.Cfg.Leaders.{IsLeader}
use dol_recomp.Cfg.Whole.{note_loops-same, build_blocks-leaders}
use dol_recomp.Cfg.Cycles.{total_cycles, sum_list, EndsLead, block_total-bound, sum_cycles-total}

EndsLead-intro :
    (count : ℕ) (leaders : List Bool) (i : ℕ) (insts : List PpcInst)
    → ((n : ℕ) (inst : PpcInst)
        → get_elem? insts n ≡ some inst
        → instruction_ends_block inst ≡ true
        → suc (i + n) < count
        → get_or leaders (suc (i + n)) false ≡ true)
    → EndsLead count leaders i insts
unfolding EndsLead
EndsLead-intro count leaders i [] h = tt
EndsLead-intro count leaders i (inst ∷ insts) h = (
  λ ends lt.
      subst (λ j. get_or leaders (suc j) false ≡ true) (omega arith)
        (h 0 inst refl ends (omega arith)),
  EndsLead-intro count leaders (suc i) insts (λ n found at ends lt.
      subst (λ j. get_or leaders (suc j) false ≡ true) (omega arith)
        (h (suc n) found at ends (omega arith))),
)

sum_list-replicate : (n : ℕ) → sum_list (replicate n 0) ≡ 0
unfolding sum_list
sum_list-replicate zero = refl
sum_list-replicate (suc n) = omega (arith, sum_list-replicate n)

build_blocks-EndsLead :
    (insts : List PpcInst) (count function_address : ℕ)
    → function_address + 4 * count < 2 ^ 32
    → ((n : ℕ) (inst : PpcInst) → get_elem? insts n ≡ some inst → inst.embedded_data ≡ false)
    → EndsLead count (build_blocks count insts function_address).leaders 0 insts
unfolding IsLeader
build_blocks-EndsLead insts count function_address bound code =
    let leaders = build_blocks-leaders insts count function_address in
    EndsLead-intro count (build_blocks count insts function_address).leaders 0 insts
      (λ n inst at ends lt.
        (leaders (suc (0 + n)) bound).1
          (lt, inr (n, inst, at, code n inst at, inl (ends, omega arith))))

first_leader :
    (insts : List PpcInst) (count function_address : ℕ)
    → function_address + 4 * count < 2 ^ 32
    → (count ≡ 0) ⊎ (get_or (build_blocks count insts function_address).leaders 0 false ≡ true)
unfolding IsLeader
first_leader insts zero function_address bound = inl refl
first_leader insts (suc count) function_address bound =
    inr
      ((build_blocks-leaders insts (suc count) function_address 0 bound).1 (omega arith, inl refl))

build_blocks-cycles :
    (insts : List PpcInst) (count function_address : ℕ)
    → length insts ≡ count
    → function_address + 4 * count < 2 ^ 32
    → 40 * count < 2 ^ 32
    → ((n : ℕ) (inst : PpcInst) → get_elem? insts n ≡ some inst → inst.embedded_data ≡ false)
    → sum_list (build_blocks count insts function_address).block_cycles ≡ total_cycles insts
unfolding build_blocks
build_blocks-cycles insts count function_address len bound small code =
    let blocks = build_blocks count insts function_address in
    let total =
      sum_cycles-total count blocks.leaders 0 insts (replicate count 0) small (omega arith)
        (length-replicate count 0) (λ j h. get_or-replicate count j 0)
        (build_blocks-EndsLead insts count function_address bound code) in
    let zeros = sum_list-replicate count in
    let none_left = block_total-bound count blocks.leaders 0 insts in
    elim (first_leader insts count function_address bound) [
      | inl empty ↦ ground arith
      | inr first ↦ ground arith
    ]

-- The cycles of all blocks together are those of all instructions: every instruction is in exactly
-- one block. It is assumed that no word is data, that the function lies in the address space, and
-- that 40 cycles for each instruction do not overflow 32 bits.
pub cfg_build-cycles :
    (insts : List PpcInst) (count function_address : ℕ)
    → length insts ≡ count
    → function_address + 4 * count < 2 ^ 32
    → 40 * count < 2 ^ 32
    → ((n : ℕ) (inst : PpcInst) → get_elem? insts n ≡ some inst → inst.embedded_data ≡ false)
    → (cfg : CFunctionCfg) × (cfg_build true insts count function_address ≡ some cfg)
      × (sum_list cfg.block_cycles ≡ total_cycles insts)
unfolding cfg_build
cfg_build-cycles insts count function_address len bound small code =
    let blocks = build_blocks count insts function_address in
    (
      note_loops function_address insts 0 insts blocks,
      refl,
      ap sum_list (note_loops-same function_address insts 0 insts blocks).1
          ∙ build_blocks-cycles insts count function_address len bound small code,
    )
