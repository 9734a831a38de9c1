-- ===== src/Cfg/Cycles.antt =====
-- src/backend/c_cfg.c: the cycles of the blocks of a function add up to those of its instructions.
use dol_recomp.Base.{
  ℕ, zero, suc, ◌+◌, ◌*◌, ◌^◌, ◌≤◌, ◌<◌, ◌==◌, ◌≡◌, refl, ◌∙◌, inl, inr, Bool, true, false, ◌||◌,
  u32, if◌then◌else◌, Bool-cases, List, [], ◌∷◌, length, length-set, get_or, set, arith,
}
use dol_recomp.Decoder.Inst.{PpcInst}
use dol_recomp.Cfg.Classes.{instruction_ends_block, instruction_cycles, op_cycles}
use dol_recomp.Cfg.Build.{sum_block, sum_round, sum_cycles}

-- The cycles of a whole function, without machine words.
unfoldable pub total_cycles : List PpcInst → ℕ
total_cycles [] = 0
total_cycles (inst ∷ insts) = instruction_cycles inst + total_cycles insts

unfoldable pub sum_list : List ℕ → ℕ
sum_list [] = 0
sum_list (n ∷ ns) = n + sum_list ns

-- The cycles from an instruction to the end of its block, without machine words.
unfoldable pub block_total : ℕ → List Bool → ℕ → List PpcInst → ℕ
block_total count leaders j [] = 0
block_total count leaders j (inst ∷ insts) =
    let rest = block_total count leaders (suc j) insts in
    instruction_cycles inst
    + (if instruction_ends_block inst || (suc j == count || get_or leaders (suc j) false)
        then 0
        else rest)

op_cycles-bound : (inst : PpcInst) → instruction_cycles inst ≤ 40
unfolding instruction_cycles op_cycles
op_cycles-bound inst = ground arith

total_cycles-bound : (insts : List PpcInst) → total_cycles insts ≤ 40 * length insts
unfolding total_cycles
total_cycles-bound [] = omega arith
total_cycles-bound (inst ∷ insts) = omega (arith, op_cycles-bound inst, total_cycles-bound insts)

pub block_total-bound :
    (count : ℕ) (leaders : List Bool) (j : ℕ) (insts : List PpcInst)
    → block_total count leaders j insts ≤ 40 * length insts
unfolding block_total
block_total-bound count leaders j [] = omega arith
block_total-bound count leaders j (inst ∷ insts) =
    let h = block_total-bound count leaders (suc j) insts in
    let c = op_cycles-bound inst in ground arith

-- Without overflow the loop adds the block's cycles to the sum so far.
sum_block-total :
    (count : ℕ) (leaders : List Bool) (j : ℕ) (insts : List PpcInst) (sum : ℕ)
    → sum + 40 * length insts < 2 ^ 32
    → sum_block count leaders j insts sum ≡ sum + block_total count leaders j insts
unfolding sum_block block_total
sum_block-total count leaders j [] sum bound = omega arith
sum_block-total count leaders j (inst ∷ insts) sum bound =
    let c = op_cycles-bound inst in
    let h = sum_block-total count leaders (suc j) insts (u32 (sum + instruction_cycles inst)) in
    ground arith

sum_list-set :
    (xs : List ℕ) (i v : ℕ)
    → i < length xs
    → sum_list (set xs i v) + get_or xs i 0 ≡ sum_list xs + v
unfolding sum_list
sum_list-set [] i v h = omega arith
sum_list-set (x ∷ xs) zero v h = omega arith
sum_list-set (x ∷ xs) (suc i) v h = let ih = sum_list-set xs i v (omega arith) in omega arith

get_or-set_later : (xs : List ℕ) (i j v : ℕ) → i < j → get_or (set xs i v) j 0 ≡ get_or xs j 0
get_or-set_later [] i j v h = refl
get_or-set_later (x ∷ xs) i zero v h = omega arith
get_or-set_later (x ∷ xs) zero (suc j) v h = refl
get_or-set_later (x ∷ xs) (suc i) (suc j) v h = get_or-set_later xs i j v (omega arith)

-- From index `i` on, an instruction that ends a block is followed by a leader.
unfoldable pub EndsLead : ℕ → List Bool → ℕ → List PpcInst → Type 0
EndsLead count leaders i [] = Unit
EndsLead count leaders i (inst ∷ insts) =
    (instruction_ends_block inst ≡ true → suc i < count → get_or leaders (suc i) false ≡ true)
    × EndsLead count leaders (suc i) insts

sum_round-laws :
    (count : ℕ) (leaders : List Bool) (i : ℕ) (insts : List PpcInst) (block_cycles : List ℕ)
    → 40 * length insts < 2 ^ 32
    → i < length block_cycles
    → get_or block_cycles i 0 ≡ 0
    → (length (sum_round count leaders i insts block_cycles) ≡ length block_cycles)
      × (sum_list (sum_round count leaders i insts block_cycles)
          ≡ sum_list block_cycles
            + (if get_or leaders i false then block_total count leaders i insts else 0))
      × ((j : ℕ)
          → i < j
          → get_or (sum_round count leaders i insts block_cycles) j 0 ≡ get_or block_cycles j 0)
unfolding sum_round
sum_round-laws count leaders i insts block_cycles bound lt z =
    let v = sum_block count leaders i insts (get_or block_cycles i 0) in
    let total = sum_block-total count leaders i insts (get_or block_cycles i 0) (omega arith) in
    let one = sum_list-set block_cycles i v lt in
    let two = length-set block_cycles i v in
    let three = (λ (j : ℕ) (h : i < j). get_or-set_later block_cycles i j v h) in
    (
      ground arith,
      ground arith,
      λ j h. elim (Bool-cases (get_or leaders i false)) [
        | inl e ↦ rw e (three j h)
        | inr e ↦ rw e refl
      ],
    )

pub sum_cycles-total :
    (count : ℕ) (leaders : List Bool) (i : ℕ) (insts : List PpcInst) (block_cycles : List ℕ)
    → 40 * count < 2 ^ 32
    → i + length insts ≡ count
    → length block_cycles ≡ count
    → ((j : ℕ) → i ≤ j → get_or block_cycles j 0 ≡ 0)
    → EndsLead count leaders i insts
    → sum_list (sum_cycles count leaders i insts block_cycles)
        + (if get_or leaders i false then 0 else block_total count leaders i insts)
      ≡ sum_list block_cycles + total_cycles insts
unfolding sum_cycles block_total total_cycles EndsLead
sum_cycles-total count leaders i [] block_cycles bound len size zeros led = ground arith
sum_cycles-total count leaders i (inst ∷ insts) block_cycles bound len size zeros led =
    let laws =
      sum_round-laws count leaders i (inst ∷ insts) block_cycles (omega arith) (omega arith)
        (zeros i (omega arith)) in
    let ih =
      sum_cycles-total count leaders (suc i) insts
        (sum_round count leaders i (inst ∷ insts) block_cycles) bound (omega arith) (laws.0 ∙ size)
        (λ j h. laws.2 j (omega arith) ∙ zeros j (omega arith)) led.1 in
    let here = laws.1 in
    let next = led.0 in let tail = block_total-bound count leaders (suc i) insts in ground arith
