-- ===== src/Cfg/Leaders.antt =====
-- src/backend/c_cfg.c: exactly which instructions `c_function_cfg_build` makes leaders.
use dol_recomp.Base.{
  some-injective, ℕ, zero, suc, ◌+◌, ◌*◌, ◌-◌, ◌/◌, ◌^◌, ◌<◌, ◌≡◌, refl, sym, subst, ◌∙◌, ◌↔◌, ◌⊎◌,
  inl, inr, Bool, true, false, List, [], ◌∷◌, some, length, length-set, get_elem?, get_or, set,
  arith,
}
use dol_recomp.Decoder.Inst.{PpcInst}
use dol_recomp.Cfg.Classes.{instruction_ends_block}
use dol_recomp.Cfg.Graph.{cfg_contains, target_index, is_direct_branch}
use dol_recomp.Cfg.Build.{mark_next, mark_target, mark_round, mark_leaders}

pub get_or-set :
    (xs : List Bool) (i k : ℕ)
    → (get_or (set xs i true) k false ≡ true)
      ↔ ((get_or xs k false ≡ true) ⊎ ((k ≡ i) × (i < length xs)))
get_or-set [] i k = ground arith
get_or-set (x ∷ xs) zero zero = ground arith
get_or-set (x ∷ xs) zero (suc k) = ground arith
get_or-set (x ∷ xs) (suc i) zero = ground arith
get_or-set (x ∷ xs) (suc i) (suc k) = let h = get_or-set xs i k in ground arith

-- Inside the address space the test holds for the addresses of the instructions, and only for them.
pub cfg_contains_iff :
    (count function_address address : ℕ)
    → function_address + 4 * count < 2 ^ 32
    → (cfg_contains count function_address address ≡ true)
      ↔ ((k : ℕ) × (k < count) × (address ≡ function_address + 4 * k))
unfolding cfg_contains
cfg_contains_iff count function_address address bound =
    (λ h. ((address - function_address) / 4, ground arith, ground arith), λ h. ground arith)

cfg_contains-lt :
    (count function_address : ℕ) (inst : PpcInst)
    → cfg_contains count function_address inst.branch_target ≡ true
    → target_index function_address inst < count
unfolding cfg_contains target_index
cfg_contains-lt count function_address inst h = ground arith

-- The round of the loop at index `i`, with the instruction `inst`, makes `k` a leader.
abbrev pub Marks : ℕ → ℕ → ℕ → PpcInst → ℕ → Type 0
Marks count function_address i inst k =
    (inst.embedded_data ≡ false)
    × (((instruction_ends_block inst ≡ true) × (k ≡ suc i) × (k < count))
        ⊎ ((is_direct_branch inst ≡ true)
            × (cfg_contains count function_address inst.branch_target ≡ true)
            × (k ≡ target_index function_address inst)))

mark_next_iff :
    (count i : ℕ) (inst : PpcInst) (leaders : List Bool) (k : ℕ)
    → length leaders ≡ count
    → (get_or (mark_next count i inst leaders) k false ≡ true) ↔ (
        (get_or leaders k false ≡ true)
        ⊎ ((instruction_ends_block inst ≡ true) × (k ≡ suc i) × (k < count)))
unfolding mark_next
mark_next_iff count i inst leaders k len = let h = get_or-set leaders (suc i) k in ground arith

mark_target_iff :
    (count function_address : ℕ) (inst : PpcInst) (leaders : List Bool) (k : ℕ)
    → length leaders ≡ count
    → (get_or (mark_target count function_address inst leaders) k false ≡ true) ↔ (
        (get_or leaders k false ≡ true)
        ⊎ ((is_direct_branch inst ≡ true)
            × (cfg_contains count function_address inst.branch_target ≡ true)
            × (k ≡ target_index function_address inst)))
unfolding mark_target
mark_target_iff count function_address inst leaders k len =
    let h = get_or-set leaders (target_index function_address inst) k in
    let lt = cfg_contains-lt count function_address inst in ground arith

length-mark_next :
    (count i : ℕ) (inst : PpcInst) (leaders : List Bool)
    → length (mark_next count i inst leaders) ≡ length leaders
unfolding mark_next
length-mark_next count i inst leaders = let h = length-set leaders (suc i) true in ground arith

length-mark_target :
    (count function_address : ℕ) (inst : PpcInst) (leaders : List Bool)
    → length (mark_target count function_address inst leaders) ≡ length leaders
unfolding mark_target
length-mark_target count function_address inst leaders =
    let h = length-set leaders (target_index function_address inst) true in ground arith

length-mark_round :
    (count function_address i : ℕ) (inst : PpcInst) (leaders : List Bool)
    → length (mark_round count function_address i inst leaders) ≡ length leaders
unfolding mark_round
length-mark_round count function_address i inst leaders =
    let next = length-mark_next count i inst leaders in
    let target = length-mark_target count function_address inst (mark_next count i inst leaders) in
    ground arith

-- One round of the loop, data words included.
mark_round_iff :
    (count function_address i : ℕ) (inst : PpcInst) (leaders : List Bool) (k : ℕ)
    → length leaders ≡ count
    → (get_or (mark_round count function_address i inst leaders) k false ≡ true)
      ↔ ((get_or leaders k false ≡ true) ⊎ Marks count function_address i inst k)
unfolding mark_round
mark_round_iff count function_address i inst leaders k len =
    let next = mark_next_iff count i inst leaders k len in
    let target =
      mark_target_iff count function_address inst (mark_next count i inst leaders) k
        (length-mark_next count i inst leaders ∙ len) in
    ground arith

-- The rounds from index `i` on.
pub mark_leaders_iff :
    (count function_address i : ℕ) (insts : List PpcInst) (leaders : List Bool) (k : ℕ)
    → length leaders ≡ count
    → (get_or (mark_leaders count function_address i insts leaders) k false ≡ true) ↔ (
        (get_or leaders k false ≡ true)
        ⊎ ((n : ℕ) × (inst : PpcInst) × (get_elem? insts n ≡ some inst)
            × Marks count function_address (i + n) inst k))
unfolding mark_leaders
mark_leaders_iff count function_address i [] leaders k len =
    (λ h. inl h, λ h. elim h [ inl q ↦ q | inr (n, inst, e, m) ↦ cc ])
mark_leaders_iff count function_address i (inst ∷ insts) leaders k len =
    let round = mark_round_iff count function_address i inst leaders k len in
    let rest =
      mark_leaders_iff count function_address (suc i) insts
        (mark_round count function_address i inst leaders) k
        (length-mark_round count function_address i inst leaders ∙ len) in
    (
      λ h. elim (rest.0 h) [
        | inl q ↦ elim (round.0 q) [
          | inl old ↦ inl old
          | inr m ↦
              inr
                (0, inst, refl, subst (λ j. Marks count function_address j inst k) (omega arith) m)
        ]
        | inr (n, found, e, m) ↦
            inr
              (suc n, found, e, subst (λ j. Marks count function_address j found k) (omega arith) m)
      ],
      λ h. elim h [
        | inl old ↦ rest.1 (inl (round.1 (inl old)))
        | inr (zero, found, e, m) ↦ rest.1 (
            inl (
              round.1 (
                inr (
                  subst (λ x. Marks count function_address i x k)
                    (sym (some-injective inst found e))
                    (subst (λ j. Marks count function_address j found k) (omega arith) m)))))
        | inr (suc n, found, e, m) ↦
            rest.1 (
              inr
                (n, found, e, subst (λ j. Marks count function_address j found k) (omega arith) m))
      ],
    )

-- What a leader is: the first instruction, one after an instruction that ends a block, or the
-- target of a direct branch. Data words count for nothing.
unfoldable pub IsLeader : ℕ → ℕ → List PpcInst → ℕ → Type 0
IsLeader count function_address insts k =
    (k < count)
    × ((k ≡ 0)
        ⊎ ((i : ℕ) × (inst : PpcInst) × (get_elem? insts i ≡ some inst)
            × (inst.embedded_data ≡ false)
            × (((instruction_ends_block inst ≡ true) × (k ≡ suc i))
                ⊎ ((is_direct_branch inst ≡ true)
                    × (inst.branch_target ≡ function_address + 4 * k)))))

pub Marks-IsLeader :
    (count function_address i : ℕ) (inst : PpcInst) (k : ℕ)
    → function_address + 4 * count < 2 ^ 32
    → Marks count function_address i inst k
    → (k < count)
      × (inst.embedded_data ≡ false)
      × (((instruction_ends_block inst ≡ true) × (k ≡ suc i))
          ⊎ ((is_direct_branch inst ≡ true) × (inst.branch_target ≡ function_address + 4 * k)))
unfolding target_index
Marks-IsLeader count function_address i inst k bound m =
    let h = (cfg_contains_iff count function_address inst.branch_target bound).0 in
    elim m.1 [
      | inl (ends, eq, before) ↦ (before, m.0, inl (ends, eq))
      | inr (direct, inside, eq) ↦
          let (q, before, at) = h inside in (omega arith, m.0, inr (direct, omega arith))
    ]

pub IsLeader-Marks :
    (count function_address i : ℕ) (inst : PpcInst) (k : ℕ)
    → function_address + 4 * count < 2 ^ 32
    → k < count
    → (inst.embedded_data ≡ false)
    → (((instruction_ends_block inst ≡ true) × (k ≡ suc i))
        ⊎ ((is_direct_branch inst ≡ true) × (inst.branch_target ≡ function_address + 4 * k)))
    → Marks count function_address i inst k
unfolding target_index
IsLeader-Marks count function_address i inst k bound lt code h =
    let inside = (cfg_contains_iff count function_address inst.branch_target bound).1 in
    elim h [
      | inl (ends, eq) ↦ (code, inl (ends, eq, lt))
      | inr (direct, at) ↦ (code, inr (direct, inside (k, lt, at), omega arith))
    ]
