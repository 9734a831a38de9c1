-- ===== src/Ir/Forget.antt =====
-- src/ir/dolir_address.c: what the analysis knows of the state after an instruction.
use dol_recomp.Base.{
  ℕ, zero, suc, ◌+◌, ◌≤◌, ◌<◌, ◌==◌, ◌≡◌, refl, ap, ◌∙◌, inl, inr, ◌≢◌, ◌⊎◌, subst, Bool, true,
  false, not, ◌&&◌, if◌then◌else◌, List, [], ◌∷◌, get_or, set, arith,
}
use dol_recomp.Ir.Types.{DolIrInstruction}
use dol_recomp.Ir.Values.{AbstractValue, unknown_value}
use dol_recomp.Ir.Addresses.{
  Known, value_at, dolir_state_mask_test, is_state_write, forget_slots, analyze_instruction,
  dolir_state_count,
}

set_same : {A : Type 0} (xs : List A) (i : ℕ) (d : A) → get_or (set xs i d) i d ≡ d
set_same [] i d = refl
set_same (x ∷ xs) zero d = refl
set_same (x ∷ xs) (suc i) d = set_same xs i d

set_other :
    {A : Type 0} (xs : List A) (i j : ℕ) (d : A) → i ≢ j → get_or (set xs i d) j d ≡ get_or xs j d
set_other [] i j d h = refl
set_other (x ∷ xs) zero zero d h = absurd (h refl)
set_other (x ∷ xs) zero (suc j) d h = refl
set_other (x ∷ xs) (suc i) zero d h = refl
set_other (x ∷ xs) (suc i) (suc j) d h = set_other xs i j d (λ e. h (ap suc e))

-- Whether the loop forgets a slot.
abbrev forgotten : DolIrInstruction → ℕ → Bool
forgotten instruction slot =
    dolir_state_mask_test instruction.state_defs slot
    && not (is_state_write instruction.op && (instruction.aux == slot))

round_other :
    (state : List AbstractValue) (slot s : ℕ) (b : Bool)
    → slot ≢ s
    → value_at (if b then set state slot unknown_value else state) s ≡ value_at state s
round_other state slot s true h = set_other state slot s unknown_value h
round_other state slot s false h = refl

forget_slots-below :
    (instruction : DolIrInstruction) (state : List AbstractValue) (slot rounds s : ℕ)
    → s < slot
    → value_at (forget_slots instruction state slot rounds) s ≡ value_at state s
unfolding forget_slots
forget_slots-below instruction state slot zero s h = refl
forget_slots-below instruction state slot (suc rounds) s h =
    forget_slots-below instruction
      (if forgotten instruction slot then set state slot unknown_value else state) (suc slot) rounds
      s (omega arith)
    ∙ round_other state slot s (forgotten instruction slot) (λ e. absurd (omega (arith, e)))

-- The loop forgets the slots that it should and no others.
forget_slots-each :
    (instruction : DolIrInstruction) (state : List AbstractValue) (slot rounds s : ℕ)
    → slot ≤ s
    → s < slot + rounds
    → value_at (forget_slots instruction state slot rounds) s
      ≡ (if forgotten instruction s then unknown_value else value_at state s)
unfolding forget_slots
forget_slots-each instruction state slot zero s p q = absurd (omega arith)
forget_slots-each instruction state slot (suc rounds) s p q = elim (cases slot s) [
  | inl e ↦
      forget_slots-below instruction
        (if forgotten instruction slot then set state slot unknown_value else state) (suc slot)
        rounds s (omega (arith, e))
      ∙ subst
          (λ (t : ℕ).
            value_at (if forgotten instruction slot then set state slot unknown_value else state) t
            ≡ (if forgotten instruction t then unknown_value else value_at state t))
          e (here state slot (forgotten instruction slot))
  | inr d ↦
      forget_slots-each instruction
        (if forgotten instruction slot then set state slot unknown_value else state) (suc slot)
        rounds s (ground (arith, d)) (omega arith)
      ∙ ap (λ (v : AbstractValue). if forgotten instruction s then unknown_value else v)
          (round_other state slot s (forgotten instruction slot) d)
]
  where
    cases : (a b : ℕ) → (a ≡ b) ⊎ (a ≢ b)
    cases a b = ground arith

    here :
        (state : List AbstractValue) (slot : ℕ) (b : Bool)
        → value_at (if b then set state slot unknown_value else state) slot
          ≡ (if b then unknown_value else value_at state slot)
    here state slot true = set_same state slot unknown_value
    here state slot false = refl

-- After an instruction that does not write a slot as its operation, each slot that it defines is
-- unknown and the analysis knows of each other what it knew before.
pub analyze_instruction-state :
    (instruction : DolIrInstruction) (known : Known) (slot : ℕ)
    → slot < dolir_state_count
    → is_state_write instruction.op ≡ false
    → value_at (analyze_instruction instruction known).1.state slot ≡ (
        if dolir_state_mask_test instruction.state_defs slot
        then unknown_value
        else value_at known.state slot)
unfolding analyze_instruction
analyze_instruction-state instruction known slot lt other = rw other (
    forget_slots-each instruction known.state 0 dolir_state_count slot (omega arith) lt
    ∙ rw other (without_write (dolir_state_mask_test instruction.state_defs slot) _ _))
  where
    without_write :
        (b : Bool) (x y : AbstractValue) → (if b && true then x else y) ≡ (if b then x else y)
    without_write true x y = refl
    without_write false x y = refl
