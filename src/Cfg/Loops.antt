-- ===== src/Cfg/Loops.antt =====
-- src/backend/c_cfg.c: what an entry of `loop_ends` promises to the emitter.
use dol_recomp.Base.{
  ℕ, zero, suc, ◌+◌, ◌*◌, ◌^◌, ◌≤◌, ◌<◌, ltb, ◌≡◌, subst, Bool, true, false, not, ◌&&◌, List, [],
  ◌∷◌, some, some-injective, get_elem?, take, drop, arith,
}
use dol_recomp.Decoder.Inst.{PpcInst}
use dol_recomp.Cfg.Classes.{instruction_ends_block}
use dol_recomp.Cfg.Movable.{instruction_is_outlinable}
use dol_recomp.Cfg.Graph.{
  target_index, is_direct_branch, is_backward_branch, reads_time_base, any_inst, span,
  can_loop_directly,
}
use dol_recomp.Cfg.Build.{is_straight_line, is_outlinable_span}
use dol_recomp.Cfg.Leaders.{cfg_contains_iff}

-- The loop from `first` to `last`, which `last` closes by a direct jump that does not link: its
-- members before the jump stay inside the block, all may be moved out, and none reads the clock.
pub record IsLoop (insts : List PpcInst) (function_address first last : ℕ) : Type 0 where
  pub branch : PpcInst
  pub at : get_elem? insts last ≡ some branch
  pub direct : is_direct_branch branch ≡ true
  pub no_link : branch.lk ≡ false
  pub target : branch.branch_target ≡ function_address + 4 * first
  pub forwards : first < last
  pub straight :
      (i : ℕ) (inst : PpcInst)
      → first ≤ i
      → i < last
      → get_elem? insts i ≡ some inst
      → instruction_ends_block inst ≡ false
  pub members :
      (i : ℕ) (inst : PpcInst)
      → first ≤ i
      → i ≤ last
      → get_elem? insts i ≡ some inst
      → (instruction_is_outlinable inst ≡ true) × (reads_time_base inst ≡ false)

-- A loop over a prefix, then over a span, that finds nothing has seen every member.
any_take :
    (p : PpcInst → Bool) (n : ℕ) (insts : List PpcInst) (i : ℕ) (inst : PpcInst)
    → any_inst p (take n insts) ≡ false
    → i < n
    → get_elem? insts i ≡ some inst
    → p inst ≡ false
unfolding any_inst
any_take p zero insts i inst none_found lt at = absurd (omega arith)
any_take p (suc n) [] i inst none_found lt at = cc
any_take p (suc n) (x ∷ insts) zero inst none_found lt at =
    subst (λ y. p y ≡ false) (some-injective x inst at) (ground arith)
any_take p (suc n) (x ∷ insts) (suc i) inst none_found lt at =
    any_take p n insts i inst (ground arith) (omega arith) at

any_span :
    (p : PpcInst → Bool) (insts : List PpcInst) (first end i : ℕ) (inst : PpcInst)
    → any_inst p (span insts first end) ≡ false
    → first ≤ i
    → i < end
    → get_elem? insts i ≡ some inst
    → p inst ≡ false
any_span p insts zero end i inst none_found le lt at =
    any_take p end insts i inst
      (subst (λ n. any_inst p (take n insts) ≡ false) (omega arith) none_found) lt at
any_span p [] (suc first) end i inst none_found le lt at = cc
any_span p (x ∷ insts) (suc first) end zero inst none_found le lt at = absurd (omega arith)
any_span p (x ∷ insts) (suc first) zero (suc i) inst none_found le lt at = absurd (omega arith)
any_span p (x ∷ insts) (suc first) (suc end) (suc i) inst none_found le lt at =
    any_span p insts first end i inst
      (subst (λ n. any_inst p (take n (drop first insts)) ≡ false) (omega arith) none_found)
      (omega arith) (omega arith) at

-- The test of `c_function_cfg_can_loop_directly` on the branch that it reads.
pub can_loop_directly_split :
    (count : ℕ) (insts : List PpcInst) (function_address last : ℕ) (branch : PpcInst)
    → get_elem? insts last ≡ some branch
    → can_loop_directly count insts function_address last ≡ true
    → (is_backward_branch count function_address branch ≡ true)
      × (any_inst reads_time_base (span insts (target_index function_address branch) (suc last))
          ≡ false)
unfolding can_loop_directly
can_loop_directly_split count insts function_address last branch at h = ground arith

-- What a direct loop's branch says of its span.
pub backward_branch :
    (count function_address : ℕ) (branch : PpcInst)
    → function_address + 4 * count < 2 ^ 32
    → is_backward_branch count function_address branch ≡ true
    → (is_direct_branch branch ≡ true)
      × (branch.lk ≡ false)
      × (target_index function_address branch < count)
      × (branch.branch_target ≡ function_address + 4 * target_index function_address branch)
unfolding is_backward_branch target_index
backward_branch count function_address branch bound h =
    let inside = (cfg_contains_iff count function_address branch.branch_target bound).0 in
    let (k, lt, at) = inside (ground arith) in
    (ground arith, ground arith, omega arith, omega arith)

-- The round that sets an entry has found a loop.
pub round-IsLoop :
    (insts : List PpcInst) (count function_address last : ℕ) (branch : PpcInst)
    → function_address + 4 * count < 2 ^ 32
    → get_elem? insts last ≡ some branch
    → can_loop_directly count insts function_address last ≡ true
    → let first = target_index function_address branch in
      (is_straight_line insts first last && (is_outlinable_span insts first last && ltb first last))
        ≡ true
      → IsLoop insts function_address first last
unfolding is_straight_line is_outlinable_span
round-IsLoop insts count function_address last branch bound at can ok =
    let first = target_index function_address branch in
    let (back, clock) = can_loop_directly_split count insts function_address last branch at can in
    let (direct, no_link, lt, target) = backward_branch count function_address branch bound back in
    record {
      branch = branch;
      at = at;
      direct = direct;
      no_link = no_link;
      target = target;
      forwards = ground arith;
      straight = λ i inst le before found.
          any_span instruction_ends_block insts first last i inst (ground arith) le before found;
      members = λ i inst le before found. (
        (let all =
              any_span (λ x. not (instruction_is_outlinable x)) insts first (suc last) i inst
                (ground arith) le (omega arith) found in
            ground arith),
        any_span reads_time_base insts first (suc last) i inst clock le (omega arith) found,
      );
    }
