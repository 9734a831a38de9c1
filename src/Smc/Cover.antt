-- ===== src/Smc/Cover.antt =====
-- What `smc_note` and `analyze_smc_section` of src/analysis/smc.c keep: the ranges cover what was
-- noted, nothing that was covered is lost, and there is room for every range.
use dol_recomp.Base.{ℕ, ◌≤◌, ◌<◌, ◌≡◌, ◌⊎◌, Bool, true, List, [], ◌∷◌, length, arith}
use dol_recomp.Smc.Ranges.{SmcRange, SmcAnalysis, Covered, smc_note}

-- Every range runs forwards.
abbrev pub Forwards : List SmcRange → Type 0
Forwards [] = Unit
Forwards (range ∷ ranges) = (range.start ≤ range.end) × Forwards ranges

-- The array has room for its ranges, and a range implies that patching is possible.
pub record IsWellFormed (smc : SmcAnalysis) : Type 0 where
  pub forwards : Forwards smc.ranges
  pub room : length smc.ranges ≤ smc.range_capacity
  pub seen : (smc.possible ≡ true) ⊎ (length smc.ranges ≡ 0)

module _ (realloc : ℕ → Bool) where
  note-Covered_old :
      (possible failed : Bool) (capacity : ℕ) (ranges : List SmcRange) (addr a : ℕ)
      → Covered ranges a
      → let smc : SmcAnalysis = record {
        possible = possible;
        allocation_failed = failed;
        range_capacity = capacity;
        ranges = ranges;
      } in
        Covered (smc_note realloc smc addr).ranges a
  unfolding smc_note
  note-Covered_old possible failed capacity [] addr a c = elim c [ ]
  note-Covered_old possible failed capacity (last ∷ older) addr a c = ground arith

  note-Covered_new :
      (possible failed : Bool) (capacity : ℕ) (ranges : List SmcRange) (addr : ℕ)
      → let smc : SmcAnalysis = record {
        possible = possible;
        allocation_failed = failed;
        range_capacity = capacity;
        ranges = ranges;
      } in
        Covered (smc_note realloc smc addr).ranges addr
        ⊎ ((smc_note realloc smc addr).allocation_failed ≡ true)
  unfolding smc_note
  note-Covered_new possible failed capacity [] addr = ground arith
  note-Covered_new possible failed capacity (last ∷ older) addr = ground arith

  note-Room :
      (possible failed : Bool) (capacity : ℕ) (ranges : List SmcRange) (addr : ℕ)
      → capacity < 2147483648
      → let smc : SmcAnalysis = record {
        possible = possible;
        allocation_failed = failed;
        range_capacity = capacity;
        ranges = ranges;
      } in
        IsWellFormed smc → IsWellFormed (smc_note realloc smc addr)
  unfolding smc_note
  note-Room possible failed capacity [] addr small h = ground arith
  note-Room possible failed capacity (last ∷ older) addr small h = ground arith

  -- An address that is noted is covered from then on, unless the allocator has failed.
  pub smc_note-Covered :
      (smc : SmcAnalysis) (addr : ℕ)
      → Covered (smc_note realloc smc addr).ranges addr
        ⊎ ((smc_note realloc smc addr).allocation_failed ≡ true)
  smc_note-Covered smc addr =
      note-Covered_new smc.possible smc.allocation_failed smc.range_capacity smc.ranges addr

  -- An address that was covered stays covered, whatever is noted and whether or not the allocator
  -- fails.
  pub smc_note-Covered_old :
      (smc : SmcAnalysis) (addr a : ℕ)
      → Covered smc.ranges a
      → Covered (smc_note realloc smc addr).ranges a
  smc_note-Covered_old smc addr a =
      note-Covered_old smc.possible smc.allocation_failed smc.range_capacity smc.ranges addr a

  note-possible :
      (possible failed : Bool) (capacity : ℕ) (ranges : List SmcRange) (addr : ℕ)
      → let smc : SmcAnalysis = record {
        possible = possible;
        allocation_failed = failed;
        range_capacity = capacity;
        ranges = ranges;
      } in
        (smc_note realloc smc addr).possible ≡ true
  unfolding smc_note
  note-possible possible failed capacity [] addr = ground arith
  note-possible possible failed capacity (last ∷ older) addr = ground arith

  -- With fewer than 2 ^ 31 ranges allocated before, an address that is noted sets `possible`,
  -- also where the allocator fails, and the analysis stays well formed: every range runs
  -- forwards, there is room for all of them, and `possible` is set where there is one.
  pub smc_note-IsWellFormed :
      (smc : SmcAnalysis) (addr : ℕ)
      → smc.range_capacity < 2147483648
      → IsWellFormed smc
      → ((smc_note realloc smc addr).possible ≡ true) × IsWellFormed (smc_note realloc smc addr)
  smc_note-IsWellFormed smc addr small h = (
    note-possible smc.possible smc.allocation_failed smc.range_capacity smc.ranges addr,
    note-Room smc.possible smc.allocation_failed smc.range_capacity smc.ranges addr small h,
  )

  note-failed :
      (possible : Bool) (capacity : ℕ) (ranges : List SmcRange) (addr : ℕ)
      → let smc : SmcAnalysis = record {
        possible = possible;
        allocation_failed = true;
        range_capacity = capacity;
        ranges = ranges;
      } in
        (smc_note realloc smc addr).allocation_failed ≡ true
  unfolding smc_note
  note-failed possible capacity [] addr = ground arith
  note-failed possible capacity (last ∷ older) addr = ground arith

  pub smc_note_failed :
      (smc : SmcAnalysis) (addr : ℕ)
      → smc.allocation_failed ≡ true
      → (smc_note realloc smc addr).allocation_failed ≡ true
  smc_note_failed smc addr h =
      rw (eta smc h) (note-failed smc.possible smc.range_capacity smc.ranges addr)
    where
      eta :
          (s : SmcAnalysis)
          → s.allocation_failed ≡ true
          → s ≡ record {
            possible = s.possible;
            allocation_failed = true;
            range_capacity = s.range_capacity;
            ranges = s.ranges;
          }
      eta s e = ground arith
