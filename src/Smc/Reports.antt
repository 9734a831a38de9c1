-- ===== src/Smc/Reports.antt =====
-- What `analyze_smc_section` of src/analysis/smc.c reports.
use dol_recomp.Base.{
  ℕ, ◌+◌, ◌≤◌, ◌<◌, ◌==◌, ◌≡◌, ◌⊎◌, ◌↔◌, inl, inr, true, if◌then◌else◌, some, List, [], ◌∷◌, refl,
  arith, Bool-cases,
}
use Prim.Native.Nat.{max}
use dol_recomp.Decoder.Inst.{PpcInst}
use dol_recomp.Smc.Known.{Regs}
use dol_recomp.Smc.Stores.{
  CodeSection, EmbeddedDataMode, is_dol_mode, section_overlaps, code_range_overlaps,
}
use dol_recomp.Smc.Stores.{known_store_ea, inst_has_dform_ea}
use dol_recomp.Smc.Machine.{Machine, dform_address, indexed_address}
use dol_recomp.Smc.Sound.{Agrees, Agrees→Knows, known_dform_ea_sound, known_indexed_ea_sound}

-- The byte at `b` belongs to a code section of a DOL.
abbrev pub InCode : List CodeSection → ℕ → Type 0
InCode [] b = ⊥
InCode (section ∷ sections) b =
    ((section.embedded_data_mode ≡ EmbeddedDataMode.dol_mode)
      × (section.address ≤ b)
      × (b < section.address + section.size))
    ⊎ InCode sections b

-- The bytes that an access of `size` bytes at `ea` touches; one of size 0 counts as one byte.
abbrev pub Touches : ℕ → ℕ → ℕ → Type 0
Touches ea size b = (ea ≤ b) × (b < ea + (if size == 0 then 1 else size))

section_overlaps_complete :
    (section : CodeSection) (ea size b : ℕ)
    → Touches ea size b
    → (section.embedded_data_mode ≡ EmbeddedDataMode.dol_mode)
      × (section.address ≤ b)
      × (b < section.address + section.size)
    → section_overlaps section ea size ≡ true
unfolding section_overlaps
section_overlaps_complete section ea size b t h = ground arith

is_dol_mode_lem :
    (mode : EmbeddedDataMode) → is_dol_mode mode ≡ true → mode ≡ EmbeddedDataMode.dol_mode
unfolding is_dol_mode
is_dol_mode_lem EmbeddedDataMode.dol_mode h = refl
is_dol_mode_lem EmbeddedDataMode.none_mode h = cc
is_dol_mode_lem EmbeddedDataMode.rpx_mode h = cc

-- The byte where the two ranges first meet.
section_overlaps_sound :
    (section : CodeSection) (ea size : ℕ)
    → section_overlaps section ea size ≡ true
    → let b = max ea section.address in
      (ea ≤ b)
      × (b < ea + (if size == 0 then 1 else size))
      × (section.embedded_data_mode ≡ EmbeddedDataMode.dol_mode)
      × (section.address ≤ b)
      × (b < section.address + section.size)
unfolding section_overlaps
section_overlaps_sound section ea size h =
    ground (arith, is_dol_mode_lem section.embedded_data_mode)

pub overlaps_complete :
    (sections : List CodeSection) (ea size b : ℕ)
    → Touches ea size b
    → InCode sections b
    → code_range_overlaps sections ea size ≡ true
unfolding code_range_overlaps
overlaps_complete [] ea size b t h = elim h [ ]
overlaps_complete (section ∷ sections) ea size b t (inl h) =
    rw (section_overlaps_complete section ea size b t h)
overlaps_complete (section ∷ sections) ea size b t (inr h) =
    ground (arith, overlaps_complete sections ea size b t h)

pub overlaps_sound :
    (sections : List CodeSection) (ea size : ℕ)
    → code_range_overlaps sections ea size ≡ true
    → (b : ℕ) × Touches ea size b × InCode sections b
unfolding code_range_overlaps
overlaps_sound [] ea size h = cc
overlaps_sound (section ∷ sections) ea size h =
    elim (Bool-cases (section_overlaps section ea size)) [
      | inl e ↦
          let hit = section_overlaps_sound section ea size e in
          (max ea section.address, (hit.0, hit.1), inl (hit.2, hit.3, hit.4))
      | inr e ↦
          let rest = overlaps_sound sections ea size (ground arith) in (rest.0, rest.1, inr rest.2)
    ]

-- `code_range_overlaps` answers yes exactly when some byte of the access, of which there is at
-- least one, lies in a code section of a DOL.
pub code_range_overlaps_iff :
    (sections : List CodeSection) (ea size : ℕ)
    → (code_range_overlaps sections ea size ≡ true)
      ↔ ((b : ℕ) × Touches ea size b × InCode sections b)
code_range_overlaps_iff sections ea size =
    (overlaps_sound sections ea size, λ h. overlaps_complete sections ea size h.0 h.1 h.2)

-- The machine's value of the address that `known_store_ea` looks for.
abbrev pub store_address : PpcInst → Machine → ℕ
store_address inst gpr =
    if inst_has_dform_ea inst.op then dform_address inst gpr else indexed_address inst gpr

pub known_store_ea_sound :
    (inst : PpcInst) (regs : Regs) (gpr : Machine) (ea : ℕ)
    → Agrees regs gpr
    → known_store_ea regs inst ≡ some ea
    → store_address inst gpr ≡ ea
unfolding known_store_ea
known_store_ea_sound inst regs gpr ea agrees h = ground (
  arith,
  known_dform_ea_sound regs gpr inst ea (Agrees→Knows regs gpr agrees),
  known_indexed_ea_sound regs gpr inst ea (Agrees→Knows regs gpr agrees),
)
