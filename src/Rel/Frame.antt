-- ===== src/Rel/Frame.antt =====
-- src/frontend/container/rel.c: what `rel_apply_relocations` leaves alone, and why its loops end.
use dol_recomp.Base.{
  ℕ, zero, suc, ◌+◌, ◌*◌, ◌^◌, ◌≤◌, ◌<◌, ◌≡◌, ◌≢◌, refl, ap, sym, subst, ◌∙◌, inl, inr, Bool, true,
  false, ◌⊎◌, List, [], ◌∷◌, map, Option, none, some, some-injective, Option-cases, Bool-cases,
  length, get_elem?, get_or, set, replicate, leb, ◌==◌, u32, if◌then◌else◌, arith, read_be16,
  read_be32,
}
use dol_recomp.Base.Maybe.{>>=-eq-some}
use dol_recomp.Dol.Layout.{range_fits}
use dol_recomp.Rel.File.{
  RelSection, RelFile, RelModuleMap, add_u32_checked, relocation_target, section_address_at,
}
use dol_recomp.Rel.Patch.{apply_relocation}
use dol_recomp.Rel.Relocate.{Round, Walk, relocate, relocate_entry, walk}
use dol_recomp.Rel.Local.{apply_relocation-IsLocal}

-- A section, and a module, with every byte of their contents cleared and the counts of the
-- relocation at 0: what is left is the layout.
abbrev pub erase_data : Option (List ℕ) → Option (List ℕ)
erase_data none = none
erase_data (some bytes) = some (replicate (length bytes) 0)

unfoldable pub erase_section : RelSection → RelSection
erase_section section = record section { owned_data = erase_data section.owned_data }

unfoldable pub erase : RelFile → RelFile
erase rel = record rel {
  sections = map erase_section rel.sections;
  relocation_count = 0;
  import_count = 0;
}

apply_relocation-no_data :
    (section patched : RelSection) (offset patch_address type goal : ℕ)
    → section.owned_data ≡ none
    → apply_relocation section offset patch_address type goal ≡ some patched
    → section ≡ patched
unfolding apply_relocation
apply_relocation-no_data section patched offset patch_address type goal no_data h =
    ground (arith, some-injective section patched)

apply_relocation-erase :
    (section patched : RelSection) (offset patch_address type goal : ℕ)
    → apply_relocation section offset patch_address type goal ≡ some patched
    → erase_section patched ≡ erase_section section
unfolding erase_section
apply_relocation-erase section patched offset patch_address type goal h =
    elim (Option-cases section.owned_data) [
      | inl no_data ↦
          ap erase_section (
            sym (apply_relocation-no_data section patched offset patch_address type goal no_data h))
      | inr (before, data_at) ↦
          let (after, same, local, inside) =
            apply_relocation-IsLocal section patched offset patch_address type goal before data_at
              h in
          ap erase_section same
          ∙ (ap (λ (n : ℕ). record section { owned_data = some (replicate n 0) }) local.same_length
              ∙ ap (λ (d : Option (List ℕ)). record section { owned_data = erase_data d })
                  (sym data_at))
    ]

-- A section replaced by one of the same layout.
map-erase-set :
    (sections : List RelSection) (i : ℕ) (old new : RelSection)
    → get_elem? sections i ≡ some old
    → erase_section new ≡ erase_section old
    → map erase_section (set sections i new) ≡ map erase_section sections
map-erase-set [] i old new at e = refl
map-erase-set (s ∷ sections) zero old new at e =
    ap (λ (x : RelSection). x ∷ map erase_section sections)
      (e ∙ ap erase_section (sym (some-injective s old at)))
map-erase-set (s ∷ sections) (suc i) old new at e =
    ap (λ (xs : List RelSection). erase_section s ∷ xs) (map-erase-set sections i old new at e)

pub relocate-erase :
    (rel rel' : RelFile) (modules : RelModuleMap)
    (import_module section offset type section_index symbol_offset : ℕ)
    → relocate rel modules import_module section offset type section_index symbol_offset ≡ some rel'
    → erase rel' ≡ erase rel
unfolding relocate erase
relocate-erase rel rel' modules import_module section offset type section_index symbol_offset h =
    let (goal, e, h) =
      >>=-eq-some (relocation_target rel modules import_module section_index symbol_offset) _ h in
    let (address, e, h) = >>=-eq-some (section_address_at rel section offset) _ h in
    let (old, at, h) = >>=-eq-some (get_elem? rel.sections section) _ h in
    let (new, applied, h) = >>=-eq-some (apply_relocation old offset address type goal) _ h in
    ap erase (sym (some-injective _ rel' h))
    ∙ ap
        (λ (xs : List RelSection). record rel {
          sections = xs;
          relocation_count = 0;
          import_count = 0;
        })
        (map-erase-set rel.sections section old new at
          (apply_relocation-erase old new offset address type goal applied))

-- A property of the module that a round goes on with.
pub AllNext : (RelFile → Type 0) → Round → Type 0
AllNext P (Round.next rel section offset) = P rel
AllNext P _ = Unit

if-AllNext :
    (P : RelFile → Type 0) (b : Bool) (x y : Round)
    → AllNext P x
    → AllNext P y
    → AllNext P (if b then x else y)
if-AllNext P true x y p q = p
if-AllNext P false x y p q = q

-- A round leaves the module alone or relocates one place.
pub relocate_entry-AllNext :
    (P : RelFile → Type 0) (rel : RelFile) (modules : RelModuleMap)
    (import_module section offset delta type section_index symbol_offset : ℕ)
    → P rel
    → ((place : ℕ) (patched : RelFile)
        → relocate rel modules import_module section place type section_index symbol_offset
          ≡ some patched
        → P patched)
    → AllNext P (
        relocate_entry rel modules import_module section offset delta type section_index
          symbol_offset)
unfolding relocate_entry AllNext
relocate_entry-AllNext P rel modules import_module section offset delta type section_index
      symbol_offset here there =
    if-AllNext P (type == 202) _ _ (if-AllNext P (leb rel.section_count section_index) _ _ tt here)
      (if-AllNext P (type == 203) _ _ tt (elim (Option-cases (add_u32_checked offset delta)) [
        | inl e ↦ rw e tt
        | inr (offset', e) ↦ rw e (
            if-AllNext P (type == 201) _ _ here (
              if-AllNext P (leb rel.section_count section) _ _ tt
                (elim (Option-cases (
                  relocate rel modules import_module section offset' type section_index
                    symbol_offset)) [
                      | inl no_patch ↦ rw no_patch tt
                      | inr (patched, at) ↦ rw at (there offset' patched at)
                    ])))
      ]))

pub next-AllNext :
    (P : RelFile → Type 0) (rel' : RelFile) (r : Round) (section offset : ℕ)
    → AllNext P r
    → r ≡ Round.next rel' section offset
    → P rel'
unfolding AllNext
next-AllNext P rel' r section offset all e = subst (λ x. AllNext P x) e all

-- What a round leaves, with the equation.
pub Round-cases :
    (r : Round)
    → ((rel' : RelFile) × (section : ℕ) × (offset : ℕ) × (r ≡ Round.next rel' section offset))
      ⊎ ((r ≡ Round.ended) ⊎ (r ≡ Round.refused))
Round-cases (Round.next rel' section offset) = inl (rel', section, offset, refl)
Round-cases Round.ended = inr (inl refl)
Round-cases Round.refused = inr (inr refl)

-- The entry that a round reads.
abbrev pub entry_round : RelFile → RelModuleMap → ℕ → ℕ → ℕ → ℕ → Round
entry_round rel modules import_module cursor section offset =
    relocate_entry rel modules import_module section offset (read_be16 rel.file_data cursor)
      (get_or rel.file_data (cursor + 2) 0) (get_or rel.file_data (cursor + 3) 0)
      (read_be32 rel.file_data (cursor + 4))

pub next-erase :
    (rel rel' : RelFile) (modules : RelModuleMap)
    (import_module cursor section offset section' offset' : ℕ)
    → entry_round rel modules import_module cursor section offset ≡ Round.next rel' section' offset'
    → erase rel' ≡ erase rel
next-erase rel rel' modules import_module cursor section offset section' offset' e =
    next-AllNext (λ r. erase r ≡ erase rel) rel' _ section' offset'
      (relocate_entry-AllNext (λ r. erase r ≡ erase rel) rel modules import_module section offset _
        _ _ _ refl
        (λ place patched. relocate-erase rel patched modules import_module section place _ _ _))
      e

pub erase-file_size : (a b : RelFile) → erase a ≡ erase b → a.file_size ≡ b.file_size
unfolding erase
erase-file_size a b e = ap (λ (r : RelFile). r.file_size) e

pub range_fits-le :
    (offset size total : ℕ) → range_fits offset size total ≡ true → offset + size ≤ total
unfolding range_fits
range_fits-le offset size total h = ground arith

-- With a round or more, and one for every eight bytes left of the file, of fewer than 2 ^ 32 bytes, the
-- inner loop ends by itself: every entry that it reads takes eight bytes.
pub walk-ne-out_of_rounds :
    (rounds : ℕ) (rel : RelFile) (modules : RelModuleMap) (import_module cursor section offset : ℕ)
    → rel.file_size < 2 ^ 32
    → 0 < rounds
    → rel.file_size < cursor + 8 * rounds
    → walk rounds rel modules import_module cursor section offset ≢ Walk.out_of_rounds
unfolding walk
walk-ne-out_of_rounds zero rel modules import_module cursor section offset small some_rounds
      enough =
    absurd (omega arith)
walk-ne-out_of_rounds (suc rounds) rel modules import_module cursor section offset small some_rounds
      enough =
    elim (Bool-cases (range_fits cursor 8 rel.file_size)) [
      | inr out ↦ rw (out, walk) (λ e. cc)
      | inl fits ↦
          elim (Round-cases (entry_round rel modules import_module cursor section offset)) [
            | inl (rel', section', offset', e) ↦
                let inside = range_fits-le cursor 8 rel.file_size fits in
                let size = erase-file_size rel' rel (
                  next-erase rel rel' modules import_module cursor section offset section' offset'
                    e) in
                rw (fits, walk)
                  (rw e (
                    walk-ne-out_of_rounds rounds rel' modules import_module (u32 (cursor + 8))
                      section' offset' (omega (arith, size)) (omega (arith, size))
                      (omega (arith, size))))
            | inr (inl e) ↦ rw (fits, walk) (rw e (λ e. cc))
            | inr (inr e) ↦ rw (fits, walk) (rw e (λ e. cc))
          ]
    ]
