-- ===== src/Rel/Places.antt =====
-- The places that a relocation list of src/frontend/container/rel.c names, as its format has them, and
-- when such a place is inside a section.
use dol_recomp.Base.{
  ℕ, zero, suc, ◌+◌, ◌*◌, ◌≤◌, ◌≡◌, refl, ap, sym, ◌∙◌, Bool, true, false, not, ◌&&◌, List, [], ◌∷◌,
  map, some, some-injective, ◌==◌, u32, if◌then◌else◌, get_elem?, get_or, read_be16, read_be32,
  arith,
}
use dol_recomp.Base.Maybe.{>>=-eq-some}
use dol_recomp.Rel.File.{
  RelSection, RelFile, RelModuleMap, relocation_target, section_address_at, section_has_file_data,
}
use dol_recomp.Rel.Patch.{apply_relocation, require_patch_range, patch_size_of}
use dol_recomp.Rel.Relocate.{relocate}
use dol_recomp.Rel.Frame.{erase, erase_section}

-- A place that a relocation list names: the section, the offset and the type.
abbrev pub Place : Type 0
Place = ℕ × ℕ × ℕ

-- What the format of the list says: type 202 goes to a section, 203 ends the list, and every other
-- entry goes on by its delta. All but 201 and 0 name the place they have come to.
abbrev pub advance : (section offset delta type index : ℕ) → ℕ × ℕ
advance section offset delta type index =
    if type == 202 then (index, 0) else (section, offset + delta)

abbrev pub names_place : ℕ → Bool
names_place type = not (type == 202) && (not (type == 201) && not (type == 0))

-- The places of a list of at most so many entries, read from the bytes `h` of the file.
unfoldable pub places : ℕ → List ℕ → ℕ → ℕ → ℕ → List Place
places zero h cursor section offset = []
places (suc entries) h cursor section offset =
    let type = get_or h (cursor + 2) 0 in
    let next = advance section offset (read_be16 h cursor) type (get_or h (cursor + 3) 0) in
    elim (type == 203) [
      | true ↦ []
      | false ↦
          let rest = places entries h (u32 (cursor + 8)) next.0 next.1 in
          if names_place type then (next.0, next.1, type) ∷ rest else rest
    ]

-- The places of the list that an import points at.
unfoldable pub import_places : RelFile → ℕ → List Place
import_places rel import_index =
    places (suc rel.file_size) rel.file_data
      (read_be32 rel.file_data (rel.import_offset + import_index * 8 + 4)) 0 0

-- The place lies inside a section of the module that has data.
abbrev pub IsInside : RelFile → Place → Type 0
IsInside rel (section, offset, type) =
    (s : RelSection) × (get_elem? rel.sections section ≡ some s)
    × (section_has_file_data s ≡ true)
    × (offset + patch_size_of type ≤ s.size)

abbrev pub AreInside : RelFile → List Place → Type 0
AreInside rel [] = Unit
AreInside rel (place ∷ places) = IsInside rel place × AreInside rel places

get_elem?-erase :
    (sections : List RelSection) (i : ℕ) (e : RelSection)
    → get_elem? (map erase_section sections) i ≡ some e
    → (s : RelSection) × (get_elem? sections i ≡ some s) × (erase_section s ≡ e)
get_elem?-erase [] i e h = cc
get_elem?-erase (s ∷ sections) zero e h = (s, refl, some-injective (erase_section s) e h)
get_elem?-erase (s ∷ sections) (suc i) e h = get_elem?-erase sections i e h

erase-get_elem? :
    (sections : List RelSection) (i : ℕ) (s : RelSection)
    → get_elem? sections i ≡ some s
    → get_elem? (map erase_section sections) i ≡ some (erase_section s)
erase-get_elem? [] i s h = cc
erase-get_elem? (x ∷ sections) zero s h = ap some (ap erase_section (some-injective x s h))
erase-get_elem? (x ∷ sections) (suc i) s h = erase-get_elem? sections i s h

-- Only the layout counts.
IsInside-erase :
    (a b : RelFile) (place : Place) → erase b ≡ erase a → IsInside b place → IsInside a place
unfolding erase erase_section section_has_file_data
IsInside-erase a b (section, offset, type) same (s, at, has_data, inside) =
    let erased =
      ap (λ (r : RelFile). get_elem? r.sections section) (sym same)
      ∙ erase-get_elem? b.sections section s at in
    let (t, at', e) = get_elem?-erase a.sections section (erase_section s) erased in
    let size = ap (λ (r : RelSection). r.size) e in
    let bss = ap (λ (r : RelSection). r.bss) e in
    (t, at', rw (size, bss) has_data, omega (arith, size))

pub AreInside-erase :
    (a b : RelFile) (ps : List Place) → erase b ≡ erase a → AreInside b ps → AreInside a ps
AreInside-erase a b [] same h = tt
AreInside-erase a b (p ∷ ps) same h =
    (IsInside-erase a b p same h.0, AreInside-erase a b ps same h.1)

range_inside :
    (s patched : RelSection) (offset patch_address type goal : ℕ)
    → apply_relocation s offset patch_address type goal ≡ some patched
    → (type == 0) ≡ false
    → (section_has_file_data s ≡ true) × (offset + patch_size_of type ≤ s.size)
unfolding apply_relocation require_patch_range
range_inside s patched offset patch_address type goal h some_type = ground arith

pub relocate-IsInside :
    (rel rel' : RelFile) (modules : RelModuleMap)
    (import_module section offset type section_index symbol_offset : ℕ)
    → relocate rel modules import_module section offset type section_index symbol_offset ≡ some rel'
    → (type == 0) ≡ false
    → IsInside rel (section, offset, type)
unfolding relocate
relocate-IsInside rel rel' modules import_module section offset type section_index symbol_offset h
      some_type =
    let (goal, e, h) =
      >>=-eq-some (relocation_target rel modules import_module section_index symbol_offset) _ h in
    let (address, e, h) = >>=-eq-some (section_address_at rel section offset) _ h in
    let (old, at, h) = >>=-eq-some (get_elem? rel.sections section) _ h in
    let (new, applied, h) = >>=-eq-some (apply_relocation old offset address type goal) _ h in
    let (has_data, inside) = range_inside old new offset address type goal applied some_type in
    (old, at, has_data, inside)
