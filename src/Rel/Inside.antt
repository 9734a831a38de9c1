-- ===== src/Rel/Inside.antt =====
-- src/frontend/container/rel.c: the whole of `rel_apply_relocations` writes inside the data of the
-- sections of a module, and keeps its layout.
use dol_recomp.Base.{
  ℕ, zero, suc, ◌+◌, ◌*◌, ◌/◌, ◌<◌, ◌≡◌, refl, ap, subst, inl, inr, Bool, true, false, List, ◌∷◌,
  some, some-injective, Bool-cases, Option-cases, ◌==◌, leb, u32, if◌then◌else◌, get_or, read_be16,
  read_be32, arith,
}
use dol_recomp.Base.Maybe.{>>=-eq-some}
use dol_recomp.Dol.Layout.{range_fits}
use dol_recomp.Rel.File.{RelFile, RelModuleMap, add_u32_checked}
use dol_recomp.Rel.Relocate.{
  Round, Walk, walk, relocate, relocate_entry, relocate_import, relocate_imports,
  rel_apply_relocations,
}
use dol_recomp.Rel.Frame.{erase, next-erase, Round-cases, entry_round}
use dol_recomp.Rel.Places.{
  Place, advance, names_place, places, import_places, IsInside, AreInside, AreInside-erase,
  relocate-IsInside,
}
use dol_recomp.Rel.Preserve.{walk_done, if_some, relocate_import-erase, relocate_imports-erase}

-- Where a round goes on is where the list says, and the place that its entry names is inside.
GoesOn : RelFile → ℕ → ℕ × ℕ → Round → Type 0
GoesOn rel type next (Round.next rel' section offset) =
    ((section, offset) ≡ next)
    × ((type == 203) ≡ false)
    × (names_place type ≡ true → IsInside rel (next.0, next.1, type))
GoesOn rel type next Round.ended = (type == 203) ≡ true
GoesOn rel type next Round.refused = Unit

if-GoesOn :
    (rel : RelFile) (type : ℕ) (next : ℕ × ℕ) (b : Bool) (x y : Round)
    → (b ≡ true → GoesOn rel type next x)
    → (b ≡ false → GoesOn rel type next y)
    → GoesOn rel type next (if b then x else y)
if-GoesOn rel type next true x y p q = p refl
if-GoesOn rel type next false x y p q = q refl

sum_checked : (a b c : ℕ) → add_u32_checked a b ≡ some c → a + b ≡ c
unfolding add_u32_checked
sum_checked a b c h = ground (arith, some-injective (a + b) c)

names_no_nop : (type : ℕ) → (type == 201) ≡ true → names_place type ≡ true → ⊥
names_no_nop type nop h = ground arith

names_some : (type : ℕ) → names_place type ≡ true → (type == 0) ≡ false
names_some type h = ground arith

relocate_entry-GoesOn :
    (rel : RelFile) (modules : RelModuleMap)
    (import_module section offset delta type index symbol_offset : ℕ)
    → GoesOn rel type
        (advance section offset delta type index)
        (relocate_entry rel modules import_module section offset delta type index symbol_offset)
unfolding relocate_entry GoesOn
relocate_entry-GoesOn rel modules import_module section offset delta type index symbol_offset =
    let next = advance section offset delta type index in
    if-GoesOn rel type next (type == 202) _ _
      (λ to_section.
        if-GoesOn rel type next (leb rel.section_count index) _ _ (λ e. tt)
          (λ e. rw to_section (refl, ground arith, λ no. cc)))
      (λ other.
        if-GoesOn rel type next (type == 203) _ _ (λ e. e)
          (λ goes. elim (Option-cases (add_u32_checked offset delta)) [
            | inl e ↦ rw e tt
            | inr (here, e) ↦
                let at = sum_checked offset delta here e in
                rw e (
                  if-GoesOn rel type next (type == 201) _ _
                    (λ nop. (rw (other, at) refl, goes, λ h. absurd (names_no_nop type nop h)))
                    (λ named.
                      if-GoesOn rel type next (leb rel.section_count section) _ _ (λ f. tt)
                        (λ f.
                          elim (Option-cases (
                            relocate rel modules import_module section here type index
                              symbol_offset)) [
                                | inl no_patch ↦ rw no_patch tt
                                | inr (patched, done) ↦ rw done (
                                  rw (other, at) refl,
                                  goes,
                                  λ h.
                                      let some_type = names_some type h in
                                      rw (other, at)
                                        (relocate-IsInside rel patched modules import_module section
                                          here type index symbol_offset done some_type),
                                )
                              ])))
          ]))

next-GoesOn :
    (rel rel' : RelFile) (type : ℕ) (next : ℕ × ℕ) (r : Round) (section offset : ℕ)
    → GoesOn rel type next r
    → r ≡ Round.next rel' section offset
    → ((section, offset) ≡ next)
      × ((type == 203) ≡ false)
      × (names_place type ≡ true → IsInside rel (next.0, next.1, type))
unfolding GoesOn
next-GoesOn rel rel' type next r section offset all e = subst (λ x. GoesOn rel type next x) e all

-- The places from one that an entry may name.
listed :
    (rel : RelFile) (type : ℕ) (next : ℕ × ℕ) (rest : List Place)
    → (names_place type ≡ true → IsInside rel (next.0, next.1, type))
    → AreInside rel rest
    → AreInside rel (if names_place type then (next.0, next.1, type) ∷ rest else rest)
listed rel type next rest inside later = elim (Bool-cases (names_place type)) [
  | inl e ↦ rw e (inside e, later)
  | inr e ↦ rw e later
]

ended-GoesOn :
    (rel : RelFile) (type : ℕ) (next : ℕ × ℕ) (r : Round)
    → GoesOn rel type next r
    → r ≡ Round.ended
    → (type == 203) ≡ true
unfolding GoesOn
ended-GoesOn rel type next r all e = subst (λ x. GoesOn rel type next x) e all

erase-file_data : (a b : RelFile) → erase a ≡ erase b → a.file_data ≡ b.file_data
unfolding erase
erase-file_data a b e = ap (λ (r : RelFile). r.file_data) e

-- The rest of a list that ends names places inside the module.
walk-AreInside :
    (rounds : ℕ) (rel rel' : RelFile) (modules : RelModuleMap)
    (import_module cursor section offset : ℕ)
    → walk rounds rel modules import_module cursor section offset ≡ Walk.done rel'
    → AreInside rel (places rounds rel.file_data cursor section offset)
unfolding walk places
walk-AreInside zero rel rel' modules import_module cursor section offset h = tt
walk-AreInside (suc rounds) rel rel' modules import_module cursor section offset h =
    elim (Bool-cases (range_fits cursor 8 rel.file_size)) [
      | inr out ↦ cc (rw (out, walk) at h)
      | inl fits ↦
          let g = rw (fits, walk) at h in
          let type = get_or rel.file_data (cursor + 2) 0 in
          let index = get_or rel.file_data (cursor + 3) 0 in
          let delta = read_be16 rel.file_data cursor in
          let next = advance section offset delta type index in
          elim (Round-cases (entry_round rel modules import_module cursor section offset)) [
            | inl (mid, section', offset', e) ↦
                let (place, goes, inside) =
                  next-GoesOn rel mid type next _ section' offset'
                    (relocate_entry-GoesOn rel modules import_module section offset delta type index
                      _)
                    e in
                let same =
                  next-erase rel mid modules import_module cursor section offset section' offset'
                    e in
                let later =
                  walk-AreInside rounds mid rel' modules import_module (u32 (cursor + 8)) section'
                    offset' (rw e at g) in
                let file = erase-file_data mid rel same in
                let rest = places rounds rel.file_data (u32 (cursor + 8)) next.0 next.1 in
                let from_next =
                  subst
                    (λ (q : ℕ × ℕ).
                      AreInside mid (places rounds mid.file_data (u32 (cursor + 8)) q.0 q.1))
                    place later in
                let following =
                  subst (λ f. AreInside mid (places rounds f (u32 (cursor + 8)) next.0 next.1)) file
                    from_next in
                rw (goes, places)
                  (listed rel type next rest inside (AreInside-erase rel mid rest same following))
            | inr (inl e) ↦
                let last =
                  ended-GoesOn rel type next _
                    (relocate_entry-GoesOn rel modules import_module section offset delta type index
                      (read_be32 rel.file_data (cursor + 4)))
                    e in
                rw (last, places) tt
            | inr (inr e) ↦ cc (rw e at g)
          ]
    ]

import-AreInside :
    (rel rel' : RelFile) (modules : RelModuleMap) (import_index : ℕ)
    → relocate_import rel modules import_index ≡ some rel'
    → AreInside rel (import_places rel import_index)
unfolding relocate_import import_places
import-AreInside rel rel' modules import_index h =
    walk-AreInside (suc rel.file_size) rel rel' modules _ _ 0 0
      (walk_done _ rel' (if_some _ _ rel' h))

-- Where the lists stand is part of the layout.
import_places-erase :
    (a b : RelFile) (import_index : ℕ)
    → erase a ≡ erase b
    → import_places a import_index ≡ import_places b import_index
unfolding import_places erase
import_places-erase a b import_index e =
    ap
      (λ (r : RelFile).
        places (suc r.file_size) r.file_data
          (read_be32 r.file_data (r.import_offset + import_index * 8 + 4)) 0 0)
      e

imports-AreInside :
    (rel rel' : RelFile) (modules : RelModuleMap) (import_index rounds k : ℕ)
    → relocate_imports rel modules import_index rounds ≡ some rel'
    → k < rounds
    → AreInside rel (import_places rel (import_index + k))
unfolding relocate_imports
imports-AreInside rel rel' modules import_index zero k h lt = absurd (omega arith)
imports-AreInside rel rel' modules import_index (suc rounds) zero h lt =
    let (mid, first, rest) = >>=-eq-some (relocate_import rel modules import_index) _ h in
    subst (λ i. AreInside rel (import_places rel i))
      (let same : import_index ≡ import_index + 0 = omega arith in same)
      (import-AreInside rel mid modules import_index first)
imports-AreInside rel rel' modules import_index (suc rounds) (suc k) h lt =
    let (mid, first, rest) = >>=-eq-some (relocate_import rel modules import_index) _ h in
    let same = relocate_import-erase rel mid modules import_index first in
    let later = imports-AreInside mid rel' modules (suc import_index) rounds k rest (omega arith) in
    subst (λ i. AreInside rel (import_places rel i))
      (let shift : suc import_index + k ≡ import_index + suc k = omega arith in shift)
      (AreInside-erase rel mid _ same (
        subst (λ ps. AreInside mid ps) (import_places-erase mid rel (suc import_index + k) same)
          later))

-- Where the relocations are applied, every place that the relocation list of an import names, as
-- the format has it, lies inside a section of the module that has data; and no address, size or
-- flag of a section, no byte of the file and nothing else of the module changes, but for the
-- bytes of the sections, whose number stays, and the two counts.
pub rel_apply_relocations-AreInside :
    (rel rel' : RelFile) (modules : RelModuleMap) (k : ℕ)
    → k < rel.import_size / 8
    → rel_apply_relocations rel modules ≡ some rel'
    → AreInside rel (import_places rel k) × (erase rel' ≡ erase rel)
unfolding rel_apply_relocations erase import_places
rel_apply_relocations-AreInside rel rel' modules k lt h = elim (Bool-cases (rel.import_size == 0)) [
  | inl e ↦ absurd (ground arith)
  | inr e ↦
      let start = record rel { relocation_count = 0; import_count = rel.import_size / 8 } in
      let ran = if_some _ _ rel' (rw e at h) in
      (
        AreInside-erase rel start (import_places rel k) refl (
            subst (λ i. AreInside start (import_places start i))
              (let same : 0 + k ≡ k = omega arith in same)
              (imports-AreInside start rel' modules 0 (rel.import_size / 8) k ran lt)),
        relocate_imports-erase start rel' modules 0 (rel.import_size / 8) ran,
      )
]
