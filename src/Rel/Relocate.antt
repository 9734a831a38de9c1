-- ===== src/Rel/Relocate.antt =====
-- src/frontend/container/rel.c: `rel_apply_relocations`. On failure the caller frees the module, so
-- that a refusal keeps no state.
use dol_recomp.Base.{
  ℕ, zero, suc, ◌+◌, ◌*◌, ◌/◌, ◌%◌, ◌==◌, ltb, leb, u32, true, false, not, ◌||◌, if◌then◌else◌,
  Option, none, some, get_elem?, get_or, set, read_be16, read_be32,
}
use dol_recomp.Base.Maybe.{◌>>=◌}
use dol_recomp.Dol.Layout.{range_fits}
use dol_recomp.Rel.File.{
  RelFile, RelModuleMap, add_u32_checked, section_address_at, relocation_target,
}
use dol_recomp.Rel.Patch.{apply_relocation, r_dolphin_nop, r_dolphin_section, r_dolphin_end}

-- What a round of the inner loop leaves: the state, the end of the list, or `return false`.
pub data Round : Type 0 where
  next : RelFile → ℕ → ℕ → Round
  ended : Round
  refused : Round

-- The last part of a round: the patch itself.
unfoldable pub relocate : RelFile → RelModuleMap → ℕ → ℕ → ℕ → ℕ → ℕ → ℕ → Option RelFile
relocate rel modules import_module current_section current_offset type section_index symbol_offset =
    do
      target ← relocation_target rel modules import_module section_index symbol_offset
      patch_address ← section_address_at rel current_section current_offset
      section ← get_elem? rel.sections current_section
      patched ← apply_relocation section current_offset patch_address type target
      some (record rel {
        sections = set rel.sections current_section patched;
        relocation_count = u32 (rel.relocation_count + 1);
      })

-- A round on an entry whose fields are read, from the section and the offset so far.
unfoldable pub relocate_entry : RelFile → RelModuleMap → ℕ → ℕ → ℕ → ℕ → ℕ → ℕ → ℕ → Round
relocate_entry rel modules import_module current_section current_offset offset_delta type
      section_index symbol_offset =
    if type == r_dolphin_section
    then (if leb rel.section_count section_index
        then Round.refused
        else Round.next rel section_index 0)
    else if type == r_dolphin_end
    then Round.ended
    else elim (add_u32_checked current_offset offset_delta) [
      | none ↦ Round.refused
      | some offset ↦
          if type == r_dolphin_nop
          then Round.next rel current_section offset
          else if leb rel.section_count current_section
          then Round.refused
          else elim (relocate rel modules import_module current_section offset type section_index
              symbol_offset) [
                | none ↦ Round.refused
                | some patched ↦ Round.next patched current_section offset
              ]
    ]

-- What the inner loop leaves. `out_of_rounds` is no result of the code.
pub data Walk : Type 0 where
  done : RelFile → Walk
  failed : Walk
  no_end : Walk
  out_of_rounds : Walk

unfoldable pub walk : ℕ → RelFile → RelModuleMap → ℕ → ℕ → ℕ → ℕ → Walk
walk zero rel modules import_module cursor current_section current_offset = Walk.out_of_rounds
walk (suc rounds) rel modules import_module cursor current_section current_offset =
    let h = rel.file_data in
    elim (range_fits cursor 8 rel.file_size) [
      | false ↦ Walk.no_end
      | true ↦
          elim (relocate_entry rel modules import_module current_section current_offset
            (read_be16 h cursor) (get_or h (cursor + 2) 0) (get_or h (cursor + 3) 0)
            (read_be32 h (cursor + 4))) [
              | Round.refused ↦ Walk.failed
              | Round.ended ↦ Walk.done rel
              | Round.next rel' section offset ↦
                  walk rounds rel' modules import_module (u32 (cursor + 8)) section offset
            ]
    ]

-- One import: an inner loop of at most `file_size` rounds.
unfoldable pub relocate_import : RelFile → RelModuleMap → ℕ → Option RelFile
relocate_import rel modules import_index =
    let import = rel.import_offset + import_index * 8 in
    let import_module = read_be32 rel.file_data import in
    let cursor = read_be32 rel.file_data (import + 4) in
    if not (range_fits cursor 8 rel.file_size) || ltb cursor rel.relocation_offset
    then none
    else elim (walk (suc rel.file_size) rel modules import_module cursor 0 0) [
      | Walk.done rel' ↦ some rel'
      | _ ↦ none
    ]

unfoldable pub relocate_imports : RelFile → RelModuleMap → ℕ → ℕ → Option RelFile
relocate_imports rel modules import_index zero = some rel
relocate_imports rel modules import_index (suc rounds) =
    relocate_import rel modules import_index >>= λ rel'.
    relocate_imports rel' modules (suc import_index) rounds

-- A null `rel` gives false before anything else and is no value of the model.
unfoldable pub rel_apply_relocations : RelFile → RelModuleMap → Option RelFile
rel_apply_relocations rel modules =
    let start = record rel { relocation_count = 0 } in
    let count = rel.import_size / 8 in
    if rel.import_size == 0
    then some start
    else if not (rel.import_size % 8 == 0)
        || not (range_fits rel.import_offset rel.import_size rel.file_size)
    then none
    else relocate_imports (record start { import_count = count }) modules 0 count
