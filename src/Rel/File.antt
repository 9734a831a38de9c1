-- ===== src/Rel/File.antt =====
-- src/frontend/container/rel.h, and the helpers of rel.c that read a module's sections. The text of
-- `range_fits` is that of dol.c, and so is its model. Messages to stderr are left out.
use dol_recomp.Base.{
  ℕ, ◌+◌, ◌*◌, ◌-◌, ◌/◌, ◌==◌, ltb, leb, low_bits, Bool, true, false, not, ◌&&◌, ◌||◌,
  if◌then◌else◌, List, [], ◌∷◌, Option, none, some, get_elem?,
}
use dol_recomp.Base.Maybe.{◌>>=◌}

-- `owned_data` is null where there is none; `data` is the same pointer.
pub record RelSection : Type 0 where
  pub index : ℕ
  pub offset : ℕ
  pub address : ℕ
  pub size : ℕ
  pub executable : Bool
  pub bss : Bool
  pub owned_data : Option (List ℕ)

pub record RelFile : Type 0 where
  pub file_data : List ℕ
  pub file_size : ℕ
  pub module_id : ℕ
  pub version : ℕ
  pub bss_size : ℕ
  pub fix_size : ℕ
  pub base_address : ℕ
  pub entry_point : ℕ
  pub prolog_section : ℕ
  pub epilog_section : ℕ
  pub unresolved_section : ℕ
  pub prolog_offset : ℕ
  pub epilog_offset : ℕ
  pub unresolved_offset : ℕ
  pub import_count : ℕ
  pub relocation_count : ℕ
  pub relocation_offset : ℕ
  pub import_offset : ℕ
  pub import_size : ℕ
  pub section_count : ℕ
  pub sections : List RelSection

-- The entries of a module map, in order. A null map has none.
abbrev pub RelModuleMap : Type 0
RelModuleMap = List (ℕ × RelFile)

-- `none` clears `*ok`. The quotient is taken in 64 bits, where nothing overflows.
unfoldable pub align_up_u32 : ℕ → ℕ → Option ℕ
align_up_u32 value alignment =
    let result = (value + alignment - 1) / alignment * alignment in
    if leb alignment 1 then some value else if ltb 0xffffffff result then none else some result

unfoldable pub add_u32_checked : ℕ → ℕ → Option ℕ
add_u32_checked a b = if ltb (0xffffffff - a) b then none else some (a + b)

unfoldable pub section_has_file_data : RelSection → Bool
section_has_file_data section = not (section.size == 0) && not section.bss

-- The sections are as many as `section_count` says, so that a missing one is a bad index.
unfoldable pub section_address_at : RelFile → ℕ → ℕ → Option ℕ
section_address_at rel section_index offset =
    if leb rel.section_count section_index
    then none
    else (get_elem? rel.sections section_index >>= λ section.
        if section.size == 0 || ltb section.size offset
        then none
        else add_u32_checked section.address offset)

-- Whether a section holds an instruction at an offset.
unfoldable pub holds_instruction : RelSection → ℕ → Bool
holds_instruction section offset =
    not (
      not section.executable
      || (section.bss || elim section.owned_data [ none ↦ true | some _ ↦ false ]))
    && not (not (low_bits offset 2 == 0) || leb section.size offset)

unfoldable pub validate_entry : RelFile → ℕ → ℕ → Bool
validate_entry rel section_index offset =
    if section_index == 0
    then true
    else if leb rel.section_count section_index
    then false
    else elim (get_elem? rel.sections section_index) [
      | none ↦ false
      | some section ↦ holds_instruction section offset
    ]

-- The first entry with the identifier.
unfoldable pub find_module : RelModuleMap → ℕ → Option RelFile
find_module [] module_id = none
find_module ((id, rel) ∷ modules) module_id =
    if id == module_id then some rel else find_module modules module_id

unfoldable pub relocation_target : RelFile → RelModuleMap → ℕ → ℕ → ℕ → Option ℕ
relocation_target rel modules import_module section_index symbol_offset =
    if import_module == 0
    then some symbol_offset
    else if not (import_module == rel.module_id)
    then (find_module modules import_module >>= λ imported.
        section_address_at imported section_index symbol_offset)
    else section_address_at rel section_index symbol_offset
