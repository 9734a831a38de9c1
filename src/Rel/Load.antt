-- ===== src/Rel/Load.antt =====
-- src/frontend/container/rel.c: `rel_load_image` and `rel_load`. What the machine below provides,
-- the file and the memory, is the record `Host`; on failure the module is freed.
use dol_recomp.Base.{
  ℕ, zero, suc, ◌+◌, ◌*◌, ◌-◌, ◌==◌, ltb, leb, u32, low_bits, to_bool, Bool, not, ◌&&◌, ◌||◌,
  if◌then◌else◌, List, [], ◌∷◌, Option, none, some, length, get_or, take, drop, read_be32,
}
use dol_recomp.Base.Maybe.{◌>>=◌, ◌>>◌, guard}
use dol_recomp.Dol.Layout.{range_fits}
use dol_recomp.Rel.File.{
  RelSection, RelFile, align_up_u32, add_u32_checked, section_address_at, validate_entry,
}
use dol_recomp.Rel.Relocate.{rel_apply_relocations}

-- `opened` is the contents of the file, if it can be opened and measured; the rest says which
-- calls of `malloc`, `calloc` and `fread` succeed.
pub record Host : Type 0 where
  pub opened : Option (List ℕ)
  pub file_allocated : Bool
  pub file_read : Bool
  pub table_allocated : Bool
  pub section_allocated : ℕ → Bool

abbrev pub rel_header_min_size : ℕ
rel_header_min_size = 0x40

abbrev pub rel_max_section_count : ℕ
rel_max_section_count = 4096

unfoldable pub read_file : Host → Option (List ℕ)
read_file host = do
  contents ← host.opened
  guard (leb rel_header_min_size (length contents))
  guard host.file_allocated
  guard host.file_read
  some contents

-- A section that is laid out, the next free address after the sections without data, and how many
-- executable sections it adds.
pub record Placed : Type 0 where
  pub section : RelSection
  pub bss_cursor : ℕ
  pub executable_count : ℕ

-- A section whose table entry is read, before it has an address.
abbrev pub blank_section : ℕ → ℕ → ℕ → RelSection
blank_section i raw_offset size =
    let offset = raw_offset - low_bits raw_offset 1 in
    let executable = to_bool (low_bits raw_offset 1) in
    record {
      index = i;
      offset = offset;
      address = 0;
      size = size;
      executable = executable;
      bss = not (size == 0) && ((offset == 0) && not executable);
      owned_data = none;
    }

unfoldable pub place_bss : RelSection → ℕ → ℕ → Option Placed
place_bss section alignment bss_cursor = do
  end ← add_u32_checked bss_cursor section.size
  aligned ← align_up_u32 end alignment
  some (record {
    section = record section { address = bss_cursor };
    bss_cursor = aligned;
    executable_count = 0;
  })

-- `~1u` and the copy of the bytes: the section's data are those of the file.
unfoldable pub place_data : List ℕ → ℕ → Bool → RelSection → ℕ → Option Placed
place_data contents base_address allocated section bss_cursor = do
  guard (range_fits section.offset section.size (u32 (length contents)))
  guard (
      not (
        section.executable
        && (not (low_bits section.size 2 == 0) || not (low_bits section.offset 2 == 0))))
  address ← add_u32_checked base_address section.offset
  guard allocated
  some (record {
    section = record section {
      address = address;
      owned_data = some (take section.size (drop section.offset contents));
    };
    bss_cursor = bss_cursor;
    executable_count = if section.executable then 1 else 0;
  })

-- The body of the loop over the table.
unfoldable pub load_section : List ℕ → ℕ → ℕ → Bool → ℕ → ℕ → ℕ → ℕ → Option Placed
load_section contents base_address alignment allocated i raw_offset size bss_cursor =
    let section = blank_section i raw_offset size in
    if size == 0
    then some (record { section = section; bss_cursor = bss_cursor; executable_count = 0 })
    else if section.bss
    then place_bss section alignment bss_cursor
    else place_data contents base_address allocated section bss_cursor

-- The loop from index `i` on: the sections and the number of executable ones.
unfoldable pub load_sections :
    (ℕ → Bool) → List ℕ → ℕ → ℕ → ℕ → ℕ → ℕ → ℕ → Option (List RelSection × ℕ)
load_sections allocated contents base_address alignment table i zero bss_cursor = some ([], 0)
load_sections allocated contents base_address alignment table i (suc rounds) bss_cursor =
    load_section contents base_address alignment (allocated i) i
      (read_be32 contents (table + i * 8)) (read_be32 contents (table + i * 8 + 4)) bss_cursor
    >>= λ placed.
        load_sections allocated contents base_address alignment table (suc i) rounds
          placed.bss_cursor
        >>= λ rest. some (placed.section ∷ rest.0, placed.executable_count + rest.1)

-- The header, before the sections are read.
unfoldable pub read_header : List ℕ → ℕ → RelFile
read_header h base_address =
    let file_size = u32 (length h) in
    record {
      file_data = h;
      file_size = file_size;
      module_id = read_be32 h 0x00;
      version = read_be32 h 0x1c;
      bss_size = read_be32 h 0x20;
      fix_size =
          if leb 3 (read_be32 h 0x1c) && leb 0x4c file_size then read_be32 h 0x48 else file_size;
      base_address = base_address;
      entry_point = 0;
      prolog_section = get_or h 0x30 0;
      epilog_section = get_or h 0x31 0;
      unresolved_section = get_or h 0x32 0;
      prolog_offset = read_be32 h 0x34;
      epilog_offset = read_be32 h 0x38;
      unresolved_offset = read_be32 h 0x3c;
      import_count = 0;
      relocation_count = 0;
      relocation_offset = read_be32 h 0x24;
      import_offset = read_be32 h 0x28;
      import_size = read_be32 h 0x2c;
      section_count = read_be32 h 0x0c;
      sections = [];
    }

abbrev pub alignment_of : ℕ → ℕ
alignment_of bss_alignment = if bss_alignment == 0 then 4 else bss_alignment

-- The last steps: the three entries and the entry point.
unfoldable pub finish_load : RelFile → Option RelFile
finish_load rel = do
  guard (validate_entry rel rel.prolog_section rel.prolog_offset)
  guard (validate_entry rel rel.epilog_section rel.epilog_offset)
  guard (validate_entry rel rel.unresolved_section rel.unresolved_offset)
  (if rel.prolog_section == 0
      then some rel
      else (section_address_at rel rel.prolog_section rel.prolog_offset >>= λ entry_point.
          some (record rel { entry_point = entry_point })))

unfoldable pub rel_load_image : Host → ℕ → Option RelFile
rel_load_image host base_address = do
  guard (low_bits base_address 2 == 0)
  h ← read_file host
  let rel = read_header h base_address
  let bss_alignment = if leb 0x48 rel.file_size then read_be32 h 0x44 else 4
  let table = read_be32 h 0x10
  guard (not (rel.fix_size == 0 || ltb rel.file_size rel.fix_size))
  guard (
      not (
        rel.section_count == 0
        || (ltb rel_max_section_count rel.section_count
            || not (range_fits table (u32 (rel.section_count * 8)) rel.file_size))))
  guard host.table_allocated
  bss_start ← add_u32_checked base_address rel.fix_size
  bss_cursor ← align_up_u32 bss_start (alignment_of bss_alignment)
  loaded ←
      load_sections host.section_allocated h base_address (alignment_of bss_alignment) table 0
        rel.section_count bss_cursor
  guard (not (loaded.1 == 0))
  finish_load (record rel { sections = loaded.0 })

unfoldable pub rel_load : Host → ℕ → Option RelFile
rel_load host base_address = rel_load_image host base_address >>= λ rel.
    rel_apply_relocations rel ((rel.module_id, rel) ∷ [])
