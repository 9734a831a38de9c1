-- ===== src/Dol/Layout.antt =====
-- src/frontend/container/dol.c: the test of the layout, the load, and the reads of a section. A
-- pointer into the file is its offset, and the messages to stderr are left out.
use dol_recomp.Base.{
  ℕ, zero, suc, ◌-◌, ◌==◌, ltb, leb, u32, low_bits, Bool, true, false, not, ◌&&◌, if◌then◌else◌,
  List, Option, none, some, length, get_or,
}
use dol_recomp.Dol.File.{DolFile, dol_header_size, dol_num_text, dol_num_data, parse_header}

unfoldable pub range_fits : ℕ → ℕ → ℕ → Bool
range_fits offset size total = leb offset total && leb size (total - offset)

-- The subtraction stands after the order, so it does not wrap.
unfoldable pub address_in_range : ℕ → ℕ → ℕ → Bool
address_in_range address base size =
    not (size == 0) && (leb base address && ltb (address - base) size)

unfoldable pub validate_section_range : ℕ → ℕ → ℕ → Bool
validate_section_range offset size file_size =
    if size == 0 then true else if not (range_fits offset size file_size) then false else true

-- The loop over text sections from `i` on, with the rounds that are left; `none` is `return 0`.
unfoldable pub validate_text : DolFile → ℕ → ℕ → Bool → Option Bool
validate_text dol i zero entry_in_text = some entry_in_text
validate_text dol i (suc rounds) entry_in_text =
    let header = dol.header in
    let offset = get_or header.text_offsets i 0 in
    let address = get_or header.text_addresses i 0 in
    let size = get_or header.text_sizes i 0 in
    let rest =
      validate_text dol (suc i) rounds
        (if address_in_range header.entry_point address size then true else entry_in_text) in
    if not (validate_section_range offset size dol.file_size)
    then none
    else if not (low_bits size 2 == 0)
    then none
    else rest

unfoldable pub validate_data : DolFile → ℕ → ℕ → Bool
validate_data dol i zero = true
validate_data dol i (suc rounds) =
    let header = dol.header in
    let rest = validate_data dol (suc i) rounds in
    if not (
      validate_section_range (get_or header.data_offsets i 0) (get_or header.data_sizes i 0)
        dol.file_size)
    then false
    else rest

unfoldable pub validate_dol_layout : DolFile → Bool
validate_dol_layout dol =
    let header = dol.header in
    if not (low_bits header.entry_point 2 == 0)
    then false
    else elim (validate_text dol 0 dol_num_text false) [
      | none ↦ false
      | some entry_in_text ↦
          if not (validate_data dol 0 dol_num_data)
          then false
          else if not entry_in_text
          then false
          else true
    ]

-- `opened` is the contents of the file that `fopen` opens, `allocated` and `read` say whether
-- `malloc` and `fread` succeed.
unfoldable pub dol_load : Option (List ℕ) → Bool → Bool → Option DolFile
dol_load opened allocated read = elim opened [
  | none ↦ none
  | some contents ↦
      let size = length contents in
      let dol : DolFile = record {
        header = parse_header contents;
        file_data = contents;
        file_size = u32 size;
      } in
      if ltb size dol_header_size
      then none
      else if not allocated
      then none
      else if not read
      then none
      else if not (validate_dol_layout dol)
      then none
      else some dol
]

-- A negative index, which gives NULL, is not modelled: the index is of type ℕ.
unfoldable pub dol_get_text_section : DolFile → ℕ → Option ℕ
dol_get_text_section dol index =
    let header = dol.header in
    let offset = get_or header.text_offsets index 0 in
    let size = get_or header.text_sizes index 0 in
    if leb dol_num_text index
    then none
    else if size == 0
    then none
    else if not (range_fits offset size dol.file_size)
    then none
    else some offset

unfoldable pub dol_get_data_section : DolFile → ℕ → Option ℕ
dol_get_data_section dol index =
    let header = dol.header in
    let offset = get_or header.data_offsets index 0 in
    let size = get_or header.data_sizes index 0 in
    if leb dol_num_data index
    then none
    else if size == 0
    then none
    else if not (range_fits offset size dol.file_size)
    then none
    else some offset
