-- ===== src/Dol/Tests.antt =====
-- The smallest file: a header with one text section, and one instruction.
use dol_recomp.Base.{
  read_be32, ◌+◌, ◌-◌, ◌≤◌, ◌<◌, ℕ, length, get_or, ◌≡◌, refl, ◌↔◌, true, List, [], ◌∷◌, ◌++◌, none,
  some, replicate, arith,
}
use dol_recomp.Dol.File.{DolFile, read_words, parse_header}
use dol_recomp.Dol.Layout.{
  range_fits, address_in_range, validate_section_range, validate_text, validate_data,
  validate_dol_layout, dol_load, dol_get_text_section, dol_get_data_section,
}
use dol_recomp.Dol.Valid.{IsValid, validate_dol_layout_iff}
use dol_recomp.Dol.Loaded.{dol_load-text, dol_load-data, dol_load-entry}

-- One section at offset 0x100, loaded at 0x80003000, where execution starts.
abbrev one_header : List ℕ
one_header =
    (0 ∷ 0 ∷ 1 ∷ 0 ∷ replicate 68 0)
    ++ ((0x80 ∷ 0 ∷ 0x30 ∷ 0 ∷ replicate 68 0)
        ++ ((0 ∷ 0 ∷ 0 ∷ 4 ∷ replicate 76 0) ++ (0x80 ∷ 0 ∷ 0x30 ∷ 0 ∷ replicate 28 0)))

abbrev one_file : List ℕ
one_file = one_header ++ (0x4e ∷ 0x80 ∷ 0 ∷ 0x20 ∷ [])

abbrev one_dol : DolFile
one_dol = record {
  header = record {
    text_offsets = 0x100 ∷ replicate 6 0;
    data_offsets = replicate 11 0;
    text_addresses = 0x80003000 ∷ replicate 6 0;
    data_addresses = replicate 11 0;
    text_sizes = 4 ∷ replicate 6 0;
    data_sizes = replicate 11 0;
    bss_address = 0;
    bss_size = 0;
    entry_point = 0x80003000;
  };
  file_data = one_file;
  file_size = 260;
}

-- The same bytes as text and, loaded elsewhere, as data.
abbrev two_file : List ℕ
two_file =
    (0 ∷ 0 ∷ 1 ∷ 0 ∷ replicate 24 0)
    ++ ((0 ∷ 0 ∷ 1 ∷ 0 ∷ replicate 40 0)
        ++ ((0x80 ∷ 0 ∷ 0x30 ∷ 0 ∷ replicate 68 0)
            ++ ((0 ∷ 0 ∷ 0 ∷ 4 ∷ replicate 24 0)
                ++ ((0 ∷ 0 ∷ 0 ∷ 4 ∷ replicate 48 0)
                    ++ ((0x80 ∷ 0 ∷ 0x30 ∷ 0 ∷ replicate 28 0) ++ (0x4e ∷ 0x80 ∷ 0 ∷ 0x20 ∷ []))))))

abbrev two_dol : DolFile
two_dol = record one_dol {
  header = record one_dol.header {
    data_offsets = 0x100 ∷ replicate 10 0;
    data_sizes = 4 ∷ replicate 10 0;
  };
  file_data = two_file;
}

two_loaded : dol_load (some two_file) true true ≡ some two_dol
unfolding dol_load parse_header read_words read_be32 validate_dol_layout validate_text validate_data
    validate_section_range range_fits address_in_range
two_loaded = refl

one_loaded : dol_load (some one_file) true true ≡ some one_dol
unfolding dol_load parse_header read_words read_be32 validate_dol_layout validate_text validate_data
    validate_section_range range_fits address_in_range
one_loaded = refl

-- Without its instruction the file's section leaves it.
one_truncated : dol_load (some one_header) true true ≡ none
unfolding dol_load parse_header read_words read_be32 validate_dol_layout validate_text validate_data
    validate_section_range range_fits address_in_range
one_truncated = refl

one_text : dol_get_text_section one_dol 0 ≡ some 0x100
unfolding dol_get_text_section range_fits
one_text = refl

validate_dol_layout_iff_example : (validate_dol_layout one_dol ≡ true) ↔ IsValid one_dol
validate_dol_layout_iff_example = validate_dol_layout_iff one_dol

dol_load-text_example :
    (dol_get_text_section one_dol 0 ≡ some 0x100) × (0x100 + 4 ≤ length one_file)
dol_load-text_example =
    dol_load-text one_file true true one_dol 0 (omega arith) one_loaded (omega arith) (omega arith)

dol_load-data_example :
    (dol_get_data_section two_dol 0 ≡ some 0x100) × (0x100 + 4 ≤ length two_file)
dol_load-data_example =
    dol_load-data two_file true true two_dol 0 (omega arith) two_loaded (omega arith) (omega arith)

dol_load-entry_example :
    (i : ℕ) × (offset : ℕ) × (dol_get_text_section one_dol i ≡ some offset)
    × (get_or one_dol.header.text_addresses i 0 ≤ 0x80003000)
    × (offset + (0x80003000 - get_or one_dol.header.text_addresses i 0) < length one_file)
dol_load-entry_example = dol_load-entry one_file true true one_dol (omega arith) one_loaded
