-- ===== src/Dol/Loaded.antt =====
-- src/frontend/container/dol.c: what may be read of a file that `dol_load` has accepted.
use dol_recomp.Base.{
  ℕ, ◌+◌, ◌-◌, ◌^◌, ◌≤◌, ◌<◌, ◌≡◌, ◌≢◌, subst, Bool, true, List, some, length, u32, get_or, arith,
}
use dol_recomp.Dol.File.{DolFile, parse_header}
use dol_recomp.Dol.Layout.{
  range_fits, validate_dol_layout, dol_load, dol_get_text_section, dol_get_data_section,
}
use dol_recomp.Dol.Valid.{IsValid, validate_dol_layout_iff}

abbrev loaded_file : List ℕ → DolFile
loaded_file contents = record {
  header = parse_header contents;
  file_data = contents;
  file_size = u32 (length contents);
}

load_tests :
    (contents : List ℕ) (allocated read : Bool) (dol : DolFile)
    → dol_load (some contents) allocated read ≡ some dol
    → (256 ≤ length contents)
      × (validate_dol_layout (loaded_file contents) ≡ true)
      × (loaded_file contents ≡ dol)
unfolding dol_load
load_tests contents allocated read dol h = ground arith

text_section :
    (dol : DolFile) (i : ℕ)
    → IsValid dol
    → i < 7
    → get_or dol.header.text_sizes i 0 ≢ 0
    → (dol_get_text_section dol i ≡ some (get_or dol.header.text_offsets i 0))
      × (get_or dol.header.text_offsets i 0 + get_or dol.header.text_sizes i 0 ≤ dol.file_size)
unfolding dol_get_text_section range_fits
text_section dol i valid lt ne = let fits = (valid.text i lt).0 in ground arith

data_section :
    (dol : DolFile) (i : ℕ)
    → IsValid dol
    → i < 11
    → get_or dol.header.data_sizes i 0 ≢ 0
    → (dol_get_data_section dol i ≡ some (get_or dol.header.data_offsets i 0))
      × (get_or dol.header.data_offsets i 0 + get_or dol.header.data_sizes i 0 ≤ dol.file_size)
unfolding dol_get_data_section range_fits
data_section dol i valid lt ne = let fits = valid.data_fits i lt in ground arith

-- What may be read of a file whose size is known.
abbrev Readable : DolFile → Type 0
Readable dol =
    ((i : ℕ)
      → i < 7
      → get_or dol.header.text_sizes i 0 ≢ 0
      → (dol_get_text_section dol i ≡ some (get_or dol.header.text_offsets i 0))
        × (get_or dol.header.text_offsets i 0 + get_or dol.header.text_sizes i 0
            ≤ length dol.file_data))
    × ((i : ℕ)
        → i < 11
        → get_or dol.header.data_sizes i 0 ≢ 0
        → (dol_get_data_section dol i ≡ some (get_or dol.header.data_offsets i 0))
          × (get_or dol.header.data_offsets i 0 + get_or dol.header.data_sizes i 0
              ≤ length dol.file_data))
    × ((i : ℕ) × (offset : ℕ) × (dol_get_text_section dol i ≡ some offset)
        × (get_or dol.header.text_addresses i 0 ≤ dol.header.entry_point)
        × (offset + (dol.header.entry_point - get_or dol.header.text_addresses i 0)
            < length dol.file_data))

valid-Readable : (dol : DolFile) → dol.file_size ≡ length dol.file_data → IsValid dol → Readable dol
valid-Readable dol size valid =
    let (i, lt, entry) = valid.entry in
    let found = text_section dol i valid lt (omega arith) in
    (
      λ j less ne. (
        (text_section dol j valid less ne).0,
        omega (arith, (text_section dol j valid less ne).1),
      ),
      λ j less ne. (
        (data_section dol j valid less ne).0,
        omega (arith, (data_section dol j valid less ne).1),
      ),
      (i, get_or dol.header.text_offsets i 0, found.0, entry.0, omega arith),
    )

loaded-Readable :
    (contents : List ℕ)
    → length contents < 2 ^ 32
    → IsValid (loaded_file contents)
    → Readable (loaded_file contents)
loaded-Readable contents small valid = valid-Readable (loaded_file contents) (omega arith) valid

load-Readable :
    (contents : List ℕ) (allocated read : Bool) (dol : DolFile)
    → length contents < 2 ^ 32
    → dol_load (some contents) allocated read ≡ some dol
    → Readable dol
load-Readable contents allocated read dol small h =
    let (long, ok, same) = load_tests contents allocated read dol h in
    subst (λ d. Readable d) same
      (loaded-Readable contents small ((validate_dol_layout_iff (loaded_file contents)).0 ok))

-- Of a file shorter than 2 ^ 32 bytes that is loaded, each of the seven text sections that is not
-- empty is found at the offset of its header and ends inside the file.
pub dol_load-text :
    (contents : List ℕ) (allocated read : Bool) (dol : DolFile) (i : ℕ)
    → length contents < 2 ^ 32
    → dol_load (some contents) allocated read ≡ some dol
    → i < 7
    → get_or dol.header.text_sizes i 0 ≢ 0
    → (dol_get_text_section dol i ≡ some (get_or dol.header.text_offsets i 0))
      × (get_or dol.header.text_offsets i 0 + get_or dol.header.text_sizes i 0
          ≤ length dol.file_data)
dol_load-text contents allocated read dol i small h lt ne =
    (load-Readable contents allocated read dol small h).0 i lt ne

-- Of a file shorter than 2 ^ 32 bytes that is loaded, each of the eleven data sections that is not
-- empty is found at the offset of its header and ends inside the file.
pub dol_load-data :
    (contents : List ℕ) (allocated read : Bool) (dol : DolFile) (i : ℕ)
    → length contents < 2 ^ 32
    → dol_load (some contents) allocated read ≡ some dol
    → i < 11
    → get_or dol.header.data_sizes i 0 ≢ 0
    → (dol_get_data_section dol i ≡ some (get_or dol.header.data_offsets i 0))
      × (get_or dol.header.data_offsets i 0 + get_or dol.header.data_sizes i 0
          ≤ length dol.file_data)
dol_load-data contents allocated read dol i small h lt ne =
    (load-Readable contents allocated read dol small h).1 i lt ne

-- Of a file shorter than 2 ^ 32 bytes that is loaded, some text section holds the entry point: the
-- byte at that address is in the file, at its distance from the section's start.
pub dol_load-entry :
    (contents : List ℕ) (allocated read : Bool) (dol : DolFile)
    → length contents < 2 ^ 32
    → dol_load (some contents) allocated read ≡ some dol
    → (i : ℕ) × (offset : ℕ) × (dol_get_text_section dol i ≡ some offset)
      × (get_or dol.header.text_addresses i 0 ≤ dol.header.entry_point)
      × (offset + (dol.header.entry_point - get_or dol.header.text_addresses i 0)
          < length dol.file_data)
dol_load-entry contents allocated read dol small h =
    (load-Readable contents allocated read dol small h).2
