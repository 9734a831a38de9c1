-- ===== src/Rel/Tests.antt =====
-- A module of three sections: none, code with a branch, and 16 bytes without data. Its one import
-- is the module itself, whose relocation makes the branch jump to the third instruction.
use dol_recomp.Base.{
  ℕ, ◌+◌, ◌*◌, ◌^◌, ◌≤◌, ◌≡◌, ◌≢◌, ◌⊎◌, refl, inl, true, false, List, [], ◌∷◌, ◌++◌, none, some,
  replicate, read_be16, read_be32, write_be16, write_be32, switch, arith, u32, sign_extend, ◌/◌,
  ◌%◌,
}
use dol_recomp.Decoder.Opcode.{PpcOpcode}
use dol_recomp.Decoder.Inst.{blank_inst}
use dol_recomp.Decoder.Decode.{ppc_decode}
use dol_recomp.Dol.Layout.{range_fits}
use dol_recomp.Decoder.RoundTrip.Branch.{b_word, bc_word}
use dol_recomp.Rel.File.{
  RelSection, RelFile, align_up_u32, add_u32_checked, section_has_file_data, section_address_at,
  holds_instruction, validate_entry, relocation_target,
}
use dol_recomp.Rel.Patch.{
  require_patch_range, check_rel_delta, patch_word, patch_rel24, patch_rel14, patch_bytes,
  apply_relocation, r_ppc_rel24, r_ppc_rel14, r_ppc_addr16_ha, r_ppc_addr16_lo, patch_size_of,
}
use dol_recomp.Rel.Relocate.{
  Walk, walk, relocate, relocate_entry, relocate_import, relocate_imports, rel_apply_relocations,
}
use dol_recomp.Rel.Load.{
  Host, read_file, read_header, place_bss, place_data, load_section, load_sections, finish_load,
  rel_load_image, rel_load,
}
use dol_recomp.Rel.Image.{IsLoaded, rel_load_image-IsLoaded}
use dol_recomp.Rel.Local.{IsLocal, apply_relocation-IsLocal}
use dol_recomp.Rel.Branch.{apply_relocation-rel24, apply_relocation-rel14}
use dol_recomp.Rel.Halves.{apply_relocation-halves}
use dol_recomp.Rel.Frame.{walk-ne-out_of_rounds, erase}
use dol_recomp.Rel.Places.{places, import_places, AreInside}
use dol_recomp.Rel.Inside.{rel_apply_relocations-AreInside}

abbrev word : ℕ → List ℕ
word n = 0 ∷ 0 ∷ 0 ∷ n ∷ []

abbrev branch_file : List ℕ
branch_file =
    word 7
    ++ (word 0
        ++ (word 0
            ++ (word 3
                ++ (word 0x40
                    ++ (word 0
                        ++ (word 0
                            ++ (word 1
                                ++ (word 16
                                    ++ (word 0x70
                                        ++ (word 0x68
                                            ++ (word 8
                                                ++ ((1 ∷ 0 ∷ 0 ∷ 0 ∷ [])
                                                    ++ (replicate 12 0
                                                        ++ (word 0
                                                            ++ (word 0
                                                            ++ (word 0x59
                                                            ++ (word 16
                                                            ++ (word 0
                                                            ++ (word 16
                                                            ++ ((0x48 ∷ 0 ∷ 0 ∷ 0 ∷ [])
                                                            ++ ((0x41 ∷ 0x82 ∷ 0 ∷ 0 ∷ [])
                                                            ++ ((0x60 ∷ 0 ∷ 0 ∷ 0 ∷ [])
                                                            ++ ((0x4e ∷ 0x80 ∷ 0 ∷ 0x20 ∷ [])
                                                            ++ (word 7
                                                            ++ (word 0x70
                                                            ++ ((0 ∷ 0 ∷ 202 ∷ 1 ∷ [])
                                                            ++ (word 0
                                                            ++ ((0 ∷ 0 ∷ 10 ∷ 1 ∷ [])
                                                            ++ (word 8
                                                            ++ ((0 ∷ 0 ∷ 203 ∷ 0 ∷ [])
                                                            ++ word 0))))))))))))))))))))))))))))))

abbrev branch_code : List ℕ
branch_code =
    0x48 ∷ 0 ∷ 0 ∷ 0 ∷ 0x41 ∷ 0x82 ∷ 0 ∷ 0 ∷ 0x60 ∷ 0 ∷ 0 ∷ 0 ∷ 0x4e ∷ 0x80 ∷ 0 ∷ 0x20 ∷ []

abbrev empty_section : RelSection
empty_section = record {
  index = 0;
  offset = 0;
  address = 0;
  size = 0;
  executable = false;
  bss = false;
  owned_data = none;
}

abbrev code_section : RelSection
code_section = record {
  index = 1;
  offset = 0x58;
  address = 0x80500058;
  size = 16;
  executable = true;
  bss = false;
  owned_data = some branch_code;
}

abbrev bss_section : RelSection
bss_section = record {
  index = 2;
  offset = 0;
  address = 0x80500088;
  size = 16;
  executable = false;
  bss = true;
  owned_data = none;
}

abbrev branch_rel : RelFile
branch_rel = record {
  file_data = branch_file;
  file_size = 0x88;
  module_id = 7;
  version = 1;
  bss_size = 16;
  fix_size = 0x88;
  base_address = 0x80500000;
  entry_point = 0x80500058;
  prolog_section = 1;
  epilog_section = 0;
  unresolved_section = 0;
  prolog_offset = 0;
  epilog_offset = 0;
  unresolved_offset = 0;
  import_count = 0;
  relocation_count = 0;
  relocation_offset = 0x70;
  import_offset = 0x68;
  import_size = 8;
  section_count = 3;
  sections = empty_section ∷ code_section ∷ bss_section ∷ [];
}

abbrev patched_section : RelSection
patched_section = record code_section { owned_data = some (write_be32 branch_code 0 0x48000008) }

abbrev relocated_rel : RelFile
relocated_rel = record branch_rel {
  sections = empty_section ∷ patched_section ∷ bss_section ∷ [];
  relocation_count = 1;
  import_count = 1;
}

abbrev willing_host : Host
willing_host = record {
  opened = some branch_file;
  file_allocated = true;
  file_read = true;
  table_allocated = true;
  section_allocated = λ i. true;
}

branch-loads : rel_load_image willing_host 0x80500000 ≡ some branch_rel
unfolding rel_load_image read_file read_header load_sections load_section place_bss place_data
    finish_load range_fits add_u32_checked align_up_u32 validate_entry holds_instruction
    section_address_at read_be32
branch-loads = refl

branch-relocates : rel_apply_relocations branch_rel ((7, branch_rel) ∷ []) ≡ some relocated_rel
unfolding rel_apply_relocations relocate_imports relocate_import walk relocate_entry relocate
    relocation_target section_address_at add_u32_checked range_fits apply_relocation
    require_patch_range section_has_file_data patch_bytes switch patch_rel24 check_rel_delta
    patch_word read_be32 read_be16 write_be32 write_be16
branch-relocates = refl

branch-rel_load : rel_load willing_host 0x80500000 ≡ some relocated_rel
unfolding rel_load rel_load_image read_file read_header load_sections load_section place_bss
    place_data finish_load range_fits add_u32_checked align_up_u32 validate_entry holds_instruction
    section_address_at read_be32 rel_apply_relocations relocate_imports relocate_import walk
    relocate_entry relocate relocation_target apply_relocation require_patch_range
    section_has_file_data patch_bytes switch patch_rel24 check_rel_delta patch_word read_be16
    write_be32 write_be16
branch-rel_load = refl

-- The base address of a module is a multiple of four.
odd_base-refused : rel_load willing_host 0x80500002 ≡ none
unfolding rel_load rel_load_image
odd_base-refused = refl

-- A file that cannot be read gives no module.
unread-refused : rel_load (record willing_host { file_read = false }) 0x80500000 ≡ none
unfolding rel_load rel_load_image read_file
unread-refused = refl

patched_rel24 :
    apply_relocation code_section 0 0x80500058 r_ppc_rel24 0x80500060 ≡ some patched_section
unfolding apply_relocation require_patch_range section_has_file_data patch_bytes switch patch_rel24
    check_rel_delta patch_word read_be32 write_be32
patched_rel24 = refl

-- A branch to a place out of its reach is refused.
far-refused : apply_relocation code_section 0 0x80500058 r_ppc_rel24 0x90500060 ≡ none
unfolding apply_relocation require_patch_range section_has_file_data patch_bytes switch patch_rel24
    check_rel_delta patch_word read_be32 write_be32
far-refused = refl

abbrev conditional_section : RelSection
conditional_section = record code_section {
  owned_data = some (write_be32 branch_code 4 0x41820004);
}

patched_rel14 :
    apply_relocation code_section 4 0x8050005c r_ppc_rel14 0x80500060 ≡ some conditional_section
unfolding apply_relocation require_patch_range section_has_file_data patch_bytes switch patch_rel14
    check_rel_delta patch_word read_be32 write_be32
patched_rel14 = refl

rel_load_image-IsLoaded_example : IsLoaded willing_host 0x80500000 branch_rel
rel_load_image-IsLoaded_example =
    rel_load_image-IsLoaded willing_host 0x80500000 branch_rel (omega arith) branch-loads

-- The module's list names the first word of its section 1.
branch_places : import_places branch_rel 0 ≡ (1, 0, r_ppc_rel24) ∷ []
unfolding import_places places read_be32 read_be16
branch_places = refl

rel_apply_relocations-AreInside_example :
    AreInside branch_rel (import_places branch_rel 0) × (erase relocated_rel ≡ erase branch_rel)
rel_apply_relocations-AreInside_example =
    rel_apply_relocations-AreInside branch_rel relocated_rel ((7, branch_rel) ∷ []) 0 (omega arith)
      branch-relocates

walk-ne-out_of_rounds_example : walk 0x89 branch_rel [] 7 0x70 0 0 ≢ Walk.out_of_rounds
walk-ne-out_of_rounds_example =
    walk-ne-out_of_rounds 0x89 branch_rel [] 7 0x70 0 0 (omega arith) (omega arith) (omega arith)

apply_relocation-IsLocal_example :
    (after : List ℕ) × (patched_section ≡ record code_section { owned_data = some after })
    × IsLocal branch_code 0 (patch_size_of r_ppc_rel24) after
    × ((r_ppc_rel24 ≡ 0) ⊎ (0 + patch_size_of r_ppc_rel24 ≤ 16))
apply_relocation-IsLocal_example =
    apply_relocation-IsLocal code_section patched_section 0 0x80500058 r_ppc_rel24 0x80500060
      branch_code refl patched_rel24

apply_relocation-rel24_example :
    (after : List ℕ) × (patched_section.owned_data ≡ some after)
    × (ppc_decode (read_be32 after 0) 0x80500058
        ≡ record (blank_inst (read_be32 after 0) 0x80500058) {
          op = PpcOpcode.b;
          aa = false;
          lk = false;
          branch_target = 0x80500060;
        })
unfolding read_be32 b_word
apply_relocation-rel24_example =
    apply_relocation-rel24 code_section patched_section 0 0x80500058 0x80500060 branch_code 0 false
      refl refl (omega arith) (omega arith) (omega arith) refl patched_rel24

apply_relocation-rel14_example :
    (after : List ℕ) × (conditional_section.owned_data ≡ some after)
    × (ppc_decode (read_be32 after 4) 0x8050005c
        ≡ record (blank_inst (read_be32 after 4) 0x8050005c) {
          op = PpcOpcode.bc;
          bo = 12;
          bi = 2;
          aa = false;
          lk = false;
          branch_target = 0x80500060;
        })
unfolding read_be32 bc_word
apply_relocation-rel14_example =
    apply_relocation-rel14 code_section conditional_section 4 0x8050005c 0x80500060 branch_code 12 2
      0 false refl refl (omega arith) (omega arith) (omega arith) (omega arith) (omega arith) refl
      patched_rel14

-- `lis 3, 0` and `addi 3, 3, 0`.
abbrev address_section : ℕ → ℕ → RelSection
address_section high low = record code_section {
  size = 8;
  owned_data =
      some (0x3c ∷ 0x60 ∷ high / 256 ∷ high % 256 ∷ 0x38 ∷ 0x63 ∷ low / 256 ∷ low % 256 ∷ []);
}

patched_high :
    apply_relocation (address_section 0 0) 2 0x8050005a r_ppc_addr16_ha 0x8050a000
    ≡ some (address_section 0x8051 0)
unfolding apply_relocation require_patch_range section_has_file_data patch_bytes switch write_be16
patched_high = refl

patched_low :
    apply_relocation (address_section 0x8051 0) 6 0x8050005e r_ppc_addr16_lo 0x8050a000
    ≡ some (address_section 0x8051 0xa000)
unfolding apply_relocation require_patch_range section_has_file_data patch_bytes switch write_be16
patched_low = refl

apply_relocation-halves_example :
    (after : List ℕ) × ((address_section 0x8051 0xa000).owned_data ≡ some after)
    × (u32 (read_be16 after 2 * 2 ^ 16 + sign_extend (read_be16 after 6) 16) ≡ 0x8050a000)
apply_relocation-halves_example =
    apply_relocation-halves (address_section 0 0) (address_section 0x8051 0)
      (address_section 0x8051 0xa000) 2 6 0x8050005a 0x8050005e 0x8050a000
      (0x3c ∷ 0x60 ∷ 0 ∷ 0 ∷ 0x38 ∷ 0x63 ∷ 0 ∷ 0 ∷ []) refl refl (omega arith) (inl (omega arith))
      patched_high patched_low
