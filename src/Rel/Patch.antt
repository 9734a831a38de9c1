-- ===== src/Rel/Patch.antt =====
-- src/frontend/container/rel.c: how one relocation patches a section.
use dol_recomp.Base.{
  ℕ, ◌+◌, ◌-◌, ◌^◌, ◌==◌, ltb, leb, u16, u32, shr, low_bits, bit_and, bit_or, Bool, not, ◌&&◌, ◌||◌,
  if◌then◌else◌, List, [], ◌∷◌, Option, none, some, switch, read_be32, write_be16, write_be32,
}
use dol_recomp.Base.Maybe.{◌>>=◌}
use dol_recomp.Rel.File.{RelSection, section_has_file_data}

-- The constants R_PPC_* and R_DOLPHIN_*.
abbrev pub r_ppc_none : ℕ
r_ppc_none = 0

abbrev pub r_ppc_addr32 : ℕ
r_ppc_addr32 = 1

abbrev pub r_ppc_addr24 : ℕ
r_ppc_addr24 = 2

abbrev pub r_ppc_addr16 : ℕ
r_ppc_addr16 = 3

abbrev pub r_ppc_addr16_lo : ℕ
r_ppc_addr16_lo = 4

abbrev pub r_ppc_addr16_hi : ℕ
r_ppc_addr16_hi = 5

abbrev pub r_ppc_addr16_ha : ℕ
r_ppc_addr16_ha = 6

abbrev pub r_ppc_addr14 : ℕ
r_ppc_addr14 = 7

abbrev pub r_ppc_addr14_brtaken : ℕ
r_ppc_addr14_brtaken = 8

abbrev pub r_ppc_addr14_brntaken : ℕ
r_ppc_addr14_brntaken = 9

abbrev pub r_ppc_rel24 : ℕ
r_ppc_rel24 = 10

abbrev pub r_ppc_rel14 : ℕ
r_ppc_rel14 = 11

abbrev pub r_dolphin_nop : ℕ
r_dolphin_nop = 201

abbrev pub r_dolphin_section : ℕ
r_dolphin_section = 202

abbrev pub r_dolphin_end : ℕ
r_dolphin_end = 203

unfoldable pub require_patch_range : RelSection → ℕ → ℕ → Bool
require_patch_range section offset patch_size = not (
    not (section_has_file_data section)
    || (ltb section.size offset || ltb (section.size - offset) patch_size))

-- `delta` is the 32-bit pattern of a signed number, the bounds are `-below` and `above`.
unfoldable pub check_rel_delta : ℕ → ℕ → ℕ → Bool
check_rel_delta delta below above = not (
    not (low_bits delta 2 == 0)
    || (if ltb delta (2 ^ 31) then ltb above delta else ltb delta (2 ^ 32 - below)))

abbrev pub patch_size_of : ℕ → ℕ
patch_size_of type = if leb r_ppc_addr16 type && leb type r_ppc_addr16_ha then 2 else 4

-- `target - patch_address`, of type u32.
abbrev pub delta_of : ℕ → ℕ → ℕ
delta_of patch_address target = u32 (target + 2 ^ 32 - patch_address)

-- `(read_be32(patch) & keep) | (value & set)`, stored back.
unfoldable pub patch_word : List ℕ → ℕ → ℕ → ℕ → ℕ → List ℕ
patch_word patch offset keep value change =
    write_be32 patch offset (bit_or (bit_and (read_be32 patch offset) keep) (bit_and value change))

unfoldable pub patch_addr24 : List ℕ → ℕ → ℕ → Option (List ℕ)
patch_addr24 patch offset target =
    if not (low_bits target 2 == 0)
    then none
    else some (patch_word patch offset 0xfc000003 target 0x03fffffc)

unfoldable pub patch_addr14 : List ℕ → ℕ → ℕ → Option (List ℕ)
patch_addr14 patch offset target =
    if not (low_bits target 2 == 0)
    then none
    else some (patch_word patch offset 0xffff0003 target 0x0000fffc)

unfoldable pub patch_rel24 : List ℕ → ℕ → ℕ → ℕ → Option (List ℕ)
patch_rel24 patch offset patch_address target =
    let delta = delta_of patch_address target in
    if not (check_rel_delta delta 0x02000000 0x01fffffc)
    then none
    else some (patch_word patch offset 0xfc000003 delta 0x03fffffc)

unfoldable pub patch_rel14 : List ℕ → ℕ → ℕ → ℕ → Option (List ℕ)
patch_rel14 patch offset patch_address target =
    let delta = delta_of patch_address target in
    if not (check_rel_delta delta 0x8000 0x7ffc)
    then none
    else some (patch_word patch offset 0xffff0003 delta 0x0000fffc)

-- The switch on the type, on the bytes of the section.
unfoldable pub patch_bytes : List ℕ → ℕ → ℕ → ℕ → ℕ → Option (List ℕ)
patch_bytes patch offset patch_address type target =
    switch type
      ((r_ppc_addr32, some (write_be32 patch offset target))
        ∷ (r_ppc_addr24, patch_addr24 patch offset target)
        ∷ (r_ppc_addr16, some (write_be16 patch offset (u16 target)))
        ∷ (r_ppc_addr16_lo, some (write_be16 patch offset (u16 target)))
        ∷ (r_ppc_addr16_hi, some (write_be16 patch offset (u16 (shr target 16))))
        ∷ (r_ppc_addr16_ha, some (write_be16 patch offset (u16 (shr (u32 (target + 0x8000)) 16))))
        ∷ (r_ppc_addr14, patch_addr14 patch offset target)
        ∷ (r_ppc_addr14_brtaken, patch_addr14 patch offset target)
        ∷ (r_ppc_addr14_brntaken, patch_addr14 patch offset target)
        ∷ (r_ppc_rel24, patch_rel24 patch offset patch_address target)
        ∷ (r_ppc_rel14, patch_rel14 patch offset patch_address target)
        ∷ [])
      none

-- A section that has file data owns its bytes: without them the code would write through a null
-- pointer, and the model refuses.
unfoldable pub apply_relocation : RelSection → ℕ → ℕ → ℕ → ℕ → Option RelSection
apply_relocation section offset patch_address type target =
    if type == r_ppc_none
    then some section
    else if not (require_patch_range section offset (patch_size_of type))
    then none
    else (section.owned_data >>= λ patch.
        patch_bytes patch offset patch_address type target >>= λ bytes.
        some (record section { owned_data = some bytes }))
