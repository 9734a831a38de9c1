-- ===== src/Rel/Halves.antt =====
-- src/frontend/container/rel.c: the two halves of an address, in two instructions of a section.
use dol_recomp.Base.{
  ℕ, ◌+◌, ◌*◌, ◌^◌, ◌≤◌, ◌<◌, ◌≡◌, ◌⊎◌, refl, ap, sym, ◌∙◌, List, some, some-injective, length, u16,
  u32, shr, sign_extend, read_be16, write_be16, switch, arith, subst,
}
use dol_recomp.Base.Memory.{read_be16-write_be16}
use dol_recomp.Decoder.RoundTrip.Branch.{sign_extend_16}
use dol_recomp.Rel.File.{RelSection}
use dol_recomp.Rel.Patch.{
  apply_relocation, patch_bytes, patch_size_of, r_ppc_addr16_ha, r_ppc_addr16_lo,
}
use dol_recomp.Rel.Local.{IsLocal, apply_relocation-IsLocal}
use dol_recomp.Rel.Branch.{patched_bytes, in_range}

-- The upper half is adjusted for the sign of the lower.
halves-eq :
    (goal : ℕ)
    → goal < 2 ^ 32
    → u32 (u16 (shr (u32 (goal + 0x8000)) 16) * 2 ^ 16 + sign_extend (u16 goal) 16) ≡ goal
halves-eq goal lt = rw (sign_extend_16 (u16 goal) (omega arith)) (ground arith)

stored_half :
    (before after : List ℕ) (offset value : ℕ)
    → offset + 2 ≤ length before
    → value < 2 ^ 16
    → some (write_be16 before offset value) ≡ some after
    → read_be16 after offset ≡ value
stored_half before after offset value fits lt h =
    subst (λ (q : List ℕ). read_be16 q offset ≡ value)
      (some-injective (write_be16 before offset value) after h)
      (read_be16-write_be16 before offset value fits lt)

-- A local change elsewhere leaves a half as it is.
kept_half :
    (before after : List ℕ) (offset place : ℕ)
    → IsLocal before offset 2 after
    → (place + 2 ≤ offset) ⊎ (offset + 2 ≤ place)
    → read_be16 after place ≡ read_be16 before place
unfolding read_be16
kept_half before after offset place local apart =
    rw (local.others place (ground arith)) (rw (local.others (place + 1) (ground arith)) refl)

-- A relocation of two bytes.
half_relocated :
    (section patched : RelSection) (offset patch_address type goal : ℕ) (before : List ℕ)
    → 0 < type
    → patch_size_of type ≡ 2
    → section.owned_data ≡ some before
    → length before ≡ section.size
    → apply_relocation section offset patch_address type goal ≡ some patched
    → (after : List ℕ) × (patched.owned_data ≡ some after)
      × (patch_bytes before offset patch_address type goal ≡ some after)
      × IsLocal before offset 2 after
      × (offset + 2 ≤ length before)
      × (length after ≡ patched.size)
half_relocated section patched offset patch_address type goal before some_type two data_at size h =
    let (after, found, at, ok) =
      patched_bytes section patched offset patch_address type goal before some_type data_at h in
    let (after', same, local, inside) =
      apply_relocation-IsLocal section patched offset patch_address type goal before data_at h in
    let e =
      some-injective after' after (sym (ap (λ (s : RelSection). s.owned_data) same) ∙ found) in
    let fits = in_range section offset (patch_size_of type) ok in
    let kept = ap (λ (s : RelSection). s.size) same in
    (
      after,
      found,
      at,
      subst (λ n. IsLocal before offset n after) two
          (subst (λ q. IsLocal before offset (patch_size_of type) q) e local),
      omega (arith, two),
      ap (λ (q : List ℕ). length q) (sym e) ∙ (local.same_length ∙ (size ∙ sym kept)),
    )

-- A relocation of type ADDR16_HA and one of type ADDR16_LO, to one target below 2 ^ 32 and at places that do not
-- overlap, where the section owns as many bytes as its size says: the upper half, shifted by 16, and the lower
-- half, as a signed number, add up to the target in 32 bits.
pub apply_relocation-halves :
    (section mid patched : RelSection) (high low at_high at_low goal : ℕ) (before : List ℕ)
    → section.owned_data ≡ some before
    → length before ≡ section.size
    → goal < 2 ^ 32
    → (high + 2 ≤ low) ⊎ (low + 2 ≤ high)
    → apply_relocation section high at_high r_ppc_addr16_ha goal ≡ some mid
    → apply_relocation mid low at_low r_ppc_addr16_lo goal ≡ some patched
    → (after : List ℕ) × (patched.owned_data ≡ some after)
      × (u32 (read_be16 after high * 2 ^ 16 + sign_extend (read_be16 after low) 16) ≡ goal)
unfolding patch_bytes switch
apply_relocation-halves section mid patched high low at_high at_low goal before data_at size gl
      apart first second =
    let (half, found, at, local, inside, kept) =
      half_relocated section mid high at_high r_ppc_addr16_ha goal before (omega arith) refl data_at
        size first in
    let (after, found', at', local', inside', kept') =
      half_relocated mid patched low at_low r_ppc_addr16_lo goal half (omega arith) refl found kept
        second in
    let upper =
      kept_half half after low high local' apart
      ∙ stored_half before half high (u16 (shr (u32 (goal + 0x8000)) 16)) inside (omega arith) at in
    let lower = stored_half half after low (u16 goal) inside' (omega arith) at' in
    (after, found', rw (upper, lower) (halves-eq goal gl))
