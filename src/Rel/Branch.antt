-- ===== src/Rel/Branch.antt =====
-- What the decoder reads after src/frontend/container/rel.c has patched a relative branch.
use dol_recomp.Base.{
  ℕ, ◌+◌, ◌*◌, ◌/◌, ◌%◌, ◌^◌, ◌≤◌, ◌<◌, ◌≡◌, ap, sym, ◌∙◌, inl, inr, Bool, true, false, List, some,
  some-injective, length, u32, read_be32, switch, Bool-cases, arith, bit_or, bit_and, write_be32,
}
use dol_recomp.Base.Memory.{read_be32-write_be32}
use dol_recomp.Decoder.Opcode.{PpcOpcode}
use dol_recomp.Decoder.Inst.{blank_inst}
use dol_recomp.Decoder.Decode.{ppc_decode}
use dol_recomp.Decoder.Assemble.{bit_of}
use dol_recomp.Decoder.RoundTrip.Branch.{
  b_word, bc_word, signed_offset, decode-branch, decode-cond_branch,
}
use dol_recomp.Rel.File.{RelSection}
use dol_recomp.Rel.Patch.{
  r_ppc_rel24, r_ppc_rel14, patch_size_of, check_rel_delta, delta_of, patch_word, patch_rel24,
  patch_rel14, patch_bytes, apply_relocation, require_patch_range,
}
use dol_recomp.Rel.Word.{merge_26, merge_16}
use dol_recomp.Rel.Local.{apply_split}

bit_of-lt : (b : Bool) → bit_of b < 2
bit_of-lt true = omega arith
bit_of-lt false = omega arith

-- A relative branch whose displacement is replaced.
merged_b :
    (old delta : ℕ) (lk : Bool)
    → old < 2 ^ 24
    → bit_or (bit_and (b_word old false lk) 0xfc000003) (bit_and delta 0x03fffffc)
      ≡ b_word (delta / 4 % 2 ^ 24) false lk
unfolding b_word
merged_b old delta lk h = omega (arith, bit_of-lt lk, merge_26 (b_word old false lk) delta)

merged_bc :
    (bo bi old delta : ℕ) (lk : Bool)
    → bo < 32
    → bi < 32
    → old < 2 ^ 14
    → bit_or (bit_and (bc_word bo bi old false lk) 0xffff0003) (bit_and delta 0xfffc)
      ≡ bc_word bo bi (delta / 4 % 2 ^ 14) false lk
unfolding bc_word
merged_bc bo bi old delta lk p q h =
    omega (arith, bit_of-lt lk, merge_16 (bc_word bo bi old false lk) delta)

-- A displacement that passes the test of the range is what the decoder adds.
delta_26 :
    (delta : ℕ)
    → delta < 2 ^ 32
    → check_rel_delta delta 0x02000000 0x01fffffc ≡ true
    → signed_offset 26 (delta / 4 % 2 ^ 24 * 4) ≡ delta
unfolding check_rel_delta
delta_26 delta lt h = ground arith

delta_16 :
    (delta : ℕ)
    → delta < 2 ^ 32
    → check_rel_delta delta 0x8000 0x7ffc ≡ true
    → signed_offset 16 (delta / 4 % 2 ^ 14 * 4) ≡ delta
unfolding check_rel_delta
delta_16 delta lt h = ground arith

b_word-lt : (offset : ℕ) (aa lk : Bool) → offset < 2 ^ 24 → b_word offset aa lk < 2 ^ 32
unfolding b_word
b_word-lt offset aa lk h = omega (arith, bit_of-lt aa, bit_of-lt lk)

-- The bytes after a patch of type REL24: the branch with the displacement of the target.
rel24_bytes :
    (before after : List ℕ) (offset patch_address goal old : ℕ) (lk : Bool)
    → offset + 4 ≤ length before
    → old < 2 ^ 24
    → read_be32 before offset ≡ b_word old false lk
    → patch_rel24 before offset patch_address goal ≡ some after
    → (check_rel_delta (delta_of patch_address goal) 0x02000000 0x01fffffc ≡ true)
      × (read_be32 after offset ≡ b_word (delta_of patch_address goal / 4 % 2 ^ 24) false lk)
unfolding patch_rel24 patch_word
rel24_bytes before after offset patch_address goal old lk fits small word h =
    let delta = delta_of patch_address goal in
    elim (Bool-cases (check_rel_delta delta 0x02000000 0x01fffffc)) [
      | inr bad ↦ cc (rw bad at h)
      | inl ok ↦ (
        ok,
        (let stored =
              some-injective
                (write_be32 before offset (
                  bit_or (bit_and (read_be32 before offset) 0xfc000003) (bit_and delta 0x03fffffc)))
                after (rw ok at h) in
            let merged =
              ap (λ (w : ℕ). bit_or (bit_and w 0xfc000003) (bit_and delta 0x03fffffc)) word
              ∙ merged_b old delta lk small in
            let lt = b_word-lt (delta / 4 % 2 ^ 24) false lk (omega arith) in
            ap (λ (q : List ℕ). read_be32 q offset) (sym stored)
            ∙ (read_be32-write_be32 before offset _ fits (omega (arith, merged)) ∙ merged)),
      )
    ]

bc_word-lt :
    (bo bi offset : ℕ) (aa lk : Bool)
    → bo < 32
    → bi < 32
    → offset < 2 ^ 14
    → bc_word bo bi offset aa lk < 2 ^ 32
unfolding bc_word
bc_word-lt bo bi offset aa lk p q h = omega (arith, bit_of-lt aa, bit_of-lt lk)

rel14_bytes :
    (before after : List ℕ) (offset patch_address goal bo bi old : ℕ) (lk : Bool)
    → offset + 4 ≤ length before
    → bo < 32
    → bi < 32
    → old < 2 ^ 14
    → read_be32 before offset ≡ bc_word bo bi old false lk
    → patch_rel14 before offset patch_address goal ≡ some after
    → (check_rel_delta (delta_of patch_address goal) 0x8000 0x7ffc ≡ true)
      × (read_be32 after offset ≡ bc_word bo bi (delta_of patch_address goal / 4 % 2 ^ 14) false lk)
unfolding patch_rel14 patch_word
rel14_bytes before after offset patch_address goal bo bi old lk fits p q small word h =
    let delta = delta_of patch_address goal in
    elim (Bool-cases (check_rel_delta delta 0x8000 0x7ffc)) [
      | inr bad ↦ cc (rw bad at h)
      | inl ok ↦ (
        ok,
        (let stored =
              some-injective
                (write_be32 before offset
                  (bit_or (bit_and (read_be32 before offset) 0xffff0003) (bit_and delta 0xfffc)))
                after (rw ok at h) in
            let merged =
              ap (λ (w : ℕ). bit_or (bit_and w 0xffff0003) (bit_and delta 0xfffc)) word
              ∙ merged_bc bo bi old delta lk p q small in
            let lt = bc_word-lt bo bi (delta / 4 % 2 ^ 14) false lk p q (omega arith) in
            ap (λ (q : List ℕ). read_be32 q offset) (sym stored)
            ∙ (read_be32-write_be32 before offset _ fits (omega (arith, merged)) ∙ merged)),
      )
    ]

pub in_range :
    (section : RelSection) (offset size : ℕ)
    → require_patch_range section offset size ≡ true
    → offset + size ≤ section.size
unfolding require_patch_range
in_range section offset size h = ground arith

-- The bytes that a relocation of a type other than R_PPC_NONE leaves.
pub patched_bytes :
    (section patched : RelSection) (offset patch_address type goal : ℕ) (before : List ℕ)
    → 0 < type
    → section.owned_data ≡ some before
    → apply_relocation section offset patch_address type goal ≡ some patched
    → (after : List ℕ) × (patched.owned_data ≡ some after)
      × (patch_bytes before offset patch_address type goal ≡ some after)
      × (require_patch_range section offset (patch_size_of type) ≡ true)
patched_bytes section patched offset patch_address type goal before some_type data_at h =
    elim (apply_split section patched offset patch_address type goal before data_at h) [
      | inl (none_type, same) ↦ absurd (omega arith)
      | inr (ok, after, at, same) ↦
          (after, ap (λ (s : RelSection). s.owned_data) (sym same), at, ok)
    ]

-- A REL24 relocation of a relative branch, between addresses below 2 ^ 32, where the section owns as many
-- bytes as its size says:
-- the word that it leaves decodes to the same branch, to the target of the relocation.
pub apply_relocation-rel24 :
    (section patched : RelSection) (offset patch_address goal : ℕ) (before : List ℕ) (old : ℕ)
    (lk : Bool)
    → section.owned_data ≡ some before
    → length before ≡ section.size
    → patch_address < 2 ^ 32
    → goal < 2 ^ 32
    → old < 2 ^ 24
    → read_be32 before offset ≡ b_word old false lk
    → apply_relocation section offset patch_address r_ppc_rel24 goal ≡ some patched
    → (after : List ℕ) × (patched.owned_data ≡ some after)
      × (ppc_decode (read_be32 after offset) patch_address
          ≡ record (blank_inst (read_be32 after offset) patch_address) {
            op = PpcOpcode.b;
            aa = false;
            lk = lk;
            branch_target = goal;
          })
unfolding patch_bytes switch
apply_relocation-rel24 section patched offset patch_address goal before old lk data_at size pl gl
      small word h =
    let (after, found, at, ok) =
      patched_bytes section patched offset patch_address r_ppc_rel24 goal before (omega arith)
        data_at h in
    let fits = in_range section offset 4 ok in
    let (checked, stored) =
      rel24_bytes before after offset patch_address goal old lk (omega arith) small word at in
    let delta = delta_of patch_address goal in
    let reach : u32 (patch_address + signed_offset 26 (delta / 4 % 2 ^ 24 * 4)) ≡ goal =
      rw (delta_26 delta (omega arith) checked) (omega arith) in
    (
      after,
      found,
      rw stored
          (decode-branch patch_address (delta / 4 % 2 ^ 24) false lk (omega arith) ∙ rw reach),
    )

-- A REL14 relocation of a relative conditional branch, under the same conditions, likewise keeps its
-- condition and goes to the target of the relocation.
pub apply_relocation-rel14 :
    (section patched : RelSection) (offset patch_address goal : ℕ) (before : List ℕ) (bo bi old : ℕ)
    (lk : Bool)
    → section.owned_data ≡ some before
    → length before ≡ section.size
    → patch_address < 2 ^ 32
    → goal < 2 ^ 32
    → bo < 32
    → bi < 32
    → old < 2 ^ 14
    → read_be32 before offset ≡ bc_word bo bi old false lk
    → apply_relocation section offset patch_address r_ppc_rel14 goal ≡ some patched
    → (after : List ℕ) × (patched.owned_data ≡ some after)
      × (ppc_decode (read_be32 after offset) patch_address
          ≡ record (blank_inst (read_be32 after offset) patch_address) {
            op = PpcOpcode.bc;
            bo = bo;
            bi = bi;
            aa = false;
            lk = lk;
            branch_target = goal;
          })
unfolding patch_bytes switch
apply_relocation-rel14 section patched offset patch_address goal before bo bi old lk data_at size pl
      gl p q small word h =
    let (after, found, at, ok) =
      patched_bytes section patched offset patch_address r_ppc_rel14 goal before (omega arith)
        data_at h in
    let fits = in_range section offset 4 ok in
    let (checked, stored) =
      rel14_bytes before after offset patch_address goal bo bi old lk (omega arith) p q small word
        at in
    let delta = delta_of patch_address goal in
    let reach : u32 (patch_address + signed_offset 16 (delta / 4 % 2 ^ 14 * 4)) ≡ goal =
      rw (delta_16 delta (omega arith) checked) (omega arith) in
    (
      after,
      found,
      rw stored (
          decode-cond_branch patch_address bo bi (delta / 4 % 2 ^ 14) false lk p q (omega arith)
          ∙ rw reach),
    )
