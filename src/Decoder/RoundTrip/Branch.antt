-- ===== src/Decoder/RoundTrip/Branch.antt =====
-- The branches: the displacement that `ppc_decode` of src/frontend/decoder.c adds is the signed
-- word offset of the instruction.
use dol_recomp.Base.{ℕ, ◌+◌, ◌-◌, ◌*◌, ◌/◌, ◌%◌, ◌^◌, ◌<◌, ◌≡◌, Bool, if◌then◌else◌, ltb}
use dol_recomp.Base.{u32, low_bits, sign_extend, bit_and, switch, arith}
use dol_recomp.Base.Bits.{bit_and_double, bit_and_mask, bit_xor_top}
use dol_recomp.Decoder.Opcode.{PpcOpcode}
use dol_recomp.Decoder.Inst.{blank_inst, field, ppc_primary, ppc_bo, ppc_bi}
use dol_recomp.Decoder.Branch.{decode_b, decode_bc}
use dol_recomp.Decoder.Decode.{ppc_decode}
use dol_recomp.Decoder.Assemble.{bit_of}
use dol_recomp.Decoder.RoundTrip.Register.{bit_of-lt, flag_of}

-- A word of two's complement with `bits` bits, as a word of 32 bits.
abbrev pub signed_offset : ℕ → ℕ → ℕ
signed_offset bits v = if ltb v (2 ^ (bits - 1)) then v else v + 2 ^ 32 - 2 ^ bits

pub sign_extend_16 : (v : ℕ) → v < 2 ^ 16 → sign_extend v 16 ≡ signed_offset 16 v
unfolding sign_extend
sign_extend_16 v h = ground (arith, bit_xor_top 15 v)

sign_extend_26 : (v : ℕ) → v < 2 ^ 26 → sign_extend v 26 ≡ signed_offset 26 v
unfolding sign_extend
sign_extend_26 v h = ground (arith, bit_xor_top 25 v)

pub mask_16 : (raw : ℕ) → bit_and raw 0xfffc ≡ raw / 4 % 2 ^ 14 * 4
mask_16 raw = omega (
  arith,
  bit_and_double raw 0x7ffe,
  bit_and_double (raw / 2) 0x3fff,
  bit_and_mask 14 (raw / 2 / 2),
)

pub mask_26 : (raw : ℕ) → bit_and raw 0x3fffffc ≡ raw / 4 % 2 ^ 24 * 4
mask_26 raw = omega (
  arith,
  bit_and_double raw 0x1fffffe,
  bit_and_double (raw / 2) 0xffffff,
  bit_and_mask 24 (raw / 2 / 2),
)

pub displacement_16 :
    (raw : ℕ) → sign_extend (bit_and raw 0xfffc) 16 ≡ signed_offset 16 (raw / 4 % 2 ^ 14 * 4)
displacement_16 raw = rw mask_16 (sign_extend_16 _ (omega arith))

pub displacement_26 :
    (raw : ℕ) → sign_extend (bit_and raw 0x3fffffc) 26 ≡ signed_offset 26 (raw / 4 % 2 ^ 24 * 4)
displacement_26 raw = rw mask_26 (sign_extend_26 _ (omega arith))

unfoldable pub b_word : ℕ → Bool → Bool → ℕ
b_word offset aa lk = 18 * 2 ^ 26 + offset * 4 + bit_of aa * 2 + bit_of lk

unfoldable pub bc_word : ℕ → ℕ → ℕ → Bool → Bool → ℕ
bc_word bo bi offset aa lk =
    16 * 2 ^ 26 + bo * 2 ^ 21 + bi * 2 ^ 16 + offset * 4 + bit_of aa * 2 + bit_of lk

-- Where a branch goes: an absolute address, or one relative to the instruction.
abbrev pub target : ℕ → ℕ → Bool → ℕ
target address displacement aa = if aa then displacement else u32 (address + displacement)

b_word_fields :
    (offset : ℕ) (aa lk : Bool)
    → offset < 2 ^ 24
    → let raw = b_word offset aa lk in
      (ppc_primary raw ≡ 18)
      × (raw / 4 % 2 ^ 24 ≡ offset)
      × (field raw 1 1 ≡ bit_of aa)
      × (low_bits raw 1 ≡ bit_of lk)
unfolding b_word
b_word_fields offset aa lk h = omega (arith, bit_of-lt aa, bit_of-lt lk)

bc_word_fields :
    (bo bi offset : ℕ) (aa lk : Bool)
    → bo < 32
    → bi < 32
    → offset < 2 ^ 14
    → let raw = bc_word bo bi offset aa lk in
      (ppc_primary raw ≡ 16)
      × (raw / 4 % 2 ^ 14 ≡ offset)
      × (field raw 1 1 ≡ bit_of aa)
      × (low_bits raw 1 ≡ bit_of lk)
      × (ppc_bo raw ≡ bo)
      × (ppc_bi raw ≡ bi)
unfolding bc_word
bc_word_fields bo bi offset aa lk p q r = omega (arith, bit_of-lt aa, bit_of-lt lk)

decode_primary_18 :
    (raw address : ℕ)
    → ppc_primary raw ≡ 18
    → ppc_decode raw address ≡ decode_b (blank_inst raw address) raw
unfolding ppc_decode switch
decode_primary_18 raw address p = rw p

decode_primary_16 :
    (raw address : ℕ)
    → ppc_primary raw ≡ 16
    → ppc_decode raw address ≡ decode_bc (blank_inst raw address) raw
unfolding ppc_decode switch
decode_primary_16 raw address p = rw p

pub decode-branch :
    (address offset : ℕ) (aa lk : Bool)
    → offset < 2 ^ 24
    → let raw = b_word offset aa lk in
      ppc_decode raw address ≡ record (blank_inst raw address) {
        op = PpcOpcode.b;
        aa = aa;
        lk = lk;
        branch_target = target address (signed_offset 26 (offset * 4)) aa;
      }
unfolding decode_b
decode-branch address offset aa lk h =
    let raw = b_word offset aa lk in
    let fields = b_word_fields offset aa lk h in
    rw (
      decode_primary_18 raw address fields.0,
      displacement_26 raw,
      fields.1,
      flag_of aa (field raw 1 1) fields.2,
      flag_of lk (low_bits raw 1) fields.3,
    )

pub decode-cond_branch :
    (address bo bi offset : ℕ) (aa lk : Bool)
    → bo < 32
    → bi < 32
    → offset < 2 ^ 14
    → let raw = bc_word bo bi offset aa lk in
      ppc_decode raw address ≡ record (blank_inst raw address) {
        op = PpcOpcode.bc;
        bo = bo;
        bi = bi;
        aa = aa;
        lk = lk;
        branch_target = target address (signed_offset 16 (offset * 4)) aa;
      }
unfolding decode_bc
decode-cond_branch address bo bi offset aa lk p q r =
    let raw = bc_word bo bi offset aa lk in
    let fields = bc_word_fields bo bi offset aa lk p q r in
    rw (
      decode_primary_16 raw address fields.0,
      displacement_16 raw,
      fields.1,
      fields.4,
      fields.5,
      flag_of aa (field raw 1 1) fields.2,
      flag_of lk (low_bits raw 1) fields.3,
    )
