-- ===== src/Rel/Word.antt =====
-- The words that src/frontend/container/rel.c patches: its masks as arithmetic.
use dol_recomp.Decoder.RoundTrip.Branch.{mask_16, mask_26}
use dol_recomp.Base.{
  sym, ℕ, ◌+◌, ◌*◌, ◌/◌, ◌%◌, ◌^◌, ◌<◌, ◌≡◌, ◌∙◌, ap, bit_and, bit_or, bit_or_above, arith,
}
use dol_recomp.Base.Bits.{bit_and_digit, bit_or_digit, bit_and_shift, bit_and_mask}

-- The high digits that a mask of `width` ones above `k` zeros leaves.
high_digits :
    (w : ℕ)
    → w < 2 ^ 30
    → (bit_and w 0x3f000000 ≡ w / 2 ^ 24 * 2 ^ 24) × (bit_and w 0x3fffc000 ≡ w / 2 ^ 14 * 2 ^ 14)
high_digits w h =
    let e : w / 2 ^ 24 * 2 ^ 24 + w % 2 ^ 24 ≡ w = omega arith in
    let f : w / 2 ^ 14 * 2 ^ 14 + w % 2 ^ 14 ≡ w = omega arith in
    let a = bit_and_shift 24 (w / 2 ^ 24) (w % 2 ^ 24) 63 (omega arith) in
    let b = bit_and_shift 14 (w / 2 ^ 14) (w % 2 ^ 14) 65535 (omega arith) in
    (
      ap (λ (t : ℕ). bit_and t 0x3f000000) (sym e)
          ∙ (a ∙ omega (arith, bit_and_mask 6 (w / 2 ^ 24))),
      ap (λ (t : ℕ). bit_and t 0x3fffc000) (sym f)
          ∙ (b ∙ omega (arith, bit_and_mask 16 (w / 2 ^ 14))),
    )

-- `& 0xFC000003` and `& 0xFFFF0003`: what a relocation keeps of an instruction.
keep_26 : (w : ℕ) → w < 2 ^ 32 → bit_and w 0xfc000003 ≡ w / 2 ^ 26 * 2 ^ 24 * 4 + w % 4
keep_26 w h = omega (
  arith,
  bit_and_digit w 0xfc000003,
  bit_and_digit (w / 2) 0x7e000001,
  (high_digits (w / 2 / 2) (omega arith)).0,
)

keep_16 : (w : ℕ) → w < 2 ^ 32 → bit_and w 0xffff0003 ≡ w / 2 ^ 16 * 2 ^ 14 * 4 + w % 4
keep_16 w h = omega (
  arith,
  bit_and_digit w 0xffff0003,
  bit_and_digit (w / 2) 0x7fff8001,
  (high_digits (w / 2 / 2) (omega arith)).1,
)

-- A field of whole words put between the bits that are kept.
between :
    (k high low middle : ℕ)
    → low < 4
    → middle < 2 ^ k
    → bit_or (high * 2 ^ k * 4 + low) (middle * 4) ≡ high * 2 ^ k * 4 + middle * 4 + low
between k high low middle p q =
    let a = bit_or_digit (high * 2 ^ k * 4 + low) (middle * 4) in
    let b = bit_or_digit (high * 2 ^ k * 2 + low / 2) (middle * 2) in
    let c = bit_or_above k high middle q in ground arith

-- The word that REL24 and ADDR24 store, and the one that REL14 and ADDR14 store.
pub merge_26 :
    (w value : ℕ)
    → w < 2 ^ 32
    → bit_or (bit_and w 0xfc000003) (bit_and value 0x03fffffc)
      ≡ w / 2 ^ 26 * 2 ^ 26 + value / 4 % 2 ^ 24 * 4 + w % 4
merge_26 w value h = rw (keep_26 w h) (
    rw (mask_26 value) (
      between 24 (w / 2 ^ 26) (w % 4) (value / 4 % 2 ^ 24) (omega arith) (omega arith)
      ∙ omega arith))

pub merge_16 :
    (w value : ℕ)
    → w < 2 ^ 32
    → bit_or (bit_and w 0xffff0003) (bit_and value 0xfffc)
      ≡ w / 2 ^ 16 * 2 ^ 16 + value / 4 % 2 ^ 14 * 4 + w % 4
merge_16 w value h = rw (keep_16 w h) (
    rw (mask_16 value) (
      between 14 (w / 2 ^ 16) (w % 4) (value / 4 % 2 ^ 14) (omega arith) (omega arith)
      ∙ omega arith))
