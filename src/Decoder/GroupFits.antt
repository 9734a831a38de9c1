-- ===== src/Decoder/GroupFits.antt =====
-- Each group of primary opcodes keeps the fields within their widths.
use dol_recomp.Base.{ℕ, arith, switch-AllCases, bit_and}
use dol_recomp.Decoder.Inst.{PpcInst}
use dol_recomp.Decoder.Fits.{Fits, ppc_spr-lt, sign_extend-lt}
use dol_recomp.Decoder.FormFits.{form_fits}
use dol_recomp.Decoder.Paired.{decode_paired_arith, decode_paired_indexed, decode_paired}
use dol_recomp.Decoder.Branch.{decode_bc, decode_sc, decode_b, decode_cr_op, decode_cr}
use dol_recomp.Decoder.Extended.{
  decode_lswi, decode_integer_oe, decode_extended_high, decode_extended_low, decode_extended,
}
use dol_recomp.Decoder.Float.{decode_float_single, decode_float_arith, decode_float_double}
use dol_recomp.Decoder.Decode.{decode_memory, decode_immediate}

pub decode_paired_arith-Fits :
    (inst : PpcInst) (raw : ℕ) → Fits inst → Fits (decode_paired_arith inst raw)
unfolding decode_paired_arith
decode_paired_arith-Fits inst raw h = switch-AllCases Fits _ _ (search form_fits) (search form_fits)

pub decode_paired_indexed-Fits :
    (inst : PpcInst) (raw : ℕ) → Fits inst → Fits (decode_paired_indexed inst raw)
unfolding decode_paired_indexed
decode_paired_indexed-Fits inst raw h =
    switch-AllCases Fits _ _ (search form_fits) (search (decode_paired_arith-Fits))

pub decode_paired-Fits : (inst : PpcInst) (raw : ℕ) → Fits inst → Fits (decode_paired inst raw)
unfolding decode_paired
decode_paired-Fits inst raw h =
    switch-AllCases Fits _ _ (search (form_fits, arith)) (search (decode_paired_indexed-Fits))

pub decode_bc-Fits : (inst : PpcInst) (raw : ℕ) → Fits inst → Fits (decode_bc inst raw)
unfolding decode_bc
decode_bc-Fits inst raw h =
    ground
      (arith, sign_extend-lt (bit_and raw 0xfffc) 16, sign_extend-lt (bit_and raw 0x3fffffc) 26)

pub decode_sc-Fits : (inst : PpcInst) (raw : ℕ) → Fits inst → Fits (decode_sc inst raw)
unfolding decode_sc
decode_sc-Fits inst raw h = ground arith

pub decode_b-Fits : (inst : PpcInst) (raw : ℕ) → Fits inst → Fits (decode_b inst raw)
unfolding decode_b
decode_b-Fits inst raw h =
    ground
      (arith, sign_extend-lt (bit_and raw 0xfffc) 16, sign_extend-lt (bit_and raw 0x3fffffc) 26)

pub decode_cr_op-Fits : (inst : PpcInst) (raw : ℕ) → Fits inst → Fits (decode_cr_op inst raw)
unfolding decode_cr_op
decode_cr_op-Fits inst raw h =
    switch-AllCases Fits _ _ (search (form_fits, arith)) (search (form_fits))

pub decode_cr-Fits : (inst : PpcInst) (raw : ℕ) → Fits inst → Fits (decode_cr inst raw)
unfolding decode_cr
decode_cr-Fits inst raw h = ground (arith, decode_cr_op-Fits inst raw)

pub decode_integer_oe-Fits :
    (inst : PpcInst) (raw : ℕ) → Fits inst → Fits (decode_integer_oe inst raw)
unfolding decode_integer_oe
decode_integer_oe-Fits inst raw h =
    switch-AllCases Fits _ _ (search (form_fits, arith)) (search (form_fits))

pub decode_lswi-Fits : (inst : PpcInst) (raw : ℕ) → Fits inst → Fits (decode_lswi inst raw)
unfolding decode_lswi
decode_lswi-Fits inst raw h = ground arith

pub decode_extended_high-Fits :
    (inst : PpcInst) (raw : ℕ) → Fits inst → Fits (decode_extended_high inst raw)
unfolding decode_extended_high
decode_extended_high-Fits inst raw h =
    switch-AllCases Fits _ _ (search (form_fits, arith, ppc_spr-lt raw, decode_lswi-Fits))
      (search (form_fits))

pub decode_extended_low-Fits :
    (inst : PpcInst) (raw : ℕ) → Fits inst → Fits (decode_extended_low inst raw)
unfolding decode_extended_low
decode_extended_low-Fits inst raw h =
    switch-AllCases Fits _ _ (search (form_fits, arith, ppc_spr-lt raw))
      (search (form_fits, decode_extended_high-Fits))

pub decode_extended-Fits : (inst : PpcInst) (raw : ℕ) → Fits inst → Fits (decode_extended inst raw)
unfolding decode_extended
decode_extended-Fits inst raw h = ground (
  arith,
  decode_integer_oe-Fits inst raw,
  decode_extended_low-Fits (decode_integer_oe inst raw) raw,
)

pub decode_float_single-Fits :
    (inst : PpcInst) (raw : ℕ) → Fits inst → Fits (decode_float_single inst raw)
unfolding decode_float_single
decode_float_single-Fits inst raw h =
    switch-AllCases Fits _ _ (search (form_fits, arith)) (search (form_fits))

pub decode_float_arith-Fits :
    (inst : PpcInst) (raw : ℕ) → Fits inst → Fits (decode_float_arith inst raw)
unfolding decode_float_arith
decode_float_arith-Fits inst raw h =
    switch-AllCases Fits _ _ (search (form_fits, arith)) (search (form_fits))

pub decode_float_double-Fits :
    (inst : PpcInst) (raw : ℕ) → Fits inst → Fits (decode_float_double inst raw)
unfolding decode_float_double
decode_float_double-Fits inst raw h =
    switch-AllCases Fits _ _ (search (form_fits, arith))
      (search (form_fits, decode_float_arith-Fits))

pub decode_memory-Fits : (inst : PpcInst) (raw : ℕ) → Fits inst → Fits (decode_memory inst raw)
unfolding decode_memory
decode_memory-Fits inst raw h =
    switch-AllCases Fits _ _ (search (form_fits, arith)) (search (form_fits))

pub decode_immediate-Fits :
    (inst : PpcInst) (raw : ℕ) → Fits inst → Fits (decode_immediate inst raw)
unfolding decode_immediate
decode_immediate-Fits inst raw h =
    switch-AllCases Fits _ _ (search (form_fits, arith)) (search (form_fits, decode_memory-Fits))

pub ruleset group_fits = (
  decode_paired_arith-Fits, decode_paired_indexed-Fits, decode_paired-Fits, decode_bc-Fits,
  decode_sc-Fits, decode_b-Fits, decode_cr_op-Fits, decode_cr-Fits, decode_integer_oe-Fits,
  decode_extended_high-Fits, decode_extended_low-Fits, decode_extended-Fits,
  decode_float_single-Fits, decode_float_arith-Fits, decode_float_double-Fits, decode_memory-Fits,
  decode_immediate-Fits,
)
