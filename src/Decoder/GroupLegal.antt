-- ===== src/Decoder/GroupLegal.antt =====
-- Each group of primary opcodes decodes to legal forms only.
use dol_recomp.Base.{ℕ, arith, switch-AllCases}
use dol_recomp.Decoder.Inst.{PpcInst}
use dol_recomp.Decoder.Legal.{IsLegal}
use dol_recomp.Decoder.StringLegal.{decode_lswi-IsLegal}
use dol_recomp.Decoder.Forms.{decode_d_rt_ra, decode_d_rt_ra_update, decode_d_frt_ra_update}
use dol_recomp.Decoder.Forms.{decode_d_rs_ra, decode_d_rs_ra_update, decode_x_rt_ra_rb}
use dol_recomp.Decoder.Forms.{decode_x_rt_ra_rb_norc, decode_x_rt_ra_rb_update}
use dol_recomp.Decoder.Forms.{decode_x_frt_ra_rb_update, decode_xo_rt_ra_rb, decode_x_rs_ra_rb}
use dol_recomp.Decoder.Forms.{decode_x_rs_ra_rb_norc, decode_x_rs_ra_rb_update}
use dol_recomp.Decoder.Forms.{decode_a_frt_fra_frb_frc, decode_x_frt_frb, decode_fcmp}
use dol_recomp.Decoder.Forms.{decode_cr_logical, decode_mtfsb, decode_xo_rt_ra}
use dol_recomp.Decoder.Forms.{decode_psq_d_rt_ra, decode_psq_d_rt_ra_update, decode_psq_d_rs_ra}
use dol_recomp.Decoder.Forms.{decode_psq_d_rs_ra_update, decode_psq_x_rt_ra_rb}
use dol_recomp.Decoder.Forms.{decode_psq_x_rt_ra_rb_norc, decode_psq_x_rt_ra_rb_update}
use dol_recomp.Decoder.Forms.{decode_psq_x_rs_ra_rb, decode_psq_x_rs_ra_rb_norc}
use dol_recomp.Decoder.Forms.{decode_psq_x_rs_ra_rb_update}
use dol_recomp.Decoder.Paired.{decode_paired_arith, decode_paired_indexed, decode_paired}
use dol_recomp.Decoder.Branch.{decode_bc, decode_sc, decode_b, decode_cr_op, decode_cr}
use dol_recomp.Decoder.Extended.{}
use dol_recomp.Decoder.Extended.{decode_integer_oe}
use dol_recomp.Decoder.Extended.{decode_extended_high, decode_extended_low, decode_extended}
use dol_recomp.Decoder.Float.{decode_float_single, decode_float_arith, decode_float_double}
use dol_recomp.Decoder.Decode.{decode_memory, decode_immediate}

pub decode_paired_arith-IsLegal :
    (inst : PpcInst) (raw address : ℕ)
    → IsLegal raw address inst
    → IsLegal raw address (decode_paired_arith inst raw)
unfolding decode_paired_arith decode_a_frt_fra_frb_frc
decode_paired_arith-IsLegal inst raw address h =
    switch-AllCases (IsLegal raw address) _ _ (ground (arith)) (ground (arith))

pub decode_paired_indexed-IsLegal :
    (inst : PpcInst) (raw address : ℕ)
    → IsLegal raw address inst
    → IsLegal raw address (decode_paired_indexed inst raw)
unfolding decode_paired_indexed decode_psq_x_rt_ra_rb_norc decode_psq_x_rt_ra_rb_update
    decode_psq_x_rs_ra_rb_norc decode_psq_x_rs_ra_rb_update decode_psq_x_rt_ra_rb
    decode_psq_x_rs_ra_rb
decode_paired_indexed-IsLegal inst raw address h =
    switch-AllCases (IsLegal raw address) _ _ (ground (arith))
      (ground (arith, decode_paired_arith-IsLegal inst raw address))

pub decode_paired-IsLegal :
    (inst : PpcInst) (raw address : ℕ)
    → IsLegal raw address inst
    → IsLegal raw address (decode_paired inst raw)
unfolding decode_paired decode_a_frt_fra_frb_frc decode_x_frt_frb decode_fcmp
decode_paired-IsLegal inst raw address h =
    switch-AllCases (IsLegal raw address) _ _ (ground (arith))
      (ground (arith, decode_paired_indexed-IsLegal inst raw address))

pub decode_bc-IsLegal :
    (inst : PpcInst) (raw address : ℕ)
    → IsLegal raw address inst
    → IsLegal raw address (decode_bc inst raw)
unfolding decode_bc
decode_bc-IsLegal inst raw address h = ground (arith)

pub decode_sc-IsLegal :
    (inst : PpcInst) (raw address : ℕ)
    → IsLegal raw address inst
    → IsLegal raw address (decode_sc inst raw)
unfolding decode_sc
decode_sc-IsLegal inst raw address h = ground (arith)

pub decode_b-IsLegal :
    (inst : PpcInst) (raw address : ℕ)
    → IsLegal raw address inst
    → IsLegal raw address (decode_b inst raw)
unfolding decode_b
decode_b-IsLegal inst raw address h = ground (arith)

pub decode_cr_op-IsLegal :
    (inst : PpcInst) (raw address : ℕ)
    → IsLegal raw address inst
    → IsLegal raw address (decode_cr_op inst raw)
unfolding decode_cr_op decode_cr_logical
decode_cr_op-IsLegal inst raw address h =
    switch-AllCases (IsLegal raw address) _ _ (ground (arith)) (ground (arith))

pub decode_cr-IsLegal :
    (inst : PpcInst) (raw address : ℕ)
    → IsLegal raw address inst
    → IsLegal raw address (decode_cr inst raw)
unfolding decode_cr
decode_cr-IsLegal inst raw address h = ground (arith, decode_cr_op-IsLegal inst raw address)

pub decode_integer_oe-IsLegal :
    (inst : PpcInst) (raw address : ℕ)
    → IsLegal raw address inst
    → IsLegal raw address (decode_integer_oe inst raw)
unfolding decode_integer_oe decode_xo_rt_ra_rb decode_xo_rt_ra decode_x_rt_ra_rb
decode_integer_oe-IsLegal inst raw address h =
    switch-AllCases (IsLegal raw address) _ _ (ground (arith)) (ground (arith))

pub decode_extended_high-IsLegal :
    (inst : PpcInst) (raw address : ℕ)
    → IsLegal raw address inst
    → IsLegal raw address (decode_extended_high inst raw)
unfolding decode_extended_high decode_x_rt_ra_rb decode_x_rt_ra_rb_norc decode_x_rt_ra_rb_update
    decode_x_frt_ra_rb_update decode_x_rs_ra_rb decode_x_rs_ra_rb_norc decode_x_rs_ra_rb_update
decode_extended_high-IsLegal inst raw address h =
    switch-AllCases (IsLegal raw address) _ _ (ground (arith, decode_lswi-IsLegal inst raw address))
      (ground (arith, decode_lswi-IsLegal inst raw address))

pub decode_extended_low-IsLegal :
    (inst : PpcInst) (raw address : ℕ)
    → IsLegal raw address inst
    → IsLegal raw address (decode_extended_low inst raw)
unfolding decode_extended_low decode_x_rt_ra_rb decode_x_rt_ra_rb_norc decode_x_rt_ra_rb_update
    decode_x_rs_ra_rb decode_x_rs_ra_rb_norc decode_x_rs_ra_rb_update
decode_extended_low-IsLegal inst raw address h =
    switch-AllCases (IsLegal raw address) _ _ (ground (arith))
      (ground (arith, decode_extended_high-IsLegal inst raw address))

pub decode_extended-IsLegal :
    (inst : PpcInst) (raw address : ℕ)
    → IsLegal raw address inst
    → IsLegal raw address (decode_extended inst raw)
unfolding decode_extended
decode_extended-IsLegal inst raw address h = ground (
  arith,
  decode_integer_oe-IsLegal inst raw address,
  decode_extended_low-IsLegal (decode_integer_oe inst raw) raw address,
)

pub decode_float_single-IsLegal :
    (inst : PpcInst) (raw address : ℕ)
    → IsLegal raw address inst
    → IsLegal raw address (decode_float_single inst raw)
unfolding decode_float_single decode_a_frt_fra_frb_frc decode_x_frt_frb
decode_float_single-IsLegal inst raw address h =
    switch-AllCases (IsLegal raw address) _ _ (ground (arith)) (ground (arith))

pub decode_float_arith-IsLegal :
    (inst : PpcInst) (raw address : ℕ)
    → IsLegal raw address inst
    → IsLegal raw address (decode_float_arith inst raw)
unfolding decode_float_arith decode_a_frt_fra_frb_frc decode_x_frt_frb
decode_float_arith-IsLegal inst raw address h =
    switch-AllCases (IsLegal raw address) _ _ (ground (arith)) (ground (arith))

pub decode_float_double-IsLegal :
    (inst : PpcInst) (raw address : ℕ)
    → IsLegal raw address inst
    → IsLegal raw address (decode_float_double inst raw)
unfolding decode_float_double decode_x_frt_frb decode_fcmp decode_mtfsb
decode_float_double-IsLegal inst raw address h =
    switch-AllCases (IsLegal raw address) _ _ (ground (arith))
      (ground (arith, decode_float_arith-IsLegal inst raw address))

pub decode_memory-IsLegal :
    (inst : PpcInst) (raw address : ℕ)
    → IsLegal raw address inst
    → IsLegal raw address (decode_memory inst raw)
unfolding decode_memory decode_d_rt_ra decode_d_rt_ra_update decode_d_frt_ra_update decode_d_rs_ra
    decode_d_rs_ra_update decode_psq_d_rt_ra decode_psq_d_rt_ra_update decode_psq_d_rs_ra
    decode_psq_d_rs_ra_update
decode_memory-IsLegal inst raw address h =
    switch-AllCases (IsLegal raw address) _ _ (ground (arith)) (ground (arith))

pub decode_immediate-IsLegal :
    (inst : PpcInst) (raw address : ℕ)
    → IsLegal raw address inst
    → IsLegal raw address (decode_immediate inst raw)
unfolding decode_immediate decode_d_rt_ra
decode_immediate-IsLegal inst raw address h =
    switch-AllCases (IsLegal raw address) _ _ (ground (arith))
      (ground (arith, decode_memory-IsLegal inst raw address))

pub ruleset group_legal = (
  decode_paired_arith-IsLegal, decode_paired_indexed-IsLegal, decode_paired-IsLegal,
  decode_bc-IsLegal, decode_sc-IsLegal, decode_b-IsLegal, decode_cr_op-IsLegal, decode_cr-IsLegal,
  decode_integer_oe-IsLegal, decode_extended_high-IsLegal, decode_extended_low-IsLegal,
  decode_extended-IsLegal, decode_float_single-IsLegal, decode_float_arith-IsLegal,
  decode_float_double-IsLegal, decode_memory-IsLegal, decode_immediate-IsLegal,
)
