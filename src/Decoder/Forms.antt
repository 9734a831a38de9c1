-- ===== src/Decoder/Forms.antt =====
-- src/frontend/decoder.c: the `decode_*` helpers, one for each layout of the fields of an
-- instruction word. A helper whose name ends in `update` or `norc` refuses invalid forms.
use dol_recomp.Base.{
  ℕ, ◌==◌, ◌||◌, if◌then◌else◌, not, u16, to_bool, low_bits, sign_extend, bit_and,
}
use dol_recomp.Decoder.Opcode.{PpcOpcode}
use dol_recomp.Decoder.Inst.{PpcInst, field, refuse, ppc_rd, ppc_rs, ppc_ra, ppc_rb, ppc_rc_reg}
use dol_recomp.Decoder.Inst.{ppc_rc, ppc_simm}

unfoldable pub decode_d_rt_ra : PpcInst → PpcOpcode → ℕ → PpcInst
decode_d_rt_ra inst op raw = record inst {
  op = op;
  r_d = ppc_rd raw;
  r_a = ppc_ra raw;
  simm = ppc_simm raw;
}

unfoldable pub decode_d_rt_ra_update : PpcInst → PpcOpcode → ℕ → PpcInst
decode_d_rt_ra_update inst op raw =
    if ppc_ra raw == 0 || ppc_ra raw == ppc_rd raw then refuse inst else decode_d_rt_ra inst op raw

unfoldable pub decode_d_frt_ra_update : PpcInst → PpcOpcode → ℕ → PpcInst
decode_d_frt_ra_update inst op raw =
    if ppc_ra raw == 0 then refuse inst else decode_d_rt_ra inst op raw

unfoldable pub decode_d_rs_ra : PpcInst → PpcOpcode → ℕ → PpcInst
decode_d_rs_ra inst op raw = record inst {
  op = op;
  r_s = ppc_rs raw;
  r_a = ppc_ra raw;
  simm = ppc_simm raw;
}

unfoldable pub decode_d_rs_ra_update : PpcInst → PpcOpcode → ℕ → PpcInst
decode_d_rs_ra_update inst op raw =
    if ppc_ra raw == 0 then refuse inst else decode_d_rs_ra inst op raw

unfoldable pub decode_x_rt_ra_rb : PpcInst → PpcOpcode → ℕ → PpcInst
decode_x_rt_ra_rb inst op raw = record inst {
  op = op;
  r_d = ppc_rd raw;
  r_a = ppc_ra raw;
  r_b = ppc_rb raw;
  rc = ppc_rc raw;
}

unfoldable pub decode_x_rt_ra_rb_norc : PpcInst → PpcOpcode → ℕ → PpcInst
decode_x_rt_ra_rb_norc inst op raw =
    if ppc_rc raw then refuse inst else decode_x_rt_ra_rb inst op raw

unfoldable pub decode_x_rt_ra_rb_update : PpcInst → PpcOpcode → ℕ → PpcInst
decode_x_rt_ra_rb_update inst op raw =
    if ppc_rc raw || ppc_ra raw == 0 || ppc_ra raw == ppc_rd raw
    then refuse inst
    else decode_x_rt_ra_rb inst op raw

unfoldable pub decode_x_frt_ra_rb_update : PpcInst → PpcOpcode → ℕ → PpcInst
decode_x_frt_ra_rb_update inst op raw =
    if ppc_rc raw || ppc_ra raw == 0 then refuse inst else decode_x_rt_ra_rb inst op raw

unfoldable pub decode_xo_rt_ra_rb : PpcInst → PpcOpcode → ℕ → PpcInst
decode_xo_rt_ra_rb inst op raw = record (decode_x_rt_ra_rb inst op raw) {
  oe = to_bool (field raw 10 1);
}

unfoldable pub decode_x_rs_ra_rb : PpcInst → PpcOpcode → ℕ → PpcInst
decode_x_rs_ra_rb inst op raw = record inst {
  op = op;
  r_s = ppc_rs raw;
  r_a = ppc_ra raw;
  r_b = ppc_rb raw;
  rc = ppc_rc raw;
}

unfoldable pub decode_x_rs_ra_rb_norc : PpcInst → PpcOpcode → ℕ → PpcInst
decode_x_rs_ra_rb_norc inst op raw =
    if ppc_rc raw then refuse inst else decode_x_rs_ra_rb inst op raw

unfoldable pub decode_x_rs_ra_rb_update : PpcInst → PpcOpcode → ℕ → PpcInst
decode_x_rs_ra_rb_update inst op raw =
    if ppc_rc raw || ppc_ra raw == 0 then refuse inst else decode_x_rs_ra_rb inst op raw

unfoldable pub decode_a_frt_fra_frb_frc : PpcInst → PpcOpcode → ℕ → PpcInst
decode_a_frt_fra_frb_frc inst op raw = record inst {
  op = op;
  r_d = ppc_rd raw;
  r_a = ppc_ra raw;
  r_b = ppc_rb raw;
  r_c = ppc_rc_reg raw;
  rc = ppc_rc raw;
}

unfoldable pub decode_x_frt_frb : PpcInst → PpcOpcode → ℕ → PpcInst
decode_x_frt_frb inst op raw =
    if not (ppc_ra raw == 0)
    then refuse inst
    else record inst { op = op; r_d = ppc_rd raw; r_b = ppc_rb raw; rc = ppc_rc raw }

unfoldable pub decode_fcmp : PpcInst → PpcOpcode → ℕ → PpcInst
decode_fcmp inst op raw =
    if not (bit_and raw 0x600001 == 0)
    then refuse inst
    else record inst { op = op; crf_d = field raw 23 3; r_a = ppc_ra raw; r_b = ppc_rb raw }

unfoldable pub decode_cr_logical : PpcInst → PpcOpcode → ℕ → PpcInst
decode_cr_logical inst op raw =
    if ppc_rc raw
    then refuse inst
    else record inst { op = op; r_d = ppc_rd raw; r_a = ppc_ra raw; r_b = ppc_rb raw }

unfoldable pub decode_mtfsb : PpcInst → PpcOpcode → ℕ → PpcInst
decode_mtfsb inst op raw =
    if not (ppc_ra raw == 0) || not (ppc_rb raw == 0)
    then refuse inst
    else record inst { op = op; r_d = ppc_rd raw; rc = ppc_rc raw }

unfoldable pub decode_xo_rt_ra : PpcInst → PpcOpcode → ℕ → PpcInst
decode_xo_rt_ra inst op raw = record inst {
  op = op;
  r_d = ppc_rd raw;
  r_a = ppc_ra raw;
  rc = ppc_rc raw;
  oe = to_bool (field raw 10 1);
}

unfoldable pub decode_psq_d_rt_ra : PpcInst → PpcOpcode → ℕ → PpcInst
decode_psq_d_rt_ra inst op raw = record inst {
  op = op;
  r_d = ppc_rd raw;
  r_a = ppc_ra raw;
  w = field raw 15 1;
  i = field raw 12 3;
  simm = u16 (sign_extend (low_bits raw 12) 12);
}

unfoldable pub decode_psq_d_rt_ra_update : PpcInst → PpcOpcode → ℕ → PpcInst
decode_psq_d_rt_ra_update inst op raw =
    if ppc_ra raw == 0 then refuse inst else decode_psq_d_rt_ra inst op raw

unfoldable pub decode_psq_d_rs_ra : PpcInst → PpcOpcode → ℕ → PpcInst
decode_psq_d_rs_ra inst op raw = record inst {
  op = op;
  r_s = ppc_rs raw;
  r_a = ppc_ra raw;
  w = field raw 15 1;
  i = field raw 12 3;
  simm = u16 (sign_extend (low_bits raw 12) 12);
}

unfoldable pub decode_psq_d_rs_ra_update : PpcInst → PpcOpcode → ℕ → PpcInst
decode_psq_d_rs_ra_update inst op raw =
    if ppc_ra raw == 0 then refuse inst else decode_psq_d_rs_ra inst op raw

unfoldable pub decode_psq_x_rt_ra_rb : PpcInst → PpcOpcode → ℕ → PpcInst
decode_psq_x_rt_ra_rb inst op raw = record inst {
  op = op;
  r_d = ppc_rd raw;
  r_a = ppc_ra raw;
  r_b = ppc_rb raw;
  w = field raw 10 1;
  i = field raw 7 3;
}

unfoldable pub decode_psq_x_rt_ra_rb_norc : PpcInst → PpcOpcode → ℕ → PpcInst
decode_psq_x_rt_ra_rb_norc inst op raw =
    if ppc_rc raw then refuse inst else decode_psq_x_rt_ra_rb inst op raw

unfoldable pub decode_psq_x_rt_ra_rb_update : PpcInst → PpcOpcode → ℕ → PpcInst
decode_psq_x_rt_ra_rb_update inst op raw =
    if ppc_rc raw || ppc_ra raw == 0 then refuse inst else decode_psq_x_rt_ra_rb inst op raw

unfoldable pub decode_psq_x_rs_ra_rb : PpcInst → PpcOpcode → ℕ → PpcInst
decode_psq_x_rs_ra_rb inst op raw = record inst {
  op = op;
  r_s = ppc_rs raw;
  r_a = ppc_ra raw;
  r_b = ppc_rb raw;
  w = field raw 10 1;
  i = field raw 7 3;
}

unfoldable pub decode_psq_x_rs_ra_rb_norc : PpcInst → PpcOpcode → ℕ → PpcInst
decode_psq_x_rs_ra_rb_norc inst op raw =
    if ppc_rc raw then refuse inst else decode_psq_x_rs_ra_rb inst op raw

unfoldable pub decode_psq_x_rs_ra_rb_update : PpcInst → PpcOpcode → ℕ → PpcInst
decode_psq_x_rs_ra_rb_update inst op raw =
    if ppc_rc raw || ppc_ra raw == 0 then refuse inst else decode_psq_x_rs_ra_rb inst op raw
