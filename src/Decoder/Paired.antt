-- ===== src/Decoder/Paired.antt =====
-- src/frontend/decoder.c: primary opcode 4 of `ppc_decode`, the paired-single instructions.
use dol_recomp.Base.{ℕ, ◌==◌, ◌&&◌, if◌then◌else◌, not, low_bits, switch, [], ◌∷◌}
use dol_recomp.Decoder.Opcode.{PpcOpcode}
use dol_recomp.Decoder.Inst.{PpcInst, refuse, ppc_a_xo, ppc_ra, ppc_rb, ppc_rc, ppc_rd, ppc_xo}
use dol_recomp.Decoder.Forms.{decode_a_frt_fra_frb_frc, decode_x_frt_frb, decode_fcmp}
use dol_recomp.Decoder.Forms.{decode_psq_x_rt_ra_rb_norc, decode_psq_x_rt_ra_rb_update}
use dol_recomp.Decoder.Forms.{decode_psq_x_rs_ra_rb_norc, decode_psq_x_rs_ra_rb_update}

unfoldable pub decode_paired_arith : PpcInst → ℕ → PpcInst
decode_paired_arith inst raw =
    switch (ppc_a_xo raw)
      ((10, decode_a_frt_fra_frb_frc inst PpcOpcode.ps_sum0 raw)
        ∷ (11, decode_a_frt_fra_frb_frc inst PpcOpcode.ps_sum1 raw)
        ∷ (12, decode_a_frt_fra_frb_frc inst PpcOpcode.ps_muls0 raw)
        ∷ (13, decode_a_frt_fra_frb_frc inst PpcOpcode.ps_muls1 raw)
        ∷ (14, decode_a_frt_fra_frb_frc inst PpcOpcode.ps_madds0 raw)
        ∷ (15, decode_a_frt_fra_frb_frc inst PpcOpcode.ps_madds1 raw)
        ∷ (23, decode_a_frt_fra_frb_frc inst PpcOpcode.ps_sel raw)
        ∷ (25, decode_a_frt_fra_frb_frc inst PpcOpcode.ps_mul raw)
        ∷ (28, decode_a_frt_fra_frb_frc inst PpcOpcode.ps_msub raw)
        ∷ (29, decode_a_frt_fra_frb_frc inst PpcOpcode.ps_madd raw)
        ∷ (30, decode_a_frt_fra_frb_frc inst PpcOpcode.ps_nmsub raw)
        ∷ (31, decode_a_frt_fra_frb_frc inst PpcOpcode.ps_nmadd raw)
        ∷ [])
      (refuse inst)

unfoldable pub decode_paired_indexed : PpcInst → ℕ → PpcInst
decode_paired_indexed inst raw =
    switch (low_bits (ppc_xo raw) 6)
      ((6, decode_psq_x_rt_ra_rb_norc inst PpcOpcode.psq_lx raw)
        ∷ (7, decode_psq_x_rs_ra_rb_norc inst PpcOpcode.psq_stx raw)
        ∷ (38, decode_psq_x_rt_ra_rb_update inst PpcOpcode.psq_lux raw)
        ∷ (39, decode_psq_x_rs_ra_rb_update inst PpcOpcode.psq_stux raw)
        ∷ [])
      (decode_paired_arith inst raw)

unfoldable pub decode_paired : PpcInst → ℕ → PpcInst
decode_paired inst raw =
    switch (ppc_xo raw)
      ((0, decode_fcmp inst PpcOpcode.ps_cmpu0 raw)
        ∷ (18, decode_a_frt_fra_frb_frc inst PpcOpcode.ps_div raw)
        ∷ (24, if ppc_ra raw == 0 then decode_x_frt_frb inst PpcOpcode.ps_res raw else refuse inst)
        ∷ (
          26,
          if ppc_ra raw == 0 then decode_x_frt_frb inst PpcOpcode.ps_rsqrte raw else refuse inst,
        )
        ∷ (20, decode_a_frt_fra_frb_frc inst PpcOpcode.ps_sub raw)
        ∷ (21, decode_a_frt_fra_frb_frc inst PpcOpcode.ps_add raw)
        ∷ (32, decode_fcmp inst PpcOpcode.ps_cmpo0 raw)
        ∷ (40, decode_x_frt_frb inst PpcOpcode.ps_neg raw)
        ∷ (64, decode_fcmp inst PpcOpcode.ps_cmpu1 raw)
        ∷ (72, decode_x_frt_frb inst PpcOpcode.ps_mr raw)
        ∷ (96, decode_fcmp inst PpcOpcode.ps_cmpo1 raw)
        ∷ (136, decode_x_frt_frb inst PpcOpcode.ps_nabs raw)
        ∷ (264, decode_x_frt_frb inst PpcOpcode.ps_abs raw)
        ∷ (528, decode_a_frt_fra_frb_frc inst PpcOpcode.ps_merge00 raw)
        ∷ (560, decode_a_frt_fra_frb_frc inst PpcOpcode.ps_merge01 raw)
        ∷ (592, decode_a_frt_fra_frb_frc inst PpcOpcode.ps_merge10 raw)
        ∷ (624, decode_a_frt_fra_frb_frc inst PpcOpcode.ps_merge11 raw)
        ∷ (
          1014,
          if ppc_rd raw == 0 && not (ppc_rc raw)
              then record inst { op = PpcOpcode.dcbz_l; r_a = ppc_ra raw; r_b = ppc_rb raw }
              else refuse inst,
        )
        ∷ [])
      (decode_paired_indexed inst raw)
