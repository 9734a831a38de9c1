-- ===== src/Decoder/Float.antt =====
-- src/frontend/decoder.c: primary opcodes 59 and 63 of `ppc_decode`, the floating-point instructions.
use dol_recomp.Base.{ℕ, ◌==◌, ◌&&◌, ◌||◌, if◌then◌else◌, not, bit_and, switch, [], ◌∷◌}
use dol_recomp.Decoder.Opcode.{PpcOpcode}
use dol_recomp.Decoder.Inst.{PpcInst, field, refuse, ppc_a_xo, ppc_ra, ppc_rb, ppc_rc, ppc_rc_reg}
use dol_recomp.Decoder.Inst.{ppc_rd, ppc_xo}
use dol_recomp.Decoder.Forms.{decode_a_frt_fra_frb_frc, decode_x_frt_frb, decode_fcmp}
use dol_recomp.Decoder.Forms.{decode_mtfsb}

unfoldable pub decode_float_single : PpcInst → ℕ → PpcInst
decode_float_single inst raw =
    switch (ppc_a_xo raw)
      ((18, decode_a_frt_fra_frb_frc inst PpcOpcode.fdivs raw)
        ∷ (20, decode_a_frt_fra_frb_frc inst PpcOpcode.fsubs raw)
        ∷ (21, decode_a_frt_fra_frb_frc inst PpcOpcode.fadds raw)
        ∷ (
          24,
          if ppc_ra raw == 0 && ppc_rc_reg raw == 0
              then decode_x_frt_frb inst PpcOpcode.fres raw
              else refuse inst,
        )
        ∷ (25, decode_a_frt_fra_frb_frc inst PpcOpcode.fmuls raw)
        ∷ (28, decode_a_frt_fra_frb_frc inst PpcOpcode.fmsubs raw)
        ∷ (29, decode_a_frt_fra_frb_frc inst PpcOpcode.fmadds raw)
        ∷ (30, decode_a_frt_fra_frb_frc inst PpcOpcode.fnmsubs raw)
        ∷ (31, decode_a_frt_fra_frb_frc inst PpcOpcode.fnmadds raw)
        ∷ [])
      (refuse inst)

unfoldable pub decode_float_arith : PpcInst → ℕ → PpcInst
decode_float_arith inst raw =
    switch (ppc_a_xo raw)
      ((18, decode_a_frt_fra_frb_frc inst PpcOpcode.fdiv raw)
        ∷ (20, decode_a_frt_fra_frb_frc inst PpcOpcode.fsub raw)
        ∷ (21, decode_a_frt_fra_frb_frc inst PpcOpcode.fadd raw)
        ∷ (23, decode_a_frt_fra_frb_frc inst PpcOpcode.fsel raw)
        ∷ (25, decode_a_frt_fra_frb_frc inst PpcOpcode.fmul raw)
        ∷ (
          26,
          if ppc_ra raw == 0 && ppc_rc_reg raw == 0
              then decode_x_frt_frb inst PpcOpcode.frsqrte raw
              else refuse inst,
        )
        ∷ (28, decode_a_frt_fra_frb_frc inst PpcOpcode.fmsub raw)
        ∷ (29, decode_a_frt_fra_frb_frc inst PpcOpcode.fmadd raw)
        ∷ (30, decode_a_frt_fra_frb_frc inst PpcOpcode.fnmsub raw)
        ∷ (31, decode_a_frt_fra_frb_frc inst PpcOpcode.fnmadd raw)
        ∷ [])
      (refuse inst)

unfoldable pub decode_float_double : PpcInst → ℕ → PpcInst
decode_float_double inst raw =
    switch (ppc_xo raw)
      ((0, decode_fcmp inst PpcOpcode.fcmpu raw)
        ∷ (12, decode_x_frt_frb inst PpcOpcode.frsp raw)
        ∷ (14, if ppc_ra raw == 0 then decode_x_frt_frb inst PpcOpcode.fctiw raw else refuse inst)
        ∷ (15, if ppc_ra raw == 0 then decode_x_frt_frb inst PpcOpcode.fctiwz raw else refuse inst)
        ∷ (32, decode_fcmp inst PpcOpcode.fcmpo raw)
        ∷ (38, decode_mtfsb inst PpcOpcode.mtfsb1 raw)
        ∷ (40, decode_x_frt_frb inst PpcOpcode.fneg raw)
        ∷ (
          64,
          if not (bit_and raw 0x63f801 == 0) then refuse inst else record inst {
            op = PpcOpcode.mcrfs;
            crf_d = field raw 23 3;
            crf_s = field raw 18 3;
          },
        )
        ∷ (70, decode_mtfsb inst PpcOpcode.mtfsb0 raw)
        ∷ (72, decode_x_frt_frb inst PpcOpcode.fmr raw)
        ∷ (136, decode_x_frt_frb inst PpcOpcode.fnabs raw)
        ∷ (
          134,
          if not (bit_and raw 0x7f0800 == 0) then refuse inst else record inst {
            op = PpcOpcode.mtfsfi;
            crf_d = field raw 23 3;
            imm = field raw 12 4;
            rc = ppc_rc raw;
          },
        )
        ∷ (264, decode_x_frt_frb inst PpcOpcode.fabs raw)
        ∷ (
          583,
          if not (ppc_ra raw == 0) || not (ppc_rb raw == 0)
              then refuse inst
              else record inst { op = PpcOpcode.mffs; r_d = ppc_rd raw; rc = ppc_rc raw },
        )
        ∷ (
          711,
          if not (bit_and raw 0x2010000 == 0) then refuse inst else record inst {
            op = PpcOpcode.mtfsf;
            fm = field raw 17 8;
            r_b = ppc_rb raw;
            rc = ppc_rc raw;
          },
        )
        ∷ [])
      (decode_float_arith inst raw)
