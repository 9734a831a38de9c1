-- ===== src/Decoder/Extended.antt =====
-- src/frontend/decoder.c: primary opcode 31 of `ppc_decode`, with the two helpers of its string
-- instructions. The second `switch` is cut in two tables.
use dol_recomp.Base.{
  ℕ, zero, suc, ◌+◌, ◌/◌, ◌%◌, ◌==◌, ◌&&◌, ◌||◌, if◌then◌else◌, not, Bool, true, false, to_bool,
  low_bits, bit_and, switch, [], ◌∷◌,
}
use dol_recomp.Decoder.Opcode.{PpcOpcode}
use dol_recomp.Decoder.Inst.{PpcInst, field, refuse, ppc_crm, ppc_ra, ppc_rb, ppc_rc, ppc_rd}
use dol_recomp.Decoder.Inst.{ppc_rs, ppc_sh, ppc_spr, ppc_xo}
use dol_recomp.Decoder.Forms.{decode_x_rt_ra_rb, decode_x_rt_ra_rb_norc, decode_x_rt_ra_rb_update}
use dol_recomp.Decoder.Forms.{decode_x_frt_ra_rb_update, decode_xo_rt_ra_rb, decode_x_rs_ra_rb}
use dol_recomp.Decoder.Forms.{decode_x_rs_ra_rb_norc, decode_x_rs_ra_rb_update, decode_xo_rt_ra}

-- The loop from `i` with `left` rounds to go.
unfoldable pub reg_in_wrapped_range_from : ℕ → ℕ → ℕ → ℕ → Bool
reg_in_wrapped_range_from start zero i reg = false
reg_in_wrapped_range_from start (suc left) i reg =
    (start + i) % 32 == reg || reg_in_wrapped_range_from start left (i + 1) reg

unfoldable pub reg_in_wrapped_range : ℕ → ℕ → ℕ → Bool
unfolding reg_in_wrapped_range_from
reg_in_wrapped_range start count reg = reg_in_wrapped_range_from start count 0 reg

unfoldable pub string_register_count : ℕ → ℕ
string_register_count byte_count =
    let count = if byte_count == 0 then 32 else byte_count in (count + 3) / 4

unfoldable pub decode_lswi : PpcInst → ℕ → PpcInst
decode_lswi inst raw =
    if not (ppc_rc raw)
      && not (reg_in_wrapped_range (ppc_rd raw) (string_register_count (ppc_rb raw)) (ppc_ra raw))
    then record inst { op = PpcOpcode.lswi; r_d = ppc_rd raw; r_a = ppc_ra raw; nb = ppc_rb raw }
    else refuse inst

-- The first `switch`, which leaves the instruction alone where it knows no case.
unfoldable pub decode_integer_oe : PpcInst → ℕ → PpcInst
decode_integer_oe inst raw =
    let oe = to_bool (field raw 10 1) in
    switch (low_bits (ppc_xo raw) 9)
      ((8, decode_xo_rt_ra_rb inst (if oe then PpcOpcode.subfco else PpcOpcode.subfc) raw)
        ∷ (10, decode_xo_rt_ra_rb inst (if oe then PpcOpcode.addco else PpcOpcode.addc) raw)
        ∷ (40, decode_xo_rt_ra_rb inst (if oe then PpcOpcode.subfo else PpcOpcode.subf) raw)
        ∷ (
          104,
          if ppc_rb raw == 0
              then decode_xo_rt_ra inst (if oe then PpcOpcode.nego else PpcOpcode.neg) raw
              else inst,
        )
        ∷ (136, decode_xo_rt_ra_rb inst (if oe then PpcOpcode.subfeo else PpcOpcode.subfe) raw)
        ∷ (138, decode_xo_rt_ra_rb inst (if oe then PpcOpcode.addeo else PpcOpcode.adde) raw)
        ∷ (
          200,
          if ppc_rb raw == 0
              then decode_xo_rt_ra inst (if oe then PpcOpcode.subfzeo else PpcOpcode.subfze) raw
              else inst,
        )
        ∷ (
          202,
          if ppc_rb raw == 0
              then decode_xo_rt_ra inst (if oe then PpcOpcode.addzeo else PpcOpcode.addze) raw
              else inst,
        )
        ∷ (
          232,
          if ppc_rb raw == 0
              then decode_xo_rt_ra inst (if oe then PpcOpcode.subfmeo else PpcOpcode.subfme) raw
              else inst,
        )
        ∷ (
          234,
          if ppc_rb raw == 0
              then decode_xo_rt_ra inst (if oe then PpcOpcode.addmeo else PpcOpcode.addme) raw
              else inst,
        )
        ∷ (235, decode_xo_rt_ra_rb inst (if oe then PpcOpcode.mullwo else PpcOpcode.mullw) raw)
        ∷ (266, decode_xo_rt_ra_rb inst (if oe then PpcOpcode.addo else PpcOpcode.add) raw)
        ∷ (459, decode_xo_rt_ra_rb inst (if oe then PpcOpcode.divwuo else PpcOpcode.divwu) raw)
        ∷ (491, decode_xo_rt_ra_rb inst (if oe then PpcOpcode.divwo else PpcOpcode.divw) raw)
        ∷ [])
      inst

unfoldable pub decode_extended_high : PpcInst → ℕ → PpcInst
decode_extended_high inst raw =
    switch (ppc_xo raw)
      ((
        371,
        if not (ppc_rc raw)
            then record inst { op = PpcOpcode.mftb; r_d = ppc_rd raw; spr = ppc_spr raw }
            else refuse inst,
      )
        ∷ (343, decode_x_rt_ra_rb_norc inst PpcOpcode.lhax raw)
        ∷ (375, decode_x_rt_ra_rb_update inst PpcOpcode.lhaux raw)
        ∷ (407, decode_x_rs_ra_rb_norc inst PpcOpcode.sthx raw)
        ∷ (412, decode_x_rs_ra_rb inst PpcOpcode.orc raw)
        ∷ (
          438,
          if not (ppc_rc raw) then decode_x_rs_ra_rb inst PpcOpcode.ecowx raw else refuse inst,
        )
        ∷ (439, decode_x_rs_ra_rb_update inst PpcOpcode.sthux raw)
        ∷ (444, decode_x_rs_ra_rb inst PpcOpcode.or raw)
        ∷ (
          470,
          if ppc_rd raw == 0 && not (ppc_rc raw)
              then record inst { op = PpcOpcode.dcbi; r_a = ppc_ra raw; r_b = ppc_rb raw }
              else refuse inst,
        )
        ∷ (
          467,
          if not (ppc_rc raw)
              then record inst { op = PpcOpcode.mtspr; r_s = ppc_rs raw; spr = ppc_spr raw }
              else refuse inst,
        )
        ∷ (476, decode_x_rs_ra_rb inst PpcOpcode.nand raw)
        ∷ (
          512,
          if bit_and raw 0x7ff801 == 0
              then record inst { op = PpcOpcode.mcrxr; crf_d = field raw 23 3 }
              else refuse inst,
        )
        ∷ (
          533,
          if not (ppc_rc raw) && not (ppc_rd raw == ppc_ra raw) && not (ppc_rd raw == ppc_rb raw)
              then decode_x_rt_ra_rb inst PpcOpcode.lswx raw
              else refuse inst,
        )
        ∷ (534, decode_x_rt_ra_rb_norc inst PpcOpcode.lwbrx raw)
        ∷ (535, decode_x_rt_ra_rb_norc inst PpcOpcode.lfsx raw)
        ∷ (536, decode_x_rs_ra_rb inst PpcOpcode.srw raw)
        ∷ (567, decode_x_frt_ra_rb_update inst PpcOpcode.lfsux raw)
        ∷ (597, decode_lswi inst raw)
        ∷ (
          598,
          if bit_and raw 0xff9fffff == 0x7c0004ac
              then record inst { op = PpcOpcode.sync }
              else refuse inst,
        )
        ∷ (599, decode_x_rt_ra_rb_norc inst PpcOpcode.lfdx raw)
        ∷ (631, decode_x_frt_ra_rb_update inst PpcOpcode.lfdux raw)
        ∷ (
          595,
          if field raw 20 1 == 0 && ppc_rb raw == 0 && not (ppc_rc raw)
              then record inst {
                op = PpcOpcode.mfsr;
                r_d = ppc_rd raw;
                sr = low_bits (ppc_ra raw) 4;
              }
              else refuse inst,
        )
        ∷ (
          661,
          if not (ppc_rc raw) then decode_x_rs_ra_rb inst PpcOpcode.stswx raw else refuse inst,
        )
        ∷ (662, decode_x_rs_ra_rb_norc inst PpcOpcode.stwbrx raw)
        ∷ (
          659,
          if ppc_ra raw == 0 && not (ppc_rc raw)
              then record inst { op = PpcOpcode.mfsrin; r_d = ppc_rd raw; r_b = ppc_rb raw }
              else refuse inst,
        )
        ∷ (663, decode_x_rs_ra_rb_norc inst PpcOpcode.stfsx raw)
        ∷ (695, decode_x_rs_ra_rb_update inst PpcOpcode.stfsux raw)
        ∷ (727, decode_x_rs_ra_rb_norc inst PpcOpcode.stfdx raw)
        ∷ (759, decode_x_rs_ra_rb_update inst PpcOpcode.stfdux raw)
        ∷ (
          725,
          if not (ppc_rc raw)
              then record inst {
                op = PpcOpcode.stswi;
                r_s = ppc_rs raw;
                r_a = ppc_ra raw;
                nb = ppc_rb raw;
              }
              else refuse inst,
        )
        ∷ (790, decode_x_rt_ra_rb_norc inst PpcOpcode.lhbrx raw)
        ∷ (792, decode_x_rs_ra_rb inst PpcOpcode.sraw raw)
        ∷ (
          824,
          record inst {
            op = PpcOpcode.srawi;
            r_s = ppc_rs raw;
            r_a = ppc_ra raw;
            sh = ppc_sh raw;
            rc = ppc_rc raw;
          },
        )
        ∷ (918, decode_x_rs_ra_rb_norc inst PpcOpcode.sthbrx raw)
        ∷ (922, decode_x_rs_ra_rb inst PpcOpcode.extsh raw)
        ∷ (954, decode_x_rs_ra_rb inst PpcOpcode.extsb raw)
        ∷ (
          982,
          if ppc_rd raw == 0 && not (ppc_rc raw)
              then record inst { op = PpcOpcode.icbi; r_a = ppc_ra raw; r_b = ppc_rb raw }
              else refuse inst,
        )
        ∷ (
          150,
          if ppc_rc raw
              then record (decode_x_rs_ra_rb inst PpcOpcode.stwcx raw) { rc = true }
              else refuse inst,
        )
        ∷ (854, if raw == 0x7c0006ac then record inst { op = PpcOpcode.eieio } else refuse inst)
        ∷ (566, if raw == 0x7c00046c then record inst { op = PpcOpcode.tlbsync } else refuse inst)
        ∷ (
          983,
          if not (ppc_rc raw) then decode_x_rs_ra_rb inst PpcOpcode.stfiwx raw else refuse inst,
        )
        ∷ (
          1014,
          if ppc_rd raw == 0 && not (ppc_rc raw)
              then record inst { op = PpcOpcode.dcbz; r_a = ppc_ra raw; r_b = ppc_rb raw }
              else refuse inst,
        )
        ∷ [])
      (refuse inst)

unfoldable pub decode_extended_low : PpcInst → ℕ → PpcInst
decode_extended_low inst raw =
    switch (ppc_xo raw)
      ((
        0,
        if to_bool (field raw 21 1) then refuse inst else record inst {
          op = PpcOpcode.cmp;
          crf_d = field raw 23 3;
          l = field raw 21 1;
          r_a = ppc_ra raw;
          r_b = ppc_rb raw;
        },
      )
        ∷ (
          4,
          if not (ppc_rc raw)
              then record inst {
                op = PpcOpcode.tw;
                to = ppc_rd raw;
                r_a = ppc_ra raw;
                r_b = ppc_rb raw;
              }
              else refuse inst,
        )
        ∷ (11, decode_x_rt_ra_rb inst PpcOpcode.mulhwu raw)
        ∷ (
          19,
          if ppc_ra raw == 0 && ppc_rb raw == 0 && not (ppc_rc raw)
              then record inst { op = PpcOpcode.mfcr; r_d = ppc_rd raw }
              else refuse inst,
        )
        ∷ (20, if not (ppc_rc raw) then decode_x_rt_ra_rb inst PpcOpcode.lwarx raw else refuse inst)
        ∷ (23, decode_x_rt_ra_rb_norc inst PpcOpcode.lwzx raw)
        ∷ (24, decode_x_rs_ra_rb inst PpcOpcode.slw raw)
        ∷ (26, decode_x_rs_ra_rb inst PpcOpcode.cntlzw raw)
        ∷ (28, decode_x_rs_ra_rb inst PpcOpcode.and raw)
        ∷ (
          32,
          if to_bool (field raw 21 1) then refuse inst else record inst {
            op = PpcOpcode.cmpl;
            crf_d = field raw 23 3;
            l = field raw 21 1;
            r_a = ppc_ra raw;
            r_b = ppc_rb raw;
          },
        )
        ∷ (
          54,
          if ppc_rd raw == 0 && not (ppc_rc raw)
              then record inst { op = PpcOpcode.dcbst; r_a = ppc_ra raw; r_b = ppc_rb raw }
              else refuse inst,
        )
        ∷ (55, decode_x_rt_ra_rb_update inst PpcOpcode.lwzux raw)
        ∷ (60, decode_x_rs_ra_rb inst PpcOpcode.andc raw)
        ∷ (75, decode_x_rt_ra_rb inst PpcOpcode.mulhw raw)
        ∷ (
          83,
          if ppc_ra raw == 0 && ppc_rb raw == 0 && not (ppc_rc raw)
              then record inst { op = PpcOpcode.mfmsr; r_d = ppc_rd raw }
              else refuse inst,
        )
        ∷ (
          86,
          if ppc_rd raw == 0 && not (ppc_rc raw)
              then record inst { op = PpcOpcode.dcbf; r_a = ppc_ra raw; r_b = ppc_rb raw }
              else refuse inst,
        )
        ∷ (87, decode_x_rt_ra_rb_norc inst PpcOpcode.lbzx raw)
        ∷ (119, decode_x_rt_ra_rb_update inst PpcOpcode.lbzux raw)
        ∷ (124, decode_x_rs_ra_rb inst PpcOpcode.nor raw)
        ∷ (
          144,
          if bit_and raw 0x100001 == 0
              then record inst { op = PpcOpcode.mtcrf; r_s = ppc_rs raw; crm = ppc_crm raw }
              else refuse inst,
        )
        ∷ (
          146,
          if ppc_ra raw == 0 && ppc_rb raw == 0 && not (ppc_rc raw)
              then record inst { op = PpcOpcode.mtmsr; r_s = ppc_rs raw }
              else refuse inst,
        )
        ∷ (151, decode_x_rs_ra_rb_norc inst PpcOpcode.stwx raw)
        ∷ (183, decode_x_rs_ra_rb_update inst PpcOpcode.stwux raw)
        ∷ (
          210,
          if field raw 20 1 == 0 && ppc_rb raw == 0 && not (ppc_rc raw)
              then record inst {
                op = PpcOpcode.mtsr;
                r_s = ppc_rs raw;
                sr = low_bits (ppc_ra raw) 4;
              }
              else refuse inst,
        )
        ∷ (215, decode_x_rs_ra_rb_norc inst PpcOpcode.stbx raw)
        ∷ (
          242,
          if ppc_ra raw == 0 && not (ppc_rc raw)
              then record inst { op = PpcOpcode.mtsrin; r_s = ppc_rs raw; r_b = ppc_rb raw }
              else refuse inst,
        )
        ∷ (
          246,
          if ppc_rd raw == 0 && not (ppc_rc raw)
              then record inst { op = PpcOpcode.dcbtst; r_a = ppc_ra raw; r_b = ppc_rb raw }
              else refuse inst,
        )
        ∷ (247, decode_x_rs_ra_rb_update inst PpcOpcode.stbux raw)
        ∷ (
          278,
          if ppc_rd raw == 0 && not (ppc_rc raw)
              then record inst { op = PpcOpcode.dcbt; r_a = ppc_ra raw; r_b = ppc_rb raw }
              else refuse inst,
        )
        ∷ (279, decode_x_rt_ra_rb_norc inst PpcOpcode.lhzx raw)
        ∷ (284, decode_x_rs_ra_rb inst PpcOpcode.eqv raw)
        ∷ (
          306,
          if ppc_rd raw == 0 && ppc_ra raw == 0 && not (ppc_rc raw)
              then record inst { op = PpcOpcode.tlbie; r_b = ppc_rb raw }
              else refuse inst,
        )
        ∷ (
          310,
          if not (ppc_rc raw) then decode_x_rt_ra_rb inst PpcOpcode.eciwx raw else refuse inst,
        )
        ∷ (311, decode_x_rt_ra_rb_update inst PpcOpcode.lhzux raw)
        ∷ (316, decode_x_rs_ra_rb inst PpcOpcode.xor raw)
        ∷ (
          339,
          if not (ppc_rc raw)
              then record inst { op = PpcOpcode.mfspr; r_d = ppc_rd raw; spr = ppc_spr raw }
              else refuse inst,
        )
        ∷ [])
      (decode_extended_high inst raw)

-- The test `inst.op != PPC_OP_UNKNOWN` after it.
unfoldable pub is_unknown : PpcOpcode → Bool
is_unknown PpcOpcode.unknown = true
is_unknown _ = false

unfoldable pub decode_extended : PpcInst → ℕ → PpcInst
decode_extended inst raw =
    let first = decode_integer_oe inst raw in
    if is_unknown first.op then decode_extended_low first raw else first
