-- ===== src/Decoder/Decode.antt =====
-- src/frontend/decoder.c: `ppc_decode`, with the immediate forms and the loads and stores.
use dol_recomp.Base.{ℕ, if◌then◌else◌, true, to_bool, switch, [], ◌∷◌}
use dol_recomp.Decoder.Opcode.{PpcOpcode}
use dol_recomp.Decoder.Inst.{PpcInst, field, refuse, blank_inst, ppc_primary, ppc_mb, ppc_me}
use dol_recomp.Decoder.Inst.{ppc_ra, ppc_rb, ppc_rc, ppc_rd, ppc_rs, ppc_sh, ppc_simm, ppc_uimm}
use dol_recomp.Decoder.Forms.{decode_d_rt_ra, decode_d_rt_ra_update, decode_d_frt_ra_update}
use dol_recomp.Decoder.Forms.{decode_d_rs_ra, decode_d_rs_ra_update, decode_psq_d_rt_ra}
use dol_recomp.Decoder.Forms.{decode_psq_d_rt_ra_update, decode_psq_d_rs_ra}
use dol_recomp.Decoder.Forms.{decode_psq_d_rs_ra_update}
use dol_recomp.Decoder.Paired.{decode_paired}
use dol_recomp.Decoder.Branch.{decode_bc, decode_sc, decode_b, decode_cr}
use dol_recomp.Decoder.Extended.{decode_extended}
use dol_recomp.Decoder.Float.{decode_float_single, decode_float_double}

unfoldable pub decode_memory : PpcInst → ℕ → PpcInst
decode_memory inst raw =
    switch (ppc_primary raw)
      ((32, decode_d_rt_ra inst PpcOpcode.lwz raw)
        ∷ (33, decode_d_rt_ra_update inst PpcOpcode.lwzu raw)
        ∷ (34, decode_d_rt_ra inst PpcOpcode.lbz raw)
        ∷ (35, decode_d_rt_ra_update inst PpcOpcode.lbzu raw)
        ∷ (36, decode_d_rs_ra inst PpcOpcode.stw raw)
        ∷ (37, decode_d_rs_ra_update inst PpcOpcode.stwu raw)
        ∷ (38, decode_d_rs_ra inst PpcOpcode.stb raw)
        ∷ (39, decode_d_rs_ra_update inst PpcOpcode.stbu raw)
        ∷ (40, decode_d_rt_ra inst PpcOpcode.lhz raw)
        ∷ (41, decode_d_rt_ra_update inst PpcOpcode.lhzu raw)
        ∷ (42, decode_d_rt_ra inst PpcOpcode.lha raw)
        ∷ (43, decode_d_rt_ra_update inst PpcOpcode.lhau raw)
        ∷ (44, decode_d_rs_ra inst PpcOpcode.sth raw)
        ∷ (45, decode_d_rs_ra_update inst PpcOpcode.sthu raw)
        ∷ (46, decode_d_rt_ra inst PpcOpcode.lmw raw)
        ∷ (47, decode_d_rs_ra inst PpcOpcode.stmw raw)
        ∷ (48, decode_d_rt_ra inst PpcOpcode.lfs raw)
        ∷ (49, decode_d_frt_ra_update inst PpcOpcode.lfsu raw)
        ∷ (50, decode_d_rt_ra inst PpcOpcode.lfd raw)
        ∷ (51, decode_d_frt_ra_update inst PpcOpcode.lfdu raw)
        ∷ (52, decode_d_rs_ra inst PpcOpcode.stfs raw)
        ∷ (53, decode_d_rs_ra_update inst PpcOpcode.stfsu raw)
        ∷ (54, decode_d_rs_ra inst PpcOpcode.stfd raw)
        ∷ (55, decode_d_rs_ra_update inst PpcOpcode.stfdu raw)
        ∷ (56, decode_psq_d_rt_ra inst PpcOpcode.psq_l raw)
        ∷ (57, decode_psq_d_rt_ra_update inst PpcOpcode.psq_lu raw)
        ∷ (60, decode_psq_d_rs_ra inst PpcOpcode.psq_st raw)
        ∷ (61, decode_psq_d_rs_ra_update inst PpcOpcode.psq_stu raw)
        ∷ [])
      (refuse inst)

unfoldable pub decode_immediate : PpcInst → ℕ → PpcInst
decode_immediate inst raw =
    switch (ppc_primary raw)
      ((
        3,
        record inst { op = PpcOpcode.twi; to = ppc_rd raw; r_a = ppc_ra raw; simm = ppc_simm raw },
      )
        ∷ (7, decode_d_rt_ra inst PpcOpcode.mulli raw)
        ∷ (8, decode_d_rt_ra inst PpcOpcode.subfic raw)
        ∷ (
          10,
          if to_bool (field raw 21 1) then refuse inst else record inst {
            op = PpcOpcode.cmpli;
            crf_d = field raw 23 3;
            l = field raw 21 1;
            r_a = ppc_ra raw;
            uimm = ppc_uimm raw;
          },
        )
        ∷ (
          11,
          if to_bool (field raw 21 1) then refuse inst else record inst {
            op = PpcOpcode.cmpi;
            crf_d = field raw 23 3;
            l = field raw 21 1;
            r_a = ppc_ra raw;
            simm = ppc_simm raw;
          },
        )
        ∷ (12, decode_d_rt_ra inst PpcOpcode.addic raw)
        ∷ (13, record (decode_d_rt_ra inst PpcOpcode.addic_dot raw) { rc = true })
        ∷ (14, decode_d_rt_ra inst PpcOpcode.addi raw)
        ∷ (15, decode_d_rt_ra inst PpcOpcode.addis raw)
        ∷ (
          20,
          record inst {
            op = PpcOpcode.rlwimi;
            r_s = ppc_rs raw;
            r_a = ppc_ra raw;
            sh = ppc_sh raw;
            mb = ppc_mb raw;
            me = ppc_me raw;
            rc = ppc_rc raw;
          },
        )
        ∷ (
          21,
          record inst {
            op = PpcOpcode.rlwinm;
            r_s = ppc_rs raw;
            r_a = ppc_ra raw;
            sh = ppc_sh raw;
            mb = ppc_mb raw;
            me = ppc_me raw;
            rc = ppc_rc raw;
          },
        )
        ∷ (
          23,
          record inst {
            op = PpcOpcode.rlwnm;
            r_s = ppc_rs raw;
            r_a = ppc_ra raw;
            r_b = ppc_rb raw;
            mb = ppc_mb raw;
            me = ppc_me raw;
            rc = ppc_rc raw;
          },
        )
        ∷ (
          24,
          record inst {
            op = PpcOpcode.ori;
            r_s = ppc_rs raw;
            r_a = ppc_ra raw;
            uimm = ppc_uimm raw;
          },
        )
        ∷ (
          25,
          record inst {
            op = PpcOpcode.oris;
            r_s = ppc_rs raw;
            r_a = ppc_ra raw;
            uimm = ppc_uimm raw;
          },
        )
        ∷ (
          26,
          record inst {
            op = PpcOpcode.xori;
            r_s = ppc_rs raw;
            r_a = ppc_ra raw;
            uimm = ppc_uimm raw;
          },
        )
        ∷ (
          27,
          record inst {
            op = PpcOpcode.xoris;
            r_s = ppc_rs raw;
            r_a = ppc_ra raw;
            uimm = ppc_uimm raw;
          },
        )
        ∷ (
          28,
          record inst {
            op = PpcOpcode.andi;
            r_s = ppc_rs raw;
            r_a = ppc_ra raw;
            uimm = ppc_uimm raw;
            rc = true;
          },
        )
        ∷ (
          29,
          record inst {
            op = PpcOpcode.andis;
            r_s = ppc_rs raw;
            r_a = ppc_ra raw;
            uimm = ppc_uimm raw;
            rc = true;
          },
        )
        ∷ [])
      (decode_memory inst raw)

-- The groups of primary opcodes are those of the child modules.
unfoldable pub ppc_decode : ℕ → ℕ → PpcInst
ppc_decode raw address =
    let inst = blank_inst raw address in
    switch (ppc_primary raw)
      ((4, decode_paired inst raw)
        ∷ (16, decode_bc inst raw)
        ∷ (17, decode_sc inst raw)
        ∷ (18, decode_b inst raw)
        ∷ (19, decode_cr inst raw)
        ∷ (31, decode_extended inst raw)
        ∷ (59, decode_float_single inst raw)
        ∷ (63, decode_float_double inst raw)
        ∷ [])
      (decode_immediate inst raw)
