-- ===== src/Decoder/Branch.antt =====
-- src/frontend/decoder.c: primary opcodes 16 to 19 of `ppc_decode`, the branches and the
-- condition-register instructions.
use dol_recomp.Base.{
  ℕ, ◌+◌, ◌==◌, if◌then◌else◌, not, u32, to_bool, low_bits, sign_extend, bit_and, switch, [], ◌∷◌,
}
use dol_recomp.Decoder.Opcode.{PpcOpcode}
use dol_recomp.Decoder.Inst.{PpcInst, field, refuse, ppc_bi, ppc_bo, ppc_xo}
use dol_recomp.Decoder.Forms.{decode_cr_logical}

unfoldable pub decode_bc : PpcInst → ℕ → PpcInst
decode_bc inst raw =
    let aa = to_bool (field raw 1 1) in
    let displacement = sign_extend (bit_and raw 0xfffc) 16 in
    record inst {
      op = PpcOpcode.bc;
      bo = ppc_bo raw;
      bi = ppc_bi raw;
      aa = aa;
      lk = to_bool (low_bits raw 1);
      branch_target = if aa then displacement else u32 (inst.address + displacement);
    }

unfoldable pub decode_sc : PpcInst → ℕ → PpcInst
decode_sc inst raw = if raw == 0x44000002 then record inst { op = PpcOpcode.sc } else refuse inst

unfoldable pub decode_b : PpcInst → ℕ → PpcInst
decode_b inst raw =
    let aa = to_bool (field raw 1 1) in
    let displacement = sign_extend (bit_and raw 0x3fffffc) 26 in
    record inst {
      op = PpcOpcode.b;
      aa = aa;
      lk = to_bool (low_bits raw 1);
      branch_target = if aa then displacement else u32 (inst.address + displacement);
    }

-- The tests on `xo` alone, from 33 on.
unfoldable pub decode_cr_op : PpcInst → ℕ → PpcInst
decode_cr_op inst raw =
    switch (ppc_xo raw)
      ((33, decode_cr_logical inst PpcOpcode.crnor raw)
        ∷ (129, decode_cr_logical inst PpcOpcode.crandc raw)
        ∷ (193, decode_cr_logical inst PpcOpcode.crxor raw)
        ∷ (225, decode_cr_logical inst PpcOpcode.crnand raw)
        ∷ (257, decode_cr_logical inst PpcOpcode.crand raw)
        ∷ (289, decode_cr_logical inst PpcOpcode.creqv raw)
        ∷ (417, decode_cr_logical inst PpcOpcode.crorc raw)
        ∷ (449, decode_cr_logical inst PpcOpcode.cror raw)
        ∷ (
          528,
          if bit_and (ppc_bo raw) 4 == 0 then refuse inst else record inst {
            op = PpcOpcode.bcctr;
            bo = ppc_bo raw;
            bi = ppc_bi raw;
            lk = to_bool (low_bits raw 1);
          },
        )
        ∷ [])
      (refuse inst)

unfoldable pub decode_cr : PpcInst → ℕ → PpcInst
decode_cr inst raw =
    let xo = ppc_xo raw in
    if xo == 0
    then (if not (bit_and raw 0x63f801 == 0)
        then refuse inst
        else record inst { op = PpcOpcode.mcrf; crf_d = field raw 23 3; crf_s = field raw 18 3 })
    else if raw == 0x4c000064
    then record inst { op = PpcOpcode.rfi }
    else if xo == 16
    then record inst {
      op = PpcOpcode.bclr;
      bo = ppc_bo raw;
      bi = ppc_bi raw;
      lk = to_bool (low_bits raw 1);
    }
    else if raw == 0x4c00012c
    then record inst { op = PpcOpcode.isync }
    else decode_cr_op inst raw
