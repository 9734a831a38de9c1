-- ===== src/Decoder/Tests.antt =====
-- Words decoded by `ppc_decode` of src/frontend/decoder.c, and the theorems at concrete inputs.
use dol_recomp.Base.{◌≡◌, true, false, refl, arith, switch, sign_extend}
use dol_recomp.Decoder.Opcode.{PpcOpcode}
use dol_recomp.Decoder.Inst.{blank_inst}
use dol_recomp.Decoder.Fits.{Fits}
use dol_recomp.Decoder.Forms.{decode_d_rt_ra, decode_d_rt_ra_update}
use dol_recomp.Decoder.Branch.{decode_b}
use dol_recomp.Decoder.Decode.{ppc_decode, decode_immediate, decode_memory}
use dol_recomp.Decoder.Assemble.{IntegerForm}
use dol_recomp.Decoder.RoundTrip.{Asm, assemble, instruction, decode-assemble}
use dol_recomp.Decoder.Laws.{ppc_decode-Fits}

-- `lwz r3, 8(r1)`.
load_word :
    ppc_decode 0x80610008 0x80003100
    ≡ record (blank_inst 0x80610008 0x80003100) { op = PpcOpcode.lwz; r_d = 3; r_a = 1; simm = 8 }
unfolding ppc_decode decode_immediate decode_memory decode_d_rt_ra switch
load_word = refl

-- `lwzu r3, 8(r3)` is an invalid form.
load_update_invalid : ppc_decode 0x84630008 0 ≡ blank_inst 0x84630008 0
unfolding ppc_decode decode_immediate decode_memory decode_d_rt_ra_update switch
load_update_invalid = refl

-- `bl .-8` at 0x80003100.
branch_back : (ppc_decode 0x4bfffff9 0x80003100).branch_target ≡ 0x800030f8
unfolding ppc_decode decode_b switch sign_extend
branch_back = refl

ppc_decode-Fits_example : Fits (ppc_decode 0xffffffff 0x80003100)
ppc_decode-Fits_example = ppc_decode-Fits 0xffffffff 0x80003100

abbrev add_record : Asm
add_record = Asm.integer IntegerForm.add 3 4 5 false true

decode-assemble_example :
    ppc_decode (assemble add_record) 0x80003100
    ≡ instruction add_record 0x80003100 (blank_inst (assemble add_record) 0x80003100)
decode-assemble_example = decode-assemble add_record 0x80003100 (omega arith)
