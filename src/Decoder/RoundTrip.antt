-- ===== src/Decoder/RoundTrip.antt =====
-- `ppc_decode` of src/frontend/decoder.c undoes an assembler for its main instruction formats.
mod Immediate
mod Register
mod Float
pub mod Branch
use dol_recomp.Base.{ℕ, ◌+◌, ◌*◌, ◌^◌, ◌<◌, ◌≡◌, ◌≢◌, Bool}
use dol_recomp.Decoder.Opcode.{PpcOpcode}
use dol_recomp.Decoder.Inst.{PpcInst, blank_inst}
use dol_recomp.Decoder.Decode.{ppc_decode}
use dol_recomp.Decoder.Assemble.{d_word, x_word, bit_of}
use dol_recomp.Decoder.Assemble.{TargetForm, target_form_primary, target_form_op}
use dol_recomp.Decoder.Assemble.{LoadUpdateForm, load_update_form_primary, load_update_form_op}
use dol_recomp.Decoder.Assemble.{StoreForm, store_form_primary, store_form_op}
use dol_recomp.Decoder.Assemble.{StoreUpdateForm, store_update_form_primary, store_update_form_op}
use dol_recomp.Decoder.Assemble.{LogicForm, logic_form_primary, logic_form_op}
use dol_recomp.Decoder.Assemble.{IntegerForm, integer_form_xo, integer_form_op}
use dol_recomp.Decoder.Assemble.{RegisterForm, register_form_xo, register_form_op}
use dol_recomp.Decoder.Assemble.{FloatForm, float_form_xo, float_form_op}
use dol_recomp.Decoder.Assemble.{SingleForm, single_form_xo, single_form_op}
use dol_recomp.Decoder.Assemble.{PairedForm, paired_form_xo, paired_form_op}
use Immediate.{decode-target, decode-load_update, decode-store, decode-store_update, decode-logic}
use Register.{decode-integer, decode-register}
use Float.{a_word, decode-float, decode-single, decode-paired}
use Branch.{b_word, bc_word, signed_offset, target, decode-branch, decode-cond_branch}

-- An instruction as an assembler takes it: its mnemonic, its registers and its immediates. An
-- immediate or a branch offset is its bit pattern; an offset counts words.
pub data Asm : Type 0 where
  to_register : TargetForm → ℕ → ℕ → ℕ → Asm
  load_update : LoadUpdateForm → ℕ → ℕ → ℕ → Asm
  store : StoreForm → ℕ → ℕ → ℕ → Asm
  store_update : StoreUpdateForm → ℕ → ℕ → ℕ → Asm
  logic : LogicForm → ℕ → ℕ → ℕ → Asm
  integer : IntegerForm → ℕ → ℕ → ℕ → Bool → Bool → Asm
  register : RegisterForm → ℕ → ℕ → ℕ → Bool → Asm
  float : FloatForm → ℕ → ℕ → ℕ → ℕ → Bool → Asm
  single : SingleForm → ℕ → ℕ → ℕ → ℕ → Bool → Asm
  paired : PairedForm → ℕ → ℕ → ℕ → ℕ → Bool → Asm
  branch : ℕ → Bool → Bool → Asm
  cond_branch : ℕ → ℕ → ℕ → Bool → Bool → Asm

abbrev pub IsAsm : Asm → Type 0
IsAsm (to_register f t a imm) = (t < 32) × (a < 32) × (imm < 2 ^ 16)
IsAsm (load_update f t a imm) = (t < 32) × (a < 32) × (imm < 2 ^ 16) × (a ≢ 0) × (a ≢ t)
IsAsm (store f s a imm) = (s < 32) × (a < 32) × (imm < 2 ^ 16)
IsAsm (store_update f s a imm) = (s < 32) × (a < 32) × (imm < 2 ^ 16) × (a ≢ 0)
IsAsm (logic f s a imm) = (s < 32) × (a < 32) × (imm < 2 ^ 16)
IsAsm (integer f t a b oe rc) = (t < 32) × (a < 32) × (b < 32)
IsAsm (register f s a b rc) = (s < 32) × (a < 32) × (b < 32)
IsAsm (float f t a b c rc) = (t < 32) × (a < 32) × (b < 32) × (c < 32)
IsAsm (single f t a b c rc) = (t < 32) × (a < 32) × (b < 32) × (c < 32)
IsAsm (paired f t a b c rc) = (t < 32) × (a < 32) × (b < 32) × (c < 32)
IsAsm (branch offset aa lk) = offset < 2 ^ 24
IsAsm (cond_branch bo bi offset aa lk) = (bo < 32) × (bi < 32) × (offset < 2 ^ 14)

pub assemble : Asm → ℕ
assemble (to_register f t a imm) = d_word (target_form_primary f) t a imm
assemble (load_update f t a imm) = d_word (load_update_form_primary f) t a imm
assemble (store f s a imm) = d_word (store_form_primary f) s a imm
assemble (store_update f s a imm) = d_word (store_update_form_primary f) s a imm
assemble (logic f s a imm) = d_word (logic_form_primary f) s a imm
assemble (integer f t a b oe rc) =
    x_word 31 t a b (bit_of oe * 2 ^ 10 + integer_form_xo f * 2 + bit_of rc)
assemble (register f s a b rc) = x_word 31 s a b (register_form_xo f * 2 + bit_of rc)
assemble (float f t a b c rc) = a_word 63 t a b c (float_form_xo f) rc
assemble (single f t a b c rc) = a_word 59 t a b c (single_form_xo f) rc
assemble (paired f t a b c rc) = a_word 4 t a b c (paired_form_xo f) rc
assemble (branch offset aa lk) = b_word offset aa lk
assemble (cond_branch bo bi offset aa lk) = bc_word bo bi offset aa lk

-- The instruction that the mnemonic stands for, at its address.
pub instruction : Asm → ℕ → PpcInst → PpcInst
instruction (to_register f t a imm) address blank = record blank {
  op = target_form_op f;
  r_d = t;
  r_a = a;
  simm = imm;
}
instruction (load_update f t a imm) address blank = record blank {
  op = load_update_form_op f;
  r_d = t;
  r_a = a;
  simm = imm;
}
instruction (store f s a imm) address blank = record blank {
  op = store_form_op f;
  r_s = s;
  r_a = a;
  simm = imm;
}
instruction (store_update f s a imm) address blank = record blank {
  op = store_update_form_op f;
  r_s = s;
  r_a = a;
  simm = imm;
}
instruction (logic f s a imm) address blank = record blank {
  op = logic_form_op f;
  r_s = s;
  r_a = a;
  uimm = imm;
}
instruction (integer f t a b oe rc) address blank = record blank {
  op = integer_form_op f oe;
  r_d = t;
  r_a = a;
  r_b = b;
  rc = rc;
  oe = oe;
}
instruction (register f s a b rc) address blank = record blank {
  op = register_form_op f;
  r_s = s;
  r_a = a;
  r_b = b;
  rc = rc;
}
instruction (float f t a b c rc) address blank = record blank {
  op = float_form_op f;
  r_d = t;
  r_a = a;
  r_b = b;
  r_c = c;
  rc = rc;
}
instruction (single f t a b c rc) address blank = record blank {
  op = single_form_op f;
  r_d = t;
  r_a = a;
  r_b = b;
  r_c = c;
  rc = rc;
}
instruction (paired f t a b c rc) address blank = record blank {
  op = paired_form_op f;
  r_d = t;
  r_a = a;
  r_b = b;
  r_c = c;
  rc = rc;
}
instruction (branch offset aa lk) address blank = record blank {
  op = PpcOpcode.b;
  aa = aa;
  lk = lk;
  branch_target = target address (signed_offset 26 (offset * 4)) aa;
}
instruction (cond_branch bo bi offset aa lk) address blank = record blank {
  op = PpcOpcode.bc;
  bo = bo;
  bi = bi;
  aa = aa;
  lk = lk;
  branch_target = target address (signed_offset 16 (offset * 4)) aa;
}

-- Decoding undoes assembling: for every instruction of the formats of `Asm` whose operands fit
-- their fields, and with no invalid update form, `ppc_decode` gives its opcode, all its operands
-- and nothing else, and the target of a branch is the address plus the signed offset.
pub decode-assemble :
    (asm : Asm) (address : ℕ)
    → IsAsm asm
    → ppc_decode (assemble asm) address
      ≡ instruction asm address (blank_inst (assemble asm) address)
unfolding assemble instruction
decode-assemble (to_register f t a imm) address h = decode-target address t a imm h.0 h.1 h.2 f
decode-assemble (load_update f t a imm) address h =
    decode-load_update address t a imm h.0 h.1 h.2 f h.3 h.4
decode-assemble (store f s a imm) address h = decode-store address s a imm h.0 h.1 h.2 f
decode-assemble (store_update f s a imm) address h =
    decode-store_update address s a imm h.0 h.1 h.2 f h.3
decode-assemble (logic f s a imm) address h = decode-logic address s a imm h.0 h.1 h.2 f
decode-assemble (integer f t a b oe rc) address h = decode-integer address t a b h.0 h.1 h.2 f oe rc
decode-assemble (register f s a b rc) address h = decode-register address s a b h.0 h.1 h.2 f rc
decode-assemble (float f t a b c rc) address h = decode-float address t a b c h.0 h.1 h.2 h.3 rc f
decode-assemble (single f t a b c rc) address h = decode-single address t a b c h.0 h.1 h.2 h.3 rc f
decode-assemble (paired f t a b c rc) address h = decode-paired address t a b c h.0 h.1 h.2 h.3 rc f
decode-assemble (branch offset aa lk) address h = decode-branch address offset aa lk h
decode-assemble (cond_branch bo bi offset aa lk) address h =
    decode-cond_branch address bo bi offset aa lk h.0 h.1 h.2
