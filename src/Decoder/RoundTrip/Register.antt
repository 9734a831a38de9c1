-- ===== src/Decoder/RoundTrip/Register.antt =====
-- The register forms of primary opcodes 31, 4, 59 and 63: `ppc_decode` of src/frontend/decoder.c
-- reads back what was assembled.
use dol_recomp.Base.{
  ℕ, ◌+◌, ◌*◌, ◌/◌, ◌%◌, ◌<◌, ◌^◌, ◌≡◌, Bool, true, false, low_bits, to_bool, arith, switch,
}
use dol_recomp.Decoder.Inst.{ppc_rs, ppc_rc}
use dol_recomp.Decoder.Inst.{PpcInst, blank_inst, field, ppc_primary, ppc_rd, ppc_ra, ppc_rb}
use dol_recomp.Decoder.Inst.{ppc_rc_reg, ppc_xo, ppc_a_xo}
use dol_recomp.Decoder.Forms.{decode_xo_rt_ra_rb, decode_x_rt_ra_rb, decode_x_rs_ra_rb}
use dol_recomp.Decoder.Extended.{is_unknown, decode_integer_oe, decode_extended_low}
use dol_recomp.Decoder.Extended.{decode_extended_high, decode_extended}
use dol_recomp.Decoder.Decode.{ppc_decode}
use dol_recomp.Decoder.Assemble.{x_word, bit_of, IntegerForm, integer_form_xo, integer_form_op}
use dol_recomp.Decoder.Assemble.{RegisterForm, register_form_xo, register_form_op}

-- The fields of a word with three registers, and those of its low eleven bits.
pub x_word_fields :
    (primary t a b low : ℕ)
    → t < 32
    → a < 32
    → b < 32
    → low < 2 ^ 11
    → let raw = x_word primary t a b low in
      (ppc_primary raw ≡ primary)
      × (ppc_rd raw ≡ t)
      × (ppc_ra raw ≡ a)
      × (ppc_rb raw ≡ b)
      × (ppc_xo raw ≡ low / 2)
      × (low_bits raw 1 ≡ low % 2)
      × (field raw 10 1 ≡ low / 2 ^ 10)
      × (ppc_rc_reg raw ≡ low / 2 ^ 6)
      × (ppc_a_xo raw ≡ low / 2 % 32)
unfolding x_word
x_word_fields primary t a b low p q r s = omega arith

integer_form_xo-lt : (f : IntegerForm) → integer_form_xo f < 512
integer_form_xo-lt IntegerForm.add = omega arith
integer_form_xo-lt f = omega arith

register_form_xo-lt : (f : RegisterForm) → register_form_xo f < 1024
register_form_xo-lt RegisterForm.slw = omega arith
register_form_xo-lt f = omega arith

pub bit_of-lt : (b : Bool) → bit_of b < 2
bit_of-lt true = omega arith
bit_of-lt false = omega arith

pub flag_of : (b : Bool) (n : ℕ) → n ≡ bit_of b → to_bool n ≡ b
flag_of true n e = rw e
flag_of false n e = rw e

-- The group of primary opcode 31, from the fields that it reads.
extended-integer :
    (f : IntegerForm) (oe : Bool) (inst : PpcInst) (raw : ℕ)
    → ppc_xo raw ≡ bit_of oe * 512 + integer_form_xo f
    → to_bool (field raw 10 1) ≡ oe
    → decode_extended inst raw ≡ record inst {
      op = integer_form_op f oe;
      r_d = ppc_rd raw;
      r_a = ppc_ra raw;
      r_b = ppc_rb raw;
      rc = ppc_rc raw;
      oe = oe;
    }
unfolding decode_extended decode_integer_oe is_unknown decode_xo_rt_ra_rb decode_x_rt_ra_rb switch
extended-integer IntegerForm.add true inst raw p q = rw (p, q)
extended-integer IntegerForm.add false inst raw p q = rw (p, q)
extended-integer f true inst raw p q = rw (p, q)
extended-integer f false inst raw p q = rw (p, q)

extended-register :
    (f : RegisterForm) (raw address : ℕ)
    → ppc_xo raw ≡ register_form_xo f
    → decode_extended (blank_inst raw address) raw ≡ record (blank_inst raw address) {
      op = register_form_op f;
      r_s = ppc_rs raw;
      r_a = ppc_ra raw;
      r_b = ppc_rb raw;
      rc = ppc_rc raw;
    }
unfolding decode_extended decode_integer_oe decode_extended_low decode_extended_high is_unknown
    decode_x_rs_ra_rb switch
extended-register RegisterForm.slw raw address p = rw p
extended-register f raw address p = rw p

decode_primary_31 :
    (raw address : ℕ)
    → ppc_primary raw ≡ 31
    → ppc_decode raw address ≡ decode_extended (blank_inst raw address) raw
unfolding ppc_decode switch
decode_primary_31 raw address p = rw p

module _ (address t a b : ℕ) (t_fits : t < 32) (a_fits : a < 32) (b_fits : b < 32) where
  pub decode-integer :
      (f : IntegerForm) (oe rc : Bool)
      → let raw = x_word 31 t a b (bit_of oe * 2 ^ 10 + integer_form_xo f * 2 + bit_of rc) in
        ppc_decode raw address ≡ record (blank_inst raw address) {
          op = integer_form_op f oe;
          r_d = t;
          r_a = a;
          r_b = b;
          rc = rc;
          oe = oe;
        }
  decode-integer f oe rc =
      let low = bit_of oe * 2 ^ 10 + integer_form_xo f * 2 + bit_of rc in
      let raw = x_word 31 t a b low in
      let fields =
        x_word_fields 31 t a b low t_fits a_fits b_fits
          (omega (arith, integer_form_xo-lt f, bit_of-lt oe, bit_of-lt rc)) in
      rw (
        decode_primary_31 raw address fields.0,
        extended-integer f oe (blank_inst raw address) raw (omega (arith, fields, bit_of-lt rc)) (
            flag_of oe (field raw 10 1)
              (omega (arith, fields, integer_form_xo-lt f, bit_of-lt rc))),
        fields.1,
        fields.2,
        fields.3,
        flag_of rc (low_bits raw 1) (omega (arith, fields, bit_of-lt rc)),
      )

  pub decode-register :
      (f : RegisterForm) (rc : Bool)
      → let raw = x_word 31 t a b (register_form_xo f * 2 + bit_of rc) in
        ppc_decode raw address ≡ record (blank_inst raw address) {
          op = register_form_op f;
          r_s = t;
          r_a = a;
          r_b = b;
          rc = rc;
        }
  decode-register f rc =
      let low = register_form_xo f * 2 + bit_of rc in
      let raw = x_word 31 t a b low in
      let fields =
        x_word_fields 31 t a b low t_fits a_fits b_fits
          (omega (arith, register_form_xo-lt f, bit_of-lt rc)) in
      rw (
        decode_primary_31 raw address fields.0,
        extended-register f raw address (omega (arith, fields, bit_of-lt rc)),
        fields.1,
        fields.2,
        fields.3,
        flag_of rc (low_bits raw 1) (omega (arith, fields, bit_of-lt rc)),
      )
