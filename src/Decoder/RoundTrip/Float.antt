-- ===== src/Decoder/RoundTrip/Float.antt =====
-- The floating-point and paired-single forms with four operands: `ppc_decode` of
-- src/frontend/decoder.c reads back what was assembled. No word of them falls under a case of the
-- ten-bit `switch` that stands above theirs.
use dol_recomp.Base.{ℕ, ◌+◌, ◌*◌, ◌≤◌, ◌<◌, ◌^◌, ◌≡◌, ◌∙◌, Bool, low_bits, arith}
use dol_recomp.Base.{switch, switch-NoKey}
use dol_recomp.Decoder.Opcode.{PpcOpcode}
use dol_recomp.Decoder.Inst.{PpcInst, blank_inst, ppc_primary}
use dol_recomp.Decoder.Inst.{ppc_rc_reg, ppc_rc, ppc_xo, ppc_a_xo}
use dol_recomp.Decoder.Forms.{decode_a_frt_fra_frb_frc}
use dol_recomp.Decoder.Paired.{decode_paired, decode_paired_indexed, decode_paired_arith}
use dol_recomp.Decoder.Float.{decode_float_single, decode_float_double, decode_float_arith}
use dol_recomp.Decoder.Decode.{ppc_decode}
use dol_recomp.Decoder.Assemble.{x_word, bit_of, FloatForm, float_form_xo, float_form_op}
use dol_recomp.Decoder.Assemble.{SingleForm, single_form_xo, single_form_op}
use dol_recomp.Decoder.Assemble.{PairedForm, paired_form_xo, paired_form_op}
use dol_recomp.Decoder.RoundTrip.Register.{x_word_fields, bit_of-lt, flag_of}

double-arith :
    (inst : PpcInst) (raw : ℕ)
    → 18 ≤ ppc_a_xo raw
    → decode_float_double inst raw ≡ decode_float_arith inst raw
unfolding decode_float_double
double-arith inst raw h = switch-NoKey (ppc_xo raw) _ _ (omega arith)

arith-float :
    (f : FloatForm) (inst : PpcInst) (raw : ℕ)
    → ppc_a_xo raw ≡ float_form_xo f
    → decode_float_arith inst raw ≡ decode_a_frt_fra_frb_frc inst (float_form_op f) raw
unfolding decode_float_arith switch
arith-float FloatForm.fdiv inst raw p = rw p
arith-float f inst raw p = rw p

arith-single :
    (f : SingleForm) (inst : PpcInst) (raw : ℕ)
    → ppc_a_xo raw ≡ single_form_xo f
    → decode_float_single inst raw ≡ decode_a_frt_fra_frb_frc inst (single_form_op f) raw
unfolding decode_float_single switch
arith-single SingleForm.fdivs inst raw p = rw p
arith-single f inst raw p = rw p

arith-paired :
    (f : PairedForm) (inst : PpcInst) (raw : ℕ)
    → ppc_a_xo raw ≡ paired_form_xo f
    → decode_paired_arith inst raw ≡ decode_a_frt_fra_frb_frc inst (paired_form_op f) raw
unfolding decode_paired_arith switch
arith-paired PairedForm.ps_sum0 inst raw p = rw p
arith-paired f inst raw p = rw p

paired-indexed :
    (f : PairedForm) (inst : PpcInst) (raw : ℕ)
    → ppc_a_xo raw ≡ paired_form_xo f
    → decode_paired inst raw ≡ decode_paired_arith inst raw
unfolding decode_paired decode_paired_indexed
paired-indexed PairedForm.ps_sum0 inst raw h =
    switch-NoKey (ppc_xo raw) _ _ (omega arith)
    ∙ switch-NoKey (low_bits (ppc_xo raw) 6) _ _ (omega arith)
paired-indexed f inst raw h =
    switch-NoKey (ppc_xo raw) _ _ (omega arith)
    ∙ switch-NoKey (low_bits (ppc_xo raw) 6) _ _ (omega arith)

float_form_xo_bounds : (f : FloatForm) → (18 ≤ float_form_xo f) × (float_form_xo f < 32)
float_form_xo_bounds FloatForm.fdiv = omega arith
float_form_xo_bounds f = omega arith

single_form_xo-lt : (f : SingleForm) → single_form_xo f < 32
single_form_xo-lt SingleForm.fdivs = omega arith
single_form_xo-lt f = omega arith

paired_form_xo-lt : (f : PairedForm) → paired_form_xo f < 32
paired_form_xo-lt PairedForm.ps_sum0 = omega arith
paired_form_xo-lt f = omega arith

decode_primary_63 :
    (raw address : ℕ)
    → ppc_primary raw ≡ 63
    → ppc_decode raw address ≡ decode_float_double (blank_inst raw address) raw
unfolding ppc_decode switch
decode_primary_63 raw address p = rw p

decode_primary_59 :
    (raw address : ℕ)
    → ppc_primary raw ≡ 59
    → ppc_decode raw address ≡ decode_float_single (blank_inst raw address) raw
unfolding ppc_decode switch
decode_primary_59 raw address p = rw p

decode_primary_4 :
    (raw address : ℕ)
    → ppc_primary raw ≡ 4
    → ppc_decode raw address ≡ decode_paired (blank_inst raw address) raw
unfolding ppc_decode switch
decode_primary_4 raw address p = rw p

-- What an A-form word holds, for the code `xo`.
abbrev pub a_word : ℕ → ℕ → ℕ → ℕ → ℕ → ℕ → Bool → ℕ
a_word primary t a b c xo rc = x_word primary t a b (c * 2 ^ 6 + xo * 2 + bit_of rc)

module _ (address t a b c : ℕ) (t_fits : t < 32) (a_fits : a < 32) (b_fits : b < 32)
    (c_fits : c < 32) (rc : Bool) where
  -- The helper for four operands reads back all of them.
  a_operands :
      (primary xo : ℕ) (op : PpcOpcode)
      → xo < 32
      → let raw = a_word primary t a b c xo rc in
        decode_a_frt_fra_frb_frc (blank_inst raw address) op raw
        ≡ record (blank_inst raw address) { op = op; r_d = t; r_a = a; r_b = b; r_c = c; rc = rc }
  unfolding decode_a_frt_fra_frb_frc
  a_operands primary xo op xo_fits =
      let low = c * 2 ^ 6 + xo * 2 + bit_of rc in
      let raw = a_word primary t a b c xo rc in
      let fields =
        x_word_fields primary t a b low t_fits a_fits b_fits (omega (arith, bit_of-lt rc)) in
      let c_field : ppc_rc_reg raw ≡ c = omega (arith, fields, bit_of-lt rc) in
      let rc_field : ppc_rc raw ≡ rc =
        flag_of rc (low_bits raw 1) (omega (arith, fields, bit_of-lt rc)) in
      rw (fields.1, fields.2, fields.3, c_field, rc_field)

  a_codes :
      (primary xo : ℕ)
      → xo < 32
      → let raw = a_word primary t a b c xo rc in (ppc_primary raw ≡ primary) × (ppc_a_xo raw ≡ xo)
  unfolding x_word
  a_codes primary xo xo_fits = omega (arith, bit_of-lt rc)

  pub decode-float :
      (f : FloatForm)
      → let raw = a_word 63 t a b c (float_form_xo f) rc in
        ppc_decode raw address ≡ record (blank_inst raw address) {
          op = float_form_op f;
          r_d = t;
          r_a = a;
          r_b = b;
          r_c = c;
          rc = rc;
        }
  decode-float f =
      let raw = a_word 63 t a b c (float_form_xo f) rc in
      let codes = a_codes 63 (float_form_xo f) (float_form_xo_bounds f).1 in
      decode_primary_63 raw address codes.0
      ∙ double-arith (blank_inst raw address) raw (omega (arith, codes, float_form_xo_bounds f))
      ∙ arith-float f (blank_inst raw address) raw codes.1
      ∙ a_operands 63 (float_form_xo f) (float_form_op f) (float_form_xo_bounds f).1

  pub decode-single :
      (f : SingleForm)
      → let raw = a_word 59 t a b c (single_form_xo f) rc in
        ppc_decode raw address ≡ record (blank_inst raw address) {
          op = single_form_op f;
          r_d = t;
          r_a = a;
          r_b = b;
          r_c = c;
          rc = rc;
        }
  decode-single f =
      let raw = a_word 59 t a b c (single_form_xo f) rc in
      let codes = a_codes 59 (single_form_xo f) (single_form_xo-lt f) in
      decode_primary_59 raw address codes.0
      ∙ arith-single f (blank_inst raw address) raw codes.1
      ∙ a_operands 59 (single_form_xo f) (single_form_op f) (single_form_xo-lt f)

  pub decode-paired :
      (f : PairedForm)
      → let raw = a_word 4 t a b c (paired_form_xo f) rc in
        ppc_decode raw address ≡ record (blank_inst raw address) {
          op = paired_form_op f;
          r_d = t;
          r_a = a;
          r_b = b;
          r_c = c;
          rc = rc;
        }
  decode-paired f =
      let raw = a_word 4 t a b c (paired_form_xo f) rc in
      let codes = a_codes 4 (paired_form_xo f) (paired_form_xo-lt f) in
      decode_primary_4 raw address codes.0
      ∙ paired-indexed f (blank_inst raw address) raw codes.1
      ∙ arith-paired f (blank_inst raw address) raw codes.1
      ∙ a_operands 4 (paired_form_xo f) (paired_form_op f) (paired_form_xo-lt f)
