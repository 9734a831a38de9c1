-- ===== src/Decoder/RoundTrip/Immediate.antt =====
-- The D-form instructions: `ppc_decode` of src/frontend/decoder.c reads back what was assembled.
use dol_recomp.Base.{ℕ, ◌<◌, ◌^◌, ◌≡◌, ◌≢◌, arith, switch}
use dol_recomp.Decoder.Inst.{blank_inst, ppc_primary, ppc_rd, ppc_ra, ppc_simm}
use dol_recomp.Decoder.Forms.{decode_d_rt_ra, decode_d_rt_ra_update, decode_d_rs_ra}
use dol_recomp.Decoder.Forms.{decode_d_rs_ra_update}
use dol_recomp.Decoder.Decode.{ppc_decode, decode_immediate, decode_memory}
use dol_recomp.Decoder.Assemble.{d_word, TargetForm, target_form_primary, target_form_op}
use dol_recomp.Decoder.Assemble.{LoadUpdateForm, load_update_form_primary, load_update_form_op}
use dol_recomp.Decoder.Assemble.{StoreForm, store_form_primary, store_form_op}
use dol_recomp.Decoder.Assemble.{StoreUpdateForm, store_update_form_primary, store_update_form_op}
use dol_recomp.Decoder.Assemble.{LogicForm, logic_form_primary, logic_form_op}

-- The fields of a D-form word.
pub d_word_fields :
    (primary t a imm : ℕ)
    → t < 32
    → a < 32
    → imm < 2 ^ 16
    → (ppc_primary (d_word primary t a imm) ≡ primary)
      × (ppc_rd (d_word primary t a imm) ≡ t)
      × (ppc_ra (d_word primary t a imm) ≡ a)
      × (ppc_simm (d_word primary t a imm) ≡ imm)
unfolding d_word
d_word_fields primary t a imm p q r = omega arith

module _ (address t a imm : ℕ) (t_fits : t < 32) (a_fits : a < 32) (imm_fits : imm < 2 ^ 16) where
  pub decode-target :
      (f : TargetForm)
      → let raw = d_word (target_form_primary f) t a imm in
        ppc_decode raw address
        ≡ record (blank_inst raw address) { op = target_form_op f; r_d = t; r_a = a; simm = imm }
  unfolding ppc_decode decode_immediate decode_memory decode_d_rt_ra switch
  decode-target TargetForm.mulli = ground (arith, d_word_fields 7 t a imm t_fits a_fits imm_fits)
  decode-target f =
      ground (arith, d_word_fields (target_form_primary f) t a imm t_fits a_fits imm_fits)

  pub decode-load_update :
      (f : LoadUpdateForm)
      → a ≢ 0
      → a ≢ t
      → let raw = d_word (load_update_form_primary f) t a imm in
        ppc_decode raw address ≡ record (blank_inst raw address) {
          op = load_update_form_op f;
          r_d = t;
          r_a = a;
          simm = imm;
        }
  unfolding ppc_decode decode_immediate decode_memory decode_d_rt_ra_update decode_d_rt_ra switch
  decode-load_update LoadUpdateForm.lwzu p q =
      ground (arith, d_word_fields 33 t a imm t_fits a_fits imm_fits)
  decode-load_update f p q =
      ground (arith, d_word_fields (load_update_form_primary f) t a imm t_fits a_fits imm_fits)

  pub decode-store :
      (f : StoreForm)
      → let raw = d_word (store_form_primary f) t a imm in
        ppc_decode raw address
        ≡ record (blank_inst raw address) { op = store_form_op f; r_s = t; r_a = a; simm = imm }
  unfolding ppc_decode decode_immediate decode_memory decode_d_rs_ra switch
  decode-store StoreForm.stw = ground (arith, d_word_fields 36 t a imm t_fits a_fits imm_fits)
  decode-store f =
      ground (arith, d_word_fields (store_form_primary f) t a imm t_fits a_fits imm_fits)

  pub decode-store_update :
      (f : StoreUpdateForm)
      → a ≢ 0
      → let raw = d_word (store_update_form_primary f) t a imm in
        ppc_decode raw address ≡ record (blank_inst raw address) {
          op = store_update_form_op f;
          r_s = t;
          r_a = a;
          simm = imm;
        }
  unfolding ppc_decode decode_immediate decode_memory decode_d_rs_ra_update decode_d_rs_ra switch
  decode-store_update StoreUpdateForm.stwu p =
      ground (arith, d_word_fields 37 t a imm t_fits a_fits imm_fits)
  decode-store_update f p =
      ground (arith, d_word_fields (store_update_form_primary f) t a imm t_fits a_fits imm_fits)

  pub decode-logic :
      (f : LogicForm)
      → let raw = d_word (logic_form_primary f) t a imm in
        ppc_decode raw address
        ≡ record (blank_inst raw address) { op = logic_form_op f; r_s = t; r_a = a; uimm = imm }
  unfolding ppc_decode decode_immediate switch
  decode-logic LogicForm.ori = ground (arith, d_word_fields 24 t a imm t_fits a_fits imm_fits)
  decode-logic f =
      ground (arith, d_word_fields (logic_form_primary f) t a imm t_fits a_fits imm_fits)
