-- ===== src/Decoder/FormFits.antt =====
-- Each `decode_*` helper of src/frontend/decoder.c keeps the fields within their widths.
use dol_recomp.Base.{ℕ, Bool, true, false, if◌then◌else◌, arith}
use dol_recomp.Decoder.Opcode.{PpcOpcode}
use dol_recomp.Decoder.Inst.{PpcInst, refuse}
use dol_recomp.Decoder.Fits.{Fits}
use dol_recomp.Decoder.Forms.{decode_d_rt_ra, decode_d_rt_ra_update, decode_d_frt_ra_update}
use dol_recomp.Decoder.Forms.{decode_d_rs_ra, decode_d_rs_ra_update, decode_x_rt_ra_rb}
use dol_recomp.Decoder.Forms.{decode_x_rt_ra_rb_norc, decode_x_rt_ra_rb_update}
use dol_recomp.Decoder.Forms.{decode_x_frt_ra_rb_update, decode_xo_rt_ra_rb, decode_x_rs_ra_rb}
use dol_recomp.Decoder.Forms.{decode_x_rs_ra_rb_norc, decode_x_rs_ra_rb_update}
use dol_recomp.Decoder.Forms.{decode_a_frt_fra_frb_frc, decode_x_frt_frb, decode_fcmp}
use dol_recomp.Decoder.Forms.{decode_cr_logical, decode_mtfsb, decode_xo_rt_ra}
use dol_recomp.Decoder.Forms.{decode_psq_d_rt_ra, decode_psq_d_rt_ra_update, decode_psq_d_rs_ra}
use dol_recomp.Decoder.Forms.{decode_psq_d_rs_ra_update, decode_psq_x_rt_ra_rb}
use dol_recomp.Decoder.Forms.{decode_psq_x_rt_ra_rb_norc, decode_psq_x_rt_ra_rb_update}
use dol_recomp.Decoder.Forms.{decode_psq_x_rs_ra_rb, decode_psq_x_rs_ra_rb_norc}
use dol_recomp.Decoder.Forms.{decode_psq_x_rs_ra_rb_update}

pub decode_d_rt_ra-Fits :
    (inst : PpcInst) (op : PpcOpcode) (raw : ℕ) → Fits inst → Fits (decode_d_rt_ra inst op raw)
unfolding decode_d_rt_ra
decode_d_rt_ra-Fits inst op raw h = ground arith

pub decode_d_rt_ra_update-Fits :
    (inst : PpcInst) (op : PpcOpcode) (raw : ℕ)
    → Fits inst
    → Fits (decode_d_rt_ra_update inst op raw)
unfolding decode_d_rt_ra_update decode_d_rt_ra
decode_d_rt_ra_update-Fits inst op raw h = ground arith

pub decode_d_frt_ra_update-Fits :
    (inst : PpcInst) (op : PpcOpcode) (raw : ℕ)
    → Fits inst
    → Fits (decode_d_frt_ra_update inst op raw)
unfolding decode_d_frt_ra_update decode_d_rt_ra
decode_d_frt_ra_update-Fits inst op raw h = ground arith

pub decode_d_rs_ra-Fits :
    (inst : PpcInst) (op : PpcOpcode) (raw : ℕ) → Fits inst → Fits (decode_d_rs_ra inst op raw)
unfolding decode_d_rs_ra
decode_d_rs_ra-Fits inst op raw h = ground arith

pub decode_d_rs_ra_update-Fits :
    (inst : PpcInst) (op : PpcOpcode) (raw : ℕ)
    → Fits inst
    → Fits (decode_d_rs_ra_update inst op raw)
unfolding decode_d_rs_ra_update decode_d_rs_ra
decode_d_rs_ra_update-Fits inst op raw h = ground arith

pub decode_x_rt_ra_rb-Fits :
    (inst : PpcInst) (op : PpcOpcode) (raw : ℕ) → Fits inst → Fits (decode_x_rt_ra_rb inst op raw)
unfolding decode_x_rt_ra_rb
decode_x_rt_ra_rb-Fits inst op raw h = ground arith

pub decode_x_rt_ra_rb_norc-Fits :
    (inst : PpcInst) (op : PpcOpcode) (raw : ℕ)
    → Fits inst
    → Fits (decode_x_rt_ra_rb_norc inst op raw)
unfolding decode_x_rt_ra_rb_norc decode_x_rt_ra_rb
decode_x_rt_ra_rb_norc-Fits inst op raw h = ground arith

pub decode_x_rt_ra_rb_update-Fits :
    (inst : PpcInst) (op : PpcOpcode) (raw : ℕ)
    → Fits inst
    → Fits (decode_x_rt_ra_rb_update inst op raw)
unfolding decode_x_rt_ra_rb_update decode_x_rt_ra_rb
decode_x_rt_ra_rb_update-Fits inst op raw h = ground arith

pub decode_x_frt_ra_rb_update-Fits :
    (inst : PpcInst) (op : PpcOpcode) (raw : ℕ)
    → Fits inst
    → Fits (decode_x_frt_ra_rb_update inst op raw)
unfolding decode_x_frt_ra_rb_update decode_x_rt_ra_rb
decode_x_frt_ra_rb_update-Fits inst op raw h = ground arith

pub decode_xo_rt_ra_rb-Fits :
    (inst : PpcInst) (op : PpcOpcode) (raw : ℕ) → Fits inst → Fits (decode_xo_rt_ra_rb inst op raw)
unfolding decode_xo_rt_ra_rb decode_x_rt_ra_rb
decode_xo_rt_ra_rb-Fits inst op raw h = ground arith

pub decode_x_rs_ra_rb-Fits :
    (inst : PpcInst) (op : PpcOpcode) (raw : ℕ) → Fits inst → Fits (decode_x_rs_ra_rb inst op raw)
unfolding decode_x_rs_ra_rb
decode_x_rs_ra_rb-Fits inst op raw h = ground arith

pub decode_x_rs_ra_rb_norc-Fits :
    (inst : PpcInst) (op : PpcOpcode) (raw : ℕ)
    → Fits inst
    → Fits (decode_x_rs_ra_rb_norc inst op raw)
unfolding decode_x_rs_ra_rb_norc decode_x_rs_ra_rb
decode_x_rs_ra_rb_norc-Fits inst op raw h = ground arith

pub decode_x_rs_ra_rb_update-Fits :
    (inst : PpcInst) (op : PpcOpcode) (raw : ℕ)
    → Fits inst
    → Fits (decode_x_rs_ra_rb_update inst op raw)
unfolding decode_x_rs_ra_rb_update decode_x_rs_ra_rb
decode_x_rs_ra_rb_update-Fits inst op raw h = ground arith

pub decode_a_frt_fra_frb_frc-Fits :
    (inst : PpcInst) (op : PpcOpcode) (raw : ℕ)
    → Fits inst
    → Fits (decode_a_frt_fra_frb_frc inst op raw)
unfolding decode_a_frt_fra_frb_frc
decode_a_frt_fra_frb_frc-Fits inst op raw h = ground arith

pub decode_x_frt_frb-Fits :
    (inst : PpcInst) (op : PpcOpcode) (raw : ℕ) → Fits inst → Fits (decode_x_frt_frb inst op raw)
unfolding decode_x_frt_frb
decode_x_frt_frb-Fits inst op raw h = ground arith

pub decode_fcmp-Fits :
    (inst : PpcInst) (op : PpcOpcode) (raw : ℕ) → Fits inst → Fits (decode_fcmp inst op raw)
unfolding decode_fcmp
decode_fcmp-Fits inst op raw h = ground arith

pub decode_cr_logical-Fits :
    (inst : PpcInst) (op : PpcOpcode) (raw : ℕ) → Fits inst → Fits (decode_cr_logical inst op raw)
unfolding decode_cr_logical
decode_cr_logical-Fits inst op raw h = ground arith

pub decode_mtfsb-Fits :
    (inst : PpcInst) (op : PpcOpcode) (raw : ℕ) → Fits inst → Fits (decode_mtfsb inst op raw)
unfolding decode_mtfsb
decode_mtfsb-Fits inst op raw h = ground arith

pub decode_xo_rt_ra-Fits :
    (inst : PpcInst) (op : PpcOpcode) (raw : ℕ) → Fits inst → Fits (decode_xo_rt_ra inst op raw)
unfolding decode_xo_rt_ra
decode_xo_rt_ra-Fits inst op raw h = ground arith

pub decode_psq_d_rt_ra-Fits :
    (inst : PpcInst) (op : PpcOpcode) (raw : ℕ) → Fits inst → Fits (decode_psq_d_rt_ra inst op raw)
unfolding decode_psq_d_rt_ra
decode_psq_d_rt_ra-Fits inst op raw h = ground arith

pub decode_psq_d_rt_ra_update-Fits :
    (inst : PpcInst) (op : PpcOpcode) (raw : ℕ)
    → Fits inst
    → Fits (decode_psq_d_rt_ra_update inst op raw)
unfolding decode_psq_d_rt_ra_update decode_psq_d_rt_ra
decode_psq_d_rt_ra_update-Fits inst op raw h = ground arith

pub decode_psq_d_rs_ra-Fits :
    (inst : PpcInst) (op : PpcOpcode) (raw : ℕ) → Fits inst → Fits (decode_psq_d_rs_ra inst op raw)
unfolding decode_psq_d_rs_ra
decode_psq_d_rs_ra-Fits inst op raw h = ground arith

pub decode_psq_d_rs_ra_update-Fits :
    (inst : PpcInst) (op : PpcOpcode) (raw : ℕ)
    → Fits inst
    → Fits (decode_psq_d_rs_ra_update inst op raw)
unfolding decode_psq_d_rs_ra_update decode_psq_d_rs_ra
decode_psq_d_rs_ra_update-Fits inst op raw h = ground arith

pub decode_psq_x_rt_ra_rb-Fits :
    (inst : PpcInst) (op : PpcOpcode) (raw : ℕ)
    → Fits inst
    → Fits (decode_psq_x_rt_ra_rb inst op raw)
unfolding decode_psq_x_rt_ra_rb
decode_psq_x_rt_ra_rb-Fits inst op raw h = ground arith

pub decode_psq_x_rt_ra_rb_norc-Fits :
    (inst : PpcInst) (op : PpcOpcode) (raw : ℕ)
    → Fits inst
    → Fits (decode_psq_x_rt_ra_rb_norc inst op raw)
unfolding decode_psq_x_rt_ra_rb_norc decode_psq_x_rt_ra_rb
decode_psq_x_rt_ra_rb_norc-Fits inst op raw h = ground arith

pub decode_psq_x_rt_ra_rb_update-Fits :
    (inst : PpcInst) (op : PpcOpcode) (raw : ℕ)
    → Fits inst
    → Fits (decode_psq_x_rt_ra_rb_update inst op raw)
unfolding decode_psq_x_rt_ra_rb_update decode_psq_x_rt_ra_rb
decode_psq_x_rt_ra_rb_update-Fits inst op raw h = ground arith

pub decode_psq_x_rs_ra_rb-Fits :
    (inst : PpcInst) (op : PpcOpcode) (raw : ℕ)
    → Fits inst
    → Fits (decode_psq_x_rs_ra_rb inst op raw)
unfolding decode_psq_x_rs_ra_rb
decode_psq_x_rs_ra_rb-Fits inst op raw h = ground arith

pub decode_psq_x_rs_ra_rb_norc-Fits :
    (inst : PpcInst) (op : PpcOpcode) (raw : ℕ)
    → Fits inst
    → Fits (decode_psq_x_rs_ra_rb_norc inst op raw)
unfolding decode_psq_x_rs_ra_rb_norc decode_psq_x_rs_ra_rb
decode_psq_x_rs_ra_rb_norc-Fits inst op raw h = ground arith

pub decode_psq_x_rs_ra_rb_update-Fits :
    (inst : PpcInst) (op : PpcOpcode) (raw : ℕ)
    → Fits inst
    → Fits (decode_psq_x_rs_ra_rb_update inst op raw)
unfolding decode_psq_x_rs_ra_rb_update decode_psq_x_rs_ra_rb
decode_psq_x_rs_ra_rb_update-Fits inst op raw h = ground arith

pub refuse-Fits : (inst : PpcInst) → Fits inst → Fits (refuse inst)
refuse-Fits inst h = ground arith

-- Both branches of a test.
pub if-Fits : (b : Bool) (x y : PpcInst) → Fits x → Fits y → Fits (if b then x else y)
if-Fits true x y h k = h
if-Fits false x y h k = k

pub ruleset form_fits = (
  refuse-Fits, if-Fits, decode_d_rt_ra-Fits, decode_d_rt_ra_update-Fits,
  decode_d_frt_ra_update-Fits, decode_d_rs_ra-Fits, decode_d_rs_ra_update-Fits,
  decode_x_rt_ra_rb-Fits, decode_x_rt_ra_rb_norc-Fits, decode_x_rt_ra_rb_update-Fits,
  decode_x_frt_ra_rb_update-Fits, decode_xo_rt_ra_rb-Fits, decode_x_rs_ra_rb-Fits,
  decode_x_rs_ra_rb_norc-Fits, decode_x_rs_ra_rb_update-Fits, decode_a_frt_fra_frb_frc-Fits,
  decode_x_frt_frb-Fits, decode_fcmp-Fits, decode_cr_logical-Fits, decode_mtfsb-Fits,
  decode_xo_rt_ra-Fits, decode_psq_d_rt_ra-Fits, decode_psq_d_rt_ra_update-Fits,
  decode_psq_d_rs_ra-Fits, decode_psq_d_rs_ra_update-Fits, decode_psq_x_rt_ra_rb-Fits,
  decode_psq_x_rt_ra_rb_norc-Fits, decode_psq_x_rt_ra_rb_update-Fits, decode_psq_x_rs_ra_rb-Fits,
  decode_psq_x_rs_ra_rb_norc-Fits, decode_psq_x_rs_ra_rb_update-Fits,
)
