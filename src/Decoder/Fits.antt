-- ===== src/Decoder/Fits.antt =====
-- The width of each field of PPCInst (src/frontend/decoder.h), as a predicate.
use dol_recomp.Base.{ℕ, ◌*◌, ◌/◌, ◌%◌, ◌^◌, ◌<◌, ◌≡◌, bit_and, shr, sign_extend, arith}
use dol_recomp.Base.Bits.{bit_or-lt, bit_and_double, bit_and_mask}
use dol_recomp.Decoder.Inst.{PpcInst, blank_inst, field, ppc_spr}

pub record Fits (inst : PpcInst) : Type 0 where
  pub r_d_fits : inst.r_d < 32
  pub r_a_fits : inst.r_a < 32
  pub r_s_fits : inst.r_s < 32
  pub r_b_fits : inst.r_b < 32
  pub r_c_fits : inst.r_c < 32
  pub crf_d_fits : inst.crf_d < 8
  pub crf_s_fits : inst.crf_s < 8
  pub crm_fits : inst.crm < 256
  pub fm_fits : inst.fm < 256
  pub imm_fits : inst.imm < 16
  pub nb_fits : inst.nb < 32
  pub to_fits : inst.to < 32
  pub sr_fits : inst.sr < 16
  pub l_fits : inst.l < 2
  pub w_fits : inst.w < 2
  pub i_fits : inst.i < 8
  pub bo_fits : inst.bo < 32
  pub bi_fits : inst.bi < 32
  pub mb_fits : inst.mb < 32
  pub me_fits : inst.me < 32
  pub sh_fits : inst.sh < 32
  pub simm_fits : inst.simm < 2 ^ 16
  pub uimm_fits : inst.uimm < 2 ^ 16
  pub spr_fits : inst.spr < 2 ^ 10
  pub branch_target_fits : inst.branch_target < 2 ^ 32

pub blank_inst-Fits : (raw address : ℕ) → Fits (blank_inst raw address)
blank_inst-Fits raw address = omega arith

-- The mask 0x3e0 keeps the five bits above the lowest five.
pub spr_high : (x : ℕ) → bit_and x 0x3e0 ≡ x / 32 % 32 * 32
spr_high x = omega (
  arith,
  bit_and_double x 0x1f0,
  bit_and_double (x / 2) 0xf8,
  bit_and_double (x / 2 / 2) 0x7c,
  bit_and_double (x / 2 / 2 / 2) 0x3e,
  bit_and_double (x / 2 / 2 / 2 / 2) 0x1f,
  bit_and_mask 5 (x / 2 / 2 / 2 / 2 / 2),
)

pub ppc_spr-lt : (raw : ℕ) → ppc_spr raw < 2 ^ 10
unfolding ppc_spr
ppc_spr-lt raw =
    bit_or-lt 10 (field raw 16 5) (bit_and (shr raw 6) 0x3e0) (omega arith)
      (omega (arith, spr_high (shr raw 6)))

pub sign_extend-lt : (value bits : ℕ) → sign_extend value bits < 2 ^ 32
unfolding sign_extend
sign_extend-lt value bits = omega arith
