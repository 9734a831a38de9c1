-- ===== src/Decoder/Inst.antt =====
-- src/frontend/decoder.h: the struct PPCInst, and the field macros of src/frontend/decoder.c.
-- A signed field is kept as its bit pattern: `simm` is below 2 ^ 16.
use dol_recomp.Base.{ℕ, Bool, false, u16, shr, low_bits, to_bool, bit_and, bit_or}
use dol_recomp.Decoder.Opcode.{PpcOpcode}

pub record PpcInst : Type 0 where
  pub op : PpcOpcode
  pub raw : ℕ
  pub address : ℕ
  pub embedded_data : Bool
  pub r_d : ℕ
  pub r_a : ℕ
  pub r_s : ℕ
  pub r_b : ℕ
  pub r_c : ℕ
  pub crf_d : ℕ
  pub crf_s : ℕ
  pub crm : ℕ
  pub fm : ℕ
  pub imm : ℕ
  pub nb : ℕ
  pub to : ℕ
  pub sr : ℕ
  pub l : ℕ
  pub w : ℕ
  pub i : ℕ
  pub bo : ℕ
  pub bi : ℕ
  pub mb : ℕ
  pub me : ℕ
  pub sh : ℕ
  pub simm : ℕ
  pub uimm : ℕ
  pub spr : ℕ
  pub branch_target : ℕ
  pub aa : Bool
  pub lk : Bool
  pub rc : Bool
  pub oe : Bool

-- After `memset` and the stores of `raw` and `address`.
abbrev pub blank_inst : ℕ → ℕ → PpcInst
blank_inst raw address = record {
  op = PpcOpcode.unknown;
  raw = raw;
  address = address;
  embedded_data = false;
  r_d = 0;
  r_a = 0;
  r_s = 0;
  r_b = 0;
  r_c = 0;
  crf_d = 0;
  crf_s = 0;
  crm = 0;
  fm = 0;
  imm = 0;
  nb = 0;
  to = 0;
  sr = 0;
  l = 0;
  w = 0;
  i = 0;
  bo = 0;
  bi = 0;
  mb = 0;
  me = 0;
  sh = 0;
  simm = 0;
  uimm = 0;
  spr = 0;
  branch_target = 0;
  aa = false;
  lk = false;
  rc = false;
  oe = false;
}

-- `(raw >> low) & mask` for a mask of `width` ones.
abbrev pub field : ℕ → ℕ → ℕ → ℕ
field raw low width = low_bits (shr raw low) width

abbrev pub ppc_primary : ℕ → ℕ
ppc_primary raw = shr raw 26

abbrev pub ppc_rd : ℕ → ℕ
ppc_rd raw = field raw 21 5

abbrev pub ppc_rs : ℕ → ℕ
ppc_rs raw = field raw 21 5

abbrev pub ppc_ra : ℕ → ℕ
ppc_ra raw = field raw 16 5

abbrev pub ppc_rb : ℕ → ℕ
ppc_rb raw = field raw 11 5

abbrev pub ppc_rc_reg : ℕ → ℕ
ppc_rc_reg raw = field raw 6 5

abbrev pub ppc_bo : ℕ → ℕ
ppc_bo raw = field raw 21 5

abbrev pub ppc_bi : ℕ → ℕ
ppc_bi raw = field raw 16 5

abbrev pub ppc_xo : ℕ → ℕ
ppc_xo raw = field raw 1 10

abbrev pub ppc_a_xo : ℕ → ℕ
ppc_a_xo raw = field raw 1 5

unfoldable pub ppc_spr : ℕ → ℕ
ppc_spr raw = bit_or (field raw 16 5) (bit_and (shr raw 6) 0x3e0)

abbrev pub ppc_crm : ℕ → ℕ
ppc_crm raw = field raw 12 8

abbrev pub ppc_mb : ℕ → ℕ
ppc_mb raw = field raw 6 5

abbrev pub ppc_me : ℕ → ℕ
ppc_me raw = field raw 1 5

abbrev pub ppc_sh : ℕ → ℕ
ppc_sh raw = field raw 11 5

abbrev pub ppc_rc : ℕ → Bool
ppc_rc raw = to_bool (low_bits raw 1)

abbrev pub ppc_simm : ℕ → ℕ
ppc_simm raw = u16 raw

abbrev pub ppc_uimm : ℕ → ℕ
ppc_uimm raw = u16 raw

-- `inst.op = PPC_OP_UNKNOWN`, the refusal of every invalid form.
abbrev pub refuse : PpcInst → PpcInst
refuse inst = record inst { op = PpcOpcode.unknown }
