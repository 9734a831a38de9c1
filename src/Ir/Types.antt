-- ===== src/Ir/Types.antt =====
-- src/ir/dolir.h: the intermediate representation.
use dol_recomp.Base.{ℕ, Bool, List}

pub data DolIrType : Type 0 where
  void : DolIrType
  i1 : DolIrType
  i8 : DolIrType
  i16 : DolIrType
  i32 : DolIrType
  i64 : DolIrType
  f32 : DolIrType
  f64 : DolIrType
  v2f32 : DolIrType
  v2f64 : DolIrType

-- The constructors `and_bits`, `or_bits`, `xor_bits` and `not_bits` are DOLIR_OP_AND, OR, XOR and NOT.
pub data DolIrOp : Type 0 where
  phi : DolIrOp
  constant : DolIrOp
  state_read : DolIrOp
  state_write : DolIrOp
  add : DolIrOp
  sub : DolIrOp
  mul : DolIrOp
  udiv : DolIrOp
  sdiv : DolIrOp
  and_bits : DolIrOp
  or_bits : DolIrOp
  xor_bits : DolIrOp
  not_bits : DolIrOp
  shl : DolIrOp
  lshr : DolIrOp
  ashr : DolIrOp
  rotl : DolIrOp
  clz : DolIrOp
  bswap : DolIrOp
  trunc : DolIrOp
  zext : DolIrOp
  sext : DolIrOp
  bitcast : DolIrOp
  icmp_eq : DolIrOp
  icmp_ne : DolIrOp
  icmp_ult : DolIrOp
  icmp_ule : DolIrOp
  icmp_slt : DolIrOp
  icmp_sle : DolIrOp
  fcmp_oeq : DolIrOp
  fcmp_olt : DolIrOp
  fcmp_oge : DolIrOp
  select : DolIrOp
  fadd : DolIrOp
  fsub : DolIrOp
  fmul : DolIrOp
  fdiv : DolIrOp
  fneg : DolIrOp
  fabs : DolIrOp
  fptrunc : DolIrOp
  fpext : DolIrOp
  vector_build : DolIrOp
  vector_extract : DolIrOp
  vector_shuffle : DolIrOp
  guest_load : DolIrOp
  guest_store : DolIrOp
  helper_call : DolIrOp

pub data DolIrAddressDomain : Type 0 where
  unknown : DolIrAddressDomain
  guest_data : DolIrAddressDomain
  mem1 : DolIrAddressDomain
  mem2 : DolIrAddressDomain
  physical : DolIrAddressDomain
  mmio : DolIrAddressDomain
  fifo : DolIrAddressDomain

pub data DolIrTerminatorKind : Type 0 where
  none : DolIrTerminatorKind
  fallthrough : DolIrTerminatorKind
  branch : DolIrTerminatorKind
  cond_branch : DolIrTerminatorKind
  indirect : DolIrTerminatorKind
  return : DolIrTerminatorKind
  side_exit : DolIrTerminatorKind
  fallback : DolIrTerminatorKind
  system_call : DolIrTerminatorKind
  rfi : DolIrTerminatorKind

-- A value is its number, 0 for none; a mask of state slots is its words.
pub record DolIrInstruction : Type 0 where
  pub op : DolIrOp
  pub type : DolIrType
  pub result : ℕ
  pub operands : List ℕ
  pub operand_count : ℕ
  pub aux : ℕ
  pub immediate : ℕ
  pub guest_pc : ℕ
  pub effects : ℕ
  pub state_uses : List ℕ
  pub state_defs : List ℕ
  pub address_domain : DolIrAddressDomain
  pub address_lower : ℕ
  pub address_upper : ℕ
  pub exact_fp : Bool

pub record DolIrTerminator : Type 0 where
  pub kind : DolIrTerminatorKind
  pub condition : ℕ
  pub target_value : ℕ
  pub targets : List ℕ
  pub target_addresses : List ℕ
  pub guest_pc : ℕ
  pub raw : ℕ
  pub linked : Bool

pub record DolIrBlock : Type 0 where
  pub guest_address : ℕ
  pub raw : ℕ
  pub cycle_cost : ℕ
  pub instructions : List DolIrInstruction
  pub terminator : DolIrTerminator
