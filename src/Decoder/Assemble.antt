-- ===== src/Decoder/Assemble.antt =====
-- An assembler for the common instruction formats, written from the field layout of the PowerPC
-- architecture: an independent description of the words that `ppc_decode` of
-- src/frontend/decoder.c reads. Each family of instructions has its code and its opcode.
use dol_recomp.Base.{ℕ, ◌+◌, ◌*◌, ◌^◌, Bool, true, false}
use dol_recomp.Decoder.Opcode.{PpcOpcode}

-- D-form instructions that name a target register and a signed immediate.
pub data TargetForm : Type 0 where
  mulli subfic addic addi addis lwz lbz lhz lha lmw lfs lfd : TargetForm

abbrev pub target_form_primary : TargetForm → ℕ
target_form_primary TargetForm.mulli = 7
target_form_primary TargetForm.subfic = 8
target_form_primary TargetForm.addic = 12
target_form_primary TargetForm.addi = 14
target_form_primary TargetForm.addis = 15
target_form_primary TargetForm.lwz = 32
target_form_primary TargetForm.lbz = 34
target_form_primary TargetForm.lhz = 40
target_form_primary TargetForm.lha = 42
target_form_primary TargetForm.lmw = 46
target_form_primary TargetForm.lfs = 48
target_form_primary TargetForm.lfd = 50

abbrev pub target_form_op : TargetForm → PpcOpcode
target_form_op TargetForm.mulli = PpcOpcode.mulli
target_form_op TargetForm.subfic = PpcOpcode.subfic
target_form_op TargetForm.addic = PpcOpcode.addic
target_form_op TargetForm.addi = PpcOpcode.addi
target_form_op TargetForm.addis = PpcOpcode.addis
target_form_op TargetForm.lwz = PpcOpcode.lwz
target_form_op TargetForm.lbz = PpcOpcode.lbz
target_form_op TargetForm.lhz = PpcOpcode.lhz
target_form_op TargetForm.lha = PpcOpcode.lha
target_form_op TargetForm.lmw = PpcOpcode.lmw
target_form_op TargetForm.lfs = PpcOpcode.lfs
target_form_op TargetForm.lfd = PpcOpcode.lfd

-- Integer loads that write their base back.
pub data LoadUpdateForm : Type 0 where
  lwzu lbzu lhzu lhau : LoadUpdateForm

abbrev pub load_update_form_primary : LoadUpdateForm → ℕ
load_update_form_primary LoadUpdateForm.lwzu = 33
load_update_form_primary LoadUpdateForm.lbzu = 35
load_update_form_primary LoadUpdateForm.lhzu = 41
load_update_form_primary LoadUpdateForm.lhau = 43

abbrev pub load_update_form_op : LoadUpdateForm → PpcOpcode
load_update_form_op LoadUpdateForm.lwzu = PpcOpcode.lwzu
load_update_form_op LoadUpdateForm.lbzu = PpcOpcode.lbzu
load_update_form_op LoadUpdateForm.lhzu = PpcOpcode.lhzu
load_update_form_op LoadUpdateForm.lhau = PpcOpcode.lhau

-- D-form stores.
pub data StoreForm : Type 0 where
  stw stb sth stmw stfs stfd : StoreForm

abbrev pub store_form_primary : StoreForm → ℕ
store_form_primary StoreForm.stw = 36
store_form_primary StoreForm.stb = 38
store_form_primary StoreForm.sth = 44
store_form_primary StoreForm.stmw = 47
store_form_primary StoreForm.stfs = 52
store_form_primary StoreForm.stfd = 54

abbrev pub store_form_op : StoreForm → PpcOpcode
store_form_op StoreForm.stw = PpcOpcode.stw
store_form_op StoreForm.stb = PpcOpcode.stb
store_form_op StoreForm.sth = PpcOpcode.sth
store_form_op StoreForm.stmw = PpcOpcode.stmw
store_form_op StoreForm.stfs = PpcOpcode.stfs
store_form_op StoreForm.stfd = PpcOpcode.stfd

-- D-form stores that write their base back.
pub data StoreUpdateForm : Type 0 where
  stwu stbu sthu stfsu stfdu : StoreUpdateForm

abbrev pub store_update_form_primary : StoreUpdateForm → ℕ
store_update_form_primary StoreUpdateForm.stwu = 37
store_update_form_primary StoreUpdateForm.stbu = 39
store_update_form_primary StoreUpdateForm.sthu = 45
store_update_form_primary StoreUpdateForm.stfsu = 53
store_update_form_primary StoreUpdateForm.stfdu = 55

abbrev pub store_update_form_op : StoreUpdateForm → PpcOpcode
store_update_form_op StoreUpdateForm.stwu = PpcOpcode.stwu
store_update_form_op StoreUpdateForm.stbu = PpcOpcode.stbu
store_update_form_op StoreUpdateForm.sthu = PpcOpcode.sthu
store_update_form_op StoreUpdateForm.stfsu = PpcOpcode.stfsu
store_update_form_op StoreUpdateForm.stfdu = PpcOpcode.stfdu

-- D-form logical instructions, without those that record.
pub data LogicForm : Type 0 where
  ori oris xori xoris : LogicForm

abbrev pub logic_form_primary : LogicForm → ℕ
logic_form_primary LogicForm.ori = 24
logic_form_primary LogicForm.oris = 25
logic_form_primary LogicForm.xori = 26
logic_form_primary LogicForm.xoris = 27

abbrev pub logic_form_op : LogicForm → PpcOpcode
logic_form_op LogicForm.ori = PpcOpcode.ori
logic_form_op LogicForm.oris = PpcOpcode.oris
logic_form_op LogicForm.xori = PpcOpcode.xori
logic_form_op LogicForm.xoris = PpcOpcode.xoris

-- X-form logical instructions and shifts.
pub data RegisterForm : Type 0 where
  slw and andc nor eqv xor orc or nand srw sraw : RegisterForm

abbrev pub register_form_xo : RegisterForm → ℕ
register_form_xo RegisterForm.slw = 24
register_form_xo RegisterForm.and = 28
register_form_xo RegisterForm.andc = 60
register_form_xo RegisterForm.nor = 124
register_form_xo RegisterForm.eqv = 284
register_form_xo RegisterForm.xor = 316
register_form_xo RegisterForm.orc = 412
register_form_xo RegisterForm.or = 444
register_form_xo RegisterForm.nand = 476
register_form_xo RegisterForm.srw = 536
register_form_xo RegisterForm.sraw = 792

abbrev pub register_form_op : RegisterForm → PpcOpcode
register_form_op RegisterForm.slw = PpcOpcode.slw
register_form_op RegisterForm.and = PpcOpcode.and
register_form_op RegisterForm.andc = PpcOpcode.andc
register_form_op RegisterForm.nor = PpcOpcode.nor
register_form_op RegisterForm.eqv = PpcOpcode.eqv
register_form_op RegisterForm.xor = PpcOpcode.xor
register_form_op RegisterForm.orc = PpcOpcode.orc
register_form_op RegisterForm.or = PpcOpcode.or
register_form_op RegisterForm.nand = PpcOpcode.nand
register_form_op RegisterForm.srw = PpcOpcode.srw
register_form_op RegisterForm.sraw = PpcOpcode.sraw

-- A-form floating-point instructions of primary opcode 63.
pub data FloatForm : Type 0 where
  fdiv fsub fadd fsel fmul fmsub fmadd fnmsub fnmadd : FloatForm

abbrev pub float_form_xo : FloatForm → ℕ
float_form_xo FloatForm.fdiv = 18
float_form_xo FloatForm.fsub = 20
float_form_xo FloatForm.fadd = 21
float_form_xo FloatForm.fsel = 23
float_form_xo FloatForm.fmul = 25
float_form_xo FloatForm.fmsub = 28
float_form_xo FloatForm.fmadd = 29
float_form_xo FloatForm.fnmsub = 30
float_form_xo FloatForm.fnmadd = 31

abbrev pub float_form_op : FloatForm → PpcOpcode
float_form_op FloatForm.fdiv = PpcOpcode.fdiv
float_form_op FloatForm.fsub = PpcOpcode.fsub
float_form_op FloatForm.fadd = PpcOpcode.fadd
float_form_op FloatForm.fsel = PpcOpcode.fsel
float_form_op FloatForm.fmul = PpcOpcode.fmul
float_form_op FloatForm.fmsub = PpcOpcode.fmsub
float_form_op FloatForm.fmadd = PpcOpcode.fmadd
float_form_op FloatForm.fnmsub = PpcOpcode.fnmsub
float_form_op FloatForm.fnmadd = PpcOpcode.fnmadd

-- A-form floating-point instructions of primary opcode 59.
pub data SingleForm : Type 0 where
  fdivs fsubs fadds fmuls fmsubs fmadds fnmsubs fnmadds : SingleForm

abbrev pub single_form_xo : SingleForm → ℕ
single_form_xo SingleForm.fdivs = 18
single_form_xo SingleForm.fsubs = 20
single_form_xo SingleForm.fadds = 21
single_form_xo SingleForm.fmuls = 25
single_form_xo SingleForm.fmsubs = 28
single_form_xo SingleForm.fmadds = 29
single_form_xo SingleForm.fnmsubs = 30
single_form_xo SingleForm.fnmadds = 31

abbrev pub single_form_op : SingleForm → PpcOpcode
single_form_op SingleForm.fdivs = PpcOpcode.fdivs
single_form_op SingleForm.fsubs = PpcOpcode.fsubs
single_form_op SingleForm.fadds = PpcOpcode.fadds
single_form_op SingleForm.fmuls = PpcOpcode.fmuls
single_form_op SingleForm.fmsubs = PpcOpcode.fmsubs
single_form_op SingleForm.fmadds = PpcOpcode.fmadds
single_form_op SingleForm.fnmsubs = PpcOpcode.fnmsubs
single_form_op SingleForm.fnmadds = PpcOpcode.fnmadds

-- A-form paired-single instructions of primary opcode 4 with four operands.
pub data PairedForm : Type 0 where
  ps_sum0 ps_sum1 ps_muls0 ps_muls1 ps_madds0 ps_madds1 ps_sel ps_mul ps_msub ps_madd ps_nmsub
        ps_nmadd :
      PairedForm

abbrev pub paired_form_xo : PairedForm → ℕ
paired_form_xo PairedForm.ps_sum0 = 10
paired_form_xo PairedForm.ps_sum1 = 11
paired_form_xo PairedForm.ps_muls0 = 12
paired_form_xo PairedForm.ps_muls1 = 13
paired_form_xo PairedForm.ps_madds0 = 14
paired_form_xo PairedForm.ps_madds1 = 15
paired_form_xo PairedForm.ps_sel = 23
paired_form_xo PairedForm.ps_mul = 25
paired_form_xo PairedForm.ps_msub = 28
paired_form_xo PairedForm.ps_madd = 29
paired_form_xo PairedForm.ps_nmsub = 30
paired_form_xo PairedForm.ps_nmadd = 31

abbrev pub paired_form_op : PairedForm → PpcOpcode
paired_form_op PairedForm.ps_sum0 = PpcOpcode.ps_sum0
paired_form_op PairedForm.ps_sum1 = PpcOpcode.ps_sum1
paired_form_op PairedForm.ps_muls0 = PpcOpcode.ps_muls0
paired_form_op PairedForm.ps_muls1 = PpcOpcode.ps_muls1
paired_form_op PairedForm.ps_madds0 = PpcOpcode.ps_madds0
paired_form_op PairedForm.ps_madds1 = PpcOpcode.ps_madds1
paired_form_op PairedForm.ps_sel = PpcOpcode.ps_sel
paired_form_op PairedForm.ps_mul = PpcOpcode.ps_mul
paired_form_op PairedForm.ps_msub = PpcOpcode.ps_msub
paired_form_op PairedForm.ps_madd = PpcOpcode.ps_madd
paired_form_op PairedForm.ps_nmsub = PpcOpcode.ps_nmsub
paired_form_op PairedForm.ps_nmadd = PpcOpcode.ps_nmadd

-- XO-form arithmetic; its opcode says whether overflow is enabled.
pub data IntegerForm : Type 0 where
  subfc addc subf subfe adde mullw add divwu divw : IntegerForm

abbrev pub integer_form_xo : IntegerForm → ℕ
integer_form_xo IntegerForm.subfc = 8
integer_form_xo IntegerForm.addc = 10
integer_form_xo IntegerForm.subf = 40
integer_form_xo IntegerForm.subfe = 136
integer_form_xo IntegerForm.adde = 138
integer_form_xo IntegerForm.mullw = 235
integer_form_xo IntegerForm.add = 266
integer_form_xo IntegerForm.divwu = 459
integer_form_xo IntegerForm.divw = 491

abbrev pub integer_form_op : IntegerForm → Bool → PpcOpcode
integer_form_op IntegerForm.subfc false = PpcOpcode.subfc
integer_form_op IntegerForm.subfc true = PpcOpcode.subfco
integer_form_op IntegerForm.addc false = PpcOpcode.addc
integer_form_op IntegerForm.addc true = PpcOpcode.addco
integer_form_op IntegerForm.subf false = PpcOpcode.subf
integer_form_op IntegerForm.subf true = PpcOpcode.subfo
integer_form_op IntegerForm.subfe false = PpcOpcode.subfe
integer_form_op IntegerForm.subfe true = PpcOpcode.subfeo
integer_form_op IntegerForm.adde false = PpcOpcode.adde
integer_form_op IntegerForm.adde true = PpcOpcode.addeo
integer_form_op IntegerForm.mullw false = PpcOpcode.mullw
integer_form_op IntegerForm.mullw true = PpcOpcode.mullwo
integer_form_op IntegerForm.add false = PpcOpcode.add
integer_form_op IntegerForm.add true = PpcOpcode.addo
integer_form_op IntegerForm.divwu false = PpcOpcode.divwu
integer_form_op IntegerForm.divwu true = PpcOpcode.divwuo
integer_form_op IntegerForm.divw false = PpcOpcode.divw
integer_form_op IntegerForm.divw true = PpcOpcode.divwo

abbrev pub bit_of : Bool → ℕ
bit_of false = 0
bit_of true = 1

-- The primary opcode and three register fields, above sixteen and eleven bits.
unfoldable pub d_word : ℕ → ℕ → ℕ → ℕ → ℕ
d_word primary t a imm = primary * 2 ^ 26 + t * 2 ^ 21 + a * 2 ^ 16 + imm

unfoldable pub x_word : ℕ → ℕ → ℕ → ℕ → ℕ → ℕ
x_word primary t a b low = primary * 2 ^ 26 + t * 2 ^ 21 + a * 2 ^ 16 + b * 2 ^ 11 + low
