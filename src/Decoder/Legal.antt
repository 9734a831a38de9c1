-- ===== src/Decoder/Legal.antt =====
-- Some of the instruction forms that the PowerPC architecture calls invalid, by opcode: those that
-- `ppc_decode` of src/frontend/decoder.c refuses. Other invalid forms, like `lmw` with its base among
-- the registers it loads, or a reserved field that is not 0, are decoded.
use dol_recomp.Base.{ℕ, ◌+◌, ◌*◌, ◌%◌, ◌<◌, ◌==◌, if◌then◌else◌, ◌≡◌, ◌≢◌, true, refl, bit_and}
use dol_recomp.Decoder.Opcode.{PpcOpcode}
use dol_recomp.Decoder.Inst.{PpcInst, blank_inst}

-- A load that writes its base back needs a base register, other than the one that it loads.
abbrev pub LoadUpdate : PpcInst → Type 0
LoadUpdate inst = (inst.r_a ≢ 0) × (inst.r_a ≢ inst.r_d)

-- Any other access that writes its base back needs a base register.
abbrev pub BaseUpdate : PpcInst → Type 0
BaseUpdate inst = inst.r_a ≢ 0

-- The number of bytes that a string instruction moves, four to a register.
abbrev pub string_bytes : ℕ → ℕ
string_bytes nb = if nb == 0 then 32 else nb

-- None of the invalid forms that are refused; of the opcodes without one nothing is said.
abbrev pub IsForm : PpcOpcode → PpcInst → Type 0
IsForm PpcOpcode.lwzu inst = LoadUpdate inst
IsForm PpcOpcode.lbzu inst = LoadUpdate inst
IsForm PpcOpcode.lhzu inst = LoadUpdate inst
IsForm PpcOpcode.lhau inst = LoadUpdate inst
IsForm PpcOpcode.lwzux inst = LoadUpdate inst
IsForm PpcOpcode.lbzux inst = LoadUpdate inst
IsForm PpcOpcode.lhzux inst = LoadUpdate inst
IsForm PpcOpcode.lhaux inst = LoadUpdate inst
IsForm PpcOpcode.stwu inst = BaseUpdate inst
IsForm PpcOpcode.stbu inst = BaseUpdate inst
IsForm PpcOpcode.sthu inst = BaseUpdate inst
IsForm PpcOpcode.stwux inst = BaseUpdate inst
IsForm PpcOpcode.stbux inst = BaseUpdate inst
IsForm PpcOpcode.sthux inst = BaseUpdate inst
IsForm PpcOpcode.lfsu inst = BaseUpdate inst
IsForm PpcOpcode.lfdu inst = BaseUpdate inst
IsForm PpcOpcode.lfsux inst = BaseUpdate inst
IsForm PpcOpcode.lfdux inst = BaseUpdate inst
IsForm PpcOpcode.stfsu inst = BaseUpdate inst
IsForm PpcOpcode.stfdu inst = BaseUpdate inst
IsForm PpcOpcode.stfsux inst = BaseUpdate inst
IsForm PpcOpcode.stfdux inst = BaseUpdate inst
IsForm PpcOpcode.psq_lu inst = BaseUpdate inst
IsForm PpcOpcode.psq_stu inst = BaseUpdate inst
IsForm PpcOpcode.psq_lux inst = BaseUpdate inst
IsForm PpcOpcode.psq_stux inst = BaseUpdate inst
IsForm PpcOpcode.lswx inst = (inst.r_d ≢ inst.r_a) × (inst.r_d ≢ inst.r_b)
IsForm PpcOpcode.lswi inst = (k : ℕ) → 4 * k < string_bytes inst.nb → (inst.r_d + k) % 32 ≢ inst.r_a
IsForm PpcOpcode.stwcx inst = inst.rc ≡ true
IsForm PpcOpcode.bcctr inst = bit_and inst.bo 4 ≢ 0
IsForm PpcOpcode.cmp inst = inst.l ≡ 0
IsForm PpcOpcode.cmpl inst = inst.l ≡ 0
IsForm PpcOpcode.cmpi inst = inst.l ≡ 0
IsForm PpcOpcode.cmpli inst = inst.l ≡ 0
IsForm PpcOpcode.sc inst = inst.raw ≡ 0x44000002
IsForm PpcOpcode.rfi inst = inst.raw ≡ 0x4c000064
IsForm PpcOpcode.isync inst = inst.raw ≡ 0x4c00012c
IsForm PpcOpcode.eieio inst = inst.raw ≡ 0x7c0006ac
IsForm PpcOpcode.tlbsync inst = inst.raw ≡ 0x7c00046c
IsForm _ inst = Unit

-- The instruction of the word `raw` at `address`, in none of the forms that are refused.
abbrev pub IsLegal : ℕ → ℕ → PpcInst → Type 0
IsLegal raw address inst = (inst.raw ≡ raw) × (inst.address ≡ address) × IsForm inst.op inst

pub blank_inst-IsLegal : (raw address : ℕ) → IsLegal raw address (blank_inst raw address)
blank_inst-IsLegal raw address = (refl, refl, tt)
