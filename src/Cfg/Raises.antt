-- ===== src/Cfg/Raises.antt =====
-- The instructions that need the program counter in the processor, from the PowerPC architecture:
-- a list that does not look at the switch of src/backend/c_cfg.c.
use dol_recomp.Base.{Bool, true, false, ◌≡◌}
use dol_recomp.Decoder.Opcode.{PpcOpcode}
use dol_recomp.Cfg.Movable.{op_is_pc_transparent}

-- The instructions that may raise an exception, which saves the program counter, or that take the
-- next address from a register: accesses to memory and to the caches, traps and calls of the
-- system, the floating-point and the paired-single instructions, the reads and writes of the
-- system's registers, branches to LR and CTR, and words that are no instruction.
unfoldable pub needs_counter : PpcOpcode → Bool
needs_counter PpcOpcode.unknown = true
needs_counter PpcOpcode.lwz = true
needs_counter PpcOpcode.lwzu = true
needs_counter PpcOpcode.lbz = true
needs_counter PpcOpcode.lbzu = true
needs_counter PpcOpcode.stw = true
needs_counter PpcOpcode.stwu = true
needs_counter PpcOpcode.stb = true
needs_counter PpcOpcode.stbu = true
needs_counter PpcOpcode.lhz = true
needs_counter PpcOpcode.lhzu = true
needs_counter PpcOpcode.lha = true
needs_counter PpcOpcode.lhau = true
needs_counter PpcOpcode.sth = true
needs_counter PpcOpcode.sthu = true
needs_counter PpcOpcode.lmw = true
needs_counter PpcOpcode.stmw = true
needs_counter PpcOpcode.bclr = true
needs_counter PpcOpcode.bcctr = true
needs_counter PpcOpcode.sc = true
needs_counter PpcOpcode.rfi = true
needs_counter PpcOpcode.mfspr = true
needs_counter PpcOpcode.mtspr = true
needs_counter PpcOpcode.mftb = true
needs_counter PpcOpcode.twi = true
needs_counter PpcOpcode.tw = true
needs_counter PpcOpcode.lwzx = true
needs_counter PpcOpcode.lwzux = true
needs_counter PpcOpcode.lbzx = true
needs_counter PpcOpcode.lbzux = true
needs_counter PpcOpcode.lhzx = true
needs_counter PpcOpcode.lhzux = true
needs_counter PpcOpcode.lhax = true
needs_counter PpcOpcode.lhaux = true
needs_counter PpcOpcode.lwbrx = true
needs_counter PpcOpcode.lhbrx = true
needs_counter PpcOpcode.stwx = true
needs_counter PpcOpcode.stwux = true
needs_counter PpcOpcode.stbx = true
needs_counter PpcOpcode.stbux = true
needs_counter PpcOpcode.sthx = true
needs_counter PpcOpcode.sthux = true
needs_counter PpcOpcode.stwbrx = true
needs_counter PpcOpcode.sthbrx = true
needs_counter PpcOpcode.lswi = true
needs_counter PpcOpcode.lswx = true
needs_counter PpcOpcode.stswi = true
needs_counter PpcOpcode.stswx = true
needs_counter PpcOpcode.lwarx = true
needs_counter PpcOpcode.stwcx = true
needs_counter PpcOpcode.stfiwx = true
needs_counter PpcOpcode.lfs = true
needs_counter PpcOpcode.lfsu = true
needs_counter PpcOpcode.lfd = true
needs_counter PpcOpcode.lfdu = true
needs_counter PpcOpcode.stfs = true
needs_counter PpcOpcode.stfsu = true
needs_counter PpcOpcode.stfd = true
needs_counter PpcOpcode.stfdu = true
needs_counter PpcOpcode.lfsx = true
needs_counter PpcOpcode.lfsux = true
needs_counter PpcOpcode.lfdx = true
needs_counter PpcOpcode.lfdux = true
needs_counter PpcOpcode.stfsx = true
needs_counter PpcOpcode.stfsux = true
needs_counter PpcOpcode.stfdx = true
needs_counter PpcOpcode.stfdux = true
needs_counter PpcOpcode.fadds = true
needs_counter PpcOpcode.fsubs = true
needs_counter PpcOpcode.fmuls = true
needs_counter PpcOpcode.fdivs = true
needs_counter PpcOpcode.fres = true
needs_counter PpcOpcode.fmadds = true
needs_counter PpcOpcode.fmsubs = true
needs_counter PpcOpcode.fnmadds = true
needs_counter PpcOpcode.fnmsubs = true
needs_counter PpcOpcode.fadd = true
needs_counter PpcOpcode.fsub = true
needs_counter PpcOpcode.fmul = true
needs_counter PpcOpcode.fdiv = true
needs_counter PpcOpcode.frsqrte = true
needs_counter PpcOpcode.fmadd = true
needs_counter PpcOpcode.fmsub = true
needs_counter PpcOpcode.fnmadd = true
needs_counter PpcOpcode.fnmsub = true
needs_counter PpcOpcode.fctiw = true
needs_counter PpcOpcode.fctiwz = true
needs_counter PpcOpcode.fmr = true
needs_counter PpcOpcode.fneg = true
needs_counter PpcOpcode.fabs = true
needs_counter PpcOpcode.fnabs = true
needs_counter PpcOpcode.frsp = true
needs_counter PpcOpcode.fsel = true
needs_counter PpcOpcode.fcmpu = true
needs_counter PpcOpcode.fcmpo = true
needs_counter PpcOpcode.mtfsb0 = true
needs_counter PpcOpcode.mtfsb1 = true
needs_counter PpcOpcode.mcrfs = true
needs_counter PpcOpcode.mffs = true
needs_counter PpcOpcode.mtfsf = true
needs_counter PpcOpcode.mtfsfi = true
needs_counter PpcOpcode.psq_l = true
needs_counter PpcOpcode.psq_lu = true
needs_counter PpcOpcode.psq_st = true
needs_counter PpcOpcode.psq_stu = true
needs_counter PpcOpcode.psq_lx = true
needs_counter PpcOpcode.psq_lux = true
needs_counter PpcOpcode.psq_stx = true
needs_counter PpcOpcode.psq_stux = true
needs_counter PpcOpcode.ps_add = true
needs_counter PpcOpcode.ps_sub = true
needs_counter PpcOpcode.ps_mul = true
needs_counter PpcOpcode.ps_div = true
needs_counter PpcOpcode.ps_res = true
needs_counter PpcOpcode.ps_rsqrte = true
needs_counter PpcOpcode.ps_madd = true
needs_counter PpcOpcode.ps_msub = true
needs_counter PpcOpcode.ps_nmadd = true
needs_counter PpcOpcode.ps_nmsub = true
needs_counter PpcOpcode.ps_neg = true
needs_counter PpcOpcode.ps_abs = true
needs_counter PpcOpcode.ps_nabs = true
needs_counter PpcOpcode.ps_mr = true
needs_counter PpcOpcode.ps_sum0 = true
needs_counter PpcOpcode.ps_sum1 = true
needs_counter PpcOpcode.ps_muls0 = true
needs_counter PpcOpcode.ps_muls1 = true
needs_counter PpcOpcode.ps_madds0 = true
needs_counter PpcOpcode.ps_madds1 = true
needs_counter PpcOpcode.ps_merge00 = true
needs_counter PpcOpcode.ps_merge01 = true
needs_counter PpcOpcode.ps_merge10 = true
needs_counter PpcOpcode.ps_merge11 = true
needs_counter PpcOpcode.ps_cmpu0 = true
needs_counter PpcOpcode.ps_cmpo0 = true
needs_counter PpcOpcode.ps_cmpu1 = true
needs_counter PpcOpcode.ps_cmpo1 = true
needs_counter PpcOpcode.ps_sel = true
needs_counter PpcOpcode.dcbz = true
needs_counter PpcOpcode.dcbz_l = true
needs_counter PpcOpcode.dcbst = true
needs_counter PpcOpcode.dcbf = true
needs_counter PpcOpcode.dcbtst = true
needs_counter PpcOpcode.dcbt = true
needs_counter PpcOpcode.dcbi = true
needs_counter PpcOpcode.icbi = true
needs_counter PpcOpcode.mfmsr = true
needs_counter PpcOpcode.mtmsr = true
needs_counter PpcOpcode.mfsr = true
needs_counter PpcOpcode.mfsrin = true
needs_counter PpcOpcode.mtsr = true
needs_counter PpcOpcode.mtsrin = true
needs_counter PpcOpcode.tlbie = true
needs_counter PpcOpcode.tlbsync = true
needs_counter PpcOpcode.eciwx = true
needs_counter PpcOpcode.ecowx = true
needs_counter _ = false

pub transparent_lem : (op : PpcOpcode) → op_is_pc_transparent op ≡ true → needs_counter op ≡ false
unfolding op_is_pc_transparent needs_counter
transparent_lem PpcOpcode.unknown h = cc
transparent_lem _ h = cc
