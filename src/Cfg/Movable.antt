-- ===== src/Cfg/Movable.antt =====
-- src/backend/c_cfg.c: the instructions that need no program counter, and those that a loop
-- body outside the dispatch function may hold.
use dol_recomp.Base.{Bool, true, false, ◌||◌}
use dol_recomp.Decoder.Opcode.{PpcOpcode}
use dol_recomp.Decoder.Inst.{PpcInst}

-- The switch of `instruction_is_pc_transparent`.
unfoldable pub op_is_pc_transparent : PpcOpcode → Bool
op_is_pc_transparent PpcOpcode.mulli = true
op_is_pc_transparent PpcOpcode.subfic = true
op_is_pc_transparent PpcOpcode.addi = true
op_is_pc_transparent PpcOpcode.addic = true
op_is_pc_transparent PpcOpcode.addic_dot = true
op_is_pc_transparent PpcOpcode.addis = true
op_is_pc_transparent PpcOpcode.cmpi = true
op_is_pc_transparent PpcOpcode.cmpli = true
op_is_pc_transparent PpcOpcode.cmp = true
op_is_pc_transparent PpcOpcode.cmpl = true
op_is_pc_transparent PpcOpcode.ori = true
op_is_pc_transparent PpcOpcode.oris = true
op_is_pc_transparent PpcOpcode.xori = true
op_is_pc_transparent PpcOpcode.xoris = true
op_is_pc_transparent PpcOpcode.andi = true
op_is_pc_transparent PpcOpcode.andis = true
op_is_pc_transparent PpcOpcode.add = true
op_is_pc_transparent PpcOpcode.addc = true
op_is_pc_transparent PpcOpcode.adde = true
op_is_pc_transparent PpcOpcode.addme = true
op_is_pc_transparent PpcOpcode.addze = true
op_is_pc_transparent PpcOpcode.subf = true
op_is_pc_transparent PpcOpcode.subfc = true
op_is_pc_transparent PpcOpcode.subfe = true
op_is_pc_transparent PpcOpcode.subfme = true
op_is_pc_transparent PpcOpcode.subfze = true
op_is_pc_transparent PpcOpcode.neg = true
op_is_pc_transparent PpcOpcode.and = true
op_is_pc_transparent PpcOpcode.andc = true
op_is_pc_transparent PpcOpcode.or = true
op_is_pc_transparent PpcOpcode.orc = true
op_is_pc_transparent PpcOpcode.xor = true
op_is_pc_transparent PpcOpcode.nand = true
op_is_pc_transparent PpcOpcode.nor = true
op_is_pc_transparent PpcOpcode.eqv = true
op_is_pc_transparent PpcOpcode.cntlzw = true
op_is_pc_transparent PpcOpcode.extsb = true
op_is_pc_transparent PpcOpcode.extsh = true
op_is_pc_transparent PpcOpcode.slw = true
op_is_pc_transparent PpcOpcode.srw = true
op_is_pc_transparent PpcOpcode.sraw = true
op_is_pc_transparent PpcOpcode.srawi = true
op_is_pc_transparent PpcOpcode.rlwinm = true
op_is_pc_transparent PpcOpcode.rlwnm = true
op_is_pc_transparent PpcOpcode.rlwimi = true
op_is_pc_transparent PpcOpcode.mullw = true
op_is_pc_transparent PpcOpcode.mulhw = true
op_is_pc_transparent PpcOpcode.mulhwu = true
op_is_pc_transparent PpcOpcode.divw = true
op_is_pc_transparent PpcOpcode.divwu = true
op_is_pc_transparent PpcOpcode.crand = true
op_is_pc_transparent PpcOpcode.crandc = true
op_is_pc_transparent PpcOpcode.creqv = true
op_is_pc_transparent PpcOpcode.crnand = true
op_is_pc_transparent PpcOpcode.crnor = true
op_is_pc_transparent PpcOpcode.cror = true
op_is_pc_transparent PpcOpcode.crorc = true
op_is_pc_transparent PpcOpcode.crxor = true
op_is_pc_transparent PpcOpcode.mcrf = true
op_is_pc_transparent PpcOpcode.mfcr = true
op_is_pc_transparent PpcOpcode.mtcrf = true
op_is_pc_transparent PpcOpcode.b = true
op_is_pc_transparent PpcOpcode.bc = true
op_is_pc_transparent _ = false

unfoldable pub instruction_is_pc_transparent : PpcInst → Bool
instruction_is_pc_transparent inst = op_is_pc_transparent inst.op

-- The switch of `instruction_is_outlinable`.
unfoldable pub op_is_outlinable : PpcOpcode → Bool
op_is_outlinable PpcOpcode.lwz = true
op_is_outlinable PpcOpcode.lwzu = true
op_is_outlinable PpcOpcode.lbz = true
op_is_outlinable PpcOpcode.lbzu = true
op_is_outlinable PpcOpcode.lhz = true
op_is_outlinable PpcOpcode.lhzu = true
op_is_outlinable PpcOpcode.lha = true
op_is_outlinable PpcOpcode.lhau = true
op_is_outlinable PpcOpcode.stw = true
op_is_outlinable PpcOpcode.stwu = true
op_is_outlinable PpcOpcode.stb = true
op_is_outlinable PpcOpcode.stbu = true
op_is_outlinable PpcOpcode.sth = true
op_is_outlinable PpcOpcode.sthu = true
op_is_outlinable PpcOpcode.lwzx = true
op_is_outlinable PpcOpcode.lwzux = true
op_is_outlinable PpcOpcode.lbzx = true
op_is_outlinable PpcOpcode.lbzux = true
op_is_outlinable PpcOpcode.lhzx = true
op_is_outlinable PpcOpcode.lhzux = true
op_is_outlinable PpcOpcode.lhax = true
op_is_outlinable PpcOpcode.lhaux = true
op_is_outlinable PpcOpcode.lwbrx = true
op_is_outlinable PpcOpcode.lhbrx = true
op_is_outlinable PpcOpcode.stwx = true
op_is_outlinable PpcOpcode.stwux = true
op_is_outlinable PpcOpcode.stbx = true
op_is_outlinable PpcOpcode.stbux = true
op_is_outlinable PpcOpcode.sthx = true
op_is_outlinable PpcOpcode.sthux = true
op_is_outlinable PpcOpcode.stwbrx = true
op_is_outlinable PpcOpcode.sthbrx = true
op_is_outlinable _ = false

unfoldable pub instruction_is_outlinable : PpcInst → Bool
instruction_is_outlinable inst = instruction_is_pc_transparent inst || op_is_outlinable inst.op
