-- ===== src/Decoder/Opcode.antt =====
-- src/frontend/decoder.h: the enumeration PPCOpcode, without its end marker PPC_OP_COUNT.
use dol_recomp.Base.{ℕ, Bool, ◌==◌, ◌&&◌, leb}

pub data PpcOpcode : Type 0 where
  unknown mulli subfic addi addic addic_dot addis cmpi cmpli ori oris xori xoris andi : PpcOpcode
  andis lwz lwzu lbz lbzu stw stwu stb stbu lhz lhzu lha lhau sth sthu lmw stmw b bc : PpcOpcode
  bclr bcctr sc rfi crand crandc creqv crnand crnor cror crorc crxor mcrf mfcr mtcrf : PpcOpcode
  mfspr mtspr mftb cmp cmpl twi tw add addo addc addco adde addeo addme addmeo addze : PpcOpcode
  addzeo subf subfo subfc subfco subfe subfeo subfme subfmeo subfze subfzeo neg nego : PpcOpcode
  and andc or orc xor nand nor eqv cntlzw extsb extsh slw srw sraw srawi rlwinm rlwnm : PpcOpcode
  rlwimi lwzx lwzux lbzx lbzux lhzx lhzux lhax lhaux lwbrx lhbrx stwx stwux stbx stbux : PpcOpcode
  sthx sthux stwbrx sthbrx lswi lswx stswi stswx lwarx stwcx stfiwx lfs lfsu lfd lfdu : PpcOpcode
  stfs stfsu stfd stfdu lfsx lfsux lfdx lfdux stfsx stfsux stfdx stfdux fadds fsubs : PpcOpcode
  fmuls fdivs fres fmadds fmsubs fnmadds fnmsubs fadd fsub fmul fdiv frsqrte fmadd : PpcOpcode
  fmsub fnmadd fnmsub fctiw fctiwz fmr fneg fabs fnabs frsp fsel fcmpu fcmpo mtfsb0 : PpcOpcode
  mtfsb1 mcrfs mffs mtfsf mtfsfi psq_l psq_lu psq_st psq_stu psq_lx psq_lux psq_stx : PpcOpcode
  psq_stux ps_add ps_sub ps_mul ps_div ps_res ps_rsqrte ps_madd ps_msub ps_nmadd : PpcOpcode
  ps_nmsub ps_neg ps_abs ps_nabs ps_mr ps_sum0 ps_sum1 ps_muls0 ps_muls1 ps_madds0 : PpcOpcode
  ps_madds1 ps_merge00 ps_merge01 ps_merge10 ps_merge11 ps_cmpu0 ps_cmpo0 ps_cmpu1 : PpcOpcode
  ps_cmpo1 ps_sel mullw mullwo mulhw mulhwu divw divwo divwu divwuo dcbz dcbz_l dcbst : PpcOpcode
  dcbf dcbtst dcbt dcbi icbi sync eieio isync mcrxr mfmsr mtmsr mfsr mfsrin mtsr : PpcOpcode
  mtsrin tlbie tlbsync eciwx ecowx : PpcOpcode

-- The value that C gives to a member: its place in the declaration.
abbrev pub op_number : PpcOpcode → ℕ
op_number unknown = 0
op_number mulli = 1
op_number subfic = 2
op_number addi = 3
op_number addic = 4
op_number addic_dot = 5
op_number addis = 6
op_number cmpi = 7
op_number cmpli = 8
op_number ori = 9
op_number oris = 10
op_number xori = 11
op_number xoris = 12
op_number andi = 13
op_number andis = 14
op_number lwz = 15
op_number lwzu = 16
op_number lbz = 17
op_number lbzu = 18
op_number stw = 19
op_number stwu = 20
op_number stb = 21
op_number stbu = 22
op_number lhz = 23
op_number lhzu = 24
op_number lha = 25
op_number lhau = 26
op_number sth = 27
op_number sthu = 28
op_number lmw = 29
op_number stmw = 30
op_number b = 31
op_number bc = 32
op_number bclr = 33
op_number bcctr = 34
op_number sc = 35
op_number rfi = 36
op_number crand = 37
op_number crandc = 38
op_number creqv = 39
op_number crnand = 40
op_number crnor = 41
op_number cror = 42
op_number crorc = 43
op_number crxor = 44
op_number mcrf = 45
op_number mfcr = 46
op_number mtcrf = 47
op_number mfspr = 48
op_number mtspr = 49
op_number mftb = 50
op_number cmp = 51
op_number cmpl = 52
op_number twi = 53
op_number tw = 54
op_number add = 55
op_number addo = 56
op_number addc = 57
op_number addco = 58
op_number adde = 59
op_number addeo = 60
op_number addme = 61
op_number addmeo = 62
op_number addze = 63
op_number addzeo = 64
op_number subf = 65
op_number subfo = 66
op_number subfc = 67
op_number subfco = 68
op_number subfe = 69
op_number subfeo = 70
op_number subfme = 71
op_number subfmeo = 72
op_number subfze = 73
op_number subfzeo = 74
op_number neg = 75
op_number nego = 76
op_number and = 77
op_number andc = 78
op_number or = 79
op_number orc = 80
op_number xor = 81
op_number nand = 82
op_number nor = 83
op_number eqv = 84
op_number cntlzw = 85
op_number extsb = 86
op_number extsh = 87
op_number slw = 88
op_number srw = 89
op_number sraw = 90
op_number srawi = 91
op_number rlwinm = 92
op_number rlwnm = 93
op_number rlwimi = 94
op_number lwzx = 95
op_number lwzux = 96
op_number lbzx = 97
op_number lbzux = 98
op_number lhzx = 99
op_number lhzux = 100
op_number lhax = 101
op_number lhaux = 102
op_number lwbrx = 103
op_number lhbrx = 104
op_number stwx = 105
op_number stwux = 106
op_number stbx = 107
op_number stbux = 108
op_number sthx = 109
op_number sthux = 110
op_number stwbrx = 111
op_number sthbrx = 112
op_number lswi = 113
op_number lswx = 114
op_number stswi = 115
op_number stswx = 116
op_number lwarx = 117
op_number stwcx = 118
op_number stfiwx = 119
op_number lfs = 120
op_number lfsu = 121
op_number lfd = 122
op_number lfdu = 123
op_number stfs = 124
op_number stfsu = 125
op_number stfd = 126
op_number stfdu = 127
op_number lfsx = 128
op_number lfsux = 129
op_number lfdx = 130
op_number lfdux = 131
op_number stfsx = 132
op_number stfsux = 133
op_number stfdx = 134
op_number stfdux = 135
op_number fadds = 136
op_number fsubs = 137
op_number fmuls = 138
op_number fdivs = 139
op_number fres = 140
op_number fmadds = 141
op_number fmsubs = 142
op_number fnmadds = 143
op_number fnmsubs = 144
op_number fadd = 145
op_number fsub = 146
op_number fmul = 147
op_number fdiv = 148
op_number frsqrte = 149
op_number fmadd = 150
op_number fmsub = 151
op_number fnmadd = 152
op_number fnmsub = 153
op_number fctiw = 154
op_number fctiwz = 155
op_number fmr = 156
op_number fneg = 157
op_number fabs = 158
op_number fnabs = 159
op_number frsp = 160
op_number fsel = 161
op_number fcmpu = 162
op_number fcmpo = 163
op_number mtfsb0 = 164
op_number mtfsb1 = 165
op_number mcrfs = 166
op_number mffs = 167
op_number mtfsf = 168
op_number mtfsfi = 169
op_number psq_l = 170
op_number psq_lu = 171
op_number psq_st = 172
op_number psq_stu = 173
op_number psq_lx = 174
op_number psq_lux = 175
op_number psq_stx = 176
op_number psq_stux = 177
op_number ps_add = 178
op_number ps_sub = 179
op_number ps_mul = 180
op_number ps_div = 181
op_number ps_res = 182
op_number ps_rsqrte = 183
op_number ps_madd = 184
op_number ps_msub = 185
op_number ps_nmadd = 186
op_number ps_nmsub = 187
op_number ps_neg = 188
op_number ps_abs = 189
op_number ps_nabs = 190
op_number ps_mr = 191
op_number ps_sum0 = 192
op_number ps_sum1 = 193
op_number ps_muls0 = 194
op_number ps_muls1 = 195
op_number ps_madds0 = 196
op_number ps_madds1 = 197
op_number ps_merge00 = 198
op_number ps_merge01 = 199
op_number ps_merge10 = 200
op_number ps_merge11 = 201
op_number ps_cmpu0 = 202
op_number ps_cmpo0 = 203
op_number ps_cmpu1 = 204
op_number ps_cmpo1 = 205
op_number ps_sel = 206
op_number mullw = 207
op_number mullwo = 208
op_number mulhw = 209
op_number mulhwu = 210
op_number divw = 211
op_number divwo = 212
op_number divwu = 213
op_number divwuo = 214
op_number dcbz = 215
op_number dcbz_l = 216
op_number dcbst = 217
op_number dcbf = 218
op_number dcbtst = 219
op_number dcbt = 220
op_number dcbi = 221
op_number icbi = 222
op_number sync = 223
op_number eieio = 224
op_number isync = 225
op_number mcrxr = 226
op_number mfmsr = 227
op_number mtmsr = 228
op_number mfsr = 229
op_number mfsrin = 230
op_number mtsr = 231
op_number mtsrin = 232
op_number tlbie = 233
op_number tlbsync = 234
op_number eciwx = 235
op_number ecowx = 236

unfoldable pub op_eq : PpcOpcode → PpcOpcode → Bool
op_eq x y = op_number x == op_number y

pub ppc_op_uses_fpu : PpcOpcode → Bool
ppc_op_uses_fpu op = leb (op_number stfiwx) (op_number op) && leb (op_number op) (op_number ps_sel)
