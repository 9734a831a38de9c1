-- ===== src/Cfg/Classes.antt =====
-- src/backend/c_cfg.c: what the control-flow graph asks of a single instruction.
use dol_recomp.Base.{ℕ, ◌==◌, Bool, true, false, ◌||◌, not, if◌then◌else◌, List, [], ◌∷◌}
use dol_recomp.Decoder.Opcode.{PpcOpcode}
use dol_recomp.Decoder.Inst.{PpcInst}

-- The registers that the inner switches of `instruction_uses_fallback` name.
unfoldable pub is_listed_spr : ℕ → List ℕ → Bool
is_listed_spr spr [] = false
is_listed_spr spr (s ∷ sprs) = let rest = is_listed_spr spr sprs in if spr == s then true else rest

abbrev pub readable_sprs : List ℕ
readable_sprs =
    1 ∷ 8 ∷ 9 ∷ 26 ∷ 27 ∷ 268 ∷ 269 ∷ 282 ∷ 912 ∷ 913 ∷ 914 ∷ 915 ∷ 916 ∷ 917 ∷ 918 ∷ 919 ∷ 920 ∷ []

abbrev pub writable_sprs : List ℕ
writable_sprs = 1 ∷ 8 ∷ 9 ∷ 26 ∷ 27 ∷ 282 ∷ 912 ∷ 913 ∷ 914 ∷ 915 ∷ 916 ∷ 917 ∷ 918 ∷ 919 ∷ 920 ∷ []

unfoldable pub op_uses_fallback : PpcOpcode → ℕ → Bool
op_uses_fallback PpcOpcode.dcbst spr = true
op_uses_fallback PpcOpcode.dcbf spr = true
op_uses_fallback PpcOpcode.dcbi spr = true
op_uses_fallback PpcOpcode.icbi spr = true
op_uses_fallback PpcOpcode.unknown spr = true
op_uses_fallback PpcOpcode.mfspr spr = not (is_listed_spr spr readable_sprs)
op_uses_fallback PpcOpcode.mtspr spr = not (is_listed_spr spr writable_sprs)
op_uses_fallback _ spr = false

unfoldable pub instruction_uses_fallback : PpcInst → Bool
instruction_uses_fallback inst = op_uses_fallback inst.op inst.spr

-- The listed cases of `instruction_ends_block`.
unfoldable pub op_ends_block : PpcOpcode → Bool
op_ends_block PpcOpcode.b = true
op_ends_block PpcOpcode.bc = true
op_ends_block PpcOpcode.bclr = true
op_ends_block PpcOpcode.bcctr = true
op_ends_block PpcOpcode.sc = true
op_ends_block PpcOpcode.rfi = true
op_ends_block _ = false

unfoldable pub instruction_ends_block : PpcInst → Bool
instruction_ends_block inst = op_ends_block inst.op || instruction_uses_fallback inst

-- The switch of `instruction_cycles`.
unfoldable pub op_cycles : PpcOpcode → ℕ
op_cycles PpcOpcode.mulli = 3
op_cycles PpcOpcode.sc = 2
op_cycles PpcOpcode.rfi = 2
op_cycles PpcOpcode.tw = 2
op_cycles PpcOpcode.lmw = 11
op_cycles PpcOpcode.stmw = 11
op_cycles PpcOpcode.mullw = 5
op_cycles PpcOpcode.mullwo = 5
op_cycles PpcOpcode.mulhw = 5
op_cycles PpcOpcode.mulhwu = 5
op_cycles PpcOpcode.divw = 40
op_cycles PpcOpcode.divwo = 40
op_cycles PpcOpcode.divwu = 40
op_cycles PpcOpcode.divwuo = 40
op_cycles PpcOpcode.dcbz = 5
op_cycles PpcOpcode.dcbtst = 2
op_cycles PpcOpcode.dcbt = 2
op_cycles PpcOpcode.mfsr = 3
op_cycles PpcOpcode.mfsrin = 3
op_cycles PpcOpcode.mtspr = 2
op_cycles PpcOpcode.sync = 3
op_cycles PpcOpcode.mtfsb0 = 3
op_cycles PpcOpcode.mtfsb1 = 3
op_cycles PpcOpcode.mtfsf = 3
op_cycles PpcOpcode.mtfsfi = 3
op_cycles PpcOpcode.fdivs = 17
op_cycles PpcOpcode.fdiv = 31
op_cycles PpcOpcode.ps_div = 17
op_cycles PpcOpcode.ps_rsqrte = 2
op_cycles _ = 1

unfoldable pub instruction_cycles : PpcInst → ℕ
instruction_cycles inst =
    if inst.embedded_data || instruction_uses_fallback inst then 0 else op_cycles inst.op
