-- ===== src/Cpu/Registers.antt =====
-- src/cpu/cpu.c: the special registers, `ppc_mftb`, `ppc_mfspr` and `ppc_mtspr`.
use dol_recomp.Base.{
  ℕ, ◌+◌, ◌-◌, ◌*◌, ◌^◌, ◌==◌, ltb, u32, shr, low_bits, bit_and, bit_or, Bool, not, ◌&&◌,
  if◌then◌else◌, [], ◌∷◌, none, some, get_or, set, switch,
}
use dol_recomp.Cpu.State.{CpuState, Callbacks}
use dol_recomp.Cpu.Exceptions.{
  ppc_program_exception, ppc_program_priv, ppc_program_illegal, ppc_msr_pr, ppc_gekko_pvr, has_bit,
}

abbrev pub spr_read_bit : ℕ
spr_read_bit = 1

abbrev pub spr_write_bit : ℕ
spr_write_bit = 2

abbrev pub spr_storage : ℕ
spr_storage = 4

abbrev pub spr_rw : ℕ
spr_rw = spr_read_bit + spr_write_bit + spr_storage

abbrev pub spr_ro : ℕ
spr_ro = spr_read_bit + spr_storage

-- The table of the registers that the host keeps, 0 elsewhere.
unfoldable pub ppc_spr_access : ℕ → ℕ
ppc_spr_access spr =
    switch spr
      ((22, spr_rw)
        ∷ (25, spr_rw)
        ∷ (272, spr_rw)
        ∷ (273, spr_rw)
        ∷ (274, spr_rw)
        ∷ (275, spr_rw)
        ∷ (287, spr_ro)
        ∷ (528, spr_rw)
        ∷ (529, spr_rw)
        ∷ (530, spr_rw)
        ∷ (531, spr_rw)
        ∷ (532, spr_rw)
        ∷ (533, spr_rw)
        ∷ (534, spr_rw)
        ∷ (535, spr_rw)
        ∷ (536, spr_rw)
        ∷ (537, spr_rw)
        ∷ (538, spr_rw)
        ∷ (539, spr_rw)
        ∷ (540, spr_rw)
        ∷ (541, spr_rw)
        ∷ (542, spr_rw)
        ∷ (543, spr_rw)
        ∷ (921, spr_rw)
        ∷ (922, spr_rw)
        ∷ (923, spr_rw)
        ∷ (936, spr_read_bit + spr_write_bit)
        ∷ (937, spr_read_bit + spr_write_bit)
        ∷ (938, spr_read_bit + spr_write_bit)
        ∷ (939, spr_read_bit + spr_write_bit)
        ∷ (940, spr_read_bit + spr_write_bit)
        ∷ (941, spr_read_bit + spr_write_bit)
        ∷ (942, spr_read_bit + spr_write_bit)
        ∷ (952, spr_rw)
        ∷ (953, spr_rw)
        ∷ (954, spr_rw)
        ∷ (955, spr_rw)
        ∷ (956, spr_rw)
        ∷ (957, spr_rw)
        ∷ (958, spr_rw)
        ∷ (1008, spr_rw)
        ∷ (1009, spr_rw)
        ∷ (1010, spr_rw)
        ∷ (1013, spr_rw)
        ∷ (1017, spr_rw)
        ∷ (1019, spr_rw)
        ∷ (1020, spr_rw)
        ∷ (1021, spr_rw)
        ∷ (1022, spr_rw)
        ∷ [])
      0

abbrev pub illegal_read : CpuState → ℕ → CpuState × ℕ
illegal_read cpu cia = (ppc_program_exception cpu ppc_program_illegal cia, 0)

unfoldable pub ppc_mftb : CpuState → ℕ → ℕ → CpuState × ℕ
ppc_mftb cpu tbr cia =
    if tbr == 268
    then (cpu, u32 cpu.timebase)
    else if tbr == 269
    then (cpu, u32 (shr cpu.timebase 32))
    else illegal_read cpu cia

-- A register that the host keeps, if it does.
unfoldable pub read_host_spr : Callbacks → CpuState → ℕ → ℕ → CpuState × ℕ
read_host_spr callbacks cpu spr cia = elim callbacks.spr_read [
  | none ↦ illegal_read cpu cia
  | some read ↦
      if ltb spr 1024 && has_bit (ppc_spr_access spr) spr_read_bit
      then read cpu spr cia
      else illegal_read cpu cia
]

unfoldable pub read_version : Callbacks → CpuState → ℕ → CpuState × ℕ
read_version callbacks cpu cia = elim callbacks.spr_read [
  | none ↦ (cpu, ppc_gekko_pvr)
  | some read ↦ read cpu 287 cia
]

-- The test of the privilege: user code reads XER, LR, CTR and the time base.
unfoldable pub may_read : CpuState → ℕ → Bool
may_read cpu spr = not (
    has_bit cpu.msr ppc_msr_pr
    && (not (spr == 1)
        && (not (spr == 8) && (not (spr == 9) && (not (spr == 268) && not (spr == 269))))))

unfoldable pub may_write : CpuState → ℕ → Bool
may_write cpu spr =
    not (has_bit cpu.msr ppc_msr_pr && (not (spr == 1) && (not (spr == 8) && not (spr == 9))))

-- The switch of `ppc_mfspr`.
unfoldable pub read_spr : Callbacks → CpuState → ℕ → ℕ → CpuState × ℕ
read_spr callbacks cpu spr cia =
    switch spr
      ((1, (cpu, cpu.xer))
        ∷ (8, (cpu, cpu.lr))
        ∷ (9, (cpu, cpu.ctr))
        ∷ (18, (cpu, cpu.dsisr))
        ∷ (19, (cpu, cpu.dar))
        ∷ (26, (cpu, cpu.srr0))
        ∷ (27, (cpu, cpu.srr1))
        ∷ (282, (cpu, cpu.ear))
        ∷ (287, read_version callbacks cpu cia)
        ∷ (912, (cpu, get_or cpu.gqr (spr - 912) 0))
        ∷ (913, (cpu, get_or cpu.gqr (spr - 912) 0))
        ∷ (914, (cpu, get_or cpu.gqr (spr - 912) 0))
        ∷ (915, (cpu, get_or cpu.gqr (spr - 912) 0))
        ∷ (916, (cpu, get_or cpu.gqr (spr - 912) 0))
        ∷ (917, (cpu, get_or cpu.gqr (spr - 912) 0))
        ∷ (918, (cpu, get_or cpu.gqr (spr - 912) 0))
        ∷ (919, (cpu, get_or cpu.gqr (spr - 912) 0))
        ∷ (920, (cpu, cpu.hid2))
        ∷ [])
      (read_host_spr callbacks cpu spr cia)

unfoldable pub ppc_mfspr : Callbacks → CpuState → ℕ → ℕ → CpuState × ℕ
ppc_mfspr callbacks cpu spr cia =
    if may_read cpu spr
    then read_spr callbacks cpu spr cia
    else (ppc_program_exception cpu ppc_program_priv cia, 0)

unfoldable pub write_host_spr : Callbacks → CpuState → ℕ → ℕ → ℕ → CpuState
write_host_spr callbacks cpu spr value cia = elim callbacks.spr_write [
  | none ↦ ppc_program_exception cpu ppc_program_illegal cia
  | some write ↦
      if ltb spr 1024 && has_bit (ppc_spr_access spr) spr_write_bit
      then write cpu spr value cia
      else ppc_program_exception cpu ppc_program_illegal cia
]

abbrev pub set_gqr : CpuState → ℕ → ℕ → CpuState
set_gqr cpu i value = record cpu { gqr = set cpu.gqr i value }

-- The switch of `ppc_mtspr`.
unfoldable pub write_spr : Callbacks → CpuState → ℕ → ℕ → ℕ → CpuState
write_spr callbacks cpu spr value cia =
    switch spr
      ((1, record cpu { xer = value })
        ∷ (8, record cpu { lr = value })
        ∷ (9, record cpu { ctr = value })
        ∷ (18, record cpu { dsisr = value })
        ∷ (19, record cpu { dar = value })
        ∷ (26, record cpu { srr0 = value })
        ∷ (27, record cpu { srr1 = value })
        ∷ (282, record cpu { ear = value })
        ∷ (284, record cpu { timebase = bit_or (bit_and cpu.timebase 0xffffffff00000000) value })
        ∷ (285, record cpu { timebase = bit_or (value * 2 ^ 32) (low_bits cpu.timebase 32) })
        ∷ (912, set_gqr cpu (spr - 912) value)
        ∷ (913, set_gqr cpu (spr - 912) value)
        ∷ (914, set_gqr cpu (spr - 912) value)
        ∷ (915, set_gqr cpu (spr - 912) value)
        ∷ (916, set_gqr cpu (spr - 912) value)
        ∷ (917, set_gqr cpu (spr - 912) value)
        ∷ (918, set_gqr cpu (spr - 912) value)
        ∷ (919, set_gqr cpu (spr - 912) value)
        ∷ (920, record cpu { hid2 = value })
        ∷ [])
      (write_host_spr callbacks cpu spr value cia)

unfoldable pub ppc_mtspr : Callbacks → CpuState → ℕ → ℕ → ℕ → CpuState
ppc_mtspr callbacks cpu spr value cia =
    if may_write cpu spr
    then write_spr callbacks cpu spr value cia
    else ppc_program_exception cpu ppc_program_priv cia
