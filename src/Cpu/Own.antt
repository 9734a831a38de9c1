-- ===== src/Cpu/Own.antt =====
-- src/cpu/cpu.c: which special registers hold what is written to them.
use dol_recomp.Base.{
  ℕ, ◌-◌, ◌<◌, ◌≡◌, refl, ap, sym, ◌∙◌, true, false, List, [], ◌∷◌, length, get_or, get_or-set_if,
  set, switch, arith, subst,
}
use dol_recomp.Cpu.State.{CpuState, Callbacks}
use dol_recomp.Cpu.Exceptions.{has_bit, ppc_msr_pr}
use dol_recomp.Cpu.Registers.{
  ppc_mfspr, ppc_mtspr, set_gqr, read_spr, write_spr, may_read, may_write,
}

-- The registers that CPUState holds and that can be read and written, but the time base.
abbrev pub own_sprs : List ℕ
own_sprs =
    1 ∷ 8 ∷ 9 ∷ 18 ∷ 19 ∷ 26 ∷ 27 ∷ 282 ∷ 912 ∷ 913 ∷ 914 ∷ 915 ∷ 916 ∷ 917 ∷ 918 ∷ 919 ∷ 920 ∷ []

-- A property of each number of a list.
abbrev pub Each : (ℕ → Type 0) → List ℕ → Type 0
Each P [] = Unit
Each P (n ∷ ns) = P n × Each P ns

-- What is written is what is read, and the reading changes nothing.
abbrev pub ReadsBack : Callbacks → CpuState → ℕ → ℕ → ℕ → Type 0
ReadsBack callbacks cpu value cia spr =
    ppc_mfspr callbacks (ppc_mtspr callbacks cpu spr value cia) spr cia
    ≡ (ppc_mtspr callbacks cpu spr value cia, value)

supervisor_reads :
    (cpu : CpuState) (spr : ℕ) → has_bit cpu.msr ppc_msr_pr ≡ false → may_read cpu spr ≡ true
unfolding may_read
supervisor_reads cpu spr h = rw h refl

supervisor_writes :
    (cpu : CpuState) (spr : ℕ) → has_bit cpu.msr ppc_msr_pr ≡ false → may_write cpu spr ≡ true
unfolding may_write
supervisor_writes cpu spr h = rw h refl

reads_back :
    (callbacks : Callbacks) (cpu : CpuState) (value cia spr : ℕ)
    → has_bit cpu.msr ppc_msr_pr ≡ false
    → (write_spr callbacks cpu spr value cia).msr ≡ cpu.msr
    → read_spr callbacks (write_spr callbacks cpu spr value cia) spr cia
      ≡ (write_spr callbacks cpu spr value cia, value)
    → ReadsBack callbacks cpu value cia spr
unfolding ppc_mfspr ppc_mtspr
reads_back callbacks cpu value cia spr h kept e = rw (supervisor_writes cpu spr h) (
    rw
      (supervisor_reads (write_spr callbacks cpu spr value cia) spr
        (ap (λ (m : ℕ). has_bit m ppc_msr_pr) kept ∙ h))
      e)

gqr_read :
    (gqr : List ℕ) (i value : ℕ) → length gqr ≡ 8 → i < 8 → get_or (set gqr i value) i 0 ≡ value
gqr_read gqr i value h lt = let e = get_or-set_if gqr i i value in ground arith

gqr_back :
    (callbacks : Callbacks) (cpu : CpuState) (value cia spr : ℕ)
    → has_bit cpu.msr ppc_msr_pr ≡ false
    → length cpu.gqr ≡ 8
    → spr - 912 < 8
    → write_spr callbacks cpu spr value cia ≡ set_gqr cpu (spr - 912) value
    → read_spr callbacks (set_gqr cpu (spr - 912) value) spr cia
      ≡ (set_gqr cpu (spr - 912) value, get_or (set cpu.gqr (spr - 912) value) (spr - 912) 0)
    → ReadsBack callbacks cpu value cia spr
gqr_back callbacks cpu value cia spr h eight lt written read =
    reads_back callbacks cpu value cia spr h (ap (λ (s : CpuState). s.msr) written) (
      subst (λ (s : CpuState). read_spr callbacks s spr cia ≡ (s, value)) (sym written)
        (read
          ∙ ap (λ (v : ℕ). (set_gqr cpu (spr - 912) value, v))
              (gqr_read cpu.gqr (spr - 912) value eight lt)))

-- In supervisor state, with eight GQRs, each of XER, LR, CTR, DSISR, DAR, SRR0, SRR1, EAR, the GQRs
-- and HID2 reads as it was written, and the reading changes nothing.
pub ppc_mfspr-ppc_mtspr :
    (callbacks : Callbacks) (cpu : CpuState) (value cia : ℕ)
    → has_bit cpu.msr ppc_msr_pr ≡ false
    → length cpu.gqr ≡ 8
    → Each (ReadsBack callbacks cpu value cia) own_sprs
unfolding read_spr write_spr switch
ppc_mfspr-ppc_mtspr callbacks cpu value cia h eight = (
  reads_back callbacks cpu value cia 1 h refl refl,
  (
    reads_back callbacks cpu value cia 8 h refl refl,
    (
      reads_back callbacks cpu value cia 9 h refl refl,
      (
        reads_back callbacks cpu value cia 18 h refl refl,
        (
          reads_back callbacks cpu value cia 19 h refl refl,
          (
            reads_back callbacks cpu value cia 26 h refl refl,
            (
              reads_back callbacks cpu value cia 27 h refl refl,
              (
                reads_back callbacks cpu value cia 282 h refl refl,
                (
                  gqr_back callbacks cpu value cia 912 h eight (omega arith) refl refl,
                  (
                    gqr_back callbacks cpu value cia 913 h eight (omega arith) refl refl,
                    (
                      gqr_back callbacks cpu value cia 914 h eight (omega arith) refl refl,
                      (
                        gqr_back callbacks cpu value cia 915 h eight (omega arith) refl refl,
                        (
                          gqr_back callbacks cpu value cia 916 h eight (omega arith) refl refl,
                          (
                            gqr_back callbacks cpu value cia 917 h eight (omega arith) refl refl,
                            (
                              gqr_back callbacks cpu value cia 918 h eight (omega arith) refl refl,
                              (
                                gqr_back callbacks cpu value cia 919 h eight (omega arith) refl
                                    refl,
                                (reads_back callbacks cpu value cia 920 h refl refl, tt),
                              ),
                            ),
                          ),
                        ),
                      ),
                    ),
                  ),
                ),
              ),
            ),
          ),
        ),
      ),
    ),
  ),
)
