-- ===== src/Cpu/Reserve.antt =====
-- src/cpu/cpu.c: the reservation of `lwarx`, and the two addresses of a byte.
use dol_recomp.Base.{
  ℕ, ◌+◌, ◌-◌, ◌*◌, ◌/◌, ◌%◌, ◌^◌, ◌≤◌, ◌<◌, u32, ◌≡◌, ◌≢◌, ◌↔◌, refl, ap, sym, ◌∙◌, inl, inr, Bool,
  true, false, not, ◌&&◌, some, ==_iff, bit_and, bit_xor, arith,
}
use dol_recomp.Base.Bits.{bit_and_mask, bit_and_shift, bit_and_double}
use dol_recomp.Base.Shifts.{bit_and_shr, bit_xor_shr, bit_xor-zero_iff}
use dol_recomp.Base.Masks.{bit_and_assoc}
use dol_recomp.Cpu.State.{CpuState, Callbacks}
use dol_recomp.Cpu.Memory.{
  Region, Place, in_window, gc_ram_base, gc_ram_uncached, resolve_addr, mem_write32,
}
use dol_recomp.Cpu.Bounds.{region_cases}
use dol_recomp.Cpu.Stored.{same_line, store_at-main, store_at-second}
use dol_recomp.Cpu.ReadBack.{write_32}

-- The line of an address, of 32 bytes: bit 30, which tells the cached from the uncached address, is
-- left out.
abbrev pub line_of : ℕ → ℕ
line_of addr = addr / 2 ^ 31 * 2 ^ 25 + addr % 2 ^ 30 / 32

pub low_part : (x : ℕ) → bit_and x 0xbfffffff % 2 ^ 30 ≡ x % 2 ^ 30
low_part x =
    sym (bit_and_mask 30 (bit_and x 0xbfffffff))
    ∙ (bit_and_assoc x 0xbfffffff 0x3fffffff ∙ bit_and_mask 30 x)

high_part : (x : ℕ) → x < 2 ^ 32 → bit_and x 0xbfffffff / 2 ^ 30 ≡ x / 2 ^ 31 * 2
high_part x h =
    bit_and_shr 30 x 0xbfffffff
    ∙ (bit_and_double (x / 2 ^ 30) 1 ∙ omega (arith, bit_and_mask 1 (x / 2 ^ 30 / 2)))

pub without_bit_30 : (x : ℕ) → x < 2 ^ 32 → bit_and x 0xbfffffff ≡ x / 2 ^ 31 * 2 ^ 31 + x % 2 ^ 30
without_bit_30 x h = omega (arith, low_part x, high_part x h)

-- The test of the lines, on numbers of 32 bits.
lines_meet :
    (a b : ℕ) → a < 2 ^ 32 → b < 2 ^ 32 → (bit_and (bit_xor a b) 0xffffffe0 ≡ 0) ↔ (a / 32 ≡ b / 32)
lines_meet a b p q =
    let x = bit_xor a b in
    let split : x / 2 ^ 5 * 2 ^ 5 + x % 2 ^ 5 ≡ x = omega arith in
    let masked =
      ap (λ (t : ℕ). bit_and t 0xffffffe0) (sym split)
      ∙ (bit_and_shift 5 (x / 2 ^ 5) (x % 2 ^ 5) 0x7ffffff (omega arith)
          ∙ ap (λ (t : ℕ). t * 2 ^ 5) (bit_and_mask 27 (x / 2 ^ 5))) in
    let shifted = bit_xor_shr 5 a b in
    let top = bit_xor_shr 32 a b in
    let none_above : x / 2 ^ 32 ≡ 0 =
      (let a_none : a / 2 ^ 32 ≡ 0 = omega arith in
        let b_none : b / 2 ^ 32 ≡ 0 = omega arith in top ∙ (rw a_none (rw b_none refl))) in
    let same = bit_xor-zero_iff (a / 2 ^ 5) (b / 2 ^ 5) in
    (
      (λ e. same.0 (sym shifted ∙ omega (arith, e, masked, none_above))),
      (λ e. masked ∙ omega (arith, shifted ∙ same.1 e)),
    )

pub same_line_iff :
    (cpu : CpuState) (addr : ℕ)
    → addr < 2 ^ 32
    → cpu.reserve_addr < 2 ^ 32
    → (same_line cpu addr ≡ true) ↔ (line_of cpu.reserve_addr ≡ line_of addr)
same_line_iff cpu addr p q =
    let a = without_bit_30 cpu.reserve_addr q in
    let b = without_bit_30 addr p in
    let meet =
      lines_meet (bit_and cpu.reserve_addr 0xbfffffff) (bit_and addr 0xbfffffff) (omega (arith, a))
        (omega (arith, b)) in
    let test =
      ==_iff
        (bit_and (bit_xor (bit_and cpu.reserve_addr 0xbfffffff) (bit_and addr 0xbfffffff))
          0xffffffe0)
        0 in
    ((λ e. omega (arith, a, b, meet.0 (test.0 e))), (λ e. test.1 (meet.1 (omega (arith, a, b, e)))))

and_not :
    {P : Type 0} (a b : Bool) → (b ≡ true) ↔ P → ((a && not b) ≡ true) ↔ ((a ≡ true) × (P → ⊥))
and_not true true h = ((λ e. cc), (λ (e, never). absurd (never (h.0 refl))))
and_not true false h = ((λ e. (refl, λ p. cc (h.1 p))), (λ e. refl))
and_not false b h = ((λ e. cc), (λ (e, never). cc))

-- After a word is stored at an address of the memory, of 32 bits like that of the reservation, a reservation stands exactly where one stood
-- and its line is another.
pub mem_write32-reserve :
    (callbacks : Callbacks) (cpu : CpuState) (addr value : ℕ) (place : Place)
    → addr < 2 ^ 32
    → cpu.reserve_addr < 2 ^ 32
    → resolve_addr cpu addr ≡ some place
    → 4 ≤ place.avail
    → ((mem_write32 callbacks cpu addr value).reserve_valid ≡ true)
      ↔ ((cpu.reserve_valid ≡ true) × (line_of cpu.reserve_addr ≢ line_of addr))
mem_write32-reserve callbacks cpu addr value place p q here enough =
    let stored = write_32 callbacks cpu addr value place here enough in
    let line = same_line_iff cpu addr p q in
    let kept : (mem_write32 callbacks cpu addr value).reserve_valid
        ≡ cpu.reserve_valid && not (same_line cpu addr) =
      ap (λ (s : CpuState). s.reserve_valid) stored ∙ elim (region_cases place) [
        | inl e ↦
            ap (λ (s : CpuState). s.reserve_valid) (store_at-main callbacks cpu addr 4 place _ e)
        | inr e ↦
            ap (λ (s : CpuState). s.reserve_valid) (store_at-second callbacks cpu addr 4 place _ e)
      ] in
    rw kept (and_not cpu.reserve_valid (same_line cpu addr) line)

pub in_window-true :
    (base size addr : ℕ) → base ≤ addr → addr < u32 (base + size) → in_window base size addr ≡ true
unfolding in_window
in_window-true base size addr p q = ground arith

pub in_window-false : (base size addr : ℕ) → base + size ≤ addr → in_window base size addr ≡ false
unfolding in_window
in_window-false base size addr p = ground arith

-- The cached and the uncached address of a byte of the main memory are one place, where the memory
-- has at most 2 ^ 30 - 1 bytes.
pub resolve_addr-uncached :
    (cpu : CpuState) (i : ℕ)
    → cpu.ram_size < 2 ^ 30
    → i < cpu.ram_size
    → resolve_addr cpu (gc_ram_uncached + i) ≡ resolve_addr cpu (gc_ram_base + i)
unfolding resolve_addr
resolve_addr-uncached cpu i small inside =
    let off = in_window-false gc_ram_base cpu.ram_size (gc_ram_uncached + i) (omega arith) in
    let on =
      in_window-true gc_ram_uncached cpu.ram_size (gc_ram_uncached + i) (omega arith)
        (omega arith) in
    let base =
      in_window-true gc_ram_base cpu.ram_size (gc_ram_base + i) (omega arith) (omega arith) in
    let same : gc_ram_uncached + i - gc_ram_uncached ≡ gc_ram_base + i - gc_ram_base =
      omega arith in
    rw off (
      rw on (
        rw base (
          ap
            (λ (o : ℕ).
              some (record { region = Region.main; offset = o; avail = cpu.ram_size - o }))
            same)))
