-- ===== src/Ir/Windows.antt =====
-- src/ir/dolir_address.c and src/cpu/cpu.c: an address that is classified as memory is in memory.
use dol_recomp.Base.{
  ℕ, ◌+◌, ◌-◌, ◌*◌, ◌/◌, ◌%◌, ◌^◌, ◌≤◌, ◌<◌, ◌==◌, ltb, leb, bit_and, ◌≡◌, ◌⊎◌, refl, sym, subst,
  inl, inr, Bool, true, false, ◌&&◌, if◌then◌else◌, some, arith,
}
use dol_recomp.Cpu.State.{CpuState}
use dol_recomp.Cpu.Memory.{Region, Place, resolve_addr, gc_ram_base, gc_ram_uncached, wii_mem2_base}
use dol_recomp.Cpu.Reserve.{without_bit_30, in_window-true, in_window-false}
use dol_recomp.Ir.Types.{DolIrAddressDomain}
use dol_recomp.Ir.Classify.{
  classify_address, classify_range, range_in_window, gc_main_ram_size, wii_mem2_size,
}

-- The two windows of a memory.
abbrev pub InWindows : ℕ → ℕ → ℕ → Type 0
InWindows base size a =
    ((base ≤ a) × (a < base + size)) ⊎ ((base + 2 ^ 30 ≤ a) × (a < base + 2 ^ 30 + size))

-- What a domain promises of an address: for a memory, one of its two windows.
abbrev pub Promises : DolIrAddressDomain → ℕ → Type 0
Promises DolIrAddressDomain.mem1 a = InWindows gc_ram_base gc_main_ram_size a
Promises DolIrAddressDomain.mem2 a = InWindows wii_mem2_base wii_mem2_size a
Promises _ a = Unit

if_domain :
    (P : DolIrAddressDomain → Type 0) (b : Bool) (x y : DolIrAddressDomain)
    → (b ≡ true → P x)
    → (b ≡ false → P y)
    → P (if b then x else y)
if_domain P true x y p q = p refl
if_domain P false x y p q = q refl

in_windows :
    (base size a n : ℕ)
    → n ≡ a / 2 ^ 31 * 2 ^ 31 + a % 2 ^ 30
    → 2 ^ 31 ≤ base
    → leb base n && ltb n (base + size) ≡ true
    → InWindows base size a
in_windows base size a n normal high h = ground arith

classify_address-Promises : (a : ℕ) → a < 2 ^ 32 → Promises (classify_address a) a
unfolding classify_address
classify_address-Promises a lt =
    let normal = without_bit_30 a lt in
    let P : DolIrAddressDomain → Type 0 = (λ d. Promises d a) in
    let n = bit_and a 0xbfffffff in
    if_domain P (leb 0xcc008000 a && ltb a 0xcc009000) DolIrAddressDomain.fifo _ (λ e. tt)
      (λ e.
        if_domain P (leb 0xcc000000 a && ltb a 0xce000000) DolIrAddressDomain.mmio _ (λ e. tt)
          (λ e.
            if_domain P (leb gc_ram_base n && ltb n (gc_ram_base + gc_main_ram_size))
              DolIrAddressDomain.mem1 _
              (λ f. in_windows gc_ram_base gc_main_ram_size a n normal (omega arith) f)
              (λ e.
                if_domain P (leb wii_mem2_base n && ltb n (wii_mem2_base + wii_mem2_size))
                  DolIrAddressDomain.mem2 _
                  (λ f. in_windows wii_mem2_base wii_mem2_size a n normal (omega arith) f)
                  (λ e.
                    if_domain P (ltb a gc_ram_base) DolIrAddressDomain.physical _ (λ e. tt)
                      (λ e.
                        if_domain P (ltb a 0xe0000000) DolIrAddressDomain.guest_data _ (λ e. tt)
                          (λ e. tt))))))

window_holds :
    (lower upper base size a : ℕ)
    → range_in_window lower upper base size ≡ true
    → lower ≤ a
    → a ≤ upper
    → (base ≤ a) × (a < base + size)
unfolding range_in_window
window_holds lower upper base size a h p q = ground arith

classify_range-Promises :
    (lower upper a : ℕ)
    → upper < 2 ^ 32
    → lower ≤ a
    → a ≤ upper
    → Promises (classify_range lower upper) a
unfolding classify_range
classify_range-Promises lower upper a lt p q =
    let P : DolIrAddressDomain → Type 0 = (λ d. Promises d a) in
    if_domain P (lower == upper) (classify_address lower) _
      (λ e.
        let same : a ≡ lower = ground arith in
        subst (λ x. Promises (classify_address lower) x) (sym same)
          (classify_address-Promises lower (omega arith)))
      (λ e.
        if_domain P (range_in_window lower upper gc_ram_base gc_main_ram_size) _ _
          (λ f. inl (window_holds lower upper gc_ram_base gc_main_ram_size a f p q))
          (λ e.
            if_domain P (range_in_window lower upper wii_mem2_base wii_mem2_size) _ _
              (λ f. inl (window_holds lower upper wii_mem2_base wii_mem2_size a f p q))
              (λ e.
                if_domain P (range_in_window lower upper 0xc0000000 gc_main_ram_size) _ _
                  (λ f. inr (window_holds lower upper 0xc0000000 gc_main_ram_size a f p q))
                  (λ e.
                    if_domain P (range_in_window lower upper 0xd0000000 wii_mem2_size) _ _
                      (λ f. inr (window_holds lower upper 0xd0000000 wii_mem2_size a f p q))
                      (λ e. tt)))))

-- The main memory of the processor holds an address of its windows.
resolve-main :
    (cpu : CpuState) (a : ℕ)
    → cpu.ram_size ≡ gc_main_ram_size
    → InWindows gc_ram_base gc_main_ram_size a
    → (place : Place) × (resolve_addr cpu a ≡ some place) × (place.region ≡ Region.main)
unfolding resolve_addr
resolve-main cpu a size (inl (p, q)) =
    let on = in_window-true gc_ram_base cpu.ram_size a p (omega (arith, size)) in
    (
      record {
        region = Region.main;
        offset = a - gc_ram_base;
        avail = cpu.ram_size - (a - gc_ram_base);
      },
      rw on refl,
      refl,
    )
resolve-main cpu a size (inr (p, q)) =
    let off = in_window-false gc_ram_base cpu.ram_size a (omega (arith, size)) in
    let on = in_window-true gc_ram_uncached cpu.ram_size a p (omega (arith, size)) in
    (
      record {
        region = Region.main;
        offset = a - gc_ram_uncached;
        avail = cpu.ram_size - (a - gc_ram_uncached);
      },
      rw off (rw on refl),
      refl,
    )

-- The agreement of the two parts: on a processor whose main memory has the size of a GameCube's,
-- every address of a range that is classified as MEM1, and ends below 2 ^ 32, is in the main memory.
pub classify_range-mem1 :
    (cpu : CpuState) (lower upper a : ℕ)
    → cpu.ram_size ≡ gc_main_ram_size
    → upper < 2 ^ 32
    → classify_range lower upper ≡ DolIrAddressDomain.mem1
    → lower ≤ a
    → a ≤ upper
    → (place : Place) × (resolve_addr cpu a ≡ some place) × (place.region ≡ Region.main)
classify_range-mem1 cpu lower upper a size lt e p q = resolve-main cpu a size (
    subst (λ (d : DolIrAddressDomain). Promises d a) e
      (classify_range-Promises lower upper a lt p q))
