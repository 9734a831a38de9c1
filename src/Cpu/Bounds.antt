-- ===== src/Cpu/Bounds.antt =====
-- src/cpu/cpu.c: where `resolve_addr` points to.
use dol_recomp.Base.{
  ℕ, ◌+◌, ◌-◌, ◌≤◌, ◌==◌, ◌≡◌, ◌⊎◌, refl, subst, inl, inr, Bool, true, false, if◌then◌else◌, List,
  Option, none, some, some-injective, Option-cases, length, arith,
}
use dol_recomp.Cpu.State.{CpuState}
use dol_recomp.Cpu.Memory.{Region, Place, place_in, in_window, resolve_mem2, resolve_addr, bytes_of}

-- The memories are as long as their sizes say.
pub record IsSized (cpu : CpuState) : Type 0 where
  pub main_length : length cpu.ram ≡ cpu.ram_size
  pub second_length : (bytes : List ℕ) → cpu.mem2 ≡ some bytes → length bytes ≡ cpu.mem2_size

pub window_bounds :
    (region : Region) (base size addr : ℕ) (place : Place)
    → in_window base size addr ≡ true
    → some (record { region = region; offset = addr - base; avail = size - (addr - base) })
      ≡ some place
    → (place.region ≡ region) × (place.offset + place.avail ≡ size)
unfolding in_window
window_bounds region base size addr place inside h =
    let same = some-injective _ place h in
    subst (λ (p : Place). (p.region ≡ region) × (p.offset + p.avail ≡ size)) same
      (refl, ground arith)

pub if_some {ℓ} :
    {A : Type ℓ} (b : Bool) (x y : Option A) {a : A}
    → (if b then x else y) ≡ some a
    → ((b ≡ true) × (x ≡ some a)) ⊎ (y ≡ some a)
if_some true x y h = inl (refl, h)
if_some false x y h = inr h

-- The place of an address and its bytes end with the memory.
pub resolve_mem2-bounds :
    (cpu : CpuState) (addr : ℕ) (place : Place)
    → resolve_mem2 cpu addr ≡ some place
    → (place.region ≡ Region.second)
      × (bytes : List ℕ) × (cpu.mem2 ≡ some bytes)
      × (place.offset + place.avail ≡ cpu.mem2_size)
unfolding resolve_mem2
resolve_mem2-bounds cpu addr place h = elim (Option-cases cpu.mem2) [
  | inl e ↦ cc (rw e at h)
  | inr (bytes, e) ↦ elim (if_some {A = Place} (cpu.mem2_size == 0) none _ (rw e at h)) [
    | inl (empty, bad) ↦ cc bad
    | inr g ↦
        elim (if_some (in_window 0x90000000 cpu.mem2_size addr)
          (place_in Region.second 0x90000000 cpu.mem2_size addr) _ g) [
            | inl (inside, at) ↦
                let (region, size) = window_bounds _ _ _ addr place inside at in
                (region, bytes, e, size)
            | inr g' ↦
                elim (if_some (in_window 0xd0000000 cpu.mem2_size addr)
                  (place_in Region.second 0xd0000000 cpu.mem2_size addr) none g') [
                    | inl (inside, at) ↦
                        let (region, size) = window_bounds _ _ _ addr place inside at in
                        (region, bytes, e, size)
                    | inr bad ↦ cc bad
                  ]
          ]
  ]
]

pub region_cases : (place : Place) → (place.region ≡ Region.main) ⊎ (place.region ≡ Region.second)
region_cases place = go place.region
  where
    go : (r : Region) → (r ≡ Region.main) ⊎ (r ≡ Region.second)
    go Region.main = inl refl
    go Region.second = inr refl

pub resolve_addr-bounds :
    (cpu : CpuState) (addr : ℕ) (place : Place)
    → resolve_addr cpu addr ≡ some place
    → ((place.region ≡ Region.main) × (place.offset + place.avail ≡ cpu.ram_size))
      ⊎ ((place.region ≡ Region.second)
          × (bytes : List ℕ) × (cpu.mem2 ≡ some bytes)
          × (place.offset + place.avail ≡ cpu.mem2_size))
unfolding resolve_addr
resolve_addr-bounds cpu addr place h =
    elim (if_some (in_window 0x80000000 cpu.ram_size addr)
      (place_in Region.main 0x80000000 cpu.ram_size addr) _ h) [
        | inl (inside, at) ↦ inl (window_bounds _ _ _ addr place inside at)
        | inr g ↦
            elim (if_some (in_window 0xc0000000 cpu.ram_size addr)
              (place_in Region.main 0xc0000000 cpu.ram_size addr) _ g) [
                | inl (inside, at) ↦ inl (window_bounds _ _ _ addr place inside at)
                | inr g' ↦ inr (resolve_mem2-bounds cpu addr place g')
              ]
      ]

-- In memories of the right length a place has the bytes that are said to be there.
pub place_fits :
    (cpu : CpuState) (addr : ℕ) (place : Place)
    → IsSized cpu
    → resolve_addr cpu addr ≡ some place
    → place.offset + place.avail ≤ length (bytes_of cpu place.region)
unfolding bytes_of
place_fits cpu addr place sized h = elim (resolve_addr-bounds cpu addr place h) [
  | inl (region, size) ↦ rw region (omega (arith, sized.main_length))
  | inr (region, bytes, e, size) ↦ rw region (rw e (omega (arith, sized.second_length bytes e)))
]
