-- ===== src/Cpu/ReadBack.antt =====
-- src/cpu/cpu.c: what is written to the memory is read back, at each address of the place.
use dol_recomp.Base.{
  ℕ, ◌%◌, ◌^◌, ◌≤◌, ◌<◌, ltb, u8, u16, u32, ◌≡◌, refl, ap, sym, subst, ◌∙◌, inl, inr, List, some,
  Bool-cases, length, get_or, get_or-set_if, set, read_be16, read_be32, read_be64, write_be16,
  write_be32, write_be64, arith,
}
use dol_recomp.Base.Memory.{read_be16-write_be16, read_be32-write_be32, read_be64-write_be64}
use dol_recomp.Cpu.State.{CpuState, Callbacks}
use dol_recomp.Cpu.Memory.{
  Place, resolve_addr, resolve_access, bytes_of, store_at, mem_read64, mem_write64, mem_read32,
  mem_write32, mem_read16, mem_write16, mem_read8, mem_write8,
}
use dol_recomp.Cpu.Bounds.{IsSized, place_fits}
use dol_recomp.Cpu.Stored.{resolve-store_at, bytes_of-store_at}

pub resolve_access-eq :
    (cpu : CpuState) (addr size : ℕ) (place : Place)
    → resolve_addr cpu addr ≡ some place
    → size ≤ place.avail
    → resolve_access cpu addr size ≡ some place
unfolding resolve_access
resolve_access-eq cpu addr size place h enough =
    rw (h, resolve_access)
      (elim (Bool-cases (ltb place.avail size)) [
        | inl bad ↦ absurd (ground arith)
        | inr ok ↦ rw ok refl
      ])

-- The bytes of a state after a write, at the place.
pub stored :
    (callbacks : Callbacks) (cpu : CpuState) (addr size other : ℕ) (place : Place)
    (store : List ℕ → ℕ → List ℕ) (load : List ℕ → ℕ → ℕ) (value : ℕ)
    → load (store (bytes_of cpu place.region) place.offset) place.offset ≡ value
    → load (bytes_of (store_at callbacks cpu addr size place store) place.region) place.offset
      ≡ value
stored callbacks cpu addr size other place store load value h =
    ap (λ (b : List ℕ). load b place.offset) (bytes_of-store_at callbacks cpu addr size place store)
    ∙ h

pub write_16 :
    (callbacks : Callbacks) (cpu : CpuState) (addr value : ℕ) (place : Place)
    → resolve_addr cpu addr ≡ some place
    → 2 ≤ place.avail
    → mem_write16 callbacks cpu addr value
      ≡ store_at callbacks cpu addr 2 place (λ bytes offset. write_be16 bytes offset value)
unfolding mem_write16
write_16 callbacks cpu addr value place h enough =
    rw (resolve_access-eq cpu addr 2 place h enough, mem_write16) refl

pub read_16 :
    (callbacks : Callbacks) (cpu : CpuState) (addr : ℕ) (place : Place)
    → resolve_addr cpu addr ≡ some place
    → 2 ≤ place.avail
    → mem_read16 callbacks cpu addr ≡ (cpu, read_be16 (bytes_of cpu place.region) place.offset)
unfolding mem_read16
read_16 callbacks cpu addr place h enough =
    rw (resolve_access-eq cpu addr 2 place h enough, mem_read16) refl

pub mem_read16-mem_write16 :
    (callbacks : Callbacks) (cpu : CpuState) (addr other value : ℕ) (place : Place)
    → IsSized cpu
    → resolve_addr cpu addr ≡ some place
    → resolve_addr cpu other ≡ some place
    → 2 ≤ place.avail
    → value < 2 ^ 16
    → mem_read16 callbacks (mem_write16 callbacks cpu addr value) other
      ≡ (mem_write16 callbacks cpu addr value, value)
mem_read16-mem_write16 callbacks cpu addr other value place sized here there enough lt =
    let store : List ℕ → ℕ → List ℕ = (λ bytes offset. write_be16 bytes offset value) in
    let fits = place_fits cpu addr place sized here in
    subst (λ (s : CpuState). mem_read16 callbacks s other ≡ (s, value))
      (sym (write_16 callbacks cpu addr value place here enough))
      (read_16 callbacks _ other place
          (resolve-store_at callbacks cpu addr 2 other place store there) enough
        ∙ ap (λ (v : ℕ). (store_at callbacks cpu addr 2 place store, v))
            (stored callbacks cpu addr 2 other place store read_be16 value (
              read_be16-write_be16 (bytes_of cpu place.region) place.offset value (omega arith)
                lt)))

pub write_32 :
    (callbacks : Callbacks) (cpu : CpuState) (addr value : ℕ) (place : Place)
    → resolve_addr cpu addr ≡ some place
    → 4 ≤ place.avail
    → mem_write32 callbacks cpu addr value
      ≡ store_at callbacks cpu addr 4 place (λ bytes offset. write_be32 bytes offset value)
unfolding mem_write32
write_32 callbacks cpu addr value place h enough =
    rw (resolve_access-eq cpu addr 4 place h enough, mem_write32) refl

pub read_32 :
    (callbacks : Callbacks) (cpu : CpuState) (addr : ℕ) (place : Place)
    → resolve_addr cpu addr ≡ some place
    → 4 ≤ place.avail
    → mem_read32 callbacks cpu addr ≡ (cpu, read_be32 (bytes_of cpu place.region) place.offset)
unfolding mem_read32
read_32 callbacks cpu addr place h enough =
    rw (resolve_access-eq cpu addr 4 place h enough, mem_read32) refl

pub mem_read32-mem_write32 :
    (callbacks : Callbacks) (cpu : CpuState) (addr other value : ℕ) (place : Place)
    → IsSized cpu
    → resolve_addr cpu addr ≡ some place
    → resolve_addr cpu other ≡ some place
    → 4 ≤ place.avail
    → value < 2 ^ 32
    → mem_read32 callbacks (mem_write32 callbacks cpu addr value) other
      ≡ (mem_write32 callbacks cpu addr value, value)
mem_read32-mem_write32 callbacks cpu addr other value place sized here there enough lt =
    let store : List ℕ → ℕ → List ℕ = (λ bytes offset. write_be32 bytes offset value) in
    let fits = place_fits cpu addr place sized here in
    subst (λ (s : CpuState). mem_read32 callbacks s other ≡ (s, value))
      (sym (write_32 callbacks cpu addr value place here enough))
      (read_32 callbacks _ other place
          (resolve-store_at callbacks cpu addr 4 other place store there) enough
        ∙ ap (λ (v : ℕ). (store_at callbacks cpu addr 4 place store, v))
            (stored callbacks cpu addr 4 other place store read_be32 value (
              read_be32-write_be32 (bytes_of cpu place.region) place.offset value (omega arith)
                lt)))

pub write_64 :
    (callbacks : Callbacks) (cpu : CpuState) (addr value : ℕ) (place : Place)
    → resolve_addr cpu addr ≡ some place
    → 8 ≤ place.avail
    → mem_write64 callbacks cpu addr value
      ≡ store_at callbacks cpu addr 8 place (λ bytes offset. write_be64 bytes offset value)
unfolding mem_write64
write_64 callbacks cpu addr value place h enough =
    rw (resolve_access-eq cpu addr 8 place h enough, mem_write64) refl

pub read_64 :
    (callbacks : Callbacks) (cpu : CpuState) (addr : ℕ) (place : Place)
    → resolve_addr cpu addr ≡ some place
    → 8 ≤ place.avail
    → mem_read64 callbacks cpu addr ≡ (cpu, read_be64 (bytes_of cpu place.region) place.offset)
unfolding mem_read64
read_64 callbacks cpu addr place h enough =
    rw (resolve_access-eq cpu addr 8 place h enough, mem_read64) refl

pub mem_read64-mem_write64 :
    (callbacks : Callbacks) (cpu : CpuState) (addr other value : ℕ) (place : Place)
    → IsSized cpu
    → resolve_addr cpu addr ≡ some place
    → resolve_addr cpu other ≡ some place
    → 8 ≤ place.avail
    → value < 2 ^ 64
    → mem_read64 callbacks (mem_write64 callbacks cpu addr value) other
      ≡ (mem_write64 callbacks cpu addr value, value)
mem_read64-mem_write64 callbacks cpu addr other value place sized here there enough lt =
    let store : List ℕ → ℕ → List ℕ = (λ bytes offset. write_be64 bytes offset value) in
    let fits = place_fits cpu addr place sized here in
    subst (λ (s : CpuState). mem_read64 callbacks s other ≡ (s, value))
      (sym (write_64 callbacks cpu addr value place here enough))
      (read_64 callbacks _ other place
          (resolve-store_at callbacks cpu addr 8 other place store there) enough
        ∙ ap (λ (v : ℕ). (store_at callbacks cpu addr 8 place store, v))
            (stored callbacks cpu addr 8 other place store read_be64 value (
              read_be64-write_be64 (bytes_of cpu place.region) place.offset value (omega arith)
                lt)))

pub byte_read : (xs : List ℕ) (i v : ℕ) → i < length xs → get_or (set xs i v) i 0 ≡ v
byte_read xs i v h = let e = get_or-set_if xs i i v in ground arith

pub write_8 :
    (callbacks : Callbacks) (cpu : CpuState) (addr value : ℕ) (place : Place)
    → resolve_addr cpu addr ≡ some place
    → mem_write8 callbacks cpu addr value
      ≡ store_at callbacks cpu addr 1 place (λ bytes offset. set bytes offset value)
unfolding mem_write8
write_8 callbacks cpu addr value place h = rw (h, mem_write8) refl

pub read_8 :
    (callbacks : Callbacks) (cpu : CpuState) (addr : ℕ) (place : Place)
    → resolve_addr cpu addr ≡ some place
    → mem_read8 callbacks cpu addr ≡ (cpu, get_or (bytes_of cpu place.region) place.offset 0)
unfolding mem_read8
read_8 callbacks cpu addr place h = rw (h, mem_read8) refl

pub mem_read8-mem_write8 :
    (callbacks : Callbacks) (cpu : CpuState) (addr other value : ℕ) (place : Place)
    → IsSized cpu
    → resolve_addr cpu addr ≡ some place
    → resolve_addr cpu other ≡ some place
    → 1 ≤ place.avail
    → mem_read8 callbacks (mem_write8 callbacks cpu addr value) other
      ≡ (mem_write8 callbacks cpu addr value, value)
mem_read8-mem_write8 callbacks cpu addr other value place sized here there enough =
    let store : List ℕ → ℕ → List ℕ = (λ bytes offset. set bytes offset value) in
    let fits = place_fits cpu addr place sized here in
    subst (λ (s : CpuState). mem_read8 callbacks s other ≡ (s, value))
      (sym (write_8 callbacks cpu addr value place here))
      (read_8 callbacks _ other place
          (resolve-store_at callbacks cpu addr 1 other place store there)
        ∙ ap (λ (v : ℕ). (store_at callbacks cpu addr 1 place store, v))
            (stored callbacks cpu addr 1 other place store (λ b i. get_or b i 0) value
              (byte_read (bytes_of cpu place.region) place.offset value (omega arith))))

-- Where an address has eight bytes, each of the writes at it followed by the read of its size, at
-- the same address or another of the same place, gives the value written and changes no more.
pub mem_read-mem_write :
    (callbacks : Callbacks) (cpu : CpuState) (addr other value : ℕ) (place : Place)
    → IsSized cpu
    → resolve_addr cpu addr ≡ some place
    → resolve_addr cpu other ≡ some place
    → 8 ≤ place.avail
    → (mem_read8 callbacks (mem_write8 callbacks cpu addr (u8 value)) other
        ≡ (mem_write8 callbacks cpu addr (u8 value), u8 value))
      × (mem_read16 callbacks (mem_write16 callbacks cpu addr (u16 value)) other
          ≡ (mem_write16 callbacks cpu addr (u16 value), u16 value))
      × (mem_read32 callbacks (mem_write32 callbacks cpu addr (u32 value)) other
          ≡ (mem_write32 callbacks cpu addr (u32 value), u32 value))
      × (mem_read64 callbacks (mem_write64 callbacks cpu addr (value % 2 ^ 64)) other
          ≡ (mem_write64 callbacks cpu addr (value % 2 ^ 64), value % 2 ^ 64))
mem_read-mem_write callbacks cpu addr other value place sized here there enough = (
  mem_read8-mem_write8 callbacks cpu addr other (u8 value) place sized here there (omega arith),
  mem_read16-mem_write16 callbacks cpu addr other (u16 value) place sized here there (omega arith)
      (omega arith),
  mem_read32-mem_write32 callbacks cpu addr other (u32 value) place sized here there (omega arith)
      (omega arith),
  mem_read64-mem_write64 callbacks cpu addr other (value % 2 ^ 64) place sized here there enough
      (omega arith),
)
