-- ===== src/Cpu/Memory.antt =====
-- src/cpu/cpu.c: the memory of the processor. Warnings to stderr are left out.
use dol_recomp.Base.{
  ℕ, ◌+◌, ◌-◌, ◌==◌, ltb, leb, u8, u16, u32, bit_and, bit_xor, Bool, false, ◌&&◌, if◌then◌else◌,
  List, [], ◌∷◌, Option, none, some, get_or, set, read_be16, read_be32, read_be64, write_be16,
  write_be32, write_be64,
}
use dol_recomp.Cpu.State.{CpuState, Callbacks}

abbrev pub gc_ram_base : ℕ
gc_ram_base = 0x80000000

abbrev pub gc_ram_uncached : ℕ
gc_ram_uncached = 0xc0000000

abbrev pub wii_mem2_base : ℕ
wii_mem2_base = 0x90000000

abbrev pub wii_mem2_uncached : ℕ
wii_mem2_uncached = 0xd0000000

-- Which allocation a pointer points into.
pub data Region : Type 0 where
  main : Region
  second : Region

-- The pointer that `resolve_addr` returns, and `*avail`.
pub record Place : Type 0 where
  pub region : Region
  pub offset : ℕ
  pub avail : ℕ

unfoldable pub in_window : ℕ → ℕ → ℕ → Bool
in_window base size addr = leb base addr && ltb addr (u32 (base + size))

abbrev pub place_in : Region → ℕ → ℕ → ℕ → Option Place
place_in region base size addr =
    some (record { region = region; offset = addr - base; avail = size - (addr - base) })

-- The windows of the second memory, which may be null.
unfoldable pub resolve_mem2 : CpuState → ℕ → Option Place
resolve_mem2 cpu addr = elim cpu.mem2 [
  | none ↦ none
  | some bytes ↦
      if cpu.mem2_size == 0
      then none
      else if in_window wii_mem2_base cpu.mem2_size addr
      then place_in Region.second wii_mem2_base cpu.mem2_size addr
      else if in_window wii_mem2_uncached cpu.mem2_size addr
      then place_in Region.second wii_mem2_uncached cpu.mem2_size addr
      else none
]

unfoldable pub resolve_addr : CpuState → ℕ → Option Place
resolve_addr cpu addr =
    if in_window gc_ram_base cpu.ram_size addr
    then place_in Region.main gc_ram_base cpu.ram_size addr
    else if in_window gc_ram_uncached cpu.ram_size addr
    then place_in Region.main gc_ram_uncached cpu.ram_size addr
    else resolve_mem2 cpu addr

-- The place of an access, where `avail` is at least its size.
unfoldable pub resolve_access : CpuState → ℕ → ℕ → Option Place
resolve_access cpu addr size = elim (resolve_addr cpu addr) [
  | none ↦ none
  | some place ↦ if ltb place.avail size then none else some place
]

unfoldable pub clear_matching_reservation : CpuState → ℕ → CpuState
clear_matching_reservation cpu addr =
    let reserve_addr = bit_and cpu.reserve_addr 0xbfffffff in
    let store_addr = bit_and addr 0xbfffffff in
    if cpu.reserve_valid && (bit_and (bit_xor reserve_addr store_addr) 0xffffffe0 == 0)
    then record cpu { reserve_valid = false }
    else cpu

unfoldable pub bytes_of : CpuState → Region → List ℕ
bytes_of cpu Region.main = cpu.ram
bytes_of cpu Region.second = elim cpu.mem2 [ none ↦ [] | some bytes ↦ bytes ]

unfoldable pub with_bytes : CpuState → Region → List ℕ → CpuState
with_bytes cpu Region.main bytes = record cpu { ram = bytes }
with_bytes cpu Region.second bytes = record cpu { mem2 = some bytes }

-- The call of the journal, for the main memory.
unfoldable pub note_write : Callbacks → CpuState → Place → ℕ → CpuState
note_write callbacks cpu place size = elim place.region [
  | Region.main ↦
      if callbacks.journaled
      then record cpu { journal = (place.offset, size) ∷ cpu.journal }
      else cpu
  | Region.second ↦ cpu
]

-- What a write does at a place.
unfoldable pub store_at : Callbacks → CpuState → ℕ → ℕ → Place → (List ℕ → ℕ → List ℕ) → CpuState
store_at callbacks cpu addr size place store =
    let noted = note_write callbacks (clear_matching_reservation cpu addr) place size in
    with_bytes noted place.region (store (bytes_of noted place.region) place.offset)

-- What an access does at an address without a place.
unfoldable pub read_external : Callbacks → CpuState → ℕ → ℕ → CpuState × ℕ
read_external callbacks cpu addr size = elim callbacks.external_read [
  | none ↦ (cpu, 0)
  | some read ↦ read cpu addr size
]

unfoldable pub write_external : Callbacks → CpuState → ℕ → ℕ → ℕ → CpuState
write_external callbacks cpu addr value size = elim callbacks.external_write [
  | none ↦ cpu
  | some write ↦ write cpu addr value size
]

unfoldable pub mem_read64 : Callbacks → CpuState → ℕ → CpuState × ℕ
mem_read64 callbacks cpu addr = elim (resolve_access cpu addr 8) [
  | none ↦ read_external callbacks cpu addr 8
  | some place ↦ (cpu, read_be64 (bytes_of cpu place.region) place.offset)
]

unfoldable pub mem_write64 : Callbacks → CpuState → ℕ → ℕ → CpuState
mem_write64 callbacks cpu addr value = elim (resolve_access cpu addr 8) [
  | none ↦ write_external callbacks cpu addr value 8
  | some place ↦ store_at callbacks cpu addr 8 place (λ bytes offset. write_be64 bytes offset value)
]

unfoldable pub mem_read32 : Callbacks → CpuState → ℕ → CpuState × ℕ
mem_read32 callbacks cpu addr = elim (resolve_access cpu addr 4) [
  | none ↦ let (next, value) = read_external callbacks cpu addr 4 in (next, u32 value)
  | some place ↦ (cpu, read_be32 (bytes_of cpu place.region) place.offset)
]

unfoldable pub mem_write32 : Callbacks → CpuState → ℕ → ℕ → CpuState
mem_write32 callbacks cpu addr value = elim (resolve_access cpu addr 4) [
  | none ↦ write_external callbacks cpu addr value 4
  | some place ↦ store_at callbacks cpu addr 4 place (λ bytes offset. write_be32 bytes offset value)
]

unfoldable pub mem_read16 : Callbacks → CpuState → ℕ → CpuState × ℕ
mem_read16 callbacks cpu addr = elim (resolve_access cpu addr 2) [
  | none ↦ let (next, value) = read_external callbacks cpu addr 2 in (next, u16 value)
  | some place ↦ (cpu, read_be16 (bytes_of cpu place.region) place.offset)
]

unfoldable pub mem_write16 : Callbacks → CpuState → ℕ → ℕ → CpuState
mem_write16 callbacks cpu addr value = elim (resolve_access cpu addr 2) [
  | none ↦ write_external callbacks cpu addr value 2
  | some place ↦ store_at callbacks cpu addr 2 place (λ bytes offset. write_be16 bytes offset value)
]

unfoldable pub mem_read8 : Callbacks → CpuState → ℕ → CpuState × ℕ
mem_read8 callbacks cpu addr = elim (resolve_addr cpu addr) [
  | none ↦ let (next, value) = read_external callbacks cpu addr 1 in (next, u8 value)
  | some place ↦ (cpu, get_or (bytes_of cpu place.region) place.offset 0)
]

unfoldable pub mem_write8 : Callbacks → CpuState → ℕ → ℕ → CpuState
mem_write8 callbacks cpu addr value = elim (resolve_addr cpu addr) [
  | none ↦ write_external callbacks cpu addr value 1
  | some place ↦ store_at callbacks cpu addr 1 place (λ bytes offset. set bytes offset value)
]
