-- ===== src/Cpu/Stored.antt =====
-- src/cpu/cpu.c: the state after a write to the memory.
use dol_recomp.Base.{
  ℕ, ◌==◌, ◌≡◌, refl, ap, sym, ◌∙◌, inl, inr, Bool, true, false, not, ◌&&◌, if◌then◌else◌, List,
  ◌∷◌, Option, some, Bool-cases, bit_and, bit_xor,
}
use dol_recomp.Cpu.State.{CpuState, Callbacks}
use dol_recomp.Cpu.Memory.{
  Region, Place, resolve_mem2, resolve_addr, clear_matching_reservation, bytes_of, with_bytes,
  note_write, store_at,
}
use dol_recomp.Cpu.Bounds.{region_cases, resolve_addr-bounds}

-- Whether a store meets the reservation.
abbrev pub same_line : CpuState → ℕ → Bool
same_line cpu addr =
    bit_and (bit_xor (bit_and cpu.reserve_addr 0xbfffffff) (bit_and addr 0xbfffffff)) 0xffffffe0
    == 0

pub clear_if :
    (cpu : CpuState) (valid line : Bool)
    → cpu.reserve_valid ≡ valid
    → (if valid && line then record cpu { reserve_valid = false } else cpu)
      ≡ record cpu { reserve_valid = valid && not line }
clear_if cpu true true e = refl
clear_if cpu true false e = ap (λ (v : Bool). record cpu { reserve_valid = v }) e
clear_if cpu false line e = ap (λ (v : Bool). record cpu { reserve_valid = v }) e

pub clear_eq :
    (cpu : CpuState) (addr : ℕ)
    → clear_matching_reservation cpu addr
      ≡ record cpu { reserve_valid = cpu.reserve_valid && not (same_line cpu addr) }
unfolding clear_matching_reservation
clear_eq cpu addr = clear_if cpu cpu.reserve_valid (same_line cpu addr) refl

-- The journal after a write to the main memory.
abbrev pub noted : Callbacks → CpuState → ℕ → ℕ → List (ℕ × ℕ)
noted callbacks cpu offset size =
    if callbacks.journaled then (offset, size) ∷ cpu.journal else cpu.journal

pub note_main :
    (callbacks : Callbacks) (cpu : CpuState) (place : Place) (size : ℕ)
    → place.region ≡ Region.main
    → note_write callbacks cpu place size
      ≡ record cpu { journal = noted callbacks cpu place.offset size }
unfolding note_write
note_main callbacks cpu place size e = elim (Bool-cases callbacks.journaled) [
  | inl on ↦ rw e (rw on refl)
  | inr off ↦ rw e (rw off refl)
]

-- What a write leaves of the state: all but a memory, the reservation and the journal.
pub store_at-main :
    (callbacks : Callbacks) (cpu : CpuState) (addr size : ℕ) (place : Place)
    (store : List ℕ → ℕ → List ℕ)
    → place.region ≡ Region.main
    → store_at callbacks cpu addr size place store ≡ record cpu {
      reserve_valid = cpu.reserve_valid && not (same_line cpu addr);
      journal = noted callbacks cpu place.offset size;
      ram = store cpu.ram place.offset;
    }
unfolding store_at bytes_of with_bytes
store_at-main callbacks cpu addr size place store e = rw (clear_eq cpu addr) (
    rw
      (note_main callbacks
        (record cpu { reserve_valid = cpu.reserve_valid && not (same_line cpu addr) }) place size e)
      (rw e refl))

pub store_at-second :
    (callbacks : Callbacks) (cpu : CpuState) (addr size : ℕ) (place : Place)
    (store : List ℕ → ℕ → List ℕ)
    → place.region ≡ Region.second
    → store_at callbacks cpu addr size place store ≡ record cpu {
      reserve_valid = cpu.reserve_valid && not (same_line cpu addr);
      mem2 = some (store (bytes_of cpu Region.second) place.offset);
    }
unfolding store_at bytes_of with_bytes note_write
store_at-second callbacks cpu addr size place store e = rw (clear_eq cpu addr) (rw e refl)

-- The state after a write resolves each address as before.
pub resolve-store_at :
    (callbacks : Callbacks) (cpu : CpuState) (addr size other : ℕ) (place : Place)
    (store : List ℕ → ℕ → List ℕ)
    → resolve_addr cpu other ≡ some place
    → resolve_addr (store_at callbacks cpu addr size place store) other ≡ some place
unfolding resolve_addr resolve_mem2
resolve-store_at callbacks cpu addr size other place store h =
    elim (resolve_addr-bounds cpu other place h) [
      | inl (e, total) ↦ rw (store_at-main callbacks cpu addr size place store e) h
      | inr (e, bytes, at, total) ↦
          rw (store_at-second callbacks cpu addr size place store e) (
            sym (ap (λ (m : Option (List ℕ)). resolve_addr (record cpu { mem2 = m }) other) at) ∙ h)
    ]

pub bytes_of-store_at :
    (callbacks : Callbacks) (cpu : CpuState) (addr size : ℕ) (place : Place)
    (store : List ℕ → ℕ → List ℕ)
    → bytes_of (store_at callbacks cpu addr size place store) place.region
      ≡ store (bytes_of cpu place.region) place.offset
unfolding bytes_of
bytes_of-store_at callbacks cpu addr size place store = elim (region_cases place) [
  | inl e ↦ rw (store_at-main callbacks cpu addr size place store e) (rw e refl)
  | inr e ↦ rw (store_at-second callbacks cpu addr size place store e) (rw e refl)
]
