-- ===== src/Ir/Classify.antt =====
-- src/ir/dolir_address.c: what an address, and a range of addresses, belongs to.
use dol_recomp.Base.{ℕ, ◌+◌, ◌-◌, ◌*◌, ◌==◌, ltb, leb, bit_and, Bool, not, ◌&&◌, if◌then◌else◌}
use dol_recomp.Cpu.Memory.{gc_ram_base, wii_mem2_base}
use dol_recomp.Ir.Types.{DolIrAddressDomain}

abbrev pub gc_main_ram_size : ℕ
gc_main_ram_size = 24 * 1024 * 1024

abbrev pub wii_mem2_size : ℕ
wii_mem2_size = 64 * 1024 * 1024

unfoldable pub classify_address : ℕ → DolIrAddressDomain
classify_address address =
    let normalized = bit_and address 0xbfffffff in
    if leb 0xcc008000 address && ltb address 0xcc009000
    then DolIrAddressDomain.fifo
    else if leb 0xcc000000 address && ltb address 0xce000000
    then DolIrAddressDomain.mmio
    else if leb gc_ram_base normalized && ltb normalized (gc_ram_base + gc_main_ram_size)
    then DolIrAddressDomain.mem1
    else if leb wii_mem2_base normalized && ltb normalized (wii_mem2_base + wii_mem2_size)
    then DolIrAddressDomain.mem2
    else if ltb address gc_ram_base
    then DolIrAddressDomain.physical
    else if ltb address 0xe0000000
    then DolIrAddressDomain.guest_data
    else DolIrAddressDomain.unknown

unfoldable pub range_in_window : ℕ → ℕ → ℕ → ℕ → Bool
range_in_window lower upper base size =
    not (size == 0)
    && (leb base lower && (leb lower upper && (ltb (lower - base) size && ltb (upper - base) size)))

-- The rounds of the loop: the cached and the uncached windows.
unfoldable pub classify_range : ℕ → ℕ → DolIrAddressDomain
classify_range lower upper =
    if lower == upper
    then classify_address lower
    else if range_in_window lower upper gc_ram_base gc_main_ram_size
    then DolIrAddressDomain.mem1
    else if range_in_window lower upper wii_mem2_base wii_mem2_size
    then DolIrAddressDomain.mem2
    else if range_in_window lower upper 0xc0000000 gc_main_ram_size
    then DolIrAddressDomain.mem1
    else if range_in_window lower upper 0xd0000000 wii_mem2_size
    then DolIrAddressDomain.mem2
    else DolIrAddressDomain.unknown
