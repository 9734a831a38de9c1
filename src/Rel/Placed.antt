-- ===== src/Rel/Placed.antt =====
-- src/frontend/container/rel.c: where `rel_load_image` puts the sections of a module.
use dol_recomp.Base.{
  ℕ, zero, suc, ◌+◌, ◌*◌, ◌-◌, ◌/◌, ◌%◌, ◌^◌, ◌≤◌, ◌<◌, ◌==◌, u32, low_bits, ◌≡◌, ◌⊎◌, refl, ap,
  sym, subst, ◌∙◌, inl, inr, Bool, true, false, not, ◌&&◌, ◌||◌, if◌then◌else◌, List, [], ◌∷◌, none,
  some, some-injective, Bool-cases, length, take, drop, read_be32, arith,
}
use dol_recomp.Base.Maybe.{guard-eq-some, >>=-eq-some}
use dol_recomp.Dol.Layout.{range_fits}
use dol_recomp.Rel.File.{RelSection, align_up_u32, add_u32_checked}
use dol_recomp.Rel.Load.{Placed, blank_section, place_bss, place_data, load_section, load_sections}

-- A section of a module at an address: one that is empty, one without data, which takes a part of
-- the addresses from `bss_cursor` up to `next_cursor`, or one whose data are a part of the file.
pub record IsPlaced (contents : List ℕ) (base_address bss_cursor next_cursor i : ℕ) (s : RelSection)
    : Type 0 where
  pub index : s.index ≡ i
  pub cursor_le : bss_cursor ≤ next_cursor
  pub place :
      ((s.size ≡ 0) × (s.owned_data ≡ none))
      ⊎ (((s.bss ≡ true)
            × (s.owned_data ≡ none)
            × (bss_cursor ≤ s.address)
            × (s.address + s.size ≤ next_cursor)
            × (s.address + s.size < 2 ^ 32))
          ⊎ ((s.bss ≡ false)
              × (s.address ≡ base_address + s.offset)
              × (s.address < 2 ^ 32)
              × (s.offset + s.size ≤ length contents)
              × (s.owned_data ≡ some (take s.size (drop s.offset contents)))
              × ((s.executable ≡ false) ⊎ ((s.size % 4 ≡ 0) × (s.offset % 4 ≡ 0)))))

-- Sections from index `i` on, one after the other: those without data do not overlap.
unfoldable pub ArePlaced : List ℕ → ℕ → ℕ → ℕ → List RelSection → Type 0
ArePlaced contents base_address bss_cursor i [] = Unit
ArePlaced contents base_address bss_cursor i (s ∷ sections) =
    (next_cursor : ℕ) × IsPlaced contents base_address bss_cursor next_cursor i s
    × ArePlaced contents base_address next_cursor (suc i) sections

pub align_up_u32-le :
    (value alignment result : ℕ)
    → align_up_u32 value alignment ≡ some result
    → value < 2 ^ 32
    → (value ≤ result) × (result < 2 ^ 32)
unfolding align_up_u32
align_up_u32-le value alignment result h small = grind (
  arith,
  some-injective ((value + alignment - 1) / alignment * alignment) result,
  some-injective value result,
)

pub add_u32_checked-eq :
    (a b c : ℕ) → a < 2 ^ 32 → add_u32_checked a b ≡ some c → (a + b ≡ c) × (c < 2 ^ 32)
unfolding add_u32_checked
add_u32_checked-eq a b c small h = ground (arith, some-injective (a + b) c)

place_bss_lem :
    (section : RelSection) (alignment bss_cursor : ℕ) (placed : Placed)
    → bss_cursor < 2 ^ 32
    → place_bss section alignment bss_cursor ≡ some placed
    → (placed.section ≡ record section { address = bss_cursor })
      × (bss_cursor + section.size < 2 ^ 32)
      × (bss_cursor + section.size ≤ placed.bss_cursor)
      × (placed.bss_cursor < 2 ^ 32)
unfolding place_bss
place_bss_lem section alignment bss_cursor placed small h1 =
    let (end, summed, h2) = >>=-eq-some (add_u32_checked bss_cursor section.size) _ h1 in
    let (aligned, up, h3) = >>=-eq-some (align_up_u32 end alignment) _ h2 in
    let (total, bound) = add_u32_checked-eq bss_cursor section.size end small summed in
    let (above, below) = align_up_u32-le end alignment aligned up bound in
    let same = some-injective _ placed h3 in
    (
      sym (ap (λ (q : Placed). q.section) same),
      omega arith,
      subst (λ x. bss_cursor + section.size ≤ x) (ap (λ (q : Placed). q.bss_cursor) same)
          (omega arith),
      subst (λ x. x < 2 ^ 32) (ap (λ (q : Placed). q.bss_cursor) same) below,
    )

data_fits :
    (offset size total : ℕ) → range_fits offset size (u32 total) ≡ true → offset + size ≤ total
unfolding range_fits
data_fits offset size total h = ground arith

instruction_aligned :
    (s : RelSection)
    → not (s.executable && (not (low_bits s.size 2 == 0) || not (low_bits s.offset 2 == 0))) ≡ true
    → (s.executable ≡ false) ⊎ ((s.size % 4 ≡ 0) × (s.offset % 4 ≡ 0))
instruction_aligned s h = ground arith

place_data_lem :
    (contents : List ℕ) (base_address : ℕ) (allocated : Bool) (section : RelSection)
    (bss_cursor : ℕ) (placed : Placed)
    → base_address < 2 ^ 32
    → place_data contents base_address allocated section bss_cursor ≡ some placed
    → (placed.section ≡ record section {
      address = base_address + section.offset;
      owned_data = some (take section.size (drop section.offset contents));
    })
      × (base_address + section.offset < 2 ^ 32)
      × (section.offset + section.size ≤ length contents)
      × ((section.executable ≡ false) ⊎ ((section.size % 4 ≡ 0) × (section.offset % 4 ≡ 0)))
      × (placed.bss_cursor ≡ bss_cursor)
unfolding place_data
place_data_lem contents base_address allocated section bss_cursor placed small h1 =
    let (fits, h2) =
      guard-eq-some (range_fits section.offset section.size (u32 (length contents))) _ h1 in
    let (aligned, h3) = guard-eq-some _ _ h2 in
    let (address, summed, h4) = >>=-eq-some (add_u32_checked base_address section.offset) _ h3 in
    let (present, h5) = guard-eq-some allocated _ h4 in
    let (total, bound) = add_u32_checked-eq base_address section.offset address small summed in
    let same = some-injective _ placed h5 in
    (
      sym (ap (λ (q : Placed). q.section) same)
          ∙ ap
              (λ (a : ℕ). record section {
                address = a;
                owned_data = some (take section.size (drop section.offset contents));
              })
              (sym total),
      omega arith,
      data_fits (section.offset) (section.size) (length contents) fits,
      instruction_aligned section aligned,
      sym (ap (λ (q : Placed). q.bss_cursor) same),
    )

pub if_true {ℓ} :
    {A : Type ℓ} {b : Bool} (x y : A) {z : A} → b ≡ true → (if b then x else y) ≡ z → x ≡ z
if_true x y {z} e h = subst (λ c. (if c then x else y) ≡ z) e h

pub if_false {ℓ} :
    {A : Type ℓ} {b : Bool} (x y : A) {z : A} → b ≡ false → (if b then x else y) ≡ z → y ≡ z
if_false x y {z} e h = subst (λ c. (if c then x else y) ≡ z) e h

pub load_section-IsPlaced :
    (contents : List ℕ) (base_address alignment : ℕ) (allocated : Bool)
    (i raw_offset size bss_cursor : ℕ) (placed : Placed)
    → base_address < 2 ^ 32
    → bss_cursor < 2 ^ 32
    → load_section contents base_address alignment allocated i raw_offset size bss_cursor
      ≡ some placed
    → IsPlaced contents base_address bss_cursor placed.bss_cursor i placed.section
      × (placed.bss_cursor < 2 ^ 32)
unfolding load_section
load_section-IsPlaced contents base_address alignment allocated i raw_offset size bss_cursor placed
      low small h =
    elim (Bool-cases (size == 0)) [
      | inl empty ↦
          subst
            (λ (q : Placed).
              IsPlaced contents base_address bss_cursor q.bss_cursor i q.section
              × (q.bss_cursor < 2 ^ 32))
            (some-injective _ placed (if_true _ _ empty h))
            (
              record { index = refl; cursor_le = omega arith; place = inl (ground arith, refl) },
              small,
            )
      | inr full ↦ elim (Bool-cases (blank_section i raw_offset size).bss) [
        | inl bss ↦
            let (same, bound, above, below) =
              place_bss_lem _ alignment bss_cursor placed small
                (if_true _ _ bss (if_false _ _ full h)) in
            (
              subst
                  (λ (s : RelSection).
                    IsPlaced contents base_address bss_cursor placed.bss_cursor i s)
                  (sym same)
                  (record {
                    index = refl;
                    cursor_le = omega arith;
                    place = inr (inl (bss, refl, omega arith, above, bound));
                  }),
              below,
            )
        | inr kept ↦
            let (same, bound, fits, aligned, cursor) =
              place_data_lem contents base_address allocated _ bss_cursor placed low
                (if_false _ _ kept (if_false _ _ full h)) in
            (
              subst
                  (λ (s : RelSection).
                    IsPlaced contents base_address bss_cursor placed.bss_cursor i s)
                  (sym same)
                  (record {
                    index = refl;
                    cursor_le = omega (arith, cursor);
                    place = inr (inr (kept, refl, bound, fits, refl, aligned));
                  }),
              omega (arith, cursor),
            )
      ]
    ]

pub load_sections-ArePlaced :
    (allocated : ℕ → Bool) (contents : List ℕ)
    (base_address alignment table i rounds bss_cursor : ℕ) (loaded : List RelSection × ℕ)
    → base_address < 2 ^ 32
    → bss_cursor < 2 ^ 32
    → load_sections allocated contents base_address alignment table i rounds bss_cursor
      ≡ some loaded
    → (length loaded.0 ≡ rounds) × ArePlaced contents base_address bss_cursor i loaded.0
unfolding load_sections ArePlaced
load_sections-ArePlaced allocated contents base_address alignment table i zero bss_cursor loaded low
      small h =
    subst
      (λ (q : List RelSection × ℕ).
        (length q.0 ≡ 0) × ArePlaced contents base_address bss_cursor i q.0)
      (some-injective _ loaded h) (refl, tt)
load_sections-ArePlaced allocated contents base_address alignment table i (suc rounds) bss_cursor
      loaded low small h1 =
    let (placed, e, h2) =
      >>=-eq-some
        (load_section contents base_address alignment (allocated i) i
          (read_be32 contents (table + i * 8)) (read_be32 contents (table + i * 8 + 4)) bss_cursor)
        _ h1 in
    let (rest, e', h3) =
      >>=-eq-some
        (load_sections allocated contents base_address alignment table (suc i) rounds
          placed.bss_cursor)
        _ h2 in
    let (here, below) =
      load_section-IsPlaced contents base_address alignment (allocated i) i _ _ bss_cursor placed
        low small e in
    let (count, there) =
      load_sections-ArePlaced allocated contents base_address alignment table (suc i) rounds
        placed.bss_cursor rest low below e' in
    subst
      (λ (q : List RelSection × ℕ).
        (length q.0 ≡ suc rounds) × ArePlaced contents base_address bss_cursor i q.0)
      (some-injective _ loaded h3) (ap suc count, (placed.bss_cursor, here, there))
