-- ===== src/Dol/Valid.antt =====
-- What src/frontend/container/dol.c accepts, and what its clients may then read.
use dol_recomp.Base.{
  ℕ, zero, suc, ◌+◌, ◌%◌, ◌≤◌, ◌<◌, ◌==◌, ◌≡◌, refl, subst, ◌↔◌, ◌⊎◌, inl, inr, Bool, true, false,
  if◌then◌else◌, Bool-cases, some, some-injective, get_or, arith,
}
use dol_recomp.Dol.File.{DolFile}
use dol_recomp.Dol.Layout.{
  range_fits, address_in_range, validate_section_range, validate_text, validate_data,
  validate_dol_layout,
}

-- A section is empty or lies inside the file.
abbrev pub Inside : ℕ → ℕ → ℕ → Type 0
Inside offset size file_size = (size ≡ 0) ⊎ (offset + size ≤ file_size)

abbrev pub TextFits : DolFile → ℕ → Type 0
TextFits dol i =
    Inside (get_or dol.header.text_offsets i 0) (get_or dol.header.text_sizes i 0) dol.file_size
    × (get_or dol.header.text_sizes i 0 % 4 ≡ 0)

abbrev pub DataFits : DolFile → ℕ → Type 0
DataFits dol i =
    Inside (get_or dol.header.data_offsets i 0) (get_or dol.header.data_sizes i 0) dol.file_size

-- The entry point lies in a text section, as that is loaded.
abbrev pub HasEntry : DolFile → ℕ → Type 0
HasEntry dol i =
    (get_or dol.header.text_addresses i 0 ≤ dol.header.entry_point)
    × (dol.header.entry_point
        < get_or dol.header.text_addresses i 0 + get_or dol.header.text_sizes i 0)

validate_section_range_iff :
    (offset size file_size : ℕ)
    → (validate_section_range offset size file_size ≡ true) ↔ Inside offset size file_size
unfolding validate_section_range range_fits
validate_section_range_iff offset size file_size = ground arith

validate_data_iff :
    (dol : DolFile) (i rounds : ℕ)
    → (validate_data dol i rounds ≡ true) ↔ ((j : ℕ) → i ≤ j → j < i + rounds → DataFits dol j)
unfolding validate_data
validate_data_iff dol i zero = (λ h j le lt. absurd (omega arith), λ h. refl)
validate_data_iff dol i (suc rounds) =
    let rest = validate_data_iff dol (suc i) rounds in
    let here =
      validate_section_range_iff (get_or dol.header.data_offsets i 0)
        (get_or dol.header.data_sizes i 0) dol.file_size in
    (
      λ h j le lt. elim (Bool-cases (j == i)) [
        | inl e ↦ subst (λ k. DataFits dol k) (ground arith) (here.0 (ground arith))
        | inr ne ↦ rest.0 (ground arith) j (ground arith) (omega arith)
      ],
      λ h.
          let now = here.1 (h i (omega arith) (omega arith)) in
          let later = rest.1 (λ j le lt. h j (omega arith) (omega arith)) in ground arith,
    )

address_in_range_iff :
    (address base size : ℕ)
    → (address_in_range address base size ≡ true) ↔ ((base ≤ address) × (address < base + size))
unfolding address_in_range
address_in_range_iff address base size = ground arith

-- The flag after the round at index `i`.
abbrev entry_after : DolFile → ℕ → Bool → Bool
entry_after dol i entry_in_text =
    if address_in_range dol.header.entry_point (get_or dol.header.text_addresses i 0)
      (get_or dol.header.text_sizes i 0)
    then true
    else entry_in_text

entry_after_iff :
    (dol : DolFile) (i : ℕ) (entry_in_text : Bool)
    → (entry_after dol i entry_in_text ≡ true) ↔ ((entry_in_text ≡ true) ⊎ HasEntry dol i)
entry_after_iff dol i entry_in_text =
    let h =
      address_in_range_iff dol.header.entry_point (get_or dol.header.text_addresses i 0)
        (get_or dol.header.text_sizes i 0) in
    ground arith

-- The tests of a round pass exactly where the section fits.
round_iff :
    (dol : DolFile) (i rounds : ℕ) (entry_in_text : Bool)
    → (validate_text dol i (suc rounds) entry_in_text ≡ some true) ↔ (
        TextFits dol i
        × (validate_text dol (suc i) rounds (entry_after dol i entry_in_text) ≡ some true))
unfolding validate_text
round_iff dol i rounds entry_in_text =
    let here =
      validate_section_range_iff (get_or dol.header.text_offsets i 0)
        (get_or dol.header.text_sizes i 0) dol.file_size in
    ground arith

validate_text_iff :
    (dol : DolFile) (i rounds : ℕ) (entry_in_text : Bool)
    → (validate_text dol i rounds entry_in_text ≡ some true) ↔ (
        ((j : ℕ) → i ≤ j → j < i + rounds → TextFits dol j)
        × ((entry_in_text ≡ true) ⊎ ((j : ℕ) × (i ≤ j) × (j < i + rounds) × HasEntry dol j)))
unfolding validate_text
validate_text_iff dol i zero entry_in_text = (
  λ h. (λ j le lt. absurd (omega arith), inl (some-injective entry_in_text true h)),
  λ h. elim h.1 [ inl e ↦ rw e refl | inr (j, le, lt, m) ↦ absurd (omega arith) ],
)
validate_text_iff dol i (suc rounds) entry_in_text =
    let round = round_iff dol i rounds entry_in_text in
    let rest = validate_text_iff dol (suc i) rounds (entry_after dol i entry_in_text) in
    let after = entry_after_iff dol i entry_in_text in
    (
      λ h. (
        λ j le lt. elim (Bool-cases (j == i)) [
          | inl e ↦ subst (λ k. TextFits dol k) (ground arith) (round.0 h).0
          | inr ne ↦ (rest.0 (round.0 h).1).0 j (ground arith) (omega arith)
        ],
        elim (rest.0 (round.0 h).1).1 [
          | inl e ↦ elim (after.0 e) [
            | inl old ↦ inl old
            | inr m ↦ inr (i, omega arith, omega arith, m)
          ]
          | inr (j, le, lt, m) ↦ inr (j, omega arith, omega arith, m)
        ],
      ),
      λ h. round.1 (
        h.0 i (omega arith) (omega arith),
        rest.1 (
          λ j le lt. h.0 j (omega arith) (omega arith),
          elim h.1 [
            | inl old ↦ inl (after.1 (inl old))
            | inr (j, le, lt, m) ↦ elim (Bool-cases (j == i)) [
              | inl e ↦ inl (after.1 (inr (subst (λ k. HasEntry dol k) (ground arith) m)))
              | inr ne ↦ inr (j, ground arith, omega arith, m)
            ]
          ],
        ),
      ),
    )

-- An aligned entry point inside a text section, and sections inside the file, of which those of
-- text hold whole instructions.
pub record IsValid (dol : DolFile) : Type 0 where
  pub aligned : dol.header.entry_point % 4 ≡ 0
  pub text : (i : ℕ) → i < 7 → TextFits dol i
  pub data_fits : (i : ℕ) → i < 11 → DataFits dol i
  pub entry : (i : ℕ) × (i < 7) × HasEntry dol i

layout_tests :
    (dol : DolFile)
    → (validate_dol_layout dol ≡ true) ↔ (
        (dol.header.entry_point % 4 ≡ 0)
        × (validate_text dol 0 7 false ≡ some true)
        × (validate_data dol 0 11 ≡ true))
unfolding validate_dol_layout
layout_tests dol = ground arith

-- The test of the layout accepts exactly the files with an aligned entry point inside a text
-- section, text sections of whole instructions, and no section that leaves the file.
pub validate_dol_layout_iff : (dol : DolFile) → (validate_dol_layout dol ≡ true) ↔ IsValid dol
validate_dol_layout_iff dol =
    let tests = layout_tests dol in
    let text = validate_text_iff dol 0 7 false in
    let datas = validate_data_iff dol 0 11 in
    (
      λ h. record {
        aligned = (tests.0 h).0;
        text = λ i lt. (text.0 (tests.0 h).1).0 i (omega arith) (omega arith);
        data_fits = λ i lt. datas.0 (tests.0 h).2 i (omega arith) (omega arith);
        entry = elim (text.0 (tests.0 h).1).1 [
          | inl clash ↦ cc
          | inr (i, le, lt, m) ↦ (i, omega arith, m)
        ];
      },
      λ valid. tests.1 (
        valid.aligned,
        text.1 (
          λ j le lt. valid.text j (omega arith),
          (let (i, lt, m) = valid.entry in inr (i, omega arith, omega arith, m)),
        ),
        datas.1 (λ j le lt. valid.data_fits j (omega arith)),
      ),
    )
