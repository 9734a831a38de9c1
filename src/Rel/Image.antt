-- ===== src/Rel/Image.antt =====
-- src/frontend/container/rel.c: what `rel_load_image` promises of a module that it loads.
use dol_recomp.Base.{
  ℕ, ◌+◌, ◌*◌, ◌^◌, ◌%◌, ◌≤◌, ◌<◌, ◌==◌, ltb, leb, u32, low_bits, ◌≡◌, ◌⊎◌, refl, ap, sym, subst,
  ◌∙◌, inl, inr, true, false, not, ◌||◌, if◌then◌else◌, List, some, some-injective, Bool-cases,
  Option-cases, get_elem?, length, read_be32, arith,
}
use dol_recomp.Base.Maybe.{guard-eq-some, >>=-eq-some}
use dol_recomp.Dol.Layout.{range_fits}
use dol_recomp.Rel.File.{
  RelSection, RelFile, align_up_u32, add_u32_checked, section_address_at, validate_entry,
  holds_instruction,
}
use dol_recomp.Rel.Load.{
  Host, read_file, read_header, alignment_of, load_sections, finish_load, rel_load_image,
  rel_max_section_count, rel_header_min_size,
}
use dol_recomp.Rel.Placed.{
  ArePlaced, align_up_u32-le, add_u32_checked-eq, load_sections-ArePlaced, if_true, if_false,
}

-- An entry point: none, which is section 0, or a word of an executable section with data.
abbrev pub IsEntry : RelFile → ℕ → ℕ → Type 0
IsEntry rel section_index offset =
    (section_index ≡ 0)
    ⊎ ((s : RelSection) × (bytes : List ℕ) × (get_elem? rel.sections section_index ≡ some s)
        × (s.executable ≡ true)
        × (s.bss ≡ false)
        × (s.owned_data ≡ some bytes)
        × (offset % 4 ≡ 0)
        × (offset < s.size))

-- A module whose entry points are instructions of its sections, and the address of the first.
pub record HasEntries (rel : RelFile) : Type 0 where
  pub prolog : IsEntry rel rel.prolog_section rel.prolog_offset
  pub epilog : IsEntry rel rel.epilog_section rel.epilog_offset
  pub unresolved : IsEntry rel rel.unresolved_section rel.unresolved_offset
  pub entry :
      (rel.prolog_section ≡ 0)
      ⊎ ((s : RelSection) × (get_elem? rel.sections rel.prolog_section ≡ some s)
          × (rel.entry_point ≡ s.address + rel.prolog_offset))

holds_instruction_lem :
    (s : RelSection) (offset : ℕ)
    → holds_instruction s offset ≡ true
    → (bytes : List ℕ) × (s.executable ≡ true)
      × (s.bss ≡ false)
      × (s.owned_data ≡ some bytes)
      × (offset % 4 ≡ 0)
      × (offset < s.size)
unfolding holds_instruction
holds_instruction_lem s offset h = elim (Option-cases s.owned_data) [
  | inl e ↦ absurd (ground arith)
  | inr (bytes, e) ↦ (bytes, ground arith, ground arith, e, ground arith, ground arith)
]

validate_entry-IsEntry :
    (rel : RelFile) (section_index offset : ℕ)
    → validate_entry rel section_index offset ≡ true
    → IsEntry rel section_index offset
unfolding validate_entry
validate_entry-IsEntry rel section_index offset h = elim (Bool-cases (section_index == 0)) [
  | inl e ↦ inl (ground arith)
  | inr e ↦ elim (Option-cases (get_elem? rel.sections section_index)) [
    | inl f ↦ absurd (ground arith)
    | inr (s, f) ↦
        let holds : holds_instruction s offset ≡ true = ground arith in
        let (bytes, a, b, c, d, g) = holds_instruction_lem s offset holds in
        inr (s, bytes, f, a, b, c, d, g)
  ]
]

entry_address :
    (rel : RelFile) (section_index offset address : ℕ)
    → section_address_at rel section_index offset ≡ some address
    → (s : RelSection) × (get_elem? rel.sections section_index ≡ some s)
      × (address ≡ s.address + offset)
unfolding section_address_at
entry_address rel section_index offset address h =
    elim (Option-cases (get_elem? rel.sections section_index)) [
      | inl f ↦ absurd (ground arith)
      | inr (s, f) ↦
          let sum : add_u32_checked s.address offset ≡ some address = ground arith in
          (s, f, checked_sum s.address offset address sum)
    ]
  where
    checked_sum : (a b c : ℕ) → add_u32_checked a b ≡ some c → c ≡ a + b
    checked_sum a b c e = unfold add_u32_checked in ground (arith, some-injective (a + b) c)

finish_load-HasEntries :
    (loaded rel : RelFile)
    → finish_load loaded ≡ some rel
    → (rel ≡ record loaded { entry_point = rel.entry_point }) × HasEntries rel
unfolding finish_load
finish_load-HasEntries loaded rel h1 =
    let (prolog, h2) =
      guard-eq-some (validate_entry loaded loaded.prolog_section loaded.prolog_offset) _ h1 in
    let (epilog, h3) =
      guard-eq-some (validate_entry loaded loaded.epilog_section loaded.epilog_offset) _ h2 in
    let (unresolved, h4) =
      guard-eq-some (validate_entry loaded loaded.unresolved_section loaded.unresolved_offset) _
        h3 in
    elim (Bool-cases (loaded.prolog_section == 0)) [
      | inl e ↦
          subst
            (λ (r : RelFile). (r ≡ record loaded { entry_point = r.entry_point }) × HasEntries r)
            (some-injective loaded rel (if_true _ _ e h4))
            (
              refl,
              record {
                prolog = validate_entry-IsEntry loaded _ _ prolog;
                epilog = validate_entry-IsEntry loaded _ _ epilog;
                unresolved = validate_entry-IsEntry loaded _ _ unresolved;
                entry = inl (ground arith);
              },
            )
      | inr e ↦
          let (address, at, h5) =
            >>=-eq-some (section_address_at loaded loaded.prolog_section loaded.prolog_offset) _
              (if_false _ _ e h4) in
          subst
            (λ (r : RelFile). (r ≡ record loaded { entry_point = r.entry_point }) × HasEntries r)
            (some-injective _ rel h5)
            (
              refl,
              record {
                prolog = validate_entry-IsEntry loaded _ _ prolog;
                epilog = validate_entry-IsEntry loaded _ _ epilog;
                unresolved = validate_entry-IsEntry loaded _ _ unresolved;
                entry =
                    inr
                      (entry_address loaded loaded.prolog_section loaded.prolog_offset address at);
              },
            )
    ]

read_file_lem :
    (host : Host) (h : List ℕ) → read_file host ≡ some h → (host.opened ≡ some h) × (64 ≤ length h)
unfolding read_file
read_file_lem host h e =
    let (contents, opened, e2) = >>=-eq-some host.opened _ e in
    let (large, e3) = guard-eq-some (leb rel_header_min_size (length contents)) _ e2 in
    let (allocated, e4) = guard-eq-some host.file_allocated _ e3 in
    let (present, e5) = guard-eq-some host.file_read _ e4 in
    let same = some-injective contents h e5 in
    (opened ∙ ap some same, subst (λ x. 64 ≤ length x) same (ground arith))

-- What a loaded module is: the file that was opened, its sections at their addresses, those without
-- data after base plus `fix_size` and apart from each other, though a section with data beyond
-- `fix_size` may share their addresses, and entries that are instructions.
pub record IsLoaded (host : Host) (base_address : ℕ) (rel : RelFile) : Type 0 where
  pub contents : host.opened ≡ some rel.file_data
  pub header : 64 ≤ length rel.file_data
  pub at_base : rel.base_address ≡ base_address
  pub count :
      (length rel.sections ≡ rel.section_count)
      × (0 < rel.section_count)
      × (rel.section_count ≤ rel_max_section_count)
  pub fixed : (0 < rel.fix_size) × (rel.fix_size ≤ rel.file_size)
  pub bss_start : ℕ
  pub bss_after : base_address + rel.fix_size ≤ bss_start
  pub placed : ArePlaced rel.file_data base_address bss_start 0 rel.sections
  pub entries : HasEntries rel

-- A module that is loaded, at a base below 2 ^ 32: it has the bytes of the file that was opened, its
-- sections in order, those with data at base plus offset and inside the file, those without data
-- after base plus `fix_size` and apart from each other, and each of its three entries is none or
-- a word of an executable section with data, the entry point being that of the first.
pub rel_load_image-IsLoaded :
    (host : Host) (base_address : ℕ) (rel : RelFile)
    → base_address < 2 ^ 32
    → rel_load_image host base_address ≡ some rel
    → IsLoaded host base_address rel
unfolding rel_load_image read_header
rel_load_image-IsLoaded host base_address rel low h1 =
    let (aligned, h2) = guard-eq-some (low_bits base_address 2 == 0) _ h1 in
    let (h, opened, h3) = >>=-eq-some (read_file host) _ h2 in
    let size = (read_header h base_address).file_size in
    let fix_size = (read_header h base_address).fix_size in
    let count = (read_header h base_address).section_count in
    let (fixed, h4) = guard-eq-some (not (fix_size == 0 || ltb size fix_size)) _ h3 in
    let (counted, h5) =
      guard-eq-some
        (not (
          count == 0
          || (ltb rel_max_section_count count
              || not (range_fits (read_be32 h 16) (u32 (count * 8)) size))))
        _ h4 in
    let alignment = alignment_of (if leb 72 size then read_be32 h 68 else 4) in
    let (table, h6) = guard-eq-some host.table_allocated _ h5 in
    let (start, summed, h7) = >>=-eq-some (add_u32_checked base_address fix_size) _ h6 in
    let (bss_cursor, up, h8) = >>=-eq-some (align_up_u32 start alignment) _ h7 in
    let (loaded, e, h9) =
      >>=-eq-some
        (load_sections host.section_allocated h base_address alignment (read_be32 h 16) 0 count
          bss_cursor)
        _ h8 in
    let (executable, h10) = guard-eq-some (not (loaded.1 == 0)) _ h9 in
    let (total, bound) = add_u32_checked-eq base_address fix_size start low summed in
    let (above, below) = align_up_u32-le start alignment bss_cursor up bound in
    let (many, placed) =
      load_sections-ArePlaced host.section_allocated h base_address alignment (read_be32 h 16) 0
        count bss_cursor loaded low below e in
    let (same, entries) =
      finish_load-HasEntries (record (read_header h base_address) { sections = loaded.0 }) rel
        h10 in
    let (present, header) = read_file_lem host h opened in
    subst (λ (r : RelFile). IsLoaded host base_address r) (sym same)
      (record {
        contents = present;
        header = header;
        at_base = refl;
        count = (many, ground arith, ground arith);
        fixed = (ground arith, ground arith);
        bss_start = bss_cursor;
        bss_after = omega (arith, total, above);
        placed = placed;
        entries = subst (λ (r : RelFile). HasEntries r) same entries;
      })
