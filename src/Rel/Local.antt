-- ===== src/Rel/Local.antt =====
-- src/frontend/container/rel.c: a relocation changes the bytes of its own place and no others.
use dol_recomp.Base.{
  ℕ, ◌+◌, ◌≤◌, ◌<◌, ◌≡◌, ◌⊎◌, refl, ap, sym, ◌∙◌, Bool, true, false, List, Option, none, some,
  some-injective, length, get_or, if◌then◌else◌, arith, write_be16, write_be32, subst, ◌==◌, ==_iff,
  switch-AllKeyed, Bool-cases, inl, inr,
}
use dol_recomp.Base.Maybe.{>>=-eq-some}
use dol_recomp.Base.Memory.{
  length-write_be16, length-write_be32, write_be16-other, write_be32-other,
}
use dol_recomp.Rel.File.{RelSection}
use dol_recomp.Rel.Patch.{
  patch_bytes, patch_word, patch_addr24, patch_addr14, patch_rel24, patch_rel14, patch_size_of,
  apply_relocation, require_patch_range,
}

-- The bytes that are left are as many, and the same outside `width` bytes from `offset` on.
pub record IsLocal (before : List ℕ) (offset width : ℕ) (after : List ℕ) : Type 0 where
  pub same_length : length after ≡ length before
  pub others : (j : ℕ) → (j < offset) ⊎ (offset + width ≤ j) → get_or after j 0 ≡ get_or before j 0

word-IsLocal : (p : List ℕ) (at v : ℕ) → IsLocal p at 4 (write_be32 p at v)
word-IsLocal p at v = record {
  same_length = length-write_be32 p at v;
  others = λ j h. write_be32-other p at v j h;
}

half-IsLocal : (p : List ℕ) (at v : ℕ) → IsLocal p at 2 (write_be16 p at v)
half-IsLocal p at v = record {
  same_length = length-write_be16 p at v;
  others = λ j h. write_be16-other p at v j h;
}

-- Where a patch of the given width succeeds it is local.
Patches : List ℕ → ℕ → ℕ → Option (List ℕ) → Type 0
Patches p offset width result =
    (after : List ℕ) → result ≡ some after → IsLocal p offset width after

some-Patches :
    (p : List ℕ) (offset width : ℕ) (after : List ℕ)
    → IsLocal p offset width after
    → Patches p offset width (some after)
unfolding Patches
some-Patches p offset width after h found e =
    subst (λ q. IsLocal p offset width q) (some-injective after found e) h

none-Patches : (p : List ℕ) (offset width : ℕ) → Patches p offset width none
unfolding Patches
none-Patches p offset width found e = cc

-- A guard before a patch.
if-Patches :
    (p : List ℕ) (offset width : ℕ) (b : Bool) (after : List ℕ)
    → IsLocal p offset width after
    → Patches p offset width (if b then none else some after)
if-Patches p offset width true after h = none-Patches p offset width
if-Patches p offset width false after h = some-Patches p offset width after h

patch_bytes-Patches :
    (p : List ℕ) (offset patch_address type target : ℕ)
    → Patches p offset (patch_size_of type) (patch_bytes p offset patch_address type target)
unfolding patch_bytes patch_addr24 patch_addr14 patch_rel24 patch_rel14 patch_word
patch_bytes-Patches p offset patch_address type target =
    switch-AllKeyed (λ t result. Patches p offset (patch_size_of t) result) type _
      (
        some-Patches p offset 4 _ (word-IsLocal p offset _),
        (
          if-Patches p offset 4 _ _ (word-IsLocal p offset _),
          (
            some-Patches p offset 2 _ (half-IsLocal p offset _),
            (
              some-Patches p offset 2 _ (half-IsLocal p offset _),
              (
                some-Patches p offset 2 _ (half-IsLocal p offset _),
                (
                  some-Patches p offset 2 _ (half-IsLocal p offset _),
                  (
                    if-Patches p offset 4 _ _ (word-IsLocal p offset _),
                    (
                      if-Patches p offset 4 _ _ (word-IsLocal p offset _),
                      (
                        if-Patches p offset 4 _ _ (word-IsLocal p offset _),
                        (
                          if-Patches p offset 4 _ _ (word-IsLocal p offset _),
                          (if-Patches p offset 4 _ _ (word-IsLocal p offset _), tt),
                        ),
                      ),
                    ),
                  ),
                ),
              ),
            ),
          ),
        ),
      )
      (none-Patches p offset (patch_size_of type))

-- How a relocation succeeds: by doing nothing, or by a patch in range.
pub apply_split :
    (section patched : RelSection) (offset patch_address type target : ℕ) (before : List ℕ)
    → section.owned_data ≡ some before
    → apply_relocation section offset patch_address type target ≡ some patched
    → ((type ≡ 0) × (section ≡ patched))
      ⊎ ((require_patch_range section offset (patch_size_of type) ≡ true)
          × (after : List ℕ) × (patch_bytes before offset patch_address type target ≡ some after)
          × (record section { owned_data = some after } ≡ patched))
unfolding apply_relocation
apply_split section patched offset patch_address type target before data_at h =
    elim (Bool-cases (type == 0)) [
      | inl e ↦ inl ((==_iff type 0).0 e, some-injective section patched (rw e at h))
      | inr e ↦ elim (Bool-cases (require_patch_range section offset (patch_size_of type))) [
        | inr bad ↦ cc (rw (e, bad) at h)
        | inl ok ↦
            let g = rw (e, ok, data_at) at h in
            let (after, at, last) =
              >>=-eq-some (patch_bytes before offset patch_address type target)
                (λ bytes. some (record section { owned_data = some bytes })) g in
            inr (
              ok,
              after,
              at,
              some-injective (record section { owned_data = some after }) patched last,
            )
      ]
    ]

-- A relocation that is applied leaves the section as it was, but for the bytes of its place, which
-- lies inside the section.
pub apply_relocation-IsLocal :
    (section patched : RelSection) (offset patch_address type target : ℕ) (before : List ℕ)
    → section.owned_data ≡ some before
    → apply_relocation section offset patch_address type target ≡ some patched
    → (after : List ℕ) × (patched ≡ record section { owned_data = some after })
      × IsLocal before offset (patch_size_of type) after
      × ((type ≡ 0) ⊎ (offset + patch_size_of type ≤ section.size))
unfolding require_patch_range Patches
apply_relocation-IsLocal section patched offset patch_address type target before data_at h =
    elim (apply_split section patched offset patch_address type target before data_at h) [
      | inl (none_type, same) ↦ (
        before,
        sym same ∙ ap (λ (d : Option (List ℕ)). record section { owned_data = d }) data_at,
        record { same_length = refl; others = λ j away. refl },
        inl none_type,
      )
      | inr (ok, after, at, same) ↦ (
        after,
        sym same,
        patch_bytes-Patches before offset patch_address type target after at,
        inr (ground arith),
      )
    ]
