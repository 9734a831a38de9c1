-- ===== src/Rel/Preserve.antt =====
-- src/frontend/container/rel.c: the imports that are relocated keep the layout of a module.
use dol_recomp.Base.{
  ℕ, zero, suc, ◌+◌, ◌≡◌, ap, sym, ◌∙◌, inl, inr, Bool, true, false, Option, none, some,
  some-injective, Bool-cases, u32, if◌then◌else◌,
}
use dol_recomp.Base.Maybe.{>>=-eq-some}
use dol_recomp.Dol.Layout.{range_fits}
use dol_recomp.Rel.File.{RelFile, RelModuleMap}
use dol_recomp.Rel.Relocate.{Walk, walk, relocate_import, relocate_imports}
use dol_recomp.Rel.Frame.{erase, next-erase, Round-cases, entry_round}

pub done-injective : (a b : RelFile) → Walk.done a ≡ Walk.done b → a ≡ b
done-injective a b e = cc

walk-erase :
    (rounds : ℕ) (rel rel' : RelFile) (modules : RelModuleMap)
    (import_module cursor section offset : ℕ)
    → walk rounds rel modules import_module cursor section offset ≡ Walk.done rel'
    → erase rel' ≡ erase rel
unfolding walk
walk-erase zero rel rel' modules import_module cursor section offset h = cc
walk-erase (suc rounds) rel rel' modules import_module cursor section offset h =
    elim (Bool-cases (range_fits cursor 8 rel.file_size)) [
      | inr out ↦ cc (rw (out, walk) at h)
      | inl fits ↦
          let g = rw (fits, walk) at h in
          elim (Round-cases (entry_round rel modules import_module cursor section offset)) [
            | inl (mid, section', offset', e) ↦
                walk-erase rounds mid rel' modules import_module (u32 (cursor + 8)) section' offset'
                  (rw e at g)
                ∙ next-erase rel mid modules import_module cursor section offset section' offset' e
            | inr (inl e) ↦ ap erase (sym (done-injective rel rel' (rw e at g)))
            | inr (inr e) ↦ cc (rw e at g)
          ]
    ]

-- What an import makes of its walk.
pub walk_done :
    (w : Walk) (rel : RelFile)
    → (elim w [ Walk.done r ↦ some r | _ ↦ none ]) ≡ some rel
    → w ≡ Walk.done rel
walk_done (Walk.done r) rel h = ap Walk.done (some-injective r rel h)
walk_done Walk.failed rel h = cc
walk_done Walk.no_end rel h = cc
walk_done Walk.out_of_rounds rel h = cc

pub if_some :
    (b : Bool) (x : Option RelFile) (rel : RelFile)
    → (if b then none else x) ≡ some rel
    → x ≡ some rel
if_some true x rel h = cc
if_some false x rel h = h

pub relocate_import-erase :
    (rel rel' : RelFile) (modules : RelModuleMap) (import_index : ℕ)
    → relocate_import rel modules import_index ≡ some rel'
    → erase rel' ≡ erase rel
unfolding relocate_import
relocate_import-erase rel rel' modules import_index h =
    walk-erase (suc rel.file_size) rel rel' modules _ _ 0 0 (walk_done _ rel' (if_some _ _ rel' h))

pub relocate_imports-erase :
    (rel rel' : RelFile) (modules : RelModuleMap) (import_index rounds : ℕ)
    → relocate_imports rel modules import_index rounds ≡ some rel'
    → erase rel' ≡ erase rel
unfolding relocate_imports
relocate_imports-erase rel rel' modules import_index zero h =
    ap erase (sym (some-injective rel rel' h))
relocate_imports-erase rel rel' modules import_index (suc rounds) h =
    let (mid, first, rest) = >>=-eq-some (relocate_import rel modules import_index) _ h in
    relocate_imports-erase mid rel' modules (suc import_index) rounds rest
    ∙ relocate_import-erase rel mid modules import_index first
