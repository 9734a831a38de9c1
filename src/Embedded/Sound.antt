-- ===== src/Embedded/Sound.antt =====
-- What the tests of src/analysis/embedded_data.c find, and what the decoder makes of such words.
use dol_recomp.Base.{
  ℕ, ◌+◌, ◌*◌, ◌≤◌, ◌<◌, ◌≡◌, refl, ◌↔◌, ◌⊎◌, inl, inr, true, false, [], ◌∷◌, switch-NoKey, ap, sym,
  subst, ◌∙◌, u8, shr, Bool-cases, leb, none, some, arith, ap, sym, subst, ◌∙◌, u8, shr, Bool-cases,
}
use dol_recomp.Decoder.Opcode.{PpcOpcode}
use dol_recomp.Decoder.Inst.{PpcInst, ppc_primary}
use dol_recomp.Decoder.Decode.{ppc_decode, decode_immediate, decode_memory}
use dol_recomp.Smc.Stores.{EmbeddedDataMode}
use dol_recomp.Embedded.Words.{
  rpx_embedded_data_word, is_printable, count_printable, word_bytes, word_bytes_are_text,
  dol_embedded_data_word, embedded_data_word,
}

-- A byte of ASCII that prints, from the space to the tilde.
abbrev pub Prints : ℕ → Type 0
Prints byte = (32 ≤ byte) × (byte ≤ 126)

-- A word of text: all four bytes print, or one is 0 and the others print.
abbrev pub IsText : ℕ → ℕ → ℕ → ℕ → Type 0
IsText a b c d =
    (Prints a × Prints b × Prints c × Prints d)
    ⊎ ((a ≡ 0) × Prints b × Prints c × Prints d)
    ⊎ (Prints a × (b ≡ 0) × Prints c × Prints d)
    ⊎ (Prints a × Prints b × (c ≡ 0) × Prints d)
    ⊎ (Prints a × Prints b × Prints c × (d ≡ 0))

count_printable-IsText :
    (a b c d : ℕ)
    → ((elim (count_printable (a ∷ b ∷ c ∷ d ∷ []) 0) [
      | none ↦ false
      | some printable ↦ leb 3 printable
    ])
        ≡ true)
      ↔ IsText a b c d
unfolding count_printable is_printable
count_printable-IsText a b c d = ground arith

-- No instruction has primary opcode 0.
primary_0-unknown :
    (raw address : ℕ) → ppc_primary raw ≡ 0 → (ppc_decode raw address).op ≡ PpcOpcode.unknown
unfolding ppc_decode decode_immediate decode_memory
primary_0-unknown raw address h =
    ap (λ (inst : PpcInst). inst.op)
      (switch-NoKey (ppc_primary raw) _ _ (omega arith)
        ∙ (switch-NoKey (ppc_primary raw) _ _ (omega arith)
            ∙ switch-NoKey (ppc_primary raw) _ _ (omega arith)))

word_bytes-join :
    (a b c d : ℕ)
    → a < 256
    → b < 256
    → c < 256
    → d < 256
    → word_bytes (((a * 256 + b) * 256 + c) * 256 + d) ≡ a ∷ b ∷ c ∷ d ∷ []
word_bytes-join a b c d la lb lc ld =
    let first : u8 (shr (((a * 256 + b) * 256 + c) * 256 + d) 24) ≡ a = omega arith in
    let second : u8 (shr (((a * 256 + b) * 256 + c) * 256 + d) 16) ≡ b = omega arith in
    let third : u8 (shr (((a * 256 + b) * 256 + c) * 256 + d) 8) ≡ c = omega arith in
    let fourth : u8 (((a * 256 + b) * 256 + c) * 256 + d) ≡ d = omega arith in cc

-- A word of four bytes, the most significant first, passes the test of text exactly when all its
-- bytes print, or one of them is 0 and the other three print.
pub word_bytes_are_text_iff :
    (a b c d : ℕ)
    → a < 256
    → b < 256
    → c < 256
    → d < 256
    → (word_bytes_are_text (((a * 256 + b) * 256 + c) * 256 + d) ≡ true) ↔ IsText a b c d
unfolding word_bytes_are_text
word_bytes_are_text_iff a b c d la lb lc ld =
    subst
      (λ bytes.
        ((elim (count_printable bytes 0) [ none ↦ false | some printable ↦ leb 3 printable ])
          ≡ true)
        ↔ IsText a b c d)
      (sym (word_bytes-join a b c d la lb lc ld)) (count_printable-IsText a b c d)

-- A word that is taken for data is no instruction, or it is text in a DOL section: no instruction
-- that the decoder knows is dropped for another reason.
pub embedded_data_word-unknown :
    (mode : EmbeddedDataMode) (raw address : ℕ)
    → embedded_data_word mode raw ≡ true
    → ((ppc_decode raw address).op ≡ PpcOpcode.unknown)
      ⊎ ((mode ≡ EmbeddedDataMode.dol_mode) × (word_bytes_are_text raw ≡ true))
unfolding embedded_data_word dol_embedded_data_word rpx_embedded_data_word
embedded_data_word-unknown EmbeddedDataMode.none_mode raw address h = cc
embedded_data_word-unknown EmbeddedDataMode.rpx_mode raw address h =
    inl (primary_0-unknown raw address (ground arith))
embedded_data_word-unknown EmbeddedDataMode.dol_mode raw address h =
    elim (Bool-cases (word_bytes_are_text raw)) [
      | inl text ↦ inr (refl, text)
      | inr no_text ↦ inl (primary_0-unknown raw address (ground arith))
    ]
