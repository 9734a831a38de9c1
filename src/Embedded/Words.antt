-- ===== src/Embedded/Words.antt =====
-- src/analysis/embedded_data.c: the tests of a word, by the mode of its section.
use dol_recomp.Base.{
  ℕ, suc, ◌==◌, leb, u8, shr, Bool, true, false, ◌&&◌, ◌||◌, if◌then◌else◌, List, [], ◌∷◌, Option,
  none, some,
}
use dol_recomp.Smc.Stores.{EmbeddedDataMode}

unfoldable pub rpx_embedded_data_word : ℕ → Bool
rpx_embedded_data_word raw = raw == 0x00400000 || raw == 0x00600000

abbrev pub word_bytes : ℕ → List ℕ
word_bytes raw = u8 (shr raw 24) ∷ u8 (shr raw 16) ∷ u8 (shr raw 8) ∷ u8 raw ∷ []

unfoldable pub is_printable : ℕ → Bool
is_printable byte = leb 0x20 byte && leb byte 0x7e

-- The loop: `none` is the early return of 0, `some` the count of printable bytes.
unfoldable pub count_printable : List ℕ → ℕ → Option ℕ
count_printable [] printable = some printable
count_printable (byte ∷ bytes) printable =
    let more = count_printable bytes (suc printable) in
    let same = count_printable bytes printable in
    if is_printable byte then more else if byte == 0 then same else none

unfoldable pub word_bytes_are_text : ℕ → Bool
word_bytes_are_text raw = elim (count_printable (word_bytes raw) 0) [
  | none ↦ false
  | some printable ↦ leb 3 printable
]

unfoldable pub dol_embedded_data_word : ℕ → Bool
dol_embedded_data_word raw =
    if raw == 0
    then true
    else if shr raw 26 == 0
    then true
    else if word_bytes_are_text raw
    then true
    else false

unfoldable pub embedded_data_word : EmbeddedDataMode → ℕ → Bool
embedded_data_word EmbeddedDataMode.dol_mode raw = dol_embedded_data_word raw
embedded_data_word EmbeddedDataMode.rpx_mode raw = rpx_embedded_data_word raw
embedded_data_word EmbeddedDataMode.none_mode raw = false
