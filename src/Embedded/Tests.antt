-- ===== src/Embedded/Tests.antt =====
-- Words of src/analysis/embedded_data.c: padding, text, and text that is also an instruction.
use dol_recomp.Base.{◌+◌, ◌*◌, ◌≡◌, refl, ◌↔◌, ◌⊎◌, true, false, arith}
use dol_recomp.Decoder.Opcode.{PpcOpcode}
use dol_recomp.Decoder.Decode.{ppc_decode}
use dol_recomp.Smc.Stores.{EmbeddedDataMode}
use dol_recomp.Embedded.Words.{
  is_printable, count_printable, word_bytes_are_text, dol_embedded_data_word, embedded_data_word,
}
use dol_recomp.Embedded.Sound.{IsText, word_bytes_are_text_iff, embedded_data_word-unknown}

-- The bytes "big" and 0.
big_word : embedded_data_word EmbeddedDataMode.dol_mode 0x62696700 ≡ true
unfolding embedded_data_word dol_embedded_data_word word_bytes_are_text count_printable is_printable
big_word = refl

-- The return instruction is code in every mode.
return_word : embedded_data_word EmbeddedDataMode.dol_mode 0x4e800020 ≡ false
unfolding embedded_data_word dol_embedded_data_word word_bytes_are_text count_printable is_printable
return_word = refl

word_bytes_are_text_iff_example :
    (word_bytes_are_text (((0x62 * 256 + 0x69) * 256 + 0x67) * 256 + 0) ≡ true)
    ↔ IsText 0x62 0x69 0x67 0
word_bytes_are_text_iff_example =
    word_bytes_are_text_iff 0x62 0x69 0x67 0 (omega arith) (omega arith) (omega arith) (omega arith)

embedded_data_word-unknown_example :
    ((ppc_decode 0x62696700 0x80003000).op ≡ PpcOpcode.unknown)
    ⊎ ((EmbeddedDataMode.dol_mode ≡ EmbeddedDataMode.dol_mode)
        × (word_bytes_are_text 0x62696700 ≡ true))
embedded_data_word-unknown_example =
    embedded_data_word-unknown EmbeddedDataMode.dol_mode 0x62696700 0x80003000 big_word
