-- ===== src/Decoder/Laws.antt =====
-- What `ppc_decode` of src/frontend/decoder.c promises of every instruction word.
use dol_recomp.Base.{ℕ, switch-AllCases}
use dol_recomp.Decoder.Fits.{Fits, blank_inst-Fits}
use dol_recomp.Decoder.GroupFits.{group_fits}
use dol_recomp.Decoder.Decode.{ppc_decode}

-- Every field of a decoded instruction lies within the width of its field in the word, for
-- every word and address: registers below 32, condition fields below 8, the branch target a word.
pub ppc_decode-Fits : (raw address : ℕ) → Fits (ppc_decode raw address)
unfolding ppc_decode
ppc_decode-Fits raw address =
    let start = blank_inst-Fits raw address in
    switch-AllCases Fits _ _ (search group_fits) (search group_fits)
