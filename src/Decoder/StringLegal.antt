-- ===== src/Decoder/StringLegal.antt =====
-- `lswi` in `ppc_decode`: the base is none of the registers that the string fills.
use dol_recomp.Base.{
  ℕ, zero, suc, ◌+◌, ◌*◌, ◌%◌, ◌<◌, ◌≡◌, ◌≢◌, inl, inr, Bool, true, false, not, ◌&&◌, arith,
  Bool-cases,
}
use dol_recomp.Decoder.Inst.{PpcInst, ppc_rd, ppc_ra, ppc_rb, ppc_rc}
use dol_recomp.Decoder.Legal.{IsLegal, string_bytes}
use dol_recomp.Decoder.Extended.{reg_in_wrapped_range_from, reg_in_wrapped_range}
use dol_recomp.Decoder.Extended.{string_register_count, decode_lswi}

-- The loop looks at the registers `start + i` to `start + i + left - 1`.
reg_in_wrapped_range_from-false :
    (start left i reg : ℕ)
    → reg_in_wrapped_range_from start left i reg ≡ false
    → (k : ℕ) → k < left
    → (start + (i + k)) % 32 ≢ reg
unfolding reg_in_wrapped_range_from
reg_in_wrapped_range_from-false start zero i reg h k lt = absurd (omega arith)
reg_in_wrapped_range_from-false start (suc left) i reg h zero lt = ground arith
reg_in_wrapped_range_from-false start (suc left) i reg h (suc k) lt =
    let rest : reg_in_wrapped_range_from start left (i + 1) reg ≡ false = ground arith in
    ground (arith, reg_in_wrapped_range_from-false start left (i + 1) reg rest k)

-- No register that holds one of the string's bytes is `reg`.
wrapped_false :
    (start bytes reg : ℕ)
    → reg_in_wrapped_range start (string_register_count bytes) reg ≡ false
    → (k : ℕ) → 4 * k < string_bytes bytes
    → (start + k) % 32 ≢ reg
unfolding reg_in_wrapped_range string_register_count
wrapped_false start bytes reg h k lt =
    ground (arith, reg_in_wrapped_range_from-false start (string_register_count bytes) 0 reg h k)

and-not-true : (p q : Bool) → (p && not q) ≡ true → q ≡ false
and-not-true p q h = ground arith

pub decode_lswi-IsLegal :
    (inst : PpcInst) (raw address : ℕ)
    → IsLegal raw address inst
    → IsLegal raw address (decode_lswi inst raw)
unfolding decode_lswi
decode_lswi-IsLegal inst raw address h =
    let wrapped =
      reg_in_wrapped_range (ppc_rd raw) (string_register_count (ppc_rb raw)) (ppc_ra raw) in
    elim (Bool-cases (not (ppc_rc raw) && not wrapped)) [
      | inl e ↦ rw e (
        h.0,
        h.1,
        wrapped_false (ppc_rd raw) (ppc_rb raw) (ppc_ra raw)
            (and-not-true (not (ppc_rc raw)) wrapped e),
      )
      | inr e ↦ rw e (h.0, h.1, tt)
    ]
