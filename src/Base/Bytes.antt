-- ===== src/Base/Bytes.antt =====
-- src/common/types.h: numbers in memory, the most significant byte first. Memory is a list of
-- bytes, each below 256; a position past its end reads 0 and a write there changes nothing.
use Prim.Native.Nat.{ℕ, zero, suc, ◌+◌, ◌*◌, ◌/◌, ◌^◌, ◌<◌, bit_or}
use mathlib.Core.Path.{◌≡◌, ap, ◌∙◌}
use mathlib.Core.List.{List, [], ◌∷◌}
use native.Mathlib.Nat.{pow-suc}
use native.Mathlib.Omega.{arith}
use dol_recomp.Base.Tests.{ltb, ◌==◌, if◌then◌else◌}
use dol_recomp.Base.Lists.{length, get_or, set}
use dol_recomp.Base.Bits.{bit_or_digit, bit_or-zero}
use dol_recomp.Base.Word.{u8, u32, shr}

unfoldable pub read_be16 : List ℕ → ℕ → ℕ
read_be16 h at = bit_or (get_or h at 0 * 2 ^ 8) (get_or h (at + 1) 0)

unfoldable pub read_be32 : List ℕ → ℕ → ℕ
read_be32 h at =
    bit_or
      (bit_or (bit_or (get_or h at 0 * 2 ^ 24) (get_or h (at + 1) 0 * 2 ^ 16))
        (get_or h (at + 2) 0 * 2 ^ 8))
      (get_or h (at + 3) 0)

unfoldable pub read_be64 : List ℕ → ℕ → ℕ
read_be64 h at = bit_or (read_be32 h at * 2 ^ 32) (read_be32 h (at + 4))

unfoldable pub write_be16 : List ℕ → ℕ → ℕ → List ℕ
write_be16 p at v = set (set p at (u8 (shr v 8))) (at + 1) (u8 v)

unfoldable pub write_be32 : List ℕ → ℕ → ℕ → List ℕ
write_be32 p at v =
    set (set (set (set p at (u8 (shr v 24))) (at + 1) (u8 (shr v 16))) (at + 2) (u8 (shr v 8)))
      (at + 3) (u8 v)

unfoldable pub write_be64 : List ℕ → ℕ → ℕ → List ℕ
write_be64 p at v = write_be32 (write_be32 p at (u32 (shr v 32))) (at + 4) (u32 v)

-- Where no digit of one number stands on a digit of the other, `|` adds.
pub bit_or_above : (k a b : ℕ) → b < 2 ^ k → bit_or (a * 2 ^ k) b ≡ a * 2 ^ k + b
bit_or_above zero a b h = ground (arith, bit_or-zero a)
bit_or_above (suc k) a b h = ground (
  arith,
  pow-suc 2 k,
  ap (λ (t : ℕ). a * t) (pow-suc 2 k),
  bit_or_digit (a * 2 ^ suc k) b,
  bit_or_above k a (b / 2),
)

pub bit_or_join : (k a b x : ℕ) → x ≡ a * 2 ^ k → b < 2 ^ k → bit_or x b ≡ x + b
bit_or_join k a b x e h = rw e (bit_or_above k a b h)

pub join_16 : (a b : ℕ) → b < 256 → bit_or (a * 2 ^ 8) b ≡ a * 256 + b
join_16 a b h = bit_or_above 8 a b h

pub join_32 :
    (a b c d : ℕ)
    → b < 256
    → c < 256
    → d < 256
    → bit_or (bit_or (bit_or (a * 2 ^ 24) (b * 2 ^ 16)) (c * 2 ^ 8)) d
      ≡ ((a * 256 + b) * 256 + c) * 256 + d
join_32 a b c d hb hc hd = rw (bit_or_above 24 a (b * 2 ^ 16) (omega arith)) (
    rw
      (bit_or_join 16 (a * 256 + b) (c * 2 ^ 8) (a * 2 ^ 24 + b * 2 ^ 16) (omega arith)
        (omega arith))
      (bit_or_join 8 ((a * 256 + b) * 256 + c) d (a * 2 ^ 24 + b * 2 ^ 16 + c * 2 ^ 8) (omega arith)
          hd
        ∙ omega arith))

-- A read after a write, at any two positions.
pub get_or-set_if :
    (xs : List ℕ) (i j v : ℕ)
    → get_or (set xs i v) j 0
      ≡ (if i == j then (if ltb i (length xs) then v else 0) else get_or xs j 0)
get_or-set_if [] i j v = ground arith
get_or-set_if (x ∷ xs) zero zero v = ground arith
get_or-set_if (x ∷ xs) zero (suc j) v = ground arith
get_or-set_if (x ∷ xs) (suc i) zero v = ground arith
get_or-set_if (x ∷ xs) (suc i) (suc j) v = ground (arith, get_or-set_if xs i j v)
