-- ===== src/Base/Masks.antt =====
-- `&` and `|` as a distributive lattice of bits: a chain of constant masks becomes one.
use Prim.Native.Nat.{ℕ, zero, suc, ◌/◌, ◌%◌, ◌≤◌, min, max, bit_and, bit_or, bit_and-bitwise}
use mathlib.Core.Path.{◌≡◌, ap, sym, ◌∙◌}
use native.Mathlib.Nat.{le_refl}
use native.Mathlib.Omega.{arith}
use dol_recomp.Base.Bits.{bit_and_digit, bit_or_digit, zero-bit_or}

bit_and_half : (x y : ℕ) → bit_and x y / 2 ≡ bit_and (x / 2) (y / 2)
bit_and_half x y = omega (arith, bit_and_digit x y)

bit_and_odd : (x y : ℕ) → bit_and x y % 2 ≡ min (x % 2) (y % 2)
bit_and_odd x y = omega (arith, bit_and_digit x y)

bit_or_half : (x y : ℕ) → bit_or x y / 2 ≡ bit_or (x / 2) (y / 2)
bit_or_half x y = omega (arith, bit_or_digit x y)

bit_or_odd : (x y : ℕ) → bit_or x y % 2 ≡ max (x % 2) (y % 2)
bit_or_odd x y = omega (arith, bit_or_digit x y)

-- Numbers that agree in their halves and their last digits.
digit_eq : (x y : ℕ) → x / 2 ≡ y / 2 → x % 2 ≡ y % 2 → x ≡ y
digit_eq x y p q = omega arith

pub zero-bit_and : (y : ℕ) → bit_and 0 y ≡ 0
zero-bit_and y = simp bit_and-bitwise

bit_and_assoc_below : (n x y z : ℕ) → x ≤ n → bit_and (bit_and x y) z ≡ bit_and x (bit_and y z)
bit_and_assoc_below n zero y z h =
    rw (zero-bit_and y) (zero-bit_and z ∙ sym (zero-bit_and (bit_and y z)))
bit_and_assoc_below zero (suc x) y z h = absurd (omega arith)
bit_and_assoc_below (suc n) (suc x) y z h =
    digit_eq _ _
      (bit_and_half (bit_and (suc x) y) z
        ∙ (ap (λ t. bit_and t (z / 2)) (bit_and_half (suc x) y)
            ∙ (bit_and_assoc_below n (suc x / 2) (y / 2) (z / 2) (omega arith)
                ∙ (ap (λ t. bit_and (suc x / 2) t) (sym (bit_and_half y z))
                    ∙ sym (bit_and_half (suc x) (bit_and y z))))))
      (omega (
        arith,
        bit_and_odd (bit_and (suc x) y) z,
        bit_and_odd (suc x) y,
        bit_and_odd y z,
        bit_and_odd (suc x) (bit_and y z),
      ))

pub bit_and_assoc : (x y z : ℕ) → bit_and (bit_and x y) z ≡ bit_and x (bit_and y z)
bit_and_assoc x y z = bit_and_assoc_below x x y z (le_refl x)

bit_and-bit_or_below :
    (n x y z : ℕ) → x ≤ n → bit_and (bit_or x y) z ≡ bit_or (bit_and x z) (bit_and y z)
bit_and-bit_or_below n zero y z h =
    rw (zero-bit_or y) (rw (zero-bit_and z) (sym (zero-bit_or (bit_and y z))))
bit_and-bit_or_below zero (suc x) y z h = absurd (omega arith)
bit_and-bit_or_below (suc n) (suc x) y z h =
    digit_eq _ _
      (bit_and_half (bit_or (suc x) y) z
        ∙ (ap (λ t. bit_and t (z / 2)) (bit_or_half (suc x) y)
            ∙ (bit_and-bit_or_below n (suc x / 2) (y / 2) (z / 2) (omega arith)
                ∙ (ap (λ t. bit_or t (bit_and (y / 2) (z / 2))) (sym (bit_and_half (suc x) z))
                    ∙ (ap (λ t. bit_or (bit_and (suc x) z / 2) t) (sym (bit_and_half y z))
                        ∙ sym (bit_or_half (bit_and (suc x) z) (bit_and y z)))))))
      (omega (
        arith,
        bit_and_odd (bit_or (suc x) y) z,
        bit_or_odd (suc x) y,
        bit_or_odd (bit_and (suc x) z) (bit_and y z),
        bit_and_odd (suc x) z,
        bit_and_odd y z,
      ))

-- A mask of a sum of bits is the sum of the masks.
pub bit_and-bit_or : (x y z : ℕ) → bit_and (bit_or x y) z ≡ bit_or (bit_and x z) (bit_and y z)
bit_and-bit_or x y z = bit_and-bit_or_below x x y z (le_refl x)

bit_or-masks_below :
    (n x a b : ℕ) → x ≤ n → bit_or (bit_and x a) (bit_and x b) ≡ bit_and x (bit_or a b)
bit_or-masks_below n zero a b h =
    rw (zero-bit_and a) (rw (zero-bit_and b) (sym (zero-bit_and (bit_or a b))))
bit_or-masks_below zero (suc x) a b h = absurd (omega arith)
bit_or-masks_below (suc n) (suc x) a b h =
    digit_eq _ _
      (bit_or_half (bit_and (suc x) a) (bit_and (suc x) b)
        ∙ (ap (λ t. bit_or t (bit_and (suc x) b / 2)) (bit_and_half (suc x) a)
            ∙ (ap (λ t. bit_or (bit_and (suc x / 2) (a / 2)) t) (bit_and_half (suc x) b)
                ∙ (bit_or-masks_below n (suc x / 2) (a / 2) (b / 2) (omega arith)
                    ∙ (ap (λ t. bit_and (suc x / 2) t) (sym (bit_or_half a b))
                        ∙ sym (bit_and_half (suc x) (bit_or a b)))))))
      (omega (
        arith,
        bit_or_odd (bit_and (suc x) a) (bit_and (suc x) b),
        bit_and_odd (suc x) a,
        bit_and_odd (suc x) b,
        bit_or_odd a b,
        bit_and_odd (suc x) (bit_or a b),
      ))

-- Two masks of one number, put together.
pub bit_or-masks : (x a b : ℕ) → bit_or (bit_and x a) (bit_and x b) ≡ bit_and x (bit_or a b)
bit_or-masks x a b = bit_or-masks_below x x a b (le_refl x)

bit_and_le_below : (n x y : ℕ) → x ≤ n → (bit_and x y ≤ x) × (bit_and x y ≤ y)
bit_and_le_below n zero y h = rw (zero-bit_and y) (omega arith, omega arith)
bit_and_le_below zero (suc x) y h = absurd (omega arith)
bit_and_le_below (suc n) (suc x) y h =
    let (left, right) = bit_and_le_below n (suc x / 2) (y / 2) (omega arith) in
    let digit = bit_and_digit (suc x) y in (omega (arith, left, digit), omega (arith, right, digit))

pub bit_and_le : (x y : ℕ) → (bit_and x y ≤ x) × (bit_and x y ≤ y)
bit_and_le x y = bit_and_le_below x x y (le_refl x)
