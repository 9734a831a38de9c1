-- ===== src/Base/Shifts.antt =====
-- The high digits of `&` and `^`, and when `^` is 0.
use Prim.Native.Nat.{
  ℕ, zero, suc, ◌*◌, ◌/◌, ◌%◌, ◌^◌, ◌≤◌, ◌<◌, differ, bit_and, bit_xor, bit_xor-bitwise,
}
use mathlib.Core.Path.{◌≡◌, refl, ap, sym, ◌∙◌}
use mathlib.Core.Logic.{◌↔◌}
use native.Mathlib.Nat.{le_refl, pow-suc, div-div-eq-div-mul}
use native.Mathlib.Omega.{arith}
use dol_recomp.Base.Bits.{bit_and_digit, bit_xor_digit}

differ-lt : (x y : ℕ) → x < 2 → y < 2 → differ x y < 2
differ-lt zero zero p q = omega arith
differ-lt zero (suc zero) p q = omega arith
differ-lt (suc zero) zero p q = omega arith
differ-lt (suc zero) (suc zero) p q = omega arith
differ-lt (suc (suc x)) y p q = absurd (omega arith)
differ-lt zero (suc (suc y)) p q = absurd (omega arith)
differ-lt (suc zero) (suc (suc y)) p q = absurd (omega arith)

differ_none : (x y : ℕ) → x < 2 → y < 2 → differ x y ≡ 0 → x ≡ y
differ_none zero zero p q h = refl
differ_none zero (suc zero) p q h = absurd (omega (arith, h))
differ_none (suc zero) zero p q h = absurd (omega (arith, h))
differ_none (suc zero) (suc zero) p q h = refl
differ_none (suc (suc x)) y p q h = absurd (omega arith)
differ_none zero (suc (suc y)) p q h = absurd (omega arith)
differ_none (suc zero) (suc (suc y)) p q h = absurd (omega arith)

differ_self : (x : ℕ) → x < 2 → differ x x ≡ 0
differ_self zero p = refl
differ_self (suc zero) p = refl
differ_self (suc (suc x)) p = absurd (omega arith)

half_shift : (x k : ℕ) → x / 2 / 2 ^ k ≡ x / 2 ^ suc k
half_shift x k =
    let e : 2 * 2 ^ k ≡ 2 ^ suc k = omega (arith, pow-suc 2 k) in
    div-div-eq-div-mul x 2 (2 ^ k) ∙ ap (λ (t : ℕ). x / t) e

one_shift : (x : ℕ) → x / 2 ^ 0 ≡ x
one_shift x = omega arith

-- An operation that works digit by digit commutes with a shift.
shift_digits :
    (f : ℕ → ℕ → ℕ) (k x y : ℕ)
    → ((p q : ℕ) → f p q / 2 ≡ f (p / 2) (q / 2))
    → f x y / 2 ^ k ≡ f (x / 2 ^ k) (y / 2 ^ k)
shift_digits f zero x y half = rw (one_shift x) (rw (one_shift y) (one_shift (f x y)))
shift_digits f (suc k) x y half =
    sym (half_shift (f x y) k)
    ∙ (ap (λ (t : ℕ). t / 2 ^ k) (half x y)
        ∙ (shift_digits f k (x / 2) (y / 2) half
            ∙ (ap (λ (t : ℕ). f t (y / 2 / 2 ^ k)) (half_shift x k)
                ∙ ap (λ (t : ℕ). f (x / 2 ^ suc k) t) (half_shift y k))))

pub bit_and_shr : (k x y : ℕ) → bit_and x y / 2 ^ k ≡ bit_and (x / 2 ^ k) (y / 2 ^ k)
bit_and_shr k x y = shift_digits bit_and k x y (λ p q. omega (arith, bit_and_digit p q))

pub bit_xor_shr : (k x y : ℕ) → bit_xor x y / 2 ^ k ≡ bit_xor (x / 2 ^ k) (y / 2 ^ k)
bit_xor_shr k x y =
    shift_digits bit_xor k x y (λ p q.
      omega (arith, bit_xor_digit p q, differ-lt (p % 2) (q % 2) (omega arith) (omega arith)))

zero-bit_xor : (x : ℕ) → bit_xor 0 x ≡ x
zero-bit_xor x = simp bit_xor-bitwise

bit_xor_none_below : (n x y : ℕ) → x ≤ n → bit_xor x y ≡ 0 → x ≡ y
bit_xor_none_below n zero y h e = sym e ∙ zero-bit_xor y
bit_xor_none_below zero (suc x) y h e = absurd (omega arith)
bit_xor_none_below (suc n) (suc x) y h e =
    let d = bit_xor_digit (suc x) y in
    let lt = differ-lt (suc x % 2) (y % 2) (omega arith) (omega arith) in
    let high = bit_xor_none_below n (suc x / 2) (y / 2) (omega arith) (omega (arith, d, e)) in
    let low = differ_none (suc x % 2) (y % 2) (omega arith) (omega arith) (omega (arith, d, e)) in
    omega (arith, high, low)

bit_xor_self_below : (n x : ℕ) → x ≤ n → bit_xor x x ≡ 0
bit_xor_self_below n zero h = refl
bit_xor_self_below zero (suc x) h = absurd (omega arith)
bit_xor_self_below (suc n) (suc x) h = omega (
  arith,
  bit_xor_digit (suc x) (suc x),
  differ_self (suc x % 2) (omega arith),
  bit_xor_self_below n (suc x / 2) (omega arith),
)

-- `^` is 0 exactly for equal numbers.
pub bit_xor-zero_iff : (x y : ℕ) → (bit_xor x y ≡ 0) ↔ (x ≡ y)
bit_xor-zero_iff x y = (
  bit_xor_none_below x x y (le_refl x),
  λ e. ap (λ (t : ℕ). bit_xor x t) (sym e) ∙ bit_xor_self_below x x (le_refl x),
)
