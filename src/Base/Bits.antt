-- ===== src/Base/Bits.antt =====
-- Laws of `&`, `|` and `^` at variables, from the digits that the native operations stand for.
use Prim.Native.Nat.{
  ℕ, zero, suc, ◌+◌, ◌-◌, ◌*◌, ◌/◌, ◌%◌, ◌^◌, ◌≤◌, ◌<◌, min, max, differ, digits, bit_and, bit_or,
  bit_xor, bit_and-bitwise, bit_or-bitwise, bit_xor-bitwise,
}
use mathlib.Core.Path.{◌≡◌, refl, ap}
use mathlib.Core.Logic.{◌⊎◌, inl, inr}
use native.Mathlib.Nat.{pow-suc, one-le-pow, le_refl}
use native.Mathlib.Omega.{arith}

-- More fuel than the first number changes nothing.
digits_more :
    (z : ℕ → ℕ) (f : ℕ → ℕ → ℕ) (n m x y : ℕ) → x ≤ n → x ≤ m → digits z f n x y ≡ digits z f m x y
digits_more z f zero zero x y p q = refl
digits_more z f (suc n) zero zero y p q = refl
digits_more z f (suc n) zero (suc x) y p q = absurd (omega arith)
digits_more z f zero (suc m) zero y p q = refl
digits_more z f zero (suc m) (suc x) y p q = absurd (omega arith)
digits_more z f (suc n) (suc m) zero y p q = refl
digits_more z f (suc n) (suc m) (suc x) y p q =
    rw (digits_more z f n m (suc x / 2) (y / 2) (omega arith) (omega arith))

-- One digit of each operation.
pub bit_and_digit : (x y : ℕ) → bit_and x y ≡ bit_and (x / 2) (y / 2) * 2 + min (x % 2) (y % 2)
bit_and_digit zero y = simp bit_and-bitwise (omega arith)
bit_and_digit (suc x) y = simp bit_and-bitwise (
    omega (
      arith,
      digits_more (λ b. zero) min x (suc x / 2) (suc x / 2) (y / 2) (omega arith) (le_refl _),
    ))

pub bit_or_digit : (x y : ℕ) → bit_or x y ≡ bit_or (x / 2) (y / 2) * 2 + max (x % 2) (y % 2)
bit_or_digit zero y = simp bit_or-bitwise (omega arith)
bit_or_digit (suc x) y = simp bit_or-bitwise (
    omega
      (arith, digits_more (λ b. b) max x (suc x / 2) (suc x / 2) (y / 2) (omega arith) (le_refl _)))

pub bit_xor_digit : (x y : ℕ) → bit_xor x y ≡ bit_xor (x / 2) (y / 2) * 2 + differ (x % 2) (y % 2)
bit_xor_digit zero y = simp bit_xor-bitwise (omega arith)
bit_xor_digit (suc x) y = simp bit_xor-bitwise (
    omega (
      arith,
      digits_more (λ b. b) differ x (suc x / 2) (suc x / 2) (y / 2) (omega arith) (le_refl _),
    ))

differ-zero : (x : ℕ) → x < 2 → differ x 0 ≡ x
differ-zero zero h = refl
differ-zero (suc zero) h = refl
differ-zero (suc (suc x)) h = absurd (omega arith)

-- `&` with nothing, by fuel.
bit_and-zero_below : (n x : ℕ) → x ≤ n → bit_and x 0 ≡ 0
bit_and-zero_below n zero h = refl
bit_and-zero_below zero (suc x) h = absurd (omega arith)
bit_and-zero_below (suc n) (suc x) h =
    omega (arith, bit_and_digit (suc x) 0, bit_and-zero_below n (suc x / 2) (omega arith))

bit_or-zero_below : (n x : ℕ) → x ≤ n → bit_or x 0 ≡ x
bit_or-zero_below n zero h = refl
bit_or-zero_below zero (suc x) h = absurd (omega arith)
bit_or-zero_below (suc n) (suc x) h =
    omega (arith, bit_or_digit (suc x) 0, bit_or-zero_below n (suc x / 2) (omega arith))

bit_xor-zero_below : (n x : ℕ) → x ≤ n → bit_xor x 0 ≡ x
bit_xor-zero_below n zero h = refl
bit_xor-zero_below zero (suc x) h = absurd (omega arith)
bit_xor-zero_below (suc n) (suc x) h = omega (
  arith,
  bit_xor_digit (suc x) 0,
  differ-zero (suc x % 2) (omega arith),
  bit_xor-zero_below n (suc x / 2) (omega arith),
)

pub bit_or-zero : (x : ℕ) → bit_or x 0 ≡ x
bit_or-zero x = bit_or-zero_below x x (le_refl x)

-- `&` with the mask of the `k` low bits is the remainder.
mask_above : (k q r : ℕ) → r < 2 ^ k → bit_and (q * 2 ^ k + r) (2 ^ k - 1) ≡ r
mask_above zero q r h = ground (arith, bit_and-zero_below q q)
mask_above (suc k) q r h = ground (
  arith,
  pow-suc 2 k,
  one-le-pow k 2,
  ap (λ (t : ℕ). q * t) (pow-suc 2 k),
  bit_and_digit (q * 2 ^ suc k + r) (2 ^ suc k - 1),
  mask_above k q (r / 2),
)

pub bit_and_mask : (k x : ℕ) → bit_and x (2 ^ k - 1) ≡ x % 2 ^ k
bit_and_mask k x = ground (arith, one-le-pow k 2, mask_above k (x / 2 ^ k) (x % 2 ^ k))

-- A mask that ends in a zero digit.
pub bit_and_double : (x m : ℕ) → bit_and x (m * 2) ≡ bit_and (x / 2) m * 2
bit_and_double x m = ground (arith, bit_and_digit x (m * 2))

-- A number put above the digits of another, one digit at a time.
pub bit_or_double : (x m : ℕ) → bit_or x (m * 2) ≡ bit_or (x / 2) m * 2 + x % 2
bit_or_double x m = ground (arith, bit_or_digit x (m * 2))

pub zero-bit_or : (x : ℕ) → bit_or 0 x ≡ x
zero-bit_or x = simp bit_or-bitwise

-- `^` with one bit above `v` sets it, and with the top bit of `v` clears it.
pub bit_xor_top :
    (k v : ℕ)
    → v < 2 ^ k + 2 ^ k
    → ((v < 2 ^ k) × (bit_xor v (2 ^ k) ≡ v + 2 ^ k))
      ⊎ ((2 ^ k ≤ v) × (bit_xor v (2 ^ k) ≡ v - 2 ^ k))
bit_xor_top zero zero h = inl (omega arith, refl)
bit_xor_top zero (suc zero) h = inr (omega arith, refl)
bit_xor_top zero (suc (suc v)) h = absurd (omega arith)
bit_xor_top (suc k) v h =
    ground
      (arith, pow-suc 2 k, bit_xor_digit v (2 ^ suc k), differ-zero (v % 2), bit_xor_top k (v / 2))

-- `&`, `|` and `^` of two numbers of `k` bits have `k` bits.
pub bit_or-lt : (k x y : ℕ) → x < 2 ^ k → y < 2 ^ k → bit_or x y < 2 ^ k
bit_or-lt zero zero zero p q = omega arith
bit_or-lt zero zero (suc y) p q = absurd (omega arith)
bit_or-lt zero (suc x) y p q = absurd (omega arith)
bit_or-lt (suc k) x y p q =
    ground (arith, pow-suc 2 k, bit_or_digit x y, bit_or-lt k (x / 2) (y / 2))

-- A mask whose `k` low digits are zero.
pub bit_and_shift :
    (k q r m : ℕ) → r < 2 ^ k → bit_and (q * 2 ^ k + r) (m * 2 ^ k) ≡ bit_and q m * 2 ^ k
bit_and_shift zero q r m h =
    let e : m * 2 ^ 0 ≡ m = omega arith in
    let f : q * 2 ^ 0 + r ≡ q = omega arith in rw e (rw f (omega arith))
bit_and_shift (suc k) q r m h = ground (
  arith,
  pow-suc 2 k,
  ap (λ (t : ℕ). m * t) (pow-suc 2 k),
  ap (λ (t : ℕ). q * t) (pow-suc 2 k),
  ap (λ (t : ℕ). bit_and q m * t) (pow-suc 2 k),
  bit_and_digit (q * 2 ^ suc k + r) (m * 2 ^ suc k),
  bit_and_shift k q (r / 2) m,
)
