-- ===== src/Ir/Sound.antt =====
-- src/ir/dolir_address.c: the ranges of `binary_value` against the operations on numbers.
use dol_recomp.Base.{
  ℕ, ◌+◌, ◌-◌, ◌*◌, ◌/◌, ◌%◌, ◌^◌, ◌≤◌, ◌<◌, ◌==◌, ltb, leb, shr, bit_and, bit_or, bit_xor, ◌≡◌,
  ◌≢◌, ◌⊎◌, refl, ◌∙◌, inl, inr, Bool, true, false, not, ◌&&◌, ◌||◌, if◌then◌else◌, Option, none,
  some, some-injective, Bool-cases, arith,
}
use dol_recomp.Ir.Types.{DolIrType, DolIrOp}
use dol_recomp.Ir.Values.{
  AbstractValue, type_width, u64, truncate_bits, unknown_value, maximum, range_value, known_value,
  exact_value, of_bool, exact_op,
}

-- What an operation gives on numbers of the width, where it gives anything. This is no part of the
-- program: a division by 0 and a shift by the width or more have no result.
unfoldable pub eval_binary : DolIrOp → ℕ → ℕ → ℕ → Option ℕ
eval_binary DolIrOp.add width x y = some ((x + y) % 2 ^ width)
eval_binary DolIrOp.sub width x y = some ((x + 2 ^ width - y) % 2 ^ width)
eval_binary DolIrOp.mul width x y = some (x * y % 2 ^ width)
eval_binary DolIrOp.udiv width x y = if y == 0 then none else some (x / y % 2 ^ width)
eval_binary DolIrOp.and_bits width x y = some (bit_and x y % 2 ^ width)
eval_binary DolIrOp.or_bits width x y = some (bit_or x y % 2 ^ width)
eval_binary DolIrOp.xor_bits width x y = some (bit_xor x y % 2 ^ width)
eval_binary DolIrOp.shl width x y = if ltb y width then some (x * 2 ^ y % 2 ^ width) else none
eval_binary DolIrOp.lshr width x y = if ltb y width then some (x / 2 ^ y % 2 ^ width) else none
eval_binary DolIrOp.icmp_eq width x y = some (of_bool (x == y))
eval_binary DolIrOp.icmp_ne width x y = some (of_bool (not (x == y)))
eval_binary DolIrOp.icmp_ult width x y = some (of_bool (ltb x y))
eval_binary DolIrOp.icmp_ule width x y = some (of_bool (leb x y))
eval_binary _ width x y = none

-- A range that is bounded holds the number.
unfoldable pub InRange : AbstractValue → ℕ → Type 0
InRange value x = (value.bounded ≡ false) ⊎ ((value.lower ≤ x) × (x ≤ value.upper))

-- A bounded range ends with the numbers of the width.
unfoldable pub IsWithin : AbstractValue → ℕ → Type 0
IsWithin value width = (value.bounded ≡ false) ⊎ (value.upper < 2 ^ width)

pub in_range :
    (value : AbstractValue) (x : ℕ)
    → InRange value x
    → value.bounded ≡ true
    → (value.lower ≤ x) × (x ≤ value.upper)
unfolding InRange
in_range value x (inl e) h = cc
in_range value x (inr p) h = p

pub within_width :
    (value : AbstractValue) (width : ℕ)
    → IsWithin value width
    → value.bounded ≡ true
    → value.upper < 2 ^ width
unfolding IsWithin
within_width value width (inl e) h = cc
within_width value width (inr p) h = p

-- What holds at the five widths holds at the width of each type that has one.
pub by_width :
    (P : ℕ → Type 0)
    → P 1
    → P 8
    → P 16
    → P 32
    → P 64
    → (type : DolIrType) → type_width type ≢ 0
    → P (type_width type)
unfolding type_width
by_width P a b c d e DolIrType.i1 h = a
by_width P a b c d e DolIrType.i8 h = b
by_width P a b c d e DolIrType.i16 h = c
by_width P a b c d e DolIrType.i32 h = d
by_width P a b c d e DolIrType.i64 h = e
by_width P a b c d e DolIrType.void h = absurd (h refl)
by_width P a b c d e DolIrType.f32 h = absurd (h refl)
by_width P a b c d e DolIrType.f64 h = absurd (h refl)
by_width P a b c d e DolIrType.v2f32 h = absurd (h refl)
by_width P a b c d e DolIrType.v2f64 h = absurd (h refl)

pub unknown_InRange : (x : ℕ) → InRange unknown_value x
unfolding InRange
unknown_InRange x = inl refl

pub range_value-InRange :
    (lower upper width x : ℕ) → lower ≤ x → x ≤ upper → InRange (range_value lower upper width) x
unfolding InRange range_value
range_value-InRange lower upper width x p q =
    elim (Bool-cases (ltb upper lower || ltb (maximum width) upper)) [
      | inl e ↦ rw e (unknown_InRange x)
      | inr e ↦ rw e (inr (p, q))
    ]

known_value-InRange : (bits width x : ℕ) → bits % 2 ^ width ≡ x → InRange (known_value bits width) x
unfolding known_value truncate_bits
known_value-InRange bits width x e =
    range_value-InRange (bits % 2 ^ width) (bits % 2 ^ width) width x (omega (arith, e))
      (omega (arith, e))

u64_truncate :
    (n : ℕ) (type : DolIrType)
    → type_width type ≢ 0
    → u64 n % 2 ^ type_width type ≡ n % 2 ^ type_width type
u64_truncate n =
    by_width (λ w. u64 n % 2 ^ w ≡ n % 2 ^ w) (omega arith) (omega arith) (omega arith)
      (omega arith) (omega arith)

pub &&_split : (a b : Bool) → a && b ≡ true → (a ≡ true) × (b ≡ true)
&&_split true true h = (refl, refl)
&&_split true false h = cc
&&_split false b h = cc

pub exact_value-eq :
    (value : AbstractValue) (x : ℕ) → exact_value value ≡ true → InRange value x → value.lower ≡ x
unfolding exact_value InRange
exact_value-eq value x e h =
    let (on, same) = &&_split value.bounded (value.lower == value.upper) e in
    let (p, q) = in_range value x h on in ground arith

-- A comparison takes numbers of any width.
unfoldable pub operand_width : DolIrOp → ℕ → ℕ
operand_width DolIrOp.icmp_eq width = 64
operand_width DolIrOp.icmp_ne width = 64
operand_width DolIrOp.icmp_ult width = 64
operand_width DolIrOp.icmp_ule width = 64
operand_width _ width = width

of_bool_one : (b : Bool) → of_bool b % 2 ^ 1 ≡ of_bool b
of_bool_one true = refl
of_bool_one false = refl

sub_truncate :
    (x y : ℕ) (type : DolIrType)
    → type_width type ≢ 0
    → y < 2 ^ type_width type
    → u64 (x + 2 ^ 64 - y) % 2 ^ type_width type
      ≡ (x + 2 ^ type_width type - y) % 2 ^ type_width type
sub_truncate x y =
    by_width (λ w. y < 2 ^ w → u64 (x + 2 ^ 64 - y) % 2 ^ w ≡ (x + 2 ^ w - y) % 2 ^ w)
      (λ h. omega arith) (λ h. omega arith) (λ h. omega arith) (λ h. omega arith) (λ h. omega arith)

pub exact_op-InRange :
    (op : DolIrOp) (type : DolIrType) (x y z : ℕ)
    → type_width type ≢ 0
    → y < 2 ^ operand_width op (type_width type)
    → eval_binary op (type_width type) x y ≡ some z
    → InRange (exact_op op (type_width type) x y) z
unfolding exact_op eval_binary operand_width
exact_op-InRange DolIrOp.add type x y z some_width lt h =
    known_value-InRange (u64 (x + y)) (type_width type) z
      (u64_truncate (x + y) type some_width ∙ some-injective _ z h)
exact_op-InRange DolIrOp.sub type x y z some_width lt h =
    known_value-InRange (u64 (x + 2 ^ 64 - y)) (type_width type) z
      (sub_truncate x y type some_width lt ∙ some-injective _ z h)
exact_op-InRange DolIrOp.mul type x y z some_width lt h =
    known_value-InRange (u64 (x * y)) (type_width type) z
      (u64_truncate (x * y) type some_width ∙ some-injective _ z h)
exact_op-InRange DolIrOp.udiv type x y z some_width lt h = elim (Bool-cases (y == 0)) [
  | inl e ↦ rw e (unknown_InRange z)
  | inr e ↦ rw e (known_value-InRange (x / y) (type_width type) z (some-injective _ z (rw e at h)))
]
exact_op-InRange DolIrOp.and_bits type x y z some_width lt h =
    known_value-InRange (bit_and x y) (type_width type) z (some-injective _ z h)
exact_op-InRange DolIrOp.or_bits type x y z some_width lt h =
    known_value-InRange (bit_or x y) (type_width type) z (some-injective _ z h)
exact_op-InRange DolIrOp.xor_bits type x y z some_width lt h =
    known_value-InRange (bit_xor x y) (type_width type) z (some-injective _ z h)
exact_op-InRange DolIrOp.shl type x y z some_width lt h =
    elim (Bool-cases (ltb y (type_width type))) [
      | inl e ↦ rw e (
          known_value-InRange (u64 (x * 2 ^ y)) (type_width type) z
            (u64_truncate (x * 2 ^ y) type some_width ∙ some-injective _ z (rw e at h)))
      | inr e ↦ rw e (unknown_InRange z)
    ]
exact_op-InRange DolIrOp.lshr type x y z some_width lt h =
    elim (Bool-cases (ltb y (type_width type))) [
      | inl e ↦
          rw e (known_value-InRange (shr x y) (type_width type) z (some-injective _ z (rw e at h)))
      | inr e ↦ rw e (unknown_InRange z)
    ]
exact_op-InRange DolIrOp.icmp_eq type x y z some_width lt h =
    known_value-InRange (of_bool (x == y)) 1 z (of_bool_one (x == y) ∙ some-injective _ z h)
exact_op-InRange DolIrOp.icmp_ne type x y z some_width lt h =
    known_value-InRange (of_bool (not (x == y))) 1 z
      (of_bool_one (not (x == y)) ∙ some-injective _ z h)
exact_op-InRange DolIrOp.icmp_ult type x y z some_width lt h =
    known_value-InRange (of_bool (ltb x y)) 1 z (of_bool_one (ltb x y) ∙ some-injective _ z h)
exact_op-InRange DolIrOp.icmp_ule type x y z some_width lt h =
    known_value-InRange (of_bool (leb x y)) 1 z (of_bool_one (leb x y) ∙ some-injective _ z h)
exact_op-InRange op type x y z some_width lt h = cc
