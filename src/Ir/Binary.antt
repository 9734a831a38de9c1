-- ===== src/Ir/Binary.antt =====
-- src/ir/dolir_address.c: `binary_value` is right about every operation on numbers.
use dol_recomp.Base.{
  ℕ, ◌%◌, ◌^◌, ◌≤◌, ◌<◌, ◌==◌, bit_and, ◌≡◌, ◌≢◌, inl, inr, true, ◌&&◌, if◌then◌else◌, some,
  some-injective, Bool-cases, arith,
}
use dol_recomp.Base.Bits.{bit_and_mask}
use dol_recomp.Base.Masks.{bit_and_le}
use dol_recomp.Ir.Types.{DolIrType, DolIrOp, DolIrInstruction}
use dol_recomp.Ir.Values.{
  AbstractValue, type_width, maximum, range_value, exact_value, exact_binary, range_op, is_and,
  binary_op, binary_value,
}
use dol_recomp.Ir.Sound.{
  eval_binary, InRange, IsWithin, by_width, range_value-InRange, &&_split, exact_value-eq,
  operand_width,
}
use dol_recomp.Ir.Refine.{exact_binary-InRange, range_add, range_sub, range_lshr, range_shl}

range_op-InRange :
    (op : DolIrOp) (type : DolIrType) (left right : AbstractValue) (x y z : ℕ)
    → type_width type ≢ 0
    → y < 2 ^ operand_width op (type_width type)
    → InRange left x
    → InRange right y
    → IsWithin left (operand_width op (type_width type))
    → IsWithin right (operand_width op (type_width type))
    → left.bounded ≡ true
    → right.bounded ≡ true
    → eval_binary op (type_width type) x y ≡ some z
    → InRange (range_op op (type_width type) left right) z
unfolding range_op
range_op-InRange DolIrOp.add type left right x y z some_width lt p q u v l r h =
    range_add type left right x y z some_width lt p q u v l r h
range_op-InRange DolIrOp.sub type left right x y z some_width lt p q u v l r h =
    range_sub type left right x y z some_width lt p q u v l r h
range_op-InRange DolIrOp.shl type left right x y z some_width lt p q u v l r h =
    range_shl type left right x y z some_width lt p q u v l r h
range_op-InRange DolIrOp.lshr type left right x y z some_width lt p q u v l r h =
    range_lshr type left right x y z some_width lt p q u v l r h
range_op-InRange op type left right x y z some_width lt p q u v l r h =
    exact_binary-InRange op type left right x y z some_width lt p q h

fits_width :
    (x : ℕ) (type : DolIrType)
    → type_width type ≢ 0
    → x < 2 ^ type_width type
    → x % 2 ^ type_width type ≡ x
fits_width x =
    by_width (λ w. x < 2 ^ w → x % 2 ^ w ≡ x) (λ h. omega arith) (λ h. omega arith)
      (λ h. omega arith) (λ h. omega arith) (λ h. omega arith)

truncated_le : (n : ℕ) (type : DolIrType) → type_width type ≢ 0 → n % 2 ^ type_width type ≤ n
truncated_le n =
    by_width (λ w. n % 2 ^ w ≤ n) (omega arith) (omega arith) (omega arith) (omega arith)
      (omega arith)

-- One operand of `&` is known.
and_range :
    (type : DolIrType) (value : AbstractValue) (x n z : ℕ)
    → type_width type ≢ 0
    → x < 2 ^ type_width type
    → exact_value value ≡ true
    → InRange value x
    → n ≤ x
    → n % 2 ^ type_width type ≡ z
    → InRange (range_value 0 (bit_and value.lower (maximum (type_width type))) (type_width type)) z
and_range type value x n z some_width lt exact p small h = rw (exact_value-eq value x exact p) (
    range_value-InRange 0 (bit_and x (maximum (type_width type))) (type_width type) z (omega arith)
      (omega (
        arith,
        truncated_le n type some_width,
        h,
        bit_and_mask (type_width type) x,
        fits_width x type some_width lt,
      )))

-- What follows the test for `&`.
rest-InRange :
    (op : DolIrOp) (type : DolIrType) (left right : AbstractValue) (x y z : ℕ)
    → type_width type ≢ 0
    → x < 2 ^ operand_width op (type_width type)
    → y < 2 ^ operand_width op (type_width type)
    → InRange left x
    → InRange right y
    → IsWithin left (operand_width op (type_width type))
    → IsWithin right (operand_width op (type_width type))
    → eval_binary op (type_width type) x y ≡ some z
    → InRange
        (if left.bounded && right.bounded
          then range_op op (type_width type) left right
          else exact_binary op (type_width type) left right)
        z
rest-InRange op type left right x y z some_width lt lt' p q u v h =
    elim (Bool-cases (left.bounded && right.bounded)) [
      | inl e ↦
          let (l, r) = &&_split left.bounded right.bounded e in
          rw e (range_op-InRange op type left right x y z some_width lt' p q u v l r h)
      | inr e ↦ rw e (exact_binary-InRange op type left right x y z some_width lt' p q h)
    ]

and-InRange :
    (type : DolIrType) (left right : AbstractValue) (x y z : ℕ)
    → type_width type ≢ 0
    → x < 2 ^ operand_width DolIrOp.and_bits (type_width type)
    → y < 2 ^ operand_width DolIrOp.and_bits (type_width type)
    → InRange left x
    → InRange right y
    → IsWithin left (operand_width DolIrOp.and_bits (type_width type))
    → IsWithin right (operand_width DolIrOp.and_bits (type_width type))
    → eval_binary DolIrOp.and_bits (type_width type) x y ≡ some z
    → InRange (binary_op DolIrOp.and_bits (type_width type) left right) z
unfolding binary_op is_and eval_binary operand_width
and-InRange type left right x y z some_width lt lt' p q u v h =
    let rest = rest-InRange DolIrOp.and_bits type left right x y z some_width lt lt' p q u v h in
    let (below, below') = bit_and_le x y in
    let same = some-injective (bit_and x y % 2 ^ type_width type) z h in
    elim (Bool-cases (exact_value left)) [
      | inl e ↦ elim (Bool-cases (exact_value right)) [
        | inl f ↦ rw e (rw f rest)
        | inr f ↦ rw e (rw f (and_range type left x (bit_and x y) z some_width lt e p below same))
      ]
      | inr e ↦ elim (Bool-cases (exact_value right)) [
        | inl f ↦
            rw e (rw f (and_range type right y (bit_and x y) z some_width lt' f q below' same))
        | inr f ↦ rw e (rw f rest)
      ]
    ]

binary_op-InRange :
    (op : DolIrOp) (type : DolIrType) (left right : AbstractValue) (x y z : ℕ)
    → type_width type ≢ 0
    → x < 2 ^ operand_width op (type_width type)
    → y < 2 ^ operand_width op (type_width type)
    → InRange left x
    → InRange right y
    → IsWithin left (operand_width op (type_width type))
    → IsWithin right (operand_width op (type_width type))
    → eval_binary op (type_width type) x y ≡ some z
    → InRange (binary_op op (type_width type) left right) z
unfolding binary_op is_and
binary_op-InRange DolIrOp.and_bits type left right x y z some_width lt lt' p q u v h =
    and-InRange type left right x y z some_width lt lt' p q u v h
binary_op-InRange op type left right x y z some_width lt lt' p q u v h =
    rest-InRange op type left right x y z some_width lt lt' p q u v h

-- Where two operands are in their ranges, both numbers and ranges of the width (of 64 bits for a comparison),
-- and the operation gives a number, `binary_value` gives a range that holds it: ADD, SUB, MUL, UDIV,
-- AND, OR, XOR, SHL, LSHR and the comparisons EQ, NE, ULT and ULE, at each type that has a width.
pub binary_value-InRange :
    (instruction : DolIrInstruction) (left right : AbstractValue) (x y z : ℕ)
    → type_width instruction.type ≢ 0
    → x < 2 ^ operand_width instruction.op (type_width instruction.type)
    → y < 2 ^ operand_width instruction.op (type_width instruction.type)
    → InRange left x
    → InRange right y
    → IsWithin left (operand_width instruction.op (type_width instruction.type))
    → IsWithin right (operand_width instruction.op (type_width instruction.type))
    → eval_binary instruction.op (type_width instruction.type) x y ≡ some z
    → InRange (binary_value instruction left right) z
unfolding binary_value
binary_value-InRange instruction left right x y z some_width lt lt' p q u v h =
    elim (Bool-cases (type_width instruction.type == 0)) [
      | inl e ↦ absurd (some_width (ground arith))
      | inr e ↦ rw e (
          binary_op-InRange instruction.op instruction.type left right x y z some_width lt lt' p q u
            v h)
    ]
