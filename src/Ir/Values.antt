-- ===== src/Ir/Values.antt =====
-- src/ir/dolir_address.c: the ranges of values and what each operation makes of them.
use dol_recomp.Base.{
  ℕ, zero, suc, ◌+◌, ◌-◌, ◌*◌, ◌/◌, ◌%◌, ◌^◌, ◌==◌, ltb, leb, u32, shr, bit_and, bit_or, bit_xor,
  Bool, true, false, not, ◌&&◌, ◌||◌, if◌then◌else◌,
}
use dol_recomp.Ir.Types.{DolIrType, DolIrOp, DolIrInstruction}

pub record AbstractValue : Type 0 where
  pub lower : ℕ
  pub upper : ℕ
  pub bounded : Bool

unfoldable pub type_width : DolIrType → ℕ
type_width DolIrType.i1 = 1
type_width DolIrType.i8 = 8
type_width DolIrType.i16 = 16
type_width DolIrType.i32 = 32
type_width DolIrType.i64 = 64
type_width _ = 0

-- A number of 64 bits: `u64`.
abbrev pub u64 : ℕ → ℕ
u64 n = n % 2 ^ 64

-- `value & ((1 << width) - 1)`, and all of a number of 64 bits.
unfoldable pub truncate_bits : ℕ → ℕ → ℕ
truncate_bits value width = value % 2 ^ width

abbrev pub unknown_value : AbstractValue
unknown_value = record { lower = 0; upper = 0; bounded = false }

-- The greatest number of the width.
abbrev pub maximum : ℕ → ℕ
maximum width = 2 ^ width - 1

unfoldable pub range_value : ℕ → ℕ → ℕ → AbstractValue
range_value lower upper width =
    if ltb upper lower || ltb (maximum width) upper
    then unknown_value
    else record { lower = lower; upper = upper; bounded = true }

unfoldable pub known_value : ℕ → ℕ → AbstractValue
known_value bits width = let value = truncate_bits bits width in range_value value value width

unfoldable pub exact_value : AbstractValue → Bool
exact_value value = value.bounded && (value.lower == value.upper)

-- A number of 64 bits with every bit turned: `~value`.
abbrev pub invert : ℕ → ℕ
invert value = 2 ^ 64 - 1 - value

-- The loop that counts leading zeros, for the rounds left from bit `width - count - 1` on.
unfoldable pub leading_zeros : ℕ → ℕ → ℕ → ℕ
leading_zeros value count zero = count
leading_zeros value count (suc bit) =
    let rest = leading_zeros value (suc count) bit in
    if value / 2 ^ bit % 2 == 0 then rest else count

unfoldable pub unary_op : DolIrOp → ℕ → AbstractValue → AbstractValue
unary_op DolIrOp.not_bits width operand =
    if exact_value operand then known_value (invert operand.lower) width else unknown_value
unary_op DolIrOp.trunc width operand =
    if operand.bounded then range_value operand.lower operand.upper width else unknown_value
unary_op DolIrOp.zext width operand =
    if operand.bounded then range_value operand.lower operand.upper width else unknown_value
unary_op DolIrOp.clz width operand =
    if not (exact_value operand)
    then unknown_value
    else known_value (leading_zeros operand.lower 0 width) width
unary_op _ width operand = unknown_value

unfoldable pub unary_value : DolIrInstruction → AbstractValue → AbstractValue
unary_value instruction operand =
    let width = type_width instruction.type in
    if width == 0 then unknown_value else unary_op instruction.op width operand

-- A comparison as a number.
abbrev pub of_bool : Bool → ℕ
of_bool b = if b then 1 else 0

-- The last switch: two known operands. Each result is one of 64 bits.
unfoldable pub exact_op : DolIrOp → ℕ → ℕ → ℕ → AbstractValue
exact_op DolIrOp.add width x y = known_value (u64 (x + y)) width
exact_op DolIrOp.sub width x y = known_value (u64 (x + 2 ^ 64 - y)) width
exact_op DolIrOp.mul width x y = known_value (u64 (x * y)) width
exact_op DolIrOp.udiv width x y = if y == 0 then unknown_value else known_value (x / y) width
exact_op DolIrOp.and_bits width x y = known_value (bit_and x y) width
exact_op DolIrOp.or_bits width x y = known_value (bit_or x y) width
exact_op DolIrOp.xor_bits width x y = known_value (bit_xor x y) width
exact_op DolIrOp.shl width x y =
    if ltb y width then known_value (u64 (x * 2 ^ y)) width else unknown_value
exact_op DolIrOp.lshr width x y = if ltb y width then known_value (shr x y) width else unknown_value
exact_op DolIrOp.rotl width x y =
    let shift = bit_and (u32 y) (width - 1) in
    if shift == 0
    then known_value x width
    else known_value (bit_or (u64 (x * 2 ^ shift)) (shr x (width - shift))) width
exact_op DolIrOp.icmp_eq width x y = known_value (of_bool (x == y)) 1
exact_op DolIrOp.icmp_ne width x y = known_value (of_bool (not (x == y))) 1
exact_op DolIrOp.icmp_ult width x y = known_value (of_bool (ltb x y)) 1
exact_op DolIrOp.icmp_ule width x y = known_value (of_bool (leb x y)) 1
exact_op _ width x y = unknown_value

-- The end of `binary_value`.
unfoldable pub exact_binary : DolIrOp → ℕ → AbstractValue → AbstractValue → AbstractValue
exact_binary op width left right =
    if not (exact_value left) || not (exact_value right)
    then unknown_value
    else exact_op op width left.lower right.lower

-- The middle switch: two ranges. A difference of unsigned numbers wraps, as in the code.
unfoldable pub range_op : DolIrOp → ℕ → AbstractValue → AbstractValue → AbstractValue
range_op DolIrOp.add width left right =
    if leb left.upper (u64 (maximum width + 2 ^ 64 - right.upper))
    then range_value (u64 (left.lower + right.lower)) (u64 (left.upper + right.upper)) width
    else exact_binary DolIrOp.add width left right
range_op DolIrOp.sub width left right =
    if leb right.upper left.lower
    then range_value (left.lower - right.upper) (u64 (left.upper + 2 ^ 64 - right.lower)) width
    else exact_binary DolIrOp.sub width left right
range_op DolIrOp.lshr width left right =
    if exact_value right && ltb right.lower width
    then range_value (shr left.lower right.lower) (shr left.upper right.lower) width
    else exact_binary DolIrOp.lshr width left right
range_op DolIrOp.shl width left right =
    if exact_value right
      && (ltb right.lower width && leb left.upper (shr (maximum width) right.lower))
    then range_value (u64 (left.lower * 2 ^ right.lower)) (u64 (left.upper * 2 ^ right.lower)) width
    else exact_binary DolIrOp.shl width left right
range_op op width left right = exact_binary op width left right

unfoldable pub is_and : DolIrOp → Bool
is_and DolIrOp.and_bits = true
is_and _ = false

unfoldable pub binary_op : DolIrOp → ℕ → AbstractValue → AbstractValue → AbstractValue
binary_op op width left right =
    let rest =
      if left.bounded && right.bounded
      then range_op op width left right
      else exact_binary op width left right in
    if is_and op && not (exact_value left && exact_value right)
    then (if exact_value left
        then range_value 0 (bit_and left.lower (maximum width)) width
        else if exact_value right
        then range_value 0 (bit_and right.lower (maximum width)) width
        else rest)
    else rest

unfoldable pub binary_value : DolIrInstruction → AbstractValue → AbstractValue → AbstractValue
binary_value instruction left right =
    let width = type_width instruction.type in
    if width == 0 then unknown_value else binary_op instruction.op width left right
