-- ===== src/Ir/Refine.antt =====
-- src/ir/dolir_address.c: `binary_value` on ranges, whole.
use dol_recomp.Base.{
  ℕ, ◌+◌, ◌-◌, ◌*◌, ◌/◌, ◌%◌, ◌^◌, ◌≤◌, ◌<◌, ltb, leb, shr, ◌≡◌, ◌≢◌, subst, inl, inr, Bool, true,
  false, ◌&&◌, if◌then◌else◌, none, some, some-injective, Bool-cases, arith,
}
use native.Mathlib.Nat.{
  one-le-pow, le-div_iff_mul-le, div-mul-le_self, mul-le-mul_right, div-le_self, le_trans,
}
use dol_recomp.Ir.Types.{DolIrType, DolIrOp}
use dol_recomp.Ir.Values.{
  AbstractValue, type_width, u64, maximum, range_value, exact_value, exact_binary, range_op,
}
use dol_recomp.Ir.Sound.{
  eval_binary, InRange, IsWithin, by_width, unknown_InRange, range_value-InRange, &&_split,
  exact_value-eq, operand_width, exact_op-InRange, in_range, within_width,
}

pub exact_binary-InRange :
    (op : DolIrOp) (type : DolIrType) (left right : AbstractValue) (x y z : ℕ)
    → type_width type ≢ 0
    → y < 2 ^ operand_width op (type_width type)
    → InRange left x
    → InRange right y
    → eval_binary op (type_width type) x y ≡ some z
    → InRange (exact_binary op (type_width type) left right) z
unfolding exact_binary
exact_binary-InRange op type left right x y z some_width lt p q h =
    elim (Bool-cases (exact_value left)) [
      | inr e ↦ rw e (unknown_InRange z)
      | inl e ↦ elim (Bool-cases (exact_value right)) [
        | inr f ↦ rw e (rw f (unknown_InRange z))
        | inl f ↦ rw e (
            rw f (
              rw (exact_value-eq left x e p)
                (rw (exact_value-eq right y f q) (exact_op-InRange op type x y z some_width lt h))))
      ]
    ]

add_range :
    (ll lu rl ru x y : ℕ) (type : DolIrType)
    → type_width type ≢ 0
    → ll ≤ x
    → x ≤ lu
    → rl ≤ y
    → y ≤ ru
    → ru < 2 ^ type_width type
    → lu ≤ u64 (maximum (type_width type) + 2 ^ 64 - ru)
    → (u64 (ll + rl) ≤ (x + y) % 2 ^ type_width type)
      × ((x + y) % 2 ^ type_width type ≤ u64 (lu + ru))
add_range ll lu rl ru x y type some_width a b c d =
    by_width
      (λ w.
        ru < 2 ^ w
        → lu ≤ u64 (maximum w + 2 ^ 64 - ru)
        → (u64 (ll + rl) ≤ (x + y) % 2 ^ w) × ((x + y) % 2 ^ w ≤ u64 (lu + ru)))
      (λ f g. (omega arith, omega arith)) (λ f g. (omega arith, omega arith))
      (λ f g. (omega arith, omega arith)) (λ f g. (omega arith, omega arith))
      (λ f g. (omega arith, omega arith)) type some_width

sub_range :
    (ll lu rl ru x y : ℕ) (type : DolIrType)
    → type_width type ≢ 0
    → ll ≤ x
    → x ≤ lu
    → rl ≤ y
    → y ≤ ru
    → ru ≤ ll
    → lu < 2 ^ type_width type
    → (ll - ru ≤ (x + 2 ^ type_width type - y) % 2 ^ type_width type)
      × ((x + 2 ^ type_width type - y) % 2 ^ type_width type ≤ u64 (lu + 2 ^ 64 - rl))
sub_range ll lu rl ru x y type some_width a b c d e =
    by_width
      (λ w.
        lu < 2 ^ w
        → (ll - ru ≤ (x + 2 ^ w - y) % 2 ^ w) × ((x + 2 ^ w - y) % 2 ^ w ≤ u64 (lu + 2 ^ 64 - rl)))
      (λ f. (omega arith, omega arith)) (λ f. (omega arith, omega arith))
      (λ f. (omega arith, omega arith)) (λ f. (omega arith, omega arith))
      (λ f. (omega arith, omega arith)) type some_width

-- A number between two that fit the width.
between :
    (a m b : ℕ) (type : DolIrType)
    → type_width type ≢ 0
    → a ≤ m
    → m ≤ b
    → b ≤ maximum (type_width type)
    → (a ≤ m % 2 ^ type_width type)
      × (m % 2 ^ type_width type ≤ b)
      × (u64 a ≤ m % 2 ^ type_width type)
      × (m % 2 ^ type_width type ≤ u64 b)
between a m b type some_width p q =
    by_width
      (λ w.
        b ≤ maximum w
        → (a ≤ m % 2 ^ w) × (m % 2 ^ w ≤ b) × (u64 a ≤ m % 2 ^ w) × (m % 2 ^ w ≤ u64 b))
      (λ f. (omega arith, omega arith, omega arith, omega arith))
      (λ f. (omega arith, omega arith, omega arith, omega arith))
      (λ f. (omega arith, omega arith, omega arith, omega arith))
      (λ f. (omega arith, omega arith, omega arith, omega arith))
      (λ f. (omega arith, omega arith, omega arith, omega arith)) type some_width

div_le : (a b k : ℕ) → a ≤ b → a / 2 ^ k ≤ b / 2 ^ k
div_le a b k h =
    let lower = div-mul-le_self a (2 ^ k) in
    (le-div_iff_mul-le (one-le-pow k 2 (omega arith))).1 (omega (arith, lower))

if_some : (b : Bool) (n : ℕ) {z : ℕ} → (if b then some n else none) ≡ some z → some n ≡ some z
if_some true n h = h
if_some false n h = cc

pub range_add :
    (type : DolIrType) (left right : AbstractValue) (x y z : ℕ)
    → type_width type ≢ 0
    → y < 2 ^ operand_width DolIrOp.add (type_width type)
    → InRange left x
    → InRange right y
    → IsWithin left (operand_width DolIrOp.add (type_width type))
    → IsWithin right (operand_width DolIrOp.add (type_width type))
    → left.bounded ≡ true
    → right.bounded ≡ true
    → eval_binary DolIrOp.add (type_width type) x y ≡ some z
    → InRange (range_op DolIrOp.add (type_width type) left right) z
unfolding range_op eval_binary operand_width InRange IsWithin
range_add type left right x y z some_width lt p q u v l r h =
    let (left_lower, left_upper) = in_range left x p l in
    let (right_lower, right_upper) = in_range right y q r in
    elim (Bool-cases (leb left.upper (u64 (maximum (type_width type) + 2 ^ 64 - right.upper)))) [
      | inl e ↦
          let (low, high) =
            add_range left.lower left.upper right.lower right.upper x y type some_width left_lower
              left_upper right_lower right_upper (within_width right (type_width type) v r)
              (ground arith) in
          rw e (
            subst
              (λ n.
                InRange
                  (range_value (u64 (left.lower + right.lower)) (u64 (left.upper + right.upper))
                    (type_width type))
                  n)
              (some-injective _ z h) (range_value-InRange _ _ (type_width type) _ low high))
      | inr e ↦ rw e (exact_binary-InRange DolIrOp.add type left right x y z some_width lt p q h)
    ]

pub range_sub :
    (type : DolIrType) (left right : AbstractValue) (x y z : ℕ)
    → type_width type ≢ 0
    → y < 2 ^ operand_width DolIrOp.sub (type_width type)
    → InRange left x
    → InRange right y
    → IsWithin left (operand_width DolIrOp.sub (type_width type))
    → IsWithin right (operand_width DolIrOp.sub (type_width type))
    → left.bounded ≡ true
    → right.bounded ≡ true
    → eval_binary DolIrOp.sub (type_width type) x y ≡ some z
    → InRange (range_op DolIrOp.sub (type_width type) left right) z
unfolding range_op eval_binary operand_width InRange IsWithin
range_sub type left right x y z some_width lt p q u v l r h =
    let (left_lower, left_upper) = in_range left x p l in
    let (right_lower, right_upper) = in_range right y q r in
    elim (Bool-cases (leb right.upper left.lower)) [
      | inl e ↦
          let (low, high) =
            sub_range left.lower left.upper right.lower right.upper x y type some_width left_lower
              left_upper right_lower right_upper (ground arith)
              (within_width left (type_width type) u l) in
          rw e (
            subst
              (λ n.
                InRange
                  (range_value (left.lower - right.upper) (u64 (left.upper + 2 ^ 64 - right.lower))
                    (type_width type))
                  n)
              (some-injective _ z h) (range_value-InRange _ _ (type_width type) _ low high))
      | inr e ↦ rw e (exact_binary-InRange DolIrOp.sub type left right x y z some_width lt p q h)
    ]

pub range_lshr :
    (type : DolIrType) (left right : AbstractValue) (x y z : ℕ)
    → type_width type ≢ 0
    → y < 2 ^ operand_width DolIrOp.lshr (type_width type)
    → InRange left x
    → InRange right y
    → IsWithin left (operand_width DolIrOp.lshr (type_width type))
    → IsWithin right (operand_width DolIrOp.lshr (type_width type))
    → left.bounded ≡ true
    → right.bounded ≡ true
    → eval_binary DolIrOp.lshr (type_width type) x y ≡ some z
    → InRange (range_op DolIrOp.lshr (type_width type) left right) z
unfolding range_op eval_binary operand_width InRange IsWithin
range_lshr type left right x y z some_width lt p q u v l r h =
    let (left_lower, left_upper) = in_range left x p l in
    let (right_lower, right_upper) = in_range right y q r in
    elim (Bool-cases (exact_value right && ltb right.lower (type_width type))) [
      | inl e ↦
          let (exact, small) = &&_split (exact_value right) (ltb right.lower (type_width type)) e in
          let same = exact_value-eq right y exact q in
          let (low, high, low', high') =
            between (left.lower / 2 ^ y) (x / 2 ^ y) (left.upper / 2 ^ y) type some_width
              (div_le left.lower x y left_lower) (div_le x left.upper y left_upper)
              (le_trans (div-le_self left.upper (2 ^ y))
                (ground (arith, within_width left (type_width type) u l))) in
          let shifted =
            subst
              (λ n.
                InRange (range_value (left.lower / 2 ^ y) (left.upper / 2 ^ y) (type_width type)) n)
              (some-injective _ z
                (if_some (ltb y (type_width type)) (x / 2 ^ y % 2 ^ type_width type) h))
              (range_value-InRange _ _ (type_width type) _ low high) in
          rw e (rw same shifted)
      | inr e ↦ rw e (exact_binary-InRange DolIrOp.lshr type left right x y z some_width lt p q h)
    ]

pub range_shl :
    (type : DolIrType) (left right : AbstractValue) (x y z : ℕ)
    → type_width type ≢ 0
    → y < 2 ^ operand_width DolIrOp.shl (type_width type)
    → InRange left x
    → InRange right y
    → IsWithin left (operand_width DolIrOp.shl (type_width type))
    → IsWithin right (operand_width DolIrOp.shl (type_width type))
    → left.bounded ≡ true
    → right.bounded ≡ true
    → eval_binary DolIrOp.shl (type_width type) x y ≡ some z
    → InRange (range_op DolIrOp.shl (type_width type) left right) z
unfolding range_op eval_binary operand_width InRange IsWithin
range_shl type left right x y z some_width lt p q u v l r h =
    let (left_lower, left_upper) = in_range left x p l in
    let (right_lower, right_upper) = in_range right y q r in
    elim (Bool-cases (
      exact_value right
      && (ltb right.lower (type_width type)
          && leb left.upper (shr (maximum (type_width type)) right.lower)))) [
            | inl e ↦
                let (exact, small) = &&_split (exact_value right) _ e in
                let (short, room) = &&_split (ltb right.lower (type_width type)) _ small in
                let same = exact_value-eq right y exact q in
                let room' : left.upper ≤ maximum (type_width type) / 2 ^ y =
                  subst (λ n. left.upper ≤ maximum (type_width type) / 2 ^ n) same (ground arith) in
                let (low, high, low', high') =
                  between (left.lower * 2 ^ y) (x * 2 ^ y) (left.upper * 2 ^ y) type some_width
                    (mul-le-mul_right (2 ^ y) left_lower) (mul-le-mul_right (2 ^ y) left_upper)
                    ((le-div_iff_mul-le (one-le-pow y 2 (omega arith))).0 room') in
                let shifted =
                  subst
                    (λ n.
                      InRange
                        (range_value (u64 (left.lower * 2 ^ y)) (u64 (left.upper * 2 ^ y))
                          (type_width type))
                        n)
                    (some-injective _ z
                      (if_some (ltb y (type_width type)) (x * 2 ^ y % 2 ^ type_width type) h))
                    (range_value-InRange _ _ (type_width type) _ low' high') in
                rw e (rw same shifted)
            | inr e ↦
                rw e (exact_binary-InRange DolIrOp.shl type left right x y z some_width lt p q h)
          ]
