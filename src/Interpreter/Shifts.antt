-- ===== src/Interpreter/Shifts.antt =====
-- What the shifts of engine/bjvm/vm/interpreter2.c leave on the stack.
use tracejvm.Prelude.{ℕ, ◌-◌, ◌%◌, ◌^◌, ◌≡◌, ◌<◌, ◌≤◌, Bool, true, false, arith}
use native.Mathlib.Nat.{div-le_self}
use tracejvm.Interpreter.{
  u32, s32, shift_right_signed, BinOp, iadd, isub, imul, iand, ior, ixor, ishl, ishr, iushr,
  integer_bin_op, i2l, integer_un_op,
}

-- The 64 bits are those of an `int`, extended by its sign.
abbrev pub IsExtended : ℕ → Type 0
IsExtended a = s32 a ≡ a

-- The instructions on `int`, but for the arithmetic shift to the right.
abbrev pub extends : BinOp → Bool
extends iadd = true
extends isub = true
extends imul = true
extends iand = true
extends ior = true
extends ixor = true
extends ishl = true
extends iushr = true
extends _ = false

s32-IsExtended : (a : ℕ) → IsExtended (s32 a)
unfolding s32
s32-IsExtended a = ground arith

-- Each instruction with two operands of type `int`, but for the arithmetic shift to the right, leaves an
-- `int` that is extended by its sign to 64 bits, whatever the upper bits of its operands are.
pub integer_bin_op-IsExtended :
    (op : BinOp) (a b : ℕ) → extends op ≡ true → IsExtended (integer_bin_op op a b)
unfolding integer_bin_op
integer_bin_op-IsExtended iadd a b h = s32-IsExtended _
integer_bin_op-IsExtended isub a b h = s32-IsExtended _
integer_bin_op-IsExtended imul a b h = s32-IsExtended _
integer_bin_op-IsExtended iand a b h = s32-IsExtended _
integer_bin_op-IsExtended ior a b h = s32-IsExtended _
integer_bin_op-IsExtended ixor a b h = s32-IsExtended _
integer_bin_op-IsExtended ishl a b h = s32-IsExtended _
integer_bin_op-IsExtended iushr a b h = s32-IsExtended _
integer_bin_op-IsExtended _ a b h = absurd (ground (arith, h))

-- The 32 bits of a negative number that is shifted.
shifted_negative :
    (x k : ℕ)
    → 2 ^ 31 ≤ x
    → x < 2 ^ 32
    → (2 ^ 31 ≤ shift_right_signed (2 ^ 31) x k) × (shift_right_signed (2 ^ 31) x k < 2 ^ 32)
unfolding shift_right_signed
shifted_negative x k h l = ground (arith, div-le_self (2 ^ 32 - 1 - x) (2 ^ k))

not-IsExtended : (r : ℕ) → 2 ^ 31 ≤ r → r < 2 ^ 32 → ¬ IsExtended r
unfolding s32
not-IsExtended r h l e = absurd (ground (arith, e))

-- The arithmetic shift to the right of a negative `int` does not leave an `int` extended by its sign, as
-- the other instructions on `int` do, but a positive number of 64 bits, which is the `long` that the
-- instruction `i2l` makes of it.
pub ishr-i2l_positive :
    (a b : ℕ)
    → 2 ^ 31 ≤ a % 2 ^ 32
    → (¬ IsExtended (integer_bin_op ishr a b))
      × (integer_un_op i2l (integer_bin_op ishr a b) < 2 ^ 32)
unfolding integer_bin_op integer_un_op u32
ishr-i2l_positive a b h =
    let (low, high) = shifted_negative (a % 2 ^ 32) (b % 32) h (omega arith) in
    (not-IsExtended (shift_right_signed (2 ^ 31) (a % 2 ^ 32) (b % 32)) low high, high)
