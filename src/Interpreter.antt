-- ===== src/Interpreter.antt =====
-- engine/bjvm/vm/interpreter2.c: the instructions that compute with integers, on the 64 bits of the top of
-- the stack and of the slot below it. An `int` lies there extended by its sign.
pub mod Arithmetic
pub mod Division
pub mod Linked
pub mod Shifts
pub mod Switch
use tracejvm.Prelude.{
  ℕ, ◌+◌, ◌-◌, ◌*◌, ◌/◌, ◌%◌, ◌^◌, Bool, true, false, ltb, if◌then◌else◌, bit_and, bit_or, bit_xor,
}

-- The casts of C, widened to 64 bits again.
unfoldable pub u32 : ℕ → ℕ
u32 a = a % 2 ^ 32

unfoldable pub s32 : ℕ → ℕ
s32 a = let x = a % 2 ^ 32 in if ltb x (2 ^ 31) then x else x + (2 ^ 64 - 2 ^ 32)

unfoldable pub s16 : ℕ → ℕ
s16 a = let x = a % 2 ^ 16 in if ltb x (2 ^ 15) then x else x + (2 ^ 64 - 2 ^ 16)

unfoldable pub s8 : ℕ → ℕ
s8 a = let x = a % 2 ^ 8 in if ltb x (2 ^ 7) then x else x + (2 ^ 64 - 2 ^ 8)

-- `>>` of a signed number of which `x` are the `w` bits, the sign being set from `half` on.
unfoldable pub shift_right_signed : ℕ → ℕ → ℕ → ℕ
shift_right_signed half x k =
    if ltb x half then x / 2 ^ k else half + half - 1 - (half + half - 1 - x) / 2 ^ k

-- `INTEGER_BIN_OP`
pub data BinOp : Type 0 where
  iadd ladd isub lsub imul lmul iand land ior lor ixor lxor : BinOp
  ishl lshl ishr lshr iushr lushr : BinOp

-- `a` is in the slot below the top of the stack, `b` on the top; the result is the new top.
unfoldable pub integer_bin_op : BinOp → ℕ → ℕ → ℕ
unfolding u32 s32 shift_right_signed
integer_bin_op iadd a b = s32 (u32 a + u32 b)
integer_bin_op ladd a b = (a + b) % 2 ^ 64
integer_bin_op isub a b = s32 (u32 a + 2 ^ 32 - u32 b)
integer_bin_op lsub a b = (a + 2 ^ 64 - b) % 2 ^ 64
integer_bin_op imul a b = s32 (u32 a * u32 b)
integer_bin_op lmul a b = a * b % 2 ^ 64
integer_bin_op iand a b = s32 (bit_and (u32 a) (u32 b))
integer_bin_op land a b = bit_and a b
integer_bin_op ior a b = s32 (bit_or (u32 a) (u32 b))
integer_bin_op lor a b = bit_or a b
integer_bin_op ixor a b = s32 (bit_xor (u32 a) (u32 b))
integer_bin_op lxor a b = bit_xor a b
integer_bin_op ishl a b = s32 (u32 a * 2 ^ (b % 32))
integer_bin_op lshl a b = a * 2 ^ (b % 64) % 2 ^ 64
integer_bin_op ishr a b = shift_right_signed (2 ^ 31) (u32 a) (b % 32)
integer_bin_op lshr a b = shift_right_signed (2 ^ 63) a (b % 64)
integer_bin_op iushr a b = s32 (u32 a / 2 ^ (b % 32))
integer_bin_op lushr a b = a / 2 ^ (b % 64)

-- `INTEGER_UN_OP`, without the conversions to floating point.
pub data UnOp : Type 0 where
  ineg lneg i2l i2s i2b i2c l2i : UnOp

unfoldable pub integer_un_op : UnOp → ℕ → ℕ
unfolding u32 s32 s16 s8
integer_un_op ineg a = s32 (2 ^ 32 - u32 a)
integer_un_op lneg a = (2 ^ 64 - a) % 2 ^ 64
integer_un_op i2l a = a
integer_un_op i2s a = s16 a
integer_un_op i2b a = s8 a
integer_un_op i2c a = a % 2 ^ 16
integer_un_op l2i a = s32 a
