-- ===== src/Interpreter/Arithmetic.antt =====
-- The sums and differences of engine/bjvm/vm/interpreter2.c against those of the integers.
use tracejvm.Prelude.{
  ℕ, ◌-◌, ◌%◌, ◌^◌, ◌≡◌, ◌<◌, ltb, if◌then◌else◌, ℤ, pos, negsuc, ◌+ℤ◌, ◌-ℤ◌, arith,
}
use tracejvm.Interpreter.{u32, s32, iadd, isub, integer_bin_op, ineg, integer_un_op}

-- The 64 bits of an `int`, and an `int`.
abbrev pub of_int : ℤ → ℕ
of_int (pos n) = n
of_int (negsuc n) = 2 ^ 64 - 1 - n

abbrev pub IsJavaInt : ℤ → Type 0
IsJavaInt (pos n) = n < 2 ^ 31
IsJavaInt (negsuc n) = n < 2 ^ 31

-- The `int` that is equal modulo 2^32.
abbrev pub signed_32 : ℕ → ℤ
signed_32 x = if ltb x (2 ^ 31) then pos x else negsuc (2 ^ 32 - 1 - x)

abbrev pub wrap : ℤ → ℤ
wrap (pos n) = signed_32 (n % 2 ^ 32)
wrap (negsuc n) = signed_32 (2 ^ 32 - 1 - n % 2 ^ 32)

iadd-wrap :
    (x y : ℤ)
    → IsJavaInt x
    → IsJavaInt y
    → integer_bin_op iadd (of_int x) (of_int y) ≡ of_int (wrap (x +ℤ y))
unfolding integer_bin_op s32 u32 ◌+ℤ◌
iadd-wrap (pos n) (pos m) h k = ground arith
iadd-wrap (pos n) (negsuc m) h k = ground arith
iadd-wrap (negsuc n) (pos m) h k = ground arith
iadd-wrap (negsuc n) (negsuc m) h k = ground arith

isub-wrap :
    (x y : ℤ)
    → IsJavaInt x
    → IsJavaInt y
    → integer_bin_op isub (of_int x) (of_int y) ≡ of_int (wrap (x -ℤ y))
unfolding integer_bin_op s32 u32 ◌-ℤ◌
isub-wrap (pos n) (pos m) h k = ground arith
isub-wrap (pos n) (negsuc m) h k = ground arith
isub-wrap (negsuc n) (pos m) h k = ground arith
isub-wrap (negsuc n) (negsuc m) h k = ground arith

ineg-wrap : (x : ℤ) → IsJavaInt x → integer_un_op ineg (of_int x) ≡ of_int (wrap (pos 0 -ℤ x))
unfolding integer_un_op s32 u32 ◌-ℤ◌
ineg-wrap (pos n) h = ground arith
ineg-wrap (negsuc n) h = ground arith

-- The sum and the difference of two `int`s and the negation of one are the `int` that is equal to the
-- sum, the difference and the negation of the integers modulo 2^32, extended by its sign to 64 bits.
pub integer_op-wrap :
    (x y : ℤ)
    → IsJavaInt x
    → IsJavaInt y
    → (integer_bin_op iadd (of_int x) (of_int y) ≡ of_int (wrap (x +ℤ y)))
      × (integer_bin_op isub (of_int x) (of_int y) ≡ of_int (wrap (x -ℤ y)))
      × (integer_un_op ineg (of_int x) ≡ of_int (wrap (pos 0 -ℤ x)))
integer_op-wrap x y h k = (iadd-wrap x y h k, isub-wrap x y h k, ineg-wrap x h)
