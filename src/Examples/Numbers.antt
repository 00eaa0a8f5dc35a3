-- ===== src/Examples/Numbers.antt =====
-- The integer instructions of engine/bjvm/vm/interpreter2.c at work.
use tracejvm.Prelude.{◌≡◌, ◌≢◌, ◌<◌, ◌^◌, ◌-◌, refl, pos, negsuc, ◌+ℤ◌, ◌-ℤ◌, arith}
use tracejvm.Interpreter.{iadd, isub, imul, ishr, integer_bin_op, ineg, i2l, integer_un_op}
use tracejvm.Interpreter.Division.{next_int, undefined, neg_of, quotient, div_impl, rem_impl}
use tracejvm.Interpreter.Division.Quotients.{DivisionLaw, div_impl-rem_impl, div_impl_narrow_least}
use tracejvm.Interpreter.Arithmetic.{of_int, wrap, integer_op-wrap}
use tracejvm.Interpreter.Shifts.{IsExtended, integer_bin_op-IsExtended, ishr-i2l_positive}

-- The greatest `int`, and 1.
integer_op-wrap_example :
    (integer_bin_op iadd (2 ^ 31 - 1) 1 ≡ of_int (wrap (pos (2 ^ 31 - 1) +ℤ pos 1)))
    × (integer_bin_op isub (2 ^ 31 - 1) 1 ≡ of_int (wrap (pos (2 ^ 31 - 1) -ℤ pos 1)))
    × (integer_un_op ineg (2 ^ 31 - 1) ≡ of_int (wrap (pos 0 -ℤ pos (2 ^ 31 - 1))))
integer_op-wrap_example = integer_op-wrap (pos (2 ^ 31 - 1)) (pos 1) (omega arith) (omega arith)

integer_bin_op-IsExtended_example : IsExtended (integer_bin_op imul 70000 70000)
integer_bin_op-IsExtended_example = integer_bin_op-IsExtended imul 70000 70000 refl

-- -8 shifted by 1 is -4, of which the 32 bits are left.
shifted : integer_un_op i2l (integer_bin_op ishr (2 ^ 64 - 8) 1) ≡ 2 ^ 32 - 4
unfolding integer_bin_op integer_un_op
shifted = refl

ishr-i2l_positive_example :
    (¬ IsExtended (integer_bin_op ishr (2 ^ 64 - 8) 1))
    × (integer_un_op i2l (integer_bin_op ishr (2 ^ 64 - 8) 1) < 2 ^ 32)
ishr-i2l_positive_example = ishr-i2l_positive (2 ^ 64 - 8) 1 (omega arith)

-- -7 by 2, and the least `int` by -1.
divided :
    (div_impl (2 ^ 31) (2 ^ 31) (negsuc 6) (pos 2) ≡ next_int (negsuc 2))
    × (rem_impl (2 ^ 31) (2 ^ 31) (negsuc 6) (pos 2) ≡ next_int (negsuc 0))
    × (div_impl (2 ^ 31) (2 ^ 31) (negsuc (2 ^ 31 - 1)) (negsuc 0) ≡ next_int (negsuc (2 ^ 31 - 1)))
unfolding div_impl rem_impl
divided = (refl, refl, refl)

div_impl-rem_impl_example :
    DivisionLaw
      (2 ^ 31)
      (negsuc 6)
      (pos 2)
      (div_impl (2 ^ 31) (2 ^ 31) (negsuc 6) (pos 2))
      (rem_impl (2 ^ 31) (2 ^ 31) (negsuc 6) (pos 2))
div_impl-rem_impl_example =
    div_impl-rem_impl (2 ^ 31) (negsuc 6) (pos 2) (omega arith) (omega arith)

-- `ldiv` with a `long` of 32 bits.
div_impl_narrow_least_example :
    (div_impl (2 ^ 63) (2 ^ 31) (neg_of (2 ^ 63)) (negsuc 0) ≡ undefined)
    × (rem_impl (2 ^ 63) (2 ^ 31) (neg_of (2 ^ 63)) (negsuc 0) ≡ undefined)
    × (div_impl (2 ^ 63) (2 ^ 31) (neg_of (2 ^ 31)) (negsuc 0) ≡ next_int (neg_of (2 ^ 31)))
    × (quotient (neg_of (2 ^ 31)) (negsuc 0) ≢ neg_of (2 ^ 31))
div_impl_narrow_least_example = div_impl_narrow_least (2 ^ 63) (2 ^ 31) (omega arith) (omega arith)
