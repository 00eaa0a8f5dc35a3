-- ===== src/Interpreter/Division.antt =====
-- Division and remainder of engine/bjvm/vm/interpreter2.c, on signed numbers from `-half` to `half - 1`:
-- `half` is 2^31 for `idiv` and `irem` and 2^63 for `ldiv` and `lrem`. The number that is tested before the
-- division is `-least`: `INT_MIN` for the first two and `LONG_MIN` for the others, which is that of the type
-- `long` of C and not of 64 bits where that has 32.
pub mod Quotients
use tracejvm.Prelude.{
  ℕ, zero, suc, ◌+◌, ◌*◌, ◌/◌, ◌%◌, ◌<◌, ◌≡◌, refl, ap, sym, ◌∙◌, Bool, true, false, ◌&&◌, ◌||◌,
  if◌then◌else◌, ◌⊎◌, inl, inr, ℤ, pos, negsuc, pos_part, neg_part, sub_ℕ, ◌+ℤ◌, arith, Bool-cases,
}
use native.Mathlib.Nat.{div-add-mod', mod-lt, div-le_self, div-lt_self, div-one}
use tracejvm.Interpreter.Switch.{same}

-- `undefined` is a division of C that has no meaning.
pub data Division : Type 0 where
  exception_thrown undefined : Division
  next_int : ℤ → Division

abbrev pub neg_of : ℕ → ℤ
neg_of zero = pos 0
neg_of (suc n) = negsuc n

abbrev pub magnitude : ℤ → ℕ
magnitude (pos n) = n
magnitude (negsuc n) = suc n

-- C rounds towards zero, and the remainder has the sign of the dividend.
abbrev pub quotient : ℤ → ℤ → ℤ
quotient (pos a) (pos b) = pos (a / b)
quotient (pos a) (negsuc b) = neg_of (a / suc b)
quotient (negsuc a) (pos b) = neg_of (suc a / b)
quotient (negsuc a) (negsuc b) = pos (suc a / suc b)

abbrev pub remainder : ℤ → ℤ → ℤ
remainder (pos a) b = pos (a % magnitude b)
remainder (negsuc a) b = neg_of (suc a % magnitude b)

-- The dividend is `-half` and the divisor -1: the quotient would be `half`.
abbrev pub overflows : ℕ → ℤ → ℤ → Bool
overflows half a b = same a (neg_of half) && same b (negsuc 0)

-- `a / b` and `a % b` of C: both are undefined if the quotient is.
abbrev pub c_division : ℕ → ℤ → ℤ → ℤ → Division
c_division half a b result =
    if same b (pos 0) || overflows half a b then undefined else next_int result

unfoldable pub java_div : ℕ → ℕ → ℤ → ℤ → Division
java_div half least a b =
    if overflows least a b then next_int (neg_of least) else c_division half a b (quotient a b)

unfoldable pub java_rem : ℕ → ℕ → ℤ → ℤ → Division
java_rem half least a b =
    if overflows least a b then next_int (pos 0) else c_division half a b (remainder a b)

unfoldable pub div_impl : ℕ → ℕ → ℤ → ℤ → Division
unfolding java_div
div_impl half least a b = if same b (pos 0) then exception_thrown else java_div half least a b

unfoldable pub rem_impl : ℕ → ℕ → ℤ → ℤ → Division
unfolding java_rem
rem_impl half least a b = if same b (pos 0) then exception_thrown else java_rem half least a b
