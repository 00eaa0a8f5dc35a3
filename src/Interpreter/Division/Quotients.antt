-- ===== src/Interpreter/Division/Quotients.antt =====
-- What division and remainder of engine/bjvm/vm/interpreter2.c compute.
use tracejvm.Prelude.{
  ℕ, zero, suc, ◌+◌, ◌*◌, ◌/◌, ◌%◌, ◌<◌, ◌≡◌, ◌≢◌, refl, ap, sym, ◌∙◌, true, false, ◌⊎◌, inl, inr,
  ℤ, pos, negsuc, pos_part, neg_part, sub_ℕ, ◌+ℤ◌, ◌*ℤ◌, arith, Bool-cases,
}
use native.Mathlib.Nat.{div-add-mod', mod-lt, div-le_self, div-lt_self, div-one}
use tracejvm.Interpreter.Switch.{same}
use tracejvm.Interpreter.Division.{
  Division, exception_thrown, undefined, next_int, neg_of, magnitude, quotient, remainder,
  overflows, java_div, java_rem, div_impl, rem_impl,
}

-- The numbers of twice `half` values.
abbrev pub IsSigned : ℕ → ℤ → Type 0
IsSigned half (pos n) = n < half
IsSigned half (negsuc n) = n < half

-- One of them is 0, or they have the same sign.
abbrev pub SameSign : ℤ → ℤ → Type 0
SameSign a r = pos_part a * neg_part r + neg_part a * pos_part r ≡ 0

-- The quotient and the remainder of a division by a number that is not 0, or of the one that overflows.
abbrev pub Divides : ℕ → ℤ → ℤ → ℤ → ℤ → Type 0
Divides half a b q r =
    IsSigned half q
    × (magnitude r < magnitude b)
    × SameSign a r
    × (((q *ℤ b +ℤ r) ≡ a) ⊎ ((a ≡ neg_of half) × (b ≡ negsuc 0) × (q ≡ a) × (r ≡ pos 0)))

abbrev pub DivisionLaw : ℕ → ℤ → ℤ → Division → Division → Type 0
DivisionLaw half a b x y =
    ((b ≡ pos 0) × (x ≡ exception_thrown) × (y ≡ exception_thrown))
    ⊎ ((q : ℤ) × (r : ℤ) × (x ≡ next_int q) × (y ≡ next_int r) × Divides half a b q r)

neg_of-pos_part : (n : ℕ) → pos_part (neg_of n) ≡ 0
neg_of-pos_part zero = refl
neg_of-pos_part (suc n) = refl

neg_of-neg_part : (n : ℕ) → neg_part (neg_of n) ≡ n
neg_of-neg_part zero = refl
neg_of-neg_part (suc n) = refl

magnitude-neg_of : (n : ℕ) → magnitude (neg_of n) ≡ n
magnitude-neg_of zero = refl
magnitude-neg_of (suc n) = refl

-- The sum of a difference and a number that is given by its parts.
sub_ℕ-sum :
    (x y u v : ℕ)
    → sub_ℕ (pos_part (sub_ℕ x y) + u) (neg_part (sub_ℕ x y) + v) ≡ sub_ℕ (x + u) (y + v)
sub_ℕ-sum x y u v = ground arith

sub_ℕ-pos : (x y n : ℕ) → x ≡ n → y ≡ 0 → sub_ℕ x y ≡ pos n
sub_ℕ-pos x y n h k = ground (arith, h, k)

sub_ℕ-negsuc : (x y n : ℕ) → x ≡ 0 → y ≡ suc n → sub_ℕ x y ≡ negsuc n
sub_ℕ-negsuc x y n h k = ground (arith, h, k)

quotient-remainder : (a b : ℤ) → (quotient a b *ℤ b +ℤ remainder a b) ≡ a
unfolding ◌*ℤ◌ ◌+ℤ◌
quotient-remainder (pos a) (pos b) =
    rw (sub_ℕ-sum (a / b * b + 0 * 0) (a / b * 0 + 0 * b) (a % b) 0)
      (sub_ℕ-pos _ _ a (omega (arith, div-add-mod' a b)) (omega arith))
quotient-remainder (pos a) (negsuc b) =
    rw (neg_of-pos_part (a / suc b), neg_of-neg_part (a / suc b))
      (sub_ℕ-sum (0 * 0 + a / suc b * suc b) (0 * suc b + a / suc b * 0) (a % suc b) 0
        ∙ sub_ℕ-pos _ _ a (omega (arith, div-add-mod' a (suc b))) (omega arith))
quotient-remainder (negsuc a) (pos b) =
    rw
      (
        neg_of-pos_part (suc a / b),
        neg_of-neg_part (suc a / b),
        neg_of-pos_part (suc a % b),
        neg_of-neg_part (suc a % b),
      )
      (sub_ℕ-sum (0 * b + suc a / b * 0) (0 * 0 + suc a / b * b) 0 (suc a % b)
        ∙ sub_ℕ-negsuc _ _ a (omega arith) (omega (arith, div-add-mod' (suc a) b)))
quotient-remainder (negsuc a) (negsuc b) =
    rw (neg_of-pos_part (suc a % suc b), neg_of-neg_part (suc a % suc b))
      (sub_ℕ-sum (suc a / suc b * 0 + 0 * suc b) (suc a / suc b * suc b + 0 * 0) 0 (suc a % suc b)
        ∙ sub_ℕ-negsuc _ _ a (omega arith) (omega (arith, div-add-mod' (suc a) (suc b))))

remainder-magnitude : (a b : ℤ) → 0 < magnitude b → magnitude (remainder a b) < magnitude b
remainder-magnitude (pos a) b h = mod-lt a h
remainder-magnitude (negsuc a) b h = rw (magnitude-neg_of (suc a % magnitude b)) (mod-lt (suc a) h)

neg_of-IsSigned : (half n : ℕ) → 0 < half → n < half + 1 → IsSigned half (neg_of n)
neg_of-IsSigned half zero p l = p
neg_of-IsSigned half (suc n) p l = omega (arith, l)

-- The only quotient that does not fit is the one that overflows.
quotient-IsSigned :
    (half : ℕ) (a b : ℤ)
    → 0 < half
    → IsSigned half a
    → 0 < magnitude b
    → overflows half a b ≡ false
    → IsSigned half (quotient a b)
quotient-IsSigned half (pos a) (pos b) p l h o = omega (arith, l, div-le_self a b)
quotient-IsSigned half (pos a) (negsuc b) p l h o =
    neg_of-IsSigned half (a / suc b) p (omega (arith, l, div-le_self a (suc b)))
quotient-IsSigned half (negsuc a) (pos b) p l h o =
    neg_of-IsSigned half (suc a / b) p (omega (arith, l, div-le_self (suc a) b))
quotient-IsSigned zero (negsuc a) (negsuc zero) p l h o = absurd (omega (arith, p))
quotient-IsSigned (suc half) (negsuc a) (negsuc zero) p l h o =
    rw (div-one (suc a)) (ground (arith, l, o))
quotient-IsSigned half (negsuc a) (negsuc (suc b)) p l h o =
    omega (arith, l, div-lt_self {n = suc a} {k = suc (suc b)} (omega arith) (omega arith))

remainder-SameSign : (a b : ℤ) → SameSign a (remainder a b)
remainder-SameSign (pos a) b = omega arith
remainder-SameSign (negsuc a) b = rw (neg_of-pos_part (suc a % magnitude b)) (omega arith)

same-true : (a b : ℤ) → same a b ≡ true → a ≡ b
same-true (pos a) (pos b) h = ap pos (ground (arith, h))
same-true (negsuc a) (negsuc b) h = ap negsuc (ground (arith, h))
same-true (pos a) (negsuc b) h = cc
same-true (negsuc a) (pos b) h = cc

same-false : (b : ℤ) → same b (pos 0) ≡ false → 0 < magnitude b
same-false (pos b) h = ground (arith, h)
same-false (negsuc b) h = omega arith

overflow-Divides :
    (half : ℕ) (a b : ℤ)
    → 0 < half
    → a ≡ neg_of half
    → b ≡ negsuc 0
    → Divides half a b (neg_of half) (pos 0)
overflow-Divides half a b p h k = (
  neg_of-IsSigned half half p (omega arith),
  rw k (omega arith),
  rw (h, neg_of-pos_part half) (omega arith),
  inr (h, k, sym h, refl),
)

exact-Divides :
    (half : ℕ) (a b : ℤ)
    → 0 < half
    → IsSigned half a
    → 0 < magnitude b
    → overflows half a b ≡ false
    → Divides half a b (quotient a b) (remainder a b)
exact-Divides half a b p l h o = (
  quotient-IsSigned half a b p l h o,
  remainder-magnitude a b h,
  remainder-SameSign a b,
  inl (quotient-remainder a b),
)

-- Division and remainder throw when the divisor is 0. Otherwise neither is undefined, the quotient fits
-- the type of the operands, the remainder is smaller than the divisor and 0 or of the sign of the dividend,
-- and the quotient times the divisor plus the remainder is the dividend; but for the least number
-- divided by -1, where the quotient is the least number again and the remainder is 0. This is where the
-- number that is tested is the least of the type of the operands, as it is for `idiv` and `irem`.
pub div_impl-rem_impl :
    (half : ℕ) (a b : ℤ)
    → 0 < half
    → IsSigned half a
    → DivisionLaw half a b (div_impl half half a b) (rem_impl half half a b)
unfolding div_impl rem_impl java_div java_rem
div_impl-rem_impl half a b p l = elim (Bool-cases (same b (pos 0))) [
  | inl z ↦ rw z (inl (same-true b (pos 0) z, refl, refl))
  | inr z ↦ elim (Bool-cases (overflows half a b)) [
    | inl o ↦
        rw (z, o)
          (inr (
            neg_of half,
            pos 0,
            refl,
            refl,
            overflow-Divides half a b p (same-true a (neg_of half) (ground (arith, o)))
                (same-true b (negsuc 0) (ground (arith, o))),
          ))
    | inr o ↦
        rw (z, o)
          (inr (
            quotient a b,
            remainder a b,
            refl,
            refl,
            exact-Divides half a b p l (same-false b z) o,
          ))
  ]
]

-- Where the number that is tested is not the least of the type of the operands but a greater one, as
-- `LONG_MIN` is for `ldiv` and `lrem` where the `long` of C has 32 bits, the division and the remainder of
-- the least number by -1 are undefined, and the number that is tested divided by -1 is itself, which is
-- not the quotient.
pub div_impl_narrow_least :
    (half least : ℕ)
    → 0 < least
    → least < half
    → (div_impl half least (neg_of half) (negsuc 0) ≡ undefined)
      × (rem_impl half least (neg_of half) (negsuc 0) ≡ undefined)
      × (div_impl half least (neg_of least) (negsuc 0) ≡ next_int (neg_of least))
      × (quotient (neg_of least) (negsuc 0) ≢ neg_of least)
unfolding div_impl rem_impl java_div java_rem
div_impl_narrow_least (suc half) (suc least) p l =
    (ground (arith, l), ground (arith, l), ground (arith, l), λ e. cc)
div_impl_narrow_least zero (suc least) p l = absurd (omega (arith, l))
div_impl_narrow_least half zero p l = absurd (omega (arith, p))
