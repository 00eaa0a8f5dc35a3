-- ===== src/Wasm/Signed.antt =====
-- `wasm_writeint` of engine/bjvm/vm/wasm/wasm_utils.c against the definition of signed LEB128.
use tracejvm.Prelude.{
  ℕ, zero, suc, ◌+◌, ◌-◌, ◌*◌, ◌/◌, ◌%◌, ◌^◌, ◌<◌, ◌≤◌, ◌≡◌, refl, ap, Bool, true, false, Option,
  some, List, [], ◌∷◌, ◌++◌, arith, ltb, if◌then◌else◌, length,
}
use tracejvm.Wasm.{write_byte, shift_right_7, is_last, writeint_from, wasm_writeint}
use tracejvm.Wasm.Unsigned.{capacity}

-- The 64 bits of a signed LEB128 number, and what stands behind it: bit 6 of the last byte is the
-- sign.
unfoldable pub read_int : List ℕ → ℕ × List ℕ
read_int [] = (0, [])
read_int (b ∷ bs) =
    let rest = read_int bs in
    if ltb b 128
    then ((if ltb b 64 then b else b + (2 ^ 64 - 128)), bs)
    else ((b - 128 + 128 * rest.0) % 2 ^ 64, rest.1)

abbrev pub EncodesInt : ℕ → ℕ → Option (List ℕ) → Type 0
EncodesInt n value o =
    (bs : List ℕ) × (o ≡ some bs)
    × (length bs ≤ n)
    × ((rest : List ℕ) → read_int (bs ++ rest) ≡ (value, rest))

-- The number without its sign, or its complement.
abbrev magnitude : ℕ → ℕ
magnitude v = if ltb v (2 ^ 63) then v else 2 ^ 64 - 1 - v

shift_lt : (v : ℕ) → v < 2 ^ 64 → shift_right_7 v < 2 ^ 64
unfolding shift_right_7
shift_lt v h = ground arith

shift_back : (v : ℕ) → v < 2 ^ 64 → (v % 128 + 128 * shift_right_7 v) % 2 ^ 64 ≡ v
unfolding shift_right_7
shift_back v h = ground arith

magnitude_shift : (v : ℕ) → v < 2 ^ 64 → magnitude (shift_right_7 v) ≡ magnitude v / 128
unfolding shift_right_7
magnitude_shift v h = ground arith

small_is_last : (v : ℕ) → v < 2 ^ 64 → magnitude v < 64 → is_last (v % 128) (shift_right_7 v) ≡ true
unfolding shift_right_7 is_last
small_is_last v h m = ground arith

last_value :
    (v : ℕ)
    → v < 2 ^ 64
    → is_last (v % 128) (shift_right_7 v) ≡ true
    → (if ltb (v % 128) 64 then v % 128 else v % 128 + (2 ^ 64 - 128)) ≡ v
unfolding shift_right_7 is_last
last_value v h e = ground arith

read_longer :
    (v : ℕ) (bs rest : List ℕ)
    → v < 2 ^ 64
    → read_int (bs ++ rest) ≡ (shift_right_7 v, rest)
    → read_int ((v % 128 + 128) ∷ (bs ++ rest)) ≡ (v, rest)
unfolding read_int
read_longer v bs rest l h = ground (arith, h, shift_back v l)

longer :
    (n v : ℕ) (o : Option (List ℕ))
    → v < 2 ^ 64
    → EncodesInt n (shift_right_7 v) o
    → EncodesInt (suc n) v (write_byte (v % 128 + 128) o)
unfolding write_byte
longer n v o l (bs, e, k, r) = (
  (v % 128 + 128) ∷ bs,
  ap (write_byte (v % 128 + 128)) e,
  omega (arith, k),
  λ rest. read_longer v bs rest l (r rest),
)

single :
    (n v : ℕ)
    → v < 2 ^ 64
    → is_last (v % 128) (shift_right_7 v) ≡ true
    → EncodesInt (suc n) v (some (v % 128 ∷ []))
unfolding read_int
single n v h e = (v % 128 ∷ [], refl, omega arith, λ rest. ground (arith, last_value v h e))

abbrev chosen : Bool → ℕ → Option (List ℕ) → Option (List ℕ)
chosen b v o = elim b [ true ↦ some (v % 128 ∷ []) | false ↦ write_byte (v % 128 + 128) o ]

-- One round of the loop, given that the rounds behind it write the shifted value.
round :
    (n v : ℕ) (o : Option (List ℕ)) (b : Bool)
    → v < 2 ^ 64
    → is_last (v % 128) (shift_right_7 v) ≡ b
    → (b ≡ false → EncodesInt n (shift_right_7 v) o)
    → EncodesInt (suc n) v (chosen b v o)
round n v o true h e r = single n v h e
round n v o false h e r = longer n v o h (r refl)

encodes :
    (n fuel v : ℕ)
    → v < 2 ^ 64
    → magnitude v < 64 * capacity n
    → n < fuel
    → EncodesInt (suc n) v (writeint_from fuel v)
unfolding writeint_from
encodes n zero v h m l = absurd (omega (arith, l))
encodes zero (suc fuel) v h m l =
    round zero v (writeint_from fuel (shift_right_7 v)) (is_last (v % 128) (shift_right_7 v)) h refl
      (λ e. ground (arith, e, small_is_last v h m))
encodes (suc n) (suc fuel) v h m l =
    round (suc n) v (writeint_from fuel (shift_right_7 v)) (is_last (v % 128) (shift_right_7 v)) h
      refl
      (λ e.
        encodes n fuel (shift_right_7 v) (shift_lt v h) (omega (arith, m, magnitude_shift v h))
          (omega (arith, l)))

-- The loop ends for every `s64`, after at most ten bytes, and they are read back as that number,
-- whatever stands behind them.
pub wasm_writeint-EncodesInt :
    (value : ℕ) → value < 2 ^ 64 → EncodesInt 10 value (wasm_writeint value)
unfolding wasm_writeint
wasm_writeint-EncodesInt value h = encodes 9 10 value h (ground arith) (omega arith)
