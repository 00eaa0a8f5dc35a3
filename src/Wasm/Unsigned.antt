-- ===== src/Wasm/Unsigned.antt =====
-- `wasm_writeuint` of engine/bjvm/vm/wasm/wasm_utils.c against the definition of LEB128.
use tracejvm.Prelude.{
  ℕ, zero, suc, ◌+◌, ◌-◌, ◌*◌, ◌/◌, ◌%◌, ◌^◌, ◌<◌, ◌≤◌, ◌≡◌, ◌≢◌, refl, ap, ◌∙◌, Bool, true, false,
  Option, some, List, [], ◌∷◌, ◌++◌, arith, ltb, if◌then◌else◌, is_null, length,
}
use tracejvm.Wasm.{write_byte, writeuint_from, wasm_writeuint}

-- The value of an unsigned LEB128 number, and what stands behind it.
unfoldable pub read_uint : List ℕ → ℕ × List ℕ
read_uint [] = (0, [])
read_uint (b ∷ bs) =
    let rest = read_uint bs in if ltb b 128 then (b, bs) else (b - 128 + 128 * rest.0, rest.1)

-- What `n` bytes can hold.
abbrev pub capacity : ℕ → ℕ
capacity zero = 1
capacity (suc n) = 128 * capacity n

abbrev pub Encodes : ℕ → ℕ → Option (List ℕ) → Type 0
Encodes n value o =
    (bs : List ℕ) × (o ≡ some bs)
    × (length bs ≤ n)
    × ((rest : List ℕ) → read_uint (bs ++ rest) ≡ (value, rest))

null : (n : ℕ) → is_null n ≡ true → n ≡ 0
null zero e = refl
null (suc n) e = ground arith

not_null : (n : ℕ) → is_null n ≡ false → n ≢ 0
not_null n e q = ground (arith, e, q)

-- A byte with bit 7 before a number.
read_longer :
    (value : ℕ) (bs rest : List ℕ)
    → read_uint (bs ++ rest) ≡ (value / 128, rest)
    → read_uint ((value % 128 + 128) ∷ (bs ++ rest)) ≡ (value, rest)
unfolding read_uint
read_longer value bs rest h =
    ap
      (λ p.
        if ltb (value % 128 + 128) 128
        then (value % 128 + 128, bs ++ rest)
        else (value % 128 + 128 - 128 + 128 * p.0, p.1))
      h
    ∙ ground arith

longer :
    (n value : ℕ) (o : Option (List ℕ))
    → Encodes n (value / 128) o
    → Encodes (suc n) value (write_byte (value % 128 + 128) o)
unfolding write_byte
longer n value o (bs, e, l, r) = (
  (value % 128 + 128) ∷ bs,
  ap (write_byte (value % 128 + 128)) e,
  omega (arith, l),
  λ rest. read_longer value bs rest (r rest),
)

single : (n value : ℕ) → value < 128 → Encodes (suc n) value (some (value % 128 ∷ []))
unfolding read_uint
single n value h = (value % 128 ∷ [], refl, omega arith, λ rest. ground arith)

abbrev chosen : Bool → ℕ → Option (List ℕ) → Option (List ℕ)
chosen b v o = elim b [ true ↦ some (v % 128 ∷ []) | false ↦ write_byte (v % 128 + 128) o ]

-- One round of the loop, given that the rounds behind it write the rest.
round :
    (n v : ℕ) (o : Option (List ℕ)) (b : Bool)
    → is_null (v / 128) ≡ b
    → (b ≡ false → Encodes n (v / 128) o)
    → Encodes (suc n) v (chosen b v o)
round n v o true e r = single n v (omega (arith, null (v / 128) e))
round n v o false e r = longer n v o (r refl)

encodes :
    (n room value : ℕ)
    → value < capacity (suc n)
    → n < room
    → Encodes (suc n) value (writeuint_from room value)
unfolding writeuint_from
encodes n zero value h l = absurd (omega (arith, l))
encodes zero (suc room) value h l =
    round zero value (writeuint_from room (value / 128)) (is_null (value / 128)) refl
      (λ e. absurd (not_null (value / 128) e (omega (arith, h))))
encodes (suc n) (suc room) value h l =
    round (suc n) value (writeuint_from room (value / 128)) (is_null (value / 128)) refl
      (λ e. encodes n room (value / 128) (omega (arith, h)) (omega (arith, l)))

-- A `u64` is written in at most ten bytes, for which `out` has room, and they are read back as that
-- number, whatever stands behind them.
pub wasm_writeuint-Encodes : (value : ℕ) → value < 2 ^ 64 → Encodes 10 value (wasm_writeuint value)
unfolding wasm_writeuint
wasm_writeuint-Encodes value h = encodes 9 16 value (omega (arith, h)) (omega arith)
