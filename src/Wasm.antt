-- ===== src/Wasm.antt =====
-- engine/bjvm/vm/wasm/wasm_utils.c: the integers of a WebAssembly module, in LEB128. An `s64` is its
-- pattern of 64 bits.
pub mod Unsigned
pub mod Signed
use tracejvm.Prelude.{
  ℕ, zero, suc, ◌+◌, ◌-◌, ◌*◌, ◌/◌, ◌%◌, ◌^◌, Bool, true, false, ◌&&◌, ◌||◌, Option, none, some,
  List, [], ◌∷◌, ltb, ◌==◌, if◌then◌else◌, is_null,
}

-- A byte written, and what is written behind it.
unfoldable pub write_byte : ℕ → Option (List ℕ) → Option (List ℕ)
write_byte b none = none
write_byte b (some bs) = some (b ∷ bs)

-- The loop of `wasm_writeuint`. The fuel is the room in `out`; `none` would be a write behind it.
unfoldable pub writeuint_from : ℕ → ℕ → Option (List ℕ)
unfolding write_byte
writeuint_from zero value = none
writeuint_from (suc room) value = elim (is_null (value / 128)) [
  | true ↦ some (value % 128 ∷ [])
  | false ↦ write_byte (value % 128 + 128) (writeuint_from room (value / 128))
]

unfoldable pub wasm_writeuint : ℕ → Option (List ℕ)
unfolding writeuint_from
wasm_writeuint value = writeuint_from 16 value

-- `value >> 7` of an `s64`, which keeps the sign.
unfoldable pub shift_right_7 : ℕ → ℕ
shift_right_7 value = if ltb value (2 ^ 63) then value / 128 else value / 128 + (2 ^ 64 - 2 ^ 57)

-- The test of the loop, with `byte & 0x40` as the size of the byte.
unfoldable pub is_last : ℕ → ℕ → Bool
is_last byte value = (value == 0 && ltb byte 64) || (value == 2 ^ 64 - 1 && ltb 63 byte)

-- The loop of `wasm_writeint`; `none` means that the fuel ran out.
unfoldable pub writeint_from : ℕ → ℕ → Option (List ℕ)
unfolding write_byte shift_right_7 is_last
writeint_from zero value = none
writeint_from (suc fuel) value = elim (is_last (value % 128) (shift_right_7 value)) [
  | true ↦ some (value % 128 ∷ [])
  | false ↦ write_byte (value % 128 + 128) (writeint_from fuel (shift_right_7 value))
]

-- Ten bytes hold 64 bits.
unfoldable pub wasm_writeint : ℕ → Option (List ℕ)
unfolding writeint_from
wasm_writeint value = writeint_from 10 value
