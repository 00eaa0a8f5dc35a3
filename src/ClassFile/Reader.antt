-- ===== src/ClassFile/Reader.antt =====
-- The readers of engine/bjvm/vm/classfile.c over what is left of the bytes. Numbers are big-endian; a
-- signed number is the two's complement of the unsigned one.
pub mod Bytes
use tracejvm.Prelude.{
  ℕ, zero, suc, ◌+◌, ◌-◌, ◌*◌, ◌^◌, ◌≤◌, ◌<◌, ◌≡◌, List, [], ◌∷◌, ◌++◌, arith, ltb, if◌then◌else◌,
  length, length-drop, take, drop, ℤ, pos, negsuc, Bool-cases, inl, inr,
}
use tracejvm.ClassFile.{Result, ok, err, end_of_input, ◌>>=◌, Returns, bind-Returns}

-- `len` bytes, and what stands behind them.
unfoldable pub reader_advance : ℕ → List ℕ → Result (List ℕ × List ℕ)
reader_advance len bytes =
    if ltb (length bytes) len then err end_of_input else ok (take len bytes, drop len bytes)

unfoldable pub reader_get_slice : ℕ → List ℕ → Result (List ℕ × List ℕ)
reader_get_slice len bytes =
    if ltb (length bytes) len then err end_of_input else ok (take len bytes, drop len bytes)

-- The number of which the bytes follow `high`.
abbrev pub big_endian : ℕ → List ℕ → ℕ
big_endian high [] = high
big_endian high (b ∷ bs) = big_endian (high * 256 + b) bs

unfoldable pub reader_next : ℕ → List ℕ → Result (ℕ × List ℕ)
unfolding reader_advance
reader_next len bytes = do (data_, rest) ← reader_advance len bytes; ok (big_endian 0 data_, rest)

unfoldable pub reader_next_u8 : List ℕ → Result (ℕ × List ℕ)
unfolding reader_next
reader_next_u8 = reader_next 1

unfoldable pub reader_next_u16 : List ℕ → Result (ℕ × List ℕ)
unfolding reader_next
reader_next_u16 = reader_next 2

unfoldable pub reader_next_u32 : List ℕ → Result (ℕ × List ℕ)
unfolding reader_next
reader_next_u32 = reader_next 4

unfoldable pub reader_next_u64 : List ℕ → Result (ℕ × List ℕ)
unfolding reader_next
reader_next_u64 = reader_next 8

-- The `memcpy` from an unsigned number of which the half of the range is `half`.
unfoldable pub signed : ℕ → ℕ → ℤ
signed half u = if ltb u half then pos u else negsuc (half + half - 1 - u)

unfoldable pub reader_next_s8 : List ℕ → Result (ℤ × List ℕ)
unfolding reader_next_u8 signed
reader_next_s8 bytes = do (u, rest) ← reader_next_u8 bytes; ok (signed (2 ^ 7) u, rest)

unfoldable pub reader_next_s16 : List ℕ → Result (ℤ × List ℕ)
unfolding reader_next_u16 signed
reader_next_s16 bytes = do (u, rest) ← reader_next_u16 bytes; ok (signed (2 ^ 15) u, rest)

unfoldable pub reader_next_s32 : List ℕ → Result (ℤ × List ℕ)
unfolding reader_next_u32 signed
reader_next_s32 bytes = do (u, rest) ← reader_next_u32 bytes; ok (signed (2 ^ 31) u, rest)

unfoldable pub reader_next_s64 : List ℕ → Result (ℤ × List ℕ)
unfolding reader_next_u64 signed
reader_next_s64 bytes = do (u, rest) ← reader_next_u64 bytes; ok (signed (2 ^ 63) u, rest)

-- The reader has taken `len` bytes of `bytes`.
abbrev pub Took {ℓ} : {A : Type ℓ} → ℕ → List ℕ → A × List ℕ → Type 0
Took len bytes r = length r.1 + len ≡ length bytes

reader_advance-Took :
    (len : ℕ) (bytes : List ℕ) → Returns (Took len bytes) (reader_advance len bytes)
unfolding reader_advance
reader_advance-Took len bytes = elim (Bool-cases (ltb (length bytes) len)) [
  | inl e ↦ rw e tt
  | inr e ↦ rw e ground (arith, e, length-drop len bytes)
]

pub reader_get_slice-Took :
    (len : ℕ) (bytes : List ℕ) → Returns (Took len bytes) (reader_get_slice len bytes)
unfolding reader_get_slice reader_advance
reader_get_slice-Took len bytes = reader_advance-Took len bytes

reader_next-Took : (len : ℕ) (bytes : List ℕ) → Returns (Took len bytes) (reader_next len bytes)
unfolding reader_next
reader_next-Took len bytes =
    bind-Returns (Took len bytes) (Took len bytes) (reader_advance len bytes) _
      (reader_advance-Took len bytes) (λ r h. h)

pub reader_next_u8-Took : (bytes : List ℕ) → Returns (Took 1 bytes) (reader_next_u8 bytes)
unfolding reader_next_u8
reader_next_u8-Took = reader_next-Took 1

pub reader_next_u16-Took : (bytes : List ℕ) → Returns (Took 2 bytes) (reader_next_u16 bytes)
unfolding reader_next_u16
reader_next_u16-Took = reader_next-Took 2

pub reader_next_u32-Took : (bytes : List ℕ) → Returns (Took 4 bytes) (reader_next_u32 bytes)
unfolding reader_next_u32
reader_next_u32-Took = reader_next-Took 4

pub reader_next_s8-Took : (bytes : List ℕ) → Returns (Took 1 bytes) (reader_next_s8 bytes)
unfolding reader_next_s8
reader_next_s8-Took bytes =
    bind-Returns (Took 1 bytes) (Took 1 bytes) (reader_next_u8 bytes) _ (reader_next_u8-Took bytes)
      (λ r h. h)

pub reader_next_s16-Took : (bytes : List ℕ) → Returns (Took 2 bytes) (reader_next_s16 bytes)
unfolding reader_next_s16
reader_next_s16-Took bytes =
    bind-Returns (Took 2 bytes) (Took 2 bytes) (reader_next_u16 bytes) _
      (reader_next_u16-Took bytes) (λ r h. h)

pub reader_next_s32-Took : (bytes : List ℕ) → Returns (Took 4 bytes) (reader_next_s32 bytes)
unfolding reader_next_s32
reader_next_s32-Took bytes =
    bind-Returns (Took 4 bytes) (Took 4 bytes) (reader_next_u32 bytes) _
      (reader_next_u32-Took bytes) (λ r h. h)

pub reader_next_u64-Took : (bytes : List ℕ) → Returns (Took 8 bytes) (reader_next_u64 bytes)
unfolding reader_next_u64
reader_next_u64-Took = reader_next-Took 8

pub reader_next_s64-Took : (bytes : List ℕ) → Returns (Took 8 bytes) (reader_next_s64 bytes)
unfolding reader_next_s64
reader_next_s64-Took bytes =
    bind-Returns (Took 8 bytes) (Took 8 bytes) (reader_next_u64 bytes) _
      (reader_next_u64-Took bytes) (λ r h. h)
