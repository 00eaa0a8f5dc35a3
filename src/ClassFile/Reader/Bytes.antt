-- ===== src/ClassFile/Reader/Bytes.antt =====
-- The readers of engine/bjvm/vm/classfile.c against the big-endian bytes of a number.
use tracejvm.Prelude.{
  ℕ, zero, suc, ◌+◌, ◌-◌, ◌*◌, ◌/◌, ◌%◌, ◌^◌, ◌<◌, ◌≡◌, refl, sym, ap, ◌∙◌, List, [], ◌∷◌, ◌++◌,
  arith, length, length-append, take, drop, ℤ, pos, negsuc,
}
use tracejvm.ClassFile.{Result, ok, ◌>>=◌}
use tracejvm.ClassFile.Reader.{
  big_endian, reader_advance, reader_next, reader_next_u16, reader_next_u32, signed,
  reader_next_s16, reader_next_s32,
}

-- The bytes of a number, the most significant one first.
abbrev pub to_bytes : ℕ → ℕ → List ℕ
to_bytes zero v = []
to_bytes (suc k) v = to_bytes k (v / 256) ++ v % 256 ∷ []

-- How many numbers `k` bytes hold.
abbrev pub range : ℕ → ℕ
range zero = 1
range (suc k) = 256 * range k

length-to_bytes : (k v : ℕ) → length (to_bytes k v) ≡ k
length-to_bytes zero v = refl
length-to_bytes (suc k) v =
    length-append (to_bytes k (v / 256)) (v % 256 ∷ []) ∙ omega (arith, length-to_bytes k (v / 256))

big_endian-append :
    (high b : ℕ) (bs : List ℕ) → big_endian high (bs ++ b ∷ []) ≡ big_endian high bs * 256 + b
big_endian-append high b [] = refl
big_endian-append high b (c ∷ bs) = big_endian-append (high * 256 + c) b bs

big_endian-to_bytes : (k v : ℕ) → v < range k → big_endian 0 (to_bytes k v) ≡ v
big_endian-to_bytes zero v h = omega arith
big_endian-to_bytes (suc k) v h =
    big_endian-append 0 (v % 256) (to_bytes k (v / 256))
    ∙ omega (arith, big_endian-to_bytes k (v / 256) (omega arith))

take-append : (xs ys : List ℕ) → take (length xs) (xs ++ ys) ≡ xs
take-append [] ys = refl
take-append (x ∷ xs) ys = ap (◌∷◌ x) (take-append xs ys)

drop-append : (xs ys : List ℕ) → drop (length xs) (xs ++ ys) ≡ ys
drop-append [] ys = refl
drop-append (x ∷ xs) ys = drop-append xs ys

advance_over : (xs ys : List ℕ) → reader_advance (length xs) (xs ++ ys) ≡ ok (xs, ys)
unfolding reader_advance
advance_over xs ys = rw (take-append xs ys, drop-append xs ys) (ground (arith, length-append xs ys))

reader_next-to_bytes :
    (k v : ℕ) (rest : List ℕ) → v < range k → reader_next k (to_bytes k v ++ rest) ≡ ok (v, rest)
unfolding reader_next
reader_next-to_bytes k v rest h =
    ap (λ n. reader_advance n (to_bytes k v ++ rest) >>= λ r. ok (big_endian 0 r.0, r.1))
      (sym (length-to_bytes k v))
    ∙ ap (λ m. m >>= λ r. ok (big_endian 0 r.0, r.1)) (advance_over (to_bytes k v) rest)
    ∙ ap (λ n. ok (n, rest)) (big_endian-to_bytes k v h)

-- The two's complement of a number, `half` being the half of the range.
abbrev pub complement : ℕ → ℤ → ℕ
complement half (pos n) = n
complement half (negsuc n) = half + half - 1 - n

-- From -half to half - 1.
abbrev pub Fits : ℕ → ℤ → Type 0
Fits half (pos n) = n < half
Fits half (negsuc n) = n < half

signed-complement : (half : ℕ) (z : ℤ) → Fits half z → signed half (complement half z) ≡ z
unfolding signed
signed-complement half (pos n) h = ground arith
signed-complement half (negsuc n) h = ground arith

complement-lt : (half : ℕ) (z : ℤ) → Fits half z → complement half z < half + half
complement-lt half (pos n) h = omega arith
complement-lt half (negsuc n) h = omega arith

as_signed : ℕ → ℕ × List ℕ → Result (ℤ × List ℕ)
as_signed half r = ok (signed half r.0, r.1)

signed_next :
    (k half : ℕ) (z : ℤ) (rest : List ℕ)
    → half + half ≡ range k
    → Fits half z
    → (reader_next k (to_bytes k (complement half z) ++ rest) >>= as_signed half) ≡ ok (z, rest)
unfolding as_signed
signed_next k half z rest e h =
    ap (λ m. m >>= as_signed half)
      (reader_next-to_bytes k (complement half z) rest (omega (arith, e, complement-lt half z h)))
    ∙ ap (λ x. ok (x, rest)) (signed-complement half z h)

-- The offsets of short branches.
pub reader_next_s16-to_bytes :
    (z : ℤ) (rest : List ℕ)
    → Fits (2 ^ 15) z
    → reader_next_s16 (to_bytes 2 (complement (2 ^ 15) z) ++ rest) ≡ ok (z, rest)
unfolding reader_next_s16 reader_next_u16 as_signed
reader_next_s16-to_bytes z rest = signed_next 2 (2 ^ 15) z rest refl

-- The four bytes of a number between -2^31 and 2^31 - 1, in two's complement and the most significant
-- byte first, are read as the number, whatever stands behind them, and that is left to read.
pub reader_next_s32-to_bytes :
    (z : ℤ) (rest : List ℕ)
    → Fits (2 ^ 31) z
    → reader_next_s32 (to_bytes 4 (complement (2 ^ 31) z) ++ rest) ≡ ok (z, rest)
unfolding reader_next_s32 reader_next_u32 as_signed
reader_next_s32-to_bytes z rest = signed_next 4 (2 ^ 31) z rest refl
