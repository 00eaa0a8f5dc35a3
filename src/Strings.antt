-- ===== src/Strings.antt =====
-- engine/bjvm/vm/objects.c: Java strings from modified UTF-8.
pub mod Coding
pub mod Bounds
use tracejvm.Prelude.{
  ℕ, zero, suc, ◌+◌, ◌-◌, ◌*◌, ◌/◌, ◌%◌, ◌^◌, Bool, true, false, ◌&&◌, Option, none, some, List, [],
  ◌∷◌, ◌++◌, ltb, leb, ◌==◌, if◌then◌else◌, map,
}

-- The branches of the loop of `convert_modified_utf8_to_chars`, by the first byte.
pub data Lead : Type 0 where
  one_byte two_bytes three_bytes end_of_text no_lead : Lead

-- `byte & 0xE0` and `byte & 0xF0` as the upper bits of the byte.
unfoldable pub lead_of : ℕ → Lead
lead_of b =
    if leb 1 b && leb b 127
    then one_byte
    else if b / 32 == 6
    then two_bytes
    else if b / 16 == 14
    then three_bytes
    else if b == 0
    then end_of_text
    else no_lead

unfoldable pub put_char : ℕ → Option (List ℕ) → Option (List ℕ)
put_char c none = none
put_char c (some cs) = some (c ∷ cs)

abbrev pub two_byte_char : ℕ → ℕ → ℕ
two_byte_char b c = b % 32 * 64 + c % 64

abbrev pub three_byte_char : ℕ → ℕ → ℕ → ℕ
three_byte_char b c d = b % 16 * 4096 + c % 64 * 64 + d % 64

-- `none` is the label `inval`.
unfoldable pub convert_modified_utf8_to_chars : List ℕ → Option (List ℕ)
unfolding lead_of put_char
convert_modified_utf8_to_chars [] = some []
convert_modified_utf8_to_chars (b ∷ []) = elim (lead_of b) [
  | one_byte ↦ some (b ∷ [])
  | two_bytes ↦ none
  | three_bytes ↦ none
  | end_of_text ↦ some []
  | no_lead ↦ none
]
convert_modified_utf8_to_chars (b ∷ c ∷ []) = elim (lead_of b) [
  | one_byte ↦ put_char b (convert_modified_utf8_to_chars (c ∷ []))
  | two_bytes ↦ some (two_byte_char b c ∷ [])
  | three_bytes ↦ none
  | end_of_text ↦ some []
  | no_lead ↦ none
]
convert_modified_utf8_to_chars (b ∷ c ∷ d ∷ bs) = elim (lead_of b) [
  | one_byte ↦ put_char b (convert_modified_utf8_to_chars (c ∷ d ∷ bs))
  | two_bytes ↦ put_char (two_byte_char b c) (convert_modified_utf8_to_chars (d ∷ bs))
  | three_bytes ↦ put_char (three_byte_char b c d) (convert_modified_utf8_to_chars bs)
  | end_of_text ↦ some []
  | no_lead ↦ none
]

unfoldable pub do_latin1 : List ℕ → Bool
do_latin1 [] = true
do_latin1 (c ∷ cs) = c / 256 == 0 && do_latin1 cs

pub data Coder : Type 0 where
  latin1 utf16 : Coder

-- `native_String`: the coder and the bytes of `value`.
pub record NativeString : Type 0 where
  pub coder : Coder
  pub value : List ℕ

-- The bytes of 16-bit characters in memory, which is little-endian.
unfoldable pub char_bytes : List ℕ → List ℕ
char_bytes [] = []
char_bytes (c ∷ cs) = c % 256 ∷ c / 256 ∷ char_bytes cs

-- The two branches of `make_jstring_modified_utf8`.
unfoldable pub make_string : List ℕ → NativeString
unfolding do_latin1 char_bytes
make_string chars =
    if do_latin1 chars
    then record { coder = latin1; value = map (λ c. c % 256) chars }
    else record { coder = utf16; value = char_bytes chars }

-- With memory at hand: `none` for a string that is not modified UTF-8.
unfoldable pub make_jstring_modified_utf8 : List ℕ → Option NativeString
unfolding convert_modified_utf8_to_chars make_string
make_jstring_modified_utf8 bytes = elim (convert_modified_utf8_to_chars bytes) [
  | none ↦ none
  | some chars ↦ some (make_string chars)
]
