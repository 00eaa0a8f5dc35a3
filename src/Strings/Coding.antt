-- ===== src/Strings/Coding.antt =====
-- `make_jstring_modified_utf8` of engine/bjvm/vm/objects.c against the definition of modified UTF-8.
use tracejvm.Prelude.{
  ℕ, ◌+◌, ◌*◌, ◌/◌, ◌%◌, ◌^◌, ◌<◌, ◌≡◌, ◌↔◌, refl, ap, ap₂, ◌∙◌, inl, inr, true, ◌&&◌, none, some,
  List, [], ◌∷◌, ◌++◌, arith, leb, if◌then◌else◌, All, map, Bool-cases,
}
use tracejvm.Strings.{
  one_byte, two_bytes, three_bytes, lead_of, put_char, two_byte_char, three_byte_char,
  convert_modified_utf8_to_chars, do_latin1, latin1, utf16, NativeString, char_bytes, make_string,
  make_jstring_modified_utf8,
}

-- The modified UTF-8 of a 16-bit character; 0 takes two bytes.
unfoldable pub encode_char : ℕ → List ℕ
encode_char c =
    if leb 1 c && leb c 127
    then c ∷ []
    else if leb c 2047
    then (192 + c / 64) ∷ (128 + c % 64) ∷ []
    else (224 + c / 4096) ∷ (128 + c / 64 % 64) ∷ (128 + c % 64) ∷ []

unfoldable pub encode : List ℕ → List ℕ
unfolding encode_char
encode [] = []
encode (c ∷ cs) = encode_char c ++ encode cs

abbrev pub IsChar : ℕ → Type 0
IsChar c = c < 2 ^ 16

converted_one :
    (b : ℕ) (bs : List ℕ)
    → lead_of b ≡ one_byte
    → convert_modified_utf8_to_chars (b ∷ bs) ≡ put_char b (convert_modified_utf8_to_chars bs)
unfolding convert_modified_utf8_to_chars put_char
converted_one b [] e = ground (arith, e)
converted_one b (c ∷ []) e = ground (arith, e)
converted_one b (c ∷ d ∷ bs) e = ground (arith, e)

converted_two :
    (b c : ℕ) (bs : List ℕ)
    → lead_of b ≡ two_bytes
    → convert_modified_utf8_to_chars (b ∷ c ∷ bs)
      ≡ put_char (two_byte_char b c) (convert_modified_utf8_to_chars bs)
unfolding convert_modified_utf8_to_chars put_char
converted_two b c [] e = ground (arith, e)
converted_two b c (d ∷ bs) e = ground (arith, e)

converted_three :
    (b c d : ℕ) (bs : List ℕ)
    → lead_of b ≡ three_bytes
    → convert_modified_utf8_to_chars (b ∷ c ∷ d ∷ bs)
      ≡ put_char (three_byte_char b c d) (convert_modified_utf8_to_chars bs)
unfolding convert_modified_utf8_to_chars
converted_three b c d bs e = ground (arith, e)

lead_one : (c : ℕ) → (leb 1 c && leb c 127) ≡ true → lead_of c ≡ one_byte
unfolding lead_of
lead_one c e = ground (arith, e)

lead_two : (c : ℕ) → leb c 2047 ≡ true → lead_of (192 + c / 64) ≡ two_bytes
unfolding lead_of
lead_two c e = ground (arith, e)

lead_three : (c : ℕ) → IsChar c → lead_of (224 + c / 4096) ≡ three_bytes
unfolding lead_of
lead_three c h = ground (arith, h)

converted_char :
    (c : ℕ) (bs : List ℕ)
    → IsChar c
    → convert_modified_utf8_to_chars (encode_char c ++ bs)
      ≡ put_char c (convert_modified_utf8_to_chars bs)
unfolding encode_char
converted_char c bs h = elim (Bool-cases (leb 1 c && leb c 127)) [
  | inl e ↦ ground (arith, e, converted_one c bs (lead_one c e))
  | inr e ↦ elim (Bool-cases (leb c 2047)) [
    | inl f ↦ ground (arith, e, f, converted_two (192 + c / 64) (128 + c % 64) bs (lead_two c f))
    | inr f ↦ ground (
      arith,
      e,
      f,
      h,
      converted_three (224 + c / 4096) (128 + c / 64 % 64) (128 + c % 64) bs (lead_three c h),
    )
  ]
]

converted : (cs : List ℕ) → All IsChar cs → convert_modified_utf8_to_chars (encode cs) ≡ some cs
unfolding encode put_char convert_modified_utf8_to_chars
converted [] h = refl
converted (c ∷ cs) h = converted_char c (encode cs) h.0 ∙ ap (put_char c) (converted cs h.1)

-- The characters of a string, by its coder.
unfoldable pub char_pairs : List ℕ → List ℕ
char_pairs [] = []
char_pairs (b ∷ []) = []
char_pairs (b ∷ c ∷ bs) = (b + 256 * c) ∷ char_pairs bs

unfoldable pub string_chars : NativeString → List ℕ
unfolding char_pairs
string_chars s = elim s.coder [ latin1 ↦ s.value | utf16 ↦ char_pairs s.value ]

latin1_chars : (cs : List ℕ) → do_latin1 cs ≡ true → map (λ c. c % 256) cs ≡ cs
unfolding do_latin1
latin1_chars [] h = refl
latin1_chars (c ∷ cs) h = ap₂ (λ x xs. x ∷ xs) (ground arith) (latin1_chars cs (ground arith))

utf16_chars : (cs : List ℕ) → char_pairs (char_bytes cs) ≡ cs
unfolding char_pairs char_bytes
utf16_chars [] = refl
utf16_chars (c ∷ cs) = ap₂ (λ x xs. x ∷ xs) (omega arith) (utf16_chars cs)

made_chars : (cs : List ℕ) → string_chars (make_string cs) ≡ cs
unfolding string_chars make_string
made_chars cs = elim (Bool-cases (do_latin1 cs)) [
  | inl e ↦ ground (arith, e, latin1_chars cs e)
  | inr e ↦ ground (arith, e, utf16_chars cs)
]

do_latin1_iff : (cs : List ℕ) → (do_latin1 cs ≡ true) ↔ All (λ c. c < 256) cs
unfolding do_latin1
do_latin1_iff [] = (λ e. tt, λ h. refl)
do_latin1_iff (c ∷ cs) = (
  λ e. (ground arith, (do_latin1_iff cs).0 (ground arith)),
  λ h. ground (arith, h.0, (do_latin1_iff cs).1 h.1),
)

-- The string holds the characters, compressed exactly if each fits a byte.
pub record Holds (cs : List ℕ) (s : NativeString) : Type 0 where
  pub chars : string_chars s ≡ cs
  pub compressed : (s.coder ≡ latin1) ↔ All (λ c. c < 256) cs

coder_latin1 : (cs : List ℕ) → ((make_string cs).coder ≡ latin1) ↔ (do_latin1 cs ≡ true)
unfolding make_string
coder_latin1 cs = elim (Bool-cases (do_latin1 cs)) [
  | inl e ↦ (λ q. e, λ q. ground (arith, e))
  | inr e ↦ (λ q. ground (arith, e, q), λ q. ground (arith, e, q))
]

-- Any 16-bit characters, in modified UTF-8, make a string of just these characters; it is Latin-1
-- exactly if each of them fits a byte.
pub make_jstring_modified_utf8-Holds :
    (cs : List ℕ)
    → All IsChar cs
    → (s : NativeString) × (make_jstring_modified_utf8 (encode cs) ≡ some s) × Holds cs s
unfolding make_jstring_modified_utf8
make_jstring_modified_utf8-Holds cs h = (
  make_string cs,
  ap (λ o. elim o [ none ↦ none | some chars ↦ some (make_string chars) ]) (converted cs h),
  record {
    chars = made_chars cs;
    compressed = (
      λ e. (do_latin1_iff cs).0 ((coder_latin1 cs).0 e),
      λ a. (coder_latin1 cs).1 ((do_latin1_iff cs).1 a),
    );
  },
)
