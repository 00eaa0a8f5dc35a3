-- ===== src/Examples/Coding.antt =====
-- The writers of engine/bjvm/vm/wasm/wasm_utils.c and the strings of engine/bjvm/vm/objects.c at work.
use tracejvm.Prelude.{ℕ, ◌≤◌, ◌^◌, ◌-◌, ◌≡◌, refl, some, List, [], ◌∷◌, length, All, arith}
use tracejvm.Wasm.{wasm_writeuint, wasm_writeint}
use tracejvm.Wasm.Unsigned.{Encodes, wasm_writeuint-Encodes}
use tracejvm.Wasm.Signed.{EncodesInt, wasm_writeint-EncodesInt}
use tracejvm.Strings.{NativeString, convert_modified_utf8_to_chars, make_jstring_modified_utf8}
use tracejvm.Strings.Coding.{IsChar, encode, Holds, make_jstring_modified_utf8-Holds}
use tracejvm.Strings.Bounds.{convert_modified_utf8_to_chars-Fits}

-- The two examples of the DWARF standard.
written_uint : wasm_writeuint 624485 ≡ some (0xe5 ∷ 0x8e ∷ 0x26 ∷ [])
unfolding wasm_writeuint
written_uint = refl

written_int : wasm_writeint (2 ^ 64 - 123456) ≡ some (0xc0 ∷ 0xbb ∷ 0x78 ∷ [])
unfolding wasm_writeint
written_int = refl

wasm_writeuint-Encodes_example : Encodes 10 624485 (wasm_writeuint 624485)
wasm_writeuint-Encodes_example = wasm_writeuint-Encodes 624485 (omega arith)

wasm_writeint-EncodesInt_example : EncodesInt 10 (2 ^ 64 - 123456) (wasm_writeint (2 ^ 64 - 123456))
wasm_writeint-EncodesInt_example = wasm_writeint-EncodesInt (2 ^ 64 - 123456) (omega arith)

-- A letter, the null character, the euro sign.
abbrev text : List ℕ
text = b'a' ∷ 0 ∷ 0x20ac ∷ []

encoded_text : encode text ≡ b'a' ∷ 0xc0 ∷ 0x80 ∷ 0xe2 ∷ 0x82 ∷ 0xac ∷ []
unfolding encode
encoded_text = refl

make_jstring_modified_utf8-Holds_example :
    (s : NativeString) × (make_jstring_modified_utf8 (encode text) ≡ some s) × Holds text s
make_jstring_modified_utf8-Holds_example =
    make_jstring_modified_utf8-Holds text (omega arith, (omega arith, (omega arith, tt)))

convert_modified_utf8_to_chars-Fits_example : (length text ≤ 6) × All IsChar text
unfolding convert_modified_utf8_to_chars
convert_modified_utf8_to_chars-Fits_example =
    convert_modified_utf8_to_chars-Fits (b'a' ∷ 0xc0 ∷ 0x80 ∷ 0xe2 ∷ 0x82 ∷ 0xac ∷ []) text
      (omega arith, (omega arith, (omega arith, (omega arith, (omega arith, (omega arith, tt))))))
      refl
