-- ===== src/Strings/Bounds.antt =====
-- The buffer of `convert_modified_utf8_to_chars` of engine/bjvm/vm/objects.c.
use tracejvm.Prelude.{
  ℕ, suc, ◌<◌, ◌≤◌, ◌≡◌, subst, Option, none, some, List, [], ◌∷◌, arith, length, All,
}
use tracejvm.Strings.{
  Lead, one_byte, two_bytes, three_bytes, end_of_text, no_lead, lead_of, put_char, two_byte_char,
  three_byte_char, convert_modified_utf8_to_chars,
}
use tracejvm.Strings.Coding.{IsChar}

-- If there is a result, it is at most `n` characters.
abbrev Good : ℕ → Option (List ℕ) → Type 0
Good n none = Unit
Good n (some cs) = (length cs ≤ n) × All IsChar cs

Good-put : (c n : ℕ) (o : Option (List ℕ)) → IsChar c → Good n o → Good (suc n) (put_char c o)
unfolding put_char
Good-put c n none h g = tt
Good-put c n (some cs) h g = (omega (arith, g.0), (h, g.1))

Good-mono : (n m : ℕ) (o : Option (List ℕ)) → n ≤ m → Good n o → Good m o
Good-mono n m none h g = tt
Good-mono n m (some cs) h g = (omega (arith, h, g.0), g.1)

good : (bs : List ℕ) → All (λ b. b < 256) bs → Good (length bs) (convert_modified_utf8_to_chars bs)
unfolding convert_modified_utf8_to_chars
good [] h = (omega arith, tt)
good (b ∷ []) h = go (lead_of b)
  where
    go :
        (l : Lead)
        → Good 1 (elim l [
          | one_byte ↦ some (b ∷ [])
          | two_bytes ↦ none
          | three_bytes ↦ none
          | end_of_text ↦ some []
          | no_lead ↦ none
        ])
    go one_byte = (omega arith, (omega (arith, h.0), tt))
    go two_bytes = tt
    go three_bytes = tt
    go end_of_text = (omega arith, tt)
    go no_lead = tt
good (b ∷ c ∷ []) h = go (lead_of b) (good (c ∷ []) h.1)
  where
    go :
        (l : Lead)
        → Good 1 (convert_modified_utf8_to_chars (c ∷ []))
        → Good 2 (elim l [
          | one_byte ↦ put_char b (convert_modified_utf8_to_chars (c ∷ []))
          | two_bytes ↦ some (two_byte_char b c ∷ [])
          | three_bytes ↦ none
          | end_of_text ↦ some []
          | no_lead ↦ none
        ])
    go one_byte g = Good-put b 1 (convert_modified_utf8_to_chars (c ∷ [])) (omega (arith, h.0)) g
    go two_bytes g = (omega arith, (omega arith, tt))
    go three_bytes g = tt
    go end_of_text g = (omega arith, tt)
    go no_lead g = tt
good (b ∷ c ∷ d ∷ bs) h =
    go (lead_of b) (good (c ∷ d ∷ bs) h.1) (good (d ∷ bs) h.1.1) (good bs h.1.1.1)
  where
    go :
        (l : Lead)
        → Good (suc (suc (length bs))) (convert_modified_utf8_to_chars (c ∷ d ∷ bs))
        → Good (suc (length bs)) (convert_modified_utf8_to_chars (d ∷ bs))
        → Good (length bs) (convert_modified_utf8_to_chars bs)
        → Good (suc (suc (suc (length bs)))) (elim l [
          | one_byte ↦ put_char b (convert_modified_utf8_to_chars (c ∷ d ∷ bs))
          | two_bytes ↦ put_char (two_byte_char b c) (convert_modified_utf8_to_chars (d ∷ bs))
          | three_bytes ↦ put_char (three_byte_char b c d) (convert_modified_utf8_to_chars bs)
          | end_of_text ↦ some []
          | no_lead ↦ none
        ])
    go one_byte g g' g'' =
        Good-put b (suc (suc (length bs))) (convert_modified_utf8_to_chars (c ∷ d ∷ bs))
          (omega (arith, h.0)) g
    go two_bytes g g' g'' =
        Good-put (two_byte_char b c) (suc (suc (length bs)))
          (convert_modified_utf8_to_chars (d ∷ bs)) (omega arith)
          (Good-mono (suc (length bs)) (suc (suc (length bs)))
            (convert_modified_utf8_to_chars (d ∷ bs)) (omega arith) g')
    go three_bytes g g' g'' =
        Good-put (three_byte_char b c d) (suc (suc (length bs))) (convert_modified_utf8_to_chars bs)
          (omega arith)
          (Good-mono (length bs) (suc (suc (length bs))) (convert_modified_utf8_to_chars bs)
            (omega arith) g'')
    go end_of_text g g' g'' = (omega arith, tt)
    go no_lead g g' g'' = tt

-- What is converted fits the buffer, which has as many characters as there were bytes, and each
-- character fits 16 bits.
pub convert_modified_utf8_to_chars-Fits :
    (bs cs : List ℕ)
    → All (λ b. b < 256) bs
    → convert_modified_utf8_to_chars bs ≡ some cs
    → (length cs ≤ length bs) × All IsChar cs
convert_modified_utf8_to_chars-Fits bs cs h e = subst (Good (length bs)) e (good bs h)
