-- ===== src/HashTable/Entries.antt =====
-- The entries of a chain of engine/bjvm/vm/adt.c as an association list.
use tracejvm.Prelude.{
  ℕ, ◌+◌, ◌≡◌, ◌≢◌, refl, subst, sym, ap, ap₂, inl, inr, Bool, true, false, none, some, List, [],
  ◌∷◌, ◌++◌, arith, ==_iff, if◌then◌else◌, length, All, Bool-cases,
}
use tracejvm.HashTable.{home, Key, same_key, Entry, find_key, write_data, unlink}

pub same_key_eq : (a b : Key) → same_key a b ≡ true → a ≡ b
unfolding same_key
same_key_eq [] [] h = refl
same_key_eq [] (b ∷ bs) h = ground arith
same_key_eq (a ∷ xs) [] h = ground arith
same_key_eq (a ∷ xs) (b ∷ bs) h =
    ap₂ (λ x y. x ∷ y) ((==_iff a b).0 (ground arith)) (same_key_eq xs bs (ground arith))

pub same_key_refl : (a : Key) → same_key a a ≡ true
unfolding same_key
same_key_refl [] = refl
same_key_refl (a ∷ xs) = ground (arith, same_key_refl xs)

pub same_key_join : (a b c : Key) → same_key a c ≡ true → same_key b c ≡ true → same_key a b ≡ true
same_key_join a b c h k = subst (λ d. same_key a d ≡ true) (sym (same_key_eq b c k)) h

pub same_key_congr : (a b c : Key) → same_key a b ≡ true → same_key a c ≡ same_key b c
same_key_congr a b c h = ap (λ d. same_key d c) (same_key_eq a b h)

pub same_key_apart :
    (a b c : Key) → same_key a b ≡ false → same_key b c ≡ true → same_key a c ≡ false
same_key_apart a b c h k = subst (λ d. same_key a d ≡ false) (same_key_eq b c k) h

-- No entry has the key of one before it.
abbrev pub Distinct : List Entry → Type 0
Distinct [] = Unit
Distinct (e ∷ es) = (find_key e.key es ≡ none) × Distinct es

pub find_key-write_data :
    (k j : Key) (v : ℕ) (es : List Entry) (d : ℕ)
    → find_key k es ≡ some d
    → find_key j (write_data k v es) ≡ (if same_key k j then some v else find_key j es)
unfolding find_key write_data
find_key-write_data k j v [] d h = ground arith
find_key-write_data k j v (e ∷ es) d h = elim (Bool-cases (same_key e.key k)) [
  | inl e' ↦ ground (arith, e', same_key_congr e.key k j e')
  | inr e' ↦
      ground (arith, e', find_key-write_data k j v es d (ground arith), same_key_apart e.key k j e')
]

-- What stands first is found first.
pub find_key-append :
    (j : Key) (es fs : List Entry)
    → find_key j (es ++ fs) ≡ (elim (find_key j es) [ none ↦ find_key j fs | some v ↦ some v ])
unfolding find_key
find_key-append j [] fs = refl
find_key-append j (e ∷ es) fs = ground (arith, find_key-append j es fs)

pub find_key-unlink :
    (k j : Key) (es : List Entry)
    → Distinct es
    → find_key j (unlink k es) ≡ (if same_key k j then none else find_key j es)
unfolding find_key unlink
find_key-unlink k j [] d = ground arith
find_key-unlink k j (e ∷ es) d =
    ground (arith, find_key-unlink k j es d.1, same_key_eq e.key k, same_key_eq k j, d.0)

write_data-none :
    (k j : Key) (v : ℕ) (es : List Entry)
    → find_key j es ≡ none
    → find_key j (write_data k v es) ≡ none
unfolding find_key write_data
write_data-none k j v [] h = h
write_data-none k j v (e ∷ es) h = ground (arith, write_data-none k j v es)

unlink-none : (k j : Key) (es : List Entry) → find_key j es ≡ none → find_key j (unlink k es) ≡ none
unfolding find_key unlink
unlink-none k j [] h = h
unlink-none k j (e ∷ es) h = ground (arith, unlink-none k j es)

either :
    (P : List Entry → Type 0) (b : Bool) (es fs : List Entry)
    → P es
    → P fs
    → P (if b then es else fs)
either P true es fs p q = p
either P false es fs p q = q

-- Keys and their order stay.
pub write_data-Distinct :
    (k : Key) (v : ℕ) (es : List Entry) → Distinct es → Distinct (write_data k v es)
unfolding write_data
write_data-Distinct k v [] d = tt
write_data-Distinct k v (e ∷ es) d =
    either Distinct (same_key e.key k) (record e { value = v } ∷ es) (e ∷ write_data k v es) d
      (write_data-none k e.key v es d.0, write_data-Distinct k v es d.1)

pub unlink-Distinct : (k : Key) (es : List Entry) → Distinct es → Distinct (unlink k es)
unfolding unlink
unlink-Distinct k [] d = tt
unlink-Distinct k (e ∷ es) d =
    either Distinct (same_key e.key k) es (e ∷ unlink k es) d.1
      (unlink-none k e.key es d.0, unlink-Distinct k es d.1)

pub append-Distinct :
    (es fs : List Entry)
    → Distinct es
    → Distinct fs
    → ((j : Key) (v : ℕ) → find_key j es ≡ some v → find_key j fs ≡ none)
    → Distinct (es ++ fs)
unfolding find_key
append-Distinct [] fs d f h = f
append-Distinct (e ∷ es) fs d f h = (
  ground (arith, find_key-append e.key es fs, d.0, h e.key e.value, same_key_refl e.key),
  append-Distinct es fs d.1 f (λ j v s. elim (Bool-cases (same_key e.key j)) [
    | inl e' ↦ h j e.value (ground arith)
    | inr e' ↦ h j v (ground arith)
  ]),
)

pub length-write_data : (k : Key) (v : ℕ) (es : List Entry) → length (write_data k v es) ≡ length es
unfolding write_data
length-write_data k v [] = refl
length-write_data k v (e ∷ es) = ground (arith, length-write_data k v es)

pub length-unlink :
    (k : Key) (v : ℕ) (es : List Entry)
    → find_key k es ≡ some v
    → length (unlink k es) + 1 ≡ length es
unfolding unlink find_key
length-unlink k v [] h = ground arith
length-unlink k v (e ∷ es) h = ground (arith, length-unlink k v es)

-- Every entry has its key at home in slot `i` of `slots`.
abbrev pub Homed : ℕ → ℕ → List Entry → Type 0
Homed slots i = All (λ e. home slots e.key ≡ i)

pub write_data-Homed :
    (slots i : ℕ) (k : Key) (v : ℕ) (es : List Entry)
    → Homed slots i es
    → Homed slots i (write_data k v es)
unfolding write_data
write_data-Homed slots i k v [] h = tt
write_data-Homed slots i k v (e ∷ es) h =
    either (Homed slots i) (same_key e.key k) (record e { value = v } ∷ es) (e ∷ write_data k v es)
      h (h.0, write_data-Homed slots i k v es h.1)

pub unlink-Homed :
    (slots i : ℕ) (k : Key) (es : List Entry) → Homed slots i es → Homed slots i (unlink k es)
unfolding unlink
unlink-Homed slots i k [] h = tt
unlink-Homed slots i k (e ∷ es) h =
    either (Homed slots i) (same_key e.key k) es (e ∷ unlink k es) h.1
      (h.0, unlink-Homed slots i k es h.1)

-- A key is not found where it is not at home.
pub find_key-Homed :
    (slots i : ℕ) (j : Key) (es : List Entry)
    → Homed slots i es
    → home slots j ≢ i
    → find_key j es ≡ none
unfolding find_key
find_key-Homed slots i j [] h n = refl
find_key-Homed slots i j (e ∷ es) h n =
    ground (arith, find_key-Homed slots i j es h.1 n, same_key_eq e.key j, h.0)
