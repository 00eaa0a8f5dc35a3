-- ===== src/Descriptor/Accepted.antt =====
-- The inputs that `parse_field_descriptor` of engine/bjvm/vm/classfile.c accepts.
use tracejvm.Prelude.{
  ℕ, suc, ◌+◌, ◌≤◌, ◌≡◌, ◌≢◌, refl, sym, ap, ap₂, subst, ◌∙◌, inl, inr, true, false, Option, none,
  some, List, [], ◌∷◌, ◌++◌, append_assoc, arith, ◌==◌, replicate, Bool-cases, Option-cases,
}
use tracejvm.Descriptor.{
  TypeKind, boolean, char, float, double, byte, short, int, long, void, reference,
  type_kind_to_char, FieldDescriptor, ok, split_name, class_field, is_primitive, parse_field_from,
  parse_field_descriptor,
}
use tracejvm.Descriptor.Field.{
  Base, primitive, named, print_base, print_field, described, IsType, NoSemicolon,
  parse_field_descriptor-print_field,
}

split_name-some :
    (cs name rest : List ℕ)
    → split_name cs ≡ some (name, rest)
    → (cs ≡ name ++ b';' ∷ rest) × NoSemicolon name
unfolding split_name
split_name-some [] name rest e = absurd (ground arith)
split_name-some (c ∷ cs) [] rest e = ground (arith, Option-cases (split_name cs))
split_name-some (c ∷ cs) (n ∷ name) rest e =
    let found : split_name cs ≡ some (name, rest) = ground arith in
    let (path, clean) = split_name-some cs name rest found in (ground arith, (ground arith, clean))

-- A primitive character names a kind.
abbrev Named : ℕ → Type 0
Named c = (kind : TypeKind) × (c ≡ type_kind_to_char kind) × (kind ≢ reference)

-- What is accepted from `k` dimensions on.
abbrev Accepts : ℕ → List ℕ → List ℕ → Type 0
Accepts k cs rest =
    (n : ℕ) × (base : Base) × IsType (n + k) base
    × (cs ≡ replicate n b'[' ++ (print_base base ++ rest))

void_char : type_kind_to_char void ≡ b'V'
unfolding type_kind_to_char
void_char = refl

parse_field_from_nil :
    (k : ℕ) (seen rest : List ℕ) (d : FieldDescriptor)
    → ¬ (parse_field_from k seen [] ≡ ok (d, rest))
unfolding parse_field_from
parse_field_from_nil k seen rest d e = cc

field_from :
    (cs : List ℕ) {r : FieldDescriptor × List ℕ}
    → parse_field_descriptor cs ≡ ok r
    → parse_field_from 0 [] cs ≡ ok r
unfolding parse_field_descriptor
field_from cs e = e

ok-injective : {A : Type 0} {a b : A} → ok a ≡ ok b → a ≡ b
ok-injective e = cc

complete :
    (cs rest : List ℕ) (d : FieldDescriptor)
    → parse_field_descriptor cs ≡ ok (d, rest)
    → Accepts 0 cs rest
    → (dimensions : ℕ) × (base : Base) × IsType dimensions base
      × (cs ≡ print_field dimensions base ++ rest)
      × (d ≡ described dimensions (replicate dimensions b'[') base)
complete cs rest d e (n, base, h, path) =
    let h' : IsType n base = subst (λ k. IsType k base) (omega arith) h in
    let path' : cs ≡ print_field n base ++ rest =
      path ∙ sym (append_assoc (replicate n b'[') (print_base base) rest) in
    (
      n,
      base,
      h',
      path',
      ap (λ r. r.0)
          (ok-injective (
            sym e
            ∙ ap parse_field_descriptor path'
            ∙ parse_field_descriptor-print_field n base rest h')),
    )

module _ (k : ℕ) (seen : List ℕ) (c : ℕ) (cs rest : List ℕ) (d : FieldDescriptor)
    (e : parse_field_from k seen (c ∷ cs) ≡ ok (d, rest)) where
  few : k ≤ 255
  unfolding parse_field_from
  few = ground arith

  primitive_rest :
      (kind : TypeKind) → c ≡ type_kind_to_char kind → is_primitive c ≡ true → cs ≡ rest
  unfolding parse_field_from
  primitive_rest kind q p = ground arith

  void_zero : is_primitive c ≡ true → c ≡ b'V' → k ≡ 0
  unfolding parse_field_from
  void_zero p q = ground arith

  class_case :
      is_primitive c ≡ false
      → (c == b'[') ≡ false
      → (c ≡ b'L') × (class_field k seen (split_name cs) ≡ ok (d, rest))
  unfolding parse_field_from
  class_case p q = ground arith

  bracket_case : (c == b'[') ≡ true → parse_field_from (k + 1) (seen ++ c ∷ []) cs ≡ ok (d, rest)
  unfolding parse_field_from
  bracket_case q = ground arith

  class_parts :
      class_field k seen (split_name cs) ≡ ok (d, rest)
      → (first : ℕ) × (name : List ℕ) × (split_name cs ≡ some (first ∷ name, rest))
  unfolding class_field
  class_parts h = parts (split_name cs) refl h
    where
      parts :
          (o : Option (List ℕ × List ℕ))
          → split_name cs ≡ o
          → class_field k seen o ≡ ok (d, rest)
          → (first : ℕ) × (name : List ℕ) × (split_name cs ≡ some (first ∷ name, rest))
      parts none q h = absurd (ground arith)
      parts (some ([], r)) q h = absurd (ground arith)
      parts (some (first ∷ name, r)) q h = (first, name, ground arith)

  primitive_case : is_primitive c ≡ true → Named c → Accepts k (c ∷ cs) rest
  primitive_case p (kind, q, ne) = (
    0,
    primitive kind,
    (
      omega (arith, few),
      ne,
      λ v. omega (arith, void_zero p (q ∙ ap type_kind_to_char v ∙ void_char)),
    ),
    ap₂ ◌∷◌ q (primitive_rest kind q p),
  )

  class_accepted :
      c ≡ b'L'
      → ((first : ℕ) × (name : List ℕ) × (split_name cs ≡ some (first ∷ name, rest)))
      → Accepts k (c ∷ cs) rest
  class_accepted q (first, name, h) =
      let (path, clean) = split_name-some cs (first ∷ name) rest h in
      (
        0,
        named first name,
        (omega (arith, few), clean),
        ap₂ ◌∷◌ q (path ∙ ap (◌∷◌ first) (sym (append_assoc name (b';' ∷ []) rest))),
      )

Named-char : (c : ℕ) → is_primitive c ≡ true → Named c
unfolding type_kind_to_char
Named-char c p = elim (Bool-cases (c == b'B')) [
  | inl q ↦ (byte, ground arith, λ r. cc)
  | inr nb ↦ elim (Bool-cases (c == b'C')) [
    | inl q ↦ (char, ground arith, λ r. cc)
    | inr nc ↦ elim (Bool-cases (c == b'D')) [
      | inl q ↦ (double, ground arith, λ r. cc)
      | inr nd ↦ elim (Bool-cases (c == b'F')) [
        | inl q ↦ (float, ground arith, λ r. cc)
        | inr nf ↦ elim (Bool-cases (c == b'I')) [
          | inl q ↦ (int, ground arith, λ r. cc)
          | inr ni ↦ elim (Bool-cases (c == b'J')) [
            | inl q ↦ (long, ground arith, λ r. cc)
            | inr nj ↦ elim (Bool-cases (c == b'S')) [
              | inl q ↦ (short, ground arith, λ r. cc)
              | inr ns ↦ elim (Bool-cases (c == b'Z')) [
                | inl q ↦ (boolean, ground arith, λ r. cc)
                | inr nz ↦ (void, ground arith, λ r. cc)
              ]
            ]
          ]
        ]
      ]
    ]
  ]
]

bracket_accepted :
    (k c : ℕ) (cs rest : List ℕ)
    → (c == b'[') ≡ true
    → Accepts (k + 1) cs rest
    → Accepts k (c ∷ cs) rest
bracket_accepted k c cs rest q (n, base, h, e) =
    (suc n, base, subst (λ d. IsType d base) (omega arith) h, ap₂ ◌∷◌ (ground arith) e)

parse_field_from-Accepts :
    (k : ℕ) (seen cs rest : List ℕ) (d : FieldDescriptor)
    → parse_field_from k seen cs ≡ ok (d, rest)
    → Accepts k cs rest
parse_field_from-Accepts k seen [] rest d e = absurd (parse_field_from_nil k seen rest d e)
parse_field_from-Accepts k seen (c ∷ cs) rest d e = elim (Bool-cases (is_primitive c)) [
  | inl p ↦ primitive_case k seen c cs rest d e p (Named-char c p)
  | inr p ↦ elim (Bool-cases (c == b'[')) [
    | inl q ↦ bracket_accepted k c cs rest q (
        parse_field_from-Accepts (k + 1) (seen ++ c ∷ []) cs rest d
          (bracket_case k seen c cs rest d e q))
    | inr q ↦
        let (l, h) = class_case k seen c cs rest d e p q in
        class_accepted k seen c cs rest d e l (class_parts k seen c cs rest d e h)
  ]
]

-- What `parse_field_descriptor` accepts is a type of the grammar, written out, and the rest that it
-- leaves; its result is the descriptor of that type.
pub parse_field_descriptor-accepts :
    (cs rest : List ℕ) (d : FieldDescriptor)
    → parse_field_descriptor cs ≡ ok (d, rest)
    → (dimensions : ℕ) × (base : Base) × IsType dimensions base
      × (cs ≡ print_field dimensions base ++ rest)
      × (d ≡ described dimensions (replicate dimensions b'[') base)
parse_field_descriptor-accepts cs rest d e =
    complete cs rest d e (parse_field_from-Accepts 0 [] cs rest d (field_from cs e))
