-- ===== src/Descriptor/Field.antt =====
-- `parse_field_descriptor` of engine/bjvm/vm/classfile.c against the grammar of field descriptors.
use tracejvm.Prelude.{
  subst, ℕ, zero, suc, ◌+◌, ◌≤◌, ◌≡◌, ◌≢◌, refl, sym, ap, ◌∙◌, false, some, List, [], ◌∷◌, ◌++◌,
  append-nil, append_assoc, arith, ◌==◌, if◌then◌else◌, is_null, All, replicate,
}
use tracejvm.Descriptor.{
  TypeKind, boolean, void, reference, kind_to_representable_kind, type_kind_to_char,
  FieldDescriptor, ok, split_name, parse_field_from, parse_field_descriptor,
}

-- A type without its dimensions; a class has a name of one character or more.
pub data Base : Type 0 where
  primitive : TypeKind → Base
  named : (first : ℕ) → (name : List ℕ) → Base

abbrev pub print_base : Base → List ℕ
print_base (primitive kind) = type_kind_to_char kind ∷ []
print_base (named c cs) = b'L' ∷ ((c ∷ cs) ++ b';' ∷ [])

abbrev pub print_field : ℕ → Base → List ℕ
print_field dimensions base = replicate dimensions b'[' ++ print_base base

-- The descriptor of a type of which `seen` stands in front of the base.
abbrev pub described : ℕ → List ℕ → Base → FieldDescriptor
described dimensions seen (primitive kind) = record {
  dimensions = dimensions;
  base_kind = kind;
  repr_kind = if is_null dimensions then kind_to_representable_kind kind else reference;
  unparsed = seen ++ type_kind_to_char kind ∷ [];
  class_name = [];
}
described dimensions seen (named c cs) = record {
  dimensions = dimensions;
  base_kind = reference;
  repr_kind = reference;
  unparsed = seen ++ print_base (named c cs);
  class_name = c ∷ cs;
}

abbrev pub NoSemicolon : List ℕ → Type 0
NoSemicolon = All (λ c. (c == b';') ≡ false)

-- A type of the grammar: at most 255 dimensions, none of `void`, no semicolon in a name.
abbrev pub IsType : ℕ → Base → Type 0
IsType dimensions (primitive kind) =
    (dimensions ≤ 255) × (kind ≢ reference) × (kind ≡ void → dimensions ≡ 0)
IsType dimensions (named c cs) = (dimensions ≤ 255) × NoSemicolon (c ∷ cs)

split_name-append :
    (cs rest : List ℕ) → NoSemicolon cs → split_name (cs ++ b';' ∷ rest) ≡ some (cs, rest)
unfolding split_name
split_name-append [] rest h = refl
split_name-append (c ∷ cs) rest h = ground (arith, split_name-append cs rest h.1)

parse_field_from-primitive :
    (dimensions : ℕ) (seen rest : List ℕ) (kind : TypeKind)
    → IsType dimensions (primitive kind)
    → parse_field_from dimensions seen (type_kind_to_char kind ∷ rest)
      ≡ ok (described dimensions seen (primitive kind), rest)
unfolding parse_field_from type_kind_to_char
parse_field_from-primitive n seen rest boolean h = ground arith
parse_field_from-primitive n seen rest reference h = absurd (h.1 refl)
parse_field_from-primitive n seen rest _ h = ground arith

parse_field_from-named :
    (dimensions : ℕ) (seen rest : List ℕ) (c : ℕ) (cs : List ℕ)
    → IsType dimensions (named c cs)
    → parse_field_from dimensions seen (b'L' ∷ ((c ∷ cs) ++ b';' ∷ rest))
      ≡ ok (described dimensions seen (named c cs), rest)
unfolding parse_field_from
parse_field_from-named n seen rest c cs h = ground (arith, split_name-append (c ∷ cs) rest h.1)

parse_field_from-bracket :
    (dimensions : ℕ) (seen cs : List ℕ)
    → dimensions ≤ 255
    → parse_field_from dimensions seen (b'[' ∷ cs)
      ≡ parse_field_from (dimensions + 1) (seen ++ b'[' ∷ []) cs
unfolding parse_field_from
parse_field_from-bracket n seen cs h = ground arith

parse_field_from-base :
    (dimensions : ℕ) (seen : List ℕ) (base : Base) (rest : List ℕ)
    → IsType dimensions base
    → parse_field_from dimensions seen (print_base base ++ rest)
      ≡ ok (described dimensions seen base, rest)
parse_field_from-base n seen (primitive kind) rest h = parse_field_from-primitive n seen rest kind h
parse_field_from-base n seen (named c cs) rest h =
    ap (parse_field_from n seen) (ap (λ xs. b'L' ∷ c ∷ xs) (append_assoc cs (b';' ∷ []) rest))
    ∙ parse_field_from-named n seen rest c cs h

IsType-le : (n : ℕ) (base : Base) → IsType n base → n ≤ 255
IsType-le n (primitive kind) h = h.0
IsType-le n (named c cs) h = h.0

-- The brackets are counted, from `k` on.
parse_field_from-print :
    (n k : ℕ) (seen : List ℕ) (base : Base) (rest : List ℕ)
    → IsType (n + k) base
    → parse_field_from k seen (replicate n b'[' ++ (print_base base ++ rest))
      ≡ ok (described (n + k) (seen ++ replicate n b'[') base, rest)
parse_field_from-print zero k seen base rest h =
    parse_field_from-base k seen base rest (subst (λ d. IsType d base) (omega arith) h)
    ∙ ap (λ d. ok (d, rest))
        (ap (λ s. described k s base) (sym (append-nil seen))
          ∙ ap (λ d. described d (seen ++ []) base) (omega arith))
parse_field_from-print (suc n) k seen base rest h =
    parse_field_from-bracket k seen (replicate n b'[' ++ (print_base base ++ rest))
      (omega (arith, IsType-le (suc n + k) base h))
    ∙ parse_field_from-print n (k + 1) (seen ++ b'[' ∷ []) base rest
        (subst (λ d. IsType d base) (omega arith) h)
    ∙ ap (λ d. ok (d, rest))
        (ap (λ s. described (n + (k + 1)) s base) (append_assoc seen (b'[' ∷ []) (replicate n b'['))
          ∙ ap (λ d. described d (seen ++ replicate (suc n) b'[') base) (omega arith))

-- Any type that the grammar allows, written out with anything behind it, is parsed to its descriptor,
-- and what stood behind it is left to read.
pub parse_field_descriptor-print_field :
    (dimensions : ℕ) (base : Base) (rest : List ℕ)
    → IsType dimensions base
    → parse_field_descriptor (print_field dimensions base ++ rest)
      ≡ ok (described dimensions (replicate dimensions b'[') base, rest)
unfolding parse_field_descriptor
parse_field_descriptor-print_field n base rest h =
    ap (parse_field_from 0 []) (append_assoc (replicate n b'[') (print_base base) rest)
    ∙ parse_field_from-print n 0 [] base rest (subst (λ d. IsType d base) (omega arith) h)
    ∙ ap (λ d. ok (described d (replicate n b'[') base, rest)) (omega arith)
