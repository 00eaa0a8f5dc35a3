-- ===== src/Descriptor.antt =====
-- engine/bjvm/vm/classfile.c: the kinds of types, and the parsers of field and method descriptors,
-- over the characters of a descriptor.
pub mod Field
pub mod Accepted
pub mod Method
pub mod Signature
use tracejvm.Prelude.{
  ℕ, zero, suc, ◌+◌, Bool, true, false, ◌&&◌, ◌||◌, Option, none, some, List, [], ◌∷◌, ◌++◌, ltb,
  ◌==◌, if◌then◌else◌, is_null, length,
}

pub data TypeKind : Type 0 where
  boolean char float double byte short int long void reference : TypeKind

unfoldable pub kind_to_representable_kind : TypeKind → TypeKind
kind_to_representable_kind boolean = int
kind_to_representable_kind char = int
kind_to_representable_kind byte = int
kind_to_representable_kind short = int
kind_to_representable_kind int = int
kind_to_representable_kind kind = kind

-- `none` where the code stops the program.
unfoldable pub read_type_kind_char : ℕ → Option TypeKind
read_type_kind_char c =
    if c == b'Z'
    then some boolean
    else if c == b'C'
    then some char
    else if c == b'F'
    then some float
    else if c == b'D'
    then some double
    else if c == b'B'
    then some byte
    else if c == b'S'
    then some short
    else if c == b'I'
    then some int
    else if c == b'J'
    then some long
    else if c == b'V'
    then some void
    else if c == b'L'
    then some reference
    else none

unfoldable pub type_kind_to_char : TypeKind → ℕ
type_kind_to_char boolean = b'Z'
type_kind_to_char char = b'C'
type_kind_to_char float = b'F'
type_kind_to_char double = b'D'
type_kind_to_char byte = b'B'
type_kind_to_char short = b'S'
type_kind_to_char int = b'I'
type_kind_to_char long = b'J'
type_kind_to_char void = b'V'
type_kind_to_char reference = b'L'

pub record FieldDescriptor : Type 0 where
  pub dimensions : ℕ
  pub base_kind : TypeKind
  pub repr_kind : TypeKind
  pub unparsed : List ℕ
  pub class_name : List ℕ

pub data Message : Type 0 where
  too_many_dimensions void_dimensions missing_semicolon missing_class_name : Message
  invalid_character end_of_string expected_parenthesis void_parameter missing_parenthesis : Message

pub data Result {ℓ} (A : Type ℓ) : Type ℓ where
  ok : A → Result A
  err : Message → Result A

-- The name up to a semicolon, and what stands behind that; `none` without one.
unfoldable pub split_name : List ℕ → Option (List ℕ × List ℕ)
split_name [] = none
split_name (c ∷ cs) =
    let rest = split_name cs in
    if c == b';' then some ([], cs) else elim rest [ none ↦ none | some r ↦ some (c ∷ r.0, r.1) ]

-- The case of a primitive type, `seen` being what was read from the start of the field. `class_name`
-- is not written then, and is empty here.
unfoldable pub primitive_field :
    ℕ → List ℕ → ℕ → TypeKind → List ℕ → Result (FieldDescriptor × List ℕ)
unfolding kind_to_representable_kind
primitive_field dimensions seen c kind rest =
    if c == b'V' && ltb 0 dimensions
    then err void_dimensions
    else ok (
      record {
        dimensions = dimensions;
        base_kind = kind;
        repr_kind = if is_null dimensions then kind_to_representable_kind kind else reference;
        unparsed = seen ++ c ∷ [];
        class_name = [];
      },
      rest,
    )

-- The case of a class.
unfoldable pub class_field :
    ℕ → List ℕ → Option (List ℕ × List ℕ) → Result (FieldDescriptor × List ℕ)
class_field dimensions seen none = err missing_semicolon
class_field dimensions seen (some ([], rest)) = err missing_class_name
class_field dimensions seen (some (c ∷ name, rest)) = ok (
  record {
    dimensions = dimensions;
    base_kind = reference;
    repr_kind = reference;
    unparsed = seen ++ b'L' ∷ ((c ∷ name) ++ b';' ∷ []);
    class_name = c ∷ name;
  },
  rest,
)

-- The characters that the first cases of the switch name.
abbrev pub is_primitive : ℕ → Bool
is_primitive c =
    c == b'B'
    || (c == b'C'
        || (c == b'D'
            || (c == b'F'
                || (c == b'I' || (c == b'J' || (c == b'S' || (c == b'Z' || c == b'V')))))))

-- The loop of `parse_field_descriptor`.
unfoldable pub parse_field_from : ℕ → List ℕ → List ℕ → Result (FieldDescriptor × List ℕ)
unfolding read_type_kind_char split_name primitive_field class_field
parse_field_from dimensions seen [] = err end_of_string
parse_field_from dimensions seen (c ∷ cs) =
    let more = parse_field_from (dimensions + 1) (seen ++ c ∷ []) cs in
    if ltb 255 dimensions
    then err too_many_dimensions
    else if is_primitive c
    then elim (read_type_kind_char c) [
      | none ↦ err invalid_character
      | some kind ↦ primitive_field dimensions seen c kind cs
    ]
    else if c == b'['
    then more
    else if c == b'L'
    then class_field dimensions seen (split_name cs)
    else err invalid_character

unfoldable pub parse_field_descriptor : List ℕ → Result (FieldDescriptor × List ℕ)
unfolding parse_field_from
parse_field_descriptor chars = parse_field_from 0 [] chars
