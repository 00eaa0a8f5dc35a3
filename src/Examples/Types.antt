-- ===== src/Examples/Types.antt =====
-- The descriptor parsers of engine/bjvm/vm/classfile.c at work.
use tracejvm.Prelude.{ℕ, ◌≡◌, refl, [], ◌∷◌, ◌++◌, some, replicate, arith}
use tracejvm.Descriptor
use tracejvm.Descriptor.{int, void, FieldDescriptor, ok, parse_field_descriptor}
use tracejvm.Descriptor.Field.{Base, primitive, named, print_field, described, IsType}
use tracejvm.Descriptor.Accepted.{parse_field_descriptor-accepts}
use tracejvm.Descriptor.Method.{parse_method_descriptor}
use tracejvm.Descriptor.Signature.{describe, print_types, parse_method_descriptor-print}

-- `A`, a class.
abbrev class_a : Base
class_a = named b'A' []

parse_field_descriptor-accepts_example :
    (dimensions : ℕ) × (base : Base) × IsType dimensions base
    × (b'[' ∷ b'I' ∷ [] ≡ print_field dimensions base ++ [])
    × (described 1 (b'[' ∷ []) (primitive int)
        ≡ described dimensions (replicate dimensions b'[') base)
unfolding parse_field_descriptor tracejvm.Descriptor.type_kind_to_char
parse_field_descriptor-accepts_example =
    parse_field_descriptor-accepts (b'[' ∷ b'I' ∷ []) [] (described 1 (b'[' ∷ []) (primitive int))
      refl

-- `([I)V` and a character that nothing reads.
parse_method_descriptor-print_example :
    parse_method_descriptor (
      b'('
      ∷ (print_types ((1, primitive int) ∷ [])
          ++ b')' ∷ (print_field 0 (primitive void) ++ b'X' ∷ [])))
    ≡ some (
        ok (record {
          args = describe (1, primitive int) ∷ [];
          return_type = describe (0, primitive void);
        }))
parse_method_descriptor-print_example =
    parse_method_descriptor-print ((1, primitive int) ∷ []) (0, primitive void) (b'X' ∷ [])
      (((omega arith, (λ e. cc), λ e. cc), λ e. cc), tt) (omega arith, (λ e. cc), λ e. refl)
