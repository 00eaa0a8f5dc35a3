-- ===== src/Descriptor/Method.antt =====
-- `parse_method_descriptor` of engine/bjvm/vm/classfile.c.
use tracejvm.Prelude.{
  ℕ, zero, suc, Bool, true, false, Option, none, some, List, [], ◌∷◌, ◌==◌, if◌then◌else◌, length,
}
use tracejvm.Descriptor.{
  TypeKind, void, FieldDescriptor, expected_parenthesis, void_parameter, missing_parenthesis,
  Result, ok, err, parse_field_descriptor,
}

pub record MethodDescriptor : Type 0 where
  pub args : List FieldDescriptor
  pub return_type : FieldDescriptor

abbrev pub is_void : TypeKind → Bool
is_void void = true
is_void _ = false

-- The loop over the parameters: the parameters, and the characters from the `)` on or none at all.
-- `none` means that the fuel ran out.
unfoldable pub parse_args : ℕ → List ℕ → Option (Result (List FieldDescriptor × List ℕ))
parse_args zero chars = none
parse_args (suc fuel) [] = some (ok ([], []))
parse_args (suc fuel) (c ∷ cs) = elim (c == b')') [
  | true ↦ some (ok ([], c ∷ cs))
  | false ↦ elim (parse_field_descriptor (c ∷ cs)) [
    | err e ↦ some (err e)
    | ok r ↦ elim (is_void r.0.base_kind) [
      | true ↦ some (err void_parameter)
      | false ↦ elim (parse_args fuel r.1) [
        | none ↦ none
        | some (err e) ↦ some (err e)
        | some (ok (args, rest)) ↦ some (ok (r.0 ∷ args, rest))
      ]
    ]
  ]
]

-- The end of the function: the return type, whatever stands behind it.
unfoldable pub parse_return : List FieldDescriptor → List ℕ → Result MethodDescriptor
parse_return args [] = err missing_parenthesis
parse_return args (c ∷ cs) = elim (parse_field_descriptor cs) [
  | err e ↦ err e
  | ok r ↦ ok (record { args = args; return_type = r.0 })
]

unfoldable pub after_args :
    Option (Result (List FieldDescriptor × List ℕ)) → Option (Result MethodDescriptor)
unfolding parse_return
after_args none = none
after_args (some (err e)) = some (err e)
after_args (some (ok (args, rest))) = some (parse_return args rest)

-- A field takes a character at least, so the length of the descriptor is fuel enough.
unfoldable pub parse_method_descriptor : List ℕ → Option (Result MethodDescriptor)
unfolding parse_args after_args
parse_method_descriptor [] = some (err expected_parenthesis)
parse_method_descriptor (c ∷ cs) =
    if c == b'('
    then after_args (parse_args (suc (length cs)) cs)
    else some (err expected_parenthesis)
