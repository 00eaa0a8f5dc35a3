-- ===== src/Descriptor/Signature.antt =====
-- `parse_method_descriptor` of engine/bjvm/vm/classfile.c against the grammar of method descriptors.
use tracejvm.Prelude.{
  ℕ, zero, suc, ◌≤◌, ◌<◌, ◌≡◌, ◌≢◌, refl, sym, ap, ◌∙◌, false, none, some, List, [], ◌∷◌, ◌++◌, map,
  append_assoc, arith, ◌==◌, All, length, length-append, replicate,
}
use tracejvm.Descriptor.{
  TypeKind, boolean, void, FieldDescriptor, Result, ok, err, type_kind_to_char,
  parse_field_descriptor,
}
use tracejvm.Descriptor.Field.{
  Base, primitive, named, print_field, described, IsType, parse_field_descriptor-print_field,
}
use tracejvm.Descriptor.Accepted.{parse_field_descriptor-accepts}
use tracejvm.Descriptor.Method.{
  is_void, parse_args, parse_return, after_args, parse_method_descriptor,
}

-- A type by its dimensions and its base.
abbrev pub JavaType : Type 0
JavaType = ℕ × Base

abbrev pub describe : JavaType → FieldDescriptor
describe t = described t.0 (replicate t.0 b'[') t.1

abbrev pub print_types : List JavaType → List ℕ
print_types [] = []
print_types (t ∷ ts) = print_field t.0 t.1 ++ print_types ts

abbrev pub IsParameter : JavaType → Type 0
IsParameter t = IsType t.0 t.1 × (t.1 ≢ primitive void)

-- A field does not begin with the parenthesis.
abbrev Opens : List ℕ → Type 0
Opens cs = (c : ℕ) × (rest : List ℕ) × (cs ≡ c ∷ rest) × ((c == b')') ≡ false)

kind-Opens : (kind : TypeKind) → (type_kind_to_char kind == b')') ≡ false
unfolding type_kind_to_char
kind-Opens boolean = refl
kind-Opens _ = refl

field-Opens : (n : ℕ) (base : Base) (rest : List ℕ) → Opens (print_field n base ++ rest)
field-Opens zero (primitive kind) rest = (type_kind_to_char kind, rest, refl, kind-Opens kind)
field-Opens zero (named c cs) rest = (_, _, refl, refl)
field-Opens (suc n) base rest = (_, _, refl, refl)

is_void-described : (t : JavaType) → IsParameter t → is_void (describe t).base_kind ≡ false
is_void-described (n, primitive void) h = absurd (h.1 refl)
is_void-described (n, primitive _) h = refl
is_void-described (n, named c cs) h = refl

parse_args_cons :
    (fuel c : ℕ) (cs : List ℕ) (d : FieldDescriptor) (args : List FieldDescriptor)
    (rest rest' : List ℕ)
    → (c == b')') ≡ false
    → parse_field_descriptor (c ∷ cs) ≡ ok (d, rest)
    → is_void d.base_kind ≡ false
    → parse_args fuel rest ≡ some (ok (args, rest'))
    → parse_args (suc fuel) (c ∷ cs) ≡ some (ok (d ∷ args, rest'))
unfolding parse_args
parse_args_cons fuel c cs d args rest rest' open_ e v h = ground arith

parse_args_step :
    (fuel : ℕ) (chars : List ℕ) (d : FieldDescriptor) (args : List FieldDescriptor)
    (rest rest' : List ℕ)
    → Opens chars
    → parse_field_descriptor chars ≡ ok (d, rest)
    → is_void d.base_kind ≡ false
    → parse_args fuel rest ≡ some (ok (args, rest'))
    → parse_args (suc fuel) chars ≡ some (ok (d ∷ args, rest'))
parse_args_step fuel chars d args rest rest' (c, cs, q, open_) e v h =
    ap (parse_args (suc fuel)) q
    ∙ parse_args_cons fuel c cs d args rest rest' open_ (sym (ap parse_field_descriptor q) ∙ e) v h

parse_args_end :
    (fuel : ℕ) (rest : List ℕ) → parse_args (suc fuel) (b')' ∷ rest) ≡ some (ok ([], b')' ∷ rest))
unfolding parse_args
parse_args_end fuel rest = refl

parse_args-print_types :
    (fuel : ℕ) (ts : List JavaType) (rest : List ℕ)
    → length ts < fuel
    → All IsParameter ts
    → parse_args fuel (print_types ts ++ b')' ∷ rest) ≡ some (ok (map describe ts, b')' ∷ rest))
parse_args-print_types zero ts rest lt h = absurd (omega arith)
parse_args-print_types (suc fuel) [] rest lt h = parse_args_end fuel rest
parse_args-print_types (suc fuel) (t ∷ ts) rest lt h =
    ap (parse_args (suc fuel)) (append_assoc (print_field t.0 t.1) (print_types ts) (b')' ∷ rest))
    ∙ parse_args_step fuel (print_field t.0 t.1 ++ (print_types ts ++ b')' ∷ rest)) (describe t)
        (map describe ts) (print_types ts ++ b')' ∷ rest) (b')' ∷ rest)
        (field-Opens t.0 t.1 (print_types ts ++ b')' ∷ rest))
        (parse_field_descriptor-print_field t.0 t.1 (print_types ts ++ b')' ∷ rest) h.0.0)
        (is_void-described t h.0) (parse_args-print_types fuel ts rest (omega arith) h.1)

length-field : (n : ℕ) (base : Base) → 0 < length (print_field n base)
length-field zero (primitive kind) = omega arith
length-field zero (named c cs) = omega arith
length-field (suc n) base = omega arith

length-print_types : (ts : List JavaType) → length ts ≤ length (print_types ts)
length-print_types [] = omega arith
length-print_types (t ∷ ts) = omega (
  arith,
  length-append (print_field t.0 t.1) (print_types ts),
  length-field t.0 t.1,
  length-print_types ts,
)

parse_return-print_field :
    (args : List FieldDescriptor) (result : JavaType) (junk : List ℕ)
    → IsType result.0 result.1
    → parse_return args (b')' ∷ (print_field result.0 result.1 ++ junk))
      ≡ ok (record { args = args; return_type = describe result })
unfolding parse_return
parse_return-print_field args result junk h =
    rw (parse_field_descriptor-print_field result.0 result.1 junk h, parse_return)

method_body :
    (chars : List ℕ)
    → parse_method_descriptor (b'(' ∷ chars) ≡ after_args (parse_args (suc (length chars)) chars)
unfolding parse_method_descriptor
method_body chars = refl

after_args_ok :
    (args : List FieldDescriptor) (rest : List ℕ)
    → after_args (some (ok (args, rest))) ≡ some (parse_return args rest)
unfolding after_args
after_args_ok args rest = refl

-- A method descriptor of the grammar is parsed to the descriptors of its parameters and of its
-- result. Any characters may stand behind it: they are not looked at.
pub parse_method_descriptor-print :
    (ts : List JavaType) (result : JavaType) (junk : List ℕ)
    → All IsParameter ts
    → IsType result.0 result.1
    → parse_method_descriptor
        (b'(' ∷ (print_types ts ++ b')' ∷ (print_field result.0 result.1 ++ junk)))
      ≡ some (ok (record { args = map describe ts; return_type = describe result }))
parse_method_descriptor-print ts result junk h k =
    method_body (print_types ts ++ b')' ∷ (print_field result.0 result.1 ++ junk))
    ∙ ap after_args (
        parse_args-print_types _ ts (print_field result.0 result.1 ++ junk)
          (omega (
            arith,
            length-append (print_types ts) (b')' ∷ (print_field result.0 result.1 ++ junk)),
            length-print_types ts,
          ))
          h)
    ∙ after_args_ok (map describe ts) (b')' ∷ (print_field result.0 result.1 ++ junk))
    ∙ ap some (parse_return-print_field (map describe ts) result junk k)

shorter :
    (cs rest : List ℕ) (d : FieldDescriptor)
    → parse_field_descriptor cs ≡ ok (d, rest)
    → length rest < length cs
shorter cs rest d e =
    let (n, base, h, path, q) = parse_field_descriptor-accepts cs rest d e in
    omega (arith, ap length path, length-append (print_field n base) rest, length-field n base)

parse_args_ends : (fuel : ℕ) (cs : List ℕ) → length cs < fuel → parse_args fuel cs ≢ none
unfolding parse_args
parse_args_ends zero cs lt = absurd (omega arith)
parse_args_ends (suc fuel) [] lt = ground arith
parse_args_ends (suc fuel) (c ∷ cs) lt =
    go (parse_args_ends fuel) (parse_field_descriptor (c ∷ cs)) refl
  where
    go :
        ((rest : List ℕ) → length rest < fuel → parse_args fuel rest ≢ none)
        → (r : Result (FieldDescriptor × List ℕ)) → parse_field_descriptor (c ∷ cs) ≡ r
        → parse_args (suc fuel) (c ∷ cs) ≢ none
    go ih (err e) q = ground arith
    go ih (ok (d, rest)) q = ground (arith, shorter (c ∷ cs) rest d q, ih rest)

-- On any characters the parser of method descriptors ends with a descriptor or an error: the fuel
-- that the model gives it is never used up.
pub parse_method_descriptor_ends : (cs : List ℕ) → parse_method_descriptor cs ≢ none
unfolding parse_method_descriptor after_args
parse_method_descriptor_ends [] = ground arith
parse_method_descriptor_ends (c ∷ cs) = ground (arith, parse_args_ends (suc (length cs)) cs)
