-- ===== src/StackMap/Init.antt =====
-- The implicit frame of engine/bjvm/vm/stackmaptable.c: `init_locals` and
-- `stack_map_frame_iterator_init`, where the allocations succeed.
pub mod Written
pub mod Locals
use tracejvm.Prelude.{
  ℕ, zero, suc, ◌+◌, Bool, true, false, Option, none, some, List, [], ◌∷◌, replicate, if◌then◌else◌,
  ◌==◌,
}
use tracejvm.Descriptor.{TypeKind}
use tracejvm.StackMap.Types.{
  ValidationKind, ValidationType, implicit_top, is_wide_kind, Iterator, Result, ok, err,
  out_of_bounds, ◌>>=◌, store,
}
use tracejvm.StackMap.Next.{stack_map_frame_iterator_next}

-- The fields of `cp_method` and its code that are read. `args` are the representable kinds of the
-- parameters, `class_name` is the pointer to the name of the class, and `table` the bytes of the
-- StackMapTable, if the code has one.
pub record Method : Type 0 where
  pub is_static : Bool
  pub is_ctor : Bool
  pub class_name : ℕ
  pub args : List TypeKind
  pub max_stack : ℕ
  pub max_locals : ℕ
  pub table : Option (List ℕ)

-- The array of that name, which is zero for the kinds that it does not list.
unfoldable pub type_to_validation_type : TypeKind → ValidationKind
type_to_validation_type TypeKind.reference = ValidationKind.object
type_to_validation_type TypeKind.int = ValidationKind.integer
type_to_validation_type TypeKind.long = ValidationKind.long
type_to_validation_type TypeKind.float = ValidationKind.float
type_to_validation_type TypeKind.double = ValidationKind.double
type_to_validation_type _ = ValidationKind.top

abbrev pub explicit_top : ValidationType
explicit_top = record { kind = ValidationKind.top; name = 0 }

unfoldable pub allocate_validation_buffer : ℕ → List ValidationType
allocate_validation_buffer count = replicate (suc count) explicit_top

-- The buffer and `local_i`.
abbrev pub Written : Type 0
Written = List ValidationType × ℕ

abbrev pub this_type : Method → ValidationType
this_type m = record {
  kind = if m.is_ctor then ValidationKind.uninit_this else ValidationKind.object;
  name = m.class_name;
}

unfoldable pub write_this : Bool → ValidationType → List ValidationType → Result Written
unfolding store
write_this true this locals = ok (locals, 0)
write_this false this locals = store locals 0 this >>= λ locals'. ok (locals', 1)

-- A parameter is not named yet.
abbrev pub arg_type : TypeKind → ValidationType
arg_type kind = record { kind = type_to_validation_type kind; name = 0 }

unfoldable pub write_wide : Bool → Written → Result Written
unfolding store
write_wide false w = ok w
write_wide true w = store w.0 w.1 implicit_top >>= λ locals. ok (locals, suc w.1)

-- The loop over the parameters.
unfoldable pub write_args : List TypeKind → Written → Result Written
unfolding type_to_validation_type store write_wide
write_args [] w = ok w
write_args (kind ∷ kinds) w = store w.0 w.1 (arg_type kind) >>= λ locals.
    write_wide (is_wide_kind (type_to_validation_type kind)) (locals, suc w.1) >>= λ w'.
    write_args kinds w'

unfoldable pub init_locals : Method → Result Written
unfolding allocate_validation_buffer write_this write_args
init_locals m =
    write_this m.is_static (this_type m) (allocate_validation_buffer m.max_locals) >>= λ w.
    write_args m.args w

abbrev pub is_some : Option (List ℕ) → Bool
is_some none = false
is_some (some bs) = true

abbrev pub bytes_of : Option (List ℕ) → List ℕ
bytes_of none = []
bytes_of (some bs) = bs

abbrev pub initial : Method → Written → Iterator
initial m w = record {
  table = bytes_of m.table;
  has_next = is_some m.table;
  is_first = true;
  pc = 0;
  stack = allocate_validation_buffer m.max_stack;
  stack_size = 0;
  locals = w.0;
  locals_size = w.1;
  max_stack = m.max_stack;
  max_locals = m.max_locals;
}

-- An error has no place to go: its pointer is null.
unfoldable pub skip_frame : Result Iterator → Result Iterator
skip_frame (ok it) = ok it
skip_frame (err e) = out_of_bounds
skip_frame out_of_bounds = out_of_bounds

unfoldable pub skip_if_zero : List ℕ → Iterator → Result Iterator
unfolding stack_map_frame_iterator_next skip_frame
skip_if_zero [] it = ok it
skip_if_zero (b ∷ bs) it = if b == 0 then skip_frame (stack_map_frame_iterator_next it) else ok it

unfoldable pub stack_map_frame_iterator_init : Method → Result Iterator
unfolding init_locals allocate_validation_buffer skip_if_zero
stack_map_frame_iterator_init m =
    init_locals m >>= λ w. skip_if_zero (bytes_of m.table) (initial m w)
