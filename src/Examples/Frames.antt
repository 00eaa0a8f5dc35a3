-- ===== src/Examples/Frames.antt =====
-- engine/bjvm/vm/stackmaptable.c at work, on a method with two locals and one stack slot.
use tracejvm.Prelude.{ℕ, ◌≡◌, ◌↔◌, refl, true, false, some, List, [], ◌∷◌, arith}
use tracejvm.Descriptor.{TypeKind}
use tracejvm.StackMap.Init.{Method, type_to_validation_type, stack_map_frame_iterator_init}
use tracejvm.StackMap.Init.Locals.{
  Begun, Remains, method_locals, stack_map_frame_iterator_init-Begun,
}
use tracejvm.StackMap.Types.{
  ValidationType, top, long, integer, is_wide_kind, Iterator, append_frame_locals_overflow,
  out_of_bounds, ok,
}
use tracejvm.StackMap.Reader.{read_verification_type}
use tracejvm.StackMap.Next.{push_local, stack_map_frame_iterator_next}
use tracejvm.StackMap.Next.Validity.{Advanced, stack_map_frame_iterator_next-Advanced}
use tracejvm.StackMap.Next.Overflow.{push_local_out_of_bounds}

abbrev empty : ValidationType
empty = record { kind = top; name = 0 }

abbrev start : List ℕ → ℕ → Iterator
start table size = record {
  table = table;
  has_next = true;
  is_first = true;
  pc = 0;
  stack = empty ∷ empty ∷ [];
  stack_size = 0;
  locals = empty ∷ empty ∷ empty ∷ [];
  locals_size = size;
  max_stack = 1;
  max_locals = 2;
}

-- The frame `append` with one int at offset 3, and then a frame `same` at offset 5.
abbrev appended : Iterator
appended = record (start (5 ∷ []) 1) {
  is_first = false;
  pc = 3;
  locals = record { kind = integer; name = 0 } ∷ empty ∷ empty ∷ [];
}

next-Advanced_example : Advanced (start (252 ∷ 0 ∷ 3 ∷ 1 ∷ 5 ∷ []) 0) appended
unfolding stack_map_frame_iterator_next read_verification_type
next-Advanced_example =
    stack_map_frame_iterator_next-Advanced (start (252 ∷ 0 ∷ 3 ∷ 1 ∷ 5 ∷ []) 0) appended
      (omega arith) refl

-- A long at the last local.
push_local_out_of_bounds_example :
    (push_local append_frame_locals_overflow (start (4 ∷ []) 2) ≡ out_of_bounds)
    ↔ ((◌≡◌ {A = ℕ} 2 2) × (is_wide_kind long ≡ true))
unfolding read_verification_type
push_local_out_of_bounds_example =
    push_local_out_of_bounds append_frame_locals_overflow (start (4 ∷ []) 2)
      (record { kind = long; name = 0 }, []) (omega arith) refl

-- The constructor `A(J)`, with a table that begins with the same frame at offset 0.
abbrev constructor_a : Method
constructor_a = record {
  is_static = false;
  is_ctor = true;
  class_name = 100;
  args = TypeKind.long ∷ [];
  max_stack = 1;
  max_locals = 3;
  table = some (0 ∷ 64 ∷ 1 ∷ []);
}

stack_map_frame_iterator_init-Begun_example :
    (it : Iterator) × (stack_map_frame_iterator_init constructor_a ≡ ok it)
    × Begun (method_locals constructor_a) it
    × Remains constructor_a.table it
unfolding type_to_validation_type
stack_map_frame_iterator_init-Begun_example =
    stack_map_frame_iterator_init-Begun constructor_a (omega arith)
