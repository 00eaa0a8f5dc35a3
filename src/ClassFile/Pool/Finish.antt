-- ===== src/ClassFile/Pool/Finish.antt =====
-- The end of `parse_constant_pool` of engine/bjvm/vm/classfile.c: the descriptors of the entries.
use tracejvm.Prelude.{ℕ, zero, suc, ◌-◌, Option, none, some, List, [], ◌∷◌}
use tracejvm.Descriptor.{FieldDescriptor, parse_field_descriptor}
use tracejvm.Descriptor
use tracejvm.Descriptor.Method.{MethodDescriptor, parse_method_descriptor}
use tracejvm.ClassFile.{Result, ok, err, stuck, ◌>>=◌, invalid_descriptor}
use tracejvm.ClassFile.Reader.{reader_next_u16}
use tracejvm.ClassFile.Pool.{
  CpEntry, cp_field_ref, cp_method_ref, cp_interface_method_ref, cp_name_and_type, cp_method_type,
  cp_invoke_dynamic,
}
use tracejvm.ClassFile.Pool.Read.{
  read, link, init_constant_pool, store_entry, load_entry, parse_entries,
}

-- The descriptor has to be used up.
abbrev pub whole_field : Descriptor.Result (FieldDescriptor × List ℕ) → Result FieldDescriptor
whole_field (Descriptor.ok (parsed, [])) = ok parsed
whole_field (Descriptor.ok (parsed, _ ∷ _)) = err invalid_descriptor
whole_field (Descriptor.err e) = err invalid_descriptor

unfoldable pub parse_complete_field_descriptor : List ℕ → Result FieldDescriptor
unfolding parse_field_descriptor
parse_complete_field_descriptor descriptor = whole_field (parse_field_descriptor descriptor)

abbrev pub method_or_error : Option (Descriptor.Result MethodDescriptor) → Result MethodDescriptor
method_or_error none = stuck
method_or_error (some (Descriptor.ok parsed)) = ok parsed
method_or_error (some (Descriptor.err e)) = err invalid_descriptor

-- The descriptor behind a pointer to a name and a type, which is neither null nor anything else.
abbrev pub descriptor_of : CpEntry → Result (List ℕ)
descriptor_of (cp_name_and_type name descriptor) = ok descriptor
descriptor_of _ = stuck

unfoldable pub nat_descriptor : List CpEntry → Option ℕ → Result (List ℕ)
unfolding load_entry
nat_descriptor pool none = stuck
nat_descriptor pool (some i) = do entry ← load_entry pool i; descriptor_of entry

unfoldable pub nat_method : List CpEntry → Option ℕ → Result MethodDescriptor
unfolding nat_descriptor parse_method_descriptor
nat_method pool nat = do
  descriptor ← nat_descriptor pool nat
  method_or_error (parse_method_descriptor descriptor)

unfoldable pub finish_constant_pool_entry : List CpEntry → CpEntry → Result CpEntry
unfolding nat_descriptor parse_complete_field_descriptor nat_method parse_method_descriptor
finish_constant_pool_entry pool (cp_field_ref class_info nat _) = do
  descriptor ← nat_descriptor pool nat
  parsed ← parse_complete_field_descriptor descriptor
  ok (cp_field_ref class_info nat (some parsed))
finish_constant_pool_entry pool (cp_invoke_dynamic method_index nat _) = do
  parsed ← nat_method pool nat
  ok (cp_invoke_dynamic method_index nat (some parsed))
finish_constant_pool_entry pool (cp_method_ref class_info nat _) = do
  parsed ← nat_method pool nat
  ok (cp_method_ref class_info nat (some parsed))
finish_constant_pool_entry pool (cp_interface_method_ref class_info nat _) = do
  parsed ← nat_method pool nat
  ok (cp_interface_method_ref class_info nat (some parsed))
finish_constant_pool_entry pool (cp_method_type descriptor _) = do
  parsed ← method_or_error (parse_method_descriptor descriptor)
  ok (cp_method_type descriptor (some parsed))
finish_constant_pool_entry pool entry = ok entry

-- The loop over `left` entries from `i` on.
unfoldable pub finish_entries : ℕ → ℕ → List CpEntry → Result (List CpEntry)
unfolding finish_constant_pool_entry load_entry store_entry
finish_entries zero i pool = ok pool
finish_entries (suc left) i pool = do
  entry ← load_entry pool i
  finished ← finish_constant_pool_entry pool entry
  pool' ← store_entry pool i finished
  finish_entries left (suc i) pool'

-- Both passes start behind the count; each takes at most `cp_count` rounds.
unfoldable pub parse_constant_pool : List ℕ → Result (List CpEntry × List ℕ)
unfolding reader_next_u16 init_constant_pool parse_entries finish_entries
parse_constant_pool bytes = do
  (cp_count, initial) ← reader_next_u16 bytes
  (listed, _) ← parse_entries cp_count read cp_count 1 initial (init_constant_pool cp_count)
  (linked, rest) ← parse_entries cp_count link cp_count 1 initial listed
  finished ← finish_entries (cp_count - 1) 1 linked
  ok (finished, rest)
