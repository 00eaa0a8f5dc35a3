-- ===== src/ClassFile/Pool/Read.antt =====
-- `parse_constant_pool` of engine/bjvm/vm/classfile.c: both passes, and the descriptors that are parsed
-- behind them. The pool has one entry more than the class file counts, and all bits are zero at first.
use tracejvm.Prelude.{
  ℕ, zero, suc, ◌+◌, Bool, true, false, Option, none, some, List, [], ltb, ◌==◌, if◌then◌else◌,
  length, set, get_elem?, replicate,
}
use tracejvm.ClassFile.{Result, ok, err, stuck, ◌>>=◌, invalid_pool_tag}
use tracejvm.ClassFile.Reader.{
  reader_next_u8, reader_next_u16, reader_next_u32, reader_next_u64, reader_next_s32,
  reader_next_s64, reader_get_slice,
}
use tracejvm.ClassFile.Pool.{
  CpEntry, cp_invalid, cp_utf8, cp_integer, cp_float, cp_long, cp_double, cp_class, cp_module,
  cp_package, cp_string, cp_field_ref, cp_method_ref, cp_interface_method_ref, cp_name_and_type,
  cp_method_handle, cp_method_type, cp_invoke_dynamic, cp_dynamic_constant, checked_cp_entry,
  utf8_kind, class_kind, name_and_type_kind, reference_kinds,
}

-- `cp_resolution_pass`
pub data Pass : Type 0 where
  read link : Pass

-- The kinds of entries in a class file.
pub data Tag : Type 0 where
  tag_utf8 tag_integer tag_float tag_long tag_double tag_class tag_string tag_fieldref : Tag
  tag_methodref tag_interface_methodref tag_name_and_type tag_method_handle tag_method_type : Tag
  tag_dynamic tag_invoke_dynamic tag_module tag_package : Tag

unfoldable pub tag_of : ℕ → Result Tag
tag_of kind =
    if kind == 1
    then ok tag_utf8
    else if kind == 3
    then ok tag_integer
    else if kind == 4
    then ok tag_float
    else if kind == 5
    then ok tag_long
    else if kind == 6
    then ok tag_double
    else if kind == 7
    then ok tag_class
    else if kind == 8
    then ok tag_string
    else if kind == 9
    then ok tag_fieldref
    else if kind == 10
    then ok tag_methodref
    else if kind == 11
    then ok tag_interface_methodref
    else if kind == 12
    then ok tag_name_and_type
    else if kind == 15
    then ok tag_method_handle
    else if kind == 16
    then ok tag_method_type
    else if kind == 17
    then ok tag_dynamic
    else if kind == 18
    then ok tag_invoke_dynamic
    else if kind == 19
    then ok tag_module
    else if kind == 20
    then ok tag_package
    else err invalid_pool_tag

abbrev pub utf8_of : CpEntry → Result (List ℕ)
utf8_of (cp_utf8 utf8) = ok utf8
utf8_of _ = stuck

unfoldable pub checked_get_utf8 : List CpEntry → ℕ → Result (List ℕ)
unfolding checked_cp_entry
checked_get_utf8 pool i = do entry ← checked_cp_entry pool i utf8_kind; utf8_of entry

-- A string is looked up in the second pass.
unfoldable pub linked_utf8 : Pass → List CpEntry → ℕ → Result (List ℕ)
unfolding checked_get_utf8
linked_utf8 read pool i = ok []
linked_utf8 link pool i = checked_get_utf8 pool i

-- So is a pointer.
unfoldable pub linked_entry : Pass → List CpEntry → ℕ → ℕ → Result (Option ℕ)
unfolding checked_cp_entry
linked_entry read pool i expected_kinds = ok none
linked_entry link pool i expected_kinds = do _ ← checked_cp_entry pool i expected_kinds; ok (some i)

abbrev pub ParsedEntry : Type 0
ParsedEntry = Result (CpEntry × List ℕ)

unfoldable pub parse_named : (List ℕ → CpEntry) → Pass → List CpEntry → List ℕ → ParsedEntry
unfolding reader_next_u16 linked_utf8
parse_named make pass pool bytes = do
  (i, rest) ← reader_next_u16 bytes
  name ← linked_utf8 pass pool i
  ok (make name, rest)

-- `class_info` and `name_and_type` of a field or a method.
unfoldable pub parse_ref :
    (Option ℕ → Option ℕ → CpEntry) → Pass → List CpEntry → List ℕ → ParsedEntry
unfolding reader_next_u16 linked_entry
parse_ref make pass pool bytes = do
  (class_index, rest) ← reader_next_u16 bytes
  (name_and_type_index, rest) ← reader_next_u16 rest
  class_info ← linked_entry pass pool class_index class_kind
  name_and_type ← linked_entry pass pool name_and_type_index name_and_type_kind
  ok (make class_info name_and_type, rest)

unfoldable pub parse_name_and_type : Pass → List CpEntry → List ℕ → ParsedEntry
unfolding reader_next_u16 linked_utf8
parse_name_and_type pass pool bytes = do
  (name_index, rest) ← reader_next_u16 bytes
  (descriptor_index, rest) ← reader_next_u16 rest
  name ← linked_utf8 pass pool name_index
  descriptor ← linked_utf8 pass pool descriptor_index
  ok (cp_name_and_type name descriptor, rest)

-- The bytes are copied in the first pass; the entry of the second pass is thrown away.
abbrev pub utf8_entry : Pass → List ℕ → CpEntry
utf8_entry read utf8 = cp_utf8 utf8
utf8_entry link utf8 = cp_utf8 []

unfoldable pub parse_utf8 : Pass → List ℕ → ParsedEntry
unfolding reader_next_u16 reader_get_slice
parse_utf8 pass bytes = do
  (len, rest) ← reader_next_u16 bytes
  (utf8, rest) ← reader_get_slice len rest
  ok (utf8_entry pass utf8, rest)

unfoldable pub parse_method_handle : Pass → List CpEntry → List ℕ → ParsedEntry
unfolding reader_next_u8 reader_next_u16 linked_entry
parse_method_handle pass pool bytes = do
  (handle_kind, rest) ← reader_next_u8 bytes
  (reference_index, rest) ← reader_next_u16 rest
  reference ← linked_entry pass pool reference_index reference_kinds
  ok (cp_method_handle handle_kind reference, rest)

unfoldable pub parse_indy : (ℕ → Option ℕ → CpEntry) → Pass → List CpEntry → List ℕ → ParsedEntry
unfolding reader_next_u16 linked_entry
parse_indy make pass pool bytes = do
  (method_index, rest) ← reader_next_u16 bytes
  (name_and_type_index, rest) ← reader_next_u16 rest
  name_and_type ← linked_entry pass pool name_and_type_index name_and_type_kind
  ok (make method_index name_and_type, rest)

-- The switch, by the kind that was read.
unfoldable pub parse_tag : Tag → Pass → List CpEntry → List ℕ → ParsedEntry
unfolding parse_named parse_ref parse_name_and_type parse_utf8 parse_method_handle parse_indy
    reader_next_u32 reader_next_u64 reader_next_s32 reader_next_s64
parse_tag tag_class pass pool bytes = parse_named cp_class pass pool bytes
parse_tag tag_module pass pool bytes = parse_named cp_module pass pool bytes
parse_tag tag_package pass pool bytes = parse_named cp_package pass pool bytes
parse_tag tag_fieldref pass pool bytes = parse_ref (λ c n. cp_field_ref c n none) pass pool bytes
parse_tag tag_methodref pass pool bytes = parse_ref (λ c n. cp_method_ref c n none) pass pool bytes
parse_tag tag_interface_methodref pass pool bytes =
    parse_ref (λ c n. cp_interface_method_ref c n none) pass pool bytes
parse_tag tag_string pass pool bytes = parse_named cp_string pass pool bytes
parse_tag tag_integer pass pool bytes = do
  (value, rest) ← reader_next_s32 bytes
  ok (cp_integer value, rest)
parse_tag tag_float pass pool bytes = do
  (value, rest) ← reader_next_u32 bytes
  ok (cp_float value, rest)
parse_tag tag_long pass pool bytes = do
  (value, rest) ← reader_next_s64 bytes
  ok (cp_long value, rest)
parse_tag tag_double pass pool bytes = do
  (value, rest) ← reader_next_u64 bytes
  ok (cp_double value, rest)
parse_tag tag_name_and_type pass pool bytes = parse_name_and_type pass pool bytes
parse_tag tag_utf8 pass pool bytes = parse_utf8 pass bytes
parse_tag tag_method_handle pass pool bytes = parse_method_handle pass pool bytes
parse_tag tag_method_type pass pool bytes = parse_named (λ d. cp_method_type d none) pass pool bytes
parse_tag tag_dynamic pass pool bytes = parse_indy cp_dynamic_constant pass pool bytes
parse_tag tag_invoke_dynamic pass pool bytes =
    parse_indy (λ i n. cp_invoke_dynamic i n none) pass pool bytes

unfoldable pub parse_constant_pool_entry : Pass → List CpEntry → List ℕ → ParsedEntry
unfolding reader_next_u8 tag_of parse_tag
parse_constant_pool_entry pass pool bytes = do
  (kind, rest) ← reader_next_u8 bytes
  tag ← tag_of kind
  parse_tag tag pass pool rest

unfoldable pub init_constant_pool : ℕ → List CpEntry
init_constant_pool count = replicate (count + 1) cp_invalid

-- A write through `get_constant_pool_entry`.
unfoldable pub store_entry : List CpEntry → ℕ → CpEntry → Result (List CpEntry)
store_entry pool i entry = if ltb i (length pool) then ok (set pool i entry) else stuck

unfoldable pub load_entry : List CpEntry → ℕ → Result CpEntry
load_entry pool i = elim (get_elem? pool i) [ none ↦ stuck | some entry ↦ ok entry ]

-- `*ent = new_entry`, which leaves a string alone in the second pass.
unfoldable pub write_entry : Pass → List CpEntry → ℕ → CpEntry → Result (List CpEntry)
unfolding store_entry
write_entry link pool i (cp_utf8 utf8) = ok pool
write_entry pass pool i entry = store_entry pool i entry

abbrev pub is_wide : CpEntry → Bool
is_wide (cp_long _) = true
is_wide (cp_double _) = true
is_wide _ = false

-- The pool behind an entry, and the index of the next: an entry of 8 bytes takes two.
unfoldable pub behind_entry : List CpEntry → ℕ → Bool → Result (List CpEntry × ℕ)
unfolding store_entry
behind_entry pool i true = do pool' ← store_entry pool (suc i) cp_invalid; ok (pool', suc (suc i))
behind_entry pool i false = ok (pool, suc i)

unfoldable pub place_entry : Pass → List CpEntry → ℕ → CpEntry → Result (List CpEntry × ℕ)
unfolding write_entry load_entry behind_entry
place_entry pass pool i new_entry = do
  written ← write_entry pass pool i new_entry
  ent ← load_entry written i
  behind_entry written i (is_wide ent)

-- The loop over the entries from `i` on.
unfoldable pub parse_entries :
    ℕ → Pass → ℕ → ℕ → List ℕ → List CpEntry → Result (List CpEntry × List ℕ)
unfolding parse_constant_pool_entry place_entry
parse_entries zero pass cp_count i bytes pool = if ltb i cp_count then stuck else ok (pool, bytes)
parse_entries (suc fuel) pass cp_count i bytes pool =
    if ltb i cp_count
    then (parse_constant_pool_entry pass pool bytes >>= λ r.
        place_entry pass pool i r.0 >>= λ q. parse_entries fuel pass cp_count q.1 r.1 q.0)
    else ok (pool, bytes)
