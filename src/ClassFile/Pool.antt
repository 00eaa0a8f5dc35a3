-- ===== src/ClassFile/Pool.antt =====
-- The entries of a constant pool of engine/bjvm/vm/classfile.h, and the checked access of classfile.c.
-- An entry's constructor is its kind and the member of its union; `my_index` is its position. A
-- pointer to an entry is its index, and `none` is null; a string that is not read yet is empty. A
-- floating-point value is named by its bits.
pub mod Read
pub mod Finish
pub mod Pointers
pub mod Passes
pub mod Listing
pub mod Placing
pub mod Linking
pub mod Resolved
pub mod Whole
use tracejvm.Prelude.{
  ℕ, zero, suc, ◌+◌, Bool, true, false, not, ◌||◌, Option, none, some, List, [], ◌∷◌, ◌==◌,
  if◌then◌else◌, get_elem?, ℤ, bit_and,
}
use tracejvm.Descriptor.{FieldDescriptor}
use tracejvm.Descriptor.Method.{MethodDescriptor}
use tracejvm.ClassFile.{Result, ok, err, invalid_pool_index, unexpected_pool_kind}

pub data CpEntry : Type 0 where
  cp_invalid : CpEntry
  cp_utf8 : (utf8 : List ℕ) → CpEntry
  cp_integer : (ivalue : ℤ) → CpEntry
  cp_float : (dvalue : ℕ) → CpEntry
  cp_long : (ivalue : ℤ) → CpEntry
  cp_double : (dvalue : ℕ) → CpEntry
  cp_class cp_module cp_package : (name : List ℕ) → CpEntry
  cp_string : (chars : List ℕ) → CpEntry
  cp_field_ref :
      (class_info nat : Option ℕ) → (parsed_descriptor : Option FieldDescriptor) → CpEntry
  cp_method_ref : (class_info nat : Option ℕ) → (descriptor : Option MethodDescriptor) → CpEntry
  cp_interface_method_ref :
      (class_info nat : Option ℕ) → (descriptor : Option MethodDescriptor) → CpEntry
  cp_name_and_type : (name descriptor : List ℕ) → CpEntry
  cp_method_handle : (handle_kind : ℕ) → (reference : Option ℕ) → CpEntry
  cp_method_type : (descriptor : List ℕ) → (parsed_descriptor : Option MethodDescriptor) → CpEntry
  cp_invoke_dynamic :
      (method_index : ℕ)
      → (name_and_type : Option ℕ) → (descriptor : Option MethodDescriptor) → CpEntry
  cp_dynamic_constant : (method_index : ℕ) → (name_and_type : Option ℕ) → CpEntry

-- `cp_kind`, a bit of a mask.
abbrev pub cp_kind : CpEntry → ℕ
cp_kind cp_invalid = 0
cp_kind (cp_utf8 _) = 0x1
cp_kind (cp_integer _) = 0x2
cp_kind (cp_float _) = 0x4
cp_kind (cp_long _) = 0x8
cp_kind (cp_double _) = 0x10
cp_kind (cp_class _) = 0x20
cp_kind (cp_string _) = 0x40
cp_kind (cp_field_ref _ _ _) = 0x80
cp_kind (cp_method_ref _ _ _) = 0x100
cp_kind (cp_interface_method_ref _ _ _) = 0x200
cp_kind (cp_name_and_type _ _) = 0x400
cp_kind (cp_method_handle _ _) = 0x800
cp_kind (cp_method_type _ _) = 0x1000
cp_kind (cp_invoke_dynamic _ _ _) = 0x2000
cp_kind (cp_dynamic_constant _ _) = 0x4000
cp_kind (cp_module _) = 0x8000
cp_kind (cp_package _) = 0x10000

-- The masks that the parser asks for.
abbrev pub utf8_kind : ℕ
utf8_kind = 0x1

abbrev pub class_kind : ℕ
class_kind = 0x20

abbrev pub field_ref_kind : ℕ
field_ref_kind = 0x80

abbrev pub interface_method_ref_kind : ℕ
interface_method_ref_kind = 0x200

-- A method of a class or of an interface.
abbrev pub method_ref_kinds : ℕ
method_ref_kinds = 0x300

abbrev pub name_and_type_kind : ℕ
name_and_type_kind = 0x400

-- What a method handle may refer to.
abbrev pub reference_kinds : ℕ
reference_kinds = 0x380

abbrev pub invoke_dynamic_kind : ℕ
invoke_dynamic_kind = 0x2000

-- What `ldc` and `ldc2_w` load.
abbrev pub ldc_kinds : ℕ
ldc_kinds = 0x66

abbrev pub ldc2_kinds : ℕ
ldc2_kinds = 0x18

abbrev pub has_kind : ℕ → CpEntry → Bool
has_kind expected_kinds entry =
    not (bit_and (cp_kind entry) expected_kinds == 0) || expected_kinds == 0

unfoldable pub check_cp_entry : CpEntry → ℕ → Result CpEntry
check_cp_entry entry expected_kinds =
    if has_kind expected_kinds entry then ok entry else err unexpected_pool_kind

unfoldable pub checked_cp_entry : List CpEntry → ℕ → ℕ → Result CpEntry
unfolding check_cp_entry
checked_cp_entry pool index expected_kinds = elim (get_elem? pool index) [
  | none ↦ err invalid_pool_index
  | some entry ↦ check_cp_entry entry expected_kinds
]
