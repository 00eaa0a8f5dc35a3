-- ===== src/ClassFile/Parse.antt =====
-- `parse_insn` of engine/bjvm/vm/classfile.c.
pub mod Operands
pub mod Bounds
use tracejvm.Prelude.{ℕ, zero, suc, Option, none, some, List, [], ◌∷◌, ◌==◌, if◌then◌else◌, ℤ}
use tracejvm.ClassFile.{Result, ok, err, invalid_wide_opcode, ◌>>=◌}
use tracejvm.ClassFile.Kinds.{
  InsnKind, insn_iconst, insn_lconst, insn_fconst, insn_dconst, insn_ldc, insn_iinc,
  insn_invokeinterface, insn_invokedynamic, insn_newarray, insn_multianewarray,
}
use tracejvm.ClassFile.Reader.{
  reader_next_u8, reader_next_u16, reader_next_s8, reader_next_s16, reader_next_s32,
}
use tracejvm.ClassFile.Pool.{
  CpEntry, cp_integer, cp_float, cp_long, cp_double, checked_cp_entry, ldc_kinds, ldc2_kinds,
  interface_method_ref_kind, invoke_dynamic_kind, class_kind,
}
use tracejvm.ClassFile.Insn.{
  Operand, no_operand, array_type, index, integer_imm, f_imm, d_imm, of_bits, iinc_operand,
  multianewarray_operand, cp, BytecodeInsn, checked_pc, parse_tableswitch_insn,
  parse_lookupswitch_insn, parse_atype,
}
use tracejvm.ClassFile.Format.{
  Format, bare, fixed, local_u8, branch_s16, branch_s32, pool_entry, push_s8, push_s16, ldc_u8,
  ldc_u16, ldc2_u16, increment, table_switch, lookup_switch, interface_call, dynamic_call,
  new_array, widened, new_multi_array,
}
use tracejvm.ClassFile.Opcodes.{format_of, wide_kind}

-- `original_pc` is written by `parse_insn`.
abbrev pub insn : InsnKind → Operand → BytecodeInsn
insn kind operand = record { kind = kind; original_pc = 0; operand = operand }

-- What `ldc` does with the entry: a number is an immediate.
abbrev pub ldc_insn : ℕ → CpEntry → BytecodeInsn
ldc_insn i (cp_integer ivalue) = insn insn_iconst (integer_imm ivalue)
ldc_insn i (cp_float dvalue) = insn insn_fconst (f_imm (of_bits dvalue))
ldc_insn i _ = insn insn_ldc (cp i)

-- An entry that is neither a `double` nor a `long` is refused before.
abbrev pub ldc2_insn : ℕ → CpEntry → BytecodeInsn
ldc2_insn i (cp_double dvalue) = insn insn_dconst (d_imm (of_bits dvalue))
ldc2_insn i (cp_long ivalue) = insn insn_lconst (integer_imm ivalue)
ldc2_insn i _ = insn insn_lconst no_operand

-- The part of the switch behind `wide`.
abbrev pub read_wide_local : Option InsnKind → List ℕ → Result (BytecodeInsn × List ℕ)
read_wide_local none bytes = err invalid_wide_opcode
read_wide_local (some kind) bytes = do
  (i, rest) ← reader_next_u16 bytes
  ok (insn kind (index i), rest)

unfoldable pub read_wide_iinc : List ℕ → Result (BytecodeInsn × List ℕ)
unfolding reader_next_u16 reader_next_s16
read_wide_iinc bytes = do
  (i, rest) ← reader_next_u16 bytes
  (const_, rest) ← reader_next_s16 rest
  ok (insn insn_iinc (iinc_operand i const_), rest)

unfoldable pub read_wide : List ℕ → Result (BytecodeInsn × List ℕ)
unfolding reader_next_u8 reader_next_u16 read_wide_iinc wide_kind
read_wide bytes = do
  (opcode, rest) ← reader_next_u8 bytes
  if opcode == 0x84 then read_wide_iinc rest else read_wide_local (wide_kind opcode) rest

-- `invokeinterface`, with the two bytes that mean nothing.
unfoldable pub read_interface_call : List CpEntry → List ℕ → Result (BytecodeInsn × List ℕ)
unfolding reader_next_u8 reader_next_u16 checked_cp_entry
read_interface_call pool bytes = do
  (i, rest) ← reader_next_u16 bytes
  _ ← checked_cp_entry pool i interface_method_ref_kind
  (_, rest) ← reader_next_u8 rest
  (_, rest) ← reader_next_u8 rest
  ok (insn insn_invokeinterface (cp i), rest)

unfoldable pub read_dynamic_call : List CpEntry → List ℕ → Result (BytecodeInsn × List ℕ)
unfolding reader_next_u16 checked_cp_entry
read_dynamic_call pool bytes = do
  (i, rest) ← reader_next_u16 bytes
  _ ← checked_cp_entry pool i invoke_dynamic_kind
  (_, rest) ← reader_next_u16 rest
  ok (insn insn_invokedynamic (cp i), rest)

unfoldable pub read_multianewarray : List CpEntry → List ℕ → Result (BytecodeInsn × List ℕ)
unfolding reader_next_u8 reader_next_u16 checked_cp_entry
read_multianewarray pool bytes = do
  (i, rest) ← reader_next_u16 bytes
  (dimensions, rest) ← reader_next_u8 rest
  _ ← checked_cp_entry pool i class_kind
  ok (insn insn_multianewarray (multianewarray_operand i dimensions), rest)

-- The case of an opcode whose operands have a format.
unfoldable pub read_operands :
    Format → List CpEntry → ℕ → ℕ → List ℕ → Result (BytecodeInsn × List ℕ)
unfolding reader_next_u8 reader_next_u16 reader_next_s8 reader_next_s16 reader_next_s32 checked_pc
    checked_cp_entry parse_tableswitch_insn parse_lookupswitch_insn parse_atype read_interface_call
    read_dynamic_call read_multianewarray read_wide
read_operands (bare kind) pool pc max_pc bytes = ok (insn kind no_operand, bytes)
read_operands (fixed kind operand) pool pc max_pc bytes = ok (insn kind operand, bytes)
read_operands (local_u8 kind) pool pc max_pc bytes = do
  (i, rest) ← reader_next_u8 bytes
  ok (insn kind (index i), rest)
read_operands (branch_s16 kind) pool pc max_pc bytes = do
  (offset, rest) ← reader_next_s16 bytes
  target ← checked_pc pc offset max_pc
  ok (insn kind (index target), rest)
read_operands (branch_s32 kind) pool pc max_pc bytes = do
  (offset, rest) ← reader_next_s32 bytes
  target ← checked_pc pc offset max_pc
  ok (insn kind (index target), rest)
read_operands (pool_entry kind expected_kinds) pool pc max_pc bytes = do
  (i, rest) ← reader_next_u16 bytes
  _ ← checked_cp_entry pool i expected_kinds
  ok (insn kind (cp i), rest)
read_operands push_s8 pool pc max_pc bytes = do
  (value, rest) ← reader_next_s8 bytes
  ok (insn insn_iconst (integer_imm value), rest)
read_operands push_s16 pool pc max_pc bytes = do
  (value, rest) ← reader_next_s16 bytes
  ok (insn insn_iconst (integer_imm value), rest)
read_operands ldc_u8 pool pc max_pc bytes = do
  (i, rest) ← reader_next_u8 bytes
  entry ← checked_cp_entry pool i ldc_kinds
  ok (ldc_insn i entry, rest)
read_operands ldc_u16 pool pc max_pc bytes = do
  (i, rest) ← reader_next_u16 bytes
  entry ← checked_cp_entry pool i ldc_kinds
  ok (ldc_insn i entry, rest)
read_operands ldc2_u16 pool pc max_pc bytes = do
  (i, rest) ← reader_next_u16 bytes
  entry ← checked_cp_entry pool i ldc2_kinds
  ok (ldc2_insn i entry, rest)
read_operands increment pool pc max_pc bytes = do
  (i, rest) ← reader_next_u8 bytes
  (const_, rest) ← reader_next_s8 rest
  ok (insn insn_iinc (iinc_operand i const_), rest)
read_operands table_switch pool pc max_pc bytes = parse_tableswitch_insn pc max_pc bytes
read_operands lookup_switch pool pc max_pc bytes = parse_lookupswitch_insn pc max_pc bytes
read_operands interface_call pool pc max_pc bytes = read_interface_call pool bytes
read_operands dynamic_call pool pc max_pc bytes = read_dynamic_call pool bytes
read_operands new_array pool pc max_pc bytes = do
  (atype, rest) ← reader_next_u8 bytes
  parsed ← parse_atype atype
  ok (insn insn_newarray (array_type parsed), rest)
read_operands widened pool pc max_pc bytes = read_wide bytes
read_operands new_multi_array pool pc max_pc bytes = read_multianewarray pool bytes

unfoldable pub parse_insn_impl : List CpEntry → ℕ → ℕ → List ℕ → Result (BytecodeInsn × List ℕ)
unfolding reader_next_u8 format_of read_operands
parse_insn_impl pool pc max_pc bytes = do
  (opcode, rest) ← reader_next_u8 bytes
  format ← format_of opcode
  read_operands format pool pc max_pc rest

unfoldable pub parse_insn : List CpEntry → ℕ → ℕ → List ℕ → Result (BytecodeInsn × List ℕ)
unfolding parse_insn_impl
parse_insn pool pc max_pc bytes = do
  (parsed, rest) ← parse_insn_impl pool pc max_pc bytes
  ok (record parsed { original_pc = pc }, rest)
