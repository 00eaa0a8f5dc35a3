-- ===== src/ClassFile/Format.antt =====
-- How the operands of an opcode are read in `parse_insn_impl` of engine/bjvm/vm/classfile.c.
use tracejvm.Prelude.{ℕ}
use tracejvm.ClassFile.Insn.{Operand}
use tracejvm.ClassFile.Kinds.{InsnKind}

-- `fixed` has an operand that the opcode says; `local_u8` an index of 8 bits, `branch_s16` and
-- `branch_s32` an offset, `pool_entry` an index of 16 bits of an entry of some kinds.
pub data Format : Type 0 where
  bare : InsnKind → Format
  fixed : InsnKind → Operand → Format
  local_u8 branch_s16 branch_s32 : InsnKind → Format
  pool_entry : InsnKind → (expected_kinds : ℕ) → Format
  push_s8 push_s16 ldc_u8 ldc_u16 ldc2_u16 increment table_switch lookup_switch : Format
  interface_call dynamic_call new_array widened new_multi_array : Format
