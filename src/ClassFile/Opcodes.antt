-- ===== src/ClassFile/Opcodes.antt =====
-- The switch of `parse_insn_impl` of engine/bjvm/vm/classfile.c: how the operands of each opcode are
-- read, in the order of the opcodes.
mod Low
mod High
unfoldable pub use Low.{constant_opcodes, load_opcodes, store_opcodes, stack_opcodes}
unfoldable pub use High.{arithmetic_opcodes, control_opcodes, reference_opcodes}
use tracejvm.Prelude.{
  List, [], ◌∷◌, ◌++◌, ℕ, pos, negsuc, Option, none, some, ◌==◌, if◌then◌else◌, get_elem?,
}
use tracejvm.ClassFile.{Result, ok, err, invalid_opcode}
use tracejvm.ClassFile.Pool.{class_kind, field_ref_kind, method_ref_kinds}
use tracejvm.ClassFile.Insn.{Operand, no_operand, index, integer_imm, f_imm, d_imm, of_integer}
use tracejvm.ClassFile.Kinds.{
  InsnKind, insn_aaload, insn_aastore, insn_aconst_null, insn_aload, insn_anewarray, insn_areturn,
  insn_arraylength, insn_astore, insn_athrow, insn_baload, insn_bastore, insn_caload, insn_castore,
  insn_checkcast, insn_d2f, insn_d2i, insn_d2l, insn_dadd, insn_daload, insn_dastore, insn_dcmpg,
  insn_dcmpl, insn_dconst, insn_ddiv, insn_dload, insn_dmul, insn_dneg, insn_drem, insn_dreturn,
  insn_dstore, insn_dsub, insn_dup, insn_dup2, insn_dup2_x1, insn_dup2_x2, insn_dup_x1, insn_dup_x2,
  insn_f2d, insn_f2i, insn_f2l, insn_fadd, insn_faload, insn_fastore, insn_fcmpg, insn_fcmpl,
  insn_fconst, insn_fdiv, insn_fload, insn_fmul, insn_fneg, insn_frem, insn_freturn, insn_fstore,
  insn_fsub, insn_getfield, insn_getstatic, insn_goto, insn_i2b, insn_i2c, insn_i2d, insn_i2f,
  insn_i2l, insn_i2s, insn_iadd, insn_iaload, insn_iand, insn_iastore, insn_iconst, insn_idiv,
  insn_if_acmpeq, insn_if_acmpne, insn_if_icmpeq, insn_if_icmpge, insn_if_icmpgt, insn_if_icmple,
  insn_if_icmplt, insn_if_icmpne, insn_ifeq, insn_ifge, insn_ifgt, insn_ifle, insn_iflt, insn_ifne,
  insn_ifnonnull, insn_ifnull, insn_iload, insn_imul, insn_ineg, insn_instanceof,
  insn_invokespecial, insn_invokestatic, insn_invokevirtual, insn_ior, insn_irem, insn_ireturn,
  insn_ishl, insn_ishr, insn_istore, insn_isub, insn_iushr, insn_ixor, insn_jsr, insn_l2d, insn_l2f,
  insn_l2i, insn_ladd, insn_laload, insn_land, insn_lastore, insn_lcmp, insn_lconst, insn_ldiv,
  insn_lload, insn_lmul, insn_lneg, insn_lor, insn_lrem, insn_lreturn, insn_lshl, insn_lshr,
  insn_lstore, insn_lsub, insn_lushr, insn_lxor, insn_monitorenter, insn_monitorexit, insn_new,
  insn_nop, insn_pop, insn_pop2, insn_putfield, insn_putstatic, insn_ret, insn_return, insn_saload,
  insn_sastore, insn_swap,
}
use tracejvm.ClassFile.Format.{Format}

unfoldable pub opcodes : List Format
unfolding constant_opcodes load_opcodes store_opcodes stack_opcodes arithmetic_opcodes
    control_opcodes reference_opcodes
opcodes =
    constant_opcodes
    ++ (load_opcodes
        ++ (store_opcodes
            ++ (stack_opcodes ++ (arithmetic_opcodes ++ (control_opcodes ++ reference_opcodes)))))

unfoldable pub format_of : ℕ → Result Format
unfolding opcodes
format_of opcode = elim (get_elem? opcodes opcode) [
  | none ↦ err invalid_opcode
  | some format ↦ ok format
]

-- The instructions that `wide` gives an index of 16 bits.
unfoldable pub wide_kind : ℕ → Option InsnKind
wide_kind opcode =
    if opcode == 0x15
    then some insn_iload
    else if opcode == 0x16
    then some insn_lload
    else if opcode == 0x17
    then some insn_fload
    else if opcode == 0x18
    then some insn_dload
    else if opcode == 0x19
    then some insn_aload
    else if opcode == 0x36
    then some insn_istore
    else if opcode == 0x37
    then some insn_lstore
    else if opcode == 0x38
    then some insn_fstore
    else if opcode == 0x39
    then some insn_dstore
    else if opcode == 0x3a
    then some insn_astore
    else if opcode == 0xa9
    then some insn_ret
    else none
