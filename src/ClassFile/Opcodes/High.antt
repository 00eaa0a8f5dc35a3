-- ===== src/ClassFile/Opcodes/High.antt =====
-- The second half of the switch of `parse_insn_impl` of engine/bjvm/vm/classfile.c, in the order of the
-- opcodes: arithmetic, control and references.
use tracejvm.Prelude.{List, [], ◌∷◌}
use tracejvm.ClassFile.Pool.{class_kind, field_ref_kind, method_ref_kinds}
use tracejvm.ClassFile.Kinds.{
  insn_anewarray, insn_areturn, insn_arraylength, insn_athrow, insn_checkcast, insn_d2f, insn_d2i,
  insn_d2l, insn_dadd, insn_dcmpg, insn_dcmpl, insn_ddiv, insn_dmul, insn_dneg, insn_drem,
  insn_dreturn, insn_dsub, insn_f2d, insn_f2i, insn_f2l, insn_fadd, insn_fcmpg, insn_fcmpl,
  insn_fdiv, insn_fmul, insn_fneg, insn_frem, insn_freturn, insn_fsub, insn_getfield,
  insn_getstatic, insn_goto, insn_i2b, insn_i2c, insn_i2d, insn_i2f, insn_i2l, insn_i2s, insn_iadd,
  insn_iand, insn_idiv, insn_if_acmpeq, insn_if_acmpne, insn_if_icmpeq, insn_if_icmpge,
  insn_if_icmpgt, insn_if_icmple, insn_if_icmplt, insn_if_icmpne, insn_ifeq, insn_ifge, insn_ifgt,
  insn_ifle, insn_iflt, insn_ifne, insn_ifnonnull, insn_ifnull, insn_imul, insn_ineg,
  insn_instanceof, insn_invokespecial, insn_invokestatic, insn_invokevirtual, insn_ior, insn_irem,
  insn_ireturn, insn_ishl, insn_ishr, insn_isub, insn_iushr, insn_ixor, insn_jsr, insn_l2d,
  insn_l2f, insn_l2i, insn_ladd, insn_land, insn_lcmp, insn_ldiv, insn_lmul, insn_lneg, insn_lor,
  insn_lrem, insn_lreturn, insn_lshl, insn_lshr, insn_lsub, insn_lushr, insn_lxor,
  insn_monitorenter, insn_monitorexit, insn_new, insn_putfield, insn_putstatic, insn_ret,
  insn_return,
}
use tracejvm.ClassFile.Format.{
  Format, bare, local_u8, branch_s16, branch_s32, pool_entry, increment, table_switch,
  lookup_switch, interface_call, dynamic_call, new_array, widened, new_multi_array,
}

-- From 0x60: arithmetic, conversions and comparisons.
unfoldable pub arithmetic_opcodes : List Format
arithmetic_opcodes =
    bare insn_iadd
    ∷ bare insn_ladd
    ∷ bare insn_fadd
    ∷ bare insn_dadd
    ∷ bare insn_isub
    ∷ bare insn_lsub
    ∷ bare insn_fsub
    ∷ bare insn_dsub
    ∷ bare insn_imul
    ∷ bare insn_lmul
    ∷ bare insn_fmul
    ∷ bare insn_dmul
    ∷ bare insn_idiv
    ∷ bare insn_ldiv
    ∷ bare insn_fdiv
    ∷ bare insn_ddiv
    ∷ bare insn_irem
    ∷ bare insn_lrem
    ∷ bare insn_frem
    ∷ bare insn_drem
    ∷ bare insn_ineg
    ∷ bare insn_lneg
    ∷ bare insn_fneg
    ∷ bare insn_dneg
    ∷ bare insn_ishl
    ∷ bare insn_lshl
    ∷ bare insn_ishr
    ∷ bare insn_lshr
    ∷ bare insn_iushr
    ∷ bare insn_lushr
    ∷ bare insn_iand
    ∷ bare insn_land
    ∷ bare insn_ior
    ∷ bare insn_lor
    ∷ bare insn_ixor
    ∷ bare insn_lxor
    ∷ increment
    ∷ bare insn_i2l
    ∷ bare insn_i2f
    ∷ bare insn_i2d
    ∷ bare insn_l2i
    ∷ bare insn_l2f
    ∷ bare insn_l2d
    ∷ bare insn_f2i
    ∷ bare insn_f2l
    ∷ bare insn_f2d
    ∷ bare insn_d2i
    ∷ bare insn_d2l
    ∷ bare insn_d2f
    ∷ bare insn_i2b
    ∷ bare insn_i2c
    ∷ bare insn_i2s
    ∷ bare insn_lcmp
    ∷ bare insn_fcmpl
    ∷ bare insn_fcmpg
    ∷ bare insn_dcmpl
    ∷ bare insn_dcmpg
    ∷ []

-- From 0x99: branches and returns.
unfoldable pub control_opcodes : List Format
control_opcodes =
    branch_s16 insn_ifeq
    ∷ branch_s16 insn_ifne
    ∷ branch_s16 insn_iflt
    ∷ branch_s16 insn_ifge
    ∷ branch_s16 insn_ifgt
    ∷ branch_s16 insn_ifle
    ∷ branch_s16 insn_if_icmpeq
    ∷ branch_s16 insn_if_icmpne
    ∷ branch_s16 insn_if_icmplt
    ∷ branch_s16 insn_if_icmpge
    ∷ branch_s16 insn_if_icmpgt
    ∷ branch_s16 insn_if_icmple
    ∷ branch_s16 insn_if_acmpeq
    ∷ branch_s16 insn_if_acmpne
    ∷ branch_s16 insn_goto
    ∷ branch_s16 insn_jsr
    ∷ local_u8 insn_ret
    ∷ table_switch
    ∷ lookup_switch
    ∷ bare insn_ireturn
    ∷ bare insn_lreturn
    ∷ bare insn_freturn
    ∷ bare insn_dreturn
    ∷ bare insn_areturn
    ∷ bare insn_return
    ∷ []

-- From 0xb2: fields, calls, objects, and the rest.
unfoldable pub reference_opcodes : List Format
reference_opcodes =
    pool_entry insn_getstatic field_ref_kind
    ∷ pool_entry insn_putstatic field_ref_kind
    ∷ pool_entry insn_getfield field_ref_kind
    ∷ pool_entry insn_putfield field_ref_kind
    ∷ pool_entry insn_invokevirtual method_ref_kinds
    ∷ pool_entry insn_invokespecial method_ref_kinds
    ∷ pool_entry insn_invokestatic method_ref_kinds
    ∷ interface_call
    ∷ dynamic_call
    ∷ pool_entry insn_new class_kind
    ∷ new_array
    ∷ pool_entry insn_anewarray class_kind
    ∷ bare insn_arraylength
    ∷ bare insn_athrow
    ∷ pool_entry insn_checkcast class_kind
    ∷ pool_entry insn_instanceof class_kind
    ∷ bare insn_monitorenter
    ∷ bare insn_monitorexit
    ∷ widened
    ∷ new_multi_array
    ∷ branch_s16 insn_ifnull
    ∷ branch_s16 insn_ifnonnull
    ∷ branch_s32 insn_goto
    ∷ branch_s32 insn_jsr
    ∷ []
