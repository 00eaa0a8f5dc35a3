-- ===== src/ClassFile/Kinds.antt =====
-- The kinds of instructions of engine/bjvm/vm/classfile.h, in the order of the enumeration.
use tracejvm.Prelude.{Bool, true, false}

pub data InsnKind : Type 0 where
  insn_nop insn_aaload insn_aastore insn_aconst_null insn_areturn insn_arraylength : InsnKind
  insn_athrow insn_baload insn_bastore insn_caload insn_castore insn_d2f insn_d2i : InsnKind
  insn_d2l insn_dadd insn_daload insn_dastore insn_dcmpg insn_dcmpl insn_ddiv insn_dmul : InsnKind
  insn_dneg insn_drem insn_dreturn insn_dsub insn_dup insn_dup_x1 insn_dup_x2 insn_dup2 : InsnKind
  insn_dup2_x1 insn_dup2_x2 insn_f2d insn_f2i insn_f2l insn_fadd insn_faload insn_fastore : InsnKind
  insn_fcmpg insn_fcmpl insn_fdiv insn_fmul insn_fneg insn_frem insn_freturn insn_fsub : InsnKind
  insn_i2b insn_i2c insn_i2d insn_i2f insn_i2l insn_i2s insn_iadd insn_iaload insn_iand : InsnKind
  insn_iastore insn_idiv insn_imul insn_ineg insn_ior insn_irem insn_ireturn insn_ishl : InsnKind
  insn_ishr insn_isub insn_iushr insn_ixor insn_l2d insn_l2f insn_l2i insn_ladd : InsnKind
  insn_laload insn_land insn_lastore insn_lcmp insn_ldiv insn_lmul insn_lneg insn_lor : InsnKind
  insn_lrem insn_lreturn insn_lshl insn_lshr insn_lsub insn_lushr insn_lxor : InsnKind
  insn_monitorenter insn_monitorexit insn_pop insn_pop2 insn_return insn_saload : InsnKind
  insn_sastore insn_swap insn_anewarray insn_checkcast insn_getfield insn_getstatic : InsnKind
  insn_instanceof insn_invokedynamic insn_new insn_putfield insn_putstatic : InsnKind
  insn_invokevirtual insn_invokespecial insn_invokestatic insn_ldc insn_dload insn_fload : InsnKind
  insn_iload insn_lload insn_dstore insn_fstore insn_istore insn_lstore insn_aload : InsnKind
  insn_astore insn_goto insn_jsr insn_if_acmpeq insn_if_acmpne insn_if_icmpeq : InsnKind
  insn_if_icmpne insn_if_icmplt insn_if_icmpge insn_if_icmpgt insn_if_icmple insn_ifeq : InsnKind
  insn_ifne insn_iflt insn_ifge insn_ifgt insn_ifle insn_ifnonnull insn_ifnull : InsnKind
  insn_iconst insn_dconst insn_fconst insn_lconst insn_iinc insn_invokeinterface : InsnKind
  insn_multianewarray insn_newarray insn_tableswitch insn_lookupswitch insn_ret : InsnKind
  insn_anewarray_resolved insn_checkcast_resolved insn_instanceof_resolved : InsnKind
  insn_new_resolved insn_invokevtable_monomorphic insn_invokevtable_polymorphic : InsnKind
  insn_invokeitable_monomorphic insn_invokeitable_polymorphic insn_invokespecial_resolved : InsnKind
  insn_invokestatic_resolved insn_invokecallsite insn_invokesigpoly insn_getfield_B : InsnKind
  insn_getfield_C insn_getfield_S insn_getfield_I insn_getfield_J insn_getfield_F : InsnKind
  insn_getfield_D insn_getfield_Z insn_getfield_L insn_putfield_B insn_putfield_C : InsnKind
  insn_putfield_S insn_putfield_I insn_putfield_J insn_putfield_F insn_putfield_D : InsnKind
  insn_putfield_Z insn_putfield_L insn_getstatic_B insn_getstatic_C insn_getstatic_S : InsnKind
  insn_getstatic_I insn_getstatic_J insn_getstatic_F insn_getstatic_D insn_getstatic_Z : InsnKind
  insn_getstatic_L insn_putstatic_B insn_putstatic_C insn_putstatic_S insn_putstatic_I : InsnKind
  insn_putstatic_J insn_putstatic_F insn_putstatic_D insn_putstatic_Z insn_putstatic_L : InsnKind
  insn_pow insn_sin insn_cos insn_tan insn_sqrt insn_hot_aot : InsnKind
  insn_hot_arrays_support_unsigned_hash_code insn_hot_string_latin1_equals : InsnKind

-- `insn->kind >= insn_goto && insn->kind <= insn_ifnull`
abbrev pub is_branch : InsnKind → Bool
is_branch insn_goto = true
is_branch insn_jsr = true
is_branch insn_if_acmpeq = true
is_branch insn_if_acmpne = true
is_branch insn_if_icmpeq = true
is_branch insn_if_icmpne = true
is_branch insn_if_icmplt = true
is_branch insn_if_icmpge = true
is_branch insn_if_icmpgt = true
is_branch insn_if_icmple = true
is_branch insn_ifeq = true
is_branch insn_ifne = true
is_branch insn_iflt = true
is_branch insn_ifge = true
is_branch insn_ifgt = true
is_branch insn_ifle = true
is_branch insn_ifnonnull = true
is_branch insn_ifnull = true
is_branch _ = false
