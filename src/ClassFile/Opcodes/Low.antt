-- ===== src/ClassFile/Opcodes/Low.antt =====
-- The first half of the switch of `parse_insn_impl` of engine/bjvm/vm/classfile.c, in the order of the
-- opcodes: constants, loads, stores and the stack.
use tracejvm.Prelude.{List, [], ◌∷◌, pos, negsuc}
use tracejvm.ClassFile.Insn.{index, integer_imm, f_imm, d_imm, of_integer}
use tracejvm.ClassFile.Kinds.{
  insn_aaload, insn_aastore, insn_aconst_null, insn_aload, insn_astore, insn_baload, insn_bastore,
  insn_caload, insn_castore, insn_daload, insn_dastore, insn_dconst, insn_dload, insn_dstore,
  insn_dup, insn_dup2, insn_dup2_x1, insn_dup2_x2, insn_dup_x1, insn_dup_x2, insn_faload,
  insn_fastore, insn_fconst, insn_fload, insn_fstore, insn_iaload, insn_iastore, insn_iconst,
  insn_iload, insn_istore, insn_laload, insn_lastore, insn_lconst, insn_lload, insn_lstore,
  insn_nop, insn_pop, insn_pop2, insn_saload, insn_sastore, insn_swap,
}
use tracejvm.ClassFile.Format.{
  Format, bare, fixed, local_u8, push_s8, push_s16, ldc_u8, ldc_u16, ldc2_u16,
}

-- From 0x00: what loads a constant.
unfoldable pub constant_opcodes : List Format
constant_opcodes =
    bare insn_nop
    ∷ bare insn_aconst_null
    ∷ fixed insn_iconst (integer_imm (negsuc 0))
    ∷ fixed insn_iconst (integer_imm (pos 0))
    ∷ fixed insn_iconst (integer_imm (pos 1))
    ∷ fixed insn_iconst (integer_imm (pos 2))
    ∷ fixed insn_iconst (integer_imm (pos 3))
    ∷ fixed insn_iconst (integer_imm (pos 4))
    ∷ fixed insn_iconst (integer_imm (pos 5))
    ∷ fixed insn_lconst (integer_imm (pos 0))
    ∷ fixed insn_lconst (integer_imm (pos 1))
    ∷ fixed insn_fconst (f_imm (of_integer 0))
    ∷ fixed insn_fconst (f_imm (of_integer 1))
    ∷ fixed insn_fconst (f_imm (of_integer 2))
    ∷ fixed insn_dconst (d_imm (of_integer 0))
    ∷ fixed insn_dconst (d_imm (of_integer 1))
    ∷ push_s8
    ∷ push_s16
    ∷ ldc_u8
    ∷ ldc_u16
    ∷ ldc2_u16
    ∷ []

-- From 0x15: what loads a local variable or an element.
unfoldable pub load_opcodes : List Format
load_opcodes =
    local_u8 insn_iload
    ∷ local_u8 insn_lload
    ∷ local_u8 insn_fload
    ∷ local_u8 insn_dload
    ∷ local_u8 insn_aload
    ∷ fixed insn_iload (index 0)
    ∷ fixed insn_iload (index 1)
    ∷ fixed insn_iload (index 2)
    ∷ fixed insn_iload (index 3)
    ∷ fixed insn_lload (index 0)
    ∷ fixed insn_lload (index 1)
    ∷ fixed insn_lload (index 2)
    ∷ fixed insn_lload (index 3)
    ∷ fixed insn_fload (index 0)
    ∷ fixed insn_fload (index 1)
    ∷ fixed insn_fload (index 2)
    ∷ fixed insn_fload (index 3)
    ∷ fixed insn_dload (index 0)
    ∷ fixed insn_dload (index 1)
    ∷ fixed insn_dload (index 2)
    ∷ fixed insn_dload (index 3)
    ∷ fixed insn_aload (index 0)
    ∷ fixed insn_aload (index 1)
    ∷ fixed insn_aload (index 2)
    ∷ fixed insn_aload (index 3)
    ∷ bare insn_iaload
    ∷ bare insn_laload
    ∷ bare insn_faload
    ∷ bare insn_daload
    ∷ bare insn_aaload
    ∷ bare insn_baload
    ∷ bare insn_caload
    ∷ bare insn_saload
    ∷ []

-- From 0x36: what stores them.
unfoldable pub store_opcodes : List Format
store_opcodes =
    local_u8 insn_istore
    ∷ local_u8 insn_lstore
    ∷ local_u8 insn_fstore
    ∷ local_u8 insn_dstore
    ∷ local_u8 insn_astore
    ∷ fixed insn_istore (index 0)
    ∷ fixed insn_istore (index 1)
    ∷ fixed insn_istore (index 2)
    ∷ fixed insn_istore (index 3)
    ∷ fixed insn_lstore (index 0)
    ∷ fixed insn_lstore (index 1)
    ∷ fixed insn_lstore (index 2)
    ∷ fixed insn_lstore (index 3)
    ∷ fixed insn_fstore (index 0)
    ∷ fixed insn_fstore (index 1)
    ∷ fixed insn_fstore (index 2)
    ∷ fixed insn_fstore (index 3)
    ∷ fixed insn_dstore (index 0)
    ∷ fixed insn_dstore (index 1)
    ∷ fixed insn_dstore (index 2)
    ∷ fixed insn_dstore (index 3)
    ∷ fixed insn_astore (index 0)
    ∷ fixed insn_astore (index 1)
    ∷ fixed insn_astore (index 2)
    ∷ fixed insn_astore (index 3)
    ∷ bare insn_iastore
    ∷ bare insn_lastore
    ∷ bare insn_fastore
    ∷ bare insn_dastore
    ∷ bare insn_aastore
    ∷ bare insn_bastore
    ∷ bare insn_castore
    ∷ bare insn_sastore
    ∷ []

-- From 0x57: the stack.
unfoldable pub stack_opcodes : List Format
stack_opcodes =
    bare insn_pop
    ∷ bare insn_pop2
    ∷ bare insn_dup
    ∷ bare insn_dup_x1
    ∷ bare insn_dup_x2
    ∷ bare insn_dup2
    ∷ bare insn_dup2_x1
    ∷ bare insn_dup2_x2
    ∷ bare insn_swap
    ∷ []
