-- ===== src/Examples/Parsing.antt =====
-- The class file parser of engine/bjvm/vm/classfile.c at work.
use tracejvm.Prelude.{ℕ, ◌≡◌, refl, List, [], ◌∷◌, none, some, negsuc, arith}
use tracejvm.ClassFile.{ok, Returns}
use tracejvm.ClassFile.Kinds.{insn_goto, insn_nop, insn_return}
use tracejvm.ClassFile.Reader.{reader_next_s32}
use tracejvm.ClassFile.Reader.Bytes.{reader_next_s32-to_bytes}
use tracejvm.ClassFile.Pool.{cp_invalid, cp_class, cp_utf8}
use tracejvm.ClassFile.Pool.Read.{read, link, parse_constant_pool_entry}
use tracejvm.ClassFile.Pool.Finish.{parse_constant_pool}
use tracejvm.ClassFile.Pool.Pointers.{Agrees}
use tracejvm.ClassFile.Pool.Passes.{parse_constant_pool_entry-Agrees}
use tracejvm.ClassFile.Pool.Whole.{PoolResolved, parse_constant_pool-PoolResolved}
use tracejvm.ClassFile.Insn.{index, no_operand}
use tracejvm.ClassFile.Code.{
  CodeState, convert_pcs_to_insn_indices, parse_insns, fresh_code, parse_code_attribute,
}
use tracejvm.ClassFile.Code.Targets.{CodeConverted, convert_pcs_to_insn_indices-CodeConverted}
use tracejvm.ClassFile.Code.Linked.{IsLinked, parse_code_attribute-IsLinked}

-- -2, and a byte behind it.
reader_next_s32-to_bytes_example :
    reader_next_s32 (0xff ∷ 0xff ∷ 0xff ∷ 0xfe ∷ 7 ∷ []) ≡ ok (negsuc 1, 7 ∷ [])
reader_next_s32-to_bytes_example = reader_next_s32-to_bytes (negsuc 1) (7 ∷ []) (omega arith)

-- A class that is named by the string behind it.
abbrev class_a : List ℕ
class_a = 0 ∷ 3 ∷ 7 ∷ 0 ∷ 2 ∷ 1 ∷ 0 ∷ 1 ∷ b'A' ∷ []

class_a_pool :
    parse_constant_pool class_a
    ≡ ok (cp_invalid ∷ cp_class (b'A' ∷ []) ∷ cp_utf8 (b'A' ∷ []) ∷ cp_invalid ∷ [], [])
unfolding parse_constant_pool
class_a_pool = refl

parse_constant_pool-PoolResolved_example : Returns PoolResolved (parse_constant_pool class_a)
parse_constant_pool-PoolResolved_example = parse_constant_pool-PoolResolved class_a

-- The entry of the class, in the second pass over a pool that holds the string.
parse_constant_pool_entry-Agrees_example :
    Returns
      (Agrees (parse_constant_pool_entry read [] (7 ∷ 0 ∷ 0 ∷ [])) (1 ∷ []))
      (parse_constant_pool_entry link (cp_utf8 (b'A' ∷ []) ∷ []) (7 ∷ 0 ∷ 0 ∷ []))
parse_constant_pool_entry-Agrees_example =
    parse_constant_pool_entry-Agrees [] (cp_utf8 (b'A' ∷ []) ∷ []) (7 ∷ 0 ∷ 0 ∷ [])

-- `nop`, and a branch to the instruction behind it, which returns.
abbrev branching : List ℕ
branching = 0 ∷ 0xa7 ∷ 0 ∷ 3 ∷ 0xb1 ∷ []

-- A method with that code, that needs no stack and catches nothing.
abbrev method_code : List ℕ
method_code = 0 ∷ 0 ∷ 0 ∷ 1 ∷ 0 ∷ 0 ∷ 0 ∷ 5 ∷ 0 ∷ 0xa7 ∷ 0 ∷ 3 ∷ 0xb1 ∷ 0 ∷ 0 ∷ []

abbrev branching_state : CodeState
branching_state = record {
  code =
      record { kind = insn_nop; original_pc = 0; operand = no_operand }
      ∷ record { kind = insn_goto; original_pc = 1; operand = index 4 }
      ∷ record { kind = insn_return; original_pc = 4; operand = no_operand }
      ∷ [];
  pc_to_insn = some 0 ∷ some 1 ∷ none ∷ none ∷ some 2 ∷ [];
  indy_insns_count = 0;
}

branching_parsed : parse_insns 5 [] 5 branching (fresh_code 5) ≡ ok branching_state
unfolding parse_insns fresh_code
branching_parsed = refl

branching_converted :
    convert_pcs_to_insn_indices branching_state.pc_to_insn branching_state.code
    ≡ ok (
        record { kind = insn_nop; original_pc = 0; operand = no_operand }
        ∷ record { kind = insn_goto; original_pc = 1; operand = index 2 }
        ∷ record { kind = insn_return; original_pc = 4; operand = no_operand }
        ∷ [])
unfolding convert_pcs_to_insn_indices
branching_converted = refl

convert_pcs_to_insn_indices-CodeConverted_example :
    Returns
      (CodeConverted branching_state.code branching_state.code)
      (convert_pcs_to_insn_indices branching_state.pc_to_insn branching_state.code)
convert_pcs_to_insn_indices-CodeConverted_example =
    convert_pcs_to_insn_indices-CodeConverted [] branching branching_parsed

parse_code_attribute-IsLinked_example : Returns IsLinked (parse_code_attribute [] method_code)
parse_code_attribute-IsLinked_example = parse_code_attribute-IsLinked [] method_code
