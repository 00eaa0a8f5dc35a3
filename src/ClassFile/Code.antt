-- ===== src/ClassFile/Code.antt =====
-- `parse_code_attribute` of engine/bjvm/vm/classfile.c up to the attributes of the code: the loop over
-- the instructions, the conversion of program counters to indices of instructions, and the table of
-- exceptions. `pc_to_insn` holds `none` for -1.
pub mod Loop
pub mod Targets
pub mod Exceptions
pub mod Linked
use tracejvm.Prelude.{
  ℕ, zero, suc, ◌+◌, ◌-◌, Bool, true, false, ◌||◌, Option, none, some, List, [], ◌∷◌, ◌++◌, ltb,
  leb, ◌==◌, if◌then◌else◌, length, set, get_elem?, replicate,
}
use tracejvm.ClassFile.{
  Result, ok, err, stuck, ◌>>=◌, invalid_program_counter, code_length_out_of_range,
  exception_entry_out_of_bounds, exception_entry_inverted,
}
use tracejvm.ClassFile.Kinds.{InsnKind, is_branch, insn_invokedynamic}
use tracejvm.ClassFile.Reader.{reader_get_slice, reader_next_u16, reader_next_u32}
use tracejvm.ClassFile.Pool.{CpEntry, checked_cp_entry, class_kind}
use tracejvm.ClassFile.Insn.{
  Operand, index, tableswitch_operand, lookupswitch_operand, BytecodeInsn, TableswitchData,
  LookupswitchData,
}
use tracejvm.ClassFile.Parse.{parse_insn}

abbrev pub PcToInsn : Type 0
PcToInsn = List (Option ℕ)

-- What the loop over the instructions has written; `code` is the filled part of the array.
pub record CodeState : Type 0 where
  pub code : List BytecodeInsn
  pub pc_to_insn : PcToInsn
  pub indy_insns_count : ℕ

abbrev pub count_indy : InsnKind → ℕ
count_indy insn_invokedynamic = 1
count_indy _ = 0

-- The arrays have room for `code_length` entries.
unfoldable pub add_insn : ℕ → ℕ → BytecodeInsn → CodeState → Result CodeState
add_insn code_length pc parsed s =
    if ltb pc (length s.pc_to_insn)
    then if ltb (length s.code) code_length
      then ok (record {
        code = s.code ++ parsed ∷ [];
        pc_to_insn = set s.pc_to_insn pc (some (length s.code));
        indy_insns_count = s.indy_insns_count + count_indy parsed.kind;
      })
      else stuck
    else stuck

-- The loop, over what is left of the code.
unfoldable pub parse_insns : ℕ → List CpEntry → ℕ → List ℕ → CodeState → Result CodeState
unfolding parse_insn add_insn
parse_insns fuel pool code_length [] s = ok s
parse_insns zero pool code_length (b ∷ bs) s = stuck
parse_insns (suc fuel) pool code_length (b ∷ bs) s = do
  let pc = code_length - length (b ∷ bs)
  (parsed, rest) ← parse_insn pool pc code_length (b ∷ bs)
  s' ← add_insn code_length pc parsed s
  parse_insns fuel pool code_length rest s'

unfoldable pub convert_pc_to_insn : PcToInsn → ℕ → Result ℕ
convert_pc_to_insn pc_to_insn pc = elim (get_elem? pc_to_insn pc) [
  | none ↦ stuck
  | some none ↦ err invalid_program_counter
  | some (some i) ↦ ok i
]

unfoldable pub convert_targets : PcToInsn → List ℕ → Result (List ℕ)
unfolding convert_pc_to_insn
convert_targets pc_to_insn [] = ok []
convert_targets pc_to_insn (pc ∷ pcs) = do
  i ← convert_pc_to_insn pc_to_insn pc
  is ← convert_targets pc_to_insn pcs
  ok (i ∷ is)

-- The targets of a switch are as many as its bounds say.
unfoldable pub convert_operand : PcToInsn → Bool → Operand → Result Operand
unfolding convert_pc_to_insn convert_targets
convert_operand pc_to_insn branches (tableswitch_operand d) = do
  default_target ← convert_pc_to_insn pc_to_insn d.default_target
  targets ← convert_targets pc_to_insn d.targets
  ok (tableswitch_operand (record d { default_target = default_target; targets = targets }))
convert_operand pc_to_insn branches (lookupswitch_operand d) = do
  default_target ← convert_pc_to_insn pc_to_insn d.default_target
  targets ← convert_targets pc_to_insn d.targets
  ok (lookupswitch_operand (record d { default_target = default_target; targets = targets }))
convert_operand pc_to_insn true (index pc) = do i ← convert_pc_to_insn pc_to_insn pc; ok (index i)
convert_operand pc_to_insn false (index pc) = ok (index pc)
convert_operand pc_to_insn branches operand = ok operand

unfoldable pub convert_insn : PcToInsn → BytecodeInsn → Result BytecodeInsn
unfolding convert_operand
convert_insn pc_to_insn insn = do
  operand ← convert_operand pc_to_insn (is_branch insn.kind) insn.operand
  ok (record insn { operand = operand })

unfoldable pub convert_pcs_to_insn_indices :
    PcToInsn → List BytecodeInsn → Result (List BytecodeInsn)
unfolding convert_insn
convert_pcs_to_insn_indices pc_to_insn [] = ok []
convert_pcs_to_insn_indices pc_to_insn (insn ∷ code) = do
  converted ← convert_insn pc_to_insn insn
  behind ← convert_pcs_to_insn_indices pc_to_insn code
  ok (converted ∷ behind)

-- `catch_type` is the index of a class, or `none`.
pub record ExceptionTableEntry : Type 0 where
  pub start_insn : ℕ
  pub end_insn : ℕ
  pub handler_insn : ℕ
  pub catch_type : Option ℕ

-- The end of a range may be the end of the code, which is no instruction.
unfoldable pub convert_end : PcToInsn → ℕ → ℕ → Result ℕ
unfolding convert_pc_to_insn
convert_end pc_to_insn code_length end_pc =
    if end_pc == code_length then ok code_length else convert_pc_to_insn pc_to_insn end_pc

unfoldable pub find_catch_type : List CpEntry → ℕ → Result (Option ℕ)
unfolding checked_cp_entry
find_catch_type pool catch_type =
    if catch_type == 0
    then ok none
    else do _ ← checked_cp_entry pool catch_type class_kind; ok (some catch_type)

-- The checks of an entry, and its conversion.
unfoldable pub link_exception :
    List CpEntry → ℕ → PcToInsn → ℕ → ℕ → ℕ → ℕ → Result ExceptionTableEntry
unfolding convert_pc_to_insn convert_end find_catch_type
link_exception pool code_length pc_to_insn start_pc end_pc handler_pc catch_type =
    if leb code_length start_pc || ltb code_length end_pc || leb code_length handler_pc
    then err exception_entry_out_of_bounds
    else if leb end_pc start_pc
    then err exception_entry_inverted
    else do
      start_insn ← convert_pc_to_insn pc_to_insn start_pc
      end_insn ← convert_end pc_to_insn code_length end_pc
      handler_insn ← convert_pc_to_insn pc_to_insn handler_pc
      catch_class ← find_catch_type pool catch_type
      ok (record {
        start_insn = start_insn;
        end_insn = end_insn;
        handler_insn = handler_insn;
        catch_type = catch_class;
      })

unfoldable pub parse_exception :
    List CpEntry → ℕ → PcToInsn → List ℕ → Result (ExceptionTableEntry × List ℕ)
unfolding reader_next_u16 link_exception
parse_exception pool code_length pc_to_insn bytes = do
  (start_pc, rest) ← reader_next_u16 bytes
  (end_pc, rest) ← reader_next_u16 rest
  (handler_pc, rest) ← reader_next_u16 rest
  (catch_type, rest) ← reader_next_u16 rest
  entry ← link_exception pool code_length pc_to_insn start_pc end_pc handler_pc catch_type
  ok (entry, rest)

unfoldable pub parse_exceptions :
    ℕ → List CpEntry → ℕ → PcToInsn → List ℕ → Result (List ExceptionTableEntry × List ℕ)
unfolding parse_exception
parse_exceptions zero pool code_length pc_to_insn bytes = ok ([], bytes)
parse_exceptions (suc count) pool code_length pc_to_insn bytes = do
  (entry, rest) ← parse_exception pool code_length pc_to_insn bytes
  (entries, behind) ← parse_exceptions count pool code_length pc_to_insn rest
  ok (entry ∷ entries, behind)

-- `attribute_code` without its attributes. An empty table of exceptions is null in the code.
pub record AttributeCode : Type 0 where
  pub max_stack : ℕ
  pub max_locals : ℕ
  pub max_formal_pc : ℕ
  pub code : List BytecodeInsn
  pub exception_table : List ExceptionTableEntry
  pub indy_insns : ℕ

unfoldable pub fresh_code : ℕ → CodeState
fresh_code code_length = record {
  code = [];
  pc_to_insn = replicate code_length none;
  indy_insns_count = 0;
}

unfoldable pub check_code_length : ℕ → Result ℕ
check_code_length code_length =
    if code_length == 0 || ltb 65535 code_length
    then err code_length_out_of_range
    else ok code_length

-- From the loop over the instructions on. Each instruction takes a byte at least, so the length of
-- the code is fuel enough.
unfoldable pub parse_instructions :
    List CpEntry → ℕ → ℕ → ℕ → List ℕ → List ℕ → Result (AttributeCode × List ℕ)
unfolding reader_next_u16 parse_insns convert_pcs_to_insn_indices parse_exceptions fresh_code
parse_instructions pool code_length max_stack max_locals code_bytes bytes = do
  s ← parse_insns code_length pool code_length code_bytes (fresh_code code_length)
  code ← convert_pcs_to_insn_indices s.pc_to_insn s.code
  (exception_table_length, rest) ← reader_next_u16 bytes
  (table, rest) ← parse_exceptions exception_table_length pool code_length s.pc_to_insn rest
  ok (
    record {
      max_stack = max_stack;
      max_locals = max_locals;
      max_formal_pc = code_length;
      code = code;
      exception_table = table;
      indy_insns = s.indy_insns_count;
    },
    rest,
  )

unfoldable pub parse_code_attribute : List CpEntry → List ℕ → Result (AttributeCode × List ℕ)
unfolding reader_next_u16 reader_next_u32 reader_get_slice check_code_length parse_instructions
parse_code_attribute pool bytes = do
  (max_stack, rest) ← reader_next_u16 bytes
  (max_locals, rest) ← reader_next_u16 rest
  (claimed_length, rest) ← reader_next_u32 rest
  code_length ← check_code_length claimed_length
  (code_bytes, rest) ← reader_get_slice code_length rest
  parse_instructions pool code_length max_stack max_locals code_bytes rest
