-- ===== src/ClassFile/Insn.antt =====
-- An instruction of engine/bjvm/vm/classfile.h, with the member of its union, and the parts of
-- `parse_insn` of classfile.c that do not depend on the opcode.
pub mod Bounds
use tracejvm.Prelude.{
  ℕ, zero, suc, ◌+◌, ◌%◌, ◌^◌, ◌||◌, Option, none, some, List, [], ◌∷◌, ltb, leb, ◌==◌,
  if◌then◌else◌, ℤ, pos, negsuc, ◌+ℤ◌, ◌-ℤ◌,
}
use tracejvm.Descriptor.{TypeKind, boolean, char, float, double, byte, short, int, long}
use tracejvm.ClassFile.{
  Result, ok, err, stuck, branch_out_of_bounds, switch_too_large, switch_inverted,
  invalid_array_type, ◌>>=◌,
}
use tracejvm.ClassFile.Kinds.{InsnKind, insn_tableswitch, insn_lookupswitch}
use tracejvm.ClassFile.Reader.{reader_next_u8, reader_next_s32}

pub record TableswitchData : Type 0 where
  pub default_target : ℕ
  pub low : ℤ
  pub high : ℤ
  pub targets : List ℕ

pub record LookupswitchData : Type 0 where
  pub default_target : ℕ
  pub keys : List ℤ
  pub targets : List ℕ

-- A floating-point immediate is a small integer, or the bits of an entry of the pool.
pub data FloatImm : Type 0 where
  of_integer of_bits : ℕ → FloatImm

-- An entry of the pool is its index.
pub data Operand : Type 0 where
  no_operand : Operand
  array_type : TypeKind → Operand
  index : ℕ → Operand
  integer_imm : ℤ → Operand
  f_imm d_imm : FloatImm → Operand
  lookupswitch_operand : LookupswitchData → Operand
  tableswitch_operand : TableswitchData → Operand
  iinc_operand : (local : ℕ) → (const_ : ℤ) → Operand
  multianewarray_operand : (entry dimensions : ℕ) → Operand
  cp : ℕ → Operand

pub record BytecodeInsn : Type 0 where
  pub kind : InsnKind
  pub original_pc : ℕ
  pub operand : Operand

-- A negative sum is out of bounds whether it fits an `int` or not.
abbrev pub checked_target : ℕ → ℤ → Result ℕ
checked_target max_pc (pos target) =
    if leb (2 ^ 31) target || leb max_pc target then err branch_out_of_bounds else ok target
checked_target max_pc (negsuc _) = err branch_out_of_bounds

unfoldable pub checked_pc : ℕ → ℤ → ℕ → Result ℕ
unfolding ◌+ℤ◌
checked_pc insn_pc offset max_pc = checked_target max_pc (pos insn_pc +ℤ offset)

-- The loop that skips to a multiple of 4.
unfoldable pub skip_padding : ℕ → ℕ → List ℕ → Result (List ℕ)
unfolding reader_next_u8
skip_padding zero pc bytes = stuck
skip_padding (suc fuel) pc bytes =
    if pc % 4 == 0
    then ok bytes
    else do (_, rest) ← reader_next_u8 bytes; skip_padding fuel (suc pc) rest

-- An offset of 32 bits and the target that it means.
unfoldable pub next_target : ℕ → ℕ → List ℕ → Result (ℕ × List ℕ)
unfolding reader_next_s32 checked_pc
next_target pc max_pc bytes = do
  (offset, rest) ← reader_next_s32 bytes
  target ← checked_pc pc offset max_pc
  ok (target, rest)

-- `count` targets.
unfoldable pub next_targets : ℕ → ℕ → ℕ → List ℕ → Result (List ℕ × List ℕ)
unfolding next_target
next_targets zero pc max_pc bytes = ok ([], bytes)
next_targets (suc count) pc max_pc bytes = do
  (target, rest) ← next_target pc max_pc bytes
  (targets, behind) ← next_targets count pc max_pc rest
  ok (target ∷ targets, behind)

-- `count` keys, each with its target.
unfoldable pub next_pairs : ℕ → ℕ → ℕ → List ℕ → Result ((List ℤ × List ℕ) × List ℕ)
unfolding reader_next_s32 next_target
next_pairs zero pc max_pc bytes = ok (([], []), bytes)
next_pairs (suc count) pc max_pc bytes = do
  (key, rest) ← reader_next_s32 bytes
  (target, rest) ← next_target pc max_pc rest
  ((keys, targets), behind) ← next_pairs count pc max_pc rest
  ok ((key ∷ keys, target ∷ targets), behind)

-- `targets_count`, which is computed in 64 bits and fits.
abbrev pub targets_count : ℤ → ℤ → ℤ
targets_count low high = high -ℤ low +ℤ pos 1

-- The number of targets, if it is admitted.
unfoldable pub admit_targets : ℤ → Result ℕ
admit_targets (pos zero) = err switch_inverted
admit_targets (pos (suc count)) =
    if ltb (2 ^ 15) (suc count) then err switch_too_large else ok (suc count)
admit_targets (negsuc _) = err switch_inverted

unfoldable pub admit_pairs : ℤ → Result ℕ
admit_pairs (pos count) = if ltb (2 ^ 15) count then err switch_too_large else ok count
admit_pairs (negsuc _) = err switch_too_large

-- At most 3 bytes are skipped.
abbrev pub padding_fuel : ℕ
padding_fuel = 4

unfoldable pub parse_tableswitch_insn : ℕ → ℕ → List ℕ → Result (BytecodeInsn × List ℕ)
unfolding skip_padding next_target reader_next_s32 next_targets admit_targets ◌+ℤ◌ ◌-ℤ◌
parse_tableswitch_insn pc max_pc bytes = do
  rest ← skip_padding padding_fuel (suc pc) bytes
  (default_target, rest) ← next_target pc max_pc rest
  (low, rest) ← reader_next_s32 rest
  (high, rest) ← reader_next_s32 rest
  count ← admit_targets (targets_count low high)
  (targets, rest) ← next_targets count pc max_pc rest
  ok (
    record {
      kind = insn_tableswitch;
      original_pc = pc;
      operand =
          tableswitch_operand
            (record { default_target = default_target; low = low; high = high; targets = targets });
    },
    rest,
  )

unfoldable pub parse_lookupswitch_insn : ℕ → ℕ → List ℕ → Result (BytecodeInsn × List ℕ)
unfolding skip_padding next_target reader_next_s32 next_pairs admit_pairs
parse_lookupswitch_insn pc max_pc bytes = do
  rest ← skip_padding padding_fuel (suc pc) bytes
  (default_target, rest) ← next_target pc max_pc rest
  (pairs_count, rest) ← reader_next_s32 rest
  count ← admit_pairs pairs_count
  ((keys, targets), rest) ← next_pairs count pc max_pc rest
  ok (
    record {
      kind = insn_lookupswitch;
      original_pc = pc;
      operand =
          lookupswitch_operand
            (record { default_target = default_target; keys = keys; targets = targets });
    },
    rest,
  )

unfoldable pub parse_atype : ℕ → Result TypeKind
parse_atype atype =
    if atype == 4
    then ok boolean
    else if atype == 5
    then ok char
    else if atype == 6
    then ok float
    else if atype == 7
    then ok double
    else if atype == 8
    then ok byte
    else if atype == 9
    then ok short
    else if atype == 10
    then ok int
    else if atype == 11
    then ok long
    else err invalid_array_type
