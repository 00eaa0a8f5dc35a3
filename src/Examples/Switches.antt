-- ===== src/Examples/Switches.antt =====
-- A switch of engine/bjvm/vm/classfile.c in the interpreter of engine/bjvm/vm/interpreter2.c.
use tracejvm.Prelude.{ℕ, ◌≡◌, refl, List, [], ◌∷◌, some, pos, negsuc}
use tracejvm.ClassFile.{ok}
use tracejvm.ClassFile.Kinds.{insn_tableswitch, insn_return, insn_nop}
use tracejvm.ClassFile.Insn.{Operand, tableswitch_operand, no_operand}
use tracejvm.ClassFile.Code.{AttributeCode, parse_code_attribute}
use tracejvm.Interpreter.Switch.{jump, switch_impl}
use tracejvm.Interpreter.Linked.{SwitchLands, switch_impl-parse_code_attribute}

-- `tableswitch` with the keys -1 and 0, then `nop` and `return`: -1 goes to the `return`.
abbrev switching : List ℕ
switching =
    0 ∷ 1 ∷ 0 ∷ 1 ∷ 0 ∷ 0 ∷ 0 ∷ 26 ∷ 0xaa ∷ 0 ∷ 0 ∷ 0 ∷ 0 ∷ 0 ∷ 0 ∷ 24 ∷ 0xff ∷ 0xff ∷ 0xff ∷ 0xff
    ∷ 0 ∷ 0 ∷ 0 ∷ 0 ∷ 0 ∷ 0 ∷ 0 ∷ 25 ∷ 0 ∷ 0 ∷ 0 ∷ 24 ∷ 0 ∷ 0xb1 ∷ 0 ∷ 0 ∷ []

abbrev switch_operand : Operand
switch_operand =
    tableswitch_operand
      (record { default_target = 1; low = negsuc 0; high = pos 0; targets = 2 ∷ 1 ∷ [] })

abbrev switching_code : AttributeCode
switching_code = record {
  max_stack = 1;
  max_locals = 1;
  max_formal_pc = 26;
  code =
      record { kind = insn_tableswitch; original_pc = 0; operand = switch_operand }
      ∷ record { kind = insn_nop; original_pc = 24; operand = no_operand }
      ∷ record { kind = insn_return; original_pc = 25; operand = no_operand }
      ∷ [];
  exception_table = [];
  indy_insns = 0;
}

switching_parsed : parse_code_attribute [] switching ≡ ok (switching_code, [])
unfolding parse_code_attribute
switching_parsed = refl

-- The keys -1, 0 and 1.
switches :
    (switch_impl 0 switch_operand (negsuc 0) ≡ some (pos 2))
    × (switch_impl 0 switch_operand (pos 0) ≡ some (pos 1))
    × (switch_impl 0 switch_operand (pos 1) ≡ some (pos 1))
unfolding switch_impl jump
switches = (refl, refl, refl)

switch_impl-parse_code_attribute_example : SwitchLands 3 0 switch_operand (negsuc 0)
switch_impl-parse_code_attribute_example =
    switch_impl-parse_code_attribute [] switching switching_parsed 0 refl (negsuc 0)
