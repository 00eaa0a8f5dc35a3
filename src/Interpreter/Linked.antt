-- ===== src/Interpreter/Linked.antt =====
-- The switches of engine/bjvm/vm/interpreter2.c in code that engine/bjvm/vm/classfile.c has parsed.
use tracejvm.Prelude.{
  ℕ, zero, suc, ◌<◌, ◌≡◌, Bool, ap, subst, ◌∙◌, some, List, [], ◌∷◌, length, get_elem?, All, ℤ, pos,
}
use tracejvm.ClassFile.{ok, Ensures-ok, Returns-Ensures}
use tracejvm.ClassFile.Pool.{CpEntry}
use tracejvm.ClassFile.Kinds.{is_branch}
use tracejvm.ClassFile.Insn.{Operand, tableswitch_operand, lookupswitch_operand, BytecodeInsn}
use tracejvm.ClassFile.Insn.Bounds.{InBounds, OperandInBounds}
use tracejvm.ClassFile.Code.{AttributeCode, parse_code_attribute}
use tracejvm.ClassFile.Code.Linked.{IsLinked, parse_code_attribute-IsLinked}
use tracejvm.Interpreter.Switch.{
  jump-target, land, switch_impl, Chosen, tableswitch_target-Chosen, find_target-Chosen,
}

-- A switch at `pc` on the key goes on at one of `n` instructions.
abbrev pub SwitchLands : ℕ → ℕ → Operand → ℤ → Type 0
SwitchLands n pc (tableswitch_operand d) key =
    (target : ℕ) × (switch_impl pc (tableswitch_operand d) key ≡ some (pos target)) × (target < n)
SwitchLands n pc (lookupswitch_operand d) key =
    (target : ℕ) × (switch_impl pc (lookupswitch_operand d) key ≡ some (pos target)) × (target < n)
SwitchLands n pc _ key = Unit

switch_impl-SwitchLands :
    (n pc : ℕ) (branches : Bool) (o : Operand) (key : ℤ)
    → OperandInBounds n branches o
    → SwitchLands n pc o key
unfolding switch_impl Chosen
switch_impl-SwitchLands n pc b (tableswitch_operand d) key h =
    let (t, e, l) = tableswitch_target-Chosen n d key h in
    (t, ap (land pc) e ∙ ap some (jump-target pc t), l)
switch_impl-SwitchLands n pc b (lookupswitch_operand d) key (l0, ls, e0) =
    let (t, e, l) = find_target-Chosen n key d.default_target d.keys d.targets l0 ls e0 in
    (t, ap (land pc) e ∙ ap some (jump-target pc t), l)
switch_impl-SwitchLands n pc b _ key h = tt

at-InBounds :
    (n : ℕ) (code : List BytecodeInsn) (pc : ℕ) {insn : BytecodeInsn}
    → All (InBounds n) code
    → get_elem? code pc ≡ some insn
    → InBounds n insn
at-InBounds n [] pc ls e = cc
at-InBounds n (x ∷ xs) zero {insn} (l, ls) e =
    let same_insn : x ≡ insn = cc in subst (InBounds n) same_insn l
at-InBounds n (x ∷ xs) (suc pc) (l, ls) e = at-InBounds n xs pc ls e

-- In the code that `parse_code_attribute` returns, whatever the bytes were, a switch at any of the
-- instructions goes on, whatever the key on the stack is, at one of the instructions of the code: it
-- reads no target out of the bounds of its array, and the interpreter does not leave the code.
pub switch_impl-parse_code_attribute :
    (pool : List CpEntry) (bytes : List ℕ) {r : AttributeCode × List ℕ}
    → parse_code_attribute pool bytes ≡ ok r
    → (pc : ℕ) {insn : BytecodeInsn} → get_elem? r.0.code pc ≡ some insn
    → (key : ℤ) → SwitchLands (length r.0.code) pc insn.operand key
switch_impl-parse_code_attribute pool bytes {r} e pc {insn} g key =
    let v : IsLinked r =
      Ensures-ok IsLinked (parse_code_attribute pool bytes)
        (Returns-Ensures IsLinked (parse_code_attribute pool bytes)
          (parse_code_attribute-IsLinked pool bytes))
        e in
    switch_impl-SwitchLands (length r.0.code) pc (is_branch insn.kind) insn.operand key
      (at-InBounds (length r.0.code) r.0.code pc v.2 g)
