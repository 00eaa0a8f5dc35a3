-- ===== src/ClassFile/Code/Targets.antt =====
-- What the conversion of engine/bjvm/vm/classfile.c makes of the targets of branches and switches.
use tracejvm.Prelude.{
  ℕ, zero, suc, ◌<◌, ◌≡◌, refl, sym, subst, Bool, true, false, Option, none, some, List, [], ◌∷◌,
  length, get_elem?, All, arith,
}
use tracejvm.ClassFile.{
  ok, err, stuck, Returns, bind-Returns, invalid_program_counter, Ensures-ok, Returns-Ensures,
}
use tracejvm.ClassFile.Kinds.{is_branch}
use tracejvm.ClassFile.Pool.{CpEntry}
use tracejvm.ClassFile.Insn.{
  Operand, no_operand, array_type, index, integer_imm, f_imm, d_imm, lookupswitch_operand,
  tableswitch_operand, iinc_operand, multianewarray_operand, cp, BytecodeInsn,
}
use tracejvm.ClassFile.Insn.Bounds.{IsBelow, InBounds, OperandInBounds}
use tracejvm.ClassFile.Code.{
  PcToInsn, CodeState, convert_pc_to_insn, convert_targets, convert_operand, convert_insn,
  convert_pcs_to_insn_indices, parse_insns, fresh_code,
}
use tracejvm.ClassFile.Code.Loop.{Lands, IsMap, IsLoop, fresh_code-IsLoop, parse_insns-IsLoop}

-- Each converted target is the index of the instruction that starts at the target.
abbrev pub TargetsLand : List BytecodeInsn → List ℕ → List ℕ → Type 0
TargetsLand code [] [] = Unit
TargetsLand code (pc ∷ pcs) (i ∷ is) = Lands code pc i × TargetsLand code pcs is
TargetsLand code _ _ = ⊥

abbrev pub OperandConverted : List BytecodeInsn → Bool → Operand → Operand → Type 0
OperandConverted code b (tableswitch_operand d) (tableswitch_operand d') =
    Lands code d.default_target d'.default_target
    × TargetsLand code d.targets d'.targets
    × (d.low ≡ d'.low)
    × (d.high ≡ d'.high)
OperandConverted code b (lookupswitch_operand d) (lookupswitch_operand d') =
    Lands code d.default_target d'.default_target
    × TargetsLand code d.targets d'.targets
    × (d.keys ≡ d'.keys)
OperandConverted code true (index pc) (index i) = Lands code pc i
OperandConverted code b o o' = o ≡ o'

-- The kind and the program counter stay.
abbrev pub InsnConverted : List BytecodeInsn → BytecodeInsn → BytecodeInsn → Type 0
InsnConverted code x y =
    (x.kind ≡ y.kind)
    × (x.original_pc ≡ y.original_pc)
    × OperandConverted code (is_branch x.kind) x.operand y.operand

abbrev pub CodeConverted : List BytecodeInsn → List BytecodeInsn → List BytecodeInsn → Type 0
CodeConverted code [] [] = Unit
CodeConverted code (x ∷ xs) (y ∷ ys) = InsnConverted code x y × CodeConverted code xs ys
CodeConverted code _ _ = ⊥

missing : {A : Type 0} (m : List A) (i : ℕ) → i < length m → get_elem? m i ≡ none → ⊥
missing [] i l e = elim l [ ]
missing (x ∷ m) zero l e = cc
missing (x ∷ m) (suc i) l e = missing m i (omega arith) e

-- What is found under the program counters of a map.
module _ (code : List BytecodeInsn) (m : PcToInsn) (starts : IsMap code m) where
  pub convert_pc_to_insn-Lands :
      (pc : ℕ) → pc < length m → Returns (Lands code pc) (convert_pc_to_insn m pc)
  unfolding convert_pc_to_insn
  convert_pc_to_insn-Lands pc l = found (get_elem? m pc) refl
    where
      found :
          (o : Option (Option ℕ))
          → get_elem? m pc ≡ o
          → Returns (Lands code pc) (elim o [
            | none ↦ stuck
            | some none ↦ err invalid_program_counter
            | some (some i) ↦ ok i
          ])
      found none e = absurd (missing m pc l e)
      found (some none) e = tt
      found (some (some i)) e = starts pc i e

  convert_targets-TargetsLand :
      (pcs : List ℕ)
      → All (IsBelow (length m)) pcs
      → Returns (TargetsLand code pcs) (convert_targets m pcs)
  unfolding convert_targets
  convert_targets-TargetsLand [] l = tt
  convert_targets-TargetsLand (pc ∷ pcs) (l, ls) =
      bind-Returns (Lands code pc) (TargetsLand code (pc ∷ pcs)) (convert_pc_to_insn m pc) _
        (convert_pc_to_insn-Lands pc l)
        (λ i h.
          bind-Returns (TargetsLand code pcs) (TargetsLand code (pc ∷ pcs)) (convert_targets m pcs)
            _ (convert_targets-TargetsLand pcs ls) (λ is k. (h, k)))

  convert_operand-OperandConverted :
      (b : Bool) (o : Operand)
      → OperandInBounds (length m) b o
      → Returns (OperandConverted code b o) (convert_operand m b o)
  unfolding convert_operand
  convert_operand-OperandConverted b (tableswitch_operand d) (l, ls, _) =
      bind-Returns (Lands code d.default_target) (OperandConverted code b (tableswitch_operand d))
        (convert_pc_to_insn m d.default_target) _ (convert_pc_to_insn-Lands d.default_target l)
        (λ i h.
          bind-Returns (TargetsLand code d.targets)
            (OperandConverted code b (tableswitch_operand d)) (convert_targets m d.targets) _
            (convert_targets-TargetsLand d.targets ls) (λ is k. (h, k, refl, refl)))
  convert_operand-OperandConverted b (lookupswitch_operand d) (l, ls, _) =
      bind-Returns (Lands code d.default_target) (OperandConverted code b (lookupswitch_operand d))
        (convert_pc_to_insn m d.default_target) _ (convert_pc_to_insn-Lands d.default_target l)
        (λ i h.
          bind-Returns (TargetsLand code d.targets)
            (OperandConverted code b (lookupswitch_operand d)) (convert_targets m d.targets) _
            (convert_targets-TargetsLand d.targets ls) (λ is k. (h, k, refl)))
  convert_operand-OperandConverted true (index pc) l =
      bind-Returns (Lands code pc) (OperandConverted code true (index pc)) (convert_pc_to_insn m pc)
        _ (convert_pc_to_insn-Lands pc (l refl)) (λ i h. h)
  convert_operand-OperandConverted false (index pc) l = refl
  convert_operand-OperandConverted b no_operand l = refl
  convert_operand-OperandConverted b (array_type k) l = refl
  convert_operand-OperandConverted b (integer_imm z) l = refl
  convert_operand-OperandConverted b (f_imm v) l = refl
  convert_operand-OperandConverted b (d_imm v) l = refl
  convert_operand-OperandConverted b (iinc_operand i z) l = refl
  convert_operand-OperandConverted b (multianewarray_operand i d) l = refl
  convert_operand-OperandConverted b (cp i) l = refl

  convert_insn-InsnConverted :
      (x : BytecodeInsn) → InBounds (length m) x → Returns (InsnConverted code x) (convert_insn m x)
  unfolding convert_insn
  convert_insn-InsnConverted x l =
      bind-Returns (OperandConverted code (is_branch x.kind) x.operand) (InsnConverted code x)
        (convert_operand m (is_branch x.kind) x.operand) _
        (convert_operand-OperandConverted (is_branch x.kind) x.operand l) (λ o h. (refl, refl, h))

  pub convert-CodeConverted :
      (xs : List BytecodeInsn)
      → All (InBounds (length m)) xs
      → Returns (CodeConverted code xs) (convert_pcs_to_insn_indices m xs)
  unfolding convert_pcs_to_insn_indices
  convert-CodeConverted [] l = tt
  convert-CodeConverted (x ∷ xs) (l, ls) =
      bind-Returns (InsnConverted code x) (CodeConverted code (x ∷ xs)) (convert_insn m x) _
        (convert_insn-InsnConverted x l)
        (λ y h.
          bind-Returns (CodeConverted code xs) (CodeConverted code (x ∷ xs))
            (convert_pcs_to_insn_indices m xs) _ (convert-CodeConverted xs ls) (λ ys k. (h, k)))

-- The instructions that are parsed from some bytes, once converted, are as many as before, keep their
-- kinds, program counters and other operands, and each target of a branch or a switch is then the
-- index of the instruction that starts at the program counter that was the target; the conversion
-- refuses every target at which no instruction starts.
pub convert_pcs_to_insn_indices-CodeConverted :
    (pool : List CpEntry) (bytes : List ℕ) {s : CodeState}
    → parse_insns (length bytes) pool (length bytes) bytes (fresh_code (length bytes)) ≡ ok s
    → Returns (CodeConverted s.code s.code) (convert_pcs_to_insn_indices s.pc_to_insn s.code)
convert_pcs_to_insn_indices-CodeConverted pool bytes {s} e =
    let v : IsLoop (length bytes) 0 s =
      Ensures-ok (IsLoop (length bytes) 0)
        (parse_insns (length bytes) pool (length bytes) bytes (fresh_code (length bytes)))
        (Returns-Ensures (IsLoop (length bytes) 0)
          (parse_insns (length bytes) pool (length bytes) bytes (fresh_code (length bytes)))
          (parse_insns-IsLoop (length bytes) pool (length bytes) bytes (fresh_code (length bytes))
            (omega arith) (fresh_code-IsLoop (length bytes))))
        e in
    convert-CodeConverted s.code s.pc_to_insn v.starts s.code
      (subst (λ n. All (InBounds n) s.code) (sym v.map_length) v.targets)
