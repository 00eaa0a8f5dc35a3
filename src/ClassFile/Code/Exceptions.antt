-- ===== src/ClassFile/Code/Exceptions.antt =====
-- The exceptions of a code attribute of engine/bjvm/vm/classfile.c.
use tracejvm.Prelude.{
  ℕ, zero, suc, ◌≤◌, ◌<◌, ◌≡◌, refl, ap, sym, subst, Bool, true, false, Option, List, [], ◌∷◌,
  length, get_elem?-lt, All, arith, Bool-cases, inl, inr, ◌||◌, ltb, leb, ◌==◌, ◌⊎◌,
}
use tracejvm.ClassFile.{Returns, bind-Returns, weaken-Returns}
use tracejvm.ClassFile.Kinds.{is_branch}
use tracejvm.ClassFile.Reader.{Took, reader_next_u16, reader_next_u16-Took}
use tracejvm.ClassFile.Pool.{CpEntry, checked_cp_entry, class_kind}
use tracejvm.ClassFile.Insn.{
  Operand, index, tableswitch_operand, lookupswitch_operand, BytecodeInsn,
}
use tracejvm.ClassFile.Insn.Bounds.{IsBelow, InBounds, OperandInBounds}
use tracejvm.ClassFile.Parse.Operands.{Known, checked_cp_entry-Known}
use tracejvm.ClassFile.Code.{
  CodeState, ExceptionTableEntry, convert_pc_to_insn, convert_end, find_catch_type, link_exception,
  parse_exception, parse_exceptions,
}
use tracejvm.ClassFile.Code.Loop.{Lands, IsLoop}
use tracejvm.ClassFile.Code.Targets.{
  TargetsLand, OperandConverted, CodeConverted, convert_pc_to_insn-Lands,
}

LandsBelow : (code : List BytecodeInsn) (pc i : ℕ) → Lands code pc i → i < length code
LandsBelow code pc i (x, e, p) = get_elem?-lt code i e

TargetsLand-IsBelow :
    (code : List BytecodeInsn) (pcs is : List ℕ)
    → TargetsLand code pcs is
    → All (IsBelow (length code)) is
TargetsLand-IsBelow code [] [] h = tt
TargetsLand-IsBelow code [] (i ∷ is) h = elim h [ ]
TargetsLand-IsBelow code (pc ∷ pcs) [] h = elim h [ ]
TargetsLand-IsBelow code (pc ∷ pcs) (i ∷ is) h =
    (LandsBelow code pc i h.0, TargetsLand-IsBelow code pcs is h.1)

TargetsLand-length :
    (code : List BytecodeInsn) (pcs is : List ℕ) → TargetsLand code pcs is → length is ≡ length pcs
TargetsLand-length code [] [] h = refl
TargetsLand-length code [] (i ∷ is) h = elim h [ ]
TargetsLand-length code (pc ∷ pcs) [] h = elim h [ ]
TargetsLand-length code (pc ∷ pcs) (i ∷ is) h = ap suc (TargetsLand-length code pcs is h.1)

OperandConverted-InBounds :
    (code : List BytecodeInsn) (n : ℕ) (b : Bool) (o o' : Operand)
    → OperandInBounds n b o
    → OperandConverted code b o o'
    → OperandInBounds (length code) b o'
OperandConverted-InBounds code n b (tableswitch_operand d) (tableswitch_operand d') l h = (
  LandsBelow code d.default_target d'.default_target h.0,
  TargetsLand-IsBelow code d.targets d'.targets h.1,
  rw (TargetsLand-length code d.targets d'.targets h.1, sym h.2, sym h.3) l.2,
)
OperandConverted-InBounds code n b (lookupswitch_operand d) (lookupswitch_operand d') l h = (
  LandsBelow code d.default_target d'.default_target h.0,
  TargetsLand-IsBelow code d.targets d'.targets h.1,
  rw (TargetsLand-length code d.targets d'.targets h.1, sym h.2) l.2,
)
OperandConverted-InBounds code n true (index pc) (index i) l h = λ _. LandsBelow code pc i h
OperandConverted-InBounds code n false o (index i) l h = λ e. cc
OperandConverted-InBounds code n true _ (index i) l h = cc
OperandConverted-InBounds code n true _ (tableswitch_operand d) l h = cc
OperandConverted-InBounds code n false _ (tableswitch_operand d) l h = cc
OperandConverted-InBounds code n true _ (lookupswitch_operand d) l h = cc
OperandConverted-InBounds code n false _ (lookupswitch_operand d) l h = cc
OperandConverted-InBounds code n b o _ l h = tt

pub CodeConverted-InBounds :
    (code : List BytecodeInsn) (n : ℕ) (xs ys : List BytecodeInsn)
    → All (InBounds n) xs
    → CodeConverted code xs ys
    → All (InBounds (length code)) ys
CodeConverted-InBounds code n [] [] l h = tt
CodeConverted-InBounds code n [] (y ∷ ys) l h = elim h [ ]
CodeConverted-InBounds code n (x ∷ xs) [] l h = elim h [ ]
CodeConverted-InBounds code n (x ∷ xs) (y ∷ ys) (l, ls) ((k, _, o), hs) = (
  subst (λ kind. OperandInBounds (length code) (is_branch kind) y.operand) k
      (OperandConverted-InBounds code n (is_branch x.kind) x.operand y.operand l o),
  CodeConverted-InBounds code n xs ys ls hs,
)

pub CodeConverted-length :
    (code xs ys : List BytecodeInsn) → CodeConverted code xs ys → length ys ≡ length xs
CodeConverted-length code [] [] h = refl
CodeConverted-length code [] (y ∷ ys) h = elim h [ ]
CodeConverted-length code (x ∷ xs) [] h = elim h [ ]
CodeConverted-length code (x ∷ xs) (y ∷ ys) h = ap suc (CodeConverted-length code xs ys h.1)

-- The start and the handler are instructions; the end is one, or the end of the code.
abbrev pub ExceptionInBounds : ℕ → ℕ → ExceptionTableEntry → Type 0
ExceptionInBounds count n e =
    (e.start_insn < count) × ((e.end_insn < count) ⊎ (e.end_insn ≡ n)) × (e.handler_insn < count)

module _ (pool : List CpEntry) (n : ℕ) (s : CodeState) (v : IsLoop n 0 s) where
  converted_pc :
      (pc : ℕ) → pc < n → Returns (IsBelow (length s.code)) (convert_pc_to_insn s.pc_to_insn pc)
  converted_pc pc l =
      weaken-Returns (Lands s.code pc) (IsBelow (length s.code))
        (convert_pc_to_insn s.pc_to_insn pc)
        (convert_pc_to_insn-Lands s.code s.pc_to_insn v.starts pc (omega (arith, v.map_length)))
        (LandsBelow s.code pc)

  EndInBounds : ℕ → Type 0
  EndInBounds i = (i < length s.code) ⊎ (i ≡ n)

  convert_end-EndInBounds : (pc : ℕ) → pc ≤ n → Returns EndInBounds (convert_end s.pc_to_insn n pc)
  unfolding convert_end EndInBounds
  convert_end-EndInBounds pc l = elim (Bool-cases (pc == n)) [
    | inl e ↦ rw e (inr refl)
    | inr e ↦ rw e (
        weaken-Returns (IsBelow (length s.code)) EndInBounds (convert_pc_to_insn s.pc_to_insn pc)
          (converted_pc pc (ground (arith, e))) (λ i h. inl h))
  ]

  Caught : Option ℕ → Type 0
  Caught o = Unit

  find_catch_type-Caught : (i : ℕ) → Returns Caught (find_catch_type pool i)
  unfolding find_catch_type Caught
  find_catch_type-Caught i = elim (Bool-cases (i == 0)) [
    | inl e ↦ rw e tt
    | inr e ↦ rw e (
        bind-Returns Known Caught (checked_cp_entry pool i class_kind) _
          (checked_cp_entry-Known pool i class_kind) (λ _ _. tt))
  ]

  Linked : ExceptionTableEntry → Type 0
  Linked = ExceptionInBounds (length s.code) n

  link_exception-Linked :
      (start_pc end_pc handler_pc catch_type : ℕ)
      → Returns Linked (link_exception pool n s.pc_to_insn start_pc end_pc handler_pc catch_type)
  unfolding link_exception Linked EndInBounds
  link_exception-Linked a b c t = elim (Bool-cases (leb n a || ltb n b || leb n c)) [
    | inl e ↦ rw e tt
    | inr e ↦ rw e (elim (Bool-cases (leb b a)) [
      | inl d ↦ rw d tt
      | inr d ↦ rw d (
          bind-Returns (IsBelow (length s.code)) Linked (convert_pc_to_insn s.pc_to_insn a) _
            (converted_pc a (ground (arith, e)))
            (λ i hi.
              bind-Returns EndInBounds Linked (convert_end s.pc_to_insn n b) _
                (convert_end-EndInBounds b (ground (arith, e)))
                (λ j hj.
                  bind-Returns (IsBelow (length s.code)) Linked (convert_pc_to_insn s.pc_to_insn c)
                    _ (converted_pc c (ground (arith, e)))
                    (λ k hk.
                      bind-Returns Caught Linked (find_catch_type pool t) _
                        (find_catch_type-Caught t) (λ o _. (hi, hj, hk))))))
    ])
  ]

  abbrev pub AllLinked : List ExceptionTableEntry × List ℕ → Type 0
  AllLinked r = All (ExceptionInBounds (length s.code) n) r.0

  LinkedFirst : ExceptionTableEntry × List ℕ → Type 0
  LinkedFirst r = ExceptionInBounds (length s.code) n r.0

  parse_exception-LinkedFirst :
      (bytes : List ℕ) → Returns LinkedFirst (parse_exception pool n s.pc_to_insn bytes)
  unfolding parse_exception LinkedFirst Linked
  parse_exception-LinkedFirst bytes =
      bind-Returns (Took 2 bytes) LinkedFirst (reader_next_u16 bytes) _ (reader_next_u16-Took bytes)
        (λ a _.
          bind-Returns (Took 2 a.1) LinkedFirst (reader_next_u16 a.1) _ (reader_next_u16-Took a.1)
            (λ b _.
              bind-Returns (Took 2 b.1) LinkedFirst (reader_next_u16 b.1) _
                (reader_next_u16-Took b.1)
                (λ c _.
                  bind-Returns (Took 2 c.1) LinkedFirst (reader_next_u16 c.1) _
                    (reader_next_u16-Took c.1)
                    (λ d _.
                      bind-Returns Linked LinkedFirst
                        (link_exception pool n s.pc_to_insn a.0 b.0 c.0 d.0) _
                        (link_exception-Linked a.0 b.0 c.0 d.0) (λ e h. h)))))

  pub parse_exceptions-AllLinked :
      (count : ℕ) (bytes : List ℕ)
      → Returns AllLinked (parse_exceptions count pool n s.pc_to_insn bytes)
  unfolding parse_exceptions LinkedFirst
  parse_exceptions-AllLinked zero bytes = tt
  parse_exceptions-AllLinked (suc count) bytes =
      bind-Returns LinkedFirst AllLinked (parse_exception pool n s.pc_to_insn bytes) _
        (parse_exception-LinkedFirst bytes)
        (λ r h.
          bind-Returns AllLinked AllLinked (parse_exceptions count pool n s.pc_to_insn r.1) _
            (parse_exceptions-AllLinked count r.1) (λ q k. (h, k)))
