-- ===== src/ClassFile/Insn/Bounds.antt =====
-- The targets that the parsers of branches and switches of engine/bjvm/vm/classfile.c let through.
use tracejvm.Prelude.{
  ℕ, zero, suc, ◌+◌, ◌-◌, ◌%◌, ◌≤◌, ◌<◌, ◌≡◌, refl, ap, sym, ◌∙◌, Bool, true, List, length, All,
  arith, ◌==◌, ℤ, pos, negsuc, ◌+ℤ◌, Bool-cases, inl, inr,
}
use tracejvm.ClassFile.{Returns, bind-Returns, weaken-Returns}
use tracejvm.ClassFile.Kinds.{is_branch}
use tracejvm.ClassFile.Reader.{
  Took, reader_next_u8, reader_next_s32, reader_next_u8-Took, reader_next_s32-Took,
}
use tracejvm.ClassFile.Insn.{
  Operand, index, tableswitch_operand, lookupswitch_operand, BytecodeInsn, checked_target,
  checked_pc, skip_padding, next_target, next_targets, next_pairs, targets_count, admit_targets,
  admit_pairs, padding_fuel, parse_tableswitch_insn, parse_lookupswitch_insn,
}

abbrev pub IsBelow : ℕ → ℕ → Type 0
IsBelow n target = target < n

-- Every target of the operand is below `n`; an index is one if the instruction is a branch. A switch has
-- as many targets as its bounds or its keys say.
abbrev pub OperandInBounds : ℕ → Bool → Operand → Type 0
OperandInBounds n branches (index target) = branches ≡ true → target < n
OperandInBounds n branches (tableswitch_operand d) =
    (d.default_target < n)
    × All (IsBelow n) d.targets
    × (pos (length d.targets) ≡ targets_count d.low d.high)
OperandInBounds n branches (lookupswitch_operand d) =
    (d.default_target < n) × All (IsBelow n) d.targets × (length d.targets ≡ length d.keys)
OperandInBounds n branches _ = Unit

abbrev pub InBounds : ℕ → BytecodeInsn → Type 0
InBounds n i = OperandInBounds n (is_branch i.kind) i.operand

-- The reader has not gone back, and what was read is in bounds.
abbrev pub Bounded : ℕ → List ℕ → BytecodeInsn × List ℕ → Type 0
Bounded n bytes r = (length r.1 ≤ length bytes) × InBounds n r.0

checked_target-lt : (n : ℕ) (t : ℤ) → Returns (IsBelow n) (checked_target n t)
checked_target-lt n (pos t) = ground arith
checked_target-lt n (negsuc t) = tt

pub checked_pc-lt : (pc : ℕ) (offset : ℤ) (n : ℕ) → Returns (IsBelow n) (checked_pc pc offset n)
unfolding checked_pc
checked_pc-lt pc offset n = checked_target-lt n (pos pc +ℤ offset)

Shorter : List ℕ → List ℕ → Type 0
Shorter bytes rest = length rest ≤ length bytes

-- The fuel is enough for the bytes that are missing.
skip_padding-Returns :
    (fuel pc : ℕ) (bytes : List ℕ)
    → (4 - pc % 4) % 4 < fuel
    → Returns (Shorter bytes) (skip_padding fuel pc bytes)
unfolding skip_padding Shorter
skip_padding-Returns zero pc bytes h = elim h [ ]
skip_padding-Returns (suc fuel) pc bytes h = elim (Bool-cases (pc % 4 == 0)) [
  | inl e ↦ rw e (omega arith)
  | inr e ↦ rw e (
      bind-Returns (Took 1 bytes) (Shorter bytes) (reader_next_u8 bytes) _
        (reader_next_u8-Took bytes)
        (λ r k.
          weaken-Returns (Shorter r.1) (Shorter bytes) (skip_padding fuel (suc pc) r.1)
            (skip_padding-Returns fuel (suc pc) r.1 (ground (arith, e)))
            (λ rest l. omega (arith, k, l))))
]

padding-Returns :
    (pc : ℕ) (bytes : List ℕ) → Returns (Shorter bytes) (skip_padding padding_fuel pc bytes)
padding-Returns pc bytes = skip_padding-Returns padding_fuel pc bytes (omega arith)

-- A target, and the 4 bytes of its offset.
Target : ℕ → List ℕ → ℕ × List ℕ → Type 0
Target n bytes r = (length r.1 + 4 ≡ length bytes) × (r.0 < n)

next_target-Target : (pc n : ℕ) (bytes : List ℕ) → Returns (Target n bytes) (next_target pc n bytes)
unfolding next_target Target
next_target-Target pc n bytes =
    bind-Returns (Took 4 bytes) (Target n bytes) (reader_next_s32 bytes) _
      (reader_next_s32-Took bytes)
      (λ r h.
        bind-Returns (IsBelow n) (Target n bytes) (checked_pc pc r.0 n) _ (checked_pc-lt pc r.0 n)
          (λ t l. (h, l)))

Targets : ℕ → ℕ → List ℕ → List ℕ × List ℕ → Type 0
Targets count n bytes r = (length r.1 ≤ length bytes) × All (IsBelow n) r.0 × (length r.0 ≡ count)

next_targets-Targets :
    (count pc n : ℕ) (bytes : List ℕ)
    → Returns (Targets count n bytes) (next_targets count pc n bytes)
unfolding next_targets Target Targets
next_targets-Targets zero pc n bytes = (omega arith, tt, refl)
next_targets-Targets (suc count) pc n bytes =
    bind-Returns (Target n bytes) (Targets (suc count) n bytes) (next_target pc n bytes) _
      (next_target-Target pc n bytes)
      (λ r h.
        bind-Returns (Targets count n r.1) (Targets (suc count) n bytes)
          (next_targets count pc n r.1) _ (next_targets-Targets count pc n r.1)
          (λ q k. (omega (arith, h.0, k.0), (h.1, k.1), ap suc k.2)))

Pairs : ℕ → List ℕ → (List ℤ × List ℕ) × List ℕ → Type 0
Pairs n bytes r =
    (length r.1 ≤ length bytes) × All (IsBelow n) r.0.1 × (length r.0.1 ≡ length r.0.0)

next_pairs-Pairs :
    (count pc n : ℕ) (bytes : List ℕ) → Returns (Pairs n bytes) (next_pairs count pc n bytes)
unfolding next_pairs Target Pairs
next_pairs-Pairs zero pc n bytes = (omega arith, tt, refl)
next_pairs-Pairs (suc count) pc n bytes =
    bind-Returns (Took 4 bytes) (Pairs n bytes) (reader_next_s32 bytes) _
      (reader_next_s32-Took bytes)
      (λ p g.
        bind-Returns (Target n p.1) (Pairs n bytes) (next_target pc n p.1) _
          (next_target-Target pc n p.1)
          (λ r h.
            bind-Returns (Pairs n r.1) (Pairs n bytes) (next_pairs count pc n r.1) _
              (next_pairs-Pairs count pc n r.1)
              (λ q k. (omega (arith, g, h.0, k.0), (h.1, k.1), ap suc k.2))))

Any : ℕ → Type 0
Any n = Unit

Admitted : ℤ → ℕ → Type 0
Admitted z count = z ≡ pos count

admit_targets-Admitted : (z : ℤ) → Returns (Admitted z) (admit_targets z)
unfolding admit_targets Admitted
admit_targets-Admitted (pos zero) = tt
admit_targets-Admitted (pos (suc n)) = ground arith
admit_targets-Admitted (negsuc n) = tt

admit_pairs-Returns : (z : ℤ) → Returns Any (admit_pairs z)
unfolding admit_pairs Any
admit_pairs-Returns (pos n) = ground arith
admit_pairs-Returns (negsuc n) = tt

pub parse_tableswitch_insn-Bounded :
    (pc n : ℕ) (bytes : List ℕ) → Returns (Bounded n bytes) (parse_tableswitch_insn pc n bytes)
unfolding parse_tableswitch_insn Shorter Target Targets Admitted
parse_tableswitch_insn-Bounded pc n bytes =
    bind-Returns (Shorter bytes) (Bounded n bytes) (skip_padding padding_fuel (suc pc) bytes) _
      (padding-Returns (suc pc) bytes)
      (λ r0 h0.
        bind-Returns (Target n r0) (Bounded n bytes) (next_target pc n r0) _
          (next_target-Target pc n r0)
          (λ d h1.
            bind-Returns (Took 4 d.1) (Bounded n bytes) (reader_next_s32 d.1) _
              (reader_next_s32-Took d.1)
              (λ low h2.
                bind-Returns (Took 4 low.1) (Bounded n bytes) (reader_next_s32 low.1) _
                  (reader_next_s32-Took low.1)
                  (λ high h3.
                    bind-Returns (Admitted (targets_count low.0 high.0)) (Bounded n bytes)
                      (admit_targets (targets_count low.0 high.0)) _
                      (admit_targets-Admitted (targets_count low.0 high.0))
                      (λ count a.
                        bind-Returns (Targets count n high.1) (Bounded n bytes)
                          (next_targets count pc n high.1) _
                          (next_targets-Targets count pc n high.1)
                          (λ ts h4. (
                            omega (arith, h0, h1.0, h2, h3, h4.0),
                            (h1.1, h4.1, ap pos h4.2 ∙ sym a),
                          )))))))

pub parse_lookupswitch_insn-Bounded :
    (pc n : ℕ) (bytes : List ℕ) → Returns (Bounded n bytes) (parse_lookupswitch_insn pc n bytes)
unfolding parse_lookupswitch_insn Shorter Target Pairs
parse_lookupswitch_insn-Bounded pc n bytes =
    bind-Returns (Shorter bytes) (Bounded n bytes) (skip_padding padding_fuel (suc pc) bytes) _
      (padding-Returns (suc pc) bytes)
      (λ r0 h0.
        bind-Returns (Target n r0) (Bounded n bytes) (next_target pc n r0) _
          (next_target-Target pc n r0)
          (λ d h1.
            bind-Returns (Took 4 d.1) (Bounded n bytes) (reader_next_s32 d.1) _
              (reader_next_s32-Took d.1)
              (λ pairs h2.
                bind-Returns Any (Bounded n bytes) (admit_pairs pairs.0) _
                  (admit_pairs-Returns pairs.0)
                  (λ count _.
                    bind-Returns (Pairs n pairs.1) (Bounded n bytes) (next_pairs count pc n pairs.1)
                      _ (next_pairs-Pairs count pc n pairs.1)
                      (λ ts h4. (omega (arith, h0, h1.0, h2, h4.0), (h1.1, h4.1, h4.2)))))))
