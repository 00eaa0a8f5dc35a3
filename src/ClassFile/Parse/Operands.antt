-- ===== src/ClassFile/Parse/Operands.antt =====
-- The operands that `parse_insn` of engine/bjvm/vm/classfile.c reads take no byte too many, and none of their
-- targets is out of bounds.
use tracejvm.Prelude.{
  ℕ, zero, suc, ◌+◌, ◌≤◌, ◌<◌, ◌≡◌, refl, Bool, true, false, not, ◌&&◌, Option, none, some, List,
  [], ◌∷◌, length, arith, ◌==◌, Bool-cases, inl, inr, get_elem?, ℤ,
}
use tracejvm.ClassFile.{
  Result, ok, err, invalid_opcode, ◌>>=◌, Returns, bind-Returns, weaken-Returns,
}
use tracejvm.ClassFile.Kinds.{InsnKind, is_branch}
use tracejvm.ClassFile.Reader.{
  Took, reader_next_u8, reader_next_u16, reader_next_s16, reader_next_u8-Took, reader_next_u16-Took,
  reader_next_s16-Took,
}
use tracejvm.ClassFile.Pool.{
  CpEntry, cp_integer, cp_float, cp_long, cp_double, check_cp_entry, checked_cp_entry,
  interface_method_ref_kind, invoke_dynamic_kind, class_kind,
}
use tracejvm.ClassFile.Insn.{
  Operand, index, tableswitch_operand, lookupswitch_operand, BytecodeInsn, checked_pc,
}
use tracejvm.ClassFile.Insn.Bounds.{IsBelow, InBounds, Bounded, checked_pc-lt}
use tracejvm.ClassFile.Format.{Format, fixed, local_u8}
use tracejvm.ClassFile.Opcodes.{format_of, wide_kind, opcodes}
use tracejvm.ClassFile.Parse.{
  insn, ldc_insn, ldc2_insn, read_wide_local, read_wide_iinc, read_wide, read_interface_call,
  read_dynamic_call, read_multianewarray,
}

-- An index that is no offset belongs to no branch.
abbrev pub fits : Format → Bool
fits (fixed kind (index i)) = not (is_branch kind)
fits (fixed kind (tableswitch_operand d)) = false
fits (fixed kind (lookupswitch_operand d)) = false
fits (local_u8 kind) = not (is_branch kind)
fits _ = true

abbrev all_fit : List Format → Bool
all_fit [] = true
all_fit (f ∷ fs) = fits f && all_fit fs

all_fit-opcodes : all_fit opcodes ≡ true
unfolding opcodes
all_fit-opcodes = refl

abbrev pub Fits : Format → Type 0
Fits f = fits f ≡ true

all_fit-format :
    (fs : List Format) (i : ℕ)
    → all_fit fs ≡ true
    → Returns Fits (elim (get_elem? fs i) [ none ↦ err invalid_opcode | some format ↦ ok format ])
all_fit-format [] i h = tt
all_fit-format (f ∷ fs) zero h = ground (arith, h)
all_fit-format (f ∷ fs) (suc i) h = all_fit-format fs i (ground (arith, h))

pub format_of-Fits : (opcode : ℕ) → Returns Fits (format_of opcode)
unfolding format_of
format_of-Fits opcode = all_fit-format opcodes opcode all_fit-opcodes

pub Known : CpEntry → Type 0
Known e = Unit

pub checked_cp_entry-Known :
    (pool : List CpEntry) (i kinds : ℕ) → Returns Known (checked_cp_entry pool i kinds)
unfolding checked_cp_entry check_cp_entry Known
checked_cp_entry-Known pool i kinds = ground arith

-- An entry that is read behind `k` bytes, and what is made of it.
entry-Bounded :
    (n k : ℕ) (bytes rest : List ℕ) (pool : List CpEntry) (i kinds : ℕ) (f : CpEntry → BytecodeInsn)
    → length rest + k ≡ length bytes
    → ((e : CpEntry) → InBounds n (f e))
    → Returns (Bounded n bytes) (checked_cp_entry pool i kinds >>= λ e. ok (f e, rest))
entry-Bounded n k bytes rest pool i kinds f h g =
    bind-Returns Known (Bounded n bytes) (checked_cp_entry pool i kinds) _
      (checked_cp_entry-Known pool i kinds) (λ e _. (omega (arith, h), g e))

pub ldc_insn-InBounds : (n i : ℕ) (e : CpEntry) → InBounds n (ldc_insn i e)
ldc_insn-InBounds n i (cp_integer z) = tt
ldc_insn-InBounds n i (cp_float v) = tt
ldc_insn-InBounds n i _ = tt

pub ldc2_insn-InBounds : (n i : ℕ) (e : CpEntry) → InBounds n (ldc2_insn i e)
ldc2_insn-InBounds n i (cp_double v) = tt
ldc2_insn-InBounds n i (cp_long z) = tt
ldc2_insn-InBounds n i _ = tt

pub not_branch : (n t : ℕ) (b : Bool) → not b ≡ true → b ≡ true → t < n
not_branch n t b h e = absurd (ground (arith, h, e))

pub fixed-InBounds :
    (n : ℕ) (kind : InsnKind) (o : Operand) → fits (fixed kind o) ≡ true → InBounds n (insn kind o)
fixed-InBounds n kind (index t) h = not_branch n t (is_branch kind) h
fixed-InBounds n kind (tableswitch_operand d) h = absurd (ground (arith, h))
fixed-InBounds n kind (lookupswitch_operand d) h = absurd (ground (arith, h))
fixed-InBounds n kind _ h = tt

wide_kind-Fits :
    (opcode : ℕ) {kind : InsnKind} → wide_kind opcode ≡ some kind → not (is_branch kind) ≡ true
unfolding wide_kind
wide_kind-Fits opcode h = ground (arith, h)

-- An instruction without a target, of which the operands took `k` bytes.
pub plain-Bounded :
    {A : Type 0} (n k : ℕ) (bytes : List ℕ) (m : Result (A × List ℕ)) (f : A → BytecodeInsn)
    → Returns (Took k bytes) m
    → ((a : A) → InBounds n (f a))
    → Returns (Bounded n bytes) (m >>= λ r. ok (f r.0, r.1))
plain-Bounded n k bytes m f h g =
    bind-Returns (Took k bytes) (Bounded n bytes) m _ h (λ r e. (omega (arith, e), g r.0))

-- A branch, of which the offset took `k` bytes.
pub branch-Bounded :
    (kind : InsnKind) (pc n k : ℕ) (bytes : List ℕ) (m : Result (ℤ × List ℕ))
    → Returns (Took k bytes) m
    → Returns
        (Bounded n bytes)
        (m >>= λ r. checked_pc pc r.0 n >>= λ target. ok (insn kind (index target), r.1))
branch-Bounded kind pc n k bytes m h = bind-Returns (Took k bytes) (Bounded n bytes) m _ h (λ r e.
    bind-Returns (IsBelow n) (Bounded n bytes) (checked_pc pc r.0 n) _ (checked_pc-lt pc r.0 n)
      (λ t l. (omega (arith, e), λ _. l)))

-- An instruction that names an entry of the pool behind `k` bytes.
pub named-Bounded :
    (n k : ℕ) (bytes : List ℕ) (pool : List CpEntry) (kinds : ℕ) (f : ℕ → CpEntry → BytecodeInsn)
    (m : Result (ℕ × List ℕ))
    → Returns (Took k bytes) m
    → ((i : ℕ) (e : CpEntry) → InBounds n (f i e))
    → Returns
        (Bounded n bytes)
        (m >>= λ r. checked_cp_entry pool r.0 kinds >>= λ e. ok (f r.0 e, r.1))
named-Bounded n k bytes pool kinds f m h g =
    bind-Returns (Took k bytes) (Bounded n bytes) m _ h
      (λ r e. entry-Bounded n k bytes r.1 pool r.0 kinds (f r.0) e (g r.0))

-- The reader has not gone back from `bytes` to the argument, in front of a parser.
pub behind-Bounded :
    (n : ℕ) (bytes rest : List ℕ) (m : Result (BytecodeInsn × List ℕ))
    → length rest ≤ length bytes
    → Returns (Bounded n rest) m
    → Returns (Bounded n bytes) m
behind-Bounded n bytes rest m h k =
    weaken-Returns (Bounded n rest) (Bounded n bytes) m k (λ r b. (omega (arith, h, b.0), b.1))

read_wide_local-Bounded :
    (n : ℕ) (bytes : List ℕ) (o : Option InsnKind)
    → ((kind : InsnKind) → o ≡ some kind → not (is_branch kind) ≡ true)
    → Returns (Bounded n bytes) (read_wide_local o bytes)
read_wide_local-Bounded n bytes none h = tt
read_wide_local-Bounded n bytes (some kind) h =
    plain-Bounded n 2 bytes (reader_next_u16 bytes) (λ i. insn kind (index i))
      (reader_next_u16-Took bytes) (λ i. not_branch n i (is_branch kind) (h kind refl))

read_wide_iinc-Bounded : (n : ℕ) (bytes : List ℕ) → Returns (Bounded n bytes) (read_wide_iinc bytes)
unfolding read_wide_iinc
read_wide_iinc-Bounded n bytes =
    bind-Returns (Took 2 bytes) (Bounded n bytes) (reader_next_u16 bytes) _
      (reader_next_u16-Took bytes)
      (λ r e.
        bind-Returns (Took 2 r.1) (Bounded n bytes) (reader_next_s16 r.1) _
          (reader_next_s16-Took r.1) (λ q d. (omega (arith, e, d), tt)))

pub read_wide-Bounded : (n : ℕ) (bytes : List ℕ) → Returns (Bounded n bytes) (read_wide bytes)
unfolding read_wide
read_wide-Bounded n bytes =
    bind-Returns (Took 1 bytes) (Bounded n bytes) (reader_next_u8 bytes) _
      (reader_next_u8-Took bytes)
      (λ r e. behind-Bounded n bytes r.1 _ (omega (arith, e)) (elim (Bool-cases (r.0 == 0x84)) [
        | inl t ↦ rw t (read_wide_iinc-Bounded n r.1)
        | inr t ↦
            rw t (read_wide_local-Bounded n r.1 (wide_kind r.0) (λ kind h. wide_kind-Fits r.0 h))
      ]))

pub read_interface_call-Bounded :
    (n : ℕ) (pool : List CpEntry) (bytes : List ℕ)
    → Returns (Bounded n bytes) (read_interface_call pool bytes)
unfolding read_interface_call
read_interface_call-Bounded n pool bytes =
    bind-Returns (Took 2 bytes) (Bounded n bytes) (reader_next_u16 bytes) _
      (reader_next_u16-Took bytes)
      (λ r e.
        bind-Returns Known (Bounded n bytes) (checked_cp_entry pool r.0 interface_method_ref_kind) _
          (checked_cp_entry-Known pool r.0 interface_method_ref_kind)
          (λ _ _.
            bind-Returns (Took 1 r.1) (Bounded n bytes) (reader_next_u8 r.1) _
              (reader_next_u8-Took r.1)
              (λ q d.
                bind-Returns (Took 1 q.1) (Bounded n bytes) (reader_next_u8 q.1) _
                  (reader_next_u8-Took q.1) (λ z c. (omega (arith, e, d, c), tt)))))

pub read_dynamic_call-Bounded :
    (n : ℕ) (pool : List CpEntry) (bytes : List ℕ)
    → Returns (Bounded n bytes) (read_dynamic_call pool bytes)
unfolding read_dynamic_call
read_dynamic_call-Bounded n pool bytes =
    bind-Returns (Took 2 bytes) (Bounded n bytes) (reader_next_u16 bytes) _
      (reader_next_u16-Took bytes)
      (λ r e.
        bind-Returns Known (Bounded n bytes) (checked_cp_entry pool r.0 invoke_dynamic_kind) _
          (checked_cp_entry-Known pool r.0 invoke_dynamic_kind)
          (λ _ _.
            bind-Returns (Took 2 r.1) (Bounded n bytes) (reader_next_u16 r.1) _
              (reader_next_u16-Took r.1) (λ z c. (omega (arith, e, c), tt))))

pub read_multianewarray-Bounded :
    (n : ℕ) (pool : List CpEntry) (bytes : List ℕ)
    → Returns (Bounded n bytes) (read_multianewarray pool bytes)
unfolding read_multianewarray
read_multianewarray-Bounded n pool bytes =
    bind-Returns (Took 2 bytes) (Bounded n bytes) (reader_next_u16 bytes) _
      (reader_next_u16-Took bytes)
      (λ r e.
        bind-Returns (Took 1 r.1) (Bounded n bytes) (reader_next_u8 r.1) _ (reader_next_u8-Took r.1)
          (λ q d.
            bind-Returns Known (Bounded n bytes) (checked_cp_entry pool r.0 class_kind) _
              (checked_cp_entry-Known pool r.0 class_kind) (λ _ _. (omega (arith, e, d), tt))))
