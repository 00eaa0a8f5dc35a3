-- ===== src/ClassFile/Parse/Bounds.antt =====
-- What `parse_insn` of engine/bjvm/vm/classfile.c reads: a byte at least, and no target out of bounds.
use tracejvm.Prelude.{ℕ, ◌≤◌, ◌<◌, ◌≡◌, refl, true, List, length, arith}
use tracejvm.Descriptor.{TypeKind}
use tracejvm.ClassFile.{Result, ok, ◌>>=◌, Returns, bind-Returns, weaken-Returns}
use tracejvm.ClassFile.Kinds.{is_branch, insn_iconst, insn_iinc}
use tracejvm.ClassFile.Reader.{
  Took, reader_next_u8, reader_next_u16, reader_next_s8, reader_next_s16, reader_next_s32,
  reader_next_u8-Took, reader_next_u16-Took, reader_next_s8-Took, reader_next_s16-Took,
  reader_next_s32-Took,
}
use tracejvm.ClassFile.Pool.{CpEntry, ldc_kinds, ldc2_kinds}
use tracejvm.ClassFile.Insn.{iinc_operand, integer_imm, cp, index, BytecodeInsn, parse_atype}
use tracejvm.ClassFile.Insn.Bounds.{
  InBounds, Bounded, parse_tableswitch_insn-Bounded, parse_lookupswitch_insn-Bounded,
}
use tracejvm.ClassFile.Format.{
  Format, bare, fixed, local_u8, branch_s16, branch_s32, pool_entry, push_s8, push_s16, ldc_u8,
  ldc_u16, ldc2_u16, increment, table_switch, lookup_switch, interface_call, dynamic_call,
  new_array, widened, new_multi_array,
}
use tracejvm.ClassFile.Opcodes.{format_of}
use tracejvm.ClassFile.Parse.{insn, ldc_insn, ldc2_insn, read_operands, parse_insn_impl, parse_insn}
use tracejvm.ClassFile.Parse.Operands.{
  fits, Fits, format_of-Fits, ldc_insn-InBounds, ldc2_insn-InBounds, not_branch, fixed-InBounds,
  plain-Bounded, branch-Bounded, named-Bounded, behind-Bounded, read_wide-Bounded,
  read_interface_call-Bounded, read_dynamic_call-Bounded, read_multianewarray-Bounded,
}

Typed : TypeKind → Type 0
Typed k = Unit

parse_atype-Typed : (atype : ℕ) → Returns Typed (parse_atype atype)
unfolding parse_atype Typed
parse_atype-Typed atype = ground arith

plain_behind :
    {A : Type 0} (n k : ℕ) (bytes rest : List ℕ) (m : Result (A × List ℕ)) (f : A → BytecodeInsn)
    → length rest ≤ length bytes
    → Returns (Took k rest) m
    → ((a : A) → InBounds n (f a))
    → Returns (Bounded n bytes) (m >>= λ r. ok (f r.0, r.1))
plain_behind n k bytes rest m f l h g =
    behind-Bounded n bytes rest _ l (plain-Bounded n k rest m f h g)

read_operands-Bounded :
    (f : Format) (pool : List CpEntry) (pc n : ℕ) (bytes : List ℕ)
    → fits f ≡ true
    → Returns (Bounded n bytes) (read_operands f pool pc n bytes)
unfolding read_operands
read_operands-Bounded (bare kind) pool pc n bytes h = (omega arith, tt)
read_operands-Bounded (fixed kind o) pool pc n bytes h = (omega arith, fixed-InBounds n kind o h)
read_operands-Bounded (local_u8 kind) pool pc n bytes h =
    plain-Bounded n 1 bytes (reader_next_u8 bytes) (λ i. insn kind (index i))
      (reader_next_u8-Took bytes) (λ i. not_branch n i (is_branch kind) h)
read_operands-Bounded (branch_s16 kind) pool pc n bytes h =
    branch-Bounded kind pc n 2 bytes (reader_next_s16 bytes) (reader_next_s16-Took bytes)
read_operands-Bounded (branch_s32 kind) pool pc n bytes h =
    branch-Bounded kind pc n 4 bytes (reader_next_s32 bytes) (reader_next_s32-Took bytes)
read_operands-Bounded (pool_entry kind kinds) pool pc n bytes h =
    named-Bounded n 2 bytes pool kinds (λ i _. insn kind (cp i)) (reader_next_u16 bytes)
      (reader_next_u16-Took bytes) (λ i e. tt)
read_operands-Bounded push_s8 pool pc n bytes h =
    plain-Bounded n 1 bytes (reader_next_s8 bytes) (λ z. insn insn_iconst (integer_imm z))
      (reader_next_s8-Took bytes) (λ z. tt)
read_operands-Bounded push_s16 pool pc n bytes h =
    plain-Bounded n 2 bytes (reader_next_s16 bytes) (λ z. insn insn_iconst (integer_imm z))
      (reader_next_s16-Took bytes) (λ z. tt)
read_operands-Bounded ldc_u8 pool pc n bytes h =
    named-Bounded n 1 bytes pool ldc_kinds ldc_insn (reader_next_u8 bytes)
      (reader_next_u8-Took bytes) (ldc_insn-InBounds n)
read_operands-Bounded ldc_u16 pool pc n bytes h =
    named-Bounded n 2 bytes pool ldc_kinds ldc_insn (reader_next_u16 bytes)
      (reader_next_u16-Took bytes) (ldc_insn-InBounds n)
read_operands-Bounded ldc2_u16 pool pc n bytes h =
    named-Bounded n 2 bytes pool ldc2_kinds ldc2_insn (reader_next_u16 bytes)
      (reader_next_u16-Took bytes) (ldc2_insn-InBounds n)
read_operands-Bounded increment pool pc n bytes h =
    bind-Returns (Took 1 bytes) (Bounded n bytes) (reader_next_u8 bytes) _
      (reader_next_u8-Took bytes)
      (λ r e.
        plain_behind n 1 bytes r.1 (reader_next_s8 r.1) (λ z. insn insn_iinc (iinc_operand r.0 z))
          (omega (arith, e)) (reader_next_s8-Took r.1) (λ z. tt))
read_operands-Bounded table_switch pool pc n bytes h = parse_tableswitch_insn-Bounded pc n bytes
read_operands-Bounded lookup_switch pool pc n bytes h = parse_lookupswitch_insn-Bounded pc n bytes
read_operands-Bounded interface_call pool pc n bytes h = read_interface_call-Bounded n pool bytes
read_operands-Bounded dynamic_call pool pc n bytes h = read_dynamic_call-Bounded n pool bytes
read_operands-Bounded new_array pool pc n bytes h =
    bind-Returns (Took 1 bytes) (Bounded n bytes) (reader_next_u8 bytes) _
      (reader_next_u8-Took bytes)
      (λ r e.
        bind-Returns Typed (Bounded n bytes) (parse_atype r.0) _ (parse_atype-Typed r.0)
          (λ _ _. (omega (arith, e), tt)))
read_operands-Bounded widened pool pc n bytes h = read_wide-Bounded n bytes
read_operands-Bounded new_multi_array pool pc n bytes h = read_multianewarray-Bounded n pool bytes

Advanced : ℕ → List ℕ → BytecodeInsn × List ℕ → Type 0
Advanced n bytes r = (length r.1 < length bytes) × InBounds n r.0

parse_insn_impl-Advanced :
    (pool : List CpEntry) (pc n : ℕ) (bytes : List ℕ)
    → Returns (Advanced n bytes) (parse_insn_impl pool pc n bytes)
unfolding parse_insn_impl Advanced
parse_insn_impl-Advanced pool pc n bytes =
    bind-Returns (Took 1 bytes) (Advanced n bytes) (reader_next_u8 bytes) _
      (reader_next_u8-Took bytes)
      (λ r e. bind-Returns Fits (Advanced n bytes) (format_of r.0) _ (format_of-Fits r.0) (λ f h.
        weaken-Returns (Bounded n r.1) (Advanced n bytes) (read_operands f pool pc n r.1)
          (read_operands-Bounded f pool pc n r.1 h) (λ q b. (omega (arith, e, b.0), b.1))))

-- An instruction takes a byte at least, and its targets are below the length of the code.
abbrev pub Parsed : ℕ → ℕ → List ℕ → BytecodeInsn × List ℕ → Type 0
Parsed pc n bytes r = (length r.1 < length bytes) × InBounds n r.0 × (r.0.original_pc ≡ pc)

pub parse_insn-Parsed :
    (pool : List CpEntry) (pc n : ℕ) (bytes : List ℕ)
    → Returns (Parsed pc n bytes) (parse_insn pool pc n bytes)
unfolding parse_insn Advanced
parse_insn-Parsed pool pc n bytes =
    bind-Returns (Advanced n bytes) (Parsed pc n bytes) (parse_insn_impl pool pc n bytes) _
      (parse_insn_impl-Advanced pool pc n bytes) (λ r h. (h.0, h.1, refl))
