-- ===== src/ClassFile/Code/Linked.antt =====
-- `parse_code_attribute` of engine/bjvm/vm/classfile.c as a whole.
use tracejvm.Prelude.{
  ℕ, ◌≤◌, ◌≡◌, sym, subst, List, length, length-take, All, arith, Bool-cases, inl, inr, ltb,
}
use tracejvm.ClassFile.{Returns, bind-Returns}
use tracejvm.ClassFile.Reader.{
  Took, reader_next_u16, reader_next_u32, reader_get_slice, reader_next_u16-Took,
  reader_next_u32-Took,
}
use tracejvm.ClassFile.Pool.{CpEntry}
use tracejvm.ClassFile.Insn.Bounds.{InBounds}
use tracejvm.ClassFile.Code.{
  AttributeCode, parse_exceptions, check_code_length, parse_insns, fresh_code,
  convert_pcs_to_insn_indices, parse_instructions, parse_code_attribute,
}
use tracejvm.ClassFile.Code.Loop.{IsLoop, fresh_code-IsLoop, parse_insns-IsLoop}
use tracejvm.ClassFile.Code.Targets.{CodeConverted, convert-CodeConverted}
use tracejvm.ClassFile.Code.Exceptions.{
  AllLinked, parse_exceptions-AllLinked, CodeConverted-InBounds, CodeConverted-length,
  ExceptionInBounds,
}

-- The instructions and the exceptions of code of at most 65535 bytes point at instructions.
abbrev pub IsLinked : AttributeCode × List ℕ → Type 0
IsLinked r =
    (length r.0.code ≤ r.0.max_formal_pc)
    × (r.0.max_formal_pc ≤ 65535)
    × All (InBounds (length r.0.code)) r.0.code
    × All (ExceptionInBounds (length r.0.code) r.0.max_formal_pc) r.0.exception_table

IsLength : ℕ → Type 0
IsLength n = n ≤ 65535

check_code_length-IsLength : (n : ℕ) → Returns IsLength (check_code_length n)
unfolding check_code_length IsLength
check_code_length-IsLength n = ground arith

-- A slice of the length that was asked for.
Sliced : ℕ → List ℕ × List ℕ → Type 0
Sliced n r = length r.0 ≡ n

reader_get_slice-Sliced : (n : ℕ) (bytes : List ℕ) → Returns (Sliced n) (reader_get_slice n bytes)
unfolding reader_get_slice Sliced
reader_get_slice-Sliced n bytes = elim (Bool-cases (ltb (length bytes) n)) [
  | inl e ↦ rw e tt
  | inr e ↦ rw e (ground (arith, e, length-take n bytes))
]

-- The end of the function, from the slice on.
parse_instructions-IsLinked :
    (pool : List CpEntry) (n : ℕ)
    → n ≤ 65535
    → (code_bytes : List ℕ) → length code_bytes ≡ n
    → (rest : List ℕ) (max_stack max_locals : ℕ)
    → Returns IsLinked (parse_instructions pool n max_stack max_locals code_bytes rest)
unfolding parse_instructions
parse_instructions-IsLinked pool n l cs e rest max_stack max_locals =
    bind-Returns (IsLoop n 0) IsLinked (parse_insns n pool n cs (fresh_code n)) _
      (parse_insns-IsLoop n pool n cs (fresh_code n) (omega (arith, e))
        (subst (λ k. IsLoop n k (fresh_code n)) (sym e) (fresh_code-IsLoop n)))
      (λ s v.
        bind-Returns (CodeConverted s.code s.code) IsLinked
          (convert_pcs_to_insn_indices s.pc_to_insn s.code) _
          (convert-CodeConverted s.code s.pc_to_insn v.starts s.code
            (subst (λ k. All (InBounds k) s.code) (sym v.map_length) v.targets))
          (λ code k.
            bind-Returns (Took 2 rest) IsLinked (reader_next_u16 rest) _ (reader_next_u16-Took rest)
              (λ r _.
                bind-Returns (AllLinked pool n s v) IsLinked
                  (parse_exceptions r.0 pool n s.pc_to_insn r.1) _
                  (parse_exceptions-AllLinked pool n s v r.0 r.1)
                  (λ t h.
                    let q : length code ≡ length s.code =
                      CodeConverted-length s.code s.code code k in
                    (
                      omega (arith, q, v.room),
                      l,
                      subst (λ m. All (InBounds m) code) (sym q)
                          (CodeConverted-InBounds s.code n s.code code v.targets k),
                      subst (λ m. All (ExceptionInBounds m n) t.0) (sym q) h,
                    )))))

-- Whatever the bytes are, the loop over the instructions of a code attribute ends, no access to its
-- arrays is out of bounds, and the result is an error or code of at most 65535 bytes in which the
-- targets of every branch, every switch and the start and the handler of every exception are indices
-- of instructions, the end of an exception is one or the length of the code, and a switch has as many
-- targets as its bounds or its keys say.
pub parse_code_attribute-IsLinked :
    (pool : List CpEntry) (bytes : List ℕ) → Returns IsLinked (parse_code_attribute pool bytes)
unfolding parse_code_attribute IsLength Sliced
parse_code_attribute-IsLinked pool bytes =
    bind-Returns (Took 2 bytes) IsLinked (reader_next_u16 bytes) _ (reader_next_u16-Took bytes)
      (λ a _.
        bind-Returns (Took 2 a.1) IsLinked (reader_next_u16 a.1) _ (reader_next_u16-Took a.1)
          (λ b _.
            bind-Returns (Took 4 b.1) IsLinked (reader_next_u32 b.1) _ (reader_next_u32-Took b.1)
              (λ c _.
                bind-Returns IsLength IsLinked (check_code_length c.0) _
                  (check_code_length-IsLength c.0)
                  (λ n l.
                    bind-Returns (Sliced n) IsLinked (reader_get_slice n c.1) _
                      (reader_get_slice-Sliced n c.1)
                      (λ d e. parse_instructions-IsLinked pool n l d.0 e d.1 a.0 b.0)))))
