-- ===== src/ClassFile/Code/Loop.antt =====
-- The loop over the instructions of engine/bjvm/vm/classfile.c: its accesses are in bounds, its fuel is
-- enough, and `pc_to_insn` says where an instruction starts.
use tracejvm.Prelude.{
  ℕ, zero, suc, ◌+◌, ◌-◌, ◌≤◌, ◌<◌, ◌≡◌, sym, subst, ◌∙◌, none, some, List, [], ◌∷◌, ◌++◌, lt→ltb,
  length, length-append, length-set, get_elem?-set_self, get_elem?-set_ne, set, get_elem?,
  length-replicate, get_elem?-append, get_elem?-append_end, get_elem?-replicate, All, All-append,
  arith, ℕ_discrete,
}
use tracejvm.ClassFile.{Returns, bind-Returns}
use tracejvm.ClassFile.Pool.{CpEntry}
use tracejvm.ClassFile.Insn.{BytecodeInsn}
use tracejvm.ClassFile.Insn.Bounds.{InBounds}
use tracejvm.ClassFile.Parse.{parse_insn}
use tracejvm.ClassFile.Parse.Bounds.{Parsed, parse_insn-Parsed}
use tracejvm.ClassFile.Code.{PcToInsn, CodeState, add_insn, parse_insns, fresh_code}

-- The instruction at the index starts at the program counter.
abbrev pub Lands : List BytecodeInsn → ℕ → ℕ → Type 0
Lands code pc i = (insn : BytecodeInsn) × (get_elem? code i ≡ some insn) × (insn.original_pc ≡ pc)

abbrev pub IsMap : List BytecodeInsn → PcToInsn → Type 0
IsMap code pc_to_insn = (pc i : ℕ) → get_elem? pc_to_insn pc ≡ some (some i) → Lands code pc i

-- The state of the loop over code of `n` bytes, of which `left` are left.
pub record IsLoop (n left : ℕ) (s : CodeState) : Type 0 where
  pub map_length : length s.pc_to_insn ≡ n
  pub room : length s.code + left ≤ n
  pub targets : All (InBounds n) s.code
  pub starts : IsMap s.code s.pc_to_insn

pub fresh_code-IsLoop : (n : ℕ) → IsLoop n n (fresh_code n)
unfolding fresh_code
fresh_code-IsLoop n = record {
  map_length = length-replicate n none;
  room = omega arith;
  targets = tt;
  starts = λ pc i h. absurd (ground (arith, get_elem?-replicate n pc none h));
}

Lands-append :
    (code : List BytecodeInsn) (x : BytecodeInsn) (pc i : ℕ)
    → Lands code pc i
    → Lands (code ++ x ∷ []) pc i
Lands-append code x pc i (insn, e, p) = (insn, get_elem?-append code (x ∷ []) i e, p)

IsMap-set :
    (code : List BytecodeInsn) (m : PcToInsn) (x : BytecodeInsn)
    → IsMap code m
    → x.original_pc < length m
    → IsMap (code ++ x ∷ []) (set m x.original_pc (some (length code)))
IsMap-set code m x h l pc i e = elim (ℕ_discrete x.original_pc pc) [
  | yes p ↦
      let q : some (some (length code)) ≡ some (some i) =
        sym (
          subst
            (λ k.
              get_elem? (set m x.original_pc (some (length code))) k ≡ some (some (length code)))
            p (get_elem?-set_self m x.original_pc (some (length code)) l))
        ∙ e in
      let j : length code ≡ i = cc q in
      (x, subst (λ k. get_elem? (code ++ x ∷ []) k ≡ some x) j (get_elem?-append_end code [] x), p)
  | no p ↦ Lands-append code x pc i (h pc i (sym (get_elem?-set_ne m (some (length code)) p) ∙ e))
]

add_insn-IsLoop :
    (n left after : ℕ) (x : BytecodeInsn) (s : CodeState)
    → IsLoop n left s
    → after < left
    → x.original_pc < n
    → InBounds n x
    → Returns (IsLoop n after) (add_insn n x.original_pc x s)
unfolding add_insn
add_insn-IsLoop n left after x s v a l b =
    rw
      (
        lt→ltb x.original_pc (length s.pc_to_insn) (omega (arith, v.map_length)),
        lt→ltb (length s.code) n (omega (arith, v.room)),
      )
      (record {
        map_length = length-set s.pc_to_insn x.original_pc (some (length s.code)) ∙ v.map_length;
        room = omega (arith, length-append s.code (x ∷ []), v.room);
        targets = All-append (InBounds n) s.code (x ∷ []) v.targets (b, tt);
        starts = IsMap-set s.code s.pc_to_insn x v.starts (omega (arith, v.map_length));
      })

-- With as much fuel as there are bytes the loop ends, and nothing is written out of bounds.
pub parse_insns-IsLoop :
    (fuel : ℕ) (pool : List CpEntry) (n : ℕ) (bytes : List ℕ) (s : CodeState)
    → length bytes ≤ fuel
    → IsLoop n (length bytes) s
    → Returns (IsLoop n 0) (parse_insns fuel pool n bytes s)
unfolding parse_insns
parse_insns-IsLoop zero pool n [] s h v = v
parse_insns-IsLoop (suc fuel) pool n [] s h v = v
parse_insns-IsLoop zero pool n (b ∷ bs) s h v = absurd (omega arith)
parse_insns-IsLoop (suc fuel) pool n (b ∷ bs) s h v =
    let pc = n - length (b ∷ bs) in
    bind-Returns (Parsed pc n (b ∷ bs)) (IsLoop n 0) (parse_insn pool pc n (b ∷ bs)) _
      (parse_insn-Parsed pool pc n (b ∷ bs))
      (λ r p.
        bind-Returns (IsLoop n (length r.1)) (IsLoop n 0) (add_insn n pc r.0 s) _
          (subst (λ k. Returns (IsLoop n (length r.1)) (add_insn n k r.0 s)) p.2
            (add_insn-IsLoop n (length (b ∷ bs)) (length r.1) r.0 s v p.0
              (omega (arith, p.2, v.room)) p.1))
          (λ s' v'. parse_insns-IsLoop fuel pool n r.1 s' (omega (arith, p.0)) v'))
