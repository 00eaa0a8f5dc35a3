-- ===== src/StackMap/Next/Validity.antt =====
-- `stack_map_frame_iterator_next` of engine/bjvm/vm/stackmaptable.c: the limits of the method and the
-- program counter.
use tracejvm.Prelude.{
  ℕ, zero, suc, ◌+◌, ◌-◌, ◌≤◌, ◌<◌, ◌≡◌, refl, Bool, true, false, List, [], ◌∷◌, arith, ◌==◌,
  length, Bool-cases, inl, inr, Option, none, some,
}
use tracejvm.StackMap.Types.{
  ValidationKind, ValidationType, implicit_top, is_wide_kind, Iterator, Message, Result, ok, err,
  out_of_bounds, ◌>>=◌, Ensures, bind-Ensures, Ensures-ok, store-Ensures, IsValid,
  append_frame_locals_overflow, full_frame_locals_overflow,
}
use tracejvm.StackMap.Reader.{
  read_u8, read_u16, read_named, named_or_invalid, validation_kind, read_verification_type,
}
use tracejvm.StackMap.Next.{
  same_frame, stack_item, same_locals_1_stack_item, chop_locals, chop_frame, same_frame_extended,
  store_top, push_local, push_locals, append_frame, push_stack, push_stacks, full_frame, read_frame,
  increment_pc, finish_frame, stack_map_frame_iterator_next,
}

-- At most the bytes of before are left.
abbrev NoLonger {ℓ} : {A : Type ℓ} → List ℕ → A × List ℕ → Type 0
NoLonger bs r = length r.1 ≤ length bs

read_u16-NoLonger : (bs : List ℕ) → Ensures (NoLonger bs) (read_u16 bs)
unfolding read_u16
read_u16-NoLonger [] = tt
read_u16-NoLonger (b ∷ []) = tt
read_u16-NoLonger (b ∷ c ∷ bs) = omega arith

read_named-NoLonger :
    (kind : ValidationKind) (bs : List ℕ) → Ensures (NoLonger bs) (read_named kind bs)
unfolding read_named
read_named-NoLonger kind bs = ground (arith, read_u16-NoLonger bs)

read_verification_type-NoLonger : (bs : List ℕ) → Ensures (NoLonger bs) (read_verification_type bs)
unfolding read_verification_type
read_verification_type-NoLonger [] = tt
read_verification_type-NoLonger (b ∷ bs) = go (validation_kind b)
  where
    go : (k : Option ValidationKind) → Ensures (NoLonger (b ∷ bs)) (named_or_invalid k bs)
    go none = tt
    go (some kind) = ground (arith, read_named-NoLonger kind bs)

-- The buffers keep their size, and the limits, the counter and its flag stay.
record Keeps (it it' : Iterator) : Type 0 where
  locals_length : length it'.locals ≡ length it.locals
  stack_length : length it'.stack ≡ length it.stack
  max_locals : it'.max_locals ≡ it.max_locals
  max_stack : it'.max_stack ≡ it.max_stack
  pc : it'.pc ≡ it.pc
  is_first : it'.is_first ≡ it.is_first
  rest : length it'.table ≤ length it.table

Keeps-refl : (it : Iterator) → Keeps it it
Keeps-refl it = ground arith

Keeps-trans : {a b c : Iterator} → Keeps a b → Keeps b c → Keeps a c
Keeps-trans p q = ground arith

abbrev Stored : List ValidationType → List ValidationType → Type 0
Stored b b' = length b' ≡ length b

weaken :
    (it it' : Iterator) (r : Result Iterator)
    → Keeps it it'
    → Ensures (Keeps it') r
    → Ensures (Keeps it) r
weaken it it' (ok a) k h = Keeps-trans k h
weaken it it' (err e) k h = tt
weaken it it' out_of_bounds k h = tt

weaken_frame :
    (it it' : Iterator) (r : Result (ℕ × Iterator))
    → Keeps it it'
    → Ensures (λ f. Keeps it' f.1) r
    → Ensures (λ f. Keeps it f.1) r
weaken_frame it it' (ok a) k h = Keeps-trans k h
weaken_frame it it' (err e) k h = tt
weaken_frame it it' out_of_bounds k h = tt

anything {ℓ} : {A : Type ℓ} (r : Result A) → Ensures (λ a. Unit) r
anything (ok a) = tt
anything (err e) = tt
anything out_of_bounds = tt

store_top-Keeps : (wide : Bool) (it : Iterator) → Ensures (Keeps it) (store_top wide it)
unfolding store_top
store_top-Keeps false it = Keeps-refl it
store_top-Keeps true it =
    bind-Ensures (Stored it.locals) (Keeps it) _ _
      (store-Ensures it.locals it.locals_size implicit_top) λ locals e. ground arith

push_local-Keeps : (message : Message) (it : Iterator) → Ensures (Keeps it) (push_local message it)
unfolding push_local
push_local-Keeps message it =
    bind-Ensures (NoLonger it.table) (Keeps it) _ _ (read_verification_type-NoLonger it.table)
      λ v shorter.
        bind-Ensures (Stored it.locals) (Keeps it) _ _ (store-Ensures it.locals it.locals_size v.0)
          λ locals e.
            let it1 : Iterator = record it {
              table = v.1;
              locals = locals;
              locals_size = it.locals_size + 1;
            } in
            bind-Ensures (Keeps it1) (Keeps it) _ _ (store_top-Keeps (is_wide_kind v.0.kind) it1)
              λ it' k. ground arith

push_locals-Keeps :
    (message : Message) (n : ℕ) (it : Iterator) → Ensures (Keeps it) (push_locals message n it)
unfolding push_locals
push_locals-Keeps message zero it = Keeps-refl it
push_locals-Keeps message (suc n) it =
    bind-Ensures (Keeps it) (Keeps it) _ _ (push_local-Keeps message it)
      λ it' k. weaken it it' (push_locals message n it') k (push_locals-Keeps message n it')

push_stack-Keeps : (it : Iterator) → Ensures (Keeps it) (push_stack it)
unfolding push_stack
push_stack-Keeps it =
    bind-Ensures (NoLonger it.table) (Keeps it) _ _ (read_verification_type-NoLonger it.table)
      λ v shorter.
        bind-Ensures (Stored it.stack) (Keeps it) _ _ (store-Ensures it.stack it.stack_size v.0)
          λ stack e. ground arith

push_stacks-Keeps : (n : ℕ) (it : Iterator) → Ensures (Keeps it) (push_stacks n it)
unfolding push_stacks
push_stacks-Keeps zero it = Keeps-refl it
push_stacks-Keeps (suc n) it =
    bind-Ensures (Keeps it) (Keeps it) _ _ (push_stack-Keeps it)
      λ it' k. weaken it it' (push_stacks n it') k (push_stacks-Keeps n it')

abbrev FrameKeeps : Iterator → ℕ × Iterator → Type 0
FrameKeeps it f = Keeps it f.1

stack_item-Keeps : (d : ℕ) (it : Iterator) → Ensures (FrameKeeps it) (stack_item d it)
unfolding stack_item
stack_item-Keeps d it =
    bind-Ensures (NoLonger it.table) (FrameKeeps it) _ _ (read_verification_type-NoLonger it.table)
      λ v shorter.
        bind-Ensures (Stored it.stack) (FrameKeeps it) _ _ (store-Ensures it.stack 0 v.0)
          λ stack e. ground arith

same_locals_1_stack_item-Keeps :
    (k : ℕ) (it : Iterator) → Ensures (FrameKeeps it) (same_locals_1_stack_item k it)
unfolding same_locals_1_stack_item
same_locals_1_stack_item-Keeps k it = elim (Bool-cases (k == 247)) [
  | inr short ↦ rw short (stack_item-Keeps (k - 64) it)
  | inl long ↦ rw long (
      bind-Ensures (NoLonger it.table) (FrameKeeps it) _ _ (read_u16-NoLonger it.table) λ d shorter.
        weaken_frame it (record it { table = d.1 }) (stack_item d.0 (record it { table = d.1 }))
          (ground arith) (stack_item-Keeps d.0 (record it { table = d.1 })))
]

chop_frame-Keeps : (k : ℕ) (it : Iterator) → Ensures (FrameKeeps it) (chop_frame k it)
unfolding chop_frame
chop_frame-Keeps k it =
    bind-Ensures (λ size. Unit) (FrameKeeps it) _ _
      (anything (chop_locals (251 - k) it.locals it.locals_size))
      λ size h.
        bind-Ensures (NoLonger it.table) (FrameKeeps it) _ _ (read_u16-NoLonger it.table)
          λ d shorter. ground arith

same_frame_extended-Keeps : (it : Iterator) → Ensures (FrameKeeps it) (same_frame_extended it)
unfolding same_frame_extended
same_frame_extended-Keeps it =
    bind-Ensures (NoLonger it.table) (FrameKeeps it) _ _ (read_u16-NoLonger it.table)
      λ d shorter. ground arith

append_frame-Keeps : (k : ℕ) (it : Iterator) → Ensures (FrameKeeps it) (append_frame k it)
unfolding append_frame
append_frame-Keeps k it =
    bind-Ensures (NoLonger it.table) (FrameKeeps it) _ _ (read_u16-NoLonger it.table) λ d shorter.
      let it1 : Iterator = record it { table = d.1; stack_size = 0 } in
      bind-Ensures (Keeps it1) (FrameKeeps it) _ _
        (push_locals-Keeps append_frame_locals_overflow (k - 251) it1) λ it' kept. ground arith

full_frame-Keeps : (it : Iterator) → Ensures (FrameKeeps it) (full_frame it)
unfolding full_frame
full_frame-Keeps it =
    bind-Ensures (NoLonger it.table) (FrameKeeps it) _ _ (read_u16-NoLonger it.table) λ d shorter.
      bind-Ensures (NoLonger d.1) (FrameKeeps it) _ _ (read_u16-NoLonger d.1) λ n shorter'.
        let it1 : Iterator = record it { table = n.1; locals_size = 0; stack_size = 0 } in
        bind-Ensures (Keeps it1) (FrameKeeps it) _ _
          (push_locals-Keeps full_frame_locals_overflow n.0 it1)
          λ it' kept.
            bind-Ensures (NoLonger it'.table) (FrameKeeps it) _ _ (read_u16-NoLonger it'.table)
              λ m shorter''.
                let it2 : Iterator = record it' { table = m.1 } in
                bind-Ensures (Keeps it2) (FrameKeeps it) _ _ (push_stacks-Keeps m.0 it2)
                  λ it'' kept'. ground arith

read_frame-Keeps : (k : ℕ) (it : Iterator) → Ensures (FrameKeeps it) (read_frame k it)
unfolding read_frame same_frame
read_frame-Keeps k it = ground (
  arith,
  same_locals_1_stack_item-Keeps k it,
  chop_frame-Keeps k it,
  same_frame_extended-Keeps it,
  append_frame-Keeps k it,
  full_frame-Keeps it,
)

-- After a frame: the iterator is within its limits, nearer to the end, and at a later counter.
pub record Advanced (it it' : Iterator) : Type 0 where
  valid : IsValid it'
  max_locals : it'.max_locals ≡ it.max_locals
  max_stack : it'.max_stack ≡ it.max_stack
  rest : length it'.table < length it.table
  later : (it.is_first ≡ true → it.pc ≤ it'.pc) × (it.is_first ≡ false → it.pc < it'.pc)
  counted : it'.is_first ≡ false

finish_frame-Advanced :
    (d b : ℕ) (bs : List ℕ) (it f : Iterator)
    → IsValid it
    → it.table ≡ b ∷ bs
    → Keeps (record it { table = bs }) f
    → Ensures (Advanced it) (finish_frame d f)
unfolding finish_frame increment_pc
finish_frame-Advanced d b bs it f v e k = ground arith

next-Ensures :
    (it : Iterator) → IsValid it → Ensures (Advanced it) (stack_map_frame_iterator_next it)
unfolding stack_map_frame_iterator_next
next-Ensures it v = start it.table refl
  where
    start :
        (bs : List ℕ)
        → it.table ≡ bs
        → Ensures (Advanced it) (
            read_u8 bs >>= λ k.
            read_frame k.0 (record it { table = k.1 }) >>= λ f. finish_frame f.0 f.1)
    start [] e = tt
    start (b ∷ bs) e =
        bind-Ensures (FrameKeeps (record it { table = bs })) (Advanced it) _ _
          (read_frame-Keeps b (record it { table = bs }))
          λ f k. finish_frame-Advanced f.0 b bs it f.1 v e k

-- A frame that is read leaves a valid iterator valid: locals and stack fit the method, and the
-- buffers keep their size. Less of the table is left, and the counter grows, but for a first frame at
-- offset 0.
pub stack_map_frame_iterator_next-Advanced :
    (it it' : Iterator) → IsValid it → stack_map_frame_iterator_next it ≡ ok it' → Advanced it it'
stack_map_frame_iterator_next-Advanced it it' v e = Ensures-ok (Advanced it) _ (next-Ensures it v) e
