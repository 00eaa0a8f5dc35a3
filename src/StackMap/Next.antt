-- ===== src/StackMap/Next.antt =====
-- `stack_map_frame_iterator_next` of engine/bjvm/vm/stackmaptable.c, with one function for each kind
-- of frame. Each gives the offset delta and the iterator.
pub mod Validity
pub mod Overflow
use tracejvm.Prelude.{
  ℕ, zero, suc, ◌+◌, ◌-◌, Bool, true, false, ◌&&◌, ◌||◌, not, List, [], ◌∷◌, ltb, leb, ◌==◌,
  if◌then◌else◌, length,
}
use tracejvm.StackMap.Types.{
  ValidationType, is_implicit_top, implicit_top, is_wide_kind, Iterator, Message,
  reserved_frame_kind, chop_frame_underflow, append_frame_locals_overflow,
  full_frame_locals_overflow, full_frame_stack_overflow, stack_map_frame_overflow, Result, ok, err,
  out_of_bounds, ◌>>=◌, store, load,
}
use tracejvm.StackMap.Reader.{read_u8, read_u16, read_verification_type}

abbrev Frame : Type 0
Frame = Result (ℕ × Iterator)

-- `same_frame`: the locals stay, the stack is empty.
unfoldable pub same_frame : ℕ → Iterator → Frame
same_frame frame_kind it = ok (frame_kind, record it { stack_size = 0 })

-- The one stack item of `same_locals_1_stack_item_frame`.
unfoldable pub stack_item : ℕ → Iterator → Frame
unfolding store
stack_item offset_delta it = read_verification_type it.table >>= λ v.
    store it.stack 0 v.0 >>= λ stack.
    ok (offset_delta, record it { table = v.1; stack = stack; stack_size = 1 })

unfoldable pub same_locals_1_stack_item : ℕ → Iterator → Frame
unfolding stack_item
same_locals_1_stack_item frame_kind it =
    if frame_kind == 247
    then (read_u16 it.table >>= λ d. stack_item d.0 (record it { table = d.1 }))
    else stack_item (frame_kind - 64) it

-- One round of the loop of `chop_frame` over the number of locals. A wide local takes two slots. The
-- slot below the last local is read before the number is checked.
unfoldable pub chop_local : List ValidationType → ℕ → Result ℕ
unfolding load
chop_local locals zero = out_of_bounds
chop_local locals (suc n) = load locals n >>= λ last.
    if is_implicit_top last then (if n == 0 then err chop_frame_underflow else ok (n - 1)) else ok n

unfoldable pub chop_locals : ℕ → List ValidationType → ℕ → Result ℕ
unfolding chop_local
chop_locals zero locals size = ok size
chop_locals (suc pops) locals size =
    chop_local locals size >>= λ size'. chop_locals pops locals size'

unfoldable pub chop_frame : ℕ → Iterator → Frame
unfolding chop_locals
chop_frame frame_kind it = chop_locals (251 - frame_kind) it.locals it.locals_size >>= λ size.
    read_u16 it.table >>= λ d.
    ok (d.0, record it { table = d.1; locals_size = size; stack_size = 0 })

unfoldable pub same_frame_extended : Iterator → Frame
same_frame_extended it =
    read_u16 it.table >>= λ d. ok (d.0, record it { table = d.1; stack_size = 0 })

-- The top that follows a double or a long.
unfoldable pub store_top : Bool → Iterator → Result Iterator
unfolding store
store_top false it = ok it
store_top true it = store it.locals it.locals_size implicit_top >>= λ locals.
    ok (record it { locals = locals; locals_size = it.locals_size + 1 })

-- One local of `append_frame` and `full_frame`: the check follows the writes.
unfoldable pub push_local : Message → Iterator → Result Iterator
unfolding store store_top
push_local message it = read_verification_type it.table >>= λ v.
    store it.locals it.locals_size v.0 >>= λ locals.
    store_top (is_wide_kind v.0.kind)
      (record it { table = v.1; locals = locals; locals_size = it.locals_size + 1 })
    >>= λ it'. if ltb it'.max_locals it'.locals_size then err message else ok it'

unfoldable pub push_locals : Message → ℕ → Iterator → Result Iterator
unfolding push_local
push_locals message zero it = ok it
push_locals message (suc n) it = push_local message it >>= λ it'. push_locals message n it'

unfoldable pub append_frame : ℕ → Iterator → Frame
unfolding push_locals
append_frame frame_kind it = read_u16 it.table >>= λ d.
    push_locals append_frame_locals_overflow (frame_kind - 251)
      (record it { table = d.1; stack_size = 0 })
    >>= λ it'. ok (d.0, it')

-- One stack item of `full_frame`.
unfoldable pub push_stack : Iterator → Result Iterator
unfolding store
push_stack it = read_verification_type it.table >>= λ v.
    store it.stack it.stack_size v.0 >>= λ stack.
    if ltb it.max_stack (it.stack_size + 1)
    then err full_frame_stack_overflow
    else ok (record it { table = v.1; stack = stack; stack_size = it.stack_size + 1 })

unfoldable pub push_stacks : ℕ → Iterator → Result Iterator
unfolding push_stack
push_stacks zero it = ok it
push_stacks (suc n) it = push_stack it >>= λ it'. push_stacks n it'

unfoldable pub full_frame : Iterator → Frame
unfolding push_locals push_stacks
full_frame it = read_u16 it.table >>= λ d. read_u16 d.1 >>= λ n.
    push_locals full_frame_locals_overflow n.0
      (record it { table = n.1; locals_size = 0; stack_size = 0 })
    >>= λ it'. read_u16 it'.table >>= λ m.
        push_stacks m.0 (record it' { table = m.1 }) >>= λ it''. ok (d.0, it'')

-- The ladder over `frame_kind`, a byte.
unfoldable pub read_frame : ℕ → Iterator → Frame
unfolding same_frame same_locals_1_stack_item chop_frame same_frame_extended append_frame full_frame
read_frame frame_kind it =
    if leb frame_kind 63
    then same_frame frame_kind it
    else if leb 64 frame_kind && leb frame_kind 127 || frame_kind == 247
    then same_locals_1_stack_item frame_kind it
    else if leb 128 frame_kind && leb frame_kind 246
    then err reserved_frame_kind
    else if leb 248 frame_kind && leb frame_kind 250
    then chop_frame frame_kind it
    else if frame_kind == 251
    then same_frame_extended it
    else if leb 252 frame_kind && leb frame_kind 254
    then append_frame frame_kind it
    else full_frame it

-- The first frame after the implicit one lies `offset_delta` from 0, any other one more behind.
unfoldable pub increment_pc : Iterator → ℕ → Iterator
increment_pc it offset_delta =
    if it.is_first
    then record it { pc = it.pc + offset_delta; is_first = false }
    else record it { pc = it.pc + offset_delta + 1 }

abbrev pub has_bytes : List ℕ → Bool
has_bytes [] = false
has_bytes (b ∷ bs) = true

-- The end of `stack_map_frame_iterator_next`.
unfoldable pub finish_frame : ℕ → Iterator → Result Iterator
unfolding increment_pc
finish_frame offset_delta it =
    if ltb it.max_stack it.stack_size || ltb it.max_locals it.locals_size
    then err stack_map_frame_overflow
    else ok (increment_pc (record it { has_next = has_bytes it.table }) offset_delta)

unfoldable pub stack_map_frame_iterator_next : Iterator → Result Iterator
unfolding read_u8 read_frame finish_frame
stack_map_frame_iterator_next it = read_u8 it.table >>= λ k.
    read_frame k.0 (record it { table = k.1 }) >>= λ f. finish_frame f.0 f.1
