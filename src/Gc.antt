-- ===== src/Gc.antt =====
-- engine/bjvm/vm/gc.c: the marking of a collection and the copying of what is marked. An object is its
-- address; `heap` tells what stands at an address. The threads are stopped during a collection.
pub mod Marking
pub mod Fuel
pub mod Compaction
pub mod Relocation
use tracejvm.Prelude.{
  ℕ, zero, suc, ◌+◌, ◌-◌, ◌*◌, ◌/◌, ◌%◌, Bool, true, false, not, ◌&&◌, ◌||◌, Option, none, some,
  List, [], ◌∷◌, ◌++◌, ltb, leb, ◌==◌, is_null, if◌then◌else◌, drop, length, get_elem?, get_or,
}

-- `classdesc_kind`, as far as instances have one, with the dimensions of an array of primitives.
pub data DescKind : Type 0 where
  ordinary ordinary_array : DescKind
  primitive_array : (dimensions : ℕ) → DescKind

-- `references` are the reference fields of an instance, the referent of a `Reference` first, or the
-- components of an array; `monitor` is the expanded data of the header.
pub record HeapObject : Type 0 where
  pub kind : DescKind
  pub is_reference : Bool
  pub references : List ℕ
  pub monitor : Option ℕ

-- `gc_ctx` with the flags in the mark words; the top of the work list is its head.
pub record GcState : Type 0 where
  pub flags : ℕ → Bool
  pub worklist : List ℕ
  pub objs : List ℕ

unfoldable pub in_heap : ℕ → ℕ → ℕ → Bool
in_heap heap capacity field = leb heap field && ltb field (heap + capacity)

abbrev pub set_flag : (ℕ → Bool) → ℕ → ℕ → Bool
set_flag flags obj x = if x == obj then true else flags x

-- An object that is not marked yet is marked and put on the work list.
unfoldable pub mark_if : Bool → GcState → ℕ → GcState
mark_if live s obj =
    if live && not (s.flags obj)
    then record s { flags = set_flag s.flags obj; worklist = obj ∷ s.worklist }
    else s

-- The loop over fields, components or roots, with the test of one.
unfoldable pub mark_each : (ℕ → Bool) → GcState → List ℕ → GcState
unfolding mark_if
mark_each live s [] = s
mark_each live s (obj ∷ objs) = mark_each live (mark_if (live obj) s obj) objs

abbrev pub is_live_field : ℕ → ℕ → ℕ → Bool
is_live_field heap capacity field = not (is_null field) && in_heap heap capacity field

-- What is visited: not the referent of a `Reference`, and nothing in an array of numbers.
abbrev pub components : DescKind → List ℕ → List ℕ
components ordinary refs = refs
components ordinary_array refs = refs
components (primitive_array dimensions) refs = if ltb 1 dimensions then refs else []

abbrev pub skip_referent : DescKind → Bool → List ℕ → List ℕ
skip_referent ordinary true refs = drop 1 refs
skip_referent kind is_reference refs = refs

abbrev pub visited : HeapObject → List ℕ
visited o = skip_referent o.kind o.is_reference (components o.kind o.references)

-- A monitor is listed with the low bit of its address set, which is even.
abbrev pub listed_monitor : Option ℕ → List ℕ
listed_monitor none = []
listed_monitor (some monitor) = (monitor + 1) ∷ []

module _ (vm_heap heap_capacity : ℕ) (heap : ℕ → HeapObject) where
  unfoldable pub mark_reachable : GcState → ℕ → GcState
  unfolding mark_each in_heap
  mark_reachable s obj =
      mark_each (is_live_field vm_heap heap_capacity)
        (record s { objs = s.objs ++ (obj ∷ listed_monitor (heap obj).monitor) })
        (visited (heap obj))

  -- One round of the loop over the work list.
  unfoldable pub mark_next : GcState → ℕ → List ℕ → GcState
  unfolding mark_reachable
  mark_next s obj rest =
      mark_reachable (record s { flags = set_flag s.flags obj; worklist = rest }) obj

  -- `none` means that the fuel ran out.
  unfoldable pub mark_loop : ℕ → GcState → Option GcState
  unfolding mark_next
  mark_loop zero s = elim s.worklist [ [] ↦ some s | obj ∷ rest ↦ none ]
  mark_loop (suc fuel) s = elim s.worklist [
    | [] ↦ some s
    | obj ∷ rest ↦ mark_loop fuel (mark_next s obj rest)
  ]

  unfoldable pub mark_roots : List ℕ → GcState
  unfolding mark_each in_heap
  mark_roots roots =
      mark_each (in_heap vm_heap heap_capacity)
        (record { flags = λ x. false; worklist = []; objs = [] }) roots

  -- The mark phase of `major_gc`. No two objects share an address, so there are no more of them than
  -- bytes in the heap.
  unfoldable pub mark_phase : List ℕ → Option GcState
  unfolding mark_roots mark_loop
  mark_phase roots = mark_loop heap_capacity (mark_roots roots)

-- `align_up(n, 8)`, of a number that is far below 2^64.
unfoldable pub align_up_8 : ℕ → ℕ
align_up_8 n = (n + 7) / 8 * 8

-- What is copied: an object or a monitor, with its size.
pub record Block : Type 0 where
  pub address : ℕ
  pub size : ℕ

-- The loop that copies: the new locations, and the pointer behind the last.
unfoldable pub copy_objects : ℕ → List Block → List ℕ × ℕ
unfolding align_up_8
copy_objects write_ptr [] = ([], write_ptr)
copy_objects write_ptr (block ∷ blocks) =
    let new_obj = align_up_8 write_ptr in
    let behind = copy_objects (new_obj + align_up_8 block.size) blocks in
    (new_obj ∷ behind.0, behind.1)

-- What a search gives; `stuck` means that the fuel ran out or an access was out of bounds.
pub data Search : Type 0 where
  found : (i : ℕ) → Search
  absent stuck : Search

-- One round of the search below `above`, which is `high + 1` in the code.
unfoldable pub search_round : ℕ → ℕ → ℕ → Option ℕ → (ℕ → ℕ → Search) → Search
search_round ptr low above none go = stuck
search_round ptr low above (some at_mid) go =
    let mid = (low + (above - 1)) / 2 in
    if at_mid == ptr then found mid else if ltb at_mid ptr then go (mid + 1) above else go low mid

unfoldable pub search_between : ℕ → ℕ → List ℕ → ℕ → ℕ → Search
unfolding search_round
search_between zero ptr ptrs low above = if ltb low above then stuck else absent
search_between (suc fuel) ptr ptrs low above =
    if ltb low above
    then search_round ptr low above (get_elem? ptrs ((low + (above - 1)) / 2))
        (search_between fuel ptr ptrs)
    else absent

-- The range shrinks in each round, so the length is fuel enough.
unfoldable pub binary_search_for_pointer : ℕ → List ℕ → Search
unfolding search_between
binary_search_for_pointer ptr ptrs = search_between (length ptrs) ptr ptrs 0 (length ptrs)

-- A new location is not null and its lowest bit is clear, as the code asserts.
unfoldable pub checked_location : Option ℕ → Option (ℕ × Bool)
checked_location none = none
checked_location (some location) =
    if is_null location || location % 2 == 1 then none else some (location, true)

-- The object that takes the place of one, and whether it could be relocated. A read out of bounds, a
-- search that does not end and a failed assertion are `none`.
unfoldable pub relocated : ℕ → Search → List ℕ → Option (ℕ × Bool)
unfolding checked_location
relocated obj (found i) new_location = checked_location (get_elem? new_location i)
relocated obj absent new_location = some (obj, false)
relocated obj stuck new_location = none

unfoldable pub relocate_object : List ℕ → List ℕ → ℕ → Option (ℕ × Bool)
unfolding binary_search_for_pointer relocated
relocate_object objs new_location obj =
    if is_null obj
    then some (obj, true)
    else relocated obj (binary_search_for_pointer obj objs) new_location
