-- ===== src/Examples/Collections.antt =====
-- The collector of engine/bjvm/vm/gc.c at work.
use tracejvm.Prelude.{
  ℕ, suc, ◌≢◌, ◌≡◌, ◌≤◌, ◌↔◌, refl, true, false, Option, none, some, List, [], ◌∷◌, ◌==◌,
  if◌then◌else◌, arith,
}
use tracejvm.Gc.{
  HeapObject, GcState, ordinary, ordinary_array, Block, mark_phase, align_up_8, copy_objects,
  relocate_object,
}
use tracejvm.Gc.Marking.{Member, Reachable}
use tracejvm.Gc.Fuel.{mark_phase-Reachable}
use tracejvm.Gc.Compaction.{Slides, copy_objects-Slides}
use tracejvm.Gc.Relocation.{IsSorted, Relocates, relocate_object-Relocates}

-- An object that refers to nothing.
abbrev leaf : HeapObject
leaf = record { kind = ordinary; is_reference = false; references = []; monitor = none }

-- The `Reference` at 8 refers to 16, which it does not keep alive, and to the array at 24, which holds
-- null and itself.
abbrev small_heap : ℕ → HeapObject
small_heap x =
    if x == 8
    then record {
      kind = ordinary;
      is_reference = true;
      references = 16 ∷ 24 ∷ [];
      monitor = some 40;
    }
    else if x == 24
    then record {
      kind = ordinary_array;
      is_reference = false;
      references = 0 ∷ 24 ∷ [];
      monitor = none;
    }
    else leaf

abbrev objs_of : Option GcState → List ℕ
objs_of none = []
objs_of (some s) = s.objs

-- The monitor at 40 is listed behind its object, and 16 is not.
marked_objs : objs_of (mark_phase 8 32 small_heap (8 ∷ 100 ∷ 8 ∷ [])) ≡ 8 ∷ 41 ∷ 24 ∷ []
unfolding mark_phase
marked_objs = refl

mark_phase-Reachable_example :
    (s : GcState) × (mark_phase 8 32 small_heap (8 ∷ []) ≡ some s)
    × ((x : ℕ) → (s.flags x ≡ true) ↔ Reachable 8 32 small_heap (8 ∷ []) x)
    × ((x : ℕ) → Reachable 8 32 small_heap (8 ∷ []) x → Member x s.objs)
mark_phase-Reachable_example = mark_phase-Reachable 8 32 small_heap (8 ∷ [])

-- An object of 12 bytes at 16, and one of 8 bytes at 40, in a heap that ends at 64.
abbrev two_blocks : List Block
two_blocks = record { address = 16; size = 12 } ∷ record { address = 40; size = 8 } ∷ []

copied_blocks : copy_objects 8 two_blocks ≡ (8 ∷ 24 ∷ [], 32)
unfolding copy_objects
copied_blocks = refl

heap_end : 48 ≤ align_up_8 64
unfolding align_up_8
heap_end = omega arith

copy_objects-Slides_example :
    Slides two_blocks (copy_objects 8 two_blocks).0
    × ((copy_objects 8 two_blocks).1 ≤ align_up_8 64)
copy_objects-Slides_example =
    copy_objects-Slides 8 64 two_blocks (omega arith, refl, (omega arith, refl, heap_end))

two-IsSorted : IsSorted (16 ∷ 40 ∷ [])
two-IsSorted i j x y l e f = ground (arith, l, e, f)

not_zero : (n : ℕ) → suc n ≢ 0
not_zero n e = absurd (omega (arith, e))

relocate_object-Relocates_example :
    Relocates (16 ∷ 40 ∷ []) (8 ∷ 24 ∷ []) 40 (relocate_object (16 ∷ 40 ∷ []) (8 ∷ 24 ∷ []) 40)
relocate_object-Relocates_example =
    relocate_object-Relocates (16 ∷ 40 ∷ []) (8 ∷ 24 ∷ []) 40 two-IsSorted refl
      ((not_zero 7, refl), ((not_zero 23, refl), tt))
