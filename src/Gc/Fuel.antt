-- ===== src/Gc/Fuel.antt =====
-- The mark phase of engine/bjvm/vm/gc.c ends: an object is put on the work list when it is marked.
use tracejvm.Prelude.{
  ℕ, zero, suc, ◌+◌, ◌≤◌, ◌<◌, ◌≡◌, refl, sym, ap, subst, inl, inr, ◌↔◌, Bool, true, false, Option,
  some, List, [], ◌∷◌, ◌==◌, if◌then◌else◌, Bool-cases, arith, length,
}
use tracejvm.Gc.{
  HeapObject, GcState, in_heap, set_flag, mark_each, visited, mark_reachable, mark_next, mark_loop,
  mark_roots, mark_phase,
}
use tracejvm.Gc.Marking.{
  Member, AllMarked, pushed, marked_if-cases, live, popped, Reachable, IsDone, IsMarking,
  mark_roots-IsMarking, mark_next-IsMarking,
}

-- How many of the `n` addresses from `x` on are not marked.
unmarked : (ℕ → Bool) → ℕ → ℕ → ℕ
unmarked flags x zero = 0
unmarked flags x (suc n) =
    let behind = unmarked flags (suc x) n in if flags x then behind else suc behind

unmarked_none : (x n : ℕ) → unmarked (λ y. false) x n ≡ n
unfolding unmarked
unmarked_none x zero = refl
unmarked_none x (suc n) = ap suc (unmarked_none (suc x) n)

-- An address in front of those that are counted.
unmarked_below :
    (flags : ℕ → Bool) (obj x n : ℕ)
    → obj < x
    → unmarked (set_flag flags obj) x n ≡ unmarked flags x n
unfolding unmarked
unmarked_below fl obj x zero h = refl
unmarked_below fl obj x (suc n) h = ground (arith, unmarked_below fl obj (suc x) n (omega arith))

unmarked_marked :
    (flags : ℕ → Bool) (obj x n : ℕ)
    → flags obj ≡ false
    → x ≤ obj
    → obj < x + n
    → unmarked flags x n ≡ suc (unmarked (set_flag flags obj) x n)
unfolding unmarked
unmarked_marked fl obj x zero f l h = absurd (omega arith)
unmarked_marked fl obj x (suc n) f l h = elim (Bool-cases (x == obj)) [
  | inl e ↦
      let q : x ≡ obj = ground (arith, e) in
      subst
        (λ y.
          (if fl y then unmarked fl (suc y) n else suc (unmarked fl (suc y) n))
          ≡ suc (unmarked (set_flag fl obj) y (suc n)))
        (sym q) (ground (arith, f, unmarked_below fl obj (suc obj) n (omega arith)))
  | inr e ↦
      ground
        (arith, e, f, unmarked_marked fl obj (suc x) n f (ground (arith, e, l)) (omega (arith, h)))
]

unmarked_le :
    (flags : ℕ → Bool) (obj x n : ℕ) → unmarked (set_flag flags obj) x n ≤ unmarked flags x n
unfolding unmarked
unmarked_le fl obj x zero = omega arith
unmarked_le fl obj x (suc n) = ground (arith, unmarked_le fl obj (suc x) n)

module _ (vm_heap heap_capacity : ℕ) (heap : ℕ → HeapObject) where
  -- The objects to visit, and those that can still be found.
  measure : GcState → ℕ
  measure s = length s.worklist + unmarked s.flags vm_heap heap_capacity

  in_heap-le : (x : ℕ) → in_heap vm_heap heap_capacity x ≡ true → vm_heap ≤ x
  unfolding in_heap
  in_heap-le x h = ground (arith, h)

  in_heap-lt : (x : ℕ) → in_heap vm_heap heap_capacity x ≡ true → x < vm_heap + heap_capacity
  unfolding in_heap
  in_heap-lt x h = ground (arith, h)

  mark_each-measure :
      (test : ℕ → Bool) (s : GcState) (xs : List ℕ)
      → ((x : ℕ) → test x ≡ true → in_heap vm_heap heap_capacity x ≡ true)
      → measure (mark_each test s xs) ≤ measure s
  unfolding mark_each measure
  mark_each-measure test s [] h = omega arith
  mark_each-measure test s (x ∷ xs) h = elim (marked_if-cases (test x) s x) [
    | inl (l, f, e) ↦
        subst (λ q. measure (mark_each test q xs) ≤ measure s) (sym e)
          (omega (
            arith,
            mark_each-measure test (pushed s x) xs h,
            unmarked_marked s.flags x vm_heap heap_capacity f (in_heap-le x (h x l))
                (in_heap-lt x (h x l)),
          ))
    | inr (_, e) ↦
        subst (λ q. measure (mark_each test q xs) ≤ measure s) (sym e)
          (mark_each-measure test s xs h)
  ]

  mark_next-measure :
      (s : GcState) (obj : ℕ) (rest : List ℕ)
      → s.worklist ≡ obj ∷ rest
      → measure (mark_next vm_heap heap_capacity heap s obj rest) < measure s
  unfolding mark_next mark_reachable measure
  mark_next-measure s obj rest e = omega (
    arith,
    ap length e,
    mark_each-measure (live vm_heap heap_capacity heap)
        (popped vm_heap heap_capacity heap s obj rest) (visited (heap obj))
        (λ x h. ground (arith, h)),
    unmarked_le s.flags obj vm_heap heap_capacity,
  )

  loop_step :
      (fuel : ℕ) (s : GcState) (obj : ℕ) (rest : List ℕ)
      → s.worklist ≡ obj ∷ rest
      → mark_loop vm_heap heap_capacity heap (suc fuel) s
        ≡ mark_loop vm_heap heap_capacity heap fuel
            (mark_next vm_heap heap_capacity heap s obj rest)
  unfolding mark_loop
  loop_step fuel s obj rest e = ground (arith, e)

  loop_end :
      (fuel : ℕ) (s : GcState)
      → s.worklist ≡ []
      → mark_loop vm_heap heap_capacity heap fuel s ≡ some s
  unfolding mark_loop
  loop_end zero s e = ground (arith, e)
  loop_end (suc fuel) s e = ground (arith, e)

  -- Enough fuel, and the state in which the loop ends.
  abbrev Ends : List ℕ → Option GcState → Type 0
  Ends roots o =
      (t : GcState) × (o ≡ some t)
      × IsMarking vm_heap heap_capacity heap roots t
      × (t.worklist ≡ [])

  mark_loop-Ends :
      (fuel : ℕ) (roots : List ℕ) (s : GcState) (work : List ℕ)
      → s.worklist ≡ work
      → measure s ≤ fuel
      → IsMarking vm_heap heap_capacity heap roots s
      → Ends roots (mark_loop vm_heap heap_capacity heap fuel s)
  unfolding measure
  mark_loop-Ends fuel roots s [] e h m = (s, loop_end fuel s e, m, e)
  mark_loop-Ends zero roots s (obj ∷ rest) e h m = absurd (omega (arith, ap length e, h))
  mark_loop-Ends (suc fuel) roots s (obj ∷ rest) e h m =
      let next = mark_next vm_heap heap_capacity heap s obj rest in
      subst (Ends roots) (sym (loop_step fuel s obj rest e)) (
        mark_loop-Ends fuel roots next next.worklist refl
          (omega (arith, mark_next-measure s obj rest e))
          (mark_next-IsMarking vm_heap heap_capacity heap roots s obj rest m e))

  mark_roots-measure :
      (roots : List ℕ) → measure (mark_roots vm_heap heap_capacity heap roots) ≤ heap_capacity
  unfolding mark_roots measure
  mark_roots-measure roots = omega (
    arith,
    mark_each-measure (in_heap vm_heap heap_capacity)
        (record { flags = λ x. false; worklist = []; objs = [] }) roots (λ x h. h),
    unmarked_none vm_heap heap_capacity,
  )

  marked-Member :
      (test flags : ℕ → Bool) (x : ℕ) (xs : List ℕ)
      → AllMarked test flags xs
      → Member x xs
      → test x ≡ true
      → flags x ≡ true
  marked-Member test flags x [] h m l = elim m [ ]
  marked-Member test flags x (y ∷ xs) h (inl e) l =
      subst (λ z. flags z ≡ true) (sym e) (h.0 (subst (λ z. test z ≡ true) e l))
  marked-Member test flags x (y ∷ xs) h (inr m) l = marked-Member test flags x xs h.1 m l

  finished :
      (roots : List ℕ) (s : GcState) (x : ℕ)
      → IsMarking vm_heap heap_capacity heap roots s
      → s.worklist ≡ []
      → s.flags x ≡ true
      → IsDone vm_heap heap_capacity heap s x
  finished roots s x m e f = elim (m.gray x f) [
    | inl k ↦ elim (subst (Member x) e k) [ ]
    | inr d ↦ d
  ]

  reached :
      (roots : List ℕ) (s : GcState) (x : ℕ)
      → IsMarking vm_heap heap_capacity heap roots s
      → s.worklist ≡ []
      → Reachable vm_heap heap_capacity heap roots x
      → s.flags x ≡ true
  reached roots s x m e (Reachable.root k h) =
      marked-Member (in_heap vm_heap heap_capacity) s.flags x roots m.begun k h
  reached roots s y m e (Reachable.field {x = x} r k h) =
      marked-Member (live vm_heap heap_capacity heap) s.flags y (visited (heap x))
        (finished roots s x m e (reached roots s x m e r)).1 k h

-- The mark phase ends, whatever the heap and the roots are; then exactly the objects are marked that
-- the roots reach in the heap, through the components of arrays and the fields of instances other than
-- the referent of a `Reference`, and each of them is in the list of what is to be copied.
pub mark_phase-Reachable :
    (vm_heap heap_capacity : ℕ) (heap : ℕ → HeapObject) (roots : List ℕ)
    → (s : GcState) × (mark_phase vm_heap heap_capacity heap roots ≡ some s)
      × ((x : ℕ) → (s.flags x ≡ true) ↔ Reachable vm_heap heap_capacity heap roots x)
      × ((x : ℕ) → Reachable vm_heap heap_capacity heap roots x → Member x s.objs)
unfolding mark_phase
mark_phase-Reachable h c heap roots =
    let begin = mark_roots h c heap roots in
    let (s, ends, m, e) =
      mark_loop-Ends h c heap c roots begin begin.worklist refl (mark_roots-measure h c heap roots)
        (mark_roots-IsMarking h c heap roots) in
    (
      s,
      ends,
      λ x. (m.sound x, reached h c heap roots s x m e),
      λ x r. (finished h c heap roots s x m e (reached h c heap roots s x m e r)).0,
    )
