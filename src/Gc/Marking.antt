-- ===== src/Gc/Marking.antt =====
-- What the mark phase of engine/bjvm/vm/gc.c marks: the objects that the roots reach.
use tracejvm.Prelude.{
  ℕ, ◌≡◌, refl, sym, subst, ◌⊎◌, inl, inr, Bool, true, false, List, [], ◌∷◌, ◌++◌, Bool-cases,
  arith, ℕ_discrete,
}
use tracejvm.Gc.{
  HeapObject, GcState, in_heap, set_flag, mark_if, mark_each, is_live_field, visited,
  listed_monitor, mark_reachable, mark_next, mark_roots,
}

abbrev pub Member : ℕ → List ℕ → Type 0
Member x [] = ⊥
Member x (y ∷ ys) = (x ≡ y) ⊎ Member x ys

-- Everything that passes the test is marked.
abbrev pub AllMarked : (ℕ → Bool) → (ℕ → Bool) → List ℕ → Type 0
AllMarked live flags [] = Unit
AllMarked live flags (x ∷ xs) = (live x ≡ true → flags x ≡ true) × AllMarked live flags xs

-- What a loop over objects does to the state.
record IsVisit (live : ℕ → Bool) (s t : GcState) (xs : List ℕ) : Type 0 where
  grows : (x : ℕ) → s.flags x ≡ true → t.flags x ≡ true
  marks : AllMarked live t.flags xs
  keeps : (x : ℕ) → Member x s.worklist → Member x t.worklist
  works : (x : ℕ) → Member x t.worklist → Member x s.worklist ⊎ (t.flags x ≡ true)
  gray : (x : ℕ) → t.flags x ≡ true → (s.flags x ≡ true) ⊎ Member x t.worklist
  source : (x : ℕ) → t.flags x ≡ true → (s.flags x ≡ true) ⊎ (Member x xs × (live x ≡ true))
  lists : t.objs ≡ s.objs

-- One object, by whether it is to be marked.
abbrev pub pushed : GcState → ℕ → GcState
pushed s obj = record s { flags = set_flag s.flags obj; worklist = obj ∷ s.worklist }

set_flag_self : (flags : ℕ → Bool) (obj : ℕ) → set_flag flags obj obj ≡ true
set_flag_self flags obj = ground arith

set_flag-grows : (flags : ℕ → Bool) (obj x : ℕ) → flags x ≡ true → set_flag flags obj x ≡ true
set_flag-grows flags obj x h = ground (arith, h)

set_flag-source :
    (flags : ℕ → Bool) (obj x : ℕ) → set_flag flags obj x ≡ true → (flags x ≡ true) ⊎ (x ≡ obj)
set_flag-source flags obj x h = elim (ℕ_discrete x obj) [
  | yes e ↦ inr e
  | no n ↦ inl (ground (arith, h, n))
]

pub marked_if-cases :
    (live : Bool) (s : GcState) (obj : ℕ)
    → ((live ≡ true) × (s.flags obj ≡ false) × (mark_if live s obj ≡ pushed s obj))
      ⊎ ((live ≡ true → s.flags obj ≡ true) × (mark_if live s obj ≡ s))
unfolding mark_if
marked_if-cases true s obj = elim (Bool-cases (s.flags obj)) [
  | inl e ↦ inr (λ _. e, rw e refl)
  | inr e ↦ inl (refl, e, rw e refl)
]
marked_if-cases false s obj = inr (λ e. absurd (ground (arith, e)), refl)

IsVisit-nil : (live : ℕ → Bool) (s : GcState) → IsVisit live s s []
IsVisit-nil live s = record {
  grows = λ x h. h;
  marks = tt;
  keeps = λ x h. h;
  works = λ x h. inl h;
  gray = λ x h. inl h;
  source = λ x h. inl h;
  lists = refl;
}

-- An object that is marked, and the loop behind it.
IsVisit-pushed :
    (live : ℕ → Bool) (s t : GcState) (obj : ℕ) (xs : List ℕ)
    → live obj ≡ true
    → IsVisit live (pushed s obj) t xs
    → IsVisit live s t (obj ∷ xs)
IsVisit-pushed live s t obj xs l v = record {
  grows = λ x h. v.grows x (set_flag-grows s.flags obj x h);
  marks = (λ _. v.grows obj (set_flag_self s.flags obj), v.marks);
  keeps = λ x h. v.keeps x (inr h);
  works = λ x h. elim (v.works x h) [
    | inl (inl e) ↦
        inr (subst (λ y. t.flags y ≡ true) (sym e) (v.grows obj (set_flag_self s.flags obj)))
    | inl (inr m) ↦ inl m
    | inr f ↦ inr f
  ];
  gray = λ x h. elim (v.gray x h) [
    | inl f ↦ elim (set_flag-source s.flags obj x f) [
      | inl g ↦ inl g
      | inr e ↦ inr (v.keeps x (inl e))
    ]
    | inr m ↦ inr m
  ];
  source = λ x h. elim (v.source x h) [
    | inl f ↦ elim (set_flag-source s.flags obj x f) [
      | inl g ↦ inl g
      | inr e ↦ inr (inl e, subst (λ y. live y ≡ true) (sym e) l)
    ]
    | inr (m, k) ↦ inr (inr m, k)
  ];
  lists = v.lists;
}

-- An object that is left alone, and the loop behind it.
IsVisit-skipped :
    (live : ℕ → Bool) (s t : GcState) (obj : ℕ) (xs : List ℕ)
    → (live obj ≡ true → s.flags obj ≡ true)
    → IsVisit live s t xs
    → IsVisit live s t (obj ∷ xs)
IsVisit-skipped live s t obj xs l v = record {
  grows = v.grows;
  marks = (λ k. v.grows obj (l k), v.marks);
  keeps = v.keeps;
  works = v.works;
  gray = v.gray;
  source = λ x h. elim (v.source x h) [ inl f ↦ inl f | inr (m, k) ↦ inr (inr m, k) ];
  lists = v.lists;
}

mark_each-IsVisit :
    (live : ℕ → Bool) (s : GcState) (xs : List ℕ) → IsVisit live s (mark_each live s xs) xs
unfolding mark_each
mark_each-IsVisit live s [] = IsVisit-nil live s
mark_each-IsVisit live s (obj ∷ xs) = elim (marked_if-cases (live obj) s obj) [
  | inl (l, _, e) ↦ rw e (
      IsVisit-pushed live s (mark_each live (pushed s obj) xs) obj xs l
        (mark_each-IsVisit live (pushed s obj) xs))
  | inr (l, e) ↦
      rw e (IsVisit-skipped live s (mark_each live s xs) obj xs l (mark_each-IsVisit live s xs))
]

module _ (vm_heap heap_capacity : ℕ) (heap : ℕ → HeapObject) where
  abbrev pub live : ℕ → Bool
  live = is_live_field vm_heap heap_capacity

  -- What the roots reach through the fields and components that are visited.
  pub data Reachable (roots : List ℕ) : ℕ → Type 0 where
    root : {x : ℕ} → Member x roots → in_heap vm_heap heap_capacity x ≡ true → Reachable roots x
    field :
        {x y : ℕ}
        → Reachable roots x
        → Member y (visited (heap x))
        → is_live_field vm_heap heap_capacity y ≡ true
        → Reachable roots y

  -- The object is listed, and all that it refers to is marked.
  abbrev pub IsDone : GcState → ℕ → Type 0
  IsDone s x = Member x s.objs × AllMarked live s.flags (visited (heap x))

  pub record IsMarking (roots : List ℕ) (s : GcState) : Type 0 where
    pub sound : (x : ℕ) → s.flags x ≡ true → Reachable roots x
    pub work : (x : ℕ) → Member x s.worklist → s.flags x ≡ true
    pub gray : (x : ℕ) → s.flags x ≡ true → Member x s.worklist ⊎ IsDone s x
    pub begun : AllMarked (in_heap vm_heap heap_capacity) s.flags roots

  pub mark_roots-IsMarking :
      (roots : List ℕ) → IsMarking roots (mark_roots vm_heap heap_capacity heap roots)
  unfolding mark_roots
  mark_roots-IsMarking roots =
      let start : GcState = record { flags = λ x. false; worklist = []; objs = [] } in
      let v = mark_each-IsVisit (in_heap vm_heap heap_capacity) start roots in
      record {
        sound = λ x h. elim (v.source x h) [
          | inl f ↦ absurd (ground (arith, f))
          | inr (m, k) ↦ Reachable.root m k
        ];
        work = λ x h. elim (v.works x h) [ inl m ↦ elim m [ ] | inr f ↦ f ];
        gray = λ x h. elim (v.gray x h) [ inl f ↦ absurd (ground (arith, f)) | inr m ↦ inl m ];
        begun = v.marks;
      }

  Member-append : (x : ℕ) (xs ys : List ℕ) → Member x xs → Member x (xs ++ ys)
  Member-append x [] ys m = elim m [ ]
  Member-append x (y ∷ xs) ys (inl e) = inl e
  Member-append x (y ∷ xs) ys (inr m) = inr (Member-append x xs ys m)

  Member-append_end : (x : ℕ) (xs ys : List ℕ) → Member x (xs ++ x ∷ ys)
  Member-append_end x [] ys = inl refl
  Member-append_end x (y ∷ xs) ys = inr (Member-append_end x xs ys)

  AllMarked-grows :
      (test fl fl' : ℕ → Bool) (xs : List ℕ)
      → ((x : ℕ) → fl x ≡ true → fl' x ≡ true)
      → AllMarked test fl xs
      → AllMarked test fl' xs
  AllMarked-grows test fl fl' [] g h = tt
  AllMarked-grows test fl fl' (x ∷ xs) g h =
      (λ l. g x (h.0 l), AllMarked-grows test fl fl' xs g h.1)

  -- The state in which the components of an object are visited.
  abbrev pub popped : GcState → ℕ → List ℕ → GcState
  popped s obj rest = record {
    flags = set_flag s.flags obj;
    worklist = rest;
    objs = s.objs ++ (obj ∷ listed_monitor (heap obj).monitor);
  }

  popped-IsMarking :
      (roots : List ℕ) (s t : GcState) (obj : ℕ) (rest : List ℕ)
      → IsMarking roots s
      → s.worklist ≡ obj ∷ rest
      → IsVisit live (popped s obj rest) t (visited (heap obj))
      → IsMarking roots t
  popped-IsMarking roots s t obj rest m e v =
      let here : s.flags obj ≡ true = m.work obj (subst (Member obj) (sym e) (inl refl)) in
      let before : (x : ℕ) → set_flag s.flags obj x ≡ true → s.flags x ≡ true = λ x h.
        elim (set_flag-source s.flags obj x h) [
          | inl f ↦ f
          | inr q ↦ subst (λ y. s.flags y ≡ true) (sym q) here
        ] in
      let onward : (x : ℕ) → s.flags x ≡ true → t.flags x ≡ true =
        λ x h. v.grows x (set_flag-grows s.flags obj x h) in
      record {
        sound = λ x h. elim (v.source x h) [
          | inl f ↦ m.sound x (before x f)
          | inr (k, l) ↦ Reachable.field (m.sound obj here) k l
        ];
        work = λ x h. elim (v.works x h) [
          | inl k ↦ onward x (m.work x (subst (Member x) (sym e) (inr k)))
          | inr f ↦ f
        ];
        gray = λ x h. elim (v.gray x h) [
          | inr k ↦ inl k
          | inl f ↦ elim (m.gray x (before x f)) [
            | inr (k, a) ↦ inr (
              subst (Member x) (sym v.lists) (Member-append x s.objs _ k),
              AllMarked-grows live s.flags t.flags (visited (heap x)) onward a,
            )
            | inl k ↦ elim (subst (Member x) e k) [
              | inr r ↦ inl (v.keeps x r)
              | inl q ↦ inr (
                  subst (λ y. IsDone t y) (sym q)
                    (subst (Member obj) (sym v.lists) (Member-append_end obj s.objs _), v.marks))
            ]
          ]
        ];
        begun =
            AllMarked-grows (in_heap vm_heap heap_capacity) s.flags t.flags roots onward m.begun;
      }

  pub mark_next-IsMarking :
      (roots : List ℕ) (s : GcState) (obj : ℕ) (rest : List ℕ)
      → IsMarking roots s
      → s.worklist ≡ obj ∷ rest
      → IsMarking roots (mark_next vm_heap heap_capacity heap s obj rest)
  unfolding mark_next mark_reachable
  mark_next-IsMarking roots s obj rest m e =
      popped-IsMarking roots s _ obj rest m e
        (mark_each-IsVisit live (popped s obj rest) (visited (heap obj)))
