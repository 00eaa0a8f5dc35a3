-- ===== src/Gc/Relocation.antt =====
-- The search of engine/bjvm/vm/gc.c among the pointers that are sorted by address, and the relocation of
-- a reference by it.
use tracejvm.Prelude.{
  ℕ, zero, suc, ◌+◌, ◌-◌, ◌/◌, ◌≤◌, ◌<◌, ◌≡◌, ◌≢◌, refl, sym, ap, subst, ◌∙◌, ◌⊎◌, inl, inr, Bool,
  true, false, Option, some, List, [], ◌∷◌, All, ◌%◌, length, get_elem?, get_elem?-some,
  get_elem?-lt, ltb, ltb→lt, ◌==◌, Bool-cases, arith,
}
use tracejvm.Gc.{
  Search, found, absent, stuck, search_round, search_between, binary_search_for_pointer,
  checked_location, relocated, relocate_object,
}

-- Sorted by address, and no address twice.
abbrev pub IsSorted : List ℕ → Type 0
IsSorted ptrs =
    (i j x y : ℕ) → i < j → get_elem? ptrs i ≡ some x → get_elem? ptrs j ≡ some y → x < y

-- What is searched is not outside of the range.
abbrev IsInside : ℕ → List ℕ → ℕ → ℕ → Type 0
IsInside ptr ptrs low above = (i : ℕ) → get_elem? ptrs i ≡ some ptr → (low ≤ i) × (i < above)

-- The answer is right.
abbrev pub Answers : ℕ → List ℕ → Search → Type 0
Answers ptr ptrs (found i) = get_elem? ptrs i ≡ some ptr
Answers ptr ptrs absent = (i : ℕ) → get_elem? ptrs i ≢ some ptr
Answers ptr ptrs stuck = ⊥

ge→ltb : (a b : ℕ) → b ≤ a → ltb a b ≡ false
ge→ltb a b h = ground arith

module _ (ptr : ℕ) (ptrs : List ℕ) (sorted : IsSorted ptrs) where
  above_mid :
      (low above mid at_mid : ℕ)
      → IsInside ptr ptrs low above
      → get_elem? ptrs mid ≡ some at_mid
      → at_mid < ptr
      → IsInside ptr ptrs (mid + 1) above
  above_mid low above mid x h e l i f = elim (Bool-cases (ltb mid i)) [
    | inl t ↦ (ground (arith, t), (h i f).1)
    | inr t ↦ absurd (not_before i mid x t f e l)
  ]
    where
      not_before :
          (i mid x : ℕ)
          → ltb mid i ≡ false
          → get_elem? ptrs i ≡ some ptr
          → get_elem? ptrs mid ≡ some x
          → x < ptr
          → ⊥
      not_before i mid x t f e l = elim (Bool-cases (i == mid)) [
        | inl q ↦
            let same : i ≡ mid = ground (arith, q) in
            let both : some ptr ≡ some x =
              sym f ∙ subst (λ k. get_elem? ptrs k ≡ some x) (sym same) e in
            let p : ptr ≡ x = cc in absurd (omega (arith, p, l))
        | inr q ↦ absurd (omega (arith, sorted i mid ptr x (ground (arith, q, t)) f e, l))
      ]

  below_mid :
      (low above mid at_mid : ℕ)
      → IsInside ptr ptrs low above
      → get_elem? ptrs mid ≡ some at_mid
      → ptr < at_mid
      → IsInside ptr ptrs low mid
  below_mid low above mid x h e l i f = elim (Bool-cases (ltb i mid)) [
    | inl t ↦ ((h i f).0, ground (arith, t))
    | inr t ↦ absurd (not_behind i mid x t f e l)
  ]
    where
      not_behind :
          (i mid x : ℕ)
          → ltb i mid ≡ false
          → get_elem? ptrs i ≡ some ptr
          → get_elem? ptrs mid ≡ some x
          → ptr < x
          → ⊥
      not_behind i mid x t f e l = elim (Bool-cases (i == mid)) [
        | inl q ↦
            let same : i ≡ mid = ground (arith, q) in
            let both : some ptr ≡ some x =
              sym f ∙ subst (λ k. get_elem? ptrs k ≡ some x) (sym same) e in
            let p : ptr ≡ x = cc in absurd (omega (arith, p, l))
        | inr q ↦ absurd (omega (arith, sorted mid i x ptr (ground (arith, q, t)) e f, l))
      ]

  search_round-Answers :
      (fuel low above at_mid : ℕ) (go : ℕ → ℕ → Search)
      → get_elem? ptrs ((low + (above - 1)) / 2) ≡ some at_mid
      → IsInside ptr ptrs low above
      → low < above
      → above ≤ low + suc fuel
      → above ≤ length ptrs
      → ((l a : ℕ)
          → IsInside ptr ptrs l a
          → a ≤ l + fuel
          → a ≤ length ptrs
          → Answers ptr ptrs (go l a))
      → Answers ptr ptrs (search_round ptr low above (some at_mid) go)
  unfolding search_round
  search_round-Answers fuel low above x go e h l f b ih = elim (Bool-cases (x == ptr)) [
    | inl t ↦ rw t (e ∙ ap some (ground (arith, t)))
    | inr t ↦ rw t (elim (Bool-cases (ltb x ptr)) [
      | inl u ↦
          rw u (ih _ _ (above_mid low above _ x h e (ground (arith, u))) (omega (arith, l, f)) b)
      | inr u ↦ rw u (
          ih _ _ (below_mid low above _ x h e (ground (arith, t, u))) (omega (arith, l, f))
            (omega (arith, l, b)))
    ])
  ]

  search_between-Answers :
      (fuel low above : ℕ)
      → IsInside ptr ptrs low above
      → above ≤ low + fuel
      → above ≤ length ptrs
      → Answers ptr ptrs (search_between fuel ptr ptrs low above)
  unfolding search_between
  search_between-Answers zero low above h f b =
      rw (ge→ltb low above (omega (arith, f)))
        (λ i e. absurd (omega (arith, (h i e).0, (h i e).1, f)))
  search_between-Answers (suc fuel) low above h f b = elim (Bool-cases (ltb low above)) [
    | inr t ↦ rw t (λ i e. absurd (empty i t e))
    | inl t ↦
        let l : low < above = ltb→lt low above t in
        let (x, e) = get_elem?-some ptrs ((low + (above - 1)) / 2) (omega (arith, l, b)) in
        rw (t, e)
          (search_round-Answers fuel low above x (search_between fuel ptr ptrs) e h l f b
            (λ l' a' h' f' b'. search_between-Answers fuel l' a' h' f' b'))
  ]
    where
      empty : (i : ℕ) → ltb low above ≡ false → get_elem? ptrs i ≡ some ptr → ⊥
      empty i t e = absurd (ground (arith, t, (h i e).0, (h i e).1))

  -- The search ends.
  binary_search-Answers : Answers ptr ptrs (binary_search_for_pointer ptr ptrs)
  unfolding binary_search_for_pointer
  binary_search-Answers =
      search_between-Answers (length ptrs) 0 (length ptrs)
        (λ i e. (omega arith, get_elem?-lt ptrs i e)) (omega arith) (omega arith)

-- Not null, and with the lowest bit clear.
abbrev pub IsLocation : ℕ → Type 0
IsLocation x = (x ≢ 0) × (x % 2 ≡ 0)

-- What becomes of a reference: null stays; one to an object in the list becomes the new location of that
-- object; one to nothing in the list stays, and is reported.
abbrev pub Relocates : List ℕ → List ℕ → ℕ → Option (ℕ × Bool) → Type 0
Relocates objs new_location obj r =
    ((obj ≡ 0) × (r ≡ some (0, true)))
    ⊎ (((i : ℕ) × (x : ℕ) × (get_elem? objs i ≡ some obj)
          × (get_elem? new_location i ≡ some x)
          × (r ≡ some (x, true)))
        ⊎ (((i : ℕ) → get_elem? objs i ≢ some obj) × (r ≡ some (obj, false))))

checked_location-some : (x : ℕ) → IsLocation x → checked_location (some x) ≡ some (x, true)
unfolding checked_location
checked_location-some zero h = absurd (h.0 refl)
checked_location-some (suc x) h = ground (arith, h.1)

get_elem?-All :
    (P : ℕ → Type 0) (xs : List ℕ) (i : ℕ) (x : ℕ) → All P xs → get_elem? xs i ≡ some x → P x
get_elem?-All P [] i x h e = cc
get_elem?-All P (y ∷ ys) zero x h e = let same : y ≡ x = cc in subst P same h.0
get_elem?-All P (y ∷ ys) (suc i) x h e = get_elem?-All P ys i x h.1 e

relocated-Relocates :
    (objs new_location : List ℕ) (obj : ℕ) (s : Search)
    → length new_location ≡ length objs
    → All IsLocation new_location
    → Answers obj objs s
    → Relocates objs new_location obj (relocated obj s new_location)
unfolding relocated
relocated-Relocates objs ls obj (found i) n h a =
    let (x, e) = get_elem?-some ls i (omega (arith, n, get_elem?-lt objs i a)) in
    inr (
      inl (
        i,
        x,
        a,
        e,
        ap checked_location e ∙ checked_location-some x (get_elem?-All IsLocation ls i x h e),
      ))
relocated-Relocates objs ls obj absent n h a = inr (inr (a, refl))
relocated-Relocates objs ls obj stuck n h a = elim a [ ]

-- Where the list of objects is sorted by address and names none twice, and there is a new location for
-- each, not null and with the lowest bit clear, the search ends, no access is out of bounds and no
-- assertion fails; null stays null, a reference to an object in the list becomes the new location of that
-- object, and any other stays as it is and is reported.
pub relocate_object-Relocates :
    (objs new_location : List ℕ) (obj : ℕ)
    → IsSorted objs
    → length new_location ≡ length objs
    → All IsLocation new_location
    → Relocates objs new_location obj (relocate_object objs new_location obj)
unfolding relocate_object
relocate_object-Relocates objs ls zero s n h = inl (refl, refl)
relocate_object-Relocates objs ls (suc k) s n h =
    relocated-Relocates objs ls (suc k) (binary_search_for_pointer (suc k) objs) n h
      (binary_search-Answers (suc k) objs s)
