-- ===== src/ClassFile/Pool/Linking.antt =====
-- The second pass over the constant pool of engine/bjvm/vm/classfile.c keeps the kinds that the first
-- one has listed, so that a pointer that it has checked stays right.
use tracejvm.Prelude.{
  ℕ, zero, suc, ◌+◌, ◌≤◌, ◌<◌, ◌≡◌, refl, sym, ap, subst, ◌∙◌, true, List, map, some, ltb, ltb→lt,
  length, length-map, get_elem?, get_elem?-map, arith, Bool-cases, inl, inr,
}
use tracejvm.ClassFile.{ok, Returns, bind-Returns, Ensures-ok, Returns-Ensures}
use tracejvm.ClassFile.Pool.{CpEntry, cp_invalid, cp_kind}
use tracejvm.ClassFile.Pool.Read.{
  read, link, parse_constant_pool_entry, place_entry, is_wide, parse_entries,
}
use tracejvm.ClassFile.Pool.Pointers.{EntryLinked, Agrees}
use tracejvm.ClassFile.Pool.Passes.{parse_constant_pool_entry-Agrees}
use tracejvm.ClassFile.Pool.Listing.{
  placed_if, placed_if-Kept, place_entry-read, Kept, KeptPool, parse_entries-KeptPool,
  placed_if-next, ltb-false,
}
use tracejvm.ClassFile.Pool.Placing.{
  is_wide-eq, placed_if-at, placed_if-wide, placed_if-next_eq, LinkedBelow, Placed,
  place_entry-link,
}

-- One step of the first pass.
listing_step :
    (fuel n i : ℕ) (bytes rest : List ℕ) (p : List CpEntry) (e : CpEntry)
    → ltb i n ≡ true
    → suc i < length p
    → parse_constant_pool_entry read p bytes ≡ ok (e, rest)
    → parse_entries (suc fuel) read n i bytes p
      ≡ parse_entries fuel read n
          (placed_if p i e (is_wide e)).1
          rest
          (placed_if p i e (is_wide e)).0
unfolding parse_entries
listing_step fuel n i bytes rest p e t l h = rw (t, h, place_entry-read p i e l) refl

-- What the first pass has listed at the end, in the place of the entry that it reads first.
module _ (fuel n i : ℕ) (rest : List ℕ) (p : List CpEntry) (e : CpEntry) {p' : List CpEntry}
    {r' : List ℕ} (room : suc i < length p)
    (ends : parse_entries fuel read n
        (placed_if p i e (is_wide e)).1
        rest
        (placed_if p i e (is_wide e)).0
      ≡ ok (p', r'))
    (enough : n ≤ i + suc fuel) (fits : n < length p) where
  listed : Kept (placed_if p i e (is_wide e)).1 (placed_if p i e (is_wide e)).0 p'
  listed =
      Ensures-ok (KeptPool (placed_if p i e (is_wide e)).1 (placed_if p i e (is_wide e)).0) _
        (Returns-Ensures (KeptPool (placed_if p i e (is_wide e)).1 (placed_if p i e (is_wide e)).0)
          _
          (parse_entries-KeptPool fuel n (placed_if p i e (is_wide e)).1 rest
            (placed_if p i e (is_wide e)).0
            (omega (arith, enough, placed_if-next p i e (is_wide e)))
            (omega (arith, fits, (placed_if-Kept p i e (is_wide e)).0))))
        ends

  listed-at : get_elem? p' i ≡ some e
  listed-at =
      listed.1 i (placed_if-next p i e (is_wide e))
      ∙ placed_if-at p i e (is_wide e) (omega (arith, room))

  listed-wide : is_wide e ≡ true → get_elem? p' (suc i) ≡ some cp_invalid
  listed-wide w =
      listed.1 (suc i) (subst (λ b. suc i < (placed_if p i e b).1) (sym w) (omega arith))
      ∙ subst (λ b. get_elem? (placed_if p i e b).0 (suc i) ≡ some cp_invalid) (sym w)
          (placed_if-wide p i e room)

-- The kinds are those that the first pass has listed, and every entry is linked.
abbrev pub LinkedPool : ℕ → List ℕ → List CpEntry × List ℕ → Type 0
LinkedPool n kinds r = (map cp_kind r.0 ≡ kinds) × LinkedBelow kinds n r.0

pub same_length : (q p : List CpEntry) → map cp_kind q ≡ map cp_kind p → length q ≡ length p
same_length q p h = sym (length-map q cp_kind) ∙ ap length h ∙ length-map p cp_kind

-- The second pass goes on where the first one does.
linking_next :
    (fuel n i : ℕ) (rest : List ℕ) (p q p' : List CpEntry) (e d : CpEntry) (s : List CpEntry × ℕ)
    → map cp_kind q ≡ map cp_kind p'
    → cp_kind e ≡ cp_kind d
    → Placed (map cp_kind p') q i (is_wide d) s
    → LinkedBelow (map cp_kind p') i q
    → (map cp_kind s.0 ≡ map cp_kind p'
        → LinkedBelow (map cp_kind p') (placed_if p i e (is_wide e)).1 s.0
        → Returns
            (LinkedPool n (map cp_kind p'))
            (parse_entries fuel link n (placed_if p i e (is_wide e)).1 rest s.0))
    → Returns (LinkedPool n (map cp_kind p')) (parse_entries fuel link n s.1 rest s.0)
linking_next fuel n i rest p q p' e d s same kind (ks, next, linked) below go =
    let onward : s.1 ≡ (placed_if p i e (is_wide e)).1 =
      next
      ∙ placed_if-next_eq q p i cp_invalid e (is_wide d) (is_wide e) (sym (is_wide-eq e d kind)) in
    subst (λ k. Returns (LinkedPool n (map cp_kind p')) (parse_entries fuel link n k rest s.0))
      (sym onward)
      (go (ks ∙ same) (subst (λ k. LinkedBelow (map cp_kind p') k s.0) onward (linked below)))

-- The second pass from an entry on, when the first pass from there on ends in the kinds of the pool.
pub parse_entries-LinkedPool :
    (fuel n i : ℕ) (bytes : List ℕ) (p q p' : List CpEntry) (r' : List ℕ)
    → n ≤ i + fuel
    → n < length p
    → parse_entries fuel read n i bytes p ≡ ok (p', r')
    → map cp_kind q ≡ map cp_kind p'
    → LinkedBelow (map cp_kind p') i q
    → Returns (LinkedPool n (map cp_kind p')) (parse_entries fuel link n i bytes q)
unfolding parse_entries
parse_entries-LinkedPool zero n i bytes p q p' r' enough fits ends same below =
    rw (ltb-false i n (omega arith)) (same, λ j e l g. below j e (omega arith) g)
parse_entries-LinkedPool (suc fuel) n i bytes p q p' r' enough fits ends same below =
    elim (Bool-cases (ltb i n)) [
      | inr t ↦ rw t (same, λ j e l g. below j e (ground (arith, t, l)) g)
      | inl t ↦ rw t (
          bind-Returns (Agrees (parse_constant_pool_entry read p bytes) (map cp_kind q))
            (LinkedPool n (map cp_kind p')) (parse_constant_pool_entry link q bytes) _
            (parse_constant_pool_entry-Agrees p q bytes)
            (λ r (e, first, kind, linked).
              let room : suc i < length p = omega (arith, ltb→lt i n t) in
              let later = sym (listing_step fuel n i bytes r.1 p e t room first) ∙ ends in
              let kept = listed fuel n i r.1 p e room later enough fits in
              bind-Returns (Placed (map cp_kind p') q i (is_wide r.0))
                (LinkedPool n (map cp_kind p')) (place_entry link q i r.0) _
                (place_entry-link (map cp_kind p') q i r.0
                  (omega (
                    arith,
                    same_length q p' same,
                    kept.0,
                    room,
                    (placed_if-Kept p i e (is_wide e)).0,
                  ))
                  (subst (λ m. EntryLinked m r.0) same linked)
                  (subst (λ m. get_elem? m i ≡ some (cp_kind r.0)) (sym same)
                    (get_elem?-map cp_kind p' i (listed-at fuel n i r.1 p e room later enough fits)
                      ∙ ap some kind))
                  (λ w.
                    subst (λ m. get_elem? m (suc i) ≡ some 0) (sym same)
                      (get_elem?-map cp_kind p' (suc i) (
                        listed-wide fuel n i r.1 p e room later enough fits
                          (is_wide-eq e r.0 kind ∙ w)))))
                (λ s placed. linking_next fuel n i r.1 p q p' e r.0 s same kind placed below (λ h k.
                  parse_entries-LinkedPool fuel n (placed_if p i e (is_wide e)).1 r.1
                    (placed_if p i e (is_wide e)).0 s.0 p' r'
                    (omega (arith, enough, placed_if-next p i e (is_wide e)))
                    (omega (arith, fits, (placed_if-Kept p i e (is_wide e)).0)) later h k))))
    ]
