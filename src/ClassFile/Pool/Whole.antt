-- ===== src/ClassFile/Pool/Whole.antt =====
-- `parse_constant_pool` of engine/bjvm/vm/classfile.c as a whole.
use tracejvm.Prelude.{
  ℕ, zero, suc, ◌+◌, ◌-◌, ◌<◌, ◌≡◌, ◌≢◌, refl, sym, ap, subst, ◌∙◌, some, List, map, length,
  length-set, length-replicate, get_elem?-replicate, set, get_elem?, get_elem?-map,
  get_elem?-map_inverse, get_elem?-set_self, get_elem?-set_ne, get_elem?-some, arith, ℕ_discrete,
}
use tracejvm.ClassFile.{ok, ◌>>=◌, Returns, bind-Returns, bind_known-Returns}
use tracejvm.ClassFile.Reader.{Took, reader_next_u16, reader_next_u16-Took}
use tracejvm.ClassFile.Pool.{CpEntry, cp_invalid, cp_kind}
use tracejvm.ClassFile.Pool.Read.{read, link, init_constant_pool, parse_entries}
use tracejvm.ClassFile.Pool.Finish.{finish_constant_pool_entry, finish_entries, parse_constant_pool}
use tracejvm.ClassFile.Pool.Pointers.{EntryLinked}
use tracejvm.ClassFile.Pool.Listing.{
  Kept, KeptPool, parse_entries-KeptPool, load_entry_ok, store_entry_ok,
}
use tracejvm.ClassFile.Pool.Placing.{LinkedBelow, set-kind}
use tracejvm.ClassFile.Pool.Linking.{LinkedPool, same_length, parse_entries-LinkedPool}
use tracejvm.ClassFile.Pool.Resolved.{EntryResolved, Finished, finish-Finished, resolved→linked}

abbrev ResolvedBelow : List ℕ → ℕ → List CpEntry → Type 0
ResolvedBelow kinds i q =
    (j : ℕ) (e : CpEntry) → j < i → get_elem? q j ≡ some e → EntryResolved kinds e

-- The entries below `i` are resolved, those below `n` are linked, and there are more than `n`.
record IsPool (kinds : List ℕ) (n i : ℕ) (pool : List CpEntry) : Type 0 where
  kept_kinds : map cp_kind pool ≡ kinds
  room : n < length pool
  resolved : ResolvedBelow kinds i pool
  linked : LinkedBelow kinds n pool

-- What a write does to a predicate of the entries.
set-Below :
    (P : CpEntry → Type 0) (pool : List CpEntry) (i n : ℕ) (e : CpEntry)
    → i < length pool
    → P e
    → ((j : ℕ) (d : CpEntry) → j < n → get_elem? pool j ≡ some d → P d)
    → (j : ℕ) (d : CpEntry) → (i ≢ j → j < n)
    → get_elem? (set pool i e) j ≡ some d
    → P d
set-Below P pool i n e l h k j d c g = elim (ℕ_discrete i j) [
  | yes t ↦
      let same : some e ≡ some d =
        sym (get_elem?-set_self pool i e l)
        ∙ subst (λ x. get_elem? (set pool i e) x ≡ some d) (sym t) g in
      let eq : e ≡ d = cc in subst P eq h
  | no t ↦ k j d (c t) (sym (get_elem?-set_ne pool e t) ∙ g)
]

set-IsPool :
    (kinds : List ℕ) (n i : ℕ) (pool : List CpEntry) (e e' : CpEntry)
    → IsPool kinds n i pool
    → i < n
    → get_elem? pool i ≡ some e
    → Finished kinds e e'
    → IsPool kinds n (suc i) (set pool i e')
set-IsPool kinds n i pool e e' v l g f = record {
  kept_kinds =
      set-kind pool i e' (get_elem?-map cp_kind pool i g ∙ ap some (sym f.0)) ∙ v.kept_kinds;
  room = omega (arith, v.room, length-set pool i e');
  resolved = λ j d lj at.
      set-Below (EntryResolved kinds) pool i i e' (omega (arith, v.room)) f.1 v.resolved j d
        (λ t. omega (arith, lj, t)) at;
  linked = λ j d lj at.
      set-Below (EntryLinked kinds) pool i n e' (omega (arith, v.room))
        (resolved→linked kinds e' f.1) v.linked j d (λ _. lj) at;
}

-- The loop over the descriptors.
finish_entries-IsPool :
    (left i n : ℕ) (kinds : List ℕ) (pool : List CpEntry)
    → i + left ≡ n
    → IsPool kinds n i pool
    → Returns (IsPool kinds n n) (finish_entries left i pool)
unfolding finish_entries
finish_entries-IsPool zero i n kinds pool e v =
    subst (λ k. IsPool kinds n k pool) (omega (arith, e)) v
finish_entries-IsPool (suc left) i n kinds pool e v =
    let (entry, at) = get_elem?-some pool i (omega (arith, e, v.room)) in
    rw (load_entry_ok pool i entry at) (
      bind-Returns (Finished kinds entry) (IsPool kinds n n) (finish_constant_pool_entry pool entry)
        _
        (subst (λ k. Returns (Finished k entry) (finish_constant_pool_entry pool entry))
          v.kept_kinds
          (finish-Finished pool entry (
            subst (λ k. EntryLinked k entry) (sym v.kept_kinds)
              (v.linked i entry (omega (arith, e)) at))))
        (λ entry' f. rw (store_entry_ok pool i entry' (omega (arith, e, v.room))) (
          finish_entries-IsPool left (suc i) n kinds (set pool i entry') (omega (arith, e))
            (set-IsPool kinds n i pool entry entry' v (omega (arith, e)) at f))))

first_invalid :
    (n : ℕ) (pool : List CpEntry)
    → Kept 1 (init_constant_pool n) pool
    → (j : ℕ) (e : CpEntry) → j < 1
    → get_elem? pool j ≡ some e
    → e ≡ cp_invalid
unfolding init_constant_pool
first_invalid n pool k j e l g = get_elem?-replicate (n + 1) j cp_invalid (sym (k.1 j l) ∙ g)

-- The first entry, of which the kind is none.
none_resolved : (kinds : List ℕ) (e : CpEntry) → cp_kind e ≡ 0 → EntryResolved kinds e
none_resolved kinds cp_invalid h = tt
none_resolved kinds _ h = absurd (ground (arith, h))

-- Each entry that the class file counts.
abbrev pub PoolResolved : List CpEntry × List ℕ → Type 0
PoolResolved r =
    (i : ℕ) (e : CpEntry)
    → suc i < length r.0
    → get_elem? r.0 i ≡ some e
    → EntryResolved (map cp_kind r.0) e

length-init : (n : ℕ) → length (init_constant_pool n) ≡ n + 1
unfolding init_constant_pool
length-init n = length-replicate (n + 1) cp_invalid

AsLong : ℕ → List CpEntry × List ℕ → Type 0
AsLong n r = length r.0 ≡ n + 1

module _ (n : ℕ) (listed : List CpEntry) (kept : Kept 1 (init_constant_pool n) listed) where
  listed_below : LinkedBelow (map cp_kind listed) 1 listed
  listed_below j e l g =
      subst (EntryLinked (map cp_kind listed)) (sym (first_invalid n listed kept j e l g)) tt

  -- The pool in front of the loop over the descriptors.
  linked-IsPool :
      (r : List CpEntry × List ℕ)
      → LinkedPool n (map cp_kind listed) r
      → IsPool (map cp_kind listed) n 1 r.0
  linked-IsPool r h = record {
    kept_kinds = h.0;
    room = omega (arith, same_length r.0 listed h.0, kept.0, length-init n);
    resolved = λ j e l g.
        let (d, at, k) =
          get_elem?-map_inverse cp_kind listed j
            (subst (λ m. get_elem? m j ≡ some (cp_kind e)) h.0 (get_elem?-map cp_kind r.0 j g)) in
        none_resolved (map cp_kind listed) e
          (sym k ∙ ap cp_kind (first_invalid n listed kept j d l at));
    linked = h.1;
  }

-- The loop over the descriptors of a pool of `n` entries.
finished-PoolResolved :
    (n : ℕ) (listed linked : List CpEntry) (rest : List ℕ)
    → Kept 1 (init_constant_pool n) listed
    → LinkedPool n (map cp_kind listed) (linked, rest)
    → Returns PoolResolved (finish_entries (n - 1) 1 linked >>= λ finished. ok (finished, rest))
unfolding finish_entries
finished-PoolResolved zero listed linked rest kept h =
    λ i e l g. absurd (omega (arith, l, same_length linked listed h.0, kept.0, length-init 0))
finished-PoolResolved (suc n) listed linked rest kept h =
    let kinds = map cp_kind listed in
    bind-Returns (IsPool kinds (suc n) (suc n)) PoolResolved (finish_entries (suc n - 1) 1 linked) _
      (finish_entries-IsPool (suc n - 1) 1 (suc n) kinds linked (omega arith)
        (linked-IsPool (suc n) listed kept (linked, rest) h))
      (λ pool v i e l g.
        subst (λ m. EntryResolved m e) (sym v.kept_kinds)
          (v.resolved i e
            (omega (arith, l, same_length pool listed v.kept_kinds, kept.0, length-init (suc n)))
            g))

-- Whatever the bytes are, both passes over the constant pool and the loop over its descriptors end, no
-- write is out of bounds and no pointer is followed that is null or points at another kind of entry;
-- the result is an error, or a pool in which each entry that is counted holds only pointers to entries
-- of the kind that is asked for there, and a parsed descriptor where it has one.
pub parse_constant_pool-PoolResolved :
    (bytes : List ℕ) → Returns PoolResolved (parse_constant_pool bytes)
unfolding parse_constant_pool
parse_constant_pool-PoolResolved bytes =
    bind-Returns (Took 2 bytes) PoolResolved (reader_next_u16 bytes) _ (reader_next_u16-Took bytes)
      (λ c _.
        bind_known-Returns (KeptPool 1 (init_constant_pool c.0)) PoolResolved
          (parse_entries c.0 read c.0 1 c.1 (init_constant_pool c.0)) _
          (parse_entries-KeptPool c.0 c.0 1 c.1 (init_constant_pool c.0) (omega arith)
            (omega (arith, length-init c.0)))
          (λ first ends kept.
            bind-Returns (LinkedPool c.0 (map cp_kind first.0)) PoolResolved
              (parse_entries c.0 link c.0 1 c.1 first.0) _
              (parse_entries-LinkedPool c.0 c.0 1 c.1 (init_constant_pool c.0) first.0 first.0
                first.1 (omega arith) (omega (arith, length-init c.0)) ends refl
                (listed_below c.0 first.0 kept))
              (λ second h. finished-PoolResolved c.0 first.0 second.0 second.1 kept h)))
