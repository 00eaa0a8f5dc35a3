-- ===== src/HashTable/Growth/Rehash.antt =====
-- The rehash of engine/bjvm/vm/adt.c: the entries of a table inserted into a larger one.
use tracejvm.Prelude.{
  ℕ, suc, ◌+◌, ◌<◌, ◌≤◌, ◌≡◌, refl, sym, ap, subst, ◌∙◌, inl, inr, Option, none, some, List, [],
  ◌∷◌, arith, if◌then◌else◌, length, Bool-cases,
}
use tracejvm.HashTable.{
  Key, same_key, Entry, Table, make_hash_table, held_all, find_key, find_hash_table_entry,
  hash_table_lookup, insert_found, put_entry,
}
use tracejvm.HashTable.Entries.{Distinct, same_key_eq, same_key_refl}
use tracejvm.HashTable.Slots.{IsValid}
use tracejvm.HashTable.Map.{put_entry-find_hash_table_entry, put_entry-IsValid}
use tracejvm.HashTable.Growth.{Insertion, rehash_by}
use tracejvm.HashTable.Growth.Moves.{
  insert_all, move_entries-insert_all, held_all-Distinct, find_key-entries, make_hash_table-IsValid,
  make_hash_table-held_all,
}

abbrev pub count_after : Table → Key → ℕ
count_after t k = elim (find_hash_table_entry t k) [
  | none ↦ t.entries_count + 1
  | some old ↦ t.entries_count
]

-- The map with `v` at `k`, and the old value as result.
pub record Updated (t : Table) (k : Key) (v : ℕ) (r : Table × ℕ) : Type 0 where
  pub valid : IsValid r.0
  pub old : r.1 ≡ hash_table_lookup t k
  pub found :
      (j : Key)
      → find_hash_table_entry r.0 j ≡ (if same_key k j then some v else find_hash_table_entry t j)
  pub count : r.0.entries_count ≡ count_after t k

-- The insertion gives a result, and it is the map updated.
abbrev pub Inserts : Insertion → Table → Key → ℕ → Type 0
Inserts insert t k v = (r : Table × ℕ) × (insert t k v ≡ some r) × Updated t k v r

-- The same map, in a table that may be larger.
pub record SameMap (t t' : Table) : Type 0 where
  pub valid : IsValid t'
  pub found : (j : Key) → find_hash_table_entry t' j ≡ find_hash_table_entry t j
  pub count : t'.entries_count ≡ t.entries_count

abbrev pub Rehashes : Option Table → Table → Type 0
Rehashes o t = (t' : Table) × (o ≡ some t') × SameMap t t'

-- The insertion works on valid tables of fewer than `n` entries.
abbrev pub WorksBelow : Insertion → ℕ → Type 0
WorksBelow insert n =
    (t : Table) (k : Key) (v : ℕ) → IsValid t → t.entries_count < n → Inserts insert t k v

pub put_entry-Updated : (t : Table) (k : Key) (v : ℕ) → IsValid t → Updated t k v (put_entry t k v)
unfolding put_entry insert_found hash_table_lookup
put_entry-Updated t k v p = record {
  valid = put_entry-IsValid t k v p;
  old = ground arith;
  found = λ j. put_entry-find_hash_table_entry t k j v p;
  count = ground arith;
}

-- What a run of insertions finds.
record AllIn (t : Table) (es : List Entry) (t' : Table) : Type 0 where
  pub valid : IsValid t'
  pub found :
      (j : Key)
      → find_hash_table_entry t' j
        ≡ (elim (find_key j es) [ none ↦ find_hash_table_entry t j | some w ↦ some w ])
  pub count : t'.entries_count ≡ length es + t.entries_count

make_hash_table-count : (a b n : ℕ) → (make_hash_table a b n).entries_count ≡ 0
unfolding make_hash_table
make_hash_table-count a b n = refl

make_hash_table-find :
    (a b n : ℕ) → 0 < n → (k : Key) → find_hash_table_entry (make_hash_table a b n) k ≡ none
unfolding find_key
make_hash_table-find a b n h k =
    sym (find_key-entries (make_hash_table a b n) k (make_hash_table-IsValid a b n h))
    ∙ ap (find_key k) (make_hash_table-held_all a b n)

abbrev Absent : List Entry → Table → Type 0
Absent es t = (j : Key) (w : ℕ) → find_key j es ≡ some w → find_hash_table_entry t j ≡ none

-- The keys behind the first are absent still, once it has been inserted.
still-Absent :
    (e : Entry) (es : List Entry) (t : Table) (r : Table × ℕ)
    → Distinct (e ∷ es)
    → Absent (e ∷ es) t
    → Updated t e.key e.value r
    → Absent es r.0
unfolding find_key
still-Absent e es t r d new u j w f = elim (Bool-cases (same_key e.key j)) [
  | inl q ↦ ground (arith, f, subst (λ i. find_key i es ≡ none) (same_key_eq e.key j q) d.0)
  | inr q ↦ ground (arith, q, u.found j, new j w (ground (arith, q, f)))
]

-- What is found after the first insertion and those behind it.
all_in :
    (e : Entry) (es : List Entry) (t t' : Table) (r : Table × ℕ)
    → Distinct (e ∷ es)
    → find_hash_table_entry t e.key ≡ none
    → Updated t e.key e.value r
    → AllIn r.0 es t'
    → AllIn t (e ∷ es) t'
unfolding find_key
all_in e es t t' r d absent u a = record {
  valid = a.valid;
  found = λ j. elim (Bool-cases (same_key e.key j)) [
    | inl q ↦ ground (
      arith,
      q,
      u.found j,
      a.found j,
      subst (λ i. find_key i es ≡ none) (same_key_eq e.key j q) d.0,
    )
    | inr q ↦ ground (arith, q, u.found j, a.found j)
  ];
  count = ground (arith, u.count, absent, a.count);
}

insert_all_new :
    (insert : Insertion) (n : ℕ) (es : List Entry) (t : Table)
    → WorksBelow insert n
    → IsValid t
    → length es + t.entries_count ≤ n
    → Distinct es
    → Absent es t
    → (t' : Table) × (insert_all insert es t ≡ some t') × AllIn t es t'
unfolding insert_all find_key
insert_all_new insert n [] t works p l d new =
    (t, refl, record { valid = p; found = λ j. refl; count = omega arith })
insert_all_new insert n (e ∷ es) t works p l d new =
    let (r, q, u) = works t e.key e.value p (omega (arith, l)) in
    let absent : find_hash_table_entry t e.key ≡ none =
      new e.key e.value (ground (arith, same_key_refl e.key)) in
    let (t', q', a) =
      insert_all_new insert n es r.0 works u.valid (ground (arith, l, u.count, absent)) d.1
        (still-Absent e es t r d new u) in
    (
      t',
      ap (λ o. elim o [ none ↦ none | some r' ↦ insert_all insert es r'.0 ]) q ∙ q',
      all_in e es t t' r d absent u a,
    )

or_none : (o d : Option ℕ) → d ≡ none → (elim o [ none ↦ d | some w ↦ some w ]) ≡ o
or_none none d h = h
or_none (some w) d h = refl

pub rehash_by-Rehashes :
    (insert : Insertion) (n new_capacity : ℕ) (t : Table)
    → WorksBelow insert n
    → IsValid t
    → t.entries_count ≤ n
    → 0 < new_capacity
    → Rehashes (rehash_by insert t new_capacity) t
unfolding rehash_by
rehash_by-Rehashes insert n new_capacity t works p l c =
    let fresh = make_hash_table t.load_num t.load_den new_capacity in
    let empty = make_hash_table-IsValid t.load_num t.load_den new_capacity c in
    let nothing = make_hash_table-find t.load_num t.load_den new_capacity c in
    let none_counted = make_hash_table-count t.load_num t.load_den new_capacity in
    let (t', q, a) =
      insert_all_new insert n (held_all t.entries) fresh works empty
        (omega (arith, l, p.counted, none_counted))
        (held_all-Distinct (length t.entries) 0 t.entries p.home) (λ j w f. nothing j) in
    (
      t',
      move_entries-insert_all insert t fresh (suc t.entries_count) (omega (arith, p.counted)) ∙ q,
      record {
        valid = a.valid;
        found = λ j.
            a.found j
            ∙ or_none (find_key j (held_all t.entries)) (find_hash_table_entry fresh j) (nothing j)
            ∙ find_key-entries t j p;
        count = omega (arith, a.count, none_counted, p.counted);
      },
    )
