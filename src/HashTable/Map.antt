-- ===== src/HashTable/Map.antt =====
-- Insertion, deletion and lookup in the table of engine/bjvm/vm/adt.c as operations of a finite map.
use tracejvm.Prelude.{
  ℕ, ◌+◌, ◌-◌, ◌≤◌, ◌<◌, ◌≡◌, refl, sym, ap, subst, ◌∙◌, inl, inr, Option, none, some, List, [],
  ◌∷◌, ◌++◌, arith, if◌then◌else◌, length, All-append, length-append, Bool-cases, Option-cases,
}
use tracejvm.HashTable.{
  home, Key, same_key, Entry, vacant, Table, held, held_all, find_key, slot_of, add_entry,
  write_slot, delete_slot, find_hash_table_entry, hash_table_lookup, hash_table_contains,
  insert_found, delete_found, put_entry, hash_table_delete,
}
use tracejvm.HashTable.Entries.{
  same_key_eq, find_key-append, find_key-write_data, find_key-unlink, write_data-Distinct,
  unlink-Distinct, append-Distinct, write_data-Homed, unlink-Homed, length-write_data,
  length-unlink,
}
use tracejvm.HashTable.Slots.{
  held-add_entry, held-write_slot, held-delete_slot, IsHome, IsValid, length-held_all-set,
}
use tracejvm.HashTable.Place.{home_lt, with_slot, IsValid-with_slot, slot-IsHome, find-changed}

abbrev new_entry : Key → ℕ → Entry
new_entry k v = record { key = k; value = v }

added :
    (k j : Key) (v : ℕ) (es : List Entry)
    → find_key k es ≡ none
    → find_key j (es ++ new_entry k v ∷ []) ≡ (if same_key k j then some v else find_key j es)
unfolding find_key
added k j v es h = elim (Bool-cases (same_key k j)) [
  | inl e ↦ ground (
    arith,
    e,
    find_key-append j es (new_entry k v ∷ []),
    subst (λ i. find_key i es ≡ none) (same_key_eq k j e) h,
  )
  | inr e ↦ ground (arith, e, find_key-append j es (new_entry k v ∷ []))
]

-- The branches of insertion and deletion, by what is found.
put_old :
    (t : Table) (k : Key) (v d : ℕ)
    → find_hash_table_entry t k ≡ some d
    → put_entry t k v ≡ (with_slot t k (write_slot k v (slot_of t k)) t.entries_count, d)
unfolding put_entry insert_found
put_old t k v d h = ap (insert_found t k v) h

put_new :
    (t : Table) (k : Key) (v : ℕ)
    → find_hash_table_entry t k ≡ none
    → put_entry t k v
      ≡ (with_slot t k (add_entry (new_entry k v) (slot_of t k)) (t.entries_count + 1), 0)
unfolding put_entry insert_found
put_new t k v h = ap (insert_found t k v) h

delete_old :
    (t : Table) (k : Key) (d : ℕ)
    → find_hash_table_entry t k ≡ some d
    → hash_table_delete t k ≡ (with_slot t k (delete_slot k (slot_of t k)) (t.entries_count - 1), d)
unfolding hash_table_delete delete_found
delete_old t k d h = ap (delete_found t k) h

delete_none :
    (t : Table) (k : Key) → find_hash_table_entry t k ≡ none → hash_table_delete t k ≡ (t, 0)
unfolding hash_table_delete delete_found
delete_none t k h = ap (delete_found t k) h

shut :
    (t : Table) (k : Key) (r : Option ℕ)
    → find_hash_table_entry t k ≡ r
    → find_key k (held (slot_of t k)) ≡ r
unfolding find_hash_table_entry
shut t k r h = h

-- What the key finds after `put_entry`, and any other key.
pub put_entry-find_hash_table_entry :
    (t : Table) (k j : Key) (v : ℕ)
    → IsValid t
    → find_hash_table_entry (put_entry t k v).0 j
      ≡ (if same_key k j then some v else find_hash_table_entry t j)
put_entry-find_hash_table_entry t k j v p = elim (Option-cases (find_hash_table_entry t k)) [
  | inl h ↦
      ap (λ r. find_hash_table_entry r.0 j) (put_new t k v h)
      ∙ find-changed t k j (add_entry (new_entry k v) (slot_of t k)) (t.entries_count + 1) (some v)
          p
          (ap (find_key j) (held-add_entry (new_entry k v) (slot_of t k))
            ∙ added k j v (held (slot_of t k)) (shut t k none h))
  | inr (d, h) ↦
      ap (λ r. find_hash_table_entry r.0 j) (put_old t k v d h)
      ∙ find-changed t k j (write_slot k v (slot_of t k)) t.entries_count (some v) p (
          ap (find_key j) (held-write_slot k v (slot_of t k))
          ∙ find_key-write_data k j v (held (slot_of t k)) d (shut t k (some d) h))
]

-- What is found after a deletion, and what the deletion returns.
pub hash_table_delete-find_hash_table_entry :
    (t : Table) (k j : Key)
    → IsValid t
    → find_hash_table_entry (hash_table_delete t k).0 j
      ≡ (if same_key k j then none else find_hash_table_entry t j)
hash_table_delete-find_hash_table_entry t k j p = elim (Option-cases (find_hash_table_entry t k)) [
  | inl h ↦ ap (λ r. find_hash_table_entry r.0 j) (delete_none t k h) ∙ absent h
  | inr (d, h) ↦
      ap (λ r. find_hash_table_entry r.0 j) (delete_old t k d h)
      ∙ find-changed t k j (delete_slot k (slot_of t k)) (t.entries_count - 1) none p (
          ap (find_key j) (held-delete_slot k (slot_of t k))
          ∙ find_key-unlink k j (held (slot_of t k)) (slot-IsHome t k p).0)
]
  where
    absent :
        find_hash_table_entry t k ≡ none
        → find_hash_table_entry t j ≡ (if same_key k j then none else find_hash_table_entry t j)
    absent h = elim (Bool-cases (same_key k j)) [
      | inl e ↦
          ground (arith, e, subst (λ i. find_hash_table_entry t i ≡ none) (same_key_eq k j e) h)
      | inr e ↦ ground (arith, e)
    ]

at_home :
    (slots : ℕ) (k : Key) (v : ℕ) (es : List Entry)
    → IsHome slots (home slots k) es
    → find_key k es ≡ none
    → IsHome slots (home slots k) (es ++ new_entry k v ∷ [])
unfolding find_key
at_home slots k v es h n = (
  append-Distinct es (new_entry k v ∷ []) h.0 (refl, tt) (λ j w s. other j w s),
  All-append (λ e. home slots e.key ≡ home slots k) es (new_entry k v ∷ []) h.1 (refl, tt),
)
  where
    other : (j : Key) (w : ℕ) → find_key j es ≡ some w → find_key j (new_entry k v ∷ []) ≡ none
    other j w s = elim (Bool-cases (same_key k j)) [
      | inl e ↦ ground (arith, s, subst (λ i. find_key i es ≡ none) (same_key_eq k j e) n)
      | inr e ↦ ground (arith, e)
    ]

-- No slot holds more than the table.
slot_le :
    (t : Table) (k : Key) → IsValid t → length (held (slot_of t k)) ≤ length (held_all t.entries)
unfolding held
slot_le t k p =
    omega (arith, length-held_all-set (home (length t.entries) k) vacant t.entries (home_lt t k p))

pub put_entry-IsValid : (t : Table) (k : Key) (v : ℕ) → IsValid t → IsValid (put_entry t k v).0
put_entry-IsValid t k v p = elim (Option-cases (find_hash_table_entry t k)) [
  | inl h ↦
      let s = add_entry (new_entry k v) (slot_of t k) in
      subst (λ r. IsValid r.0) (sym (put_new t k v h))
        (IsValid-with_slot t k s (t.entries_count + 1) p
          (subst (IsHome (length t.entries) (home (length t.entries) k))
            (sym (held-add_entry (new_entry k v) (slot_of t k)))
            (at_home (length t.entries) k v (held (slot_of t k)) (slot-IsHome t k p)
              (shut t k none h)))
          (omega (
            arith,
            length-append (held (slot_of t k)) (new_entry k v ∷ []),
            ap length (held-add_entry (new_entry k v) (slot_of t k)),
          )))
  | inr (d, h) ↦
      let s = write_slot k v (slot_of t k) in
      subst (λ r. IsValid r.0) (sym (put_old t k v d h))
        (IsValid-with_slot t k s t.entries_count p
          (subst (IsHome (length t.entries) (home (length t.entries) k))
            (sym (held-write_slot k v (slot_of t k)))
            (
              write_data-Distinct k v (held (slot_of t k)) (slot-IsHome t k p).0,
              write_data-Homed (length t.entries) (home (length t.entries) k) k v
                  (held (slot_of t k)) (slot-IsHome t k p).1,
            ))
          (omega (
            arith,
            length-write_data k v (held (slot_of t k)),
            ap length (held-write_slot k v (slot_of t k)),
          )))
]

pub hash_table_delete-IsValid :
    (t : Table) (k : Key) → IsValid t → IsValid (hash_table_delete t k).0
hash_table_delete-IsValid t k p = elim (Option-cases (find_hash_table_entry t k)) [
  | inl h ↦ subst (λ r. IsValid r.0) (sym (delete_none t k h)) p
  | inr (d, h) ↦
      let s = delete_slot k (slot_of t k) in
      subst (λ r. IsValid r.0) (sym (delete_old t k d h))
        (IsValid-with_slot t k s (t.entries_count - 1) p
          (subst (IsHome (length t.entries) (home (length t.entries) k))
            (sym (held-delete_slot k (slot_of t k)))
            (
              unlink-Distinct k (held (slot_of t k)) (slot-IsHome t k p).0,
              unlink-Homed (length t.entries) (home (length t.entries) k) k (held (slot_of t k))
                  (slot-IsHome t k p).1,
            ))
          (omega (
            arith,
            length-unlink k d (held (slot_of t k)) (shut t k (some d) h),
            ap length (held-delete_slot k (slot_of t k)),
            slot_le t k p,
            p.counted,
          )))
]

-- The map without the key, and the old value as result.
pub record Deleted (t : Table) (k : Key) (r : Table × ℕ) : Type 0 where
  pub valid : IsValid r.0
  pub old : r.1 ≡ hash_table_lookup t k
  pub found :
      (j : Key)
      → find_hash_table_entry r.0 j ≡ (if same_key k j then none else find_hash_table_entry t j)
  pub count : r.0.entries_count + (if hash_table_contains t k then 1 else 0) ≡ t.entries_count

some_counted :
    (t : Table) (k : Key) (d : ℕ)
    → IsValid t
    → find_hash_table_entry t k ≡ some d
    → 0 < t.entries_count
some_counted t k d p h =
    omega (
      arith,
      length-unlink k d (held (slot_of t k)) (shut t k (some d) h),
      slot_le t k p,
      p.counted,
    )

-- A deletion from a valid table returns the old value of the key, or the null pointer. The new table
-- is valid, does not find the key, finds what it found at every other key, and counts one entry less
-- exactly if the key was there.
pub hash_table_delete-Deleted :
    (t : Table) (k : Key) → IsValid t → Deleted t k (hash_table_delete t k)
unfolding hash_table_delete delete_found hash_table_lookup hash_table_contains
hash_table_delete-Deleted t k p = record {
  valid = hash_table_delete-IsValid t k p;
  old = ground arith;
  found = λ j. hash_table_delete-find_hash_table_entry t k j p;
  count = elim (Option-cases (find_hash_table_entry t k)) [
    | inl h ↦ ground (arith, h)
    | inr (d, h) ↦ ground (arith, h, some_counted t k d p h)
  ];
}
