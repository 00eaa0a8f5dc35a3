-- ===== src/HashTable/Growth/Insertion.antt =====
-- `hash_table_insert`, `hash_table_rehash` and `hash_table_reserve` of engine/bjvm/vm/adt.c as
-- operations of a finite map.
use tracejvm.Prelude.{
  ℕ, zero, suc, ◌+◌, ◌*◌, ◌/◌, ◌<◌, ◌≤◌, ◌≡◌, refl, ap, Bool, true, false, some, arith, length,
}
use tracejvm.HashTable.{Key, Table, hash_table_lookup, put_entry}
use tracejvm.HashTable.Slots.{IsValid}
use tracejvm.HashTable.Growth.{
  Insertion, rehash_by, needs_growth, grow, put_grown, hash_table_insert_impl, hash_table_insert,
  hash_table_rehash, hash_table_reserve,
}
use tracejvm.HashTable.Growth.Rehash.{
  Updated, Inserts, SameMap, Rehashes, WorksBelow, put_entry-Updated, rehash_by-Rehashes,
}

grow-Rehashes :
    (insert : Insertion) (n : ℕ) (t : Table)
    → WorksBelow insert n
    → IsValid t
    → t.entries_count ≤ n
    → Rehashes (grow insert t) t
unfolding grow
grow-Rehashes insert n t works p l = go (needs_growth t)
  where
    go :
        (b : Bool)
        → Rehashes (elim b [ true ↦ rehash_by insert t (length t.entries * 2) | false ↦ some t ]) t
    go true =
        rehash_by-Rehashes insert n (length t.entries * 2) t works p l (omega (arith, p.has_slots))
    go false = (t, refl, record { valid = p; found = λ j. refl; count = refl })

-- An update of the grown table is one of the table.
same_update :
    (t t' : Table) (k : Key) (v : ℕ) (r : Table × ℕ)
    → SameMap t t'
    → Updated t' k v r
    → Updated t k v r
unfolding hash_table_lookup
same_update t t' k v r s u = record {
  valid = u.valid;
  old = ground (arith, u.old, s.found k);
  found = λ j. ground (arith, u.found j, s.found j);
  count = ground (arith, u.count, s.count, s.found k);
}

-- Enough fuel: more than there are entries.
pub hash_table_insert_impl-Inserts :
    (fuel : ℕ) (t : Table) (k : Key) (v : ℕ)
    → IsValid t
    → t.entries_count < fuel
    → Inserts (hash_table_insert_impl fuel) t k v
unfolding hash_table_insert_impl put_grown
hash_table_insert_impl-Inserts zero t k v p l = absurd (omega (arith, l))
hash_table_insert_impl-Inserts (suc fuel) t k v p l =
    let (t', q, s) =
      grow-Rehashes (hash_table_insert_impl fuel) fuel t (hash_table_insert_impl-Inserts fuel) p
        (omega (arith, l)) in
    (
      put_entry t' k v,
      ap (put_grown k v) q,
      same_update t t' k v (put_entry t' k v) s (put_entry-Updated t' k v s.valid),
    )

-- On a valid table an insertion gives a result, however often it rehashes. The result is the old
-- value of the key, or the null pointer; the new table is valid, finds the new value at the key and
-- what it found at every other key, and counts one entry more exactly if the key is new.
pub hash_table_insert-Updated :
    (t : Table) (k : Key) (v : ℕ)
    → IsValid t
    → (r : Table × ℕ) × (hash_table_insert t k v ≡ some r) × Updated t k v r
unfolding hash_table_insert
hash_table_insert-Updated t k v p =
    hash_table_insert_impl-Inserts (suc t.entries_count) t k v p (omega arith)

-- A rehash of a valid table to any capacity but 0, and so a reservation, gives a valid table that
-- finds the same at every key and counts the same entries.
pub hash_table_rehash-SameMap :
    (t : Table) (new_capacity : ℕ)
    → IsValid t
    → 0 < new_capacity
    → ((t' : Table) × (hash_table_rehash t new_capacity ≡ some t') × SameMap t t')
      × ((t' : Table) × (hash_table_reserve t new_capacity ≡ some t') × SameMap t t')
unfolding hash_table_rehash hash_table_reserve
hash_table_rehash-SameMap t new_capacity p c =
    let moved = rehashed t p in
    (moved new_capacity c, moved (new_capacity * t.load_num / t.load_den + 2) (omega arith))
  where
    rehashed :
        (t : Table)
        → IsValid t
        → (n : ℕ) → 0 < n
        → Rehashes (rehash_by (hash_table_insert_impl (suc t.entries_count)) t n) t
    rehashed t p n c =
        rehash_by-Rehashes (hash_table_insert_impl (suc t.entries_count)) (suc t.entries_count) n t
          (hash_table_insert_impl-Inserts (suc t.entries_count)) p (omega arith) c
