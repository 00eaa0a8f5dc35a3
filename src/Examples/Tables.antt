-- ===== src/Examples/Tables.antt =====
-- The hash table and the arena of engine/bjvm/vm/adt.c at work, the table as the class loaders make
-- theirs: one slot at first, and a load factor of 3/4.
use tracejvm.Prelude.{◌*◌, ◌≤◌, ℕ, ◌≡◌, refl, some, [], ◌∷◌, arith}
use tracejvm.Arena.{Arena, Allocated, arena_alloc}
use tracejvm.Arena.Fresh.{IsFresh, arena_alloc-IsFresh}
use tracejvm.HashTable.{
  Key, Table, fxhash_string, make_hash_table, put_entry, hash_table_delete, hash_table_lookup,
}
use tracejvm.HashTable.Slots.{IsValid}
use tracejvm.HashTable.Map.{put_entry-IsValid, Deleted, hash_table_delete-Deleted}
use tracejvm.HashTable.Growth.{
  hash_table_insert, hash_table_rehash, hash_table_reserve, hash_table_get_iterator,
}
use tracejvm.HashTable.Growth.Moves.{
  Lists, iterated, make_hash_table-IsValid, hash_table_iterator-Lists,
}
use tracejvm.HashTable.Growth.Rehash.{Updated, SameMap}
use tracejvm.HashTable.Growth.Insertion.{hash_table_insert-Updated, hash_table_rehash-SameMap}

abbrev key_a : Key
key_a = b'A' ∷ []

abbrev key_b : Key
key_b = b'B' ∷ b'c' ∷ []

-- Two entries on the chain of one slot.
abbrev crowded : Table
crowded = (put_entry (put_entry (make_hash_table 3 4 1) key_a 10).0 key_b 20).0

crowded-IsValid : IsValid crowded
crowded-IsValid = put_entry-IsValid (put_entry (make_hash_table 3 4 1) key_a 10).0 key_b 20 (
    put_entry-IsValid (make_hash_table 3 4 1) key_a 10
      (make_hash_table-IsValid 3 4 1 (omega arith)))

crowded-lookup : hash_table_lookup crowded key_b ≡ 20
unfolding put_entry hash_table_lookup make_hash_table fxhash_string
crowded-lookup = refl

hash_table_insert-Updated_example :
    (r : Table × ℕ) × (hash_table_insert crowded key_a 30 ≡ some r) × Updated crowded key_a 30 r
hash_table_insert-Updated_example = hash_table_insert-Updated crowded key_a 30 crowded-IsValid

hash_table_delete-Deleted_example : Deleted crowded key_a (hash_table_delete crowded key_a)
hash_table_delete-Deleted_example = hash_table_delete-Deleted crowded key_a crowded-IsValid

hash_table_rehash-SameMap_example :
    ((t' : Table) × (hash_table_rehash crowded 8 ≡ some t') × SameMap crowded t')
    × ((t' : Table) × (hash_table_reserve crowded 8 ≡ some t') × SameMap crowded t')
hash_table_rehash-SameMap_example =
    hash_table_rehash-SameMap crowded 8 crowded-IsValid (omega arith)

hash_table_iterator-Lists_example : Lists crowded (iterated 3 (hash_table_get_iterator crowded))
unfolding put_entry make_hash_table fxhash_string
hash_table_iterator-Lists_example =
    hash_table_iterator-Lists crowded 3 crowded-IsValid (omega arith)

-- An arena with a region in use.
abbrev begun_arena : Arena
begun_arena = record { regions = record { id = 0; used = 4080; capacity = 4096 } ∷ []; made = 1 }

arena_alloc-IsFresh_example :
    (size : ℕ) × (r : Allocated) × (3 * 10 ≤ size)
    × (arena_alloc begun_arena 3 10 ≡ some r)
    × IsFresh begun_arena size r
arena_alloc-IsFresh_example =
    arena_alloc-IsFresh begun_arena 3 10 ((omega arith, omega arith, refl, tt), tt) (omega arith)
