-- ===== src/HashTable/Growth.antt =====
-- The iterator, the rehash and the insertion of engine/bjvm/vm/adt.c. A rehash inserts into the new
-- table, and such an insertion may rehash that one.
pub mod Moves
pub mod Rehash
pub mod Insertion
use tracejvm.Prelude.{
  ℕ, zero, suc, ◌+◌, ◌*◌, ◌/◌, Bool, true, false, Option, none, some, List, [], ◌∷◌, leb, length,
}
use tracejvm.HashTable.{
  Key, Entry, Slot, vacant, taken, Table, make_hash_table, put_entry, find_hash_table_entry,
}

-- `hash_table_iterator`: the current entry with those behind it on the chain, and the slots behind
-- `current_base`. With no current entry the iterator is at the end.
pub record HashTableIterator : Type 0 where
  pub current : List Entry
  pub behind : List Slot

-- The loops that advance `current_base` to a slot that is taken.
unfoldable pub first_taken : List Slot → HashTableIterator
first_taken [] = record { current = []; behind = [] }
first_taken (vacant ∷ ss) = first_taken ss
first_taken (taken e chain ∷ ss) = record { current = e ∷ chain; behind = ss }

unfoldable pub hash_table_get_iterator : Table → HashTableIterator
unfolding first_taken
hash_table_get_iterator t = first_taken t.entries

-- The entry whose key and value are handed out, if there is one.
unfoldable pub hash_table_iterator_has_next : HashTableIterator → Option Entry
hash_table_iterator_has_next it = elim it.current [ [] ↦ none | e ∷ es ↦ some e ]

-- The iterator once it has moved; its result is whether there is an entry then.
unfoldable pub hash_table_iterator_next : HashTableIterator → HashTableIterator
unfolding first_taken
hash_table_iterator_next it = elim it.current [
  | [] ↦ it
  | e ∷ es ↦ elim es [ [] ↦ first_taken it.behind | f ∷ fs ↦ record it { current = f ∷ fs } ]
]

-- An insertion; `none` means that the fuel ran out.
abbrev pub Insertion : Type 0
Insertion = Table → Key → ℕ → Option (Table × ℕ)

-- The loop of `hash_table_rehash`.
unfoldable pub move_entries : Insertion → ℕ → HashTableIterator → Table → Option Table
unfolding hash_table_iterator_has_next hash_table_iterator_next
move_entries insert zero it new_table = none
move_entries insert (suc fuel) it new_table = elim (hash_table_iterator_has_next it) [
  | none ↦ some new_table
  | some e ↦ elim (insert new_table e.key e.value) [
    | none ↦ none
    | some r ↦ move_entries insert fuel (hash_table_iterator_next it) r.0
  ]
]

-- The loop runs once for each entry, and `entries_count` counts them.
unfoldable pub rehash_by : Insertion → Table → ℕ → Option Table
unfolding move_entries hash_table_get_iterator make_hash_table
rehash_by insert t new_capacity =
    move_entries insert (suc t.entries_count) (hash_table_get_iterator t)
      (make_hash_table t.load_num t.load_den new_capacity)

-- `entries_count + 1 >= load_factor * entries_cap`
unfoldable pub needs_growth : Table → Bool
needs_growth t = leb (t.load_num * length t.entries) ((t.entries_count + 1) * t.load_den)

unfoldable pub grow : Insertion → Table → Option Table
unfolding needs_growth rehash_by
grow insert t = elim (needs_growth t) [
  | true ↦ rehash_by insert t (length t.entries * 2)
  | false ↦ some t
]

unfoldable pub put_grown : Key → ℕ → Option Table → Option (Table × ℕ)
unfolding put_entry
put_grown key value none = none
put_grown key value (some t) = some (put_entry t key value)

-- The fuel bounds how deep insertions rehash for one another.
unfoldable pub hash_table_insert_impl : ℕ → Insertion
unfolding grow put_grown
hash_table_insert_impl zero t key value = none
hash_table_insert_impl (suc fuel) t key value =
    put_grown key value (grow (hash_table_insert_impl fuel) t)

-- A rehash of a table moves fewer entries at each insertion than the table has.
unfoldable pub hash_table_insert : Insertion
unfolding hash_table_insert_impl
hash_table_insert t = hash_table_insert_impl (suc t.entries_count) t

unfoldable pub hash_table_rehash : Table → ℕ → Option Table
unfolding rehash_by hash_table_insert_impl
hash_table_rehash t = rehash_by (hash_table_insert_impl (suc t.entries_count)) t

-- The capacity is multiplied by the load factor, rounded down, and 2 are added.
unfoldable pub hash_table_reserve : Table → ℕ → Option Table
unfolding hash_table_rehash
hash_table_reserve t new_capacity = hash_table_rehash t (new_capacity * t.load_num / t.load_den + 2)
