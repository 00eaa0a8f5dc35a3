-- ===== src/HashTable.antt =====
-- engine/bjvm/vm/adt.c and adt.h: the hash table from strings to pointers, with a chain behind each
-- slot. The pointers that it stores are numbers, 0 for the null pointer. The load factor is a
-- fraction; the `double` that the code multiplies is exact for 3/4, the one that all callers pass.
pub mod Entries
pub mod Slots
pub mod Place
pub mod Map
pub mod Growth
use tracejvm.Prelude.{
  ℕ, zero, suc, ◌+◌, ◌-◌, ◌*◌, ◌/◌, ◌%◌, ◌^◌, bit_or, bit_xor, Bool, true, false, ◌&&◌, Option,
  none, some, List, [], ◌∷◌, ◌++◌, leb, ◌==◌, if◌then◌else◌, length, set, get_or, replicate,
}

-- The bytes of a string; its length takes the place of `key_len`.
abbrev pub Key : Type 0
Key = List ℕ

-- Equal lengths and `memcmp`.
unfoldable pub same_key : Key → Key → Bool
same_key [] [] = true
same_key [] (b ∷ bs) = false
same_key (a ∷ xs) [] = false
same_key (a ∷ xs) (b ∷ bs) = a == b && same_key xs bs

-- `hash_table_entry`, with a key; `value` is its `data`.
pub record Entry : Type 0 where
  pub key : Key
  pub value : ℕ

-- A member of the array `entries` and the chain at its `next`. One with a null key is vacant: `calloc`
-- and deletion leave no chain behind it.
pub data Slot : Type 0 where
  vacant : Slot
  taken : Entry → List Entry → Slot

-- `string_hash_table`: `entries_cap` is the number of slots. The load factor is `load_num / load_den`.
pub record Table : Type 0 where
  pub entries : List Slot
  pub entries_count : ℕ
  pub load_num : ℕ
  pub load_den : ℕ

unfoldable pub make_hash_table : ℕ → ℕ → ℕ → Table
make_hash_table load_num load_den initial_capacity = record {
  entries = replicate initial_capacity vacant;
  entries_count = 0;
  load_num = load_num;
  load_den = load_den;
}

-- The word of at most eight bytes, little-endian, and what is behind them.
unfoldable pub word : ℕ → Key → ℕ × Key
word zero bs = (0, bs)
word (suc n) [] = (0, [])
word (suc n) (b ∷ bs) = let rest = word n bs in (b + 256 * rest.0, rest.1)

-- One round of the loops of `fxhash_string`, in 64 bits.
unfoldable pub mix : ℕ → ℕ → ℕ
mix hash w = bit_xor (bit_or (hash * 32 % 2 ^ 64) (hash / 2 ^ 59)) w * 0x517cc1b727220a95 % 2 ^ 64

-- Whole words first, and a last one of the bytes that are left. A word takes a byte at least, so the
-- length of the key is fuel enough.
unfoldable pub fxhash_from : ℕ → ℕ → Key → ℕ
unfolding word mix
fxhash_from zero hash bs = hash
fxhash_from (suc fuel) hash [] = hash
fxhash_from (suc fuel) hash (b ∷ bs) =
    let w = word 8 (b ∷ bs) in fxhash_from fuel (mix hash w.0) w.1

unfoldable pub fxhash_string : Key → ℕ
unfolding fxhash_from
fxhash_string key = fxhash_from (length key) 0 key % 2 ^ 32

-- The entries of a slot, the head first.
unfoldable pub held : Slot → List Entry
held vacant = []
held (taken e chain) = e ∷ chain

-- All entries, in the order in which the iterator of the table gives them.
unfoldable pub held_all : List Slot → List Entry
unfolding held
held_all [] = []
held_all (s ∷ ss) = held s ++ held_all ss

-- The walk of `find_hash_table_entry` along a chain: the data of the entry that is equal, if any.
unfoldable pub find_key : Key → List Entry → Option ℕ
unfolding same_key
find_key key [] = none
find_key key (e ∷ es) = if same_key e.key key then some e.value else find_key key es

-- `hash % tbl->entries_cap`
abbrev pub home : ℕ → Key → ℕ
home cap key = fxhash_string key % cap

abbrev pub slot_of : Table → Key → Slot
slot_of t key = get_or t.entries (home (length t.entries) key) vacant

-- With no slot at all the code leaves `equal` unset; here there is nothing to find then.
unfoldable pub find_hash_table_entry : Table → Key → Option ℕ
unfolding held find_key
find_hash_table_entry t key = find_key key (held (slot_of t key))

unfoldable pub hash_table_lookup : Table → Key → ℕ
unfolding find_hash_table_entry
hash_table_lookup t key = elim (find_hash_table_entry t key) [ none ↦ 0 | some old ↦ old ]

unfoldable pub hash_table_contains : Table → Key → Bool
unfolding find_hash_table_entry
hash_table_contains t key = elim (find_hash_table_entry t key) [ none ↦ false | some old ↦ true ]

-- `ent->data = value`, through the pointer to the entry that is equal.
unfoldable pub write_data : Key → ℕ → List Entry → List Entry
unfolding same_key
write_data key value [] = []
write_data key value (e ∷ es) =
    if same_key e.key key then record e { value = value } ∷ es else e ∷ write_data key value es

-- `prev->next = ent->next`
unfoldable pub unlink : Key → List Entry → List Entry
unfolding same_key
unlink key [] = []
unlink key (e ∷ es) = if same_key e.key key then es else e ∷ unlink key es

abbrev pub set_slot : Table → Key → Slot → List Slot
set_slot t key s = set t.entries (home (length t.entries) key) s

-- The branches of a new key: the vacant slot itself, or an entry behind the last of the chain.
unfoldable pub add_entry : Entry → Slot → Slot
add_entry e vacant = taken e []
add_entry e (taken head chain) = taken head (chain ++ e ∷ [])

unfoldable pub write_slot : Key → ℕ → Slot → Slot
unfolding same_key write_data
write_slot key value vacant = vacant
write_slot key value (taken head chain) =
    if same_key head.key key
    then taken (record head { value = value }) chain
    else taken head (write_data key value chain)

-- The branches of `hash_table_insert_impl`, by what was found for the key.
unfoldable pub insert_found : Table → Key → ℕ → Option ℕ → Table × ℕ
unfolding add_entry write_slot
insert_found t key value (some old) =
    (record t { entries = set_slot t key (write_slot key value (slot_of t key)) }, old)
insert_found t key value none = (
  record t {
    entries = set_slot t key (add_entry (record { key = key; value = value }) (slot_of t key));
    entries_count = t.entries_count + 1;
  },
  0,
)

-- `hash_table_insert_impl` once the table is large enough: the table and the old data, or 0.
unfoldable pub put_entry : Table → Key → ℕ → Table × ℕ
unfolding find_hash_table_entry insert_found
put_entry t key value = insert_found t key value (find_hash_table_entry t key)

-- A head with a chain is replaced by the first entry behind it, one without becomes vacant.
unfoldable pub delete_slot : Key → Slot → Slot
unfolding same_key unlink
delete_slot key vacant = vacant
delete_slot key (taken head chain) =
    if same_key head.key key
    then elim chain [ [] ↦ vacant | e ∷ es ↦ taken e es ]
    else taken head (unlink key chain)

unfoldable pub delete_found : Table → Key → Option ℕ → Table × ℕ
unfolding delete_slot
delete_found t key none = (t, 0)
delete_found t key (some old) = (
  record t {
    entries = set_slot t key (delete_slot key (slot_of t key));
    entries_count = t.entries_count - 1;
  },
  old,
)

unfoldable pub hash_table_delete : Table → Key → Table × ℕ
unfolding find_hash_table_entry delete_found
hash_table_delete t key = delete_found t key (find_hash_table_entry t key)
