-- ===== src/HashTable/Growth/Moves.antt =====
-- The entries that a rehash of engine/bjvm/vm/adt.c moves, by the iterator.
use tracejvm.Prelude.{
  ℕ, zero, suc, ◌+◌, ◌<◌, ◌≡◌, refl, sym, ap, subst, ◌∙◌, inl, inr, Option, none, some, List, [],
  ◌∷◌, ◌++◌, arith, ◌==◌, ==_iff, length, get_or, replicate, length-replicate, Bool-cases,
}
use tracejvm.HashTable.{
  home, Key, Entry, Slot, vacant, taken, Table, make_hash_table, held, held_all, find_key,
  find_hash_table_entry,
}
use tracejvm.HashTable.Entries.{Distinct, find_key-append, find_key-Homed, append-Distinct}
use tracejvm.HashTable.Slots.{AreHome, IsValid}
use tracejvm.HashTable.Growth.{
  HashTableIterator, first_taken, hash_table_get_iterator, hash_table_iterator_has_next,
  hash_table_iterator_next, Insertion, move_entries,
}

-- What an iterator has yet to give.
abbrev pub remaining : HashTableIterator → List Entry
remaining it = it.current ++ held_all it.behind

pub remaining-first_taken : (ss : List Slot) → remaining (first_taken ss) ≡ held_all ss
unfolding first_taken held_all held
remaining-first_taken [] = refl
remaining-first_taken (vacant ∷ ss) = remaining-first_taken ss
remaining-first_taken (taken e chain ∷ ss) = refl

-- The loop over the entries as a recursion over a list of them.
unfoldable pub insert_all : Insertion → List Entry → Table → Option Table
insert_all insert [] t = some t
insert_all insert (e ∷ es) t = elim (insert t e.key e.value) [
  | none ↦ none
  | some r ↦ insert_all insert es r.0
]

at_end : (ss : List Slot) → (first_taken ss).current ≡ [] → (first_taken ss).behind ≡ []
unfolding first_taken
at_end [] h = refl
at_end (vacant ∷ ss) h = at_end ss h
at_end (taken e chain ∷ ss) h = ground arith

after_insertion :
    (o : Option (Table × ℕ)) (f g : Table → Option Table)
    → ((t : Table) → f t ≡ g t)
    → (elim o [ none ↦ none | some r ↦ f r.0 ]) ≡ (elim o [ none ↦ none | some r ↦ g r.0 ])
after_insertion none f g h = refl
after_insertion (some r) f g h = h r.0

-- The loop with the iterator at `current` and `behind`.
moves :
    (insert : Insertion) (fuel : ℕ) (current : List Entry) (behind : List Slot) (t : Table)
    → length (current ++ held_all behind) < fuel
    → (current ≡ [] → behind ≡ [])
    → move_entries insert fuel (record { current = current; behind = behind }) t
      ≡ insert_all insert (current ++ held_all behind) t
unfolding move_entries insert_all hash_table_iterator_has_next hash_table_iterator_next held_all
moves insert zero current behind t h e = absurd (omega (arith, h))
moves insert (suc fuel) [] behind t h e =
    subst (λ ss. some t ≡ insert_all insert (held_all ss) t) (sym (e refl)) refl
moves insert (suc fuel) (x ∷ []) behind t h e =
    after_insertion (insert t x.key x.value) (λ u. move_entries insert fuel (first_taken behind) u)
      (λ u. insert_all insert (held_all behind) u)
      (λ u.
        moves insert fuel (first_taken behind).current (first_taken behind).behind u
          (omega (arith, h, ap length (remaining-first_taken behind))) (at_end behind)
        ∙ ap (λ es. insert_all insert es u) (remaining-first_taken behind))
moves insert (suc fuel) (x ∷ y ∷ es) behind t h e =
    after_insertion (insert t x.key x.value)
      (λ u. move_entries insert fuel (record { current = y ∷ es; behind = behind }) u)
      (λ u. insert_all insert ((y ∷ es) ++ held_all behind) u)
      (λ u. moves insert fuel (y ∷ es) behind u (omega (arith, h)) (λ q. ground arith))

-- The loop over a whole table inserts its entries in their order.
pub move_entries-insert_all :
    (insert : Insertion) (t new_table : Table) (fuel : ℕ)
    → length (held_all t.entries) < fuel
    → move_entries insert fuel (hash_table_get_iterator t) new_table
      ≡ insert_all insert (held_all t.entries) new_table
unfolding hash_table_get_iterator
move_entries-insert_all insert t new_table fuel h =
    moves insert fuel (first_taken t.entries).current (first_taken t.entries).behind new_table
      (omega (arith, h, ap length (remaining-first_taken t.entries))) (at_end t.entries)
    ∙ ap (λ es. insert_all insert es new_table) (remaining-first_taken t.entries)

-- A key is not found in slots that all lie behind its own.
beyond :
    (slots i : ℕ) (k : Key) (ss : List Slot)
    → AreHome slots i ss
    → home slots k < i
    → find_key k (held_all ss) ≡ none
unfolding held_all find_key
beyond slots i k [] h l = refl
beyond slots i k (s ∷ ss) h l = ground (
  arith,
  find_key-append k (held s) (held_all ss),
  beyond slots (suc i) k ss h.1 (omega arith),
  find_key-Homed slots i k (held s) h.0.1 (λ q. omega (arith, q, l)),
)

-- A key is found among all entries just where it is at home.
pub find_key-held_all :
    (slots i j : ℕ) (k : Key) (ss : List Slot)
    → AreHome slots i ss
    → home slots k ≡ i + j
    → find_key k (held_all ss) ≡ find_key k (held (get_or ss j vacant))
unfolding held_all held find_key
find_key-held_all slots i j k [] h e = refl
find_key-held_all slots i zero k (s ∷ ss) h e = ground (
  arith,
  find_key-append k (held s) (held_all ss),
  beyond slots (suc i) k ss h.1 (omega (arith, e)),
)
find_key-held_all slots i (suc j) k (s ∷ ss) h e = ground (
  arith,
  find_key-append k (held s) (held_all ss),
  find_key-held_all slots (suc i) j k ss h.1 (omega (arith, e)),
  find_key-Homed slots i k (held s) h.0.1 (λ q. omega (arith, q, e)),
)

pub held_all-Distinct : (slots i : ℕ) (ss : List Slot) → AreHome slots i ss → Distinct (held_all ss)
unfolding held_all
held_all-Distinct slots i [] h = tt
held_all-Distinct slots i (s ∷ ss) h =
    append-Distinct (held s) (held_all ss) h.0.0 (held_all-Distinct slots (suc i) ss h.1) (λ j v f.
      elim (Bool-cases (home slots j == i)) [
        | inl e ↦ beyond slots (suc i) j ss h.1 (omega (arith, (==_iff (home slots j) i).0 e))
        | inr e ↦
            ground (arith, f, find_key-Homed slots i j (held s) h.0.1 (λ q. ground (arith, e, q)))
      ])

pub find_key-entries :
    (t : Table) (k : Key) → IsValid t → find_key k (held_all t.entries) ≡ find_hash_table_entry t k
unfolding find_hash_table_entry
find_key-entries t k p =
    find_key-held_all (length t.entries) 0 (home (length t.entries) k) k t.entries p.home
      (omega arith)

vacant_slots : (n slots i : ℕ) → AreHome slots i (replicate n vacant)
unfolding held
vacant_slots zero slots i = tt
vacant_slots (suc n) slots i = ((tt, tt), vacant_slots n slots (suc i))

no_entries : (n : ℕ) → held_all (replicate n vacant) ≡ []
unfolding held held_all
no_entries zero = refl
no_entries (suc n) = no_entries n

pub make_hash_table-IsValid : (a b n : ℕ) → 0 < n → IsValid (make_hash_table a b n)
unfolding make_hash_table
make_hash_table-IsValid a b n h = record {
  has_slots = omega (arith, length-replicate n vacant, h);
  home = vacant_slots n (length (replicate n vacant)) 0;
  counted = ap length (sym (no_entries n));
}

pub make_hash_table-held_all : (a b n : ℕ) → held_all (make_hash_table a b n).entries ≡ []
unfolding make_hash_table
make_hash_table-held_all a b n = no_entries n

-- A caller's loop over the iterator: the entries that it is given, in their order.
unfoldable pub iterated : ℕ → HashTableIterator → List Entry
unfolding hash_table_iterator_has_next hash_table_iterator_next
iterated zero it = []
iterated (suc fuel) it = elim (hash_table_iterator_has_next it) [
  | none ↦ []
  | some e ↦ e ∷ iterated fuel (hash_table_iterator_next it)
]

iterated-remaining :
    (fuel : ℕ) (current : List Entry) (behind : List Slot)
    → length (current ++ held_all behind) < fuel
    → (current ≡ [] → behind ≡ [])
    → iterated fuel (record { current = current; behind = behind }) ≡ current ++ held_all behind
unfolding iterated hash_table_iterator_has_next hash_table_iterator_next held_all
iterated-remaining zero current behind h e = absurd (omega (arith, h))
iterated-remaining (suc fuel) [] behind h e = subst (λ ss. [] ≡ held_all ss) (sym (e refl)) refl
iterated-remaining (suc fuel) (x ∷ []) behind h e =
    ap (λ es. x ∷ es)
      (iterated-remaining fuel (first_taken behind).current (first_taken behind).behind
          (omega (arith, h, ap length (remaining-first_taken behind))) (at_end behind)
        ∙ remaining-first_taken behind)
iterated-remaining (suc fuel) (x ∷ y ∷ es) behind h e =
    ap (λ es. x ∷ es)
      (iterated-remaining fuel (y ∷ es) behind (omega (arith, h)) (λ q. ground arith))

-- The entries are those of the map, each key once, and as many as are counted.
pub record Lists (t : Table) (es : List Entry) : Type 0 where
  pub found : (k : Key) → find_key k es ≡ find_hash_table_entry t k
  pub distinct : Distinct es
  pub count : length es ≡ t.entries_count

-- A loop over the iterator of a valid table, run until there is no next entry, is given each key of
-- the table once, with the value that a lookup of it finds, and no other key. It ends within one
-- more round than entries are counted.
pub hash_table_iterator-Lists :
    (t : Table) (fuel : ℕ)
    → IsValid t
    → t.entries_count < fuel
    → Lists t (iterated fuel (hash_table_get_iterator t))
unfolding hash_table_get_iterator
hash_table_iterator-Lists t fuel p l =
    subst (Lists t)
      (sym (
        iterated-remaining fuel (first_taken t.entries).current (first_taken t.entries).behind
          (omega (arith, l, p.counted, ap length (remaining-first_taken t.entries)))
          (at_end t.entries)
        ∙ remaining-first_taken t.entries))
      (record {
        found = λ k. find_key-entries t k p;
        distinct = held_all-Distinct (length t.entries) 0 t.entries p.home;
        count = omega (arith, p.counted);
      })
