-- ===== src/HashTable/Place.antt =====
-- One slot of the table of engine/bjvm/vm/adt.c in the place of another.
use tracejvm.Prelude.{
  ℕ, ◌+◌, ◌<◌, ◌≡◌, ◌≢◌, sym, ap, subst, ◌∙◌, inl, inr, true, false, Option, List, arith, ◌==◌,
  ==_iff, if◌then◌else◌, length, set, get_or, length-set, Bool-cases,
}
use tracejvm.HashTable.{
  home, Key, same_key, Slot, vacant, Table, held, find_key, slot_of, set_slot,
  find_hash_table_entry,
}
use tracejvm.HashTable.Entries.{same_key_eq}
use tracejvm.HashTable.Slots.{
  get_or-set_self, get_or-set_ne, IsHome, AreHome, IsValid, AreHome-get_or, AreHome-set,
  length-held_all-set,
}

pub home_lt : (t : Table) (k : Key) → IsValid t → home (length t.entries) k < length t.entries
home_lt t k v = omega (arith, v.has_slots)

-- The table with slot `s` in the place of the slot of `k`.
abbrev pub with_slot : Table → Key → Slot → ℕ → Table
with_slot t k s count = record t { entries = set_slot t k s; entries_count = count }

-- A slot that was written is found at its own number, and the others as before.
get_or-set :
    (ss : List Slot) (h i : ℕ) (s : Slot)
    → h < length ss
    → get_or (set ss h s) i vacant ≡ (if h == i then s else get_or ss i vacant)
get_or-set ss h i s l = elim (Bool-cases (h == i)) [
  | inl e ↦ rw e (
      subst (λ i'. get_or (set ss h s) i' vacant ≡ s) ((==_iff h i).0 e)
        (get_or-set_self ss h s vacant l))
  | inr e ↦ rw e (get_or-set_ne ss h i s vacant (λ q. ground (arith, e, q)))
]

pub find-with_slot :
    (t : Table) (k j : Key) (s : Slot) (count : ℕ)
    → IsValid t
    → find_hash_table_entry (with_slot t k s count) j
      ≡ find_key j
          (held (if home (length t.entries) k == home (length t.entries) j then s else slot_of t j))
unfolding find_hash_table_entry
find-with_slot t k j s count v =
    ap (λ n. find_key j (held (get_or (set_slot t k s) (home n j) vacant)))
      (length-set t.entries (home (length t.entries) k) s)
    ∙ ap (λ u. find_key j (held u))
        (get_or-set t.entries (home (length t.entries) k) (home (length t.entries) j) s
          (home_lt t k v))

pub IsValid-with_slot :
    (t : Table) (k : Key) (s : Slot) (count : ℕ)
    → IsValid t
    → IsHome (length t.entries) (home (length t.entries) k) (held s)
    → count + length (held (slot_of t k)) ≡ t.entries_count + length (held s)
    → IsValid (with_slot t k s count)
IsValid-with_slot t k s count v h c = record {
  has_slots = omega (arith, length-set t.entries (home (length t.entries) k) s, v.has_slots);
  home =
      subst (λ n. AreHome n 0 (set_slot t k s))
        (sym (length-set t.entries (home (length t.entries) k) s))
        (AreHome-set (length t.entries) 0 (home (length t.entries) k) s t.entries v.home
          (subst (λ n. IsHome (length t.entries) n (held s)) (omega arith) h));
  counted = omega (
    arith,
    c,
    v.counted,
    length-held_all-set (home (length t.entries) k) s t.entries (home_lt t k v),
  );
}

pub slot-IsHome :
    (t : Table) (k : Key)
    → IsValid t
    → IsHome (length t.entries) (home (length t.entries) k) (held (slot_of t k))
slot-IsHome t k v =
    subst (λ n. IsHome (length t.entries) n (held (slot_of t k))) (omega arith)
      (AreHome-get_or (length t.entries) 0 (home (length t.entries) k) t.entries v.home
        (home_lt t k v))

slot_of_home :
    (t : Table) (k j : Key)
    → (home (length t.entries) k == home (length t.entries) j) ≡ true
    → slot_of t k ≡ slot_of t j
slot_of_home t k j e =
    ap (λ i. get_or t.entries i vacant)
      ((==_iff (home (length t.entries) k) (home (length t.entries) j)).0 e)

other_home : (n : ℕ) (k j : Key) → (home n k == home n j) ≡ false → same_key k j ≡ false
other_home n k j e = elim (Bool-cases (same_key k j)) [
  | inl s ↦ absurd (apart (home n k) (home n j) e (ap (home n) (same_key_eq k j s)))
  | inr s ↦ s
]
  where
    apart : (a b : ℕ) → (a == b) ≡ false → a ≢ b
    apart a b e q = ground (arith, e, q)

-- A new slot for `k` that finds `r` for it and what it found for any other key.
pub find-changed :
    (t : Table) (k j : Key) (s : Slot) (count : ℕ) (r : Option ℕ)
    → IsValid t
    → (find_key j (held s) ≡ (if same_key k j then r else find_key j (held (slot_of t k))))
    → find_hash_table_entry (with_slot t k s count) j
      ≡ (if same_key k j then r else find_hash_table_entry t j)
unfolding find_hash_table_entry
find-changed t k j s count r v h =
    elim (Bool-cases (home (length t.entries) k == home (length t.entries) j)) [
      | inl e ↦
          find-with_slot t k j s count v
          ∙ ap (λ b. find_key j (held (if b then s else slot_of t j))) e
          ∙ h
          ∙ ap (λ u. if same_key k j then r else find_key j (held u)) (slot_of_home t k j e)
      | inr e ↦
          find-with_slot t k j s count v
          ∙ ap (λ b. find_key j (held (if b then s else slot_of t j))) e
          ∙ sym (
              ap (λ b. if b then r else find_key j (held (slot_of t j)))
                (other_home (length t.entries) k j e))
    ]
