-- ===== src/HashTable/Slots.antt =====
-- The slots of the table of engine/bjvm/vm/adt.c: what each of the writes to a slot does to its
-- entries, and a table whose entries are where they are looked for.
use tracejvm.Prelude.{
  ℕ, zero, suc, ◌+◌, ◌<◌, ◌≡◌, ◌≢◌, refl, sym, ap, subst, List, [], ◌∷◌, ◌++◌, arith, length, set,
  get_or, length-append,
}
use tracejvm.HashTable.{
  Key, Entry, Slot, vacant, taken, Table, held, held_all, write_data, unlink, add_entry, write_slot,
  delete_slot,
}
use tracejvm.HashTable.Entries.{Distinct, Homed}

module _ {ℓ} {A : Type ℓ} where
  pub get_or-set_self :
      (xs : List A) (i : ℕ) (v d : A) → i < length xs → get_or (set xs i v) i d ≡ v
  get_or-set_self [] i v d h = absurd (omega (arith, h))
  get_or-set_self (x ∷ xs) zero v d h = refl
  get_or-set_self (x ∷ xs) (suc i) v d h = get_or-set_self xs i v d (omega arith)

  pub get_or-set_ne :
      (xs : List A) (i j : ℕ) (v d : A) → i ≢ j → get_or (set xs i v) j d ≡ get_or xs j d
  get_or-set_ne [] i j v d h = refl
  get_or-set_ne (x ∷ xs) zero zero v d h = absurd (h refl)
  get_or-set_ne (x ∷ xs) zero (suc j) v d h = refl
  get_or-set_ne (x ∷ xs) (suc i) zero v d h = refl
  get_or-set_ne (x ∷ xs) (suc i) (suc j) v d h = get_or-set_ne xs i j v d (λ e. h (ap suc e))

pub held-add_entry : (e : Entry) (s : Slot) → held (add_entry e s) ≡ held s ++ e ∷ []
unfolding held add_entry
held-add_entry e vacant = refl
held-add_entry e (taken head chain) = refl

pub held-write_slot :
    (k : Key) (v : ℕ) (s : Slot) → held (write_slot k v s) ≡ write_data k v (held s)
unfolding held write_slot write_data
held-write_slot k v vacant = refl
held-write_slot k v (taken head chain) = ground arith

pub held-delete_slot : (k : Key) (s : Slot) → held (delete_slot k s) ≡ unlink k (held s)
unfolding held delete_slot unlink
held-delete_slot k vacant = refl
held-delete_slot k (taken head []) = ground arith
held-delete_slot k (taken head (e ∷ es)) = ground arith

-- The entries of slot `i` of `slots`.
abbrev pub IsHome : ℕ → ℕ → List Entry → Type 0
IsHome slots i es = Distinct es × Homed slots i es

-- The same for the slots from number `i` on.
abbrev pub AreHome : ℕ → ℕ → List Slot → Type 0
AreHome slots i [] = Unit
AreHome slots i (s ∷ ss) = IsHome slots i (held s) × AreHome slots (suc i) ss

pub record IsValid (t : Table) : Type 0 where
  pub has_slots : 0 < length t.entries
  pub home : AreHome (length t.entries) 0 t.entries
  pub counted : t.entries_count ≡ length (held_all t.entries)

shift : (i j : ℕ) → suc i + j ≡ i + suc j
shift i j = omega arith

pub AreHome-get_or :
    (slots i j : ℕ) (ss : List Slot)
    → AreHome slots i ss
    → j < length ss
    → IsHome slots (i + j) (held (get_or ss j vacant))
AreHome-get_or slots i j [] h l = absurd (omega (arith, l))
AreHome-get_or slots i zero (s ∷ ss) h l = subst (λ n. IsHome slots n (held s)) (omega arith) h.0
AreHome-get_or slots i (suc j) (s ∷ ss) h l =
    subst (λ n. IsHome slots n (held (get_or ss j vacant))) (shift i j)
      (AreHome-get_or slots (suc i) j ss h.1 (omega arith))

pub AreHome-set :
    (slots i j : ℕ) (s : Slot) (ss : List Slot)
    → AreHome slots i ss
    → IsHome slots (i + j) (held s)
    → AreHome slots i (set ss j s)
AreHome-set slots i j s [] h k = tt
AreHome-set slots i zero s (u ∷ ss) h k =
    (subst (λ n. IsHome slots n (held s)) (omega arith) k, h.1)
AreHome-set slots i (suc j) s (u ∷ ss) h k = (
  h.0,
  AreHome-set slots (suc i) j s ss h.1 (subst (λ n. IsHome slots n (held s)) (sym (shift i j)) k),
)

pub length-held_all-set :
    (j : ℕ) (s : Slot) (ss : List Slot)
    → j < length ss
    → length (held_all (set ss j s)) + length (held (get_or ss j vacant))
      ≡ length (held_all ss) + length (held s)
unfolding held_all
length-held_all-set j s [] l = absurd (omega (arith, l))
length-held_all-set zero s (u ∷ ss) l =
    omega (arith, length-append (held s) (held_all ss), length-append (held u) (held_all ss))
length-held_all-set (suc j) s (u ∷ ss) l = omega (
  arith,
  length-append (held u) (held_all ss),
  length-append (held u) (held_all (set ss j s)),
  length-held_all-set j s ss (omega arith),
)
