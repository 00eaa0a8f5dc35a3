-- ===== src/ClassFile/Pool/Pointers.antt =====
-- The pointers that the second pass over the constant pool of engine/bjvm/vm/classfile.c checks.
use tracejvm.Prelude.{
  ℕ, ◌≡◌, refl, Bool, true, not, ◌||◌, Option, none, some, List, ◌==◌, get_elem?, get_elem?-map,
  map, bit_and, Bool-cases, inl, inr,
}
use tracejvm.ClassFile.{Result, ok, err, stuck, ◌>>=◌, Returns, bind-Returns, invalid_pool_index}
use tracejvm.ClassFile.Pool.{
  CpEntry, cp_invalid, cp_utf8, cp_field_ref, cp_method_ref, cp_interface_method_ref,
  cp_method_handle, cp_invoke_dynamic, cp_dynamic_constant, cp_kind, has_kind, check_cp_entry,
  checked_cp_entry, utf8_kind, class_kind, name_and_type_kind, reference_kinds,
}
use tracejvm.ClassFile.Pool.Read.{link, utf8_of, checked_get_utf8, linked_entry, ParsedEntry}

abbrev pub kind_fits : ℕ → ℕ → Bool
kind_fits expected_kinds kind = not (bit_and kind expected_kinds == 0) || expected_kinds == 0

-- An entry of one of the kinds stands at the index, by the kinds of the pool.
abbrev pub HasKind : List ℕ → ℕ → ℕ → Type 0
HasKind kinds expected_kinds i =
    (kind : ℕ) × (get_elem? kinds i ≡ some kind) × (kind_fits expected_kinds kind ≡ true)

-- The pointer is not null, and what it points to has one of the kinds.
abbrev pub PointsTo : List ℕ → ℕ → Option ℕ → Type 0
PointsTo kinds expected_kinds none = ⊥
PointsTo kinds expected_kinds (some i) = HasKind kinds expected_kinds i

abbrev pub EntryLinked : List ℕ → CpEntry → Type 0
EntryLinked kinds (cp_field_ref c n _) =
    PointsTo kinds class_kind c × PointsTo kinds name_and_type_kind n
EntryLinked kinds (cp_method_ref c n _) =
    PointsTo kinds class_kind c × PointsTo kinds name_and_type_kind n
EntryLinked kinds (cp_interface_method_ref c n _) =
    PointsTo kinds class_kind c × PointsTo kinds name_and_type_kind n
EntryLinked kinds (cp_method_handle _ r) = PointsTo kinds reference_kinds r
EntryLinked kinds (cp_invoke_dynamic _ n _) = PointsTo kinds name_and_type_kind n
EntryLinked kinds (cp_dynamic_constant _ n) = PointsTo kinds name_and_type_kind n
EntryLinked kinds _ = Unit

-- The first pass takes the same bytes and makes an entry of the same kind.
abbrev pub Agrees : ParsedEntry → List ℕ → CpEntry × List ℕ → Type 0
Agrees first kinds r =
    (e : CpEntry) × (first ≡ ok (e, r.1)) × (cp_kind e ≡ cp_kind r.0) × EntryLinked kinds r.0

pub bind-Agrees :
    {A : Type 0} (P : A → Type 0) (kinds : List ℕ) (m : Result A) (f g : A → ParsedEntry)
    → Returns P m
    → ((a : A) → Returns (Agrees (f a) kinds) (g a))
    → Returns (Agrees (m >>= f) kinds) (m >>= g)
bind-Agrees P kinds (ok a) f g h k = k a
bind-Agrees P kinds (err e) f g h k = tt
bind-Agrees P kinds stuck f g h k = elim h [ ]

Found : List CpEntry → ℕ → ℕ → CpEntry → Type 0
Found pool expected_kinds i e = (get_elem? pool i ≡ some e) × (has_kind expected_kinds e ≡ true)

checked_cp_entry-Found :
    (pool : List CpEntry) (i expected_kinds : ℕ)
    → Returns (Found pool expected_kinds i) (checked_cp_entry pool i expected_kinds)
unfolding checked_cp_entry check_cp_entry Found
checked_cp_entry-Found pool i k = found (get_elem? pool i) refl
  where
    found :
        (o : Option CpEntry)
        → get_elem? pool i ≡ o
        → Returns
            (Found pool k i)
            (elim o [ none ↦ err invalid_pool_index | some entry ↦ check_cp_entry entry k ])
    found none e = tt
    found (some entry) e = elim (Bool-cases (has_kind k entry)) [
      | inl h ↦ rw h (e, h)
      | inr h ↦ rw h tt
    ]

abbrev pub Any : {A : Type 0} → A → Type 0
Any a = Unit

utf8_of-Any : (e : CpEntry) → has_kind utf8_kind e ≡ true → Returns Any (utf8_of e)
utf8_of-Any (cp_utf8 s) h = tt
utf8_of-Any cp_invalid h = cc
utf8_of-Any _ h = cc

pub checked_get_utf8-Any : (pool : List CpEntry) (i : ℕ) → Returns Any (checked_get_utf8 pool i)
unfolding checked_get_utf8 Found
checked_get_utf8-Any pool i =
    bind-Returns (Found pool utf8_kind i) Any (checked_cp_entry pool i utf8_kind) _
      (checked_cp_entry-Found pool i utf8_kind) (λ e h. utf8_of-Any e h.1)

pub linked_entry-PointsTo :
    (pool : List CpEntry) (i k : ℕ)
    → Returns (PointsTo (map cp_kind pool) k) (linked_entry link pool i k)
unfolding linked_entry Found
linked_entry-PointsTo pool i k =
    bind-Returns (Found pool k i) (PointsTo (map cp_kind pool) k) (checked_cp_entry pool i k) _
      (checked_cp_entry-Found pool i k) (λ e h. (cp_kind e, get_elem?-map cp_kind pool i h.0, h.1))
