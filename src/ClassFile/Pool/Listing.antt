-- ===== src/ClassFile/Pool/Listing.antt =====
-- The first pass over the constant pool of engine/bjvm/vm/classfile.c: it ends, writes in bounds, and
-- leaves alone what stands in front of the entry that it reads.
use tracejvm.Prelude.{
  ℕ, zero, suc, ◌+◌, ◌≤◌, ◌<◌, ◌≡◌, refl, ◌∙◌, Bool, true, false, List, ltb, lt→ltb, length,
  length-set, set, get_elem?, get_elem?-set_self, get_elem?-set_ne, arith, Bool-cases, inl, inr,
  some,
}
use tracejvm.ClassFile.{Result, ok, ◌>>=◌, Returns, bind-Returns, weaken-Returns}
use tracejvm.ClassFile.Reader.{
  Took, reader_next_u8, reader_next_u16, reader_next_u32, reader_next_u64, reader_next_s32,
  reader_next_s64, reader_get_slice, reader_next_u8-Took, reader_next_u16-Took,
  reader_next_u32-Took, reader_next_u64-Took, reader_next_s32-Took, reader_next_s64-Took,
  reader_get_slice-Took,
}
use tracejvm.ClassFile.Pool.{CpEntry, cp_invalid}
use tracejvm.ClassFile.Pool.Read.{
  read, Tag, tag_utf8, tag_integer, tag_float, tag_long, tag_double, tag_class, tag_string,
  tag_fieldref, tag_methodref, tag_interface_methodref, tag_name_and_type, tag_method_handle,
  tag_method_type, tag_dynamic, tag_invoke_dynamic, tag_module, tag_package, tag_of, linked_utf8,
  linked_entry, parse_named, parse_ref, parse_name_and_type, parse_utf8, parse_method_handle,
  parse_indy, parse_tag, parse_constant_pool_entry, store_entry, load_entry, write_entry,
  behind_entry, place_entry, is_wide, parse_entries,
}

Any : {A : Type 0} → A → Type 0
Any a = Unit

-- A reader in front of something that returns.
reads :
    {A B : Type 0} (k : ℕ) (bytes : List ℕ) (m : Result (A × List ℕ)) (f : A × List ℕ → Result B)
    → Returns (Took k bytes) m
    → ((r : A × List ℕ) → Returns Any (f r))
    → Returns Any (m >>= f)
reads k bytes m f h g = bind-Returns (Took k bytes) Any m f h (λ r _. g r)

one_index :
    {B : Type 0} (f : ℕ × List ℕ → B) (bytes : List ℕ)
    → Returns Any (reader_next_u16 bytes >>= λ r. ok (f r))
unfolding Any
one_index f bytes = reads 2 bytes (reader_next_u16 bytes) _ (reader_next_u16-Took bytes) (λ r. tt)

two_indices :
    {B : Type 0} (f : ℕ × List ℕ → ℕ × List ℕ → B) (bytes : List ℕ)
    → Returns Any (reader_next_u16 bytes >>= λ r. reader_next_u16 r.1 >>= λ t. ok (f r t))
two_indices f bytes =
    reads 2 bytes (reader_next_u16 bytes) _ (reader_next_u16-Took bytes) (λ r. one_index _ r.1)

parse_tag-Any :
    (tag : Tag) (pool : List CpEntry) (bytes : List ℕ) → Returns Any (parse_tag tag read pool bytes)
unfolding parse_tag parse_named parse_ref parse_name_and_type parse_utf8 parse_method_handle
    parse_indy linked_utf8 linked_entry Any
parse_tag-Any tag_class p bs = one_index _ bs
parse_tag-Any tag_module p bs = one_index _ bs
parse_tag-Any tag_package p bs = one_index _ bs
parse_tag-Any tag_string p bs = one_index _ bs
parse_tag-Any tag_method_type p bs = one_index _ bs
parse_tag-Any tag_fieldref p bs = two_indices _ bs
parse_tag-Any tag_methodref p bs = two_indices _ bs
parse_tag-Any tag_interface_methodref p bs = two_indices _ bs
parse_tag-Any tag_name_and_type p bs = two_indices _ bs
parse_tag-Any tag_dynamic p bs = two_indices _ bs
parse_tag-Any tag_invoke_dynamic p bs = two_indices _ bs
parse_tag-Any tag_method_handle p bs =
    reads 1 bs (reader_next_u8 bs) _ (reader_next_u8-Took bs)
      (λ r. reads 2 r.1 (reader_next_u16 r.1) _ (reader_next_u16-Took r.1) (λ t. tt))
parse_tag-Any tag_utf8 p bs =
    reads 2 bs (reader_next_u16 bs) _ (reader_next_u16-Took bs)
      (λ r. reads r.0 r.1 (reader_get_slice r.0 r.1) _ (reader_get_slice-Took r.0 r.1) (λ t. tt))
parse_tag-Any tag_integer p bs =
    reads 4 bs (reader_next_s32 bs) _ (reader_next_s32-Took bs) (λ r. tt)
parse_tag-Any tag_float p bs = reads 4 bs (reader_next_u32 bs) _ (reader_next_u32-Took bs) (λ r. tt)
parse_tag-Any tag_long p bs = reads 8 bs (reader_next_s64 bs) _ (reader_next_s64-Took bs) (λ r. tt)
parse_tag-Any tag_double p bs =
    reads 8 bs (reader_next_u64 bs) _ (reader_next_u64-Took bs) (λ r. tt)

tag_of-Any : (kind : ℕ) → Returns Any (tag_of kind)
unfolding tag_of Any
tag_of-Any kind = ground arith

parse_constant_pool_entry-Any :
    (pool : List CpEntry) (bytes : List ℕ) → Returns Any (parse_constant_pool_entry read pool bytes)
unfolding parse_constant_pool_entry
parse_constant_pool_entry-Any pool bytes =
    reads 1 bytes (reader_next_u8 bytes) _ (reader_next_u8-Took bytes) (λ r.
      bind-Returns Any Any (tag_of r.0) _ (tag_of-Any r.0) (λ tag _. parse_tag-Any tag pool r.1))

-- The pool behind an entry of the first pass, and the index of the next.
abbrev pub placed_if : List CpEntry → ℕ → CpEntry → Bool → List CpEntry × ℕ
placed_if pool i e true = (set (set pool i e) (suc i) cp_invalid, suc (suc i))
placed_if pool i e false = (set pool i e, suc i)

pub store_entry_ok :
    (pool : List CpEntry) (i : ℕ) (e : CpEntry)
    → i < length pool
    → store_entry pool i e ≡ ok (set pool i e)
unfolding store_entry
store_entry_ok pool i e l = rw (lt→ltb i (length pool) l) refl

pub load_entry_ok :
    (pool : List CpEntry) (i : ℕ) (e : CpEntry)
    → get_elem? pool i ≡ some e
    → load_entry pool i ≡ ok e
unfolding load_entry
load_entry_ok pool i e h = ground (arith, h)

pub behind_entry_ok :
    (pool : List CpEntry) (i : ℕ) (e : CpEntry) (b : Bool)
    → suc i < length pool
    → behind_entry (set pool i e) i b ≡ ok (placed_if pool i e b)
unfolding behind_entry
behind_entry_ok pool i e true l =
    rw (store_entry_ok (set pool i e) (suc i) cp_invalid (omega (arith, length-set pool i e))) refl
behind_entry_ok pool i e false l = refl

pub stored_entry_ok :
    (pool : List CpEntry) (i : ℕ) (e : CpEntry)
    → suc i < length pool
    → (store_entry pool i e >>= λ written.
        load_entry written i >>= λ ent. behind_entry written i (is_wide ent))
      ≡ ok (placed_if pool i e (is_wide e))
stored_entry_ok pool i e l =
    rw
      (
        store_entry_ok pool i e (omega arith),
        load_entry_ok (set pool i e) i e (get_elem?-set_self pool i e (omega arith)),
      )
      (behind_entry_ok pool i e (is_wide e) l)

pub place_entry-read :
    (pool : List CpEntry) (i : ℕ) (e : CpEntry)
    → suc i < length pool
    → place_entry read pool i e ≡ ok (placed_if pool i e (is_wide e))
unfolding place_entry write_entry
place_entry-read pool i e l = stored_entry_ok pool i e l

-- The length stays, and so do the entries below `i`.
abbrev pub Kept : ℕ → List CpEntry → List CpEntry → Type 0
Kept i before after =
    (length after ≡ length before) × ((j : ℕ) → j < i → get_elem? after j ≡ get_elem? before j)

pub placed_if-Kept :
    (pool : List CpEntry) (i : ℕ) (e : CpEntry) (b : Bool) → Kept i pool (placed_if pool i e b).0
placed_if-Kept pool i e true = (
  length-set (set pool i e) (suc i) cp_invalid ∙ length-set pool i e,
  λ j l.
      get_elem?-set_ne (set pool i e) cp_invalid (λ q. absurd (omega (arith, q)))
      ∙ get_elem?-set_ne pool e (λ q. absurd (omega (arith, q))),
)
placed_if-Kept pool i e false =
    (length-set pool i e, λ j l. get_elem?-set_ne pool e (λ q. absurd (omega (arith, q))))

pub placed_if-next :
    (pool : List CpEntry) (i : ℕ) (e : CpEntry) (b : Bool) → i < (placed_if pool i e b).1
placed_if-next pool i e true = omega arith
placed_if-next pool i e false = omega arith

abbrev pub KeptPool : ℕ → List CpEntry → List CpEntry × List ℕ → Type 0
KeptPool i before r = Kept i before r.0

pub ltb-false : (a b : ℕ) → b ≤ a → ltb a b ≡ false
ltb-false a b h = ground arith

later :
    (fuel n i : ℕ) (p : List CpEntry) (e : CpEntry) (bytes : List ℕ) (b : Bool)
    → Returns
        (KeptPool (placed_if p i e b).1 (placed_if p i e b).0)
        (parse_entries fuel read n (placed_if p i e b).1 bytes (placed_if p i e b).0)
    → Returns
        (KeptPool i p)
        (parse_entries fuel read n (placed_if p i e b).1 bytes (placed_if p i e b).0)
later fuel n i p e bytes b h =
    weaken-Returns (KeptPool (placed_if p i e b).1 (placed_if p i e b).0) (KeptPool i p)
      (parse_entries fuel read n (placed_if p i e b).1 bytes (placed_if p i e b).0) h
      (λ r k.
        let q = placed_if-Kept p i e b in
        (k.0 ∙ q.0, λ j l. k.1 j (omega (arith, placed_if-next p i e b)) ∙ q.1 j l))

-- One round of fuel for each entry is enough.
pub parse_entries-KeptPool :
    (fuel cp_count i : ℕ) (bytes : List ℕ) (pool : List CpEntry)
    → cp_count ≤ i + fuel
    → cp_count < length pool
    → Returns (KeptPool i pool) (parse_entries fuel read cp_count i bytes pool)
unfolding parse_entries
parse_entries-KeptPool zero n i bytes p h l = rw (ltb-false i n (omega arith)) (refl, λ j k. refl)
parse_entries-KeptPool (suc fuel) n i bytes p h l = elim (Bool-cases (ltb i n)) [
  | inr t ↦ rw t (refl, λ j k. refl)
  | inl t ↦ rw t (
      bind-Returns Any (KeptPool i p) (parse_constant_pool_entry read p bytes) _
        (parse_constant_pool_entry-Any p bytes)
        (λ r _. rw (place_entry-read p i r.0 (ground (arith, t))) (
          later fuel n i p r.0 r.1 (is_wide r.0) (
            parse_entries-KeptPool fuel n (placed_if p i r.0 (is_wide r.0)).1 r.1
              (placed_if p i r.0 (is_wide r.0)).0
              (omega (arith, placed_if-next p i r.0 (is_wide r.0)))
              (omega (arith, (placed_if-Kept p i r.0 (is_wide r.0)).0))))))
]
