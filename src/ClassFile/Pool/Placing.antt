-- ===== src/ClassFile/Pool/Placing.antt =====
-- What the second pass over the constant pool of engine/bjvm/vm/classfile.c does to the place of an entry.
use tracejvm.Prelude.{
  ℕ, suc, ◌<◌, ◌≡◌, refl, sym, ap, subst, ◌∙◌, Bool, true, false, ◌||◌, List, map, some, ◌==◌,
  length, length-set, set, get_elem?, get_elem?-set_self, get_elem?-set_ne, get_elem?-map_inverse,
  map-set, set_same, arith, ℕ_discrete,
}
use tracejvm.ClassFile.{Returns}
use tracejvm.ClassFile.Pool.{CpEntry, cp_invalid, cp_utf8, cp_kind}
use tracejvm.ClassFile.Pool.Read.{link, write_entry, behind_entry, place_entry, is_wide}
use tracejvm.ClassFile.Pool.Pointers.{EntryLinked}
use tracejvm.ClassFile.Pool.Listing.{placed_if, load_entry_ok, stored_entry_ok}

abbrev wide_bit : ℕ → Bool
wide_bit kind = kind == 0x8 || kind == 0x10

is_wide-kind : (e : CpEntry) → is_wide e ≡ wide_bit (cp_kind e)
is_wide-kind cp_invalid = refl
is_wide-kind _ = refl

pub is_wide-eq : (a b : CpEntry) → cp_kind a ≡ cp_kind b → is_wide a ≡ is_wide b
is_wide-eq a b h = is_wide-kind a ∙ ap wide_bit h ∙ sym (is_wide-kind b)

utf8-linked : (kinds : List ℕ) (e : CpEntry) → cp_kind e ≡ 0x1 → EntryLinked kinds e
utf8-linked kinds (cp_utf8 s) h = tt
utf8-linked kinds _ h = absurd (ground (arith, h))

pub placed_if-at :
    (p : List CpEntry) (i : ℕ) (e : CpEntry) (b : Bool)
    → i < length p
    → get_elem? (placed_if p i e b).0 i ≡ some e
placed_if-at p i e true l =
    get_elem?-set_ne (set p i e) cp_invalid (λ q. absurd (omega (arith, q)))
    ∙ get_elem?-set_self p i e l
placed_if-at p i e false l = get_elem?-set_self p i e l

pub placed_if-wide :
    (p : List CpEntry) (i : ℕ) (e : CpEntry)
    → suc i < length p
    → get_elem? (placed_if p i e true).0 (suc i) ≡ some cp_invalid
placed_if-wide p i e l =
    get_elem?-set_self (set p i e) (suc i) cp_invalid (omega (arith, length-set p i e))

pub placed_if-next_eq :
    (p q : List CpEntry) (i : ℕ) (e d : CpEntry) (b c : Bool)
    → b ≡ c
    → (placed_if p i e b).1 ≡ (placed_if q i d c).1
placed_if-next_eq p q i e d true true h = refl
placed_if-next_eq p q i e d false false h = refl
placed_if-next_eq p q i e d true false h = absurd (ground (arith, h))
placed_if-next_eq p q i e d false true h = absurd (ground (arith, h))

-- What stands in the place of an entry has its kind.
pub set-kind :
    (q : List CpEntry) (i : ℕ) (e : CpEntry)
    → get_elem? (map cp_kind q) i ≡ some (cp_kind e)
    → map cp_kind (set q i e) ≡ map cp_kind q
set-kind q i e h = map-set cp_kind q i e ∙ set_same (map cp_kind q) i h

abbrev pub LinkedBelow : List ℕ → ℕ → List CpEntry → Type 0
LinkedBelow kinds i q = (j : ℕ) (e : CpEntry) → j < i → get_elem? q j ≡ some e → EntryLinked kinds e

-- The pool and the index behind an entry of the second pass, of which the kinds are those in front of it.
abbrev pub Placed : List ℕ → List CpEntry → ℕ → Bool → List CpEntry × ℕ → Type 0
Placed kinds q i b r =
    (map cp_kind r.0 ≡ map cp_kind q)
    × (r.1 ≡ (placed_if q i cp_invalid b).1)
    × (LinkedBelow kinds i q → LinkedBelow kinds r.1 r.0)

same_place :
    (kinds : List ℕ) (q : List CpEntry) (i j : ℕ) (a d : CpEntry)
    → i ≡ j
    → get_elem? q i ≡ some a
    → get_elem? q j ≡ some d
    → EntryLinked kinds a
    → EntryLinked kinds d
same_place kinds q i j a d t ha hd h =
    let same : some a ≡ some d = sym ha ∙ subst (λ n. get_elem? q n ≡ some d) (sym t) hd in
    let e : a ≡ d = cc in subst (EntryLinked kinds) e h

placed_if-Placed :
    (kinds : List ℕ) (q : List CpEntry) (i : ℕ) (e : CpEntry) (b : Bool)
    → suc i < length q
    → EntryLinked kinds e
    → get_elem? (map cp_kind q) i ≡ some (cp_kind e)
    → (b ≡ true → get_elem? (map cp_kind q) (suc i) ≡ some 0)
    → Placed kinds q i b (placed_if q i e b)
placed_if-Placed kinds q i e true l h k w = (
  set-kind (set q i e) (suc i) cp_invalid
        (subst (λ m. get_elem? m (suc i) ≡ some 0) (sym (set-kind q i e k)) (w refl))
      ∙ set-kind q i e k,
  refl,
  λ below j d lj g. elim (ℕ_discrete (suc i) j) [
    | yes s ↦
        same_place kinds (placed_if q i e true).0 (suc i) j cp_invalid d s (placed_if-wide q i e l)
          g tt
    | no s ↦ elim (ℕ_discrete i j) [
      | yes t ↦
          same_place kinds (placed_if q i e true).0 i j e d t
            (placed_if-at q i e true (omega arith)) g h
      | no t ↦
          below j d (omega (arith, s, t, lj))
            (sym (get_elem?-set_ne q e t) ∙ sym (get_elem?-set_ne (set q i e) cp_invalid s) ∙ g)
    ]
  ],
)
placed_if-Placed kinds q i e false l h k w = (
  set-kind q i e k,
  refl,
  λ below j d lj g. elim (ℕ_discrete i j) [
    | yes t ↦ same_place kinds (set q i e) i j e d t (placed_if-at q i e false (omega arith)) g h
    | no t ↦ below j d (omega (arith, t, lj)) (sym (get_elem?-set_ne q e t) ∙ g)
  ],
)

-- A string stays where the first pass has put it.
skipped-Placed :
    (kinds : List ℕ) (q : List CpEntry) (i : ℕ) (ent : CpEntry)
    → get_elem? q i ≡ some ent
    → cp_kind ent ≡ 0x1
    → Placed kinds q i false (q, suc i)
skipped-Placed kinds q i ent e k = (
  refl,
  refl,
  λ below j d lj g. elim (ℕ_discrete i j) [
    | yes t ↦ same_place kinds q i j ent d t e g (utf8-linked kinds ent k)
    | no t ↦ below j d (omega (arith, t, lj)) g
  ],
)

-- The entry that the second pass makes of a string is not written.
link-utf8 :
    (kinds : List ℕ) (q : List CpEntry) (i : ℕ) (s : List ℕ)
    → get_elem? (map cp_kind q) i ≡ some 0x1
    → Returns (Placed kinds q i false) (place_entry link q i (cp_utf8 s))
unfolding place_entry write_entry behind_entry
link-utf8 kinds q i s k =
    let (ent, e, b) = get_elem?-map_inverse cp_kind q i k in
    rw (load_entry_ok q i ent e, is_wide-kind ent, b) (skipped-Placed kinds q i ent e b)

pub place_entry-link :
    (kinds : List ℕ) (q : List CpEntry) (i : ℕ) (e : CpEntry)
    → suc i < length q
    → EntryLinked kinds e
    → get_elem? (map cp_kind q) i ≡ some (cp_kind e)
    → (is_wide e ≡ true → get_elem? (map cp_kind q) (suc i) ≡ some 0)
    → Returns (Placed kinds q i (is_wide e)) (place_entry link q i e)
unfolding place_entry write_entry
place_entry-link kinds q i (cp_utf8 s) l h k w = link-utf8 kinds q i s k
place_entry-link kinds q i e l h k w =
    rw (stored_entry_ok q i e l) (placed_if-Placed kinds q i e (is_wide e) l h k w)
