-- ===== src/Arena/Fresh.antt =====
-- The blocks that `arena_alloc` of engine/bjvm/vm/adt.c hands out.
use tracejvm.Prelude.{
  ℕ, ◌+◌, ◌*◌, ◌/◌, ◌%◌, ◌^◌, ◌<◌, ◌≤◌, ◌≡◌, ◌≢◌, refl, Bool, true, false, Option, some, List, [],
  ◌∷◌, arith, ◌==◌, if◌then◌else◌, All, ltb,
}
use tracejvm.Arena.{
  Region, Arena, arena_region_bytes, arena_init, block_size, Allocated, place_large, has_room,
  place_first, with_region, alloc_block, arena_alloc,
}

-- The regions have numbers of their own, below the next one, and use a multiple of eight bytes,
-- within their capacity.
abbrev pub AreSound : ℕ → List Region → Type 0
AreSound made [] = Unit
AreSound made (r ∷ rs) =
    ((r.id < made) × (r.used ≤ r.capacity) × (r.used % 8 ≡ 0) × All (λ s. s.id ≢ r.id) rs)
    × AreSound made rs

abbrev pub IsSound : Arena → Type 0
IsSound a = AreSound a.made a.regions

-- How many bytes of a region are handed out; none of one that is not there.
abbrev pub used_of : ℕ → List Region → ℕ
used_of id [] = 0
used_of id (r ∷ rs) = if r.id == id then r.used else used_of id rs

abbrev pub capacity_of : ℕ → List Region → ℕ
capacity_of id [] = 0
capacity_of id (r ∷ rs) = if r.id == id then r.capacity else capacity_of id rs

-- A block of `size` bytes in region `id` at `offset`: aligned, behind all that the region handed out
-- before, within its capacity, with all other regions as they were.
pub record IsFresh (a : Arena) (size : ℕ) (r : Allocated) : Type 0 where
  pub sound : IsSound r.0
  pub aligned : r.2 % 8 ≡ 0
  pub behind : used_of r.1 a.regions ≤ r.2
  pub within : r.2 + size ≤ used_of r.1 r.0.regions
  pub capacity : used_of r.1 r.0.regions ≤ capacity_of r.1 r.0.regions
  pub others : (id : ℕ) → id ≢ r.1 → used_of id r.0.regions ≡ used_of id a.regions

sound_more : (n m : ℕ) (rs : List Region) → n ≤ m → AreSound n rs → AreSound m rs
sound_more n m [] h s = tt
sound_more n m (r ∷ rs) h s =
    ((omega (arith, h, s.0.0), s.0.1, s.0.2, s.0.3), sound_more n m rs h s.1)

-- A number that no region has yet.
unused : (n : ℕ) (rs : List Region) → AreSound n rs → All (λ s. s.id ≢ n) rs
unused n [] s = tt
unused n (r ∷ rs) s = ((λ q. omega (arith, s.0.0, q)), unused n rs s.1)

used_unused : (n : ℕ) (rs : List Region) → AreSound n rs → used_of n rs ≡ 0
used_unused n [] s = refl
used_unused n (r ∷ rs) s = ground (arith, used_unused n rs s.1, s.0.0)

first-IsFresh :
    (made size : ℕ) (r : Region) (rs : List Region)
    → AreSound made (r ∷ rs)
    → size % 8 ≡ 0
    → r.used + size ≤ r.capacity
    → IsFresh
        (record { regions = r ∷ rs; made = made })
        size
        (record { regions = record r { used = r.used + size } ∷ rs; made = made }, r.id, r.used)
first-IsFresh made size r rs s e l = record {
  sound = ((s.0.0, l, omega (arith, s.0.2, e), s.0.3), s.1);
  aligned = s.0.2;
  behind = ground arith;
  within = ground arith;
  capacity = ground (arith, l);
  others = λ id n. ground (arith, n);
}

-- A region of its own, behind the first or alone.
large-IsFresh :
    (made size : ℕ) (rs : List Region)
    → AreSound made rs
    → size % 8 ≡ 0
    → IsFresh
        (record { regions = rs; made = made })
        size
        (place_large (record { regions = rs; made = made }) size)
unfolding place_large
large-IsFresh made size [] s e = record {
  sound = ((omega arith, omega arith, e, tt), tt);
  aligned = omega arith;
  behind = omega arith;
  within = ground arith;
  capacity = ground arith;
  others = λ id n. ground (arith, n);
}
large-IsFresh made size (r ∷ rs) s e = record {
  sound = (
    (omega (arith, s.0.0), s.0.1, s.0.2, ((λ q. omega (arith, s.0.0, q)), s.0.3)),
    (
      (omega arith, omega arith, e, unused made rs s.1),
      sound_more made (made + 1) rs (omega arith) s.1,
    ),
  );
  aligned = omega arith;
  behind = ground (arith, used_unused made (r ∷ rs) s);
  within = ground (arith, s.0.0);
  capacity = ground (arith, s.0.0);
  others = λ id n. ground (arith, n);
}

abbrev Allocates : Arena → ℕ → Option Allocated → Type 0
Allocates a size o = (r : Allocated) × (o ≡ some r) × IsFresh a size r

room-IsFresh :
    (made size : ℕ) (rs : List Region)
    → AreSound made rs
    → size % 8 ≡ 0
    → has_room size rs ≡ true
    → Allocates
        (record { regions = rs; made = made })
        size
        (place_first (record { regions = rs; made = made }) size)
unfolding has_room place_first
room-IsFresh made size [] s e h = ground arith
room-IsFresh made size (r ∷ rs) s e h =
    (_, refl, first-IsFresh made size r rs s e (ground (arith, h)))

-- A block in a region that was added for it.
abbrev in_added : ℕ → ℕ → List Region → Allocated
in_added made size rs = (
  record {
    regions = record { id = made; used = 0 + size; capacity = arena_region_bytes } ∷ rs;
    made = made + 1;
  },
  made,
  0,
)

added_eq :
    (made size : ℕ) (rs : List Region)
    → size ≤ arena_region_bytes
    → alloc_block 1 (with_region (record { regions = rs; made = made })) size
      ≡ some (in_added made size rs)
unfolding alloc_block has_room place_first
added_eq made size rs l = ground (arith, l)

added-IsFresh :
    (made size : ℕ) (rs : List Region)
    → AreSound made rs
    → size % 8 ≡ 0
    → size ≤ arena_region_bytes
    → IsFresh (record { regions = rs; made = made }) size (in_added made size rs)
added-IsFresh made size rs s e l = record {
  sound = (
    (omega arith, omega (arith, l), omega (arith, e), unused made rs s),
    sound_more made (made + 1) rs (omega arith) s,
  );
  aligned = omega arith;
  behind = ground (arith, used_unused made rs s);
  within = ground arith;
  capacity = ground (arith, l);
  others = λ id n. ground (arith, n);
}

allocates :
    (a : Arena) (size : ℕ) → IsSound a → size % 8 ≡ 0 → Allocates a size (alloc_block 2 a size)
unfolding alloc_block
allocates a size s e = large (ltb arena_region_bytes size) refl
  where
    small :
        (b : Bool)
        → has_room size a.regions ≡ b
        → size ≤ arena_region_bytes
        → Allocates a size
            (elim b [ true ↦ place_first a size | false ↦ alloc_block 1 (with_region a) size ])
    small true h l = room-IsFresh a.made size a.regions s e h
    small false h l = (
      in_added a.made size a.regions,
      added_eq a.made size a.regions l,
      added-IsFresh a.made size a.regions s e l,
    )

    large :
        (b : Bool)
        → ltb arena_region_bytes size ≡ b
        → Allocates a size (elim b [
          | true ↦ some (place_large a size)
          | false ↦ elim (has_room size a.regions) [
            | true ↦ place_first a size
            | false ↦ alloc_block 1 (with_region a) size
          ]
        ])
    large true h = (place_large a size, refl, large-IsFresh a.made size a.regions s e)
    large false h = small (has_room size a.regions) refl (ground (arith, h))

pub arena_init-IsSound : IsSound arena_init
unfolding arena_init
arena_init-IsSound = tt

-- An allocation from a sound arena gives a block with room for `count * bytes` bytes, a number that
-- does not overflow. It is aligned to 8 bytes, lies within its region behind everything that was
-- handed out of that region before, and leaves what is handed out of all others alone, so that no two
-- blocks overlap. The arena stays sound.
pub arena_alloc-IsFresh :
    (a : Arena) (count bytes : ℕ)
    → IsSound a
    → count * bytes + 7 < 2 ^ 64
    → (size : ℕ) × (r : Allocated) × (count * bytes ≤ size)
      × (arena_alloc a count bytes ≡ some r)
      × IsFresh a size r
unfolding arena_alloc block_size
arena_alloc-IsFresh a count bytes s h =
    let (r, q, f) = allocates a (block_size count bytes) s (multiple (count * bytes)) in
    (block_size count bytes, r, rounded (count * bytes) h, q, f)
  where
    multiple : (n : ℕ) → (n % 2 ^ 64 + 7) % 2 ^ 64 / 8 * 8 % 8 ≡ 0
    multiple n = omega arith

    rounded : (n : ℕ) → n + 7 < 2 ^ 64 → n ≤ (n % 2 ^ 64 + 7) % 2 ^ 64 / 8 * 8
    rounded n h = omega (arith, h)
