-- ===== src/Arena.antt =====
-- engine/bjvm/vm/adt.c and adt.h: the arena, a list of regions that hand out their bytes in order. A
-- region is named by a number in place of its address; what is handed out is a region and an offset
-- in its data. The allocations of the system succeed.
pub mod Fresh
use tracejvm.Prelude.{
  ℕ, zero, suc, ◌+◌, ◌-◌, ◌*◌, ◌/◌, ◌%◌, ◌^◌, Bool, true, false, Option, none, some, List, [], ◌∷◌,
  ltb, if◌then◌else◌,
}

-- `arena_region`
pub record Region : Type 0 where
  pub id : ℕ
  pub used : ℕ
  pub capacity : ℕ

-- `arena`, its regions from `begin` on, and the number of the next region.
pub record Arena : Type 0 where
  pub regions : List Region
  pub made : ℕ

unfoldable pub arena_init : Arena
arena_init = record { regions = []; made = 0 }

abbrev pub arena_region_bytes : ℕ
arena_region_bytes = 4096

-- `align_up(count * bytes, 8)`, in 64 bits.
unfoldable pub block_size : ℕ → ℕ → ℕ
block_size count bytes = (count * bytes % 2 ^ 64 + 7) % 2 ^ 64 / 8 * 8

abbrev pub Allocated : Type 0
Allocated = Arena × ℕ × ℕ

-- A region of its own, behind the first, which goes on to be filled.
unfoldable pub place_large : Arena → ℕ → Allocated
place_large a allocate =
    let region : Region = record { id = a.made; used = allocate; capacity = allocate } in
    (
      record {
        regions = elim a.regions [ [] ↦ region ∷ [] | r ∷ rs ↦ r ∷ region ∷ rs ];
        made = a.made + 1;
      },
      a.made,
      0,
    )

unfoldable pub has_room : ℕ → List Region → Bool
has_room allocate [] = false
has_room allocate (r ∷ rs) = if ltb r.capacity (r.used + allocate) then false else true

-- The end of `arena_alloc`, which takes the bytes from the first region.
unfoldable pub place_first : Arena → ℕ → Option Allocated
place_first a allocate = elim a.regions [
  | [] ↦ none
  | r ∷ rs ↦ some (record a { regions = record r { used = r.used + allocate } ∷ rs }, r.id, r.used)
]

abbrev pub with_region : Arena → Arena
with_region a = record {
  regions = record { id = a.made; used = 0; capacity = arena_region_bytes } ∷ a.regions;
  made = a.made + 1;
}

-- `arena_alloc` of a block of that size; `none` means that the fuel ran out.
unfoldable pub alloc_block : ℕ → Arena → ℕ → Option Allocated
unfolding place_large has_room place_first
alloc_block zero a allocate = none
alloc_block (suc fuel) a allocate = elim (ltb arena_region_bytes allocate) [
  | true ↦ some (place_large a allocate)
  | false ↦ elim (has_room allocate a.regions) [
    | true ↦ place_first a allocate
    | false ↦ alloc_block fuel (with_region a) allocate
  ]
]

-- It calls itself once at most, since a new region has room for the block.
unfoldable pub arena_alloc : Arena → ℕ → ℕ → Option Allocated
unfolding alloc_block block_size
arena_alloc a count bytes = alloc_block 2 a (block_size count bytes)
