-- ===== src/Gc/Compaction.antt =====
-- The copying of engine/bjvm/vm/gc.c, which moves objects within the same heap: `memmove` writes where
-- nothing stands any more that is still to be moved.
use tracejvm.Prelude.{ℕ, ◌+◌, ◌%◌, ◌≤◌, ◌≡◌, List, [], ◌∷◌, All, arith}
use tracejvm.Gc.{Block, align_up_8, copy_objects}

-- The blocks lie behind each other from `start` on, at multiples of 8, and end at `end` at the latest:
-- sorted by address, without overlap.
abbrev pub LaidOut : ℕ → ℕ → List Block → Type 0
LaidOut start end [] = start ≤ end
LaidOut start end (b ∷ bs) =
    (start ≤ b.address) × (b.address % 8 ≡ 0) × LaidOut (b.address + b.size) end bs

abbrev pub StartsBehind : ℕ → Block → Type 0
StartsBehind p b = p ≤ b.address

abbrev pub IsBehind : ℕ → ℕ → Type 0
IsBehind p l = p ≤ l

-- Each block moves down or stays, to a multiple of 8, and what is written there, padding included, ends
-- in front of every later block, both where that still stands and where it is moved to.
abbrev pub Slides : List Block → List ℕ → Type 0
Slides [] [] = Unit
Slides (b ∷ bs) (l ∷ ls) =
    (l ≤ b.address)
    × (l % 8 ≡ 0)
    × All (StartsBehind (l + align_up_8 b.size)) bs
    × All (IsBehind (l + align_up_8 b.size)) ls
    × Slides bs ls
Slides _ _ = ⊥

align_up_8-le : (n : ℕ) → n ≤ align_up_8 n
unfolding align_up_8
align_up_8-le n = omega arith

align_up_8-mod : (n : ℕ) → align_up_8 n % 8 ≡ 0
unfolding align_up_8
align_up_8-mod n = omega arith

align_up_8-below : (n a : ℕ) → n ≤ a → a % 8 ≡ 0 → align_up_8 n ≤ a
unfolding align_up_8
align_up_8-below n a h m = omega arith

align_up_8_mono : (n m : ℕ) → n ≤ m → align_up_8 n ≤ align_up_8 m
unfolding align_up_8
align_up_8_mono n m h = omega arith

-- A block that is moved down ends, with its padding, where it ended before or further down.
moved_end :
    (w a size : ℕ)
    → w ≤ a
    → a % 8 ≡ 0
    → align_up_8 (align_up_8 w + align_up_8 size) ≤ align_up_8 (a + size)
unfolding align_up_8
moved_end w a size h m = omega arith

LaidOut-lower :
    (p q end : ℕ) (bs : List Block)
    → align_up_8 p ≤ align_up_8 q
    → LaidOut q (align_up_8 end) bs
    → LaidOut p (align_up_8 end) bs
LaidOut-lower p q end [] h k =
    omega (arith, h, k, align_up_8-le p, align_up_8-below q (align_up_8 end) k (align_up_8-mod end))
LaidOut-lower p q end (b ∷ bs) h (k, m, rest) =
    (omega (arith, h, align_up_8-le p, align_up_8-below q b.address k m), m, rest)

LaidOut-StartsBehind :
    (p end : ℕ) (bs : List Block) → LaidOut p (align_up_8 end) bs → All (StartsBehind p) bs
LaidOut-StartsBehind p end [] h = tt
LaidOut-StartsBehind p end (b ∷ bs) (k, m, rest) = (
  k,
  LaidOut-StartsBehind p end bs (
      LaidOut-lower p (b.address + b.size) end bs
        (align_up_8_mono p (b.address + b.size) (omega arith)) rest),
)

IsBehind-weaken : (p q : ℕ) (ls : List ℕ) → p ≤ q → All (IsBehind q) ls → All (IsBehind p) ls
IsBehind-weaken p q [] h k = tt
IsBehind-weaken p q (l ∷ ls) h (k, ks) = (omega arith, IsBehind-weaken p q ls h ks)

copy_objects-IsBehind : (w : ℕ) (bs : List Block) → All (IsBehind w) (copy_objects w bs).0
unfolding copy_objects
copy_objects-IsBehind w [] = tt
copy_objects-IsBehind w (b ∷ bs) = (
  align_up_8-le w,
  IsBehind-weaken w (align_up_8 w + align_up_8 b.size) _ (omega (arith, align_up_8-le w))
      (copy_objects-IsBehind (align_up_8 w + align_up_8 b.size) bs),
)

-- If the blocks to copy are sorted by address, do not overlap, start at multiples of 8 behind the
-- pointer to write at and end before a multiple of 8, then no copy overwrites a block that is still to
-- be copied or one that has been copied, no block moves up, all locations are multiples of 8, and what
-- is written ends before that multiple of 8 too.
pub copy_objects-Slides :
    (w end : ℕ) (bs : List Block)
    → LaidOut w (align_up_8 end) bs
    → Slides bs (copy_objects w bs).0 × ((copy_objects w bs).1 ≤ align_up_8 end)
unfolding copy_objects
copy_objects-Slides w end [] h = (tt, h)
copy_objects-Slides w end (b ∷ bs) (k, m, rest) =
    let next = align_up_8 w + align_up_8 b.size in
    let laid : LaidOut next (align_up_8 end) bs =
      LaidOut-lower next (b.address + b.size) end bs (moved_end w b.address b.size k m) rest in
    let (slides, below) = copy_objects-Slides next end bs laid in
    (
      (
        align_up_8-below w b.address k m,
        align_up_8-mod w,
        LaidOut-StartsBehind next end bs laid,
        copy_objects-IsBehind next bs,
        slides,
      ),
      below,
    )
