-- ===== src/Interpreter/Switch.antt =====
-- The switches of engine/bjvm/vm/interpreter2.c, on the indices of instructions.
use tracejvm.Prelude.{
  ℕ, zero, suc, ◌+◌, ◌-◌, ◌<◌, ◌≡◌, refl, Bool, false, Option, none, some, List, [], ◌∷◌, length,
  get_elem?, All, arith, ◌==◌, ltb, ◌||◌, if◌then◌else◌, ℤ, pos, negsuc, ◌+ℤ◌, ◌-ℤ◌, pos_part,
  neg_part, Bool-cases, inl, inr,
}
use tracejvm.ClassFile.Insn.{
  TableswitchData, LookupswitchData, Operand, tableswitch_operand, lookupswitch_operand,
  targets_count,
}
use tracejvm.ClassFile.Insn.Bounds.{IsBelow, OperandInBounds}

-- `<` and `==` on `s32`
abbrev pub less : ℤ → ℤ → Bool
less a b = ltb (pos_part a + neg_part b) (neg_part a + pos_part b)

abbrev pub same : ℤ → ℤ → Bool
same (pos a) (pos b) = a == b
same (negsuc a) (negsuc b) = a == b
same _ _ = false

-- `insns` points at the instruction `pc`: the move by `delta`, and the one of the dispatch behind it.
unfoldable pub jump : ℕ → ℕ → ℤ
unfolding ◌+ℤ◌ ◌-ℤ◌
jump pc target = let delta = pos target -ℤ pos 1 -ℤ pos pc in pos pc +ℤ delta +ℤ pos 1

-- A read out of the bounds of the array is `none`.
abbrev pub target_at : List ℕ → ℤ → Option ℕ
target_at offsets (pos i) = get_elem? offsets i
target_at offsets (negsuc i) = none

unfoldable pub tableswitch_target : TableswitchData → ℤ → Option ℕ
unfolding ◌-ℤ◌
tableswitch_target d key =
    if less key d.low || less d.high key
    then some d.default_target
    else target_at d.targets (key -ℤ d.low)

-- The keys are tried one by one.
unfoldable pub find_target : ℤ → ℕ → List ℤ → List ℕ → Option ℕ
find_target key default_target [] offsets = some default_target
find_target key default_target (k ∷ ks) [] =
    if same k key then none else find_target key default_target ks []
find_target key default_target (k ∷ ks) (t ∷ ts) =
    if same k key then some t else find_target key default_target ks ts

abbrev pub lookupswitch_target : LookupswitchData → ℤ → Option ℕ
lookupswitch_target d key = find_target key d.default_target d.keys d.targets

abbrev pub land : ℕ → Option ℕ → Option ℤ
land pc none = none
land pc (some target) = some (jump pc target)

-- The instruction behind the switch at `pc`, if it is one.
unfoldable pub switch_impl : ℕ → Operand → ℤ → Option ℤ
unfolding tableswitch_target find_target
switch_impl pc (tableswitch_operand d) key = land pc (tableswitch_target d key)
switch_impl pc (lookupswitch_operand d) key = land pc (lookupswitch_target d key)
switch_impl pc _ key = none

pub jump-target : (pc target : ℕ) → jump pc target ≡ pos target
unfolding jump ◌+ℤ◌ ◌-ℤ◌
jump-target pc zero = ground arith
jump-target pc (suc target) = ground arith

-- The target is one, and below `n`.
unfoldable pub Chosen : ℕ → Option ℕ → Type 0
Chosen n o = (target : ℕ) × (o ≡ some target) × (target < n)

get_elem?-Chosen :
    (n : ℕ) (targets : List ℕ) (i : ℕ)
    → All (IsBelow n) targets
    → i < length targets
    → Chosen n (get_elem? targets i)
unfolding Chosen
get_elem?-Chosen n [] i ls l = absurd (omega (arith, l))
get_elem?-Chosen n (t ∷ ts) zero (l, ls) _ = (t, refl, l)
get_elem?-Chosen n (t ∷ ts) (suc i) (l, ls) k = get_elem?-Chosen n ts i ls (omega (arith, k))

-- A key between the bounds of a table is at one of its places.
between :
    (low high key : ℤ) (count : ℕ)
    → pos count ≡ targets_count low high
    → (less key low || less high key) ≡ false
    → (i : ℕ) × (key -ℤ low ≡ pos i) × (i < count)
unfolding ◌+ℤ◌ ◌-ℤ◌
between low high key count e h = (
  pos_part key + neg_part low - (neg_part key + pos_part low),
  ground (arith, h),
  ground (arith, e, h),
)

pub tableswitch_target-Chosen :
    (n : ℕ) (d : TableswitchData) (key : ℤ)
    → OperandInBounds n false (tableswitch_operand d)
    → Chosen n (tableswitch_target d key)
unfolding Chosen tableswitch_target
tableswitch_target-Chosen n d key (l, ls, size) =
    elim (Bool-cases (less key d.low || less d.high key)) [
      | inl e ↦ rw e (d.default_target, refl, l)
      | inr e ↦
          let (i, p, k) = between d.low d.high key (length d.targets) size e in
          rw (e, p) (get_elem?-Chosen n d.targets i ls k)
    ]

pub find_target-Chosen :
    (n : ℕ) (key : ℤ) (default_target : ℕ) (keys : List ℤ) (targets : List ℕ)
    → default_target < n
    → All (IsBelow n) targets
    → length targets ≡ length keys
    → Chosen n (find_target key default_target keys targets)
unfolding Chosen find_target
find_target-Chosen n key t [] targets l ls e = (t, refl, l)
find_target-Chosen n key t (k ∷ ks) [] l ls e = absurd (omega (arith, e))
find_target-Chosen n key t (k ∷ ks) (u ∷ us) l (k0, ls) e = elim (Bool-cases (same k key)) [
  | inl h ↦ rw h (u, refl, k0)
  | inr h ↦ rw h (find_target-Chosen n key t ks us l ls (omega (arith, e)))
]
