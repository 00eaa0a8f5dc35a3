-- ===== src/StackMap/Types.antt =====
-- The state of the iterator of engine/bjvm/vm/stackmaptable.c and stackmaptable.h, and the results of
-- its operations. A message replaces the error text; an access outside a buffer is a result too.
use tracejvm.Prelude.{
  subst, inl, inr, Bool-cases, length-set, ℕ, ◌+◌, ◌≡◌, ◌≤◌, Bool, true, false, ◌&&◌, List, length,
  set, get_elem?, none, some, ltb, if◌then◌else◌, ◌==◌,
}

pub data ValidationKind : Type 0 where
  top integer float double long null uninit_this object uninit : ValidationKind

-- `name` is 1 for the top that a double or a long leaves behind it (`IMPLICIT_TOP`), otherwise 0 or
-- a pointer.
pub record ValidationType : Type 0 where
  pub kind : ValidationKind
  pub name : ℕ

abbrev pub implicit_top : ValidationType
implicit_top = record { kind = top; name = 1 }

abbrev pub is_top : ValidationKind → Bool
is_top top = true
is_top _ = false

unfoldable pub is_implicit_top : ValidationType → Bool
is_implicit_top local = is_top local.kind && local.name == 1

abbrev pub is_wide_kind : ValidationKind → Bool
is_wide_kind double = true
is_wide_kind long = true
is_wide_kind _ = false

-- The iterator and its `impl`: `table` is what is left to read, `locals` and `stack` are the buffers.
pub record Iterator : Type 0 where
  pub table : List ℕ
  pub has_next : Bool
  pub is_first : Bool
  pub pc : ℕ
  pub stack : List ValidationType
  pub stack_size : ℕ
  pub locals : List ValidationType
  pub locals_size : ℕ
  pub max_stack : ℕ
  pub max_locals : ℕ

pub data Message : Type 0 where
  unexpected_end invalid_verification_type reserved_frame_kind chop_frame_underflow : Message
  append_frame_locals_overflow full_frame_locals_overflow full_frame_stack_overflow : Message
  stack_map_frame_overflow : Message

pub data Result {ℓ} (A : Type ℓ) : Type ℓ where
  ok : A → Result A
  err : Message → Result A
  out_of_bounds : Result A

infixl 5 ◌>>=◌
abbrev pub ◌>>=◌ {ℓ κ} : {A : Type ℓ} {B : Type κ} → Result A → (A → Result B) → Result B
ok a >>= f = f a
err e >>= f = err e
out_of_bounds >>= f = out_of_bounds

-- A write through `buffer + i`.
unfoldable pub store : List ValidationType → ℕ → ValidationType → Result (List ValidationType)
store buffer i v = if ltb i (length buffer) then ok (set buffer i v) else out_of_bounds

unfoldable pub load : List ValidationType → ℕ → Result ValidationType
load buffer i = elim (get_elem? buffer i) [ none ↦ out_of_bounds | some v ↦ ok v ]

-- The buffers have one slot more than the method asks for, and the frame fits the method.
pub record IsValid (it : Iterator) : Type 0 where
  pub locals_room : length it.locals ≡ it.max_locals + 1
  pub stack_room : length it.stack ≡ it.max_stack + 1
  pub locals_fit : it.locals_size ≤ it.max_locals
  pub stack_fits : it.stack_size ≤ it.max_stack

-- What an operation of the iterator keeps until the frame is complete.
pub record IsSized (locals stack : ℕ) (it : Iterator) : Type 0 where
  pub locals_length : length it.locals ≡ locals
  pub stack_length : length it.stack ≡ stack

-- What holds of the value of a result, if it is one.
abbrev pub Ensures {ℓ} : {A : Type ℓ} → (A → Type 0) → Result A → Type 0
Ensures P (ok a) = P a
Ensures P (err e) = Unit
Ensures P out_of_bounds = Unit

pub bind-Ensures {ℓ κ} :
    {A : Type ℓ} {B : Type κ} (P : A → Type 0) (Q : B → Type 0) (m : Result A) (f : A → Result B)
    → Ensures P m
    → ((a : A) → P a → Ensures Q (f a))
    → Ensures Q (m >>= f)
bind-Ensures P Q (ok a) f h k = k a h
bind-Ensures P Q (err e) f h k = tt
bind-Ensures P Q out_of_bounds f h k = tt

pub Ensures-ok {ℓ} :
    {A : Type ℓ} (P : A → Type 0) (m : Result A) {a : A} → Ensures P m → m ≡ ok a → P a
Ensures-ok P m h e = subst (Ensures P) e h

pub store-Ensures :
    (b : List ValidationType) (i : ℕ) (v : ValidationType)
    → Ensures (λ b'. length b' ≡ length b) (store b i v)
unfolding store
store-Ensures b i v = elim (Bool-cases (ltb i (length b))) [
  | inl h ↦ rw h (length-set b i v)
  | inr h ↦ rw h tt
]
