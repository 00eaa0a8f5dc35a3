-- ===== src/ClassFile.antt =====
-- engine/bjvm/vm/classfile.c and classfile.h: the results of the class file parser. A message replaces
-- the text of a format error, which the code leaves the parser with.
pub mod Kinds
pub mod Reader
pub mod Pool
pub mod Insn
pub mod Format
pub mod Opcodes
pub mod Parse
pub mod Code
use tracejvm.Prelude.{ℕ, ◌≡◌, refl, subst}

pub data Message : Type 0 where
  end_of_input invalid_pool_index unexpected_pool_kind invalid_pool_tag invalid_descriptor : Message
  branch_out_of_bounds switch_too_large switch_inverted invalid_array_type : Message
  invalid_wide_opcode invalid_opcode invalid_program_counter code_length_out_of_range : Message
  exception_entry_out_of_bounds exception_entry_inverted : Message

-- `stuck` is no result of the code: the fuel of a loop ran out, or an access was out of bounds.
pub data Result {ℓ} (A : Type ℓ) : Type ℓ where
  ok : A → Result A
  err : Message → Result A
  stuck : Result A

infixl 5 ◌>>=◌
abbrev pub ◌>>=◌ {ℓ κ} : {A : Type ℓ} {B : Type κ} → Result A → (A → Result B) → Result B
ok a >>= f = f a
err e >>= f = err e
stuck >>= f = stuck

-- What holds of the value of a result, if it is one.
abbrev pub Ensures {ℓ} : {A : Type ℓ} → (A → Type 0) → Result A → Type 0
Ensures P (ok a) = P a
Ensures P (err e) = Unit
Ensures P stuck = Unit

-- The result is a value or an error, and what holds of the value.
abbrev pub Returns {ℓ} : {A : Type ℓ} → (A → Type 0) → Result A → Type 0
Returns P (ok a) = P a
Returns P (err e) = Unit
Returns P stuck = ⊥

module _ {ℓ κ} {A : Type ℓ} {B : Type κ} (P : A → Type 0) (Q : B → Type 0) where
  pub bind-Ensures :
      (m : Result A) (f : A → Result B)
      → Ensures P m
      → ((a : A) → P a → Ensures Q (f a))
      → Ensures Q (m >>= f)
  bind-Ensures (ok a) f h k = k a h
  bind-Ensures (err e) f h k = tt
  bind-Ensures stuck f h k = tt

  pub bind-Returns :
      (m : Result A) (f : A → Result B)
      → Returns P m
      → ((a : A) → P a → Returns Q (f a))
      → Returns Q (m >>= f)
  bind-Returns (ok a) f h k = k a h
  bind-Returns (err e) f h k = tt
  bind-Returns stuck f h k = h

module _ {ℓ} {A : Type ℓ} (P : A → Type 0) where
  pub Ensures-ok : (m : Result A) {a : A} → Ensures P m → m ≡ ok a → P a
  Ensures-ok m h e = subst (Ensures P) e h

  pub Returns-Ensures : (m : Result A) → Returns P m → Ensures P m
  Returns-Ensures (ok a) h = h
  Returns-Ensures (err e) h = tt
  Returns-Ensures stuck h = tt

pub weaken-Returns {ℓ} :
    {A : Type ℓ} (P Q : A → Type 0) (m : Result A)
    → Returns P m
    → ((a : A) → P a → Q a)
    → Returns Q m
weaken-Returns P Q (ok a) h k = k a h
weaken-Returns P Q (err e) h k = tt
weaken-Returns P Q stuck h k = h

-- As `bind-Returns`, with the equation of the value.
pub bind_known-Returns {ℓ κ} :
    {A : Type ℓ} {B : Type κ} (P : A → Type 0) (Q : B → Type 0) (m : Result A) (f : A → Result B)
    → Returns P m
    → ((a : A) → m ≡ ok a → P a → Returns Q (f a))
    → Returns Q (m >>= f)
bind_known-Returns P Q (ok a) f h k = k a refl h
bind_known-Returns P Q (err e) f h k = tt
bind_known-Returns P Q stuck f h k = h
