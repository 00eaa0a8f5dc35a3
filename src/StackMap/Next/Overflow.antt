-- ===== src/StackMap/Next/Overflow.antt =====
-- The writes of engine/bjvm/vm/stackmaptable.c to the buffer of the locals.
use tracejvm.Prelude.{
  ℕ, zero, suc, ◌≤◌, ◌<◌, ◌≡◌, ◌≢◌, ◌↔◌, refl, Bool, true, false, List, [], ◌∷◌, arith, length,
  length-set, get_elem?, none,
}
use tracejvm.StackMap.Types.{
  ValidationType, is_wide_kind, Iterator, Message, ok, out_of_bounds, IsValid,
}
use tracejvm.StackMap.Reader.{read_verification_type}
use tracejvm.StackMap.Next.{chop_local, push_local}

get_elem?-some : {A : Type 0} (xs : List A) (i : ℕ) → i < length xs → get_elem? xs i ≢ none
get_elem?-some [] i h = absurd (omega arith)
get_elem?-some (x ∷ xs) zero h = cc
get_elem?-some (x ∷ xs) (suc i) h = get_elem?-some xs i (omega arith)

wide_or_not :
    (message : Message) (it : Iterator) (v : ValidationType × List ℕ) (wide : Bool)
    → IsValid it
    → read_verification_type it.table ≡ ok v
    → is_wide_kind v.0.kind ≡ wide
    → (push_local message it ≡ out_of_bounds)
      ↔ ((it.locals_size ≡ it.max_locals) × (is_wide_kind v.0.kind ≡ true))
unfolding push_local
wide_or_not message it v true valid e w = (
  (λ h. ground (arith, length-set it.locals it.locals_size v.0)),
  λ h. ground (arith, length-set it.locals it.locals_size v.0),
)
wide_or_not message it v false valid e w = ((λ h. ground arith), λ h. ground arith)

-- A local that `append_frame` or `full_frame` reads is written past the end of the buffer just when
-- it is a double or a long and the frame has all the locals of the method already: the buffer has
-- one slot to spare, and the value and its implicit top want two. The iterator is valid.
pub push_local_out_of_bounds :
    (message : Message) (it : Iterator) (v : ValidationType × List ℕ)
    → IsValid it
    → read_verification_type it.table ≡ ok v
    → (push_local message it ≡ out_of_bounds)
      ↔ ((it.locals_size ≡ it.max_locals) × (is_wide_kind v.0.kind ≡ true))
unfolding push_local
push_local_out_of_bounds message it v valid e =
    wide_or_not message it v (is_wide_kind v.0.kind) valid e refl

-- A round of `chop_frame` reads outside the buffer just when no local is left: the check for that
-- comes after the read. The locals lie in the buffer.
pub chop_local_out_of_bounds :
    (locals : List ValidationType) (n : ℕ)
    → n ≤ length locals
    → (chop_local locals n ≡ out_of_bounds) ↔ (n ≡ 0)
unfolding chop_local
chop_local_out_of_bounds locals zero h = ((λ e. refl), λ e. refl)
chop_local_out_of_bounds locals (suc n) h =
    ((λ e. absurd (ground (arith, get_elem?-some locals n))), λ e. absurd (omega arith))
