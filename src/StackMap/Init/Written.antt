-- ===== src/StackMap/Init/Written.antt =====
-- What the loop of `init_locals` of engine/bjvm/vm/stackmaptable.c writes to the buffer.
use tracejvm.Prelude.{
  ℕ, zero, suc, ◌-◌, ◌≤◌, ◌≡◌, refl, sym, ap, ap₂, append-nil, ◌∙◌, Bool, true, false, List, [],
  ◌∷◌, ◌++◌, append_assoc, arith, length, length-append, set, lt→ltb, replicate, if◌then◌else◌,
}
use tracejvm.Descriptor.{TypeKind}
use tracejvm.StackMap.Types.{
  ValidationType, implicit_top, is_wide_kind, Result, ok, out_of_bounds, ◌>>=◌, store,
}
use tracejvm.StackMap.Init.{
  Method, type_to_validation_type, explicit_top, allocate_validation_buffer, Written, this_type,
  write_this, arg_type, write_wide, write_args, init_locals,
}

-- The locals of the parameters, as the loop writes them.
abbrev pub arg_locals : List TypeKind → List ValidationType
arg_locals [] = []
arg_locals (kind ∷ kinds) =
    arg_type kind
    ∷ (if is_wide_kind (type_to_validation_type kind)
        then implicit_top ∷ arg_locals kinds
        else arg_locals kinds)

abbrev pub written_locals : Method → List ValidationType
written_locals m = if m.is_static then arg_locals m.args else this_type m ∷ arg_locals m.args

set_next :
    (xs : List ValidationType) (y v : ValidationType) (ys : List ValidationType)
    → set (xs ++ y ∷ ys) (length xs) v ≡ (xs ++ v ∷ []) ++ ys
set_next [] y v ys = refl
set_next (x ∷ xs) y v ys = ap (λ zs. x ∷ zs) (set_next xs y v ys)

-- A write behind what was written, while there is room.
store_next :
    (xs : List ValidationType) (n : ℕ) (v : ValidationType)
    → store (xs ++ replicate (suc n) explicit_top) (length xs) v
      ≡ ok ((xs ++ v ∷ []) ++ replicate n explicit_top)
unfolding store
store_next xs n v =
    ap
      (λ b.
        if b then ok (set (xs ++ replicate (suc n) explicit_top) (length xs) v) else out_of_bounds)
      (lt→ltb (length xs) (length (xs ++ replicate (suc n) explicit_top))
        (omega (arith, length-append xs (replicate (suc n) explicit_top))))
    ∙ ap ok (set_next xs explicit_top v (replicate n explicit_top))

-- The buffer with `xs` written and room for `n` more.
abbrev pub filled : List ValidationType → ℕ → Written
filled xs n = (xs ++ replicate n explicit_top, length xs)

write_one :
    (xs : List ValidationType) (n : ℕ) (v : ValidationType) (f : Written → Result Written)
    → (store (filled xs (suc n)).0 (length xs) v >>= λ locals. f (locals, suc (length xs)))
      ≡ f (filled (xs ++ v ∷ []) n)
write_one xs n v f =
    ap (λ o. o >>= λ locals. f (locals, suc (length xs))) (store_next xs n v)
    ∙ ap (λ k. f ((xs ++ v ∷ []) ++ replicate n explicit_top, k))
        (omega (arith, length-append xs (v ∷ [])))

-- More written behind `v`, in either order of the parentheses.
regroup :
    (xs : List ValidationType) (v : ValidationType) (ys : List ValidationType) (n : ℕ)
    → ok (filled ((xs ++ v ∷ []) ++ ys) (n - length ys))
      ≡ ok (filled (xs ++ v ∷ ys) (suc n - suc (length ys)))
regroup xs v ys n = ap₂ (λ zs k. ok (filled zs k)) (append_assoc xs (v ∷ []) ys) (omega arith)

abbrev ArgsWritten : List TypeKind → Type 0
ArgsWritten kinds =
    (xs : List ValidationType) (n : ℕ)
    → length (arg_locals kinds) ≤ n
    → write_args kinds (filled xs n)
      ≡ ok (filled (xs ++ arg_locals kinds) (n - length (arg_locals kinds)))

rest_written :
    (wide : Bool) (kinds : List TypeKind)
    → ArgsWritten kinds
    → (xs : List ValidationType) (n : ℕ)
    → length (if wide then implicit_top ∷ arg_locals kinds else arg_locals kinds) ≤ n
    → (write_wide wide (filled xs n) >>= λ w. write_args kinds w)
      ≡ ok (
          filled
            (xs ++ (if wide then implicit_top ∷ arg_locals kinds else arg_locals kinds))
            (n - length (if wide then implicit_top ∷ arg_locals kinds else arg_locals kinds)))
unfolding write_wide
rest_written false kinds ih xs n h = ih xs n h
rest_written true kinds ih xs zero h = absurd (omega (arith, h))
rest_written true kinds ih xs (suc n) h =
    ap (λ o. o >>= λ w. write_args kinds w) (write_one xs n implicit_top (λ w. ok w))
    ∙ ih (xs ++ implicit_top ∷ []) n (omega (arith, h))
    ∙ regroup xs implicit_top (arg_locals kinds) n

args_written : (kinds : List TypeKind) → ArgsWritten kinds
unfolding write_args
args_written [] xs n h = ap₂ (λ zs k. ok (filled zs k)) (sym (append-nil xs)) (omega arith)
args_written (kind ∷ kinds) xs zero h = absurd (omega (arith, h))
args_written (kind ∷ kinds) xs (suc n) h =
    write_one xs n (arg_type kind) (λ w.
      write_wide (is_wide_kind (type_to_validation_type kind)) w >>= λ w'. write_args kinds w')
    ∙ rest_written (is_wide_kind (type_to_validation_type kind)) kinds (args_written kinds)
        (xs ++ arg_type kind ∷ []) n (omega (arith, h))
    ∙ regroup xs (arg_type kind)
        (if is_wide_kind (type_to_validation_type kind)
          then implicit_top ∷ arg_locals kinds
          else arg_locals kinds)
        n

this_written :
    (is_static : Bool) (this : ValidationType) (kinds : List TypeKind) (n : ℕ)
    → length (if is_static then arg_locals kinds else this ∷ arg_locals kinds) ≤ suc n
    → (write_this is_static this (replicate (suc n) explicit_top) >>= λ w. write_args kinds w)
      ≡ ok (
          filled
            (if is_static then arg_locals kinds else this ∷ arg_locals kinds)
            (suc n - length (if is_static then arg_locals kinds else this ∷ arg_locals kinds)))
unfolding write_this
this_written true this kinds n h = args_written kinds [] (suc n) h
this_written false this kinds n h =
    ap (λ o. o >>= λ w. write_args kinds w) (write_one [] n this (λ w. ok w))
    ∙ args_written kinds (this ∷ []) n (omega (arith, h))
    ∙ regroup [] this (arg_locals kinds) n

pub locals_written :
    (m : Method)
    → length (written_locals m) ≤ m.max_locals
    → init_locals m ≡ ok (filled (written_locals m) (suc m.max_locals - length (written_locals m)))
unfolding init_locals allocate_validation_buffer
locals_written m h = this_written m.is_static (this_type m) m.args m.max_locals (omega (arith, h))
