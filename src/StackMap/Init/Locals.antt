-- ===== src/StackMap/Init/Locals.antt =====
-- The locals of the implicit frame of engine/bjvm/vm/stackmaptable.c against the parameters of the
-- method.
use tracejvm.Prelude.{
  ℕ, zero, suc, ◌+◌, ◌-◌, ◌≤◌, ◌≡◌, subst, refl, ap, ◌∙◌, true, false, Option, none, some, List, [],
  ◌∷◌, ◌++◌, arith, length, length-append, length-replicate, take, replicate, if◌then◌else◌,
}
use tracejvm.Descriptor.{TypeKind}
use tracejvm.StackMap.Types.{
  ValidationKind, ValidationType, implicit_top, is_wide_kind, Iterator, ok, ◌>>=◌, IsValid,
}
use tracejvm.StackMap.Reader.{read_u8}
use tracejvm.StackMap.Next.{
  stack_map_frame_iterator_next, has_bytes, read_frame, same_frame, finish_frame, increment_pc,
}
use tracejvm.StackMap.Init.{
  Method, type_to_validation_type, explicit_top, allocate_validation_buffer, this_type, arg_type,
  is_some, bytes_of, initial, skip_frame, skip_if_zero, stack_map_frame_iterator_init,
}
use tracejvm.StackMap.Init.Written.{arg_locals, written_locals, filled, locals_written}

-- What the locals of a parameter have to be.
abbrev pub param_locals : TypeKind → List ValidationType
param_locals TypeKind.int = record { kind = ValidationKind.integer; name = 0 } ∷ []
param_locals TypeKind.float = record { kind = ValidationKind.float; name = 0 } ∷ []
param_locals TypeKind.reference = record { kind = ValidationKind.object; name = 0 } ∷ []
param_locals TypeKind.long =
    record { kind = ValidationKind.long; name = 0 }
    ∷ record { kind = ValidationKind.top; name = 1 }
    ∷ []
param_locals TypeKind.double =
    record { kind = ValidationKind.double; name = 0 }
    ∷ record { kind = ValidationKind.top; name = 1 }
    ∷ []
param_locals _ = record { kind = ValidationKind.top; name = 0 } ∷ []

abbrev pub params_locals : List TypeKind → List ValidationType
params_locals [] = []
params_locals (kind ∷ kinds) = param_locals kind ++ params_locals kinds

abbrev pub method_locals : Method → List ValidationType
method_locals m = if m.is_static then params_locals m.args else this_type m ∷ params_locals m.args

arg_locals_lem : (kinds : List TypeKind) → arg_locals kinds ≡ params_locals kinds
unfolding type_to_validation_type
arg_locals_lem [] = refl
arg_locals_lem (kind ∷ kinds) =
    one kind (arg_locals kinds) ∙ ap (λ ls. param_locals kind ++ ls) (arg_locals_lem kinds)
  where
    one :
        (kind : TypeKind) (ls : List ValidationType)
        → arg_type kind
            ∷ (if is_wide_kind (type_to_validation_type kind) then implicit_top ∷ ls else ls)
          ≡ param_locals kind ++ ls
    one TypeKind.boolean ls = refl
    one TypeKind.char ls = refl
    one TypeKind.float ls = refl
    one TypeKind.double ls = refl
    one TypeKind.byte ls = refl
    one TypeKind.short ls = refl
    one TypeKind.int ls = refl
    one TypeKind.long ls = refl
    one TypeKind.void ls = refl
    one TypeKind.reference ls = refl

-- The iterator before the first frame: within the limits of the method, at the start of the code,
-- with an empty stack and the locals `ls`.
pub record Begun (ls : List ValidationType) (it : Iterator) : Type 0 where
  pub valid : IsValid it
  pub pc : it.pc ≡ 0
  pub empty : it.stack_size ≡ 0
  pub size : it.locals_size ≡ length ls
  pub locals : take it.locals_size it.locals ≡ ls

take_filled : (xs ys : List ValidationType) → take (length xs) (xs ++ ys) ≡ xs
take_filled [] ys = refl
take_filled (x ∷ xs) ys = ap (λ zs. x ∷ zs) (take_filled xs ys)

begun :
    (m : Method)
    → length (written_locals m) ≤ m.max_locals
    → Begun
        (written_locals m)
        (initial m (filled (written_locals m) (suc m.max_locals - length (written_locals m))))
unfolding allocate_validation_buffer
begun m h = record {
  valid = record {
    locals_room = omega (
      arith,
      h,
      length-append (written_locals m)
          (replicate (suc m.max_locals - length (written_locals m)) explicit_top),
      length-replicate (suc m.max_locals - length (written_locals m)) explicit_top,
    );
    stack_room = omega (arith, length-replicate m.max_stack explicit_top);
    locals_fit = h;
    stack_fits = omega arith;
  };
  pc = refl;
  empty = refl;
  size = refl;
  locals =
      take_filled (written_locals m)
        (replicate (suc m.max_locals - length (written_locals m)) explicit_top);
}

-- The iterator behind a first frame that changes nothing.
abbrev behind : List ℕ → Iterator → Iterator
behind bs it = record it {
  table = bs;
  stack_size = 0;
  has_next = has_bytes bs;
  pc = it.pc + 0;
  is_first = false;
}

next_same :
    (bs : List ℕ) (it : Iterator)
    → IsValid it
    → it.is_first ≡ true
    → it.table ≡ 0 ∷ bs
    → stack_map_frame_iterator_next it ≡ ok (behind bs it)
unfolding stack_map_frame_iterator_next read_frame same_frame finish_frame increment_pc read_u8
next_same bs it v f e = ground (arith, e, f, v.locals_fit)

-- What is left to read: a first frame that is the frame of the parameters at offset 0, byte 0, has been
-- read, and any other is still the first.
abbrev pub Remains : Option (List ℕ) → Iterator → Type 0
Remains none it = (it.table ≡ []) × (it.has_next ≡ false) × (it.is_first ≡ true)
Remains (some []) it = (it.table ≡ []) × (it.has_next ≡ true) × (it.is_first ≡ true)
Remains (some (zero ∷ bs)) it =
    (it.table ≡ bs) × (it.has_next ≡ has_bytes bs) × (it.is_first ≡ false)
Remains (some (suc c ∷ bs)) it =
    (it.table ≡ suc c ∷ bs) × (it.has_next ≡ true) × (it.is_first ≡ true)

-- The iterator behind the skipped frame, if there is one.
abbrev Skipped : List ℕ → Iterator → Iterator → Type 0
Skipped (zero ∷ bs) it it' = it' ≡ behind bs it
Skipped _ it it' = it' ≡ it

remains :
    (table : Option (List ℕ)) (it it' : Iterator)
    → it.table ≡ bytes_of table
    → it.has_next ≡ is_some table
    → it.is_first ≡ true
    → Skipped (bytes_of table) it it'
    → Remains table it'
remains none it it' e h f s =
    (ap (λ i. i.table) s ∙ e, ap (λ i. i.has_next) s ∙ h, ap (λ i. i.is_first) s ∙ f)
remains (some []) it it' e h f s =
    (ap (λ i. i.table) s ∙ e, ap (λ i. i.has_next) s ∙ h, ap (λ i. i.is_first) s ∙ f)
remains (some (zero ∷ bs)) it it' e h f s =
    (ap (λ i. i.table) s, ap (λ i. i.has_next) s, ap (λ i. i.is_first) s)
remains (some (suc c ∷ bs)) it it' e h f s =
    (ap (λ i. i.table) s ∙ e, ap (λ i. i.has_next) s ∙ h, ap (λ i. i.is_first) s ∙ f)

skipped :
    (m : Method) (bs : List ℕ) (it : Iterator)
    → Begun (written_locals m) it
    → it.is_first ≡ true
    → it.table ≡ bs
    → (it' : Iterator) × (skip_if_zero bs it ≡ ok it')
      × Begun (written_locals m) it'
      × Skipped bs it it'
unfolding skip_if_zero skip_frame
skipped m [] it b f e = (it, refl, b, refl)
skipped m (zero ∷ bs) it b f e = (
  behind bs it,
  ap skip_frame (next_same bs it b.valid f e),
  record {
    valid = record {
      locals_room = b.valid.locals_room;
      stack_room = b.valid.stack_room;
      locals_fit = b.valid.locals_fit;
      stack_fits = omega arith;
    };
    pc = omega (arith, b.pc);
    empty = refl;
    size = b.size;
    locals = b.locals;
  },
  refl,
)
skipped m (suc c ∷ bs) it b f e = (it, ground arith, b, refl)

initialized :
    (m : Method)
    → length (written_locals m) ≤ m.max_locals
    → (it : Iterator) × (stack_map_frame_iterator_init m ≡ ok it)
      × Begun (written_locals m) it
      × Remains m.table it
unfolding stack_map_frame_iterator_init
initialized m h =
    let w = filled (written_locals m) (suc m.max_locals - length (written_locals m)) in
    let (it, q, b, s) = skipped m (bytes_of m.table) (initial m w) (begun m h) refl refl in
    (
      it,
      ap (λ o. o >>= λ w. skip_if_zero (bytes_of m.table) (initial m w)) (locals_written m h) ∙ q,
      b,
      remains m.table (initial m w) it refl refl refl s,
    )

-- Where the parameters of a method fit its locals, the initialization gives an iterator that is
-- within its limits, at the start of the code and with an empty stack. Its locals are `this`, for a
-- method that is not static, and the parameters, each double or long with an implicit top behind it.
-- The table is left to read as it is, with the next frame as the first, except that a first frame with
-- the byte 0, the same frame at offset 0, is read already: the bytes behind it are left, there is a next
-- frame if there are any, and it is no longer the first.
pub stack_map_frame_iterator_init-Begun :
    (m : Method)
    → length (method_locals m) ≤ m.max_locals
    → (it : Iterator) × (stack_map_frame_iterator_init m ≡ ok it)
      × Begun (method_locals m) it
      × Remains m.table it
stack_map_frame_iterator_init-Begun m h =
    subst
      (λ ls.
        length ls ≤ m.max_locals
        → (it : Iterator) × (stack_map_frame_iterator_init m ≡ ok it)
          × Begun ls it
          × Remains m.table it)
      (ap (λ ls. if m.is_static then ls else this_type m ∷ ls) (arg_locals_lem m.args))
      (initialized m) h
