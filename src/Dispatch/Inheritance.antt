-- ===== src/Dispatch/Inheritance.antt =====
-- The slots that a virtual table of engine/bjvm/vm/vtable.c has from the superclass.
use tracejvm.Prelude.{
  ℕ, suc, ◌≡◌, ◌≢◌, refl, sym, ap, ◌∙◌, subst, ◌⊎◌, inl, inr, Bool, true, false, Option, none, some,
  List, [], ◌∷◌, ◌++◌, append-nil, append_assoc, arith, if◌then◌else◌, Bool-cases, length,
  length-append, ◌==◌,
}
use tracejvm.Dispatch.{
  Method, OwnMethod, SuperSlot, Tables, method_overrides, method_candidate_matches, method_lookup,
  mark_override, replace_if, inherit, copy_vtable, push_if, vtable_include, push_new, set_up_vtable,
}

-- What the class finds for the method of the slot is `r`, and overrides it.
abbrev pub Overrides : List OwnMethod → SuperSlot → Method → Type 0
Overrides own s r = (method_lookup own s.method ≡ some r) × (method_overrides r s.method ≡ true)

-- Nothing that the class finds overrides it.
abbrev pub IsKept : List OwnMethod → SuperSlot → Type 0
IsKept own s = (r : Method) → ¬ Overrides own s r

-- What a class has in the slot `i` that is `s` in the superclass.
abbrev pub IsSlot : List OwnMethod → ℕ → SuperSlot → Method → Type 0
IsSlot own i s x = (Overrides own s x × (s.vtable_index ≡ i)) ⊎ ((x ≡ s.method) × IsKept own s)

-- SuperSlot by slot, from the slot `i` on; there may be more slots behind.
pub data Inherits (own : List OwnMethod) : ℕ → List SuperSlot → List Method → Type 0 where
  no_slot : {i : ℕ} {xs : List Method} → Inherits own i [] xs
  slot :
      {i : ℕ} {s : SuperSlot} {x : Method} {ss : List SuperSlot} {xs : List Method}
      → IsSlot own i s x
      → Inherits own (suc i) ss xs
      → Inherits own i (s ∷ ss) (x ∷ xs)

-- From the slot `i` on, a method that is overridden does not have the number of its slot as its index.
pub data Misnumbered (own : List OwnMethod) : ℕ → List SuperSlot → Type 0 where
  here :
      {i : ℕ} {s : SuperSlot} {r : Method} {ss : List SuperSlot}
      → Overrides own s r
      → s.vtable_index ≢ i
      → Misnumbered own i (s ∷ ss)
  later :
      {i : ℕ} {s : SuperSlot} {ss : List SuperSlot}
      → Misnumbered own (suc i) ss
      → Misnumbered own i (s ∷ ss)

-- The table that linking gives, or the reason why it fails.
abbrev pub Inherited : List SuperSlot → List OwnMethod → Option Tables → Type 0
Inherited super own none = Misnumbered own 0 super
Inherited super own (some t) = Inherits own 0 super t.1

more_behind :
    (own : List OwnMethod) (i : ℕ) (ss : List SuperSlot) (xs ys : List Method)
    → Inherits own i ss xs
    → Inherits own i ss (xs ++ ys)
more_behind own _ _ xs ys no_slot = no_slot
more_behind own _ _ _ ys (slot r h) = slot r (more_behind own _ _ _ ys h)

-- Marking leaves the methods alone.
lookup-mark_override :
    (i : ℕ) (m k : Method) (own : List OwnMethod)
    → method_lookup (mark_override i m own) k ≡ method_lookup own k
unfolding method_lookup mark_override
lookup-mark_override i m k [] = refl
lookup-mark_override i m k (o ∷ os) = elim (Bool-cases (method_candidate_matches o.method m)) [
  | inl q ↦ rw q refl
  | inr q ↦ rw q (
      ap (λ l. if method_candidate_matches o.method k then some o.method else l)
        (lookup-mark_override i m k os))
]

-- The methods of the class while the loop runs are found like those before it.
abbrev Agree : List OwnMethod → List OwnMethod → Type 0
Agree own now = (m : Method) → method_lookup now m ≡ method_lookup own m

-- What the branches for a slot leave.
abbrev OneSlot : List OwnMethod → SuperSlot → List Method → Option Tables → Type 0
OneSlot own s xs none = (r : Method) × Overrides own s r × (s.vtable_index ≢ length xs)
OneSlot own s xs (some t) =
    (x : Method) × (t.1 ≡ xs ++ x ∷ []) × IsSlot own (length xs) s x × Agree own t.0

module _ (own : List OwnMethod) where
  replaced :
      (b : Bool) (s : SuperSlot) (r : Method) (now : List OwnMethod) (xs : List Method)
      → Agree own now
      → method_lookup own s.method ≡ some r
      → method_overrides r s.method ≡ b
      → OneSlot own s xs (replace_if b s r now xs)
  unfolding replace_if
  replaced true s r now xs a h e = elim (Bool-cases (s.vtable_index == length xs)) [
    | inl q ↦ rw q (
      r,
      refl,
      inl ((h, e), ground (arith, q)),
      λ m. lookup-mark_override s.vtable_index s.method m now ∙ a m,
    )
    | inr q ↦ rw q (r, (h, e), λ p. absurd (ground (arith, q, p)))
  ]
  replaced false s r now xs a h e = (s.method, refl, inr (refl, kept), a)
    where
      kept : IsKept own s
      kept x (g, f) =
          let same : r ≡ x = ground (arith, sym h ∙ g) in
          absurd (ground (arith, e, subst (λ y. method_overrides y s.method ≡ true) (sym same) f))

  inherited :
      (s : SuperSlot) (found : Option Method) (now : List OwnMethod) (xs : List Method)
      → Agree own now
      → method_lookup own s.method ≡ found
      → OneSlot own s xs (inherit s found now xs)
  unfolding inherit
  inherited s none now xs a e =
      (s.method, refl, inr (refl, λ x h. absurd (ground (arith, sym e ∙ h.0))), a)
  inherited s (some r) now xs a e = replaced (method_overrides r s.method) s r now xs a e refl

  -- What the rest of the loop leaves.
  abbrev Copied : List SuperSlot → List Method → Option Tables → Type 0
  Copied ss xs none = Misnumbered own (length xs) ss
  Copied ss xs (some t) = (ys : List Method) × (t.1 ≡ xs ++ ys) × Inherits own (length xs) ss ys

  behind :
      (s : SuperSlot) (ss : List SuperSlot) (x : Method) (xs methods : List Method)
      (o : Option Tables)
      → methods ≡ xs ++ x ∷ []
      → IsSlot own (length xs) s x
      → Copied ss methods o
      → Copied (s ∷ ss) xs o
  behind s ss x xs methods none e h m = later (subst (λ n. Misnumbered own n ss) next m)
    where
      next : length methods ≡ suc (length xs)
      next = ap length e ∙ length-append xs (x ∷ []) ∙ omega arith
  behind s ss x xs methods (some u) e h (ys, q, k) = (
    x ∷ ys,
    q ∙ ap (λ zs. zs ++ ys) e ∙ append_assoc xs (x ∷ []) ys,
    slot h (subst (λ n. Inherits own n ss ys) next k),
  )
    where
      next : length methods ≡ suc (length xs)
      next = ap length e ∙ length-append xs (x ∷ []) ∙ omega arith

  step :
      (s : SuperSlot) (ss : List SuperSlot) (xs : List Method) (o : Option Tables)
      → OneSlot own s xs o
      → ((t : Tables) → Agree own t.0 → Copied ss t.1 (copy_vtable ss t.0 t.1))
      → Copied (s ∷ ss) xs (elim o [ none ↦ none | some t ↦ copy_vtable ss t.0 t.1 ])
  step s ss xs none (r, h, e) ih = here h e
  step s ss xs (some t) (x, e, h, b) ih = behind s ss x xs t.1 (copy_vtable ss t.0 t.1) e h (ih t b)

  copied :
      (ss : List SuperSlot) (now : List OwnMethod) (xs : List Method)
      → Agree own now
      → Copied ss xs (copy_vtable ss now xs)
  unfolding copy_vtable
  copied [] now xs a = ([], sym (append-nil xs), no_slot)
  copied (s ∷ ss) now xs a =
      step s ss xs (inherit s (method_lookup now s.method) now xs)
        (subst (λ found. OneSlot own s xs (inherit s found now xs)) (sym (a s.method))
          (inherited s (method_lookup own s.method) now xs a refl))
        (λ t b. copied ss t.0 t.1 b)

pushed_if :
    (b : Bool) (m : Method) (xs : List Method) → (ys : List Method) × (push_if b m xs ≡ xs ++ ys)
unfolding push_if
pushed_if true m xs = (m ∷ [], refl)
pushed_if false m xs = ([], sym (append-nil xs))

pushed :
    (os : List OwnMethod) (xs : List Method) → (ys : List Method) × ((push_new os xs).1 ≡ xs ++ ys)
unfolding push_new
pushed [] xs = ([], sym (append-nil xs))
pushed (o ∷ os) xs =
    let (ys, e) = pushed_if (vtable_include o) o.method xs in
    let (zs, q) = pushed os (push_if (vtable_include o) o.method xs) in
    (ys ++ zs, q ∙ ap (λ us. us ++ zs) e ∙ append_assoc xs ys zs)

-- In a build with the debug checks on, each slot of the superclass is a slot of the class, at the same
-- index. It holds the method that the class finds for that of the superclass, by the name and, unless
-- what is found is signature polymorphic, the descriptor, if that overrides it by `method_overrides`, and
-- otherwise the method of the superclass. Linking fails only where a method that is overridden has not the
-- number of its slot as its index.
pub set_up_vtable-Inherits :
    (super : List SuperSlot) (own : List OwnMethod) → Inherited super own (set_up_vtable super own)
unfolding set_up_vtable
set_up_vtable-Inherits super own =
    finished (copy_vtable super own []) (copied own super own [] (λ m. refl))
  where
    finished :
        (o : Option Tables)
        → Copied own super [] o
        → Inherited super own (elim o [ none ↦ none | some t ↦ some (push_new t.0 t.1) ])
    finished none m = m
    finished (some t) (ys, e, h) =
        let (zs, q) = pushed t.0 t.1 in
        subst (Inherits own 0 super) (sym (q ∙ ap (λ us. us ++ zs) e))
          (more_behind own 0 super ys zs h)
