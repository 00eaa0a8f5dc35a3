-- ===== src/Dispatch/Virtual.antt =====
-- The virtual table of engine/bjvm/vm/vtable.c after linking.
use tracejvm.Prelude.{
  ℕ, zero, suc, ◌≡◌, sym, ◌∙◌, subst, Option, none, some, List, ◌∷◌, inl, inr, get_elem?, All,
}
use tracejvm.Dispatch.{Method, OwnMethod, SuperSlot, Tables, set_up_vtable, vtable_lookup}
use tracejvm.Dispatch.Inheritance.{
  Overrides, IsSlot, Inherits, no_slot, slot, Misnumbered, Inherited, set_up_vtable-Inherits,
}
use tracejvm.Dispatch.Placement.{Dispatched, IsUnlinked, AllDispatched, set_up_vtable-AllDispatched}

-- A call by the index of a slot of the superclass reaches the method that overrides it.
abbrev pub Reaches : List SuperSlot → List OwnMethod → List Method → Type 0
Reaches super own methods =
    (i : ℕ) (s : SuperSlot) (r : Method)
    → get_elem? super i ≡ some s
    → Overrides own s r
    → vtable_lookup methods i ≡ some r

-- What linking leaves, or the reason why it fails.
abbrev pub Linked : List SuperSlot → List OwnMethod → Option Tables → Type 0
Linked super own none = Misnumbered own 0 super
Linked super own (some t) = All (Dispatched t.1) t.0 × Reaches super own t.1

slot-Overrides :
    (own : List OwnMethod) (k : ℕ) (s : SuperSlot) (x r : Method)
    → IsSlot own k s x
    → Overrides own s r
    → some x ≡ some r
slot-Overrides own k s x r (inl (o, _)) h = sym o.0 ∙ h.0
slot-Overrides own k s x r (inr (_, kept)) h = absurd (kept r h)

reached :
    (own : List OwnMethod) (k : ℕ) (super : List SuperSlot) (methods : List Method)
    → Inherits own k super methods
    → Reaches super own methods
reached own _ _ _ no_slot i s r e h = cc
reached own k (s' ∷ ss) (x ∷ xs) (slot q _) zero s r e h =
    let same : s' ≡ s = cc in
    slot-Overrides own k s' x r q (subst (λ u. Overrides own u r) (sym same) h)
reached own k (s' ∷ ss) (x ∷ xs) (slot _ rest) (suc i) s r e h =
    reached own (suc k) ss xs rest i s r e h

linked :
    (super : List SuperSlot) (own : List OwnMethod) (o : Option Tables)
    → Inherited super own o
    → AllDispatched o
    → Linked super own o
linked super own none h d = h
linked super own (some t) h d = (d, reached own 0 super t.1 h)

-- In a build with the debug checks on, linking a class of which no method was marked as overriding before
-- gives a table in which a virtual call of any of its methods that is not static, a constructor or a class
-- initializer finds that method at its index, and a call by the index of a slot of the superclass finds
-- the method of the class that overrides the one there by `method_overrides`, if there is one; or it
-- fails, and then a method that is overridden has not the number of its slot as its index.
pub set_up_vtable-Dispatched :
    (super : List SuperSlot) (own : List OwnMethod)
    → IsUnlinked own
    → Linked super own (set_up_vtable super own)
set_up_vtable-Dispatched super own h =
    linked super own (set_up_vtable super own) (set_up_vtable-Inherits super own)
      (set_up_vtable-AllDispatched super own h)
