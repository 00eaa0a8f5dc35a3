-- ===== src/Examples/Classes.antt =====
-- The tables of engine/bjvm/vm/vtable.c at work: class a/P with the method m() of package access, and
-- class b/Q below it with a public m() and a public n().
use tracejvm.Prelude.{ℕ, ◌≡◌, refl, Bool, true, false, some, none, List, [], ◌∷◌}
use tracejvm.Dispatch.{Method, OwnMethod, SuperSlot, set_up_vtable}
use tracejvm.Dispatch.Virtual.{Linked, set_up_vtable-Dispatched}
use tracejvm.Dispatch.Inheritance.{Inherited, set_up_vtable-Inherits}

abbrev method : ℕ → Bool → List ℕ → Method
method name is_public class_name = record {
  name = name ∷ [];
  descriptor = b'(' ∷ b')' ∷ b'V' ∷ [];
  is_signature_polymorphic = false;
  is_public = is_public;
  is_protected = false;
  is_private = false;
  is_static = false;
  is_ctor = false;
  is_clinit = false;
  class_name = class_name;
}

abbrev hidden : Method
hidden = method b'm' false (b'a' ∷ b'/' ∷ b'P' ∷ [])

abbrev own : ℕ → OwnMethod
own name = record {
  method = method name true (b'b' ∷ b'/' ∷ b'Q' ∷ []);
  vtable_index = 0;
  overrides = false;
}

abbrev slots : List SuperSlot
slots = record { method = hidden; vtable_index = 0 } ∷ []

abbrev owns : List OwnMethod
owns = own b'm' ∷ own b'n' ∷ []

set_up_vtable-Dispatched_example : Linked slots owns (set_up_vtable slots owns)
set_up_vtable-Dispatched_example = set_up_vtable-Dispatched slots owns (refl, (refl, tt))

set_up_vtable-Inherits_example : Inherited slots owns (set_up_vtable slots owns)
set_up_vtable-Inherits_example = set_up_vtable-Inherits slots owns

-- The classes A, B below it, C below that, each with a method m() that is private but for that of C,
-- and D with a public m() again.
abbrev private_m : ℕ → Method
private_m c = record (method b'm' false (c ∷ [])) { is_private = true }

abbrev public_m : ℕ → ℕ → OwnMethod
public_m c i = record { method = method b'm' true (c ∷ []); vtable_index = i; overrides = true }

-- C.m() takes both slots, and the index of the second.
linking_c :
    set_up_vtable
      (record { method = private_m b'A'; vtable_index = 0 }
        ∷ record { method = private_m b'B'; vtable_index = 1 }
        ∷ [])
      (record (public_m b'C' 0) { overrides = false } ∷ [])
    ≡ some (public_m b'C' 1 ∷ [], (public_m b'C' 1).method ∷ (public_m b'C' 1).method ∷ [])
unfolding set_up_vtable
linking_c = refl

-- The check fails at the first slot, where C.m() has the index 1.
linking_d :
    set_up_vtable
      (record { method = (public_m b'C' 1).method; vtable_index = 1 }
        ∷ record { method = (public_m b'C' 1).method; vtable_index = 1 }
        ∷ [])
      (record (public_m b'D' 0) { overrides = false } ∷ [])
    ≡ none
unfolding set_up_vtable
linking_d = refl
