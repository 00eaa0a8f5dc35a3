-- ===== src/Dispatch.antt =====
-- engine/bjvm/vm/vtable.c: the table of virtual methods of a class, and which methods override.
-- A table holds the methods themselves where the code has pointers to them. A build with its debug checks
-- on is modelled: a failed `DCHECK` is `none`.
pub mod Placement
pub mod Virtual
pub mod Inheritance
use tracejvm.Prelude.{
  ℕ, zero, suc, ◌+◌, Bool, true, false, not, ◌&&◌, ◌||◌, Option, none, some, List, [], ◌∷◌, ◌++◌,
  ◌==◌, if◌then◌else◌, length, get_elem?,
}
use tracejvm.HashTable.{same_key}

-- `cp_method`, with the access flags that are read and the name of its class.
pub record Method : Type 0 where
  pub name : List ℕ
  pub descriptor : List ℕ
  pub is_signature_polymorphic : Bool
  pub is_public : Bool
  pub is_protected : Bool
  pub is_private : Bool
  pub is_static : Bool
  pub is_ctor : Bool
  pub is_clinit : Bool
  pub class_name : List ℕ

-- A method of the class that is linked, with the fields that linking sets.
pub record OwnMethod : Type 0 where
  pub method : Method
  pub vtable_index : ℕ
  pub overrides : Bool

-- A method in the table of the superclass, with its index, which another slot may have set.
pub record SuperSlot : Type 0 where
  pub method : Method
  pub vtable_index : ℕ

-- The name before its last slash, which `strrchr` finds.
unfoldable pub package_of : List ℕ → Option (List ℕ)
package_of [] = none
package_of (c ∷ cs) = elim (package_of cs) [
  | some p ↦ some (c ∷ p)
  | none ↦ if c == b'/' then some [] else none
]

unfoldable pub same_package : Option (List ℕ) → Option (List ℕ) → Bool
unfolding same_key
same_package none none = true
same_package none (some b) = false
same_package (some a) none = false
same_package (some a) (some b) = same_key a b

unfoldable pub same_runtime_package : List ℕ → List ℕ → Bool
unfolding package_of same_package
same_runtime_package a b = same_package (package_of a) (package_of b)

-- The overriding method first; a null one is left to the caller.
unfoldable pub method_overrides : Method → Method → Bool
unfolding same_runtime_package
method_overrides m overridden =
    not m.is_private
    && ((m.is_protected || m.is_public) || same_runtime_package m.class_name overridden.class_name)

-- `method_candidate_matches`
unfoldable pub method_candidate_matches : Method → Method → Bool
unfolding same_key
method_candidate_matches candidate m =
    same_key candidate.name m.name
    && (candidate.is_signature_polymorphic || same_key candidate.descriptor m.descriptor)

-- `method_lookup` in the class alone: the first method that matches.
unfoldable pub method_lookup : List OwnMethod → Method → Option Method
unfolding method_candidate_matches
method_lookup [] m = none
method_lookup (o ∷ os) m =
    if method_candidate_matches o.method m then some o.method else method_lookup os m

-- The writes to the method that was found.
unfoldable pub mark_override : ℕ → Method → List OwnMethod → List OwnMethod
unfolding method_candidate_matches
mark_override i m [] = []
mark_override i m (o ∷ os) =
    if method_candidate_matches o.method m
    then record o { vtable_index = i; overrides = true } ∷ os
    else o ∷ mark_override i m os

abbrev pub Tables : Type 0
Tables = List OwnMethod × List Method

-- The two branches for a slot that has the replacement `r`, in a table that has `methods` so far: the
-- method that was found takes the index of the replaced one, which is checked against the slot.
unfoldable pub replace_if : Bool → SuperSlot → Method → List OwnMethod → List Method → Option Tables
unfolding mark_override
replace_if true s r own methods =
    if s.vtable_index == length methods
    then some (mark_override s.vtable_index s.method own, methods ++ r ∷ [])
    else none
replace_if false s r own methods = some (own, methods ++ s.method ∷ [])

unfoldable pub inherit : SuperSlot → Option Method → List OwnMethod → List Method → Option Tables
unfolding method_overrides replace_if
inherit s none own methods = some (own, methods ++ s.method ∷ [])
inherit s (some r) own methods = replace_if (method_overrides r s.method) s r own methods

-- The loop over the table of the superclass.
unfoldable pub copy_vtable : List SuperSlot → List OwnMethod → List Method → Option Tables
unfolding method_lookup inherit
copy_vtable [] own methods = some (own, methods)
copy_vtable (s ∷ ss) own methods = elim (inherit s (method_lookup own s.method) own methods) [
  | none ↦ none
  | some t ↦ copy_vtable ss t.0 t.1
]

unfoldable pub vtable_include : OwnMethod → Bool
vtable_include o =
    not o.method.is_ctor && (not o.method.is_clinit && (not o.method.is_static && not o.overrides))

unfoldable pub number_if : Bool → ℕ → OwnMethod → OwnMethod
number_if true i o = record o { vtable_index = i }
number_if false i o = o

unfoldable pub push_if : Bool → Method → List Method → List Method
push_if true m methods = methods ++ m ∷ []
push_if false m methods = methods

-- The last loop, over the methods of the class.
unfoldable pub push_new : List OwnMethod → List Method → Tables
unfolding vtable_include number_if push_if
push_new [] methods = ([], methods)
push_new (o ∷ os) methods =
    let t = push_new os (push_if (vtable_include o) o.method methods) in
    (number_if (vtable_include o) (length methods) o ∷ t.0, t.1)

-- The part of `set_up_function_tables` that sets up the virtual table, for a superclass with the
-- table `super`; it is empty for a class with none.
unfoldable pub set_up_vtable : List SuperSlot → List OwnMethod → Option Tables
unfolding copy_vtable push_new
set_up_vtable super own = elim (copy_vtable super own []) [
  | none ↦ none
  | some t ↦ some (push_new t.0 t.1)
]

-- `none` is the failed check of the index.
abbrev pub vtable_lookup : List Method → ℕ → Option Method
vtable_lookup methods i = get_elem? methods i
