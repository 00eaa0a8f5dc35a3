-- ===== src/ClassFile/Pool/Resolved.antt =====
-- `finish_constant_pool_entry` of engine/bjvm/vm/classfile.c follows no pointer that is null or points at
-- another kind of entry.
use tracejvm.Prelude.{
  ℕ, ◌≡◌, ◌≢◌, refl, sym, subst, true, Option, none, some, List, [], ◌∷◌, map,
  get_elem?-map_inverse,
}
use tracejvm.Descriptor
use tracejvm.Descriptor.{FieldDescriptor, parse_field_descriptor}
use tracejvm.Descriptor.Method.{MethodDescriptor, parse_method_descriptor}
use tracejvm.Descriptor.Signature.{parse_method_descriptor_ends}
use tracejvm.ClassFile.{Returns, bind-Returns}
use tracejvm.ClassFile.Pool.{
  CpEntry, cp_invalid, cp_field_ref, cp_method_ref, cp_interface_method_ref, cp_name_and_type,
  cp_method_handle, cp_method_type, cp_invoke_dynamic, cp_dynamic_constant, cp_kind, class_kind,
  name_and_type_kind, reference_kinds,
}
use tracejvm.ClassFile.Pool.Finish.{
  whole_field, parse_complete_field_descriptor, method_or_error, descriptor_of, nat_descriptor,
  nat_method, finish_constant_pool_entry,
}
use tracejvm.ClassFile.Pool.Pointers.{PointsTo, kind_fits, EntryLinked}
use tracejvm.ClassFile.Pool.Listing.{load_entry_ok}

abbrev pub IsSome : {A : Type 0} → Option A → Type 0
IsSome none = ⊥
IsSome (some a) = Unit

-- Every pointer is the index of an entry of the right kind, and the descriptor has been parsed.
abbrev pub EntryResolved : List ℕ → CpEntry → Type 0
EntryResolved kinds (cp_field_ref c n d) =
    PointsTo kinds class_kind c × PointsTo kinds name_and_type_kind n × IsSome d
EntryResolved kinds (cp_method_ref c n d) =
    PointsTo kinds class_kind c × PointsTo kinds name_and_type_kind n × IsSome d
EntryResolved kinds (cp_interface_method_ref c n d) =
    PointsTo kinds class_kind c × PointsTo kinds name_and_type_kind n × IsSome d
EntryResolved kinds (cp_method_handle _ r) = PointsTo kinds reference_kinds r
EntryResolved kinds (cp_method_type _ d) = IsSome d
EntryResolved kinds (cp_invoke_dynamic _ n d) = PointsTo kinds name_and_type_kind n × IsSome d
EntryResolved kinds (cp_dynamic_constant _ n) = PointsTo kinds name_and_type_kind n
EntryResolved kinds _ = Unit

pub resolved→linked : (kinds : List ℕ) (e : CpEntry) → EntryResolved kinds e → EntryLinked kinds e
resolved→linked kinds (cp_field_ref c n d) h = (h.0, h.1)
resolved→linked kinds (cp_method_ref c n d) h = (h.0, h.1)
resolved→linked kinds (cp_interface_method_ref c n d) h = (h.0, h.1)
resolved→linked kinds (cp_method_handle k r) h = h
resolved→linked kinds (cp_invoke_dynamic i n d) h = h.0
resolved→linked kinds (cp_dynamic_constant i n) h = h
resolved→linked kinds _ h = tt

Any : {A : Type 0} → A → Type 0
Any a = Unit

descriptor_of-Any :
    (e : CpEntry) → kind_fits name_and_type_kind (cp_kind e) ≡ true → Returns Any (descriptor_of e)
unfolding Any
descriptor_of-Any (cp_name_and_type name d) h = tt
descriptor_of-Any cp_invalid h = cc
descriptor_of-Any _ h = cc

whole_field-Any : (r : Descriptor.Result (FieldDescriptor × List ℕ)) → Returns Any (whole_field r)
unfolding Any
whole_field-Any (Descriptor.ok (parsed, [])) = tt
whole_field-Any (Descriptor.ok (parsed, c ∷ cs)) = tt
whole_field-Any (Descriptor.err e) = tt

parse_complete_field_descriptor-Any : (d : List ℕ) → Returns Any (parse_complete_field_descriptor d)
unfolding parse_complete_field_descriptor
parse_complete_field_descriptor-Any d = whole_field-Any (parse_field_descriptor d)

method_or_error-Any :
    (o : Option (Descriptor.Result MethodDescriptor)) → o ≢ none → Returns Any (method_or_error o)
unfolding Any
method_or_error-Any none h = absurd (h refl)
method_or_error-Any (some (Descriptor.ok d)) h = tt
method_or_error-Any (some (Descriptor.err e)) h = tt

-- A pointer that has been checked is followed to a name and a type.
nat_descriptor-Any :
    (pool : List CpEntry) (n : Option ℕ)
    → PointsTo (map cp_kind pool) name_and_type_kind n
    → Returns Any (nat_descriptor pool n)
unfolding nat_descriptor
nat_descriptor-Any pool none h = elim h [ ]
nat_descriptor-Any pool (some i) (kind, at, fits) =
    let (e, there, k) = get_elem?-map_inverse cp_kind pool i at in
    rw (load_entry_ok pool i e there)
      (descriptor_of-Any e (subst (λ x. kind_fits name_and_type_kind x ≡ true) (sym k) fits))

nat_method-Any :
    (pool : List CpEntry) (n : Option ℕ)
    → PointsTo (map cp_kind pool) name_and_type_kind n
    → Returns Any (nat_method pool n)
unfolding nat_method
nat_method-Any pool n h =
    bind-Returns Any Any (nat_descriptor pool n) _ (nat_descriptor-Any pool n h)
      (λ d _. method_or_error-Any (parse_method_descriptor d) (parse_method_descriptor_ends d))

abbrev pub Finished : List ℕ → CpEntry → CpEntry → Type 0
Finished kinds e e' = (cp_kind e' ≡ cp_kind e) × EntryResolved kinds e'

pub finish-Finished :
    (pool : List CpEntry) (e : CpEntry)
    → EntryLinked (map cp_kind pool) e
    → Returns (Finished (map cp_kind pool) e) (finish_constant_pool_entry pool e)
unfolding finish_constant_pool_entry
finish-Finished pool (cp_field_ref c n d) h =
    bind-Returns Any (Finished (map cp_kind pool) (cp_field_ref c n d)) (nat_descriptor pool n) _
      (nat_descriptor-Any pool n h.1)
      (λ s _.
        bind-Returns Any (Finished (map cp_kind pool) (cp_field_ref c n d))
          (parse_complete_field_descriptor s) _ (parse_complete_field_descriptor-Any s)
          (λ parsed _. (refl, (h.0, h.1, tt))))
finish-Finished pool (cp_invoke_dynamic i n d) h =
    bind-Returns Any (Finished (map cp_kind pool) (cp_invoke_dynamic i n d)) (nat_method pool n) _
      (nat_method-Any pool n h) (λ parsed _. (refl, (h, tt)))
finish-Finished pool (cp_method_ref c n d) h =
    bind-Returns Any (Finished (map cp_kind pool) (cp_method_ref c n d)) (nat_method pool n) _
      (nat_method-Any pool n h.1) (λ parsed _. (refl, (h.0, h.1, tt)))
finish-Finished pool (cp_interface_method_ref c n d) h =
    bind-Returns Any (Finished (map cp_kind pool) (cp_interface_method_ref c n d))
      (nat_method pool n) _ (nat_method-Any pool n h.1) (λ parsed _. (refl, (h.0, h.1, tt)))
finish-Finished pool (cp_method_type s d) h =
    bind-Returns Any (Finished (map cp_kind pool) (cp_method_type s d))
      (method_or_error (parse_method_descriptor s)) _
      (method_or_error-Any (parse_method_descriptor s) (parse_method_descriptor_ends s))
      (λ parsed _. (refl, tt))
finish-Finished pool (cp_method_handle k r) h = (refl, h)
finish-Finished pool (cp_dynamic_constant i n) h = (refl, h)
finish-Finished pool _ h = (refl, tt)
