-- ===== src/ClassFile/Pool/Passes.antt =====
-- The two passes over an entry of the constant pool of engine/bjvm/vm/classfile.c: they take the same
-- bytes and make entries of the same kind, and the second one leaves no pointer null.
use tracejvm.Prelude.{ℕ, ◌≡◌, refl, Option, none, List, [], map, arith}
use tracejvm.ClassFile.{Result, ok, ◌>>=◌, Returns, bind-Returns}
use tracejvm.ClassFile.Reader.{
  Took, reader_next_u8, reader_next_u16, reader_next_u32, reader_next_u64, reader_next_s32,
  reader_next_s64, reader_get_slice, reader_next_u8-Took, reader_next_u16-Took,
  reader_next_u32-Took, reader_next_u64-Took, reader_next_s32-Took, reader_next_s64-Took,
  reader_get_slice-Took,
}
use tracejvm.ClassFile.Pool.{
  CpEntry, cp_utf8, cp_integer, cp_float, cp_long, cp_double, cp_class, cp_module, cp_package,
  cp_string, cp_field_ref, cp_method_ref, cp_interface_method_ref, cp_name_and_type,
  cp_method_handle, cp_method_type, cp_invoke_dynamic, cp_dynamic_constant, cp_kind, class_kind,
  name_and_type_kind, reference_kinds,
}
use tracejvm.ClassFile.Pool.Read.{
  read, link, Tag, tag_utf8, tag_integer, tag_float, tag_long, tag_double, tag_class, tag_string,
  tag_fieldref, tag_methodref, tag_interface_methodref, tag_name_and_type, tag_method_handle,
  tag_method_type, tag_dynamic, tag_invoke_dynamic, tag_module, tag_package, tag_of,
  checked_get_utf8, linked_utf8, linked_entry, parse_named, parse_ref, parse_name_and_type,
  parse_utf8, parse_method_handle, parse_indy, parse_tag, parse_constant_pool_entry,
}
use tracejvm.ClassFile.Pool.Pointers.{
  PointsTo, EntryLinked, Agrees, bind-Agrees, Any, checked_get_utf8-Any, linked_entry-PointsTo,
}

Kinds : (List ℕ → CpEntry) → Type 0
Kinds make = (s : List ℕ) (t : List ℕ) → cp_kind (make s) ≡ cp_kind (make t)

parse_named-Agrees :
    (make : List ℕ → CpEntry) (first second : List CpEntry) (bytes : List ℕ)
    → Kinds make
    → ((s : List ℕ) → EntryLinked (map cp_kind second) (make s))
    → Returns
        (Agrees (parse_named make read first bytes) (map cp_kind second))
        (parse_named make link second bytes)
unfolding parse_named linked_utf8 Kinds
parse_named-Agrees make p q bytes h k =
    bind-Agrees (Took 2 bytes) (map cp_kind q) (reader_next_u16 bytes) _ _
      (reader_next_u16-Took bytes)
      (λ r.
        bind-Returns Any (Agrees (ok (make [], r.1)) (map cp_kind q)) (checked_get_utf8 q r.0) _
          (checked_get_utf8-Any q r.0) (λ name _. (make [], refl, h [] name, k name)))

parse_ref-Agrees :
    (make : Option ℕ → Option ℕ → CpEntry) (first second : List CpEntry) (bytes : List ℕ)
    → ((c n : Option ℕ) → cp_kind (make none none) ≡ cp_kind (make c n))
    → ((c n : Option ℕ)
        → PointsTo (map cp_kind second) class_kind c
        → PointsTo (map cp_kind second) name_and_type_kind n
        → EntryLinked (map cp_kind second) (make c n))
    → Returns
        (Agrees (parse_ref make read first bytes) (map cp_kind second))
        (parse_ref make link second bytes)
unfolding parse_ref linked_entry
parse_ref-Agrees make p q bytes h k =
    bind-Agrees (Took 2 bytes) (map cp_kind q) (reader_next_u16 bytes) _ _
      (reader_next_u16-Took bytes)
      (λ r.
        bind-Agrees (Took 2 r.1) (map cp_kind q) (reader_next_u16 r.1) _ _
          (reader_next_u16-Took r.1)
          (λ t.
            bind-Returns (PointsTo (map cp_kind q) class_kind)
              (Agrees (ok (make none none, t.1)) (map cp_kind q))
              (linked_entry link q r.0 class_kind) _ (linked_entry-PointsTo q r.0 class_kind)
              (λ c hc.
                bind-Returns (PointsTo (map cp_kind q) name_and_type_kind)
                  (Agrees (ok (make none none, t.1)) (map cp_kind q))
                  (linked_entry link q t.0 name_and_type_kind) _
                  (linked_entry-PointsTo q t.0 name_and_type_kind)
                  (λ n hn. (make none none, refl, h c n, k c n hc hn)))))

parse_indy-Agrees :
    (make : ℕ → Option ℕ → CpEntry) (first second : List CpEntry) (bytes : List ℕ)
    → ((i : ℕ) (n : Option ℕ) → cp_kind (make i none) ≡ cp_kind (make i n))
    → ((i : ℕ) (n : Option ℕ)
        → PointsTo (map cp_kind second) name_and_type_kind n
        → EntryLinked (map cp_kind second) (make i n))
    → Returns
        (Agrees (parse_indy make read first bytes) (map cp_kind second))
        (parse_indy make link second bytes)
unfolding parse_indy linked_entry
parse_indy-Agrees make p q bytes h k =
    bind-Agrees (Took 2 bytes) (map cp_kind q) (reader_next_u16 bytes) _ _
      (reader_next_u16-Took bytes)
      (λ r.
        bind-Agrees (Took 2 r.1) (map cp_kind q) (reader_next_u16 r.1) _ _
          (reader_next_u16-Took r.1)
          (λ t.
            bind-Returns (PointsTo (map cp_kind q) name_and_type_kind)
              (Agrees (ok (make r.0 none, t.1)) (map cp_kind q))
              (linked_entry link q t.0 name_and_type_kind) _
              (linked_entry-PointsTo q t.0 name_and_type_kind)
              (λ n hn. (make r.0 none, refl, h r.0 n, k r.0 n hn))))

parse_method_handle-Agrees :
    (first second : List CpEntry) (bytes : List ℕ)
    → Returns
        (Agrees (parse_method_handle read first bytes) (map cp_kind second))
        (parse_method_handle link second bytes)
unfolding parse_method_handle linked_entry
parse_method_handle-Agrees p q bytes =
    bind-Agrees (Took 1 bytes) (map cp_kind q) (reader_next_u8 bytes) _ _
      (reader_next_u8-Took bytes)
      (λ r.
        bind-Agrees (Took 2 r.1) (map cp_kind q) (reader_next_u16 r.1) _ _
          (reader_next_u16-Took r.1)
          (λ t.
            bind-Returns (PointsTo (map cp_kind q) reference_kinds)
              (Agrees (ok (cp_method_handle r.0 none, t.1)) (map cp_kind q))
              (linked_entry link q t.0 reference_kinds) _
              (linked_entry-PointsTo q t.0 reference_kinds)
              (λ n hn. (cp_method_handle r.0 none, refl, refl, hn))))

parse_name_and_type-Agrees :
    (first second : List CpEntry) (bytes : List ℕ)
    → Returns
        (Agrees (parse_name_and_type read first bytes) (map cp_kind second))
        (parse_name_and_type link second bytes)
unfolding parse_name_and_type linked_utf8
parse_name_and_type-Agrees p q bytes =
    bind-Agrees (Took 2 bytes) (map cp_kind q) (reader_next_u16 bytes) _ _
      (reader_next_u16-Took bytes)
      (λ r.
        bind-Agrees (Took 2 r.1) (map cp_kind q) (reader_next_u16 r.1) _ _
          (reader_next_u16-Took r.1)
          (λ t.
            bind-Returns Any (Agrees (ok (cp_name_and_type [] [], t.1)) (map cp_kind q))
              (checked_get_utf8 q r.0) _ (checked_get_utf8-Any q r.0)
              (λ name _.
                bind-Returns Any (Agrees (ok (cp_name_and_type [] [], t.1)) (map cp_kind q))
                  (checked_get_utf8 q t.0) _ (checked_get_utf8-Any q t.0)
                  (λ descriptor _. (cp_name_and_type [] [], refl, refl, tt)))))

parse_utf8-Agrees :
    (kinds bytes : List ℕ) → Returns (Agrees (parse_utf8 read bytes) kinds) (parse_utf8 link bytes)
unfolding parse_utf8
parse_utf8-Agrees kinds bytes =
    bind-Agrees (Took 2 bytes) kinds (reader_next_u16 bytes) _ _ (reader_next_u16-Took bytes) (λ r.
      bind-Agrees (Took r.0 r.1) kinds (reader_get_slice r.0 r.1) _ _
        (reader_get_slice-Took r.0 r.1) (λ s. (cp_utf8 s.0, refl, refl, tt)))

-- A number is read in the same way in both passes.
number-Agrees :
    {A : Type 0} (k : ℕ) (kinds bytes : List ℕ) (m : Result (A × List ℕ)) (make : A → CpEntry)
    → Returns (Took k bytes) m
    → ((a : A) → EntryLinked kinds (make a))
    → Returns (Agrees (m >>= λ r. ok (make r.0, r.1)) kinds) (m >>= λ r. ok (make r.0, r.1))
number-Agrees k kinds bytes m make h l =
    bind-Agrees (Took k bytes) kinds m _ _ h (λ r. (make r.0, refl, refl, l r.0))

parse_tag-Agrees :
    (tag : Tag) (first second : List CpEntry) (bytes : List ℕ)
    → Returns
        (Agrees (parse_tag tag read first bytes) (map cp_kind second))
        (parse_tag tag link second bytes)
unfolding parse_tag Kinds
parse_tag-Agrees tag_class p q bytes = parse_named-Agrees cp_class p q bytes (λ s t. refl) (λ s. tt)
parse_tag-Agrees tag_module p q bytes =
    parse_named-Agrees cp_module p q bytes (λ s t. refl) (λ s. tt)
parse_tag-Agrees tag_package p q bytes =
    parse_named-Agrees cp_package p q bytes (λ s t. refl) (λ s. tt)
parse_tag-Agrees tag_string p q bytes =
    parse_named-Agrees cp_string p q bytes (λ s t. refl) (λ s. tt)
parse_tag-Agrees tag_method_type p q bytes =
    parse_named-Agrees (λ d. cp_method_type d none) p q bytes (λ s t. refl) (λ s. tt)
parse_tag-Agrees tag_fieldref p q bytes =
    parse_ref-Agrees (λ c n. cp_field_ref c n none) p q bytes (λ c n. refl) (λ c n hc hn. (hc, hn))
parse_tag-Agrees tag_methodref p q bytes =
    parse_ref-Agrees (λ c n. cp_method_ref c n none) p q bytes (λ c n. refl) (λ c n hc hn. (hc, hn))
parse_tag-Agrees tag_interface_methodref p q bytes =
    parse_ref-Agrees (λ c n. cp_interface_method_ref c n none) p q bytes (λ c n. refl)
      (λ c n hc hn. (hc, hn))
parse_tag-Agrees tag_integer p q bytes =
    number-Agrees 4 (map cp_kind q) bytes (reader_next_s32 bytes) cp_integer
      (reader_next_s32-Took bytes) (λ z. tt)
parse_tag-Agrees tag_float p q bytes =
    number-Agrees 4 (map cp_kind q) bytes (reader_next_u32 bytes) cp_float
      (reader_next_u32-Took bytes) (λ z. tt)
parse_tag-Agrees tag_long p q bytes =
    number-Agrees 8 (map cp_kind q) bytes (reader_next_s64 bytes) cp_long
      (reader_next_s64-Took bytes) (λ z. tt)
parse_tag-Agrees tag_double p q bytes =
    number-Agrees 8 (map cp_kind q) bytes (reader_next_u64 bytes) cp_double
      (reader_next_u64-Took bytes) (λ z. tt)
parse_tag-Agrees tag_name_and_type p q bytes = parse_name_and_type-Agrees p q bytes
parse_tag-Agrees tag_utf8 p q bytes = parse_utf8-Agrees (map cp_kind q) bytes
parse_tag-Agrees tag_method_handle p q bytes = parse_method_handle-Agrees p q bytes
parse_tag-Agrees tag_dynamic p q bytes =
    parse_indy-Agrees cp_dynamic_constant p q bytes (λ i n. refl) (λ i n h. h)
parse_tag-Agrees tag_invoke_dynamic p q bytes =
    parse_indy-Agrees (λ i n. cp_invoke_dynamic i n none) p q bytes (λ i n. refl) (λ i n h. h)

tag_of-Any : (kind : ℕ) → Returns Any (tag_of kind)
unfolding tag_of
tag_of-Any kind = ground arith

-- Whatever the pools of the two passes hold, an entry that the second pass reads is of the kind that
-- the first pass reads from the same bytes, and behind it the same bytes are left; each pointer that
-- the second pass writes is the index of an entry of the kind that is asked for there.
pub parse_constant_pool_entry-Agrees :
    (first second : List CpEntry) (bytes : List ℕ)
    → Returns
        (Agrees (parse_constant_pool_entry read first bytes) (map cp_kind second))
        (parse_constant_pool_entry link second bytes)
unfolding parse_constant_pool_entry
parse_constant_pool_entry-Agrees p q bytes =
    bind-Agrees (Took 1 bytes) (map cp_kind q) (reader_next_u8 bytes) _ _
      (reader_next_u8-Took bytes)
      (λ r.
        bind-Agrees Any (map cp_kind q) (tag_of r.0) _ _ (tag_of-Any r.0)
          (λ tag. parse_tag-Agrees tag p q r.1))
