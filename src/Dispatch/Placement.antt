-- ===== src/Dispatch/Placement.antt =====
-- Where linking in engine/bjvm/vm/vtable.c puts the methods of the class itself.
use tracejvm.Prelude.{
  ℕ, ◌≡◌, refl, sym, ap, ◌∙◌, subst, Bool, true, false, not, ◌&&◌, Option, none, some, List, [],
  ◌∷◌, ◌++◌, arith, if◌then◌else◌, Bool-cases, inl, inr, ◌==◌, length, get_elem?-append,
  get_elem?-append_end, All,
}
use tracejvm.Dispatch.{
  Method, OwnMethod, SuperSlot, Tables, method_overrides, method_candidate_matches, method_lookup,
  mark_override, inherit, copy_vtable, vtable_include, push_new, push_if, number_if, replace_if,
  set_up_vtable, vtable_lookup,
}

-- A method that overrides stands at its index.
abbrev Placed : List Method → OwnMethod → Type 0
Placed methods o = o.overrides ≡ true → vtable_lookup methods o.vtable_index ≡ some o.method

still-Placed :
    (xs ys : List Method) (os : List OwnMethod) → All (Placed xs) os → All (Placed (xs ++ ys)) os
still-Placed xs ys [] h = tt
still-Placed xs ys (o ∷ os) h =
    ((λ e. get_elem?-append xs ys o.vtable_index (h.0 e)), still-Placed xs ys os h.1)

either :
    (P : List OwnMethod → Type 0) (b : Bool) (es fs : List OwnMethod)
    → (b ≡ true → P es)
    → (b ≡ false → P fs)
    → P (if b then es else fs)
either P true es fs p q = p refl
either P false es fs p q = q refl

marked :
    (xs : List Method) (m r : Method) (os : List OwnMethod)
    → All (Placed xs) os
    → method_lookup os m ≡ some r
    → All (Placed (xs ++ r ∷ [])) (mark_override (length xs) m os)
unfolding mark_override method_lookup
marked xs m r [] h e = tt
marked xs m r (o ∷ os) h e =
    either (All (Placed (xs ++ r ∷ []))) (method_candidate_matches o.method m)
      (record o { vtable_index = length xs; overrides = true } ∷ os)
      (o ∷ mark_override (length xs) m os)
      (λ q. (
        (λ _.
            get_elem?-append_end xs [] r
            ∙ sym (sym (ap (λ b. if b then some o.method else method_lookup os m) q) ∙ e)),
        still-Placed xs (r ∷ []) os h.1,
      ))
      (λ q. (
        (λ e'. get_elem?-append xs (r ∷ []) o.vtable_index (h.0 e')),
        marked xs m r os h.1 (ground (arith, e, q)),
      ))

-- The state of the loop, if no check has failed.
abbrev StatePlaced : Option Tables → Type 0
StatePlaced none = Unit
StatePlaced (some t) = All (Placed t.1) t.0

replaced :
    (b : Bool) (s : SuperSlot) (r : Method) (own : List OwnMethod) (xs : List Method)
    → method_lookup own s.method ≡ some r
    → All (Placed xs) own
    → StatePlaced (replace_if b s r own xs)
unfolding replace_if
replaced true s r own xs e h = elim (Bool-cases (s.vtable_index == length xs)) [
  | inl q ↦ rw q (
      subst (λ i. All (Placed (xs ++ r ∷ [])) (mark_override i s.method own)) (sym (numbers q))
        (marked xs s.method r own h e))
  | inr q ↦ rw q tt
]
  where
    numbers : (s.vtable_index == length xs) ≡ true → s.vtable_index ≡ length xs
    numbers q = ground (arith, q)
replaced false s r own xs e h = still-Placed xs (s.method ∷ []) own h

inherited :
    (s : SuperSlot) (found : Option Method) (own : List OwnMethod) (xs : List Method)
    → method_lookup own s.method ≡ found
    → All (Placed xs) own
    → StatePlaced (inherit s found own xs)
unfolding inherit
inherited s none own xs e h = still-Placed xs (s.method ∷ []) own h
inherited s (some r) own xs e h = replaced (method_overrides r s.method) s r own xs e h

step :
    (ss : List SuperSlot) (o : Option Tables)
    → StatePlaced o
    → ((t : Tables) → All (Placed t.1) t.0 → StatePlaced (copy_vtable ss t.0 t.1))
    → StatePlaced (elim o [ none ↦ none | some t ↦ copy_vtable ss t.0 t.1 ])
step ss none h ih = tt
step ss (some t) h ih = ih t h

copied :
    (super : List SuperSlot) (own : List OwnMethod) (xs : List Method)
    → All (Placed xs) own
    → StatePlaced (copy_vtable super own xs)
unfolding copy_vtable
copied [] own xs h = h
copied (s ∷ ss) own xs h =
    step ss (inherit s (method_lookup own s.method) own xs)
      (inherited s (method_lookup own s.method) own xs refl h) (λ t k. copied ss t.0 t.1 k)

-- Methods that a virtual call can reach.
abbrev pub is_virtual : Method → Bool
is_virtual m = not m.is_ctor && (not m.is_clinit && not m.is_static)

-- Such a method is found at its index.
abbrev pub Dispatched : List Method → OwnMethod → Type 0
Dispatched methods o =
    is_virtual o.method ≡ true → vtable_lookup methods o.vtable_index ≡ some o.method

push_if_found :
    (b : Bool) (n : Method) (xs : List Method) (i : ℕ) (m : Method)
    → vtable_lookup xs i ≡ some m
    → vtable_lookup (push_if b n xs) i ≡ some m
unfolding push_if
push_if_found true n xs i m h = get_elem?-append xs (n ∷ []) i h
push_if_found false n xs i m h = h

-- What is found before the last loop is found behind it.
kept :
    (os : List OwnMethod) (xs : List Method) (i : ℕ) (m : Method)
    → vtable_lookup xs i ≡ some m
    → vtable_lookup (push_new os xs).1 i ≡ some m
unfolding push_new
kept [] xs i m h = h
kept (o ∷ os) xs i m h =
    kept os (push_if (vtable_include o) o.method xs) i m
      (push_if_found (vtable_include o) o.method xs i m h)

push_if-Placed :
    (b : Bool) (n : Method) (xs : List Method) (os : List OwnMethod)
    → All (Placed xs) os
    → All (Placed (push_if b n xs)) os
unfolding push_if
push_if-Placed true n xs os h = still-Placed xs (n ∷ []) os h
push_if-Placed false n xs os h = h

numbered :
    (b : Bool) (xs : List Method) (o : OwnMethod)
    → vtable_include o ≡ b
    → Placed xs o
    → is_virtual o.method ≡ true
    → vtable_lookup (push_if b o.method xs) (number_if b (length xs) o).vtable_index
      ≡ some (number_if b (length xs) o).method
unfolding push_if number_if vtable_include
numbered true xs o e h v = get_elem?-append_end xs [] o.method
numbered false xs o e h v = h (ground (arith, e, v))

same_method : (b : Bool) (i : ℕ) (o : OwnMethod) → (number_if b i o).method ≡ o.method
unfolding number_if
same_method true i o = refl
same_method false i o = refl

pushed :
    (os : List OwnMethod) (xs : List Method)
    → All (Placed xs) os
    → All (Dispatched (push_new os xs).1) (push_new os xs).0
unfolding push_new
pushed [] xs h = tt
pushed (o ∷ os) xs h =
    let b = vtable_include o in
    (
      (λ v.
          kept os (push_if b o.method xs) (number_if b (length xs) o).vtable_index
            (number_if b (length xs) o).method
            (numbered b xs o refl h.0
              (subst (λ m. is_virtual m ≡ true) (same_method b (length xs) o) v))),
      pushed os (push_if b o.method xs) (push_if-Placed b o.method xs os h.1),
    )

-- Nothing overrides before linking.
abbrev pub IsUnlinked : List OwnMethod → Type 0
IsUnlinked = All (λ o. o.overrides ≡ false)

unlinked-Placed : (os : List OwnMethod) → IsUnlinked os → All (Placed []) os
unlinked-Placed [] h = tt
unlinked-Placed (o ∷ os) h = ((λ e. ground (arith, h.0, e)), unlinked-Placed os h.1)

abbrev pub AllDispatched : Option Tables → Type 0
AllDispatched none = Unit
AllDispatched (some t) = All (Dispatched t.1) t.0

finished :
    (o : Option Tables)
    → StatePlaced o
    → AllDispatched (elim o [ none ↦ none | some t ↦ some (push_new t.0 t.1) ])
finished none h = tt
finished (some t) h = pushed t.0 t.1 h

pub set_up_vtable-AllDispatched :
    (super : List SuperSlot) (own : List OwnMethod)
    → IsUnlinked own
    → AllDispatched (set_up_vtable super own)
unfolding set_up_vtable
set_up_vtable-AllDispatched super own h =
    finished (copy_vtable super own []) (copied super own [] (unlinked-Placed own h))
