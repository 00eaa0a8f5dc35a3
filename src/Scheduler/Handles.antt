-- ===== src/Scheduler/Handles.antt =====
-- The table of handles that keeps objects alive for the host: `deref_js_handle`, `make_js_handle`
-- and `drop_js_handle` of engine/bjvm/vm/bjvm.c. An entry 0 is free.
use tracejvm.Prelude.{
  ℕ, zero, suc, ◌+◌, ◌≡◌, ◌≢◌, refl, sym, ap, ◌∙◌, List, [], ◌∷◌, arith, ltb, is_null,
  if◌then◌else◌, length, get_or, set,
}

-- An index is nonnegative here; the negative ones are answered like those past the end.
unfoldable pub deref_js_handle : List ℕ → ℕ → ℕ
deref_js_handle hs i = get_or hs i 0

-- The scan for a null entry, from index `i`, and the push at the end.
unfoldable pub make_js_handle_from : ℕ → List ℕ → ℕ → List ℕ × ℕ
make_js_handle_from i [] obj = (obj ∷ [], i)
make_js_handle_from i (h ∷ hs) obj =
    let rest = make_js_handle_from (i + 1) hs obj in
    if is_null h then (obj ∷ hs, i) else (h ∷ rest.0, rest.1)

unfoldable pub make_js_handle : List ℕ → ℕ → List ℕ × ℕ
unfolding make_js_handle_from
make_js_handle hs obj = make_js_handle_from 0 hs obj

unfoldable pub drop_js_handle : List ℕ → ℕ → List ℕ
drop_js_handle hs i = if ltb i (length hs) then set hs i 0 else hs

-- The scan puts the object at a slot that held none, and no other slot changes.
abbrev pub Grew : ℕ → List ℕ → ℕ → List ℕ × ℕ → Type 0
Grew i hs obj r =
    (j : ℕ) × (r.1 ≡ i + j)
    × (get_or r.0 j 0 ≡ obj)
    × (get_or hs j 0 ≡ 0)
    × ((k : ℕ) → k ≢ j → get_or r.0 k 0 ≡ get_or hs k 0)

push_entry : (obj k : ℕ) → k ≢ 0 → get_or (obj ∷ []) k 0 ≡ 0
push_entry obj zero h = absurd (h refl)
push_entry obj (suc k) h = refl

head_entry : (x y : ℕ) (hs : List ℕ) (k : ℕ) → k ≢ 0 → get_or (x ∷ hs) k 0 ≡ get_or (y ∷ hs) k 0
head_entry x y hs zero h = absurd (h refl)
head_entry x y hs (suc k) h = refl

tail_entry :
    (h j : ℕ) (xs ys : List ℕ)
    → ((k : ℕ) → k ≢ j → get_or xs k 0 ≡ get_or ys k 0)
    → (k : ℕ) → k ≢ suc j
    → get_or (h ∷ xs) k 0 ≡ get_or (h ∷ ys) k 0
tail_entry h j xs ys e zero n = refl
tail_entry h j xs ys e (suc k) n = e k (λ q. n (ap suc q))

pub make_js_handle_from_lem :
    (i : ℕ) (hs : List ℕ) (obj : ℕ) → Grew i hs obj (make_js_handle_from i hs obj)
unfolding make_js_handle_from
make_js_handle_from_lem i [] obj = (0, omega arith, refl, refl, push_entry obj)
make_js_handle_from_lem i (zero ∷ hs) obj = (0, omega arith, refl, refl, head_entry obj 0 hs)
make_js_handle_from_lem i (suc h ∷ hs) obj =
    let (j, at, here, free, same) = make_js_handle_from_lem (i + 1) hs obj in
    (suc j, omega arith, here, free, tail_entry (suc h) j _ hs same)

-- A new handle refers to the object, was free before, and every other handle refers to what it did.
pub make_js_handle-deref :
    (hs : List ℕ) (obj : ℕ)
    → let r = make_js_handle hs obj in
      (deref_js_handle r.0 r.1 ≡ obj)
      × (deref_js_handle hs r.1 ≡ 0)
      × ((k : ℕ) → k ≢ r.1 → deref_js_handle r.0 k ≡ deref_js_handle hs k)
unfolding make_js_handle deref_js_handle
make_js_handle-deref hs obj =
    let (j, at, here, free, same) = make_js_handle_from_lem 0 hs obj in
    let place : (make_js_handle_from 0 hs obj).1 ≡ j = omega arith in
    (
      ap (λ k. get_or (make_js_handle_from 0 hs obj).0 k 0) place ∙ here,
      ap (λ k. get_or hs k 0) place ∙ free,
      λ k n. same k (λ e. n (e ∙ sym place)),
    )
