-- ===== src/Scheduler/Sleep/Rotation.antt =====
-- `get_next_thr` of engine/bjvm/vm/roundrobin_scheduler.c: the thread it hands out, and the order of
-- the others.
use tracejvm.Prelude.{
  ℕ, zero, suc, ◌<◌, ◌≡◌, refl, sym, ap, subst, ◌∙◌, ◌⊎◌, inl, inr, Bool, true, false, Option, none,
  some, List, [], ◌∷◌, ◌++◌, append-nil, append_assoc, arith, length, length-append, All,
  Bool-cases,
}
use tracejvm.Scheduler.Types.{ThreadInfo, Impl}
use tracejvm.Scheduler.Sleep.Closest.{Earliest, awake_or_closest-none}
use tracejvm.Scheduler.Sleep.{
  is_sleeping, find_awake, wakeup_of, uint64_max, awake_or_closest, get_next_thr,
}

module _ {ℓ} {A : Type ℓ} (asleep : A → Bool) where
  abbrev pub Asleep : List A → Type 0
  Asleep = All (λ t. asleep t ≡ true)

  find_awake_hit :
      (n : ℕ) (t : A) (ts : List A)
      → asleep t ≡ false
      → find_awake asleep (suc n) (t ∷ ts) ≡ (some t, ts ++ t ∷ [])
  unfolding find_awake
  find_awake_hit n t ts h = rw h

  find_awake_miss :
      (n : ℕ) (t : A) (ts : List A)
      → asleep t ≡ true
      → find_awake asleep (suc n) (t ∷ ts) ≡ find_awake asleep n (ts ++ t ∷ [])
  unfolding find_awake
  find_awake_miss n t ts h = rw h

  find_awake_zero : (ts : List A) → find_awake asleep 0 ts ≡ (none, ts)
  unfolding find_awake
  find_awake_zero ts = refl

  -- The first thread awake is found, and those before it go behind the others.
  pub find_awake-some :
      (n : ℕ) (before : List A) (t : A) (behind : List A)
      → length before < n
      → Asleep before
      → asleep t ≡ false
      → find_awake asleep n (before ++ t ∷ behind) ≡ (some t, behind ++ (before ++ t ∷ []))
  find_awake-some zero before t behind lt h a = absurd (omega arith)
  find_awake-some (suc n) [] t behind lt h a = find_awake_hit n t behind a
  find_awake-some (suc n) (b ∷ bs) t behind lt h a =
      find_awake_miss n b (bs ++ t ∷ behind) h.0
      ∙ ap (find_awake asleep n) (append_assoc bs (t ∷ behind) (b ∷ []))
      ∙ find_awake-some n bs t (behind ++ b ∷ []) (omega arith) h.1 a
      ∙ ap (λ r. (some t, r)) (append_assoc behind (b ∷ []) (bs ++ t ∷ []))

  -- With every thread asleep the list comes back as it was.
  pub find_awake-none :
      (xs ys : List A) → Asleep xs → find_awake asleep (length xs) (xs ++ ys) ≡ (none, ys ++ xs)
  find_awake-none [] ys h = find_awake_zero ys ∙ ap (λ r. (none, r)) (sym (append-nil ys))
  find_awake-none (x ∷ xs) ys h =
      find_awake_miss (length xs) x (xs ++ ys) h.0
      ∙ ap (find_awake asleep (length xs)) (append_assoc xs ys (x ∷ []))
      ∙ find_awake-none xs (ys ++ x ∷ []) h.1
      ∙ ap (λ r. (none, r)) (append_assoc ys (x ∷ []) xs)

  -- A list is asleep, or splits at the first thread awake.
  abbrev pub FirstAwake : List A → Type ℓ
  FirstAwake xs =
      (before : List A) × (t : A) × (behind : List A) × (xs ≡ before ++ t ∷ behind)
      × Asleep before
      × (asleep t ≡ false)

  pub first_awake : (xs : List A) → Asleep xs ⊎ FirstAwake xs
  first_awake [] = inl tt
  first_awake (x ∷ xs) = elim (Bool-cases (asleep x)) [
    | inl s ↦ elim (first_awake xs) [
      | inl h ↦ inl (s, h)
      | inr (before, t, behind, e, h, a) ↦ inr (x ∷ before, t, behind, ap (◌∷◌ x) e, (s, h), a)
    ]
    | inr a ↦ inr ([], x, xs, refl, tt, a)
  ]

abbrev pub sleeps : Impl → ℕ → ThreadInfo → Bool
sleeps s time t = is_sleeping s.reference_pending t time

get_next_thr_eq :
    (s : Impl) (time : ℕ) (ts : List ThreadInfo)
    → s.round_robin ≡ ts
    → get_next_thr s time ≡ awake_or_closest (find_awake (sleeps s time) (length ts) ts)
unfolding get_next_thr
get_next_thr_eq s time ts e =
    ap (λ xs. awake_or_closest (find_awake (sleeps s time) (length xs) xs)) e

awake_or_closest-some :
    (t : ThreadInfo) (ts : List ThreadInfo) → awake_or_closest (some t, ts) ≡ (some t, ts)
unfolding awake_or_closest
awake_or_closest-some t ts = refl

shorter :
    (before : List ThreadInfo) (t : ThreadInfo) (behind : List ThreadInfo)
    → length before < length (before ++ t ∷ behind)
shorter before t behind = omega (arith, length-append before (t ∷ behind))

-- `t` is handed out, or stands nearer to the front than behind `before`.
abbrev pub Sooner : List ThreadInfo → ThreadInfo → Option ThreadInfo × List ThreadInfo → Type 0
Sooner before t r =
    (r.0 ≡ some t)
    ⊎ ((before' : List ThreadInfo) × (behind' : List ThreadInfo) × (r.1 ≡ before' ++ t ∷ behind')
        × (length before' < length before))

-- The first thread of the round robin that is awake runs next. It goes to the back, and so do the
-- sleeping threads before it, in their order.
pub get_next_thr_awake :
    (s : Impl) (time : ℕ) (before : List ThreadInfo) (t : ThreadInfo) (behind : List ThreadInfo)
    → s.round_robin ≡ before ++ t ∷ behind
    → Asleep (sleeps s time) before
    → sleeps s time t ≡ false
    → get_next_thr s time ≡ (some t, behind ++ (before ++ t ∷ []))
get_next_thr_awake s time before t behind e h a =
    get_next_thr_eq s time _ e
    ∙ ap awake_or_closest
        (find_awake-some (sleeps s time) _ before t behind (shorter before t behind) h a)
    ∙ awake_or_closest-some t _

-- A thread that is awake is handed out, or has fewer threads before it in the round robin than it had.
pub get_next_thr_progress :
    (s : Impl) (time : ℕ) (before : List ThreadInfo) (t : ThreadInfo) (behind : List ThreadInfo)
    → s.round_robin ≡ before ++ t ∷ behind
    → sleeps s time t ≡ false
    → Sooner before t (get_next_thr s time)
get_next_thr_progress s time before t behind e a = elim (first_awake (sleeps s time) before) [
  | inl h ↦ inl (ap (λ r. r.0) (get_next_thr_awake s time before t behind e h a))
  | inr (before1, u, before2, e', h, a') ↦ inr (
    before2,
    behind ++ (before1 ++ u ∷ []),
    ap (λ r. r.1)
          (get_next_thr_awake s time before1 u (before2 ++ t ∷ behind)
            (e ∙ ap (λ r. r ++ t ∷ behind) e' ∙ append_assoc before1 (u ∷ before2) (t ∷ behind)) h
            a')
        ∙ append_assoc before2 (t ∷ behind) (before1 ++ u ∷ []),
    omega (arith, ap length e', length-append before1 (u ∷ before2)),
  )
]

-- What calls in a row at the given times hand out, if nothing else changes the scheduler.
abbrev pub handed_out : Impl → List ℕ → List (Option ThreadInfo)
handed_out s [] = []
handed_out s (time ∷ times) =
    let r = get_next_thr s time in r.0 ∷ handed_out (record s { round_robin = r.1 }) times

abbrev pub HandedOut : ThreadInfo → List (Option ThreadInfo) → Type 0
HandedOut t [] = ⊥
HandedOut t (o ∷ os) = (o ≡ some t) ⊎ HandedOut t os

-- Among as many calls of `get_next_thr` in a row as a thread has threads before it and one more, with
-- nothing else changing the scheduler between them, one hands out that thread, if it is awake at the time
-- of each of them: whichever of the others wake up or fall asleep.
pub get_next_thr-HandedOut :
    (s : Impl) (times : List ℕ) (before : List ThreadInfo) (t : ThreadInfo)
    (behind : List ThreadInfo)
    → s.round_robin ≡ before ++ t ∷ behind
    → length before < length times
    → All (λ time. sleeps s time t ≡ false) times
    → HandedOut t (handed_out s times)
get_next_thr-HandedOut s [] before t behind e l a = absurd (omega (arith, l))
get_next_thr-HandedOut s (time ∷ times) before t behind e l (a, awake) =
    elim (get_next_thr_progress s time before t behind e a) [
      | inl h ↦ inl h
      | inr (before', behind', e', l') ↦ inr (
          get_next_thr-HandedOut (record s { round_robin = (get_next_thr s time).1 }) times before'
            t behind' e' (omega (arith, l, l')) awake)
    ]

-- With every thread asleep the one with the earliest wake-up is chosen, and it alone goes to the
-- back. Wake-ups are below `UINT64_MAX`; a wait with no end counts as the earliest, by its 0.
pub get_next_thr-Asleep :
    (s : Impl) (time : ℕ) (t : ThreadInfo) (ts : List ThreadInfo)
    → s.round_robin ≡ t ∷ ts
    → Asleep (sleeps s time) (t ∷ ts)
    → All (λ u. wakeup_of u < uint64_max) (t ∷ ts)
    → Earliest (t ∷ ts) (get_next_thr s time)
get_next_thr-Asleep s time t ts e h below =
    subst (Earliest (t ∷ ts)) (sym path) (awake_or_closest-none t ts below)
  where
    path : get_next_thr s time ≡ awake_or_closest (none, t ∷ ts)
    path =
        get_next_thr_eq s time _ e
        ∙ ap awake_or_closest (
            ap (find_awake (sleeps s time) (length (t ∷ ts))) (sym (append-nil (t ∷ ts)))
            ∙ find_awake-none (sleeps s time) (t ∷ ts) [] h)
