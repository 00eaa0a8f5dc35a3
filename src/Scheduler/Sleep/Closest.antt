-- ===== src/Scheduler/Sleep/Closest.antt =====
-- The loop of `get_next_thr` of engine/bjvm/vm/roundrobin_scheduler.c over threads that all sleep.
use tracejvm.Prelude.{
  ℕ, ◌+◌, ◌≤◌, ◌<◌, ◌≡◌, refl, sym, ap, subst, ◌∙◌, ◌⊎◌, inl, inr, false, Option, none, some, List,
  [], ◌∷◌, ◌++◌, arith, length, All, Bool-cases, ltb, ltb→lt, lt→ltb,
}
use tracejvm.Scheduler.Types.{ThreadInfo}
use tracejvm.Scheduler.Sleep.{
  Closest, wakeup_of, closest_wakeup, move_to_back, last_of, uint64_max, awake_or_closest,
}

abbrev NoEarlier : ℕ → List ThreadInfo → Type 0
NoEarlier time = All (λ u. time ≤ wakeup_of u)

-- The chosen thread wakes no later than any, and goes behind the others, which keep their order.
abbrev pub Earliest : List ThreadInfo → Option ThreadInfo × List ThreadInfo → Type 0
Earliest xs r =
    (before : List ThreadInfo) × (u : ThreadInfo) × (behind : List ThreadInfo) × (xs
      ≡ before ++ u ∷ behind)
    × NoEarlier (wakeup_of u) xs
    × (r ≡ (some u, before ++ (behind ++ u ∷ [])))

-- The scan of `xs` from index `i` keeps `c` or takes the thread that stands behind `before`.
abbrev Scanned : ℕ → List ThreadInfo → Closest → Closest → Type 0
Scanned i xs c out =
    (out.2 ≤ c.2)
    × NoEarlier out.2 xs
    × ((out ≡ c)
        ⊎ ((before : List ThreadInfo) × (u : ThreadInfo) × (behind : List ThreadInfo) × (xs
              ≡ before ++ u ∷ behind)
            × (out ≡ (some u, i + length before, wakeup_of u))))

closest_wakeup_less :
    (i : ℕ) (t : ThreadInfo) (ts : List ThreadInfo) (c : Closest)
    → wakeup_of t < c.2
    → closest_wakeup i (t ∷ ts) c ≡ closest_wakeup (i + 1) ts (some t, i, wakeup_of t)
unfolding closest_wakeup
closest_wakeup_less i t ts c h = rw (lt→ltb _ _ h)

closest_wakeup_more :
    (i : ℕ) (t : ThreadInfo) (ts : List ThreadInfo) (c : Closest)
    → ltb (wakeup_of t) c.2 ≡ false
    → closest_wakeup i (t ∷ ts) c ≡ closest_wakeup (i + 1) ts c
unfolding closest_wakeup
closest_wakeup_more i t ts c h = rw h

closest_wakeup_nil : (i : ℕ) (c : Closest) → closest_wakeup i [] c ≡ c
unfolding closest_wakeup
closest_wakeup_nil i c = refl

Scanned-less :
    (i : ℕ) (t : ThreadInfo) (ts : List ThreadInfo) (c out : Closest)
    → wakeup_of t < c.2
    → Scanned (i + 1) ts (some t, i, wakeup_of t) out
    → Scanned i (t ∷ ts) c out
Scanned-less i t ts c out h (le, none_earlier, inl e) = (
  omega arith,
  (le, none_earlier),
  inr ([], t, ts, refl, e ∙ ap (λ k. (some t, k, wakeup_of t)) (omega arith)),
)
Scanned-less i t ts c out h (le, none_earlier, inr (before, u, behind, e, e')) = (
  omega arith,
  (le, none_earlier),
  inr (t ∷ before, u, behind, ap (◌∷◌ t) e, e' ∙ ap (λ k. (some u, k, wakeup_of u)) (omega arith)),
)

Scanned-more :
    (i : ℕ) (t : ThreadInfo) (ts : List ThreadInfo) (c out : Closest)
    → c.2 ≤ wakeup_of t
    → Scanned (i + 1) ts c out
    → Scanned i (t ∷ ts) c out
Scanned-more i t ts c out h (le, none_earlier, inl e) = (le, (omega arith, none_earlier), inl e)
Scanned-more i t ts c out h (le, none_earlier, inr (before, u, behind, e, e')) = (
  le,
  (omega arith, none_earlier),
  inr (t ∷ before, u, behind, ap (◌∷◌ t) e, e' ∙ ap (λ k. (some u, k, wakeup_of u)) (omega arith)),
)

closest_wakeup-Scanned :
    (i : ℕ) (xs : List ThreadInfo) (c : Closest) → Scanned i xs c (closest_wakeup i xs c)
closest_wakeup-Scanned i [] c = rw (closest_wakeup_nil i c) (omega arith, tt, inl refl)
closest_wakeup-Scanned i (t ∷ ts) c = elim (Bool-cases (ltb (wakeup_of t) c.2)) [
  | inl less ↦
      subst (Scanned i (t ∷ ts) c) (sym (closest_wakeup_less i t ts c (ltb→lt _ _ less)))
        (Scanned-less i t ts c _ (ltb→lt _ _ less) (closest_wakeup-Scanned (i + 1) ts _))
  | inr more ↦
      subst (Scanned i (t ∷ ts) c) (sym (closest_wakeup_more i t ts c more))
        (Scanned-more i t ts c _ (ground arith) (closest_wakeup-Scanned (i + 1) ts c))
]

move_to_back_lem :
    {A : Type 0} (before : List A) (u : A) (behind : List A)
    → move_to_back (length before) (before ++ u ∷ behind) ≡ (some u, before ++ (behind ++ u ∷ []))
unfolding move_to_back
move_to_back_lem [] u behind = refl
move_to_back_lem (b ∷ bs) u behind = ap (λ r. (r.0, b ∷ r.1)) (move_to_back_lem bs u behind)

awake_or_closest_eq :
    (ts : List ThreadInfo) (c : Closest)
    → closest_wakeup 0 ts (last_of ts, 0, uint64_max) ≡ c
    → awake_or_closest (none, ts) ≡ (c.0, (move_to_back c.1 ts).1)
unfolding awake_or_closest
awake_or_closest_eq ts c e = ap (λ c. (c.0, (move_to_back c.1 ts).1)) e

pub awake_or_closest-none :
    (t : ThreadInfo) (ts : List ThreadInfo)
    → All (λ u. wakeup_of u < uint64_max) (t ∷ ts)
    → Earliest (t ∷ ts) (awake_or_closest (none, t ∷ ts))
awake_or_closest-none t ts below =
    finish (closest_wakeup-Scanned 0 (t ∷ ts) (last_of (t ∷ ts), 0, uint64_max))
  where
    out : Closest
    out = closest_wakeup 0 (t ∷ ts) (last_of (t ∷ ts), 0, uint64_max)

    finish :
        Scanned 0 (t ∷ ts) (last_of (t ∷ ts), 0, uint64_max) out
        → Earliest (t ∷ ts) (awake_or_closest (none, t ∷ ts))
    finish (le, none_earlier, inl e) =
        absurd (omega (arith, none_earlier.0, below.0, ap (λ c. c.2) e))
    finish (le, none_earlier, inr (before, u, behind, e, e')) = (
      before,
      u,
      behind,
      e,
      subst (λ time. NoEarlier time (t ∷ ts)) (ap (λ c. c.2) e') none_earlier,
      awake_or_closest_eq (t ∷ ts) _ e'
          ∙ ap (λ r. (some u, r))
              (ap (λ r. (move_to_back (0 + length before) r).1) e
                ∙ ap (λ k. (move_to_back k (before ++ u ∷ behind)).1) (omega arith)
                ∙ ap (λ r. r.1) (move_to_back_lem before u behind)),
    )
