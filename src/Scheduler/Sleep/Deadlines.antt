-- ===== src/Scheduler/Sleep/Deadlines.antt =====
-- How long the host may sleep: `rr_scheduler_may_sleep_us` of engine/bjvm/vm/roundrobin_scheduler.c.
use tracejvm.Prelude.{
  ℕ, ◌-◌, ◌≤◌, ◌≡◌, ◌≢◌, refl, sym, subst, inl, inr, Bool, true, false, not, ◌&&◌, Option, none,
  some, List, [], ◌∷◌, arith, All, Bool-cases, ltb, ◌==◌, if◌then◌else◌,
}
use tracejvm.Scheduler.Types.{ThreadInfo, Impl}
use tracejvm.Scheduler.Sleep.{
  is_sleeping, wakeup_of, has_calls, uint64_max, min_wakeup, time_left, rr_scheduler_may_sleep_us,
}

-- A thread with calls to run: the host wakes at once if it is awake, and by its wake-up otherwise.
abbrev pub InTime : Bool → ℕ → ℕ → ThreadInfo → Type 0
InTime pending time r t =
    has_calls t ≡ true
    → (is_sleeping pending t time ≡ false → r ≡ 0) × (wakeup_of t ≢ 0 → r ≤ wakeup_of t - time)

abbrev result : ℕ → Option ℕ → ℕ
result time none = 0
result time (some min) = min - time

abbrev lowered : ℕ → ThreadInfo → ℕ
lowered min t = if not (wakeup_of t == 0) && ltb (wakeup_of t) min then wakeup_of t else min

abbrev Scanned : Bool → ℕ → List ThreadInfo → ℕ → Option ℕ → Type 0
Scanned pending time ts min o =
    (result time o ≤ min - time) × All (InTime pending time (result time o)) ts

min_wakeup_nil : (pending : Bool) (time min : ℕ) → min_wakeup pending time [] min ≡ some min
unfolding min_wakeup
min_wakeup_nil pending time min = refl

module _ (pending : Bool) (time : ℕ) (t : ThreadInfo) (ts : List ThreadInfo) (min : ℕ) where
  min_wakeup_idle :
      has_calls t ≡ false → min_wakeup pending time (t ∷ ts) min ≡ min_wakeup pending time ts min
  unfolding min_wakeup
  min_wakeup_idle idle = rw idle

  min_wakeup_awake :
      has_calls t ≡ true
      → is_sleeping pending t time ≡ false
      → min_wakeup pending time (t ∷ ts) min ≡ none
  unfolding min_wakeup
  min_wakeup_awake busy awake = rw (busy, awake)

  min_wakeup_asleep :
      has_calls t ≡ true
      → is_sleeping pending t time ≡ true
      → min_wakeup pending time (t ∷ ts) min ≡ min_wakeup pending time ts (lowered min t)
  unfolding min_wakeup
  min_wakeup_asleep busy asleep = rw (busy, asleep)

  Scanned-idle :
      (o : Option ℕ)
      → has_calls t ≡ false
      → Scanned pending time ts min o
      → Scanned pending time (t ∷ ts) min o
  Scanned-idle o idle (le, rest) = (le, ((λ busy. cc), rest))

  Scanned-asleep :
      (o : Option ℕ)
      → is_sleeping pending t time ≡ true
      → Scanned pending time ts (lowered min t) o
      → Scanned pending time (t ∷ ts) min o
  Scanned-asleep o asleep (le, rest) =
      (ground arith, ((λ busy. ((λ awake. cc), λ given. ground arith)), rest))

InTime-zero : (pending : Bool) (time : ℕ) (ts : List ThreadInfo) → All (InTime pending time 0) ts
InTime-zero pending time [] = tt
InTime-zero pending time (t ∷ ts) =
    ((λ busy. ((λ awake. refl), λ given. omega arith)), InTime-zero pending time ts)

min_wakeup-Scanned :
    (pending : Bool) (time : ℕ) (ts : List ThreadInfo) (min : ℕ)
    → Scanned pending time ts min (min_wakeup pending time ts min)
min_wakeup-Scanned pending time [] min =
    subst (Scanned pending time [] min) (sym (min_wakeup_nil pending time min)) (omega arith, tt)
min_wakeup-Scanned pending time (t ∷ ts) min = elim (Bool-cases (has_calls t)) [
  | inr idle ↦
      subst (Scanned pending time (t ∷ ts) min) (sym (min_wakeup_idle pending time t ts min idle))
        (Scanned-idle pending time t ts min _ idle (min_wakeup-Scanned pending time ts min))
  | inl busy ↦ elim (Bool-cases (is_sleeping pending t time)) [
    | inr awake ↦
        subst (Scanned pending time (t ∷ ts) min)
          (sym (min_wakeup_awake pending time t ts min busy awake))
          (omega arith, InTime-zero pending time (t ∷ ts))
    | inl asleep ↦
        subst (Scanned pending time (t ∷ ts) min)
          (sym (min_wakeup_asleep pending time t ts min busy asleep))
          (Scanned-asleep pending time t ts min _ asleep
            (min_wakeup-Scanned pending time ts (lowered min t)))
  ]
]

time_left-result : (time : ℕ) (o : Option ℕ) → time_left time o ≡ result time o
unfolding time_left
time_left-result time none = refl
time_left-result time (some min) = ground arith

may_sleep-result :
    (s : Impl) (time : ℕ)
    → rr_scheduler_may_sleep_us s time
      ≡ result time (min_wakeup s.reference_pending time s.round_robin uint64_max)
unfolding rr_scheduler_may_sleep_us
may_sleep-result s time = time_left-result time _

-- For each thread with calls to run, the host may sleep no longer than until that thread's wake-up,
-- if it has one, and not at all if that thread is awake.
pub may_sleep-InTime :
    (s : Impl) (time : ℕ)
    → All (InTime s.reference_pending time (rr_scheduler_may_sleep_us s time)) s.round_robin
may_sleep-InTime s time =
    subst (λ r. All (InTime s.reference_pending time r) s.round_robin)
      (sym (may_sleep-result s time))
      (min_wakeup-Scanned s.reference_pending time s.round_robin uint64_max).1
