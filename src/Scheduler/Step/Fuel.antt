-- ===== src/Scheduler/Step/Fuel.antt =====
-- The recursion of `rr_scheduler_step` of engine/bjvm/vm/roundrobin_scheduler.c, which calls itself
-- for each thread it finds with nothing to run.
use tracejvm.Prelude.{
  ℕ, zero, suc, ◌+◌, ◌≤◌, ◌<◌, ◌≡◌, ◌≢◌, refl, ap, ◌∙◌, Bool, false, Option, none, some, List, [],
  ◌∷◌, ◌++◌, arith, length, length-append,
}
use tracejvm.Scheduler.Types.{ThreadInfo, Impl}
use tracejvm.Scheduler.Sleep.{is_sleeping, find_awake, move_to_back, awake_or_closest, get_next_thr}
use tracejvm.Scheduler.Step.{Interpreter, only_daemons_running, pop_back, rr_scheduler_step}

length-find_awake :
    {A : Type 0} (asleep : A → Bool) (n : ℕ) (ts : List A)
    → length (find_awake asleep n ts).1 ≡ length ts
unfolding find_awake
length-find_awake asleep zero ts = refl
length-find_awake asleep (suc n) [] = refl
length-find_awake asleep (suc n) (t ∷ ts) =
    ground (arith, length-append ts (t ∷ []), length-find_awake asleep n (ts ++ t ∷ []))

length-move_to_back : {A : Type 0} (i : ℕ) (ts : List A) → length (move_to_back i ts).1 ≡ length ts
unfolding move_to_back
length-move_to_back zero [] = refl
length-move_to_back (suc i) [] = refl
length-move_to_back zero (t ∷ ts) = omega (arith, length-append ts (t ∷ []))
length-move_to_back (suc i) (t ∷ ts) = ap suc (length-move_to_back i ts)

length-awake_or_closest :
    (r : Option ThreadInfo × List ThreadInfo) → length (awake_or_closest r).1 ≡ length r.1
unfolding awake_or_closest
length-awake_or_closest (some t, ts) = refl
length-awake_or_closest (none, ts) = length-move_to_back _ ts

pub length-get_next_thr :
    (s : Impl) (time : ℕ) → length (get_next_thr s time).1 ≡ length s.round_robin
unfolding get_next_thr
length-get_next_thr s time =
    length-awake_or_closest (
      find_awake (λ t. is_sleeping s.reference_pending t time) (length s.round_robin) s.round_robin)
    ∙ length-find_awake (λ t. is_sleeping s.reference_pending t time) (length s.round_robin)
        s.round_robin

length-pop_back : {A : Type 0} (t : A) (ts : List A) → length (pop_back (t ∷ ts)) ≡ length ts
unfolding pop_back
length-pop_back t [] = refl
length-pop_back t (u ∷ us) = ap suc (length-pop_back u us)

shorter : (ts : List ThreadInfo) (n : ℕ) → 0 < length ts → length ts ≤ n → length (pop_back ts) < n
shorter [] n h k = absurd (omega arith)
shorter (t ∷ ts) n h k = omega (arith, length-pop_back t ts)

nonempty : (ts : List ThreadInfo) → only_daemons_running ts ≡ false → 0 < length ts
unfolding only_daemons_running
nonempty [] h = cc
nonempty (t ∷ ts) h = omega arith

-- With more fuel than there are threads in the round robin, a step ends with a state and a status,
-- whatever the interpreter does and the clock shows.
pub rr_scheduler_step_ends :
    (interpret : Interpreter) (clock : ℕ → ℕ) (fuel : ℕ) (s : Impl)
    → length s.round_robin < fuel
    → rr_scheduler_step interpret clock fuel s ≢ none
unfolding rr_scheduler_step
rr_scheduler_step_ends interpret clock zero s h = absurd (omega arith)
rr_scheduler_step_ends interpret clock (suc fuel) s h = ground (
  arith,
  nonempty s.round_robin,
  length-get_next_thr s (clock 1),
  shorter (get_next_thr s (clock 1)).1 fuel,
  rr_scheduler_step_ends interpret (λ k. clock (k + 2)) fuel
      (record s { round_robin = pop_back (get_next_thr s (clock 1)).1 }),
)
