-- ===== src/Scheduler/Sleep.antt =====
-- Which thread runs next and how long the host may sleep: `is_sleeping`, `get_next_thr` and
-- `rr_scheduler_may_sleep_us` of engine/bjvm/vm/roundrobin_scheduler.c. Times are microseconds, and
-- the reading of the clock is an argument.
pub mod Closest
pub mod Rotation
pub mod Deadlines
use tracejvm.Prelude.{
  ℕ, zero, suc, ◌+◌, ◌-◌, ◌^◌, Bool, true, false, not, ◌&&◌, ◌||◌, Option, none, some, List, [],
  ◌∷◌, ◌++◌, ltb, leb, ◌==◌, if◌then◌else◌, length,
}
use tracejvm.Scheduler.Types.{
  WakeupKind, wakeup_yielding, wakeup_sleep, wakeup_reference_pending, thread_park,
  monitor_enter_waiting, monitor_wait, WakeupInfo, VmThread, PendingCall, ThreadInfo, Impl,
}
use tracejvm.Scheduler.Notify.{is_monitor_enter}

abbrev pub uint64_max : ℕ
uint64_max = 2 ^ 64 - 1

-- The kinds that wait for a time, an interrupt or a flag, while the flag is not up.
unfoldable pub may_block : VmThread → WakeupInfo → Bool
may_block t w = elim w.kind [
  | wakeup_sleep ↦ true
  | thread_park ↦ not t.unpark_permit
  | monitor_wait ↦ not w.ready
  | monitor_enter_waiting ↦ not w.ready
  | _ ↦ false
]

-- The last part of `is_sleeping`. Entering a monitor cannot be interrupted.
unfoldable pub still_waits : VmThread → WakeupInfo → ℕ → Bool
still_waits t w time =
    let interrupted = t.interrupted && not (is_monitor_enter w.kind) in
    not interrupted && (w.wakeup_us == 0 || leb time w.wakeup_us)

abbrev pub is_reference_pending : WakeupKind → Bool
is_reference_pending wakeup_reference_pending = true
is_reference_pending _ = false

unfoldable pub is_sleeping : Bool → ThreadInfo → ℕ → Bool
unfolding may_block still_waits
is_sleeping pending info time = elim info.wakeup_info [
  | none ↦ false
  | some w ↦
      if is_reference_pending w.kind
      then not pending
      else if may_block info.thread w
      then still_waits info.thread w time
      else false
]

-- The first loop of `get_next_thr`: at most `n` times the head goes to the back, until it is awake.
unfoldable pub find_awake {ℓ} : {A : Type ℓ} → (A → Bool) → ℕ → List A → Option A × List A
find_awake asleep zero ts = (none, ts)
find_awake asleep (suc n) [] = (none, [])
find_awake asleep (suc n) (t ∷ ts) =
    let rest = find_awake asleep n (ts ++ t ∷ []) in
    if asleep t then rest else (some t, ts ++ t ∷ [])

-- `wakeup_info->wakeup_us`, for a thread that sleeps. A thread with no such record never sleeps.
abbrev pub wakeup_of : ThreadInfo → ℕ
wakeup_of info = elim info.wakeup_info [ none ↦ 0 | some w ↦ w.wakeup_us ]

abbrev pub Closest : Type 0
Closest = Option ThreadInfo × ℕ × ℕ

-- The second loop: `info`, `best_i` and `closest` for the earliest wake-up, from index `i`.
unfoldable pub closest_wakeup : ℕ → List ThreadInfo → Closest → Closest
closest_wakeup i [] c = c
closest_wakeup i (t ∷ ts) (info, best_i, closest) =
    closest_wakeup (i + 1) ts
      (if ltb (wakeup_of t) closest then (some t, i, wakeup_of t) else (info, best_i, closest))

-- What the first loop leaves in `info`: after a whole round, the last thread.
abbrev pub last_of {ℓ} : {A : Type ℓ} → List A → Option A
last_of [] = none
last_of (t ∷ ts) = elim (last_of ts) [ none ↦ some t | some u ↦ some u ]

-- `arrdel` at an index, and `arrput` of what stood there.
unfoldable pub move_to_back {ℓ} : {A : Type ℓ} → ℕ → List A → Option A × List A
move_to_back i [] = (none, [])
move_to_back zero (t ∷ ts) = (some t, ts ++ t ∷ [])
move_to_back (suc i) (t ∷ ts) = let rest = move_to_back i ts in (rest.0, t ∷ rest.1)

-- The return in the first loop, or the second loop after it.
unfoldable pub awake_or_closest :
    Option ThreadInfo × List ThreadInfo → Option ThreadInfo × List ThreadInfo
unfolding closest_wakeup move_to_back
awake_or_closest (some t, ts) = (some t, ts)
awake_or_closest (none, ts) =
    let c = closest_wakeup 0 ts (last_of ts, 0, uint64_max) in (c.0, (move_to_back c.1 ts).1)

-- `none` only for an empty round robin, which the code asserts is not there.
unfoldable pub get_next_thr : Impl → ℕ → Option ThreadInfo × List ThreadInfo
unfolding find_awake awake_or_closest
get_next_thr s time =
    awake_or_closest (
      find_awake (λ t. is_sleeping s.reference_pending t time) (length s.round_robin) s.round_robin)

abbrev pub has_calls : ThreadInfo → Bool
has_calls t = elim t.call_queue [ [] ↦ false | c ∷ cs ↦ true ]

-- The loop of `rr_scheduler_may_sleep_us`; `none` is its early return of 0.
unfoldable pub min_wakeup : Bool → ℕ → List ThreadInfo → ℕ → Option ℕ
min_wakeup pending time [] min = some min
min_wakeup pending time (t ∷ ts) min =
    let skip = min_wakeup pending time ts min in
    let lower =
      min_wakeup pending time ts
        (if not (wakeup_of t == 0) && ltb (wakeup_of t) min then wakeup_of t else min) in
    if has_calls t then (if is_sleeping pending t time then lower else none) else skip

-- `min > time ? min - time : 0`, and the early return.
unfoldable pub time_left : ℕ → Option ℕ → ℕ
time_left time none = 0
time_left time (some min) = if ltb time min then min - time else 0

unfoldable pub rr_scheduler_may_sleep_us : Impl → ℕ → ℕ
unfolding min_wakeup time_left
rr_scheduler_may_sleep_us s time =
    time_left time (min_wakeup s.reference_pending time s.round_robin uint64_max)
