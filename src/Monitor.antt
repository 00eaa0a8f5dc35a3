-- ===== src/Monitor.antt =====
-- engine/bjvm/vm/monitors.c: the monitor of an object, as coroutines that the scheduler resumes and
-- as the calls that give it up. The header word is that of engine/bjvm/vm/bjvm.h; the handles that
-- keep the object in place are left out, since an object is named by a number.
pub mod System
pub mod Objects
pub mod Reentrancy
use tracejvm.Prelude.{
  ℕ, suc, ◌+◌, ◌-◌, ◌%◌, ◌^◌, Bool, true, false, ◌&&◌, ◌||◌, not, Option, none, some, ◌==◌,
  if◌then◌else◌,
}
use tracejvm.Scheduler.Types.{WakeupInfo, WakeupKind, monitor_enter_waiting, Impl}
use tracejvm.Scheduler.Notify.{monitor_exit_handler}

-- The owner -1 of a monitor that no thread holds, as the pattern of an `s32`.
abbrev pub not_held_tid : ℕ
not_held_tid = 2 ^ 32 - 1

pub record MonitorData : Type 0 where
  pub tid : ℕ
  pub hold_count : ℕ
  pub mark_word : ℕ

-- The two readings of a header word, by its lowest bit.
pub data HeaderWord : Type 0 where
  mark : (word : ℕ) → HeaderWord
  expanded : MonitorData → HeaderWord

unfoldable pub has_expanded_data : HeaderWord → Bool
has_expanded_data (mark word) = false
has_expanded_data (expanded lock) = true

unfoldable pub inspect_monitor : HeaderWord → Option MonitorData
inspect_monitor (mark word) = none
inspect_monitor (expanded lock) = some lock

unfoldable pub get_mark_word : HeaderWord → ℕ
get_mark_word (mark word) = word
get_mark_word (expanded lock) = lock.mark_word

-- The first loop of `monitor_acquire`: a monitor that nobody holds is put in, if there is none.
-- `allocates` is whether `allocate_monitor_for` finds the memory. One thread runs at a time, so the
-- exchange succeeds.
unfoldable pub ensure_monitor : Bool → HeaderWord → Option HeaderWord
ensure_monitor allocates (expanded lock) = some (expanded lock)
ensure_monitor allocates (mark word) =
    if allocates
    then some (expanded (record { tid = not_held_tid; hold_count = 0; mark_word = word }))
    else none

-- How a resumption of a coroutine ends.
pub data Outcome : Type 0 where
  returned : (is_error : Bool) → Outcome
  yielded : WakeupInfo → Outcome

-- What is waited for by a thread that finds the monitor held; `ready` stays as it was.
abbrev pub enter_wakeup : ℕ → WakeupInfo → WakeupInfo
enter_wakeup obj info = record info { kind = monitor_enter_waiting; wakeup_us = 0; monitor = obj }

-- One round of the second loop of `monitor_acquire`, for thread `tid`.
unfoldable pub acquire_lock : ℕ → ℕ → WakeupInfo → MonitorData → MonitorData × Outcome
acquire_lock tid obj info lock =
    if lock.tid == not_held_tid
    then (record lock { tid = tid; hold_count = 1 }, returned false)
    else if lock.tid == tid
    then (record lock { hold_count = (lock.hold_count + 1) % 2 ^ 32 }, returned false)
    else (lock, yielded (enter_wakeup obj info))

-- A round on the header, in which the monitor is there once the first loop has run.
unfoldable pub acquire_resume : ℕ → ℕ → WakeupInfo → HeaderWord → HeaderWord × Outcome
unfolding acquire_lock
acquire_resume tid obj info (mark word) = (mark word, returned true)
acquire_resume tid obj info (expanded lock) =
    let (lock', outcome) = acquire_lock tid obj info lock in (expanded lock', outcome)

unfoldable pub acquire_ensured :
    ℕ → ℕ → WakeupInfo → HeaderWord → Option HeaderWord → HeaderWord × Outcome
unfolding acquire_resume
acquire_ensured tid obj info header none = (header, returned true)
acquire_ensured tid obj info header (some header') = acquire_resume tid obj info header'

-- `monitor_acquire` up to its return or its first yield.
unfoldable pub monitor_acquire : Bool → ℕ → ℕ → WakeupInfo → HeaderWord → HeaderWord × Outcome
unfolding ensure_monitor acquire_ensured
monitor_acquire allocates tid obj info header =
    acquire_ensured tid obj info header (ensure_monitor allocates header)

-- A round of the loop of `monitor_reacquire_hold_count`. A thread that holds the monitor is an error.
unfoldable pub reacquire_lock : ℕ → ℕ → ℕ → WakeupInfo → MonitorData → MonitorData × Outcome
reacquire_lock hold_count tid obj info lock =
    if lock.tid == not_held_tid
    then (record lock { tid = tid; hold_count = hold_count }, returned false)
    else if lock.tid == tid
    then (lock, returned true)
    else (lock, yielded (enter_wakeup obj info))

unfoldable pub monitor_reacquire_hold_count :
    ℕ → ℕ → ℕ → WakeupInfo → HeaderWord → HeaderWord × Outcome
unfolding reacquire_lock
monitor_reacquire_hold_count hold_count tid obj info (mark word) = (mark word, returned true)
monitor_reacquire_hold_count hold_count tid obj info (expanded lock) =
    let (lock', outcome) = reacquire_lock hold_count tid obj info lock in (expanded lock', outcome)

unfoldable pub current_thread_hold_count : ℕ → HeaderWord → ℕ
current_thread_hold_count tid (mark word) = 0
current_thread_hold_count tid (expanded lock) = if lock.tid == tid then lock.hold_count else 0

-- The three early returns of both releases.
abbrev pub may_release : ℕ → MonitorData → Bool
may_release tid lock = lock.tid == tid && not (lock.hold_count == 0)

abbrev pub unheld : MonitorData → MonitorData
unheld lock = record lock { tid = not_held_tid; hold_count = 0 }

-- The result is the hold count that was given up, 0 on failure.
unfoldable pub monitor_release_all_hold_count : ℕ → ℕ → HeaderWord → Impl → HeaderWord × Impl × ℕ
monitor_release_all_hold_count tid obj (mark word) s = (mark word, s, 0)
monitor_release_all_hold_count tid obj (expanded lock) s =
    if may_release tid lock
    then (expanded (unheld lock), monitor_exit_handler s obj, lock.hold_count)
    else (expanded lock, s, 0)

-- The result is whether the release is refused, the -1 of the code.
unfoldable pub monitor_release : ℕ → ℕ → HeaderWord → Impl → HeaderWord × Impl × Bool
monitor_release tid obj (mark word) s = (mark word, s, true)
monitor_release tid obj (expanded lock) s =
    if may_release tid lock
    then (if lock.hold_count == 1
        then (expanded (unheld lock), monitor_exit_handler s obj, false)
        else (expanded (record lock { hold_count = lock.hold_count - 1 }), s, false))
    else (expanded lock, s, true)
