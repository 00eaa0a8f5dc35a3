-- ===== src/Examples/Monitors.antt =====
-- engine/bjvm/vm/monitors.c and Object.c at work: threads 1 and 2 at object 7.
use tracejvm.Prelude.{ℕ, ◌+◌, ◌<◌, ◌≡◌, ◌≢◌, refl, Bool, true, false, [], ◌∷◌, some, arith}
use tracejvm.Scheduler.Types.{WakeupInfo, monitor_enter_waiting, VmThread, ThreadInfo, Impl}
use tracejvm.Scheduler.Notify.{monitor_exit_handler}
use tracejvm.Monitor.{
  HeaderWord, expanded, returned, monitor_acquire, monitor_release, monitor_release_all_hold_count,
  monitor_reacquire_hold_count, current_thread_hold_count,
}
use tracejvm.Monitor.Reentrancy.{
  monitor_release-monitor_acquire, monitor_reacquire-monitor_release_all, other_holds,
}
use tracejvm.Monitor.System.{
  Machine, enter, block, Reach, here, next, fresh, update, mutual_exclusion,
}
use tracejvm.Monitor.Objects.{Refused, Granted, natives_check_monitor}

abbrev waits_for : Bool → WakeupInfo
waits_for ready = record { kind = monitor_enter_waiting; wakeup_us = 0; monitor = 7; ready = ready }

abbrev thread : ℕ → VmThread
thread n = record {
  tid = n;
  thread_obj = 100 + n;
  unpark_permit = false;
  interrupted = false;
  daemon = false;
}

abbrev waiting_thread : ThreadInfo
waiting_thread = record { thread = thread 2; call_queue = []; wakeup_info = some (waits_for false) }

abbrev sched : Impl
sched = record {
  round_robin = waiting_thread ∷ [];
  executions = [];
  js_handles = [];
  reference_pending = false;
  preemption_us = 30000;
  eetop = λ o. o;
}

abbrev held_by_one : ℕ → HeaderWord
held_by_one n = expanded (record { tid = 1; hold_count = n; mark_word = 1 })

-- Thread 1 has entered twice, and thread 2 has to wait.
abbrev inside : Machine
inside = record { header = held_by_one 2; sched = sched; depth = update (update (λ t. 0) 1 1) 1 2 }

inside_reached : Reach 7 (fresh 1 sched) inside
unfolding monitor_acquire
inside_reached =
    next
      (next
        (next here
          (enter true 1 (waits_for false) (held_by_one 1) (omega arith) (omega arith) refl))
        (enter true 1 (waits_for false) (held_by_one 2) (omega arith) (omega arith) refl))
      (block true 2 (waits_for true) (waits_for true) (held_by_one 2) refl)

mutual_exclusion_example :
    (current_thread_hold_count 1 (held_by_one 2) ≡ inside.depth 1)
    × (0 < inside.depth 1 → 0 < inside.depth 2 → ◌≡◌ {A = ℕ} 1 2)
mutual_exclusion_example = mutual_exclusion 1 2 inside_reached (omega arith) (omega arith)

monitor_release-monitor_acquire_example :
    (current_thread_hold_count 1 (held_by_one 2) ≡ 2)
    × ((monitor_release 1 7 (held_by_one 2) sched).2 ≡ false)
    × (current_thread_hold_count 1 (monitor_release 1 7 (held_by_one 2) sched).0 ≡ 1)
    × ((monitor_release 1 7 (held_by_one 2) sched).1 ≡ sched)
unfolding monitor_acquire current_thread_hold_count
monitor_release-monitor_acquire_example =
    monitor_release-monitor_acquire true 1 7 (waits_for false) (held_by_one 1) (held_by_one 2) sched
      (omega arith) (omega arith) (omega arith) refl

monitor_reacquire_example :
    let r = monitor_release_all_hold_count 1 7 (held_by_one 3) sched in
    (r.2 ≡ 3)
    × (r.1 ≡ monitor_exit_handler sched 7)
    × (current_thread_hold_count 1 r.0 ≡ 0)
    × (monitor_acquire false 2 7 (waits_for false) r.0 ≡ (other_holds 2 r.0, returned false))
    × (monitor_reacquire_hold_count r.2 1 7 (waits_for false) r.0 ≡ (held_by_one 3, returned false))
unfolding current_thread_hold_count
monitor_reacquire_example =
    monitor_reacquire-monitor_release_all 1 7 2 (waits_for false) (held_by_one 3) sched
      (omega arith) (omega arith)

natives_check_monitor_example :
    (current_thread_hold_count 1 (held_by_one 2) ≡ 0 → Refused 1 7 10 1000 (held_by_one 2) sched)
    × (current_thread_hold_count 1 (held_by_one 2) ≢ 0 → Granted 1 7 10 1000 (held_by_one 2) sched)
natives_check_monitor_example =
    natives_check_monitor 1 7 10 1000 (held_by_one 2) sched (omega arith)
