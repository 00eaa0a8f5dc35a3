-- ===== src/Monitor/Objects.antt =====
-- engine/bjvm/natives/share/java/lang/Object.c: the natives `wait0`, `notify` and `notifyAll`, which
-- check the monitor of the object before they touch the scheduler.
use tracejvm.Prelude.{
  ℕ, ◌+◌, ◌*◌, ◌%◌, ◌^◌, ◌≡◌, ◌≢◌, refl, Bool, true, false, arith, ◌==◌, if◌then◌else◌,
}
use tracejvm.Scheduler.Types.{WakeupInfo, monitor_wait, Impl}
use tracejvm.Scheduler.Notify.{monitor_notify_one, monitor_notify_all, monitor_exit_handler}
use tracejvm.Monitor.{
  HeaderWord, mark, expanded, not_held_tid, current_thread_hold_count,
  monitor_release_all_hold_count,
}

pub data Thrown : Type 0 where
  illegal_monitor_state interrupted_exception : Thrown

pub data Native {ℓ} (A : Type ℓ) : Type ℓ where
  value : A → Native A
  threw : Thrown → Native A

unfoldable pub notify_all : ℕ → ℕ → HeaderWord → Impl → Native Impl
notify_all tid obj h s =
    if current_thread_hold_count tid h == 0
    then threw illegal_monitor_state
    else value (monitor_notify_all s obj)

unfoldable pub notify : ℕ → ℕ → HeaderWord → Impl → Native Impl
notify tid obj h s =
    if current_thread_hold_count tid h == 0
    then threw illegal_monitor_state
    else value (monitor_notify_one s obj)

-- What `wait0` waits for. The clock shows `now`; the sum is that of a `u64`.
abbrev pub wait_wakeup : ℕ → ℕ → ℕ → WakeupInfo
wait_wakeup obj timeout now = record {
  kind = monitor_wait;
  wakeup_us = if timeout == 0 then 0 else (now + timeout * 1000) % 2 ^ 64;
  monitor = obj;
  ready = false;
}

-- A thread inside `wait0`: the header, the scheduler, the flag `interrupted` and the way it goes on.
pub record Waiting : Type 0 where
  pub header : HeaderWord
  pub sched : Impl
  pub interrupted : Bool
  pub outcome : Native (ℕ × WakeupInfo)

-- `wait0` up to its yield, where it keeps the hold count that it gave up.
unfoldable pub wait0_begin : ℕ → ℕ → ℕ → ℕ → Bool → HeaderWord → Impl → Waiting
wait0_begin tid obj timeout now true h s = record {
  header = h;
  sched = s;
  interrupted = false;
  outcome = threw interrupted_exception;
}
wait0_begin tid obj timeout now false h s =
    let (h', s', hold_count) = monitor_release_all_hold_count tid obj h s in
    record {
      header = h';
      sched = s';
      interrupted = false;
      outcome =
          if hold_count == 0
          then threw illegal_monitor_state
          else value (hold_count, wait_wakeup obj timeout now);
    }

-- `wait0` once the monitor is held again: the flag `interrupted`, and what the native does.
unfoldable pub wait0_end : Bool → Bool × Native (Unit {0})
wait0_end true = (false, threw interrupted_exception)
wait0_end false = (false, value tt)

abbrev pub Refused : ℕ → ℕ → ℕ → ℕ → HeaderWord → Impl → Type 0
Refused tid obj timeout now h s =
    let w = wait0_begin tid obj timeout now false h s in
    (notify tid obj h s ≡ threw illegal_monitor_state)
    × (notify_all tid obj h s ≡ threw illegal_monitor_state)
    × (w.outcome ≡ threw illegal_monitor_state)
    × (w.header ≡ h)
    × (w.sched ≡ s)

abbrev pub Granted : ℕ → ℕ → ℕ → ℕ → HeaderWord → Impl → Type 0
Granted tid obj timeout now h s =
    let w = wait0_begin tid obj timeout now false h s in
    (notify tid obj h s ≡ value (monitor_notify_one s obj))
    × (notify_all tid obj h s ≡ value (monitor_notify_all s obj))
    × (w.outcome ≡ value (current_thread_hold_count tid h, wait_wakeup obj timeout now))
    × (current_thread_hold_count tid w.header ≡ 0)
    × (w.sched ≡ monitor_exit_handler s obj)

-- Only a thread that holds the monitor may notify or wait. For any other each of the natives throws,
-- and a wait leaves the monitor and the scheduler alone. For one that holds it the notifications
-- reach the scheduler, and a wait gives the monitor up, wakes a thread that waits to enter, and keeps
-- the count for later. The thread has a number other than -1 and is not interrupted.
pub natives_check_monitor :
    (tid obj timeout now : ℕ) (h : HeaderWord) (s : Impl)
    → tid ≢ not_held_tid
    → (current_thread_hold_count tid h ≡ 0 → Refused tid obj timeout now h s)
      × (current_thread_hold_count tid h ≢ 0 → Granted tid obj timeout now h s)
unfolding notify notify_all wait0_begin current_thread_hold_count monitor_release_all_hold_count
natives_check_monitor tid obj timeout now (mark word) s ne =
    ((λ free. ground arith), λ held. absurd (held refl))
natives_check_monitor tid obj timeout now (expanded lock) s ne =
    ((λ free. ground arith), λ held. ground arith)
