-- ===== src/Scheduler/Notify.antt =====
-- Who is woken when a monitor is released or notified: `monitor_notify_one`, `monitor_notify_all` and
-- `monitor_exit_handler` of engine/bjvm/vm/roundrobin_scheduler.c.
pub mod Spec
use tracejvm.Prelude.{
  ℕ, Bool, true, false, ◌&&◌, Option, none, some, List, [], ◌∷◌, map, ◌==◌, if◌then◌else◌,
}
use tracejvm.Scheduler.Types.{
  WakeupKind, monitor_enter_waiting, monitor_wait, WakeupInfo, ThreadInfo, Impl,
}

abbrev pub is_monitor_wait : WakeupKind → Bool
is_monitor_wait monitor_wait = true
is_monitor_wait _ = false

abbrev pub is_monitor_enter : WakeupKind → Bool
is_monitor_enter monitor_enter_waiting = true
is_monitor_enter _ = false

-- The test of the three loops: a thread that waits on the monitor, for the kind that `kind` accepts.
abbrev pub waits_on : (WakeupKind → Bool) → ℕ → Option WakeupInfo → Bool
waits_on kind monitor none = false
waits_on kind monitor (some w) = kind w.kind && w.monitor == monitor

abbrev pub mark_ready : Option WakeupInfo → Option WakeupInfo
mark_ready none = none
mark_ready (some w) = some (record w { ready = true })

-- The body of a loop that stops at the first thread found.
unfoldable pub wake_first : (WakeupKind → Bool) → ℕ → List ThreadInfo → List ThreadInfo
wake_first kind monitor [] = []
wake_first kind monitor (t ∷ ts) =
    if waits_on kind monitor t.wakeup_info
    then record t { wakeup_info = mark_ready t.wakeup_info } ∷ ts
    else t ∷ wake_first kind monitor ts

unfoldable pub wake_each : (WakeupKind → Bool) → ℕ → List ThreadInfo → List ThreadInfo
wake_each kind monitor [] = []
wake_each kind monitor (t ∷ ts) =
    (if waits_on kind monitor t.wakeup_info
      then record t { wakeup_info = mark_ready t.wakeup_info }
      else t)
    ∷ wake_each kind monitor ts

unfoldable pub monitor_notify_one : Impl → ℕ → Impl
unfolding wake_first
monitor_notify_one s monitor = record s {
  round_robin = wake_first is_monitor_wait monitor s.round_robin;
}

unfoldable pub monitor_notify_all : Impl → ℕ → Impl
unfolding wake_each
monitor_notify_all s monitor = record s {
  round_robin = wake_each is_monitor_wait monitor s.round_robin;
}

unfoldable pub monitor_exit_handler : Impl → ℕ → Impl
unfolding wake_first
monitor_exit_handler s monitor = record s {
  round_robin = wake_first is_monitor_enter monitor s.round_robin;
}
