-- ===== src/Monitor/Reentrancy.antt =====
-- What entering and leaving a monitor do together: engine/bjvm/vm/monitors.c.
use tracejvm.Prelude.{
  ℕ, ◌+◌, ◌^◌, ◌<◌, ◌≡◌, ◌≢◌, refl, Bool, true, false, arith, ◌==◌, if◌then◌else◌,
}
use tracejvm.Scheduler.Types.{WakeupInfo, Impl}
use tracejvm.Scheduler.Notify.{monitor_exit_handler}
use tracejvm.Monitor.{
  HeaderWord, mark, expanded, returned, not_held_tid, monitor_acquire, monitor_reacquire_hold_count,
  current_thread_hold_count, monitor_release_all_hold_count, monitor_release, get_mark_word,
}

-- The monitor of a header that a thread can hold: held by nobody just when its count is 0, and the
-- count is a `u32`.
abbrev pub IsSound : HeaderWord → Type 0
IsSound (mark word) = Unit {0}
IsSound (expanded lock) =
    (lock.hold_count < 2 ^ 32)
    × (lock.tid ≡ not_held_tid → lock.hold_count ≡ 0)
    × (lock.hold_count ≡ 0 → lock.tid ≡ not_held_tid)

abbrev pub other_holds : ℕ → HeaderWord → HeaderWord
other_holds tid (mark word) = mark word
other_holds tid (expanded lock) = expanded (record lock { tid = tid; hold_count = 1 })

-- Entering a monitor never changes the mark word of the object, which may move into the monitor, and
-- keeps a sound monitor sound. The thread has a number other than -1, and its count does not overflow.
pub monitor_acquire-IsSound :
    (allocates : Bool) (tid obj : ℕ) (info : WakeupInfo) (h : HeaderWord)
    → tid ≢ not_held_tid
    → current_thread_hold_count tid h + 1 < 2 ^ 32
    → IsSound h
    → (get_mark_word (monitor_acquire allocates tid obj info h).0 ≡ get_mark_word h)
      × IsSound (monitor_acquire allocates tid obj info h).0
unfolding monitor_acquire get_mark_word current_thread_hold_count
monitor_acquire-IsSound true tid obj info (mark word) ne lt sound = ground arith
monitor_acquire-IsSound false tid obj info (mark word) ne lt sound = ground arith
monitor_acquire-IsSound allocates tid obj info (expanded lock) ne lt sound = ground arith

-- A release gives back exactly one entry. After a thread with a number other than -1 has entered a
-- sound monitor, without overflow of its count, its next release succeeds, and it holds the monitor
-- as often as before; a thread waiting to enter is woken just when the monitor comes free.
pub monitor_release-monitor_acquire :
    (allocates : Bool) (tid obj : ℕ) (info : WakeupInfo) (h h' : HeaderWord) (s : Impl)
    → tid ≢ not_held_tid
    → current_thread_hold_count tid h + 1 < 2 ^ 32
    → IsSound h
    → monitor_acquire allocates tid obj info h ≡ (h', returned false)
    → (current_thread_hold_count tid h' ≡ current_thread_hold_count tid h + 1)
      × ((monitor_release tid obj h' s).2 ≡ false)
      × (current_thread_hold_count tid (monitor_release tid obj h' s).0
          ≡ current_thread_hold_count tid h)
      × ((monitor_release tid obj h' s).1
          ≡ (if current_thread_hold_count tid h == 0 then monitor_exit_handler s obj else s))
unfolding monitor_acquire current_thread_hold_count monitor_release
monitor_release-monitor_acquire true tid obj info (mark word) h' s ne lt sound e = ground arith
monitor_release-monitor_acquire false tid obj info (mark word) h' s ne lt sound e = ground arith
monitor_release-monitor_acquire allocates tid obj info (expanded lock) h' s ne lt sound e =
    ground arith

-- A thread that gives up all its entries, as to wait, gets them back: the monitor is free for any
-- other thread in between, and a later reacquisition of a free monitor restores the count. The
-- thread has a number other than -1, and `other` is a thread that does not hold the monitor.
pub monitor_reacquire-monitor_release_all :
    (tid obj other : ℕ) (info : WakeupInfo) (h : HeaderWord) (s : Impl)
    → tid ≢ not_held_tid
    → current_thread_hold_count tid h ≢ 0
    → let r = monitor_release_all_hold_count tid obj h s in
      (r.2 ≡ current_thread_hold_count tid h)
      × (r.1 ≡ monitor_exit_handler s obj)
      × (current_thread_hold_count tid r.0 ≡ 0)
      × (monitor_acquire false other obj info r.0 ≡ (other_holds other r.0, returned false))
      × (monitor_reacquire_hold_count r.2 tid obj info r.0 ≡ (h, returned false))
unfolding monitor_acquire current_thread_hold_count monitor_release_all_hold_count
    monitor_reacquire_hold_count
monitor_reacquire-monitor_release_all tid obj other info (mark word) s ne held = absurd (held refl)
monitor_reacquire-monitor_release_all tid obj other info (expanded lock) s ne held = ground arith

-- A thread that does not hold the monitor cannot release it: both releases fail, and neither the
-- monitor nor any waiting thread changes.
pub monitor_release_not_held :
    (tid obj : ℕ) (h : HeaderWord) (s : Impl)
    → current_thread_hold_count tid h ≡ 0
    → (monitor_release tid obj h s ≡ (h, s, true))
      × (monitor_release_all_hold_count tid obj h s ≡ (h, s, 0))
unfolding current_thread_hold_count monitor_release monitor_release_all_hold_count
monitor_release_not_held tid obj (mark word) s free = ground arith
monitor_release_not_held tid obj (expanded lock) s free = ground arith
