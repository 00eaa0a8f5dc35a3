-- ===== src/Monitor/System.antt =====
-- Any number of threads at one monitor of engine/bjvm/vm/monitors.c, in any order of their calls.
-- `depth t` counts what thread `t` has entered and not left; the code keeps no such number.
use tracejvm.Prelude.{
  ℕ, ◌+◌, ◌-◌, ◌^◌, ◌<◌, ◌≡◌, ◌≢◌, refl, Bool, true, false, arith, ◌==◌, if◌then◌else◌,
}
use tracejvm.Scheduler.Types.{WakeupInfo, Impl}
use tracejvm.Monitor.{
  HeaderWord, mark, expanded, returned, yielded, not_held_tid, monitor_acquire,
  monitor_reacquire_hold_count, current_thread_hold_count, monitor_release_all_hold_count,
  monitor_release,
}
use tracejvm.Monitor.Reentrancy.{IsSound}

pub record Machine : Type 0 where
  pub header : HeaderWord
  pub sched : Impl
  pub depth : ℕ → ℕ

abbrev pub update : (ℕ → ℕ) → ℕ → ℕ → ℕ → ℕ
update f i n j = if i == j then n else f j

-- Each call of a thread, with each way that it can end. The depth of a thread stays below 2^32.
pub data Step (obj : ℕ) (m : Machine) : Machine → Type 0 where
  enter :
      (allocates : Bool) (tid : ℕ) (info : WakeupInfo) (h : HeaderWord)
      → tid ≢ not_held_tid
      → m.depth tid + 1 < 2 ^ 32
      → monitor_acquire allocates tid obj info m.header ≡ (h, returned false)
      → Step obj m (record m { header = h; depth = update m.depth tid (m.depth tid + 1) })
  no_memory :
      (allocates : Bool) (tid : ℕ) (info : WakeupInfo) (h : HeaderWord)
      → monitor_acquire allocates tid obj info m.header ≡ (h, returned true)
      → Step obj m (record m { header = h })
  block :
      (allocates : Bool) (tid : ℕ) (info info' : WakeupInfo) (h : HeaderWord)
      → monitor_acquire allocates tid obj info m.header ≡ (h, yielded info')
      → Step obj m (record m { header = h })
  leave :
      (tid : ℕ) (h : HeaderWord) (s : Impl)
      → tid ≢ not_held_tid
      → monitor_release tid obj m.header m.sched ≡ (h, s, false)
      → Step obj m (record { header = h; sched = s; depth = update m.depth tid (m.depth tid - 1) })
  refused :
      (tid : ℕ) (h : HeaderWord) (s : Impl)
      → monitor_release tid obj m.header m.sched ≡ (h, s, true)
      → Step obj m (record m { header = h; sched = s })
  wait :
      (tid n : ℕ) (h : HeaderWord) (s : Impl)
      → tid ≢ not_held_tid
      → monitor_release_all_hold_count tid obj m.header m.sched ≡ (h, s, n)
      → Step obj m (record { header = h; sched = s; depth = update m.depth tid 0 })
  resume :
      (tid n : ℕ) (info : WakeupInfo) (h : HeaderWord)
      → tid ≢ not_held_tid
      → 0 < n
      → n < 2 ^ 32
      → monitor_reacquire_hold_count n tid obj info m.header ≡ (h, returned false)
      → Step obj m (record m { header = h; depth = update m.depth tid n })
  still_waits :
      (tid n : ℕ) (info info' : WakeupInfo) (h : HeaderWord)
      → monitor_reacquire_hold_count n tid obj info m.header ≡ (h, yielded info')
      → Step obj m (record m { header = h })

pub data Reach (obj : ℕ) (start : Machine) : Machine → Type 0 where
  here : Reach obj start start
  next : {m n : Machine} → Reach obj start m → Step obj m n → Reach obj start n

-- The monitor is sound and counts for each thread what the thread has entered.
pub record Inv (m : Machine) : Type 0 where
  pub sound : IsSound m.header
  pub counted : (t : ℕ) → t ≢ not_held_tid → current_thread_hold_count t m.header ≡ m.depth t

-- The calls of thread `tid` with the monitor that stands at `h0`, one lemma for each.
module _ (obj tid : ℕ) (ne : tid ≢ not_held_tid) (m : Machine) (v : Inv m) where
  enter-Inv :
      (allocates : Bool) (info : WakeupInfo) (h0 h : HeaderWord)
      → m.header ≡ h0
      → m.depth tid + 1 < 2 ^ 32
      → monitor_acquire allocates tid obj info h0 ≡ (h, returned false)
      → Inv (record m { header = h; depth = update m.depth tid (m.depth tid + 1) })
  unfolding monitor_acquire current_thread_hold_count
  enter-Inv true info (mark w) h q lt e = record {
    sound = ground (arith, v.sound);
    counted = λ t u. ground (arith, v.counted t u);
  }
  enter-Inv false info (mark w) h q lt e = absurd (ground arith)
  enter-Inv allocates info (expanded lock) h q lt e = record {
    sound = ground (arith, v.sound, v.counted tid ne);
    counted = λ t u. ground (arith, v.sound, v.counted t u, v.counted tid ne);
  }

  leave-Inv :
      (h0 h : HeaderWord) (s : Impl)
      → m.header ≡ h0
      → monitor_release tid obj h0 m.sched ≡ (h, s, false)
      → Inv (record { header = h; sched = s; depth = update m.depth tid (m.depth tid - 1) })
  unfolding monitor_release current_thread_hold_count
  leave-Inv (mark w) h s q e = absurd (ground arith)
  leave-Inv (expanded lock) h s q e = record {
    sound = ground (arith, v.sound, v.counted tid ne);
    counted = λ t u. ground (arith, v.sound, v.counted t u, v.counted tid ne);
  }

  wait-Inv :
      (n : ℕ) (h0 h : HeaderWord) (s : Impl)
      → m.header ≡ h0
      → monitor_release_all_hold_count tid obj h0 m.sched ≡ (h, s, n)
      → Inv (record { header = h; sched = s; depth = update m.depth tid 0 })
  unfolding monitor_release_all_hold_count current_thread_hold_count
  wait-Inv n (mark w) h s q e = record {
    sound = ground (arith, v.sound);
    counted = λ t u. ground (arith, v.counted t u);
  }
  wait-Inv n (expanded lock) h s q e = record {
    sound = ground (arith, v.sound, v.counted tid ne);
    counted = λ t u. ground (arith, v.sound, v.counted t u, v.counted tid ne);
  }

  resume-Inv :
      (n : ℕ) (info : WakeupInfo) (h0 h : HeaderWord)
      → m.header ≡ h0
      → 0 < n
      → n < 2 ^ 32
      → monitor_reacquire_hold_count n tid obj info h0 ≡ (h, returned false)
      → Inv (record m { header = h; depth = update m.depth tid n })
  unfolding monitor_reacquire_hold_count current_thread_hold_count
  resume-Inv n info (mark w) h q pos lt e = absurd (ground arith)
  resume-Inv n info (expanded lock) h q pos lt e = record {
    sound = ground (arith, v.sound, v.counted tid ne);
    counted = λ t u. ground (arith, v.sound, v.counted t u, v.counted tid ne);
  }

-- The calls that fail or yield.
module _ (obj tid : ℕ) (m : Machine) (v : Inv m) where
  no_memory-Inv :
      (allocates : Bool) (info : WakeupInfo) (h0 h : HeaderWord)
      → m.header ≡ h0
      → monitor_acquire allocates tid obj info h0 ≡ (h, returned true)
      → Inv (record m { header = h })
  unfolding monitor_acquire current_thread_hold_count
  no_memory-Inv true info (mark w) h q e = absurd (ground arith)
  no_memory-Inv false info (mark w) h q e = record {
    sound = ground (arith, v.sound);
    counted = λ t u. ground (arith, v.counted t u);
  }
  no_memory-Inv allocates info (expanded lock) h q e = absurd (ground arith)

  block-Inv :
      (allocates : Bool) (info info' : WakeupInfo) (h0 h : HeaderWord)
      → m.header ≡ h0
      → monitor_acquire allocates tid obj info h0 ≡ (h, yielded info')
      → Inv (record m { header = h })
  unfolding monitor_acquire current_thread_hold_count
  block-Inv true info info' (mark w) h q e = absurd (ground arith)
  block-Inv false info info' (mark w) h q e = absurd (ground arith)
  block-Inv allocates info info' (expanded lock) h q e = record {
    sound = ground (arith, v.sound);
    counted = λ t u. ground (arith, v.counted t u);
  }

  refused-Inv :
      (h0 h : HeaderWord) (s : Impl)
      → m.header ≡ h0
      → monitor_release tid obj h0 m.sched ≡ (h, s, true)
      → Inv (record m { header = h; sched = s })
  unfolding monitor_release current_thread_hold_count
  refused-Inv (mark w) h s q e = record {
    sound = ground (arith, v.sound);
    counted = λ t u. ground (arith, v.counted t u);
  }
  refused-Inv (expanded lock) h s q e = record {
    sound = ground (arith, v.sound);
    counted = λ t u. ground (arith, v.counted t u);
  }

  still_waits-Inv :
      (n : ℕ) (info info' : WakeupInfo) (h0 h : HeaderWord)
      → m.header ≡ h0
      → monitor_reacquire_hold_count n tid obj info h0 ≡ (h, yielded info')
      → Inv (record m { header = h })
  unfolding monitor_reacquire_hold_count current_thread_hold_count
  still_waits-Inv n info info' (mark w) h q e = absurd (ground arith)
  still_waits-Inv n info info' (expanded lock) h q e = record {
    sound = ground (arith, v.sound);
    counted = λ t u. ground (arith, v.counted t u);
  }

Step-Inv : {obj : ℕ} {m n : Machine} → Step obj m n → Inv m → Inv n
Step-Inv {obj} {m} (enter a tid info h ne lt e) v =
    enter-Inv obj tid ne m v a info m.header h refl lt e
Step-Inv {obj} {m} (no_memory a tid info h e) v = no_memory-Inv obj tid m v a info m.header h refl e
Step-Inv {obj} {m} (block a tid info info' h e) v =
    block-Inv obj tid m v a info info' m.header h refl e
Step-Inv {obj} {m} (leave tid h s ne e) v = leave-Inv obj tid ne m v m.header h s refl e
Step-Inv {obj} {m} (refused tid h s e) v = refused-Inv obj tid m v m.header h s refl e
Step-Inv {obj} {m} (wait tid n h s ne e) v = wait-Inv obj tid ne m v n m.header h s refl e
Step-Inv {obj} {m} (resume tid n info h ne pos lt e) v =
    resume-Inv obj tid ne m v n info m.header h refl pos lt e
Step-Inv {obj} {m} (still_waits tid n info info' h e) v =
    still_waits-Inv obj tid m v n info info' m.header h refl e

-- An object that was never locked, and no thread inside.
abbrev pub fresh : ℕ → Impl → Machine
fresh word s = record { header = mark word; sched = s; depth = λ t. 0 }

fresh-Inv : (word : ℕ) (s : Impl) → Inv (fresh word s)
unfolding current_thread_hold_count
fresh-Inv word s = record { sound = tt; counted = λ t u. refl }

Reach-Inv : {obj word : ℕ} {s : Impl} {m : Machine} → Reach obj (fresh word s) m → Inv m
Reach-Inv {word} {s} here = fresh-Inv word s
Reach-Inv (next r st) = Step-Inv st (Reach-Inv r)

one_holder :
    (t u : ℕ) (h : HeaderWord)
    → 0 < current_thread_hold_count t h
    → 0 < current_thread_hold_count u h
    → t ≡ u
unfolding current_thread_hold_count
one_holder t u (mark w) p q = absurd (omega arith)
one_holder t u (expanded lock) p q = ground arith

-- In every state that threads reach from a fresh object, the monitor counts for each thread exactly
-- what that thread has entered and not left, and two threads are never inside together. The threads
-- have numbers other than -1, and none enters 2^32 times without leaving.
pub mutual_exclusion :
    {obj word : ℕ} {s : Impl} {m : Machine} (t u : ℕ)
    → Reach obj (fresh word s) m
    → t ≢ not_held_tid
    → u ≢ not_held_tid
    → (current_thread_hold_count t m.header ≡ m.depth t) × (0 < m.depth t → 0 < m.depth u → t ≡ u)
mutual_exclusion {m} t u r nt nu = (
  v.counted t nt,
  λ p q. one_holder t u m.header (omega (arith, v.counted t nt)) (omega (arith, v.counted u nu)),
)
  where
    v : Inv m
    v = Reach-Inv r
