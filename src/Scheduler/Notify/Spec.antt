-- ===== src/Scheduler/Notify/Spec.antt =====
-- What the wake-up loops of engine/bjvm/vm/roundrobin_scheduler.c do to the round robin.
use tracejvm.Prelude.{
  ℕ, ◌≡◌, refl, sym, ap, subst, ◌∙◌, ◌⊎◌, inl, inr, Bool, true, false, List, [], ◌∷◌, ◌++◌, arith,
  Bool-cases, All,
}
use tracejvm.Scheduler.Types.{WakeupKind, ThreadInfo, Impl}
use tracejvm.Scheduler.Notify.{
  waits_on, is_monitor_wait, is_monitor_enter, mark_ready, wake_first, monitor_notify_one,
  monitor_exit_handler,
}

abbrev pub woken : ThreadInfo → ThreadInfo
woken t = record t { wakeup_info = mark_ready t.wakeup_info }

-- No thread of the list waits.
abbrev pub NoneWaits : (WakeupKind → Bool) → ℕ → List ThreadInfo → Type 0
NoneWaits kind monitor = All (λ t. waits_on kind monitor t.wakeup_info ≡ false)

-- `ys` is `xs` with its first waiter made ready, or `xs` itself if it holds no waiter.
abbrev pub FirstWoken : (WakeupKind → Bool) → ℕ → List ThreadInfo → List ThreadInfo → Type 0
FirstWoken kind monitor xs ys =
    (NoneWaits kind monitor xs × (ys ≡ xs))
    ⊎ ((before : List ThreadInfo) × (t : ThreadInfo) × (behind : List ThreadInfo) × (xs
          ≡ before ++ t ∷ behind)
        × NoneWaits kind monitor before
        × (waits_on kind monitor t.wakeup_info ≡ true)
        × (ys ≡ before ++ woken t ∷ behind))

FirstWoken-cons :
    (kind : WakeupKind → Bool) (monitor : ℕ) (t : ThreadInfo) (xs ys : List ThreadInfo)
    → waits_on kind monitor t.wakeup_info ≡ false
    → FirstWoken kind monitor xs ys
    → FirstWoken kind monitor (t ∷ xs) (t ∷ ys)
FirstWoken-cons kind monitor t xs ys miss (inl (n, e)) = inl ((miss, n), ap (◌∷◌ t) e)
FirstWoken-cons kind monitor t xs ys miss (inr (before, u, behind, e, n, hit, e')) =
    inr (t ∷ before, u, behind, ap (◌∷◌ t) e, (miss, n), hit, ap (◌∷◌ t) e')

wake_first_nil : (kind : WakeupKind → Bool) (monitor : ℕ) → wake_first kind monitor [] ≡ []
unfolding wake_first
wake_first_nil kind monitor = refl

wake_first_hit :
    (kind : WakeupKind → Bool) (monitor : ℕ) (t : ThreadInfo) (xs : List ThreadInfo)
    → waits_on kind monitor t.wakeup_info ≡ true
    → wake_first kind monitor (t ∷ xs) ≡ woken t ∷ xs
unfolding wake_first
wake_first_hit kind monitor t xs hit = rw hit

wake_first_miss :
    (kind : WakeupKind → Bool) (monitor : ℕ) (t : ThreadInfo) (xs : List ThreadInfo)
    → waits_on kind monitor t.wakeup_info ≡ false
    → wake_first kind monitor (t ∷ xs) ≡ t ∷ wake_first kind monitor xs
unfolding wake_first
wake_first_miss kind monitor t xs miss = rw miss

pub wake_first-FirstWoken :
    (kind : WakeupKind → Bool) (monitor : ℕ) (xs : List ThreadInfo)
    → FirstWoken kind monitor xs (wake_first kind monitor xs)
wake_first-FirstWoken kind monitor [] = inl (tt, wake_first_nil kind monitor)
wake_first-FirstWoken kind monitor (t ∷ xs) =
    elim (Bool-cases (waits_on kind monitor t.wakeup_info)) [
      | inl hit ↦ inr ([], t, xs, refl, tt, hit, wake_first_hit kind monitor t xs hit)
      | inr miss ↦
          subst (FirstWoken kind monitor (t ∷ xs)) (sym (wake_first_miss kind monitor t xs miss))
            (FirstWoken-cons kind monitor t xs _ miss (wake_first-FirstWoken kind monitor xs))
    ]

waits_on-mark_ready :
    (kind : WakeupKind → Bool) (monitor : ℕ) (t : ThreadInfo)
    → waits_on kind monitor (woken t).wakeup_info ≡ waits_on kind monitor t.wakeup_info
waits_on-mark_ready kind monitor t = ground arith

mark_ready_twice : (t : ThreadInfo) → woken (woken t) ≡ woken t
mark_ready_twice t = ground arith

wake_first_twice :
    (kind : WakeupKind → Bool) (monitor : ℕ) (xs : List ThreadInfo)
    → wake_first kind monitor (wake_first kind monitor xs) ≡ wake_first kind monitor xs
wake_first_twice kind monitor [] = ap (wake_first kind monitor) (wake_first_nil kind monitor)
wake_first_twice kind monitor (t ∷ xs) = elim (Bool-cases (waits_on kind monitor t.wakeup_info)) [
  | inl hit ↦ rw (wake_first_hit kind monitor t xs hit) (
      wake_first_hit kind monitor (woken t) xs (waits_on-mark_ready kind monitor t ∙ hit)
      ∙ ap (λ u. u ∷ xs) (mark_ready_twice t))
  | inr miss ↦ rw (wake_first_miss kind monitor t xs miss) (
      wake_first_miss kind monitor t (wake_first kind monitor xs) miss
      ∙ ap (◌∷◌ t) (wake_first_twice kind monitor xs))
]

-- `monitor_notify_one` makes ready the first thread of the round robin that waits on the monitor,
-- and changes nothing else; with no such thread it changes nothing.
pub monitor_notify_one-FirstWoken :
    (s : Impl) (monitor : ℕ)
    → FirstWoken is_monitor_wait monitor s.round_robin (monitor_notify_one s monitor).round_robin
unfolding monitor_notify_one
monitor_notify_one-FirstWoken s monitor =
    wake_first-FirstWoken is_monitor_wait monitor s.round_robin

-- `monitor_exit_handler` makes ready the first thread of the round robin that waits to enter the
-- monitor, and changes nothing else; with no such thread it changes nothing.
monitor_exit_handler-FirstWoken :
    (s : Impl) (monitor : ℕ)
    → FirstWoken is_monitor_enter monitor s.round_robin (monitor_exit_handler s monitor).round_robin
unfolding monitor_exit_handler
monitor_exit_handler-FirstWoken s monitor =
    wake_first-FirstWoken is_monitor_enter monitor s.round_robin

-- A second notification of the same monitor, before the thread that the first one woke has run,
-- is lost: it finds that thread again and wakes no other.
pub monitor_notify_one_twice :
    (s : Impl) (monitor : ℕ)
    → monitor_notify_one (monitor_notify_one s monitor) monitor ≡ monitor_notify_one s monitor
unfolding monitor_notify_one
monitor_notify_one_twice s monitor =
    ap (λ xs. record s { round_robin = xs })
      (wake_first_twice is_monitor_wait monitor s.round_robin)
