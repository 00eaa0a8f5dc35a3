-- ===== src/Scheduler/Step/Lifecycle.antt =====
-- The calls of a thread from `rr_scheduler_run` to `unshift` of
-- engine/bjvm/vm/roundrobin_scheduler.c, and the queues of the threads beside it.
use tracejvm.Prelude.{
  ℕ, ◌≡◌, refl, sym, ap, subst, ◌∙◌, Bool, true, Option, none, some, List, [], ◌∷◌, ◌++◌, arith,
  All, ◌==◌, if◌then◌else◌,
}
use tracejvm.Scheduler.Types.{WakeupKind, VmThread, PendingCall, ThreadInfo, Impl}
use tracejvm.Scheduler.Notify.{waits_on, mark_ready, wake_each, is_monitor_wait, monitor_notify_all}
use tracejvm.Scheduler.Step.{
  update_info, find_info, remove_info, drop_call, add_call, free_thread_info, unshift_rest,
  unshift_info, fresh_info, new_call, join_if_absent, unshift, get_or_create_thread_info,
  rr_scheduler_run,
}

abbrev pub calls_of : Option ThreadInfo → List PendingCall
calls_of none = []
calls_of (some info) = info.call_queue

-- The calls that thread `tid` has to run.
abbrev pub queue_of : ℕ → List ThreadInfo → List PendingCall
queue_of tid ts = calls_of (find_info tid ts)

-- Each thread stands once in the round robin.
abbrev pub Distinct : List ThreadInfo → Type 0
Distinct [] = Unit
Distinct (t ∷ ts) = (find_info t.thread.tid ts ≡ none) × Distinct ts

find_info-add_call :
    (tid k : ℕ) (call : PendingCall) (ts : List ThreadInfo) (info : ThreadInfo)
    → find_info tid ts ≡ some info
    → queue_of k (update_info tid (add_call call) ts)
      ≡ (if tid == k then info.call_queue ++ call ∷ [] else queue_of k ts)
unfolding find_info update_info
find_info-add_call tid k call [] info e = cc
find_info-add_call tid k call (t ∷ ts) info e =
    ground (arith, find_info-add_call tid k call ts info)

pub find_info-drop_call :
    (tid k : ℕ) (ts : List ThreadInfo) (info : ThreadInfo)
    → find_info tid ts ≡ some info
    → queue_of k (update_info tid drop_call ts)
      ≡ (if tid == k then (drop_call info).call_queue else queue_of k ts)
unfolding find_info update_info
find_info-drop_call tid k [] info e = cc
find_info-drop_call tid k (t ∷ ts) info e = ground (arith, find_info-drop_call tid k ts info)

find_info-remove_info :
    (tid k : ℕ) (ts : List ThreadInfo)
    → Distinct ts
    → find_info k (remove_info tid ts) ≡ (if tid == k then none else find_info k ts)
unfolding find_info remove_info
find_info-remove_info tid k [] d = ground arith
find_info-remove_info tid k (t ∷ ts) d = ground (arith, find_info-remove_info tid k ts d.1)

find_info-append :
    (k : ℕ) (ts : List ThreadInfo) (u : ThreadInfo)
    → find_info k ts ≡ none
    → find_info k (ts ++ u ∷ []) ≡ (if u.thread.tid == k then some u else none)
unfolding find_info
find_info-append k [] u e = refl
find_info-append k (t ∷ ts) u e = ground (arith, find_info-append k ts u)

find_info-append_some :
    (k : ℕ) (ts : List ThreadInfo) (u info : ThreadInfo)
    → find_info k ts ≡ some info
    → find_info k (ts ++ u ∷ []) ≡ some info
unfolding find_info
find_info-append_some k [] u info e = cc
find_info-append_some k (t ∷ ts) u info e = ground (arith, find_info-append_some k ts u info)

calls_of-wake_each :
    (kind : WakeupKind → Bool) (monitor k : ℕ) (ts : List ThreadInfo)
    → queue_of k (wake_each kind monitor ts) ≡ queue_of k ts
unfolding find_info wake_each
calls_of-wake_each kind monitor k [] = refl
calls_of-wake_each kind monitor k (t ∷ ts) = ground (arith, calls_of-wake_each kind monitor k ts)

queue_of-append :
    (k : ℕ) (thread : VmThread) (ts : List ThreadInfo)
    → queue_of k (ts ++ fresh_info thread ∷ []) ≡ queue_of k ts
unfolding find_info
queue_of-append k thread [] = ground arith
queue_of-append k thread (t ∷ ts) = ground (arith, queue_of-append k thread ts)

module _ (thread : VmThread) (k : ℕ) (call : PendingCall) (ts : List ThreadInfo) where
  abbrev Queued : List ThreadInfo → Type 0
  Queued joined =
      queue_of k (update_info thread.tid (add_call call) joined)
      ≡ (if thread.tid == k then queue_of k ts ++ call ∷ [] else queue_of k ts)

  Queued-joined :
      (found : Option ThreadInfo)
      → find_info thread.tid ts ≡ found
      → Queued (join_if_absent found ts thread)
  unfolding join_if_absent
  Queued-joined (some info) e = ground (arith, find_info-add_call thread.tid k call ts info)
  Queued-joined none e = ground (
    arith,
    find_info-append thread.tid ts (fresh_info thread),
    find_info-add_call thread.tid k call (ts ++ fresh_info thread ∷ []) (fresh_info thread),
    queue_of-append k thread ts,
  )

  created_queue : Queued (get_or_create_thread_info ts thread)
  unfolding get_or_create_thread_info
  created_queue = Queued-joined (find_info thread.tid ts) refl

-- A call given to `rr_scheduler_run` stands last in the queue of its thread, which joins the round
-- robin if it was not there. No other thread has its queue changed.
pub rr_scheduler_run-queue_of :
    (s : Impl) (thread : VmThread) (code : ℕ) (returns_reference : Bool) (id k : ℕ)
    → queue_of k (rr_scheduler_run s thread code returns_reference id).round_robin ≡ (
        if thread.tid == k
        then queue_of k s.round_robin ++ new_call code returns_reference id ∷ []
        else queue_of k s.round_robin)
unfolding rr_scheduler_run
rr_scheduler_run-queue_of s thread code returns_reference id k =
    created_queue thread k (new_call code returns_reference id) s.round_robin

-- A thread that waits for a notification of `monitor` has had one.
abbrev pub IsNotified : ℕ → ThreadInfo → Type 0
IsNotified monitor t =
    waits_on is_monitor_wait monitor t.wakeup_info ≡ true → mark_ready t.wakeup_info ≡ t.wakeup_info

wake_each-IsNotified :
    (monitor : ℕ) (ts : List ThreadInfo)
    → All (IsNotified monitor) (wake_each is_monitor_wait monitor ts)
unfolding wake_each
wake_each-IsNotified monitor [] = tt
wake_each-IsNotified monitor (t ∷ ts) = ((λ w. ground arith), wake_each-IsNotified monitor ts)

unshift-eq :
    (s : Impl) (tid : ℕ) (info : ThreadInfo)
    → find_info tid s.round_robin ≡ some info
    → unshift s tid ≡ unshift_rest s tid info (drop_call info).call_queue
unfolding unshift unshift_info
unshift-eq s tid info e = ap (unshift_info s tid) e

unshift_rest-queue_of :
    (s : Impl) (tid k : ℕ) (info : ThreadInfo) (rest : List PendingCall)
    → Distinct s.round_robin
    → find_info tid s.round_robin ≡ some info
    → (drop_call info).call_queue ≡ rest
    → queue_of k (unshift_rest s tid info rest).round_robin
      ≡ (if tid == k then (drop_call info).call_queue else queue_of k s.round_robin)
unfolding unshift_rest free_thread_info monitor_notify_all
unshift_rest-queue_of s tid k info [] d e q = ground (
  arith,
  calls_of-wake_each is_monitor_wait info.thread.thread_obj k (remove_info tid s.round_robin),
  find_info-remove_info tid k s.round_robin d,
)
unshift_rest-queue_of s tid k info (c ∷ cs) d e q = find_info-drop_call tid k s.round_robin info e

-- Where the threads are distinct, `unshift` takes the first call off the queue of its thread and
-- leaves the queues of all other threads alone.
pub unshift-queue_of :
    (s : Impl) (tid k : ℕ) (info : ThreadInfo)
    → Distinct s.round_robin
    → find_info tid s.round_robin ≡ some info
    → queue_of k (unshift s tid).round_robin
      ≡ (if tid == k then (drop_call info).call_queue else queue_of k s.round_robin)
unshift-queue_of s tid k info d e =
    ap (λ (r : Impl). queue_of k r.round_robin) (unshift-eq s tid info e)
    ∙ unshift_rest-queue_of s tid k info _ d e refl

abbrev pub Ended : ℕ → ThreadInfo → Impl → Type 0
Ended tid info r =
    (queue_of tid r.round_robin ≡ [])
    × (r.eetop info.thread.thread_obj ≡ 0)
    × All (IsNotified info.thread.thread_obj) r.round_robin

unshift_rest-Ended :
    (s : Impl) (tid : ℕ) (info : ThreadInfo)
    → Distinct s.round_robin
    → Ended tid info (unshift_rest s tid info [])
unfolding unshift_rest free_thread_info monitor_notify_all
unshift_rest-Ended s tid info d = (
  ground (
    arith,
    calls_of-wake_each is_monitor_wait info.thread.thread_obj tid (remove_info tid s.round_robin),
    find_info-remove_info tid tid s.round_robin d,
  ),
  ground arith,
  wake_each-IsNotified info.thread.thread_obj (remove_info tid s.round_robin),
)

-- When the last call of a thread returns, nothing is left for it to run, its object is marked as
-- ended, and every thread that waits on that object is notified. The threads are distinct.
pub unshift-Ended :
    (s : Impl) (tid : ℕ) (info : ThreadInfo)
    → Distinct s.round_robin
    → find_info tid s.round_robin ≡ some info
    → (drop_call info).call_queue ≡ []
    → Ended tid info (unshift s tid)
unshift-Ended s tid info d e last =
    subst (Ended tid info) (sym (unshift-eq s tid info e ∙ ap (unshift_rest s tid info) last))
      (unshift_rest-Ended s tid info d)
