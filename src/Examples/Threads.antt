-- ===== src/Examples/Threads.antt =====
-- engine/bjvm/vm/roundrobin_scheduler.c at work, with three threads.
use tracejvm.Prelude.{ℕ, ◌+◌, ◌≡◌, ◌≢◌, refl, true, false, List, [], ◌∷◌, none, some, arith, All}
use tracejvm.Scheduler.Types.{
  wakeup_sleep, monitor_wait, VmThread, PendingCall, ThreadInfo, Impl, done,
}
use tracejvm.Scheduler.Handles.{make_js_handle, deref_js_handle, make_js_handle-deref}
use tracejvm.Scheduler.Sleep.{is_sleeping, get_next_thr, rr_scheduler_may_sleep_us}
use tracejvm.Scheduler.Sleep.Rotation.{
  HandedOut, handed_out, get_next_thr_awake, get_next_thr-HandedOut,
}
use tracejvm.Scheduler.Sleep.Deadlines.{InTime, may_sleep-InTime}
use tracejvm.Scheduler.Step.{
  Interpreter, ready, new_call, fresh_record, rr_scheduler_step, rr_scheduler_run, find_info,
  execute_immediately, free_execution_record, deleted_head,
}
use tracejvm.Scheduler.Step.Fuel.{rr_scheduler_step_ends}
use tracejvm.Scheduler.Step.Lifecycle.{queue_of}
use tracejvm.Scheduler.Step.Records.{free_execution_record_fresh, execute_immediately_skips}

abbrev thread : ℕ → VmThread
thread n = record {
  tid = n;
  thread_obj = 100 + n;
  unpark_permit = false;
  interrupted = false;
  daemon = false;
}

abbrev call : ℕ → PendingCall
call n = new_call n false n

-- Asleep until time 50 or 40, waiting for a notification of object 7, and running.
abbrev sleeper : ℕ → ℕ → ThreadInfo
sleeper n time = record {
  thread = thread n;
  call_queue = call n ∷ [];
  wakeup_info = some (record { kind = wakeup_sleep; wakeup_us = time; monitor = 0; ready = false });
}

abbrev waiter : ℕ → ThreadInfo
waiter n = record {
  thread = thread n;
  call_queue = call n ∷ [];
  wakeup_info = some (record { kind = monitor_wait; wakeup_us = 0; monitor = 7; ready = false });
}

abbrev runner : ℕ → ThreadInfo
runner n = record {
  thread = thread n;
  call_queue = call n ∷ call (n + 10) ∷ [];
  wakeup_info = none;
}

abbrev with_threads : List ThreadInfo → Impl
with_threads ts = record {
  round_robin = ts;
  executions = [];
  js_handles = 500 ∷ 501 ∷ [];
  reference_pending = false;
  preemption_us = 30000;
  eetop = λ o. o;
}

abbrev mixed : Impl
mixed = with_threads (sleeper 1 50 ∷ waiter 2 ∷ runner 3 ∷ [])

abbrev sleeping : Impl
sleeping = with_threads (sleeper 1 50 ∷ sleeper 2 40 ∷ [])

-- The interpreter returns 0 at once and changes nothing.
abbrev returns_at_once : Interpreter
returns_at_once time s info c = (s, ready 0)

make_js_handle-deref_example :
    let r = make_js_handle (500 ∷ 0 ∷ 502 ∷ []) 77 in
    (deref_js_handle r.0 r.1 ≡ 77)
    × (deref_js_handle (500 ∷ 0 ∷ 502 ∷ []) r.1 ≡ 0)
    × ((k : ℕ) → k ≢ r.1 → deref_js_handle r.0 k ≡ deref_js_handle (500 ∷ 0 ∷ 502 ∷ []) k)
make_js_handle-deref_example = make_js_handle-deref (500 ∷ 0 ∷ 502 ∷ []) 77

get_next_thr_awake_example :
    get_next_thr mixed 20 ≡ (some (runner 3), sleeper 1 50 ∷ waiter 2 ∷ runner 3 ∷ [])
unfolding is_sleeping
get_next_thr_awake_example =
    get_next_thr_awake mixed 20 (sleeper 1 50 ∷ waiter 2 ∷ []) (runner 3) [] refl (refl, (refl, tt))
      refl

-- The second thread in two calls.
get_next_thr-HandedOut_example :
    HandedOut (runner 4) (handed_out (with_threads (runner 3 ∷ runner 4 ∷ [])) (20 ∷ 30 ∷ []))
unfolding is_sleeping
get_next_thr-HandedOut_example =
    get_next_thr-HandedOut (with_threads (runner 3 ∷ runner 4 ∷ [])) (20 ∷ 30 ∷ []) (runner 3 ∷ [])
      (runner 4) [] refl (omega arith) (refl, (refl, tt))

may_sleep-InTime_example :
    All (InTime false 20 (rr_scheduler_may_sleep_us sleeping 20)) sleeping.round_robin
may_sleep-InTime_example = may_sleep-InTime sleeping 20

rr_scheduler_step_ends_example : rr_scheduler_step returns_at_once (λ k. 20 + k) 4 mixed ≢ none
rr_scheduler_step_ends_example =
    rr_scheduler_step_ends returns_at_once (λ k. 20 + k) 4 mixed (omega arith)

free_execution_record_fresh_example :
    (free_execution_record
      (rr_scheduler_run mixed (thread 3) 8 true 8)
      (fresh_record (thread 3) 8)).js_handles
    ≡ 0 ∷ 501 ∷ []
free_execution_record_fresh_example =
    free_execution_record_fresh mixed (thread 3) 8 true 8 500 (501 ∷ []) refl

execute_immediately_skips_example :
    (execute_immediately returns_at_once 5 mixed 3 13 ≡ some (deleted_head 3 mixed, done))
    × (queue_of 3 (deleted_head 3 mixed).round_robin ≡ call 13 ∷ [])
unfolding find_info
execute_immediately_skips_example =
    execute_immediately_skips returns_at_once 4 mixed 3 (runner 3) (call 3) (call 13) [] 0 refl refl
      refl
