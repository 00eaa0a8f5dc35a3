-- ===== src/Scheduler/Step/Records.antt =====
-- `free_execution_record` and `execute_immediately` of engine/bjvm/vm/roundrobin_scheduler.c: the
-- handle of a record, and the pointer to the call that a caller waits for.
use tracejvm.Prelude.{ℕ, suc, ◌≡◌, Bool, some, List, ◌∷◌, arith}
use tracejvm.Scheduler.Types.{VmThread, PendingCall, ThreadInfo, done, Impl}
use tracejvm.Scheduler.Handles.{drop_js_handle}
use tracejvm.Scheduler.Step.{
  Interpreter, ready, find_info, fresh_record, rr_scheduler_run, execute_immediately,
  free_execution_record, deleted_head, uint64_max,
}
use tracejvm.Scheduler.Step.Lifecycle.{queue_of, find_info-drop_call}

-- To free the record of a call that has not run drops handle 0, whosever it is: the object behind
-- it is no longer kept alive.
pub free_execution_record_fresh :
    (s : Impl) (thread : VmThread) (code : ℕ) (returns_reference : Bool) (id h : ℕ) (hs : List ℕ)
    → s.js_handles ≡ h ∷ hs
    → (free_execution_record
        (rr_scheduler_run s thread code returns_reference id)
        (fresh_record thread id)).js_handles
      ≡ 0 ∷ hs
unfolding free_execution_record rr_scheduler_run drop_js_handle
free_execution_record_fresh s thread code returns_reference id h hs e = ground arith

-- `rr_scheduler_execute_immediately` for the second call in a queue runs the first and reports that
-- it is done, with the second still at the head: here the first returns and leaves the state alone.
pub execute_immediately_skips :
    (interpret : Interpreter) (fuel : ℕ) (s : Impl) (tid : ℕ) (info : ThreadInfo)
    (call next : PendingCall) (calls : List PendingCall) (result : ℕ)
    → find_info tid s.round_robin ≡ some info
    → info.call_queue ≡ call ∷ next ∷ calls
    → interpret uint64_max s info call ≡ (s, ready result)
    → (execute_immediately interpret (suc fuel) s tid next.record_id
        ≡ some (deleted_head tid s, done))
      × (queue_of tid (deleted_head tid s).round_robin ≡ next ∷ calls)
unfolding execute_immediately
execute_immediately_skips interpret fuel s tid info call next calls result e q r =
    (ground arith, ground (arith, find_info-drop_call tid tid s.round_robin info))
