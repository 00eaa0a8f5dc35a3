-- ===== src/Scheduler/Types.antt =====
-- The state of the scheduler: `rr_wakeup_info`, `thread_info`, `execution_record` and `impl` of
-- engine/bjvm/vm/roundrobin_scheduler.c, with the fields of `vm_thread` that it reads.
-- An object, a thread and an execution record are named by a number in place of their address.
use tracejvm.Prelude.{ℕ, Bool, Option, List}

pub data WakeupKind : Type 0 where
  wakeup_yielding wakeup_sleep wakeup_reference_pending : WakeupKind
  thread_park monitor_enter_waiting monitor_wait : WakeupKind

-- `wakeup_us` is 0 for a wait with no end. `monitor` is the object behind the handle.
pub record WakeupInfo : Type 0 where
  pub kind : WakeupKind
  pub wakeup_us : ℕ
  pub monitor : ℕ
  pub ready : Bool

-- `thread_obj` is the object of the thread, `daemon` its holder's field.
pub record VmThread : Type 0 where
  pub tid : ℕ
  pub thread_obj : ℕ
  pub unpark_permit : Bool
  pub interrupted : Bool
  pub daemon : Bool

-- The call's method and arguments stay abstract, but for the return type.
pub record PendingCall : Type 0 where
  pub code : ℕ
  pub returns_reference : Bool
  pub record_id : ℕ

pub record ThreadInfo : Type 0 where
  pub thread : VmThread
  pub call_queue : List PendingCall
  pub wakeup_info : Option WakeupInfo

pub data SchedulerStatus : Type 0 where
  done more inval : SchedulerStatus

-- `js_handle` is `none` for -1; `returned` is a stack value, for a reference the object or 0.
pub record ExecutionRecord : Type 0 where
  pub id : ℕ
  pub status : SchedulerStatus
  pub returned : ℕ
  pub record_thread : ℕ
  pub js_handle : Option ℕ

-- `impl`, with the handles of the virtual machine, its list of pending references, and the field
-- `eetop` of each thread object, which is 0 once the thread has ended.
pub record Impl : Type 0 where
  pub round_robin : List ThreadInfo
  pub executions : List ExecutionRecord
  pub js_handles : List ℕ
  pub reference_pending : Bool
  pub preemption_us : ℕ
  pub eetop : ℕ → ℕ
