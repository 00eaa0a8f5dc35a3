-- ===== src/Scheduler/Step.antt =====
-- One step of the scheduler and the calls that it runs: `rr_scheduler_step`, `rr_scheduler_run` and
-- `rr_scheduler_execute_immediately` of engine/bjvm/vm/roundrobin_scheduler.c. The interpreter, the
-- target of `call_interpreter`, is an argument.
pub mod Fuel
pub mod Lifecycle
pub mod Records
use tracejvm.Prelude.{
  ℕ, zero, suc, ◌+◌, ◌-◌, ◌^◌, Bool, true, false, not, ◌&&◌, ◌||◌, Option, none, some, List, [],
  ◌∷◌, ◌++◌, ltb, leb, ◌==◌, if◌then◌else◌, length, is_null,
}
use tracejvm.Scheduler.Types.{
  WakeupInfo, VmThread, PendingCall, ThreadInfo, SchedulerStatus, done, more, inval,
  ExecutionRecord, Impl,
}
use tracejvm.Scheduler.Handles.{make_js_handle, drop_js_handle}
use tracejvm.Scheduler.Notify.{monitor_notify_all}
use tracejvm.Scheduler.Sleep.{is_sleeping, get_next_thr, uint64_max}

-- `future_t`: the result of the call, or what the thread now waits for.
pub data Future : Type 0 where
  ready : (result : ℕ) → Future
  not_ready : Option WakeupInfo → Future

-- The interpreter runs a call of a thread until the time to yield, and may change the state: start
-- threads, notify them, interrupt them.
abbrev pub Interpreter : Type 0
Interpreter = ℕ → Impl → ThreadInfo → PendingCall → Impl × Future

-- `only_daemons_running`, also of an empty round robin.
unfoldable pub only_daemons_running : List ThreadInfo → Bool
only_daemons_running [] = true
only_daemons_running (t ∷ ts) = t.thread.daemon && only_daemons_running ts

-- A change through the pointer to the info of thread `tid`.
unfoldable pub update_info : ℕ → (ThreadInfo → ThreadInfo) → List ThreadInfo → List ThreadInfo
update_info tid f [] = []
update_info tid f (t ∷ ts) = if t.thread.tid == tid then f t ∷ ts else t ∷ update_info tid f ts

unfoldable pub find_info : ℕ → List ThreadInfo → Option ThreadInfo
find_info tid [] = none
find_info tid (t ∷ ts) = if t.thread.tid == tid then some t else find_info tid ts

unfoldable pub remove_info : ℕ → List ThreadInfo → List ThreadInfo
remove_info tid [] = []
remove_info tid (t ∷ ts) = if t.thread.tid == tid then ts else t ∷ remove_info tid ts

unfoldable pub update_record :
    ℕ → (ExecutionRecord → ExecutionRecord) → List ExecutionRecord → List ExecutionRecord
update_record id f [] = []
update_record id f (r ∷ rs) = if r.id == id then f r ∷ rs else r ∷ update_record id f rs

abbrev pub set_wakeup : Option WakeupInfo → ThreadInfo → ThreadInfo
set_wakeup w t = record t { wakeup_info = w }

abbrev pub drop_call : ThreadInfo → ThreadInfo
drop_call t = record t { call_queue = elim t.call_queue [ [] ↦ [] | c ∷ cs ↦ cs ] }

-- `free_thread_info`: the thread object is marked ended, and whoever waits on it is notified.
unfoldable pub free_thread_info : Impl → ThreadInfo → Impl
free_thread_info s info =
    let obj = info.thread.thread_obj in
    monitor_notify_all (record s { eetop = λ o. if o == obj then 0 else s.eetop o }) obj

-- The end of `unshift`, by what is left of the queue.
unfoldable pub unshift_rest : Impl → ℕ → ThreadInfo → List PendingCall → Impl
unfolding update_info remove_info free_thread_info
unshift_rest s tid info [] =
    free_thread_info (record s { round_robin = remove_info tid s.round_robin }) info
unshift_rest s tid info (c ∷ cs) = record s {
  round_robin = update_info tid drop_call s.round_robin;
}

-- `unshift`, of the thread `tid` as it stands in the round robin.
unfoldable pub unshift_info : Impl → ℕ → Option ThreadInfo → Impl
unfolding unshift_rest
unshift_info s tid none = s
unshift_info s tid (some info) = unshift_rest s tid info (drop_call info).call_queue

unfoldable pub unshift : Impl → ℕ → Impl
unfolding unshift_info find_info
unshift s tid = unshift_info s tid (find_info tid s.round_robin)

-- The branch of a call that returned: its record is completed, with a handle for an object.
unfoldable pub finish_call : Impl → ℕ → PendingCall → ℕ → Impl
unfolding update_record make_js_handle unshift
finish_call s tid call result =
    let keep = call.returns_reference && not (is_null result) in
    let made = make_js_handle s.js_handles result in
    unshift
      (record s {
        js_handles = if keep then made.0 else s.js_handles;
        executions =
            update_record call.record_id
              (λ r. record r {
                status = done;
                returned = result;
                js_handle = if keep then some made.1 else none;
              })
              s.executions;
      })
      tid

abbrev pub status_of : Impl → SchedulerStatus
status_of s = if only_daemons_running s.round_robin then done else more

unfoldable pub after_call : ℕ → PendingCall → Impl × Future → Impl × SchedulerStatus
unfolding finish_call update_info only_daemons_running
after_call tid call (s, ready result) = let s' = finish_call s tid call result in (s', status_of s')
after_call tid call (s, not_ready w) =
    let s' = record s { round_robin = update_info tid (set_wakeup w) s.round_robin } in
    (s', status_of s')

-- `__builtin_add_overflow`, with `UINT64_MAX` for a sum that overflows.
unfoldable pub yield_time : ℕ → ℕ → ℕ
yield_time time run = if ltb (time + run) (2 ^ 64) then time + run else uint64_max

-- `arrpop`
unfoldable pub pop_back {ℓ} : {A : Type ℓ} → List A → List A
pop_back [] = []
pop_back (t ∷ ts) = elim ts [ [] ↦ [] | u ∷ us ↦ t ∷ pop_back ts ]

-- The head of the queue is called, for a thread at the back of the round robin that is awake.
unfoldable pub run_call : Interpreter → ℕ → Impl → ThreadInfo → PendingCall → Impl × SchedulerStatus
unfolding after_call yield_time update_info
run_call interpret time s info call = after_call info.thread.tid call (
    interpret (yield_time time s.preemption_us)
      (record s { round_robin = update_info info.thread.tid (set_wakeup none) s.round_robin })
      (set_wakeup none info) call)

-- `clock k` is what the clock shows at its reading `k`; `none` means that the fuel ran out. An empty
-- round robin is one that only daemons run.
unfoldable pub rr_scheduler_step :
    Interpreter → (ℕ → ℕ) → ℕ → Impl → Option (Impl × SchedulerStatus)
unfolding only_daemons_running get_next_thr is_sleeping run_call pop_back
rr_scheduler_step interpret clock zero s = none
rr_scheduler_step interpret clock (suc fuel) s = elim (only_daemons_running s.round_robin) [
  | true ↦ some (s, done)
  | false ↦
      let next = get_next_thr s (clock 1) in
      let s' = record s { round_robin = next.1 } in
      elim next.0 [
        | none ↦ some (s', done)
        | some info ↦ elim (is_sleeping s.reference_pending info (clock 0)) [
          | true ↦ some (s', more)
          | false ↦ elim info.call_queue [
            | call ∷ calls ↦ some (run_call interpret (clock 0) s' info call)
            | [] ↦
                rr_scheduler_step interpret (λ k. clock (k + 2)) fuel
                  (record s { round_robin = pop_back next.1 })
          ]
        ]
      ]
]

abbrev pub fresh_info : VmThread → ThreadInfo
fresh_info thread = record { thread = thread; call_queue = []; wakeup_info = none }

unfoldable pub join_if_absent : Option ThreadInfo → List ThreadInfo → VmThread → List ThreadInfo
join_if_absent (some info) ts thread = ts
join_if_absent none ts thread = ts ++ fresh_info thread ∷ []

-- `get_or_create_thread_info`: a thread that is not in the round robin joins at the back.
unfoldable pub get_or_create_thread_info : List ThreadInfo → VmThread → List ThreadInfo
unfolding find_info join_if_absent
get_or_create_thread_info ts thread = join_if_absent (find_info thread.tid ts) ts thread

abbrev pub add_call : PendingCall → ThreadInfo → ThreadInfo
add_call call t = record t { call_queue = t.call_queue ++ call ∷ [] }

abbrev pub new_call : ℕ → Bool → ℕ → PendingCall
new_call code returns_reference id = record {
  code = code;
  returns_reference = returns_reference;
  record_id = id;
}

-- The record of a call that has not run, made by `calloc`: its `js_handle` is 0.
abbrev pub fresh_record : VmThread → ℕ → ExecutionRecord
fresh_record thread id = record {
  id = id;
  status = more;
  returned = 0;
  record_thread = thread.tid;
  js_handle = some 0;
}

-- `id` names the new record.
unfoldable pub rr_scheduler_run : Impl → VmThread → ℕ → Bool → ℕ → Impl
unfolding get_or_create_thread_info update_info
rr_scheduler_run s thread code returns_reference id = record s {
  round_robin =
      update_info thread.tid (add_call (new_call code returns_reference id))
        (get_or_create_thread_info s.round_robin thread);
  executions = s.executions ++ fresh_record thread id ∷ [];
}

-- `call` points to the head of the queue that the interpreter has left: once the head is deleted, it
-- points to the next call, or, at the end of the queue, still to the one deleted. The queue is taken not
-- to have moved while the interpreter ran.
abbrev pub record_behind : PendingCall → List PendingCall → ℕ
record_behind call [] = call.record_id
record_behind call (head ∷ []) = head.record_id
record_behind call (head ∷ next ∷ calls) = next.record_id

abbrev pub queue_left : Option ThreadInfo → List PendingCall
queue_left none = []
queue_left (some info) = info.call_queue

-- The rest of the loop's body, after a call that returned.
abbrev pub deleted_head : ℕ → Impl → Impl
deleted_head tid s = record s { round_robin = update_info tid drop_call s.round_robin }

-- `rr_scheduler_execute_immediately` for the record `id` of thread `tid`; `none` means that the fuel
-- ran out. The exception that is raised for a call that does not return is not in this state.
unfoldable pub execute_immediately :
    Interpreter → ℕ → Impl → ℕ → ℕ → Option (Impl × SchedulerStatus)
unfolding update_info find_info
execute_immediately interpret zero s tid id = none
execute_immediately interpret (suc fuel) s tid id = elim (find_info tid s.round_robin) [
  | none ↦ some (s, done)
  | some info ↦ elim info.call_queue [
    | [] ↦ some (s, done)
    | call ∷ calls ↦
        let ran = interpret uint64_max s info call in
        elim ran.1 [
          | not_ready w ↦ some (ran.0, inval)
          | ready result ↦
              elim (record_behind call (queue_left (find_info tid ran.0.round_robin)) == id) [
                | true ↦ some (deleted_head tid ran.0, done)
                | false ↦ execute_immediately interpret fuel (deleted_head tid ran.0) tid id
              ]
        ]
  ]
]

abbrev pub last_record : List ExecutionRecord → Option ExecutionRecord
last_record [] = none
last_record (r ∷ rs) = elim (last_record rs) [ none ↦ some r | some l ↦ some l ]

-- `arrdelswap` of the record `id`
unfoldable pub delete_swap : ℕ → List ExecutionRecord → List ExecutionRecord
unfolding pop_back
delete_swap id [] = []
delete_swap id (r ∷ rs) =
    if r.id == id
    then elim (last_record rs) [ none ↦ [] | some l ↦ l ∷ pop_back rs ]
    else r ∷ delete_swap id rs

-- `free_execution_record`: the handle is dropped, and the last record takes the place of this one.
unfoldable pub free_execution_record : Impl → ExecutionRecord → Impl
unfolding drop_js_handle delete_swap
free_execution_record s r = record s {
  js_handles = elim r.js_handle [ none ↦ s.js_handles | some h ↦ drop_js_handle s.js_handles h ];
  executions = delete_swap r.id s.executions;
}
