-- ===== src/Task.antt =====
-- kernel/task.h and kernel/task.c: the task table and the trace of a task.
pub mod Tracing
use Prim.Native.Nat.{bit_and, bit_or}
use neuro_spark.Prelude.{
  ℕ, ◌+◌, ◌*◌, ◌^◌, Bool, true, false, ◌&&◌, Option, ltb, if◌then◌else◌, update, find_index, inc32,
}
use neuro_spark.Prelude.Int.{ℤ, pos, negsuc}

pub data TaskState : Type 0 where
  ready running blocked sleeping terminated : TaskState

abbrev pub is_ready : TaskState → Bool
is_ready TaskState.ready = true
is_ready _ = false

abbrev pub is_running : TaskState → Bool
is_running TaskState.running = true
is_running _ = false

abbrev pub is_blocked : TaskState → Bool
is_blocked TaskState.blocked = true
is_blocked _ = false

abbrev pub is_sleeping : TaskState → Bool
is_sleeping TaskState.sleeping = true
is_sleeping _ = false

abbrev pub is_terminated : TaskState → Bool
is_terminated TaskState.terminated = true
is_terminated _ = false

-- TASK_WAIT_NONE and TASK_WAIT_CHILD.
pub data WaitReason : Type 0 where
  wait_none wait_child : WaitReason

pub data WorkloadClass : Type 0 where
  sim log export : WorkloadClass

abbrev pub max_tasks : ℕ
max_tasks = 8

abbrev pub time_slice_ticks : ℕ
time_slice_ticks = 5

-- The TASK_TRACE_EVT_ numbers.
abbrev pub evt_switch_in : ℕ
evt_switch_in = 1

abbrev pub evt_switch_out : ℕ
evt_switch_out = 2

abbrev pub evt_syscall : ℕ
evt_syscall = 3

abbrev pub evt_sleep : ℕ
evt_sleep = 4

abbrev pub evt_wake : ℕ
evt_wake = 5

abbrev pub evt_terminate : ℕ
evt_terminate = 6

-- The fields `trace_` of a TCB.
pub record Trace : Type 0 where
  pub enabled : Bool
  pub last_event : ℕ
  pub last_arg : ℕ
  pub last_syscall : ℕ
  pub last_arg0 : ℕ
  pub last_arg1 : ℕ
  pub last_arg2 : ℕ
  pub last_result : ℕ
  pub event_count : ℕ

-- A TCB, with the fields `trace_...` as a record of their own.
pub record Tcb : Type 0 where
  pub esp : ℕ
  pub ebp : ℕ
  pub eip : ℕ
  pub page_dir : ℕ
  pub state : TaskState
  pub wake_tick : ℕ
  pub time_slice : ℕ
  pub runtime_ticks : ℕ
  pub context_switches : ℕ
  pub priority : ℕ
  pub workload_class : WorkloadClass
  pub trace : Trace
  pub fault_code : ℕ
  pub fault_addr : ℕ
  pub fault_eip : ℕ
  pub user_entry : ℕ
  pub user_stack : ℕ
  pub user_retval : ℕ
  pub signal_pending : ℕ
  pub signal_mask : ℕ
  pub signal_handler : ℕ → ℕ
  pub parent_pid : ℤ
  pub exit_status : ℤ
  pub exited : Bool
  pub waited : Bool
  pub wait_target : ℤ
  pub fd_table : ℕ → ℤ
  pub wait_reason : WaitReason
  pub task_id : ℕ
  pub sched_wait_ticks : ℕ
  pub sched_wake_boost : ℕ
  pub sched_last_run_tick : ℕ

-- `os_tasks`.
abbrev pub TaskTable : Type 0
TaskTable = ℕ → Tcb

pub task_is_valid : ℤ → Bool
task_is_valid (pos i) = ltb i max_tasks
task_is_valid (negsuc _) = false

-- `none` is the -1 of the source; slot 0 is the kernel's.
pub task_alloc_slot : TaskTable → Option ℕ
task_alloc_slot t = find_index (λ i. is_terminated (t i).state) 7 1

abbrev pub traced : ℕ → ℕ → Tcb → Tcb
traced event arg b = record b {
  trace = record b.trace {
    last_event = event;
    last_arg = arg;
    event_count = inc32 b.trace.event_count;
  };
}

pub task_trace_event : TaskTable → ℕ → ℕ → ℕ → TaskTable
task_trace_event t id event arg =
    if ltb id max_tasks && (t id).trace.enabled then update t id (traced event arg (t id)) else t

-- `((n & 0xFF) << 24) | (result & 0x00FFFFFF)`.
abbrev pub pack_syscall : ℕ → ℕ → ℕ
pack_syscall num result = bit_or (bit_and num 0xff * 2 ^ 24) (bit_and result 0xff_ffff)

pub task_trace_syscall_ex : TaskTable → ℤ → ℕ → ℕ → ℕ → ℕ → ℕ → TaskTable
task_trace_syscall_ex t (negsuc _) num result arg0 arg1 arg2 = t
task_trace_syscall_ex t (pos id) num result arg0 arg1 arg2 =
    let b = t id in
    if ltb id max_tasks && b.trace.enabled
    then update t id (record b {
      trace = record b.trace {
        last_event = evt_syscall;
        last_arg = pack_syscall num result;
        last_syscall = num;
        last_arg0 = arg0;
        last_arg1 = arg1;
        last_arg2 = arg2;
        last_result = result;
        event_count = inc32 b.trace.event_count;
      };
    })
    else t

pub task_trace_syscall : TaskTable → ℤ → ℕ → ℕ → TaskTable
unfolding task_trace_syscall_ex
task_trace_syscall t id num result = task_trace_syscall_ex t id num result 0 0 0
