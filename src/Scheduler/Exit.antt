-- ===== src/Scheduler/Exit.antt =====
-- kernel/scheduler.c: `task_exit_with_code` and `task_kill`.
use neuro_spark.Prelude.{
  ℕ, Bool, true, false, ◌&&◌, ◌||◌, not, ◌∷◌, ltb, ◌==◌, if◌then◌else◌, update,
}
use neuro_spark.Prelude.Int.{ℤ, pos, negsuc}
use neuro_spark.Task.{
  TaskState, is_blocked, is_terminated, WaitReason, wait_none, wait_child, Tcb, task_trace_event,
  evt_terminate,
}
use neuro_spark.Scheduler.{Sched, close_all, destroy_space, set_task, select_and_switch}

-- `target < 0 || target == id`.
abbrev pub waits_for : ℤ → ℕ → Bool
waits_for (pos t) id = t == id
waits_for (negsuc _) id = true

abbrev is_wait_child : WaitReason → Bool
is_wait_child wait_child = true
is_wait_child wait_none = false

abbrev released : Tcb → Tcb
released b = record b {
  state = TaskState.ready;
  wake_tick = 0;
  wait_reason = wait_none;
  wait_target = negsuc 0;
}

-- A parent that waits for `id`, or for any child, is made READY.
unfoldable pub wake_parent : ℤ → ℕ → Sched → Sched
wake_parent (negsuc _) id s = s
wake_parent (pos parent) id s =
    let b = s.tasks parent in
    if ltb parent s.task_count
      && is_blocked b.state
      && is_wait_child b.wait_reason
      && waits_for b.wait_target id
    then set_task s parent (released b)
    else s

-- `state = TERMINATED; wake_tick = 0; exit_status = code; exited = 1`.
abbrev pub mark_exited : ℤ → Tcb → Tcb
mark_exited code b = record b {
  state = TaskState.terminated;
  wake_tick = 0;
  exit_status = code;
  exited = true;
}

-- `vfs_close_all_for_task`, and the address space if it is not the kernel's.
unfoldable pub clean_up : ℕ → ℕ → Sched → Sched
clean_up id pd s =
    let s' : Sched = record s { cleanups = close_all id ∷ s.cleanups } in
    if pd == 0 || pd == s.kernel_page_directory then s' else record s' {
      cleanups = destroy_space pd ∷ s'.cleanups;
      tasks = update s'.tasks id (record (s'.tasks id) { page_dir = 0 });
    }

abbrev has_fault : Tcb → Bool
has_fault b = not (b.fault_code == 0) || not (b.fault_addr == 0) || not (b.fault_eip == 0)

unfoldable pub trace_exit : Sched → Sched
trace_exit s =
    if has_fault (s.tasks s.current)
    then s
    else record s { tasks = task_trace_event s.tasks s.current evt_terminate 0 }

-- `task_exit_with_code` up to the switch, after which the source only halts.
unfoldable pub task_exit_with_code : ℤ → Sched → Sched
unfolding trace_exit wake_parent clean_up
task_exit_with_code code s =
    let cur = s.current in
    let b = s.tasks cur in
    let s1 = trace_exit s in
    let s2 = set_task s1 cur (mark_exited code (s1.tasks cur)) in
    let s3 = wake_parent b.parent_pid cur s2 in select_and_switch false (clean_up cur b.page_dir s3)

unfoldable pub kill_other : ℕ → ℤ → Sched → Bool × Sched
unfolding wake_parent clean_up
kill_other id code s =
    let b = s.tasks id in
    let s1 = set_task s id (mark_exited code b) in
    let s2 = wake_parent b.parent_pid id s1 in
    if is_terminated b.state then (false, s) else (true, clean_up id b.page_dir s2)

unfoldable pub task_kill : ℤ → ℤ → Sched → Bool × Sched
unfolding kill_other
task_kill (negsuc _) code s = (false, s)
task_kill (pos id) code s =
    if ltb id s.task_count
    then if id == s.current then (true, task_exit_with_code code s) else kill_other id code s
    else (false, s)
