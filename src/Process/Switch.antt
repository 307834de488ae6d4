-- ===== src/Process/Switch.antt =====
-- Which task a processor runs (kernel/src/process/scheduler.rs): sleep, yield, the timer's preemption
-- and exit. The ticks of the timer are an argument, as is `r`, the address of the interrupt's frame.
-- A null pointer of a kernel stack is 0; what the hardware restores when a task is resumed lies in the
-- frame that its `rsp` points to.
pub mod Turn
pub mod Yield
pub mod Exit
pub mod Killed
pub mod Lost
use elitra_os.Base.{
  ℕ, zero, suc, ◌+◌, ◌/◌, ◌%◌, Bool, true, false, ◌||◌, Option, none, some, ◌==◌, if◌then◌else◌,
}
use elitra_os.Process.Task.{
  Task, Tasks, TaskState, Scheduler, Machine, max_tasks, write, write_task, tell_parent,
}
use elitra_os.Process.Ready.{enqueue, dequeue}
use elitra_os.Process.Sleep.{sleep_enqueue, sleep_wake_all}
use elitra_os.Process.Signal.{deliver_signals}

unfoldable pub resume : Machine → ℕ → Machine
resume m t =
    let task : Task = m.sched.tasks t in
    let running : Task = record task { state = TaskState.running } in
    record m {
      sched = record (write_task m.sched t running) { current = some t };
      kernel_stack = if task.kstack == 0 then m.kernel_stack else task.kstack + 4096;
    }

-- The running task goes to the end of the ready queue, and the first of the queue runs.
unfoldable pub give_turn : Machine → ℕ → ℕ → Machine
give_turn m prev r =
    let saved : Task = record (m.sched.tasks prev) { rsp = r; state = TaskState.ready } in
    let (s, next) = dequeue (enqueue (write_task m.sched prev saved) prev) in
    let back : Task = record (s.tasks prev) { state = TaskState.running } in
    elim next [
      | none ↦ record m { sched = record (write_task s prev back) { current = some prev } }
      | some n ↦ resume (record m { sched = s }) n
    ]

-- An idle task is not put into the ready queue.
unfoldable pub leave_idle : Machine → ℕ → ℕ → Machine
leave_idle m prev r =
    let saved : Task = record (m.sched.tasks prev) { rsp = r } in
    let (s, next) = dequeue (write_task m.sched prev saved) in
    elim next [ none ↦ record m { sched = s } | some n ↦ resume (record m { sched = s }) n ]

unfoldable pub wake_and_deliver : Machine → ℕ → Machine
wake_and_deliver m now = deliver_signals (record m { sched = sleep_wake_all now m.sched })

unfoldable pub preempt : Machine → ℕ → ℕ → Machine
preempt m r now =
    let served = wake_and_deliver m now in
    elim m.sched.current [
      | none ↦ m
      | some prev ↦
          if (served.sched.tasks prev).kstack == 0
          then leave_idle served prev r
          else give_turn served prev r
    ]

unfoldable pub yield_handler : Machine → ℕ → ℕ → Machine
yield_handler m r now =
    let served = wake_and_deliver m now in
    elim m.sched.current [
      | none ↦ m
      | some prev ↦
          if (served.sched.tasks prev).id == 0
          then leave_idle served prev r
          else give_turn served prev r
    ]

-- The call ends with a yield, which comes in through `yield_handler`.
unfoldable pub sleep_until_ticks : Machine → ℕ → ℕ → ℕ → Machine
sleep_until_ticks m ms tick_ms now =
    let ticks = if tick_ms == 0 then ms else ms / tick_ms in
    let target = (now + ticks) % 4294967296 in
    elim m.sched.current [
      | none ↦ m
      | some t ↦
          if (m.sched.tasks t).id == 0
          then m
          else record m { sched = sleep_enqueue m.sched t target }
    ]

-- `now` is the tick of the call, `again` that of the yield.
unfoldable pub sleep_ticks : Machine → ℕ → ℕ → ℕ → ℕ → ℕ → Machine
sleep_ticks m ms tick_ms r now again =
    let asleep = sleep_until_ticks m ms tick_ms now in
    elim m.sched.current [
      | none ↦ m
      | some t ↦ if (m.sched.tasks t).id == 0 then m else yield_handler asleep r again
    ]

-- The children from `child` on get task 0 as their parent, one round for each task that there can be.
unfoldable pub reparent : ℕ → Tasks → Option ℕ → Tasks
reparent zero tasks child = tasks
reparent (suc fuel) tasks none = tasks
reparent (suc fuel) tasks (some c) =
    let moved : Task = record (tasks c) { parent = some 0 } in
    reparent fuel (write tasks c moved) (tasks c).sibling_next

unfoldable pub end_task : Tasks → ℕ → ℕ → Tasks
end_task tasks t code =
    let ended : Task = record (tasks t) { exit_code = code; state = TaskState.exited } in
    let told = tell_parent (write tasks t ended) (tasks t).parent in
    let moved = reparent max_tasks told (told t).child_head in
    write moved t (record (moved t) { child_head = none; child_tail = none })

-- `none` where no task is ready and task 0 has no frame to go back to: the processor halts.
unfoldable pub exit : Machine → ℕ → Option Machine
exit m code = elim m.sched.current [
  | none ↦ some m
  | some t ↦
      let ended : Scheduler = record m.sched { tasks = end_task m.sched.tasks t code } in
      let (s, next) = dequeue ended in
      let left : Machine = record m { sched = s } in
      let chosen : Option Machine = elim next [
        | none ↦ if (s.tasks 0).rsp == 0 then none else some (resume left 0)
        | some n ↦ some (resume left n)
      ] in
      if (m.sched.tasks t).id == 0 then some m else chosen
]
