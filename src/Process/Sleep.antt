-- ===== src/Process/Sleep.antt =====
-- The sleep queue of kernel/src/process/scheduler.rs, a list over the same `next` pointers as the
-- ready queue. The walk over it has fuel, one round for each task that there can be.
pub mod Bed
pub mod Kept
pub mod Wake
use elitra_os.Base.{
  ℕ, zero, suc, ◌+◌, ◌-◌, ◌<◌, Option, none, some, Bool, true, false, leb, if◌then◌else◌,
}
use elitra_os.Process.Task.{
  Task, Tasks, TaskState, Scheduler, max_tasks, write, set_next, set_next_of,
}
use elitra_os.Process.Ready.{enqueue}

unfoldable pub sleep_enqueue : Scheduler → ℕ → ℕ → Scheduler
sleep_enqueue s t ticks =
    let asleep : Task = record (s.tasks t) {
      sleep_until = ticks;
      state = TaskState.blocked;
      next = s.sleep_head;
    } in
    record s {
      tasks = write s.tasks t asleep;
      sleep_head = some t;
      sleep_count = s.sleep_count + 1;
    }

-- The task `c`, due, is put into the ready queue and taken out between `prev` and `next`.
unfoldable pub wake_task : Scheduler → ℕ → Option ℕ → Option ℕ → Scheduler
wake_task s c prev next =
    let awake : Task = record (s.tasks c) {
      state = TaskState.ready;
      sleep_until = 0;
      next = none;
    } in
    let queued : Scheduler = enqueue (record s { tasks = write s.tasks c awake }) c in
    let unlinked : Scheduler = elim prev [
      | none ↦ record queued { sleep_head = next }
      | some p ↦ record queued { tasks = set_next queued.tasks p next }
    ] in
    record unlinked { sleep_count = queued.sleep_count - 1 }

unfoldable pub wake_from : ℕ → ℕ → Scheduler → Option ℕ → Option ℕ → Scheduler
wake_from zero now s prev curr = s
wake_from (suc fuel) now s prev none = s
wake_from (suc fuel) now s prev (some c) =
    let next : Option ℕ = (s.tasks c).next in
    let woken = wake_from fuel now (wake_task s c prev next) prev next in
    let kept = wake_from fuel now s (some c) next in
    if leb (s.tasks c).sleep_until now then woken else kept

unfoldable pub sleep_wake_all : ℕ → Scheduler → Scheduler
sleep_wake_all now s = wake_from max_tasks now s none s.sleep_head
