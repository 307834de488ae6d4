-- ===== src/Process/Ready.antt =====
-- The ready queue of kernel/src/process/scheduler.rs, a list over the `next` pointers of the tasks.
pub mod Chain
pub mod Fifo
pub mod Frame
pub mod Occ
use elitra_os.Base.{ℕ, Option, none, some, Bool, true, false}
use elitra_os.Process.Task.{Task, Tasks, Scheduler, set_next, set_next_of}

unfoldable pub enqueue : Scheduler → ℕ → Scheduler
enqueue s t =
    let cleared : Tasks = set_next s.tasks t none in
    elim s.head [
      | none ↦ record s { tasks = cleared; head = some t; tail = some t }
      | some h ↦ record s { tasks = set_next_of cleared s.tail (some t); tail = some t }
    ]

unfoldable pub dequeue : Scheduler → Scheduler × Option ℕ
dequeue s = elim s.head [
  | none ↦ (s, none)
  | some t ↦
      let rest : Option ℕ = (s.tasks t).next in
      let tail : Option ℕ = elim rest [ none ↦ none | some n ↦ s.tail ] in
      (record s { tasks = set_next s.tasks t none; head = rest; tail = tail }, some t)
]
