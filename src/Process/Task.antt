-- ===== src/Process/Task.antt =====
-- The tasks of kernel/src/process/scheduler.rs and the state of its scheduler. A pointer to a task is
-- its index in TASKS, a null pointer `none`; a write through a null pointer changes no task. The state
-- is that which one processor sees: `current` is its slot of PER_CPU_CURRENT.
use elitra_os.Base.{ℕ, Bool, true, false, Option, none, some, List, ◌==◌, if◌then◌else◌}

pub data TaskState : Type 0 where
  ready running blocked waiting exited : TaskState

-- a word of 32 signals, as the function of its bits
abbrev pub Signals : Type 0
Signals = ℕ → Bool

pub record Task : Type 0 where
  pub id : ℕ
  pub ppid : ℕ
  pub state : TaskState
  pub rsp : ℕ
  pub kstack : ℕ
  pub exit_code : ℕ
  pub next : Option ℕ
  pub parent : Option ℕ
  pub child_head : Option ℕ
  pub child_tail : Option ℕ
  pub sibling_next : Option ℕ
  pub handlers : ℕ → ℕ
  pub sig_pending : Signals
  pub sig_blocked : Signals
  pub has_child_exit : Bool
  pub sleep_until : ℕ
  pub uid : ℕ

abbrev pub Tasks : Type 0
Tasks = ℕ → Task

-- FREE_IDS is a stack, its top first.
pub record Scheduler : Type 0 where
  pub tasks : Tasks
  pub head : Option ℕ
  pub tail : Option ℕ
  pub sleep_head : Option ℕ
  pub sleep_count : ℕ
  pub current : Option ℕ
  pub next_id : ℕ
  pub free_ids : List ℕ

abbrev pub max_tasks : ℕ
max_tasks = 128

-- a task written
abbrev pub write : Tasks → ℕ → Task → Tasks
write tasks t v i = if t == i then v else tasks i

abbrev pub set_next : Tasks → ℕ → Option ℕ → Tasks
set_next tasks t p = write tasks t (record (tasks t) { next = p })

-- `next` written where the pointer is not null
abbrev pub set_next_of : Tasks → Option ℕ → Option ℕ → Tasks
set_next_of tasks none p = tasks
set_next_of tasks (some t) p = set_next tasks t p

unfoldable pub is_exited : TaskState → Bool
is_exited TaskState.exited = true
is_exited _ = false

-- The frame that an interrupt pushes, of which signals change these, and the words of user memory by
-- their address. `kernel_stack` is what the processor takes its stack from on the next interrupt.
pub record Registers : Type 0 where
  pub rip : ℕ
  pub cs : ℕ
  pub rflags : ℕ
  pub user_rsp : ℕ
  pub ss : ℕ
  pub rdi : ℕ
  pub rax : ℕ

pub record Machine : Type 0 where
  pub sched : Scheduler
  pub regs : Registers
  pub words : ℕ → ℕ
  pub kernel_stack : ℕ

abbrev pub write_task : Scheduler → ℕ → Task → Scheduler
write_task s t v = record s { tasks = write s.tasks t v }

-- what a task that ends tells its parent
unfoldable pub tell_parent : Tasks → Option ℕ → Tasks
tell_parent tasks none = tasks
tell_parent tasks (some p) = write tasks p (record (tasks p) { has_child_exit = true })
