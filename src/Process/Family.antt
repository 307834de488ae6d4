-- ===== src/Process/Family.antt =====
-- Children and task numbers (kernel/src/process/scheduler.rs): the list of a task's children, waiting
-- for one of them, and the numbers that are given out and come back.
pub mod Children
pub mod Remove
pub mod Reap
pub mod Any
use elitra_os.Base.{
  ℕ, zero, suc, ◌+◌, Bool, true, false, ◌&&◌, ◌||◌, Option, none, some, List, [], ◌∷◌, length, ltb,
  leb, ◌==◌, if◌then◌else◌,
}
use elitra_os.Util.Klib.{ℤ, pos, negsuc}
use elitra_os.Process.Task.{Task, Tasks, TaskState, Scheduler, max_tasks, write, is_exited}

abbrev pub set_sibling : Tasks → ℕ → Option ℕ → Tasks
set_sibling tasks t p = write tasks t (record (tasks t) { sibling_next = p })

abbrev pub set_sibling_of : Tasks → Option ℕ → Option ℕ → Tasks
set_sibling_of tasks none p = tasks
set_sibling_of tasks (some t) p = set_sibling tasks t p

abbrev pub set_head : Tasks → ℕ → Option ℕ → Tasks
set_head tasks t p = write tasks t (record (tasks t) { child_head = p })

abbrev pub set_tail : Tasks → ℕ → Option ℕ → Tasks
set_tail tasks t p = write tasks t (record (tasks t) { child_tail = p })

abbrev pub set_parent : Tasks → ℕ → Option ℕ → Tasks
set_parent tasks t p = write tasks t (record (tasks t) { parent = p; sibling_next = none })

unfoldable pub add_child : Tasks → ℕ → ℕ → Tasks
add_child tasks parent child =
    let adopted : Tasks = set_parent tasks child (some parent) in
    elim (adopted parent).child_head [
      | none ↦ set_tail (set_head adopted parent (some child)) parent (some child)
      | some h ↦
          set_tail (set_sibling_of adopted (adopted parent).child_tail (some child)) parent
            (some child)
    ]

-- The child after `prev` is taken out of the list.
unfoldable pub unlink : Tasks → ℕ → ℕ → Option ℕ → Tasks
unlink tasks parent child prev =
    let next : Option ℕ = (tasks child).sibling_next in
    let passed : Tasks = elim prev [
      | none ↦ set_head tasks parent next
      | some v ↦ set_sibling tasks v next
    ] in
    let ended : Tasks = elim next [ none ↦ set_tail passed parent prev | some n ↦ passed ] in
    set_parent ended child none

unfoldable pub remove_from : ℕ → Tasks → ℕ → ℕ → Option ℕ → Option ℕ → Tasks
remove_from zero tasks parent child prev curr = tasks
remove_from (suc fuel) tasks parent child prev none = tasks
remove_from (suc fuel) tasks parent child prev (some c) =
    let rest = remove_from fuel tasks parent child (some c) (tasks c).sibling_next in
    if c == child then unlink tasks parent child prev else rest

unfoldable pub remove_child : Tasks → ℕ → ℕ → Tasks
remove_child tasks parent child =
    remove_from max_tasks tasks parent child none (tasks parent).child_head

-- FREE_IDS
unfoldable pub recycle_task_id : Scheduler → ℕ → Scheduler
recycle_task_id s id =
    if id == 0 || leb max_tasks id
    then s
    else if ltb (length s.free_ids) 128
    then record s { free_ids = id ∷ s.free_ids }
    else s

unfoldable pub next_task_id : Scheduler → Scheduler × Option ℕ
next_task_id s =
    if leb max_tasks s.next_id
    then (s, none)
    else (record s { next_id = s.next_id + 1 }, some s.next_id)

unfoldable pub alloc_task_id : Scheduler → Scheduler × Option ℕ
alloc_task_id s = elim s.free_ids [
  | [] ↦ next_task_id s
  | id ∷ ids ↦
      let popped : Scheduler = record s { free_ids = ids } in
      if ltb id max_tasks && is_exited (s.tasks id).state
      then (popped, some id)
      else next_task_id popped
]

-- How waiting for a child ends; `waits` is a call that has not returned yet.
pub data Wait : Type 0 where
  refused no_child_yet : Wait
  waits : ℕ → Wait
  reaped : ℕ → Wait

unfoldable pub find_exited : ℕ → Tasks → Option ℕ → Option ℕ
find_exited zero tasks found = none
find_exited (suc fuel) tasks none = none
find_exited (suc fuel) tasks (some c) =
    let rest = find_exited fuel tasks (tasks c).sibling_next in
    if is_exited (tasks c).state then some c else rest

-- Of what is freed the kernel stack is noted.
unfoldable pub reap : Scheduler → ℕ → ℕ → Scheduler × Wait
reap s parent child =
    let tasks = remove_child s.tasks parent child in
    let freed : Task = record (tasks child) { kstack = 0 } in
    (
      recycle_task_id (record s { tasks = write tasks child freed }) (tasks child).id,
      reaped (tasks child).exit_code,
    )

abbrev pub set_state : Scheduler → ℕ → TaskState → Scheduler
set_state s t state = record s { tasks = write s.tasks t (record (s.tasks t) { state = state }) }

-- A turn of the caller's loop: it yields for the k-th time, and runs again after `yields k`.
unfoldable pub wait_turn : (ℕ → Scheduler → Scheduler) → ℕ → ℕ → Scheduler → Scheduler
wait_turn yields parent k s =
    set_state (yields k (set_state s parent TaskState.waiting)) parent TaskState.running

-- The loop of `parent`, which is the running task whenever its code runs, as far as it comes with
-- this many turns.
unfoldable pub wait_for :
    ℕ → (ℕ → Scheduler → Scheduler) → ℕ → Scheduler → ℕ → Bool → ℕ → Scheduler × Wait
wait_for zero yields k s parent wnohang child =
    if is_exited (s.tasks child).state
    then reap s parent child
    else (s, if wnohang then no_child_yet else waits child)
wait_for (suc turns) yields k s parent wnohang child =
    let later = wait_for turns yields (suc k) (wait_turn yields parent k s) parent wnohang child in
    if is_exited (s.tasks child).state
    then reap s parent child
    else if wnohang
    then (s, no_child_yet)
    else later

unfoldable pub wait_any : ℕ → (ℕ → Scheduler → Scheduler) → Scheduler → ℕ → Bool → Scheduler × Wait
wait_any turns yields s parent wnohang =
    let head : Option ℕ = (s.tasks parent).child_head in
    elim head [
      | none ↦ (s, if wnohang then no_child_yet else refused)
      | some h ↦ elim (find_exited max_tasks s.tasks (some h)) [
        | none ↦ wait_for turns yields 0 s parent wnohang h
        | some c ↦ wait_for turns yields 0 s parent wnohang c
      ]
    ]

unfoldable pub is_parent : Option ℕ → ℕ → Bool
is_parent none t = false
is_parent (some p) t = p == t

unfoldable pub waitpid_flags :
    ℕ → (ℕ → Scheduler → Scheduler) → Scheduler → ℤ → Bool → Scheduler × Wait
waitpid_flags turns yields s pid wnohang = elim s.current [
  | none ↦ (s, refused)
  | some t ↦ elim pid [
    | pos zero ↦ (s, refused)
    | pos (suc p) ↦
        if leb s.next_id (suc p)
        then (s, refused)
        else if is_parent (s.tasks (suc p)).parent t
        then wait_for turns yields 0 s t wnohang (suc p)
        else (s, refused)
    | negsuc zero ↦ wait_any turns yields s t wnohang
    | negsuc (suc n) ↦ (s, refused)
  ]
]
