-- ===== src/Process/Family/Reap.antt =====
-- Reaping a child that has ended (`krust_sched_waitpid_flags`) and the number that comes back
-- (`alloc_task_id`), kernel/src/process/scheduler.rs.
use elitra_os.Base.{
  ℕ, zero, suc, ◌≡◌, ◌≢◌, ◌≤◌, ◌<◌, ◌∙◌, refl, ap, sym, true, false, Option, none, some, List, [],
  ◌∷◌, length, arith, ◌==◌, if◌then◌else◌, Bool-cases, inl, inr,
}
use elitra_os.Process.Task.{Task, Tasks, TaskState, Scheduler, max_tasks, write, is_exited}
use elitra_os.Process.Ready.Chain.{has}
use elitra_os.Process.Ready.Occ.{without}
use elitra_os.Process.Family.{
  reaped, unlink, remove_from, remove_child, recycle_task_id, alloc_task_id, find_exited, reap,
  set_state,
}
use elitra_os.Process.Family.Children.{Siblings, Siblings-frame, HasChildren}
use elitra_os.Process.Family.Remove.{remove_child-HasChildren}

-- the first of these tasks that has ended
abbrev pub first_exited : Tasks → List ℕ → Option ℕ
first_exited tasks [] = none
first_exited tasks (t ∷ ts) = if is_exited (tasks t).state then some t else first_exited tasks ts

pub find_exited-first :
    (fuel : ℕ) (tasks : Tasks) (p : Option ℕ) (cs : List ℕ)
    → Siblings tasks p cs none
    → length cs ≤ fuel
    → find_exited fuel tasks p ≡ first_exited tasks cs
unfolding find_exited
find_exited-first zero tasks p [] v l = refl
find_exited-first zero tasks p (c ∷ cs) v l = absurd (omega (arith, l))
find_exited-first (suc fuel) tasks p [] v l = rw v refl
find_exited-first (suc fuel) tasks p (c ∷ cs) v l =
    rw (v.0, find_exited-first fuel tasks (tasks c).sibling_next cs v.1 (omega (arith, l))) refl

pub first_exited-IsExited :
    (tasks : Tasks) (cs : List ℕ) (c : ℕ)
    → first_exited tasks cs ≡ some c
    → (is_exited (tasks c).state ≡ true) × (has c cs ≡ true)
first_exited-IsExited tasks [] c e = cc
first_exited-IsExited tasks (x ∷ cs) c e = elim (Bool-cases (is_exited (tasks x).state)) [
  | inl g ↦
      let same : x ≡ c = ground (arith, e, g) in
      (ap (λ i. is_exited (tasks i).state) (sym same) ∙ g, ground (arith, same))
  | inr g ↦
      let (ended, inside) = first_exited-IsExited tasks cs c (ground (arith, e, g)) in
      (ended, ground (arith, inside))
]

pub first_exited-none :
    (tasks : Tasks) (h : ℕ) (cs : List ℕ)
    → first_exited tasks (h ∷ cs) ≡ none
    → is_exited (tasks h).state ≡ false
first_exited-none tasks h cs e = ground (arith, e)

-- the fields that taking a child out of a list leaves as they are
record SameTask (a b : Task) : Type 0 where
  id : a.id ≡ b.id
  state : a.state ≡ b.state
  code : a.exit_code ≡ b.exit_code

remove_from-SameTask :
    (fuel : ℕ) (tasks : Tasks) (p c x : ℕ) (prev curr : Option ℕ)
    → SameTask (remove_from fuel tasks p c prev curr x) (tasks x)
unfolding remove_from unlink
remove_from-SameTask zero tasks p c x prev curr = record { id = refl; state = refl; code = refl }
remove_from-SameTask (suc fuel) tasks p c x prev none = record {
  id = refl;
  state = refl;
  code = refl;
}
remove_from-SameTask (suc fuel) tasks p c x prev (some y) = elim (Bool-cases (y == c)) [
  | inl e ↦ rw e (record { id = ground arith; state = ground arith; code = ground arith })
  | inr e ↦ rw e (remove_from-SameTask fuel tasks p c x (some y) (tasks y).sibling_next)
]

remove_child-SameTask : (tasks : Tasks) (p c x : ℕ) → SameTask (remove_child tasks p c x) (tasks x)
unfolding remove_child
remove_child-SameTask tasks p c x =
    remove_from-SameTask max_tasks tasks p c x none (tasks p).child_head

-- What the scheduler has after the child `c` of `p` was waited for.
pub record Reaped (s' s : Scheduler) (p c : ℕ) (cs : List ℕ) : Type 0 where
  pub children : HasChildren s'.tasks p (without c cs)
  pub given_back : s'.free_ids ≡ c ∷ s.free_ids
  pub given_next : (alloc_task_id s').1 ≡ some c

-- a task whose number is its place, with room for the number
pub record IsNumbered (s : Scheduler) (c : ℕ) : Type 0 where
  pub own : (s.tasks c).id ≡ c
  pub low : 1 ≤ c
  pub high : c < max_tasks
  pub room : length s.free_ids < 128

alloc_task_id-exited :
    (s : Scheduler) (c : ℕ) (ids : List ℕ)
    → s.free_ids ≡ c ∷ ids
    → c < max_tasks
    → is_exited (s.tasks c).state ≡ true
    → (alloc_task_id s).1 ≡ some c
unfolding alloc_task_id
alloc_task_id-exited s c ids e l x = ground (arith, e, l, x)

recycle_task_id-room :
    (s : Scheduler) (id c : ℕ)
    → id ≡ c
    → 1 ≤ c
    → c < max_tasks
    → length s.free_ids < 128
    → recycle_task_id s id ≡ record s { free_ids = c ∷ s.free_ids }
unfolding recycle_task_id
recycle_task_id-room s id c e l h r = rw e (ground (arith, l, h, r))

freed_task : Tasks → ℕ → Task
freed_task tasks c = record (tasks c) { kstack = 0 }

-- The children of a task hang on these fields only.
pub same-HasChildren :
    (tasks tasks' : Tasks) (p : ℕ) (cs : List ℕ)
    → (tasks' p).child_head ≡ (tasks p).child_head
    → (tasks' p).child_tail ≡ (tasks p).child_tail
    → ((t : ℕ) → (tasks' t).sibling_next ≡ (tasks t).sibling_next)
    → ((t : ℕ) → (tasks' t).parent ≡ (tasks t).parent)
    → HasChildren tasks p cs
    → HasChildren tasks' p cs
same-HasChildren tasks tasks' p cs head tail nexts parents v = record {
  chain =
      rw head (Siblings-frame tasks tasks' (tasks p).child_head cs none (λ t h. nexts t) v.chain);
  tail = tail ∙ v.tail;
  once = v.once;
  parents = λ t h. parents t ∙ v.parents t h;
}

freed-HasChildren :
    (tasks : Tasks) (p c : ℕ) (cs : List ℕ)
    → HasChildren tasks p cs
    → HasChildren (write tasks c (freed_task tasks c)) p cs
unfolding freed_task
freed-HasChildren tasks p c cs v =
    same-HasChildren tasks (write tasks c (freed_task tasks c)) p cs (ground arith) (ground arith)
      (λ t. ground arith) (λ t. ground arith) v

-- A task with these children, each with its place as its number and with room for the number.
pub record IsFamily (s : Scheduler) (p : ℕ) (cs : List ℕ) : Type 0 where
  pub children : HasChildren s.tasks p cs
  pub numbered : (c : ℕ) → has c cs ≡ true → IsNumbered s c

pub set_state-IsFamily :
    (s : Scheduler) (p t : ℕ) (state : TaskState) (cs : List ℕ)
    → IsFamily s p cs
    → IsFamily (set_state s t state) p cs
set_state-IsFamily s p t state cs v = record {
  children =
      same-HasChildren s.tasks (set_state s t state).tasks p cs (ground arith) (ground arith)
        (λ i. ground arith) (λ i. ground arith) v.children;
  numbered = λ c h.
      let n = v.numbered c h in
      let same : ((set_state s t state).tasks c).id ≡ (s.tasks c).id = ground arith in
      record { own = same ∙ n.own; low = n.low; high = n.high; room = n.room };
}

pub reap-Reaped :
    (s : Scheduler) (p c : ℕ) (cs : List ℕ)
    → HasChildren s.tasks p cs
    → has c cs ≡ true
    → c ≢ p
    → length cs ≤ max_tasks
    → is_exited (s.tasks c).state ≡ true
    → IsNumbered s c
    → Reaped (reap s p c).0 s p c cs × ((reap s p c).1 ≡ reaped (s.tasks c).exit_code)
unfolding reap freed_task
reap-Reaped s p c cs v h n l x num =
    let same = remove_child-SameTask s.tasks p c c in
    let tasks = remove_child s.tasks p c in
    let s' : Scheduler = record s { tasks = write tasks c (freed_task tasks c) } in
    let given : recycle_task_id s' (tasks c).id ≡ record s' { free_ids = c ∷ s.free_ids } =
      recycle_task_id-room s' (tasks c).id c (same.id ∙ num.own) num.low num.high num.room in
    let state : (s'.tasks c).state ≡ (s.tasks c).state = ground (arith, same.state) in
    rw given (
      record {
        children =
            freed-HasChildren tasks p c (without c cs)
              (remove_child-HasChildren s.tasks p c cs v h n l);
        given_back = refl;
        given_next =
            alloc_task_id-exited (record s' { free_ids = c ∷ s.free_ids }) c s.free_ids refl
              num.high (ap is_exited state ∙ x);
      },
      ap reaped same.code,
    )
