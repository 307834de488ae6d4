-- ===== src/Process/Switch/Exit.antt =====
-- The end of a task, and what becomes of its children (`exit`).
use elitra_os.Base.{
  ℕ, zero, suc, ◌≤◌, ◌≡◌, ◌≢◌, ◌∙◌, refl, ap, sym, subst, Bool, true, false, ◌||◌, Option, none,
  some, List, [], ◌∷◌, length, arith, ◌==◌, if◌then◌else◌, Bool-cases, inl, inr,
}
use elitra_os.Process.Task.{
  Task, Tasks, TaskState, Scheduler, Machine, max_tasks, write, tell_parent,
}
use elitra_os.Process.Ready.{dequeue}
use elitra_os.Process.Ready.Chain.{has, Chain-frame}
use elitra_os.Process.Ready.Fifo.{Holds, dequeue-some}
use elitra_os.Process.Family.Children.{Siblings, Siblings-frame}
use elitra_os.Process.Switch.{resume, reparent, end_task, exit}
use elitra_os.Process.Switch.Turn.{write-Holds}

-- a task that task 0 is the parent of
abbrev orphan : Task → Task
orphan task = record task { parent = some 0 }

both_branches : (b : Bool) (task : Task) → (if b then task else task) ≡ task
both_branches true task = refl
both_branches false task = refl

reparent-orphan :
    (fuel : ℕ) (tasks : Tasks) (p : Option ℕ) (cs : List ℕ) (x : ℕ)
    → Siblings tasks p cs none
    → length cs ≤ fuel
    → reparent fuel tasks p x ≡ (if has x cs then orphan (tasks x) else tasks x)
unfolding reparent
reparent-orphan zero tasks p [] x v l = refl
reparent-orphan zero tasks p (c ∷ cs) x v l = absurd (omega (arith, l))
reparent-orphan (suc fuel) tasks p [] x v l = rw v refl
reparent-orphan (suc fuel) tasks p (c ∷ cs) x v l =
    let moved : Tasks = write tasks c (orphan (tasks c)) in
    let chain =
      Siblings-frame tasks moved (tasks c).sibling_next cs none (λ t h. ground arith) v.1 in
    let rest = reparent-orphan fuel moved (tasks c).sibling_next cs x chain (omega (arith, l)) in
    rw (v.0) (rest ∙ step (has x cs))
  where
    step :
        (b : Bool)
        → (if b
            then orphan (write tasks c (orphan (tasks c)) x)
            else write tasks c (orphan (tasks c)) x)
          ≡ (if (x == c) || b then orphan (tasks x) else tasks x)
    step b = elim (Bool-cases (x == c)) [
      | inl e ↦
          let same : x ≡ c = ground (arith, e) in
          let here : write tasks c (orphan (tasks c)) x ≡ orphan (tasks x) =
            subst (λ y. write tasks c (orphan (tasks c)) y ≡ orphan (tasks y)) (sym same)
              (ground arith) in
          rw (here, e) (both_branches b (orphan (tasks x)))
      | inr e ↦
          let there : write tasks c (orphan (tasks c)) x ≡ tasks x = ground (arith, e) in
          rw (there, e) refl
    ]

orphan-fields :
    (b : Bool) (task : Task)
    → let after = if b then orphan task else task in
      (after.next ≡ task.next)
      × (after.child_head ≡ task.child_head)
      × (after.state ≡ task.state)
      × (after.exit_code ≡ task.exit_code)
orphan-fields true task = (refl, refl, refl, refl)
orphan-fields false task = (refl, refl, refl, refl)

-- The tables after a task has ended: its children have task 0 as their parent.
module _ (tasks : Tasks) (t code : ℕ) (cs : List ℕ)
    (v : Siblings tasks (tasks t).child_head cs none) (few : length cs ≤ max_tasks) where
  ended : Tasks
  ended = write tasks t (record (tasks t) { exit_code = code; state = TaskState.exited })

  told : Tasks
  told = tell_parent ended (tasks t).parent

  told-fields :
      (x : ℕ)
      → ((told x).next ≡ (tasks x).next)
        × ((told x).sibling_next ≡ (tasks x).sibling_next)
        × ((told x).child_head ≡ (tasks x).child_head)
  unfolding told ended tell_parent
  told-fields x = (ground arith, ground arith, ground arith)

  told-own : ((told t).state ≡ TaskState.exited) × ((told t).exit_code ≡ code)
  unfolding told ended tell_parent
  told-own = (ground arith, ground arith)

  moved : Tasks
  moved = reparent max_tasks told (told t).child_head

  moved-orphan : (x : ℕ) → moved x ≡ (if has x cs then orphan (told x) else told x)
  unfolding moved
  moved-orphan x =
      reparent-orphan max_tasks told (told t).child_head cs x
        (rw ((told-fields t).2)
          (Siblings-frame tasks told (tasks t).child_head cs none (λ y h. (told-fields y).1) v))
        few

  moved-fields :
      (x : ℕ)
      → ((moved x).next ≡ (tasks x).next)
        × ((moved x).child_head ≡ (tasks x).child_head)
        × ((moved x).state ≡ (told x).state)
        × ((moved x).exit_code ≡ (told x).exit_code)
  moved-fields x =
      let m = moved-orphan x in
      let (n, s, h) = told-fields x in
      let (a, b, c, d) = orphan-fields (has x cs) (told x) in
      (
        ap (λ y. y.next) m ∙ a ∙ n,
        ap (λ y. y.child_head) m ∙ b ∙ h,
        ap (λ y. y.state) m ∙ c,
        ap (λ y. y.exit_code) m ∙ d,
      )

  end_task-fields :
      (x : ℕ)
      → ((end_task tasks t code x).next ≡ (tasks x).next)
        × ((has x cs ≡ true) → (end_task tasks t code x).parent ≡ some 0)
  unfolding end_task moved told ended
  end_task-fields x = (
    ground (arith, (moved-fields x).0),
    λ h.
        let above : (moved x).parent ≡ some 0 = ap (λ y. y.parent) (moved-orphan x) ∙ rw h refl in
        ground (arith, above),
  )

  end_task-own :
      ((end_task tasks t code t).state ≡ TaskState.exited)
      × ((end_task tasks t code t).exit_code ≡ code)
  unfolding end_task moved told ended
  end_task-own = (
    ground (arith, (moved-fields t).2, told-own.0),
    ground (arith, (moved-fields t).3, told-own.1),
  )

  end_task-head : (x : ℕ) → x ≢ t → (end_task tasks t code x).child_head ≡ (tasks x).child_head
  unfolding end_task moved told ended
  end_task-head x n = ground (arith, (moved-fields x).1, n)

-- a task that the ready queue gives out, and one that is resumed
given-fields :
    (s : Scheduler) (m : Machine) (x y : ℕ)
    → let after = (resume (record m { sched = (dequeue s).0 }) x).sched.tasks in
      ((after y).parent ≡ (s.tasks y).parent)
      × ((after y).child_head ≡ (s.tasks y).child_head)
      × ((after y).exit_code ≡ (s.tasks y).exit_code)
      × (y ≢ x → (after y).state ≡ (s.tasks y).state)
unfolding resume dequeue
given-fields s m x y = (ground arith, ground arith, ground arith, λ n. ground (arith, n))

resume-current : (m : Machine) (x : ℕ) → (resume m x).sched.current ≡ some x
unfolding resume
resume-current m x = refl

resume-Holds : (m : Machine) (x : ℕ) (q : List ℕ) → Holds m.sched q → Holds (resume m x).sched q
unfolding resume
resume-Holds m x q v =
    let running : Task = record (m.sched.tasks x) { state = TaskState.running } in
    let w = write-Holds m.sched x running q refl v in
    record { chain = w.chain; tail = w.tail; distinct = w.distinct }

exit-next :
    (m : Machine) (t x code : ℕ)
    → m.sched.current ≡ some t
    → (m.sched.tasks t).id ≢ 0
    → let ended : Scheduler = record m.sched { tasks = end_task m.sched.tasks t code } in
      (dequeue ended).1 ≡ some x
      → exit m code ≡ some (resume (record m { sched = (dequeue ended).0 }) x)
unfolding exit
exit-next m t x code c n e = ground (arith, c, n, e)

-- The machine on which the task `t` has ended and `x` runs.
pub record Ends (before after : Machine) (t code x : ℕ) (q cs : List ℕ) : Type 0 where
  pub current : after.sched.current ≡ some x
  pub ready : Holds after.sched q
  pub state : (after.sched.tasks t).state ≡ TaskState.exited
  pub exit_code : (after.sched.tasks t).exit_code ≡ code
  pub orphans : (c : ℕ) → has c cs ≡ true → (after.sched.tasks c).parent ≡ some 0
  pub list_of_0 : (after.sched.tasks 0).child_head ≡ (before.sched.tasks 0).child_head

-- Where a task other than task 0 ends while a task that is not itself is the first of the ready
-- queue, and has at most 128 children: the first of the ready queue runs and leaves the others
-- ready, the task is EXITED with its code, and its children have task 0 as their parent; but the
-- list of children that task 0 has begins as before, so they are not put in front of it.
pub exit-Ends :
    (m : Machine) (t code x : ℕ) (q cs : List ℕ)
    → m.sched.current ≡ some t
    → (m.sched.tasks t).id ≢ 0
    → t ≢ 0
    → Holds m.sched (x ∷ q)
    → t ≢ x
    → Siblings m.sched.tasks (m.sched.tasks t).child_head cs none
    → length cs ≤ max_tasks
    → (after : Machine) × (exit m code ≡ some after) × Ends m after t code x q cs
exit-Ends m t code x q cs c n t0 v ne kids few =
    let tasks : Tasks = end_task m.sched.tasks t code in
    let s : Scheduler = record m.sched { tasks = tasks } in
    let ready : Holds s (x ∷ q) = record {
      chain =
          Chain-frame m.sched.tasks tasks m.sched.head (x ∷ q) none
            (λ y h. (end_task-fields m.sched.tasks t code cs kids few y).0) v.chain;
      tail = v.tail;
      distinct = v.distinct;
    } in
    let (out, left) = dequeue-some s x q ready in
    let after : Machine = resume (record m { sched = (dequeue s).0 }) x in
    let (state, code_kept) = end_task-own m.sched.tasks t code cs kids few in
    let fields = given-fields s m x in
    (
      after,
      exit-next m t x code c n out,
      record {
        current = resume-current (record m { sched = (dequeue s).0 }) x;
        ready = resume-Holds (record m { sched = (dequeue s).0 }) x q left;
        state = (fields t).3 ne ∙ state;
        exit_code = (fields t).2 ∙ code_kept;
        orphans = λ y h. (fields y).0 ∙ (end_task-fields m.sched.tasks t code cs kids few y).1 h;
        list_of_0 =
            (fields 0).1 ∙ end_task-head m.sched.tasks t code cs kids few 0 (λ e. t0 (sym e));
      },
    )
