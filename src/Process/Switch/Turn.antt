-- ===== src/Process/Switch/Turn.antt =====
-- The end of a task's turn (`give_turn`): what it leaves in the two queues.
use elitra_os.Base.{
  ℕ, ◌≡◌, ◌≢◌, ◌∙◌, refl, ap, sym, subst, true, false, Option, none, some, List, [], ◌∷◌, ◌++◌, ◌+◌,
  ◌≤◌, arith,
}
use elitra_os.Process.Task.{Task, TaskState, Scheduler, Machine, write, write_task, set_next}
use elitra_os.Process.Ready.{enqueue, dequeue}
use elitra_os.Process.Ready.Chain.{has, Chain-frame}
use elitra_os.Process.Ready.Fifo.{Holds, enqueue-Holds, dequeue-some}
use elitra_os.Process.Ready.Frame.{enqueue-next, enqueue-head, enqueue-count}
use elitra_os.Process.Ready.Occ.{occ, occ-append, occ-has, has-occ}
use elitra_os.Process.Sleep.Wake.{Asleep}
use elitra_os.Process.Switch.{resume, give_turn}

-- A task written with the pointer that it had is still in the same queues.
pub write-Holds :
    (s : Scheduler) (t : ℕ) (v : Task) (q : List ℕ)
    → v.next ≡ (s.tasks t).next
    → Holds s q
    → Holds (write_task s t v) q
write-Holds s t v q e h = record {
  chain = Chain-frame s.tasks (write s.tasks t v) s.head q none (λ x g. ground (arith, e)) h.chain;
  tail = h.tail;
  distinct = h.distinct;
}

pub write-Asleep :
    (s : Scheduler) (t : ℕ) (v : Task) (zs : List ℕ)
    → v.next ≡ (s.tasks t).next
    → Asleep s zs
    → Asleep (write_task s t v) zs
write-Asleep s t v zs e a = record {
  chain =
      Chain-frame s.tasks (write s.tasks t v) s.sleep_head zs none (λ x g. ground (arith, e))
        a.chain;
  count = a.count;
}

-- The sleep queue does not see what happens to the ready queue, as no task is in both.
pub enqueue-Asleep :
    (s : Scheduler) (t : ℕ) (q zs : List ℕ)
    → Holds s q
    → Asleep s zs
    → ((x : ℕ) → occ x (t ∷ q) + occ x zs ≤ 1)
    → Asleep (enqueue s t) zs
enqueue-Asleep s t q zs v a once = record {
  chain =
      rw (enqueue-head s t)
        (Chain-frame s.tasks (enqueue s t).tasks s.sleep_head zs none (λ x h. kept x h) a.chain);
  count = enqueue-count s t ∙ a.count;
}
  where
    kept : (x : ℕ) → has x zs ≡ true → ((enqueue s t).tasks x).next ≡ (s.tasks x).next
    kept x h =
        let in_zs : 1 ≤ occ x zs = has-occ x zs h in
        enqueue-next s t q x v (λ e. ground (arith, once x, in_zs, e))
          (occ-has x q (ground (arith, once x, in_zs)))

pub dequeue-Asleep :
    (s : Scheduler) (t : ℕ) (q zs : List ℕ)
    → Holds s (t ∷ q)
    → Asleep s zs
    → ((x : ℕ) → occ x (t ∷ q) + occ x zs ≤ 1)
    → Asleep (dequeue s).0 zs
unfolding dequeue
dequeue-Asleep s t q zs v a once =
    let full : s.head ≡ some t = v.chain.0 in
    rw full (record {
      chain =
          Chain-frame s.tasks (set_next s.tasks t none) s.sleep_head zs none (λ x h. kept x h)
            a.chain;
      count = a.count;
    })
  where
    kept : (x : ℕ) → has x zs ≡ true → (set_next s.tasks t none x).next ≡ (s.tasks x).next
    kept x h = let ne : x ≢ t = λ e. ground (arith, once x, has-occ x zs h, e) in ground (arith, ne)

-- the first of a line of tasks, and the others
abbrev pub first : List ℕ → Option ℕ
first [] = none
first (x ∷ xs) = some x

abbrev pub others : List ℕ → List ℕ
others [] = []
others (x ∷ xs) = xs

-- The first of the line runs, the others are ready, the sleepers are asleep.
pub record Runs (m : Machine) (line zs : List ℕ) : Type 0 where
  pub current : m.sched.current ≡ first line
  pub state : (x : ℕ) → first line ≡ some x → (m.sched.tasks x).state ≡ TaskState.running
  pub ready : Holds m.sched (others line)
  pub asleep : Asleep m.sched zs

-- a task that is resumed
resume-Runs :
    (m : Machine) (x : ℕ) (q zs : List ℕ)
    → Holds m.sched q
    → Asleep m.sched zs
    → Runs (resume m x) (x ∷ q) zs
unfolding resume
resume-Runs m x q zs v a =
    let running : Task = record (m.sched.tasks x) { state = TaskState.running } in
    let v' = write-Holds m.sched x running q refl v in
    let a' = write-Asleep m.sched x running zs refl a in
    record {
      current = refl;
      state = λ y e. ground (arith, e);
      ready = record { chain = v'.chain; tail = v'.tail; distinct = v'.distinct };
      asleep = record { chain = a'.chain; count = a'.count };
    }

-- the machine after the ready queue has answered
abbrev pub taken : Machine → Scheduler → Option ℕ → ℕ → Machine
taken m s next prev =
    let back : Task = record (s.tasks prev) { state = TaskState.running } in
    elim next [
      | none ↦ record m { sched = record (write_task s prev back) { current = some prev } }
      | some n ↦ resume (record m { sched = s }) n
    ]

taken-Runs :
    (m : Machine) (s : Scheduler) (prev x : ℕ) (q zs : List ℕ)
    → Holds s (x ∷ q)
    → Asleep s zs
    → ((y : ℕ) → occ y (x ∷ q) + occ y zs ≤ 1)
    → Runs (taken m (dequeue s).0 (dequeue s).1 prev) (x ∷ q) zs
taken-Runs m s prev x q zs v a once =
    let (out, left) = dequeue-some s x q v in
    subst (λ n. Runs (taken m (dequeue s).0 n prev) (x ∷ q) zs) (sym out)
      (resume-Runs (record m { sched = (dequeue s).0 }) x q zs left
        (dequeue-Asleep s x q zs v a once))

-- The line is not empty: the task that gives its turn is its last.
pub snoc-cons : (q : List ℕ) (t : ℕ) → (x : ℕ) × (rest : List ℕ) × (q ++ (t ∷ []) ≡ x ∷ rest)
snoc-cons [] t = (t, [], refl)
snoc-cons (x ∷ q) t = (x, q ++ (t ∷ []), refl)

pub give_turn-Runs :
    (m : Machine) (prev r : ℕ) (q zs : List ℕ)
    → Holds m.sched q
    → Asleep m.sched zs
    → ((x : ℕ) → occ x (prev ∷ q) + occ x zs ≤ 1)
    → Runs (give_turn m prev r) (q ++ (prev ∷ [])) zs
unfolding give_turn
give_turn-Runs m prev r q zs v a once =
    let saved : Task = record (m.sched.tasks prev) { rsp = r; state = TaskState.ready } in
    let s = write_task m.sched prev saved in
    let vs = write-Holds m.sched prev saved q refl v in
    let asl = write-Asleep m.sched prev saved zs refl a in
    let out : has prev q ≡ false = occ-has prev q (ground (arith, once prev)) in
    let vq = enqueue-Holds s prev q vs out in
    let aq = enqueue-Asleep s prev q zs vs asl once in
    let (x, rest, e) = snoc-cons q prev in
    rw e (
      taken-Runs m (enqueue s prev) prev x rest zs (rw (sym e) vq) aq
        (λ y. ground (arith, once y, occ-append y q (prev ∷ []), ap (occ y) e)))
