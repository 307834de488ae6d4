-- ===== src/Process/Sleep/Kept.antt =====
-- What waking the sleepers (`sleep_wake_all`) leaves as it is: who runs, and the fields of a task that
-- do not belong to the queues.
use elitra_os.Base.{
  ℕ, zero, suc, ◌≡◌, ◌∙◌, refl, Option, none, some, arith, leb, Bool-cases, inl, inr,
}
use elitra_os.Process.Task.{Scheduler, max_tasks}
use elitra_os.Process.Ready.{enqueue}
use elitra_os.Process.Sleep.{wake_task, wake_from, sleep_wake_all}

pub record Kept (s s' : Scheduler) : Type 0 where
  pub current : s'.current ≡ s.current
  pub id : (x : ℕ) → (s'.tasks x).id ≡ (s.tasks x).id
  pub kstack : (x : ℕ) → (s'.tasks x).kstack ≡ (s.tasks x).kstack
  pub pending : (x : ℕ) → (s'.tasks x).sig_pending ≡ (s.tasks x).sig_pending

Kept-trans : (s s' s'' : Scheduler) → Kept s s' → Kept s' s'' → Kept s s''
Kept-trans s s' s'' a b = record {
  current = b.current ∙ a.current;
  id = λ x. b.id x ∙ a.id x;
  kstack = λ x. b.kstack x ∙ a.kstack x;
  pending = λ x. b.pending x ∙ a.pending x;
}

wake_task-Kept : (s : Scheduler) (c : ℕ) (prev next : Option ℕ) → Kept s (wake_task s c prev next)
unfolding wake_task enqueue
wake_task-Kept s c prev next = record {
  current = ground arith;
  id = λ x. ground arith;
  kstack = λ x. ground arith;
  pending = λ x. ground arith;
}

wake_from-Kept :
    (fuel now : ℕ) (s : Scheduler) (prev curr : Option ℕ) → Kept s (wake_from fuel now s prev curr)
unfolding wake_from
wake_from-Kept zero now s prev curr = record {
  current = refl;
  id = λ x. refl;
  kstack = λ x. refl;
  pending = λ x. refl;
}
wake_from-Kept (suc fuel) now s prev none = record {
  current = refl;
  id = λ x. refl;
  kstack = λ x. refl;
  pending = λ x. refl;
}
wake_from-Kept (suc fuel) now s prev (some c) =
    let next = (s.tasks c).next in
    let woken = wake_task s c prev next in
    elim (Bool-cases (leb (s.tasks c).sleep_until now)) [
      | inl e ↦ rw e (
          Kept-trans s woken _ (wake_task-Kept s c prev next)
            (wake_from-Kept fuel now woken prev next))
      | inr e ↦ rw e (wake_from-Kept fuel now s (some c) next)
    ]

pub sleep_wake_all-Kept : (now : ℕ) (s : Scheduler) → Kept s (sleep_wake_all now s)
unfolding sleep_wake_all
sleep_wake_all-Kept now s = wake_from-Kept max_tasks now s none s.sleep_head
