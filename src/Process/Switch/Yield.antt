-- ===== src/Process/Switch/Yield.antt =====
-- Turns are taken in the order of the ready queue (`yield_handler`, `preempt`).
use elitra_os.Base.{
  ℕ, ◌≡◌, ◌≢◌, ◌∙◌, ap, sym, true, some, List, [], ◌∷◌, ◌++◌, ◌+◌, ◌≤◌, arith, length,
}
use elitra_os.Process.Task.{Machine, max_tasks}
use elitra_os.Process.Ready.Fifo.{Holds}
use elitra_os.Process.Sleep.{sleep_wake_all}
use elitra_os.Process.Sleep.Kept.{sleep_wake_all-Kept}
use elitra_os.Process.Ready.Occ.{occ, occ-append}
use elitra_os.Process.Sleep.Wake.{Asleep, due, still, sleep_wake_all_lem}
use elitra_os.Process.Signal.{is_clear, deliver_signals}
use elitra_os.Process.Switch.{give_turn, wake_and_deliver, preempt, yield_handler}
use elitra_os.Process.Switch.Turn.{Runs, give_turn-Runs}

-- A machine with a running task that no signal waits for, and the two queues.
pub record Serves (m : Machine) (t : ℕ) (q zs : List ℕ) : Type 0 where
  pub current : m.sched.current ≡ some t
  pub ready : Holds m.sched q
  pub asleep : Asleep m.sched zs
  pub calm : is_clear (m.sched.tasks t).sig_pending ≡ true
  pub once : (x : ℕ) → occ x (t ∷ q) + occ x zs ≤ 1
  pub few : length zs ≤ max_tasks

-- the task that runs and the others that are ready, in the order of their turns
abbrev pub line : ℕ → Machine → ℕ → List ℕ → List ℕ → List ℕ
line now m t q zs = (q ++ due (λ x. (m.sched.tasks x).sleep_until) now zs) ++ (t ∷ [])

pub occ-due :
    (until : ℕ → ℕ) (now x : ℕ) (zs : List ℕ)
    → occ x (due until now zs) + occ x (still until now zs) ≡ occ x zs
occ-due until now x [] = omega arith
occ-due until now x (z ∷ zs) = ground (arith, occ-due until now x zs)

pub deliver_signals-calm :
    (m : Machine) (t : ℕ)
    → m.sched.current ≡ some t
    → is_clear (m.sched.tasks t).sig_pending ≡ true
    → deliver_signals m ≡ m
unfolding deliver_signals
deliver_signals-calm m t c e = ground (arith, c, e)

served :
    (m : Machine) (t now : ℕ) (q zs : List ℕ)
    → Serves m t q zs
    → wake_and_deliver m now ≡ record m { sched = sleep_wake_all now m.sched }
unfolding wake_and_deliver
served m t now q zs v =
    let k = sleep_wake_all-Kept now m.sched in
    deliver_signals-calm (record m { sched = sleep_wake_all now m.sched }) t (k.current ∙ v.current)
      (ap is_clear (k.pending t) ∙ v.calm)

give_turn-line :
    (m : Machine) (t r now : ℕ) (q zs : List ℕ)
    → Serves m t q zs
    → Runs
        (give_turn (record m { sched = sleep_wake_all now m.sched }) t r)
        (line now m t q zs)
        (still (λ x. (m.sched.tasks x).sleep_until) now zs)
give_turn-line m t r now q zs v =
    let until : ℕ → ℕ = λ x. (m.sched.tasks x).sleep_until in
    let once : (x : ℕ) → occ x q + occ x zs ≤ 1 = λ x. ground (arith, v.once x) in
    let (ready, asleep) = sleep_wake_all_lem now m.sched q zs v.ready v.asleep once v.few in
    give_turn-Runs (record m { sched = sleep_wake_all now m.sched }) t r (q ++ due until now zs)
      (still until now zs) ready asleep
      (λ x. ground (arith, v.once x, occ-append x q (due until now zs), occ-due until now x zs))

pub yield_handler-turn :
    (m w : Machine) (t r now : ℕ)
    → m.sched.current ≡ some t
    → wake_and_deliver m now ≡ w
    → (w.sched.tasks t).id ≢ 0
    → yield_handler m r now ≡ give_turn w t r
unfolding yield_handler
yield_handler-turn m w t r now c e n = ground (arith, c, e, n)

preempt-turn :
    (m w : Machine) (t r now : ℕ)
    → m.sched.current ≡ some t
    → wake_and_deliver m now ≡ w
    → (w.sched.tasks t).kstack ≢ 0
    → preempt m r now ≡ give_turn w t r
unfolding preempt
preempt-turn m w t r now c e n = ground (arith, c, e, n)

-- Where no task is in the two queues or running twice, at most 128 tasks sleep, and no signal is
-- raised for the running task, which is not task 0: when that task yields, the sleepers that are
-- due join the end of the ready queue and it goes behind them; the first of this line runs, the
-- others are the ready queue in this order, and the sleepers that are not due stay asleep in their
-- order.
pub yield_handler_lem :
    (m : Machine) (t r now : ℕ) (q zs : List ℕ)
    → Serves m t q zs
    → (m.sched.tasks t).id ≢ 0
    → Runs
        (yield_handler m r now)
        (line now m t q zs)
        (still (λ x. (m.sched.tasks x).sleep_until) now zs)
yield_handler_lem m t r now q zs v n =
    let k = sleep_wake_all-Kept now m.sched in
    let awake : Machine = record m { sched = sleep_wake_all now m.sched } in
    rw
      (yield_handler-turn m awake t r now v.current (served m t now q zs v)
        (λ e. n (sym (k.id t) ∙ e)))
      (give_turn-line m t r now q zs v)

-- Under the same conditions the timer's interrupt does the same to a task that has a kernel stack.
pub preempt_lem :
    (m : Machine) (t r now : ℕ) (q zs : List ℕ)
    → Serves m t q zs
    → (m.sched.tasks t).kstack ≢ 0
    → Runs (preempt m r now) (line now m t q zs) (still (λ x. (m.sched.tasks x).sleep_until) now zs)
preempt_lem m t r now q zs v n =
    let k = sleep_wake_all-Kept now m.sched in
    let awake : Machine = record m { sched = sleep_wake_all now m.sched } in
    rw
      (preempt-turn m awake t r now v.current (served m t now q zs v)
        (λ e. n (sym (k.kstack t) ∙ e)))
      (give_turn-line m t r now q zs v)
