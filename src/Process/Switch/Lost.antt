-- ===== src/Process/Switch/Lost.antt =====
-- What becomes of a task that sleeps, and of those that sleep already (`sleep_ticks`).
use elitra_os.Base.{
  ℕ, suc, ◌≡◌, ◌≢◌, ◌∙◌, refl, ap, sym, subst, false, none, some, List, [], ◌∷◌, ◌++◌, ◌+◌, ◌/◌,
  ◌%◌, ◌<◌, arith, length, leb, ◌==◌, if◌then◌else◌,
}
use elitra_os.Process.Task.{Task, TaskState, Scheduler, Machine, max_tasks, write_task}
use elitra_os.Process.Ready.{enqueue, dequeue}
use elitra_os.Process.Ready.Chain.{has, Chain, clash, has-last}
use elitra_os.Process.Ready.Fifo.{Holds, enqueue-Holds, dequeue-some, some-last}
use elitra_os.Process.Sleep.{sleep_enqueue, sleep_wake_all}
use elitra_os.Process.Sleep.Kept.{sleep_wake_all-Kept}
use elitra_os.Process.Ready.Frame.{enqueue-head, enqueue-count}
use elitra_os.Process.Ready.Occ.{occ-append, occ-has}
use elitra_os.Process.Sleep.Wake.{Asleep, due, still, sleep_wake_all_lem}
use elitra_os.Process.Sleep.Bed.{
  due-ext, sleep_enqueue-other, sleep_enqueue-own, sleep_enqueue-Holds, sleep_enqueue-Asleep,
}
use elitra_os.Process.Signal.{is_clear}
use elitra_os.Process.Switch.{
  resume, give_turn, yield_handler, wake_and_deliver, sleep_ticks, sleep_until_ticks,
}
use elitra_os.Process.Switch.Turn.{first, others, write-Holds, snoc-cons, taken}
use elitra_os.Process.Switch.Yield.{Serves, line, occ-due, yield_handler-turn, deliver_signals-calm}

-- the new end of the queue points to nothing
enqueue-end :
    (s : Scheduler) (t : ℕ) (q : List ℕ)
    → Holds s q
    → has t q ≡ false
    → ((enqueue s t).tasks t).next ≡ none
unfolding enqueue
enqueue-end s t [] v h = ground (arith, v.chain)
enqueue-end s t (y ∷ q) v h =
    let (l, e) = some-last y q in
    let ne : t ≢ l = λ g. clash t l (y ∷ q) g h (has-last (y ∷ q) l e) in
    let at_end : s.tail ≡ some l = v.tail ∙ e in ground (arith, v.chain.0, at_end, ne)

dequeue-end :
    (s : Scheduler) (t : ℕ) → (s.tasks t).next ≡ none → ((dequeue s).0.tasks t).next ≡ none
unfolding dequeue
dequeue-end s t e = ground (arith, e)

dequeue-head : (s : Scheduler) → (dequeue s).0.sleep_head ≡ s.sleep_head
unfolding dequeue
dequeue-head s = ground arith

dequeue-count : (s : Scheduler) → (dequeue s).0.sleep_count ≡ s.sleep_count
unfolding dequeue
dequeue-count s = ground arith

-- The sleep queue that is left: the task alone, with the count of all that slept.
pub record Lost (m : Machine) (t : ℕ) (xs : List ℕ) (slept : ℕ) : Type 0 where
  pub current : m.sched.current ≡ first xs
  pub ready : Holds m.sched (others xs)
  pub alone : Chain m.sched.tasks m.sched.sleep_head (t ∷ []) none
  pub count : m.sched.sleep_count ≡ slept

resume-Lost :
    (m : Machine) (t x : ℕ) (q : List ℕ)
    → Holds m.sched q
    → m.sched.sleep_head ≡ some t
    → (m.sched.tasks t).next ≡ none
    → Lost (resume m x) t (x ∷ q) m.sched.sleep_count
unfolding resume
resume-Lost m t x q v h n =
    let running : Task = record (m.sched.tasks x) { state = TaskState.running } in
    let v' = write-Holds m.sched x running q refl v in
    record {
      current = refl;
      ready = record { chain = v'.chain; tail = v'.tail; distinct = v'.distinct };
      alone = (h, ground (arith, n));
      count = refl;
    }

give_turn-Lost :
    (m : Machine) (t r : ℕ) (q : List ℕ)
    → Holds m.sched q
    → has t q ≡ false
    → m.sched.sleep_head ≡ some t
    → Lost (give_turn m t r) t (q ++ (t ∷ [])) m.sched.sleep_count
unfolding give_turn
give_turn-Lost m t r q v out h =
    let saved : Task = record (m.sched.tasks t) { rsp = r; state = TaskState.ready } in
    let s = write_task m.sched t saved in
    let vs = write-Holds m.sched t saved q refl v in
    let queued = enqueue s t in
    let vq = enqueue-Holds s t q vs out in
    let (x, rest, e) = snoc-cons q t in
    let (taken_x, left) = dequeue-some queued x rest (rw (sym e) vq) in
    let count : (dequeue queued).0.sleep_count ≡ m.sched.sleep_count =
      dequeue-count queued ∙ enqueue-count s t in
    let given =
      resume-Lost (record m { sched = (dequeue queued).0 }) t x rest left
        (dequeue-head queued ∙ enqueue-head s t ∙ h)
        (dequeue-end queued t (enqueue-end s t q vs out)) in
    subst (λ xs. Lost (taken m (dequeue queued).0 (dequeue queued).1 t) t xs m.sched.sleep_count)
      (sym e)
      (subst (λ n. Lost (taken m (dequeue queued).0 n t) t (x ∷ rest) m.sched.sleep_count)
        (sym taken_x)
        (subst (λ n. Lost (resume (record m { sched = (dequeue queued).0 }) x) t (x ∷ rest) n) count
          given))

-- the machine on which the yield of a sleeper finds itself
module _ (m : Machine) (t target now : ℕ) (q zs : List ℕ) (v : Serves m t q zs)
    (few : length zs < max_tasks) (later : now < target) where
  until : ℕ → ℕ
  until x = (m.sched.tasks x).sleep_until

  bedded : Scheduler
  bedded = sleep_enqueue m.sched t target

  out : (has t q ≡ false) × (has t zs ≡ false)
  out = (occ-has t q (ground (arith, v.once t)), occ-has t zs (ground (arith, v.once t)))

  sleepers :
      (due (λ x. (bedded.tasks x).sleep_until) now (t ∷ zs) ≡ due until now zs)
      × (still (λ x. (bedded.tasks x).sleep_until) now (t ∷ zs) ≡ t ∷ still until now zs)
  unfolding bedded until
  sleepers =
      let own : (bedded.tasks t).sleep_until ≡ target = (sleep_enqueue-own m.sched t target).1 in
      let late : leb target now ≡ false = ground (arith, later) in
      let (d, l) =
        due-ext until (λ x. (bedded.tasks x).sleep_until) now zs
          (λ x h. (sleep_enqueue-other m.sched t target x zs out.1 h).1) in
      rw (own, late, d, l) (refl, refl)

  awake : Scheduler
  awake = sleep_wake_all now bedded

  woken : Holds awake (q ++ due until now zs) × Asleep awake (t ∷ still until now zs)
  unfolding bedded awake
  woken =
      let both =
        sleep_wake_all_lem now bedded q (t ∷ zs)
          (sleep_enqueue-Holds m.sched t target q v.ready out.0)
          (sleep_enqueue-Asleep m.sched t target zs v.asleep out.1) (λ x. ground (arith, v.once x))
          few in
      rw⁻¹ (sleepers.0, sleepers.1) both

  slept : Machine
  slept = record m { sched = bedded }

  slept-current : slept.sched.current ≡ some t
  unfolding slept bedded sleep_enqueue
  slept-current = v.current

  slept-pending : (slept.sched.tasks t).sig_pending ≡ (m.sched.tasks t).sig_pending
  unfolding slept bedded sleep_enqueue
  slept-pending = ground arith

  slept-id : (slept.sched.tasks t).id ≡ (m.sched.tasks t).id
  unfolding slept bedded sleep_enqueue
  slept-id = ground arith

  slept-served : wake_and_deliver slept now ≡ record m { sched = awake }
  unfolding wake_and_deliver slept awake
  slept-served =
      let k = sleep_wake_all-Kept now bedded in
      deliver_signals-calm (record m { sched = awake }) t (k.current ∙ slept-current)
        (ap is_clear (k.pending t ∙ slept-pending) ∙ v.calm)

  awake-id : (awake.tasks t).id ≡ (m.sched.tasks t).id
  unfolding awake bedded slept
  awake-id = (sleep_wake_all-Kept now bedded).id t ∙ slept-id

  slept-Lost :
      (r : ℕ)
      → (m.sched.tasks t).id ≢ 0
      → Lost (yield_handler slept r now) t (line now m t q zs) (suc (length (still until now zs)))
  unfolding until
  slept-Lost r n =
      let (ready, asleep) = woken in
      let turn =
        yield_handler-turn slept (record m { sched = awake }) t r now slept-current slept-served
          (λ e. n (sym awake-id ∙ e)) in
      let not_due : has t (q ++ due until now zs) ≡ false =
        occ-has t _
          (ground (arith, v.once t, occ-append t q (due until now zs), occ-due until now t zs)) in
      rw turn (
        subst (λ c. Lost (give_turn (record m { sched = awake }) t r) t (line now m t q zs) c)
          asleep.count
          (give_turn-Lost (record m { sched = awake }) t r (q ++ due until now zs) ready not_due
            asleep.chain.0))

-- how many ticks of the timer the milliseconds are
abbrev pub ticks_of : ℕ → ℕ → ℕ
ticks_of ms tick_ms = if tick_ms == 0 then ms else ms / tick_ms

sleep_ticks-yield :
    (m : Machine) (t ms tick_ms r now again : ℕ)
    → m.sched.current ≡ some t
    → (m.sched.tasks t).id ≢ 0
    → sleep_ticks m ms tick_ms r now again
      ≡ yield_handler
          (record m { sched = sleep_enqueue m.sched t ((now + ticks_of ms tick_ms) % 4294967296) })
          r
          again
unfolding sleep_ticks sleep_until_ticks
sleep_ticks-yield m t ms tick_ms r now again c n = ground (arith, c, n)

-- Where no task is in the two queues or running twice, fewer than 128 tasks sleep, no signal is
-- raised for the running task, which is not task 0, and the ticks do not overflow: a task that asks
-- to sleep, and yields before the tick in which it wants to wake, is put at the end of the line of
-- those that are ready, and where that line has no other it runs again at once. In the sleep queue
-- it stands alone afterwards: the other tasks that slept and are not due are not in it, though they
-- are still counted.
pub sleep_ticks_lem :
    (m : Machine) (t ms tick_ms r now again : ℕ) (q zs : List ℕ)
    → Serves m t q zs
    → (m.sched.tasks t).id ≢ 0
    → length zs < max_tasks
    → again < now + ticks_of ms tick_ms
    → now + ticks_of ms tick_ms < 4294967296
    → Lost
        (sleep_ticks m ms tick_ms r now again)
        t
        (line again m t q zs)
        (suc (length (still (λ x. (m.sched.tasks x).sleep_until) again zs)))
unfolding slept until bedded
sleep_ticks_lem m t ms tick_ms r now again q zs v n few before fits =
    let target = (now + ticks_of ms tick_ms) % 4294967296 in
    let later : again < target = omega (arith, before, fits) in
    rw (sleep_ticks-yield m t ms tick_ms r now again v.current n)
      (slept-Lost m t target again q zs v few later r n)
