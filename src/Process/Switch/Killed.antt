-- ===== src/Process/Switch/Killed.antt =====
-- A task that SIGKILL ends while it is ready (`kill`) and the turns that follow (`yield_handler`).
use elitra_os.Base.{
  ℕ, ◌≡◌, ◌≢◌, ◌∙◌, refl, ap, sym, true, false, none, some, List, ◌∷◌, ◌+◌, ◌<◌, arith,
}
use elitra_os.Util.Klib.{pos}
use elitra_os.Process.Task.{TaskState, Scheduler, Machine, write, is_exited, tell_parent}
use elitra_os.Process.Ready.Chain.{Chain-frame}
use elitra_os.Process.Signal.{is_clear, kill, send_signal, may_signal, sigkill}
use elitra_os.Process.Switch.{yield_handler}
use elitra_os.Process.Switch.Yield.{Serves, yield_handler_lem}

-- a task that SIGKILL has ended
abbrev killed : Scheduler → ℕ → Scheduler
killed s x = record s {
  tasks =
      tell_parent
        (write s.tasks x (record (s.tasks x) {
          exit_code = 0x100 + sigkill;
          state = TaskState.exited;
          has_child_exit = true;
        }))
        (s.tasks x).parent;
}

kill-killed :
    (s : Scheduler) (x : ℕ)
    → x < s.next_id
    → is_exited (s.tasks x).state ≡ false
    → may_signal s x ≡ true
    → kill s (pos x) (pos 9) ≡ (killed s x, true)
unfolding kill send_signal
kill-killed s x l e u = ground (arith, l, e, u)

killed-fields :
    (s : Scheduler) (x y : ℕ)
    → (((killed s x).tasks y).next ≡ (s.tasks y).next)
      × (((killed s x).tasks y).id ≡ (s.tasks y).id)
      × (((killed s x).tasks y).sig_pending ≡ (s.tasks y).sig_pending)
unfolding tell_parent
killed-fields s x y = (ground arith, ground arith, ground arith)

killed-state : (s : Scheduler) (x : ℕ) → ((killed s x).tasks x).state ≡ TaskState.exited
unfolding tell_parent
killed-state s x = ground arith

killed-Serves :
    (m : Machine) (t x : ℕ) (q zs : List ℕ)
    → Serves m t q zs
    → Serves (record m { sched = killed m.sched x }) t q zs
killed-Serves m t x q zs v =
    let kept = λ (y : ℕ). killed-fields m.sched x y in
    record {
      current = v.current;
      ready = record {
        chain =
            Chain-frame m.sched.tasks (killed m.sched x).tasks m.sched.head q none
              (λ y h. (kept y).0) v.ready.chain;
        tail = v.ready.tail;
        distinct = v.ready.distinct;
      };
      asleep = record {
        chain =
            Chain-frame m.sched.tasks (killed m.sched x).tasks m.sched.sleep_head zs none
              (λ y h. (kept y).0) v.asleep.chain;
        count = v.asleep.count;
      };
      calm = ap is_clear (kept t).2 ∙ v.calm;
      once = v.once;
      few = v.few;
    }

-- SIGKILL to the task that is next in the ready queue, from one that may signal it, succeeds and
-- sets its state to EXITED, but it stays in the queue: when the running task, for which no signal
-- is raised and which is not task 0, yields, the killed task runs, and its state is RUNNING again.
pub kill-yield_handler :
    (m : Machine) (t x r now : ℕ) (q zs : List ℕ)
    → Serves m t (x ∷ q) zs
    → (m.sched.tasks t).id ≢ 0
    → x < m.sched.next_id
    → is_exited (m.sched.tasks x).state ≡ false
    → may_signal m.sched x ≡ true
    → let (s, sent) = kill m.sched (pos x) (pos 9) in
      let after = yield_handler (record m { sched = s }) r now in
      (sent ≡ true)
      × ((s.tasks x).state ≡ TaskState.exited)
      × (after.sched.current ≡ some x)
      × ((after.sched.tasks x).state ≡ TaskState.running)
kill-yield_handler m t x r now q zs v n l e u =
    let dead : Machine = record m { sched = killed m.sched x } in
    let runs =
      yield_handler_lem dead t r now (x ∷ q) zs (killed-Serves m t x (x ∷ q) zs v)
        (λ z. n (sym (killed-fields m.sched x t).1 ∙ z)) in
    rw (kill-killed m.sched x l e u) (refl, killed-state m.sched x, runs.current, runs.state x refl)
