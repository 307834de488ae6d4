-- ===== src/Tests/Process.antt =====
-- Runs of the scheduler (kernel/src/process/scheduler.rs) on a few tasks.
use elitra_os.Base.{
  ℕ, Bool-cases, ◌≡◌, refl, inl, inr, true, false, none, some, [], ◌∷◌, arith, ◌==◌, if◌then◌else◌,
}
use elitra_os.Base.Bits.{each_under}
use elitra_os.Util.Klib.{negsuc}
use elitra_os.Process.Task.{Task, Tasks, TaskState, Scheduler, Machine, write}
use elitra_os.Process.Ready.Chain.{has}
use elitra_os.Process.Ready.Fifo.{Holds, put, get, run_queue, run_fifo, run_queue-run_fifo}
use elitra_os.Process.Sleep.{sleep_wake_all}
use elitra_os.Process.Sleep.Wake.{Asleep, sleep_wake_all_lem}
use elitra_os.Process.Signal.{is_clear, deliver_signals, sigreturn}
use elitra_os.Process.Signal.Return.{IsDue, IsUserFrame, Returned, sigreturn-deliver_signals}
use elitra_os.Process.Switch.{yield_handler, sleep_ticks}
use elitra_os.Process.Switch.Turn.{Runs}
use elitra_os.Process.Switch.Yield.{Serves, yield_handler_lem}
use elitra_os.Process.Switch.Lost.{Lost, sleep_ticks_lem}
use elitra_os.Process.Switch.{exit}
use elitra_os.Process.Switch.Exit.{Ends, exit-Ends}
use elitra_os.Process.Family.{waitpid_flags, set_state}
use elitra_os.Process.Family.Children.{HasChildren}
use elitra_os.Process.Family.Reap.{IsNumbered, IsFamily, set_state-IsFamily}
use elitra_os.Process.Family.Any.{IsQuiet, Waited, waitpid_flags-any}

abbrev plain : ℕ → Task
plain i = record {
  id = i;
  ppid = 0;
  state = TaskState.ready;
  rsp = 0;
  kstack = 0x5000;
  exit_code = 0;
  next = none;
  parent = none;
  child_head = none;
  child_tail = none;
  sibling_next = none;
  handlers = λ j. 0;
  sig_pending = λ j. false;
  sig_blocked = λ j. false;
  has_child_exit = false;
  sleep_until = 0;
  uid = 0;
}

abbrev empty : Scheduler
empty = record {
  tasks = plain;
  head = none;
  tail = none;
  sleep_head = none;
  sleep_count = 0;
  current = none;
  next_id = 8;
  free_ids = [];
}

run_queue-run_fifo_example :
    let asked = put 3 ∷ put 5 ∷ get ∷ put 3 ∷ get ∷ get ∷ get ∷ [] in
    run_queue empty asked ≡ run_fifo [] asked
run_queue-run_fifo_example =
    run_queue-run_fifo empty [] (put 3 ∷ put 5 ∷ get ∷ put 3 ∷ get ∷ get ∷ get ∷ [])
      (record { chain = refl; tail = refl; distinct = tt }) (refl, (refl, (refl, tt)))

-- Task 5 runs, 1 and 3 are ready, 2 sleeps until 10 and 4 until 30.
abbrev busy_tasks : Tasks
busy_tasks i =
    if i == 1
    then record (plain 1) { next = some 3 }
    else if i == 2
    then record (plain 2) { next = some 4; sleep_until = 10 }
    else if i == 4
    then record (plain 4) { sleep_until = 30 }
    else plain i

abbrev busy : Scheduler
busy = record {
  tasks = busy_tasks;
  head = some 1;
  tail = some 3;
  sleep_head = some 2;
  sleep_count = 2;
  current = some 5;
  next_id = 8;
  free_ids = [];
}

busy-Holds : Holds busy (1 ∷ 3 ∷ [])
busy-Holds = record { chain = (refl, (refl, refl)); tail = refl; distinct = (refl, (refl, tt)) }

busy-Asleep : Asleep busy (2 ∷ 4 ∷ [])
busy-Asleep = record { chain = (refl, (refl, refl)); count = refl }

sleep_wake_all_lem_example :
    Holds (sleep_wake_all 20 busy) (1 ∷ 3 ∷ 2 ∷ []) × Asleep (sleep_wake_all 20 busy) (4 ∷ [])
sleep_wake_all_lem_example =
    sleep_wake_all_lem 20 busy (1 ∷ 3 ∷ []) (2 ∷ 4 ∷ []) busy-Holds busy-Asleep (λ t. ground arith)
      (omega arith)

abbrev machine : Machine
machine = record {
  sched = busy;
  regs = record {
    rip = 0x400123;
    cs = 0x1B;
    rflags = 0x202;
    user_rsp = 0x7000;
    ss = 0x23;
    rdi = 1;
    rax = 2;
  };
  words = λ a. 0;
  kernel_stack = 0;
}

machine-Serves : Serves machine 5 (1 ∷ 3 ∷ []) (2 ∷ 4 ∷ [])
unfolding is_clear each_under
machine-Serves = record {
  current = refl;
  ready = busy-Holds;
  asleep = busy-Asleep;
  calm = refl;
  once = λ x. ground arith;
  few = omega arith;
}

yield_handler_lem_example : Runs (yield_handler machine 0x5f00 20) (1 ∷ 3 ∷ 2 ∷ 5 ∷ []) (4 ∷ [])
yield_handler_lem_example =
    yield_handler_lem machine 5 0x5f00 20 (1 ∷ 3 ∷ []) (2 ∷ 4 ∷ []) machine-Serves
      (λ e. omega (arith, e))

-- With a timer of 10 ms, task 5 asks to sleep for 50 ms.
sleep_ticks_lem_example : Lost (sleep_ticks machine 50 10 0x5f00 20 20) 5 (1 ∷ 3 ∷ 2 ∷ 5 ∷ []) 2
sleep_ticks_lem_example =
    sleep_ticks_lem machine 5 50 10 0x5f00 20 20 (1 ∷ 3 ∷ []) (2 ∷ 4 ∷ []) machine-Serves
      (λ e. omega (arith, e)) (omega arith) (omega arith) (omega arith)

-- Task 5 has a handler for signal 15, which was sent to it.
abbrev signalled : Machine
signalled = record machine {
  sched = record busy {
    tasks = write busy_tasks 5 (record (plain 5) {
      handlers = λ i. if i == 15 then 0x401000 else 0;
      sig_pending = λ i. i == 15;
    });
  };
}

signalled-IsDue : IsDue (signalled.sched.tasks 5) 15 0x401000 1
signalled-IsDue = record {
  pending = refl;
  open_ = refl;
  handled = refl;
  custom = omega arith;
  quiet = λ j a b. inl (ground (arith, b));
}

signalled-IsUserFrame : IsUserFrame signalled.regs
signalled-IsUserFrame = record {
  rip_low = omega arith;
  rip_high = omega arith;
  cs = inr refl;
  ss = inr refl;
  room = omega arith;
  rsp_high = omega arith;
}

sigreturn-deliver_signals_example :
    let called = deliver_signals signalled in
    (called.regs.rip ≡ 0x401000)
    × (called.regs.rdi ≡ 15)
    × Returned signalled.regs 15 (sigreturn called)
sigreturn-deliver_signals_example =
    sigreturn-deliver_signals signalled 5 15 0x401000 refl (omega arith) (omega arith)
      signalled-IsDue signalled-IsUserFrame

-- Task 5 has the children 2, 3 and 4, of which 3 has ended with code 7.
abbrev family : Scheduler
family = record empty {
  tasks = λ i.
      if i == 5
      then record (plain 5) { child_head = some 2; child_tail = some 4 }
      else if i == 2
      then record (plain 2) { parent = some 5; sibling_next = some 3 }
      else if i == 3
      then record (plain 3) {
        parent = some 5;
        sibling_next = some 4;
        state = TaskState.exited;
        exit_code = 7;
      }
      else if i == 4
      then record (plain 4) { parent = some 5 }
      else plain i;
  current = some 5;
}

family-HasChildren : HasChildren family.tasks 5 (2 ∷ 3 ∷ 4 ∷ [])
family-HasChildren = record {
  chain = (refl, (refl, (refl, refl)));
  tail = refl;
  once = λ t. ground arith;
  parents = λ t h. ground (arith, h);
}

family-IsNumbered : (c : ℕ) → has c (2 ∷ 3 ∷ 4 ∷ []) ≡ true → IsNumbered family c
family-IsNumbered c h = record {
  own = ground (arith, h);
  low = ground (arith, h);
  high = ground (arith, h);
  room = omega arith;
}

family-IsFamily : IsFamily family 5 (2 ∷ 3 ∷ 4 ∷ [])
family-IsFamily = record { children = family-HasChildren; numbered = family-IsNumbered }

-- Nobody has ended yet; child 2 ends while task 5 yields for the second time.
abbrev young : Scheduler
young = set_state family 3 TaskState.ready

abbrev child_ends : ℕ → Scheduler → Scheduler
child_ends k s = if k == 1 then set_state s 2 TaskState.exited else s

child_ends-IsQuiet : IsQuiet child_ends 5 (2 ∷ 3 ∷ 4 ∷ [])
child_ends-IsQuiet k u v = elim (Bool-cases (k == 1)) [
  | inl e ↦ rw e (set_state-IsFamily u 5 2 TaskState.exited (2 ∷ 3 ∷ 4 ∷ []) v)
  | inr e ↦ rw e v
]

waitpid_flags-any_example :
    Waited false child_ends 5
      (2 ∷ 3 ∷ 4 ∷ [])
      4
      young
      (waitpid_flags 4 child_ends young (negsuc 0) false)
waitpid_flags-any_example =
    waitpid_flags-any 4 child_ends young 5 (2 ∷ 3 ∷ 4 ∷ []) false refl
      (set_state-IsFamily family 5 3 TaskState.ready (2 ∷ 3 ∷ 4 ∷ []) family-IsFamily) refl
      (omega arith) child_ends-IsQuiet

-- Task 5, with the children 6 and 7, ends while 1 and 3 are ready.
abbrev leaving : Machine
leaving = record machine {
  sched = record busy {
    tasks = λ i.
        if i == 5
        then record (plain 5) { child_head = some 6; child_tail = some 7 }
        else if i == 6
        then record (plain 6) { parent = some 5; sibling_next = some 7 }
        else if i == 7
        then record (plain 7) { parent = some 5 }
        else busy_tasks i;
  };
}

exit-Ends_example :
    (after : Machine) × (exit leaving 9 ≡ some after)
    × Ends leaving after 5 9 1 (3 ∷ []) (6 ∷ 7 ∷ [])
exit-Ends_example =
    exit-Ends leaving 5 9 1 (3 ∷ []) (6 ∷ 7 ∷ []) refl (λ e. omega (arith, e))
      (λ e. omega (arith, e))
      (record { chain = (refl, (refl, refl)); tail = refl; distinct = (refl, (refl, tt)) })
      (λ e. omega (arith, e)) (refl, (refl, refl)) (omega arith)
