-- ===== src/Process/Signal.antt =====
-- Signals of kernel/src/process/scheduler.rs: sending one, setting a handler, delivery on the way back
-- to user mode, and the return from a handler. The registers are those of the interrupt's frame.
pub mod Return
use elitra_os.Base.{
  ℕ, zero, suc, ◌+◌, ◌-◌, ◌*◌, ◌/◌, ◌%◌, ◌≡◌, Bool, true, false, not, ◌&&◌, ◌||◌, Option, none,
  some, ltb, ◌==◌, if◌then◌else◌,
}
use elitra_os.Base.Bits.{each_under}
use elitra_os.Util.Klib.{ℤ, pos, negsuc}
use elitra_os.Process.Task.{
  Task, Tasks, TaskState, Scheduler, Signals, Registers, Machine, write, write_task, is_exited,
  tell_parent,
}

abbrev pub nsig : ℕ
nsig = 32

abbrev pub sigkill : ℕ
sigkill = 9

unfoldable pub is_clear : Signals → Bool
is_clear m = each_under (λ i. not (m i)) nsig

unfoldable pub raised : Signals → ℕ → Signals
raised m sig i = if i == sig then true else m i

unfoldable pub lowered : Signals → ℕ → Signals
lowered m sig i = if i == sig then false else m i

-- A task that a signal ends.
unfoldable pub end_by : Scheduler → ℕ → ℕ → Scheduler
end_by s t sig =
    let ended : Task = record (s.tasks t) { exit_code = 0x100 + sig; state = TaskState.exited } in
    record s { tasks = tell_parent (write s.tasks t ended) (s.tasks t).parent }

unfoldable pub may_signal : Scheduler → ℕ → Bool
may_signal s t = elim s.current [
  | none ↦ true
  | some c ↦ (s.tasks c).uid == 0 || (s.tasks c).uid == (s.tasks t).uid
]

-- The answer is whether the call returns 0.
unfoldable pub send_signal : Scheduler → ℕ → ℕ → Scheduler × Bool
send_signal s t sig =
    let task : Task = s.tasks t in
    let killed : Task = record task {
      exit_code = 0x100 + sigkill;
      state = TaskState.exited;
      has_child_exit = true;
    } in
    let told : Scheduler = record s { tasks = tell_parent (write s.tasks t killed) task.parent } in
    if is_exited task.state
    then (s, false)
    else if not (may_signal s t)
    then (s, false)
    else if sig == sigkill
    then (told, true)
    else (write_task s t (record task { sig_pending = raised task.sig_pending sig }), true)

unfoldable pub kill : Scheduler → ℤ → ℤ → Scheduler × Bool
kill s (pos pid) (pos sig) =
    if not (ltb sig nsig)
    then (s, false)
    else if not (ltb pid s.next_id)
    then (s, false)
    else send_signal s pid sig
kill s _ _ = (s, false)

abbrev pub user_end : ℕ
user_end = 0x00007FFFFFFFFFFF

unfoldable pub bad_handler : ℕ → Bool
bad_handler h = not (h == 0) && not (h == 1) && (ltb user_end h || ltb h 0x1000)

-- The handler that was there before, where the call returns 0.
unfoldable pub sigaction : Scheduler → ℤ → ℕ → Scheduler × Option ℕ
sigaction s (negsuc sig) handler = (s, none)
sigaction s (pos sig) handler = elim s.current [
  | none ↦ (s, none)
  | some t ↦
      let task : Task = s.tasks t in
      let handlers : ℕ → ℕ = λ i. if i == sig then handler else task.handlers i in
      if not (ltb sig nsig)
      then (s, none)
      else if sig == sigkill
      then (s, none)
      else if bad_handler handler
      then (s, none)
      else (write_task s t (record task { handlers = handlers }), some (task.handlers sig))
]

-- word `i` of an array of words at `base`
abbrev pub word_at : (ℕ → ℕ) → ℕ → ℕ → ℕ
word_at words base i = words (base + 8 * i)

abbrev pub put_word : (ℕ → ℕ) → ℕ → ℕ → ℕ → ℕ
put_word words address v a = if a == address then v else words a

-- The seven words that the handler finds on its stack.
unfoldable pub push_frame : (ℕ → ℕ) → ℕ → ℕ → Registers → ℕ → ℕ
push_frame words usp sig r =
    let w0 = put_word words usp sig in
    let w1 = put_word w0 (usp + 8) r.rip in
    let w2 = put_word w1 (usp + 16) r.cs in
    let w3 = put_word w2 (usp + 24) r.rflags in
    let w4 = put_word w3 (usp + 32) r.user_rsp in
    let w5 = put_word w4 (usp + 40) r.ss in put_word w5 (usp + 48) 0

unfoldable pub enter_handler : Machine → ℕ → ℕ → ℕ → Machine
enter_handler m t sig new_usp =
    let task : Task = m.sched.tasks t in
    let entered : Task = record task { sig_pending = lowered task.sig_pending sig } in
    record m {
      sched = write_task m.sched t entered;
      regs = record m.regs { user_rsp = new_usp; rip = task.handlers sig; rdi = sig };
      words = push_frame m.words new_usp sig m.regs;
    }

unfoldable pub drop_signal : Machine → ℕ → ℕ → Machine
drop_signal m t sig =
    let task : Task = m.sched.tasks t in
    let dropped : Task = record task { sig_pending = lowered task.sig_pending sig } in
    record m { sched = write_task m.sched t dropped }

unfoldable pub is_fatal : ℕ → Bool
is_fatal sig = sig == sigkill || sig == 11 || sig == 15

unfoldable pub usp_below : ℕ → ℕ
usp_below usp = (usp + 18446744073709551616 - 56) % 18446744073709551616

unfoldable pub deliver_from : ℕ → Machine → ℕ → ℕ → Machine
deliver_from zero m t sig = m
deliver_from (suc n) m t sig =
    let task : Task = m.sched.tasks t in
    let handler = task.handlers sig in
    let new_usp = usp_below m.regs.user_rsp in
    let skipped = deliver_from n m t (sig + 1) in
    let dropped = deliver_from n (drop_signal m t sig) t (sig + 1) in
    let ended : Machine = record m { sched = end_by m.sched t sig } in
    if not (task.sig_pending sig)
    then skipped
    else if task.sig_blocked sig
    then skipped
    else if handler == 1
    then dropped
    else if handler == 0
    then if is_fatal sig then ended else dropped
    else if ltb new_usp 0x1000
    then ended
    else enter_handler m t sig new_usp

unfoldable pub deliver_signals : Machine → Machine
deliver_signals m = elim m.sched.current [
  | none ↦ m
  | some t ↦ if is_clear (m.sched.tasks t).sig_pending then m else deliver_from (nsig - 1) m t 1
]

-- `rflags & 0xFFFFFFFFFFFFFCFF`: bits 8 and 9 are cleared.
unfoldable pub masked_flags : ℕ → ℕ
masked_flags flags = flags / 1024 * 1024 + flags % 256

unfoldable pub is_user_address : ℕ → Bool
is_user_address a = not (ltb a 0x1000 || ltb user_end a)

-- the four tests of the frame, for any of which the call returns -1
unfoldable pub is_user_frame : ℕ → ℕ → ℕ → ℕ → Bool
is_user_frame rip cs rsp ss =
    is_user_address rip
    && (cs == 0x23 || cs == 0x1B)
    && (ss == 0x2B || ss == 0x23)
    && is_user_address rsp

unfoldable pub sigreturn : Machine → Machine × Bool
sigreturn m = elim m.sched.current [
  | none ↦ (m, false)
  | some t ↦
      let w : ℕ → ℕ = word_at m.words m.regs.user_rsp in
      let task : Task = m.sched.tasks t in
      let lower : Task = record task { sig_pending = lowered task.sig_pending (w 0) } in
      let regs : Registers = record m.regs {
        rip = w 1;
        cs = w 2;
        rflags = masked_flags (w 3);
        user_rsp = w 4;
        ss = w 5;
        rax = w 0;
      } in
      let sched = if ltb 0 (w 0) && ltb (w 0) nsig then write_task m.sched t lower else m.sched in
      if is_user_frame (w 1) (w 2) (w 4) (w 5)
      then (record m { sched = sched; regs = regs }, true)
      else (m, false)
]
