-- ===== src/Process/Signal/Return.antt =====
-- What a signal does to the program that it interrupts (`deliver_signals`, `sigreturn`).
use elitra_os.Base.{
  ℕ, zero, suc, ◌+◌, ◌/◌, ◌%◌, ◌≤◌, ◌<◌, ◌≡◌, ◌≢◌, ◌⊎◌, ◌∙◌, inl, inr, refl, ap, sym, Bool, true,
  false, not, some, Bool-cases, ◌==◌, arith,
}
use elitra_os.Base.Bits.{each_under-true}
use elitra_os.Process.Task.{Task, Signals, Registers, Machine}
use elitra_os.Process.Signal.{
  nsig, is_clear, lowered, word_at, push_frame, enter_handler, drop_signal, usp_below, deliver_from,
  deliver_signals, masked_flags, is_user_address, is_user_frame, sigreturn, user_end,
}

-- A signal that does nothing: it is not raised, or blocked, or ignored.
abbrev pub IsQuiet : Task → ℕ → Type 0
IsQuiet task j = (task.sig_pending j ≡ false) ⊎ (task.sig_blocked j ≡ true) ⊎ (task.handlers j ≡ 1)

-- The handler of the signal is about to run, on the frame of what was interrupted.
record Entered (m : Machine) (sig handler : ℕ) (called : Machine) : Type 0 where
  current : called.sched.current ≡ m.sched.current
  regs :
      called.regs ≡ record m.regs { user_rsp = usp_below m.regs.user_rsp; rip = handler; rdi = sig }
  words : called.words ≡ push_frame m.words (usp_below m.regs.user_rsp) sig m.regs

drop_signal-task :
    (m : Machine) (t j : ℕ)
    → (((drop_signal m t j).sched.tasks t).handlers ≡ (m.sched.tasks t).handlers)
      × (((drop_signal m t j).sched.tasks t).sig_blocked ≡ (m.sched.tasks t).sig_blocked)
      × (((drop_signal m t j).sched.tasks t).sig_pending ≡ lowered (m.sched.tasks t).sig_pending j)
unfolding drop_signal
drop_signal-task m t j = (ground arith, ground arith, ground arith)

-- what has to hold of a signal for its handler to be called next
pub record IsDue (task : Task) (sig handler first : ℕ) : Type 0 where
  pub pending : task.sig_pending sig ≡ true
  pub open_ : task.sig_blocked sig ≡ false
  pub handled : task.handlers sig ≡ handler
  pub custom : 2 ≤ handler
  pub quiet : (j : ℕ) → first ≤ j → j < sig → IsQuiet task j

IsQuiet-drop :
    (m : Machine) (t i j : ℕ)
    → i ≢ j
    → IsQuiet (m.sched.tasks t) i
    → IsQuiet ((drop_signal m t j).sched.tasks t) i
unfolding lowered
IsQuiet-drop m t i j n (inl q) =
    inl (ap (λ g. g i) (drop_signal-task m t j).2 ∙ ground (arith, n, q))
IsQuiet-drop m t i j n (inr (inl q)) = inr (inl (ap (λ g. g i) (drop_signal-task m t j).1 ∙ q))
IsQuiet-drop m t i j n (inr (inr q)) = inr (inr (ap (λ g. g i) (drop_signal-task m t j).0 ∙ q))

IsDue-next :
    (task : Task) (sig handler j : ℕ) → IsDue task sig handler j → IsDue task sig handler (j + 1)
IsDue-next task sig handler j d = record {
  pending = d.pending;
  open_ = d.open_;
  handled = d.handled;
  custom = d.custom;
  quiet = λ i a b. d.quiet i (omega (arith, a)) b;
}

IsDue-drop :
    (m : Machine) (t sig handler j : ℕ)
    → j < sig
    → IsDue (m.sched.tasks t) sig handler j
    → IsDue ((drop_signal m t j).sched.tasks t) sig handler (j + 1)
unfolding lowered
IsDue-drop m t sig handler j l d =
    let (same_handlers, same_blocked, left) = drop_signal-task m t j in
    record {
      pending = ap (λ g. g sig) left ∙ ground (arith, l, d.pending);
      open_ = ap (λ g. g sig) same_blocked ∙ d.open_;
      handled = ap (λ g. g sig) same_handlers ∙ d.handled;
      custom = d.custom;
      quiet = λ i a b.
          IsQuiet-drop m t i j (λ e. ground (arith, a, e)) (d.quiet i (omega (arith, a)) b);
    }

deliver_from-due :
    (n : ℕ) (m : Machine) (t first sig handler : ℕ)
    → sig ≡ first
    → IsDue (m.sched.tasks t) sig handler first
    → 0x1000 ≤ usp_below m.regs.user_rsp
    → deliver_from (suc n) m t first ≡ enter_handler m t sig (usp_below m.regs.user_rsp)
unfolding deliver_from
deliver_from-due n m t first sig handler e d u =
    rw (sym e) (ground (arith, d.pending, d.open_, d.handled, d.custom, u))

deliver_from-quiet :
    (n : ℕ) (m : Machine) (t j : ℕ)
    → IsQuiet (m.sched.tasks t) j
    → (deliver_from (suc n) m t j ≡ deliver_from n m t (j + 1))
      ⊎ (deliver_from (suc n) m t j ≡ deliver_from n (drop_signal m t j) t (j + 1))
unfolding deliver_from
deliver_from-quiet n m t j (inl q) = inl (ground (arith, q))
deliver_from-quiet n m t j (inr (inl q)) = inl (ground (arith, q))
deliver_from-quiet n m t j (inr (inr q)) = ground (arith, q)

enter_handler-Entered :
    (m : Machine) (t sig handler : ℕ)
    → (m.sched.tasks t).handlers sig ≡ handler
    → Entered m sig handler (enter_handler m t sig (usp_below m.regs.user_rsp))
unfolding enter_handler
enter_handler-Entered m t sig handler e = record { current = refl; regs = rw e refl; words = refl }

drop_signal-Entered :
    (m called : Machine) (t j sig handler : ℕ)
    → Entered (drop_signal m t j) sig handler called
    → Entered m sig handler called
unfolding drop_signal
drop_signal-Entered m called t j sig handler e = record {
  current = e.current;
  regs = e.regs;
  words = e.words;
}

drop_signal-usp :
    (m : Machine) (t j : ℕ)
    → 0x1000 ≤ usp_below m.regs.user_rsp
    → 0x1000 ≤ usp_below (drop_signal m t j).regs.user_rsp
unfolding drop_signal
drop_signal-usp m t j u = u

deliver_from-Entered :
    (n : ℕ) (m : Machine) (t first sig handler : ℕ)
    → first ≤ sig
    → sig < first + n
    → IsDue (m.sched.tasks t) sig handler first
    → 0x1000 ≤ usp_below m.regs.user_rsp
    → Entered m sig handler (deliver_from n m t first)
deliver_from-Entered zero m t first sig handler a b d u = absurd (omega (arith, a, b))
deliver_from-Entered (suc n) m t first sig handler a b d u = elim (Bool-cases (first == sig)) [
  | inl e ↦
      let same : sig ≡ first = ground (arith, e) in
      rw (deliver_from-due n m t first sig handler same d u)
        (enter_handler-Entered m t sig handler d.handled)
  | inr e ↦
      let less : first < sig = ground (arith, a, e) in
      elim (deliver_from-quiet n m t first (d.quiet first (omega arith) less)) [
        | inl skip ↦ rw skip (
            deliver_from-Entered n m t (first + 1) sig handler (omega (arith, less))
              (omega (arith, b)) (IsDue-next _ sig handler first d) u)
        | inr drop ↦ rw drop (
            drop_signal-Entered m _ t first sig handler (
              deliver_from-Entered n (drop_signal m t first) t (first + 1) sig handler
                (omega (arith, less)) (omega (arith, b)) (IsDue-drop m t sig handler first less d)
                (drop_signal-usp m t first u)))
      ]
]

-- the frame of a program in user mode, with room on its stack
pub record IsUserFrame (r : Registers) : Type 0 where
  pub rip_low : 0x1000 ≤ r.rip
  pub rip_high : r.rip ≤ user_end
  pub cs : (r.cs ≡ 0x23) ⊎ (r.cs ≡ 0x1B)
  pub ss : (r.ss ≡ 0x2B) ⊎ (r.ss ≡ 0x23)
  pub room : 0x1038 ≤ r.user_rsp
  pub rsp_high : r.user_rsp ≤ user_end

push_frame-words :
    (words : ℕ → ℕ) (usp sig : ℕ) (r : Registers)
    → let frame = word_at (push_frame words usp sig r) usp in
      (frame 0 ≡ sig)
      × (frame 1 ≡ r.rip)
      × (frame 2 ≡ r.cs)
      × (frame 3 ≡ r.rflags)
      × (frame 4 ≡ r.user_rsp)
      × (frame 5 ≡ r.ss)
unfolding push_frame
push_frame-words words usp sig r =
    (ground arith, ground arith, ground arith, ground arith, ground arith, ground arith)

usp_below-room : (r : Registers) → IsUserFrame r → 0x1000 ≤ usp_below r.user_rsp
unfolding usp_below
usp_below-room r u = omega (arith, u.room, u.rsp_high)

masked_flags-IsOff : (flags : ℕ) → masked_flags flags / 512 % 2 ≡ 0
unfolding masked_flags
masked_flags-IsOff flags = omega arith

pending-not_clear : (m : Signals) (sig : ℕ) → sig < nsig → m sig ≡ true → is_clear m ≡ false
unfolding is_clear
pending-not_clear m sig l p = elim (Bool-cases (is_clear m)) [
  | inl e ↦ let off = each_under-true (λ i. not (m i)) nsig sig l e in ground (arith, p, off)
  | inr e ↦ e
]

deliver_signals-raised :
    (m : Machine) (t : ℕ)
    → m.sched.current ≡ some t
    → is_clear (m.sched.tasks t).sig_pending ≡ false
    → deliver_signals m ≡ deliver_from 31 m t 1
unfolding deliver_signals
deliver_signals-raised m t c r = ground (arith, c, r)

deliver_signals-Entered :
    (m : Machine) (t sig handler : ℕ)
    → m.sched.current ≡ some t
    → 1 ≤ sig
    → sig < nsig
    → IsDue (m.sched.tasks t) sig handler 1
    → IsUserFrame m.regs
    → Entered m sig handler (deliver_signals m)
deliver_signals-Entered m t sig handler c a b d u =
    let raised = pending-not_clear (m.sched.tasks t).sig_pending sig b d.pending in
    rw (deliver_signals-raised m t c raised)
      (deliver_from-Entered 31 m t 1 sig handler a (omega (arith, b)) d (usp_below-room m.regs u))

is_user_frame-true :
    (r : Registers) → IsUserFrame r → is_user_frame r.rip r.cs r.user_rsp r.ss ≡ true
unfolding is_user_frame is_user_address
is_user_frame-true r u = ground (arith, u.rip_low, u.rip_high, u.cs, u.ss, u.room, u.rsp_high)

-- What the program has after the return from the handler that was called for `sig`.
pub record Returned (before : Registers) (sig : ℕ) (after : Machine × Bool) : Type 0 where
  pub succeeds : after.1 ≡ true
  pub rip : after.0.regs.rip ≡ before.rip
  pub cs : after.0.regs.cs ≡ before.cs
  pub user_rsp : after.0.regs.user_rsp ≡ before.user_rsp
  pub ss : after.0.regs.ss ≡ before.ss
  pub interrupts_off : after.0.regs.rflags / 512 % 2 ≡ 0
  pub rax : after.0.regs.rax ≡ sig
  pub rdi : after.0.regs.rdi ≡ sig

sigreturn-Entered :
    (m called : Machine) (t sig handler : ℕ)
    → m.sched.current ≡ some t
    → IsUserFrame m.regs
    → Entered m sig handler called
    → Returned m.regs sig (sigreturn called)
unfolding sigreturn
sigreturn-Entered m called t sig handler c u e =
    let at : called.sched.current ≡ some t = e.current ∙ c in
    let (f0, f1, f2, f3, f4, f5) =
      push_frame-words m.words (usp_below m.regs.user_rsp) sig m.regs in
    rw (at, e.regs, e.words, f0, f1, f2, f3, f4, f5, is_user_frame-true m.regs u)
      (record {
        succeeds = refl;
        rip = refl;
        cs = refl;
        user_rsp = refl;
        ss = refl;
        interrupts_off = masked_flags-IsOff m.regs.rflags;
        rax = refl;
        rdi = refl;
      })

-- A raised signal from 1 to 31 that is not blocked, with a handler of the program's own, no earlier
-- signal to deliver and room on the stack of a program in user mode: its handler is called with the
-- number in rdi. A sigreturn from that state, with stack and memory as they are, succeeds and takes
-- the program back to the instruction, the stack and the segments at which it was interrupted;
-- interrupts are then off, and rax and rdi hold the number of the signal.
pub sigreturn-deliver_signals :
    (m : Machine) (t sig handler : ℕ)
    → m.sched.current ≡ some t
    → 1 ≤ sig
    → sig < nsig
    → IsDue (m.sched.tasks t) sig handler 1
    → IsUserFrame m.regs
    → let called = deliver_signals m in
      (called.regs.rip ≡ handler) × (called.regs.rdi ≡ sig) × Returned m.regs sig (sigreturn called)
sigreturn-deliver_signals m t sig handler c a b d u =
    let e = deliver_signals-Entered m t sig handler c a b d u in
    (
      ap (λ r. r.rip) e.regs,
      ap (λ r. r.rdi) e.regs,
      sigreturn-Entered m (deliver_signals m) t sig handler c u e,
    )
