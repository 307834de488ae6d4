-- ===== src/Process/Family/Any.antt =====
-- Waiting for any child (`krust_sched_waitpid_flags` with -1, kernel/src/process/scheduler.rs).
use elitra_os.Base.{
  ℕ, zero, suc, ◌≡◌, ◌≢◌, ◌≤◌, ◌<◌, refl, sym, Bool, true, false, none, some, List, [], ◌∷◌, length,
  arith, ◌⊎◌, if◌then◌else◌, Bool-cases, Option-cases, inl, inr,
}
use elitra_os.Util.Klib.{negsuc}
use elitra_os.Process.Task.{Scheduler, TaskState, max_tasks, is_exited}
use elitra_os.Process.Ready.Chain.{has, clash}
use elitra_os.Process.Family.{
  Wait, refused, no_child_yet, waits, reaped, reap, set_state, wait_turn, wait_for, wait_any,
  waitpid_flags,
}
use elitra_os.Process.Family.Reap.{
  IsFamily, Reaped, reap-Reaped, set_state-IsFamily, first_exited, find_exited-first,
  first_exited-IsExited, first_exited-none,
}
use elitra_os.Process.Family.Children.{HasChildren}

-- While the task yields, its children stay its children.
abbrev pub IsQuiet : (ℕ → Scheduler → Scheduler) → ℕ → List ℕ → Type 0
IsQuiet yields p cs = (k : ℕ) (u : Scheduler) → IsFamily u p cs → IsFamily (yields k u) p cs

-- The scheduler after `n` turns, from the `k`-th: in each the task is WAITING while it yields and
-- RUNNING after that.
abbrev pub waited : (ℕ → Scheduler → Scheduler) → ℕ → ℕ → ℕ → Scheduler → Scheduler
waited yields p k zero s = s
waited yields p k (suc n) s =
    waited yields p (suc k) n
      (set_state (yields k (set_state s p TaskState.waiting)) p TaskState.running)

abbrev pub has_ended : Scheduler → ℕ → Bool
has_ended s c = is_exited (s.tasks c).state

-- What a call that has to wait for `h` comes to, by the `turns`-th turn: `h` is reaped in the first
-- turn in which it has ended, or it has not ended yet.
abbrev pub Blocked :
    (ℕ → Scheduler → Scheduler) → ℕ → ℕ → List ℕ → ℕ → ℕ → Scheduler → Scheduler × Wait → Type 0
Blocked yields p h cs k turns s (s', answer) =
    ((n : ℕ) × (n ≤ turns)
      × ((j : ℕ) → j < n → has_ended (waited yields p k j s) h ≡ false)
      × (has_ended (waited yields p k n s) h ≡ true)
      × (answer ≡ reaped ((waited yields p k n s).tasks h).exit_code)
      × Reaped s' (waited yields p k n s) p h cs)
    ⊎ (((j : ℕ) → j ≤ turns → has_ended (waited yields p k j s) h ≡ false)
        × (answer ≡ waits h)
        × (s' ≡ waited yields p k turns s))

-- What a call comes to that finds no child that has ended.
abbrev pub NoneEnded :
    Bool → (ℕ → Scheduler → Scheduler) → ℕ → ℕ → List ℕ → ℕ → Scheduler → Scheduler × Wait → Type 0
NoneEnded true yields p h cs turns s r = r ≡ (s, no_child_yet)
NoneEnded false yields p h cs turns s r = Blocked yields p h cs 0 turns s r

-- What waiting for any child comes to.
abbrev pub Waited :
    Bool → (ℕ → Scheduler → Scheduler) → ℕ → List ℕ → ℕ → Scheduler → Scheduler × Wait → Type 0
Waited wnohang yields p [] turns s r = r ≡ (s, if wnohang then no_child_yet else refused)
Waited wnohang yields p (h ∷ cs) turns s r = elim (first_exited s.tasks (h ∷ cs)) [
  | none ↦ NoneEnded wnohang yields p h (h ∷ cs) turns s r
  | some c ↦ Reaped r.0 s p c (h ∷ cs) × (r.1 ≡ reaped (s.tasks c).exit_code)
]

wait_for-exited :
    (turns : ℕ) (yields : ℕ → Scheduler → Scheduler) (k : ℕ) (s : Scheduler) (p c : ℕ)
    (wnohang : Bool)
    → has_ended s c ≡ true
    → wait_for turns yields k s p wnohang c ≡ reap s p c
unfolding wait_for
wait_for-exited zero yields k s p c wnohang e = rw (wait_for, e) refl
wait_for-exited (suc turns) yields k s p c wnohang e = rw (wait_for, e) refl

wait_for-wnohang :
    (turns : ℕ) (yields : ℕ → Scheduler → Scheduler) (k : ℕ) (s : Scheduler) (p c : ℕ)
    → has_ended s c ≡ false
    → wait_for turns yields k s p true c ≡ (s, no_child_yet)
unfolding wait_for
wait_for-wnohang zero yields k s p c e = rw (wait_for, e) refl
wait_for-wnohang (suc turns) yields k s p c e = rw (wait_for, e) refl

-- the scheduler when the task runs again
abbrev turned : (ℕ → Scheduler → Scheduler) → ℕ → ℕ → Scheduler → Scheduler
turned yields p k s = set_state (yields k (set_state s p TaskState.waiting)) p TaskState.running

not_before :
    (yields : ℕ → Scheduler → Scheduler) (p h k n : ℕ) (s : Scheduler)
    → has_ended s h ≡ false
    → ((j : ℕ) → j < n → has_ended (waited yields p (suc k) j (turned yields p k s)) h ≡ false)
    → (j : ℕ) → j < suc n
    → has_ended (waited yields p k j s) h ≡ false
not_before yields p h k n s e before zero l = e
not_before yields p h k n s e before (suc j) l = before j (omega (arith, l))

Blocked-later :
    (yields : ℕ → Scheduler → Scheduler) (p h : ℕ) (cs : List ℕ) (k turns : ℕ) (s : Scheduler)
    (r : Scheduler × Wait)
    → has_ended s h ≡ false
    → Blocked yields p h cs (suc k) turns (turned yields p k s) r
    → Blocked yields p h cs k (suc turns) s r
Blocked-later yields p h cs k turns s r e (inl (n, l, before, ended, answer, done)) =
    inl (suc n, omega (arith, l), not_before yields p h k n s e before, ended, answer, done)
Blocked-later yields p h cs k turns s r e (inr (never, answer, kept)) = inr (
  λ j l.
      not_before yields p h k (suc turns) s e (λ i m. never i (omega (arith, m))) j
        (omega (arith, l)),
  answer,
  kept,
)

module _ (yields : ℕ → Scheduler → Scheduler) (p : ℕ) (cs : List ℕ) (quiet : IsQuiet yields p cs)
    (small : length cs ≤ max_tasks) (apart : has p cs ≡ false) where
  reap-ended :
      (s : Scheduler) (c : ℕ)
      → IsFamily s p cs
      → has c cs ≡ true
      → has_ended s c ≡ true
      → Reaped (reap s p c).0 s p c cs × ((reap s p c).1 ≡ reaped (s.tasks c).exit_code)
  reap-ended s c v inside ended =
      let ne : c ≢ p = λ g. clash p c cs (sym g) apart inside in
      reap-Reaped s p c cs v.children inside ne small ended (v.numbered c inside)

  wait_for-Blocked :
      (turns k : ℕ) (s : Scheduler) (h : ℕ)
      → IsFamily s p cs
      → has h cs ≡ true
      → Blocked yields p h cs k turns s (wait_for turns yields k s p false h)
  unfolding wait_for wait_turn
  wait_for-Blocked zero k s h v inside = elim (Bool-cases (has_ended s h)) [
    | inl e ↦
        let (done, answer) = reap-ended s h v inside e in
        rw (wait_for-exited zero yields k s p h false e)
          (inl (0, omega arith, λ j l. absurd (omega (arith, l)), e, answer, done))
    | inr e ↦
        let only_now : (j : ℕ) → j ≤ 0 → has_ended (waited yields p k j s) h ≡ false = λ j l.
          not_before yields p h k 0 s e (λ i m. absurd (omega (arith, m))) j (omega (arith, l)) in
        rw (wait_for, e) (inr (only_now, refl, refl))
  ]
  wait_for-Blocked (suc turns) k s h v inside = elim (Bool-cases (has_ended s h)) [
    | inl e ↦
        let (done, answer) = reap-ended s h v inside e in
        rw (wait_for-exited (suc turns) yields k s p h false e)
          (inl (0, omega arith, λ j l. absurd (omega (arith, l)), e, answer, done))
    | inr e ↦
        let marked : Scheduler = set_state s p TaskState.waiting in
        let still : IsFamily (turned yields p k s) p cs =
          set_state-IsFamily (yields k marked) p p TaskState.running cs
            (quiet k marked (set_state-IsFamily s p p TaskState.waiting cs v)) in
        let rest = wait_for-Blocked turns (suc k) (turned yields p k s) h still inside in
        rw (wait_for, e) (Blocked-later yields p h cs k turns s _ e rest)
  ]

wait_any-first :
    (turns : ℕ) (yields : ℕ → Scheduler → Scheduler) (s : Scheduler) (p h : ℕ) (cs : List ℕ)
    (wnohang : Bool)
    → HasChildren s.tasks p (h ∷ cs)
    → length (h ∷ cs) ≤ max_tasks
    → wait_any turns yields s p wnohang ≡ elim (first_exited s.tasks (h ∷ cs)) [
      | none ↦ wait_for turns yields 0 s p wnohang h
      | some c ↦ wait_for turns yields 0 s p wnohang c
    ]
unfolding wait_any
wait_any-first turns yields s p h cs wnohang v l =
    rw
      (
        wait_any,
        v.chain.0,
        find_exited-first max_tasks s.tasks (some h) (h ∷ cs) (refl, v.chain.1) l,
      )
      refl

wait_any-nobody :
    (turns : ℕ) (yields : ℕ → Scheduler → Scheduler) (s : Scheduler) (p : ℕ) (wnohang : Bool)
    → (s.tasks p).child_head ≡ none
    → wait_any turns yields s p wnohang ≡ (s, if wnohang then no_child_yet else refused)
unfolding wait_any
wait_any-nobody turns yields s p wnohang e = rw (wait_any, e) refl

wait_for-NoneEnded :
    (turns : ℕ) (yields : ℕ → Scheduler → Scheduler) (s : Scheduler) (p h : ℕ) (cs : List ℕ)
    (wnohang : Bool)
    → IsFamily s p (h ∷ cs)
    → has p (h ∷ cs) ≡ false
    → length (h ∷ cs) ≤ max_tasks
    → IsQuiet yields p (h ∷ cs)
    → has_ended s h ≡ false
    → NoneEnded wnohang yields p h (h ∷ cs) turns s (wait_for turns yields 0 s p wnohang h)
wait_for-NoneEnded turns yields s p h cs true v n l q e = wait_for-wnohang turns yields 0 s p h e
wait_for-NoneEnded turns yields s p h cs false v n l q e =
    wait_for-Blocked yields p (h ∷ cs) q l n turns 0 s h v (ground arith)

wait_any-Waited :
    (turns : ℕ) (yields : ℕ → Scheduler → Scheduler) (s : Scheduler) (p : ℕ) (cs : List ℕ)
    (wnohang : Bool)
    → IsFamily s p cs
    → has p cs ≡ false
    → length cs ≤ max_tasks
    → IsQuiet yields p cs
    → Waited wnohang yields p cs turns s (wait_any turns yields s p wnohang)
wait_any-Waited turns yields s p [] wnohang v n l q =
    wait_any-nobody turns yields s p wnohang v.children.chain
wait_any-Waited turns yields s p (h ∷ cs) wnohang v n l q =
    elim (Option-cases (first_exited s.tasks (h ∷ cs))) [
      | inl e ↦
          let alive = first_exited-none s.tasks h cs e in
          let rest = wait_for-NoneEnded turns yields s p h cs wnohang v n l q alive in
          rw (wait_any-first turns yields s p h cs wnohang v.children l, e) (rw (Waited, e) rest)
      | inr (c, e) ↦
          let (ended, inside) = first_exited-IsExited s.tasks (h ∷ cs) c e in
          let rest = reap-ended yields p (h ∷ cs) q l n s c v inside ended in
          rw
            (
              wait_any-first turns yields s p h cs wnohang v.children l,
              e,
              wait_for-exited turns yields 0 s p c wnohang ended,
            )
            (rw (Waited, e) rest)
    ]

waitpid-any :
    (turns : ℕ) (yields : ℕ → Scheduler → Scheduler) (s : Scheduler) (p : ℕ) (wnohang : Bool)
    → s.current ≡ some p
    → waitpid_flags turns yields s (negsuc 0) wnohang ≡ wait_any turns yields s p wnohang
unfolding waitpid_flags
waitpid-any turns yields s p wnohang e = simp (waitpid_flags, e) refl

-- Where the running task has a list of at most 128 children, itself not among them, each with its
-- place as its number and with room for the number, and they stay so while it yields: waiting for
-- any child reaps the first child in the list that has ended, and answers with its code. If none
-- has ended it changes nothing and returns 0 where it must not wait; else it waits for the first
-- child alone, WAITING while it yields and RUNNING after that, and reaps it in the first turn in
-- which it has ended, with its code then, or has not returned after all the turns. A child that is
-- reaped leaves the list, and its number comes back and is the next to be given out. Without
-- children the call changes nothing, and is refused, or returns 0 where it must not wait.
pub waitpid_flags-any :
    (turns : ℕ) (yields : ℕ → Scheduler → Scheduler) (s : Scheduler) (p : ℕ) (cs : List ℕ)
    (wnohang : Bool)
    → s.current ≡ some p
    → IsFamily s p cs
    → has p cs ≡ false
    → length cs ≤ max_tasks
    → IsQuiet yields p cs
    → Waited wnohang yields p cs turns s (waitpid_flags turns yields s (negsuc 0) wnohang)
waitpid_flags-any turns yields s p cs wnohang e v n l q =
    rw (waitpid-any turns yields s p wnohang e)
      (wait_any-Waited turns yields s p cs wnohang v n l q)
