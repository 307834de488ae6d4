-- ===== src/Process/Sleep/Wake.antt =====
-- Waking the sleepers that are due (`sleep_wake_all`).
use elitra_os.Base.{
  ℕ, zero, suc, ◌+◌, ◌≤◌, ◌≡◌, ◌≢◌, ◌∙◌, refl, sym, true, false, Option, none, some, List, [], ◌∷◌,
  ◌++◌, length, length-append, arith, if◌then◌else◌, leb, Bool-cases, inl, inr,
}
use mathlib.Core.List.{append-nil, append_assoc}
use elitra_os.Process.Task.{Tasks, Scheduler, TaskState, max_tasks, write, set_next}
use elitra_os.Process.Ready.{enqueue}
use elitra_os.Process.Ready.Chain.{
  has, Distinct, Chain, last, Chain-frame, Chain-append, has-last, clash,
}
use elitra_os.Process.Ready.Fifo.{Holds, enqueue-Holds, some-last}
use elitra_os.Process.Ready.Frame.{enqueue-next, enqueue-until, enqueue-head, enqueue-count}
use elitra_os.Process.Ready.Occ.{occ, occ-append, has-occ, occ-has, occ-Distinct}
use elitra_os.Process.Sleep.{wake_task, wake_from, sleep_wake_all}

-- the pointer at the end of a chain changed
Chain-relink :
    (tasks : Tasks) (h x y : Option ℕ) (ps : List ℕ) (p : ℕ)
    → Chain tasks h ps x
    → last ps ≡ some p
    → Distinct ps
    → Chain (set_next tasks p y) h ps y
Chain-relink tasks h x y [] p c e d = cc
Chain-relink tasks h x y (a ∷ []) p c e d = ground (arith, c, e)
Chain-relink tasks h x y (a ∷ b ∷ ps) p c e d =
    let p_in : has p (b ∷ ps) ≡ true = has-last (b ∷ ps) p e in
    let ne : a ≢ p = λ g. clash a p (b ∷ ps) g d.0 p_in in
    let kept : (set_next tasks p y a).next ≡ (tasks a).next = ground (arith, ne) in
    (c.0, rw kept (Chain-relink tasks (tasks a).next x y (b ∷ ps) p c.1 e d.1))

-- Those of a list of sleepers that are due, and the others.
abbrev pub due : (ℕ → ℕ) → ℕ → List ℕ → List ℕ
due until now [] = []
due until now (t ∷ ts) = if leb (until t) now then t ∷ due until now ts else due until now ts

abbrev pub still : (ℕ → ℕ) → ℕ → List ℕ → List ℕ
still until now [] = []
still until now (t ∷ ts) = if leb (until t) now then still until now ts else t ∷ still until now ts

-- Where the walk over the sleep queue stands: `q` are ready, `ps` passed, `cs` to come.
record Walk (s : Scheduler) (q ps cs : List ℕ) (prev curr : Option ℕ) (until : ℕ → ℕ) : Type 0 where
  ready : Holds s q
  front : Chain s.tasks s.sleep_head ps curr
  rest : Chain s.tasks curr cs none
  behind : prev ≡ last ps
  times : (t : ℕ) → has t cs ≡ true → (s.tasks t).sleep_until ≡ until t
  once : (t : ℕ) → occ t q + (occ t ps + occ t cs) ≤ 1
  count : s.sleep_count ≡ length ps + length cs

last-append : (ps : List ℕ) (c : ℕ) → last (ps ++ (c ∷ [])) ≡ some c
last-append [] c = refl
last-append (x ∷ []) c = refl
last-append (x ∷ y ∷ ps) c = last-append (y ∷ ps) c

-- A task that is not due is passed.
Walk-kept :
    (s : Scheduler) (q ps cs : List ℕ) (prev : Option ℕ) (c : ℕ) (until : ℕ → ℕ)
    → Walk s q ps (c ∷ cs) prev (some c) until
    → Walk s q (ps ++ (c ∷ [])) cs (some c) (s.tasks c).next until
Walk-kept s q ps cs prev c until w = record {
  ready = w.ready;
  front =
      Chain-append s.tasks s.sleep_head (some c) (s.tasks c).next ps (c ∷ []) w.front (refl, refl);
  rest = w.rest.1;
  behind = sym (last-append ps c);
  times = λ t h. w.times t (ground (arith, h));
  once = λ t. ground (arith, w.once t, occ-append t ps (c ∷ []));
  count = ground (arith, w.count, length-append ps (c ∷ []));
}

-- A task that is due, made ready and put into the ready queue.
abbrev made_ready : Scheduler → ℕ → Scheduler
made_ready s c = record s {
  tasks =
      write s.tasks c
        (record (s.tasks c) { state = TaskState.ready; sleep_until = 0; next = none });
}

made_ready-Queue :
    (s : Scheduler) (c : ℕ) (q : List ℕ) → Holds s q → has c q ≡ false → Holds (made_ready s c) q
made_ready-Queue s c q v h = record {
  chain = Chain-frame s.tasks (made_ready s c).tasks s.head q none apart v.chain;
  tail = v.tail;
  distinct = v.distinct;
}
  where
    apart : (x : ℕ) → has x q ≡ true → ((made_ready s c).tasks x).next ≡ (s.tasks x).next
    apart x g = let ne : c ≢ x = λ e. clash c x q e h g in ground (arith, ne)

made_ready-Holds :
    (s : Scheduler) (c : ℕ) (q : List ℕ)
    → Holds s q
    → has c q ≡ false
    → Holds (enqueue (made_ready s c) c) (q ++ (c ∷ []))
made_ready-Holds s c q v h = enqueue-Holds (made_ready s c) c q (made_ready-Queue s c q v h) h

-- The task `c` is now ready; nothing else has changed but the queue it is in.
made_ready-next :
    (s : Scheduler) (c x : ℕ) (q : List ℕ)
    → Holds s q
    → has c q ≡ false
    → x ≢ c
    → has x q ≡ false
    → ((enqueue (made_ready s c) c).tasks x).next ≡ (s.tasks x).next
made_ready-next s c x q v h n g =
    rw (enqueue-next (made_ready s c) c q x (made_ready-Queue s c q v h) n g) (ground (arith, n))

made_ready-until :
    (s : Scheduler) (c x : ℕ)
    → x ≢ c
    → ((enqueue (made_ready s c) c).tasks x).sleep_until ≡ (s.tasks x).sleep_until
made_ready-until s c x n = rw (enqueue-until (made_ready s c) c x) (ground (arith, n))

once_not : (c x : ℕ) (cs : List ℕ) → has x cs ≡ true → occ x (c ∷ cs) ≤ 1 → x ≢ c
once_not c x cs h o e = ground (arith, has-occ x cs h, e, o)

module _ (s : Scheduler) (q ps cs : List ℕ) (prev : Option ℕ) (c : ℕ) (until : ℕ → ℕ)
    (w : Walk s q ps (c ∷ cs) prev (some c) until) where
  woken_out : has c q ≡ false
  woken_out = occ-has c q (ground (arith, w.once c))

  woken_Holds : Holds (enqueue (made_ready s c) c) (q ++ (c ∷ []))
  woken_Holds = made_ready-Holds s c q w.ready woken_out

  rest_not : (x : ℕ) → has x cs ≡ true → x ≢ c
  rest_not x h = once_not c x cs h (ground (arith, w.once x))

  rest_out : (x : ℕ) → has x cs ≡ true → has x q ≡ false
  rest_out x h = occ-has x q (ground (arith, w.once x, has-occ x cs h))

  rest_next :
      (x : ℕ) → has x cs ≡ true → ((enqueue (made_ready s c) c).tasks x).next ≡ (s.tasks x).next
  rest_next x h = made_ready-next s c x q w.ready woken_out (rest_not x h) (rest_out x h)

  rest_until :
      (x : ℕ) → has x cs ≡ true → ((enqueue (made_ready s c) c).tasks x).sleep_until ≡ until x
  rest_until x h = made_ready-until s c x (rest_not x h) ∙ w.times x (ground (arith, h))

  woken_once : (t : ℕ) → occ t (q ++ (c ∷ [])) + (occ t ps + occ t cs) ≤ 1
  woken_once t = ground (arith, w.once t, occ-append t q (c ∷ []))

  passed_not : (x : ℕ) → has x ps ≡ true → x ≢ c
  passed_not x h e = ground (arith, has-occ x ps h, w.once x, e)

  passed_next :
      (x : ℕ) → has x ps ≡ true → ((enqueue (made_ready s c) c).tasks x).next ≡ (s.tasks x).next
  passed_next x h =
      made_ready-next s c x q w.ready woken_out (passed_not x h)
        (occ-has x q (ground (arith, w.once x, has-occ x ps h)))

last-has : (ps : List ℕ) (p : ℕ) → some p ≡ last ps → has p ps ≡ true
last-has ps p e = has-last ps p (sym e)

last-none : (ps : List ℕ) → none ≡ last ps → ps ≡ []
last-none [] e = refl
last-none (x ∷ ps) e = let (l, g) = some-last x ps in cc

set_next-until :
    (tasks : Tasks) (p x : ℕ) (n : Option ℕ)
    → (set_next tasks p n x).sleep_until ≡ (tasks x).sleep_until
set_next-until tasks p x n = ground arith

Walk-woken :
    (s : Scheduler) (q ps cs : List ℕ) (prev : Option ℕ) (c : ℕ) (until : ℕ → ℕ)
    → Walk s q ps (c ∷ cs) prev (some c) until
    → Walk (wake_task s c prev (s.tasks c).next) (q ++ (c ∷ [])) ps cs prev (s.tasks c).next until
unfolding wake_task
Walk-woken s q ps cs none c until w =
    let made = woken_Holds s q ps cs none c until w in
    let e = enqueue (made_ready s c) c in
    record {
      ready = record { chain = made.chain; tail = made.tail; distinct = made.distinct };
      front = rw (last-none ps w.behind) refl;
      rest =
          Chain-frame s.tasks e.tasks (s.tasks c).next cs none (rest_next s q ps cs none c until w)
            w.rest.1;
      behind = w.behind;
      times = rest_until s q ps cs none c until w;
      once = woken_once s q ps cs none c until w;
      count = ground (arith, w.count, enqueue-count (made_ready s c) c);
    }
Walk-woken s q ps cs (some p) c until w =
    let made = woken_Holds s q ps cs (some p) c until w in
    let e = enqueue (made_ready s c) c in
    let e' = set_next e.tasks p (s.tasks c).next in
    let once = woken_once s q ps cs (some p) c until w in
    let p_once : 1 ≤ occ p ps = has-occ p ps (last-has ps p w.behind) in
    let ready_kept : (x : ℕ) → has x (q ++ (c ∷ [])) ≡ true → (e' x).next ≡ (e.tasks x).next =
      λ x h.
        let ne : x ≢ p = λ g. ground (arith, has-occ x (q ++ (c ∷ [])) h, p_once, g, once p) in
        ground (arith, ne) in
    let rest_kept : (x : ℕ) → has x cs ≡ true → (e' x).next ≡ (s.tasks x).next = λ x h.
      let ne : x ≢ p = λ g. ground (arith, has-occ x cs h, p_once, g, once p) in
      let kept : (e' x).next ≡ (e.tasks x).next = ground (arith, ne) in
      kept ∙ rest_next s q ps cs (some p) c until w x h in
    record {
      ready = record {
        chain = Chain-frame e.tasks e' e.head (q ++ (c ∷ [])) none ready_kept made.chain;
        tail = made.tail;
        distinct = made.distinct;
      };
      front = rw (enqueue-head (made_ready s c) c) (
          Chain-relink e.tasks s.sleep_head (some c) (s.tasks c).next ps p
            (Chain-frame s.tasks e.tasks s.sleep_head ps (some c)
              (passed_next s q ps cs (some p) c until w) w.front)
            (sym w.behind) (occ-Distinct ps (λ t. ground (arith, once t))));
      rest = Chain-frame s.tasks e' (s.tasks c).next cs none rest_kept w.rest.1;
      behind = w.behind;
      times = λ x h.
          set_next-until e.tasks p x (s.tasks c).next ∙ rest_until s q ps cs (some p) c until w x h;
      once = once;
      count = ground (arith, w.count, enqueue-count (made_ready s c) c);
    }

-- The sleep queue holds these tasks, and counts them.
pub record Asleep (s : Scheduler) (zs : List ℕ) : Type 0 where
  pub chain : Chain s.tasks s.sleep_head zs none
  pub count : s.sleep_count ≡ length zs

Walk-end :
    (s : Scheduler) (q ps : List ℕ) (prev curr : Option ℕ) (until : ℕ → ℕ)
    → Walk s q ps [] prev curr until
    → Holds s (q ++ []) × Asleep s (ps ++ [])
Walk-end s q ps prev curr until w =
    rw (append-nil q, append-nil ps)
      (w.ready, record { chain = rw (sym w.rest) w.front; count = ground (arith, w.count) })

wake_from-Walk :
    (fuel now : ℕ) (s : Scheduler) (q ps cs : List ℕ) (prev curr : Option ℕ) (until : ℕ → ℕ)
    → length cs ≤ fuel
    → Walk s q ps cs prev curr until
    → Holds (wake_from fuel now s prev curr) (q ++ due until now cs)
      × Asleep (wake_from fuel now s prev curr) (ps ++ still until now cs)
unfolding wake_from
wake_from-Walk zero now s q ps [] prev curr until l w = Walk-end s q ps prev curr until w
wake_from-Walk zero now s q ps (c ∷ cs) prev curr until l w = ground (arith, l)
wake_from-Walk (suc fuel) now s q ps [] prev curr until l w =
    rw (w.rest) (Walk-end s q ps prev curr until w)
wake_from-Walk (suc fuel) now s q ps (c ∷ cs) prev curr until l w =
    let at : Walk s q ps (c ∷ cs) prev (some c) until = rw (sym (w.rest.0)) w in
    let next = (s.tasks c).next in
    let woken =
      wake_from-Walk fuel now (wake_task s c prev next) (q ++ (c ∷ [])) ps cs prev next until
        (omega (arith, l)) (Walk-woken s q ps cs prev c until at) in
    let kept =
      wake_from-Walk fuel now s q (ps ++ (c ∷ [])) cs (some c) next until (omega (arith, l))
        (Walk-kept s q ps cs prev c until at) in
    let e : (s.tasks c).sleep_until ≡ until c = w.times c (ground arith) in
    elim (Bool-cases (leb (until c) now)) [
      | inl b ↦ rw (w.rest.0, e, b, sym (append_assoc q (c ∷ []) (due until now cs))) woken
      | inr b ↦ rw (w.rest.0, e, b, sym (append_assoc ps (c ∷ []) (still until now cs))) kept
    ]

-- Where no task is in the two queues twice and at most 128 tasks sleep, waking puts the sleepers
-- that are due at the end of the ready queue, in the order in which they stand in the sleep queue;
-- the others stay asleep in their order, and are counted.
pub sleep_wake_all_lem :
    (now : ℕ) (s : Scheduler) (q zs : List ℕ)
    → Holds s q
    → Asleep s zs
    → ((t : ℕ) → occ t q + occ t zs ≤ 1)
    → length zs ≤ max_tasks
    → Holds (sleep_wake_all now s) (q ++ due (λ t. (s.tasks t).sleep_until) now zs)
      × Asleep (sleep_wake_all now s) (still (λ t. (s.tasks t).sleep_until) now zs)
unfolding sleep_wake_all
sleep_wake_all_lem now s q zs v a once l =
    wake_from-Walk max_tasks now s q [] zs none s.sleep_head (λ t. (s.tasks t).sleep_until) l
      (record {
        ready = v;
        front = refl;
        rest = a.chain;
        behind = refl;
        times = λ t h. refl;
        once = λ t. omega (arith, once t);
        count = ground (arith, a.count);
      })
