-- ===== src/Process/Ready/Fifo.antt =====
-- The ready queue does what a queue of tasks does (`enqueue`, `dequeue`).
use elitra_os.Base.{
  ℕ, ◌≡◌, ◌≢◌, ◌∙◌, refl, ap, sym, true, false, Option, none, some, List, [], ◌∷◌, ◌++◌, arith,
}
use elitra_os.Process.Task.{Tasks, Scheduler, set_next}
use elitra_os.Process.Ready.{enqueue, dequeue}
use elitra_os.Process.Ready.Chain.{
  has, Distinct, Chain, last, Chain-frame, Chain-snoc, has-append, clash,
}

-- The queue holds these tasks, the first to run first.
pub record Holds (s : Scheduler) (q : List ℕ) : Type 0 where
  pub chain : Chain s.tasks s.head q none
  pub tail : s.tail ≡ last q
  pub distinct : Distinct q

pub last-snoc : (q : List ℕ) (t : ℕ) → last (q ++ (t ∷ [])) ≡ some t
last-snoc [] t = refl
last-snoc (x ∷ []) t = refl
last-snoc (x ∷ y ∷ q) t = last-snoc (y ∷ q) t

Distinct-snoc : (q : List ℕ) (t : ℕ) → has t q ≡ false → Distinct q → Distinct (q ++ (t ∷ []))
Distinct-snoc [] t h d = (refl, tt)
Distinct-snoc (x ∷ q) t h d =
    (ground (arith, has-append x q (t ∷ []), h, d.0), Distinct-snoc q t (ground (arith, h)) d.1)

pub some-last : (x : ℕ) (q : List ℕ) → (l : ℕ) × (last (x ∷ q) ≡ some l)
some-last x [] = (x, refl)
some-last x (y ∷ q) = some-last y q

-- A task that is not in the queue is put at its end.
pub enqueue-Holds :
    (s : Scheduler) (t : ℕ) (q : List ℕ)
    → Holds s q
    → has t q ≡ false
    → Holds (enqueue s t) (q ++ (t ∷ []))
unfolding enqueue
enqueue-Holds s t [] v h =
    let empty : s.head ≡ none = v.chain in
    rw empty (record { chain = (refl, ground arith); tail = refl; distinct = (refl, tt) })
enqueue-Holds s t (x ∷ q) v h =
    let full : s.head ≡ some x = v.chain.0 in
    let (l, e) = some-last x q in
    let at_end : s.tail ≡ some l = v.tail ∙ e in
    rw (full, at_end)
      (record {
        chain = Chain-snoc s.tasks (some x) (x ∷ q) l t (refl, v.chain.1) e v.distinct h;
        tail = sym (last-snoc (x ∷ q) t);
        distinct = Distinct-snoc (x ∷ q) t h v.distinct;
      })

pub dequeue-none : (s : Scheduler) → Holds s [] → dequeue s ≡ (s, none)
unfolding dequeue
dequeue-none s v = ground (arith, v.chain)

new_tail :
    (tasks : Tasks) (t : ℕ) (q : List ℕ) (tail : Option ℕ)
    → Chain tasks (tasks t).next q none
    → tail ≡ last (t ∷ q)
    → elim (tasks t).next [ none ↦ none | some n ↦ tail ] ≡ last q
new_tail tasks t [] tail c e = rw c refl
new_tail tasks t (x ∷ q) tail c e = rw (c.0) e

-- The first task is taken out.
pub dequeue-some :
    (s : Scheduler) (t : ℕ) (q : List ℕ)
    → Holds s (t ∷ q)
    → ((dequeue s).1 ≡ some t) × Holds (dequeue s).0 q
unfolding dequeue
dequeue-some s t q v =
    let full : s.head ≡ some t = v.chain.0 in
    rw full (
      refl,
      record {
        chain =
            Chain-frame s.tasks (set_next s.tasks t none) (s.tasks t).next q none (λ x h. apart x h)
              v.chain.1;
        tail = new_tail s.tasks t q s.tail v.chain.1 v.tail;
        distinct = v.distinct.1;
      },
    )
  where
    apart : (x : ℕ) → has x q ≡ true → (set_next s.tasks t none x).next ≡ (s.tasks x).next
    apart x h = let ne : t ≢ x = λ g. clash t x q g v.distinct.0 h in ground (arith, ne)

-- What a processor asks of the queue, and a queue of tasks as a list.
pub data Request : Type 0 where
  put : ℕ → Request
  get : Request

unfoldable pub run_queue : Scheduler → List Request → List (Option ℕ)
run_queue s [] = []
run_queue s (put t ∷ rs) = run_queue (enqueue s t) rs
run_queue s (get ∷ rs) = let (s', t) = dequeue s in t ∷ run_queue s' rs

unfoldable pub run_fifo : List ℕ → List Request → List (Option ℕ)
run_fifo q [] = []
run_fifo q (put t ∷ rs) = run_fifo (q ++ (t ∷ [])) rs
run_fifo [] (get ∷ rs) = none ∷ run_fifo [] rs
run_fifo (t ∷ q) (get ∷ rs) = some t ∷ run_fifo q rs

-- No task is put that is still in the queue.
abbrev pub IsFair : List ℕ → List Request → Type 0
IsFair q [] = Unit {0}
IsFair q (put t ∷ rs) = (has t q ≡ false) × IsFair (q ++ (t ∷ [])) rs
IsFair [] (get ∷ rs) = IsFair [] rs
IsFair (t ∷ q) (get ∷ rs) = IsFair q rs

-- Whatever is asked of it, as long as no task is put that is still in it, the ready queue over the
-- `next` pointers answers as a first-in first-out list of tasks does.
pub run_queue-run_fifo :
    (s : Scheduler) (q : List ℕ) (rs : List Request)
    → Holds s q
    → IsFair q rs
    → run_queue s rs ≡ run_fifo q rs
unfolding run_queue run_fifo
run_queue-run_fifo s q [] v f = refl
run_queue-run_fifo s q (put t ∷ rs) v f =
    run_queue-run_fifo (enqueue s t) (q ++ (t ∷ [])) rs (enqueue-Holds s t q v f.0) f.1
run_queue-run_fifo s [] (get ∷ rs) v f =
    rw (dequeue-none s v) (ap (λ r. none ∷ r) (run_queue-run_fifo s [] rs v f))
run_queue-run_fifo s (t ∷ q) (get ∷ rs) v f =
    let (out, rest) = dequeue-some s t q v in
    rw out (ap (λ r. some t ∷ r) (run_queue-run_fifo (dequeue s).0 q rs rest f))

-- Putting a task that is alone in the queue once more makes it its own successor.
pub enqueue_twice :
    (s : Scheduler) (t : ℕ) → Holds s [] → ((enqueue (enqueue s t) t).tasks t).next ≡ some t
unfolding enqueue
enqueue_twice s t v = ground (arith, v.chain)
