-- ===== src/Process/Ready/Frame.antt =====
-- What `enqueue` leaves as it is.
use elitra_os.Base.{ℕ, ◌≡◌, ◌≢◌, ◌∙◌, true, false, some, List, [], ◌∷◌, arith}
use elitra_os.Process.Task.{Scheduler}
use elitra_os.Process.Ready.{enqueue}
use elitra_os.Process.Ready.Chain.{has, has-last, clash}
use elitra_os.Process.Ready.Fifo.{Holds, some-last}

-- Putting a task into the ready queue leaves the pointers of the tasks outside of it.
pub enqueue-next :
    (s : Scheduler) (t : ℕ) (q : List ℕ) (x : ℕ)
    → Holds s q
    → x ≢ t
    → has x q ≡ false
    → ((enqueue s t).tasks x).next ≡ (s.tasks x).next
unfolding enqueue
enqueue-next s t [] x v n h = ground (arith, v.chain, n)
enqueue-next s t (y ∷ q) x v n h =
    let (l, e) = some-last y q in
    let l_in : has l (y ∷ q) ≡ true = has-last (y ∷ q) l e in
    let ne : x ≢ l = λ g. clash x l (y ∷ q) g h l_in in
    let at_end : s.tail ≡ some l = v.tail ∙ e in ground (arith, v.chain.0, at_end, n, ne)

pub enqueue-until :
    (s : Scheduler) (t x : ℕ) → ((enqueue s t).tasks x).sleep_until ≡ (s.tasks x).sleep_until
unfolding enqueue
enqueue-until s t x = ground arith

pub enqueue-head : (s : Scheduler) (t : ℕ) → (enqueue s t).sleep_head ≡ s.sleep_head
unfolding enqueue
enqueue-head s t = ground arith

pub enqueue-count : (s : Scheduler) (t : ℕ) → (enqueue s t).sleep_count ≡ s.sleep_count
unfolding enqueue
enqueue-count s t = ground arith
