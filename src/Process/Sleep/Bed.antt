-- ===== src/Process/Sleep/Bed.antt =====
-- What `sleep_enqueue` does to the queues.
use elitra_os.Base.{ℕ, ◌≡◌, ◌≢◌, refl, sym, true, false, none, List, [], ◌∷◌, arith}
use elitra_os.Process.Task.{Scheduler}
use elitra_os.Process.Ready.Chain.{has, Chain-frame, clash}
use elitra_os.Process.Ready.Fifo.{Holds}
use elitra_os.Process.Sleep.{sleep_enqueue}
use elitra_os.Process.Sleep.Wake.{Asleep, due, still}

pub due-ext :
    (u u' : ℕ → ℕ) (now : ℕ) (zs : List ℕ)
    → ((x : ℕ) → has x zs ≡ true → u' x ≡ u x)
    → (due u' now zs ≡ due u now zs) × (still u' now zs ≡ still u now zs)
due-ext u u' now [] same = (refl, refl)
due-ext u u' now (z ∷ zs) same =
    let e : u' z ≡ u z = same z (ground arith) in
    let (d, l) = due-ext u u' now zs (λ x h. same x (ground (arith, h))) in
    rw (e, d, l) (refl, refl)

-- a task that is put to sleep, and the others
pub sleep_enqueue-other :
    (s : Scheduler) (t target x : ℕ) (ts : List ℕ)
    → has t ts ≡ false
    → has x ts ≡ true
    → (((sleep_enqueue s t target).tasks x).next ≡ (s.tasks x).next)
      × (((sleep_enqueue s t target).tasks x).sleep_until ≡ (s.tasks x).sleep_until)
unfolding sleep_enqueue
sleep_enqueue-other s t target x ts out h =
    let ne : x ≢ t = λ e. clash t x ts (sym e) out h in (ground (arith, ne), ground (arith, ne))

pub sleep_enqueue-own :
    (s : Scheduler) (t target : ℕ)
    → (((sleep_enqueue s t target).tasks t).next ≡ s.sleep_head)
      × (((sleep_enqueue s t target).tasks t).sleep_until ≡ target)
unfolding sleep_enqueue
sleep_enqueue-own s t target = (ground arith, ground arith)

pub sleep_enqueue-Holds :
    (s : Scheduler) (t target : ℕ) (q : List ℕ)
    → Holds s q
    → has t q ≡ false
    → Holds (sleep_enqueue s t target) q
unfolding sleep_enqueue
sleep_enqueue-Holds s t target q v out = record {
  chain =
      Chain-frame s.tasks (sleep_enqueue s t target).tasks s.head q none
        (λ x h. (sleep_enqueue-other s t target x q out h).0) v.chain;
  tail = v.tail;
  distinct = v.distinct;
}

pub sleep_enqueue-Asleep :
    (s : Scheduler) (t target : ℕ) (zs : List ℕ)
    → Asleep s zs
    → has t zs ≡ false
    → Asleep (sleep_enqueue s t target) (t ∷ zs)
unfolding sleep_enqueue
sleep_enqueue-Asleep s t target zs a out = record {
  chain = (
    refl,
    rw ((sleep_enqueue-own s t target).0) (
        Chain-frame s.tasks (sleep_enqueue s t target).tasks s.sleep_head zs none
          (λ x h. (sleep_enqueue-other s t target x zs out h).0) a.chain),
  );
  count = ground (arith, a.count);
}
