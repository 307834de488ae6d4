-- ===== src/Process/Ready/Chain.antt =====
-- Lists over the `next` pointers of tasks.
use elitra_os.Base.{
  ℕ, ◌≡◌, ◌≢◌, refl, Bool, true, false, ◌||◌, Option, none, some, List, [], ◌∷◌, ◌++◌, arith, ◌==◌,
}
use elitra_os.Process.Task.{Tasks, set_next}

abbrev pub has : ℕ → List ℕ → Bool
has t [] = false
has t (x ∷ xs) = (t == x) || has t xs

abbrev pub Distinct : List ℕ → Type 0
Distinct [] = Unit {0}
Distinct (x ∷ xs) = (has x xs ≡ false) × Distinct xs

-- From `p` the `next` pointers lead through the tasks to `stop`.
abbrev pub Chain : Tasks → Option ℕ → List ℕ → Option ℕ → Type 0
Chain tasks p [] stop = p ≡ stop
Chain tasks p (t ∷ ts) stop = (p ≡ some t) × Chain tasks (tasks t).next ts stop

abbrev pub last : List ℕ → Option ℕ
last [] = none
last (t ∷ []) = some t
last (t ∷ u ∷ ts) = last (u ∷ ts)

-- A chain depends on the pointers of its own tasks.
pub Chain-frame :
    (tasks tasks' : Tasks) (p : Option ℕ) (ts : List ℕ) (stop : Option ℕ)
    → ((t : ℕ) → has t ts ≡ true → (tasks' t).next ≡ (tasks t).next)
    → Chain tasks p ts stop
    → Chain tasks' p ts stop
Chain-frame tasks tasks' p [] stop same c = c
Chain-frame tasks tasks' p (t ∷ ts) stop same c =
    let e : (tasks' t).next ≡ (tasks t).next = same t (ground arith) in
    (
      c.0,
      rw e
          (Chain-frame tasks tasks' (tasks t).next ts stop (λ x h. same x (ground (arith, h))) c.1),
    )

pub Chain-append :
    (tasks : Tasks) (p q stop : Option ℕ) (ts us : List ℕ)
    → Chain tasks p ts q
    → Chain tasks q us stop
    → Chain tasks p (ts ++ us) stop
Chain-append tasks p q stop [] us c d = rw c d
Chain-append tasks p q stop (t ∷ ts) us c d =
    (c.0, Chain-append tasks (tasks t).next q stop ts us c.1 d)

pub has-append : (t : ℕ) (xs ys : List ℕ) → has t (xs ++ ys) ≡ (has t xs || has t ys)
has-append t [] ys = refl
has-append t (x ∷ xs) ys = ground (arith, has-append t xs ys)

pub clash : (x l : ℕ) (ts : List ℕ) → x ≡ l → has x ts ≡ false → has l ts ≡ true → ⊥
clash x l ts g a b = cc

pub has-last : (ts : List ℕ) (l : ℕ) → last ts ≡ some l → has l ts ≡ true
has-last [] l e = cc
has-last (x ∷ []) l e = ground (arith, e)
has-last (x ∷ y ∷ ts) l e = ground (arith, has-last (y ∷ ts) l e)

-- the task at the end has its pointer set to the new one
pub Chain-snoc :
    (tasks : Tasks) (p : Option ℕ) (ts : List ℕ) (l t : ℕ)
    → Chain tasks p ts none
    → last ts ≡ some l
    → Distinct ts
    → has t ts ≡ false
    → Chain (set_next (set_next tasks t none) l (some t)) p (ts ++ (t ∷ [])) none
Chain-snoc tasks p [] l t c e d h = cc
Chain-snoc tasks p (x ∷ []) l t c e d h = ground (arith, c, e, h)
Chain-snoc tasks p (x ∷ y ∷ ts) l t c e d h =
    let tasks' : Tasks = set_next (set_next tasks t none) l (some t) in
    let l_in : has l (y ∷ ts) ≡ true = has-last (y ∷ ts) l e in
    let ne : x ≢ l = λ g. clash x l (y ∷ ts) g d.0 l_in in
    let x_kept : (tasks' x).next ≡ (tasks x).next = ground (arith, h, ne) in
    (c.0, rw x_kept (Chain-snoc tasks (tasks x).next (y ∷ ts) l t c.1 e d.1 (ground (arith, h))))
