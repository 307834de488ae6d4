-- ===== src/Process/Family/Children.antt =====
-- The children of a task are a list (`add_child`, `remove_child`).
use elitra_os.Base.{
  ℕ, ◌≡◌, ◌≢◌, ◌≤◌, ◌∙◌, refl, ap, sym, true, false, Option, none, some, List, [], ◌∷◌, ◌++◌, arith,
  ◌==◌, Bool-cases, inl, inr,
}
use elitra_os.Process.Task.{Tasks}
use elitra_os.Process.Ready.Chain.{has, Distinct, last, has-append, has-last, clash}
use elitra_os.Process.Ready.Fifo.{some-last, last-snoc}
use elitra_os.Process.Ready.Occ.{occ, occ-Distinct, occ-snoc}
use elitra_os.Process.Family.{add_child}

-- From `p` the siblings lead through these tasks to `stop`.
abbrev pub Siblings : Tasks → Option ℕ → List ℕ → Option ℕ → Type 0
Siblings tasks p [] stop = p ≡ stop
Siblings tasks p (t ∷ ts) stop = (p ≡ some t) × Siblings tasks (tasks t).sibling_next ts stop

pub record HasChildren (tasks : Tasks) (parent : ℕ) (cs : List ℕ) : Type 0 where
  pub chain : Siblings tasks (tasks parent).child_head cs none
  pub tail : (tasks parent).child_tail ≡ last cs
  pub once : (t : ℕ) → occ t cs ≤ 1
  pub parents : (t : ℕ) → has t cs ≡ true → (tasks t).parent ≡ some parent

pub Siblings-frame :
    (tasks tasks' : Tasks) (p : Option ℕ) (ts : List ℕ) (stop : Option ℕ)
    → ((t : ℕ) → has t ts ≡ true → (tasks' t).sibling_next ≡ (tasks t).sibling_next)
    → Siblings tasks p ts stop
    → Siblings tasks' p ts stop
Siblings-frame tasks tasks' p [] stop same c = c
Siblings-frame tasks tasks' p (t ∷ ts) stop same c =
    let e : (tasks' t).sibling_next ≡ (tasks t).sibling_next = same t (ground arith) in
    (
      c.0,
      rw e (
          Siblings-frame tasks tasks' (tasks t).sibling_next ts stop
            (λ x h. same x (ground (arith, h))) c.1),
    )

-- the pointer at the end of the siblings changed
pub Siblings-relink :
    (tasks tasks' : Tasks) (h x y : Option ℕ) (ps : List ℕ) (p : ℕ)
    → Siblings tasks h ps x
    → last ps ≡ some p
    → Distinct ps
    → (tasks' p).sibling_next ≡ y
    → ((t : ℕ) → t ≢ p → has t ps ≡ true → (tasks' t).sibling_next ≡ (tasks t).sibling_next)
    → Siblings tasks' h ps y
Siblings-relink tasks tasks' h x y [] p c e d own same = cc
Siblings-relink tasks tasks' h x y (a ∷ []) p c e d own same =
    let a_last : a ≡ p = ground (arith, e) in (c.0, ap (λ t. (tasks' t).sibling_next) a_last ∙ own)
Siblings-relink tasks tasks' h x y (a ∷ b ∷ ps) p c e d own same =
    let ne : a ≢ p = λ g. clash a p (b ∷ ps) g d.0 (has-last (b ∷ ps) p e) in
    (
      c.0,
      rw (same a ne (ground arith)) (
          Siblings-relink tasks tasks' (tasks a).sibling_next x y (b ∷ ps) p c.1 e d.1 own
            (λ t n g. same t n (ground (arith, g)))),
    )

pub Siblings-append :
    (tasks : Tasks) (p q stop : Option ℕ) (ts us : List ℕ)
    → Siblings tasks p ts q
    → Siblings tasks q us stop
    → Siblings tasks p (ts ++ us) stop
Siblings-append tasks p q stop [] us c d = rw c d
Siblings-append tasks p q stop (t ∷ ts) us c d =
    (c.0, Siblings-append tasks (tasks t).sibling_next q stop ts us c.1 d)

-- A child that is none yet becomes the last one.
module _ (tasks : Tasks) (p c : ℕ) (n : c ≢ p) where
  add-first :
      (tasks p).child_head ≡ none
      → let after = add_child tasks p c in
        ((after p).child_head ≡ some c)
        × ((after p).child_tail ≡ some c)
        × ((after c).sibling_next ≡ none)
        × ((after c).parent ≡ some p)
  unfolding add_child
  add-first e =
      (ground (arith, e, n), ground (arith, e, n), ground (arith, e, n), ground (arith, e, n))

  add-more :
      (h l : ℕ)
      → (tasks p).child_head ≡ some h
      → (tasks p).child_tail ≡ some l
      → l ≢ c
      → let after = add_child tasks p c in
        ((after p).child_head ≡ some h)
        × ((after p).child_tail ≡ some c)
        × ((after c).sibling_next ≡ none)
        × ((after c).parent ≡ some p)
        × ((after l).sibling_next ≡ some c)
  unfolding add_child
  add-more h l e g ne = (
    ground (arith, e, g, n, ne),
    ground (arith, e, g, n, ne),
    ground (arith, e, g, n, ne),
    ground (arith, e, g, n, ne),
    ground (arith, e, g, n, ne),
  )

  add-other :
      (h l x : ℕ)
      → (tasks p).child_head ≡ some h
      → (tasks p).child_tail ≡ some l
      → x ≢ c
      → x ≢ l
      → ((add_child tasks p c x).sibling_next ≡ (tasks x).sibling_next)
  unfolding add_child
  add-other h l x e g nc nl = ground (arith, e, g, nc, nl)

  add-parent : (x : ℕ) → x ≢ c → (add_child tasks p c x).parent ≡ (tasks x).parent
  unfolding add_child
  add-parent x nc = ground (arith, nc)

-- A task that is not among the children yet becomes the last of them.
pub add_child-HasChildren :
    (tasks : Tasks) (p c : ℕ) (cs : List ℕ)
    → HasChildren tasks p cs
    → has c cs ≡ false
    → c ≢ p
    → HasChildren (add_child tasks p c) p (cs ++ (c ∷ []))
add_child-HasChildren tasks p c [] v out n =
    let (head, tail, end, parent) = add-first tasks p c n v.chain in
    record {
      chain = (head, end);
      tail = tail;
      once = λ t. ground arith;
      parents = λ t h. ap (λ i. (add_child tasks p c i).parent) (ground (arith, h)) ∙ parent;
    }
add_child-HasChildren tasks p c (a ∷ cs) v out n =
    let (l, e) = some-last a cs in
    let c_not_l : l ≢ c = λ g. clash c l (a ∷ cs) (sym g) out (has-last (a ∷ cs) l e) in
    let (head, tail, end, parent, linked) =
      add-more tasks p c n a l v.chain.0 (v.tail ∙ e) c_not_l in
    let other : (x : ℕ)
        → x ≢ l
        → has x (a ∷ cs) ≡ true
        → (add_child tasks p c x).sibling_next ≡ (tasks x).sibling_next =
      λ x nl h.
        add-other tasks p c n a l x v.chain.0 (v.tail ∙ e) (λ g. clash c x (a ∷ cs) (sym g) out h)
          nl in
    let front =
      Siblings-relink tasks (add_child tasks p c) (some a) none (some c) (a ∷ cs) l
        (refl, v.chain.1) e (occ-Distinct (a ∷ cs) v.once) linked other in
    record {
      chain = rw head (
          Siblings-append (add_child tasks p c) (some a) (some c) none (a ∷ cs) (c ∷ []) front
            (refl, end));
      tail = tail ∙ sym (last-snoc (a ∷ cs) c);
      once = occ-snoc c (a ∷ cs) out v.once;
      parents = λ t h. elim (Bool-cases (t == c)) [
        | inl g ↦ ap (λ i. (add_child tasks p c i).parent) (ground (arith, g)) ∙ parent
        | inr g ↦
            add-parent tasks p c n t (ground (arith, g))
            ∙ v.parents t (ground (arith, h, g, has-append t (a ∷ cs) (c ∷ [])))
      ];
    }
