-- ===== src/Process/Family/Remove.antt =====
-- A child is taken out of the list of children (`remove_child`).
use elitra_os.Base.{
  ℕ, zero, suc, ◌≡◌, ◌≢◌, ◌≤◌, ◌+◌, ◌∙◌, refl, ap, sym, subst, true, Option, none, some, List, [],
  ◌∷◌, ◌++◌, length, arith, ◌==◌, Bool-cases, inl, inr,
}
use mathlib.Core.List.{append-nil, append_assoc}
use elitra_os.Process.Task.{Tasks, max_tasks}
use elitra_os.Process.Ready.Chain.{has, last, has-append, has-last}
use elitra_os.Process.Ready.Fifo.{some-last, last-snoc}
use elitra_os.Process.Ready.Occ.{occ, occ-append, has-occ, occ-Distinct, without}
use elitra_os.Process.Family.{unlink, remove_from, remove_child}
use elitra_os.Process.Family.Children.{
  Siblings, Siblings-frame, Siblings-relink, Siblings-append, HasChildren,
}

-- the fields after a child has been taken out
module _ (tasks : Tasks) (p c : ℕ) (prev : Option ℕ) (n : c ≢ p) where
  unlink-sibling :
      (x : ℕ)
      → x ≢ c
      → prev ≢ some x
      → (unlink tasks p c prev x).sibling_next ≡ (tasks x).sibling_next
  unfolding unlink
  unlink-sibling x nc np = ground (arith, nc, np)

  unlink-first : prev ≡ none → (unlink tasks p c prev p).child_head ≡ (tasks c).sibling_next
  unfolding unlink
  unlink-first e = ground (arith, n, e)

  unlink-head :
      (v : ℕ) → prev ≡ some v → (unlink tasks p c prev p).child_head ≡ (tasks p).child_head
  unfolding unlink
  unlink-head v e = ground (arith, n, e)

  unlink-behind :
      (v : ℕ)
      → prev ≡ some v
      → v ≢ c
      → (unlink tasks p c prev v).sibling_next ≡ (tasks c).sibling_next
  unfolding unlink
  unlink-behind v e nv = ground (arith, e, nv)

  unlink-last : (tasks c).sibling_next ≡ none → (unlink tasks p c prev p).child_tail ≡ prev
  unfolding unlink
  unlink-last e = ground (arith, n, e)

  unlink-tail :
      (y : ℕ)
      → (tasks c).sibling_next ≡ some y
      → (unlink tasks p c prev p).child_tail ≡ (tasks p).child_tail
  unfolding unlink
  unlink-tail y e = ground (arith, n, e)

  unlink-parent : (x : ℕ) → x ≢ c → (unlink tasks p c prev x).parent ≡ (tasks x).parent
  unfolding unlink
  unlink-parent x nc = ground (arith, nc)

last-drop :
    (ps : List ℕ) (c y : ℕ) (ys : List ℕ) → last (ps ++ (c ∷ y ∷ ys)) ≡ last (ps ++ (y ∷ ys))
last-drop [] c y ys = refl
last-drop (a ∷ []) c y ys = refl
last-drop (a ∷ b ∷ ps) c y ys = last-drop (b ∷ ps) c y ys

-- Where the walk over the children stands: `ps` passed, then `cs`.
record Walk (tasks : Tasks) (p : ℕ) (ps cs : List ℕ) (prev curr : Option ℕ) : Type 0 where
  front : Siblings tasks (tasks p).child_head ps curr
  rest : Siblings tasks curr cs none
  tail : (tasks p).child_tail ≡ last (ps ++ cs)
  behind : prev ≡ last ps
  once : (t : ℕ) → occ t ps + occ t cs ≤ 1
  parents : (t : ℕ) → has t (ps ++ cs) ≡ true → (tasks t).parent ≡ some p

new_tail :
    (tasks : Tasks) (p c : ℕ) (ps cs : List ℕ) (prev : Option ℕ)
    → c ≢ p
    → Walk tasks p ps (c ∷ cs) prev (some c)
    → (unlink tasks p c prev p).child_tail ≡ last (ps ++ cs)
new_tail tasks p c ps [] prev n w =
    unlink-last tasks p c prev n w.rest.1 ∙ w.behind ∙ ap last (sym (append-nil ps))
new_tail tasks p c ps (y ∷ ys) prev n w =
    unlink-tail tasks p c prev n y w.rest.1.0 ∙ w.tail ∙ last-drop ps c y ys

last-none : (ps : List ℕ) → none ≡ last ps → ps ≡ []
last-none [] e = refl
last-none (x ∷ ps) e = let (l, g) = some-last x ps in cc

module _ (tasks : Tasks) (p c : ℕ) (ps cs : List ℕ) (prev : Option ℕ) (n : c ≢ p)
    (w : Walk tasks p ps (c ∷ cs) prev (some c)) where
  after : Tasks
  after = unlink tasks p c prev

  kept : (x : ℕ) → has x cs ≡ true → (after x).sibling_next ≡ (tasks x).sibling_next
  unfolding after
  kept x h =
      let in_cs : 1 ≤ occ x cs = has-occ x cs h in
      unlink-sibling tasks p c prev n x (λ e. ground (arith, w.once x, in_cs, e))
        (λ e.
          let in_ps = has-occ x ps (has-last ps x (sym w.behind ∙ e)) in
          absurd (ground (arith, w.once x, in_cs, in_ps)))

  kept_front :
      (x v : ℕ)
      → prev ≡ some v
      → x ≢ v
      → has x ps ≡ true
      → (after x).sibling_next ≡ (tasks x).sibling_next
  unfolding after
  kept_front x v e nv h =
      unlink-sibling tasks p c prev n x (λ g. ground (arith, w.once x, has-occ x ps h, g))
        (λ g. nv (ground (arith, e, g)))

  new_chain : (q : Option ℕ) → q ≡ prev → Siblings after (after p).child_head (ps ++ cs) none
  unfolding after
  new_chain none e =
      let first : (after p).child_head ≡ (tasks c).sibling_next =
        unlink-first tasks p c prev n (sym e) in
      rw (last-none ps (e ∙ w.behind), first)
        (Siblings-frame tasks after (tasks c).sibling_next cs none kept w.rest.1)
  new_chain (some v) e =
      let v_last : last ps ≡ some v = sym (e ∙ w.behind) in
      let v_not : v ≢ c = λ g. ground (arith, w.once v, has-occ v ps (has-last ps v v_last), g) in
      rw (unlink-head tasks p c prev n v (sym e)) (
        Siblings-append after (tasks p).child_head (tasks c).sibling_next none ps cs
          (Siblings-relink tasks after (tasks p).child_head (some c) (tasks c).sibling_next ps v
            w.front v_last (occ-Distinct ps (λ t. ground (arith, w.once t)))
            (unlink-behind tasks p c prev n v (sym e) v_not)
            (λ t nv h. kept_front t v (sym e) nv h))
          (Siblings-frame tasks after (tasks c).sibling_next cs none kept w.rest.1))

  not_c : (t : ℕ) → has t (ps ++ cs) ≡ true → t ≢ c
  not_c t h e = ground (arith, w.once t, has-occ t (ps ++ cs) h, occ-append t ps cs, e)

  unlink-HasChildren : HasChildren after p (ps ++ cs)
  unfolding after
  unlink-HasChildren = record {
    chain = new_chain prev refl;
    tail = new_tail tasks p c ps cs prev n w;
    once = λ t. ground (arith, w.once t, occ-append t ps cs);
    parents = λ t h.
        unlink-parent tasks p c prev n t (not_c t h)
        ∙ w.parents t (ground (arith, h, has-append t ps cs, has-append t ps (c ∷ cs)));
  }

Walk-next :
    (tasks : Tasks) (p x : ℕ) (ps cs : List ℕ) (prev : Option ℕ)
    → Walk tasks p ps (x ∷ cs) prev (some x)
    → Walk tasks p (ps ++ (x ∷ [])) cs (some x) (tasks x).sibling_next
Walk-next tasks p x ps cs prev w = record {
  front =
      Siblings-append tasks (tasks p).child_head (some x) (tasks x).sibling_next ps (x ∷ []) w.front
        (refl, refl);
  rest = w.rest.1;
  tail = rw (append_assoc ps (x ∷ []) cs) (w.tail);
  behind = sym (last-snoc ps x);
  once = λ t. ground (arith, w.once t, occ-append t ps (x ∷ []));
  parents = λ t h. w.parents t (ap (has t) (sym (append_assoc ps (x ∷ []) cs)) ∙ h);
}

remove_from-HasChildren :
    (fuel : ℕ) (tasks : Tasks) (p c : ℕ) (ps cs : List ℕ) (prev curr : Option ℕ)
    → c ≢ p
    → length cs ≤ fuel
    → has c cs ≡ true
    → Walk tasks p ps cs prev curr
    → HasChildren (remove_from fuel tasks p c prev curr) p (ps ++ without c cs)
unfolding remove_from after
remove_from-HasChildren fuel tasks p c ps [] prev curr n l h w = cc
remove_from-HasChildren zero tasks p c ps (x ∷ cs) prev curr n l h w = absurd (omega (arith, l))
remove_from-HasChildren (suc fuel) tasks p c ps (x ∷ cs) prev curr n l h w =
    elim (Bool-cases (x == c)) [
      | inl e ↦
          let same : x ≡ c = ground (arith, e) in
          let at : Walk tasks p ps (c ∷ cs) prev (some c) =
            subst (λ y. Walk tasks p ps (y ∷ cs) prev (some y)) same (rw (sym w.rest.0) w) in
          rw (w.rest.0, e) (unlink-HasChildren tasks p c ps cs prev n at)
      | inr e ↦
          let on : Walk tasks p ps (x ∷ cs) prev (some x) = rw (sym w.rest.0) w in
          rw (w.rest.0, e, sym (append_assoc ps (x ∷ []) (without c cs)))
            (remove_from-HasChildren fuel tasks p c (ps ++ (x ∷ [])) cs (some x)
              (tasks x).sibling_next n (omega (arith, l)) (ground (arith, h, e))
              (Walk-next tasks p x ps cs prev on))
    ]

-- Taking a child out of a list of at most 128 children of another task leaves the others in their
-- order, with the ends of the list and the parents right.
pub remove_child-HasChildren :
    (tasks : Tasks) (p c : ℕ) (cs : List ℕ)
    → HasChildren tasks p cs
    → has c cs ≡ true
    → c ≢ p
    → length cs ≤ max_tasks
    → HasChildren (remove_child tasks p c) p (without c cs)
unfolding remove_child
remove_child-HasChildren tasks p c cs v h n l =
    remove_from-HasChildren max_tasks tasks p c [] cs none (tasks p).child_head n l h (record {
      front = refl;
      rest = v.chain;
      tail = v.tail;
      behind = refl;
      once = λ t. omega (arith, v.once t);
      parents = v.parents;
    })
