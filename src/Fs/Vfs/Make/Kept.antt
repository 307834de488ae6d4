-- ===== src/Fs/Vfs/Make/Kept.antt =====
-- A node made under a new name leaves every path as it was (kernel/src/fs/vfs.rs).
use mathlib.Core.Option.{some-injective}
use elitra_os.Fs.Mount.Cycle.{same_text_self}
use elitra_os.Base.{
  ℕ, ◌≡◌, ◌∙◌, refl, sym, ap, subst, true, false, none, some, List, [], ◌∷◌, ◌==◌, arith, ◌⊎◌, inl,
  inr, Bool-cases, ==_iff,
}
use elitra_os.Fs.Mount.{Text, same_text}
use elitra_os.Fs.Vfs.{Vfs, VNode, Nodes, find_child, child_named, parent_or, add_child}
use elitra_os.Fs.Vfs.Make.{attach}
use elitra_os.Fs.Vfs.Make.Extends.{Each, IsClosed, Extends}

same_text-eq : (x y : Text) → same_text x y ≡ true → x ≡ y
unfolding same_text
same_text-eq [] [] h = refl
same_text-eq [] (y ∷ ys) h = absurd (cc h)
same_text-eq (x ∷ xs) [] h = absurd (cc h)
same_text-eq (x ∷ xs) (y ∷ ys) h = ground (arith, h, same_text-eq xs ys)

-- Names that are the same on a list of nodes are found the same.
child_named_same :
    (L : ℕ → Type 0) (m n : Nodes) (name : Text) (cs : List ℕ)
    → ((c : ℕ) → L c → (n c).name ≡ (m c).name)
    → Each L cs
    → child_named n name cs ≡ child_named m name cs
unfolding child_named
child_named_same L m n name [] e h = refl
child_named_same L m n name (c ∷ cs) e h = rw (e c h.0, child_named_same L m n name cs e h.1) refl

module _ (L : ℕ → Type 0) (v : Vfs) (closed : IsClosed L v) (a d : ℕ) (n : VNode) (out : ¬ L a)
    (at_d : L d) where
  -- the nodes afterwards
  abbrev after : Nodes
  after = (attach v d a n).node

  ne_of : (b : ℕ) → L b → (a == b) ≡ false
  ne_of b l = elim (Bool-cases (a == b)) [
    | inl t ↦ absurd (out (subst L (sym ((==_iff a b).0 t)) l))
    | inr f ↦ f
  ]

  dir_node : after d ≡ record (v.node d) { children = a ∷ (v.node d).children }
  unfolding attach add_child
  dir_node = let self : (d == d) ≡ true = ground arith in rw (self, ne_of d at_d) refl

  other_node : (b : ℕ) → L b → (d == b) ≡ false → after b ≡ v.node b
  unfolding attach add_child
  other_node b l ne = rw (ne, ne_of b l) refl

  made_node : after a ≡ record n { parent = some d }
  unfolding attach add_child
  made_node =
      let self : (a == a) ≡ true = ground arith in
      let ne : (d == a) ≡ false = ground (arith, ne_of d at_d) in rw (ne, self) refl

  -- A field other than the children is kept.
  field_kept :
      {A : Type 0} (field : VNode → A) (b : ℕ)
      → ((m : VNode) (cs : List ℕ) → field (record m { children = cs }) ≡ field m)
      → L b
      → field (after b) ≡ field (v.node b)
  field_kept field b same l = elim (Bool-cases (d == b)) [
    | inl t ↦
        subst (λ k. field (after k) ≡ field (v.node k)) ((==_iff d b).0 t)
          (ap field dir_node ∙ same (v.node d) (a ∷ (v.node d).children))
    | inr f ↦ ap field (other_node b l f)
  ]

  name_kept : (b : ℕ) → L b → (after b).name ≡ (v.node b).name
  name_kept b = field_kept (λ m. m.name) b (λ m cs. refl)

  -- In the directory itself.
  in_dir :
      (name : Text) (c : ℕ)
      → child_named v.node n.name (v.node d).children ≡ none
      → child_named v.node name (v.node d).children ≡ some c
      → child_named after name (after d).children ≡ some c
  unfolding child_named
  in_dir name c free e = elim (Bool-cases (same_text n.name name)) [
    | inl t ↦
        let same : n.name ≡ name = same_text-eq n.name name t in
        absurd (cc (sym e ∙ ap (λ k. child_named v.node k (v.node d).children) (sym same) ∙ free))
    | inr f ↦
        let rest =
          child_named_same L v.node after name (v.node d).children name_kept
            (closed.children d at_d) in
        let first : same_text (after a).name name ≡ false =
          ap (λ m. same_text m.name name) made_node ∙ f in
        ap (λ k. child_named after name k.children) dir_node ∙ rw first (rest ∙ e)
  ]

  -- An old name is found under its node as before, where the new one has a name of its own.
  child_kept :
      (b : ℕ) (name : Text) (c : ℕ)
      → L b
      → child_named v.node n.name (v.node d).children ≡ none
      → child_named v.node name (v.node b).children ≡ some c
      → child_named after name (after b).children ≡ some c
  child_kept b name c l free e = elim (Bool-cases (d == b)) [
    | inl t ↦
        subst
          (λ k.
            child_named v.node name (v.node k).children ≡ some c
            → child_named after name (after k).children ≡ some c)
          ((==_iff d b).0 t) (in_dir name c free) e
    | inr f ↦
        ap (λ k. child_named after name k.children) (other_node b l f)
        ∙ child_named_same L v.node after name (v.node b).children name_kept (closed.children b l)
        ∙ e
  ]

  find_kept :
      (b : ℕ) (name : Text) (c : ℕ)
      → child_named v.node n.name (v.node d).children ≡ none
      → L b
      → find_child v.node b name ≡ some c
      → find_child after b name ≡ some c
  unfolding find_child
  find_kept b name c free l e = elim (Bool-cases (same_text name (46 ∷ []))) [
    | inl t ↦ rw t (sym (rw t refl) ∙ e)
    | inr f ↦ elim (Bool-cases (same_text name (46 ∷ 46 ∷ []))) [
      | inl t ↦
          let up = field_kept (λ m. m.parent) b (λ m cs. refl) l in
          rw (f, t, up) (sym (rw (f, t) refl) ∙ e)
      | inr g ↦ rw (f, g) (child_kept b name c l free (sym (rw (f, g) refl) ∙ e))
    ]
  ]

  pub attach-Extends :
      child_named v.node n.name (v.node d).children ≡ none → Extends L v (attach v d a n)
  unfolding attach
  attach-Extends free = record {
    same_root = refl;
    finds = λ b name c l e. find_kept b name c free l e;
    same_type = λ b l. field_kept (λ m. m.type_) b (λ m cs. refl) l;
    same_target = λ b l. field_kept (λ m. m.link_target) b (λ m cs. refl) l;
  }

  -- The set with the new node.
  abbrev Wider : ℕ → Type 0
  Wider i = L i ⊎ (i ≡ a)

  Each-Wider : (cs : List ℕ) → Each L cs → Each Wider cs
  Each-Wider [] h = tt
  Each-Wider (c ∷ cs) h = (inl h.0, Each-Wider cs h.1)

  Wider-parents : (b p : ℕ) → Wider b → (after b).parent ≡ some p → Wider p
  Wider-parents b p (inl l) e =
      inl (closed.parents b p l (sym (field_kept (λ m. m.parent) b (λ m cs. refl) l) ∙ e))
  Wider-parents b p (inr g) e =
      let up : some d ≡ some p =
        sym (ap (λ m. m.parent) made_node) ∙ ap (λ k. (after k).parent) (sym g) ∙ e in
      inl (subst L (some-injective d p up) at_d)

  Wider-children : n.children ≡ [] → (b : ℕ) → Wider b → Each Wider (after b).children
  Wider-children e b (inr g) =
      subst (Each Wider) (sym (ap (λ k. (after k).children) g ∙ ap (λ m. m.children) made_node ∙ e))
        tt
  Wider-children e b (inl l) = elim (Bool-cases (d == b)) [
    | inl t ↦
        let in_d : Each Wider (after d).children =
          subst (λ m. Each Wider m.children) (sym dir_node)
            (inr refl, Each-Wider (v.node d).children (closed.children d at_d)) in
        subst (λ k. Each Wider (after k).children) ((==_iff d b).0 t) in_d
    | inr f ↦
        subst (λ m. Each Wider m.children) (sym (other_node b l f))
          (Each-Wider (v.node b).children (closed.children b l))
  ]

  pub attach-IsClosed : n.children ≡ [] → IsClosed Wider (attach v d a n)
  unfolding attach
  attach-IsClosed e = record {
    rooted = λ r g. inl (closed.rooted r g);
    parents = Wider-parents;
    children = Wider-children e;
  }

  -- The new node is found under its name, which is none of the two that every directory has.
  pub attach-found :
      find_child v.node d n.name ≡ none
      → (child_named v.node n.name (v.node d).children ≡ none)
        × (find_child after d n.name ≡ some a)
  unfolding find_child child_named
  attach-found e = elim (Bool-cases (same_text n.name (46 ∷ []))) [
    | inl t ↦ absurd (cc (rw t at e))
    | inr f ↦ elim (Bool-cases (same_text n.name (46 ∷ 46 ∷ []))) [
      | inl t ↦ absurd (cc (rw (f, t) at e))
      | inr g ↦
          let named : same_text (after a).name n.name ≡ true =
            ap (λ m. same_text m.name n.name) made_node ∙ same_text_self n.name in
          (
            rw (f, g) at e,
            rw (f, g) (ap (λ k. child_named after n.name k.children) dir_node ∙ rw named refl),
          )
    ]
  ]

  pub attach-up : find_child after a (46 ∷ 46 ∷ []) ≡ some d
  unfolding find_child same_text
  attach-up = ap (λ m. some (parent_or a m.parent)) made_node
