-- ===== src/Fs/Vfs/Make/Extends.antt =====
-- Paths that lead somewhere still do in a file system that has more (kernel/src/fs/vfs.rs).
use mathlib.Core.Option.{some-injective}
use elitra_os.Base.{
  ℕ, zero, suc, ◌≡◌, ◌∙◌, refl, sym, ap, subst, Option, none, some, List, [], ◌∷◌, length, take,
  ltb, leb, ◌==◌, inl, inr, Bool-cases, Option-cases,
}
use elitra_os.Fs.Mount.{Text, same_text}
use elitra_os.Fs.Vfs.{
  Vfs, Nodes, child_named, parent_or, node_symlink, find_child, segment, after_segment,
  skip_slashes, Turn, done, go, starts_with_slash, into_child, enter, turn, resolve_path_inner,
  resolve_path, path_fuel, result_of, vfs_resolve, resolve_parent, before_last_slash,
}
use elitra_os.Fs.Vfs.Search.{after_turn, resolve_path_inner-after_turn}

abbrev pub Each : (ℕ → Type 0) → List ℕ → Type 0
Each L [] = Unit
Each L (c ∷ cs) = L c × Each L cs

-- A set of nodes that has the root, and with a node its parent and its children.
pub record IsClosed (L : ℕ → Type 0) (v : Vfs) : Type 0 where
  pub rooted : (r : ℕ) → v.root ≡ some r → L r
  pub parents : (b p : ℕ) → L b → (v.node b).parent ≡ some p → L p
  pub children : (b : ℕ) → L b → Each L (v.node b).children

child_named-In :
    (L : ℕ → Type 0) (nodes : Nodes) (name : Text) (cs : List ℕ) (c : ℕ)
    → Each L cs
    → child_named nodes name cs ≡ some c
    → L c
unfolding child_named
child_named-In L nodes name [] c h e = absurd (cc e)
child_named-In L nodes name (x ∷ xs) c h e = elim (Bool-cases (same_text (nodes x).name name)) [
  | inl t ↦ subst L (some-injective x c (sym (rw t refl) ∙ e)) h.0
  | inr f ↦ child_named-In L nodes name xs c h.1 (sym (rw f refl) ∙ e)
]

parent_or-In :
    (L : ℕ → Type 0) (v : Vfs) (b : ℕ) → IsClosed L v → L b → L (parent_or b (v.node b).parent)
parent_or-In L v b h l = elim (Option-cases (v.node b).parent) [
  | inl e ↦ subst L (sym (ap (parent_or b) e)) l
  | inr (p, e) ↦ subst L (sym (ap (parent_or b) e)) (h.parents b p l e)
]

-- What is found from a node of the set is in it.
find_child-In :
    (L : ℕ → Type 0) (v : Vfs) (b : ℕ) (name : Text) (c : ℕ)
    → IsClosed L v
    → L b
    → find_child v.node b name ≡ some c
    → L c
unfolding find_child
find_child-In L v b name c h l e = elim (Bool-cases (same_text name (46 ∷ []))) [
  | inl t ↦ subst L (some-injective b c (sym (rw t refl) ∙ e)) l
  | inr f ↦ elim (Bool-cases (same_text name (46 ∷ 46 ∷ []))) [
    | inl t ↦
        let up : parent_or b (v.node b).parent ≡ c =
          some-injective (parent_or b (v.node b).parent) c (sym (rw (f, t) refl) ∙ e) in
        subst L up (parent_or-In L v b h l)
    | inr g ↦
        child_named-In L v.node name (v.node b).children c (h.children b l)
          (sym (rw (f, g) refl) ∙ e)
  ]
]

-- On the set, `w` finds what `v` finds, and the nodes are of the same kind.
pub record Extends (L : ℕ → Type 0) (v w : Vfs) : Type 0 where
  pub same_root : w.root ≡ v.root
  pub finds :
      (b : ℕ) (name : Text) (c : ℕ)
      → L b
      → find_child v.node b name ≡ some c
      → find_child w.node b name ≡ some c
  pub same_type : (b : ℕ) → L b → (w.node b).type_ ≡ (v.node b).type_
  pub same_target : (b : ℕ) → L b → (w.node b).link_target ≡ (v.node b).link_target

module _ (L : ℕ → Type 0) (v w : Vfs) (closed : IsClosed L v) (ext : Extends L v w) where
  -- A base in the set, or none.
  IsIn : Option ℕ → Type 0
  IsIn none = Unit
  IsIn (some b) = L b

  -- A turn that does not fail is the same in `w`, and goes on inside the set.
  Keeps : Turn → Turn → Type 0
  Keeps (done none) u = Unit
  Keeps (done (some r)) u = (u ≡ done (some r)) × L r
  Keeps (go b p d) u = (u ≡ go b p d) × IsIn b

  root-IsIn : (o : Option ℕ) → v.root ≡ o → IsIn o
  unfolding IsIn
  root-IsIn none e = tt
  root-IsIn (some r) e = closed.rooted r e

  into_child-Keeps :
      (base : ℕ) (rest : Text) (depth child : ℕ)
      → L base
      → L child
      → Keeps (into_child v base rest depth child) (into_child w base rest depth child)
  unfolding into_child Keeps IsIn
  into_child-Keeps base rest depth child lb lc =
      let same = ext.same_type child lc in
      let target = ext.same_target child lc in
      let root = ext.same_root in
      elim (Bool-cases ((v.node child).type_ == node_symlink)) [
        | inl t ↦ elim (Bool-cases (starts_with_slash (v.node child).link_target)) [
          | inl a ↦ rw (same, target, root, t, a) (refl, root-IsIn v.root refl)
          | inr a ↦ rw (same, target, root, t, a) (refl, lb)
        ]
        | inr n ↦ rw (same, n) (refl, lc)
      ]

  enter-Keeps :
      (base : ℕ) (p : Text) (depth : ℕ)
      → L base
      → Keeps (enter v base p depth) (enter w base p depth)
  unfolding enter Keeps
  enter-Keeps base [] depth lb = (refl, lb)
  enter-Keeps base (c ∷ cs) depth lb =
      let seg : Text = segment (c ∷ cs) in
      elim (Bool-cases (leb 64 (length seg))) [
        | inl t ↦ rw t tt
        | inr f ↦ elim (Option-cases (find_child v.node base seg)) [
          | inl e ↦ rw (f, e) tt
          | inr (child, e) ↦
              rw (f, e, ext.finds base seg child lb e)
                (into_child-Keeps base (after_segment (c ∷ cs)) depth child lb
                  (find_child-In L v base seg child closed lb e))
        ]
      ]

  turn-Keeps :
      (base : Option ℕ) (path : Text) (depth : ℕ)
      → IsIn base
      → Keeps (turn v base path depth) (turn w base path depth)
  unfolding turn IsIn Keeps
  turn-Keeps none path depth h = tt
  turn-Keeps (some base) path depth h = elim (Bool-cases (ltb 5 depth)) [
    | inl t ↦ rw t tt
    | inr f ↦ rw f (enter-Keeps base (skip_slashes path) depth h)
  ]

  -- A search from inside the set that finds a node finds it in `w` as well.
  resolve_path_inner_kept :
      (fuel : ℕ) (base : Option ℕ) (path : Text) (depth r : ℕ)
      → IsIn base
      → resolve_path_inner fuel v base path depth ≡ some (some r)
      → (resolve_path_inner fuel w base path depth ≡ some (some r)) × L r
  unfolding resolve_path_inner Keeps
  resolve_path_inner_kept zero base path depth r h e = cc
  resolve_path_inner_kept (suc fuel) base path depth r h e =
      let t : Turn = turn v base path depth in
      let u : Turn = turn w base path depth in
      let split : (t : Turn)
          → Keeps t u
          → after_turn fuel v t ≡ some (some r)
          → (after_turn fuel w u ≡ some (some r)) × L r =
        λ t.
          elim t
            as (λ t.
              Keeps t u
              → after_turn fuel v t ≡ some (some r)
              → (after_turn fuel w u ≡ some (some r)) × L r) [
                | done o ↦
                    elim o
                      as (λ o.
                        Keeps (done o) u
                        → after_turn fuel v (done o) ≡ some (some r)
                        → (after_turn fuel w u ≡ some (some r)) × L r) [
                          | none ↦ λ k g. absurd (cc g)
                          | some x ↦ λ k g. (
                            ap (after_turn fuel w) k.0 ∙ g,
                            subst L (some-injective x r (some-injective (some x) (some r) g)) k.1,
                          )
                        ]
                | go b p d ↦ λ k g.
                    let (same, inside) = k in
                    let (i, l) = resolve_path_inner_kept fuel b p d r inside g in
                    (ap (after_turn fuel w) same ∙ i, l)
              ] in
      rw (resolve_path_inner-after_turn fuel w base path depth) (
        split t (turn-Keeps base path depth h)
          (sym (resolve_path_inner-after_turn fuel v base path depth) ∙ e))

  resolve_path_kept :
      (base : Option ℕ) (path : Text) (r : ℕ)
      → IsIn base
      → resolve_path v base path ≡ some r
      → (resolve_path w base path ≡ some r) × L r
  unfolding resolve_path
  resolve_path_kept base path r h e =
      elim (Option-cases (resolve_path_inner (path_fuel path) v base path 0)) [
        | inl n ↦ absurd (cc (sym (ap result_of n) ∙ e))
        | inr (o, g) ↦
            let o_r : o ≡ some r = sym (ap result_of g) ∙ e in
            let (i, l) =
              resolve_path_inner_kept (path_fuel path) base path 0 r h (g ∙ ap some o_r) in
            (ap result_of i, l)
      ]

  -- What a path leads to from the root.
  pub vfs_resolve_kept :
      (path : Option Text) (r : ℕ)
      → vfs_resolve v path ≡ some r
      → (vfs_resolve w path ≡ some r) × L r
  unfolding vfs_resolve
  vfs_resolve_kept none r e = (ext.same_root ∙ e, closed.rooted r e)
  vfs_resolve_kept (some []) r e = (ext.same_root ∙ e, closed.rooted r e)
  vfs_resolve_kept (some (c ∷ cs)) r e =
      let (i, l) = resolve_path_kept v.root (c ∷ cs) r (root-IsIn v.root refl) e in
      (ap (λ o. resolve_path w o (c ∷ cs)) ext.same_root ∙ i, l)

-- The directory of a path is in the set.
pub resolve_parent-In :
    (L : ℕ → Type 0) (v : Vfs) (path : Text) (d : ℕ)
    → IsClosed L v
    → resolve_parent v path ≡ some d
    → L d
unfolding resolve_parent
resolve_parent-In L v path d h e =
    let same : Extends L v v = record {
      same_root = refl;
      finds = λ b name c l g. g;
      same_type = λ b l. refl;
      same_target = λ b l. refl;
    } in
    elim (Option-cases (before_last_slash (take 255 path))) [
      | inl n ↦ h.rooted d (sym (rw (resolve_parent, n) refl) ∙ e)
      | inr (dir, g) ↦
          (resolve_path_kept L v v h same v.root dir d (root-IsIn L v v h same v.root refl)
            (sym (rw (resolve_parent, g) refl) ∙ e)).1
    ]
