-- ===== src/Fs/Vfs/Attributes/Mode.antt =====
-- What `stat` says after the mode of a node was changed (kernel/src/fs/vfs.rs).
use mathlib.Core.Option.{some-injective}
use elitra_os.Base.{
  ℕ, ◌/◌, ◌%◌, ◌≡◌, ◌∙◌, refl, sym, ap, true, Option, some, List, [], ◌∷◌, take, ◌==◌, arith, inl,
  inr, Bool-cases, Option-cases, ==_iff,
}
use elitra_os.Fs.Mount.{Text}
use elitra_os.Fs.Vfs.{Vfs, VNode, User, put_node, find_child, child_named, vfs_resolve}
use elitra_os.Fs.Vfs.Make.Extends.{Each, IsClosed, Extends, vfs_resolve_kept}
use elitra_os.Fs.Vfs.Remove.{is_root}
use elitra_os.Fs.Vfs.Attributes.{FileStat, with_mode, may_chmod, below_root, vfs_chmod, vfs_stat}

-- the set of all nodes
abbrev AllNodes : ℕ → Type 0
AllNodes i = Unit

Each-AllNodes : (cs : List ℕ) → Each AllNodes cs
Each-AllNodes [] = tt
Each-AllNodes (c ∷ cs) = (tt, Each-AllNodes cs)

AllNodes-IsClosed : (v : Vfs) → IsClosed AllNodes v
AllNodes-IsClosed v = record {
  rooted = λ r e. tt;
  parents = λ b p l e. tt;
  children = λ b l. Each-AllNodes (v.node b).children;
}

module _ (v : Vfs) (at : ℕ) (m : VNode) where
  -- A field that the new contents of a node share with the old.
  field_same :
      {A : Type 0} (field : VNode → A) (b : ℕ)
      → field m ≡ field (v.node at)
      → field (put_node v.node at m b) ≡ field (v.node b)
  field_same field b e = elim (Bool-cases (at == b)) [
    | inl t ↦ rw t (e ∙ ap (λ k. field (v.node k)) ((==_iff at b).0 t))
    | inr f ↦ rw f refl
  ]

  named_same :
      (name : Text) (cs : List ℕ)
      → m.name ≡ (v.node at).name
      → child_named (put_node v.node at m) name cs ≡ child_named v.node name cs
  unfolding child_named
  named_same name [] e = refl
  named_same name (c ∷ cs) e = rw (field_same (λ x. x.name) c e, named_same name cs e) refl

  -- Contents with the old name, place, type and target leave every path as it was.
  touch-Extends :
      m.name ≡ (v.node at).name
      → m.parent ≡ (v.node at).parent
      → m.children ≡ (v.node at).children
      → m.type_ ≡ (v.node at).type_
      → m.link_target ≡ (v.node at).link_target
      → Extends AllNodes v (record v { node = put_node v.node at m })
  unfolding find_child
  touch-Extends name parent children type_ target = record {
    same_root = refl;
    finds = λ b k c l e.
        rw
          (
            field_same (λ x. x.parent) b parent,
            field_same (λ x. x.children) b children,
            named_same k (v.node b).children name,
          )
          e;
    same_type = λ b l. field_same (λ x. x.type_) b type_;
    same_target = λ b l. field_same (λ x. x.link_target) b target;
  }

below_root-some :
    (v : Vfs) (path : Text) (at : ℕ)
    → below_root v (some path) ≡ some at
    → vfs_resolve v (some path) ≡ some at
unfolding below_root
below_root-some v [] at h = absurd (cc h)
below_root-some v (c ∷ cs) at h = elim (Option-cases (vfs_resolve v (some (c ∷ cs)))) [
  | inl e ↦ absurd (cc (rw (below_root, e) at h))
  | inr (k, e) ↦ elim (Bool-cases (is_root v k)) [
    | inl t ↦ absurd (cc (rw (below_root, e, t) at h))
    | inr f ↦ e ∙ (rw (below_root, e, f) at h)
  ]
]

-- What a success of `chmod` comes to.
vfs_chmod-true :
    (current : Option User) (v : Vfs) (path : Text) (mode : ℕ)
    → (vfs_chmod current v (some path) mode).1 ≡ true
    → (at : ℕ) × (vfs_resolve v (some path) ≡ some at)
      × ((vfs_chmod current v (some path) mode).0 ≡ record v {
        node = put_node v.node at (record (v.node at) { mode = with_mode (v.node at).mode mode });
      })
unfolding vfs_chmod
vfs_chmod-true current v path mode h = elim (Option-cases (below_root v (some path))) [
  | inl e ↦ absurd (cc (rw (vfs_chmod, e) at h))
  | inr (at, e) ↦ elim (Bool-cases (may_chmod current (v.node at))) [
    | inl t ↦ (at, below_root-some v path at e, rw (vfs_chmod, e, t) refl)
    | inr f ↦ absurd (cc (rw (vfs_chmod, e, f) at h))
  ]
]

-- The answer of `stat` for a node.
abbrev stat_of : VNode → FileStat
stat_of n = record {
  type_ = n.type_;
  size = n.size;
  name = take 63 n.name;
  uid = n.uid;
  gid = n.gid;
  mode = n.mode;
}

stat_at :
    (v : Vfs) (path : Text) (at : ℕ)
    → vfs_resolve v (some path) ≡ some at
    → vfs_stat v (some path) ≡ some (stat_of (v.node at))
unfolding vfs_stat
stat_at v path at e = rw (vfs_stat, e) refl

-- If `chmod` succeeds for a path, `stat` then says what it said before with another mode: the bits
-- of the kind of node are those of the old mode, the lower twelve are those that were given. Every
-- path that led to a node still leads to it.
pub vfs_stat-vfs_chmod :
    (current : Option User) (v : Vfs) (path : Text) (mode : ℕ) (s : FileStat)
    → (vfs_chmod current v (some path) mode).1 ≡ true
    → vfs_stat v (some path) ≡ some s
    → let w = (vfs_chmod current v (some path) mode).0 in
      (vfs_stat w (some path) ≡ some (record s { mode = with_mode s.mode mode }))
      × (with_mode s.mode mode / 4096 ≡ s.mode / 4096)
      × (with_mode s.mode mode % 4096 ≡ mode % 4096)
      × ((q : Option Text) (r : ℕ) → vfs_resolve v q ≡ some r → vfs_resolve w q ≡ some r)
unfolding with_mode
vfs_stat-vfs_chmod current v path mode s h e =
    let (at, leads, w_is) = vfs_chmod-true current v path mode h in
    let n : VNode = record (v.node at) { mode = with_mode (v.node at).mode mode } in
    let ext = touch-Extends v at n refl refl refl refl refl in
    let keeps =
      vfs_resolve_kept AllNodes v (record v { node = put_node v.node at n }) (AllNodes-IsClosed v)
        ext in
    let w : Vfs = record v { node = put_node v.node at n } in
    let is_s : stat_of (v.node at) ≡ s =
      some-injective (stat_of (v.node at)) s (sym (stat_at v path at leads) ∙ e) in
    let self : (at == at) ≡ true = ground arith in
    let is_n : w.node at ≡ n = rw self refl in
    let remode : FileStat → FileStat = λ k. record k { mode = with_mode k.mode mode } in
    let stat =
      stat_at w path at (keeps (some path) at leads).0
      ∙ ap (λ k. some (stat_of k)) is_n
      ∙ ap (λ k. some (remode k)) is_s in
    rw w_is (stat, omega arith, omega arith, λ q r g. (keeps q r g).0)
