-- ===== src/Fs/Vfs/Make/Dir.antt =====
-- `create_dir` leaves every path as it was (kernel/src/fs/vfs.rs).

use elitra_os.Base.{
  take_all, ℕ, ◌≡◌, ◌≤◌, ◌∙◌, refl, sym, ap, true, Option, none, some, [], ◌∷◌, length, take, ◌==◌,
  ◌⊎◌, inl, inr, Bool-cases, Option-cases,
}
use elitra_os.Fs.Mount.{Text}
use elitra_os.Fs.Vfs.{
  Vfs, VNode, User, find_child, new_node, node_dir, check_permission, extract_name, resolve_parent,
  vfs_resolve,
}
use elitra_os.Fs.Vfs.Make.{attach, attach_new, create_dir_in, parent_dir, is_empty, create_dir}
use elitra_os.Fs.Vfs.Make.Extends.{IsClosed, resolve_parent-In, vfs_resolve_kept}
use elitra_os.Fs.Vfs.Make.Kept.{attach-Extends, attach-IsClosed, attach-found, attach-up}

-- What a success of the steps of `create_dir` comes to.
attach_new-true :
    (v : Vfs) (d a : ℕ) (name : Text) (n : VNode)
    → (attach_new v d name (some a) n).1 ≡ true
    → (find_child v.node d name ≡ none) × ((attach_new v d name (some a) n).0 ≡ attach v d a n)
unfolding attach_new
attach_new-true v d a name n h = elim (Option-cases (find_child v.node d name)) [
  | inl e ↦ (e, rw (attach_new, e) refl)
  | inr (c, e) ↦ absurd (cc (rw (attach_new, e) at h))
]

create_dir_in-true :
    (current : Option User) (v : Vfs) (d a : ℕ) (name : Text)
    → (create_dir_in current (some a) v d name).1 ≡ true
    → (find_child v.node d name ≡ none)
      × ((create_dir_in current (some a) v d name).0
          ≡ attach v d a (new_node current name node_dir))
unfolding create_dir_in
create_dir_in-true current v d a name h =
    elim (Bool-cases (check_permission current (v.node d) 6)) [
      | inr f ↦ absurd (cc (rw (create_dir_in, f) at h))
      | inl t ↦ elim (Bool-cases (is_empty name)) [
        | inl i ↦ absurd (cc (rw (create_dir_in, t, i) at h))
        | inr i ↦
            rw (create_dir_in, t, i)
              (attach_new-true v d a name (new_node current name node_dir)
                (rw (create_dir_in, t, i) at h))
      ]
    ]

create_dir-true :
    (current : Option User) (a : ℕ) (v : Vfs) (path : Text)
    → (create_dir current (some a) v (some path)).1 ≡ true
    → (d : ℕ) × (resolve_parent v path ≡ some d)
      × (find_child v.node d (extract_name path) ≡ none)
      × ((create_dir current (some a) v (some path)).0
          ≡ attach v d a (new_node current (extract_name path) node_dir))
unfolding create_dir parent_dir
create_dir-true current a v [] h = absurd (cc h)
create_dir-true current a v (c ∷ cs) h = elim (Option-cases (resolve_parent v (c ∷ cs))) [
  | inl e ↦ absurd (cc (rw (create_dir, parent_dir, e) at h))
  | inr (d, e) ↦ elim (Bool-cases ((v.node d).type_ == node_dir)) [
    | inr f ↦ absurd (cc (rw (create_dir, parent_dir, e, f) at h))
    | inl t ↦
        let (free, made) =
          create_dir_in-true current v d a (extract_name (c ∷ cs))
            (rw (create_dir, parent_dir, e, t) at h) in
        (d, e, free, rw (create_dir, parent_dir, e, t) made)
  ]
]

-- Where a set of nodes has the root and, with a node, its parent and its children, and the new
-- address is not in it: if `create_dir` succeeds for a path whose last name has at most 63 bytes,
-- every path that led to a node leads to the same one, the new node is found under its name in the
-- directory of the path and leads back to that by `..`, and the set with the new node is again
-- closed in this way.
pub create_dir_lem :
    (L : ℕ → Type 0) (current : Option User) (a : ℕ) (v : Vfs) (path : Text)
    → IsClosed L v
    → ¬ L a
    → length (extract_name path) ≤ 63
    → (create_dir current (some a) v (some path)).1 ≡ true
    → let w = (create_dir current (some a) v (some path)).0 in
      ((q : Option Text) (r : ℕ) → vfs_resolve v q ≡ some r → vfs_resolve w q ≡ some r)
      × ((d : ℕ) × (resolve_parent v path ≡ some d)
          × (find_child w.node d (extract_name path) ≡ some a)
          × (find_child w.node a (46 ∷ 46 ∷ []) ≡ some d))
      × IsClosed (λ i. L i ⊎ (i ≡ a)) w
create_dir_lem L current a v path closed out short h =
    let (d, e, free, made) = create_dir-true current a v path h in
    let at_d : L d = resolve_parent-In L v path d closed e in
    let name : Text = extract_name path in
    let cut : take 63 name ≡ name = take_all 63 name short in
    let n : VNode = new_node current name node_dir in
    let (unused_name, found) = attach-found L v closed a d n out at_d (rw cut free) in
    let ext = attach-Extends L v closed a d n out at_d unused_name in
    rw made (
      λ q r g. (vfs_resolve_kept L v (attach v d a n) closed ext q r g).0,
      (
        d,
        e,
        ap (find_child (attach v d a n).node d) (sym cut) ∙ found,
        attach-up L v closed a d n out at_d,
      ),
      attach-IsClosed L v closed a d n out at_d refl,
    )
