-- ===== src/Fs/Vfs/Remove.antt =====
-- The calls that remove, rename and describe nodes (kernel/src/fs/vfs.rs). What a call returns is
-- the list of the nodes that it frees, with their data, or `none` for -1.
use elitra_os.Base.{
  ℕ, Bool, true, false, not, ◌||◌, Option, none, some, List, [], ◌∷◌, ◌++◌, take, ◌==◌,
  if◌then◌else◌,
}
use elitra_os.Fs.Mount.{Text, given}
use elitra_os.Fs.Vfs.{
  VNode, Vfs, User, Nodes, node_file, node_dir, node_symlink, put_node, check_permission,
  find_child, add_child, resolve_parent, extract_name, vfs_resolve,
}

-- the first place of the list that has the node
unfoldable pub drop_child : ℕ → List ℕ → List ℕ
drop_child at [] = []
drop_child at (c ∷ cs) = let rest = drop_child at cs in if c == at then cs else c ∷ rest

unfoldable pub unlink_from : Nodes → ℕ → ℕ → Nodes
unlink_from nodes parent at =
    put_node nodes parent
      (record (nodes parent) { children = drop_child at (nodes parent).children })

unfoldable pub is_root : Vfs → ℕ → Bool
is_root v at = elim v.root [ none ↦ false | some r ↦ at == r ]

-- Of a directory only the direct children are freed.
unfoldable pub remove_node : Vfs → Option Text → Vfs × Option (List ℕ)
remove_node v path = elim (given path) [
  | none ↦ (v, none)
  | some p ↦ elim (vfs_resolve v (some p)) [
    | none ↦ (v, none)
    | some at ↦ if is_root v at then (v, none) else elim (v.node at).parent [
      | none ↦ (v, none)
      | some parent ↦
          (record v { node = unlink_from v.node parent at }, some ((v.node at).children ++ at ∷ []))
    ]
  ]
]

unfoldable pub unlink_child : Vfs → ℕ → Option ℕ → Vfs × Option (List ℕ)
unlink_child v parent none = (v, none)
unlink_child v parent (some at) =
    if (v.node at).type_ == node_file || (v.node at).type_ == node_symlink
    then (record v { node = unlink_from v.node parent at }, some (at ∷ []))
    else (v, none)

unfoldable pub vfs_unlink : Option User → Vfs → Option Text → Vfs × Option (List ℕ)
vfs_unlink current v path = elim (given path) [
  | none ↦ (v, none)
  | some p ↦ elim (resolve_parent v p) [
    | none ↦ (v, none)
    | some parent ↦
        if check_permission current (v.node parent) 6
        then unlink_child v parent (find_child v.node parent (extract_name p))
        else (v, none)
  ]
]

-- Whether the parent, where there is one, may be written.
unfoldable pub parent_writable : Option User → Vfs → ℕ → Bool
parent_writable current v at = elim (v.node at).parent [
  | none ↦ true
  | some parent ↦ check_permission current (v.node parent) 2
]

abbrev pub is_childless : List ℕ → Bool
is_childless [] = true
is_childless (c ∷ cs) = false

unfoldable pub vfs_rmdir : Option User → Vfs → Option Text → Vfs × Option (List ℕ)
vfs_rmdir current v path = elim (given path) [
  | none ↦ (v, none)
  | some p ↦ elim (vfs_resolve v (some p)) [
    | none ↦ (v, none)
    | some at ↦
        if not ((v.node at).type_ == node_dir) || is_root v at
        then (v, none)
        else if not (parent_writable current v at)
        then (v, none)
        else if not (is_childless (v.node at).children)
        then (v, none)
        else remove_node v (some p)
  ]
]

-- The second half of `rename`, the node unlinked: on failure it goes back to the front of its list.
unfoldable pub move_to : Option User → Vfs → ℕ → ℕ → Text → Vfs × Bool
move_to current v old_parent at new_path =
    let back : Vfs = record v { node = add_child v.node old_parent at } in
    elim (resolve_parent v new_path) [
      | none ↦ (back, false)
      | some new_parent ↦
          let moved : VNode = record (v.node at) {
            name = take 63 (extract_name new_path);
            parent = some new_parent;
          } in
          if check_permission current (v.node new_parent) 6
          then (record v { node = add_child (put_node v.node at moved) new_parent at }, true)
          else (back, false)
    ]

unfoldable pub rename_node : Option User → Vfs → ℕ → Text → Vfs × Bool
rename_node current v at new_path = elim (v.node at).parent [
  | none ↦ (v, false)
  | some old_parent ↦
      let unlinked : Vfs = record v { node = unlink_from v.node old_parent at } in
      if check_permission current (v.node old_parent) 6
      then move_to current unlinked old_parent at new_path
      else (v, false)
]

unfoldable pub vfs_rename : Option User → Vfs → Option Text → Option Text → Vfs × Bool
vfs_rename current v old_path new_path = elim (given old_path) [
  | none ↦ (v, false)
  | some o ↦ elim (given new_path) [
    | none ↦ (v, false)
    | some n ↦ elim (vfs_resolve v (some o)) [
      | none ↦ (v, false)
      | some at ↦ if is_root v at then (v, false) else rename_node current v at n
    ]
  ]
]
