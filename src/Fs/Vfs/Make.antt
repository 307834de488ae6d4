-- ===== src/Fs/Vfs/Make.antt =====
-- The calls that make nodes (kernel/src/fs/vfs.rs). `place` is what `krust_malloc` returns for the
-- node, `room` whether it returned memory for the data.
pub mod Extends
pub mod Kept
pub mod Dir
use elitra_os.Base.{
  ℕ, Bool, true, false, not, ◌&&◌, Option, none, some, List, [], ◌∷◌, take, ltb, ◌==◌,
  if◌then◌else◌,
}
use elitra_os.Fs.Mount.{Text, given}
use elitra_os.Fs.Vfs.{
  VNode, Vfs, User, Nodes, DeviceCall, node_file, node_dir, node_device, node_symlink, put_node,
  new_node, check_permission, find_child, add_child, resolve_parent, extract_name, vfs_resolve,
}

abbrev pub is_empty : Text → Bool
is_empty [] = true
is_empty (c ∷ cs) = false

-- A node written to its address and put into the directory `d`.
unfoldable pub attach : Vfs → ℕ → ℕ → VNode → Vfs
attach v d place n = record v {
  node = add_child (put_node v.node place (record n { parent = some d })) d place;
}

-- the node before the last slash, where it is a directory
unfoldable pub parent_dir : Vfs → Text → Option ℕ
parent_dir v path = elim (resolve_parent v path) [
  | none ↦ none
  | some d ↦ if (v.node d).type_ == node_dir then some d else none
]

-- The node made under a name that the directory does not have.
unfoldable pub attach_new : Vfs → ℕ → Text → Option ℕ → VNode → Vfs × Bool
attach_new v d name place n = elim (find_child v.node d name) [
  | some c ↦ (v, false)
  | none ↦ elim place [ none ↦ (v, false) | some at ↦ (attach v d at n, true) ]
]

unfoldable pub create_dir_in : Option User → Option ℕ → Vfs → ℕ → Text → Vfs × Bool
create_dir_in current place v d name =
    if not (check_permission current (v.node d) 6)
    then (v, false)
    else if is_empty name
    then (v, false)
    else attach_new v d name place (new_node current name node_dir)

unfoldable pub create_dir : Option User → Option ℕ → Vfs → Option Text → Vfs × Bool
create_dir current place v path = elim (given path) [
  | none ↦ (v, false)
  | some p ↦ elim (parent_dir v p) [
    | none ↦ (v, false)
    | some d ↦ create_dir_in current place v d (extract_name p)
  ]
]

-- Data is copied only where there is some; the name is not looked for.
unfoldable pub attach_file :
    Option User → Bool → Vfs → ℕ → Text → ℕ → Option (List ℕ) → ℕ → Vfs × Bool
attach_file current room v d name at data_ size =
    let empty : VNode = record (new_node current name node_file) { size = size } in
    elim data_ [
      | none ↦ (attach v d at empty, true)
      | some bytes ↦
          if not (ltb 0 size)
          then (attach v d at empty, true)
          else if room
          then (attach v d at (record empty { content = some (take size bytes) }), true)
          else (v, false)
    ]

unfoldable pub create_file_in :
    Option User → Option ℕ → Bool → Vfs → ℕ → Text → Option (List ℕ) → ℕ → Vfs × Bool
create_file_in current place room v d name data_ size =
    if not (check_permission current (v.node d) 2)
    then (v, false)
    else if is_empty name
    then (v, false)
    else elim place [
      | none ↦ (v, false)
      | some at ↦ attach_file current room v d name at data_ size
    ]

unfoldable pub create_file :
    Option User → Option ℕ → Bool → Vfs → Option Text → Option (List ℕ) → ℕ → Vfs × Bool
create_file current place room v path data_ size = elim (given path) [
  | none ↦ (v, false)
  | some p ↦ elim (parent_dir v p) [
    | none ↦ (v, false)
    | some d ↦ create_file_in current place room v d (extract_name p) data_ size
  ]
]

-- No permission is asked for.
unfoldable pub create_device :
    Option User → Option ℕ → Vfs → Option Text → Option DeviceCall → Option DeviceCall → Vfs × Bool
create_device current place v path dev_read dev_write =
    let device : Text → VNode = λ name. record (new_node current name node_device) {
      dev_read = dev_read;
      dev_write = dev_write;
    } in
    elim (given path) [
      | none ↦ (v, false)
      | some p ↦ elim (parent_dir v p) [
        | none ↦ (v, false)
        | some d ↦
            if is_empty (extract_name p)
            then (v, false)
            else attach_new v d (extract_name p) place (device (extract_name p))
      ]
    ]

unfoldable pub symlink_in : Option User → Option ℕ → Vfs → ℕ → Text → Text → Vfs × Bool
symlink_in current place v d name target =
    let link : VNode = record (new_node current name node_symlink) {
      link_target = take 255 target;
    } in
    if not (check_permission current (v.node d) 2)
    then (v, false)
    else if is_empty name
    then (v, false)
    else attach_new v d name place link

unfoldable pub vfs_symlink : Option User → Option ℕ → Vfs → Option Text → Option Text → Vfs × Bool
vfs_symlink current place v target linkpath = elim (given target) [
  | none ↦ (v, false)
  | some t ↦ elim (given linkpath) [
    | none ↦ (v, false)
    | some p ↦ elim (parent_dir v p) [
      | none ↦ (v, false)
      | some d ↦ symlink_in current place v d (extract_name p) t
    ]
  ]
]

-- The old data goes first; where there is no memory for the new, size 0 is left.
unfoldable pub overwrite_file : Bool → Vfs → ℕ → Option (List ℕ) → ℕ → Vfs × Bool
overwrite_file room v at data_ size =
    let cleared : VNode = record (v.node at) { content = none; size = 0 } in
    let empty : VNode = record cleared { size = size } in
    elim data_ [
      | none ↦ (record v { node = put_node v.node at empty }, true)
      | some bytes ↦
          if not (ltb 0 size)
          then (record v { node = put_node v.node at empty }, true)
          else if room
          then (
            record v {
              node = put_node v.node at (record empty { content = some (take size bytes) });
            },
            true,
          )
          else (record v { node = put_node v.node at cleared }, false)
    ]

unfoldable pub write_file :
    Option User → Option ℕ → Bool → Vfs → Option Text → Option (List ℕ) → ℕ → Vfs × Bool
write_file current place room v path data_ size =
    let created = create_file current place room v path data_ size in
    elim (given path) [
      | none ↦ (v, false)
      | some p ↦ elim (vfs_resolve v (some p)) [
        | none ↦ created
        | some at ↦
            if not ((v.node at).type_ == node_file)
            then created
            else if not (check_permission current (v.node at) 2)
            then (v, false)
            else overwrite_file room v at data_ size
      ]
    ]
