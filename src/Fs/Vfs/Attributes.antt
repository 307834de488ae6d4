-- ===== src/Fs/Vfs/Attributes.antt =====
-- The calls on the attributes of a node, on links and on the working directory
-- (kernel/src/fs/vfs.rs).
pub mod Mode
use elitra_os.Base.{
  ℕ, zero, suc, ◌+◌, ◌-◌, ◌*◌, ◌/◌, ◌%◌, Bool, true, false, not, ◌&&◌, ◌||◌, Option, none, some,
  List, [], ◌∷◌, length, take, ltb, ◌==◌, if◌then◌else◌,
}
use elitra_os.Fs.Mount.{Text, given}
use elitra_os.Fs.Vfs.{
  VNode, Vfs, User, node_dir, node_symlink, put_node, check_permission, find_child, resolve_parent,
  extract_name, vfs_resolve,
}
use elitra_os.Fs.Vfs.Remove.{is_root}

pub record FileStat : Type 0 where
  pub type_ : ℕ
  pub size : ℕ
  pub name : Text
  pub uid : ℕ
  pub gid : ℕ
  pub mode : ℕ

-- `(old & 0o170000) | (mode & 0o7777)` on u16
unfoldable pub with_mode : ℕ → ℕ → ℕ
with_mode old mode = old / 4096 * 4096 + mode % 4096

unfoldable pub may_chmod : Option User → VNode → Bool
may_chmod none n = true
may_chmod (some u) n = u.uid == 0 || u.uid == n.uid

-- The node that a path leads to, which is not the root.
unfoldable pub below_root : Vfs → Option Text → Option ℕ
below_root v path = elim (given path) [
  | none ↦ none
  | some p ↦ elim (vfs_resolve v (some p)) [
    | none ↦ none
    | some at ↦ if is_root v at then none else some at
  ]
]

unfoldable pub vfs_chmod : Option User → Vfs → Option Text → ℕ → Vfs × Bool
vfs_chmod current v path mode = elim (below_root v path) [
  | none ↦ (v, false)
  | some at ↦
      let changed : VNode = record (v.node at) { mode = with_mode (v.node at).mode mode } in
      if may_chmod current (v.node at)
      then (record v { node = put_node v.node at changed }, true)
      else (v, false)
]

unfoldable pub may_chown : Option User → Bool
may_chown none = true
may_chown (some u) = u.uid == 0

unfoldable pub vfs_chown : Option User → Vfs → Option Text → ℕ → ℕ → Vfs × Bool
vfs_chown current v path uid gid = elim (below_root v path) [
  | none ↦ (v, false)
  | some at ↦
      let changed : VNode = record (v.node at) { uid = uid; gid = gid } in
      if may_chown current
      then (record v { node = put_node v.node at changed }, true)
      else (v, false)
]

-- The buffer for the answer is given.
unfoldable pub vfs_stat : Vfs → Option Text → Option FileStat
vfs_stat v none = none
vfs_stat v (some path) = elim (vfs_resolve v (some path)) [
  | none ↦ none
  | some at ↦ some (record {
    type_ = (v.node at).type_;
    size = (v.node at).size;
    name = take 63 (v.node at).name;
    uid = (v.node at).uid;
    gid = (v.node at).gid;
    mode = (v.node at).mode;
  })
]

-- The text that is left in a buffer of `bufsize` bytes; the call returns its length.
unfoldable pub vfs_readlink : Vfs → Option Text → ℕ → Option Text
vfs_readlink v none bufsize = none
vfs_readlink v (some path) bufsize = if bufsize == 0 then none else elim (resolve_parent v path) [
  | none ↦ none
  | some parent ↦ elim (find_child v.node parent (extract_name path)) [
    | none ↦ none
    | some at ↦
        if (v.node at).type_ == node_symlink
        then some (take (bufsize - 1) (v.node at).link_target)
        else none
  ]
]

-- The working directory of the current task becomes the text of the path: `none` for -1.
unfoldable pub vfs_chdir : Option User → Vfs → Option Text → Option Text
vfs_chdir current v path = elim (given path) [
  | none ↦ none
  | some p ↦ elim (vfs_resolve v (some p)) [
    | none ↦ none
    | some at ↦
        if not ((v.node at).type_ == node_dir)
        then none
        else if not (check_permission current (v.node at) 1)
        then none
        else elim current [ none ↦ none | some u ↦ some (take 127 p) ]
  ]
]

-- `cwd` is the working directory of the current task, `none` where no task runs.
unfoldable pub vfs_getcwd : Option Text → ℕ → Option Text
vfs_getcwd none size = none
vfs_getcwd (some cwd) size = if size == 0 then none else some (take (size - 1) cwd)
