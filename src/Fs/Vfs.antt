-- ===== src/Fs/Vfs.antt =====
-- kernel/src/fs/vfs.rs: the nodes of the file system and the search for a path. A pointer to a node
-- is its address, a null pointer `none`; the list of a directory's nodes, linked by `next`, is the
-- list of their addresses. A string is the list of its bytes before the zero. An address that
-- `krust_malloc` returns is an argument, `none` where it returns null; a node that was freed keeps
-- its contents until its address is given out again.
pub mod Search
pub mod Make
pub mod Remove
pub mod Attributes
pub mod Files
pub mod Table
pub mod Pipe
use elitra_os.Base.{
  ℕ, zero, suc, ◌+◌, ◌-◌, ◌/◌, ◌%◌, Bool, true, false, Option, none, some, List, [], ◌∷◌, ◌++◌,
  length, take, ltb, leb, ◌==◌, if◌then◌else◌,
}
use Prim.Native.Nat.{bit_and}
use elitra_os.Fs.Mount.{Text, same_text}
use elitra_os.Util.Klib.{ℤ}

abbrev pub node_file : ℕ
node_file = 0

abbrev pub node_dir : ℕ
node_dir = 1

abbrev pub node_device : ℕ
node_device = 2

abbrev pub node_symlink : ℕ
node_symlink = 3

-- A driver's function, with a size and an offset: what it returns and the bytes that it leaves.
abbrev pub DeviceCall : Type 0
DeviceCall = ℕ → ℕ → ℤ × List ℕ

pub record VNode : Type 0 where
  pub name : Text
  pub type_ : ℕ
  pub size : ℕ
  pub parent : Option ℕ
  pub children : List ℕ
  pub content : Option (List ℕ)
  pub dev_read : Option DeviceCall
  pub dev_write : Option DeviceCall
  pub link_target : Text
  pub uid : ℕ
  pub gid : ℕ
  pub mode : ℕ

abbrev pub Nodes : Type 0
Nodes = ℕ → VNode

-- the nodes, and ROOT
pub record Vfs : Type 0 where
  pub node : Nodes
  pub root : Option ℕ

-- the uid and the gid of the current task
pub record User : Type 0 where
  pub uid : ℕ
  pub gid : ℕ

abbrev pub put_node : Nodes → ℕ → VNode → Nodes
put_node nodes at v i = if at == i then v else nodes i

abbrev owner : Option User → ℕ
owner none = 0
owner (some u) = u.uid

abbrev group : Option User → ℕ
group none = 0
group (some u) = u.gid

-- 0o100644, 0o040755, 0o020666 and 0o120777
unfoldable pub mode_of : ℕ → ℕ
mode_of type_ =
    if type_ == node_file
    then 33188
    else if type_ == node_dir
    then 16877
    else if type_ == node_device
    then 8630
    else if type_ == node_symlink
    then 41471
    else 0

abbrev pub new_node : Option User → Text → ℕ → VNode
new_node current name node_type = record {
  name = take 63 name;
  type_ = node_type;
  size = 0;
  parent = none;
  children = [];
  content = none;
  dev_read = none;
  dev_write = none;
  link_target = [];
  uid = owner current;
  gid = group current;
  mode = mode_of node_type;
}

-- The bits for the owner, the group or the others, of which all that are wanted have to be set.
unfoldable pub check_permission : Option User → VNode → ℕ → Bool
check_permission none n want = true
check_permission (some u) n want =
    let bits =
      if u.uid == n.uid
      then n.mode / 64 % 8
      else if u.gid == n.gid
      then n.mode / 8 % 8
      else n.mode % 8 in
    if u.uid == 0 then true else bit_and bits want == want

unfoldable pub child_named : Nodes → Text → List ℕ → Option ℕ
child_named nodes name [] = none
child_named nodes name (c ∷ cs) =
    let rest = child_named nodes name cs in if same_text (nodes c).name name then some c else rest

abbrev pub parent_or : ℕ → Option ℕ → ℕ
parent_or dir none = dir
parent_or dir (some p) = p

unfoldable pub find_child : Nodes → ℕ → Text → Option ℕ
find_child nodes dir name =
    if same_text name (46 ∷ [])
    then some dir
    else if same_text name (46 ∷ 46 ∷ [])
    then some (parent_or dir (nodes dir).parent)
    else child_named nodes name (nodes dir).children

-- `child` put at the front of the list of `parent`
unfoldable pub add_child : Nodes → ℕ → ℕ → Nodes
add_child nodes parent child =
    put_node nodes parent (record (nodes parent) { children = child ∷ (nodes parent).children })

unfoldable pub skip_slashes : Text → Text
skip_slashes [] = []
skip_slashes (c ∷ cs) = let rest = skip_slashes cs in if c == 47 then rest else c ∷ cs

-- the path up to the next slash, and from that on
unfoldable pub segment : Text → Text
segment [] = []
segment (c ∷ cs) = let rest = segment cs in if c == 47 then [] else c ∷ rest

unfoldable pub after_segment : Text → Text
after_segment [] = []
after_segment (c ∷ cs) = let rest = after_segment cs in if c == 47 then c ∷ cs else rest

-- One turn of `resolve_path_inner`: the call that it ends with, or its result.
pub data Turn : Type 0 where
  done : Option ℕ → Turn
  go : Option ℕ → Text → ℕ → Turn

-- the buffer of 512 bytes: the target, then what is left of the path
abbrev pub spliced : Text → Text → Text
spliced target rest = take 255 target ++ take (510 - length (take 255 target)) rest

unfoldable pub starts_with_slash : Text → Bool
starts_with_slash [] = false
starts_with_slash (c ∷ cs) = c == 47

unfoldable pub into_child : Vfs → ℕ → Text → ℕ → ℕ → Turn
into_child v base rest depth child =
    let target = (v.node child).link_target in
    if (v.node child).type_ == node_symlink
    then go (if starts_with_slash target then v.root else some base) (spliced target rest)
        (suc depth)
    else go (some child) rest depth

unfoldable pub enter : Vfs → ℕ → Text → ℕ → Turn
enter v base [] depth = done (some base)
enter v base (c ∷ cs) depth =
    if leb 64 (length (segment (c ∷ cs)))
    then done none
    else elim (find_child v.node base (segment (c ∷ cs))) [
      | none ↦ done none
      | some child ↦ into_child v base (after_segment (c ∷ cs)) depth child
    ]

unfoldable pub turn : Vfs → Option ℕ → Text → ℕ → Turn
turn v none path depth = done none
turn v (some base) path depth =
    if ltb 5 depth then done none else enter v base (skip_slashes path) depth

-- The recursion on fuel, `none` where that runs out.
unfoldable pub resolve_path_inner : ℕ → Vfs → Option ℕ → Text → ℕ → Option (Option ℕ)
resolve_path_inner zero v base path depth = none
resolve_path_inner (suc fuel) v base path depth = elim (turn v base path depth) [
  | done r ↦ some r
  | go b p d ↦ resolve_path_inner fuel v b p d
]

-- enough for a path and for the buffers of 6 symbolic links
abbrev pub path_fuel : Text → ℕ
path_fuel path = 3067 + length path

abbrev pub result_of : Option (Option ℕ) → Option ℕ
result_of none = none
result_of (some r) = r

unfoldable pub resolve_path : Vfs → Option ℕ → Text → Option ℕ
resolve_path v base path = result_of (resolve_path_inner (path_fuel path) v base path 0)

-- the text before the last slash
unfoldable pub before_last_slash : Text → Option Text
before_last_slash [] = none
before_last_slash (c ∷ cs) = elim (before_last_slash cs) [
  | some t ↦ some (c ∷ t)
  | none ↦ if c == 47 then some [] else none
]

unfoldable pub resolve_parent : Vfs → Text → Option ℕ
resolve_parent v path = elim (before_last_slash (take 255 path)) [
  | none ↦ v.root
  | some dir ↦ resolve_path v v.root dir
]

-- The loop of `extract_name` with the name so far.
unfoldable pub name_from : Text → Text → Text
name_from name [] = name
name_from name (c ∷ cs) =
    let rest = name_from name cs in let cut = name_from cs cs in if c == 47 then cut else rest

unfoldable pub extract_name : Text → Text
extract_name path = name_from path path

unfoldable pub vfs_resolve : Vfs → Option Text → Option ℕ
vfs_resolve v none = v.root
vfs_resolve v (some []) = v.root
vfs_resolve v (some (c ∷ cs)) = resolve_path v v.root (c ∷ cs)

-- the root is its own parent; `place` is the address of its node
unfoldable pub vfs_init : Option User → Nodes → ℕ → Vfs
vfs_init current nodes place = record {
  node = put_node nodes place (record (new_node current [] node_dir) { parent = some place });
  root = some place;
}
