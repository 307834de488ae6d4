-- ===== src/Fs/Vfs/Files.antt =====
-- The open files of a task (kernel/src/fs/vfs.rs): its table of 128 descriptors over the nodes. A
-- negative descriptor is, read as a u32, above every index.
pub mod Buffer
pub mod Content
use elitra_os.Base.{
  ℕ, zero, suc, ◌+◌, ◌-◌, ◌*◌, ◌/◌, ◌%◌, ◌^◌, Bool, true, false, not, ◌&&◌, ◌||◌, Option, none,
  some, List, [], ◌∷◌, ◌++◌, length, take, drop, replicate, get_elem?, get_or, set, ltb, leb, ◌==◌,
  if◌then◌else◌, min,
}
use elitra_os.Fs.Mount.{Text, given}
use elitra_os.Util.Klib.{ℤ, pos, negsuc}
use elitra_os.Fs.Vfs.{
  VNode, Vfs, User, Nodes, DeviceCall, node_file, node_dir, node_device, put_node, new_node,
  check_permission, resolve_parent, extract_name, vfs_resolve,
}
use elitra_os.Fs.Vfs.Make.{is_empty, attach, parent_dir}

pub record FdEntry : Type 0 where
  pub node : Option ℕ
  pub offset : ℕ
  pub flags : ℕ
  pub used : Bool
  pub refcount : ℕ

abbrev pub max_fds : ℕ
max_fds = 128

abbrev pub word : ℕ
word = 2 ^ 32

abbrev pub unused_fd : FdEntry
unused_fd = record { node = none; offset = 0; flags = 0; used = false; refcount = 0 }

-- the nodes, and the table of the current task
pub record Files : Type 0 where
  pub vfs : Vfs
  pub fds : List FdEntry

abbrev pub entry : List FdEntry → ℕ → FdEntry
entry fds fd = get_or fds fd unused_fd

-- the first entry that is not used
unfoldable pub alloc_fd : List FdEntry → Option ℕ
alloc_fd [] = none
alloc_fd (f ∷ fs) =
    let rest : Option ℕ = elim (alloc_fd fs) [ none ↦ none | some i ↦ some (suc i) ] in
    if f.used then rest else some 0

abbrev pub opened : ℕ → FdEntry
opened at = record { node = some at; offset = 0; flags = 0; used = true; refcount = 1 }

unfoldable pub install : Files → ℕ → Files × Option ℕ
install f at = elim (alloc_fd f.fds) [
  | none ↦ (f, none)
  | some fd ↦ (record f { fds = set f.fds fd (opened at) }, some fd)
]

unfoldable pub is_openable : VNode → Bool
is_openable n = n.type_ == node_file || n.type_ == node_device

unfoldable pub vfs_open : Option User → Files → Option Text → Files × Option ℕ
vfs_open current f path = elim (given path) [
  | none ↦ (f, none)
  | some p ↦ elim (vfs_resolve f.vfs (some p)) [
    | none ↦ (f, none)
    | some at ↦
        if is_openable (f.vfs.node at) && check_permission current (f.vfs.node at) 4
        then install f at
        else (f, none)
  ]
]

abbrev pub with_node : Files → ℕ → VNode → Files
with_node f at n = record f { vfs = record f.vfs { node = put_node f.vfs.node at n } }

-- A new file is made before there is a descriptor for it.
unfoldable pub open_new : Option User → Option ℕ → Files → ℕ → Text → Files × Option ℕ
open_new current place f d name =
    if not (check_permission current (f.vfs.node d) 2)
    then (f, none)
    else if is_empty name
    then (f, none)
    else elim place [
      | none ↦ (f, none)
      | some at ↦
          install (record f { vfs = attach f.vfs d at (new_node current name node_file) }) at
    ]

unfoldable pub open_old : Option User → Files → ℕ → Files × Option ℕ
open_old current f at =
    if not ((f.vfs.node at).type_ == node_file)
    then (f, none)
    else if not (check_permission current (f.vfs.node at) 2)
    then (f, none)
    else install (with_node f at (record (f.vfs.node at) { content = none; size = 0 })) at

unfoldable pub vfs_open_write : Option User → Option ℕ → Files → Option Text → Files × Option ℕ
vfs_open_write current place f path = elim (given path) [
  | none ↦ (f, none)
  | some p ↦ elim (vfs_resolve f.vfs (some p)) [
    | some at ↦ open_old current f at
    | none ↦ elim (parent_dir f.vfs p) [
      | none ↦ (f, none)
      | some d ↦ open_new current place f d (extract_name p)
    ]
  ]
]

abbrev pub is_used : List FdEntry → ℕ → Bool
is_used fds fd = if ltb fd max_fds then (entry fds fd).used else false

-- What a read or a write returns: -1, the bytes that went over, an answer of a driver, or nothing
-- that can be said where the memory is not that of the file.
pub data Transfer : Type 0 where
  refused : Transfer
  moved : List ℕ → Transfer
  answered : ℤ × List ℕ → Transfer
  wild : Transfer

unfoldable pub advance : FdEntry → ℤ → FdEntry
advance e (pos n) = record e { offset = (e.offset + n) % word }
advance e (negsuc n) = e

-- `idle` is the result where the driver has no such function.
unfoldable pub call_device : Option DeviceCall → Transfer → Files → ℕ → ℕ → Files × Transfer
call_device none idle f fd size = (f, idle)
call_device (some call) idle f fd size =
    let answer = call size (entry f.fds fd).offset in
    (record f { fds = set f.fds fd (advance (entry f.fds fd) answer.0) }, answered answer)

unfoldable pub read_bytes : Files → ℕ → VNode → ℕ → Files × Transfer
read_bytes f fd n size =
    let e = entry f.fds fd in
    let to_read = min size (n.size - e.offset) in
    if leb n.size e.offset then (f, moved []) else elim n.content [
      | none ↦ if to_read == 0 then (f, moved []) else (f, wild)
      | some bytes ↦ (
        record f { fds = set f.fds fd (record e { offset = e.offset + to_read }) },
        moved (take to_read (drop e.offset bytes)),
      )
    ]

unfoldable pub read_node : Option User → Files → ℕ → VNode → ℕ → Files × Transfer
read_node current f fd n size =
    if not (check_permission current n 4)
    then (f, refused)
    else if n.type_ == node_device
    then call_device n.dev_read (moved []) f fd size
    else read_bytes f fd n size

unfoldable pub vfs_read : Option User → Files → ℕ → ℕ → Files × Transfer
vfs_read current f fd size =
    if not (is_used f.fds fd) then (f, refused) else elim (entry f.fds fd).node [
      | none ↦ (f, refused)
      | some at ↦ read_node current f fd (f.vfs.node at) size
    ]

-- The buffer that a file grows into: `fresh` is the memory of `krust_malloc`.
unfoldable pub grown : VNode → List ℕ → ℕ → List ℕ
grown n fresh new_size =
    let kept : List ℕ = elim n.content [
      | none ↦ take n.size fresh
      | some bytes ↦ take n.size bytes
    ] in
    kept ++ replicate (new_size - n.size) 0

-- The data copied into the buffer, where it fits.
unfoldable pub put_bytes : Files → ℕ → ℕ → VNode → List ℕ → Files × Transfer
put_bytes f fd at n bytes =
    let e = entry f.fds fd in
    let moved_on : FdEntry = record e { offset = (e.offset + length bytes) % word } in
    elim n.content [
      | none ↦ if length bytes == 0 then (f, moved []) else (f, wild)
      | some old ↦ if ltb (length old) (e.offset + length bytes) then (f, wild) else (
        record (with_node f at (record n {
          content = some (take e.offset old ++ bytes ++ drop (e.offset + length bytes) old);
        })) { fds = set f.fds fd moved_on },
        moved bytes,
      )
    ]

unfoldable pub write_bytes : Option (List ℕ) → Files → ℕ → ℕ → VNode → List ℕ → Files × Transfer
write_bytes fresh f fd at n bytes =
    let new_size = ((entry f.fds fd).offset + length bytes) % word in
    if not (ltb n.size new_size) then put_bytes f fd at n bytes else elim fresh [
      | none ↦ (f, refused)
      | some memory ↦
          put_bytes f fd at (record n { content = some (grown n memory new_size); size = new_size })
            bytes
    ]

unfoldable pub write_node :
    Option User → Option (List ℕ) → Files → ℕ → ℕ → List ℕ → Files × Transfer
write_node current fresh f fd at bytes =
    if not (check_permission current (f.vfs.node at) 2)
    then (f, refused)
    else if (f.vfs.node at).type_ == node_device
    then call_device (f.vfs.node at).dev_write (moved bytes) f fd (length bytes)
    else if not ((f.vfs.node at).type_ == node_file)
    then (f, refused)
    else write_bytes fresh f fd at (f.vfs.node at) bytes

unfoldable pub vfs_write_fd : Option User → Option (List ℕ) → Files → ℕ → List ℕ → Files × Transfer
vfs_write_fd current fresh f fd bytes =
    if not (is_used f.fds fd) then (f, refused) else elim (entry f.fds fd).node [
      | none ↦ (f, refused)
      | some at ↦ write_node current fresh f fd at bytes
    ]
