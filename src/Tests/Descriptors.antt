-- ===== src/Tests/Descriptors.antt =====
-- Runs of descriptors and pipes (kernel/src/fs/vfs.rs) at concrete inputs.

use elitra_os.Base.{
  ℕ, suc, ◌≤◌, ◌<◌, ◌≡◌, refl, ap, true, false, Option, none, some, List, [], ◌∷◌, ◌++◌, length,
  take, set, replicate, if◌then◌else◌, arith, inl, inr, Bool-cases, length-replicate,
}
use elitra_os.Util.Klib.{pos}
use elitra_os.Fs.Vfs.{VNode, User, node_file, new_node, mode_of, check_permission}
use elitra_os.Fs.Vfs.Files.{
  FdEntry, Files, entry, unused_fd, opened, is_used, alloc_fd, moved, vfs_read, vfs_write_fd,
}
use elitra_os.Fs.Vfs.Files.Buffer.{IsFile}
use elitra_os.Fs.Vfs.Files.Content.{vfs_read-vfs_write_fd}
use elitra_os.Fs.Vfs.Table.{vfs_lseek, vfs_dup, vfs_close}
use elitra_os.Fs.Vfs.Table.Copies.{IsCopied, vfs_dup_lem, vfs_close-vfs_dup}
use elitra_os.Fs.Vfs.Pipe.{
  PipeBuffer, empty_pipe, is_end, pipe_from_fd, has_bytes, has_room, take_byte, put_byte, pipe_read,
  pipe_write, pipe_at,
}
use elitra_os.Fs.Vfs.Pipe.Ring.{
  IsPipe, contents, take_byte-IsPipe, put_byte-IsPipe, contents-take_byte,
}
use elitra_os.Fs.Vfs.Pipe.Read.{AreSound, IsSound, ReadRun, pipe_at-set, set-IsSound, pipe_read_lem}
use elitra_os.Fs.Vfs.Pipe.Write.{Takes, WriteRun, pipe_write_lem}

abbrev user : Option User
user = some (record { uid = 7; gid = 7 })

abbrev leaf : VNode
leaf = new_node user (97 ∷ []) node_file

-- one open file in a table of 128
abbrev table : List FdEntry
table = opened 2 ∷ replicate 127 unused_fd

abbrev files : Files
files = record { vfs = record { node = λ i. leaf; root = none }; fds = table }

abbrev hello : List ℕ
hello = 104 ∷ 105 ∷ []

may_write : check_permission user leaf 2 ≡ true
unfolding check_permission mode_of
may_write = refl

may_read : check_permission user leaf 4 ≡ true
unfolding check_permission mode_of
may_read = refl

table_size : length table ≡ 128
table_size = ap suc (length-replicate 127 unused_fd)

table_in : 0 < length table
table_in = omega arith

vfs_read-vfs_write_fd_example :
    let (written, w) = vfs_write_fd user (some []) files 0 hello in
    let (back, o) = vfs_lseek written 0 (pos 0) 0 in
    (w ≡ moved hello)
    × IsFile (written.vfs.node 2)
    × (o ≡ some 0)
    × ((vfs_read user back 0 2).1 ≡ moved hello)
vfs_read-vfs_write_fd_example =
    vfs_read-vfs_write_fd user [] files 0 2 hello refl table_in refl refl (inl (refl, refl))
      may_write may_read (omega arith) (omega arith)

copied : (vfs_dup table 0).1 ≡ some 1
unfolding vfs_dup alloc_fd
copied = refl

vfs_close-vfs_dup_example :
    let (t, first) = vfs_close (vfs_dup table 0).0 1 in
    let (r, second) = vfs_close t 0 in
    (first ≡ true)
    × (second ≡ true)
    × (is_used r 1 ≡ false)
    × (is_used r 0 ≡ true)
    × (entry r 0 ≡ entry table 0)
vfs_close-vfs_dup_example =
    vfs_close-vfs_dup table 0 1 table_size refl (omega arith) (omega arith) copied

vfs_dup_lem_example : IsCopied table 0 (vfs_dup table 0).0 1
vfs_dup_lem_example = vfs_dup_lem table 0 1 table_in copied (omega arith)

-- a pipe with two bytes, at the end of the ring and at its start
abbrev pipe : PipeBuffer
pipe = record empty_pipe {
  used = true;
  read_open = true;
  write_open = true;
  head = 1;
  tail = 4095;
  read_fd = 32;
  write_fd = 33;
  readers = 1;
  writers = 1;
}

pipe-IsPipe : IsPipe pipe
pipe-IsPipe = record {
  whole = length-replicate {A = ℕ} 4096 0;
  head_in = omega arith;
  tail_in = omega arith;
}

-- Another task puts a byte whenever there is room, or takes one whenever one waits.
abbrev writer : ℕ → List PipeBuffer → List PipeBuffer
writer k ps = set ps 0 (if has_room (pipe_at ps 0) then put_byte 7 (pipe_at ps 0) else pipe_at ps 0)

abbrev reader : ℕ → List PipeBuffer → List PipeBuffer
reader k ps =
    set ps 0 (if has_bytes (pipe_at ps 0) then (take_byte (pipe_at ps 0)).1 else pipe_at ps 0)

writer-AreSound : AreSound 0 writer
writer-AreSound k ps h = elim (Bool-cases (has_room (pipe_at ps 0))) [
  | inl t ↦ rw t (set-IsSound ps 0 _ h.0 (put_byte-IsPipe (pipe_at ps 0) h.1 7))
  | inr f ↦ rw f (set-IsSound ps 0 _ h.0 h.1)
]

reader-Takes : Takes 0 reader
reader-Takes k ps h = elim (Bool-cases (has_bytes (pipe_at ps 0))) [
  | inl t ↦
      let p : PipeBuffer = pipe_at ps 0 in
      rw t (
        set-IsSound ps 0 _ h.0 (take_byte-IsPipe p h.1),
        (
          (take_byte p).0 ∷ [],
          rw (pipe_at-set ps 0 (take_byte p).1 h.0) (contents-take_byte p h.1 t),
        ),
      )
  | inr f ↦ rw f (set-IsSound ps 0 _ h.0 h.1, ([], rw (pipe_at-set ps 0 (pipe_at ps 0) h.0) refl))
]

reads_from : pipe_from_fd (pipe ∷ []) 32 true ≡ some 0
unfolding pipe_from_fd is_end
reads_from = refl

writes_to : pipe_from_fd (pipe ∷ []) 33 false ≡ some 0
unfolding pipe_from_fd is_end
writes_to = refl

pipe-IsSound : IsSound 0 (pipe ∷ [])
pipe-IsSound = (omega arith, pipe-IsPipe)

pipe_read_lem_example :
    (last : List PipeBuffer) × (out found : List ℕ) × (pipe_read writer 32 5 (pipe ∷ [])
      ≡ some (last, some out))
    × ReadRun writer 0 0 5 0 (pipe ∷ []) out found last
    × IsSound 0 last
    × (length out ≤ 5)
    × (out ++ contents (pipe_at last 0) ≡ contents pipe ++ found)
pipe_read_lem_example =
    pipe_read_lem writer 32 5 0 (pipe ∷ []) writer-AreSound reads_from pipe-IsSound

pipe_write_lem_example :
    (last : List PipeBuffer) × (n : ℕ) × (away : List ℕ) × (pipe_write reader 33 hello (pipe ∷ [])
      ≡ some (last, some n))
    × WriteRun reader 0 0 hello 0 (pipe ∷ []) n away last
    × IsSound 0 last
    × (n ≤ 2)
    × (contents pipe ++ take n hello ≡ away ++ contents (pipe_at last 0))
pipe_write_lem_example =
    pipe_write_lem reader 33 0 hello (pipe ∷ []) reader-Takes writes_to pipe-IsSound
