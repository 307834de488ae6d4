-- ===== src/Fs/Vfs/Files/Content.antt =====
-- What is written to a file is read from it (kernel/src/fs/vfs.rs).

use elitra_os.Base.{
  ℕ, ◌+◌, ◌%◌, ◌≤◌, ◌<◌, ◌≡◌, ◌∙◌, refl, ap, true, false, Option, some, List, length, take, drop,
  set, ltb, ◌==◌, arith, inl, inr, Bool-cases, length-set, get_or-set_self,
}
use elitra_os.Util.Klib.{pos}
use elitra_os.Fs.Vfs.{VNode, User, node_file, check_permission}
use elitra_os.Fs.Vfs.Files.{
  Files, FdEntry, entry, word, unused_fd, max_fds, is_used, with_node, moved, put_bytes,
  write_bytes, write_node, vfs_write_fd, vfs_read,
}
use elitra_os.Fs.Vfs.Table.{vfs_lseek}
use elitra_os.Fs.Vfs.Files.Buffer.{
  entry_used, IsFile, spliced_in, write_bytes-put_bytes, length-spliced_in, take-drop-spliced_in,
  check_permission-IsLike, read_room, lseek_start,
}

-- The descriptor after a transfer of `n` bytes.
abbrev moved_on : FdEntry → ℕ → FdEntry
moved_on e n = record e { offset = (e.offset + n) % word }

-- The files after a transfer into the buffer `old`.
abbrev stored : Files → ℕ → ℕ → VNode → List ℕ → List ℕ → Files
stored f fd at k old bytes =
    record (with_node f at
      (record k { content = some (spliced_in old (entry f.fds fd).offset bytes) })) {
        fds = set f.fds fd (moved_on (entry f.fds fd) (length bytes));
      }

put_room :
    (f : Files) (fd at : ℕ) (k : VNode) (bytes old : List ℕ)
    → k.content ≡ some old
    → (entry f.fds fd).offset + length bytes ≤ length old
    → put_bytes f fd at k bytes ≡ (stored f fd at k old bytes, moved bytes)
unfolding put_bytes
put_room f fd at k bytes old has room =
    let fits : ltb (length old) ((entry f.fds fd).offset + length bytes) ≡ false =
      ground (arith, room) in
    rw (put_bytes, has, fits) refl

write_room :
    (current : Option User) (m : List ℕ) (f : Files) (fd at : ℕ) (bytes : List ℕ)
    → is_used f.fds fd ≡ true
    → (entry f.fds fd).node ≡ some at
    → (f.vfs.node at).type_ ≡ node_file
    → check_permission current (f.vfs.node at) 2 ≡ true
    → vfs_write_fd current (some m) f fd bytes ≡ write_bytes (some m) f fd at (f.vfs.node at) bytes
unfolding vfs_write_fd write_node
write_room current m f fd at bytes used node_at type_file may =
    rw (vfs_write_fd, used, node_at, write_node, may, type_file) refl

-- An entry written into the table stands there, and is in use if it says so.
module _ (fds : List FdEntry) (fd : ℕ) (e : FdEntry) (inside : fd < length fds) where
  entry-set : entry (set fds fd e) fd ≡ e
  entry-set = get_or-set_self fds fd e unused_fd inside

  is_used-set : is_used fds fd ≡ true → e.used ≡ true → is_used (set fds fd e) fd ≡ true
  is_used-set used u = elim (Bool-cases (ltb fd max_fds)) [
    | inl t ↦ rw (t, entry-set) u
    | inr g ↦ ground (arith, used, g)
  ]

-- Reading what the buffer `old` of a file has, after a seek to where it was put.
read_stored :
    (current : Option User) (f : Files) (fd at off : ℕ) (old bytes : List ℕ)
    → is_used f.fds fd ≡ true
    → fd < length f.fds
    → (entry f.fds fd).node ≡ some at
    → (f.vfs.node at).type_ ≡ node_file
    → check_permission current (f.vfs.node at) 4 ≡ true
    → (f.vfs.node at).content ≡ some (spliced_in old off bytes)
    → length old ≡ (f.vfs.node at).size
    → 0 < length bytes
    → off + length bytes ≤ length old
    → off < word
    → let (back, o) = vfs_lseek f fd (pos off) 0 in
      (o ≡ some off) × ((vfs_read current back fd (length bytes)).1 ≡ moved bytes)
read_stored current f fd at off old bytes used inside node_at type_file may has whole hl room hw =
    let moved_to : FdEntry = record (entry f.fds fd) { offset = off } in
    let back : Files = record f { fds = set f.fds fd moved_to } in
    let e : entry back.fds fd ≡ moved_to = entry-set f.fds fd moved_to inside in
    let size_kept = length-spliced_in old bytes off room in
    let at_off : (entry back.fds fd).offset ≡ off = ap (λ x. x.offset) e in
    let r =
      read_room current back fd at (length bytes) (spliced_in old off bytes)
        (is_used-set f.fds fd moved_to inside used (entry_used f.fds fd used))
        (ap (λ x. x.node) e ∙ node_at) type_file may has (size_kept ∙ whole) hl
        (omega (arith, room, at_off, size_kept)) in
    rw (lseek_start f fd off used hw) (
      refl,
      r
          ∙ ap (λ o. moved (take (length bytes) (drop o (spliced_in old off bytes)))) at_off
          ∙ ap moved (take-drop-spliced_in old bytes off room),
    )

-- For a descriptor in use of a file with a buffer of its size, which the task may read and write:
-- writing some bytes that end below 2^32, with memory for a larger buffer, succeeds, seeking back
-- to where they were put succeeds, and reading as many gives them back; the file still has a buffer
-- of its size.
pub vfs_read-vfs_write_fd :
    (current : Option User) (m : List ℕ) (f : Files) (fd at : ℕ) (bytes : List ℕ)
    → is_used f.fds fd ≡ true
    → fd < length f.fds
    → (entry f.fds fd).node ≡ some at
    → (f.vfs.node at).type_ ≡ node_file
    → IsFile (f.vfs.node at)
    → check_permission current (f.vfs.node at) 2 ≡ true
    → check_permission current (f.vfs.node at) 4 ≡ true
    → 0 < length bytes
    → (entry f.fds fd).offset + length bytes < word
    → let (written, w) = vfs_write_fd current (some m) f fd bytes in
      let (back, o) = vfs_lseek written fd (pos (entry f.fds fd).offset) 0 in
      (w ≡ moved bytes)
      × IsFile (written.vfs.node at)
      × (o ≡ some (entry f.fds fd).offset)
      × ((vfs_read current back fd (length bytes)).1 ≡ moved bytes)
vfs_read-vfs_write_fd current m f fd at bytes used inside node_at type_file h may_write may_read hl
      hw =
    let n : VNode = f.vfs.node at in
    let (k, e, like, (old, has, whole, room)) = write_bytes-put_bytes m f fd at n bytes h hl hw in
    let off : ℕ = (entry f.fds fd).offset in
    let e₂ = write_room current m f fd at bytes used node_at type_file may_write in
    let after : Files = stored f fd at k old bytes in
    let self : (at == at) ≡ true = ground arith in
    let is_k : after.vfs.node at ≡ record k { content = some (spliced_in old off bytes) } =
      rw self refl in
    let size_kept = length-spliced_in old bytes off room in
    let may : check_permission current (after.vfs.node at) 4 ≡ true =
      check_permission-IsLike current n (after.vfs.node at) 4 (rw self like) ∙ may_read in
    let is_moved = entry-set f.fds fd (moved_on (entry f.fds fd) (length bytes)) inside in
    let k_file : k.type_ ≡ node_file = like.0 ∙ type_file in
    let r =
      read_stored current after fd at off old bytes
        (is_used-set f.fds fd (moved_on (entry f.fds fd) (length bytes)) inside used
          (entry_used f.fds fd used))
        (omega (arith, inside, length-set f.fds fd (moved_on (entry f.fds fd) (length bytes))))
        (ap (λ x. x.node) is_moved ∙ node_at) (rw self k_file) may (rw self refl) (rw self whole) hl
        room (omega (arith, hw)) in
    rw (e₂, e, put_room f fd at k bytes old has room)
      (refl, rw self (inr (spliced_in old off bytes, refl, size_kept ∙ whole)), r.0, r.1)
