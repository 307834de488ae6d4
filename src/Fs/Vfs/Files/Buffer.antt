-- ===== src/Fs/Vfs/Files/Buffer.antt =====
-- The buffer of a file as reads and writes find it (kernel/src/fs/vfs.rs).
use mathlib.Core.List.{append_assoc}
use elitra_os.Base.{
  sym, Bool-cases, inl, inr, ltb, ℕ, ◌+◌, ◌-◌, ◌%◌, ◌^◌, ◌≤◌, ◌<◌, ◌≡◌, ◌∙◌, refl, ap, true, false,
  Option, none, some, List, ◌++◌, length, take, drop, set, replicate, min, leb, arith, ◌⊎◌,
  length-append, length-take, length-drop, length-replicate, take-length_append, drop-length_append,
}
use elitra_os.Util.Klib.{pos}
use elitra_os.Fs.Vfs.{VNode, User, node_file, check_permission}
use elitra_os.Fs.Vfs.Files.{
  FdEntry, Files, entry, grown, is_used, max_fds, moved, put_bytes, read_bytes, read_node, vfs_read,
  word, write_bytes,
}
use elitra_os.Fs.Vfs.Table.{origin, moved_by, vfs_lseek}

-- A file has a buffer of its size, or none and size 0.
abbrev pub IsFile : VNode → Type 0
IsFile n =
    ((n.content ≡ none) × (n.size ≡ 0))
    ⊎ ((old : List ℕ) × (n.content ≡ some old) × (length old ≡ n.size))

-- what `check_permission` and the calls look at
abbrev pub IsLike : VNode → VNode → Type 0
IsLike n m = (m.type_ ≡ n.type_) × (m.mode ≡ n.mode) × (m.uid ≡ n.uid) × (m.gid ≡ n.gid)

-- A buffer of the file's size, with room up to `end_`.
abbrev pub HasRoom : VNode → ℕ → Type 0
HasRoom n end_ =
    (old : List ℕ) × (n.content ≡ some old) × (length old ≡ n.size) × (end_ ≤ length old)

length-grown :
    (n : VNode) (m : List ℕ) (end_ : ℕ) → IsFile n → n.size ≤ end_ → length (grown n m end_) ≡ end_
unfolding grown
length-grown n m end_ (inl (c, z)) h =
    rw (c, z) (length-replicate {A = ℕ} (end_ - 0) 0 ∙ omega arith)
length-grown n m end_ (inr (old, c, e)) h = rw c (
    omega (
      arith,
      e,
      h,
      length-append (take n.size old) (replicate (end_ - n.size) 0),
      length-take n.size old,
      length-replicate {A = ℕ} (end_ - n.size) 0,
    ))

-- Writing some bytes below the limit of 32 bits puts them into a buffer that has room for them.
pub write_bytes-put_bytes :
    (m : List ℕ) (f : Files) (fd at : ℕ) (n : VNode) (bytes : List ℕ)
    → IsFile n
    → 0 < length bytes
    → (entry f.fds fd).offset + length bytes < word
    → (k : VNode) × (write_bytes (some m) f fd at n bytes ≡ put_bytes f fd at k bytes)
      × IsLike n k
      × HasRoom k ((entry f.fds fd).offset + length bytes)
unfolding write_bytes
write_bytes-put_bytes m f fd at n bytes h hl hw =
    let end_ : ℕ = (entry f.fds fd).offset + length bytes in
    let e : end_ % word ≡ end_ = omega (arith, hw) in
    elim (Bool-cases (ltb n.size end_)) [
      | inl t ↦
          let big = length-grown n m end_ h (ground (arith, t)) in
          (
            record n { content = some (grown n m end_); size = end_ },
            rw (write_bytes, e, t) refl,
            (refl, refl, refl, refl),
            (grown n m end_, refl, big, omega (arith, big)),
          )
      | inr g ↦ (
        n,
        rw (write_bytes, e, g) refl,
        (refl, refl, refl, refl),
        elim h [
          | inl c ↦ absurd (ground (arith, g, c.1, hl))
          | inr c ↦ (c.0, c.1, c.2, ground (arith, g, c.2))
        ],
      )
    ]

-- the buffer with bytes put into it
abbrev pub spliced_in : List ℕ → ℕ → List ℕ → List ℕ
spliced_in old off bytes = take off old ++ bytes ++ drop (off + length bytes) old

pub length-spliced_in :
    (old bytes : List ℕ) (off : ℕ)
    → off + length bytes ≤ length old
    → length (spliced_in old off bytes) ≡ length old
length-spliced_in old bytes off h = omega (
  arith,
  h,
  length-append (take off old ++ bytes) (drop (off + length bytes) old),
  length-append (take off old) bytes,
  length-take off old,
  length-drop (off + length bytes) old,
)

drop-append_of : (n : ℕ) (bs rest : List ℕ) → n ≡ length bs → drop n (bs ++ rest) ≡ rest
drop-append_of n bs rest e = rw e (drop-length_append bs rest)

-- What was put is there.
pub take-drop-spliced_in :
    (old bytes : List ℕ) (off : ℕ)
    → off + length bytes ≤ length old
    → take (length bytes) (drop off (spliced_in old off bytes)) ≡ bytes
take-drop-spliced_in old bytes off h =
    let e : spliced_in old off bytes ≡ take off old ++ (bytes ++ drop (off + length bytes) old) =
      append_assoc (take off old) bytes (drop (off + length bytes) old) in
    ap (λ b. take (length bytes) (drop off b)) e
    ∙ ap (take (length bytes)) (
        drop-append_of off (take off old) (bytes ++ drop (off + length bytes) old)
          (omega (arith, h, length-take off old)))
    ∙ take-length_append bytes (drop (off + length bytes) old)

pub check_permission-IsLike :
    (current : Option User) (n m : VNode) (want : ℕ)
    → IsLike n m
    → check_permission current m want ≡ check_permission current n want
unfolding check_permission
check_permission-IsLike none n m want h = refl
check_permission-IsLike (some u) n m want (t, mode, uid, gid) = rw (mode, uid, gid) refl

-- A read of some bytes of a file that has them.
pub read_room :
    (current : Option User) (f : Files) (fd at size : ℕ) (old : List ℕ)
    → is_used f.fds fd ≡ true
    → (entry f.fds fd).node ≡ some at
    → (f.vfs.node at).type_ ≡ node_file
    → check_permission current (f.vfs.node at) 4 ≡ true
    → (f.vfs.node at).content ≡ some old
    → length old ≡ (f.vfs.node at).size
    → 0 < size
    → (entry f.fds fd).offset + size ≤ length old
    → (vfs_read current f fd size).1 ≡ moved (take size (drop (entry f.fds fd).offset old))
unfolding vfs_read read_node read_bytes
read_room current f fd at size old used node_at type_file may has whole h l =
    let low : leb (f.vfs.node at).size (entry f.fds fd).offset ≡ false =
      ground (arith, h, l, whole) in
    let all : min size ((f.vfs.node at).size - (entry f.fds fd).offset) ≡ size =
      omega (arith, l, whole) in
    rw (vfs_read, used, node_at, read_node, may, type_file, read_bytes, low, has, all) refl

from_start : (n : ℕ) → n < word → moved_by 0 (pos n) ≡ some n
unfolding moved_by
from_start n h =
    let small : ltb (0 + n) (2 ^ 63) ≡ true = ground (arith, h) in rw small (ap some (omega arith))

-- A seek from the start.
pub lseek_start :
    (f : Files) (fd n : ℕ)
    → is_used f.fds fd ≡ true
    → n < word
    → vfs_lseek f fd (pos n) 0
      ≡ (record f { fds = set f.fds fd (record (entry f.fds fd) { offset = n }) }, some n)
unfolding vfs_lseek origin
lseek_start f fd n used h =
    let e : n % word ≡ n = omega (arith, h) in rw (vfs_lseek, used, from_start n h, e) refl

-- An index that passes the test has an entry in use.
pub entry_used : (fds : List FdEntry) (fd : ℕ) → is_used fds fd ≡ true → (entry fds fd).used ≡ true
entry_used fds fd u = elim (Bool-cases (ltb fd max_fds)) [
  | inl t ↦ rw (sym u, t) refl
  | inr g ↦ ground (arith, u, g)
]
