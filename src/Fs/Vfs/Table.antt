-- ===== src/Fs/Vfs/Table.antt =====
-- The calls on descriptors alone (kernel/src/fs/vfs.rs).
pub mod Copies
use elitra_os.Base.{
  ℕ, zero, suc, ◌+◌, ◌-◌, ◌*◌, ◌/◌, ◌%◌, ◌^◌, Bool, true, false, not, ◌&&◌, ◌||◌, Option, none,
  some, List, [], ◌∷◌, ◌++◌, length, set, ltb, leb, ◌==◌, if◌then◌else◌, min,
}
use elitra_os.Base.Bits.{test_bit, clear_bit}
use elitra_os.Util.Klib.{ℤ, pos, negsuc}
use elitra_os.Fs.Vfs.{VNode}
use elitra_os.Fs.Vfs.Files.{FdEntry, Files, entry, unused_fd, max_fds, word, alloc_fd, is_used}

-- An entry with further references loses one, and stays in use. The flags are kept.
unfoldable pub closed : FdEntry → FdEntry
closed e =
    if ltb 1 e.refcount
    then record e { refcount = e.refcount - 1 }
    else record e { used = false; node = none; offset = 0; refcount = 0 }

unfoldable pub vfs_close : List FdEntry → ℕ → List FdEntry × Bool
vfs_close fds fd =
    if is_used fds fd then (set fds fd (closed (entry fds fd)), true) else (fds, false)

-- `n + offset` on i64, `none` where that is negative or too large
unfoldable pub moved_by : ℕ → ℤ → Option ℕ
moved_by n (pos k) = if ltb (n + k) (2 ^ 63) then some (n + k) else none
moved_by n (negsuc k) = if leb (suc k) n then some (n - suc k) else none

-- Where an offset counts from; `none` for another `whence`, and where no node is there.
unfoldable pub origin : Files → FdEntry → ℕ → Option ℕ
origin f e whence =
    if whence == 0
    then some 0
    else if whence == 1
    then some e.offset
    else if whence == 2
    then elim e.node [ none ↦ none | some at ↦ some (f.vfs.node at).size ]
    else none

-- The offset is kept as a u32, and returned as it was.
unfoldable pub vfs_lseek : Files → ℕ → ℤ → ℕ → Files × Option ℕ
vfs_lseek f fd offset whence =
    let e = entry f.fds fd in
    if not (is_used f.fds fd) then (f, none) else elim (origin f e whence) [
      | none ↦ (f, none)
      | some start ↦ elim (moved_by start offset) [
        | none ↦ (f, none)
        | some n ↦ (record f { fds = set f.fds fd (record e { offset = n % word }) }, some n)
      ]
    ]

-- Entry `fd` becomes a copy of `oldfd`, which counts one reference more.
unfoldable pub copy_fd : List FdEntry → ℕ → ℕ → List FdEntry
copy_fd fds oldfd fd =
    let e = entry fds oldfd in
    let copied = set fds fd (record e { used = true; refcount = 1 }) in
    set copied oldfd
      (record (entry copied oldfd) { refcount = ((entry copied oldfd).refcount + 1) % word })

unfoldable pub vfs_dup : List FdEntry → ℕ → List FdEntry × Option ℕ
vfs_dup fds oldfd =
    if not (is_used fds oldfd)
    then (fds, none)
    else elim (alloc_fd fds) [ none ↦ (fds, none) | some fd ↦ (copy_fd fds oldfd fd, some fd) ]

unfoldable pub vfs_dup2 : List FdEntry → ℕ → ℕ → List FdEntry × Option ℕ
vfs_dup2 fds oldfd newfd =
    if not (is_used fds oldfd) || leb max_fds newfd
    then (fds, none)
    else if oldfd == newfd
    then (fds, some newfd)
    else (copy_fd fds oldfd newfd, some newfd)

-- `arg` is cut to a u32.
unfoldable pub vfs_fcntl : List FdEntry → ℕ → ℕ → ℕ → List FdEntry × Option ℕ
vfs_fcntl fds fd cmd arg =
    if not (is_used fds fd)
    then (fds, none)
    else if cmd == 0
    then vfs_dup fds fd
    else if cmd == 1
    then (fds, some (entry fds fd).flags)
    else if cmd == 2
    then (set fds fd (record (entry fds fd) { flags = arg % word }), some 0)
    else (fds, none)

-- `fd` below 0 is an entry to be left out; `revents` then keeps its value.
pub record PollFd : Type 0 where
  pub fd : ℤ
  pub events : ℕ
  pub revents : ℕ

-- POLLIN, or POLLNVAL
unfoldable pub poll_one : List FdEntry → PollFd → PollFd × ℕ
poll_one fds p = elim p.fd [
  | negsuc n ↦ (p, 0)
  | pos n ↦ (record p { revents = if is_used fds n then 1 else 32 }, 1)
]

unfoldable pub vfs_poll : List FdEntry → List PollFd → List PollFd × ℕ
vfs_poll fds [] = ([], 0)
vfs_poll fds (p ∷ ps) =
    let (q, n) = poll_one fds p in let (qs, m) = vfs_poll fds ps in (q ∷ qs, n + m)

-- The bits of one byte from `bit` on, `left` of them, `fd` the descriptor of the first: a bit of a
-- descriptor below `nfds` that is not in use is cleared, the others are counted.
unfoldable pub select_bits : List FdEntry → ℕ → ℕ → ℕ → ℕ → ℕ → ℕ × ℕ
select_bits fds nfds zero fd bit byte = (byte, 0)
select_bits fds nfds (suc left) fd bit byte =
    let dropped = select_bits fds nfds left (suc fd) (suc bit) (clear_bit byte bit) in
    let (kept, n) = select_bits fds nfds left (suc fd) (suc bit) byte in
    if leb nfds fd
    then (byte, 0)
    else if not (test_bit byte bit)
    then (kept, n)
    else if is_used fds fd
    then (kept, suc n)
    else dropped

unfoldable pub select_bytes : List FdEntry → ℕ → ℕ → List ℕ → List ℕ × ℕ
select_bytes fds nfds fd [] = ([], 0)
select_bytes fds nfds fd (b ∷ bs) =
    let (c, n) = select_bits fds nfds 8 fd 0 b in
    let (cs, m) = select_bytes fds nfds (fd + 8) bs in (c ∷ cs, n + m)

unfoldable pub select_set : List FdEntry → ℕ → Option (List ℕ) → Option (List ℕ) × ℕ
select_set fds nfds none = (none, 0)
select_set fds nfds (some bs) = let (cs, n) = select_bytes fds nfds 0 bs in (some cs, n)

-- The sets have `(nfds + 7) / 8` bytes; a negative `nfds` is, as a u32, above 1024.
unfoldable pub vfs_select :
    List FdEntry → ℕ → Option (List ℕ) → Option (List ℕ) → Option (List ℕ) × Option (List ℕ) × ℕ
vfs_select fds nfds readfds writefds =
    let (rs, n) = select_set fds nfds readfds in
    let (ws, m) = select_set fds nfds writefds in
    if nfds == 0 || ltb 1024 nfds then (readfds, writefds, 0) else (rs, ws, n + m)
