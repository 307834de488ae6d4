-- ===== src/Fs/Vfs/Table/Copies.antt =====
-- Descriptors given out, copied and closed (kernel/src/fs/vfs.rs).
use elitra_os.Fs.Vfs.Files.Buffer.{entry_used}
use elitra_os.Base.{
  ℕ, zero, suc, ◌+◌, ◌-◌, ◌%◌, ◌<◌, ◌≡◌, ◌≢◌, ◌∙◌, refl, sym, ap, subst, true, false, some, List,
  [], ◌∷◌, length, set, ltb, arith, inl, inr, Bool-cases, Option-cases, length-set, get_or-set_self,
  get_or-set_ne,
}
use mathlib.Core.Option.{some-injective}
use elitra_os.Fs.Vfs.Files.{FdEntry, entry, unused_fd, max_fds, word, alloc_fd, is_used}
use elitra_os.Fs.Vfs.Table.{closed, vfs_close, copy_fd, vfs_dup}

-- The entry is there and free, and those before it are in use.
abbrev pub IsLowest : List FdEntry → ℕ → Type 0
IsLowest fds i =
    (i < length fds) × ((entry fds i).used ≡ false) × ((j : ℕ) → j < i → (entry fds j).used ≡ true)

later :
    (f : FdEntry) (fs : List FdEntry) (k : ℕ)
    → f.used ≡ true
    → ((j : ℕ) → j < k → (entry fs j).used ≡ true)
    → (j : ℕ) → j < suc k
    → (entry (f ∷ fs) j).used ≡ true
later f fs k u h zero l = u
later f fs k u h (suc j) l = h j (omega (arith, l))

alloc_fd-IsLowest : (fds : List FdEntry) (i : ℕ) → alloc_fd fds ≡ some i → IsLowest fds i
unfolding alloc_fd
alloc_fd-IsLowest [] i e = absurd (cc e)
alloc_fd-IsLowest (f ∷ fs) i e = elim (Bool-cases f.used) [
  | inr u ↦
      let z : 0 ≡ i = some-injective 0 i (rw u at e) in
      subst (IsLowest (f ∷ fs)) z (omega arith, u, λ j h. absurd (omega (arith, h)))
  | inl u ↦ elim (Option-cases (alloc_fd fs)) [
    | inl n ↦ absurd (cc (rw (u, n) at e))
    | inr (k, g) ↦
        let (inside, free, before) = alloc_fd-IsLowest fs k g in
        let z : suc k ≡ i = some-injective (suc k) i (rw (u, g) at e) in
        subst (IsLowest (f ∷ fs)) z (omega (arith, inside), free, later f fs k u before)
  ]
]

true-ne : true ≢ false
true-ne = λ e. cc e

copy_fd_lem :
    (fds : List FdEntry) (oldfd fd : ℕ)
    → fd < length fds
    → oldfd < length fds
    → fd ≢ oldfd
    → (entry fds oldfd).refcount + 1 < word
    → let t = copy_fd fds oldfd fd in
      (entry t fd ≡ record (entry fds oldfd) { used = true; refcount = 1 })
      × (entry t oldfd ≡ record (entry fds oldfd) { refcount = (entry fds oldfd).refcount + 1 })
      × ((j : ℕ) → j ≢ fd → j ≢ oldfd → entry t j ≡ entry fds j)
unfolding copy_fd
copy_fd_lem fds oldfd fd fd_in old_in apart small =
    let e : FdEntry = entry fds oldfd in
    let new : FdEntry = record e { used = true; refcount = 1 } in
    let copied : List FdEntry = set fds fd new in
    let counted : FdEntry → FdEntry = λ x. record x { refcount = (x.refcount + 1) % word } in
    let flipped : oldfd ≢ fd = λ q. apart (sym q) in
    let kept : entry copied oldfd ≡ e = get_or-set_ne fds fd oldfd new unused_fd apart in
    let no_wrap : (e.refcount + 1) % word ≡ e.refcount + 1 = omega (arith, small) in
    (
      get_or-set_ne copied oldfd fd (counted (entry copied oldfd)) unused_fd flipped
          ∙ get_or-set_self fds fd new unused_fd fd_in,
      get_or-set_self copied oldfd (counted (entry copied oldfd)) unused_fd
            (omega (arith, old_in, length-set fds fd new))
          ∙ ap counted kept
          ∙ ap (λ r. record e { refcount = r }) no_wrap,
      λ j not_fd not_old.
          get_or-set_ne copied oldfd j (counted (entry copied oldfd)) unused_fd
            (λ q. not_old (sym q))
          ∙ get_or-set_ne fds fd j new unused_fd (λ q. not_fd (sym q)),
    )

-- What `dup` leaves in the table.
abbrev pub IsCopied : List FdEntry → ℕ → List FdEntry → ℕ → Type 0
IsCopied fds oldfd t fd =
    IsLowest fds fd
    × (entry t fd ≡ record (entry fds oldfd) { used = true; refcount = 1 })
    × (entry t oldfd ≡ record (entry fds oldfd) { refcount = (entry fds oldfd).refcount + 1 })
    × ((j : ℕ) → j ≢ fd → j ≢ oldfd → entry t j ≡ entry fds j)

-- Where `dup` returns a descriptor, and the references of the old one do not overflow, it is the
-- lowest that was free; it has the node, the offset and the flags of the old one and one reference,
-- the old one has one reference more, and every other entry is as before.
pub vfs_dup_lem :
    (fds : List FdEntry) (oldfd fd : ℕ)
    → oldfd < length fds
    → (vfs_dup fds oldfd).1 ≡ some fd
    → (entry fds oldfd).refcount + 1 < word
    → IsCopied fds oldfd (vfs_dup fds oldfd).0 fd
unfolding vfs_dup
vfs_dup_lem fds oldfd fd inside e small = elim (Bool-cases (is_used fds oldfd)) [
  | inr u ↦ absurd (cc (rw (vfs_dup, u) at e))
  | inl u ↦ elim (Option-cases (alloc_fd fds)) [
    | inl n ↦ absurd (cc (rw (vfs_dup, u, n) at e))
    | inr (k, g) ↦
        let z : k ≡ fd = some-injective k fd (rw (vfs_dup, u, g) at e) in
        let lowest = alloc_fd-IsLowest fds k g in
        let apart : k ≢ oldfd = λ q.
          true-ne
            (sym (entry_used fds oldfd u) ∙ ap (λ j. (entry fds j).used) (sym q) ∙ lowest.1) in
        let (new, old, rest) = copy_fd_lem fds oldfd k lowest.0 inside apart small in
        rw (vfs_dup, u, g)
          (subst (IsCopied fds oldfd (copy_fd fds oldfd k)) z (lowest, new, old, rest))
  ]
]

length-vfs_dup : (fds : List FdEntry) (oldfd : ℕ) → length (vfs_dup fds oldfd).0 ≡ length fds
unfolding vfs_dup copy_fd
length-vfs_dup fds oldfd = elim (Bool-cases (is_used fds oldfd)) [
  | inr u ↦ rw (vfs_dup, u) refl
  | inl u ↦ elim (Option-cases (alloc_fd fds)) [
    | inl n ↦ rw (vfs_dup, u, n) refl
    | inr (k, g) ↦ rw (vfs_dup, u, g, copy_fd) (length-set _ oldfd _ ∙ length-set fds k _)
  ]
]

is_used-lt : (fds : List FdEntry) (fd : ℕ) → is_used fds fd ≡ true → fd < max_fds
is_used-lt fds fd u = ground (arith, u)

is_used_of :
    (fds : List FdEntry) (fd : ℕ)
    → fd < max_fds
    → (entry fds fd).used ≡ true
    → is_used fds fd ≡ true
is_used_of fds fd h u = ground (arith, h, u)

is_used_not : (fds : List FdEntry) (fd : ℕ) → (entry fds fd).used ≡ false → is_used fds fd ≡ false
is_used_not fds fd u = elim (Bool-cases (ltb fd max_fds)) [ inl t ↦ rw t u | inr f ↦ rw f refl ]

close_used :
    (t : List FdEntry) (fd : ℕ)
    → is_used t fd ≡ true
    → vfs_close t fd ≡ (set t fd (closed (entry t fd)), true)
unfolding vfs_close
close_used t fd u = rw (vfs_close, u) refl

-- One of several references is given back, or the last one.
closed_shared : (e : FdEntry) → 0 < e.refcount → closed (record e { refcount = e.refcount + 1 }) ≡ e
unfolding closed
closed_shared e h =
    let several : ltb 1 (e.refcount + 1) ≡ true = ground (arith, h) in
    let back : e.refcount + 1 - 1 ≡ e.refcount = omega arith in
    rw (closed, several) (ap (λ r. record e { refcount = r }) back)

closed_last : (e : FdEntry) → (closed (record e { used = true; refcount = 1 })).used ≡ false
unfolding closed
closed_last e = refl

-- After `dup` in a table of 128 entries, of a descriptor in use with at least one reference,
-- closing the new descriptor and then the old one succeeds both times; the new one is free then,
-- but the old one is still in use, as it was before.
pub vfs_close-vfs_dup :
    (fds : List FdEntry) (oldfd fd : ℕ)
    → length fds ≡ max_fds
    → is_used fds oldfd ≡ true
    → 0 < (entry fds oldfd).refcount
    → (entry fds oldfd).refcount + 1 < word
    → (vfs_dup fds oldfd).1 ≡ some fd
    → let (t, first) = vfs_close (vfs_dup fds oldfd).0 fd in
      let (r, second) = vfs_close t oldfd in
      (first ≡ true)
      × (second ≡ true)
      × (is_used r fd ≡ false)
      × (is_used r oldfd ≡ true)
      × (entry r oldfd ≡ entry fds oldfd)
unfolding vfs_close closed
vfs_close-vfs_dup fds oldfd fd size u counted small e =
    let t : List FdEntry = (vfs_dup fds oldfd).0 in
    let old_in : oldfd < length fds = omega (arith, size, is_used-lt fds oldfd u) in
    let (lowest, new, old, rest) = vfs_dup_lem fds oldfd fd old_in e small in
    let long : length t ≡ length fds = length-vfs_dup fds oldfd in
    let fd_in : fd < length fds = lowest.0 in
    let apart : fd ≢ oldfd = λ q.
      true-ne (sym (entry_used fds oldfd u) ∙ ap (λ j. (entry fds j).used) (sym q) ∙ lowest.1) in
    let flipped : oldfd ≢ fd = λ q. apart (sym q) in
    let shut : FdEntry = closed (entry t fd) in
    let t₁ : List FdEntry = set t fd shut in
    let kept : entry t₁ oldfd
        ≡ record (entry fds oldfd) { refcount = (entry fds oldfd).refcount + 1 } =
      get_or-set_ne t fd oldfd shut unused_fd apart ∙ old in
    let back : FdEntry = closed (entry t₁ oldfd) in
    let r : List FdEntry = set t₁ oldfd back in
    let long₁ : length t₁ ≡ length fds = length-set t fd shut ∙ long in
    let same : entry r oldfd ≡ entry fds oldfd =
      get_or-set_self t₁ oldfd back unused_fd (omega (arith, old_in, long₁))
      ∙ ap closed kept
      ∙ closed_shared (entry fds oldfd) counted in
    let gone : entry r fd ≡ closed (record (entry fds oldfd) { used = true; refcount = 1 }) =
      get_or-set_ne t₁ oldfd fd back unused_fd flipped
      ∙ get_or-set_self t fd shut unused_fd (omega (arith, fd_in, long))
      ∙ ap closed new in
    let used_new : is_used t fd ≡ true =
      is_used_of t fd (omega (arith, fd_in, size)) (ap (λ x. x.used) new) in
    let used_old : is_used t₁ oldfd ≡ true =
      is_used_of t₁ oldfd (is_used-lt fds oldfd u)
        (ap (λ x. x.used) kept ∙ entry_used fds oldfd u) in
    rw (close_used t fd used_new, close_used t₁ oldfd used_old)
      (
        refl,
        refl,
        is_used_not r fd (ap (λ x. x.used) gone ∙ closed_last (entry fds oldfd)),
        is_used_of r oldfd (is_used-lt fds oldfd u)
            (ap (λ x. x.used) same ∙ entry_used fds oldfd u),
        same,
      )
