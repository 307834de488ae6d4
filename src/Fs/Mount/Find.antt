-- ===== src/Fs/Mount/Find.antt =====
-- The longest mount point above a path (kernel/src/fs/mount.rs, `krust_mount_find`).
use mathlib.Core.Option.{some-injective}
use elitra_os.Base.{
  ℕ, zero, suc, ◌+◌, ◌≤◌, ◌<◌, ◌≡◌, ◌≢◌, ◌⊎◌, ◌∙◌, refl, ap, subst, true, false, ◌&&◌, Option, none,
  some, List, [], ◌∷◌, length, get_elem?, ltb, ◌==◌, arith, Bool-cases, inl, inr,
}
use elitra_os.Fs.Mount.{Text, MountInfo, is_prefix, at_boundary, covers, find_from, mount_find}

-- No mount point that lies above the path is longer than `n`.
abbrev pub AtMost : Text → ℕ → List MountInfo → Type 0
AtMost path n ms =
    (k : ℕ) (m : MountInfo)
    → get_elem? ms k ≡ some m
    → covers path m ≡ true
    → length m.mount_point ≤ n

AtMost-cons :
    (path : Text) (n : ℕ) (m : MountInfo) (ms : List MountInfo)
    → (covers path m ≡ true → length m.mount_point ≤ n)
    → AtMost path n ms
    → AtMost path n (m ∷ ms)
AtMost-cons path n m ms h t zero b e c =
    let m_b : m ≡ b = some-injective m b e in
    subst (λ x. covers path x ≡ true → length x.mount_point ≤ n) m_b h c
AtMost-cons path n m ms h t (suc k) b e c = t k b e c

-- The slot `j` is above the path and no other one is longer.
pub record Longest (path : Text) (ms : List MountInfo) (j : ℕ) : Type 0 where
  pub mount : MountInfo
  pub at : get_elem? ms j ≡ some mount
  pub above : covers path mount ≡ true
  pub longest : AtMost path (length mount.mount_point) ms

-- What a search that starts with `best` ends with.
Ends : Text → ℕ → Option ℕ → ℕ → List MountInfo → Option ℕ → Type 0
Ends path i best best_len ms r =
    ((r ≡ best) × AtMost path best_len ms)
    ⊎ ((j : ℕ) × (l : Longest path ms j) × (r ≡ some (i + j))
        × (best_len < length l.mount.mount_point))

find_from-Ends :
    (path : Text) (i : ℕ) (best : Option ℕ) (best_len : ℕ) (ms : List MountInfo)
    → Ends path i best best_len ms (find_from path i best best_len ms)
unfolding Ends find_from
find_from-Ends path i best best_len [] = inl (refl, λ k m e c. cc)
find_from-Ends path i best best_len (m ∷ ms) =
    elim (Bool-cases (covers path m && ltb best_len (length m.mount_point))) [
      | inl t ↦
          let above : covers path m ≡ true = ground (arith, t) in
          let longer : best_len < length m.mount_point = ground (arith, t) in
          elim (find_from-Ends path (suc i) (some i) (length m.mount_point) ms) [
            | inl h ↦ rw t (
                inr (
                  0,
                  record {
                    mount = m;
                    at = refl;
                    above = above;
                    longest = AtMost-cons path (length m.mount_point) m ms (λ c. omega arith) h.1;
                  },
                  (h.0 ∙ ap some (omega arith)),
                  longer,
                ))
            | inr h ↦
                let l : Longest path ms h.0 = h.1 in
                let up : Longest path (m ∷ ms) (suc h.0) = record {
                  mount = l.mount;
                  at = l.at;
                  above = l.above;
                  longest =
                      AtMost-cons path (length l.mount.mount_point) m ms (λ c. omega (arith, h.3))
                        l.longest;
                } in
                rw t (inr (suc h.0, up, h.2 ∙ ap some (omega arith), omega (arith, longer, h.3)))
          ]
      | inr f ↦
          let short : covers path m ≡ true → length m.mount_point ≤ best_len =
            λ c. ground (arith, f, c) in
          elim (find_from-Ends path (suc i) best best_len ms) [
            | inl h ↦ rw f (inl (h.0, AtMost-cons path best_len m ms short h.1))
            | inr h ↦
                let l : Longest path ms h.0 = h.1 in
                let up : Longest path (m ∷ ms) (suc h.0) = record {
                  mount = l.mount;
                  at = l.at;
                  above = l.above;
                  longest =
                      AtMost-cons path (length l.mount.mount_point) m ms
                        (λ c. omega (arith, h.3, short c)) l.longest;
                } in
                rw f (inr (suc h.0, up, h.2 ∙ ap some (omega arith), h.3))
          ]
    ]

-- A search returns a mount that lies above the path, that is whose name is the path or a part of it
-- before a slash, and of those one with the longest name; it returns none only if no mount lies
-- above the path but for empty names.
pub mount_find-Longest :
    (path : Text) (ms : List MountInfo)
    → ((mount_find (some path) ms ≡ none) × AtMost path 0 ms)
      ⊎ ((j : ℕ) × (mount_find (some path) ms ≡ some j) × Longest path ms j)
unfolding mount_find Ends
mount_find-Longest path ms = elim (find_from-Ends path 0 none 0 ms) [
  | inl h ↦ inl h
  | inr h ↦ inr (h.0, h.2 ∙ ap some (omega arith), h.1)
]

-- The root, mounted as `/`, is found for no path below it: it is above the path `/` itself, but not
-- above one that goes on with anything but a second slash.
pub mount_find_root :
    (m : MountInfo) (b : ℕ) (rest : Text)
    → m.used ≡ true
    → m.mount_point ≡ 47 ∷ []
    → b ≢ 47
    → (mount_find (some (47 ∷ [])) (m ∷ []) ≡ some 0)
      × (mount_find (some (47 ∷ b ∷ rest)) (m ∷ []) ≡ none)
unfolding mount_find find_from covers is_prefix at_boundary
mount_find_root m b rest u p n =
    let other : (b == 47) ≡ false = ground (arith, n) in rw (u, p) (refl, rw other refl)
