-- ===== src/Fs/Vfs/Search.antt =====
-- The search for a path (kernel/src/fs/vfs.rs) ends.
use elitra_os.Base.{
  ℕ, zero, suc, ◌+◌, ◌-◌, ◌*◌, ◌≤◌, ◌<◌, ◌≡◌, refl, ap, false, Option, none, some, [], ◌∷◌, length,
  take, ltb, leb, ◌==◌, arith, Bool-cases, Option-cases, inl, inr, length-append, length-take,
}
use elitra_os.Fs.Mount.{Text}
use elitra_os.Fs.Vfs.{
  Vfs, skip_slashes, segment, after_segment, find_child, Turn, done, go, spliced, into_child, enter,
  turn, resolve_path_inner, resolve_path, path_fuel, node_symlink,
}

-- What is left to do: the buffers of the links that may still be followed, and the path.
weight : Text → ℕ → ℕ
weight path depth = (6 - depth) * 511 + length path

length-skip_slashes : (p : Text) → length (skip_slashes p) ≤ length p
unfolding skip_slashes
length-skip_slashes [] = omega arith
length-skip_slashes (c ∷ cs) = ground (arith, length-skip_slashes cs)

length-after_segment : (p : Text) → length (after_segment p) ≤ length p
unfolding after_segment
length-after_segment [] = omega arith
length-after_segment (c ∷ cs) = ground (arith, length-after_segment cs)

-- The first byte that is no slash is taken.
length-after_head :
    (c : ℕ) (cs : Text) → (c == 47) ≡ false → length (after_segment (c ∷ cs)) ≤ length cs
unfolding after_segment
length-after_head c cs h = ground (arith, h, length-after_segment cs)

length-spliced : (target rest : Text) → length (spliced target rest) ≤ 510
length-spliced target rest = omega (
  arith,
  length-append (take 255 target) (take (510 - length (take 255 target)) rest),
  length-take 255 target,
  length-take (510 - length (take 255 target)) rest,
)

skip_slashes-head : (p : Text) (c : ℕ) (cs : Text) → skip_slashes p ≡ c ∷ cs → (c == 47) ≡ false
unfolding skip_slashes
skip_slashes-head [] c cs e = cc
skip_slashes-head (x ∷ xs) c cs e = ground (arith, e, skip_slashes-head xs c cs)

-- A turn that goes on has less left to do.
IsLower : ℕ → Turn → Type 0
IsLower w (done r) = Unit
IsLower w (go b p d) = weight p d < w

module _ (v : Vfs) (base : ℕ) (depth : ℕ) (shallow : depth < 6) where
  into_child-IsLower :
      (rest path : Text) (child : ℕ)
      → length rest < length path
      → IsLower (weight path depth) (into_child v base rest depth child)
  unfolding into_child IsLower weight
  into_child-IsLower rest path child h =
      let target : Text = (v.node child).link_target in
      elim (Bool-cases ((v.node child).type_ == node_symlink)) [
        | inl t ↦ rw t (omega (arith, length-spliced target rest))
        | inr f ↦ rw f (omega arith)
      ]

  enter-IsLower :
      (c : ℕ) (cs path : Text)
      → (c == 47) ≡ false
      → suc (length cs) ≤ length path
      → IsLower (weight path depth) (enter v base (c ∷ cs) depth)
  unfolding enter IsLower
  enter-IsLower c cs path h l = elim (Bool-cases (leb 64 (length (segment (c ∷ cs))))) [
    | inl t ↦ rw t tt
    | inr f ↦ elim (Option-cases (find_child v.node base (segment (c ∷ cs)))) [
      | inl e ↦ rw (f, e) tt
      | inr (child, e) ↦
          rw (f, e)
            (into_child-IsLower (after_segment (c ∷ cs)) path child
              (omega (arith, length-after_head c cs h)))
    ]
  ]

enter_from :
    (v : Vfs) (base : ℕ) (path : Text) (depth : ℕ)
    → depth < 6
    → (p : Text) → skip_slashes path ≡ p
    → IsLower (weight path depth) (enter v base p depth)
unfolding enter IsLower
enter_from v base path depth shallow [] e = tt
enter_from v base path depth shallow (c ∷ cs) e =
    enter-IsLower v base depth shallow c cs path (skip_slashes-head path c cs e)
      (omega (arith, length-skip_slashes path, ap length e))

turn-IsLower :
    (v : Vfs) (base : Option ℕ) (path : Text) (depth : ℕ)
    → IsLower (weight path depth) (turn v base path depth)
unfolding turn IsLower
turn-IsLower v none path depth = tt
turn-IsLower v (some base) path depth = elim (Bool-cases (ltb 5 depth)) [
  | inl t ↦ rw t tt
  | inr f ↦ rw f (enter_from v base path depth (ground (arith, f)) (skip_slashes path) refl)
]

-- What a turn leads to with the fuel that is left.
abbrev pub after_turn : ℕ → Vfs → Turn → Option (Option ℕ)
after_turn fuel v (done r) = some r
after_turn fuel v (go b p d) = resolve_path_inner fuel v b p d

pub resolve_path_inner-after_turn :
    (fuel : ℕ) (v : Vfs) (base : Option ℕ) (path : Text) (depth : ℕ)
    → resolve_path_inner (suc fuel) v base path depth ≡ after_turn fuel v (turn v base path depth)
unfolding resolve_path_inner
resolve_path_inner-after_turn fuel v base path depth =
    elim (turn v base path depth)
      as (λ t.
        (elim t [ done r ↦ some r | go b p d ↦ resolve_path_inner fuel v b p d ])
        ≡ after_turn fuel v t) [ done r ↦ refl | go b p d ↦ refl ]

-- Two amounts of fuel above the weight give the same result.
search_same :
    (fuel more : ℕ) (v : Vfs) (base : Option ℕ) (path : Text) (depth : ℕ)
    → weight path depth < fuel
    → fuel ≤ more
    → (r : Option ℕ) × (resolve_path_inner fuel v base path depth ≡ some r)
      × (resolve_path_inner more v base path depth ≡ some r)
unfolding IsLower
search_same zero more v base path depth h g = absurd (omega arith)
search_same (suc fuel) zero v base path depth h g = absurd (omega arith)
search_same (suc fuel) (suc more) v base path depth h g =
    let after : (t : Turn)
        → IsLower (weight path depth) t
        → (r : Option ℕ) × (after_turn fuel v t ≡ some r) × (after_turn more v t ≡ some r) =
      λ t.
        elim t
          as (λ t.
            IsLower (weight path depth) t
            → (r : Option ℕ) × (after_turn fuel v t ≡ some r) × (after_turn more v t ≡ some r)) [
              | done r ↦ λ l. (r, refl, refl)
              | go b p d ↦
                  λ l. search_same fuel more v b p d (omega (arith, h, l)) (omega (arith, g))
            ] in
    rw
      (
        resolve_path_inner-after_turn fuel v base path depth,
        resolve_path_inner-after_turn more v base path depth,
      )
      (after (turn v base path depth) (turn-IsLower v base path depth))

-- Whatever the nodes are, also where symbolic links lead in a circle: the search for a path from
-- any node has a result with fuel for the path and the buffers of six links, and more fuel does not
-- change it.
pub resolve_path_inner_ends :
    (fuel : ℕ) (v : Vfs) (base : Option ℕ) (path : Text)
    → path_fuel path ≤ fuel
    → resolve_path_inner fuel v base path 0 ≡ some (resolve_path v base path)
unfolding resolve_path weight
resolve_path_inner_ends fuel v base path h =
    let (r, e, g) = search_same (path_fuel path) fuel v base path 0 (omega arith) h in rw e g
