-- ===== src/Mm/Heap/Live.antt =====
-- The heap as its users see it: the size of the block in use at an address
-- (kernel/src/mm/heap.rs).
use mathlib.Core.Option.{or_else, some-injective}
use elitra_os.Base.{
  ℕ, ◌+◌, ◌<◌, ◌≡◌, ◌≢◌, refl, false, not, ◌&&◌, Option, none, some, List, [], ◌∷◌, ◌++◌, ◌==◌,
  if◌then◌else◌, arith, Bool-cases, inl, inr, ap,
}
use elitra_os.Mm.Heap.{Block, header_size, block_at, replace_at}
use elitra_os.Mm.Heap.Tiling.{Tiles}

unfoldable pub live : List Block → ℕ → Option ℕ
live [] a = none
live (b ∷ bs) a = if b.addr == a && not b.free then some b.size else live bs a

live_below : (lo hi : ℕ) (bs : List Block) (a : ℕ) → Tiles lo hi bs → a < lo → live bs a ≡ none
unfolding live
live_below lo hi [] a t h = refl
live_below lo hi (b ∷ bs) a t h = ground (arith, live_below (lo + header_size + b.size) hi bs a)

-- In a heap whose blocks lie end to end the view agrees with the block at the address.
pub live-block_at :
    (lo hi : ℕ) (bs : List Block) (a : ℕ) (b : Block)
    → Tiles lo hi bs
    → block_at bs a ≡ some b
    → live bs a ≡ (if b.free then none else some b.size)
unfolding live block_at
live-block_at lo hi [] a b t h = ground arith
live-block_at lo hi (c ∷ cs) a b t h = ground (
  arith,
  live-block_at (lo + header_size + c.size) hi cs a b,
  live_below (lo + header_size + c.size) hi cs a,
)

pub live-some :
    (lo hi : ℕ) (bs : List Block) (a m : ℕ)
    → Tiles lo hi bs
    → live bs a ≡ some m
    → (b : Block) × (block_at bs a ≡ some b) × (b.free ≡ false) × (b.size ≡ m)
unfolding live block_at
live-some lo hi [] a m t h = absurd (ground arith)
live-some lo hi (c ∷ cs) a m t h = elim (Bool-cases (c.addr == a)) [
  | inl e ↦ (
    c,
    rw e,
    ground (arith, live_below (lo + header_size + c.size) hi cs a),
    ground (arith, live_below (lo + header_size + c.size) hi cs a),
  )
  | inr e ↦
      let (b, p, q, r) = live-some (lo + header_size + c.size) hi cs a m t.1 (ground arith) in
      (b, rw e p, q, r)
]

live-append : (xs ys : List Block) (a : ℕ) → live (xs ++ ys) a ≡ or_else (live xs a) (live ys a)
unfolding live or_else
live-append [] ys a = refl
live-append (x ∷ xs) ys a = ground (arith, live-append xs ys a)

-- Replacing the block at `a` by pieces of which only one at `a` may be in use changes the view
-- there alone.
pub live-replace_at :
    (lo hi : ℕ) (bs : List Block) (a : ℕ) (f : Block → List Block) (b : Block) (x : ℕ)
    → Tiles lo hi bs
    → block_at bs a ≡ some b
    → (a ≢ x → live (f b) x ≡ none)
    → live (replace_at a f bs) x ≡ (if a == x then live (f b) x else live bs x)
unfolding live block_at replace_at or_else
live-replace_at lo hi [] a f b x t h k = absurd (ground arith)
live-replace_at lo hi (c ∷ cs) a f b x t h k = elim (Bool-cases (c.addr == a)) [
  | inl e ↦ rw e (
      ground (
        arith,
        live-append (f c) cs x,
        live_below (lo + header_size + c.size) hi cs x,
        ap f (some-injective c b (rw e at h)),
      ))
  | inr e ↦ rw e (ground (arith, live-replace_at (lo + header_size + c.size) hi cs a f b x))
]
