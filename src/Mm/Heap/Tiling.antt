-- ===== src/Mm/Heap/Tiling.antt =====
-- The blocks cover the heap without gap or overlap (kernel/src/mm/heap.rs).
use elitra_os.Base.{
  ℕ, ◌+◌, ◌≤◌, ◌<◌, ◌≡◌, Bool, true, some, List, [], ◌∷◌, ◌++◌, ◌==◌, arith, Bool-cases, inl, inr,
  subst,
}
use elitra_os.Mm.Heap.{
  Block, header_size, heap_start, heap_size, find_block, block_at, replace_at, split_block,
  set_free, heap_init,
}

-- The blocks lie end to end from `lo` to `hi`.
abbrev pub Tiles : ℕ → ℕ → List Block → Type 0
Tiles lo hi [] = lo ≡ hi
Tiles lo hi (b ∷ bs) = (b.addr ≡ lo) × Tiles (lo + header_size + b.size) hi bs

abbrev pub IsHeap : List Block → Type 0
IsHeap bs = Tiles heap_start (heap_start + heap_size) bs

pub Tiles-append :
    (lo mid hi : ℕ) (xs ys : List Block)
    → Tiles lo mid xs
    → Tiles mid hi ys
    → Tiles lo hi (xs ++ ys)
Tiles-append lo mid hi [] ys h k = ground arith
Tiles-append lo mid hi (x ∷ xs) ys h k =
    (h.0, Tiles-append (lo + header_size + x.size) mid hi xs ys h.1 k)

-- A block stands where it says, and no lower than the first one.
pub block_at-Tiles :
    (lo hi : ℕ) (bs : List Block) (a : ℕ) (b : Block)
    → Tiles lo hi bs
    → block_at bs a ≡ some b
    → (lo ≤ a) × (b.addr ≡ a) × (a + header_size + b.size ≤ hi)
unfolding block_at
block_at-Tiles lo hi [] a b t h = ground arith
block_at-Tiles lo hi (c ∷ cs) a b t h = ground (
  arith,
  block_at-Tiles (lo + header_size + c.size) hi cs a b,
  Tiles-le (lo + header_size + c.size) hi cs,
)
  where
    Tiles-le : (lo hi : ℕ) (bs : List Block) → Tiles lo hi bs → lo ≤ hi
    Tiles-le lo hi [] t = omega arith
    Tiles-le lo hi (b ∷ bs) t = omega (arith, Tiles-le (lo + header_size + b.size) hi bs t.1)

-- Of two blocks the lower one ends, header and space, before the other starts.
pub block_at_disjoint :
    (lo hi : ℕ) (bs : List Block) (a b : ℕ) (u w : Block)
    → Tiles lo hi bs
    → block_at bs a ≡ some u
    → block_at bs b ≡ some w
    → a < b
    → a + header_size + u.size ≤ b
unfolding block_at
block_at_disjoint lo hi [] a b u w t p q h = absurd (ground arith)
block_at_disjoint lo hi (c ∷ cs) a b u w t p q h = ground (
  arith,
  block_at_disjoint (lo + header_size + c.size) hi cs a b u w,
  block_at-Tiles (lo + header_size + c.size) hi cs a u,
  block_at-Tiles (lo + header_size + c.size) hi cs b w,
)

pub find_block_lem :
    (lo hi : ℕ) (bs : List Block) (size : ℕ) (b : Block)
    → Tiles lo hi bs
    → find_block bs size ≡ some b
    → (lo ≤ b.addr) × (block_at bs b.addr ≡ some b) × (b.free ≡ true) × (size ≤ b.size)
unfolding find_block block_at
find_block_lem lo hi [] size b t h = ground arith
find_block_lem lo hi (c ∷ cs) size b t h =
    ground (arith, find_block_lem (lo + header_size + c.size) hi cs size b)

pub replace_at-Tiles :
    (lo hi : ℕ) (bs : List Block) (a : ℕ) (f : Block → List Block)
    → Tiles lo hi bs
    → ((b : Block) → block_at bs a ≡ some b → Tiles b.addr (b.addr + header_size + b.size) (f b))
    → Tiles lo hi (replace_at a f bs)
unfolding replace_at block_at
replace_at-Tiles lo hi [] a f t k = t
replace_at-Tiles lo hi (c ∷ cs) a f t k = elim (Bool-cases (c.addr == a)) [
  | inl e ↦ rw e (
      Tiles-append lo (lo + header_size + c.size) hi (f c) cs
        (subst (λ x. Tiles x (x + header_size + c.size) (f c)) t.0 (k c (rw e))) t.1)
  | inr e ↦
      rw e (t.0, replace_at-Tiles (lo + header_size + c.size) hi cs a f t.1 (λ b h. k b (rw e h)))
]

pub split_block-Tiles :
    (size : ℕ) (b : Block) → Tiles b.addr (b.addr + header_size + b.size) (split_block size b)
unfolding split_block
split_block-Tiles size b = ground arith

pub set_free-Tiles :
    (free : Bool) (lo hi : ℕ) (bs : List Block) → Tiles lo hi bs → Tiles lo hi (set_free free bs)
unfolding set_free
set_free-Tiles free lo hi [] t = t
set_free-Tiles free lo hi (b ∷ bs) t = t

-- A new heap is one free block.
pub heap_init-IsHeap : IsHeap heap_init
unfolding heap_init
heap_init-IsHeap = omega arith
