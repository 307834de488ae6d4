-- ===== src/Mm/Heap/Grant.antt =====
-- What an allocation grants (kernel/src/mm/heap.rs, `krust_heap_alloc`).
use elitra_os.Base.{
  ℕ, ◌+◌, ◌-◌, ◌≤◌, ◌<◌, ◌≡◌, ◌≢◌, true, false, none, some, List, [], ◌∷◌, ◌==◌, if◌then◌else◌,
  arith, Option-cases, inl, inr, ltb,
}
use elitra_os.Mm.Heap.{
  Block, header_size, heap_start, find_block, block_at, split_block, set_free, round_size,
  heap_alloc,
}
use elitra_os.Mm.Heap.Tiling.{
  Tiles, IsHeap, find_block_lem, replace_at-Tiles, split_block-Tiles, set_free-Tiles,
  block_at_disjoint,
}
use elitra_os.Mm.Heap.Live.{live, live-block_at, live-replace_at, live-some}

-- the block that an allocation leaves at the pointer
abbrev taken : ℕ → Block → List Block
taken size c = set_free false (split_block (round_size size) c)

-- how much space that block has
granted : ℕ → Block → ℕ
granted size b = if ltb b.size (round_size size + header_size + 16) then b.size else round_size size

live-taken :
    (size : ℕ) (b : Block) (x : ℕ)
    → live (taken size b) x ≡ (if b.addr == x then some (granted size b) else none)
unfolding live set_free split_block granted
live-taken size b x = ground arith

-- The request is rounded up, to at least 16 bytes, by at most 16.
pub round_size_bounds :
    (size : ℕ) → (size ≤ round_size size) × (16 ≤ round_size size) × (round_size size ≤ size + 16)
unfolding round_size
round_size_bounds size = ground arith

-- An allocation that does not fail returns a pointer to a block that was not in use, with at least
-- the space asked for. Every other block in use is as before, and the blocks still cover the heap.
pub record Allocates (bs : List Block) (size : ℕ) (bs' : List Block) (ptr : ℕ) : Type 0 where
  pub room : ℕ
  pub enough : size ≤ room
  pub beyond_start : heap_start + header_size ≤ ptr
  pub was_free : live bs (ptr - header_size) ≡ none
  pub after : (x : ℕ) → live bs' x ≡ (if ptr - header_size == x then some room else live bs x)
  pub tiles : IsHeap bs'

-- Where the blocks cover the heap and `heap_alloc` returns a pointer that is not null, the pointer
-- is to a block that was not in use and has at least the space asked for; every other block in use
-- is as before, and the blocks still cover the heap.
pub heap_alloc-Allocates :
    (bs : List Block) (size : ℕ)
    → IsHeap bs
    → (heap_alloc bs size).1 ≢ 0
    → Allocates bs size (heap_alloc bs size).0 (heap_alloc bs size).1
unfolding heap_alloc
heap_alloc-Allocates bs size t h = elim (Option-cases (find_block bs (round_size size))) [
  | inl e ↦ absurd (h (rw (e, heap_alloc)))
  | inr (b, e) ↦
      let (low, at, free, fits) = find_block_lem heap_start _ bs (round_size size) b t e in
      let back : b.addr + header_size - header_size ≡ b.addr = omega arith in
      rw (e, heap_alloc)
        (record {
          room = granted size b;
          enough = unfold granted in ground (arith, round_size_bounds size);
          beyond_start = omega arith;
          was_free = rw back (ground (arith, live-block_at heap_start _ bs b.addr b t at));
          after = λ x. rw back (
              ground (
                arith,
                live-replace_at heap_start _ bs b.addr (taken size) b x t at,
                live-taken size b x,
              ));
          tiles = replace_at-Tiles heap_start _ bs b.addr (taken size) t (λ c _.
              set_free-Tiles false _ _ (split_block (round_size size) c)
                (split_block-Tiles (round_size size) c));
        })
]

no_block :
    (bs : List Block) (size a : ℕ) (b : Block)
    → find_block bs size ≡ none
    → block_at bs a ≡ some b
    → b.free ≡ true
    → b.size < size
unfolding find_block block_at
no_block [] size a b h e f = absurd (ground arith)
no_block (c ∷ cs) size a b h e f = ground (arith, no_block cs size a b)

-- An allocation fails only if every free block is too small, and then changes nothing.
pub heap_alloc_null :
    (bs : List Block) (size : ℕ)
    → IsHeap bs
    → (heap_alloc bs size).1 ≡ 0
    → ((heap_alloc bs size).0 ≡ bs)
      × ((a : ℕ) (b : Block) → block_at bs a ≡ some b → b.free ≡ true → b.size < round_size size)
unfolding heap_alloc
heap_alloc_null bs size t h = elim (Option-cases (find_block bs (round_size size))) [
  | inl e ↦ (rw (e, heap_alloc), λ a b. no_block bs (round_size size) a b e)
  | inr (b, e) ↦ absurd (let k = rw (e, heap_alloc) at h in omega arith)
]

-- Two blocks in use do not overlap: the lower one, header and space, ends before the other starts.
pub live_disjoint :
    (lo hi : ℕ) (bs : List Block) (a b m n : ℕ)
    → Tiles lo hi bs
    → live bs a ≡ some m
    → live bs b ≡ some n
    → a < b
    → a + header_size + m ≤ b
live_disjoint lo hi bs a b m n t p q h =
    let (u, at_a, _, size) = live-some lo hi bs a m t p in
    let (w, at_b, _, _) = live-some lo hi bs b n t q in
    omega (arith, block_at_disjoint lo hi bs a b u w t at_a at_b h)
