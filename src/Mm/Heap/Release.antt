-- ===== src/Mm/Heap/Release.antt =====
-- Releasing and resizing blocks (kernel/src/mm/heap.rs, `krust_heap_free`, `krust_heap_realloc`).
use elitra_os.Base.{
  ℕ, ◌-◌, ◌≡◌, ◌≢◌, ◌∙◌, refl, true, none, some, List, [], ◌∷◌, ◌==◌, if◌then◌else◌, arith,
}
use elitra_os.Mm.Heap.{
  Block, header_size, heap_start, replace_at, set_free, merge_adjacent, heap_free,
}
use elitra_os.Mm.Heap.Tiling.{IsHeap, replace_at-Tiles}
use elitra_os.Mm.Heap.Live.{live, live-replace_at, live-some}
use elitra_os.Mm.Heap.Merge.{
  IsCoalesced, merge_adjacent-IsCoalesced, merge_adjacent-Tiles, live-merge_adjacent,
}

-- what a release leaves: the block is gone, the others in use are as before, free neighbours are
-- joined, and the blocks still cover the heap
pub record Releases (bs : List Block) (ptr : ℕ) (bs' : List Block) : Type 0 where
  pub after : (x : ℕ) → live bs' x ≡ (if ptr - header_size == x then none else live bs x)
  pub tiles : IsHeap bs'
  pub coalesced : IsCoalesced bs'

-- Where the blocks cover the heap, freeing a block in use goes through: exactly that block is no
-- longer in use, the blocks still cover the heap, and no two neighbours are both free.
pub heap_free-Releases :
    (bs : List Block) (ptr m : ℕ)
    → IsHeap bs
    → ptr ≢ 0
    → live bs (ptr - header_size) ≡ some m
    → (bs' : List Block) × (heap_free bs ptr ≡ some bs') × Releases bs ptr bs'
unfolding heap_free set_free
heap_free-Releases bs ptr m t nz h =
    let (b, at, used, size) = live-some heap_start _ bs (ptr - header_size) m t h in
    let f = λ (c : Block). set_free true (c ∷ []) in
    let freed = replace_at (ptr - header_size) f bs in
    let t' = replace_at-Tiles heap_start _ bs (ptr - header_size) f t (λ c _. (refl, refl)) in
    (
      merge_adjacent freed,
      ground arith,
      record {
        after = λ x.
            live-merge_adjacent freed x
            ∙ (live-replace_at heap_start _ bs (ptr - header_size) f b x t at (λ _. live_freed b x)
                ∙ ground (arith, live_freed b x));
        tiles = merge_adjacent-Tiles heap_start _ freed t';
        coalesced = merge_adjacent-IsCoalesced freed;
      },
    )
  where
    live_freed : (c : Block) (x : ℕ) → live (set_free true (c ∷ [])) x ≡ none
    live_freed c x = unfold live in ground arith
