-- ===== src/Mm/Heap/Resize.antt =====
-- Resizing a block (kernel/src/mm/heap.rs, `krust_heap_realloc`).
use elitra_os.Base.{
  ℕ, ◌+◌, ◌-◌, ◌≤◌, ◌<◌, ◌≡◌, ◌≢◌, ◌∙◌, ◌⊎◌, refl, false, none, some, List, ◌==◌, if◌then◌else◌,
  arith, Bool-cases, inl, inr, ltb, leb, min,
}
use elitra_os.Mm.Heap.{
  Block, header_size, heap_start, block_at, replace_at, split_block, heap_alloc, Heap, heap_realloc,
  move_block, copy_bytes,
}
use elitra_os.Mm.Heap.Tiling.{IsHeap, block_at-Tiles, replace_at-Tiles, split_block-Tiles}
use elitra_os.Mm.Heap.Live.{live, live-replace_at, live-some}
use elitra_os.Mm.Heap.Grant.{Allocates, heap_alloc-Allocates, heap_alloc_null}
use elitra_os.Mm.Heap.Release.{heap_free-Releases}

-- A block of `m` bytes at `ptr` has become one at `new_ptr` with the space asked for; its bytes are
-- kept as far as both blocks go, and no other block in use has changed.
pub record Resizes (h : Heap) (ptr m size : ℕ) (h' : Heap) (new_ptr : ℕ) : Type 0 where
  pub room : ℕ
  pub enough : size ≤ room
  pub after :
      (x : ℕ)
      → live h'.blocks x ≡ (
          if new_ptr - header_size == x
          then some room
          else if ptr - header_size == x
          then none
          else live h.blocks x)
  pub kept : (i : ℕ) → i < min m size → h'.mem (new_ptr + i) ≡ h.mem (ptr + i)
  pub tiles : IsHeap h'.blocks

-- the space after a resize in place
kept_room : ℕ → Block → ℕ
kept_room size b = if ltb b.size (size + header_size + 16) then b.size else size

live-split_block :
    (size : ℕ) (b : Block) (x : ℕ)
    → b.free ≡ false
    → live (split_block size b) x ≡ (if b.addr == x then some (kept_room size b) else none)
unfolding live split_block kept_room
live-split_block size b x u = ground arith

resize_in_place :
    (h : Heap) (ptr m size : ℕ) (b : Block)
    → IsHeap h.blocks
    → live h.blocks (ptr - header_size) ≡ some m
    → block_at h.blocks (ptr - header_size) ≡ some b
    → b.free ≡ false
    → b.addr ≡ ptr - header_size
    → size ≤ b.size
    → Resizes h ptr m size
        (record h { blocks = replace_at (ptr - header_size) (split_block size) h.blocks })
        ptr
resize_in_place h ptr m size b t l at used addr fits = record {
  room = kept_room size b;
  enough = unfold kept_room in ground arith;
  after = λ x.
      live-replace_at heap_start _ h.blocks (ptr - header_size) (split_block size) b x t at
        (λ n. live-split_block size b x used ∙ ground arith)
      ∙ ground (arith, live-split_block size b x used);
  kept = λ i _. refl;
  tiles =
      replace_at-Tiles heap_start _ h.blocks (ptr - header_size) (split_block size) t
        (λ c _. split_block-Tiles size c);
}

move_block-Resizes :
    (h : Heap) (ptr m size : ℕ) (bs : List Block) (new_ptr : ℕ)
    → ptr ≢ 0
    → live h.blocks (ptr - header_size) ≡ some m
    → new_ptr ≢ 0
    → Allocates h.blocks size bs new_ptr
    → (h' : Heap) × (move_block h ptr size (bs, new_ptr) ≡ some (h', new_ptr))
      × Resizes h ptr m size h' new_ptr
unfolding move_block copy_bytes
move_block-Resizes h ptr m size bs new_ptr nz l nz' g =
    let still : live bs (ptr - header_size) ≡ some m =
      ground (arith, g.after (ptr - header_size), g.was_free) in
    let (b, at, used, room) = live-some heap_start _ bs (ptr - header_size) m g.tiles still in
    let (bs', run, r) = heap_free-Releases bs ptr m g.tiles nz still in
    (
      record { blocks = bs'; mem = copy_bytes h.mem ptr new_ptr (min b.size size) },
      ground arith,
      record {
        room = g.room;
        enough = g.enough;
        after = λ x. ground (arith, r.after x, g.after x, g.was_free);
        kept = λ i p. ground arith;
        tiles = r.tiles;
      },
    )

move_block_null :
    (h : Heap) (ptr size : ℕ) (r : List Block × ℕ)
    → r.1 ≡ 0
    → r.0 ≡ h.blocks
    → move_block h ptr size r ≡ some (h, 0)
unfolding move_block
move_block_null h ptr size (bs, p) e same = ground arith

realloc_moves :
    (h : Heap) (ptr size : ℕ) (b : Block)
    → ptr ≢ 0
    → size ≢ 0
    → block_at h.blocks (ptr - header_size) ≡ some b
    → leb size b.size ≡ false
    → heap_realloc h ptr size ≡ move_block h ptr size (heap_alloc h.blocks size)
unfolding heap_realloc
realloc_moves h ptr size b nz sz at larger = ground arith

-- Where the blocks cover the heap, resizing a block in use to a size that is not 0 goes through: it
-- either returns null and leaves every block and byte as it was, or returns a pointer to a block
-- with the space asked for that keeps the old bytes as far as both blocks go, while every other
-- block in use is as before and the blocks still cover the heap.
pub heap_realloc-Resizes :
    (h : Heap) (ptr m size : ℕ)
    → IsHeap h.blocks
    → ptr ≢ 0
    → size ≢ 0
    → live h.blocks (ptr - header_size) ≡ some m
    → (heap_realloc h ptr size ≡ some (h, 0))
      ⊎ ((h' : Heap) × (new_ptr : ℕ) × (heap_realloc h ptr size ≡ some (h', new_ptr))
          × (new_ptr ≢ 0)
          × Resizes h ptr m size h' new_ptr)
unfolding heap_realloc
heap_realloc-Resizes h ptr m size t nz sz l =
    let (b, at, used, room) = live-some heap_start _ h.blocks (ptr - header_size) m t l in
    let (_, addr, _) = block_at-Tiles heap_start _ h.blocks (ptr - header_size) b t at in
    elim (Bool-cases (leb size b.size)) [
      | inl fits ↦ inr (
        record h { blocks = replace_at (ptr - header_size) (split_block size) h.blocks },
        ptr,
        ground arith,
        nz,
        resize_in_place h ptr m size b t l at used addr (ground arith),
      )
      | inr larger ↦ elim (Bool-cases ((heap_alloc h.blocks size).1 == 0)) [
        | inl null ↦
            let (same, _) = heap_alloc_null h.blocks size t (ground arith) in
            inl (
              realloc_moves h ptr size b nz sz at larger
              ∙ move_block_null h ptr size (heap_alloc h.blocks size) (ground arith) same)
        | inr given ↦
            let g = heap_alloc-Allocates h.blocks size t (ground arith) in
            let (h', run, r) =
              move_block-Resizes h ptr m size (heap_alloc h.blocks size).0
                (heap_alloc h.blocks size).1 nz l (ground arith) g in
            inr (
              h',
              (heap_alloc h.blocks size).1,
              realloc_moves h ptr size b nz sz at larger ∙ run,
              ground arith,
              r,
            )
      ]
    ]
