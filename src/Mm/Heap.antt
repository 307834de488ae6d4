-- ===== src/Mm/Heap.antt =====
-- kernel/src/mm/heap.rs: the kernel heap, a list of blocks in the order of the `next` links, each a
-- header of 17 bytes (packed: size, free, next) and its space. An empty list is a null HEAP_HEAD.
-- A pointer is an address, 0 the null pointer. The memory that the blocks hold is beside the list.
-- The lock makes each of alloc and free one step; realloc is taken as if nothing came between
-- its steps.
pub mod Tiling
pub mod Live
pub mod Merge
pub mod Grant
pub mod Release
pub mod Resize
use elitra_os.Base.{
  ℕ, ◌+◌, ◌-◌, ◌*◌, ◌/◌, ◌<◌, Bool, true, false, ◌&&◌, Option, none, some, List, [], ◌∷◌, ◌++◌, ltb,
  leb, ◌==◌, if◌then◌else◌, min,
}
use elitra_os.Mm.Bitmap.{Memory}

abbrev pub heap_start : ℕ
heap_start = 0x40000000

abbrev pub heap_size : ℕ
heap_size = 0x10000000

-- `size_of::<HeapBlock>()`
abbrev pub header_size : ℕ
header_size = 17

pub record Block : Type 0 where
  pub addr : ℕ
  pub size : ℕ
  pub free : Bool

unfoldable pub find_block : List Block → ℕ → Option Block
find_block [] size = none
find_block (b ∷ bs) size = if b.free && leb size b.size then some b else find_block bs size

-- The block at an address, which a pointer is taken to point at.
unfoldable pub block_at : List Block → ℕ → Option Block
block_at [] a = none
block_at (b ∷ bs) a = if b.addr == a then some b else block_at bs a

-- A write to the block at an address, by which it may become several.
unfoldable pub replace_at : ℕ → (Block → List Block) → List Block → List Block
replace_at a f [] = []
replace_at a f (b ∷ bs) = if b.addr == a then f b ++ bs else b ∷ replace_at a f bs

unfoldable pub split_block : ℕ → Block → List Block
split_block size b =
    let rest : Block = record {
      addr = b.addr + header_size + size;
      size = b.size - size - header_size;
      free = true;
    } in
    if ltb b.size (size + header_size + 16) then b ∷ [] else record b { size = size } ∷ rest ∷ []

unfoldable pub set_free : Bool → List Block → List Block
set_free free [] = []
set_free free (b ∷ bs) = record b { free = free } ∷ bs

-- The walk of `merge_adjacent` at the block `b`: it stays there as long as it takes blocks in.
unfoldable pub merge_from : Block → List Block → List Block
merge_from b [] = b ∷ []
merge_from b (c ∷ cs) =
    let joined = merge_from (record b { size = b.size + header_size + c.size }) cs in
    let passed = b ∷ merge_from c cs in if b.free && c.free then joined else passed

unfoldable pub merge_adjacent : List Block → List Block
merge_adjacent [] = []
merge_adjacent (b ∷ bs) = merge_from b bs

unfoldable pub heap_init : List Block
heap_init = record { addr = heap_start; size = heap_size - header_size; free = true } ∷ []

-- a size of 0 is taken for 1, and rounded up to a multiple of 16
unfoldable pub round_size : ℕ → ℕ
round_size size = ((if size == 0 then 1 else size) + 15) / 16 * 16

-- The blocks after the call, and the pointer that it returns.
unfoldable pub heap_alloc : List Block → ℕ → List Block × ℕ
heap_alloc bs size = elim (find_block bs (round_size size)) [
  | none ↦ (bs, 0)
  | some b ↦ (
    replace_at b.addr (λ c. set_free false (split_block (round_size size) c)) bs,
    b.addr + header_size,
  )
]

-- `none` where the pointer is not that of a block: the code would read a header that is none.
unfoldable pub heap_free : List Block → ℕ → Option (List Block)
heap_free bs ptr = if ptr == 0 then some bs else elim (block_at bs (ptr - header_size)) [
  | none ↦ none
  | some b ↦
      if b.free
      then some bs
      else some (merge_adjacent (replace_at (ptr - header_size) (λ c. set_free true (c ∷ [])) bs))
]

-- `copy_nonoverlapping`
unfoldable pub copy_bytes : Memory → ℕ → ℕ → ℕ → Memory
copy_bytes mem src dst n a = if leb dst a && ltb a (dst + n) then mem (src + (a - dst)) else mem a

pub record Heap : Type 0 where
  pub blocks : List Block
  pub mem : Memory

-- the last steps of `krust_heap_realloc`, after the new block was asked for
unfoldable pub move_block : Heap → ℕ → ℕ → List Block × ℕ → Option (Heap × ℕ)
move_block h ptr size (bs, new_ptr) =
    if new_ptr == 0
    then some (record h { blocks = bs }, 0)
    else elim (block_at bs (ptr - header_size)) [
      | none ↦ none
      | some old ↦ elim (heap_free bs ptr) [
        | none ↦ none
        | some bs' ↦ some (
          record { blocks = bs'; mem = copy_bytes h.mem ptr new_ptr (min old.size size) },
          new_ptr,
        )
      ]
    ]

unfoldable pub heap_realloc : Heap → ℕ → ℕ → Option (Heap × ℕ)
heap_realloc h ptr size =
    if ptr == 0
    then (let (bs, p) = heap_alloc h.blocks size in some (record h { blocks = bs }, p))
    else if size == 0
    then elim (heap_free h.blocks ptr) [
      | none ↦ none
      | some bs ↦ some (record h { blocks = bs }, 0)
    ]
    else elim (block_at h.blocks (ptr - header_size)) [
      | none ↦ none
      | some b ↦
          if leb size b.size
          then some (
            record h { blocks = replace_at (ptr - header_size) (split_block size) h.blocks },
            ptr,
          )
          else move_block h ptr size (heap_alloc h.blocks size)
    ]
