-- ===== src/Mm/Pmm.antt =====
-- kernel/src/mm/pmm.rs: the allocator of physical frames. The statics are a record beside the byte
-- memory that holds the bitmap; a set bit is a frame in use. The null pointer is address 0, and the
-- index `!0` that stands for "no frame" is `none`. The lock and the interrupt flag are held for the
-- whole of an operation, so an operation is one step; frame numbers stay far below 2^64.
pub mod Frames
pub mod Alloc
pub mod Count
pub mod Init
use elitra_os.Base.{
  ℕ, zero, suc, ◌+◌, ◌-◌, ◌*◌, ◌/◌, Bool, true, false, ◌||◌, Option, none, some, leb, ltb, ◌==◌,
  if◌then◌else◌,
}
use elitra_os.Mm.Bitmap.{Memory, poke, bit_at, set_at, clear_at}

abbrev pub page_size : ℕ
page_size = 4096

pub record Pmm : Type 0 where
  pub bitmap : ℕ
  pub bitmap_size : ℕ
  pub total_frames : ℕ
  pub first_free : ℕ
  pub mem : Memory

-- the guard of the three accesses
abbrev pub outside : Pmm → ℕ → Bool
outside s bit = s.bitmap == 0 || leb s.bitmap_size (bit / 8)

unfoldable pub bitmap_test : Pmm → ℕ → Bool
bitmap_test s bit = if outside s bit then true else bit_at s.mem s.bitmap bit

unfoldable pub bitmap_set : Pmm → ℕ → Pmm
bitmap_set s bit = if outside s bit then s else record s { mem = set_at s.mem s.bitmap bit }

unfoldable pub bitmap_clear : Pmm → ℕ → Pmm
bitmap_clear s bit = if outside s bit then s else record s { mem = clear_at s.mem s.bitmap bit }

-- the first clear bit among the `n` from `i` on
unfoldable pub search_from : Pmm → ℕ → ℕ → Option ℕ
search_from s i zero = none
search_from s i (suc n) =
    let rest = search_from s (i + 1) n in if bitmap_test s i then rest else some i

unfoldable pub find_first_free : Pmm → Option ℕ
find_first_free s = search_from s s.first_free (s.total_frames - s.first_free)

unfoldable pub fill_bytes : Memory → ℕ → ℕ → Memory
fill_bytes mem addr zero = mem
fill_bytes mem addr (suc n) = fill_bytes (poke mem addr 255) (addr + 1) n

unfoldable pub set_range : Pmm → ℕ → ℕ → Pmm
set_range s i zero = s
set_range s i (suc n) = set_range (bitmap_set s i) (i + 1) n

unfoldable pub clear_range : Pmm → ℕ → ℕ → Pmm
clear_range s i zero = s
clear_range s i (suc n) = clear_range (bitmap_clear s i) (i + 1) n

unfoldable pub pmm_init : Pmm → ℕ → ℕ → ℕ → Pmm
pmm_init s bitmap bitmap_size total_frames = record {
  bitmap = bitmap;
  bitmap_size = bitmap_size;
  total_frames = total_frames;
  first_free = 0;
  mem = fill_bytes s.mem bitmap bitmap_size;
}

unfoldable pub pmm_mark_used : Pmm → ℕ → ℕ → ℕ → Pmm
pmm_mark_used s bitmap start end = set_range (record s { bitmap = bitmap }) start (end - start)

unfoldable pub lower_hint : Pmm → ℕ → Pmm
lower_hint s frame = if ltb frame s.first_free then record s { first_free = frame } else s

unfoldable pub pmm_free_frames : Pmm → ℕ → ℕ → ℕ → Pmm
pmm_free_frames s bitmap start_frame count =
    lower_hint (clear_range (record s { bitmap = bitmap }) start_frame count) start_frame

unfoldable pub pmm_alloc_frame : Pmm → Pmm × Option ℕ
pmm_alloc_frame s = elim (find_first_free s) [
  | none ↦ (s, none)
  | some frame ↦ (record (bitmap_set s frame) { first_free = frame + 1 }, some frame)
]

unfoldable pub pmm_free_frame : Pmm → ℕ → Pmm
pmm_free_frame s frame = lower_hint (bitmap_clear s frame) frame

-- `krust_mm_cpp_pmm_init`: all memory is in use but the frames above the bitmap itself. The address
-- after the bitmap is taken to be below 2 ^ 64.
unfoldable pub mm_pmm_init : Pmm → ℕ → ℕ → Pmm
mm_pmm_init s mem_upper_kb placement_addr =
    let total_mem = (mem_upper_kb + 1024) * 1024 in
    let total = total_mem / page_size in
    let size = (total + 7) / 8 in
    let used = (placement_addr + size + page_size - 1) / page_size in
    record (clear_range (pmm_init s placement_addr size total) used (total - used)) {
      first_free = used;
    }

-- how many of the `n` bits from `i` on are clear
unfoldable pub count_free : Pmm → ℕ → ℕ → ℕ
count_free s i zero = 0
count_free s i (suc n) =
    let rest = count_free s (i + 1) n in if bitmap_test s i then rest else rest + 1

unfoldable pub pmm_free_count : Pmm → ℕ
pmm_free_count s = if s.bitmap == 0 then 0 else count_free s 0 s.total_frames
