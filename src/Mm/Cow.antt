-- ===== src/Mm/Cow.antt =====
-- kernel/src/mm/cow.rs: the reference counts of frames that are shared copy-on-write. The table is
-- taken as a function from frames to counts (u16), `base` is its address, 0 before it is made.
-- Each call is one step here; its atomic accesses one by one are in `Race`.
pub mod Count
pub mod Race
pub mod Start
use elitra_os.Base.{
  ℕ, zero, suc, ◌+◌, ◌-◌, ◌*◌, ◌/◌, ◌%◌, Bool, true, false, ◌||◌, Option, none, some, leb, ltb,
  ◌==◌, if◌then◌else◌,
}
use elitra_os.Mm.Pmm.{Pmm, page_size, pmm_alloc_frame}

pub record Cow : Type 0 where
  pub base : ℕ
  pub total_frames : ℕ
  pub counts : ℕ → ℕ

abbrev pub put : (ℕ → ℕ) → ℕ → ℕ → ℕ → ℕ
put counts frame n i = if frame == i then n else counts i

-- the loop over the frames after the first: `false` where one is missing
unfoldable pub alloc_frames : ℕ → Pmm → Pmm × Bool
alloc_frames zero p = (p, true)
alloc_frames (suc n) p =
    let (p', got) = pmm_alloc_frame p in
    elim got [ none ↦ (p', false) | some frame ↦ alloc_frames n p' ]

-- The two memory managers after the call, and whether it returned 0. The base and the size are
-- stored before the other frames are asked for.
unfoldable pub cow_init : ℕ → Cow → Pmm → Cow × Pmm × Bool
cow_init total_frames c p =
    let (p', got) = pmm_alloc_frame p in
    elim got [
      | none ↦ (c, p', false)
      | some first ↦
          let frames_needed = (total_frames * 2 + 4095) / 4096 in
          let made : Cow = record {
            base = first * page_size;
            total_frames = total_frames;
            counts = c.counts;
          } in
          let zeroed : Cow = record made {
            counts = λ i. if ltb i total_frames then 0 else c.counts i;
          } in
          let (p'', all_there) = alloc_frames (frames_needed - 1) p' in
          if all_there then (zeroed, p'', true) else (made, p'', false)
    ]

abbrev pub absent : Cow → ℕ → Bool
absent c frame = leb c.total_frames frame || c.base == 0

-- `fetch_add` wraps; from 0xFFFE on the count is set to 0xFFFF.
unfoldable pub cow_refinc : Cow → ℕ → Cow
cow_refinc c frame =
    let prev = c.counts frame in
    let next = if leb 0xfffe prev then 0xffff else (prev + 1) % 65536 in
    if absent c frame then c else record c { counts = put c.counts frame next }

-- The table after the call, and the count before it.
unfoldable pub cow_refdec : Cow → ℕ → Cow × ℕ
cow_refdec c frame =
    let prev = c.counts frame in
    if absent c frame
    then (c, 0)
    else ((if ltb 0 prev then record c { counts = put c.counts frame (prev - 1) } else c), prev)

unfoldable pub cow_refcount : Cow → ℕ → ℕ
cow_refcount c frame = if absent c frame then 0 else c.counts frame
