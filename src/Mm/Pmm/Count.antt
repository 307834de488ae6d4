-- ===== src/Mm/Pmm/Count.antt =====
-- The count of free frames agrees with allocation and release (kernel/src/mm/pmm.rs).
use elitra_os.Base.{
  ℕ, zero, suc, ◌+◌, ◌≤◌, ◌<◌, ◌≡◌, refl, true, false, none, some, if◌then◌else◌, ◌==◌, arith,
}
use elitra_os.Mm.Pmm.{
  Pmm, bitmap_test, bitmap_clear, pmm_alloc_frame, pmm_free_frame, lower_hint, count_free,
  pmm_free_count,
}
use elitra_os.Mm.Pmm.Alloc.{
  IsSound, pmm_alloc_frame-Grants, pmm_alloc_frame-none, pmm_free_frame_lem,
}

-- Two states that agree on the frames in question count alike.
count_free_congr :
    (s t : Pmm) (i n : ℕ)
    → ((j : ℕ) → i ≤ j → bitmap_test t j ≡ bitmap_test s j)
    → count_free t i n ≡ count_free s i n
unfolding count_free
count_free_congr s t i zero h = refl
count_free_congr s t i (suc n) h =
    ground (arith, h i, count_free_congr s t (i + 1) n (λ j p. h j (omega arith)))

-- A frame that alone changes from free to used is one less.
count_free_less :
    (s t : Pmm) (f i n : ℕ)
    → i ≤ f
    → f < i + n
    → bitmap_test s f ≡ false
    → ((j : ℕ) → bitmap_test t j ≡ (if f == j then true else bitmap_test s j))
    → count_free t i n + 1 ≡ count_free s i n
unfolding count_free
count_free_less s t f i zero p q free h = absurd (omega arith)
count_free_less s t f i (suc n) p q free h = ground (
  arith,
  h i,
  λ (below : i < f). count_free_less s t f (i + 1) n (omega arith) (omega arith) free h,
  λ (at : f ≡ i). count_free_congr s t (i + 1) n (λ j r. ground (arith, h j)),
)

-- A granted frame is one free frame less.
pub pmm_free_count-pmm_alloc_frame :
    (s : Pmm) (f : ℕ)
    → IsSound s
    → (pmm_alloc_frame s).1 ≡ some f
    → pmm_free_count (pmm_alloc_frame s).0 + 1 ≡ pmm_free_count s
unfolding pmm_free_count
pmm_free_count-pmm_alloc_frame s f v h =
    let g = pmm_alloc_frame-Grants s f v h in
    ground (
      arith,
      v.mapped.present,
      g.sound.mapped.present,
      g.frames,
      count_free_less s (pmm_alloc_frame s).0 f 0 s.total_frames (omega arith)
          (omega (arith, g.in_range)) g.was_free g.marked,
    )

free_total : (s : Pmm) (f : ℕ) → (pmm_free_frame s f).total_frames ≡ s.total_frames
unfolding pmm_free_frame lower_hint bitmap_clear
free_total s f = ground arith

-- A used frame that is freed is one free frame more; a free one that is freed again is not counted
-- twice.
pub pmm_free_count-pmm_free_frame :
    (s : Pmm) (f : ℕ)
    → IsSound s
    → f < s.total_frames
    → pmm_free_count (pmm_free_frame s f) ≡ pmm_free_count s + (if bitmap_test s f then 1 else 0)
unfolding pmm_free_count
pmm_free_count-pmm_free_frame s f v h =
    let t = pmm_free_frame s f in
    let (sound, after) = pmm_free_frame_lem s f v h in
    ground (
      arith,
      v.mapped.present,
      sound.mapped.present,
      free_total s f,
      λ (used : bitmap_test s f ≡ true).
          count_free_less t s f 0 s.total_frames (omega arith) (omega arith)
            (ground (arith, after f)) (λ j. ground (arith, after j)),
      λ (free : bitmap_test s f ≡ false).
          count_free_congr s t 0 s.total_frames (λ j _. ground (arith, after j)),
    )

count_free_full :
    (s : Pmm) (i n : ℕ) → ((j : ℕ) → j < i + n → bitmap_test s j ≡ true) → count_free s i n ≡ 0
unfolding count_free
count_free_full s i zero h = refl
count_free_full s i (suc n) h =
    ground (arith, h i, count_free_full s (i + 1) n (λ j p. h j (omega arith)))

-- Where an allocation fails no frame is free, and the allocator is as it was.
pub pmm_free_count-none :
    (s : Pmm)
    → IsSound s
    → (pmm_alloc_frame s).1 ≡ none
    → (pmm_free_count s ≡ 0) × (pmm_alloc_frame s ≡ (s, none))
unfolding pmm_free_count
pmm_free_count-none s v h =
    let (full, unchanged) = pmm_alloc_frame-none s v in
    (
      ground (arith, count_free_full s 0 s.total_frames (λ j p. full h j (omega arith))),
      unchanged (full h),
    )

-- In a sound allocator the number of free frames keeps the books: it is one less after a frame was
-- granted, one more after a used frame was freed, and the same after a free one was freed again.
pub pmm_free_count_lem :
    (s : Pmm) (f g : ℕ)
    → IsSound s
    → (pmm_alloc_frame s).1 ≡ some f
    → g < s.total_frames
    → (pmm_free_count (pmm_alloc_frame s).0 + 1 ≡ pmm_free_count s)
      × (pmm_free_count (pmm_free_frame s g)
          ≡ pmm_free_count s + (if bitmap_test s g then 1 else 0))
pmm_free_count_lem s f g v h r =
    (pmm_free_count-pmm_alloc_frame s f v h, pmm_free_count-pmm_free_frame s g v r)
