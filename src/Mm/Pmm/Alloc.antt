-- ===== src/Mm/Pmm/Alloc.antt =====
-- Allocation and release of frames (kernel/src/mm/pmm.rs).
use elitra_os.Base.{
  ◌↔◌, ap, ℕ, zero, suc, ◌+◌, ◌-◌, ◌≤◌, ◌<◌, ◌≡◌, ◌∙◌, true, false, none, some, if◌then◌else◌, ◌==◌,
  arith, Option-cases, inl, inr, Bool-cases,
}
use elitra_os.Mm.Pmm.{
  Pmm, bitmap_test, bitmap_set, bitmap_clear, search_from, find_first_free, pmm_alloc_frame,
  pmm_free_frame, lower_hint,
}
use elitra_os.Mm.Pmm.Frames.{
  IsMapped, bitmap_test-bitmap_set, bitmap_test-bitmap_clear, bitmap_set-IsMapped,
  bitmap_clear-IsMapped, bitmap_set_fields, bitmap_clear_fields,
}

-- Every frame below the hint is in use.
pub record IsSound (s : Pmm) : Type 0 where
  pub mapped : IsMapped s
  pub hint : (i : ℕ) → i < s.first_free → bitmap_test s i ≡ true

search_from-some :
    (s : Pmm) (i n f : ℕ)
    → search_from s i n ≡ some f
    → (i ≤ f) × (f < i + n) × (bitmap_test s f ≡ false)
unfolding search_from
search_from-some s i zero f h = ground arith
search_from-some s i (suc n) f h = elim (Bool-cases (bitmap_test s i)) [
  | inl t ↦ let ih = search_from-some s (i + 1) n f (rw t at h) in (omega arith, omega arith, ih.2)
  | inr t ↦ ground arith
]

search_from_first :
    (s : Pmm) (i n f j : ℕ) → search_from s i n ≡ some f → i ≤ j → j < f → bitmap_test s j ≡ true
unfolding search_from
search_from_first s i zero f j h p q = ground arith
search_from_first s i (suc n) f j h p q = ground (arith, search_from_first s (i + 1) n f j)

search_from-none :
    (s : Pmm) (i n j : ℕ) → search_from s i n ≡ none → i ≤ j → j < i + n → bitmap_test s j ≡ true
unfolding search_from
search_from-none s i zero j h p q = absurd (omega arith)
search_from-none s i (suc n) j h p q = ground (arith, search_from-none s (i + 1) n j)

-- What a granted frame is: in range, free before, and the lowest such; then exactly it has
-- become used.
pub record Grants (s : Pmm) (f : ℕ) (t : Pmm) : Type 0 where
  pub in_range : f < s.total_frames
  pub was_free : bitmap_test s f ≡ false
  pub lowest : (j : ℕ) → j < f → bitmap_test s j ≡ true
  pub marked : (j : ℕ) → bitmap_test t j ≡ (if f == j then true else bitmap_test s j)
  pub sound : IsSound t
  pub frames : t.total_frames ≡ s.total_frames

hint-search :
    (s : Pmm) (f j : ℕ) → IsSound s → find_first_free s ≡ some f → j < f → bitmap_test s j ≡ true
unfolding find_first_free
hint-search s f j v h p =
    ground (arith, v.hint j, search_from_first s s.first_free (s.total_frames - s.first_free) f j)

alloc_state : (s : Pmm) (f : ℕ) → Pmm
alloc_state s f = record (bitmap_set s f) { first_free = f + 1 }

test_alloc_state :
    (s : Pmm) (f j : ℕ) → bitmap_test (alloc_state s f) j ≡ bitmap_test (bitmap_set s f) j
unfolding alloc_state bitmap_test bitmap_set
test_alloc_state s f j = ground arith

alloc_state-Grants :
    (s : Pmm) (f : ℕ) → IsSound s → find_first_free s ≡ some f → Grants s f (alloc_state s f)
unfolding find_first_free alloc_state
alloc_state-Grants s f v h =
    let (low, high, free) = search_from-some s s.first_free (s.total_frames - s.first_free) f h in
    let inside : f < s.total_frames = omega arith in
    let m = bitmap_set-IsMapped s f v.mapped in
    let after = λ (j : ℕ). test_alloc_state s f j ∙ bitmap_test-bitmap_set s f j v.mapped inside in
    record {
      in_range = inside;
      was_free = free;
      lowest = λ j p. hint-search s f j v h p;
      marked = after;
      sound = record {
        mapped = record { present = m.present; covers = m.covers; bytes = m.bytes };
        hint = λ j p. ground (arith, after j, hint-search s f j v h);
      };
      frames = (bitmap_set_fields s f).0;
    }

-- In a sound allocator, one whose bitmap has a bit for every frame and whose hint has no free frame
-- below it, an allocation that returns a frame returns the lowest free one, marks it and no other,
-- and leaves the allocator sound with as many frames.
pub pmm_alloc_frame-Grants :
    (s : Pmm) (f : ℕ)
    → IsSound s
    → (pmm_alloc_frame s).1 ≡ some f
    → Grants s f (pmm_alloc_frame s).0
unfolding pmm_alloc_frame alloc_state
pmm_alloc_frame-Grants s f v h = elim (Option-cases (find_first_free s)) [
  | inl e ↦ absurd (ground arith)
  | inr (g, e) ↦
      let same : g ≡ f = ground arith in
      rw (e, pmm_alloc_frame, same) (alloc_state-Grants s f v (ground arith))
]

-- The two directions of the theorem after it.
pub pmm_alloc_frame-none :
    (s : Pmm)
    → IsSound s
    → ((pmm_alloc_frame s).1 ≡ none → (j : ℕ) → j < s.total_frames → bitmap_test s j ≡ true)
      × (((j : ℕ) → j < s.total_frames → bitmap_test s j ≡ true) → pmm_alloc_frame s ≡ (s, none))
unfolding pmm_alloc_frame find_first_free
pmm_alloc_frame-none s v = (
  λ h j p.
      ground (arith, v.hint j, search_from-none s s.first_free (s.total_frames - s.first_free) j),
  λ full. elim (Option-cases (find_first_free s)) [
    | inl e ↦ rw (e, pmm_alloc_frame)
    | inr (f, e) ↦
        let (low, high, free) =
          search_from-some s s.first_free (s.total_frames - s.first_free) f e in
        absurd (ground (arith, full f))
  ],
)

-- every frame is in use
abbrev pub IsFull : Pmm → Type 0
IsFull s = (j : ℕ) → j < s.total_frames → bitmap_test s j ≡ true

-- In a sound allocator an allocation returns no frame exactly if every frame is in use, and exactly
-- then it returns no frame and leaves the allocator as it was.
pub pmm_alloc_frame-IsFull :
    (s : Pmm)
    → IsSound s
    → (((pmm_alloc_frame s).1 ≡ none) ↔ IsFull s) × ((pmm_alloc_frame s ≡ (s, none)) ↔ IsFull s)
pmm_alloc_frame-IsFull s v =
    let (fails, full) = pmm_alloc_frame-none s v in
    ((fails, λ f. ap (λ r. r.1) (full f)), (λ e. fails (ap (λ r. r.1) e), full))

lower_hint-test : (s : Pmm) (f j : ℕ) → bitmap_test (lower_hint s f) j ≡ bitmap_test s j
unfolding lower_hint bitmap_test
lower_hint-test s f j = ground arith

-- Freeing a frame makes exactly that frame free, whatever it was before, and leaves the allocator
-- sound, so that the frame is found again.
pub pmm_free_frame_lem :
    (s : Pmm) (f : ℕ)
    → IsSound s
    → f < s.total_frames
    → IsSound (pmm_free_frame s f)
      × ((j : ℕ) → bitmap_test (pmm_free_frame s f) j ≡ (if f == j then false else bitmap_test s j))
unfolding pmm_free_frame
pmm_free_frame_lem s f v h =
    let m = bitmap_clear-IsMapped s f v.mapped in
    let after = λ (j : ℕ).
      lower_hint-test (bitmap_clear s f) f j ∙ bitmap_test-bitmap_clear s f j v.mapped h in
    (
      record {
        mapped =
            unfold lower_hint in
            record {
              present = ground arith;
              covers = ground arith;
              bytes = λ a. ground (arith, m.bytes a);
            };
        hint =
            λ j p. unfold lower_hint in ground (arith, after j, v.hint j, bitmap_clear_fields s f);
      },
      after,
    )
