-- ===== src/Mm/Cow/Start.antt =====
-- The table of counts and the frames that it takes (kernel/src/mm/cow.rs, `krust_cow_init`).
use elitra_os.Base.{
  ℕ, zero, suc, ◌+◌, ◌-◌, ◌*◌, ◌/◌, ◌<◌, ◌≡◌, refl, Bool, true, false, if◌then◌else◌, arith,
  Option-cases, Bool-cases, inl, inr,
}
use elitra_os.Mm.Pmm.{Pmm, pmm_alloc_frame, pmm_free_count}
use elitra_os.Mm.Pmm.Alloc.{IsSound, pmm_alloc_frame-Grants}
use elitra_os.Mm.Pmm.Count.{pmm_free_count-pmm_alloc_frame, pmm_free_count-none}
use elitra_os.Mm.Cow.{Cow, cow_init, alloc_frames}

-- `n` frames were taken from `p`, leaving `q`; or, if not, all that there were.
pub record Takes (n : ℕ) (p q : Pmm) (all_there : Bool) : Type 0 where
  pub sound : IsSound q
  pub counted : if all_there then pmm_free_count q + n ≡ pmm_free_count p else pmm_free_count q ≡ 0

widen :
    (all_there : Bool) (q p' p n : ℕ)
    → (if all_there then q + n ≡ p' else q ≡ 0)
    → p' + 1 ≡ p
    → (if all_there then q + suc n ≡ p else q ≡ 0)
widen true q p' p n h e = omega arith
widen false q p' p n h e = h

alloc_frames-Takes :
    (n : ℕ) (p : Pmm) → IsSound p → Takes n p (alloc_frames n p).0 (alloc_frames n p).1
unfolding alloc_frames
alloc_frames-Takes zero p v = record { sound = v; counted = omega arith }
alloc_frames-Takes (suc n) p v = elim (Option-cases (pmm_alloc_frame p).1) [
  | inl e ↦
      let (zero_free, same) = pmm_free_count-none p v e in
      rw (e, alloc_frames) (rw same (record { sound = v; counted = zero_free }))
  | inr (f, e) ↦
      let g = pmm_alloc_frame-Grants p f v e in
      let t = alloc_frames-Takes n (pmm_alloc_frame p).0 g.sound in
      let one = pmm_free_count-pmm_alloc_frame p f v e in
      rw (e, alloc_frames)
        (record {
          sound = t.sound;
          counted = widen (alloc_frames n (pmm_alloc_frame p).0).1 _ _ _ n t.counted one;
        })
]

-- how many frames the table takes: two bytes a frame, and at least one frame
abbrev pub table_frames : ℕ → ℕ
table_frames total_frames = suc ((total_frames * 2 + 4095) / 4096 - 1)

-- Over a sound allocator, on success the table has a count of 0 for every frame and took just the
-- frames that it needs; on failure no free frame is left. The allocator is sound either way.
pub cow_init_lem :
    (total_frames : ℕ) (c : Cow) (p : Pmm)
    → IsSound p
    → let (c', p', all_there) = cow_init total_frames c p in
      Takes (table_frames total_frames) p p' all_there
      × (all_there ≡ true
          → (c'.total_frames ≡ total_frames) × ((i : ℕ) → i < total_frames → c'.counts i ≡ 0))
unfolding cow_init
cow_init_lem total_frames c p v = elim (Option-cases (pmm_alloc_frame p).1) [
  | inl e ↦
      let (zero_free, same) = pmm_free_count-none p v e in
      rw (e, cow_init)
        (record { sound = rw same v; counted = rw same zero_free }, λ absurd_case. cc)
  | inr (f, e) ↦
      let g = pmm_alloc_frame-Grants p f v e in
      let n = (total_frames * 2 + 4095) / 4096 - 1 in
      let t = alloc_frames-Takes n (pmm_alloc_frame p).0 g.sound in
      let one = pmm_free_count-pmm_alloc_frame p f v e in
      let q = alloc_frames n (pmm_alloc_frame p).0 in
      let counted = widen q.1 (pmm_free_count q.0) _ (pmm_free_count p) n t.counted one in
      elim (Bool-cases q.1) [
        | inl d ↦
            rw (e, cow_init)
              (rw d (
                record { sound = t.sound; counted = rw d at counted },
                λ _. (refl, λ i h. ground arith),
              ))
        | inr d ↦
            rw (e, cow_init) (rw d (record { sound = t.sound; counted = rw d at counted }, λ h. cc))
      ]
]
