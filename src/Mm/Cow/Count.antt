-- ===== src/Mm/Cow/Count.antt =====
-- The counts over whole sequences of calls (kernel/src/mm/cow.rs).
use elitra_os.Base.{ℕ, zero, suc, ◌+◌, ◌-◌, ◌<◌, ◌≡◌, ◌≢◌, ◌∙◌, refl, min, arith}
use elitra_os.Mm.Cow.{Cow, cow_refinc, cow_refdec}

-- A frame that the table covers.
pub record IsCounted (c : Cow) (frame : ℕ) : Type 0 where
  pub made : 0 < c.base
  pub covered : frame < c.total_frames
  pub word : c.counts frame < 65536

-- `n` references are taken, or given back.
unfoldable pub take_refs : ℕ → Cow → ℕ → Cow
take_refs zero c frame = c
take_refs (suc n) c frame = take_refs n (cow_refinc c frame) frame

unfoldable pub drop_refs : ℕ → Cow → ℕ → Cow
drop_refs zero c frame = c
drop_refs (suc n) c frame = drop_refs n (cow_refdec c frame).0 frame

refinc_lem :
    (c : Cow) (frame : ℕ)
    → IsCounted c frame
    → IsCounted (cow_refinc c frame) frame
      × ((cow_refinc c frame).counts frame ≡ min (c.counts frame + 1) 65535)
      × ((other : ℕ) → frame ≢ other → (cow_refinc c frame).counts other ≡ c.counts other)
unfolding cow_refinc
refinc_lem c frame k = (ground arith, ground arith, λ other ne. ground arith)

refdec_lem :
    (c : Cow) (frame : ℕ)
    → IsCounted c frame
    → IsCounted (cow_refdec c frame).0 frame
      × ((cow_refdec c frame).0.counts frame ≡ c.counts frame - 1)
      × ((other : ℕ) → frame ≢ other → (cow_refdec c frame).0.counts other ≡ c.counts other)
unfolding cow_refdec
refdec_lem c frame k = (ground arith, ground arith, λ other ne. ground arith)

take_refs_lem :
    (n : ℕ) (c : Cow) (frame : ℕ)
    → IsCounted c frame
    → IsCounted (take_refs n c frame) frame
      × ((take_refs n c frame).counts frame ≡ min (c.counts frame + n) 65535)
      × ((other : ℕ) → frame ≢ other → (take_refs n c frame).counts other ≡ c.counts other)
unfolding take_refs
take_refs_lem zero c frame k = (k, omega (arith, k.word), λ other ne. refl)
take_refs_lem (suc n) c frame k =
    let (k', here, there) = refinc_lem c frame k in
    let (k'', here', there') = take_refs_lem n (cow_refinc c frame) frame k' in
    (k'', omega arith, λ other ne. there' other ne ∙ there other ne)

drop_refs_lem :
    (n : ℕ) (c : Cow) (frame : ℕ)
    → IsCounted c frame
    → ((drop_refs n c frame).counts frame ≡ c.counts frame - n)
      × ((other : ℕ) → frame ≢ other → (drop_refs n c frame).counts other ≡ c.counts other)
unfolding drop_refs
drop_refs_lem zero c frame k = (omega arith, λ other ne. refl)
drop_refs_lem (suc n) c frame k =
    let (k', here, there) = refdec_lem c frame k in
    let (here', there') = drop_refs_lem n (cow_refdec c frame).0 frame k' in
    (omega arith, λ other ne. there' other ne ∙ there other ne)

-- With the table made and the frame covered by it, after `n` references to a frame were taken and
-- then `m` given back its count is what it was plus `n`, but at most 65535, less `m`, and not below
-- 0; no other frame's count has changed.
pub drop_refs-take_refs :
    (n m : ℕ) (c : Cow) (frame : ℕ)
    → IsCounted c frame
    → let d = drop_refs m (take_refs n c frame) frame in
      (d.counts frame ≡ min (c.counts frame + n) 65535 - m)
      × ((other : ℕ) → frame ≢ other → d.counts other ≡ c.counts other)
drop_refs-take_refs n m c frame k =
    let (k', here, there) = take_refs_lem n c frame k in
    let (here', there') = drop_refs_lem m (take_refs n c frame) frame k' in
    (omega arith, λ other ne. there' other ne ∙ there other ne)
