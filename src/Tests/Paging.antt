-- ===== src/Tests/Paging.antt =====
-- Page tables (kernel/src/mm/paging.rs) with an empty top table in frame 1.
use elitra_os.Base.{◌≤◌, ◌<◌, ℕ, ◌/◌, ◌≡◌, ◌≢◌, refl, true, none, arith, ◌==◌, if◌then◌else◌}
use elitra_os.Base.Bits.{each_under, each_under-true, test_bit, set_bit}
use elitra_os.Mm.Bitmap.{bit_at, set_at}
use elitra_os.Mm.Pmm.{Pmm, bitmap_test, bitmap_set, search_from, find_first_free, pmm_alloc_frame}
use elitra_os.Mm.Pmm.Alloc.{IsSound}
use elitra_os.Mm.Paging.{
  Mmu, is_present, is_huge, address_of, table_alloc, ensure_table, split_page, map_last,
  map_from_pd, map_from_pdp, map_page_in, unmap_page, get_phys,
}
use elitra_os.Mm.Paging.Levels.{IsLevelled}
use elitra_os.Mm.Paging.Unmap.{get_phys-unmap_page}
use elitra_os.Mm.Paging.{
  Leaf, walk, leaf_of, entry_at, pt_i, is_cow, cow_resolve_page, resolve_entry, copy_shared,
}
use elitra_os.Mm.Cow.{cow_refdec}
use elitra_os.Mm.Paging.Resolve.{Owns, cow_resolve_page-Owns}
use elitra_os.Mm.Paging.Translate.{Translates, get_phys-map_page_in}

-- 24 frames, of which the first three are in use
abbrev frames : Pmm
frames = record {
  bitmap = 4096;
  bitmap_size = 3;
  total_frames = 24;
  first_free = 2;
  mem = λ a. if a == 4096 then 7 else 0;
}

frames-IsSound : IsSound frames
unfolding bitmap_test bit_at test_bit each_under
frames-IsSound = record {
  mapped = record { present = omega arith; covers = omega arith; bytes = λ a. ground arith };
  hint = λ i h. each_under-true (bitmap_test frames) 2 i h refl;
}

abbrev mmu : Mmu
mmu = record {
  pmm = frames;
  cow = record { base = 0; total_frames = 0; counts = λ i. 0 };
  words = λ a. 0;
}

abbrev top : ℕ → ℕ
top t = if t == 4096 then 4 else 0

top_only : (t : ℕ) → top t ≢ 0 → t ≡ 4096
top_only t n = ground (arith, n)

frame_used : bitmap_test frames 1 ≡ true
unfolding bitmap_test bit_at test_bit
frame_used = refl

no_word : is_present 0 ≡ true → ⊥
unfolding is_present
no_word e = ground (arith, e)

mmu-IsLevelled : IsLevelled mmu top
mmu-IsLevelled = record {
  sound = frames-IsSound;
  small = omega arith;
  aligned = λ t n. omega (arith, top_only t n);
  low = λ t n. omega (arith, top_only t n);
  used = λ t n. let here : t / 4096 ≡ 1 = omega (arith, top_only t n) in rw here frame_used;
  down = λ t i k e b p q. absurd (no_word p);
  flat = λ t i k e b p. absurd (no_word p);
}

mmu_maps : (map_page_in mmu 4096 0x8000403000 0x9000 7).1 ≡ true
unfolding map_page_in map_from_pdp map_from_pd map_last ensure_table split_page table_alloc
    pmm_alloc_frame find_first_free search_from bitmap_test bitmap_set bit_at set_at test_bit
    set_bit is_present is_huge address_of
mmu_maps = refl

get_phys-map_page_in_example :
    Translates mmu (map_page_in mmu 4096 0x8000403000 0x9000 7).0 top 4096 0x8000403000 0x9000
get_phys-map_page_in_example =
    get_phys-map_page_in mmu top 4096 0x8000403000 0x9000 7 mmu-IsLevelled refl mmu_maps

get_phys-unmap_page_example :
    let mapped = (map_page_in mmu 4096 0x8000403000 0x9000 7).0 in
    (get_phys (unmap_page mapped 4096 0x8000403000) 4096 0x8000403000 ≡ none)
    × IsLevelled
        (unmap_page mapped 4096 0x8000403000)
        (get_phys-map_page_in mmu top 4096 0x8000403000 0x9000 7 mmu-IsLevelled refl
          mmu_maps).level'
get_phys-unmap_page_example =
    get_phys-unmap_page (map_page_in mmu 4096 0x8000403000 0x9000 7).0
      (get_phys-map_page_in mmu top 4096 0x8000403000 0x9000 7 mmu-IsLevelled refl mmu_maps).level'
      4096 0x8000403000
      (get_phys-map_page_in mmu top 4096 0x8000403000 0x9000 7 mmu-IsLevelled refl
        mmu_maps).levelled
      ((get_phys-map_page_in mmu top 4096 0x8000403000 0x9000 7 mmu-IsLevelled refl
          mmu_maps).extends
        4096 (λ e. omega (arith, e)))

-- Tables in the frames 1 to 4, with a page in frame 9 that is shared.
abbrev shared_frames : Pmm
shared_frames = record {
  bitmap = 4096;
  bitmap_size = 3;
  total_frames = 24;
  first_free = 5;
  mem = λ a. if a == 4096 then 31 else if a == 4097 then 2 else 0;
}

shared_frames-IsSound : IsSound shared_frames
unfolding bitmap_test bit_at test_bit each_under
shared_frames-IsSound = record {
  mapped = record { present = omega arith; covers = omega arith; bytes = λ a. ground arith };
  hint = λ i h. each_under-true (bitmap_test shared_frames) 5 i h refl;
}

abbrev shared : Mmu
shared = record {
  pmm = shared_frames;
  cow = record { base = 0x7000; total_frames = 24; counts = λ i. if i == 9 then 1 else 0 };
  words = λ a.
      if a == 4104
      then 8195
      else if a == 8192
      then 12291
      else if a == 12304
      then 16391
      else if a == 16408
      then 37381
      else 0;
}

abbrev four : ℕ → ℕ
four t =
    if t == 4096
    then 4
    else if t == 8192
    then 3
    else if t == 12288
    then 2
    else if t == 16384
    then 1
    else 0

four_only : (t : ℕ) → four t ≢ 0 → (1 ≤ t / 4096) × (t / 4096 < 5)
four_only t n = (ground (arith, n), ground (arith, n))

frames_used : each_under (λ i. if i == 0 then true else bitmap_test shared_frames i) 5 ≡ true
unfolding bitmap_test bit_at test_bit each_under
frames_used = refl

frame_in_use : (i : ℕ) → 1 ≤ i → i < 5 → bitmap_test shared_frames i ≡ true
frame_in_use i l h =
    let u =
      each_under-true (λ j. if j == 0 then true else bitmap_test shared_frames j) 5 i h
        frames_used in
    ground (arith, u, l)

shared-IsLevelled : IsLevelled shared four
unfolding is_present is_huge address_of
shared-IsLevelled = record {
  sound = shared_frames-IsSound;
  small = omega arith;
  aligned = λ t n. ground (arith, n);
  low = λ t n. ground (arith, n);
  used = λ t n. let (low, high) = four_only t n in frame_in_use (t / 4096) low high;
  down = λ t i k e b p q. ground (arith, e, b, p, q);
  flat = λ t i k e b p. ground (arith, e, b, p);
}

shared_found : walk shared 4096 0x8000403000 ≡ Leaf.table 16384
unfolding walk leaf_of is_present is_huge address_of
shared_found = refl

shared_resolves : (cow_resolve_page shared 4096 0x8000403000).1 ≡ true
unfolding cow_resolve_page resolve_entry copy_shared walk leaf_of is_present is_huge is_cow
    address_of cow_refdec pmm_alloc_frame find_first_free search_from bitmap_test bit_at test_bit
shared_resolves = refl

shared_page : four (address_of (shared.words (entry_at 16384 (pt_i 0x8000403000)))) ≡ 0
unfolding address_of
shared_page = refl

cow_resolve_page-Owns_example :
    Owns shared
      (cow_resolve_page shared 4096 0x8000403000).0
      4096
      0x8000403000
      (entry_at 16384 (pt_i 0x8000403000))
      (address_of (shared.words (entry_at 16384 (pt_i 0x8000403000))))
cow_resolve_page-Owns_example =
    cow_resolve_page-Owns shared four 4096 0x8000403000 16384 shared-IsLevelled refl shared_found
      shared_page shared_resolves
