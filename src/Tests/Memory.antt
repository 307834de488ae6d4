-- ===== src/Tests/Memory.antt =====
-- Runs of the memory management (kernel/src/mm) at concrete inputs.
use elitra_os.Base.{
  ℕ, Bool, ◌+◌, ◌-◌, ◌%◌, ◌≡◌, ◌≢◌, ◌⊎◌, refl, true, false, ◌&&◌, none, some, List, [], ◌∷◌, ltb,
  leb, ◌==◌, if◌then◌else◌, min, arith,
}
use elitra_os.Base.Bits.{each_under, each_under-true, test_bit}
use elitra_os.Mm.Bitmap.{IsBytes, bit_at}
use elitra_os.Mm.Pmm.{Pmm, bitmap_test, search_from, find_first_free, pmm_alloc_frame, mm_pmm_init}
use elitra_os.Mm.Pmm.Alloc.{IsSound, Grants, pmm_alloc_frame-Grants}
use elitra_os.Mm.Pmm.Init.{mm_pmm_init_lem, frames_of, reserved_of}
use elitra_os.Mm.Vma.{Area, vmm_add, vmm_remove, vmm_has_overlap, overlaps_any}
use elitra_os.Mm.Vma.Order.{IsOrdered}
use elitra_os.Mm.Vma.Lookup.{flags_at, within, flags_at-vmm_add, flags_at-vmm_remove}
use elitra_os.Mm.Heap.{
  Block, Heap, heap_start, heap_size, header_size, heap_alloc, heap_free, heap_realloc, find_block,
  replace_at, split_block, set_free, round_size, block_at,
}
use elitra_os.Mm.Heap.Tiling.{IsHeap}
use elitra_os.Mm.Heap.Live.{live}
use elitra_os.Mm.Heap.Grant.{Allocates, heap_alloc-Allocates}
use elitra_os.Mm.Heap.Release.{Releases, heap_free-Releases}
use elitra_os.Mm.Heap.Resize.{Resizes, heap_realloc-Resizes}
use elitra_os.Mm.Cow.{Cow, cow_refdec}
use elitra_os.Mm.Cow.Count.{IsCounted, take_refs, drop_refs, drop_refs-take_refs}
use elitra_os.Mm.Cow.Race.{left_by, crossed, in_turn, crossed-in_turn}

-- 24 frames, of which the first three are in use
abbrev frames : Pmm
frames = record {
  bitmap = 4096;
  bitmap_size = 3;
  total_frames = 24;
  first_free = 2;
  mem = λ a. if a == 4096 then 7 else 0;
}

frames-IsBytes : IsBytes frames.mem
frames-IsBytes a = ground arith

frames-IsSound : IsSound frames
unfolding bitmap_test bit_at test_bit each_under
frames-IsSound = record {
  mapped = record { present = omega arith; covers = omega arith; bytes = frames-IsBytes };
  hint = λ i h. each_under-true (bitmap_test frames) 2 i h refl;
}

frames_next : (pmm_alloc_frame frames).1 ≡ some 3
unfolding pmm_alloc_frame find_first_free search_from bitmap_test bit_at test_bit
frames_next = refl

pmm_alloc_frame-Grants_example : Grants frames 3 (pmm_alloc_frame frames).0
pmm_alloc_frame-Grants_example = pmm_alloc_frame-Grants frames 3 frames-IsSound frames_next

mm_pmm_init_lem_example :
    IsSound (mm_pmm_init frames 1024 0x1000)
    × ((j : ℕ)
        → bitmap_test (mm_pmm_init frames 1024 0x1000) j
          ≡ (if leb (reserved_of 1024 0x1000) j && ltb j (frames_of 1024) then false else true))
mm_pmm_init_lem_example = mm_pmm_init_lem frames 1024 0x1000 frames-IsBytes (omega arith)

-- two areas, 0x1000 up to 0x3000 and 0x5000 up to 0x6000
abbrev areas : List Area
areas =
    record { start = 0x1000; end = 0x3000; flags = 5 }
    ∷ record { start = 0x5000; end = 0x6000; flags = 3 }
    ∷ []

areas-IsOrdered : IsOrdered 0 areas
areas-IsOrdered = (omega arith, omega arith, (omega arith, omega arith, tt))

areas_free : vmm_has_overlap areas 0x3000 0x4000 ≡ false
unfolding vmm_has_overlap overlaps_any
areas_free = refl

flags_at-vmm_add_example :
    (flags_at (vmm_add true 0x3000 0x4000 7 areas).0 0x3800
      ≡ (if within 0x3000 0x4000 0x3800 then some 7 else flags_at areas 0x3800))
    × ((vmm_add true 0x3000 0x4000 7 areas).1
        ≡ some (record { start = 0x3000; end = 0x4000; flags = 7 }))
flags_at-vmm_add_example = flags_at-vmm_add 0x3000 0x4000 7 areas 0x3800 areas_free

flags_at-vmm_remove_example :
    flags_at (vmm_remove true 0x2000 0x5800 areas).0 0x2fff
    ≡ (if within 0x2000 0x5800 0x2fff then none else flags_at areas 0x2fff)
flags_at-vmm_remove_example =
    flags_at-vmm_remove 0x2000 0x5800 0 areas 0x2fff (omega arith) areas-IsOrdered

-- a heap with one block in use, at its start
abbrev in_use : List Block
in_use =
    record { addr = heap_start; size = 112; free = false }
    ∷ record { addr = heap_start + 129; size = heap_size - 146; free = true }
    ∷ []

in_use-IsHeap : IsHeap in_use
in_use-IsHeap = (refl, (refl, refl))

in_use-live : live in_use (heap_start + 17 - header_size) ≡ some 112
unfolding live block_at
in_use-live = refl

in_use_granted : (heap_alloc in_use 100).1 ≢ 0
unfolding heap_alloc find_block replace_at split_block set_free round_size
in_use_granted = λ e. omega (arith, e)

heap_alloc-Allocates_example :
    Allocates in_use 100 (heap_alloc in_use 100).0 (heap_alloc in_use 100).1
heap_alloc-Allocates_example = heap_alloc-Allocates in_use 100 in_use-IsHeap in_use_granted

in_use_refused : (heap_alloc in_use 0x20000000).1 ≡ 0
unfolding heap_alloc find_block round_size
in_use_refused = refl

heap_free-Releases_example :
    (bs : List Block) × (heap_free in_use (heap_start + 17) ≡ some bs)
    × Releases in_use (heap_start + 17) bs
heap_free-Releases_example =
    heap_free-Releases in_use (heap_start + 17) 112 in_use-IsHeap (λ e. omega (arith, e))
      in_use-live

abbrev filled : Heap
filled = record { blocks = in_use; mem = λ a. a % 256 }

heap_realloc-Resizes_example :
    (heap_realloc filled (heap_start + 17) 200 ≡ some (filled, 0))
    ⊎ ((h : Heap) × (new_ptr : ℕ) × (heap_realloc filled (heap_start + 17) 200 ≡ some (h, new_ptr))
        × (new_ptr ≢ 0)
        × Resizes filled (heap_start + 17) 112 200 h new_ptr)
heap_realloc-Resizes_example =
    heap_realloc-Resizes filled (heap_start + 17) 112 200 in_use-IsHeap (λ e. omega (arith, e))
      (λ e. omega (arith, e)) in_use-live

-- 24 frames, of which the first has one reference
abbrev counted : Cow
counted = record { base = 4096; total_frames = 24; counts = λ i. if i == 0 then 1 else 0 }

counted-IsCounted : IsCounted counted 0
counted-IsCounted = record { made = omega arith; covered = omega arith; word = omega arith }

drop_refs-take_refs_example :
    ((drop_refs 2 (take_refs 3 counted 0) 0).counts 0 ≡ min (counted.counts 0 + 3) 65535 - 2)
    × ((other : ℕ)
        → 0 ≢ other
        → (drop_refs 2 (take_refs 3 counted 0) 0).counts other ≡ counted.counts other)
drop_refs-take_refs_example = drop_refs-take_refs 3 2 counted 0 counted-IsCounted

crossed-in_turn_example :
    let twice = (cow_refdec (cow_refdec counted 0).0 0).0.counts 0 in
    ((a : Bool) → left_by (in_turn a) 1 ≡ twice)
    × ((a b : Bool) → left_by (crossed a b) 1 ≡ (if ltb 1 1 then twice else 65535))
crossed-in_turn_example = crossed-in_turn counted 0 refl (omega arith) (omega arith)
