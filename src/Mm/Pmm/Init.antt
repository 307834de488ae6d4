-- ===== src/Mm/Pmm/Init.antt =====
-- The allocator after start-up (kernel/src/mm/pmm.rs, `krust_mm_cpp_pmm_init`).
use elitra_os.Base.{
  ℕ, zero, suc, ◌+◌, ◌-◌, ◌*◌, ◌/◌, ◌%◌, ◌≤◌, ◌<◌, ◌≡◌, ◌∙◌, refl, true, false, if◌then◌else◌, ltb,
  leb, ◌&&◌, arith,
}
use native.Mathlib.Decide.{dec_le}
use elitra_os.Base.Bits.{test_bit_ones}
use elitra_os.Mm.Bitmap.{Memory, IsBytes, poke, bit_at}
use elitra_os.Mm.Pmm.{
  Pmm, page_size, bitmap_test, bitmap_clear, clear_range, fill_bytes, pmm_init, mm_pmm_init,
}
use elitra_os.Mm.Pmm.Frames.{
  IsMapped, bitmap_test-bitmap_clear, bitmap_clear-IsMapped, bitmap_clear_fields,
}
use elitra_os.Mm.Pmm.Alloc.{IsSound}

fill_bytes_lem :
    (mem : Memory) (addr n a : ℕ)
    → fill_bytes mem addr n a ≡ (if leb addr a && ltb a (addr + n) then 255 else mem a)
unfolding fill_bytes
fill_bytes_lem mem addr zero a = ground arith
fill_bytes_lem mem addr (suc n) a =
    ground (arith, fill_bytes_lem (poke mem addr 255) (addr + 1) n a)

pmm_init-test : (s : Pmm) (b size total j : ℕ) → bitmap_test (pmm_init s b size total) j ≡ true
unfolding bitmap_test pmm_init bit_at
pmm_init-test s b size total j =
    ground (arith, fill_bytes_lem s.mem b size (b + j / 8), test_bit_ones (j % 8))

-- What clearing `n` bits from `i` on leaves.
clear_range_lem :
    (s : Pmm) (i n : ℕ)
    → IsMapped s
    → (i + n ≤ s.total_frames)
    → IsMapped (clear_range s i n)
      × ((clear_range s i n).total_frames ≡ s.total_frames)
      × ((j : ℕ)
          → bitmap_test (clear_range s i n) j
            ≡ (if leb i j && ltb j (i + n) then false else bitmap_test s j))
unfolding clear_range
clear_range_lem s i zero m h = (m, refl, λ j. ground arith)
clear_range_lem s i (suc n) m h =
    let fields = bitmap_clear_fields s i in
    let (m', total, after) =
      clear_range_lem (bitmap_clear s i) (i + 1) n (bitmap_clear-IsMapped s i m) (omega arith) in
    (m', total ∙ fields.0, λ j. ground (arith, after j, bitmap_test-bitmap_clear s i j m))

-- The search hint plays no part in a test.
hint_irrelevant :
    (s : Pmm) (hint j : ℕ) → bitmap_test (record s { first_free = hint }) j ≡ bitmap_test s j
unfolding bitmap_test
hint_irrelevant s hint j = refl

pmm_init-IsMapped :
    (s : Pmm) (b size total : ℕ)
    → IsBytes s.mem
    → 0 < b
    → total ≤ size * 8
    → IsMapped (pmm_init s b size total)
unfolding pmm_init
pmm_init-IsMapped s b size total bytes p c = record {
  present = p;
  covers = c;
  bytes = λ a. ground (arith, bytes a, fill_bytes_lem s.mem b size a);
}

clear_range_all :
    (s : Pmm) (i total : ℕ)
    → IsMapped s
    → s.total_frames ≡ total
    → ((j : ℕ) → bitmap_test s j ≡ true)
    → IsMapped (clear_range s i (total - i))
      × ((j : ℕ)
          → bitmap_test (clear_range s i (total - i)) j
            ≡ (if leb i j && ltb j total then false else true))
unfolding clear_range
clear_range_all s i total m e full = elim (dec_le i total) [
  | yes p ↦
      let (m', t, after) = clear_range_lem s i (total - i) m (omega arith) in
      (m', λ j. ground (arith, after j, full j))
  | no p ↦
      let z : total - i ≡ 0 = omega arith in rw (z, clear_range) (m, λ j. ground (arith, full j))
]

-- the frames that the machine has, and how many lie below the end of the bitmap
abbrev pub frames_of : ℕ → ℕ
frames_of mem_upper_kb = (mem_upper_kb + 1024) * 1024 / page_size

abbrev pub reserved_of : ℕ → ℕ → ℕ
reserved_of mem_upper_kb placement_addr =
    (placement_addr + (frames_of mem_upper_kb + 7) / 8 + page_size - 1) / page_size

-- If memory holds bytes and the bitmap is not placed at address 0, the allocator is sound after
-- start-up, and exactly the frames of the machine that lie above the bitmap are free.
pub mm_pmm_init_lem :
    (s : Pmm) (mem_upper_kb placement_addr : ℕ)
    → IsBytes s.mem
    → 0 < placement_addr
    → IsSound (mm_pmm_init s mem_upper_kb placement_addr)
      × ((j : ℕ)
          → bitmap_test (mm_pmm_init s mem_upper_kb placement_addr) j ≡ (
              if leb (reserved_of mem_upper_kb placement_addr) j && ltb j (frames_of mem_upper_kb)
              then false
              else true))
unfolding mm_pmm_init clear_range
mm_pmm_init_lem s kb addr bytes p =
    let total = frames_of kb in
    let size = (total + 7) / 8 in
    let start = pmm_init s addr size total in
    let used = reserved_of kb addr in
    let (m, after) =
      clear_range_all start used total (pmm_init-IsMapped s addr size total bytes p (omega arith))
        (unfold pmm_init in refl) (λ j. pmm_init-test s addr size total j) in
    let test =
      λ (j : ℕ). hint_irrelevant (clear_range start used (total - used)) used j ∙ after j in
    (
      record {
        mapped = record { present = m.present; covers = m.covers; bytes = m.bytes };
        hint = λ j q. ground (arith, test j);
      },
      test,
    )
