-- ===== src/Mm/Pmm/Frames.antt =====
-- When a frame counts as in use, and what each bitmap write changes (kernel/src/mm/pmm.rs).
use elitra_os.Base.{ℕ, ◌*◌, ◌≤◌, ◌<◌, ◌≡◌, true, false, if◌then◌else◌, ◌==◌, arith}
use elitra_os.Mm.Bitmap.{IsBytes, set_at-IsBytes, clear_at-IsBytes, bit_at-set_at, bit_at-clear_at}
use elitra_os.Mm.Pmm.{Pmm, bitmap_test, bitmap_set, bitmap_clear}

-- The bitmap is there, and has a bit for every frame.
pub record IsMapped (s : Pmm) : Type 0 where
  pub present : 0 < s.bitmap
  pub covers : s.total_frames ≤ s.bitmap_size * 8
  pub bytes : IsBytes s.mem

pub bitmap_test-bitmap_set :
    (s : Pmm) (i j : ℕ)
    → IsMapped s
    → i < s.total_frames
    → bitmap_test (bitmap_set s i) j ≡ (if i == j then true else bitmap_test s j)
unfolding bitmap_test bitmap_set
bitmap_test-bitmap_set s i j m h = ground (arith, bit_at-set_at s.mem m.bytes s.bitmap i j)

pub bitmap_test-bitmap_clear :
    (s : Pmm) (i j : ℕ)
    → IsMapped s
    → i < s.total_frames
    → bitmap_test (bitmap_clear s i) j ≡ (if i == j then false else bitmap_test s j)
unfolding bitmap_test bitmap_clear
bitmap_test-bitmap_clear s i j m h = ground (arith, bit_at-clear_at s.mem m.bytes s.bitmap i j)

pub bitmap_set-IsMapped : (s : Pmm) (i : ℕ) → IsMapped s → IsMapped (bitmap_set s i)
unfolding bitmap_set
bitmap_set-IsMapped s i m = record {
  present = ground arith;
  covers = ground arith;
  bytes = λ a. ground (arith, m.bytes a, set_at-IsBytes s.mem m.bytes s.bitmap i a);
}

pub bitmap_clear-IsMapped : (s : Pmm) (i : ℕ) → IsMapped s → IsMapped (bitmap_clear s i)
unfolding bitmap_clear
bitmap_clear-IsMapped s i m = record {
  present = ground arith;
  covers = ground arith;
  bytes = λ a. ground (arith, m.bytes a, clear_at-IsBytes s.mem m.bytes s.bitmap i a);
}

pub bitmap_set_fields :
    (s : Pmm) (i : ℕ)
    → ((bitmap_set s i).total_frames ≡ s.total_frames)
      × ((bitmap_set s i).first_free ≡ s.first_free)
unfolding bitmap_set
bitmap_set_fields s i = ground arith

pub bitmap_clear_fields :
    (s : Pmm) (i : ℕ)
    → ((bitmap_clear s i).total_frames ≡ s.total_frames)
      × ((bitmap_clear s i).first_free ≡ s.first_free)
unfolding bitmap_clear
bitmap_clear_fields s i = ground arith
