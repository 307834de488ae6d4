-- ===== src/Mm/Bitmap.antt =====
-- A bitmap at an address of byte memory, the part that kernel/src/mm/pmm.rs and swap.rs share:
-- `*bm.add(bit / 8)` read, and written with one bit set or cleared.
use elitra_os.Base.{ℕ, ◌+◌, ◌/◌, ◌%◌, ◌<◌, ◌≡◌, Bool, true, false, if◌then◌else◌, ◌==◌, arith}
use elitra_os.Base.Bits.{
  test_bit, set_bit, clear_bit, test_bit-set_bit, test_bit-clear_bit, set_bit-lt, clear_bit-lt,
}

-- Byte memory: the value at each address.
abbrev pub Memory : Type 0
Memory = ℕ → ℕ

abbrev pub poke : Memory → ℕ → ℕ → Memory
poke mem addr v a = if addr == a then v else mem a

unfoldable pub bit_at : Memory → ℕ → ℕ → Bool
bit_at mem bm bit = test_bit (mem (bm + bit / 8)) (bit % 8)

unfoldable pub set_at : Memory → ℕ → ℕ → Memory
set_at mem bm bit = poke mem (bm + bit / 8) (set_bit (mem (bm + bit / 8)) (bit % 8))

unfoldable pub clear_at : Memory → ℕ → ℕ → Memory
clear_at mem bm bit = poke mem (bm + bit / 8) (clear_bit (mem (bm + bit / 8)) (bit % 8))

abbrev pub IsBytes : Memory → Type 0
IsBytes mem = (a : ℕ) → mem a < 256

module _ (mem : Memory) (bytes : IsBytes mem) (bm i : ℕ) where
  pub set_at-IsBytes : IsBytes (set_at mem bm i)
  unfolding set_at
  set_at-IsBytes a =
      ground (arith, bytes a, bytes (bm + i / 8), set_bit-lt (mem (bm + i / 8)) (i % 8))

  pub clear_at-IsBytes : IsBytes (clear_at mem bm i)
  unfolding clear_at
  clear_at-IsBytes a =
      ground (arith, bytes a, bytes (bm + i / 8), clear_bit-lt (mem (bm + i / 8)) (i % 8))

  pub bit_at-set_at :
      (j : ℕ) → bit_at (set_at mem bm i) bm j ≡ (if i == j then true else bit_at mem bm j)
  unfolding bit_at set_at
  bit_at-set_at j =
      ground (arith, bytes (bm + i / 8), test_bit-set_bit (mem (bm + i / 8)) (i % 8) (j % 8))

  pub bit_at-clear_at :
      (j : ℕ) → bit_at (clear_at mem bm i) bm j ≡ (if i == j then false else bit_at mem bm j)
  unfolding bit_at clear_at
  bit_at-clear_at j =
      ground (arith, bytes (bm + i / 8), test_bit-clear_bit (mem (bm + i / 8)) (i % 8) (j % 8))
