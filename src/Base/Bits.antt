-- ===== src/Base/Bits.antt =====
-- One bit of a byte, as the kernel's bitmaps test, set and clear it: `b & (1 << k)`,
-- `b | (1 << k)` and `b & !(1 << k)` on `u8`.
use Prim.Native.Nat.{ℕ, zero, suc, ◌-◌, ◌<◌, ◌^◌, bit_and, bit_or}
use mathlib.Core.Path.{◌≡◌, refl}
use mathlib.Core.Bool.{Bool, true, false, not, ◌&&◌}
use native.Mathlib.Omega.{arith}
use elitra_os.Base.Tests.{◌==◌, ltb, if◌then◌else◌}

unfoldable pub test_bit : ℕ → ℕ → Bool
test_bit b k = not (bit_and b (2 ^ k) == 0)

unfoldable pub set_bit : ℕ → ℕ → ℕ
set_bit b k = bit_or b (2 ^ k)

unfoldable pub clear_bit : ℕ → ℕ → ℕ
clear_bit b k = bit_and b (255 - 2 ^ k)

-- Whether a test succeeds at each number under a limit.
unfoldable pub each_under : (ℕ → Bool) → ℕ → Bool
each_under test zero = true
each_under test (suc limit) = if test limit then each_under test limit else false

pub each_under-true :
    (test : ℕ → Bool) (limit i : ℕ) → i < limit → each_under test limit ≡ true → test i ≡ true
unfolding each_under
each_under-true test zero i h e = absurd (omega (arith, h))
each_under-true test (suc limit) i h e = ground (arith, each_under-true test limit i, e)

same : Bool → Bool → Bool
same true b = b
same false b = not b

same-eq : (a b : Bool) → same a b ≡ true → a ≡ b
unfolding same
same-eq a b h = ground arith

-- A statement over a byte and two bit positions, tried at every value.
for_bits : (ℕ → ℕ → ℕ → Bool) → Bool
for_bits p = each_under (λ b. each_under (λ k. each_under (λ j. p b k j) 8) 8) 256

for_bits_sound :
    (p : ℕ → ℕ → ℕ → Bool) (b k j : ℕ)
    → for_bits p ≡ true
    → b < 256
    → k < 8
    → j < 8
    → p b k j ≡ true
unfolding for_bits
for_bits_sound p b k j h hb hk hj =
    each_under-true _ 8 j hj (each_under-true _ 8 k hk (each_under-true _ 256 b hb h))

set_table :
    for_bits (λ b k j. same (test_bit (set_bit b k) j) (if k == j then true else test_bit b j))
    ≡ true
unfolding for_bits each_under same test_bit set_bit
set_table = refl

clear_table :
    for_bits (λ b k j. same (test_bit (clear_bit b k) j) (if k == j then false else test_bit b j))
    ≡ true
unfolding for_bits each_under same test_bit clear_bit
clear_table = refl

range_table : for_bits (λ b k j. ltb (set_bit b k) 256 && ltb (clear_bit b k) 256) ≡ true
unfolding for_bits each_under set_bit clear_bit
range_table = refl

ones_table : each_under (test_bit 255) 8 ≡ true
unfolding each_under test_bit
ones_table = refl

module _ (b k j : ℕ) (hb : b < 256) (hk : k < 8) (hj : j < 8) where
  pub test_bit-set_bit : test_bit (set_bit b k) j ≡ (if k == j then true else test_bit b j)
  test_bit-set_bit = same-eq _ _ (for_bits_sound _ b k j set_table hb hk hj)

  pub test_bit-clear_bit : test_bit (clear_bit b k) j ≡ (if k == j then false else test_bit b j)
  test_bit-clear_bit = same-eq _ _ (for_bits_sound _ b k j clear_table hb hk hj)

pub set_bit-lt : (b k : ℕ) → b < 256 → k < 8 → set_bit b k < 256
set_bit-lt b k hb hk =
    let t = for_bits_sound _ b k 0 range_table hb hk (omega arith) in ground arith

pub clear_bit-lt : (b k : ℕ) → b < 256 → k < 8 → clear_bit b k < 256
clear_bit-lt b k hb hk =
    let t = for_bits_sound _ b k 0 range_table hb hk (omega arith) in ground arith

pub test_bit_ones : (k : ℕ) → k < 8 → test_bit 255 k ≡ true
test_bit_ones k h = each_under-true _ 8 k h ones_table

zero_table : each_under (λ k. not (test_bit 0 k)) 8 ≡ true
unfolding each_under test_bit
zero_table = refl

pub test_bit_zero : (k : ℕ) → k < 8 → test_bit 0 k ≡ false
test_bit_zero k h =
    let clear : not (test_bit 0 k) ≡ true = each_under-true _ 8 k h zero_table in
    ground (arith, clear)
