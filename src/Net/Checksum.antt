-- ===== src/Net/Checksum.antt =====
-- The Internet checksum as the kernel computes it: 16-bit words added up in a `u32`, the carries
-- folded back in, and the complement taken (kernel/src/net/icmp.rs, udp.rs, tcp.rs, ipv4.rs).
use elitra_os.Base.{
  ℕ, zero, suc, ◌+◌, ◌-◌, ◌*◌, ◌/◌, ◌%◌, ◌≤◌, ◌<◌, ◌≡◌, ◌⊎◌, inl, inr, refl, List, [], ◌∷◌, length,
  ◌==◌, if◌then◌else◌, arith,
}
use elitra_os.Net.Wire.{u32_mod, AllBytes}

-- The loops over the pairs of bytes, and the odd byte at the end as the high half of a word.
unfoldable pub add_words : ℕ → List ℕ → ℕ
add_words sum [] = sum
add_words sum (x ∷ []) = (sum + x * 256) % u32_mod
add_words sum (x ∷ y ∷ rest) = add_words ((sum + (x * 256 + y)) % u32_mod) rest

-- `while sum >> 16 != 0 { sum = (sum & 0xFFFF) + (sum >> 16) }`
unfoldable pub fold_carries : ℕ → ℕ → ℕ
fold_carries zero sum = sum
fold_carries (suc fuel) sum =
    let next = fold_carries fuel (sum % 65536 + sum / 65536) in
    if sum / 65536 == 0 then sum else next

-- A `u32` is folded in two rounds, so three find the loop ended.
unfoldable pub fold_sum : ℕ → ℕ
fold_sum sum = fold_carries 3 sum

-- `!sum as u16`
unfoldable pub complement : ℕ → ℕ
complement sum = 65535 - sum

unfoldable pub internet_checksum : List ℕ → ℕ
internet_checksum bytes = complement (fold_sum (add_words 0 bytes))

-- The loop ends within its fuel: the sum is below 2^16.
pub fold_sum-lt : (s : ℕ) → s < u32_mod → fold_sum s < 65536
unfolding fold_sum fold_carries
fold_sum-lt s h = ground arith

-- The folding keeps the residue modulo 65535, and whether the sum is zero.
pub fold_sum_mod : (s : ℕ) → s < u32_mod → fold_sum s % 65535 ≡ s % 65535
unfolding fold_sum fold_carries
fold_sum_mod s h = ground arith

pub fold_sum_pos : (s : ℕ) → s < u32_mod → 0 < s → 0 < fold_sum s
unfolding fold_sum fold_carries
fold_sum_pos s h p = ground arith

zero_sum : (s : ℕ) → (0 < s) ⊎ (fold_sum s ≡ 0)
unfolding fold_sum fold_carries
zero_sum zero = inr refl
zero_sum (suc s) = inl (omega arith)

-- Adding the complement of the folded sum gives a sum that folds to all ones.
pub fold_sum-complement :
    (s : ℕ) → s + 65535 < u32_mod → fold_sum (s + complement (fold_sum s)) ≡ 65535
unfolding complement
fold_sum-complement s h =
    let lt = fold_sum-lt s (omega arith) in
    let c : ℕ = s + (65535 - fold_sum s) in
    omega (
      arith,
      fold_sum_mod s (omega arith),
      fold_sum-lt c (omega arith),
      fold_sum_mod c (omega arith),
      zero_sum s,
      fold_sum_pos c (omega arith),
    )

-- the sum without the wrap
unfoldable pub word_sum : List ℕ → ℕ
word_sum [] = 0
word_sum (x ∷ []) = x * 256
word_sum (x ∷ y ∷ rest) = x * 256 + y + word_sum rest

pub word_sum-le : (bs : List ℕ) → AllBytes bs → word_sum bs ≤ 65536 * length bs
unfolding word_sum
word_sum-le [] h = omega arith
word_sum-le (x ∷ []) h = omega arith
word_sum-le (x ∷ y ∷ rest) h = omega (arith, word_sum-le rest h.1.1)

pub add_words-eq :
    (sum : ℕ) (bs : List ℕ) → sum + word_sum bs < u32_mod → add_words sum bs ≡ sum + word_sum bs
unfolding add_words word_sum
add_words-eq sum [] h = omega arith
add_words-eq sum (x ∷ []) h = omega arith
add_words-eq sum (x ∷ y ∷ rest) h =
    let e : (sum + (x * 256 + y)) % u32_mod ≡ sum + (x * 256 + y) = omega arith in
    rw e (omega (arith, add_words-eq (sum + (x * 256 + y)) rest (omega arith)))
