-- ===== src/Util/Klib/Digits.antt =====
-- Numbers as text (kernel/src/util/klib.rs).
use native.Mathlib.Nat.{div-lt_iff_lt-mul, mul-le-mul_left}
use elitra_os.Base.{
  ℕ, zero, suc, ◌+◌, ◌*◌, ◌/◌, ◌%◌, ◌^◌, ◌≤◌, ◌<◌, ◌≡◌, ◌∙◌, ap, refl, Bool, true, false, List, [],
  ◌∷◌, length, ltb, leb, ◌==◌, arith, Bool-cases, inl, inr,
}
use elitra_os.Util.Klib.{
  ℤ, pos, negsuc, digit_to_char, digits, usable_base, uitoa_base, uitoa64_base, itoa_base, itoa,
  to_i32, negate, read_digits, read_sign, atoi,
}

half_lt : (base x p : ℕ) → 2 ≤ base → x < 2 * p → x / base < p
half_lt base x p b h =
    (div-lt_iff_lt-mul {k = base} {x = x} {y = p} (omega arith)).1
      (omega (arith, h, mul-le-mul_left {m = 2} {n = base} p b))

length-digits :
    (fuel base x : ℕ) (acc : List ℕ) (k : ℕ)
    → 2 ≤ base
    → x < 2 ^ k
    → k ≤ fuel
    → length (digits fuel base x acc) ≤ k + length acc
unfolding digits
length-digits zero base x acc k b h f = omega arith
length-digits (suc fuel) base x acc zero b h f = ground (arith, h)
length-digits (suc fuel) base x acc (suc k) b h f =
    let half : x / base < 2 ^ k = half_lt base x (2 ^ k) b (omega (arith, h)) in
    ground (
      arith,
      length-digits fuel base (x / base) (digit_to_char (x % base) ∷ acc) k b half (omega arith),
    )

read_digit :
    (q x : ℕ) (acc : List ℕ)
    → q ≡ x / 10
    → x < 2 ^ 32
    → read_digits q (digit_to_char (x % 10) ∷ acc) ≡ read_digits x acc
unfolding read_digits digit_to_char
read_digit q x acc e w = let d : x ≡ 10 * q + x % 10 = omega (arith, e) in ground (arith, d, w)

read_digits-digits :
    (fuel x : ℕ) (acc : List ℕ)
    → x < 2 ^ fuel
    → x < 2 ^ 32
    → read_digits 0 (digits fuel 10 x acc) ≡ read_digits x acc
unfolding digits
read_digits-digits zero x acc h w = ap (λ k. read_digits k acc) (omega (arith, h))
read_digits-digits (suc fuel) x acc h w =
    let half : x / 10 < 2 ^ fuel = half_lt 10 x (2 ^ fuel) (omega arith) (omega (arith, h)) in
    elim (Bool-cases (ltb 0 x)) [
      | inl t ↦ rw t (
          read_digits-digits fuel (x / 10) (digit_to_char (x % 10) ∷ acc) half (omega arith)
          ∙ read_digit (x / 10) x acc refl w)
      | inr f ↦ let e : 0 ≡ x = ground (arith, f) in rw f (ap (λ k. read_digits k acc) e)
    ]

-- The text of a number below 2^`k` has at most `k` digits in any base, so 32-bit numbers fit the 36
-- bytes of the buffer and 64-bit numbers its 68.
pub uitoa_base-length :
    (num base k : ℕ) → num < 2 ^ k → 0 < k → k ≤ 64 → length (uitoa_base num base) ≤ k
unfolding uitoa_base uitoa64_base usable_base
uitoa_base-length num base k h p f =
    let b : ℕ = usable_base base in
    let big : 2 ≤ b = ground arith in ground (arith, length-digits 64 b num [] k big h f)

-- The list is empty or starts with no sign and no blank.
starts : List ℕ → Bool
starts [] = true
starts (b ∷ bs) = leb 48 b

starts-digits :
    (fuel x : ℕ) (acc : List ℕ) → starts acc ≡ true → starts (digits fuel 10 x acc) ≡ true
unfolding starts digits digit_to_char
starts-digits zero x acc h = h
starts-digits (suc fuel) x acc h =
    ground (arith, h, starts-digits fuel (x / 10) (digit_to_char (x % 10) ∷ acc))

atoi_plain : (bs : List ℕ) → starts bs ≡ true → atoi bs ≡ to_i32 (read_digits 0 bs)
unfolding starts atoi read_sign read_digits to_i32
atoi_plain [] h = ground arith
atoi_plain (b ∷ bs) h = ground (arith, h)

-- The values of an i32.
abbrev pub InRange : ℤ → Type 0
InRange (pos n) = n < 2 ^ 31
InRange (negsuc n) = n < 2 ^ 31

read_back : (x : ℕ) → x < 2 ^ 32 → read_digits 0 (digits 64 10 x []) ≡ x
unfolding read_digits
read_back x h = read_digits-digits 64 x [] (omega (arith, h)) h

-- `atoi` reads back what `itoa` writes, for every i32, the smallest one included.
pub atoi-itoa : (num : ℤ) → InRange num → atoi (itoa num) ≡ num
unfolding itoa itoa_base uitoa_base uitoa64_base usable_base to_i32 negate
atoi-itoa (pos zero) h = unfold atoi read_sign read_digits in refl
atoi-itoa (pos (suc n)) h =
    let ds : List ℕ = digits 64 10 (suc n) [] in
    let back : read_digits 0 ds ≡ suc n = read_back (suc n) (omega arith) in
    let plain : starts ds ≡ true = starts-digits 64 (suc n) [] (unfold starts in refl) in
    let not_zero : (suc n == 0) ≡ false = ground arith in
    rw not_zero (atoi_plain ds plain ∙ rw back (unfold to_i32 in ground (arith, h)))
atoi-itoa (negsuc n) h =
    let back : read_digits 0 (digits 64 10 (suc n) []) ≡ suc n = read_back (suc n) (omega arith) in
    unfold atoi read_sign in rw back (ground (arith, h))
