-- ===== src/Util/Klib/Strings.antt =====
-- Strings in memory (kernel/src/util/klib.rs) against lists of bytes.
use elitra_os.Base.{
  ℕ, zero, suc, ◌+◌, ◌≤◌, ◌<◌, ◌≡◌, ◌≢◌, ◌↔◌, ◌⊎◌, ◌∙◌, refl, sym, ==_iff, false, ◌&&◌, some, List,
  [], ◌∷◌, length, leb, ◌==◌, arith, Bool-cases, inl, inr,
}
use elitra_os.Mm.Bitmap.{Memory, poke}
use elitra_os.Util.Klib.{ℤ, pos, difference, strlen, strcmp, strcpy}

-- At the address stands the text, of bytes that are not zero, and then a zero.
abbrev pub HoldsText : Memory → ℕ → List ℕ → Type 0
HoldsText mem s [] = mem s ≡ 0
HoldsText mem s (x ∷ xs) = (mem s ≡ x) × (x ≢ 0) × HoldsText mem (s + 1) xs

-- `strlen` returns the length of the text, with any fuel above it.
pub strlen-length :
    (fuel : ℕ) (mem : Memory) (s : ℕ) (xs : List ℕ)
    → HoldsText mem s xs
    → length xs < fuel
    → strlen fuel mem s ≡ some (length xs)
unfolding strlen
strlen-length zero mem s xs h f = absurd (omega arith)
strlen-length (suc fuel) mem s [] h f = ground (arith, h)
strlen-length (suc fuel) mem s (x ∷ xs) h f =
    ground (arith, h, strlen-length fuel mem (s + 1) xs h.2 (omega arith))

cons_eq : {x y : ℕ} {xs ys : List ℕ} → x ≡ y → xs ≡ ys → x ∷ xs ≡ y ∷ ys
cons_eq e f = cc

head_eq : {x y : ℕ} {xs ys : List ℕ} → x ∷ xs ≡ y ∷ ys → x ≡ y
head_eq e = cc

tail_eq : {x y : ℕ} {xs ys : List ℕ} → x ∷ xs ≡ y ∷ ys → xs ≡ ys
tail_eq e = cc

head_ne : (x y : ℕ) → (x == y) ≡ false → x ≢ y
head_ne x y e g = ground (arith, e, g)

difference-pos : (a b : ℕ) → a ≢ b → difference a b ≢ pos 0
unfolding difference
difference-pos a b h e = ground (arith, h, e)

strcmp_differ :
    (fuel : ℕ) (mem : Memory) (s t : ℕ)
    → mem s ≢ mem t
    → strcmp (suc fuel) mem s t ≡ some (difference (mem s) (mem t))
unfolding strcmp
strcmp_differ fuel mem s t h = ground (arith, h)

strcmp_agree :
    (fuel : ℕ) (mem : Memory) (s t : ℕ)
    → mem s ≡ mem t
    → mem s ≢ 0
    → strcmp (suc fuel) mem s t ≡ strcmp fuel mem (s + 1) (t + 1)
unfolding strcmp
strcmp_agree fuel mem s t e h = ground (arith, e, h)

-- With fuel above the length of the first text, `strcmp` returns, and what it returns is 0 exactly
-- where the two texts are the same.
pub strcmp_lem :
    (fuel : ℕ) (mem : Memory) (s t : ℕ) (xs ys : List ℕ)
    → HoldsText mem s xs
    → HoldsText mem t ys
    → length xs < fuel
    → (d : ℤ) × (strcmp fuel mem s t ≡ some d) × ((d ≡ pos 0) ↔ (xs ≡ ys))
strcmp_lem zero mem s t xs ys h k f = absurd (omega arith)
strcmp_lem (suc fuel) mem s t [] [] h k f =
    (pos 0, unfold strcmp in ground (arith, h, k), ((λ e. refl), (λ e. refl)))
strcmp_lem (suc fuel) mem s t [] (y ∷ ys) h k f =
    let ne : mem s ≢ mem t = λ e. k.1 (omega (arith, e, h, k.0)) in
    (
      difference (mem s) (mem t),
      strcmp_differ fuel mem s t ne,
      ((λ e. absurd (difference-pos (mem s) (mem t) ne e)), (λ e. cc)),
    )
strcmp_lem (suc fuel) mem s t (x ∷ xs) [] h k f =
    let ne : mem s ≢ mem t = λ e. h.1 (omega (arith, e, k, h.0)) in
    (
      difference (mem s) (mem t),
      strcmp_differ fuel mem s t ne,
      ((λ e. absurd (difference-pos (mem s) (mem t) ne e)), (λ e. cc)),
    )
strcmp_lem (suc fuel) mem s t (x ∷ xs) (y ∷ ys) h k f =
    let (d, run, same) = strcmp_lem fuel mem (s + 1) (t + 1) xs ys h.2 k.2 (omega arith) in
    elim (Bool-cases (x == y)) [
      | inl e ↦
          let x_y : x ≡ y = (==_iff x y).0 e in
          let agree : mem s ≡ mem t = h.0 ∙ x_y ∙ sym k.0 in
          let not_zero : mem s ≢ 0 = λ z. h.1 (sym h.0 ∙ z) in
          (
            d,
            strcmp_agree fuel mem s t agree not_zero ∙ run,
            ((λ z. cons_eq x_y (same.0 z)), (λ z. same.1 (tail_eq z))),
          )
      | inr e ↦
          let ne : mem s ≢ mem t = λ z. ground (arith, e, z, h.0, k.0) in
          (
            difference (mem s) (mem t),
            strcmp_differ fuel mem s t ne,
            (
              (λ z. absurd (difference-pos (mem s) (mem t) ne z)),
              (λ z. absurd (head_ne x y e (head_eq z))),
            ),
          )
    ]

HoldsText-congr :
    (mem mem' : Memory) (s : ℕ) (xs : List ℕ)
    → ((a : ℕ) → s ≤ a → a ≤ s + length xs → mem' a ≡ mem a)
    → HoldsText mem s xs
    → HoldsText mem' s xs
HoldsText-congr mem mem' s [] e h = e s (omega arith) (omega arith) ∙ h
HoldsText-congr mem mem' s (x ∷ xs) e h = (
  e s (omega arith) (omega arith) ∙ h.0,
  h.1,
  HoldsText-congr mem mem' (s + 1) xs (λ a l u. e a (omega arith) (omega arith)) h.2,
)

-- `strcpy` makes a copy of the text where the destination does not overlap it, and changes nothing
-- outside of the copy.
pub strcpy_lem :
    (fuel : ℕ) (mem : Memory) (dest src : ℕ) (xs : List ℕ)
    → HoldsText mem src xs
    → length xs < fuel
    → ((dest + length xs < src) ⊎ (src + length xs < dest))
    → (mem' : Memory) × (strcpy fuel mem dest src ≡ some mem')
      × HoldsText mem' dest xs
      × ((a : ℕ) → leb dest a && leb a (dest + length xs) ≡ false → mem' a ≡ mem a)
unfolding strcpy
strcpy_lem zero mem dest src xs h f d = absurd (omega arith)
strcpy_lem (suc fuel) mem dest src [] h f d =
    (poke mem dest (mem src), ground (arith, h), ground (arith, h), λ a out. ground (arith, out))
strcpy_lem (suc fuel) mem dest src (x ∷ xs) h f d =
    let moved : Memory = poke mem dest (mem src) in
    let still : HoldsText moved (src + 1) xs =
      HoldsText-congr mem moved (src + 1) xs (λ a l u. ground (arith, d)) h.2 in
    let apart : (dest + 1 + length xs < src + 1) ⊎ (src + 1 + length xs < dest + 1) =
      ground (arith, d) in
    let (mem', run, copy, rest) =
      strcpy_lem fuel moved (dest + 1) (src + 1) xs still (omega arith) apart in
    (
      mem',
      ground (arith, h.0, h.1, run),
      (rest dest (ground arith) ∙ ground (arith, h.0), h.1, copy),
      λ a out. rest a (ground (arith, out)) ∙ ground (arith, out),
    )
