-- ===== src/Process/Ready/Occ.antt =====
-- How often a task is in a list: that it is in one of several lists at most once is a sum of these.
use elitra_os.Base.{
  ℕ, ◌+◌, ◌≤◌, ◌≡◌, ◌∙◌, refl, ap, true, false, List, [], ◌∷◌, ◌++◌, arith, ◌==◌, if◌then◌else◌,
  Bool-cases, inl, inr,
}
use elitra_os.Process.Ready.Chain.{has, Distinct}

-- how often a task is in a list
abbrev pub occ : ℕ → List ℕ → ℕ
occ t [] = 0
occ t (x ∷ xs) = (if t == x then 1 else 0) + occ t xs

pub occ-append : (t : ℕ) (xs ys : List ℕ) → occ t (xs ++ ys) ≡ occ t xs + occ t ys
occ-append t [] ys = ground arith
occ-append t (x ∷ xs) ys = ground (arith, occ-append t xs ys)

pub has-occ : (t : ℕ) (xs : List ℕ) → has t xs ≡ true → 1 ≤ occ t xs
has-occ t [] h = cc
has-occ t (x ∷ xs) h = elim (Bool-cases (t == x)) [
  | inl e ↦ ground (arith, e)
  | inr e ↦ ground (arith, e, h, has-occ t xs)
]

pub occ-has : (t : ℕ) (xs : List ℕ) → occ t xs ≡ 0 → has t xs ≡ false
occ-has t [] h = refl
occ-has t (x ∷ xs) h = elim (Bool-cases (t == x)) [
  | inl e ↦ ground (arith, e, h)
  | inr e ↦ ground (arith, e, h, occ-has t xs)
]

pub occ-Distinct : (xs : List ℕ) → ((t : ℕ) → occ t xs ≤ 1) → Distinct xs
occ-Distinct [] o = tt
occ-Distinct (x ∷ xs) o =
    (occ-has x xs (ground (arith, o x)), occ-Distinct xs (λ t. ground (arith, o t)))

pub no-occ : (t : ℕ) (xs : List ℕ) → has t xs ≡ false → occ t xs ≡ 0
no-occ t [] h = refl
no-occ t (x ∷ xs) h = ground (arith, h, no-occ t xs)

pub occ-snoc :
    (c : ℕ) (xs : List ℕ)
    → has c xs ≡ false
    → ((t : ℕ) → occ t xs ≤ 1)
    → (t : ℕ) → occ t (xs ++ (c ∷ [])) ≤ 1
occ-snoc c xs h once t = elim (Bool-cases (t == c)) [
  | inl e ↦
      let same : t ≡ c = ground (arith, e) in
      ground (arith, occ-append t xs (c ∷ []), no-occ t xs (ap (λ i. has i xs) same ∙ h))
  | inr e ↦ ground (arith, e, occ-append t xs (c ∷ []), once t)
]

-- the first time that a task is in a list, taken out
abbrev pub without : ℕ → List ℕ → List ℕ
without c [] = []
without c (x ∷ xs) = if x == c then xs else x ∷ without c xs
