-- ===== src/Net/Dhcp/Options.antt =====
-- The search for an option of a DHCP message (kernel/src/net/dhcp.rs).
use elitra_os.Base.{
  ℕ, suc, ◌+◌, ◌≡◌, ◌∙◌, refl, sym, ap, false, Option, none, some, List, [], ◌∷◌, ◌++◌, length,
  drop, ◌==◌, if◌then◌else◌, arith, inl, inr, Bool-cases, drop-length_append,
}
use elitra_os.Net.Dhcp.{header_size, find_from, find_option}

-- an option as its code and its data
abbrev pub Options : Type 0
Options = List (ℕ × List ℕ)

-- The options as the message has them, with the byte 255 and what else there is behind them.
abbrev pub option_bytes : Options → List ℕ → List ℕ
option_bytes [] rest = 255 ∷ rest
option_bytes (o ∷ os) rest = o.0 ∷ length o.1 ∷ (o.1 ++ option_bytes os rest)

-- Where the first option with the code stands.
unfoldable pub place_of : ℕ → ℕ → Options → Option ℕ
place_of code pos [] = none
place_of code pos (o ∷ os) =
    let rest = place_of code (pos + (2 + length o.1)) os in if o.0 == code then some pos else rest

-- No code is that of the padding or of the end.
abbrev pub AllProper : Options → Type 0
AllProper [] = Unit
AllProper (o ∷ os) = ((o.0 == 0) ≡ false) × ((o.0 == 255) ≡ false) × AllProper os

find_from-append :
    (code pos : ℕ) (xs ys : List ℕ)
    → find_from code pos (length xs) (xs ++ ys) ≡ find_from code (pos + length xs) 0 ys
unfolding find_from
find_from-append code pos [] ys = ap (λ p. find_from code p 0 ys) (omega arith)
find_from-append code pos (x ∷ xs) ys =
    find_from-append code (suc pos) xs ys ∙ ap (λ p. find_from code p 0 ys) (omega arith)

find_from-option_bytes :
    (code pos : ℕ) (os : Options) (rest : List ℕ)
    → AllProper os
    → find_from code pos 0 (option_bytes os rest) ≡ place_of code pos os
unfolding find_from place_of
find_from-option_bytes code pos [] [] h = refl
find_from-option_bytes code pos [] (r ∷ rest) h = refl
find_from-option_bytes code pos (o ∷ os) rest (not_pad, not_end, h) =
    elim (Bool-cases (o.0 == code)) [
      | inl t ↦ rw (not_end, not_pad, t) refl
      | inr f ↦
          rw (not_end, not_pad, f)
            (find_from-append code (suc (suc pos)) o.1 (option_bytes os rest)
              ∙ ap (λ p. find_from code p 0 (option_bytes os rest)) (omega arith)
              ∙ find_from-option_bytes code (pos + (2 + length o.1)) os rest h)
    ]

-- In a message with a header of 240 bytes, then options whose codes are neither 0 nor 255, each
-- with its length, then the byte 255, `find_option` gives the place of the first option with the
-- code, and nothing if there is none.
pub find_option-place_of :
    (code : ℕ) (header : List ℕ) (os : Options) (rest : List ℕ)
    → length header ≡ header_size
    → AllProper os
    → find_option (header ++ option_bytes os rest) code ≡ place_of code header_size os
unfolding find_option
find_option-place_of code header os rest e h =
    ap (find_from code header_size 0) (
      ap (λ n. drop n (header ++ option_bytes os rest)) (sym e)
      ∙ drop-length_append header (option_bytes os rest))
    ∙ find_from-option_bytes code header_size os rest h
