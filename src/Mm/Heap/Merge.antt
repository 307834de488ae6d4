-- ===== src/Mm/Heap/Merge.antt =====
-- Joining free neighbours (kernel/src/mm/heap.rs, `merge_adjacent`).
use elitra_os.Base.{
  ℕ, ◌+◌, ◌≡◌, refl, false, ◌&&◌, List, [], ◌∷◌, arith, Bool-cases, inl, inr, subst,
}
use elitra_os.Mm.Heap.{Block, header_size, merge_from, merge_adjacent}
use elitra_os.Mm.Heap.Tiling.{Tiles}
use elitra_os.Mm.Heap.Live.{live}

-- No two neighbours are both free.
abbrev pub Separates : Block → List Block → Type 0
Separates b [] = Unit {0}
Separates b (c ∷ cs) = (b.free && c.free ≡ false) × Separates c cs

abbrev pub IsCoalesced : List Block → Type 0
IsCoalesced [] = Unit {0}
IsCoalesced (b ∷ bs) = Separates b bs

Separates-IsCoalesced : (a : Block) (bs : List Block) → Separates a bs → IsCoalesced bs
Separates-IsCoalesced a [] h = tt
Separates-IsCoalesced a (b ∷ bs) h = h.1

merge_from-Separates :
    (a b : Block) (bs : List Block) → (a.free && b.free) ≡ false → Separates a (merge_from b bs)
unfolding merge_from
merge_from-Separates a b [] h = (h, tt)
merge_from-Separates a b (c ∷ cs) h =
    let grown : Block = record b { size = b.size + header_size + c.size } in
    elim (Bool-cases (b.free && c.free)) [
      | inl e ↦ rw e (merge_from-Separates a grown cs h)
      | inr e ↦ rw e (h, merge_from-Separates b c cs e)
    ]

-- After the merge no two neighbours are both free.
pub merge_adjacent-IsCoalesced : (bs : List Block) → IsCoalesced (merge_adjacent bs)
unfolding merge_adjacent
merge_adjacent-IsCoalesced [] = tt
merge_adjacent-IsCoalesced (b ∷ bs) =
    Separates-IsCoalesced (record b { free = false }) (merge_from b bs)
      (merge_from-Separates (record b { free = false }) b bs refl)

merge_from-Tiles :
    (lo hi : ℕ) (b : Block) (bs : List Block) → Tiles lo hi (b ∷ bs) → Tiles lo hi (merge_from b bs)
unfolding merge_from
merge_from-Tiles lo hi b [] t = t
merge_from-Tiles lo hi b (c ∷ cs) t =
    let grown : Block = record b { size = b.size + header_size + c.size } in
    elim (Bool-cases (b.free && c.free)) [
      | inl e ↦
          rw e
            (merge_from-Tiles lo hi grown cs (t.0, subst (λ x. Tiles x hi cs) (omega arith) t.1.1))
      | inr e ↦ rw e (t.0, merge_from-Tiles (lo + header_size + b.size) hi c cs t.1)
    ]

pub merge_adjacent-Tiles :
    (lo hi : ℕ) (bs : List Block) → Tiles lo hi bs → Tiles lo hi (merge_adjacent bs)
unfolding merge_adjacent
merge_adjacent-Tiles lo hi [] t = t
merge_adjacent-Tiles lo hi (b ∷ bs) t = merge_from-Tiles lo hi b bs t

live-merge_from : (b : Block) (bs : List Block) (a : ℕ) → live (merge_from b bs) a ≡ live (b ∷ bs) a
unfolding live merge_from
live-merge_from b [] a = refl
live-merge_from b (c ∷ cs) a = ground (
  arith,
  live-merge_from c cs a,
  live-merge_from (record b { size = b.size + header_size + c.size }) cs a,
)

-- The merge leaves the blocks in use as they are.
pub live-merge_adjacent : (bs : List Block) (a : ℕ) → live (merge_adjacent bs) a ≡ live bs a
unfolding merge_adjacent
live-merge_adjacent [] a = refl
live-merge_adjacent (b ∷ bs) a = live-merge_from b bs a
