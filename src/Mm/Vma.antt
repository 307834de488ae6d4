-- ===== src/Mm/Vma.antt =====
-- kernel/src/mm/vma.rs: the list of mapped areas of a process, in the order of the `next` links.
-- `krust_malloc` enters as the answer that it gives: `true` is a block, `false` the null pointer.
pub mod Order
pub mod Lookup
use elitra_os.Base.{
  ℕ, ◌+◌, Bool, true, false, ◌&&◌, Option, none, some, List, [], ◌∷◌, ltb, leb, if◌then◌else◌,
}

-- the addresses from `start` up to, and without, `end`
pub record Area : Type 0 where
  pub start : ℕ
  pub end : ℕ
  pub flags : ℕ

unfoldable pub vmm_find : List Area → ℕ → Option Area
vmm_find [] addr = none
vmm_find (v ∷ vs) addr = if leb v.start addr && ltb addr v.end then some v else vmm_find vs addr

-- the walk to the first area that does not start below the new one
insert : Area → List Area → List Area
insert v [] = v ∷ []
insert v (c ∷ cs) = if ltb c.start v.start then c ∷ insert v cs else v ∷ c ∷ cs

-- The new list, and the new area where one was made.
unfoldable pub vmm_add : Bool → ℕ → ℕ → ℕ → List Area → List Area × Option Area
unfolding insert
vmm_add allocated start end flags head =
    let v : Area = record { start = start; end = end; flags = flags } in
    if leb end start
    then (head, none)
    else if allocated
    then (insert v head, some v)
    else (head, none)

-- One round of the walk, where `rest` is what the rounds after it make of the areas behind `c`.
-- A split ends the walk. Counted are the areas that were removed, cut or split.
remove_step : Bool → ℕ → ℕ → Area → List Area → List Area × ℕ → List Area × ℕ
remove_step allocated start end c cs rest =
    let tail : Area = record c { start = end } in
    let front : Area = record c { end = start } in
    if ltb c.start end && ltb start c.end
    then if leb start c.start && leb c.end end
      then (rest.0, rest.1 + 1)
      else if ltb c.start start && ltb end c.end
      then ((if allocated then front ∷ tail ∷ cs else c ∷ cs), 1)
      else if ltb c.start start && ltb start c.end
      then (front ∷ rest.0, rest.1 + 1)
      else if ltb c.start end && ltb end c.end
      then (tail ∷ rest.0, rest.1 + 1)
      else (c ∷ rest.0, rest.1)
    else (c ∷ rest.0, rest.1)

unfoldable pub vmm_remove : Bool → ℕ → ℕ → List Area → List Area × ℕ
unfolding remove_step
vmm_remove allocated start end [] = ([], 0)
vmm_remove allocated start end (c ∷ cs) =
    remove_step allocated start end c cs (vmm_remove allocated start end cs)

unfoldable pub vmm_free_all : List Area → List Area
vmm_free_all head = []

unfoldable pub overlaps_any : ℕ → ℕ → List Area → Bool
overlaps_any start end [] = false
overlaps_any start end (v ∷ vs) =
    if ltb v.start end && ltb start v.end then true else overlaps_any start end vs

unfoldable pub vmm_has_overlap : List Area → ℕ → ℕ → Bool
unfolding overlaps_any
vmm_has_overlap head start end = if leb end start then true else overlaps_any start end head
