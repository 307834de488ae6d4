-- ===== src/Mm/Vma/Lookup.antt =====
-- What a lookup finds after each change of the area list (kernel/src/mm/vma.rs).
use mathlib.Core.Option
use elitra_os.Base.{
  ℕ, ◌<◌, ◌≡◌, refl, Bool, true, false, ◌&&◌, Option, none, some, List, [], ◌∷◌, ltb, leb,
  if◌then◌else◌, arith,
}
use elitra_os.Mm.Vma.{
  Area, vmm_find, insert, vmm_add, vmm_remove, remove_step, overlaps_any, vmm_has_overlap,
}
use elitra_os.Mm.Vma.Order.{IsOrdered}

-- the protection flags under which an address is mapped
pub flags_at : List Area → ℕ → Option ℕ
flags_at vs addr = Option.map (λ v. v.flags) (vmm_find vs addr)

abbrev pub within : ℕ → ℕ → ℕ → Bool
within start end addr = leb start addr && ltb addr end

-- Below an ordered list nothing is mapped.
flags_at_below :
    (lo : ℕ) (vs : List Area) (addr : ℕ) → IsOrdered lo vs → addr < lo → flags_at vs addr ≡ none
unfolding flags_at vmm_find
flags_at_below lo [] addr o h = refl
flags_at_below lo (v ∷ vs) addr o h = ground (arith, flags_at_below v.end vs addr)

flags_at-insert :
    (v : Area) (vs : List Area) (addr : ℕ)
    → overlaps_any v.start v.end vs ≡ false
    → flags_at (insert v vs) addr
      ≡ (if within v.start v.end addr then some v.flags else flags_at vs addr)
unfolding flags_at vmm_find insert overlaps_any
flags_at-insert v [] addr n = ground arith
flags_at-insert v (c ∷ cs) addr n = ground (arith, flags_at-insert v cs addr)

-- After a range that the overlap test found free was added, with memory for the new area, its
-- addresses have the new flags, every other address is mapped as before, and the call returns the
-- new area.
pub flags_at-vmm_add :
    (start end flags : ℕ) (vs : List Area) (addr : ℕ)
    → vmm_has_overlap vs start end ≡ false
    → (flags_at (vmm_add true start end flags vs).0 addr
        ≡ (if within start end addr then some flags else flags_at vs addr))
      × ((vmm_add true start end flags vs).1
          ≡ some (record { start = start; end = end; flags = flags }))
unfolding vmm_add vmm_has_overlap
flags_at-vmm_add start end flags vs addr n =
    ground (arith, flags_at-insert (record { start = start; end = end; flags = flags }) vs addr)

flags_at-cons :
    (v : Area) (vs : List Area) (addr : ℕ)
    → flags_at (v ∷ vs) addr
      ≡ (if within v.start v.end addr then some v.flags else flags_at vs addr)
unfolding flags_at vmm_find
flags_at-cons v vs addr = ground arith

flags_at-remove_step :
    (start end : ℕ) (c : Area) (cs : List Area) (rest : List Area × ℕ) (addr : ℕ)
    → start < end
    → c.start < c.end
    → (addr < c.end → flags_at cs addr ≡ none)
    → flags_at rest.0 addr ≡ (if within start end addr then none else flags_at cs addr)
    → flags_at (remove_step true start end c cs rest).0 addr
      ≡ (if within start end addr then none else flags_at (c ∷ cs) addr)
unfolding remove_step
flags_at-remove_step start end c cs rest addr h w below ih =
    let tail : Area = record c { start = end } in
    let front : Area = record c { end = start } in
    ground (
      arith,
      flags_at-cons c cs addr,
      flags_at-cons c rest.0 addr,
      flags_at-cons front rest.0 addr,
      flags_at-cons tail rest.0 addr,
      flags_at-cons front (tail ∷ cs) addr,
      flags_at-cons tail cs addr,
    )

-- After a range that is not empty was removed from a list in order, with memory for a split, none
-- of its addresses is mapped, and every other address keeps its flags.
pub flags_at-vmm_remove :
    (start end lo : ℕ) (vs : List Area) (addr : ℕ)
    → start < end
    → IsOrdered lo vs
    → flags_at (vmm_remove true start end vs).0 addr
      ≡ (if within start end addr then none else flags_at vs addr)
unfolding flags_at vmm_find vmm_remove
flags_at-vmm_remove start end lo [] addr h o = ground arith
flags_at-vmm_remove start end lo (c ∷ cs) addr h o =
    flags_at-remove_step start end c cs (vmm_remove true start end cs) addr h o.1
      (flags_at_below c.end cs addr o.2) (flags_at-vmm_remove start end c.end cs addr h o.2)

-- Where no memory for a split is left, an area around the range stays mapped as it was, though
-- the call counts it as changed.
pub vmm_remove_split_failed :
    (start end : ℕ) (c : Area) (cs : List Area)
    → c.start < start
    → start < end
    → end < c.end
    → vmm_remove false start end (c ∷ cs) ≡ (c ∷ cs, 1)
unfolding vmm_remove
vmm_remove_split_failed start end c cs p q r = ground arith
