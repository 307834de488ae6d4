-- ===== src/Mm/Vma/Order.antt =====
-- The areas of a process stay in address order and disjoint (kernel/src/mm/vma.rs).
use elitra_os.Base.{ℕ, ◌≤◌, ◌<◌, ◌≡◌, Bool, false, List, [], ◌∷◌, arith}
use elitra_os.Mm.Vma.{Area, insert, vmm_add, vmm_remove, overlaps_any, vmm_has_overlap}

-- every area has an address, starts at `lo` or above, and ends before the next one starts
abbrev pub IsOrdered : ℕ → List Area → Type 0
IsOrdered lo [] = Unit {0}
IsOrdered lo (v ∷ vs) = (lo ≤ v.start) × (v.start < v.end) × IsOrdered v.end vs

IsOrdered-weaken : (lo hi : ℕ) (vs : List Area) → lo ≤ hi → IsOrdered hi vs → IsOrdered lo vs
IsOrdered-weaken lo hi [] h o = o
IsOrdered-weaken lo hi (v ∷ vs) h o = ground arith

insert-IsOrdered :
    (v : Area) (lo : ℕ) (vs : List Area)
    → v.start < v.end
    → lo ≤ v.start
    → overlaps_any v.start v.end vs ≡ false
    → IsOrdered lo vs
    → IsOrdered lo (insert v vs)
unfolding insert overlaps_any
insert-IsOrdered v lo [] p q n o = ground arith
insert-IsOrdered v lo (c ∷ cs) p q n o = ground (arith, insert-IsOrdered v c.end cs)

-- If the overlap test found the range free and the range starts no lower than the bound of the
-- list, adding it keeps the list in order and disjoint, whether or not there is memory for the
-- area.
pub vmm_add-IsOrdered :
    (allocated : Bool) (start end flags lo : ℕ) (vs : List Area)
    → vmm_has_overlap vs start end ≡ false
    → lo ≤ start
    → IsOrdered lo vs
    → IsOrdered lo (vmm_add allocated start end flags vs).0
unfolding vmm_add vmm_has_overlap
vmm_add-IsOrdered allocated start end flags lo vs n q o =
    ground (arith, insert-IsOrdered (record { start = start; end = end; flags = flags }) lo vs)

-- Unmapping a range that is not empty keeps the list in order and disjoint, whether or not there is
-- memory for a split.
pub vmm_remove-IsOrdered :
    (allocated : Bool) (start end lo : ℕ) (vs : List Area)
    → start < end
    → IsOrdered lo vs
    → IsOrdered lo (vmm_remove allocated start end vs).0
unfolding vmm_remove
vmm_remove-IsOrdered allocated start end lo [] h o = o
vmm_remove-IsOrdered allocated start end lo (c ∷ cs) h o = ground (
  arith,
  vmm_remove-IsOrdered allocated start end c.end cs,
  IsOrdered-weaken lo c.end (vmm_remove allocated start end cs).0,
  IsOrdered-weaken start c.end (vmm_remove allocated start end cs).0,
)
