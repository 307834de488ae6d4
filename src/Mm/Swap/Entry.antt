-- ===== src/Mm/Swap/Entry.antt =====
-- The entry of a page on its way out and back in (kernel/src/mm/swap.rs).
use elitra_os.Base.{ℕ, ◌+◌, ◌*◌, ◌/◌, ◌%◌, ◌^◌, ◌≤◌, ◌<◌, ◌≡◌, ◌⊎◌, true, arith}
use elitra_os.Mm.Swap.{
  swap_is_pte, swap_pte_to_slot, swap_slot_to_pte, kept_flags, without_marker, evicted_pte,
  restored_pte,
}

-- the flags that are kept: a multiple of 16 with bit 10 clear
flags_shape :
    (pte : ℕ)
    → (q : ℕ) × (without_marker (kept_flags pte) ≡ q * 16) × ((q < 64) ⊎ ((128 ≤ q) × (q < 192)))
flags_shape pte = (without_marker (kept_flags pte) / 16, ground arith, ground arith)

marker_stays :
    (q : ℕ) → (q < 64) ⊎ ((128 ≤ q) × (q < 192)) → without_marker (1024 + q * 16) ≡ q * 16
marker_stays q h = ground (arith, h)

-- The entry that a page leaves behind is seen as one of a page in the swap area and names its slot.
-- The entry that it gets back is present and names the page's new place, but of the flags of the old
-- entry only the bits 4 to 9 and 11 come back: the page is neither writable nor open to the user,
-- whatever it was.
pub restored-evicted :
    (slot old_pte phys : ℕ)
    → slot < 2 ^ 20
    → phys < 2 ^ 52
    → phys % 4096 ≡ 0
    → let pte = evicted_pte slot old_pte in
      let back = restored_pte phys pte in
      (swap_is_pte pte ≡ true)
      × (swap_pte_to_slot pte ≡ slot)
      × (back / 4096 * 4096 ≡ phys)
      × (back % 4096 ≡ without_marker (kept_flags old_pte) + 1)
      × (back / 2 % 2 ≡ 0)
      × (back / 4 % 2 ≡ 0)
unfolding swap_is_pte swap_pte_to_slot swap_slot_to_pte evicted_pte restored_pte
restored-evicted slot old_pte phys s p a =
    let (q, w, h) = flags_shape old_pte in
    let small : q < 192 = ground (arith, h) in
    let place : slot % 2 ^ 20 ≡ slot = omega (arith, s) in
    let flags : (1024 + slot * 4096 + q * 16) % 4096 / 16 * 16 ≡ 1024 + q * 16 =
      omega (arith, small) in
    rw (w, place, flags, marker_stays q h)
      (
        ground (arith, small, h),
        omega (arith, small, s),
        omega (arith, small, p, a),
        omega (arith, small, p, a),
        omega (arith, small),
        omega (arith, small),
      )
