-- ===== src/Mm/Paging/Steps.antt =====
-- A mapping that succeeds has passed each level (`map_page_in`).
use elitra_os.Base.{ℕ, ◌≡◌, inl, inr, true, arith, Bool-cases}
use elitra_os.Mm.Paging.{
  Mmu, address_of, entry_at, ensure_table, split_page, pml4_i, pdp_i, pd_i, map_last, map_from_pd,
  map_from_pdp, map_page_in,
}

pub map_from_pd-ok :
    (s : Mmu) (e3 virt phys flags : ℕ)
    → (map_from_pd s e3 virt phys flags).1 ≡ true
    → let e2 = entry_at (address_of (s.words e3)) (pd_i virt) in
      let s2 = (ensure_table s e2).0 in
      ((ensure_table s e2).1 ≡ true)
      × ((split_page s2 e2).1 ≡ true)
      × ((map_from_pd s e3 virt phys flags).0 ≡ map_last (split_page s2 e2).0 e2 virt phys flags)
unfolding map_from_pd
map_from_pd-ok s e3 virt phys flags ok =
    let e2 = entry_at (address_of (s.words e3)) (pd_i virt) in
    let s2 = (ensure_table s e2).0 in
    elim (Bool-cases (ensure_table s e2).1) [
      | inr e ↦ absurd (ground (arith, e, ok))
      | inl e ↦ elim (Bool-cases (split_page s2 e2).1) [
        | inr g ↦ absurd (ground (arith, e, g, ok))
        | inl g ↦ (e, g, ground (arith, e, g))
      ]
    ]

pub map_from_pdp-ok :
    (s : Mmu) (e4 virt phys flags : ℕ)
    → (map_from_pdp s e4 virt phys flags).1 ≡ true
    → let e3 = entry_at (address_of (s.words e4)) (pdp_i virt) in
      let s3 = (ensure_table s e3).0 in
      ((ensure_table s e3).1 ≡ true)
      × (map_from_pdp s e4 virt phys flags ≡ map_from_pd s3 e3 virt phys flags)
unfolding map_from_pdp
map_from_pdp-ok s e4 virt phys flags ok =
    elim (Bool-cases (ensure_table s (entry_at (address_of (s.words e4)) (pdp_i virt))).1) [
      | inr e ↦ absurd (ground (arith, e, ok))
      | inl e ↦ (e, ground (arith, e))
    ]

pub map_page_in-ok :
    (s : Mmu) (pml4 virt phys flags : ℕ)
    → (map_page_in s pml4 virt phys flags).1 ≡ true
    → let e4 = entry_at pml4 (pml4_i virt) in
      let s4 = (ensure_table s e4).0 in
      ((ensure_table s e4).1 ≡ true)
      × (map_page_in s pml4 virt phys flags ≡ map_from_pdp s4 e4 virt phys flags)
unfolding map_page_in
map_page_in-ok s pml4 virt phys flags ok =
    elim (Bool-cases (ensure_table s (entry_at pml4 (pml4_i virt))).1) [
      | inr e ↦ absurd (ground (arith, e, ok))
      | inl e ↦ (e, ground (arith, e))
    ]
