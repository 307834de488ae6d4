-- ===== src/Mm/Paging/Unmap.antt =====
-- An address that was unmapped is not translated (`unmap_page`, `get_phys`).
use elitra_os.Base.{
  ℕ, ◌<◌, ◌≤◌, ◌≡◌, ◌≢◌, ◌∙◌, refl, ap, sym, subst, true, false, not, none, arith, ◌==◌,
  if◌then◌else◌, Bool-cases, inl, inr,
}
use elitra_os.Mm.Paging.{
  Mmu, is_present, is_huge, address_of, entry_at, put_entry, pml4_i, pdp_i, pd_i, pt_i, Leaf,
  leaf_of, walk, get_phys, unmap_page,
}
use elitra_os.Mm.Paging.Entry.{entry_at-inj}
use elitra_os.Mm.Paging.Levels.{IsLevelled}

-- An entry on a level, written, leaves those of the levels above.
pub put_entry-above :
    (s : Mmu) (level : ℕ → ℕ) (t i u j w : ℕ)
    → IsLevelled s level
    → level t ≢ 0
    → level t < level u
    → i < 512
    → j < 512
    → put_entry s.words (entry_at t i) w (entry_at u j) ≡ s.words (entry_at u j)
put_entry-above s level t i u j w v t0 l b c =
    let u0 : level u ≢ 0 = λ g. ground (arith, l, g) in
    let ne : entry_at u j ≢ entry_at t i = λ g.
      let (ut, ij) = entry_at-inj u t j i (v.aligned u u0) (v.aligned t t0) c b g in
      absurd (ground (arith, ap level ut, l)) in
    ground (arith, ne)

blank : is_present 0 ≡ false
unfolding is_present
blank = ground arith

-- The walk where it stops early, or at the entries of the last two levels.
get_phys-early :
    (s : Mmu) (pml4 virt : ℕ) → walk s pml4 virt ≡ Leaf.absent → get_phys s pml4 virt ≡ none
unfolding get_phys
get_phys-early s pml4 virt e = rw (get_phys, e) refl

get_phys-last :
    (s : Mmu) (pml4 virt t : ℕ)
    → walk s pml4 virt ≡ Leaf.table t
    → is_present (s.words (entry_at t (pt_i virt))) ≡ false
    → get_phys s pml4 virt ≡ none
unfolding get_phys
get_phys-last s pml4 virt t e p = rw (get_phys, e, p) refl

-- the walk in terms of the three entries that it reads
walk_entries : ℕ → ℕ → ℕ → ℕ → Leaf
walk_entries at w4 w3 w2 =
    if not (is_present w4)
    then Leaf.absent
    else if not (is_present w3)
    then Leaf.absent
    else leaf_of at w2

no_table : (w4 w3 at : ℕ) → walk_entries at w4 w3 0 ≡ Leaf.absent
unfolding walk_entries leaf_of is_present
no_table w4 w3 at = ground arith

module _ (s : Mmu) (pml4 virt : ℕ) where
  e4 : ℕ
  e4 = entry_at pml4 (pml4_i virt)

  t3 : ℕ
  t3 = address_of (s.words e4)

  e3 : ℕ
  e3 = entry_at t3 (pdp_i virt)

  t2 : ℕ
  t2 = address_of (s.words e3)

  e2 : ℕ
  e2 = entry_at t2 (pd_i virt)

  -- a state with the same entries on the way
  walk-same :
      (s' : Mmu) (w2 : ℕ)
      → s'.words e4 ≡ s.words e4
      → s'.words e3 ≡ s.words e3
      → s'.words e2 ≡ w2
      → walk s' pml4 virt ≡ walk_entries e2 (s.words e4) (s.words e3) w2
  unfolding walk walk_entries e4 e3 e2 t3 t2
  walk-same s' w2 k4 k3 k2 =
      let at3 : ℕ → ℕ = λ x. entry_at (address_of x) (pdp_i virt) in
      let at2 : ℕ → ℕ = λ x. entry_at (address_of x) (pd_i virt) in
      let from4 : ℕ → Leaf = λ x.
        walk_entries (at2 (s'.words (at3 x))) x (s'.words (at3 x))
          (s'.words (at2 (s'.words (at3 x)))) in
      let from3 : ℕ → Leaf = λ x. walk_entries (at2 x) (s.words e4) x (s'.words (at2 x)) in
      ap from4 k4 ∙ ap from3 k3 ∙ ap (walk_entries e2 (s.words e4) (s.words e3)) k2

  on_way :
      (w4 w3 w2 at t : ℕ)
      → walk_entries at w4 w3 w2 ≡ Leaf.table t
      → (is_present w4 ≡ true)
        × (is_present w3 ≡ true)
        × (is_present w2 ≡ true)
        × (is_huge w2 ≡ false)
        × (t ≡ address_of w2)
  unfolding walk_entries leaf_of
  on_way w4 w3 w2 at t e = (
    ground (arith, e),
    ground (arith, e),
    ground (arith, e),
    ground (arith, e),
    ground (arith, e),
  )

  on_huge :
      (w4 w3 w2 at a : ℕ)
      → walk_entries at w4 w3 w2 ≡ Leaf.huge a
      → (is_present w4 ≡ true) × (is_present w3 ≡ true) × (a ≡ at)
  unfolding walk_entries leaf_of
  on_huge w4 w3 w2 at a e = (ground (arith, e), ground (arith, e), ground (arith, e))

  walk_self : walk s pml4 virt ≡ walk_entries e2 (s.words e4) (s.words e3) (s.words e2)
  walk_self = walk-same s (s.words e2) refl refl refl

  module _ (level : ℕ → ℕ) (v : IsLevelled s level) (h : level pml4 ≡ 4) where
    level_t3 : is_present (s.words e4) ≡ true → level t3 ≡ 3
    unfolding e4 t3
    level_t3 p =
        let b : pml4_i virt < 512 = omega arith in
        v.down pml4 (pml4_i virt) 2 h b p (v.flat pml4 (pml4_i virt) 1 h b p)

    level_t2 : is_present (s.words e4) ≡ true → is_present (s.words e3) ≡ true → level t2 ≡ 2
    unfolding e3 t2
    level_t2 p q =
        let b : pdp_i virt < 512 = omega arith in
        v.down t3 (pdp_i virt) 1 (level_t3 p) b q (v.flat t3 (pdp_i virt) 0 (level_t3 p) b q)

    -- an entry of a table `t`, of a level below the one of each entry on the way
    cleared : ℕ → ℕ → Mmu
    cleared t i = record s { words = put_entry s.words (entry_at t i) 0 }

    above :
        (t i u j : ℕ)
        → level t ≢ 0
        → level t < level u
        → i < 512
        → j < 512
        → (cleared t i).words (entry_at u j) ≡ s.words (entry_at u j)
    unfolding cleared
    above t i u j n l b c = put_entry-above s level t i u j 0 v n l b c

    unmap-huge :
        (a : ℕ)
        → walk s pml4 virt ≡ Leaf.huge a
        → get_phys (cleared t2 (pd_i virt)) pml4 virt ≡ none
    unfolding cleared e2 e3 e4
    unmap-huge a e =
        let (p4, p3, same) =
          on_huge (s.words e4) (s.words e3) (s.words e2) e2 a (sym walk_self ∙ e) in
        let l2 = level_t2 p4 p3 in
        let l3 = level_t3 p4 in
        let n : level t2 ≢ 0 = λ g. ground (arith, l2, g) in
        let k4 =
          above t2 (pd_i virt) pml4 (pml4_i virt) n (ground (arith, l2, h)) (omega arith)
            (omega arith) in
        let k3 =
          above t2 (pd_i virt) t3 (pdp_i virt) n (ground (arith, l2, l3)) (omega arith)
            (omega arith) in
        let k2 : (cleared t2 (pd_i virt)).words e2 ≡ 0 = ground arith in
        get_phys-early (cleared t2 (pd_i virt)) pml4 virt
          (walk-same (cleared t2 (pd_i virt)) 0 k4 k3 k2 ∙ no_table (s.words e4) (s.words e3) e2)

    unmap-table :
        (t : ℕ)
        → walk s pml4 virt ≡ Leaf.table t
        → get_phys (cleared t (pt_i virt)) pml4 virt ≡ none
    unfolding cleared e2 e3 e4
    unmap-table t e =
        let (p4, p3, p2, flat, same) =
          on_way (s.words e4) (s.words e3) (s.words e2) e2 t (sym walk_self ∙ e) in
        let l2 = level_t2 p4 p3 in
        let l3 = level_t3 p4 in
        let l1 : level t ≡ 1 = ap level same ∙ v.down t2 (pd_i virt) 0 l2 (omega arith) p2 flat in
        let n : level t ≢ 0 = λ g. ground (arith, l1, g) in
        let k4 =
          above t (pt_i virt) pml4 (pml4_i virt) n (ground (arith, l1, h)) (omega arith)
            (omega arith) in
        let k3 =
          above t (pt_i virt) t3 (pdp_i virt) n (ground (arith, l1, l3)) (omega arith)
            (omega arith) in
        let k2 =
          above t (pt_i virt) t2 (pd_i virt) n (ground (arith, l1, l2)) (omega arith)
            (omega arith) in
        let own : (cleared t (pt_i virt)).words (entry_at t (pt_i virt)) ≡ 0 = ground arith in
        get_phys-last (cleared t (pt_i virt)) pml4 virt t
          (walk-same (cleared t (pt_i virt)) (s.words e2) k4 k3 k2 ∙ sym walk_self ∙ e)
          (ap is_present own ∙ blank)

    cleared-IsLevelled : (t i : ℕ) → IsLevelled (cleared t i) level
    unfolding cleared
    cleared-IsLevelled t i = record {
      sound = v.sound;
      small = v.small;
      aligned = v.aligned;
      low = v.low;
      used = v.used;
      down = λ u j k e c p q. elim (Bool-cases (entry_at u j == entry_at t i)) [
        | inl g ↦
            let own : put_entry s.words (entry_at t i) 0 (entry_at u j) ≡ 0 = ground (arith, g) in
            absurd (ground (arith, ap is_present own, blank, p))
        | inr g ↦
            let same : put_entry s.words (entry_at t i) 0 (entry_at u j) ≡ s.words (entry_at u j) =
              ground (arith, g) in
            ap (λ x. level (address_of x)) same
            ∙ v.down u j k e c (sym (ap is_present same) ∙ p) (sym (ap is_huge same) ∙ q)
      ];
      flat = λ u j k e c p. elim (Bool-cases (entry_at u j == entry_at t i)) [
        | inl g ↦
            let own : put_entry s.words (entry_at t i) 0 (entry_at u j) ≡ 0 = ground (arith, g) in
            absurd (ground (arith, ap is_present own, blank, p))
        | inr g ↦
            let same : put_entry s.words (entry_at t i) 0 (entry_at u j) ≡ s.words (entry_at u j) =
              ground (arith, g) in
            ap is_huge same ∙ v.flat u j k e c (sym (ap is_present same) ∙ p)
      ];
    }

    -- A table of the last level is found again where the entries above it are as they were.
    pub walk-kept :
        (s' : Mmu) (t : ℕ)
        → walk s pml4 virt ≡ Leaf.table t
        → ((u j : ℕ) → 2 ≤ level u → j < 512 → s'.words (entry_at u j) ≡ s.words (entry_at u j))
        → (walk s' pml4 virt ≡ Leaf.table t) × (level t ≡ 1)
    unfolding e2 e3 e4
    walk-kept s' t e same =
        let (p4, p3, p2, flat, place) =
          on_way (s.words e4) (s.words e3) (s.words e2) e2 t (sym walk_self ∙ e) in
        let l2 = level_t2 p4 p3 in
        let l3 = level_t3 p4 in
        let k4 = same pml4 (pml4_i virt) (ground (arith, h)) (omega arith) in
        let k3 = same t3 (pdp_i virt) (ground (arith, l3)) (omega arith) in
        let k2 = same t2 (pd_i virt) (ground (arith, l2)) (omega arith) in
        (
          walk-same s' (s.words e2) k4 k3 k2 ∙ sym walk_self ∙ e,
          ap level place ∙ v.down t2 (pd_i virt) 0 l2 (omega arith) p2 flat,
        )

    -- what an unmapped address is translated to, and the tables
    Gone : Mmu → Type 0
    Gone s' = (get_phys s' pml4 virt ≡ none) × IsLevelled s' level

    unmap_page-huge :
        (a : ℕ)
        → walk s pml4 virt ≡ Leaf.huge a
        → a ≡ e2
        → unmap_page s pml4 virt ≡ cleared t2 (pd_i virt)
    unfolding unmap_page cleared e2
    unmap_page-huge a e same = rw (unmap_page, e, same) refl

    unmap_page-table :
        (t : ℕ) → walk s pml4 virt ≡ Leaf.table t → unmap_page s pml4 virt ≡ cleared t (pt_i virt)
    unfolding unmap_page cleared
    unmap_page-table t e = rw (unmap_page, e) refl

    unmap_page-absent : walk s pml4 virt ≡ Leaf.absent → unmap_page s pml4 virt ≡ s
    unfolding unmap_page
    unmap_page-absent e = rw (unmap_page, e) refl

    unmap-Gone : (l : Leaf) → walk s pml4 virt ≡ l → Gone (unmap_page s pml4 virt)
    unfolding Gone
    unmap-Gone Leaf.absent e =
        subst Gone (sym (unmap_page-absent e)) (get_phys-early s pml4 virt e, v)
    unmap-Gone (Leaf.huge a) e =
        let way = on_huge (s.words e4) (s.words e3) (s.words e2) e2 a (sym walk_self ∙ e) in
        subst Gone (sym (unmap_page-huge a e way.2))
          (unmap-huge a e, cleared-IsLevelled t2 (pd_i virt))
    unmap-Gone (Leaf.table t) e =
        subst Gone (sym (unmap_page-table t e)) (unmap-table t e, cleared-IsLevelled t (pt_i virt))

-- With tables on four levels, an address that was unmapped is not translated to anything, and the
-- tables stay on their levels.
pub get_phys-unmap_page :
    (s : Mmu) (level : ℕ → ℕ) (pml4 virt : ℕ)
    → IsLevelled s level
    → level pml4 ≡ 4
    → let s' = unmap_page s pml4 virt in (get_phys s' pml4 virt ≡ none) × IsLevelled s' level
unfolding Gone
get_phys-unmap_page s level pml4 virt v h = unmap-Gone s pml4 virt level v h (walk s pml4 virt) refl
