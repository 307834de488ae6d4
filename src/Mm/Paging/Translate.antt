-- ===== src/Mm/Paging/Translate.antt =====
-- What an address is translated to after it was mapped (`map_page_in`, `get_phys`).
use elitra_os.Base.{
  ℕ, suc, ◌+◌, ◌%◌, ◌≤◌, ◌<◌, ◌≡◌, ◌≢◌, ◌∙◌, refl, ap, sym, subst, true, false, some, arith,
}
use elitra_os.Mm.Paging.{
  Mmu, is_present, is_huge, address_of, entry_at, put_entry, page_entry, ensure_table, split_page,
  pml4_i, pdp_i, pd_i, pt_i, map_last, map_from_pd, map_from_pdp, map_page_in, leaf_of, walk,
  get_phys,
}
use elitra_os.Mm.Paging.Entry.{entry_at-inj, address_of-page_entry, is_present-page_entry}
use elitra_os.Mm.Paging.Levels.{IsLevelled, Opens}
use elitra_os.Mm.Paging.Steps.{map_from_pd-ok, map_from_pdp-ok, map_page_in-ok}
use elitra_os.Mm.Paging.Make.{ensure_table-Opens, split_page-Opens}

-- a table on another level keeps its entries
pub kept_level :
    (s s' : Mmu) (level level' : ℕ → ℕ) (t i k u j : ℕ)
    → Opens s s' level level' t i k
    → IsLevelled s level
    → level t ≢ 0
    → i < 512
    → level u ≢ 0
    → j < 512
    → level u ≢ level t
    → s'.words (entry_at u j) ≡ s.words (entry_at u j)
kept_level s s' level level' t i k u j o v t0 b u0 c ne =
    o.kept u j u0 c
      (λ g. ne (ap level (entry_at-inj u t j i (v.aligned u u0) (v.aligned t t0) c b g).0))

-- the table below an entry that is open
below :
    (s s' : Mmu) (level level' : ℕ → ℕ) (t i k : ℕ)
    → Opens s s' level level' t i (suc k)
    → level t ≡ suc (suc (suc k))
    → i < 512
    → level' (address_of (s'.words (entry_at t i))) ≡ suc (suc k)
below s s' level level' t i k o h b =
    let t' : level' t ≡ suc (suc (suc k)) = o.extends t (λ g. ground (arith, h, g)) ∙ h in
    o.levelled.down t i (suc k) t' b o.present (o.levelled.flat t i k t' b o.present)

-- The last two levels, after a page was mapped below the table `t2`.
record Mapped (s s' : Mmu) (level level' : ℕ → ℕ) (t2 virt phys flags : ℕ) : Type 0 where
  levelled : IsLevelled s' level'
  extends : (u : ℕ) → level u ≢ 0 → level' u ≡ level u
  upper : (u j : ℕ) → 3 ≤ level u → j < 512 → s'.words (entry_at u j) ≡ s.words (entry_at u j)
  present : is_present (s'.words (entry_at t2 (pd_i virt))) ≡ true
  small : is_huge (s'.words (entry_at t2 (pd_i virt))) ≡ false
  page :
      s'.words (entry_at (address_of (s'.words (entry_at t2 (pd_i virt)))) (pt_i virt))
      ≡ page_entry phys flags

-- an entry of the last level written
pub last-IsLevelled :
    (s : Mmu) (level : ℕ → ℕ) (t1 i w : ℕ)
    → IsLevelled s level
    → level t1 ≡ 1
    → i < 512
    → IsLevelled (record s { words = put_entry s.words (entry_at t1 i) w }) level
      × ((u j : ℕ)
          → 2 ≤ level u
          → j < 512
          → put_entry s.words (entry_at t1 i) w (entry_at u j) ≡ s.words (entry_at u j))
last-IsLevelled s level t1 i w v h b = (
  record {
    sound = v.sound;
    small = v.small;
    aligned = v.aligned;
    low = v.low;
    used = v.used;
    down = λ u j k e c p q.
        let same = other u j (ground (arith, e)) c in
        ap (λ x. level (address_of x)) same
        ∙ v.down u j k e c (sym (ap is_present same) ∙ p) (sym (ap is_huge same) ∙ q);
    flat = λ u j k e c p.
        let same = other u j (ground (arith, e)) c in
        ap is_huge same ∙ v.flat u j k e c (sym (ap is_present same) ∙ p);
  },
  other,
)
  where
    other :
        (u j : ℕ)
        → 2 ≤ level u
        → j < 512
        → put_entry s.words (entry_at t1 i) w (entry_at u j) ≡ s.words (entry_at u j)
    other u j l c =
        let u0 : level u ≢ 0 = λ g. ground (arith, l, g) in
        let t0 : level t1 ≢ 0 = λ g. ground (arith, h, g) in
        let ne : entry_at u j ≢ entry_at t1 i = λ g.
          let (ut, ij) = entry_at-inj u t1 j i (v.aligned u u0) (v.aligned t1 t0) c b g in
          absurd (ground (arith, ap level ut, h, l)) in
        ground (arith, ne)

map_from_pd-Mapped :
    (s : Mmu) (level : ℕ → ℕ) (e3 virt phys flags : ℕ)
    → IsLevelled s level
    → level (address_of (s.words e3)) ≡ 2
    → (map_from_pd s e3 virt phys flags).1 ≡ true
    → (level' : ℕ → ℕ) × Mapped s
        (map_from_pd s e3 virt phys flags).0
        level
        level'
        (address_of (s.words e3))
        virt
        phys
        flags
unfolding map_last
map_from_pd-Mapped s level e3 virt phys flags v h ok =
    let t2 = address_of (s.words e3) in
    let i2 = pd_i virt in
    let e2 = entry_at t2 i2 in
    let b : i2 < 512 = omega arith in
    let (there, whole, result) = map_from_pd-ok s e3 virt phys flags ok in
    let s2 = (ensure_table s e2).0 in
    let (level2, opens2) = ensure_table-Opens s level t2 i2 0 v h b there in
    let h2 : level2 t2 ≡ 2 = opens2.extends t2 (λ g. ground (arith, h, g)) ∙ h in
    let s1 = (split_page s2 e2).0 in
    let (level1, opens1, flat1) =
      split_page-Opens s2 level2 t2 i2 opens2.levelled h2 b opens2.present whole in
    let h1 : level1 t2 ≡ 2 = opens1.extends t2 (λ g. ground (arith, h2, g)) ∙ h2 in
    let t1 = address_of (s1.words e2) in
    let last : level1 t1 ≡ 1 = opens1.levelled.down t2 i2 0 h1 b opens1.present flat1 in
    let (levelled, kept) =
      last-IsLevelled s1 level1 t1 (pt_i virt) (page_entry phys flags) opens1.levelled last
        (omega arith) in
    let e2_kept = kept t2 i2 (ground (arith, h1)) b in
    (
      level1,
      rw result (record {
        levelled = levelled;
        extends =
            λ u n. opens1.extends u (λ g. n (sym (opens2.extends u n) ∙ g)) ∙ opens2.extends u n;
        upper = λ u j l c.
            let u0 : level u ≢ 0 = λ g. ground (arith, l, g) in
            let u2 : level2 u ≡ level u = opens2.extends u u0 in
            let u1 : level1 u ≡ level2 u = opens1.extends u (λ g. u0 (sym u2 ∙ g)) in
            kept u j (ground (arith, u1, u2, l)) c
            ∙ kept_level s2 s1 level2 level1 t2 i2 0 u j opens1 opens2.levelled
                (λ g. ground (arith, h2, g)) b (λ g. u0 (sym u2 ∙ g)) c
                (λ g. ground (arith, u2, h2, l, g))
            ∙ kept_level s s2 level level2 t2 i2 0 u j opens2 v (λ g. ground (arith, h, g)) b u0 c
                (λ g. ground (arith, h, l, g));
        present = ap is_present e2_kept ∙ opens1.present;
        small = ap is_huge e2_kept ∙ flat1;
        page =
            ap
              (λ w.
                put_entry s1.words (entry_at t1 (pt_i virt)) (page_entry phys flags)
                  (entry_at (address_of w) (pt_i virt)))
              e2_kept
            ∙ ground arith;
      }),
    )

pub get_phys-table :
    (s : Mmu) (pml4 virt : ℕ)
    → let e4 = entry_at pml4 (pml4_i virt) in
      let e3 = entry_at (address_of (s.words e4)) (pdp_i virt) in
      let e2 = entry_at (address_of (s.words e3)) (pd_i virt) in
      let e1 = entry_at (address_of (s.words e2)) (pt_i virt) in
      is_present (s.words e4) ≡ true
      → is_present (s.words e3) ≡ true
      → is_present (s.words e2) ≡ true
      → is_huge (s.words e2) ≡ false
      → is_present (s.words e1) ≡ true
      → get_phys s pml4 virt ≡ some (address_of (s.words e1) + virt % 4096)
unfolding get_phys walk leaf_of
get_phys-table s pml4 virt p4 p3 p2 h2 p1 = rw (get_phys, walk, leaf_of, p4, p3, p2, h2, p1) refl

get_phys-page :
    (s4 s3 w : Mmu) (pml4 virt phys flags : ℕ)
    → let e4 = entry_at pml4 (pml4_i virt) in
      let e3 = entry_at (address_of (s4.words e4)) (pdp_i virt) in
      let e2 = entry_at (address_of (s3.words e3)) (pd_i virt) in
      w.words e4 ≡ s4.words e4
      → w.words e3 ≡ s3.words e3
      → is_present (s4.words e4) ≡ true
      → is_present (s3.words e3) ≡ true
      → is_present (w.words e2) ≡ true
      → is_huge (w.words e2) ≡ false
      → w.words (entry_at (address_of (w.words e2)) (pt_i virt)) ≡ page_entry phys flags
      → get_phys w pml4 virt ≡ some (address_of phys + virt % 4096)
get_phys-page s4 s3 w pml4 virt phys flags k4 k3 p4 p3 p2 h2 page =
    let found = get_phys-table w pml4 virt in
    let at3 : ℕ → ℕ = λ x. w.words (entry_at (address_of x) (pdp_i virt)) in
    let at2 : ℕ → ℕ = λ x. w.words (entry_at (address_of x) (pd_i virt)) in
    let at1 : ℕ → ℕ = λ x. w.words (entry_at (address_of x) (pt_i virt)) in
    let e3 : at3 (w.words (entry_at pml4 (pml4_i virt)))
        ≡ s3.words (entry_at (address_of (s4.words (entry_at pml4 (pml4_i virt)))) (pdp_i virt)) =
      ap at3 k4 ∙ k3 in
    let e2 = ap at2 e3 in
    let e1 = ap at1 e2 ∙ page in
    found (ap is_present k4 ∙ p4) (ap is_present e3 ∙ p3) (ap is_present e2 ∙ p2)
      (ap is_huge e2 ∙ h2) (ap is_present e1 ∙ is_present-page_entry phys flags)
    ∙ ap (λ x. some (address_of x + virt % 4096)) e1
    ∙ ap (λ x. some (x + virt % 4096)) (address_of-page_entry phys flags)

-- The address is translated to the page, and the tables that were there are on their levels, with those
-- that were made.
pub record Translates (s s' : Mmu) (level : ℕ → ℕ) (pml4 virt phys : ℕ) : Type 0 where
  pub translated : get_phys s' pml4 virt ≡ some (address_of phys + virt % 4096)
  pub level' : ℕ → ℕ
  pub levelled : IsLevelled s' level'
  pub extends : (u : ℕ) → level u ≢ 0 → level' u ≡ level u

-- Over a sound frame allocator, with tables on four levels whose frames are in use: where a mapping
-- succeeds, the address is translated to the page that was given, and the tables that were there
-- are on their levels, with those that were made.
pub get_phys-map_page_in :
    (s : Mmu) (level : ℕ → ℕ) (pml4 virt phys flags : ℕ)
    → IsLevelled s level
    → level pml4 ≡ 4
    → (map_page_in s pml4 virt phys flags).1 ≡ true
    → Translates s (map_page_in s pml4 virt phys flags).0 level pml4 virt phys
get_phys-map_page_in s level pml4 virt phys flags v h ok =
    let i4 = pml4_i virt in
    let i3 = pdp_i virt in
    let e4 = entry_at pml4 i4 in
    let b4 : i4 < 512 = omega arith in
    let b3 : i3 < 512 = omega arith in
    let (there4, r4) = map_page_in-ok s pml4 virt phys flags ok in
    let s4 = (ensure_table s e4).0 in
    let (level4, o4) = ensure_table-Opens s level pml4 i4 2 v h b4 there4 in
    let t3 = address_of (s4.words e4) in
    let h3 : level4 t3 ≡ 3 = below s s4 level level4 pml4 i4 1 o4 h b4 in
    let e3 = entry_at t3 i3 in
    let ok3 : (map_from_pdp s4 e4 virt phys flags).1 ≡ true = sym (ap (λ r. r.1) r4) ∙ ok in
    let (there3, r3) = map_from_pdp-ok s4 e4 virt phys flags ok3 in
    let s3 = (ensure_table s4 e3).0 in
    let (level3, o3) = ensure_table-Opens s4 level4 t3 i3 1 o4.levelled h3 b3 there3 in
    let h2 : level3 (address_of (s3.words e3)) ≡ 2 = below s4 s3 level4 level3 t3 i3 0 o3 h3 b3 in
    let ok2 : (map_from_pd s3 e3 virt phys flags).1 ≡ true = sym (ap (λ r. r.1) r3) ∙ ok3 in
    let (level', m) = map_from_pd-Mapped s3 level3 e3 virt phys flags o3.levelled h2 ok2 in
    let w = (map_from_pd s3 e3 virt phys flags).0 in
    let top4 : level4 pml4 ≡ 4 = o4.extends pml4 (λ g. ground (arith, h, g)) ∙ h in
    let top3 : level3 pml4 ≡ 4 = o3.extends pml4 (λ g. ground (arith, top4, g)) ∙ top4 in
    let mid3 : level3 t3 ≡ 3 = o3.extends t3 (λ g. ground (arith, h3, g)) ∙ h3 in
    let k4 : w.words e4 ≡ s4.words e4 =
      m.upper pml4 i4 (ground (arith, top3)) b4
      ∙ kept_level s4 s3 level4 level3 t3 i3 1 pml4 i4 o3 o4.levelled (λ g. ground (arith, h3, g))
          b3 (λ g. ground (arith, top4, g)) b4 (λ g. ground (arith, top4, h3, g)) in
    let k3 : w.words e3 ≡ s3.words e3 = m.upper t3 i3 (ground (arith, mid3)) b3 in
    let answer =
      get_phys-page s4 s3 w pml4 virt phys flags k4 k3 o4.present o3.present m.present m.small
        m.page in
    let result : (map_page_in s pml4 virt phys flags).0 ≡ w = ap (λ r. r.0) (r4 ∙ r3) in
    subst (λ x. Translates s x level pml4 virt phys) (sym result)
      (record {
        translated = answer;
        level' = level';
        levelled = m.levelled;
        extends = λ u n.
            let u4 = o4.extends u n in
            let u3 = o3.extends u (λ g. n (sym u4 ∙ g)) in
            m.extends u (λ g. n (sym u4 ∙ sym u3 ∙ g)) ∙ u3 ∙ u4;
      })
