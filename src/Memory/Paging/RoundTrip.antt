-- ===== src/Memory/Paging/RoundTrip.antt =====
-- `paging_map_page` with `paging_resolve_virtual_address` and `paging_unmap_page`.
use j_oe_s.Base.{
  ℕ, ◌≡◌, ◌≢◌, inl, inr, true, false, some, ◌==◌, Bool-cases, ==_iff, ==→ne, refl, sym, ◌∙◌, arith,
}
use j_oe_s.Memory.Paging.{
  Paging, paging_ok, table_at, map_page, invalidate_tlb, resolve_virtual_address, resolve_in_pdpr,
  resolve_in_pd, resolve_in_pt,
}
use j_oe_s.Memory.Paging.Entry.{
  PageSize, size_4kb, size_2mb, size_1gb, is_present, pml4_idx, pdpr_idx, pd_idx, pt_idx,
}
use j_oe_s.Memory.Paging.Frames.{Supplies}
use j_oe_s.Memory.Paging.Tables.{IsTables, invalidate_tlb-IsTables}
use j_oe_s.Memory.Paging.Pages.{page_number, Reaches}
use j_oe_s.Memory.Paging.Walk.{Step, walk_absent, step_pd, step_pdpr, step_root}
use j_oe_s.Memory.Paging.Map.{IsFrame, VacantPt, VacantPd, VacantPdpr, IsVacant, HitPdpr}
use j_oe_s.Memory.Paging.MapResolve.{map_page_without_tlb_invalidation-Maps}
use j_oe_s.Memory.Paging.Unmap.{unmap_page}
use j_oe_s.Memory.Paging.Unmap.Outcome.{unmap_page_lem}

not_hit :
    (size : PageSize) (virt virt' : ℕ)
    → page_number size virt' ≢ page_number size virt
    → pml4_idx virt' ≡ pml4_idx virt
    → HitPdpr virt size virt'
    → ⊥
not_hit size_1gb virt virt' ne e hit = ne (omega (arith, e, hit))
not_hit size_2mb virt virt' ne e hit = ne (omega (arith, e, hit.0, hit.1))
not_hit size_4kb virt virt' ne e hit = ne (omega (arith, e, hit.0, hit.1.0, hit.1.1))

-- What a successful mapping leaves.
pub record Mapped (s s' : Paging) (root phys virt : ℕ) (size : PageSize) : Type 0 where
  pub there : resolve_virtual_address s' root virt ≡ phys
  pub others :
      (virt' : ℕ)
      → page_number size virt' ≢ page_number size virt
      → resolve_virtual_address s' root virt' ≡ resolve_virtual_address s root virt'

module _ (s : Paging) (rank : ℕ → ℕ) (root phys virt flags : ℕ) (size : PageSize)
    (good : IsTables s rank) (ranked : rank root ≡ 4) (supplies : Supplies s.pmm 3)
    (frame : IsFrame size phys flags) (there : is_present flags ≡ true)
    (vacant : IsVacant s virt size root) where
  -- The mapping as a whole, with the tables on the way to the page.
  map_page-Reaches :
      (s' : Paging) × (rank' : ℕ → ℕ) × (map_page s root phys virt size flags
        ≡ some (paging_ok, invalidate_tlb virt s'))
      × Mapped s (invalidate_tlb virt s') root phys virt size
      × IsTables (invalidate_tlb virt s') rank'
      × (rank' root ≡ 4)
      × Reaches (invalidate_tlb virt s') virt size root
  unfolding map_page resolve_virtual_address resolve_in_pdpr resolve_in_pd resolve_in_pt
  map_page-Reaches =
      let m =
        map_page_without_tlb_invalidation-Maps s rank root phys virt flags size good ranked supplies
          frame there vacant in
      (
        m.s',
        m.rank',
        rw (m.succeeds, map_page) refl,
        record {
          there = m.holds.0;
          others =
              λ virt' ne. m.others virt' root ranked (λ h. not_hit size virt virt' ne h.1.0 h.1.1);
        },
        invalidate_tlb-IsTables m.s' m.rank' virt m.keeps,
        m.ranks root (λ z. absurd (omega (arith, z, ranked))) ∙ ranked,
        m.holds.1,
      )

  -- From well-formed tables, where a region has three free pages, nothing is mapped at the address, the
  -- frame is aligned to its size and below 2^40, and the flags hold the present bit and, for 2 MB and
  -- 1 GB, the page-size bit, `paging_map_page` of a frame of any of the three sizes succeeds: the address then resolves to the
  -- frame, the addresses of other pages resolve as before, the address's TLB entry is invalidated, and
  -- the tables stay well-formed.
  pub resolve-map_page :
      (s' : Paging) × (rank' : ℕ → ℕ) × (map_page s root phys virt size flags
        ≡ some (paging_ok, invalidate_tlb virt s'))
      × Mapped s (invalidate_tlb virt s') root phys virt size
      × IsTables (invalidate_tlb virt s') rank'
      × (rank' root ≡ 4)
  resolve-map_page =
      let (s', rank', e, m, good', ranked', way) = map_page-Reaches in
      (s', rank', e, m, good', ranked')

-- Where a page is vacant, its addresses resolve to NULL.
module _ (s : Paging) (virt : ℕ) where
  skip :
      (k : ℕ) (above below : Paging → ℕ → ℕ → ℕ) (l : Step k above below) (t : ℕ)
      → (is_present (s.entries t (l.ix virt)) ≡ true
          → (l.large (s.entries t (l.ix virt)) ≡ false)
            × (below s virt (table_at s (s.entries t (l.ix virt))) ≡ 0))
      → above s virt t ≡ 0
  skip k above below l t follow = elim (Bool-cases (is_present (s.entries t (l.ix virt)))) [
    | inr absent ↦
        l.shape s virt t
        ∙ walk_absent l.large l.base (λ raw. below s virt (table_at s raw))
            (s.entries t (l.ix virt)) absent
    | inl present ↦
        let (small, zero_below) = follow present in
        l.shape s virt t ∙ rw (present, small) zero_below
  ]

  vacant_pt : (t : ℕ) → VacantPt s virt t → resolve_in_pt s virt t ≡ 0
  unfolding resolve_in_pt
  vacant_pt t vacant = rw (vacant, resolve_in_pt) refl

  vacant_pd : (size : PageSize) (t : ℕ) → VacantPd s virt size t → resolve_in_pd s virt t ≡ 0
  unfolding step_pd
  vacant_pd size_2mb t vacant =
      skip 0 _ _ step_pd t (λ there. absurd (ground (arith, there, vacant)))
  vacant_pd size_4kb t vacant =
      skip 0 _ _ step_pd t (λ there. ((vacant there).0, vacant_pt _ (vacant there).1))
  vacant_pd size_1gb t vacant =
      skip 0 _ _ step_pd t (λ there. ((vacant there).0, vacant_pt _ (vacant there).1))

  vacant_pdpr : (size : PageSize) (t : ℕ) → VacantPdpr s virt size t → resolve_in_pdpr s virt t ≡ 0
  unfolding step_pdpr
  vacant_pdpr size_1gb t vacant =
      skip 1 _ _ step_pdpr t (λ there. absurd (ground (arith, there, vacant)))
  vacant_pdpr size_2mb t vacant =
      skip 1 _ _ step_pdpr t (λ there. ((vacant there).0, vacant_pd size_2mb _ (vacant there).1))
  vacant_pdpr size_4kb t vacant =
      skip 1 _ _ step_pdpr t (λ there. ((vacant there).0, vacant_pd size_4kb _ (vacant there).1))

  vacant_root :
      (size : PageSize) (root : ℕ)
      → IsVacant s virt size root
      → resolve_virtual_address s root virt ≡ 0
  unfolding step_root
  vacant_root size root vacant =
      skip 2 _ _ step_root root (λ there. (refl, vacant_pdpr size _ (vacant there)))

-- The addresses of a page are vacant together.
IsVacant-mate :
    (s : Paging) (root virt virt' : ℕ) (size : PageSize)
    → page_number size virt' ≡ page_number size virt
    → IsVacant s virt size root
    → IsVacant s virt' size root
IsVacant-mate s root virt virt' size_1gb e vacant =
    let e4 : pml4_idx virt' ≡ pml4_idx virt = omega (arith, e) in
    let e3 : pdpr_idx virt' ≡ pdpr_idx virt = omega (arith, e) in rw (e4, e3) vacant
IsVacant-mate s root virt virt' size_2mb e vacant =
    let e4 : pml4_idx virt' ≡ pml4_idx virt = omega (arith, e) in
    let e3 : pdpr_idx virt' ≡ pdpr_idx virt = omega (arith, e) in
    let e2 : pd_idx virt' ≡ pd_idx virt = omega (arith, e) in rw (e4, e3, e2) vacant
IsVacant-mate s root virt virt' size_4kb e vacant =
    let e4 : pml4_idx virt' ≡ pml4_idx virt = omega (arith, e) in
    let e3 : pdpr_idx virt' ≡ pdpr_idx virt = omega (arith, e) in
    let e2 : pd_idx virt' ≡ pd_idx virt = omega (arith, e) in
    let e1 : pt_idx virt' ≡ pt_idx virt = omega (arith, e) in rw (e4, e3, e2, e1) vacant

-- From well-formed tables, where a region has three free pages, nothing is mapped at the address, the
-- frame is aligned to its size and below 2^40, and the flags hold the present bit and, for 2 MB and
-- 1 GB, the page-size bit, `paging_map_page` of a frame of any of the three sizes and then `paging_unmap_page` of the page both
-- succeed: afterwards every address resolves as before the two, and the tables are
-- well-formed.
pub unmap_page-map_page :
    (s : Paging) (rank : ℕ → ℕ) (root phys virt flags : ℕ) (size : PageSize)
    → IsTables s rank
    → rank root ≡ 4
    → Supplies s.pmm 3
    → IsFrame size phys flags
    → is_present flags ≡ true
    → IsVacant s virt size root
    → (s' s'' : Paging) × (rank'' : ℕ → ℕ) × (map_page s root phys virt size flags
        ≡ some (paging_ok, s'))
      × (unmap_page s' root virt size ≡ some (paging_ok, s''))
      × ((virt' : ℕ)
          → resolve_virtual_address s'' root virt' ≡ resolve_virtual_address s root virt')
      × IsTables s'' rank''
unmap_page-map_page s rank root phys virt flags size good ranked supplies frame there vacant =
    let (s', rank', e, m, good', ranked', way) =
      map_page-Reaches s rank root phys virt flags size good ranked supplies frame there vacant in
    let (s'', rank'', e', u, good'', ranked'') =
      unmap_page_lem (invalidate_tlb virt s') rank' root virt size good' ranked' way in
    (
      invalidate_tlb virt s',
      invalidate_tlb virt s'',
      rank'',
      e,
      e',
      λ virt'. elim (Bool-cases (page_number size virt' == page_number size virt)) [
        | inl same ↦
            let p = (==_iff (page_number size virt') (page_number size virt)).0 same in
            u.gone virt' p
            ∙ sym (vacant_root s virt' size root (IsVacant-mate s root virt virt' size p vacant))
        | inr ne ↦
            let p = ==→ne (page_number size virt') (page_number size virt) ne in
            u.others virt' p ∙ m.others virt' p
      ],
      good'',
    )
