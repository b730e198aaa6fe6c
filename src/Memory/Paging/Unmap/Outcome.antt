-- ===== src/Memory/Paging/Unmap/Outcome.antt =====
-- `paging_unmap_page` as a whole, for pages of the three sizes.
use j_oe_s.Base.{ℕ, suc, ◌≤◌, ◌≡◌, inl, inr, true, false, some, Option, refl, ◌∙◌, arith}
use j_oe_s.Memory.Paging.{
  Paging, paging_ok, table_at, invalidate_tlb, resolve_virtual_address, resolve_in_pdpr,
  resolve_in_pd, resolve_in_pt,
}
use j_oe_s.Memory.Paging.Entry.{
  PageSize, without_present, size_4kb, size_2mb, size_1gb, is_present, is_large, pml4_idx, pdpr_idx,
  pd_idx, pt_idx,
}
use j_oe_s.Memory.Paging.Tables.{IsTables, invalidate_tlb-IsTables}
use j_oe_s.Memory.Paging.Unmap.{check_for_empty_table, clear_present, and_then, finish, unmap_page}
use j_oe_s.Memory.Paging.Pages.{Reaches}
use j_oe_s.Memory.Paging.Walk.{Way, Way-rank, Way-kept}
use j_oe_s.Memory.Paging.Beside.{Way_above}
use j_oe_s.Memory.Paging.Unmap.Clear.{clear_present-IsTables}
use j_oe_s.Memory.Paging.Unmap.Page.{Unmapped, Unmapped-4kb, Unmapped-2mb, Unmapped-1gb}
use j_oe_s.Memory.Paging.Unmap.Prune.{Pruned, Pruned-trans, check_for_empty_table-Pruned}

-- The checks of the tables on the way to an address.
module _ (root virt pdpr pd pt : ℕ) where
  abbrev check_pdpr : Paging → Option Paging
  check_pdpr t = check_for_empty_table pdpr root (pml4_idx virt) t

  abbrev check_pd : Paging → Option Paging
  check_pd t = and_then (check_for_empty_table pd pdpr (pdpr_idx virt) t) check_pdpr

  abbrev check_pt : Paging → Option Paging
  check_pt t = and_then (check_for_empty_table pt pd (pd_idx virt) t) check_pd

  Way-Pruned :
      (s s' : Paging) (rank rank' : ℕ → ℕ) (k top t i next : ℕ)
      → Pruned s s' rank rank' top
      → top ≤ k
      → Way s rank k t i next
      → Way s' rank' k t i next
  Way-Pruned s s' rank rank' k top t i next p le w =
      let r = w.child.ranked in
      Way-kept s s' rank rank' k t i next (p.frame t i (omega (arith, le, r))) p.same_offset
        (p.ranks t (omega (arith, le, r))) w

  module _ (s : Paging) (rank : ℕ → ℕ) (good : IsTables s rank)
      (w4 : Way s rank 2 root (pml4_idx virt) pdpr) where
    check_pdpr-Pruned :
        (s' : Paging) × (rank' : ℕ → ℕ) × (check_pdpr s ≡ some s') × Pruned s s' rank rank' 3
    check_pdpr-Pruned = check_for_empty_table-Pruned s rank 2 root (pml4_idx virt) pdpr good w4

  module _ (s : Paging) (rank : ℕ → ℕ) (good : IsTables s rank)
      (w4 : Way s rank 2 root (pml4_idx virt) pdpr)
      (w3 : Way s rank 1 pdpr (pdpr_idx virt) pd) where
    check_pd-Pruned :
        (s' : Paging) × (rank' : ℕ → ℕ) × (check_pd s ≡ some s') × Pruned s s' rank rank' 3
    check_pd-Pruned =
        let (s1, rank1, e, p) =
          check_for_empty_table-Pruned s rank 1 pdpr (pdpr_idx virt) pd good w3 in
        let (s2, rank2, e', q) =
          check_pdpr-Pruned s1 rank1 p.keeps
            (Way-Pruned s s1 rank rank1 2 2 root (pml4_idx virt) pdpr p (omega arith) w4) in
        (
          s2,
          rank2,
          rw e e',
          Pruned-trans s s1 s2 rank rank1 rank2 2 3 (omega arith) (omega arith) p q,
        )

  module _ (s : Paging) (rank : ℕ → ℕ) (good : IsTables s rank)
      (w4 : Way s rank 2 root (pml4_idx virt) pdpr) (w3 : Way s rank 1 pdpr (pdpr_idx virt) pd)
      (w2 : Way s rank 0 pd (pd_idx virt) pt) where
    check_pt-Pruned :
        (s' : Paging) × (rank' : ℕ → ℕ) × (check_pt s ≡ some s') × Pruned s s' rank rank' 3
    check_pt-Pruned =
        let (s1, rank1, e, p) = check_for_empty_table-Pruned s rank 0 pd (pd_idx virt) pt good w2 in
        let (s2, rank2, e', q) =
          check_pd-Pruned s1 rank1 p.keeps
            (Way-Pruned s s1 rank rank1 2 1 root (pml4_idx virt) pdpr p (omega arith) w4)
            (Way-Pruned s s1 rank rank1 1 1 pdpr (pdpr_idx virt) pd p (omega arith) w3) in
        (
          s2,
          rank2,
          rw e e',
          Pruned-trans s s1 s2 rank rank1 rank2 1 3 (omega arith) (omega arith) p q,
        )

-- A way above the cleared entry is still one.
Way_cleared :
    (s : Paging) (rank : ℕ → ℕ) (good : IsTables s rank) (leaf idx k t i next : ℕ)
    → rank leaf ≤ suc k
    → Way s rank k t i next
    → Way (clear_present s leaf idx) rank k t i next
Way_cleared s rank good leaf idx k t i next lower w =
    Way_above s leaf idx (without_present (s.entries leaf idx)) rank good k t i next lower w

-- What follows the clearing of the entry.
module _ (s s1 s2 : Paging) (rank rank2 : ℕ → ℕ) (root virt : ℕ) (size : PageSize)
    (ranked : rank root ≡ 4) (u : Unmapped s s1 root virt size)
    (p : Pruned s1 s2 rank rank2 3) where
  Unmapped-Pruned : Unmapped s (invalidate_tlb virt s2) root virt size
  unfolding resolve_virtual_address resolve_in_pdpr resolve_in_pd resolve_in_pt
  Unmapped-Pruned = record {
    gone = λ virt' e. p.resolves root virt' ranked ∙ u.gone virt' e;
    others = λ virt' ne. p.resolves root virt' ranked ∙ u.others virt' ne;
  }

abbrev UnmapsPage : Paging → (ℕ → ℕ) → ℕ → ℕ → PageSize → Type 0
UnmapsPage s rank root virt size =
    (s' : Paging) × (rank' : ℕ → ℕ) × (unmap_page s root virt size
      ≡ some (paging_ok, invalidate_tlb virt s'))
    × Unmapped s (invalidate_tlb virt s') root virt size
    × IsTables (invalidate_tlb virt s') rank'
    × (rank' root ≡ 4)

module _ (s : Paging) (rank : ℕ → ℕ) (root virt : ℕ) (good : IsTables s rank)
    (ranked : rank root ≡ 4) where
  outcome :
      (s1 s2 : Paging) (rank2 : ℕ → ℕ) (size : PageSize)
      → unmap_page s root virt size ≡ finish virt (some s2)
      → Unmapped s s1 root virt size
      → Pruned s1 s2 rank rank2 3
      → UnmapsPage s rank root virt size
  outcome s1 s2 rank2 size e u p = (
    s2,
    rank2,
    e,
    Unmapped-Pruned s s1 s2 rank rank2 root virt size ranked u p,
    invalidate_tlb-IsTables s2 rank2 virt p.keeps,
    p.ranks root (omega (arith, ranked)) ∙ ranked,
  )

  abbrev pdpr : ℕ
  pdpr = table_at s (s.entries root (pml4_idx virt))

  abbrev pd : ℕ
  pd = table_at s (s.entries pdpr (pdpr_idx virt))

  abbrev pt : ℕ
  pt = table_at s (s.entries pd (pd_idx virt))

  module _ (at4 : is_present (s.entries root (pml4_idx virt)) ≡ true)
      (at3 : is_present (s.entries pdpr (pdpr_idx virt)) ≡ true) where
    w4 : Way s rank 2 root (pml4_idx virt) pdpr
    w4 = record {
      child = record { ranked = ranked; inside = omega arith; there = at4; small = inr refl };
      leads = refl;
    }

    rank-pdpr : rank pdpr ≡ 3
    rank-pdpr = Way-rank s rank 2 root (pml4_idx virt) pdpr good w4

    unmap_1gb : UnmapsPage s rank root virt size_1gb
    unfolding unmap_page
    unmap_1gb =
        let s1 = clear_present s pdpr (pdpr_idx virt) in
        let (s2, rank2, e, p) =
          check_pdpr-Pruned root virt pdpr pd pt s1 rank
            (clear_present-IsTables s pdpr (pdpr_idx virt) rank good)
            (Way_cleared s rank good pdpr (pdpr_idx virt) 2 root (pml4_idx virt) pdpr
              (omega (arith, rank-pdpr)) w4) in
        outcome s1 s2 rank2 size_1gb (rw (at4, at3, unmap_page, e) refl)
          (Unmapped-1gb s rank good root pdpr virt ranked w4) p

    module _ (small3 : is_large (s.entries pdpr (pdpr_idx virt)) ≡ false)
        (at2 : is_present (s.entries pd (pd_idx virt)) ≡ true) where
      w3 : Way s rank 1 pdpr (pdpr_idx virt) pd
      w3 = record {
        child = record {
          ranked = rank-pdpr;
          inside = omega arith;
          there = at3;
          small = inl small3;
        };
        leads = refl;
      }

      rank-pd : rank pd ≡ 2
      rank-pd = Way-rank s rank 1 pdpr (pdpr_idx virt) pd good w3

      unmap_2mb : UnmapsPage s rank root virt size_2mb
      unfolding unmap_page
      unmap_2mb =
          let s1 = clear_present s pd (pd_idx virt) in
          let (s2, rank2, e, p) =
            check_pd-Pruned root virt pdpr pd pt s1 rank
              (clear_present-IsTables s pd (pd_idx virt) rank good)
              (Way_cleared s rank good pd (pd_idx virt) 2 root (pml4_idx virt) pdpr
                (omega (arith, rank-pd)) w4)
              (Way_cleared s rank good pd (pd_idx virt) 1 pdpr (pdpr_idx virt) pd
                (omega (arith, rank-pd)) w3) in
          outcome s1 s2 rank2 size_2mb (rw (at4, at3, at2, unmap_page, e) refl)
            (Unmapped-2mb s rank good root pdpr virt ranked w4 pd w3) p

      module _ (small2 : is_large (s.entries pd (pd_idx virt)) ≡ false) where
        w2 : Way s rank 0 pd (pd_idx virt) pt
        w2 = record {
          child = record {
            ranked = rank-pd;
            inside = omega arith;
            there = at2;
            small = inl small2;
          };
          leads = refl;
        }

        rank-pt : rank pt ≡ 1
        rank-pt = Way-rank s rank 0 pd (pd_idx virt) pt good w2

        unmap_4kb : UnmapsPage s rank root virt size_4kb
        unfolding unmap_page
        unmap_4kb =
            let s1 = clear_present s pt (pt_idx virt) in
            let (s2, rank2, e, p) =
              check_pt-Pruned root virt pdpr pd pt s1 rank
                (clear_present-IsTables s pt (pt_idx virt) rank good)
                (Way_cleared s rank good pt (pt_idx virt) 2 root (pml4_idx virt) pdpr
                  (omega (arith, rank-pt)) w4)
                (Way_cleared s rank good pt (pt_idx virt) 1 pdpr (pdpr_idx virt) pd
                  (omega (arith, rank-pt)) w3)
                (Way_cleared s rank good pt (pt_idx virt) 0 pd (pd_idx virt) pt
                  (omega (arith, rank-pt)) w2) in
            outcome s1 s2 rank2 size_4kb (rw (at4, at3, at2, unmap_page, e) refl)
              (Unmapped-4kb s rank good root pdpr virt ranked w4 pd w3 pt w2) p

-- From well-formed tables, where the tables on the way to a page of the size exist and no larger page
-- is on it, `paging_unmap_page` succeeds and invalidates the TLB entry: the addresses of
-- the page then resolve to NULL, every other address resolves as before, and the tables stay well-formed, whichever
-- of them became empty and were freed.
pub unmap_page_lem :
    (s : Paging) (rank : ℕ → ℕ) (root virt : ℕ) (size : PageSize)
    → IsTables s rank
    → rank root ≡ 4
    → Reaches s virt size root
    → (s' : Paging) × (rank' : ℕ → ℕ) × (unmap_page s root virt size
        ≡ some (paging_ok, invalidate_tlb virt s'))
      × Unmapped s (invalidate_tlb virt s') root virt size
      × IsTables (invalidate_tlb virt s') rank'
      × (rank' root ≡ 4)
unmap_page_lem s rank root virt size_1gb good ranked way =
    unmap_1gb s rank root virt good ranked way.0 way.1
unmap_page_lem s rank root virt size_2mb good ranked way =
    unmap_2mb s rank root virt good ranked way.0 way.1.0 way.1.1 way.1.2
unmap_page_lem s rank root virt size_4kb good ranked way =
    unmap_4kb s rank root virt good ranked way.0 way.1.0 way.1.1 way.1.2.0 way.1.2.1
