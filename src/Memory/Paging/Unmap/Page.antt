-- ===== src/Memory/Paging/Unmap/Page.antt =====
-- What `paging_resolve_virtual_address` finds when the entry of a page was cleared: nothing in the page,
-- and what it found before at every other address.
use j_oe_s.Base.{ℕ, ◌≡◌, ◌≢◌, refl, ap, ◌∙◌, arith, sym, subst, if◌then◌else◌}
use j_oe_s.Memory.Paging.{Paging, table_at, resolve_in_pt, resolve_virtual_address}
use j_oe_s.Memory.Paging.Entry.{
  PageSize, size_4kb, size_2mb, size_1gb, is_present, without_present, base_4kb, pml4_idx, pdpr_idx,
  pd_idx, pt_idx,
}
use j_oe_s.Memory.Paging.Tables.{IsTables}
use j_oe_s.Memory.Paging.Pages.{page_number}
use j_oe_s.Memory.Paging.Walk.{Way, Way-rank, walk_absent, Step, step_pd, step_pdpr, step_root}
use j_oe_s.Memory.Paging.Beside.{write_entry_here, other_pt, other_leaf, beside, along}
use j_oe_s.Memory.Paging.Unmap.{clear_present}
use j_oe_s.Memory.Paging.Unmap.Clear.{without_present-is_present}

-- What was cleared: nothing resolves in the page, and all else is as before.
pub record Unmapped (s s' : Paging) (root virt : ℕ) (size : PageSize) : Type 0 where
  pub gone :
      (virt' : ℕ)
      → page_number size virt' ≡ page_number size virt
      → resolve_virtual_address s' root virt' ≡ 0
  pub others :
      (virt' : ℕ)
      → page_number size virt' ≢ page_number size virt
      → resolve_virtual_address s' root virt' ≡ resolve_virtual_address s root virt'

-- A cleared entry of a table above the last level.
gone :
    (k : ℕ) (above below : Paging → ℕ → ℕ → ℕ) (l : Step k above below) (s : Paging) (t virt i : ℕ)
    → l.ix virt ≡ i
    → above (clear_present s t i) virt t ≡ 0
gone k above below l s t virt i e =
    let s' = clear_present s t i in
    let raw = s.entries t i in
    l.shape s' virt t
    ∙ walk_absent l.large l.base (λ e. below s' virt (table_at s' e)) (s'.entries t (l.ix virt))
        (ap is_present (ap (s'.entries t) e ∙ write_entry_here s t i (without_present raw))
          ∙ without_present-is_present raw)

gone_pt :
    (s : Paging) (t virt i : ℕ) → pt_idx virt ≡ i → resolve_in_pt (clear_present s t i) virt t ≡ 0
unfolding resolve_in_pt
gone_pt s t virt i e =
    let s' = clear_present s t i in
    let raw = s.entries t i in
    ap (λ raw'. if is_present raw' then base_4kb raw' else 0)
      (ap (s'.entries t) e ∙ write_entry_here s t i (without_present raw))
    ∙ rw (without_present-is_present raw) refl

-- A way through an index is one through any index that equals it.
turned :
    {s : Paging} {rank : ℕ → ℕ} {k t i j next : ℕ}
    → i ≡ j
    → Way s rank k t j next
    → Way s rank k t i next
turned {s} {rank} {k} {t} {i} {j} {next} e w = subst (λ q. Way s rank k t q next) (sym e) w

module _ (s : Paging) (rank : ℕ → ℕ) (good : IsTables s rank) (root pdpr virt : ℕ)
    (ranked : rank root ≡ 4) (w4 : Way s rank 2 root (pml4_idx virt) pdpr) where
  rank-pdpr : rank pdpr ≡ 3
  rank-pdpr = Way-rank s rank 2 root (pml4_idx virt) pdpr good w4

  pub Unmapped-1gb : Unmapped s (clear_present s pdpr (pdpr_idx virt)) root virt size_1gb
  unfolding step_root step_pdpr step_pd
  Unmapped-1gb =
      let i = pdpr_idx virt in
      let raw = without_present (s.entries pdpr i) in
      record {
        gone = λ v e.
            along s pdpr i raw rank good 2 _ _ step_root v root pdpr (omega (arith, rank-pdpr))
              (turned (omega (arith, e)) w4)
            ∙ gone 1 _ _ step_pdpr s pdpr v i (omega (arith, e));
        others = λ virt' ne.
            beside s pdpr i raw rank good 2 _ _ step_root virt root pdpr
              (λ v. pdpr_idx v ≡ pdpr_idx virt) (omega (arith, rank-pdpr)) w4
              (λ v q r. other_leaf s pdpr i raw rank good 1 _ _ step_pdpr rank-pdpr v q r) virt'
              root ranked (λ h. ne (omega (arith, h.1)));
      }

  module _ (pd : ℕ) (w3 : Way s rank 1 pdpr (pdpr_idx virt) pd) where
    rank-pd : rank pd ≡ 2
    rank-pd = Way-rank s rank 1 pdpr (pdpr_idx virt) pd good w3

    pub Unmapped-2mb : Unmapped s (clear_present s pd (pd_idx virt)) root virt size_2mb
    unfolding step_root step_pdpr step_pd
    Unmapped-2mb =
        let i = pd_idx virt in
        let raw = without_present (s.entries pd i) in
        record {
          gone = λ v e.
              along s pd i raw rank good 2 _ _ step_root v root pdpr (omega (arith, rank-pd))
                (turned (omega (arith, e)) w4)
              ∙ along s pd i raw rank good 1 _ _ step_pdpr v pdpr pd (omega (arith, rank-pd))
                  (turned (omega (arith, e)) w3)
              ∙ gone 0 _ _ step_pd s pd v i (omega (arith, e));
          others = λ virt' ne.
              beside s pd i raw rank good 2 _ _ step_root virt root pdpr
                (λ v. (pdpr_idx v ≡ pdpr_idx virt) × (pd_idx v ≡ pd_idx virt))
                (omega (arith, rank-pd)) w4
                (beside s pd i raw rank good 1 _ _ step_pdpr virt pdpr pd
                  (λ v. pd_idx v ≡ pd_idx virt) (omega (arith, rank-pd)) w3
                  (λ v q r. other_leaf s pd i raw rank good 0 _ _ step_pd rank-pd v q r))
                virt' root ranked (λ h. ne (omega (arith, h.1)));
        }

    module _ (pt : ℕ) (w2 : Way s rank 0 pd (pd_idx virt) pt) where
      rank-pt : rank pt ≡ 1
      rank-pt = Way-rank s rank 0 pd (pd_idx virt) pt good w2

      pub Unmapped-4kb : Unmapped s (clear_present s pt (pt_idx virt)) root virt size_4kb
      unfolding step_root step_pdpr step_pd
      Unmapped-4kb =
          let i = pt_idx virt in
          let raw = without_present (s.entries pt i) in
          record {
            gone = λ v e.
                along s pt i raw rank good 2 _ _ step_root v root pdpr (omega (arith, rank-pt))
                  (turned (omega (arith, e)) w4)
                ∙ along s pt i raw rank good 1 _ _ step_pdpr v pdpr pd (omega (arith, rank-pt))
                    (turned (omega (arith, e)) w3)
                ∙ along s pt i raw rank good 0 _ _ step_pd v pd pt (omega (arith, rank-pt))
                    (turned (omega (arith, e)) w2)
                ∙ gone_pt s pt v i (omega (arith, e));
            others = λ virt' ne.
                beside s pt i raw rank good 2 _ _ step_root virt root pdpr
                  (λ v.
                    (pdpr_idx v ≡ pdpr_idx virt)
                    × ((pd_idx v ≡ pd_idx virt) × (pt_idx v ≡ pt_idx virt)))
                  (omega (arith, rank-pt)) w4
                  (beside s pt i raw rank good 1 _ _ step_pdpr virt pdpr pd
                    (λ v. (pd_idx v ≡ pd_idx virt) × (pt_idx v ≡ pt_idx virt))
                    (omega (arith, rank-pt)) w3
                    (beside s pt i raw rank good 0 _ _ step_pd virt pd pt
                      (λ v. pt_idx v ≡ pt_idx virt) (omega (arith, rank-pt)) w2
                      (λ v q r. other_pt s pt i raw v q)))
                  virt' root ranked (λ h. ne (omega (arith, h.1)));
          }
