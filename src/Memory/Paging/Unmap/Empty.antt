-- ===== src/Memory/Paging/Unmap/Empty.antt =====
-- An entry that leads to a table without entries can be cleared: every address resolves as before.
use j_oe_s.Base.{
  ℕ, suc, ◌≡◌, inl, inr, ◌&&◌, ◌==◌, Bool-cases, ==_iff, refl, ap, ap₂, sym, subst, ◌∙◌, arith,
}
use j_oe_s.Memory.Paging.{Paging, table_at, resolve_virtual_address}
use j_oe_s.Memory.Paging.Entry.{is_present, without_present}
use j_oe_s.Memory.Paging.Tables.{IsTables}
use j_oe_s.Memory.Paging.Walk.{
  Way, walk_absent, IsEmpty, Step, above_way, above_same, step_pd, step_pdpr, step_root,
}
use j_oe_s.Memory.Paging.Beside.{write_entry_here, write_entry_away, other_pt}
use j_oe_s.Memory.Paging.Unmap.{clear_present}
use j_oe_s.Memory.Paging.Unmap.Clear.{without_present-is_present}

module _ (s : Paging) (rank : ℕ → ℕ) (good : IsTables s rank) (k parent idx next : ℕ)
    (way : Way s rank k parent idx next) (empty : IsEmpty s next) where
  abbrev cleared : ℕ
  cleared = without_present (s.entries parent idx)

  abbrev s' : Paging
  s' = clear_present s parent idx

  pruned :
      (j : ℕ) (above below : Paging → ℕ → ℕ → ℕ) (l : Step j above below) (virt : ℕ)
      → ((u : ℕ) → rank u ≡ suc j → below s' virt u ≡ below s virt u)
      → (t : ℕ) → rank t ≡ suc (suc j)
      → above s' virt t ≡ above s virt t
  pruned j above below l virt same t ranked = elim (Bool-cases (t == parent && l.ix virt == idx)) [
    | inl here ↦
        let et : t ≡ parent = (==_iff t parent).0 (ground (arith, here)) in
        let ei : l.ix virt ≡ idx = (==_iff (l.ix virt) idx).0 (ground (arith, here)) in
        let ej : k ≡ j = omega (arith, ap rank et, ranked, way.child.ranked) in
        let at_t = subst (λ q. Way s rank k q idx next) (sym et) way in
        let at_i = subst (λ q. Way s rank k t q next) (sym ei) at_t in
        let w = subst (λ q. Way s rank q t (l.ix virt) next) ej at_i in
        l.shape s' virt t
        ∙ walk_absent l.large l.base (λ raw. below s' virt (table_at s' raw))
            (s'.entries t (l.ix virt))
            (ap is_present (ap₂ s'.entries et ei ∙ write_entry_here s parent idx cleared)
              ∙ without_present-is_present (s.entries parent idx))
        ∙ sym (above_way j above below l s rank virt t next w ∙ l.empty s virt next empty)
    | inr other ↦
        above_same j above below l s s' rank virt t good ranked
          (write_entry_away s parent idx cleared t (l.ix virt)
            (λ h. absurd (ground (arith, other, h.0, h.1))))
          refl (λ q r w. same q r)
  ]

  pub pruned_root :
      (virt t : ℕ)
      → rank t ≡ 4
      → resolve_virtual_address s' t virt ≡ resolve_virtual_address s t virt
  pruned_root virt = pruned 2 _ _ step_root virt (
      pruned 1 _ _ step_pdpr virt (
        pruned 0 _ _ step_pd virt (λ t ranked.
          other_pt s parent idx cleared virt t
            (λ h. absurd (omega (arith, ap rank h.0, ranked, way.child.ranked))))))
